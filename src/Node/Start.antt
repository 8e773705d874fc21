-- ===== src/Node/Start.antt =====
-- The start of a node: `Start` and `toMultiaddr` of pkg/node/node.go and `OpenStore` of
-- pkg/state/store.go, with the commands `init`, `start` and `query account` of
-- cmd/opencoin/cmd/root.go. What a start that fails has already written is not kept. The HTTP server
-- is left out.
use opencoin.Prelude.{
  [], ◌∷◌, ◌++◌, length, Bytes, Bool, false, ◌==◌, if◌then◌else◌, Option, none, some, Result, ok,
  err, panics, stuck, ◌>>=◌, ◌>>◌, fail_if,
}
use opencoin.Prelude.Int.{ℤ, pos}
use opencoin.Types.{Address, Hash, Account}
use opencoin.Wire.{Wire}
use opencoin.Store.{get_account}
use opencoin.Crypto.{Crypto}
use opencoin.Contracts.{Runtime, new_contract_engine}
use opencoin.Rc.{Params}
use opencoin.Dpos.{Dpos, new_dpos}
use opencoin.Dag.{new_dag}
use opencoin.Mempool.Select.{HeapPackage}
use opencoin.Keys.{Dilithium, KeyPair, Disk, dilithium_sign, dilithium_verify, load_key_pair}
use opencoin.Config.{ascii, NodeConfig, ConfigJson, default_config, save_config, load_config}
use opencoin.Consensus.{Keys, Engine, new_engine}
use opencoin.Genesis.{Genesis, default_genesis, save, load}
use opencoin.P2p.Host.{Libp2p, P2pNode, new_p2p}
use opencoin.Chain.{Database}
use opencoin.Node.{apply_genesis}
use opencoin.Node.Services.{Services, services}

-- What a node is started over: the file system, JSON, Pebble by its directory, `net.SplitHostPort`
-- and libp2p, with the packages that its services call.
pub record Platform (b : Database) : Type 1 where
  pub crypto : Crypto
  pub dilithium : Dilithium
  pub runtime : Runtime
  pub heap : HeapPackage
  pub disk : Disk
  pub config_json : ConfigJson
  pub marshal_genesis : Genesis → Result Bytes
  pub unmarshal_genesis : Bytes → Result Genesis
  pub open_pebble : Bytes → Result b.kv.Db
  pub split_host_port : Bytes → Result (Bytes × Bytes)
  pub libp2p : Libp2p

-- The engine's signer, of a key pair, and its verifier.
abbrev pub dilithium_keys : Dilithium → (Bytes → Hash) → KeyPair → Keys
dilithium_keys d sha256 kp = record {
  sign = dilithium_sign d kp;
  verify = dilithium_verify d;
  sha256 = sha256;
}

module _ (b : Database) (o : Platform b) where
  open o use {crypto, runtime, heap, disk, libp2p}

  -- `Node`; the graph, the contracts and the state are in its services.
  pub record Node : Type 0 where
    pub cfg : NodeConfig
    pub genesis : Genesis
    pub params : Params
    pub dpos : Dpos
    pub services : Services b runtime
    pub consensus : Option (Engine (Services b runtime) × Keys)
    pub p2p : P2pNode libp2p

  abbrev pub config_path : Bytes → Bytes
  config_path home = disk.join (home ∷ ascii "config" ∷ ascii "config.json" ∷ [])

  abbrev pub genesis_path : Bytes → Bytes
  genesis_path home = disk.join (home ∷ ascii "config" ∷ ascii "genesis.json" ∷ [])

  unfoldable pub open_store : Bytes → Result b.kv.Db
  open_store home = o.open_pebble (disk.join (home ∷ ascii "state" ∷ []))

  -- `strings.HasPrefix(addr, "/")`
  abbrev is_multiaddr : Bytes → Bool
  is_multiaddr [] = false
  is_multiaddr (x ∷ addr) = x == b'/'

  -- The listen address with its host and port, or the default one.
  unfoldable pub to_multiaddr : Bytes → Bytes
  to_multiaddr addr = if is_multiaddr addr then addr else elim (o.split_host_port addr) [
    | ok found ↦ ascii "/ip4/" ++ found.0 ++ ascii "/tcp/" ++ found.1
    | err _ ↦ ascii "/ip4/0.0.0.0/tcp/26656"
    | panics _ ↦ ascii "/ip4/0.0.0.0/tcp/26656"
    | stuck ↦ ascii "/ip4/0.0.0.0/tcp/26656"
  ]

  -- The engine of a validator, with at most 1000 transactions to a block, and without a network.
  unfoldable pub start_engine :
      ⦃w : Wire⦄
      → NodeConfig
      → Params
      → Services b runtime
      → Dpos
      → disk.Files
      → Result (Engine (Services b runtime) × Keys)
  start_engine cfg p s dpos files = do
    kp ← load_key_pair disk (disk.join (cfg.home_dir ∷ cfg.validator.private_key_file ∷ [])) files
    fail_if (length cfg.validator.operator_address == 0) "validator operator_address required"
    engine ←
        new_engine (services b runtime crypto p heap) s dpos cfg.validator.operator_address
          (pos 1000)
    ok (engine, dilithium_keys o.dilithium crypto.sha256 kp)

  unfoldable pub start_consensus :
      ⦃w : Wire⦄
      → NodeConfig
      → Params
      → Services b runtime
      → Dpos
      → disk.Files
      → Result (Option (Engine (Services b runtime) × Keys))
  unfolding start_engine
  start_consensus cfg p s dpos files =
      if cfg.validator.enabled
      then start_engine cfg p s dpos files >>= (λ engine. ok (some engine))
      else ok none

  -- The services over an opened store: a new graph, a new contract engine and an empty mempool.
  abbrev pub new_services : b.kv.Db → Services b runtime
  new_services store = record {
    chain = record { store = store; dag = new_dag; contracts = some (new_contract_engine runtime) };
    pool = [];
  }

  unfoldable pub start : ⦃w : Wire⦄ → NodeConfig → disk.Files → Result Node
  unfolding open_store to_multiaddr start_consensus
  start cfg files = do
    opened ← open_store cfg.home_dir
    gen ← load crypto o.unmarshal_genesis (disk.read_file files (genesis_path cfg.home_dir))
    let p : Params = record {
      alpha = gen.rc_params.alpha;
      beta = gen.rc_params.beta;
      c_size = gen.rc_params.c_size;
      c_compute = gen.rc_params.c_compute;
      c_storage = gen.rc_params.c_storage;
      max_skew_sec = gen.rc_params.max_skew_sec;
      window_n = gen.rc_params.window_n;
    }
    (store, dpos) ←
        apply_genesis b.kv p gen opened
          (new_dpos cfg.consensus.min_stake cfg.consensus.max_validators)
    consensus ← start_consensus cfg p (new_services store) dpos files
    host ← new_p2p libp2p (to_multiaddr cfg.p2p.listen_addr ∷ []) cfg.p2p.bootstrap_peers
    ok (record {
      cfg = cfg;
      genesis = gen;
      params = p;
      dpos = dpos;
      services = new_services store;
      consensus = consensus;
      p2p = host;
    })

  -- The command `init`, at a time.
  unfoldable pub init_command : Bytes → ℤ → disk.Files → Result disk.Files
  init_command home now files = do
    made ← disk.mkdir_all files (disk.join (home ∷ ascii "config" ∷ []))
    saved ←
        save_config disk o.config_json (config_path home)
          (record default_config { home_dir = home }) made
    raw ← save crypto o.marshal_genesis (default_genesis now)
    disk.write_file saved (genesis_path home) raw

  -- The command `start`.
  unfoldable pub start_command : ⦃w : Wire⦄ → Bytes → disk.Files → Result Node
  unfolding start
  start_command home files = do
    cfg ← load_config disk o.config_json (config_path home) files
    start cfg files

  -- The command `query account`: what it prints, or nothing where there is no account.
  unfoldable pub query_account : ⦃w : Wire⦄ → Bytes → Address → Result (Option Account)
  unfolding open_store
  query_account home addr = do store ← open_store home; get_account b.kv store addr
