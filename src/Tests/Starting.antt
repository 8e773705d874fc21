-- ===== src/Tests/Starting.antt =====
-- A node that `init` sets up and `start` starts, and a validator that starts again.
use opencoin.Prelude.{
  ◌≡◌, ◌≢◌, refl, [], ◌∷◌, ◌++◌, List, Bytes, Bytes_discrete, differ_at, none, some, replicate, ok,
  true, arith, ap, sym,
}
use opencoin.Prelude.Int.{pos}
use opencoin.Prelude.Map.{Map, Bytes_key, lookup, insert, lookup-insert_ne}
use opencoin.Types.{Hash}
use opencoin.Store.{
  get_last_timestamps, set_last_timestamps, get_consensus_state, meta_last_timestamps,
  encode_timestamps, from_big_endian, meta_consensus_height, meta_consensus_round,
  meta_consensus_last_finalized,
}
use opencoin.Crypto.{bytes_equal}
use opencoin.Node.{apply_genesis, load_accounts, register_all, first_timestamp, error_ignored}
use opencoin.Genesis.{default_genesis, save, load, validate, validate_validators}
use opencoin.Rc.{validate_genesis}
use opencoin.Dpos.{new_dpos, validator_set}
use opencoin.Keys.{load_key_pair}
use opencoin.Config.{ascii, NodeConfig, ConfigJson, default_config, save_config}
use opencoin.Consensus.{Engine, Keys, new_engine}
use opencoin.P2p.Host.{Libp2p, new_p2p, connect_peers}
use opencoin.Node.Services.{Services}
use opencoin.Node.Start.{
  Platform, Node, open_store, to_multiaddr, start_consensus, new_services, start, init_command,
  start_command, genesis_path, config_path, dilithium_keys,
}
use opencoin.Node.Fresh.{Working, first_config, start_command-init_command}
use opencoin.Node.Started.{start-resumes}
use opencoin.Tests.Fixtures.{plain_wire, map_kv, map_kv-laws, open_crypto, idle_runtime}
use opencoin.Tests.Blocks.{map_database}
use opencoin.Tests.Picking.{stack_heap}
use opencoin.Tests.Signing.{map_disk, map_disk-laws, flat_dilithium}

-- A host is the addresses that it listens on and is connected to.
abbrev list_libp2p : Libp2p
list_libp2p = record {
  Host = List Bytes;
  PubSub = List Bytes;
  Dht = List Bytes;
  Multiaddr = Bytes;
  AddrInfo = Bytes;
  new_host = λ addrs. ok addrs;
  new_gossip_sub = λ host. ok host;
  new_dht = λ host. ok host;
  new_multiaddr = λ addr. ok addr;
  addr_info = λ ma. ok ma;
  connect = λ host info. ok (info ∷ host);
}

-- A configuration is told by its home, and a genesis is the default one at a fixed time.
abbrev home_json : ConfigJson
home_json = record {
  marshal = λ cfg. ok cfg.home_dir;
  unmarshal = λ raw. ok (record default_config { home_dir = raw });
}

abbrev pub empty_platform : Platform map_database
empty_platform = record {
  crypto = open_crypto;
  dilithium = flat_dilithium;
  runtime = idle_runtime;
  heap = stack_heap;
  disk = map_disk;
  config_json = home_json;
  marshal_genesis = λ g. ok [];
  unmarshal_genesis = λ raw. ok (default_genesis (pos 100));
  open_pebble = λ path. ok [];
  split_host_port = λ addr. ok (ascii "0.0.0.0", ascii "26656");
  libp2p = list_libp2p;
}

abbrev pub home : Bytes
home = ascii "home/"

read_other_file :
    (files files' : Map Bytes Bytes) (path other raw : Bytes)
    → path ≢ other
    → map_disk.write_file files path raw ≡ ok files'
    → map_disk.read_file files' other ≡ map_disk.read_file files other
read_other_file files files' path other raw ne h =
    let same : insert path raw files ≡ files' = cc in
    rw (← same, lookup-insert_ne path other raw files ne) refl

same_text :
    {x y : Bytes} (z : NodeConfig)
    → ok x ≡ ok y
    → ok (record z { home_dir = y }) ≡ ok (record z { home_dir = x })
same_text z e = let same = ok_back e in ap (λ b. ok (record z { home_dir = b })) (sym same)
  where
    ok_back : {x y : Bytes} → ok x ≡ ok y → x ≡ y
    ok_back e = cc

home-Working : Working map_database empty_platform home (pos 100)
unfolding lookup insert
home-Working = record {
  config_back = λ raw e. same_text default_config e;
  genesis_back = λ raw e. refl;
  paths_apart = differ_at 11 _ _ (omega arith);
  read_other = read_other_file;
  store = [];
  opened = refl;
  empty = refl;
  stamped = (meta_last_timestamps, encode_timestamps (pos 100 ∷ [])) ∷ [];
  writes = refl;
  split = refl;
  host = ascii "/ip4/0.0.0.0/tcp/26656" ∷ [];
  listens = refl;
  gossip = ascii "/ip4/0.0.0.0/tcp/26656" ∷ [];
  gossips = refl;
  dht = ascii "/ip4/0.0.0.0/tcp/26656" ∷ [];
  routes = refl;
}

abbrev home_files : Map Bytes Bytes
home_files =
    (config_path map_database empty_platform home, home)
    ∷ (genesis_path map_database empty_platform home, [])
    ∷ []

initialized : init_command map_database empty_platform home (pos 100) [] ≡ ok home_files
unfolding init_command save_config save validate validate_validators validate_genesis
    default_genesis insert Bytes_discrete
initialized = refl

start_command-init_command_example :
    (n : Node map_database empty_platform) × (start_command map_database empty_platform home
        home_files
      ≡ ok n)
    × (n.cfg ≡ first_config map_database empty_platform home)
    × (n.genesis ≡ default_genesis (pos 100))
    × (n.dpos.validators ≡ [])
    × (n.consensus ≡ none)
    × (get_last_timestamps map_kv n.services.chain.store ≡ ok (pos 100 ∷ []))
start_command-init_command_example =
    start_command-init_command map_database empty_platform home (pos 100) [] home_files home-Working
      map_disk-laws map_kv-laws (record { above = omega arith; below = omega arith }) initialized

abbrev kept_hash : Hash
kept_hash = replicate 32 7

-- A store at height 5 in round 2.
abbrev kept_store : Map Bytes Bytes
kept_store =
    (meta_consensus_height, 0 ∷ 0 ∷ 0 ∷ 0 ∷ 0 ∷ 0 ∷ 0 ∷ 5 ∷ [])
    ∷ (meta_consensus_round, 0 ∷ 0 ∷ 0 ∷ 0 ∷ 0 ∷ 0 ∷ 0 ∷ 2 ∷ [])
    ∷ (meta_consensus_last_finalized, kept_hash)
    ∷ []

abbrev kept_platform : Platform map_database
kept_platform = record empty_platform { open_pebble = λ path. ok kept_store }

abbrev pub validating : NodeConfig
validating = record default_config {
  home_dir = home;
  validator = record default_config.validator { enabled = true; operator_address = 1 ∷ [] };
}

abbrev pub validator_files : Map Bytes Bytes
validator_files =
    (genesis_path map_database kept_platform home, [])
    ∷ (home ++ ascii "config/validator_key.json", 1 ∷ 1 ∷ 2 ∷ [])
    ∷ []

abbrev running_services : Services map_database idle_runtime
running_services =
    new_services map_database kept_platform
      (kept_store ++ (meta_last_timestamps, encode_timestamps (pos 100 ∷ [])) ∷ [])

abbrev running_engine : Engine (Services map_database idle_runtime)
running_engine = record {
  state = running_services;
  dpos = new_dpos 100_000_000 100;
  validators = validator_set (new_dpos 100_000_000 100);
  height = 5;
  round = 2;
  last_finalized = kept_hash;
  votes = [];
  validator_addr = 1 ∷ [];
  block_max_txs = pos 1000;
}

abbrev running_keys : Keys
running_keys =
    dilithium_keys flat_dilithium open_crypto.sha256
      (record { public_key = 1 ∷ []; private_key = 2 ∷ [] })

abbrev running : Node map_database kept_platform
running = record {
  cfg = validating;
  genesis = default_genesis (pos 100);
  params = (default_genesis (pos 100)).rc_params;
  dpos = new_dpos 100_000_000 100;
  services = running_services;
  consensus = some (running_engine, running_keys);
  p2p = record {
    host = ascii "/ip4/0.0.0.0/tcp/26656" ∷ [];
    dht = ascii "/ip4/0.0.0.0/tcp/26656" ∷ [];
    pub_sub = ascii "/ip4/0.0.0.0/tcp/26656" ∷ [];
    sessions = record { sessions = [] };
  };
}

kept_state : get_consensus_state map_kv kept_store ≡ ok (5, 2, kept_hash)
unfolding get_consensus_state lookup Bytes_discrete from_big_endian
kept_state = refl

started_again : start map_database kept_platform validating validator_files ≡ ok running
unfolding start load validate validate_validators validate_genesis default_genesis default_config
    apply_genesis load_accounts register_all first_timestamp error_ignored get_last_timestamps
    set_last_timestamps start_consensus load_key_pair new_engine get_consensus_state lookup insert
    Bytes_discrete from_big_endian new_p2p connect_peers to_multiaddr bytes_equal open_store
started_again = refl

start-resumes_example :
    (running_engine.height ≡ 5)
    × (running_engine.round ≡ 2)
    × (running_engine.last_finalized ≡ kept_hash)
    × (running_engine.state ≡ running.services)
    × (running_engine.validators ≡ validator_set running.dpos)
    × (running_engine.validator_addr ≡ 1 ∷ [])
unfolding open_store
start-resumes_example =
    start-resumes map_database kept_platform validating validator_files running running_engine
      running_keys kept_store 5 2 kept_hash map_kv-laws refl kept_state started_again refl
