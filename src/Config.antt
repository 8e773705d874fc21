-- ===== src/Config.antt =====
-- The configuration of a node, its defaults and its file: pkg/config/config.go and pkg/config/io.go.
-- JSON and the file system are arguments.
use Prim.Native.Char.{code}
use Prim.Native.String.{String}
use opencoin.Prelude.{ℕ, List, [], ◌∷◌, Bytes, Bool, false, Result, ◌>>=◌}
use opencoin.Prelude.Int.{ℤ, pos}
use opencoin.Keys.{Disk}

-- The bytes of an ASCII text.
abbrev pub ascii : String → Bytes
ascii String.[] = []
ascii (String.◌∷◌ c s) = code c ∷ ascii s

pub record P2pConfig : Type 0 where
  pub listen_addr : Bytes
  pub max_conn_inbound : ℕ
  pub max_conn_outbound : ℕ
  pub max_peers : ℕ
  pub persistent_peers : Bytes
  pub seeds : Bytes
  pub private_key_file : Bytes
  pub bootstrap_peers : List Bytes

pub record RpcConfig : Type 0 where
  pub addr : Bytes
  pub port : ℕ
  pub max_body_bytes : ℤ
  pub max_open_connections : ℤ

-- A time.Duration is its nanoseconds.
pub record ConsensusConfig : Type 0 where
  pub timeout_propose : ℤ
  pub timeout_prevote : ℤ
  pub timeout_precommit : ℤ
  pub timeout_commit : ℤ
  pub min_stake : ℕ
  pub max_validators : ℕ
  pub epoch_length : ℕ
  pub block_reward : ℕ
  pub unbonding_period : ℕ
  pub slash_double_bps : ℕ
  pub jail_double : ℕ
  pub slash_offline_bps : ℕ
  pub jail_offline : ℕ

pub record ValidatorConfig : Type 0 where
  pub enabled : Bool
  pub private_key_file : Bytes
  pub operator_address : Bytes
  pub stake : ℕ
  pub commission : ℕ

pub record RcConfig : Type 0 where
  pub alpha : ℕ
  pub beta : ℕ
  pub c_size : ℕ
  pub c_compute : ℕ
  pub c_storage : ℕ
  pub max_skew_sec : ℤ
  pub window_n : ℤ

pub record GovernanceConfig : Type 0 where
  pub voting_period_epochs : ℕ
  pub quorum_percent : ℕ
  pub threshold_percent : ℕ
  pub timelock_epochs : ℕ

pub record NodeConfig : Type 0 where
  pub moniker : Bytes
  pub chain_id : Bytes
  pub home_dir : Bytes
  pub log_level : Bytes
  pub log_format : Bytes
  pub p2p : P2pConfig
  pub rpc : RpcConfig
  pub consensus : ConsensusConfig
  pub validator : ValidatorConfig
  pub rc : RcConfig
  pub governance : GovernanceConfig

unfoldable pub default_config : NodeConfig
default_config = record {
  moniker = ascii "opencoin-node";
  chain_id = ascii "opencoin-1";
  home_dir = ascii "$HOME/.opencoin";
  log_level = ascii "info";
  log_format = ascii "json";
  p2p = record {
    listen_addr = ascii "0.0.0.0:26656";
    max_conn_inbound = 100;
    max_conn_outbound = 32;
    max_peers = 200;
    persistent_peers = [];
    seeds = [];
    private_key_file = ascii "config/node_key.json";
    bootstrap_peers = [];
  };
  rpc = record {
    addr = ascii "0.0.0.0";
    port = 26657;
    max_body_bytes = pos 1_000_000;
    max_open_connections = pos 900;
  };
  consensus = record {
    timeout_propose = pos 3_000_000_000;
    timeout_prevote = pos 1_000_000_000;
    timeout_precommit = pos 1_000_000_000;
    timeout_commit = pos 1_000_000_000;
    min_stake = 100_000_000;
    max_validators = 100;
    epoch_length = 10_000;
    block_reward = 1_000_000;
    unbonding_period = 259_200;
    slash_double_bps = 500;
    jail_double = 10;
    slash_offline_bps = 10;
    jail_offline = 2;
  };
  validator = record {
    enabled = false;
    private_key_file = ascii "config/validator_key.json";
    operator_address = [];
    stake = 1_000_000_000;
    commission = 1000;
  };
  rc = record {
    alpha = 1000;
    beta = 1;
    c_size = 1;
    c_compute = 1;
    c_storage = 50;
    max_skew_sec = pos 30;
    window_n = pos 11;
  };
  governance = record {
    voting_period_epochs = 2;
    quorum_percent = 33;
    threshold_percent = 50;
    timelock_epochs = 1;
  };
}

-- JSON for a configuration.
pub record ConfigJson : Type 0 where
  pub marshal : NodeConfig → Result Bytes
  pub unmarshal : Bytes → Result NodeConfig

module _ (disk : Disk) (json : ConfigJson) where
  unfoldable pub save_config : Bytes → NodeConfig → disk.Files → Result disk.Files
  save_config path cfg files = do raw ← json.marshal cfg; disk.write_file files path raw

  unfoldable pub load_config : Bytes → disk.Files → Result NodeConfig
  load_config path files = do raw ← disk.read_file files path; json.unmarshal raw
