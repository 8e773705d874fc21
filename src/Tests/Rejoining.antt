-- ===== src/Tests/Rejoining.antt =====
-- A validator that finalizes a block and starts again over its store.
use opencoin.Prelude.{◌≡◌, refl, [], ◌∷◌, Bytes_discrete, none, some, ok}
use opencoin.Prelude.Int.{pos}
use opencoin.Prelude.Map.{Bytes_key, lookup, insert}
use opencoin.Types.{zero_hash}
use opencoin.Encoding.{big_endian, marshal_uint64, hash_block, marshal_block_for_hash}
use opencoin.Store.{
  take_bytes, from_big_endian, get_block_by_height, get_last_timestamps, set_last_timestamps,
  set_block_with_writer, get_consensus_state, set_consensus_state, decode_timestamps,
  read_timestamps, encode_timestamps, append_timestamps,
}
use opencoin.Crypto.{bytes_equal}
use opencoin.Rc.{effective_time, validate_genesis}
use opencoin.Genesis.{default_genesis, load, validate, validate_validators}
use opencoin.Dpos.{new_dpos, validator_set}
use opencoin.Keys.{load_key_pair}
use opencoin.Config.{ascii, default_config}
use opencoin.Ledger.Block.{apply_transactions}
use opencoin.Roots.{compute_state_root}
use opencoin.Consensus.{
  Engine, new_engine, finalize_block, with_signatures, advance, must_hash_block,
}
use opencoin.P2p.Host.{new_p2p, connect_peers}
use opencoin.Chain.{trim, apply_block}
use opencoin.Node.{apply_genesis, load_accounts, register_all, first_timestamp, error_ignored}
use opencoin.Node.Services.{Services}
use opencoin.Node.Start.{
  Platform, Node, open_store, to_multiaddr, start_consensus, new_services, start, dilithium_keys,
}
use opencoin.Node.Rejoin.{start-finalize_block}
use opencoin.Tests.Fixtures.{plain_wire, plain_wire-laws, idle_runtime}
use opencoin.Tests.Blocks.{
  map_database, map_database-laws, flat_crypto, short_window, empty_block, empty_block-IsValid,
}
use opencoin.Tests.Rounds.{qc_of}
use opencoin.Tests.Signing.{flat_dilithium}
use opencoin.Tests.Restarting.{lone_node, flat_keys, started, finalized}
use opencoin.Tests.Starting.{empty_platform, validating, validator_files}

abbrev after : Engine lone_node.State
after =
    (finalize_block lone_node flat_keys none started (some empty_block) (some (qc_of zero_hash))).0

-- What is opened is the store that the block was written to.
abbrev rejoin_platform : Platform map_database
rejoin_platform = record empty_platform {
  crypto = flat_crypto;
  open_pebble = λ path. ok after.state.chain.store;
}

abbrev rejoined_services : Services map_database idle_runtime
rejoined_services = new_services map_database rejoin_platform after.state.chain.store

abbrev rejoined_engine : Engine (Services map_database idle_runtime)
rejoined_engine = record {
  state = rejoined_services;
  dpos = new_dpos 100_000_000 100;
  validators = validator_set (new_dpos 100_000_000 100);
  height = 1;
  round = 0;
  last_finalized = zero_hash;
  votes = [];
  validator_addr = 1 ∷ [];
  block_max_txs = pos 1000;
}

abbrev rejoined : Node map_database rejoin_platform
rejoined = record {
  cfg = validating;
  genesis = default_genesis (pos 100);
  params = (default_genesis (pos 100)).rc_params;
  dpos = new_dpos 100_000_000 100;
  services = rejoined_services;
  consensus = some (
    rejoined_engine,
    dilithium_keys flat_dilithium flat_crypto.sha256
        (record { public_key = 1 ∷ []; private_key = 2 ∷ [] }),
  );
  p2p = record {
    host = ascii "/ip4/0.0.0.0/tcp/26656" ∷ [];
    dht = ascii "/ip4/0.0.0.0/tcp/26656" ∷ [];
    pub_sub = ascii "/ip4/0.0.0.0/tcp/26656" ∷ [];
    sessions = record { sessions = [] };
  };
}

restarted : start map_database rejoin_platform validating validator_files ≡ ok rejoined
unfolding start load validate validate_validators validate_genesis default_genesis default_config
    apply_genesis load_accounts register_all first_timestamp error_ignored get_last_timestamps
    set_last_timestamps start_consensus load_key_pair new_engine get_consensus_state lookup insert
    Bytes_discrete from_big_endian new_p2p connect_peers to_multiaddr bytes_equal open_store
    finalize_block with_signatures apply_block set_block_with_writer apply_transactions
    compute_state_root hash_block marshal_block_for_hash trim take_bytes effective_time
    set_consensus_state decode_timestamps read_timestamps validator_set advance encode_timestamps
    append_timestamps big_endian marshal_uint64 must_hash_block
restarted = refl

start-finalize_block_example :
    (rejoined_engine.height ≡ after.height)
    × (rejoined_engine.round ≡ after.round)
    × (rejoined_engine.last_finalized ≡ after.last_finalized)
    × (get_block_by_height map_database.kv rejoined.services.chain.store rejoined_engine.height
        ≡ ok
            (some (with_signatures lone_node flat_keys none started empty_block (qc_of zero_hash))))
unfolding open_store
start-finalize_block_example =
    start-finalize_block map_database rejoin_platform short_window flat_keys none started
      rejoined_engine empty_block (qc_of zero_hash) validating validator_files rejoined
      (dilithium_keys flat_dilithium flat_crypto.sha256
        (record { public_key = 1 ∷ []; private_key = 2 ∷ [] }))
      plain_wire-laws map_database-laws (λ x. refl) (λ x. refl) empty_block-IsValid finalized refl
      restarted refl
