-- ===== src/Node/Fresh.antt =====
-- The first start of a node that `init` has set up.
use opencoin.Prelude.{
  ◌≡◌, ◌≢◌, refl, [], ◌∷◌, Bytes, none, ok, >>=-eq-ok, arith, if_pos, Bytes_discrete,
}
use opencoin.Prelude.Int.{ℤ, IsI64}
use opencoin.Wire.{Wire}
use opencoin.Genesis.{default_genesis, save, load, validate, validate_validators}
use opencoin.Store.{
  KvLaws, get_last_timestamps, set_last_timestamps, meta_last_timestamps, encode_timestamps,
}
use opencoin.Store.Timestamps.{decode_timestamps-encode_timestamps}
use opencoin.Rc.{validate_genesis}
use opencoin.Dpos.{new_dpos}
use opencoin.Keys.Stored.{DiskLaws}
use opencoin.Config.{ascii, NodeConfig, default_config, save_config, load_config}
use opencoin.P2p.Host.{new_p2p, connect_peers}
use opencoin.Chain.{Database}
use opencoin.Node.{load_accounts, register_all, first_timestamp, apply_genesis, error_ignored}
use opencoin.Node.Start.{
  Platform, Node, open_store, to_multiaddr, new_services, start_consensus, start, config_path,
  genesis_path, init_command, start_command,
}

module _ (b : Database) (o : Platform b) ⦃w : Wire⦄ where
  open o use {crypto, disk}

  -- The configuration that `init` writes.
  abbrev pub first_config : Bytes → NodeConfig
  first_config home = record default_config { home_dir = home }

  -- What `init` wrote can be read, an empty store is opened and takes a write, and libp2p listens.
  pub record Working (home : Bytes) (now : ℤ) : Type 0 where
    pub config_back :
        (raw : Bytes)
        → o.config_json.marshal (first_config home) ≡ ok raw
        → o.config_json.unmarshal raw ≡ ok (first_config home)
    pub genesis_back :
        (raw : Bytes)
        → o.marshal_genesis (default_genesis now) ≡ ok raw
        → o.unmarshal_genesis raw ≡ ok (default_genesis now)
    pub paths_apart : genesis_path b o home ≢ config_path b o home
    pub read_other :
        (files files' : disk.Files) (path other raw : Bytes)
        → path ≢ other
        → disk.write_file files path raw ≡ ok files'
        → disk.read_file files' other ≡ disk.read_file files other
    pub store : b.kv.Db
    pub opened : o.open_pebble (disk.join (home ∷ ascii "state" ∷ [])) ≡ ok store
    pub empty : b.kv.get store meta_last_timestamps ≡ ok none
    pub stamped : b.kv.Db
    pub writes : b.kv.set store meta_last_timestamps (encode_timestamps (now ∷ [])) ≡ ok stamped
    pub split : o.split_host_port (ascii "0.0.0.0:26656") ≡ ok (ascii "0.0.0.0", ascii "26656")
    pub host : o.libp2p.Host
    pub listens : o.libp2p.new_host (ascii "/ip4/0.0.0.0/tcp/26656" ∷ []) ≡ ok host
    pub gossip : o.libp2p.PubSub
    pub gossips : o.libp2p.new_gossip_sub host ≡ ok gossip
    pub dht : o.libp2p.Dht
    pub routes : o.libp2p.new_dht host ≡ ok dht

  default_genesis-valid : (now : ℤ) → validate crypto (default_genesis now) ≡ ok tt
  unfolding validate default_genesis validate_genesis validate_validators
  default_genesis-valid now = refl

  -- The genesis without accounts and validators only writes its time.
  first_genesis :
      (home : Bytes) (now : ℤ) (f : Working home now)
      → apply_genesis b.kv (default_genesis now).rc_params (default_genesis now) f.store (
          new_dpos
            (first_config home).consensus.min_stake
            (first_config home).consensus.max_validators)
        ≡ ok (f.stamped, new_dpos 100_000_000 100)
  unfolding apply_genesis default_genesis load_accounts register_all first_timestamp error_ignored
      get_last_timestamps set_last_timestamps default_config
  first_genesis home now f = rw (f.empty, f.writes) refl

  -- The host of the default address, without bootstrap peers.
  first_host :
      (home : Bytes) (now : ℤ) (f : Working home now)
      → new_p2p o.libp2p
          (to_multiaddr b o (first_config home).p2p.listen_addr ∷ [])
          (first_config home).p2p.bootstrap_peers
        ≡ ok (record {
          host = f.host;
          dht = f.dht;
          pub_sub = f.gossip;
          sessions = record { sessions = [] };
        })
  unfolding new_p2p connect_peers to_multiaddr default_config
  first_host home now f = rw (f.split, f.listens, f.gossips, f.routes) refl

  -- Both files are read back.
  first_files :
      (home : Bytes) (now : ℤ) (files files' : disk.Files)
      → Working home now
      → DiskLaws disk
      → init_command b o home now files ≡ ok files'
      → (load_config disk o.config_json (config_path b o home) files' ≡ ok (first_config home))
        × (load crypto o.unmarshal_genesis (disk.read_file files' (genesis_path b o home))
            ≡ ok (default_genesis now))
  unfolding init_command save_config load_config save load
  first_files home now files files' f laws h =
      let cfg = first_config home in
      let (made, _, h1) =
        >>=-eq-ok (disk.mkdir_all files (disk.join (home ∷ ascii "config" ∷ []))) _ h in
      let (saved, wrote, h2) =
        >>=-eq-ok (save_config disk o.config_json (config_path b o home) cfg made) _ h1 in
      let (raw, marshalled, entered) =
        >>=-eq-ok (save crypto o.marshal_genesis (default_genesis now)) _ h2 in
      let (text, written, stored) = >>=-eq-ok (o.config_json.marshal cfg) _ wrote in
      let (_, _, encoded) = >>=-eq-ok (validate crypto (default_genesis now)) _ marshalled in
      (
        rw
            (
              f.read_other saved files' (genesis_path b o home) (config_path b o home) raw
                  f.paths_apart entered,
              laws.read_write made saved (config_path b o home) text stored,
            )
            (f.config_back text written),
        rw
            (
              laws.read_write saved files' (genesis_path b o home) raw entered,
              f.genesis_back raw encoded,
              default_genesis-valid now,
            )
            refl,
      )

  -- The time that was written is read.
  first_times :
      (home : Bytes) (now : ℤ) (f : Working home now)
      → KvLaws b.kv
      → IsI64 now
      → get_last_timestamps b.kv f.stamped ≡ ok (now ∷ [])
  unfolding get_last_timestamps
  first_times home now f laws small =
      rw
        (
          laws.get_set f.store f.stamped meta_last_timestamps meta_last_timestamps _ f.writes,
          if_pos (Bytes_discrete meta_last_timestamps meta_last_timestamps) refl,
          decode_timestamps-encode_timestamps (now ∷ []) (small, tt) (omega arith),
        )
        refl

  -- After `init` has set up a home directory, `start` there starts a node with the default
  -- configuration and the default genesis, without validators and without a consensus engine, whose
  -- store holds the time of the genesis. This is for files, JSON, a database and libp2p that work,
  -- a store that is empty, and a time that is an int64.
  pub start_command-init_command :
      (home : Bytes) (now : ℤ) (files files' : disk.Files)
      → Working home now
      → DiskLaws disk
      → KvLaws b.kv
      → IsI64 now
      → init_command b o home now files ≡ ok files'
      → (n : Node b o) × (start_command b o home files' ≡ ok n)
        × (n.cfg ≡ first_config home)
        × (n.genesis ≡ default_genesis now)
        × (n.dpos.validators ≡ [])
        × (n.consensus ≡ none)
        × (get_last_timestamps b.kv n.services.chain.store ≡ ok (now ∷ []))
  unfolding start_command start open_store start_consensus default_config new_dpos
  start_command-init_command home now files files' f laws kv small h =
      let (configured, described) = first_files home now files files' f laws h in
      (
        record {
          cfg = first_config home;
          genesis = default_genesis now;
          params = (default_genesis now).rc_params;
          dpos = new_dpos 100_000_000 100;
          services = new_services b o f.stamped;
          consensus = none;
          p2p = record {
            host = f.host;
            dht = f.dht;
            pub_sub = f.gossip;
            sessions = record { sessions = [] };
          };
        },
        rw (configured, f.opened, described, first_genesis home now f, first_host home now f) refl,
        refl,
        refl,
        refl,
        refl,
        first_times home now f kv small,
      )
