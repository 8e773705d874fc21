-- ===== src/Node/Started.antt =====
-- A node that was started: its consensus engine against the store that it found.
use opencoin.Prelude.{
  ℕ, ◌≡◌, refl, length, Bytes, Bool-cases, inl, inr, ◌==◌, if◌then◌else◌, fail_if, none, some, ok,
  ◌>>=◌, >>=-eq-ok, sym, ap, ◌∙◌, subst,
}
use opencoin.Prelude.Int.{ℤ, pos}
use opencoin.Types.{Hash}
use opencoin.Wire.{Wire}
use opencoin.Genesis.{load}
use opencoin.Store.{KvLaws, get_consensus_state}
use opencoin.Rc.{Params}
use opencoin.Dpos.{Dpos, validator_set, new_dpos}
use opencoin.Keys.{load_key_pair}
use opencoin.Config.{NodeConfig}
use opencoin.Consensus.{Keys, Engine, new_engine, load_consensus_state}
use opencoin.Consensus.Recovery.{new_engine-stored}
use opencoin.P2p.Host.{new_p2p}
use opencoin.Chain.{Database}
use opencoin.Node.{apply_genesis}
use opencoin.Node.Untouched.{apply_genesis-get_consensus_state}
use opencoin.Node.Services.{Services, services}
use opencoin.Node.Start.{
  Platform, Node, open_store, new_services, start_engine, start_consensus, start,
}

pub ok_injective {ℓ} : {A : Type ℓ} (x y : A) → ok x ≡ ok y → x ≡ y
ok_injective x y e = cc

module _ (b : Database) (o : Platform b) ⦃w : Wire⦄ where
  open o use {crypto, runtime, heap, disk}

  -- A new engine is over the state, the validators and the operator that it was given.
  new_engine-fields :
      (p : Params) (s : Services b runtime) (d : Dpos) (operator : Bytes) (n : ℤ)
      (e : Engine (Services b runtime))
      → new_engine (services b runtime crypto p heap) s d operator n ≡ ok e
      → (e.state ≡ s) × (e.validators ≡ validator_set d) × (e.validator_addr ≡ operator)
  unfolding new_engine load_consensus_state
  new_engine-fields p s d operator n e h =
      let ((height, round, last), _, made) =
        >>=-eq-ok (get_consensus_state b.kv s.chain.store) _ h in
      let same = sym (ok_injective _ e made) in
      (ap (λ x. x.state) same, ap (λ x. x.validators) same, ap (λ x. x.validator_addr) same)

  start_consensus-eq_ok :
      (cfg : NodeConfig) (p : Params) (s : Services b runtime) (d : Dpos) (files : disk.Files)
      (e : Engine (Services b runtime)) (k : Keys)
      → start_consensus b o cfg p s d files ≡ ok (some (e, k))
      → new_engine (services b runtime crypto p heap) s d cfg.validator.operator_address (pos 1000)
        ≡ ok e
  unfolding start_consensus start_engine
  start_consensus-eq_ok cfg p s d files e k h = elim (Bool-cases cfg.validator.enabled) [
    | inr off ↦ cc
    | inl on ↦
        let begun : (start_engine b o cfg p s d files >>= (λ engine. ok (some engine)))
            ≡ ok (some (e, k)) =
          ap
            (λ x.
              if x
              then (start_engine b o cfg p s d files >>= (λ engine. ok (some engine)))
              else ok none)
            (sym on)
          ∙ h in
        let (engine, made, same) = >>=-eq-ok (start_engine b o cfg p s d files) _ begun in
        let (kp, _, h1) = >>=-eq-ok (load_key_pair disk _ files) _ made in
        let (u, _, h2) = >>=-eq-ok (fail_if (length cfg.validator.operator_address == 0) _) _ h1 in
        let (e', done, h3) =
          >>=-eq-ok (new_engine (services b runtime crypto p heap) s d _ (pos 1000)) _ h2 in
        let its : e' ≡ e = cc in done ∙ ap (λ x. ok x) its
  ]

  -- What a start that succeeds has gone through.
  pub record Began (cfg : NodeConfig) (files : disk.Files) (n : Node b o) : Type 0 where
    pub opened : b.kv.Db
    pub at : open_store b o cfg.home_dir ≡ ok opened
    pub store : b.kv.Db
    pub entered :
        apply_genesis b.kv n.params n.genesis opened
          (new_dpos cfg.consensus.min_stake cfg.consensus.max_validators)
        ≡ ok (store, n.dpos)
    pub services : n.services ≡ new_services b o store
    pub consensus : start_consensus b o cfg n.params n.services n.dpos files ≡ ok n.consensus

  pub start-Began :
      (cfg : NodeConfig) (files : disk.Files) (n : Node b o)
      → start b o cfg files ≡ ok n
      → Began cfg files n
  unfolding start
  start-Began cfg files n h =
      let (opened, at, h1) = >>=-eq-ok (open_store b o cfg.home_dir) _ h in
      let (gen, _, h2) = >>=-eq-ok (load crypto o.unmarshal_genesis _) _ h1 in
      let d = new_dpos cfg.consensus.min_stake cfg.consensus.max_validators in
      let ((store, dpos), entered, h3) =
        >>=-eq-ok (apply_genesis b.kv gen.rc_params gen opened d) _ h2 in
      let (consensus, begun, h4) =
        >>=-eq-ok (start_consensus b o cfg gen.rc_params (new_services b o store) dpos files) _
          h3 in
      let (host, _, h5) = >>=-eq-ok (new_p2p o.libp2p _ cfg.p2p.bootstrap_peers) _ h4 in
      subst (λ x. Began cfg files x) (ok_injective _ n h5)
        (record {
          opened = opened;
          at = at;
          store = store;
          entered = entered;
          services = refl;
          consensus = begun;
        })

  -- The consensus engine of a node that was started over a store goes on from the height, the round
  -- and the block of the store, over the node's own services and validators and for the operator of
  -- its configuration. This is for a database with the documented laws.
  pub start-resumes :
      (cfg : NodeConfig) (files : disk.Files) (n : Node b o) (e : Engine (Services b runtime))
      (k : Keys) (opened : b.kv.Db) (height round : ℕ) (last : Hash)
      → KvLaws b.kv
      → open_store b o cfg.home_dir ≡ ok opened
      → get_consensus_state b.kv opened ≡ ok (height, round, last)
      → start b o cfg files ≡ ok n
      → n.consensus ≡ some (e, k)
      → (e.height ≡ height)
        × (e.round ≡ round)
        × (e.last_finalized ≡ last)
        × (e.state ≡ n.services)
        × (e.validators ≡ validator_set n.dpos)
        × (e.validator_addr ≡ cfg.validator.operator_address)
  unfolding start
  start-resumes cfg files n e k opened height round last laws at stored h its =
      let began = start-Began cfg files n h in
      let begun = began.consensus ∙ ap (λ x. ok x) its in
      let made = start_consensus-eq_ok cfg n.params n.services n.dpos files e k begun in
      let found : get_consensus_state b.kv n.services.chain.store ≡ ok (height, round, last) =
        ap (λ x. get_consensus_state b.kv x.chain.store) began.services
        ∙ apply_genesis-get_consensus_state b.kv n.params n.genesis began.opened began.store _
            n.dpos laws began.entered
        ∙ ap (λ x. get_consensus_state b.kv x) (ok_injective _ opened (sym began.at ∙ at))
        ∙ stored in
      let (fresh, again, at_height, in_round, on_block) =
        new_engine-stored (services b runtime crypto n.params heap) n.services n.dpos
          cfg.validator.operator_address (pos 1000) height round last found in
      let same = ok_injective e fresh (sym made ∙ again) in
      let (over, set, operator) = new_engine-fields n.params n.services n.dpos _ _ e made in
      (
        ap (λ x. x.height) same ∙ at_height,
        ap (λ x. x.round) same ∙ in_round,
        ap (λ x. x.last_finalized) same ∙ on_block,
        over,
        set,
        operator,
      )
