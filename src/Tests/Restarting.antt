-- ===== src/Tests/Restarting.antt =====
-- A node over an empty store, which proposes and finalizes a block.
use opencoin.Prelude.{
  ℕ, zero, suc, ◌≡◌, ◌≢◌, refl, [], ◌∷◌, ◌++◌, Bytes, Bytes_discrete, Bool-cases, inl, inr, false,
  drop, none, some, ok, if_pos, if_neg, if◌then◌else◌, sym, ap, ◌∙◌,
}
use opencoin.Prelude.Int.{pos}
use opencoin.Prelude.Map.{Map, Bytes_key, lookup, insert}
use opencoin.Types.{Block, Proposal, zero_hash}
use opencoin.Encoding.{
  hash_block, marshal_block_for_hash, proposal_sign_bytes, marshal_proposal, marshal_block,
}
use opencoin.Store.{
  take_bytes, account_prefix, get_last_timestamps, set_last_timestamps, set_block_with_writer,
  set_consensus_state,
}
use opencoin.Crypto.{bytes_equal}
use opencoin.Crypto.Sender.{bytes_equal→eq}
use opencoin.Rc.{effective_time}
use opencoin.Dpos.{validator_set, rank, number_from, index_from, sum_power, insert_ranked}
use opencoin.Ledger.Block.{apply_transactions}
use opencoin.Roots.{compute_state_root}
use opencoin.Mempool.Select.{select_for_block, gather, seed, fill}
use opencoin.Consensus.{Machine, Keys, Engine, propose_block, finalize_block, with_signatures}
use opencoin.Consensus.Proposer.{proposer_from, is_expected_proposer}
use opencoin.Chain.{trim, preview_block, apply_block}
use opencoin.Chain.Previewed.{WritesLaws}
use opencoin.Node.Services.{services}
use opencoin.Node.Progress.{propose_block-finalizes}
use opencoin.Tests.Fixtures.{plain_wire, idle_runtime}
use opencoin.Tests.Blocks.{
  under_prefix, map_database, flat_hash, flat_crypto, short_window, first_state, empty_block,
}
use opencoin.Tests.Picking.{stack_heap}
use opencoin.Tests.Rounds.{operator, one_validator, qc_of, open_keys}

take_drop : (n : ℕ) (k : Bytes) → take_bytes n k ++ drop n k ≡ k
unfolding take_bytes
take_drop zero k = refl
take_drop (suc n) [] = refl
take_drop (suc n) (x ∷ k) = ap (λ l. x ∷ l) (take_drop n k)

not_account :
    (k : Bytes)
    → ((addr : Bytes) → k ≢ account_prefix ++ addr)
    → bytes_equal (take_bytes 5 k) account_prefix ≡ false
not_account k other = elim (Bool-cases (bytes_equal (take_bytes 5 k) account_prefix)) [
  | inl same ↦
      absurd
        (other (drop 5 k) (sym (take_drop 5 k) ∙ ap (λ l. l ++ drop 5 k) (bytes_equal→eq _ _ same)))
  | inr differs ↦ differs
]

-- Another key adds no account.
under_prefix-insert :
    (k v : Bytes) (db : Map Bytes Bytes)
    → bytes_equal (take_bytes 5 k) account_prefix ≡ false
    → under_prefix (insert k v db) ≡ under_prefix db
unfolding insert
under_prefix-insert k v [] differs = rw differs refl
under_prefix-insert k v ((j, u) ∷ db) differs = elim (Bytes_discrete j k) [
  | yes same ↦
      let behind : bytes_equal (take_bytes 5 j) account_prefix ≡ false =
        ap (λ x. bytes_equal (take_bytes 5 x) account_prefix) same ∙ differs in
      rw (if_pos (Bytes_discrete j k) same, behind) refl
  | no other ↦
      ap (λ m. under_prefix m) (if_neg (Bytes_discrete j k) other _ _)
      ∙ ap (λ m. if bytes_equal (take_bytes 5 j) account_prefix then (j, u) ∷ m else m)
          (under_prefix-insert k v db differs)
]

pub map_database-WritesLaws : WritesLaws map_database
map_database-WritesLaws = record {
  writes = λ db k v. (insert k v db, refl);
  commits = λ db. (db, refl);
  entries_kept = λ db db' k v h other.
      let same : insert k v db ≡ db' = cc in
      ap (λ m. ok (under_prefix m)) (sym same)
      ∙ ap (λ l. ok l) (under_prefix-insert k v db (not_account k other));
}

abbrev pub flat_keys : Keys
flat_keys = record open_keys { sha256 = flat_hash }

abbrev pub lone_node : Machine
lone_node = services map_database idle_runtime flat_crypto short_window stack_heap

abbrev pub started : Engine lone_node.State
started = record {
  state = record { chain = first_state; pool = [] };
  dpos = one_validator;
  validators = validator_set one_validator;
  height = 0;
  round = 0;
  last_finalized = zero_hash;
  votes = [];
  validator_addr = operator;
  block_max_txs = pos 1000;
}

-- The block is finalized.
pub finalized :
    (finalize_block lone_node flat_keys none started (some empty_block) (some (qc_of zero_hash))).1
    ≡ ok tt
unfolding finalize_block with_signatures apply_block get_last_timestamps set_last_timestamps
    set_block_with_writer apply_transactions compute_state_root hash_block marshal_block_for_hash
    trim bytes_equal lookup insert Bytes_discrete take_bytes effective_time set_consensus_state
    validator_set rank insert_ranked number_from index_from sum_power
finalized = refl

abbrev first_block : Block
first_block = record empty_block { validator_sigs = [] ∷ [] }

abbrev first_proposal : Proposal
first_proposal = record { block = some first_block; round = 0; proposer_sig = 7 ∷ [] }

proposed : propose_block lone_node flat_keys none started (pos 100) ≡ ok first_proposal
unfolding propose_block proposal_sign_bytes marshal_proposal marshal_block preview_block
    get_last_timestamps apply_transactions compute_state_root bytes_equal lookup insert
    Bytes_discrete take_bytes effective_time select_for_block proposer_from is_expected_proposer
    validator_set rank insert_ranked number_from index_from sum_power gather seed fill
proposed = refl

propose_block-finalizes_example :
    (finalize_block lone_node flat_keys none started (some first_block) (some (qc_of zero_hash))).1
    ≡ ok tt
propose_block-finalizes_example =
    propose_block-finalizes map_database idle_runtime flat_crypto short_window stack_heap flat_keys
      none started (pos 100) first_proposal first_block (qc_of zero_hash) 3 map_database-WritesLaws
      refl proposed refl tt
