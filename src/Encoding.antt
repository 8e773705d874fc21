-- ===== src/Encoding.antt =====
-- Encoding of transactions, blocks and consensus messages: pkg/encoding/protobuf.go, hash.go and
-- pkg/tx/signing.go, pkg/consensus/signing.go. A pointer that a function checks for nil is an
-- `Option`; the transactions of a block are never nil.
pub mod Unmarshal
pub mod Transactions
pub mod Blocks
use opencoin.Prelude.{
  ℕ, zero, suc, ◌/◌, ◌%◌, List, [], ◌∷◌, ◌++◌, Option, none, some, Bytes, length, ltb,
  if◌then◌else◌, Result, ok, err, ◌>>=◌,
}
use opencoin.Prelude.Int.{to_u64}
use opencoin.Types.{
  Hash, Transaction, Block, StateNode, Proposal, PrecommitVote, QuorumCertificate, ViewChange,
}
use opencoin.Wire.{Wire, append_tag, append_varint, append_bytes, varint_type, bytes_type}

-- `binary.BigEndian`: the low `n` bytes of a number, the highest first.
unfoldable pub big_endian : ℕ → ℕ → Bytes
big_endian zero v = []
big_endian (suc n) v = big_endian n (v / 256) ++ v % 256 ∷ []

unfoldable pub marshal_uint64 : ℕ → Bytes
unfolding big_endian
marshal_uint64 v = big_endian 8 v

module _ ⦃w : Wire⦄ where
  unfoldable pub transaction_bytes : Transaction → Bytes
  transaction_bytes tx =
      let with_from = append_bytes (append_tag [] 1 bytes_type) tx.from in
      let with_to = append_bytes (append_tag with_from 2 bytes_type) tx.to in
      let with_nonce = append_varint (append_tag with_to 3 varint_type) tx.nonce in
      let with_payload = append_bytes (append_tag with_nonce 4 bytes_type) tx.payload in
      append_bytes (append_tag with_payload 5 bytes_type) tx.signature

  unfoldable pub marshal_transaction : Option Transaction → Result Bytes
  marshal_transaction none = err "transaction is nil"
  marshal_transaction (some tx) = ok (transaction_bytes tx)

  -- The fields that `MarshalBlock` and `MarshalBlockForHash` both begin with.
  unfoldable pub header_bytes : Block → Bytes
  header_bytes block =
      let with_height = append_varint (append_tag [] 1 varint_type) block.height in
      let with_prev = append_bytes (append_tag with_height 2 bytes_type) block.prev_hash in
      let with_root = append_bytes (append_tag with_prev 3 bytes_type) block.state_root in
      let with_time = append_varint (append_tag with_root 4 varint_type) (to_u64 block.timestamp) in
      append_bytes (append_tag with_time 5 bytes_type) block.proposer

  -- `for _, tx := range block.Transactions`.
  unfoldable pub append_transactions : Bytes → List Transaction → Bytes
  append_transactions b [] = b
  append_transactions b (tx ∷ txs) =
      append_transactions (append_bytes (append_tag b 6 bytes_type) (transaction_bytes tx)) txs

  -- `for _, sig := range sigs`, under the field number `num`.
  unfoldable pub append_all : ℕ → Bytes → List Bytes → Bytes
  append_all num b [] = b
  append_all num b (sig ∷ sigs) =
      append_all num (append_bytes (append_tag b num bytes_type) sig) sigs

  unfoldable pub block_bytes : Block → Bytes
  block_bytes block =
      append_all 7 (append_transactions (header_bytes block) block.transactions)
        block.validator_sigs

  unfoldable pub marshal_block : Option Block → Result Bytes
  marshal_block none = err "block is nil"
  marshal_block (some block) = ok (block_bytes block)

  unfoldable pub marshal_block_for_hash : Option Block → Result Bytes
  marshal_block_for_hash none = err "block is nil"
  marshal_block_for_hash (some block) =
      ok (append_transactions (header_bytes block) block.transactions)

  unfoldable pub marshal_state_node : Option StateNode → Result Bytes
  marshal_state_node none = err "state node is nil"
  marshal_state_node (some node) = ok (
      append_varint
        (append_tag
          (append_all 2 (append_bytes (append_tag [] 1 bytes_type) node.root_hash) node.parents) 3
          varint_type)
        node.height)

  unfoldable pub marshal_proposal : Option Proposal → Result Bytes
  marshal_proposal none = err "proposal is nil"
  marshal_proposal (some p) = do
    block_bytes ← marshal_block p.block
    let with_block = append_bytes (append_tag [] 1 bytes_type) block_bytes
    let with_round = append_varint (append_tag with_block 2 varint_type) p.round
    ok (append_bytes (append_tag with_round 3 bytes_type) p.proposer_sig)

  unfoldable pub precommit_vote_bytes : PrecommitVote → Bytes
  precommit_vote_bytes v =
      let with_hash = append_bytes (append_tag [] 1 bytes_type) v.block_hash in
      let with_height = append_varint (append_tag with_hash 2 varint_type) v.height in
      let with_round = append_varint (append_tag with_height 3 varint_type) v.round in
      let with_validator = append_bytes (append_tag with_round 4 bytes_type) v.validator in
      append_bytes (append_tag with_validator 5 bytes_type) v.signature

  unfoldable pub marshal_precommit_vote : Option PrecommitVote → Result Bytes
  marshal_precommit_vote none = err "precommit vote is nil"
  marshal_precommit_vote (some v) = ok (precommit_vote_bytes v)

  unfoldable pub marshal_quorum_certificate : Option QuorumCertificate → Result Bytes
  marshal_quorum_certificate none = err "quorum certificate is nil"
  marshal_quorum_certificate (some qc) =
      let with_hash = append_bytes (append_tag [] 1 bytes_type) qc.block_hash in
      let with_height = append_varint (append_tag with_hash 2 varint_type) qc.height in
      let with_round = append_varint (append_tag with_height 3 varint_type) qc.round in
      let with_bitmap = append_bytes (append_tag with_round 4 bytes_type) qc.sig_bitmap in
      let with_aggregate =
        if ltb 0 (length qc.aggregated_sig)
        then append_bytes (append_tag with_bitmap 5 bytes_type) qc.aggregated_sig
        else with_bitmap in
      ok (append_all 6 with_aggregate qc.signatures)

  unfoldable pub view_change_bytes : ViewChange → Bytes
  view_change_bytes vc =
      let with_height = append_varint (append_tag [] 1 varint_type) vc.height in
      let with_round = append_varint (append_tag with_height 2 varint_type) vc.round in
      let with_validator = append_bytes (append_tag with_round 3 bytes_type) vc.validator in
      append_bytes (append_tag with_validator 4 bytes_type) vc.signature

  unfoldable pub marshal_view_change : Option ViewChange → Result Bytes
  marshal_view_change none = err "view change is nil"
  marshal_view_change (some vc) = ok (view_change_bytes vc)

  -- The bytes that are signed: the message without its signature. A nil message has none.
  unfoldable pub signing_bytes : Option Transaction → Result Bytes
  signing_bytes none = ok []
  signing_bytes (some tx) = marshal_transaction (some (record tx { signature = [] }))

  unfoldable pub without_sigs : Block → Block
  without_sigs block = record block { validator_sigs = [] }

  unfoldable pub proposal_sign_bytes : Option Proposal → Result Bytes
  proposal_sign_bytes none = ok []
  proposal_sign_bytes (some p) = marshal_proposal (
      some (record p {
        block = elim p.block [ none ↦ none | some block ↦ some (without_sigs block) ];
        proposer_sig = [];
      }))

  unfoldable pub precommit_sign_bytes : Option PrecommitVote → Result Bytes
  precommit_sign_bytes none = ok []
  precommit_sign_bytes (some v) = marshal_precommit_vote (some (record v { signature = [] }))

  unfoldable pub view_change_sign_bytes : Option ViewChange → Result Bytes
  view_change_sign_bytes none = ok []
  view_change_sign_bytes (some vc) = marshal_view_change (some (record vc { signature = [] }))

  -- SHA-256 is an argument of what hashes.
  module _ (sha256 : Bytes → Hash) where
    unfoldable pub hash_transaction : Option Transaction → Result Hash
    hash_transaction tx = do b ← marshal_transaction tx; ok (sha256 b)

    unfoldable pub hash_block : Option Block → Result Hash
    hash_block block = do b ← marshal_block_for_hash block; ok (sha256 b)

    unfoldable pub hash_block_full : Option Block → Result Hash
    hash_block_full block = do b ← marshal_block block; ok (sha256 b)

    unfoldable pub hash_state_node : Option StateNode → Result Hash
    hash_state_node node = do b ← marshal_state_node node; ok (sha256 b)

    unfoldable pub hash_quorum_certificate : Option QuorumCertificate → Result Hash
    hash_quorum_certificate qc = do b ← marshal_quorum_certificate qc; ok (sha256 b)

    unfoldable pub hash_proposal : Option Proposal → Result Hash
    hash_proposal p = do b ← marshal_proposal p; ok (sha256 b)

    unfoldable pub hash_precommit_vote : Option PrecommitVote → Result Hash
    hash_precommit_vote v = do b ← marshal_precommit_vote v; ok (sha256 b)

    unfoldable pub hash_view_change : Option ViewChange → Result Hash
    hash_view_change vc = do b ← marshal_view_change vc; ok (sha256 b)
