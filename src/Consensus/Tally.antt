-- ===== src/Consensus/Tally.antt =====
-- The count of the votes for a block: `tryBuildQC` of pkg/consensus/hotstuff.go.
use opencoin.Prelude.{
  ℕ, ◌+◌, ◌*◌, ◌/◌, ◌%◌, ◌^◌, List, [], ◌∷◌, length, get_elem?, get_or, set, replicate, Bytes, Bool,
  leb, ◌==◌, if◌then◌else◌, Option, none, some, Result, ok, panics, ◌>>=◌, u64_mod,
}
use opencoin.Prelude.Map.{Map, Bytes_key, lookup}
use opencoin.Types.{Address, Hash, PrecommitVote, QuorumCertificate, ValidatorSet}

abbrev pub Votes : Type 0
Votes = Map Address PrecommitVote

-- `signatures`, `bitmap` and `signedPower` of `tryBuildQC`.
pub record Tally : Type 0 where
  pub signatures : List Bytes
  pub bitmap : Bytes
  pub power : ℕ

-- `b & (1 << k) != 0` and `b | 1 << k`.
abbrev pub bit_at : ℕ → ℕ → Bool
bit_at b k = b / 2 ^ k % 2 == 1

abbrev pub with_bit : ℕ → ℕ → ℕ
with_bit b k = if bit_at b k then b else b + 2 ^ k

-- One turn of the loop over the votes. An index beyond the slices panics.
unfoldable pub count_vote : ValidatorSet → Address → PrecommitVote → Tally → Result Tally
count_vote vs addr vote t = elim (lookup addr vs.index_by_addr) [
  | none ↦ ok t
  | some idx ↦ elim (get_elem? vs.validators idx) [
    | none ↦ panics "index out of range"
    | some v ↦ ok (record {
      signatures = set t.signatures idx vote.signature;
      bitmap = set t.bitmap (idx / 8) (with_bit (get_or t.bitmap (idx / 8) 0) (idx % 8));
      power = (t.power + v.power) % u64_mod;
    })
  ]
]

unfoldable pub count_votes : ValidatorSet → Votes → Tally → Result Tally
count_votes vs [] t = ok t
count_votes vs ((addr, vote) ∷ votes) t = do t' ← count_vote vs addr vote t; count_votes vs votes t'

abbrev pub blank_tally : ValidatorSet → Tally
blank_tally vs = record {
  signatures = replicate (length vs.validators) [];
  bitmap = replicate ((length vs.validators + 7) / 8) 0;
  power = 0;
}

-- `height` is the engine's height plus one.
unfoldable pub try_build_qc :
    ValidatorSet → ℕ → ℕ → Hash → Votes → Result (Option QuorumCertificate)
try_build_qc vs height round block_hash votes = if vs.total_power == 0 then ok none else do
  t ← count_votes vs votes (blank_tally vs)
  if leb (t.power * 3 % u64_mod) (vs.total_power * 2 % u64_mod)
      then ok none
      else ok (
          some (record {
            block_hash = block_hash;
            height = height;
            round = round;
            sig_bitmap = t.bitmap;
            aggregated_sig = [];
            signatures = t.signatures;
          }))
