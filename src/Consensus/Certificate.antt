-- ===== src/Consensus/Certificate.antt =====
-- The check of a quorum certificate: pkg/consensus/qc.go.
pub mod Bits
pub mod Built
use opencoin.Prelude.{
  ℕ, zero, suc, ◌+◌, ◌/◌, ◌%◌, List, [], ◌∷◌, length, get_or, Bool, true, false, not, ◌||◌, leb,
  ◌==◌, if◌then◌else◌, Option, none, some, Result, ok, err, ◌>>=◌, ◌>>◌, fail_if,
}
use opencoin.Types.{PrecommitVote, QuorumCertificate, Validator, ValidatorSet, Address}
use opencoin.Wire.{Wire}
use opencoin.Encoding.{precommit_sign_bytes}
use opencoin.Consensus.{Keys}
use opencoin.Consensus.Tally.{bit_at}

module _ ⦃w : Wire⦄ (k : Keys) where
  -- The vote that validator `v` signed, without its signature.
  abbrev pub vote_of : QuorumCertificate → Address → PrecommitVote
  vote_of qc addr = record {
    block_hash = qc.block_hash;
    height = qc.height;
    round = qc.round;
    validator = addr;
    signature = [];
  }

  -- One turn of the loop over the validators. The length of the bitmap was checked before.
  unfoldable pub check_signer : QuorumCertificate → ℕ → Validator → Result (Unit {0})
  check_signer qc i v = if not (bit_at (get_or qc.sig_bitmap (i / 8) 0) (i % 8)) then ok tt else do
    fail_if (leb (length qc.signatures) i || length (get_or qc.signatures i []) == 0)
        "missing signature for validator index"
    msg ← precommit_sign_bytes (some (vote_of qc v.operator_address))
    fail_if (not (k.verify msg (get_or qc.signatures i []) v.consensus_pub_key))
        "invalid signature for validator index"

  unfoldable pub check_signers : QuorumCertificate → ℕ → List Validator → Result (Unit {0})
  check_signers qc i [] = ok tt
  check_signers qc i (v ∷ vs) = check_signer qc i v >> check_signers qc (suc i) vs

  unfoldable pub verify_qc : Option QuorumCertificate → Option ValidatorSet → Result (Unit {0})
  unfolding check_signers
  verify_qc none set = err "nil qc or validator set"
  verify_qc (some qc) none = err "nil qc or validator set"
  verify_qc (some qc) (some set) = do
    fail_if (length set.validators == 0) "empty validator set"
    fail_if (not (length qc.sig_bitmap == (length set.validators + 7) / 8)) "invalid bitmap length"
    check_signers qc 0 set.validators
