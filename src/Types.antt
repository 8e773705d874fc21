-- ===== src/Types.antt =====
-- The data of the chain: pkg/types/types.go. Strings and byte slices are lists of bytes, a hash is
-- its 32 bytes, a uint is a number, an int64 an integer; a map is an association list.
use opencoin.Prelude.{ℕ, zero, suc, Option, List, [], ◌∷◌, Bytes}
use opencoin.Prelude.Int.{ℤ, pos}
use opencoin.Prelude.Map.{Map}

abbrev pub Address : Type 0
Address = Bytes

abbrev pub Hash : Type 0
Hash = Bytes

abbrev zeros : ℕ → Bytes
zeros zero = []
zeros (suc n) = 0 ∷ zeros n

-- `types.Hash{}`.
abbrev pub zero_hash : Hash
zero_hash = zeros 32

pub record Transaction : Type 0 where
  pub from : Address
  pub to : Address
  pub nonce : ℕ
  pub payload : Bytes
  pub signature : Bytes

pub record Block : Type 0 where
  pub height : ℕ
  pub prev_hash : Hash
  pub state_root : Hash
  pub timestamp : ℤ
  pub proposer : Address
  pub transactions : List Transaction
  pub validator_sigs : List Bytes

pub record StateNode : Type 0 where
  pub root_hash : Hash
  pub parents : List Hash
  pub height : ℕ

pub record Proposal : Type 0 where
  pub block : Option Block
  pub round : ℕ
  pub proposer_sig : Bytes

pub record PrecommitVote : Type 0 where
  pub block_hash : Hash
  pub height : ℕ
  pub round : ℕ
  pub validator : Address
  pub signature : Bytes

pub record QuorumCertificate : Type 0 where
  pub block_hash : Hash
  pub height : ℕ
  pub round : ℕ
  pub sig_bitmap : Bytes
  pub aggregated_sig : Bytes
  pub signatures : List Bytes

pub record ViewChange : Type 0 where
  pub height : ℕ
  pub round : ℕ
  pub validator : Address
  pub signature : Bytes

pub record Validator : Type 0 where
  pub operator_address : Address
  pub consensus_pub_key : Bytes
  pub power : ℕ
  pub stake : ℕ
  pub delegations : Map Address ℕ
  pub commission : ℕ
  pub index : ℕ
  pub jailed_until_epoch : ℕ

pub record ValidatorSet : Type 0 where
  pub validators : List Validator
  pub total_power : ℕ
  pub index_by_addr : Map Address ℕ

pub record Account : Type 0 where
  pub address : Address
  pub balance : ℕ
  pub nonce : ℕ
  pub stake : ℕ
  pub rc : ℕ
  pub rc_max : ℕ
  pub last_rc_effective_time : ℤ
  pub code : Bytes
  pub pub_key : Bytes

-- `&types.Account{Address: addr}`.
abbrev pub empty_account : Address → Account
empty_account addr = record {
  address = addr;
  balance = 0;
  nonce = 0;
  stake = 0;
  rc = 0;
  rc_max = 0;
  last_rc_effective_time = pos 0;
  code = [];
  pub_key = [];
}

pub record Contract : Type 0 where
  pub address : Address
  pub owner : Address
  pub code : Bytes
  pub balance : ℕ
  pub deployed : ℤ

pub record GovernanceProposal : Type 0 where
  pub id : ℕ
  pub title : Bytes
  pub description : Bytes
  pub param_key : Bytes
  pub param_value : Bytes
  pub submitter : Address

-- A vote option is any uint8; the source names the values 0 to 4.
abbrev pub VoteOption : Type 0
VoteOption = ℕ

abbrev pub vote_option_unspecified : VoteOption
vote_option_unspecified = 0

abbrev pub vote_option_yes : VoteOption
vote_option_yes = 1

abbrev pub vote_option_no : VoteOption
vote_option_no = 2

abbrev pub vote_option_abstain : VoteOption
vote_option_abstain = 3

abbrev pub vote_option_veto : VoteOption
vote_option_veto = 4

pub record GovernanceVote : Type 0 where
  pub proposal_id : ℕ
  pub voter : Address
  pub option : VoteOption
