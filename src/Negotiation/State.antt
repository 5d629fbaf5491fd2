-- ===== src/Negotiation/State.antt =====
-- The tables of a negotiation, and the status machine `VALID_TRANSITIONS`.
use open_agent_net.Prelude.{ℕ, String, Bool, true, false, ◌||◌, Option, none, some, List, [], ◌∷◌}
use open_agent_net.Db.{Table}

pub data Status : Type 0 where
  proposed countered accepted declined expired : Status

pub data Role : Type 0 where
  requester target : Role

-- The members of a JSON object that the service stores and never reads, as their texts.
abbrev pub Fields : Type 0
Fields = List (String × String)

-- The `proposal` dictionary: the keys that the service reads, and the rest.
pub record Proposal : Type 0 where
  pub capability : Option String
  pub ttl_seconds : Option ℕ
  pub others : Fields

-- The `response` dictionary. `none` is a decision that is the name of no status.
pub record Response : Type 0 where
  pub decision : Option Status
  pub others : Fields

pub record Negotiation : Type 0 where
  pub requester_id : ℕ
  pub target_id : ℕ
  pub capability : String
  pub status : Status
  pub proposal : Proposal
  pub response : Option Response
  pub session_token : String
  pub round_count : ℕ
  pub expires_at : ℕ
  pub created_at : ℕ
  pub updated_at : ℕ

pub record NegotiationRound : Type 0 where
  pub negotiation_id : ℕ
  pub round_number : ℕ
  pub actor_id : ℕ
  pub role : Role
  pub decision : Status
  pub proposal : Proposal

pub data ContractStatus : Type 0 where
  active consumed cancelled : ContractStatus

-- The terms are the proposal, updated by the response without its decision.
pub record TaskContract : Type 0 where
  pub negotiation_id : ℕ
  pub requester_id : ℕ
  pub target_id : ℕ
  pub capability : String
  pub terms : Proposal × Fields
  pub session_token : String
  pub status : ContractStatus

pub record NegotiationDb : Type 0 where
  pub negotiations : Table Negotiation
  pub rounds : List NegotiationRound
  pub contracts : Table TaskContract

pub data Error : Type 0 where
  invalid_or_identical_ids invalid_negotiation_id negotiation_not_found : Error
  only_participants : Error
  invalid_transition : Status → Option Status → Error
  maximum_rounds_exceeded invalid_decision integrity_error : Error

abbrev pub max_rounds : ℕ
max_rounds = 3

-- Equality of two status names.
abbrev pub same_status : Status → Status → Bool
same_status proposed proposed = true
same_status countered countered = true
same_status accepted accepted = true
same_status declined declined = true
same_status expired expired = true
same_status _ _ = false

abbrev pub valid_transitions : Status → List Status
valid_transitions proposed = countered ∷ accepted ∷ declined ∷ expired ∷ []
valid_transitions countered = countered ∷ accepted ∷ declined ∷ expired ∷ []
valid_transitions accepted = []
valid_transitions declined = []
valid_transitions expired = []

abbrev pub in_statuses : Status → List Status → Bool
in_statuses s [] = false
in_statuses s (t ∷ ts) = same_status s t || in_statuses s ts

-- `decision in VALID_TRANSITIONS.get(status, ())`
abbrev pub is_valid_transition : Status → Option Status → Bool
is_valid_transition s none = false
is_valid_transition s (some d) = in_statuses d (valid_transitions s)

abbrev pub is_open : Status → Bool
is_open proposed = true
is_open countered = true
is_open _ = false

abbrev pub ttl_or : ℕ → Proposal → ℕ
ttl_or default p = elim p.ttl_seconds [ none ↦ default | some n ↦ n ]

abbrev pub capability_of : Proposal → String
capability_of p = elim p.capability [ none ↦ "" | some c ↦ c ]
