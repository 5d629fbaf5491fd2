-- ===== src/Negotiation/Service.antt =====
-- The operations of `NegotiationService`. Each takes the clock's reading, and the random values that
-- it draws (`uuid.uuid4`, `secrets.token_urlsafe`) as arguments.
use open_agent_net.Prelude.{
  ℕ, ◌+◌, max, String, str_eq, Bool, false, not, ◌&&◌, ◌||◌, Option, none, some, [], ◌∷◌, ◌++◌, ltb,
  ◌==◌, if◌then◌else◌, is_some, length,
}
use open_agent_net.Db.{
  Tx, Table, pure, raise, gets, or_raise, raise_if, modify, ◌>>=◌, ◌>>◌, lookup, update, add_row,
  map_rows, any_row, select,
}
use open_agent_net.Identifiers.{Uuid, parse_agent_id}
use open_agent_net.Negotiation.State.{
  ContractStatus, Status, proposed, countered, accepted, declined, expired, Role, requester, target,
  Proposal, Response, Negotiation, NegotiationRound, TaskContract, NegotiationDb, Error,
  invalid_or_identical_ids, invalid_negotiation_id, negotiation_not_found, only_participants,
  invalid_transition, maximum_rounds_exceeded, invalid_decision, integrity_error, max_rounds,
  is_valid_transition, is_open, ttl_or, capability_of, same_status,
}

abbrev pub Action : Type 0 → Type 0
Action A = Tx NegotiationDb Error A

-- The random values of one request.
pub record Draws : Type 0 where
  pub id : ℕ
  pub token : String

abbrev pub with_round : NegotiationRound → NegotiationDb → NegotiationDb
with_round r db = record db { rounds = db.rounds ++ r ∷ [] }

-- `negotiations.session_token` is unique: another row has the token.
unfoldable pub token_taken : String → ℕ → Table Negotiation → Bool
token_taken token id [] = false
token_taken token id ((j, n) ∷ rows) =
    (not (j == id) && str_eq n.session_token token) || token_taken token id rows

-- A flushed insert is refused when the key or the token is taken.
unfoldable pub add_negotiation : ℕ → Negotiation → Action (Unit {0})
add_negotiation id n db =
    (raise_if
          (is_some (lookup id db.negotiations) || token_taken n.session_token id db.negotiations)
          integrity_error
        >> modify (λ s. record s { negotiations = add_row id n s.negotiations }))
      db

abbrev pub is_contract_of : ℕ → TaskContract → Bool
is_contract_of id c = c.negotiation_id == id

-- `task_contracts.negotiation_id` is unique.
unfoldable pub add_contract : ℕ → TaskContract → Action (Unit {0})
add_contract id c db =
    (raise_if
          (is_some (lookup id db.contracts)
            || any_row (is_contract_of c.negotiation_id) db.contracts)
          integrity_error
        >> modify (λ s. record s { contracts = add_row id c s.contracts }))
      db

unfoldable pub participants : Option ℕ → Option ℕ → Option (ℕ × ℕ)
participants (some r) (some t) = if r == t then none else some (r, t)
participants _ _ = none

abbrev pub new_negotiation : ℕ → String → ℕ × ℕ → Proposal → Negotiation
new_negotiation now token (req, tgt) proposal = record {
  requester_id = req;
  target_id = tgt;
  capability = capability_of proposal;
  status = proposed;
  proposal = proposal;
  response = none;
  session_token = token;
  round_count = 1;
  expires_at = now + ttl_or 300 proposal;
  created_at = now;
  updated_at = now;
}

unfoldable pub create_proposal :
    Uuid → ℕ → Draws → String → String → Proposal → Action (ℕ × Negotiation)
create_proposal uuid now draws requester_id target_id proposal = do
  ids ←
      or_raise (participants (parse_agent_id uuid requester_id) (parse_agent_id uuid target_id))
        invalid_or_identical_ids
  add_negotiation draws.id (new_negotiation now draws.token ids proposal)
  modify (
      with_round (record {
        negotiation_id = draws.id;
        round_number = 1;
        actor_id = ids.0;
        role = requester;
        decision = proposed;
        proposal = proposal;
      }))
  pure (draws.id, new_negotiation now draws.token ids proposal)

abbrev is_due : ℕ → Negotiation → Bool
is_due now n = is_open n.status && ltb n.expires_at now

unfoldable pub expire_row : ℕ → Negotiation → Negotiation
expire_row now n = if is_due now n then record n { status = expired; updated_at = now } else n

-- `_expire_due`: the number of rows marked is returned.
unfoldable pub expire_due : ℕ → Action ℕ
expire_due now = do
  count ← gets (λ db. length (select (λ id n. is_due now n) db.negotiations))
  modify (λ db. record db { negotiations = map_rows (expire_row now) db.negotiations })
  pure count

-- `actor_uuid in (negotiation.requester_id, negotiation.target_id)`
unfoldable pub participant : Option ℕ → Negotiation → Option ℕ
participant none n = none
participant (some a) n = if a == n.requester_id || a == n.target_id then some a else none

abbrev pub role_of : ℕ → Negotiation → Role
role_of actor n = if actor == n.requester_id then requester else target

abbrev pub contract_of : String → ℕ → Negotiation → Response → TaskContract
contract_of token id n response = record {
  negotiation_id = id;
  requester_id = n.requester_id;
  target_id = n.target_id;
  capability = n.capability;
  terms = (n.proposal, response.others);
  session_token = token;
  status = ContractStatus.active;
}

abbrev pub counter_row : ℕ → Negotiation → Negotiation
counter_row now n = record n {
  status = countered;
  round_count = n.round_count + 1;
  expires_at = now + max 60 (ttl_or 300 n.proposal);
}

-- The branch on the decision: the row as it leaves the branch, and the new contract's id.
unfoldable pub decide :
    ℕ → Draws → ℕ → Negotiation → Response → Option Status → Action (Negotiation × Option ℕ)
unfolding add_contract
decide now draws id n response (some accepted) = do
  add_contract draws.id (contract_of draws.token id n response)
  taken ← gets (λ db. token_taken draws.token id db.negotiations)
  raise_if taken integrity_error
  pure (record n { status = accepted; session_token = draws.token }, some draws.id)
decide now draws id n response (some countered) = do
  raise_if (ltb max_rounds (n.round_count + 1)) maximum_rounds_exceeded
  pure (counter_row now n, none)
decide now draws id n response (some declined) = pure (record n { status = declined }, none)
decide now draws id n response d = raise invalid_decision

abbrev decision_name : Option Status → Status
decision_name none = proposed
decision_name (some d) = d

abbrev round_number_of : Option Status → Negotiation → ℕ
round_number_of (some countered) n = n.round_count + 1
round_number_of _ n = n.round_count

-- What `respond` returns to the caller.
pub record RespondResult : Type 0 where
  pub negotiation_id : ℕ
  pub status : Status
  pub session_token : Option String
  pub contract_id : Option ℕ
  pub round_number : ℕ
  pub updated_at : ℕ

-- The row as it is stored, the round that is logged, and the answer.
abbrev pub stored : ℕ → Response → Negotiation → Negotiation
stored now response decided = record decided { response = some response; updated_at = now }

abbrev pub logged : ℕ → ℕ → Negotiation → Response → NegotiationRound
logged id actor n response = record {
  negotiation_id = id;
  round_number = round_number_of response.decision n;
  actor_id = actor;
  role = role_of actor n;
  decision = decision_name response.decision;
  proposal = record { capability = none; ttl_seconds = none; others = response.others };
}

abbrev pub store : ℕ → Negotiation → NegotiationRound → NegotiationDb → NegotiationDb
store id row round db = record db {
  negotiations = update id row db.negotiations;
  rounds = db.rounds ++ round ∷ [];
}

abbrev pub answer : ℕ → ℕ → Negotiation → Response → Negotiation × Option ℕ → RespondResult
answer now id n response (decided, contract) = record {
  negotiation_id = id;
  status = decided.status;
  session_token = if same_status decided.status accepted then some decided.session_token else none;
  contract_id = contract;
  round_number = round_number_of response.decision n;
  updated_at = now;
}

unfoldable pub respond : Uuid → ℕ → Draws → String → Response → String → Action RespondResult
unfolding expire_due
respond uuid now draws negotiation_id response actor_id = do
  expire_due now
  id ← or_raise (uuid.parse negotiation_id) invalid_negotiation_id
  found ← gets (λ db. lookup id db.negotiations)
  n ← or_raise found negotiation_not_found
  actor ← or_raise (participant (parse_agent_id uuid actor_id) n) only_participants
  raise_if (not (is_valid_transition n.status response.decision))
      (invalid_transition n.status response.decision)
  decided ← decide now draws id n response response.decision
  modify (store id (stored now response decided.0) (logged id actor n response))
  pure (answer now id n response decided)
