-- ===== src/Negotiation/Tests.antt =====
-- The negotiation service on concrete requests.
use open_agent_net.Prelude.{
  ℕ, String, ◌≡◌, refl, Option, none, some, List, [], ◌∷◌, arith, inr, str_eq, if◌then◌else◌,
}
use open_agent_net.Db.{ok, err, get_db, lookup, update, add_row, map_rows, any_row, select}
use open_agent_net.Identifiers.{Uuid, parse_agent_id}
use open_agent_net.Negotiation.State.{
  accepted, declined, expired, proposed, Proposal, Response, Negotiation, NegotiationDb,
  only_participants, invalid_transition,
}
use open_agent_net.Negotiation.Service.{
  Draws, RespondResult, respond, create_proposal, expire_due, participant, participants, decide,
  add_contract, add_negotiation, expire_row, token_taken,
}
use open_agent_net.Negotiation.Invariant.{IsValid}
use open_agent_net.Negotiation.Requests.{
  Request, create, answer_with, empty, run, run-IsValid, closed_is_final,
}
use open_agent_net.Negotiation.Outcome.{Granted, respond_grants, respond_late, respond_outsider}

abbrev parse_id : String → Option ℕ
parse_id s =
    if str_eq s "a1"
    then some 1
    else if str_eq s "a2"
    then some 2
    else if str_eq s "a3"
    then some 3
    else if str_eq s "n7"
    then some 7
    else none

abbrev uuid : Uuid
uuid = record { parse = parse_id; uuid5 = λ s. 0 }

abbrev draws : Draws
draws = record { id = 7; token = "t" }

abbrev offer : Proposal
offer = record { capability = some "sum"; ttl_seconds = some 100; others = [] }

abbrev accept : Response
accept = record { decision = some accepted; others = [] }

abbrev n7 : Negotiation
n7 = record {
  requester_id = 1;
  target_id = 2;
  capability = "sum";
  status = proposed;
  proposal = offer;
  response = none;
  session_token = "t";
  round_count = 1;
  expires_at = 100;
  created_at = 0;
  updated_at = 0;
}

abbrev db7 : NegotiationDb
db7 = record { negotiations = (7, n7) ∷ []; rounds = []; contracts = [] }

create_runs :
    (get_db (create_proposal uuid 0 draws "a1" "a2" offer) empty).negotiations ≡ (7, n7) ∷ []
unfolding get_db create_proposal participants add_negotiation token_taken parse_agent_id add_row
    lookup
create_runs = refl

empty-IsValid : IsValid empty
unfolding lookup
empty-IsValid = record {
  bounded = λ id n e. cc;
  backed = λ k c e. cc;
  agreed = λ id n e a. cc;
  single = λ i j c d e. cc;
}

abbrev script : List Request
script =
    create 0 draws "a1" "a2" offer
    ∷ answer_with 5 draws "n7" accept "a2"
    ∷ answer_with 6 draws "n7" accept "a1"
    ∷ []

run-IsValid_example : IsValid (run uuid script empty)
run-IsValid_example = run-IsValid uuid script empty empty-IsValid

abbrev declined7 : Negotiation
declined7 = record n7 { status = declined }

closed_is_final_example :
    lookup 7 (run uuid script (record db7 { negotiations = (7, declined7) ∷ [] })).negotiations
    ≡ some declined7
unfolding lookup
closed_is_final_example =
    closed_is_final uuid 7 declined7 refl script (record db7 { negotiations = (7, declined7) ∷ [] })
      refl

accept_by_requester :
    (r : RespondResult × NegotiationDb) × (respond uuid 50 draws "n7" accept "a1" db7 ≡ ok r)
unfolding respond expire_due participant decide add_contract token_taken expire_row parse_agent_id
    lookup update add_row map_rows any_row select
accept_by_requester = (_, refl)

respond_grants_example :
    (id : ℕ) × (actor : ℕ) × (uuid.parse "n7" ≡ some id)
    × (parse_agent_id uuid "a1" ≡ some actor)
    × Granted 50 draws id actor accept db7 accept_by_requester.0
respond_grants_example =
    respond_grants uuid 50 draws "n7" accept "a1" db7 accept_by_requester.0 accept_by_requester.1

respond_late_example :
    (respond uuid 101 draws "n7" accept "a2" db7 ≡ err (invalid_transition expired (some accepted)))
    × (get_db (respond uuid 101 draws "n7" accept "a2") db7 ≡ db7)
unfolding lookup parse_agent_id
respond_late_example =
    respond_late uuid 101 draws "n7" accept "a2" db7 7 n7 refl refl 2 refl (inr refl) refl
      (omega arith)

respond_outsider_example :
    (respond uuid 5 draws "n7" accept "a3" db7 ≡ err only_participants)
    × (get_db (respond uuid 5 draws "n7" accept "a3") db7 ≡ db7)
unfolding lookup parse_agent_id
respond_outsider_example =
    respond_outsider uuid 5 draws "n7" accept "a3" db7 7 n7 refl refl 3 refl (omega arith)
      (omega arith)
