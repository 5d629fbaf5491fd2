-- ===== src/Negotiation/Responded.antt =====
-- What a `respond` that returned has found and done, for the proofs about it.
use open_agent_net.Prelude.{ℕ, String, ◌≡◌, true, Option, none, some, arith, Option-cases, inl, inr}
use open_agent_net.Db.{ok, Result-cases, lookup, add_row, map_rows}
use open_agent_net.Identifiers.{Uuid, parse_agent_id}
use open_agent_net.Negotiation.State.{
  Proposal, Response, Negotiation, NegotiationDb, is_valid_transition,
}
use open_agent_net.Negotiation.Service.{
  Draws, RespondResult, expire_row, expire_due, participants, create_proposal, add_negotiation,
  new_negotiation, participant, decide, stored, logged, store, answer, respond,
}

-- The session after `_expire_due`.
abbrev pub swept : ℕ → NegotiationDb → NegotiationDb
swept now db = record db { negotiations = map_rows (expire_row now) db.negotiations }

pub record Responded (uuid : Uuid) (now : ℕ) (draws : Draws) (text : String) (response : Response)
    (who : String) (db : NegotiationDb) (r : RespondResult × NegotiationDb) : Type 0 where
  pub id : ℕ
  pub n : Negotiation
  pub actor : ℕ
  pub decided : Negotiation × Option ℕ
  pub mid : NegotiationDb
  pub at_id : uuid.parse text ≡ some id
  pub row : lookup id (swept now db).negotiations ≡ some n
  pub is_actor : participant (parse_agent_id uuid who) n ≡ some actor
  pub allowed : is_valid_transition n.status response.decision ≡ true
  pub choice : decide now draws id n response response.decision (swept now db) ≡ ok (decided, mid)
  pub result : r ≡ (
    answer now id n response decided,
    store id (stored now response decided.0) (logged id actor n response) mid,
  )

module _ (uuid : Uuid) (now : ℕ) (draws : Draws) (text : String) (response : Response)
    (who : String) (db : NegotiationDb) where
  pub respond-Responded :
      {r : RespondResult × NegotiationDb}
      → respond uuid now draws text response who db ≡ ok r
      → Responded uuid now draws text response who db r
  unfolding respond expire_due
  respond-Responded {r} h = elim (Option-cases (uuid.parse text)) [
    | inl e ↦ absurd (ground arith)
    | inr (id, e1) ↦ elim (Option-cases (lookup id (swept now db).negotiations)) [
      | inl e ↦ absurd (ground arith)
      | inr (n, e2) ↦ elim (Option-cases (participant (parse_agent_id uuid who) n)) [
        | inl e ↦ absurd (ground arith)
        | inr (actor, e3) ↦
            elim (Result-cases (decide now draws id n response response.decision (swept now db))) [
              | inl e ↦ absurd (ground arith)
              | inr (x, e4) ↦ record {
                id = id;
                n = n;
                actor = actor;
                decided = x.0;
                mid = x.1;
                at_id = e1;
                row = e2;
                is_actor = e3;
                allowed = ground arith;
                choice = e4;
                result = ground arith;
              }
            ]
      ]
    ]
  ]

-- What a `create_proposal` that returned has done.
pub record Created (uuid : Uuid) (now : ℕ) (draws : Draws) (from to : String) (proposal : Proposal)
    (db : NegotiationDb) (r : (ℕ × Negotiation) × NegotiationDb) : Type 0 where
  pub ids : ℕ × ℕ
  pub found : participants (parse_agent_id uuid from) (parse_agent_id uuid to) ≡ some ids
  pub free : lookup draws.id db.negotiations ≡ none
  pub made : r.1 ≡ record db {
    negotiations = add_row draws.id (new_negotiation now draws.token ids proposal) db.negotiations;
    rounds = r.1.rounds;
  }

module _ (uuid : Uuid) (now : ℕ) (draws : Draws) (from to : String) (proposal : Proposal)
    (db : NegotiationDb) where
  pub create_proposal-Created :
      {r : (ℕ × Negotiation) × NegotiationDb}
      → create_proposal uuid now draws from to proposal db ≡ ok r
      → Created uuid now draws from to proposal db r
  unfolding create_proposal add_negotiation
  create_proposal-Created {r} e =
      elim (Option-cases (participants (parse_agent_id uuid from) (parse_agent_id uuid to))) [
        | inl none_found ↦ absurd (ground arith)
        | inr (ids, found) ↦ record {
          ids = ids;
          found = found;
          free = ground arith;
          made = ground arith;
        }
      ]
