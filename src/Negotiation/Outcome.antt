-- ===== src/Negotiation/Outcome.antt =====
-- What one response does: who may make it, when, and what it stores and returns.
use open_agent_net.Prelude.{
  ℕ, ◌+◌, ◌≤◌, ◌<◌, String, ◌≡◌, ◌≢◌, true, Option, none, some, arith, inl, inr, ◌⊎◌, if◌then◌else◌,
}
use open_agent_net.Db.{
  ok, err, get_db, lookup, update, lookup-update, lookup-add_row, lookup-map_rows,
  lookup-map_rows-some,
}
use open_agent_net.Identifiers.{Uuid, parse_agent_id}
use open_agent_net.Negotiation.State.{
  Status, accepted, countered, declined, expired, Response, Negotiation, NegotiationDb, is_open,
  is_valid_transition, only_participants, invalid_transition,
}
use open_agent_net.Negotiation.Service.{
  Draws, RespondResult, expire_row, expire_due, participant, contract_of, stored, respond,
}
use open_agent_net.Negotiation.Decided.{Decided, agree, counter, decline, decide-Decided}
use open_agent_net.Negotiation.Responded.{swept, Responded, respond-Responded}

-- The row after a response that the service granted.
pub record Granted (now : ℕ) (draws : Draws) (id actor : ℕ) (response : Response)
    (db : NegotiationDb) (r : RespondResult × NegotiationDb) : Type 0 where
  pub before : Negotiation
  pub after : Negotiation
  pub was : lookup id db.negotiations ≡ some before
  pub is : lookup id r.1.negotiations ≡ some after
  pub was_open : is_open before.status ≡ true
  pub in_time : now ≤ before.expires_at
  pub by : (actor ≡ before.requester_id) ⊎ (actor ≡ before.target_id)
  pub as_decided : response.decision ≡ some after.status
  pub a_decision :
      (after.status ≡ accepted) ⊎ (after.status ≡ countered) ⊎ (after.status ≡ declined)
  pub contract :
      (after.status ≡ accepted)
      → lookup draws.id r.1.contracts ≡ some (contract_of draws.token id before response)
  pub no_contract : after.status ≢ accepted → r.1.contracts ≡ db.contracts
  pub round : after.round_count ≡ before.round_count + (if is_open after.status then 1 else 0)
  pub returned : (r.0.status ≡ after.status) × (r.0.negotiation_id ≡ id)

open_in_time :
    (now : ℕ) (id : ℕ) (n : Negotiation) (db : NegotiationDb)
    → lookup id (swept now db).negotiations ≡ some n
    → is_open n.status ≡ true
    → (lookup id db.negotiations ≡ some n) × (now ≤ n.expires_at)
unfolding expire_row
open_in_time now id n db e o =
    let w = lookup-map_rows-some (expire_row now) id n db.negotiations e in ground (arith, w.1, w.2)

open_of_allowed :
    (n : Negotiation) (d : Option Status)
    → is_valid_transition n.status d ≡ true
    → is_open n.status ≡ true
open_of_allowed n d h = ground arith

actor_is :
    (a : Option ℕ) (n : Negotiation) (actor : ℕ)
    → participant a n ≡ some actor
    → (actor ≡ n.requester_id) ⊎ (actor ≡ n.target_id)
unfolding participant
actor_is (some a) n actor h = ground arith
actor_is none n actor h = cc

module _ (uuid : Uuid) (now : ℕ) (draws : Draws) (text : String) (response : Response)
    (who : String) (db : NegotiationDb) where
  Responded-Granted :
      (r : RespondResult × NegotiationDb) (h : Responded uuid now draws text response who db r)
      → Granted now draws h.id h.actor response db r
  Responded-Granted r h = after (
      decide-Decided now draws h.id h.n response response.decision (swept now db) h.decided h.mid
        h.choice)
    where
      o : is_open h.n.status ≡ true
      o = open_of_allowed h.n response.decision h.allowed

      old : (lookup h.id db.negotiations ≡ some h.n) × (now ≤ h.n.expires_at)
      old = open_in_time now h.id h.n db h.row o

      row : Negotiation
      row = stored now response h.decided.0

      row_is :
          (m : NegotiationDb)
          → m.negotiations ≡ (swept now db).negotiations
          → lookup h.id (update h.id row m.negotiations) ≡ some row
      row_is m e =
          rw e (ground (arith, lookup-update h.id h.id row (swept now db).negotiations, h.row))

      after :
          Decided now draws h.id h.n response response.decision (swept now db) h.decided.0 h.mid
          → Granted now draws h.id h.actor response db r
      after (agree d m free unused new_token mid) = record {
        before = h.n;
        after = row;
        was = old.0;
        is = rw h.result (row_is h.mid (rw mid));
        was_open = o;
        in_time = old.1;
        by = actor_is _ h.n h.actor h.is_actor;
        as_decided = rw (d, m);
        a_decision = inl (rw m);
        contract = λ _.
            rw (h.result, mid)
              (ground (
                arith,
                lookup-add_row draws.id draws.id (contract_of draws.token h.id h.n response)
                    db.contracts free,
              ));
        no_contract = λ not_accepted. absurd (not_accepted (rw m));
        round = rw m (omega arith);
        returned = (rw h.result, rw h.result);
      }
      after (counter d m room mid) = record {
        before = h.n;
        after = row;
        was = old.0;
        is = rw h.result (row_is h.mid (rw mid));
        was_open = o;
        in_time = old.1;
        by = actor_is _ h.n h.actor h.is_actor;
        as_decided = rw (d, m);
        a_decision = inr (inl (rw m));
        contract = λ p. ground (arith, p, m);
        no_contract = λ _. rw (h.result, mid);
        round = rw m (omega arith);
        returned = (rw h.result, rw h.result);
      }
      after (decline d m mid) = record {
        before = h.n;
        after = row;
        was = old.0;
        is = rw h.result (row_is h.mid (rw mid));
        was_open = o;
        in_time = old.1;
        by = actor_is _ h.n h.actor h.is_actor;
        as_decided = rw (d, m);
        a_decision = inr (inr (rw m));
        contract = λ p. ground (arith, p, m);
        no_contract = λ _. rw (h.result, mid);
        round = rw m (omega arith);
        returned = (rw h.result, rw h.result);
      }

  -- A response that returns came from a participant, before the deadline, on an open negotiation; the
  -- stored row has the status that was decided, one of accepted, countered and declined; a contract
  -- with the negotiation's terms is stored exactly when it is accepted; and only a counter-proposal
  -- uses up a round.
  pub respond_grants :
      (r : RespondResult × NegotiationDb)
      → respond uuid now draws text response who db ≡ ok r
      → (id : ℕ) × (actor : ℕ) × (uuid.parse text ≡ some id)
        × (parse_agent_id uuid who ≡ some actor)
        × Granted now draws id actor response db r
  unfolding participant
  respond_grants r e =
      let h = respond-Responded uuid now draws text response who db e in
      (h.id, h.actor, h.at_id, ground (arith, h.is_actor), Responded-Granted r h)

  module _ (id : ℕ) (n : Negotiation) (at_id : uuid.parse text ≡ some id)
      (at : lookup id db.negotiations ≡ some n) where
    -- After the deadline of an open negotiation every response of a participant is refused, as one to
    -- an expired negotiation, and the refusal rolls the mark `expired` back: the stored tables are
    -- those from before.
    pub respond_late :
        (actor : ℕ)
        → parse_agent_id uuid who ≡ some actor
        → (actor ≡ n.requester_id) ⊎ (actor ≡ n.target_id)
        → is_open n.status ≡ true
        → n.expires_at < now
        → (respond uuid now draws text response who db
            ≡ err (invalid_transition expired response.decision))
          × (get_db (respond uuid now draws text response who) db ≡ db)
    unfolding respond expire_due expire_row participant get_db
    respond_late actor who_is part o late =
        let row : lookup id (swept now db).negotiations
            ≡ some (record n { status = expired; updated_at = now }) =
          ground (arith, lookup-map_rows (expire_row now) id db.negotiations) in
        (ground (arith, row), ground (arith, row))

    -- An agent that is neither the requester nor the target is refused, in every status and with
    -- every decision, and nothing is stored.
    pub respond_outsider :
        (actor : ℕ)
        → parse_agent_id uuid who ≡ some actor
        → actor ≢ n.requester_id
        → actor ≢ n.target_id
        → (respond uuid now draws text response who db ≡ err only_participants)
          × (get_db (respond uuid now draws text response who) db ≡ db)
    unfolding respond expire_due expire_row participant get_db
    respond_outsider actor who_is a b =
        let row = lookup-map_rows (expire_row now) id db.negotiations in
        (ground (arith, row), ground (arith, row))
