-- ===== src/Negotiation/Requests.antt =====
-- Sequences of requests to the negotiation service, each one transaction.
use open_agent_net.Prelude.{ℕ, String, ◌≡◌, false, some, arith, ◌==◌, List, [], ◌∷◌}
use open_agent_net.Db.{get_db, get_db_inv, lookup, lookup-update, lookup-add_row, lookup-map_rows}
use open_agent_net.Identifiers.{Uuid}
use open_agent_net.Negotiation.State.{Proposal, Response, Negotiation, NegotiationDb, is_open}
use open_agent_net.Negotiation.Service.{
  Draws, RespondResult, expire_row, new_negotiation, create_proposal, stored, respond,
}
use open_agent_net.Negotiation.Decided.{Decided, agree, counter, decline, decide-Decided}
use open_agent_net.Negotiation.Responded.{
  swept, Responded, respond-Responded, Created, create_proposal-Created,
}
use open_agent_net.Negotiation.Invariant.{IsValid, respond-IsValid, create_proposal-IsValid}

abbrev pub empty : NegotiationDb
empty = record { negotiations = []; rounds = []; contracts = [] }

pub data Request : Type 0 where
  create : ℕ → Draws → String → String → Proposal → Request
  answer_with : ℕ → Draws → String → Response → String → Request

abbrev pub step : Uuid → Request → NegotiationDb → NegotiationDb
step uuid (create now draws from to proposal) db =
    get_db (create_proposal uuid now draws from to proposal) db
step uuid (answer_with now draws text response who) db =
    get_db (respond uuid now draws text response who) db

pub run : Uuid → List Request → NegotiationDb → NegotiationDb
run uuid [] db = db
run uuid (q ∷ qs) db = run uuid qs (step uuid q db)

step-IsValid :
    (uuid : Uuid) (q : Request) (db : NegotiationDb) → IsValid db → IsValid (step uuid q db)
step-IsValid uuid (create now draws from to proposal) db v =
    create_proposal-IsValid uuid now draws from to proposal db v
step-IsValid uuid (answer_with now draws text response who) db v =
    respond-IsValid uuid now draws text response who db v

-- Whatever requests are made, in whatever order, the tables stay valid: between one and three
-- rounds, two different agents, and exactly one contract for each negotiation that was accepted and for
-- no other, with its agents, capability and token, and with its proposal, updated by the response that
-- the row keeps, as the terms.
pub run-IsValid :
    (uuid : Uuid) (qs : List Request) (db : NegotiationDb) → IsValid db → IsValid (run uuid qs db)
unfolding run
run-IsValid uuid [] db v = v
run-IsValid uuid (q ∷ qs) db v = run-IsValid uuid qs (step uuid q db) (step-IsValid uuid q db v)

module _ (uuid : Uuid) (id : ℕ) (n : Negotiation) (closed : is_open n.status ≡ false) where
  swept_keeps :
      (now : ℕ) (db : NegotiationDb)
      → lookup id db.negotiations ≡ some n
      → lookup id (swept now db).negotiations ≡ some n
  unfolding expire_row
  swept_keeps now db at = ground (arith, lookup-map_rows (expire_row now) id db.negotiations)

  respond_keeps :
      (now : ℕ) (draws : Draws) (text : String) (response : Response) (who : String)
      (db : NegotiationDb) (r : RespondResult × NegotiationDb)
      → lookup id db.negotiations ≡ some n
      → Responded uuid now draws text response who db r
      → lookup id r.1.negotiations ≡ some n
  respond_keeps now draws text response who db r at h = after (
      decide-Decided now draws h.id h.n response response.decision (swept now db) h.decided h.mid
        h.choice)
    where
      row : Negotiation
      row = stored now response h.decided.0

      old : lookup id (swept now db).negotiations ≡ some n
      old = swept_keeps now db at

      other : (h.id == id) ≡ false
      other = ground (arith, old, h.row, h.allowed)

      after :
          Decided now draws h.id h.n response response.decision (swept now db) h.decided.0 h.mid
          → lookup id r.1.negotiations ≡ some n
      after (agree d m free unused new_token mid) =
          rw (h.result, mid)
            (ground (arith, lookup-update h.id id row (swept now db).negotiations, other, old))
      after (counter d m room mid) =
          rw (h.result, mid)
            (ground (arith, lookup-update h.id id row (swept now db).negotiations, other, old))
      after (decline d m mid) =
          rw (h.result, mid)
            (ground (arith, lookup-update h.id id row (swept now db).negotiations, other, old))

  create_keeps :
      (now : ℕ) (draws : Draws) (from to : String) (proposal : Proposal) (db : NegotiationDb)
      (r : (ℕ × Negotiation) × NegotiationDb)
      → lookup id db.negotiations ≡ some n
      → Created uuid now draws from to proposal db r
      → lookup id r.1.negotiations ≡ some n
  create_keeps now draws from to proposal db r at c =
      let row = new_negotiation now draws.token c.ids proposal in
      rw c.made (ground (arith, lookup-add_row draws.id id row db.negotiations c.free))

  step_keeps :
      (q : Request) (db : NegotiationDb)
      → lookup id db.negotiations ≡ some n
      → lookup id (step uuid q db).negotiations ≡ some n
  step_keeps (create now draws from to proposal) db at =
      get_db_inv (λ d. lookup id d.negotiations ≡ some n)
        (create_proposal uuid now draws from to proposal) db
        (λ r e.
          create_keeps now draws from to proposal db r at
            (create_proposal-Created uuid now draws from to proposal db e))
        at
  step_keeps (answer_with now draws text response who) db at =
      get_db_inv (λ d. lookup id d.negotiations ≡ some n) (respond uuid now draws text response who)
        db
        (λ r e.
          respond_keeps now draws text response who db r at
            (respond-Responded uuid now draws text response who db e))
        at

  -- A negotiation that is accepted, declined or expired is frozen: no sequence of requests changes
  -- any field of its row.
  pub closed_is_final :
      (qs : List Request) (db : NegotiationDb)
      → lookup id db.negotiations ≡ some n
      → lookup id (run uuid qs db).negotiations ≡ some n
  unfolding run
  closed_is_final [] db at = at
  closed_is_final (q ∷ qs) db at = closed_is_final qs (step uuid q db) (step_keeps q db at)
