-- ===== src/Negotiation/Invariant.antt =====
-- The invariant of the negotiation tables, and that every request keeps it.
use open_agent_net.Prelude.{
  ℕ, ◌≤◌, String, ◌≡◌, ◌≢◌, refl, false, Option, none, some, arith, inl, inr, Bool-cases, ◌==◌,
  List,
}
use open_agent_net.Db.{
  get_db, get_db_inv, lookup, update, add_row, any_row, any_row-lookup, lookup-update,
  lookup-add_row, lookup-map_rows, lookup-map_rows-some,
}
use open_agent_net.Identifiers.{Uuid}
use open_agent_net.Negotiation.State.{
  accepted, Proposal, Response, Negotiation, NegotiationRound, TaskContract, NegotiationDb,
  max_rounds,
}
use open_agent_net.Negotiation.Service.{
  Draws, RespondResult, expire_row, participants, is_contract_of, create_proposal, new_negotiation,
  respond,
}
use open_agent_net.Negotiation.Decided.{Decided, agree, counter, decline, decide-Decided}
use open_agent_net.Negotiation.Responded.{
  swept, Responded, respond-Responded, Created, create_proposal-Created,
}

-- The contract agrees with its negotiation, which has been accepted.
abbrev pub Backed : NegotiationDb → TaskContract → Type 0
Backed db c =
    (n : Negotiation) × (lookup c.negotiation_id db.negotiations ≡ some n)
    × (n.status ≡ accepted)
    × (c.requester_id ≡ n.requester_id)
    × (c.target_id ≡ n.target_id)
    × (c.capability ≡ n.capability)
    × (c.session_token ≡ n.session_token)
    × (resp : Response) × (n.response ≡ some resp)
    × (c.terms ≡ (n.proposal, resp.others))

abbrev pub InBounds : Negotiation → Type 0
InBounds n = (1 ≤ n.round_count) × (n.round_count ≤ max_rounds) × (n.requester_id ≢ n.target_id)

pub record IsValid (db : NegotiationDb) : Type 0 where
  pub bounded : (id : ℕ) (n : Negotiation) → lookup id db.negotiations ≡ some n → InBounds n
  pub backed : (k : ℕ) (c : TaskContract) → lookup k db.contracts ≡ some c → Backed db c
  pub agreed :
      (id : ℕ) (n : Negotiation)
      → lookup id db.negotiations ≡ some n
      → n.status ≡ accepted
      → (k : ℕ) × (c : TaskContract) × (lookup k db.contracts ≡ some c) × (c.negotiation_id ≡ id)
  pub single :
      (i j : ℕ) (c d : TaskContract)
      → lookup i db.contracts ≡ some c
      → lookup j db.contracts ≡ some d
      → c.negotiation_id ≡ d.negotiation_id
      → i ≡ j

module _ (now : ℕ) (db : NegotiationDb) (v : IsValid db) where
  swept-bounded :
      (id : ℕ) (n : Negotiation) → lookup id (swept now db).negotiations ≡ some n → InBounds n
  unfolding expire_row
  swept-bounded id n e =
      let (w, at, same) = lookup-map_rows-some (expire_row now) id n db.negotiations e in
      ground (arith, v.bounded id w at)

  swept-accepted :
      (id : ℕ) (n : Negotiation)
      → lookup id db.negotiations ≡ some n
      → n.status ≡ accepted
      → lookup id (swept now db).negotiations ≡ some n
  unfolding expire_row
  swept-accepted id n e acc = ground (arith, lookup-map_rows (expire_row now) id db.negotiations)

  accepted-swept :
      (id : ℕ) (n : Negotiation)
      → lookup id (swept now db).negotiations ≡ some n
      → n.status ≡ accepted
      → lookup id db.negotiations ≡ some n
  unfolding expire_row
  accepted-swept id n e acc =
      let w = lookup-map_rows-some (expire_row now) id n db.negotiations e in
      ground (arith, w.1, w.2)

  pub swept-IsValid : IsValid (swept now db)
  swept-IsValid = record {
    bounded = swept-bounded;
    backed = λ k c e.
        let b = v.backed k c e in
        (b.0, swept-accepted c.negotiation_id b.0 b.1 b.2, b.2, b.3, b.4, b.5, b.6, b.7, b.8, b.9);
    agreed = λ id n e acc. v.agreed id n (accepted-swept id n e acc) acc;
    single = v.single;
  }

-- Rewriting a row that is not accepted, into one that is not.
module _ (db : NegotiationDb) (v : IsValid db) (id : ℕ) (n row : Negotiation)
    (at : lookup id db.negotiations ≡ some n) (was : n.status ≢ accepted) where
  -- A contract stands for another negotiation, whose row is not written.
  untouched :
      (k : ℕ) (c : TaskContract) (e : lookup k db.contracts ≡ some c)
      → lookup c.negotiation_id (update id row db.negotiations) ≡ some (v.backed k c e).0
  untouched k c e =
      let b = v.backed k c e in
      ground (arith, lookup-update id c.negotiation_id row db.negotiations, b.1, b.2)

  update-IsValid :
      (rounds : List NegotiationRound)
      → row.status ≢ accepted
      → InBounds row
      → IsValid (record db { negotiations = update id row db.negotiations; rounds = rounds })
  update-IsValid rounds new ok_row = record {
    bounded = λ j m e. ground (arith, lookup-update id j row db.negotiations, v.bounded j m);
    backed = λ k c e.
        let b = v.backed k c e in (b.0, untouched k c e, b.2, b.3, b.4, b.5, b.6, b.7, b.8, b.9);
    agreed = λ j m e acc. v.agreed j m (ground (arith, lookup-update id j row db.negotiations)) acc;
    single = v.single;
  }

  agree-IsValid :
      (rounds : List NegotiationRound) (k : ℕ) (c : TaskContract)
      → row.status ≡ accepted
      → InBounds row
      → c.negotiation_id ≡ id
      → c.requester_id ≡ row.requester_id
      → c.target_id ≡ row.target_id
      → c.capability ≡ row.capability
      → c.session_token ≡ row.session_token
      → (resp : Response) → row.response ≡ some resp
      → c.terms ≡ (row.proposal, resp.others)
      → lookup k db.contracts ≡ none
      → any_row (is_contract_of id) db.contracts ≡ false
      → IsValid (record db {
        negotiations = update id row db.negotiations;
        rounds = rounds;
        contracts = add_row k c db.contracts;
      })
  agree-IsValid rounds k c new ok_row e1 e2 e3 e4 e5 resp e6 e7 free none_yet = record {
    bounded = λ j m e. ground (arith, lookup-update id j row db.negotiations, v.bounded j m);
    backed = λ j d e. elim (Bool-cases (k == j)) [
      | inl same ↦
          let d_is : d ≡ c = ground (arith, lookup-add_row k j c db.contracts free) in
          (
            row,
            ground (arith, lookup-update id d.negotiation_id row db.negotiations),
            new,
            ground arith,
            ground arith,
            ground arith,
            ground arith,
            resp,
            e6,
            ground arith,
          )
      | inr other ↦
          let old : lookup j db.contracts ≡ some d =
            ground (arith, lookup-add_row k j c db.contracts free) in
          let b = v.backed j d old in
          (b.0, untouched j d old, b.2, b.3, b.4, b.5, b.6, b.7, b.8, b.9)
    ];
    agreed = λ j m e acc. elim (Bool-cases (id == j)) [
      | inl same ↦ (k, c, ground (arith, lookup-add_row k k c db.contracts free), ground arith)
      | inr other ↦
          let old : lookup j db.negotiations ≡ some m =
            ground (arith, lookup-update id j row db.negotiations) in
          let a = v.agreed j m old acc in
          (a.0, a.1, ground (arith, lookup-add_row k a.0 c db.contracts free, a.2), a.3)
    ];
    single = λ i j a b ea eb same. ground (
      arith,
      lookup-add_row k i c db.contracts free,
      lookup-add_row k j c db.contracts free,
      v.single i j a b,
      any_row-lookup (is_contract_of id) i a db.contracts none_yet,
      any_row-lookup (is_contract_of id) j b db.contracts none_yet,
    );
  }

-- A response that returns keeps the invariant.
module _ (uuid : Uuid) (now : ℕ) (draws : Draws) (text : String) (response : Response)
    (who : String) (db : NegotiationDb) (v : IsValid db) where
  Responded-IsValid :
      (r : RespondResult × NegotiationDb)
      → Responded uuid now draws text response who db r
      → IsValid r.1
  Responded-IsValid r h = store_case (
      decide-Decided now draws h.id h.n response response.decision (swept now db) h.decided h.mid
        h.choice)
    where
      valid : IsValid (swept now db)
      valid = swept-IsValid now db v

      was : h.n.status ≢ accepted
      was e = ground (arith, h.allowed)

      bounds : InBounds h.n
      bounds = valid.bounded h.id h.n h.row

      store_case :
          Decided now draws h.id h.n response response.decision (swept now db) h.decided.0 h.mid
          → IsValid r.1
      store_case (agree d row free unused new_token mid) =
          rw (h.result, mid, row)
            (agree-IsValid (swept now db) valid h.id h.n _ h.row was _ draws.id _ refl bounds refl
              refl refl refl refl response refl refl free unused)
      store_case (counter d row room mid) =
          rw (h.result, mid, row)
            (update-IsValid (swept now db) valid h.id h.n _ h.row was _ (λ e. ground arith)
              (omega arith, room, bounds.2))
      store_case (decline d row mid) =
          rw (h.result, mid, row)
            (update-IsValid (swept now db) valid h.id h.n _ h.row was _ (λ e. ground arith) bounds)

add_negotiation-IsValid :
    (db : NegotiationDb) (v : IsValid db) (id : ℕ) (n : Negotiation)
    (rounds : List NegotiationRound)
    → lookup id db.negotiations ≡ none
    → InBounds n
    → n.status ≢ accepted
    → IsValid (record db { negotiations = add_row id n db.negotiations; rounds = rounds })
add_negotiation-IsValid db v id n rounds free bounds fresh_row = record {
  bounded = λ j m e. ground (arith, lookup-add_row id j n db.negotiations free, v.bounded j m);
  backed = λ k c e.
      let b = v.backed k c e in
      (
        b.0,
        ground (arith, lookup-add_row id c.negotiation_id n db.negotiations free, b.1),
        b.2,
        b.3,
        b.4,
        b.5,
        b.6,
        b.7,
        b.8,
        b.9,
      );
  agreed =
      λ j m e acc. v.agreed j m (ground (arith, lookup-add_row id j n db.negotiations free)) acc;
  single = v.single;
}

pub respond-IsValid :
    (uuid : Uuid) (now : ℕ) (draws : Draws) (text : String) (response : Response) (who : String)
    (db : NegotiationDb)
    → IsValid db
    → IsValid (get_db (respond uuid now draws text response who) db)
respond-IsValid uuid now draws text response who db v =
    get_db_inv IsValid (respond uuid now draws text response who) db
      (λ r e.
        Responded-IsValid uuid now draws text response who db v r
          (respond-Responded uuid now draws text response who db e))
      v

-- The two agents of a negotiation that is created are different.
participants_apart : (a b : Option ℕ) (ids : ℕ × ℕ) → participants a b ≡ some ids → ids.0 ≢ ids.1
unfolding participants
participants_apart (some a) (some b) ids h = ground arith
participants_apart _ _ ids h = cc

Created-IsValid :
    (uuid : Uuid) (now : ℕ) (draws : Draws) (from to : String) (proposal : Proposal)
    (db : NegotiationDb) (v : IsValid db) (r : (ℕ × Negotiation) × NegotiationDb)
    → Created uuid now draws from to proposal db r
    → IsValid r.1
Created-IsValid uuid now draws from to proposal db v r c = rw c.made (
    add_negotiation-IsValid db v draws.id (new_negotiation now draws.token c.ids proposal)
      r.1.rounds c.free (omega arith, omega arith, participants_apart _ _ c.ids c.found) (λ p. cc))

pub create_proposal-IsValid :
    (uuid : Uuid) (now : ℕ) (draws : Draws) (from to : String) (proposal : Proposal)
    (db : NegotiationDb)
    → IsValid db
    → IsValid (get_db (create_proposal uuid now draws from to proposal) db)
create_proposal-IsValid uuid now draws from to proposal db v =
    get_db_inv IsValid (create_proposal uuid now draws from to proposal) db
      (λ r e.
        Created-IsValid uuid now draws from to proposal db v r
          (create_proposal-Created uuid now draws from to proposal db e))
      v
