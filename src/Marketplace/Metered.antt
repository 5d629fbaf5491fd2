-- ===== src/Marketplace/Metered.antt =====
-- The metering counts every accepted use once.
use open_agent_net.Prelude.{
  ℕ, ◌+◌, ◌≡◌, refl, ap, ◌∙◌, Bool, true, false, ◌&&◌, Option, none, some, List, [], ◌∷◌, ◌==◌,
  if◌then◌else◌, arith, inl, inr, ◌⊎◌, Option-cases,
}
use open_agent_net.Identifiers.{Uuid, parse_agent_id}
use open_agent_net.Db.{
  Result, ok, err, Result-cases, scalar_one_or_none, get_db, Table, lookup, update, add_row, select,
  KeysDiffer, KeysDiffer-update, KeysDiffer-add_row, lookup-select,
}
use open_agent_net.Marketplace.State.{Usage, MarketDb, Error, multiple_rows}
use open_agent_net.Marketplace.Usage.{
  is_use, count_use, Use, record_usage, calls_of, calls_of-add_row, calls_of-update,
}

single-ok :
    (rows : Table Usage) (db : MarketDb) (o : Option (ℕ × Usage)) (s : MarketDb)
    → scalar_one_or_none multiple_rows rows db ≡ ok (o, s)
    → (s ≡ db) × ((o ≡ none) ⊎ ((x : ℕ × Usage) × (o ≡ some x) × (rows ≡ x ∷ [])))
single-ok [] db o s h = (ground arith, inl (ground arith))
single-ok (x ∷ []) db o s h = (ground arith, inr (x, ground arith, refl))
single-ok (x ∷ y ∷ rows) db o s h = absurd (ground arith)

lookup-one : (x : ℕ × Usage) → lookup x.0 (x ∷ []) ≡ some x.1
unfolding lookup
lookup-one (k, u) = ground arith

-- What the row of a use is: none yet, or one that the table holds.
abbrev Found : ℕ → ℕ → Table Usage → Option (ℕ × Usage) → Type 0
Found listing agent t o =
    (o ≡ none)
    ⊎ ((x : ℕ × Usage) × (o ≡ some x)
        × (lookup x.0 t ≡ some x.1)
        × (is_use listing agent x.0 x.1 ≡ true))

module _ (l a : ℕ) where
  abbrev share : ℕ → ℕ → ℕ → ℕ
  share listing agent calls = if listing == l && agent == a then calls else 0

  count_use-calls :
      (now drawn listing agent calls : ℕ) (o : Option (ℕ × Usage)) (db : MarketDb)
      (x : ℕ × MarketDb)
      → Found listing agent db.usage o
      → KeysDiffer db.usage
      → count_use now drawn listing agent calls o db ≡ ok x
      → (calls_of l a x.1.usage ≡ calls_of l a db.usage + share listing agent calls)
        × KeysDiffer x.1.usage
  unfolding count_use
  count_use-calls now drawn listing agent calls o db x (inl absent) d h =
      let v : Usage = record {
        listing_id = listing;
        agent_id = agent;
        calls = calls;
        last_used_at = now;
      } in
      elim (Option-cases (lookup drawn db.usage)) [
        | inl free ↦
            let is : x.1.usage ≡ add_row drawn v db.usage = ground arith in
            rw is (
              ground (arith, calls_of-add_row l a drawn v db.usage),
              KeysDiffer-add_row drawn v db.usage d free,
            )
        | inr (u, taken) ↦ absurd (ground arith)
      ]
  count_use-calls now drawn listing agent calls o db x (inr ((id, u), there, stored, fits)) d h =
      let v : Usage = record u { calls = u.calls + calls; last_used_at = now } in
      let is : x.1.usage ≡ update id v db.usage = ground arith in
      rw is (
        ground (arith, calls_of-update l a id u v db.usage stored, fits),
        KeysDiffer-update id v db.usage d,
      )

  module _ (uuid : Uuid) where
    abbrev is_for : Use → Bool
    is_for q =
        (elim (uuid.parse q.listing_id) [ none ↦ false | some listing ↦ listing == l ])
        && (elim (parse_agent_id uuid q.agent_id) [ none ↦ false | some agent ↦ agent == a ])

    abbrev is_ok : Result Error (ℕ × MarketDb) → Bool
    is_ok (ok x) = true
    is_ok (err e) = false

    -- What a use of the agent on the listing adds, where it is accepted.
    unfoldable pub billed : Use → MarketDb → ℕ
    billed q db = if is_ok (record_usage uuid q db) && is_for q then q.calls else 0

    abbrev pub step : Use → MarketDb → MarketDb
    step q db = get_db (record_usage uuid q) db

    unfoldable pub run : List Use → MarketDb → MarketDb
    run [] db = db
    run (q ∷ qs) db = run qs (step q db)

    unfoldable pub bill : List Use → MarketDb → ℕ
    bill [] db = 0
    bill (q ∷ qs) db = billed q db + bill qs (step q db)

    accepted-calls :
        (q : Use) (db : MarketDb) (x : ℕ × MarketDb)
        → KeysDiffer db.usage
        → record_usage uuid q db ≡ ok x
        → (calls_of l a x.1.usage ≡ calls_of l a db.usage + (if is_for q then q.calls else 0))
          × KeysDiffer x.1.usage
    unfolding record_usage
    accepted-calls q db x d h = elim (Option-cases (uuid.parse q.listing_id)) [
      | inl bad ↦ absurd (ground arith)
      | inr (listing, parsed) ↦ elim (Option-cases (parse_agent_id uuid q.agent_id)) [
        | inl bad ↦ absurd (ground arith)
        | inr (agent, named) ↦
            let rows = select (is_use listing agent) db.usage in
            elim (Result-cases (scalar_one_or_none multiple_rows rows db)) [
              | inl bad ↦ absurd (ground arith)
              | inr ((o, s), single) ↦
                  let (same, one) = single-ok rows db o s single in
                  let counted : count_use q.now q.drawn listing agent q.calls o db ≡ ok x =
                    ground (arith, same) in
                  let found : Found listing agent db.usage o = elim one [
                    | inl absent ↦ inl absent
                    | inr (y, there, only) ↦
                        let at =
                          lookup-select (is_use listing agent) y.0 y.1 db.usage d
                            (ap (lookup y.0) only ∙ lookup-one y) in
                        inr (y, there, at.0, at.1)
                  ] in
                  let (calls, differ) =
                    count_use-calls q.now q.drawn listing agent q.calls o db x found d counted in
                  (ground (arith, calls), differ)
            ]
      ]
    ]

    step-calls :
        (q : Use) (db : MarketDb)
        → KeysDiffer db.usage
        → (calls_of l a (step q db).usage ≡ calls_of l a db.usage + billed q db)
          × KeysDiffer (step q db).usage
    unfolding get_db billed
    step-calls q db d = elim (Result-cases (record_usage uuid q db)) [
      | inl (e, bad) ↦ rw bad (omega arith, d)
      | inr (x, good) ↦ rw good (accepted-calls q db x d good)
    ]

    -- The metering is exact: after any sequence of uses, the calls counted for a listing and an agent are
    -- those counted before and the calls of the accepted uses of that agent on that listing, no more.
    pub metering_exact :
        (qs : List Use) (db : MarketDb)
        → KeysDiffer db.usage
        → calls_of l a (run qs db).usage ≡ calls_of l a db.usage + bill qs db
    unfolding run bill
    metering_exact [] db d = omega arith
    metering_exact (q ∷ qs) db d =
        let (here, differ) = step-calls q db d in
        let rest = metering_exact qs (step q db) differ in omega (arith, here, rest)
