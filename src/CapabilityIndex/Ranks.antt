-- ===== src/CapabilityIndex/Ranks.antt =====
-- What the writes of the index do to the score of an agent under a capability.
use open_agent_net.Prelude.{
  ℕ, ◌≡◌, refl, String, not, ◌&&◌, Option, none, some, List, [], ◌∷◌, ◌==◌, str_eq, eq_iff,
  if◌then◌else◌, arith, inl, inr, Bool-cases, Option-cases,
}
use open_agent_net.Db.{
  Table, lookup, delete, lookup-update, lookup-add_row, lookup-delete, KeysDiffer,
  KeysDiffer-update, KeysDiffer-add_row,
}
use open_agent_net.CapabilityIndex.Redis.{
  Index, has, minus, put_score, zadd, zrem, zadd_all, zrem_all,
}

pub has-minus : (n : String) (a b : List String) → has n (minus a b) ≡ (has n a && not (has n b))
unfolding has minus
has-minus n [] b = ground arith
has-minus n (m ∷ a) b = elim (Bool-cases (str_eq n m)) [
  | inl same ↦ let is : n ≡ m = ground (arith, eq_iff n m) in ground (arith, has-minus n a b, is)
  | inr other ↦ ground (arith, has-minus n a b)
]

module _ {F : Type 0} where
  KeysDiffer-delete : (k : ℕ) (t : Table F) → KeysDiffer t → KeysDiffer (delete k t)
  unfolding delete
  KeysDiffer-delete k [] d = tt
  KeysDiffer-delete k ((j, v) ∷ t) d = elim (Bool-cases (j == k)) [
    | inl same ↦ rw same (KeysDiffer-delete k t d.1)
    | inr other ↦ rw other (ground (arith, lookup-delete k j t, d.0), KeysDiffer-delete k t d.1)
  ]

  put_score-lookup :
      (id j : ℕ) (s : F) (t : Table F)
      → lookup j (put_score id s t) ≡ (if id == j then some s else lookup j t)
  unfolding put_score
  put_score-lookup id j s t = elim (Option-cases (lookup id t)) [
    | inl free ↦ ground (arith, lookup-add_row id j s t)
    | inr (o, taken) ↦ ground (arith, lookup-update id j s t)
  ]

  put_score-KeysDiffer :
      (id : ℕ) (s : F) (t : Table F) → KeysDiffer t → KeysDiffer (put_score id s t)
  unfolding put_score
  put_score-KeysDiffer id s t d = elim (Option-cases (lookup id t)) [
    | inl free ↦ rw free (KeysDiffer-add_row id s t d free)
    | inr (o, taken) ↦ rw taken (KeysDiffer-update id s t d)
  ]

  abbrev pub rank : Index F → String → ℕ → Option F
  rank x n j = lookup j (x.ranks n)

  abbrev pub Keyed : Index F → Type 0
  Keyed x = (n : String) → KeysDiffer (x.ranks n)

  pub zadd_all-rank :
      (names : List String) (id : ℕ) (s : F) (x : Index F) (n : String) (j : ℕ)
      → rank (zadd_all names id s x) n j ≡ (if id == j && has n names then some s else rank x n j)
  unfolding zadd_all zadd has
  zadd_all-rank [] id s x n j = ground arith
  zadd_all-rank (m ∷ ms) id s x n j = elim (Bool-cases (str_eq n m)) [
    | inl same ↦
        let is : n ≡ m = ground (arith, eq_iff n m) in
        ground (
          arith,
          zadd_all-rank ms id s (zadd m id s x) n j,
          put_score-lookup id j s (x.ranks m),
          is,
        )
    | inr other ↦ ground (arith, zadd_all-rank ms id s (zadd m id s x) n j)
  ]

  pub zadd_all-members :
      (names : List String) (id : ℕ) (s : F) (x : Index F)
      → (zadd_all names id s x).members ≡ x.members
  unfolding zadd_all zadd
  zadd_all-members [] id s x = refl
  zadd_all-members (m ∷ ms) id s x = zadd_all-members ms id s (zadd m id s x)

  zadd-Keyed : (m : String) (id : ℕ) (s : F) (x : Index F) → Keyed x → Keyed (zadd m id s x)
  unfolding zadd
  zadd-Keyed m id s x h n = elim (Bool-cases (str_eq n m)) [
    | inl same ↦ rw same (put_score-KeysDiffer id s (x.ranks m) (h m))
    | inr other ↦ rw other (h n)
  ]

  pub zadd_all-Keyed :
      (names : List String) (id : ℕ) (s : F) (x : Index F) → Keyed x → Keyed (zadd_all names id s x)
  unfolding zadd_all
  zadd_all-Keyed [] id s x h = h
  zadd_all-Keyed (m ∷ ms) id s x h = zadd_all-Keyed ms id s (zadd m id s x) (zadd-Keyed m id s x h)

  pub zrem_all-rank :
      (names : List String) (id : ℕ) (x : Index F) (n : String) (j : ℕ)
      → rank (zrem_all names id x) n j ≡ (if id == j && has n names then none else rank x n j)
  unfolding zrem_all zrem has
  zrem_all-rank [] id x n j = ground arith
  zrem_all-rank (m ∷ ms) id x n j = elim (Bool-cases (str_eq n m)) [
    | inl same ↦
        let is : n ≡ m = ground (arith, eq_iff n m) in
        ground (arith, zrem_all-rank ms id (zrem m id x) n j, lookup-delete id j (x.ranks m), is)
    | inr other ↦ ground (arith, zrem_all-rank ms id (zrem m id x) n j)
  ]

  pub zrem_all-members :
      (names : List String) (id : ℕ) (x : Index F) → (zrem_all names id x).members ≡ x.members
  unfolding zrem_all zrem
  zrem_all-members [] id x = refl
  zrem_all-members (m ∷ ms) id x = zrem_all-members ms id (zrem m id x)

  zrem-Keyed : (m : String) (id : ℕ) (x : Index F) → Keyed x → Keyed (zrem m id x)
  unfolding zrem
  zrem-Keyed m id x h n = elim (Bool-cases (str_eq n m)) [
    | inl same ↦ rw same (KeysDiffer-delete id (x.ranks m) (h m))
    | inr other ↦ rw other (h n)
  ]

  pub zrem_all-Keyed :
      (names : List String) (id : ℕ) (x : Index F) → Keyed x → Keyed (zrem_all names id x)
  unfolding zrem_all
  zrem_all-Keyed [] id x h = h
  zrem_all-Keyed (m ∷ ms) id x h = zrem_all-Keyed ms id (zrem m id x) (zrem-Keyed m id x h)
