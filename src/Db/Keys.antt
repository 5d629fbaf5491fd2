-- ===== src/Db/Keys.antt =====
-- Tables in which no primary key stands twice: what a `select` finds is the row that its key has.

use open_agent_net.Prelude.{
  ℕ, ◌≡◌, refl, Bool, true, none, some, [], ◌∷◌, arith, ◌==◌, eq_of_==, if◌then◌else◌, Bool-cases,
  inl, inr, Option-cases,
}
use open_agent_net.Db.Tables.{
  Table, lookup, update, add_row, find_row, select, lookup-update, lookup-add_row,
}

module _ {ℓ} {V : Type ℓ} where
  abbrev pub KeysDiffer : Table V → Type ℓ
  KeysDiffer [] = Unit
  KeysDiffer ((k, v) ∷ t) = (lookup k t ≡ none) × KeysDiffer t

  pub KeysDiffer-update : (k : ℕ) (v : V) (t : Table V) → KeysDiffer t → KeysDiffer (update k v t)
  unfolding update
  KeysDiffer-update k v [] d = tt
  KeysDiffer-update k v ((j, w) ∷ t) d = elim (Bool-cases (j == k)) [
    | inl same ↦ rw same d
    | inr other ↦ rw other (ground (arith, lookup-update k j v t, d.0), KeysDiffer-update k v t d.1)
  ]

  pub KeysDiffer-add_row :
      (k : ℕ) (v : V) (t : Table V) → KeysDiffer t → lookup k t ≡ none → KeysDiffer (add_row k v t)
  unfolding add_row lookup
  KeysDiffer-add_row k v [] d h = (refl, tt)
  KeysDiffer-add_row k v ((j, w) ∷ t) d h =
      (ground (arith, lookup-add_row k j v t, d.0), KeysDiffer-add_row k v t d.1 (ground arith))

  pub find_row-lookup :
      (p : V → Bool) (k : ℕ) (v : V) (t : Table V)
      → KeysDiffer t
      → find_row p t ≡ some (k, v)
      → lookup k t ≡ some v
  unfolding find_row lookup
  find_row-lookup p k v [] d e = cc
  find_row-lookup p k v ((j, w) ∷ t) d e = ground (arith, find_row-lookup p k v t d.1, d.0)

  -- A write-back that leaves the tested columns as they are.
  pub find_row-update :
      (p : V → Bool) (k : ℕ) (w v : V) (t : Table V)
      → KeysDiffer t
      → lookup k t ≡ some w
      → p v ≡ p w
      → find_row p (update k v t)
        ≡ elim (find_row p t) [ none ↦ none | some (j, u) ↦ some (j, if j == k then v else u) ]
  unfolding find_row lookup update
  find_row-update p k w v [] d e s = cc
  find_row-update p k w v ((j, u) ∷ t) d e s = elim (Bool-cases (j == k)) [
    | inl same ↦ elim (Bool-cases (p v)) [
      | inl fits ↦ ground arith
      | inr misfit ↦ elim (Option-cases (find_row p t)) [
        | inl absent ↦ ground arith
        | inr ((i, x), found) ↦ ground (arith, find_row-lookup p i x t d.1 found, d.0)
      ]
    ]
    | inr other ↦ ground (arith, find_row-update p k w v t d.1)
  ]

  -- A row that a `select` leaves out stays out.
  pub lookup-select-none :
      (p : ℕ → V → Bool) (k : ℕ) (t : Table V) → lookup k t ≡ none → lookup k (select p t) ≡ none
  unfolding lookup select
  lookup-select-none p k [] e = refl
  lookup-select-none p k ((j, w) ∷ t) e = ground (arith, lookup-select-none p k t)

  -- A row that a `select` returns stands in the table and fits.
  pub lookup-select :
      (p : ℕ → V → Bool) (k : ℕ) (v : V) (t : Table V)
      → KeysDiffer t
      → lookup k (select p t) ≡ some v
      → (lookup k t ≡ some v) × (p k v ≡ true)
  unfolding lookup select
  lookup-select p k v [] d e = cc
  lookup-select p k v ((j, w) ∷ t) d e = elim (Bool-cases (j == k)) [
    | inl same ↦ ground (arith, lookup-select-none p j t d.0, eq_of_== j k same)
    | inr other ↦ ground (arith, lookup-select p k v t d.1)
  ]

  -- A row of the table that fits is returned.
  pub lookup-select-some :
      (p : ℕ → V → Bool) (k : ℕ) (v : V) (t : Table V)
      → lookup k t ≡ some v
      → p k v ≡ true
      → lookup k (select p t) ≡ some v
  unfolding lookup select
  lookup-select-some p k v [] e fits = cc
  lookup-select-some p k v ((j, w) ∷ t) e fits = elim (Bool-cases (j == k)) [
    | inl same ↦ ground (arith, eq_of_== j k same)
    | inr other ↦ ground (arith, lookup-select-some p k v t)
  ]

  pub KeysDiffer-select : (p : ℕ → V → Bool) (t : Table V) → KeysDiffer t → KeysDiffer (select p t)
  unfolding select
  KeysDiffer-select p [] d = tt
  KeysDiffer-select p ((j, w) ∷ t) d = elim (Bool-cases (p j w)) [
    | inl fits ↦ rw fits (lookup-select-none p j t d.0, KeysDiffer-select p t d.1)
    | inr misfit ↦ rw misfit (KeysDiffer-select p t d.1)
  ]
