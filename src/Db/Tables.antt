-- ===== src/Db/Tables.antt =====
-- A table keyed by its primary key. `insert` refuses a key that is taken, as PostgreSQL does.
use mathlib.Core.Option
use open_agent_net.Prelude.{
  ℕ, ◌≡◌, refl, Bool, true, false, ◌||◌, Option, none, some, List, [], ◌∷◌, arith, ◌==◌,
  if◌then◌else◌, is_some, Bool-cases, inl, inr,
}

abbrev pub Table {ℓ} : Type ℓ → Type ℓ
Table V = List (ℕ × V)

module _ {ℓ} {V : Type ℓ} where
  -- `select(T).where(T.id == k)`
  unfoldable pub lookup : ℕ → Table V → Option V
  lookup k [] = none
  lookup k ((j, v) ∷ t) = if j == k then some v else lookup k t

  -- The write-back of a changed row object.
  unfoldable pub update : ℕ → V → Table V → Table V
  update k v [] = []
  update k v ((j, w) ∷ t) = if j == k then (j, v) ∷ t else (j, w) ∷ update k v t

  -- `db.add(row)` and the flush; rows are kept in the order of their creation.
  unfoldable pub add_row : ℕ → V → Table V → Table V
  add_row k v [] = (k, v) ∷ []
  add_row k v (e ∷ t) = e ∷ add_row k v t

  -- `db.delete(row)`
  unfoldable pub delete : ℕ → Table V → Table V
  delete k [] = []
  delete k ((j, w) ∷ t) = let rest = delete k t in if j == k then rest else (j, w) ∷ rest

  -- every row that a bulk `select` returns is changed in place
  unfoldable pub map_rows : (V → V) → Table V → Table V
  map_rows f [] = []
  map_rows f ((j, v) ∷ t) = (j, f v) ∷ map_rows f t

  -- `select(T).where(p)`, on rows with their key
  unfoldable pub select : (ℕ → V → Bool) → Table V → Table V
  select p [] = []
  select p ((j, v) ∷ t) = let rest = select p t in if p j v then (j, v) ∷ rest else rest

  unfoldable pub any_row : (V → Bool) → Table V → Bool
  any_row p [] = false
  any_row p ((j, v) ∷ t) = p v || any_row p t

  pub lookup-update :
      (k j : ℕ) (v : V) (t : Table V)
      → lookup j (update k v t)
        ≡ (if k == j then (if is_some (lookup k t) then some v else none) else lookup j t)
  unfolding lookup update
  lookup-update k j v [] = ground arith
  lookup-update k j v ((i, w) ∷ t) = ground (arith, lookup-update k j v t)

  pub lookup-add_row :
      (k j : ℕ) (v : V) (t : Table V)
      → lookup k t ≡ none
      → lookup j (add_row k v t) ≡ (if k == j then some v else lookup j t)
  unfolding lookup add_row
  lookup-add_row k j v [] h = refl
  lookup-add_row k j v ((i, w) ∷ t) h = ground (arith, lookup-add_row k j v t)

  pub lookup-delete :
      (k j : ℕ) (t : Table V) → lookup j (delete k t) ≡ (if k == j then none else lookup j t)
  unfolding lookup delete
  lookup-delete k j [] = ground arith
  lookup-delete k j ((i, w) ∷ t) = ground (arith, lookup-delete k j t)

  pub lookup-map_rows :
      (f : V → V) (j : ℕ) (t : Table V) → lookup j (map_rows f t) ≡ Option.map f (lookup j t)
  unfolding lookup map_rows
  lookup-map_rows f j [] = refl
  lookup-map_rows f j ((i, w) ∷ t) = ground (arith, lookup-map_rows f j t)

  pub any_row-lookup :
      (p : V → Bool) (k : ℕ) (v : V) (t : Table V)
      → any_row p t ≡ false
      → lookup k t ≡ some v
      → p v ≡ false
  unfolding lookup any_row
  any_row-lookup p k v [] h e = cc
  any_row-lookup p k v ((i, w) ∷ t) h e = ground (arith, any_row-lookup p k v t)

  -- A row of a table changed in bulk comes from a row of the table.
  pub lookup-map_rows-some :
      (f : V → V) (k : ℕ) (v : V) (t : Table V)
      → lookup k (map_rows f t) ≡ some v
      → (w : V) × (lookup k t ≡ some w) × (v ≡ f w)
  unfolding lookup map_rows
  lookup-map_rows-some f k v [] e = cc
  lookup-map_rows-some f k v ((i, w) ∷ t) e = elim (Bool-cases (i == k)) [
    | inl same ↦ (w, ground arith, ground arith)
    | inr other ↦ rw other (lookup-map_rows-some f k v t (rw other at e))
  ]

  -- A `select` on a unique column has one row at most: the first that fits.
  unfoldable pub find_row : (V → Bool) → Table V → Option (ℕ × V)
  find_row p [] = none
  find_row p ((j, v) ∷ t) = if p v then some (j, v) else find_row p t

  pub find_row-add_row :
      (p : V → Bool) (k : ℕ) (v : V) (t : Table V)
      → find_row p t ≡ none
      → find_row p (add_row k v t) ≡ (if p v then some (k, v) else none)
  unfolding find_row add_row
  find_row-add_row p k v [] h = refl
  find_row-add_row p k v ((i, w) ∷ t) h = ground (arith, find_row-add_row p k v t)

  pub find_row_fits :
      (p : V → Bool) (t : Table V) (x : ℕ × V) → find_row p t ≡ some x → p x.1 ≡ true
  unfolding find_row
  find_row_fits p [] x h = cc
  find_row_fits p ((i, w) ∷ t) x h = ground (arith, find_row_fits p t x)

  pub find_row-none :
      (p : V → Bool) (k : ℕ) (v : V) (t : Table V)
      → find_row p t ≡ none
      → lookup k t ≡ some v
      → p v ≡ false
  unfolding find_row lookup
  find_row-none p k v [] h e = cc
  find_row-none p k v ((i, w) ∷ t) h e = ground (arith, find_row-none p k v t)

  pub find_row-add_row-some :
      (p : V → Bool) (k : ℕ) (v : V) (t : Table V) (x : ℕ × V)
      → find_row p t ≡ some x
      → find_row p (add_row k v t) ≡ some x
  unfolding find_row add_row
  find_row-add_row-some p k v [] x h = cc
  find_row-add_row-some p k v ((i, w) ∷ t) x h = ground (arith, find_row-add_row-some p k v t x)
