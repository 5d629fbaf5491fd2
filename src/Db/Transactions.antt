-- ===== src/Db/Transactions.antt =====
-- A request: the session's state, and an exception that discards what the session has done.
use open_agent_net.Prelude.{
  inl, inr, ◌⊎◌, Bool, true, false, Option, none, some, List, [], ◌∷◌, ◌≡◌, refl,
}

pub data Result {ℓ} (E A : Type ℓ) : Type ℓ where
  ok : A → Result E A
  err : E → Result E A

abbrev pub Tx {ℓ} : Type ℓ → Type ℓ → Type ℓ → Type ℓ
Tx S E A = S → Result E (A × S)

module _ {ℓ} {S E A : Type ℓ} where
  abbrev pub pure : A → Tx S E A
  pure a s = ok (a, s)

  abbrev pub raise : E → Tx S E A
  raise e s = err e

  abbrev pub gets : (S → A) → Tx S E A
  gets f s = ok (f s, s)

  -- `if not x: raise e`
  abbrev pub or_raise : Option A → E → Tx S E A
  or_raise none e s = err e
  or_raise (some a) e s = ok (a, s)

  -- `scalar_one_or_none`: more than one row is SQLAlchemy's `MultipleResultsFound`.
  abbrev pub scalar_one_or_none : E → List A → Tx S E (Option A)
  scalar_one_or_none e [] s = ok (none, s)
  scalar_one_or_none e (x ∷ []) s = ok (some x, s)
  scalar_one_or_none e (x ∷ y ∷ r) s = err e

module _ {ℓ} {S E : Type ℓ} where
  abbrev pub raise_if : Bool → E → Tx S E (Unit {ℓ})
  raise_if true e s = err e
  raise_if false e s = ok (tt, s)

  abbrev pub modify : (S → S) → Tx S E (Unit {ℓ})
  modify f s = ok (tt, f s)

infixl 5 ◌>>=◌ ◌>>◌
abbrev pub ◌>>=◌ {ℓ} : {S E A B : Type ℓ} → Tx S E A → (A → Tx S E B) → Tx S E B
◌>>=◌ m f s = elim (m s) [ ok r ↦ f r.0 r.1 | err e ↦ err e ]

abbrev pub ◌>>◌ {ℓ} : {S E A B : Type ℓ} → Tx S E A → Tx S E B → Tx S E B
m >> k = m >>= λ _. k

module _ {ℓ} {S E A : Type ℓ} where
  -- `get_db`: commit at the end of the request, or roll back when an exception leaves it.
  abbrev pub finish : S → Result E (A × S) → S
  finish s (ok r) = r.1
  finish s (err e) = s

  unfoldable pub get_db : Tx S E A → S → S
  get_db m s = finish s (m s)

  -- A transaction that keeps an invariant whenever it returns keeps it as a request.
  pub get_db_inv {κ} :
      (P : S → Type κ) (m : Tx S E A) (s : S)
      → ((r : A × S) → m s ≡ ok r → P r.1)
      → P s
      → P (get_db m s)
  unfolding get_db
  get_db_inv P m s keep h = commit (m s) keep
    where
      commit : (r : Result E (A × S)) → ((x : A × S) → r ≡ ok x → P x.1) → P (finish s r)
      commit (ok x) k = k x refl
      commit (err e) k = h

-- Inversion of a step that returned: what it returned, and where the rest went on from.
pub bind_ok {ℓ} :
    {S E A B : Type ℓ} (m : Tx S E A) (f : A → Tx S E B) (s : S) {r : B × S}
    → (m >>= f) s ≡ ok r
    → (a : A) × (t : S) × (m s ≡ ok (a, t)) × (f a t ≡ ok r)
bind_ok {S} {E} {A} m f s {r} h = go (m s) refl h
  where
    go :
        (x : Result E (A × S))
        → m s ≡ x
        → (elim x [ ok y ↦ f y.0 y.1 | err e ↦ err e ]) ≡ ok r
        → (a : A) × (t : S) × (m s ≡ ok (a, t)) × (f a t ≡ ok r)
    go (ok y) e p = (y.0, y.1, e, p)
    go (err e) q p = cc

pub Result-cases {ℓ} :
    {E A : Type ℓ} (r : Result E A) → ((e : E) × (r ≡ err e)) ⊎ ((a : A) × (r ≡ ok a))
Result-cases (ok a) = inr (a, refl)
Result-cases (err e) = inl (e, refl)
