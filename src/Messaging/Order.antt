-- ===== src/Messaging/Order.antt =====
-- `ORDER BY created_at DESC` of `list_messages` (backend/app/services/messaging/service.py): what
-- PostgreSQL promises of it, which says nothing of rows with the same time.
use mathlib.Core.List.{Memᴰ, Permᴰ}
use open_agent_net.Prelude.{
  ℕ, zero, suc, ◌≤◌, ◌≡◌, refl, sym, ◌∙◌, List, [], ◌∷◌, length, take, All, arith, ap,
}
use open_agent_net.Db.{Table}
use open_agent_net.Tasks.{Task}

-- Later elements are not newer.
abbrev pub Descending : {A : Type 0} → (A → ℕ) → List A → Type 0
Descending time [] = Unit
Descending time (x ∷ xs) = All (λ y. time y ≤ time x) xs × Descending time xs

-- The rows of the selection, each as often as it is there, the newest first.
pub record IsNewestFirst (order : Table Task → Table Task) : Type 0 where
  pub rows : (t : Table Task) → Permᴰ (order t) t
  pub newest : (t : Table Task) → Descending (λ r. r.1.created_at) (order t)

module _ {A : Type 0} where
  pub All-Permᴰ : (P : A → Type 0) {xs ys : List A} → Permᴰ xs ys → All P ys → All P xs
  All-Permᴰ P Permᴰ.nil h = tt
  All-Permᴰ P (Permᴰ.cons e p) h = (rw e h.0, All-Permᴰ P p h.1)
  All-Permᴰ P (Permᴰ.swap e f) h = (rw e h.1.0, (rw f h.0, h.1.1))
  All-Permᴰ P (Permᴰ.trans p q) h = All-Permᴰ P p (All-Permᴰ P q h)

  pub length-Permᴰ : {xs ys : List A} → Permᴰ xs ys → length xs ≡ length ys
  length-Permᴰ Permᴰ.nil = refl
  length-Permᴰ (Permᴰ.cons e p) = omega (arith, length-Permᴰ p)
  length-Permᴰ (Permᴰ.swap e f) = omega arith
  length-Permᴰ (Permᴰ.trans p q) = length-Permᴰ p ∙ length-Permᴰ q

  pub Memᴰ-Permᴰ : (a : A) {xs ys : List A} → Permᴰ xs ys → Memᴰ a ys → Memᴰ a xs
  Memᴰ-Permᴰ a Permᴰ.nil m = elim m [ ]
  Memᴰ-Permᴰ a (Permᴰ.cons e p) (Memᴰ.head f) = Memᴰ.head (f ∙ sym e)
  Memᴰ-Permᴰ a (Permᴰ.cons e p) (Memᴰ.tail m) = Memᴰ.tail (Memᴰ-Permᴰ a p m)
  Memᴰ-Permᴰ a (Permᴰ.swap e f) (Memᴰ.head g) = Memᴰ.tail (Memᴰ.head (g ∙ sym f))
  Memᴰ-Permᴰ a (Permᴰ.swap e f) (Memᴰ.tail (Memᴰ.head g)) = Memᴰ.head (g ∙ sym e)
  Memᴰ-Permᴰ a (Permᴰ.swap e f) (Memᴰ.tail (Memᴰ.tail m)) = Memᴰ.tail (Memᴰ.tail m)
  Memᴰ-Permᴰ a (Permᴰ.trans p q) m = Memᴰ-Permᴰ a p (Memᴰ-Permᴰ a q m)

  pub take_all : (n : ℕ) (xs : List A) → length xs ≤ n → take n xs ≡ xs
  take_all zero [] h = refl
  take_all zero (x ∷ xs) h = absurd (omega arith)
  take_all (suc n) [] h = refl
  take_all (suc n) (x ∷ xs) h = ap (λ r. x ∷ r) (take_all n xs (omega arith))
