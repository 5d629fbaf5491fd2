-- ===== src/Prelude/Occurs.antt =====
-- How often a number stands in a list; two lists compared by these counts.
use Prim.Native.Nat.{ℕ, ◌+◌, ◌≤◌, ◌<◌}
use mathlib.Core.Path.{◌≡◌, refl}
use mathlib.Core.Bool.{Bool}
use mathlib.Core.List.{List, [], ◌∷◌, ◌++◌}
use native.Mathlib.Omega.{arith}
use open_agent_net.Prelude.Tests.{◌==◌, ltb, if◌then◌else◌}
use open_agent_net.Prelude.Lists.{length}

abbrev pub occ : ℕ → List ℕ → ℕ
occ c [] = 0
occ c (x ∷ xs) = (if x == c then 1 else 0) + occ c xs

-- `c in xs`
abbrev pub occurs : ℕ → List ℕ → Bool
occurs c xs = ltb 0 (occ c xs)

pub occ-append : (c : ℕ) (xs ys : List ℕ) → occ c (xs ++ ys) ≡ occ c xs + occ c ys
occ-append c [] ys = omega arith
occ-append c (x ∷ xs) ys = omega (arith, occ-append c xs ys)

remove : ℕ → List ℕ → List ℕ
remove a [] = []
remove a (x ∷ xs) = if x == a then xs else x ∷ remove a xs

occ-remove :
    (a c : ℕ) (xs : List ℕ)
    → 0 < occ a xs
    → occ c (remove a xs) + (if a == c then 1 else 0) ≡ occ c xs
unfolding remove
occ-remove a c [] h = absurd (omega arith)
occ-remove a c (x ∷ xs) h = ground (arith, occ-remove a c xs)

length-remove : (a : ℕ) (xs : List ℕ) → 0 < occ a xs → length (remove a xs) + 1 ≡ length xs
unfolding remove
length-remove a [] h = absurd (omega arith)
length-remove a (x ∷ xs) h = ground (arith, length-remove a xs)

-- A list that holds nothing more often than another is no longer.
pub length-le_of_occ : (xs ys : List ℕ) → ((c : ℕ) → occ c xs ≤ occ c ys) → length xs ≤ length ys
length-le_of_occ [] ys h = omega arith
length-le_of_occ (x ∷ xs) ys h =
    let found : 0 < occ x ys = ground (arith, h x) in
    let rest =
      length-le_of_occ xs (remove x ys) (λ c. ground (arith, occ-remove x c ys found, h c)) in
    omega (arith, rest, length-remove x ys found)

-- And if it is as long, it holds everything as often.
pub occ-eq_of_length :
    (xs ys : List ℕ)
    → ((c : ℕ) → occ c xs ≤ occ c ys)
    → length xs ≡ length ys
    → (c : ℕ) → occ c xs ≡ occ c ys
occ-eq_of_length [] [] h e c = refl
occ-eq_of_length [] (y ∷ ys) h e c = absurd (omega arith)
occ-eq_of_length (x ∷ xs) ys h e c =
    let found : 0 < occ x ys = ground (arith, h x) in
    let rest =
      occ-eq_of_length xs (remove x ys) (λ c. ground (arith, occ-remove x c ys found, h c))
        (omega (arith, length-remove x ys found)) c in
    ground (arith, rest, occ-remove x c ys found)

pub length-eq_of_occ : (xs ys : List ℕ) → ((c : ℕ) → occ c xs ≡ occ c ys) → length xs ≡ length ys
length-eq_of_occ xs ys h = omega (
  arith,
  length-le_of_occ xs ys (λ c. omega (arith, h c)),
  length-le_of_occ ys xs (λ c. omega (arith, h c)),
)
