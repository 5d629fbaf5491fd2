-- ===== src/Trust/Numbers.antt =====
-- Python's floats, as far as the trust service computes with them. They are not in the repository: a
-- carrier with the operations, and `Rounds` for what the bounds rely on.
use open_agent_net.Prelude.{ℕ, Bool, false, if◌then◌else◌, ◌≡◌}

pub record Float : Type 1 where
  pub F : Type 0
  pub ratio : ℕ → ℕ → F
  pub add : F → F → F
  pub sub : F → F → F
  pub mul : F → F → F
  pub div : F → F → F
  pub lt : F → F → Bool
  pub eq : F → F → Bool
  pub sqrt : F → F
  pub round3 : F → F
  pub round6 : F → F

module _ (f : Float) where
  open f use {F, ratio, lt, round3}

  abbrev pub zero_f : F
  zero_f = ratio 0 1

  abbrev pub one_f : F
  one_f = ratio 1 1

  abbrev pub half_f : F
  half_f = ratio 1 2

  -- `min(a, b)` and `max(a, b)` return the first of two equal arguments.
  abbrev pub min_f : F → F → F
  min_f a b = if lt b a then b else a

  abbrev pub max_f : F → F → F
  max_f a b = if lt a b then b else a

  -- `min(max(x, 0.0), 1.0)`
  abbrev pub clamp : F → F
  clamp x = min_f (max_f x zero_f) one_f

  -- Neither below 0 nor above 1.
  pub record Within (x : F) : Type 0 where
    pub above : lt x zero_f ≡ false
    pub below : lt one_f x ≡ false

  -- 0, 1/2 and 1 are ordered, and rounding to three digits stays between 0 and 1.
  pub record Rounds : Type 0 where
    pub zero_zero : lt zero_f zero_f ≡ false
    pub one_zero : lt one_f zero_f ≡ false
    pub one_one : lt one_f one_f ≡ false
    pub half_zero : lt half_f zero_f ≡ false
    pub one_half : lt one_f half_f ≡ false
    pub stays : (x : F) → Within x → Within (round3 x)
