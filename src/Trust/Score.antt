-- ===== src/Trust/Score.antt =====
-- The score of a record: `_score_age` and `_compute_trust_score`
-- (backend/app/services/trust/service.py) over the components of
-- backend/app/services/trust/components.py. `none` is a component that raises.
use open_agent_net.Prelude.{
  ℕ, ◌-◌, String, Option, none, some, List, [], ◌∷◌, ◌++◌, ◌==◌, leb, ltb, str_eq, if◌then◌else◌,
}
use open_agent_net.Identifiers.{is_empty}
use open_agent_net.Trust.Numbers.{Float, zero_f, one_f, half_f, min_f, clamp}
use open_agent_net.Trust.State.{TrustRecord}

-- `compute` is given the record and the adherence that this session has observed, if any.
pub record Component (F : Type 0) : Type 0 where
  pub name : String
  pub weight : F
  pub compute : TrustRecord F → Option F → Option F

-- The weights of the settings.
pub record Weights (F : Type 0) : Type 0 where
  pub outcome : F
  pub latency : F
  pub dispute : F
  pub age : F

module _ (f : Float) where
  open f use {F, ratio, add, sub, mul, div, lt, eq, sqrt, round3, round6}

  -- `_components[name] = component` on the dictionary.
  unfoldable pub put : Component F → List (Component F) → List (Component F)
  put c [] = c ∷ []
  put c (d ∷ ds) = let rest = put c ds in if str_eq d.name c.name then c ∷ ds else d ∷ rest

  -- `register`: `none` is the ValueError.
  unfoldable pub register : Component F → List (Component F) → Option (List (Component F))
  unfolding put
  register c cs =
      if is_empty c.name then none else if lt (zero_f f) c.weight then some (put c cs) else none

  unfoldable pub get_or : String → F → List (String × F) → F
  get_or name d [] = d
  get_or name d ((n, v) ∷ rest) = if str_eq n name then v else get_or name d rest

  unfoldable pub latency_of : TrustRecord F → Option F → Option F
  latency_of r (some v) = some v
  latency_of r none = some (get_or "latency_adherence" (half_f f) r.component_scores)

  -- `_register_defaults`
  unfoldable pub default_components : Weights F → List (Component F)
  unfolding latency_of get_or
  default_components w =
      record { name = "outcome_rate"; weight = w.outcome; compute = λ r o. some r.outcome_rate }
      ∷ record { name = "latency_adherence"; weight = w.latency; compute = latency_of }
      ∷ record {
        name = "dispute_health";
        weight = w.dispute;
        compute = λ r o. some (sub (one_f f) r.dispute_penalty);
      }
      ∷ record { name = "age_factor"; weight = w.age; compute = λ r o. some r.age_factor }
      ∷ []

  -- `_score_age`; times count seconds.
  unfoldable pub score_age : ℕ → TrustRecord F → F
  score_age now r =
      if leb now r.created_at
      then ratio 1 10
      else round3 (
          min_f f (one_f f)
            (add (ratio 2 10) (mul (ratio 8 100) (sqrt (ratio (now - r.created_at) 86400)))))

  -- The loop over the components: the scores, the weighted total and the total of the weights.
  unfoldable pub weigh :
      TrustRecord F
      → Option F
      → List (Component F)
      → List (String × F)
      → F
      → F
      → List (String × F) × F × F
  weigh r o [] scores total weights = (scores, total, weights)
  weigh r o (c ∷ cs) scores total weights = elim (c.compute r o) [
    | none ↦ weigh r o cs scores total weights
    | some v ↦
        weigh r o cs (scores ++ (c.name, round6 (clamp f v)) ∷ [])
          (add total (mul c.weight (clamp f v))) (add weights c.weight)
  ]

  -- `round(min(max(weighted_total / weight_total, 0.0), 1.0), 3)`, or 0.5 without weights.
  unfoldable pub score_of : F → F → F
  score_of total weights =
      if eq weights (zero_f f) then half_f f else round3 (clamp f (div total weights))

  -- The record with its age factor, its component scores and its score.
  unfoldable pub rescore : ℕ → List (Component F) → Option F → TrustRecord F → TrustRecord F
  unfolding score_age weigh score_of
  rescore now cs o r =
      let aged = record r { age_factor = score_age now r } in
      let (scores, total, weights) = weigh aged o cs [] (zero_f f) (zero_f f) in
      record aged { component_scores = scores; trust_score = score_of total weights }

  -- `_latency_adherence`
  unfoldable pub latency_adherence : Option ℕ → Option ℕ → F
  latency_adherence none t = half_f f
  latency_adherence (some ms) none = half_f f
  latency_adherence (some ms) (some target) =
      if target == 0
      then half_f f
      else round3 (min_f f (one_f f) (ratio target (if ltb ms 1 then 1 else ms)))
