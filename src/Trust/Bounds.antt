-- ===== src/Trust/Bounds.antt =====
-- The records over any requests: their counters and their scores.
use open_agent_net.Prelude.{
  ℕ, ◌≤◌, ◌≡◌, refl, Option, none, some, List, ◌==◌, eq_of_==, ◌∙◌, arith, inl, inr, ◌⊎◌,
  Bool-cases,
}
use open_agent_net.Db.{Table, lookup, update, add_row, lookup-update, lookup-add_row}
use open_agent_net.Trust.Numbers.{Float, zero_f, clamp, Within, Rounds}
use open_agent_net.Trust.State.{TrustRecord, TrustDb}
use open_agent_net.Trust.Score.{Component, rescore, score_of}
use open_agent_net.Trust.Service.{new_record}

module _ (f : Float) (components : List (Component f.F)) (rounds : Rounds f) where
  open f use {F}

  clamp-Within : (x : F) → Within f (clamp f x)
  clamp-Within x = record {
    above = ground (arith, rounds.zero_zero, rounds.one_zero);
    below = ground (arith, rounds.one_zero, rounds.one_one);
  }

  score_of-Within : (total weights : F) → Within f (score_of f total weights)
  unfolding score_of
  score_of-Within total weights = elim (Bool-cases (f.eq weights (zero_f f))) [
    | inl empty ↦ rw empty (record { above = rounds.half_zero; below = rounds.one_half })
    | inr some_weight ↦ rw some_weight (rounds.stays _ (clamp-Within _))
  ]

  -- A record counts no more successes than tasks, and its score is from 0 to 1.
  pub record IsSound (r : TrustRecord F) : Type 0 where
    pub counts : r.successful_tasks ≤ r.total_tasks
    pub score : Within f r.trust_score

  abbrev pub AllSound : TrustDb F → Type 0
  AllSound db = (k : ℕ) (r : TrustRecord F) → lookup k db.records ≡ some r → IsSound r

  pub rescore-IsSound :
      (now : ℕ) (cs : List (Component F)) (o : Option F) (r : TrustRecord F)
      → r.successful_tasks ≤ r.total_tasks
      → IsSound (rescore f now cs o r)
  unfolding rescore
  rescore-IsSound now cs o r h = record { counts = h; score = score_of-Within _ _ }

  -- What happens to the table of records: a row is created with its defaults, or one is rewritten.
  -- `Judged k` is what allows the penalty of the agent `k` to change.
  pub data Moves (Judged : ℕ → Type 0)
      : Table (TrustRecord F) → Table (TrustRecord F) → Type 0 where
    done : {t : Table (TrustRecord F)} → Moves Judged t t
    create :
        {t u : Table (TrustRecord F)} (now agent : ℕ)
        → lookup agent t ≡ none
        → Moves Judged (add_row agent (new_record f components now) t) u
        → Moves Judged t u
    change :
        {t u : Table (TrustRecord F)} (agent : ℕ) (r r' : TrustRecord F)
        → lookup agent t ≡ some r
        → (IsSound r → IsSound r')
        → (r'.dispute_penalty ≡ r.dispute_penalty) ⊎ Judged agent
        → Moves Judged (update agent r' t) u
        → Moves Judged t u

  new_record-IsSound : (now : ℕ) → IsSound (new_record f components now)
  new_record-IsSound now = record {
    counts = omega arith;
    score = record { above = rounds.half_zero; below = rounds.one_half };
  }

  abbrev pub Sound : Table (TrustRecord F) → Type 0
  Sound t = (k : ℕ) (r : TrustRecord F) → lookup k t ≡ some r → IsSound r

  pub Moves-Sound : {J : ℕ → Type 0} {t u : Table (TrustRecord F)} → Moves J t u → Sound t → Sound u
  Moves-Sound done h = h
  Moves-Sound (create {t} {u} now agent free rest) h = Moves-Sound rest go
    where
      go :
          (k : ℕ) (q : TrustRecord F)
          → lookup k (add_row agent (new_record f components now) t) ≡ some q
          → IsSound q
      go k q e = elim (Bool-cases (agent == k)) [
        | inl same ↦
            let it : q ≡ new_record f components now =
              ground (arith, lookup-add_row agent k (new_record f components now) t free) in
            rw it (new_record-IsSound now)
        | inr other ↦
            h k q (ground (arith, lookup-add_row agent k (new_record f components now) t free))
      ]
  Moves-Sound (change {t} {u} agent r r' at sound pen rest) h = Moves-Sound rest go
    where
      go : (k : ℕ) (q : TrustRecord F) → lookup k (update agent r' t) ≡ some q → IsSound q
      go k q e = elim (Bool-cases (agent == k)) [
        | inl same ↦
            let it : q ≡ r' = ground (arith, lookup-update agent k r' t) in
            rw it (sound (h agent r at))
        | inr other ↦ h k q (ground (arith, lookup-update agent k r' t))
      ]

  pub Moves-penalty :
      {J : ℕ → Type 0} {t u : Table (TrustRecord F)} (k : ℕ) (r : TrustRecord F)
      → Moves J t u
      → lookup k t ≡ some r
      → (r' : TrustRecord F) × (lookup k u ≡ some r')
        × ((r'.dispute_penalty ≡ r.dispute_penalty) ⊎ J k)
  Moves-penalty k r done e = (r, e, inl refl)
  Moves-penalty k r (create {t} {u} now agent free rest) e =
      Moves-penalty k r rest
        (ground (arith, lookup-add_row agent k (new_record f components now) t free))
  Moves-penalty {J} k r (change {t} {u} agent q q' at sound pen rest) e =
      elim (Bool-cases (agent == k)) [
        | inl same ↦
            let a = Moves-penalty k q' rest (ground (arith, lookup-update agent k q' t)) in
            (
              a.0,
              a.1,
              elim a.2 [
                | inr judged ↦ inr judged
                | inl kept ↦ elim pen [
                  | inl before ↦ inl (kept ∙ before ∙ (ground arith))
                  | inr judged ↦ inr (rw (← eq_of_== agent k same) judged)
                ]
              ],
            )
        | inr other ↦ Moves-penalty k r rest (ground (arith, lookup-update agent k q' t))
      ]
