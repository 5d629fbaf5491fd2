-- ===== src/CapabilityIndex/Refines.antt =====
-- The index refines the catalog.
use mathlib.Core.Option
use open_agent_net.Prelude.{
  ℕ, ◌≡◌, refl, ap, ◌∙◌, String, Bool, true, false, ◌&&◌, some, List, [], ◌∷◌, ◌==◌, eq_of_==,
  arith, inl, inr, Bool-cases,
}
use open_agent_net.Agents.{Capability}
use open_agent_net.Db.{Table, lookup, KeysDiffer}
use open_agent_net.CapabilityIndex.Redis.{
  Index, has, names_of, minus, zrem_all, set_members, sync_agent, remove_agent, update_agent_score,
}
use open_agent_net.CapabilityIndex.Candidates.{
  is_in, in_range, intersect, intersection, given, candidates, candidate_ids,
}
use open_agent_net.CapabilityIndex.Catalog.{
  Entry, Command, sync, remove, rescore, nobody, spec_step, spec_run, step, run, listed, reached,
  offers, spec_candidate,
}
use open_agent_net.CapabilityIndex.Ranks.{
  rank, Keyed, has-minus, zadd_all-rank, zadd_all-members, zadd_all-Keyed, zrem_all-rank,
  zrem_all-members, zrem_all-Keyed,
}

module _ {F : Type 0} where
  -- The sets hold what the entries say.
  record Agrees (cat : ℕ → Entry F) (x : Index F) : Type 0 where
    members : (id : ℕ) → x.members id ≡ (cat id).names
    ranks : (name : String) (id : ℕ) → rank x name id ≡ listed (cat id) name
    keyed : Keyed x

  sync-Agrees :
      (id : ℕ) (cs : List Capability) (s : F) (active : Bool) (cat : ℕ → Entry F) (x : Index F)
      → Agrees cat x
      → Agrees (spec_step (sync id cs s active) cat) (sync_agent id cs s active x)
  unfolding spec_step sync_agent
  sync-Agrees id cs s true cat x a =
      let names = names_of cs in
      let old = minus (x.members id) names in
      let cleaned = zrem_all old id x in
      let fresh = set_members id names cleaned in
      record {
        members = λ j.
            ap (λ m. m j) (zadd_all-members names id s fresh)
            ∙ ground (arith, ap (λ m. m j) (zrem_all-members old id x), a.members j);
        ranks = λ n j. elim (Bool-cases (j == id)) [
          | inl this ↦ ground (
            arith,
            zadd_all-rank names id s fresh n j,
            zrem_all-rank old id x n j,
            eq_of_== j id this,
            has-minus n (x.members id) names,
            a.ranks n j,
            a.members j,
          )
          | inr other ↦
              ground
                (arith, zadd_all-rank names id s fresh n j, zrem_all-rank old id x n j, a.ranks n j)
        ];
        keyed = zadd_all-Keyed names id s fresh (zrem_all-Keyed old id x a.keyed);
      }
  sync-Agrees id cs s false cat x a =
      let names = names_of cs in
      let old = minus (x.members id) names in
      let cleaned = zrem_all old id x in
      let fresh = set_members id names cleaned in
      record {
        members = λ j.
            ap (λ m. m j) (zrem_all-members names id fresh)
            ∙ ground (arith, ap (λ m. m j) (zrem_all-members old id x), a.members j);
        ranks = λ n j. elim (Bool-cases (j == id)) [
          | inl this ↦ ground (
            arith,
            zrem_all-rank names id fresh n j,
            zrem_all-rank old id x n j,
            eq_of_== j id this,
            has-minus n (x.members id) names,
            a.ranks n j,
            a.members j,
          )
          | inr other ↦
              ground
                (arith, zrem_all-rank names id fresh n j, zrem_all-rank old id x n j, a.ranks n j)
        ];
        keyed = zrem_all-Keyed names id fresh (zrem_all-Keyed old id x a.keyed);
      }

  remove-Agrees :
      (id : ℕ) (cat : ℕ → Entry F) (x : Index F)
      → Agrees cat x
      → Agrees (spec_step (remove id) cat) (remove_agent id x)
  unfolding spec_step remove_agent
  remove-Agrees id cat x a =
      let names = x.members id in
      record {
        members = λ j. ground (arith, ap (λ m. m j) (zrem_all-members names id x), a.members j);
        ranks = λ n j. elim (Bool-cases (j == id)) [
          | inl this ↦
              ground
                (arith, zrem_all-rank names id x n j, a.ranks n j, a.members j, eq_of_== j id this)
          | inr other ↦ ground (arith, zrem_all-rank names id x n j, a.ranks n j)
        ];
        keyed = zrem_all-Keyed names id x a.keyed;
      }

  rescore-Agrees :
      (id : ℕ) (s : F) (cat : ℕ → Entry F) (x : Index F)
      → Agrees cat x
      → Agrees (spec_step (rescore id s) cat) (update_agent_score id s x)
  unfolding spec_step update_agent_score
  rescore-Agrees id s cat x a =
      let names = x.members id in
      record {
        members = λ j.
            ap (λ m. m j) (zadd_all-members names id s x)
            ∙ ground (arith, a.members j, eq_of_== j id);
        ranks = λ n j. elim (Bool-cases (j == id)) [
          | inl this ↦
              ground (
                arith,
                zadd_all-rank names id s x n j,
                a.ranks n j,
                a.members j,
                eq_of_== j id this,
              )
          | inr other ↦ ground (arith, zadd_all-rank names id s x n j, a.ranks n j)
        ];
        keyed = zadd_all-Keyed names id s x a.keyed;
      }

  step-Agrees :
      (c : Command F) (cat : ℕ → Entry F) (x : Index F)
      → Agrees cat x
      → Agrees (spec_step c cat) (step c x)
  unfolding step
  step-Agrees (sync id cs s active) cat x a = sync-Agrees id cs s active cat x a
  step-Agrees (remove id) cat x a = remove-Agrees id cat x a
  step-Agrees (rescore id s) cat x a = rescore-Agrees id s cat x a

  run-Agrees :
      (cs : List (Command F)) (cat : ℕ → Entry F) (x : Index F)
      → Agrees cat x
      → Agrees (spec_run cs cat) (run cs x)
  unfolding spec_run run
  run-Agrees [] cat x a = a
  run-Agrees (c ∷ cs) cat x a = run-Agrees cs (spec_step c cat) (step c x) (step-Agrees c cat x a)

  module _ (reaches : F → Bool) where
    in_range-lookup :
        (id : ℕ) (t : Table F)
        → KeysDiffer t
        → is_in id (in_range reaches t) ≡ reached reaches (lookup id t)
    unfolding is_in in_range lookup
    in_range-lookup id [] d = refl
    in_range-lookup id ((j, s) ∷ t) d = elim (Bool-cases (j == id)) [
      | inl this ↦ ground (arith, in_range-lookup id t d.1, d.0, eq_of_== j id this)
      | inr other ↦ ground (arith, in_range-lookup id t d.1)
    ]

    intersect-is_in :
        (id : ℕ) (xs ys : List ℕ) → is_in id (intersect xs ys) ≡ (is_in id xs && is_in id ys)
    unfolding is_in intersect
    intersect-is_in id [] ys = refl
    intersect-is_in id (j ∷ xs) ys = elim (Bool-cases (j == id)) [
      | inl this ↦ ground (arith, intersect-is_in id xs ys, eq_of_== j id this)
      | inr other ↦ ground (arith, intersect-is_in id xs ys)
    ]

    intersection-offers :
        (id : ℕ) (n : String) (ns : List String) (cat : ℕ → Entry F) (x : Index F)
        → Agrees cat x
        → is_in id (intersection reaches n ns x) ≡ offers reaches (cat id) (n ∷ ns)
    unfolding intersection offers
    intersection-offers id n [] cat x a =
        ground (arith, in_range-lookup id (x.ranks n) (a.keyed n), a.ranks n id)
    intersection-offers id n (m ∷ ms) cat x a = ground (
      arith,
      in_range-lookup id (x.ranks n) (a.keyed n),
      a.ranks n id,
      intersect-is_in id (in_range reaches (x.ranks n)) (intersection reaches m ms x),
      intersection-offers id m ms cat x a,
    )

    candidates-spec :
        (id : ℕ) (ns : List String) (cat : ℕ → Entry F) (x : Index F)
        → Agrees cat x
        → Option.map (is_in id) (candidates reaches ns x) ≡ spec_candidate reaches (cat id) ns
    candidates-spec id [] cat x a = refl
    candidates-spec id (n ∷ ns) cat x a = ap some (intersection-offers id n ns cat x a)

    abbrev pub empty_index : Index F
    empty_index = record { members = λ id. []; ranks = λ n. [] }

    empty-Agrees : Agrees nobody empty_index
    unfolding lookup has
    empty-Agrees = record { members = λ id. refl; ranks = λ n id. refl; keyed = λ n. tt }

    -- The index refines the catalog of one entry for each agent: whatever agents are synchronized,
    -- removed and scored again, the candidates for some capabilities are exactly the agents whose entry
    -- has all of their names and a score that reaches the least one, and there is no answer where no
    -- name is given.
    pub index_refines :
        (cs : List (Command F)) (capabilities : List String) (id : ℕ)
        → Option.map (is_in id) (candidate_ids reaches capabilities (run cs empty_index))
          ≡ spec_candidate reaches (spec_run cs nobody id) (given capabilities)
    unfolding candidate_ids
    index_refines cs capabilities id =
        candidates-spec id (given capabilities) (spec_run cs nobody) (run cs empty_index)
          (run-Agrees cs nobody empty_index empty-Agrees)
