-- ===== src/RateLimit/Window.antt =====
-- No client passes more often than the limit within a window.
use open_agent_net.Prelude.{
  ℕ, ◌+◌, ◌-◌, ◌≤◌, ◌<◌, ◌≡◌, refl, String, Bool, true, false, ◌&&◌, ◌||◌, Option, none, some, List,
  [], ◌∷◌, ltb, str_eq, eq_iff, if◌then◌else◌, arith, inl, inr, ◌⊎◌, Bool-cases, Option-cases, All,
}
use open_agent_net.Identifiers.{is_empty}
use open_agent_net.RateLimit.Middleware.{
  Limits, get_rate_limit, is_open, Request, Counter, is_key, current, store, incr, Answer,
  unlimited, passed, limit_of, count_request, truthy, dispatch,
}

abbrev is_passed : Answer → Bool
is_passed (passed l r) = true
is_passed _ = false

-- The request of this client for this path.
abbrev pub is_from : String → String → Request → Bool
is_from client path q =
    str_eq q.path path && (elim q.client_id [ none ↦ false | some s ↦ str_eq s client ])

-- How many requests of this client for this path pass.
unfoldable pub passes : Limits → String → String → List Request → List Counter → ℕ
passes limits client path [] cs = 0
passes limits client path (q ∷ qs) cs =
    let r = dispatch limits q cs in
    (if is_from client path q && is_passed r.0 then 1 else 0) + passes limits client path qs r.1

current-store :
    (now : ℕ) (client path : String) (c : Counter) (cs : List Counter)
    → current now client path (store c cs) ≡ (
        if is_key client path c
        then (if ltb now c.expires then some c else none)
        else current now client path cs)
unfolding current store
current-store now client path c [] = ground arith
current-store now client path c (d ∷ ds) = elim (Bool-cases (is_key c.client_id c.path d)) [
  | inl same ↦
      let here : d.client_id ≡ c.client_id = ground (arith, eq_iff d.client_id c.client_id) in
      let there : d.path ≡ c.path = ground (arith, eq_iff d.path c.path) in
      ground (arith, here, there)
  | inr other ↦ elim (Bool-cases (is_key client path c)) [
    | inl key ↦
        let here : c.client_id ≡ client = ground (arith, eq_iff c.client_id client) in
        let there : c.path ≡ path = ground (arith, eq_iff c.path path) in
        ground (arith, current-store now client path c ds, here, there)
    | inr differs ↦ ground (arith, current-store now client path c ds)
  ]
]

limit_of-le : (flagged : Bool) (limit : ℕ) → 1 ≤ limit → limit_of flagged limit ≤ limit
limit_of-le true limit h = omega arith
limit_of-le false limit h = omega arith

module _ (limits : Limits) (client path : String) (limit window : ℕ)
    (is_limit : get_rate_limit limits path ≡ some (limit, window)) (some_pass : 1 ≤ limit) where
  abbrev counted : ℕ → ℕ → Counter
  counted n end = record { client_id = client; path = path; count = n; expires = end }

  -- Until it expires, the counter of the client for the path stands at `n`.
  Stands : ℕ → ℕ → List Counter → Type 0
  Stands n end cs = (now : ℕ) → now < end → current now client path cs ≡ some (counted n end)

  incr-key :
      (now width : ℕ) (s p : String) (o : Option Counter)
      → (((incr now width s p o).client_id ≡ s) × ((incr now width s p o).path ≡ p))
  incr-key now width s p none = (refl, refl)
  incr-key now width s p (some c) = (refl, refl)

  -- A request of another client, or for another path, leaves the counter alone.
  dispatch-other :
      (n end : ℕ) (q : Request) (cs : List Counter)
      → is_from client path q ≡ false
      → Stands n end cs
      → Stands n end (dispatch limits q cs).1
  unfolding Stands dispatch count_request
  dispatch-other n end q cs other stands now soon = elim (Option-cases (truthy q.client_id)) [
    | inl nobody ↦ ground (arith, stands now soon)
    | inr (s, given) ↦ elim (Option-cases (get_rate_limit limits q.path)) [
      | inl free ↦ ground (arith, stands now soon)
      | inr (l, limited) ↦
          let old = current q.now s q.path cs in
          let c = incr q.now l.1 s q.path old in
          let named = incr-key q.now l.1 s q.path old in
          let misses : is_key client path c ≡ false = ground (arith, named.0, named.1) in
          ground (arith, stands now soon, current-store now client path c cs, misses)
    ]
  ]

  counts :
      (n end : ℕ) (q : Request) (cs : List Counter)
      → q.path ≡ path
      → q.now < end
      → Stands n end cs
      → ((is_passed (count_request (limit, window) client q cs).0 ≡ false) ⊎ (n + 1 ≤ limit))
        × Stands (n + 1) end (count_request (limit, window) client q cs).1
  unfolding count_request Stands
  counts n end q cs there soon stands =
      let old : current q.now client q.path cs ≡ some (counted n end) =
        ground (arith, stands q.now soon) in
      let c = incr q.now window client q.path (current q.now client q.path cs) in
      let is : c ≡ counted (n + 1) end = ground arith in
      (
        elim (Bool-cases (ltb (limit_of q.flagged limit) (n + 1))) [
          | inl over ↦ inl (ground (arith, is))
          | inr below ↦ inr (ground (arith, limit_of-le q.flagged limit some_pass))
        ],
        λ now before.
            ground (
              arith,
              current-store now client path c cs,
              is,
              eq_iff client client,
              eq_iff path path,
            ),
      )

  -- A request of this client for this path is not counted, or counted once more, and then it passes
  -- below the limit only.
  dispatch-ours :
      (n end : ℕ) (q : Request) (cs : List Counter)
      → is_from client path q ≡ true
      → q.now < end
      → Stands n end cs
      → ((is_passed (dispatch limits q cs).0 ≡ false) × Stands n end (dispatch limits q cs).1)
        ⊎ (((is_passed (dispatch limits q cs).0 ≡ false) ⊎ (n + 1 ≤ limit))
            × Stands (n + 1) end (dispatch limits q cs).1)
  unfolding dispatch
  dispatch-ours n end q cs ours soon stands = elim (Option-cases q.client_id) [
    | inl nobody ↦ absurd (ground arith)
    | inr (s, given) ↦
        let here : s ≡ client = ground (arith, eq_iff s client) in
        let there : q.path ≡ path = ground (arith, eq_iff q.path path) in
        elim (Bool-cases (is_open q.path || is_empty s)) [
          | inl free ↦
              let is : dispatch limits q cs ≡ (unlimited, cs) = ground arith in
              inl (rw is (refl, stands))
          | inr bound ↦
              let is : dispatch limits q cs ≡ count_request (limit, window) client q cs =
                ground arith in
              inr (rw is (counts n end q cs there soon stands))
        ]
  ]

  within_window :
      (n end : ℕ) (qs : List Request) (cs : List Counter)
      → All (λ q. q.now < end) qs
      → Stands n end cs
      → passes limits client path qs cs ≤ limit - n
  unfolding passes Stands
  within_window n end [] cs soon stands = omega arith
  within_window n end (q ∷ qs) cs soon stands = elim (Bool-cases (is_from client path q)) [
    | inl ours ↦ elim (dispatch-ours n end q cs ours soon.0 stands) [
      | inl (stopped, after) ↦
          ground (arith, within_window n end qs (dispatch limits q cs).1 soon.1 after)
      | inr (room, after) ↦ elim room [
        | inl stopped ↦
            ground (arith, within_window (n + 1) end qs (dispatch limits q cs).1 soon.1 after)
        | inr below ↦
            ground (arith, within_window (n + 1) end qs (dispatch limits q cs).1 soon.1 after)
      ]
    ]
    | inr other ↦ ground (
      arith,
      within_window n end qs (dispatch limits q cs).1 soon.1
          (dispatch-other n end q cs other stands),
    )
  ]

  -- From a request that opens a window on, the client passes at most as often as the limit before the
  -- window ends, however its requests are mixed with those of others and for other paths, and whether
  -- or not it is flagged; the limit is at least 1 and the path is none that is always open.
  pub window_bound :
      (q : Request) (qs : List Request) (cs : List Counter)
      → is_from client path q ≡ true
      → is_open path ≡ false
      → is_empty client ≡ false
      → current q.now client path cs ≡ none
      → All (λ r. r.now < q.now + window) qs
      → passes limits client path (q ∷ qs) cs ≤ limit
  unfolding passes dispatch count_request Stands
  window_bound q qs cs ours limited named fresh soon = elim (Option-cases q.client_id) [
    | inl nobody ↦ absurd (ground arith)
    | inr (s, given) ↦
        let here : s ≡ client = ground (arith, eq_iff s client) in
        let there : q.path ≡ path = ground (arith, eq_iff q.path path) in
        let is : dispatch limits q cs ≡ count_request (limit, window) client q cs = ground arith in
        let end = q.now + window in
        let after = store (counted 1 end) cs in
        let state : (dispatch limits q cs).1 ≡ after = ground (arith, is) in
        let stands : Stands 1 end after = λ now before. ground (
          arith,
          current-store now client path (counted 1 end) cs,
          eq_iff client client,
          eq_iff path path,
        ) in
        ground (arith, within_window 1 end qs after soon stands, state, some_pass)
  ]
