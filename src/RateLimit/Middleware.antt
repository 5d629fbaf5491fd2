-- ===== src/RateLimit/Middleware.antt =====
-- The middlewares of backend/app/core/rate_limit.py. A counter in Redis is gone when it expires; times
-- count seconds, and the keys of two clients and paths differ. Reading the client from the token, and the anomaly flags, are given with a request.
use text.Mathlib.Text.{starts_with}
use open_agent_net.Prelude.{
  ℕ, ◌+◌, ◌-◌, ◌/◌, max, String, Bool, false, ◌&&◌, ◌||◌, Option, none, some, List, [], ◌∷◌, ltb,
  str_eq, if◌then◌else◌,
}
use open_agent_net.Identifiers.{is_empty}

-- `content_length and int(content_length) > settings.max_payload_bytes`
abbrev pub is_too_large : ℕ → Option ℕ → Bool
is_too_large most none = false
is_too_large most (some length) = ltb most length

abbrev pub Limits : Type 0
Limits = List (String × (ℕ × ℕ))

abbrev pub rate_limit_map : Limits
rate_limit_map =
    ("/v1/agents/register", (10, 3600))
    ∷ ("/v1/discover", (200, 60))
    ∷ ("/v1/discovery/search", (200, 60))
    ∷ ("/v1/messages", (1000, 60))
    ∷ ("/v1/trust", (50, 3600))
    ∷ []

-- `_get_rate_limit`: the limit and the window of the first pattern that begins the path.
unfoldable pub get_rate_limit : Limits → String → Option (ℕ × ℕ)
get_rate_limit [] path = none
get_rate_limit ((pattern, limits) ∷ rest) path =
    let later = get_rate_limit rest path in if starts_with path pattern then some limits else later

unfoldable pub is_open : String → Bool
is_open path =
    str_eq path "/docs"
    || str_eq path "/redoc"
    || str_eq path "/openapi.json"
    || str_eq path "/health"
    || str_eq path "/v1/health"
    || str_eq path "/"

pub record Request : Type 0 where
  pub now : ℕ
  pub path : String
  pub client_id : Option String
  pub flagged : Bool

pub record Counter : Type 0 where
  pub client_id : String
  pub path : String
  pub count : ℕ
  pub expires : ℕ

abbrev pub is_key : String → String → Counter → Bool
is_key client path c = str_eq c.client_id client && str_eq c.path path

-- The counter as Redis holds it at this time.
unfoldable pub current : ℕ → String → String → List Counter → Option Counter
current now client path [] = none
current now client path (c ∷ cs) =
    let rest = current now client path cs in
    if is_key client path c then (if ltb now c.expires then some c else none) else rest

unfoldable pub store : Counter → List Counter → List Counter
store c [] = c ∷ []
store c (d ∷ ds) = let rest = store c ds in if is_key c.client_id c.path d then c ∷ ds else d ∷ rest

-- `incr`, and `expire` on the first count of a window.
abbrev pub incr : ℕ → ℕ → String → String → Option Counter → Counter
incr now window client path none = record {
  client_id = client;
  path = path;
  count = 1;
  expires = now + window;
}
incr now window client path (some c) = record c {
  client_id = client;
  path = path;
  count = c.count + 1;
}

pub data Answer : Type 0 where
  unlimited : Answer
  passed : ℕ → ℕ → Answer
  refused : ℕ → ℕ → Answer

-- The limit of a client that is flagged is a quarter, but not 0.
abbrev pub limit_of : Bool → ℕ → ℕ
limit_of flagged limit = if flagged then max 1 (limit / 4) else limit

-- `passed limit remaining` and `refused limit retry_after` carry the headers.
abbrev pub verdict : ℕ → ℕ → Counter → Answer
verdict now limit c =
    if ltb limit c.count then refused limit (c.expires - now) else passed limit (limit - c.count)

unfoldable pub count_request : ℕ × ℕ → String → Request → List Counter → Answer × List Counter
count_request (limit, window) client q cs =
    let c = incr q.now window client q.path (current q.now client q.path cs) in
    (verdict q.now (limit_of q.flagged limit) c, store c cs)

abbrev pub truthy : Option String → Option String
truthy none = none
truthy (some s) = if is_empty s then none else some s

unfoldable pub dispatch : Limits → Request → List Counter → Answer × List Counter
dispatch limits q cs = if is_open q.path then (unlimited, cs) else elim (truthy q.client_id) [
  | none ↦ (unlimited, cs)
  | some client ↦ elim (get_rate_limit limits q.path) [
    | none ↦ (unlimited, cs)
    | some limit ↦ count_request limit client q cs
  ]
]
