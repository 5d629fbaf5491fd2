-- ===== src/RateLimit/Tests.antt =====
-- Two requests of one agent for its trust, with one of another agent between them.
use open_agent_net.Prelude.{ℕ, ◌≤◌, refl, String, true, some, [], ◌∷◌, arith}
use open_agent_net.Identifiers.{is_empty}
use open_agent_net.RateLimit.Middleware.{Request, rate_limit_map, get_rate_limit, current, is_open}
use open_agent_net.RateLimit.Window.{passes, window_bound}

abbrev from : ℕ → String → Request
from now client = record {
  now = now;
  path = "/v1/trust/a2/endorse";
  client_id = some client;
  flagged = true;
}

window_bound_example :
    passes rate_limit_map "a1" "/v1/trust/a2/endorse"
      (from 0 "a1" ∷ from 5 "a3" ∷ from 9 "a1" ∷ [])
      []
    ≤ 50
unfolding get_rate_limit is_open is_empty current
window_bound_example =
    window_bound rate_limit_map "a1" "/v1/trust/a2/endorse" 50 3600 refl (omega arith) (from 0 "a1")
      (from 5 "a3" ∷ from 9 "a1" ∷ []) [] refl refl refl refl (omega arith, (omega arith, tt))
