-- ===== src/Trust/Samples.antt =====
-- Data for the tests: numbers in thousandths for floats, and the default components.
use open_agent_net.Prelude.{ℕ, ◌+◌, ◌-◌, ◌*◌, ◌/◌, List, ◌==◌, ltb, if◌then◌else◌}
use open_agent_net.Trust.Numbers.{Float}
use open_agent_net.Trust.Score.{Component, default_components}

abbrev pub thousandths : Float
thousandths = record {
  F = ℕ;
  ratio = λ a b. if b == 0 then 0 else a * 1000 / b;
  add = λ a b. a + b;
  sub = λ a b. a - b;
  mul = λ a b. a * b / 1000;
  div = λ a b. if b == 0 then 0 else a * 1000 / b;
  lt = ltb;
  eq = λ a b. a == b;
  sqrt = λ a. a;
  round3 = λ a. a;
  round6 = λ a. a;
}

abbrev pub components : List (Component ℕ)
components =
    default_components thousandths
      (record { outcome = 400; latency = 250; dispute = 250; age = 100 })
