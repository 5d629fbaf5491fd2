-- ===== src/Identifiers.antt =====
-- backend/app/core/identifiers.py: the accepted spellings of an agent's identity. `uuid.UUID` and
-- `uuid.uuid5` are parameters; a UUID is only compared, so it is a number.

use Prim.Native.String.{◌++◌}
use Prim.Native.Char.{Char, code}
use text.Mathlib.Text.{starts_with}
use open_agent_net.Prelude.{
  ℕ, zero, suc, String, Bool, true, false, ◌&&◌, ◌||◌, Option, none, some, leb, ◌==◌, if◌then◌else◌,
}

-- The standard library's `uuid`: reading a text, and the derived identity in the fixed namespace.
pub record Uuid : Type 0 where
  pub parse : String → Option ℕ
  pub uuid5 : String → ℕ

-- The code points that `str.strip` removes.
is_space : Char → Bool
is_space ch =
    let c = code ch in
    (leb 9 c && leb c 13)
    || (leb 28 c && leb c 32)
    || c == 133
    || c == 160
    || c == 5760
    || (leb 8192 c && leb c 8202)
    || c == 8232
    || c == 8233
    || c == 8239
    || c == 8287
    || c == 12288

lstrip : String → String
lstrip String.[] = String.[]
lstrip (String.◌∷◌ c s) = let rest = lstrip s in if is_space c then rest else String.◌∷◌ c s

unfoldable pub is_empty : String → Bool
is_empty String.[] = true
is_empty (String.◌∷◌ c s) = false

rstrip : String → String
rstrip String.[] = String.[]
rstrip (String.◌∷◌ c s) =
    let rest = rstrip s in if is_empty rest && is_space c then String.[] else String.◌∷◌ c rest

unfoldable pub strip : String → String
unfolding is_space lstrip rstrip is_empty
strip s = rstrip (lstrip s)

-- `s[n:]`
unfoldable pub drop_chars : ℕ → String → String
drop_chars zero s = s
drop_chars (suc n) String.[] = String.[]
drop_chars (suc n) (String.◌∷◌ c s) = drop_chars n s

-- `len(s)`
unfoldable pub count_chars : String → ℕ
count_chars String.[] = 0
count_chars (String.◌∷◌ c s) = suc (count_chars s)

-- `build_did`, of the text of an identity
unfoldable pub build_did : String → String
build_did s = "did:oan:" ++ s

unfoldable pub derive_agent_id : Uuid → String → ℕ
unfolding build_did
derive_agent_id uuid digest = uuid.uuid5 (build_did digest)

-- `if raw.startswith("did:oan:"): raw = raw[8:]`
strip_prefix : String → String
unfolding drop_chars
strip_prefix raw = if starts_with raw "did:oan:" then drop_chars 8 raw else raw

resolve : Uuid → String → Option ℕ
unfolding derive_agent_id count_chars
resolve uuid raw = elim (uuid.parse raw) [
  | some id ↦ some id
  | none ↦
      let n = count_chars raw in
      if leb 16 n && leb n 24 then some (derive_agent_id uuid raw) else none
]

unfoldable pub parse_agent_id : Uuid → String → Option ℕ
unfolding strip strip_prefix resolve
parse_agent_id uuid value =
    if is_empty value then none else resolve uuid (strip_prefix (strip value))
