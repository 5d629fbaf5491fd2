-- ===== src/Messaging/Pages.antt =====
-- What the listings of messages show.
use open_agent_net.Prelude.{
  ℕ, zero, suc, ◌≤◌, ◌≡◌, refl, ap, String, true, Option, none, some, List, [], ◌∷◌, ◌==◌, eq_of_==,
  length, take, drop, All, str_eq, arith, inl, inr, ◌⊎◌, Bool-cases,
}
use open_agent_net.Identifiers.{Uuid, parse_agent_id}
use open_agent_net.Tasks.{Task}
use open_agent_net.Db.{ok, Table, select}
use open_agent_net.Messaging.Order.{IsNewestFirst, All-Permᴰ}
use open_agent_net.Messaging.State.{MessagingDb, truthy}
use open_agent_net.Messaging.Read.{
  Message, Direction, in_listing, is_party, to_dicts, of_type, Page, list_messages,
}

-- The message has the agent as its sender or its recipient.
pub Involves : ℕ → Message → Type 0
Involves agent m = (m.from_agent_id ≡ agent) ⊎ (m.to_agent_id ≡ agent)

abbrev RowInvolves : ℕ → ℕ × Task → Type 0
RowInvolves agent r = (r.1.from_agent_id ≡ agent) ⊎ (r.1.to_agent_id ≡ agent)

module _ {A : Type 0} (P : A → Type 0) where
  All-take : (n : ℕ) (xs : List A) → All P xs → All P (take n xs)
  All-take zero xs h = tt
  All-take (suc n) [] h = tt
  All-take (suc n) (x ∷ xs) h = (h.0, All-take n xs h.1)

  All-drop : (n : ℕ) (xs : List A) → All P xs → All P (drop n xs)
  All-drop zero xs h = h
  All-drop (suc n) [] h = tt
  All-drop (suc n) (x ∷ xs) h = All-drop n xs h.1

length-take : {A : Type 0} (n : ℕ) (xs : List A) → length (take n xs) ≤ n
length-take zero xs = omega arith
length-take (suc n) [] = omega arith
length-take (suc n) (x ∷ xs) = omega (arith, length-take n xs)

party-Involves :
    (d : Direction) (agent id : ℕ) (t : Task)
    → is_party d agent t ≡ true
    → RowInvolves agent (id, t)
party-Involves Direction.sent agent id t h = inl (eq_of_== t.from_agent_id agent h)
party-Involves Direction.received agent id t h = inr (eq_of_== t.to_agent_id agent h)
party-Involves Direction.both agent id t h = elim (Bool-cases (t.from_agent_id == agent)) [
  | inl from ↦ inl (eq_of_== t.from_agent_id agent from)
  | inr other ↦ inr (eq_of_== t.to_agent_id agent (rw other at h))
]

select-Involves :
    (d : Direction) (since until : Option ℕ) (agent : ℕ) (rows : Table Task)
    → All (RowInvolves agent) (select (in_listing d since until agent) rows)
unfolding select
select-Involves d since until agent [] = tt
select-Involves d since until agent ((id, t) ∷ rows) =
    elim (Bool-cases (in_listing d since until agent id t)) [
      | inl fits ↦
          rw fits
            (party-Involves d agent id t (ground arith), select-Involves d since until agent rows)
      | inr misfit ↦ rw misfit (select-Involves d since until agent rows)
    ]

to_dicts-Involves :
    (agent : ℕ) (rows : Table Task)
    → All (RowInvolves agent) rows
    → All (Involves agent) (to_dicts rows)
unfolding to_dicts Involves
to_dicts-Involves agent [] h = tt
to_dicts-Involves agent ((id, t) ∷ rows) h = (h.0, to_dicts-Involves agent rows h.1)

of_type-All :
    (P : Message → Type 0) (type : Option String) (ms : List Message)
    → All P ms
    → All P (of_type type ms)
of_type-All P none ms h = h
of_type-All P (some k) [] h = tt
of_type-All P (some k) (m ∷ ms) h = elim (Bool-cases (str_eq m.kind k)) [
  | inl fits ↦ rw fits (h.0, of_type-All P (some k) ms h.1)
  | inr misfit ↦ rw misfit (of_type-All P (some k) ms h.1)
]

length-of_type : (type : Option String) (ms : List Message) → length (of_type type ms) ≤ length ms
length-of_type none ms = omega arith
length-of_type (some k) [] = omega arith
length-of_type (some k) (m ∷ ms) = ground (arith, length-of_type (some k) ms)

length-to_dicts : (rows : Table Task) → length (to_dicts rows) ≡ length rows
unfolding to_dicts
length-to_dicts [] = refl
length-to_dicts ((id, t) ∷ rows) = ap suc (length-to_dicts rows)

-- The side of the message that the agent is asked for.
abbrev pub Directed : Direction → ℕ → Task → Type 0
Directed Direction.sent agent t = t.from_agent_id ≡ agent
Directed Direction.received agent t = t.to_agent_id ≡ agent
Directed Direction.both agent t = (t.from_agent_id ≡ agent) ⊎ (t.to_agent_id ≡ agent)

-- The time lies between the bounds that are given.
abbrev pub Within : Option ℕ → Option ℕ → ℕ → Type 0
Within since until created =
    ((s : ℕ) → since ≡ some s → s ≤ created) × ((u : ℕ) → until ≡ some u → created ≤ u)

module _ (uuid : Uuid) (order : Table Task → Table Task) (newest_first : IsNewestFirst order) where
  -- A listing shows only messages that the agent has sent or received, and no more than its limit;
  -- `order` is any ordering that keeps the rows of the selection, the newest first.
  pub list_messages_own :
      (spelled : String) (agent : ℕ) (d : Direction) (type : Option String) (since until : Option ℕ)
      (limit offset : ℕ) (db : MessagingDb) (x : Page × MessagingDb)
      → parse_agent_id uuid spelled ≡ some agent
      → list_messages uuid order spelled d type since until limit offset db ≡ ok x
      → All (Involves agent) x.0.items × (length x.0.items ≤ limit) × (x.1 ≡ db)
  unfolding list_messages
  list_messages_own spelled agent d type since until limit offset db x parsed h =
      let rows = select (in_listing d since until agent) db.tasks in
      let shown = take limit (drop offset (order rows)) in
      let is : x.0.items ≡ of_type (truthy type) (to_dicts shown) = ground arith in
      let own =
        All-Permᴰ (RowInvolves agent) (newest_first.rows rows)
          (select-Involves d since until agent db.tasks) in
      rw is (
        of_type-All (Involves agent) (truthy type) (to_dicts shown) (
            to_dicts-Involves agent shown (
              All-take (RowInvolves agent) limit (drop offset (order rows))
                (All-drop (RowInvolves agent) offset (order rows) own))),
        omega (
          arith,
          length-of_type (truthy type) (to_dicts shown),
          length-to_dicts shown,
          length-take limit (drop offset (order rows)),
        ),
        ground arith,
      )
