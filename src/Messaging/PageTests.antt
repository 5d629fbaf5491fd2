-- ===== src/Messaging/PageTests.antt =====
-- The listings of three messages, under an ordering that sorts by insertion.
use mathlib.Core.List.{Permᴰ}
use mathlib.Core.List.Permᴰ
use open_agent_net.Prelude.{
  ℕ, ◌≤◌, ◌≡◌, refl, none, some, [], ◌∷◌, leb, length, All, str_eq, arith, inl, inr, Bool-cases,
  if◌then◌else◌,
}
use open_agent_net.Identifiers.{Uuid, parse_agent_id}
use open_agent_net.Tasks.{Task, TaskStatus}
use open_agent_net.Db.{ok, Table, select}
use open_agent_net.Messaging.State.{MessagingDb}
use open_agent_net.Messaging.Read.{Direction, Page, task_to_dict, list_messages}
use open_agent_net.Messaging.Order.{Descending, IsNewestFirst, All-Permᴰ}
use open_agent_net.Messaging.Pages.{Involves, list_messages_own}

insert : ℕ × Task → Table Task → Table Task
insert r [] = r ∷ []
insert r (x ∷ xs) =
    let rest = insert r xs in if leb x.1.created_at r.1.created_at then r ∷ x ∷ xs else x ∷ rest

sort : Table Task → Table Task
sort [] = []
sort (r ∷ rows) = insert r (sort rows)

insert-Permᴰ : (r : ℕ × Task) (rows : Table Task) → Permᴰ (insert r rows) (r ∷ rows)
unfolding insert
insert-Permᴰ r [] = Permᴰ.refl (r ∷ [])
insert-Permᴰ r (x ∷ xs) = elim (Bool-cases (leb x.1.created_at r.1.created_at)) [
  | inl here ↦ rw here (Permᴰ.refl (r ∷ x ∷ xs))
  | inr further ↦
      rw further (Permᴰ.trans (Permᴰ.cons refl (insert-Permᴰ r xs)) (Permᴰ.swap refl refl))
]

sort-Permᴰ : (rows : Table Task) → Permᴰ (sort rows) rows
unfolding sort
sort-Permᴰ [] = Permᴰ.nil
sort-Permᴰ (r ∷ rows) = Permᴰ.trans (insert-Permᴰ r (sort rows)) (Permᴰ.cons refl (sort-Permᴰ rows))

All-le :
    (m n : ℕ) (rows : Table Task)
    → m ≤ n
    → All (λ y. y.1.created_at ≤ m) rows
    → All (λ y. y.1.created_at ≤ n) rows
All-le m n [] le h = tt
All-le m n (x ∷ xs) le h = (omega (arith, le, h.0), All-le m n xs le h.1)

insert-Descending :
    (r : ℕ × Task) (rows : Table Task)
    → Descending (λ x. x.1.created_at) rows
    → Descending (λ x. x.1.created_at) (insert r rows)
unfolding insert
insert-Descending r [] h = (tt, tt)
insert-Descending r (x ∷ xs) h = elim (Bool-cases (leb x.1.created_at r.1.created_at)) [
  | inl here ↦
      let le : x.1.created_at ≤ r.1.created_at = ground (arith, here) in
      rw here ((le, All-le x.1.created_at r.1.created_at xs le h.0), h)
  | inr further ↦
      let le : r.1.created_at ≤ x.1.created_at = ground (arith, further) in
      rw further (
        All-Permᴰ (λ y. y.1.created_at ≤ x.1.created_at) (insert-Permᴰ r xs) (le, h.0),
        insert-Descending r xs h.1,
      )
]

sort-Descending : (rows : Table Task) → Descending (λ x. x.1.created_at) (sort rows)
unfolding sort
sort-Descending [] = tt
sort-Descending (r ∷ rows) = insert-Descending r (sort rows) (sort-Descending rows)

sort-IsNewestFirst : IsNewestFirst sort
sort-IsNewestFirst = record { rows = sort-Permᴰ; newest = sort-Descending }

abbrev uuid : Uuid
uuid = record { parse = λ s. if str_eq s "a2" then some 2 else none; uuid5 = λ s. 0 }

abbrev task : ℕ → ℕ → ℕ → Task
task from to now = record {
  from_agent_id = from;
  to_agent_id = to;
  capability_name = "sum";
  payload = record { name = none; slug = none; payload = none; others = "" };
  constraints = record {
    max_latency_ms = none;
    latency_target_ms = none;
    sla_max_latency_ms = none;
    others = "";
  };
  conversation_id = none;
  status = TaskStatus.pending;
  result = none;
  error_code = none;
  error_message = none;
  negotiation_id = none;
  contract_id = none;
  execution_ms = none;
  created_at = now;
  completed_at = none;
  ttl_seconds = 60;
  envelope_hash = none;
}

abbrev db : MessagingDb
db = record {
  tasks = (7, task 1 2 10) ∷ (8, task 3 2 20) ∷ (9, task 2 1 30) ∷ [];
  agents = [];
  contracts = [];
  teams = [];
  members = [];
}

abbrev page : Page
page = record {
  total = 2;
  limit = 5;
  offset = 0;
  items = task_to_dict 8 (task 3 2 20) ∷ task_to_dict 7 (task 1 2 10) ∷ [];
}

listed : list_messages uuid sort "a2" Direction.received none none (some 20) 5 0 db ≡ ok (page, db)
unfolding list_messages parse_agent_id sort insert select
listed = refl

list_messages_own_example : All (Involves 2) page.items × (length page.items ≤ 5) × (db ≡ db)
unfolding parse_agent_id
list_messages_own_example =
    list_messages_own uuid sort sort-IsNewestFirst "a2" 2 Direction.received none none (some 20) 5 0
      db (page, db) refl listed
