-- ===== src/Stream/Safety.antt =====
-- Which streams of event-stream.ts run: those of subscriptions that are there, one for each at most.
pub mod Writes
pub mod Entries
pub mod Opening
pub mod Starting
pub mod Operations
pub mod Reachable
pub mod Leaving
use cantontrace.Base.{ℕ, ◌<◌, ◌≡◌, ◌≢◌, List, [], Option, some, Str, Bool, true, false, Distinct}
use cantontrace.Base.Lookup.{keys, get}
use cantontrace.Stream.{Manager, Phase, running, cancelled, over}

abbrev pub is_live : Phase → Bool
is_live running = true
is_live cancelled = true
is_live over = false

abbrev pub is_running : Phase → Bool
is_running running = true
is_running cancelled = false
is_running over = false

-- The object is the one that its id stands for.
abbrev pub IsEntry : Manager → ℕ → Type 0
IsEntry m n = get (m.object n).id m.subscriptions ≡ some n

pub record IsSafe (m : Manager) : Type 0 where
  pub distinct : Distinct (keys m.subscriptions)
  pub keyed :
      (id : Str) (n : ℕ)
      → get id m.subscriptions ≡ some n
      → ((m.object n).id ≡ id) × (n < m.next_object)
  pub attached : (n : ℕ) → (m.object n).websockets ≢ [] → IsEntry m n
  pub allocated :
      (k : ℕ)
      → is_live (m.stream k).phase ≡ true
      → (k < m.next_stream) × ((m.stream k).owner < m.next_object)
  pub owned :
      (k : ℕ)
      → is_running (m.stream k).phase ≡ true
      → IsEntry m (m.stream k).owner × ((m.object (m.stream k).owner).cancel ≡ some k)
  pub busy :
      (k : ℕ)
      → is_live (m.stream k).phase ≡ true
      → IsEntry m (m.stream k).owner
      → (m.object (m.stream k).owner).is_active ≡ true
  pub single :
      (j k : ℕ)
      → is_live (m.stream j).phase ≡ true
      → is_live (m.stream k).phase ≡ true
      → (m.stream j).owner ≡ (m.stream k).owner
      → j ≡ k
