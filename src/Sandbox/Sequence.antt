-- ===== src/Sandbox/Sequence.antt =====
-- Calls of sandbox-manager.ts one after the other, each over before the next one begins, and starts of the
-- server between them.
use cantontrace.Base.{
  ℕ, ◌≤◌, ◌≡◌, ◌≢◌, ◌⊎◌, inl, inr, refl, Option, none, some, Str, Bool, false, not, ◌&&◌, length,
  List, Bool-cases, arith, ◌===◌, ===_iff,
}
use cantontrace.Base.Lookup.{get, delete}
use cantontrace.Sandbox.{
  extract_port, Manager, error, is_stopped, SandboxCreateRequest, set_status, create_sandbox,
  delete_sandbox, reset_sandbox, ready, start_fails, process_error, process_exit, exited_well,
  spawned, Number, integer, has_port, used_ports, demo_sandbox_id, persist_sandboxes, set_sandbox,
  Health, unreachable, silent, lists, poll_round, Upload, admin_took, ledger_took, none_took,
  finish_upload, Allocation, call_failed, unreadable, answered, finish_allocate,
}
use cantontrace.Sandbox.Capacity.{count_own, IsAllocated, set_state-IsAllocated}
use cantontrace.Sandbox.Counting.{length-count_own}
use cantontrace.Sandbox.Starting.{
  no_sandboxes, start_sandboxes, start_sandboxes-IsAllocated, start_sandboxes-demo-IsAllocated,
}
use cantontrace.Sandbox.Calls.{
  set_status-IsAllocated, create_sandbox-IsAllocated, delete_sandbox-IsAllocated,
  reset_sandbox-IsAllocated,
}

-- The states that a server comes to, and the ones after it on the same machine, when each creation,
-- deletion and reset is over before the next one begins. A restart reads the file as some state before it
-- was persisted. An id of a creation is new; the states `n` and the ids of a failure are what a process or
-- a pending call refers to, whatever they are.
pub data Run : Manager → Type 0 where
  begins : Run no_sandboxes
  restarts :
      {m : Manager}
      → Run m
      → (reachable : Bool) (parties : List Str) (now : Str) (alive : Number → Bool)
      → Run (start_sandboxes none reachable parties now alive (persist_sandboxes m))
  restarts_with_demo :
      {m : Manager}
      → Run m
      → (endpoint : Str) (reachable : Bool) (parties : List Str) (now : Str) (alive : Number → Bool)
        (p : ℕ)
      → extract_port endpoint ≡ integer false p
      → has_port
          (integer false p)
          (used_ports (record m { sandboxes = delete demo_sandbox_id m.sandboxes }))
        ≡ false
      → Run (start_sandboxes (some endpoint) reachable parties now alive (persist_sandboxes m))
  creates :
      {m : Manager}
      → Run m
      → (id : Str) (request : SandboxCreateRequest) (now : Str) (free : ℕ → Bool)
      → get id m.sandboxes ≡ none
      → Run (create_sandbox id request now free m).1
  deletes : {m : Manager} → Run m → (id : Str) → Run (delete_sandbox id m).1
  resets : {m : Manager} → Run m → (now id : Str) → Run (reset_sandbox now id m).1
  spawns : {m : Manager} → Run m → (n handle : ℕ) → Run (spawned n handle m)
  gets_ready : {m : Manager} → Run m → (n : ℕ) → Run (ready n m)
  fails_to_start : {m : Manager} → Run m → (id : Str) (n : ℕ) → Run (start_fails id n m)
  breaks : {m : Manager} → Run m → (n : ℕ) → Run (process_error n m)
  exits : {m : Manager} → Run m → (code : Option ℕ) (n : ℕ) → Run (process_exit code n m)
  polls : {m : Manager} → Run m → (health : Health) → Run (poll_round health m).0
  uploads :
      {m : Manager}
      → Run m
      → (outcome : Upload) (file_name path : Str) (n : ℕ)
      → Run (finish_upload outcome file_name path n m).1
  allocates :
      {m : Manager}
      → Run m
      → (allocation : Allocation) (n : ℕ) (hint : Str) → Run (finish_allocate allocation n hint m).1

poll_round-IsAllocated :
    (health : Health) (m : Manager) → IsAllocated m → IsAllocated (poll_round health m).0
unfolding poll_round set_sandbox
poll_round-IsAllocated health m h = go health (get demo_sandbox_id m.sandboxes) refl
  where
    go :
        (health : Health) (o : Option ℕ)
        → get demo_sandbox_id m.sandboxes ≡ o
        → IsAllocated (poll_round health m).0
    go health none e = rw (poll_round, e) h
    go unreachable (some n) e = rw (poll_round, e) h
    go silent (some n) e = rw (poll_round, e) (set_status-IsAllocated n _ m h)
    go (lists parties) (some n) e = rw (poll_round, e) (set_state-IsAllocated n _ m refl refl h)

finish_upload-IsAllocated :
    (outcome : Upload) (file_name path : Str) (n : ℕ) (m : Manager)
    → IsAllocated m
    → IsAllocated (finish_upload outcome file_name path n m).1
unfolding finish_upload set_sandbox
finish_upload-IsAllocated admin_took file_name path n m h = set_state-IsAllocated n _ m refl refl h
finish_upload-IsAllocated ledger_took file_name path n m h = set_state-IsAllocated n _ m refl refl h
finish_upload-IsAllocated none_took file_name path n m h = set_state-IsAllocated n _ m refl refl h

finish_allocate-IsAllocated :
    (allocation : Allocation) (n : ℕ) (hint : Str) (m : Manager)
    → IsAllocated m
    → IsAllocated (finish_allocate allocation n hint m).1
unfolding finish_allocate set_sandbox
finish_allocate-IsAllocated call_failed n hint m h = h
finish_allocate-IsAllocated unreadable n hint m h = set_state-IsAllocated n _ m refl refl h
finish_allocate-IsAllocated (answered party) n hint m h = set_state-IsAllocated n _ m refl refl h

start_fails-IsAllocated :
    (id : Str) (n : ℕ) (m : Manager) → IsAllocated m → IsAllocated (start_fails id n m)
unfolding start_fails
start_fails-IsAllocated id n m h = go (get id failed.sandboxes) refl
  where
    failed : Manager
    failed = set_status n error m

    go : (o : Option ℕ) → get id failed.sandboxes ≡ o → IsAllocated (start_fails id n m)
    go none e = rw (start_fails, e) (set_status-IsAllocated n error m h)
    go (some k) e =
        rw (start_fails, e)
          (set_status-IsAllocated k error failed (set_status-IsAllocated n error m h))

process_exit-IsAllocated :
    (code : Option ℕ) (n : ℕ) (m : Manager) → IsAllocated m → IsAllocated (process_exit code n m)
unfolding process_exit
process_exit-IsAllocated code n m h =
    elim (Bool-cases (not (exited_well code) && not (is_stopped (m.state n).sandbox.status))) [
      | inl e ↦ rw (process_exit, e) (set_status-IsAllocated n error m h)
      | inr e ↦ rw (process_exit, e) h
    ]

pub Run-IsAllocated : {m : Manager} → Run m → IsAllocated m
unfolding get spawned ready process_error
Run-IsAllocated begins = record {
  distinct = tt;
  few = omega arith;
  named = λ id n e. absurd (none-ne-some e);
  stored = λ id n e. cc;
  numbered = λ id n e. absurd (none-ne-some e);
  apart = λ a b j k e g p. cc;
}
  where
    none-ne-some : {n : ℕ} → none ≡ some n → ⊥
    none-ne-some e = cc
Run-IsAllocated (creates {m} r id request now free unused) =
    create_sandbox-IsAllocated id request now free m unused (Run-IsAllocated r)
Run-IsAllocated (deletes {m} r id) = delete_sandbox-IsAllocated id m (Run-IsAllocated r)
Run-IsAllocated (resets {m} r now id) = reset_sandbox-IsAllocated now id m (Run-IsAllocated r)
Run-IsAllocated (spawns {m} r n handle) = set_state-IsAllocated n _ m refl refl (Run-IsAllocated r)
Run-IsAllocated (gets_ready {m} r n) = set_status-IsAllocated n _ m (Run-IsAllocated r)
Run-IsAllocated (fails_to_start {m} r id n) = start_fails-IsAllocated id n m (Run-IsAllocated r)
Run-IsAllocated (breaks {m} r n) = set_status-IsAllocated n _ m (Run-IsAllocated r)
Run-IsAllocated (exits {m} r code n) = process_exit-IsAllocated code n m (Run-IsAllocated r)
Run-IsAllocated (polls {m} r health) = poll_round-IsAllocated health m (Run-IsAllocated r)
Run-IsAllocated (uploads {m} r outcome file_name path n) =
    finish_upload-IsAllocated outcome file_name path n m (Run-IsAllocated r)
Run-IsAllocated (allocates {m} r allocation n hint) =
    finish_allocate-IsAllocated allocation n hint m (Run-IsAllocated r)
Run-IsAllocated (restarts {m} r reachable parties now alive) =
    start_sandboxes-IsAllocated reachable parties now alive m (Run-IsAllocated r)
Run-IsAllocated (restarts_with_demo {m} r endpoint reachable parties now alive p e free) =
    start_sandboxes-demo-IsAllocated endpoint reachable parties now alive m p e free
      (Run-IsAllocated r)

-- As long as each creation, deletion and reset is over before the next one begins, each creation has a
-- new id, and whatever the processes, polling, uploads and allocations of parties report in between, there are at most ten
-- sandboxes besides the demo sandbox, at most eleven in all, and two sandboxes with one port are one
-- sandbox. The server may have been restarted any number of times on the file that it wrote, without a
-- demo sandbox or with one whose endpoint names a port that no other sandbox had.
pub Run-ports :
    (m : Manager)
    → Run m
    → (a b : Str) (j k : ℕ) → get a m.sandboxes ≡ some j
    → get b m.sandboxes ≡ some k
    → (count_own m.sandboxes ≤ 10)
      × (length m.sandboxes ≤ 11)
      × ((a ≡ b)
          ⊎ (extract_port (m.state j).sandbox.ledger_api_endpoint
              ≢ extract_port (m.state k).sandbox.ledger_api_endpoint))
Run-ports m r a b j k e g =
    let h : IsAllocated m = Run-IsAllocated r in
    let few : count_own m.sandboxes ≤ 10 = h.few in
    (
      few,
      omega (arith, length-count_own m.sandboxes h.distinct),
      elim (Bool-cases (a === b)) [
        | inl same ↦ inl ((===_iff a b).0 same)
        | inr other ↦
            inr (λ p. let one : a ≡ b = h.apart a b j k e g p in ground (arith, ===_iff a b))
      ],
    )
