-- ===== src/Sandbox/Calls.antt =====
-- Each whole call of sandbox-manager.ts keeps the sandboxes within the limit and their ports apart.
use mathlib.Core.Option.{some_inj}
use cantontrace.Base.{
  ℕ, ◌+◌, ◌*◌, ◌≤◌, ◌≡◌, ◌≢◌, inl, inr, refl, sym, ap, ◌∙◌, List, [], ◌∷◌, Option, none, some, Str,
  Bool, true, false, ◌==◌, leb, length, map, Bool-cases, arith, ◌===◌,
}
use cantontrace.Base.Lookup.{get, put, get_of_get-delete, keys-delete-Distinct, length-put-le}
use cantontrace.Sandbox.{
  Number, integer, same_number, has_port, used_ports, extract_port, local_endpoint, Manager, Status,
  stopped, SandboxCreateRequest, set_state, set_sandbox, set_status, ok, fails, begin_create,
  finish_create, create_sandbox, find_own, begin_delete, finish_delete, delete_sandbox, begin_reset,
  finish_reset, reset_sandbox, Reset, request_again,
}
use cantontrace.Sandbox.Finding.{find_available_port-usable, extract_port-local_endpoint}
use cantontrace.Sandbox.Counting.{count_own-le, count_own-put_of_some, count_own-delete}
use cantontrace.Sandbox.Capacity.{
  count_own, IsAllocated, port_of_state, endpoints-IsAllocated, set_state-IsAllocated,
  register-IsAllocated,
}

pub absent :
    (g : ℕ → Number) (p : ℕ) (l : List (Str × ℕ)) (b : Str) (k : ℕ)
    → has_port (integer false p) (map (λ e. g e.1) l) ≡ false
    → get b l ≡ some k
    → g k ≢ integer false p
unfolding has_port get
absent g p [] b k free e q = cc
absent g p ((j, n) ∷ l) b k free e q = elim (Bool-cases (j === b)) [
  | inl same ↦
      let here : n ≡ k = some_inj.0 (sym (rw same refl) ∙ e) in
      let at_n : g n ≡ integer false p = ap g here ∙ q in
      let clash : same_number (g n) (integer false p) ≡ true =
        ap (λ x. same_number x (integer false p)) at_n ∙ ground arith in
      ground arith
  | inr other ↦ absent g p l b k (ground arith) (sym (rw other refl) ∙ e) q
]

pub set_status-IsAllocated :
    (n : ℕ) (status : Status) (m : Manager) → IsAllocated m → IsAllocated (set_status n status m)
unfolding set_status set_sandbox
set_status-IsAllocated n status m h = set_state-IsAllocated n _ m refl refl h

port-set_status :
    (n : ℕ) (status : Status) (m : Manager) (i : ℕ)
    → port_of_state (set_status n status m) i ≡ port_of_state m i
unfolding set_status set_sandbox set_state
port-set_status n status m i = elim (Bool-cases (i == n)) [
  | inl here ↦ let e : i ≡ n = ground arith in rw (here, e) refl
  | inr away ↦ rw away refl
]

pub create_sandbox-IsAllocated :
    (id : Str) (request : SandboxCreateRequest) (now : Str) (free : ℕ → Bool) (m : Manager)
    → get id m.sandboxes ≡ none
    → IsAllocated m
    → IsAllocated (create_sandbox id request now free m).1
unfolding create_sandbox begin_create finish_create used_ports
create_sandbox-IsAllocated id request now free m unused h =
    elim (Bool-cases (leb 10 (length m.sandboxes))) [
      | inl full ↦ rw (create_sandbox, begin_create, full) h
      | inr room ↦ elim (find_available_port-usable (used_ports m) free) [
        | inl (e, all_busy) ↦ rw (create_sandbox, begin_create, room, finish_create, e) h
        | inr (i, bound, e, good, before) ↦
            let few : count_own (put id m.next_state m.sandboxes) ≤ 10 = ground (
              arith,
              length-put-le id m.next_state m.sandboxes,
              count_own-le (put id m.next_state m.sandboxes),
            ) in
            let fresh : has_port (integer false (10000 + 6 * i)) (used_ports m) ≡ false =
              ground arith in
            rw (create_sandbox, begin_create, room, finish_create, e)
              (register-IsAllocated id _ (record m { freed_ports = _ }) (10000 + 6 * i) refl
                (extract_port-local_endpoint (10000 + 6 * i))
                (λ b k g other. absent (port_of_state m) (10000 + 6 * i) m.sandboxes b k fresh g)
                few (endpoints-IsAllocated m.state _ m (λ i. refl) (λ i. refl) h))
      ]
    ]

pub delete_sandbox-IsAllocated :
    (id : Str) (m : Manager) → IsAllocated m → IsAllocated (delete_sandbox id m).1
unfolding delete_sandbox begin_delete find_own finish_delete
delete_sandbox-IsAllocated id m h = go (get id m.sandboxes) refl
  where
    kept :
        (n : ℕ)
        → get id m.sandboxes ≡ some n
        → (port : Number) → IsAllocated (finish_delete id port m)
    kept n e port = record {
      distinct = keys-delete-Distinct id m.sandboxes h.distinct;
      few = let few = h.few in omega (arith, count_own-delete id m.sandboxes);
      named = λ b k g. h.named b k (get_of_get-delete id b k m.sandboxes h.distinct g);
      stored = λ b k g. h.stored b k (get_of_get-delete id b k m.sandboxes h.distinct g);
      numbered = λ b k g. h.numbered b k (get_of_get-delete id b k m.sandboxes h.distinct g);
      apart = λ a b j k e g.
          h.apart a b j k (get_of_get-delete id a j m.sandboxes h.distinct e)
            (get_of_get-delete id b k m.sandboxes h.distinct g);
    }

    go : (o : Option ℕ) → get id m.sandboxes ≡ o → IsAllocated (delete_sandbox id m).1
    go none e = rw (delete_sandbox, begin_delete, find_own, e) h
    go (some n) e = elim (Bool-cases (m.state n).sandbox.is_demo) [
      | inl demo ↦ rw (delete_sandbox, begin_delete, find_own, e, demo) h
      | inr own ↦ rw (delete_sandbox, begin_delete, find_own, e, own) (kept n e _)
    ]

pub begin_reset-own :
    (id : Str) (n : ℕ) (m : Manager)
    → get id m.sandboxes ≡ some n
    → (m.state n).sandbox.is_demo ≡ false
    → begin_reset id m ≡ (
      ok (record { id = id; port = port_of_state m n; request = request_again (m.state n) }),
      set_status n stopped m,
    )
unfolding begin_reset find_own
begin_reset-own id n m e own = rw (begin_reset, find_own, e, own) refl

pub reset_sandbox-IsAllocated :
    (now id : Str) (m : Manager) → IsAllocated m → IsAllocated (reset_sandbox now id m).1
unfolding reset_sandbox begin_reset find_own finish_reset set_status set_sandbox set_state
reset_sandbox-IsAllocated now id m h = go (get id m.sandboxes) refl
  where
    again :
        (n : ℕ)
        → get id m.sandboxes ≡ some n
        → (r : Reset) → r.id ≡ id
        → r.port ≡ port_of_state m n
        → IsAllocated (finish_reset now r (set_status n stopped m))
    again n e r named ported =
        let p : ℕ = (h.numbered id n e).0 in
        let is_p : port_of_state m n ≡ integer false p = (h.numbered id n e).1 in
        register-IsAllocated r.id _ (set_status n stopped m) p refl
          (ap (λ q. extract_port (local_endpoint q)) (ported ∙ is_p)
            ∙ extract_port-local_endpoint p)
          (λ b k g other q.
            other (
              h.apart b id k n g e (sym (port-set_status n stopped m k) ∙ q ∙ sym is_p)
              ∙ sym named))
          (let few = h.few in
            let same : count_own (put r.id m.next_state m.sandboxes) ≡ count_own m.sandboxes =
              count_own-put_of_some r.id m.next_state n m.sandboxes
                (ap (λ x. get x m.sandboxes) named ∙ e) in
            omega arith)
          (set_status-IsAllocated n stopped m h)

    go : (o : Option ℕ) → get id m.sandboxes ≡ o → IsAllocated (reset_sandbox now id m).1
    go none e =
        let begun : begin_reset id m ≡ (fails 404, m) = rw (begin_reset, find_own, e) refl in
        rw (reset_sandbox, begun) (rw begun h)
    go (some n) e = elim (Bool-cases (m.state n).sandbox.is_demo) [
      | inl demo ↦
          let begun : begin_reset id m ≡ (fails 403, m) =
            rw (begin_reset, find_own, e, demo) refl in
          rw (reset_sandbox, begun) (rw begun h)
      | inr own ↦
          let begun = begin_reset-own id n m e own in
          rw (reset_sandbox, begun) (rw begun (again n e _ refl refl))
    ]
