-- ===== src/Sandbox/Releasing.antt =====
-- Creations of sandbox-manager.ts that are undone, and creations that overlap.
use cantontrace.Base.{
  ℕ, suc, ◌+◌, ◌<◌, ◌≡◌, ◌≢◌, refl, sym, ap, ◌∙◌, List, [], ◌∷◌, none, some, Str, Bool, true, false,
  ◌==◌, leb, length, arith, ◌===◌, ===_refl, ===_ne,
}
use cantontrace.Base.Lookup.{get, put, get-put}
use cantontrace.Sandbox.{
  Number, integer, used_ports, find_available_port, extract_port, Manager, SandboxCreateRequest,
  Sandbox, ok, Creation, begin_create, finish_create, register, set_state, new_sandbox,
}
use cantontrace.Sandbox.Finding.{extract_port-local_endpoint}
use cantontrace.Sandbox.Capacity.{port_of_state}

length-put_of_none :
    (id : Str) (n : ℕ) (l : List (Str × ℕ)) → get id l ≡ none → length (put id n l) ≡ length l + 1
unfolding get put
length-put_of_none id n [] free = omega arith
length-put_of_none id n ((j, k) ∷ l) free = ground (arith, length-put_of_none id n l)

-- What a creation that finds a port does.
module _ (id : Str) (request : SandboxCreateRequest) (used : List Number) (now : Str)
    (free : ℕ → Bool) (m : Manager) (port : ℕ) where
  abbrev c : Creation
  c = record { id = id; request = request; used = used }

  created-state :
      find_available_port used free ≡ some port
      → ((finish_create now free c m).0 ≡ ok (new_sandbox now c port))
        × ((finish_create now free c m).1.sandboxes ≡ put id m.next_state m.sandboxes)
        × ((finish_create now free c m).1.next_state ≡ suc m.next_state)
        × (((finish_create now free c m).1.state m.next_state).sandbox ≡ new_sandbox now c port)
        × ((i : ℕ) → i < m.next_state → (finish_create now free c m).1.state i ≡ m.state i)
  unfolding finish_create register set_state
  created-state e =
      let here : (m.next_state == m.next_state) ≡ true = ground arith in
      rw (finish_create, e)
        (
          refl,
          refl,
          refl,
          rw here refl,
          λ i less. let away : (i == m.next_state) ≡ false = ground arith in rw away refl,
        )

-- While one more sandbox can be created, two creations under new ids that begin before either of them is
-- over, while binding to the ports shows the same and some port can be found, both succeed on the same
-- port, and the number of sandboxes grows by two: with nine of them, past the maximum of ten.
pub finish_create-overlap :
    (a b : Str) (first second : SandboxCreateRequest) (now : Str) (free : ℕ → Bool) (m : Manager)
    (port : ℕ)
    → get a m.sandboxes ≡ none
    → get b m.sandboxes ≡ none
    → a ≢ b
    → length m.sandboxes < 10
    → find_available_port (used_ports m) free ≡ some port
    → let one : Creation = record { id = a; request = first; used = used_ports m } in
      let two : Creation = record { id = b; request = second; used = used_ports m } in
      let later : Manager = (finish_create now free two (finish_create now free one m).1).1 in
      (begin_create a first m ≡ ok one)
      × (begin_create b second m ≡ ok two)
      × (get a later.sandboxes ≡ some m.next_state)
      × (get b later.sandboxes ≡ some (suc m.next_state))
      × (port_of_state later m.next_state ≡ integer false port)
      × (port_of_state later (suc m.next_state) ≡ integer false port)
      × (length later.sandboxes ≡ length m.sandboxes + 2)
unfolding begin_create
finish_create-overlap a b first second now free m port free_a free_b apart room found =
    let used : List Number = used_ports m in
    let limit : leb 10 (length m.sandboxes) ≡ false = ground arith in
    let m1 : Manager =
      (finish_create now free (record { id = a; request = first; used = used }) m).1 in
    let later : Manager =
      (finish_create now free (record { id = b; request = second; used = used }) m1).1 in
    let st1 = created-state a first used now free m port found in
    let st2 = created-state b second used now free m1 port found in
    let entries : later.sandboxes ≡ put b (suc m.next_state) (put a m.next_state m.sandboxes) =
      st2.1 ∙ ap (λ n. put b n m1.sandboxes) st1.2 ∙ ap (put b (suc m.next_state)) st1.1 in
    let earlier : m.next_state < m1.next_state = rw st1.2 (omega arith) in
    let other : (b === a) ≡ false = ===_ne b a (λ e. apart (sym e)) in
    let there : (a === b) ≡ false = ===_ne a b apart in
    let new_b : get b (put a m.next_state m.sandboxes) ≡ none =
      get-put a b m.next_state m.sandboxes ∙ rw there free_b in
    (
      rw (begin_create, limit) refl,
      rw (begin_create, limit) refl,
      ap (get a) entries
          ∙ get-put b a (suc m.next_state) (put a m.next_state m.sandboxes)
          ∙ rw other (get-put a a m.next_state m.sandboxes ∙ rw (===_refl a) refl),
      ap (get b) entries
          ∙ get-put b b (suc m.next_state) (put a m.next_state m.sandboxes)
          ∙ rw (===_refl b) refl,
      ap (λ x. extract_port x.sandbox.ledger_api_endpoint) (st2.4 m.next_state earlier)
          ∙ ap (λ o. extract_port o.ledger_api_endpoint) st1.3
          ∙ extract_port-local_endpoint port,
      ap (port_of_state later) (sym st1.2)
          ∙ ap (λ o. extract_port o.ledger_api_endpoint) st2.3
          ∙ extract_port-local_endpoint port,
      ap length entries
          ∙ length-put_of_none b (suc m.next_state) _ new_b
          ∙ (let one_more = length-put_of_none a m.next_state m.sandboxes free_a in omega arith),
    )
