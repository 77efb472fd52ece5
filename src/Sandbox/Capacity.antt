-- ===== src/Sandbox/Capacity.antt =====
-- How many sandboxes sandbox-manager.ts has and on which ports, when no two requests overlap.
use mathlib.Core.Option.{some_inj}
use cantontrace.Base.{
  ℕ, ◌≤◌, ◌<◌, ◌≡◌, ◌≢◌, inl, inr, refl, sym, ap, ◌∙◌, List, [], ◌∷◌, ◌+◌, some, Str, true, false,
  ◌==◌, if◌then◌else◌, Bool-cases, arith, Distinct, ◌===◌, ===_iff,
}
use cantontrace.Base.Lookup.{keys, get, put, get-put, keys-put-Distinct}
use cantontrace.Sandbox.{
  Number, integer, extract_port, Manager, SandboxState, set_state, register, demo_sandbox_id,
}

-- How many sandboxes there are besides the demo sandbox.
abbrev pub count_own : List (Str × ℕ) → ℕ
count_own [] = 0
count_own ((id, n) ∷ l) = if id === demo_sandbox_id then count_own l else count_own l + 1

-- The port of the state `n`.
abbrev pub port_of_state : Manager → ℕ → Number
port_of_state m n = extract_port (m.state n).sandbox.ledger_api_endpoint

pub record IsAllocated (m : Manager) : Type 0 where
  pub distinct : Distinct (keys m.sandboxes)
  pub few : count_own m.sandboxes ≤ 10
  pub named : (id : Str) (n : ℕ) → get id m.sandboxes ≡ some n → (m.state n).sandbox.id ≡ id
  pub stored : (id : Str) (n : ℕ) → get id m.sandboxes ≡ some n → n < m.next_state
  pub numbered :
      (id : Str) (n : ℕ)
      → get id m.sandboxes ≡ some n
      → (p : ℕ) × (port_of_state m n ≡ integer false p)
  pub apart :
      (a b : Str) (j k : ℕ)
      → get a m.sandboxes ≡ some j
      → get b m.sandboxes ≡ some k
      → port_of_state m j ≡ port_of_state m k
      → a ≡ b

-- States that keep their ids and endpoints.
pub endpoints-IsAllocated :
    (f : ℕ → SandboxState) (freed : List Number) (m : Manager)
    → ((i : ℕ) → (f i).sandbox.id ≡ (m.state i).sandbox.id)
    → ((i : ℕ) → (f i).sandbox.ledger_api_endpoint ≡ (m.state i).sandbox.ledger_api_endpoint)
    → IsAllocated m
    → IsAllocated (record m { state = f; freed_ports = freed })
endpoints-IsAllocated f freed m ids same h = record {
  distinct = h.distinct;
  few = h.few;
  named = λ id n e. ids n ∙ h.named id n e;
  stored = h.stored;
  numbered = λ id n e. ((h.numbered id n e).0, ap extract_port (same n) ∙ (h.numbered id n e).1);
  apart = λ a b j k e g p.
      h.apart a b j k e g (sym (ap extract_port (same j)) ∙ p ∙ ap extract_port (same k));
}

pub set_state-IsAllocated :
    (n : ℕ) (s : SandboxState) (m : Manager)
    → s.sandbox.id ≡ (m.state n).sandbox.id
    → s.sandbox.ledger_api_endpoint ≡ (m.state n).sandbox.ledger_api_endpoint
    → IsAllocated m
    → IsAllocated (set_state n s m)
unfolding set_state
set_state-IsAllocated n s m ids same h =
    endpoints-IsAllocated _ m.freed_ports m (unchanged (λ x. x.sandbox.id) ids)
      (unchanged (λ x. x.sandbox.ledger_api_endpoint) same) h
  where
    unchanged :
        (part : SandboxState → Str)
        → part s ≡ part (m.state n)
        → (i : ℕ) → part (if i == n then s else m.state i) ≡ part (m.state i)
    unchanged part kept i = elim (Bool-cases (i == n)) [
      | inl here ↦
          let e : i ≡ n = ground arith in rw here (kept ∙ ap (λ j. part (m.state j)) (sym e))
      | inr away ↦ rw away refl
    ]

-- A new state under an id, whose port no other id has.
module _ (id : Str) (s : SandboxState) (m : Manager) (p : ℕ) where
  port-register_here :
      (i : ℕ)
      → (i == m.next_state) ≡ true
      → port_of_state (register id s m) i ≡ extract_port s.sandbox.ledger_api_endpoint
  unfolding register set_state
  port-register_here i here = rw (register, here) refl

  id-register_here :
      (i : ℕ) → (i == m.next_state) ≡ true → ((register id s m).state i).sandbox.id ≡ s.sandbox.id
  unfolding register set_state
  id-register_here i here = rw (register, here) refl

  id-register_away :
      (i : ℕ)
      → (i == m.next_state) ≡ false
      → ((register id s m).state i).sandbox.id ≡ (m.state i).sandbox.id
  unfolding register set_state
  id-register_away i away = rw (register, away) refl

  port-register_away :
      (i : ℕ) → (i == m.next_state) ≡ false → port_of_state (register id s m) i ≡ port_of_state m i
  unfolding register set_state
  port-register_away i away = rw (register, away) refl

  pub register-IsAllocated :
      s.sandbox.id ≡ id
      → extract_port s.sandbox.ledger_api_endpoint ≡ integer false p
      → ((b : Str) (k : ℕ)
          → get b m.sandboxes ≡ some k
          → b ≢ id
          → port_of_state m k ≢ integer false p)
      → count_own (put id m.next_state m.sandboxes) ≤ 10
      → IsAllocated m
      → IsAllocated (register id s m)
  unfolding register set_state
  register-IsAllocated id_s port_s fresh few h = record {
    distinct = keys-put-Distinct id m.next_state m.sandboxes h.distinct;
    few = few;
    named = λ b n e. elim (Bool-cases (id === b)) [
      | inl same ↦
          let here : m.next_state ≡ n = found b n e same in
          id-register_here n (ground arith) ∙ id_s ∙ (===_iff id b).0 same
      | inr other ↦
          let old = before b n e other in
          let less : n < m.next_state = h.stored b n old in
          id-register_away n (ground arith) ∙ h.named b n old
    ];
    stored = λ b n e. elim (Bool-cases (id === b)) [
      | inl same ↦ let here : m.next_state ≡ n = found b n e same in omega arith
      | inr other ↦ let old : n < m.next_state = h.stored b n (before b n e other) in omega arith
    ];
    numbered = λ b n e. elim (Bool-cases (id === b)) [
      | inl same ↦ (p, ported b n e same)
      | inr other ↦
          let old = before b n e other in
          ((h.numbered b n old).0, unported b n old ∙ (h.numbered b n old).1)
    ];
    apart = λ a b j k e g q. elim (Bool-cases (id === a)) [
      | inl sa ↦ elim (Bool-cases (id === b)) [
        | inl sb ↦ sym ((===_iff id a).0 sa) ∙ (===_iff id b).0 sb
        | inr ob ↦ absurd (
            fresh b k (before b k g ob) (λ x. different b ob (sym x))
              (sym (unported b k (before b k g ob)) ∙ sym q ∙ ported a j e sa))
      ]
      | inr oa ↦ elim (Bool-cases (id === b)) [
        | inl sb ↦ absurd (
            fresh a j (before a j e oa) (λ x. different a oa (sym x))
              (sym (unported a j (before a j e oa)) ∙ q ∙ ported b k g sb))
        | inr ob ↦
            h.apart a b j k (before a j e oa) (before b k g ob)
              (sym (unported a j (before a j e oa)) ∙ q ∙ unported b k (before b k g ob))
      ]
    ];
  }
    where
      different : (b : Str) → (id === b) ≡ false → id ≢ b
      different b other e = ground (arith, ===_iff id b)

      found :
          (b : Str) (n : ℕ)
          → get b (put id m.next_state m.sandboxes) ≡ some n
          → (id === b) ≡ true
          → m.next_state ≡ n
      found b n e same =
          some_inj.0 (sym (get-put {V = ℕ} id b m.next_state m.sandboxes ∙ rw same refl) ∙ e)

      before :
          (b : Str) (n : ℕ)
          → get b (put id m.next_state m.sandboxes) ≡ some n
          → (id === b) ≡ false
          → get b m.sandboxes ≡ some n
      before b n e other = sym (get-put {V = ℕ} id b m.next_state m.sandboxes ∙ rw other refl) ∙ e

      ported :
          (b : Str) (n : ℕ)
          → get b (put id m.next_state m.sandboxes) ≡ some n
          → (id === b) ≡ true
          → port_of_state (register id s m) n ≡ integer false p
      ported b n e same =
          let here : m.next_state ≡ n = found b n e same in
          port-register_here n (ground arith) ∙ port_s

      unported :
          (b : Str) (n : ℕ)
          → get b m.sandboxes ≡ some n
          → port_of_state (register id s m) n ≡ port_of_state m n
      unported b n e =
          let old : n < m.next_state = h.stored b n e in port-register_away n (ground arith)
