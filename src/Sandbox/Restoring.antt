-- ===== src/Sandbox/Restoring.antt =====
-- The start of the server: registerDemoSandbox and restoreSandboxes of sandbox-manager.ts, with the file
-- that persistSandboxes wrote.
use mathlib.Core.Path.{subst}
use mathlib.Core.Option.{some_inj}
use cantontrace.Base.{
  ℕ, ◌+◌, ◌≤◌, ◌<◌, ◌≡◌, ◌⊎◌, inl, inr, refl, sym, ap, ◌∙◌, List, [], ◌∷◌, none, some, Str, Bool,
  true, false, ◌==◌, if◌then◌else◌, map, All, Bool-cases, arith, Distinct, ◌===◌, ===_iff, ===_refl,
  includes,
}
use cantontrace.Base.Lookup.{keys, get, put, get-put, get-eq-none, keys-put-Distinct}
use cantontrace.Sandbox.{
  Number, extract_port, Manager, Sandbox, SandboxState, running, stopped, set_state, register,
  Persisted, demo_sandbox_id, restore_sandboxes,
}
use cantontrace.Sandbox.Capacity.{port_of_state, count_own}
use cantontrace.Sandbox.Counting.{count_own-put}

-- Managers all of whose sandboxes have ports that `Port` allows for their ids.
module _ (Port : Str → Number → Type 0) where
  abbrev pub HasPort : Sandbox → Type 0
  HasPort s = Port s.id (extract_port s.ledger_api_endpoint)

  pub record Fits (m : Manager) : Type 0 where
    pub distinct : Distinct (keys m.sandboxes)
    pub stored : (id : Str) (n : ℕ) → get id m.sandboxes ≡ some n → n < m.next_state
    pub named : (id : Str) (n : ℕ) → get id m.sandboxes ≡ some n → (m.state n).sandbox.id ≡ id
    pub ported : (id : Str) (n : ℕ) → get id m.sandboxes ≡ some n → Port id (port_of_state m n)

  pub register-Fits :
      (s : SandboxState) (m : Manager)
      → HasPort s.sandbox
      → Fits m
      → Fits (register s.sandbox.id s m)
  unfolding register set_state
  register-Fits s m p h = record {
    distinct = keys-put-Distinct id m.next_state m.sandboxes h.distinct;
    stored = λ b n e. elim (look b n e) [
      | inl (same, here) ↦ omega arith
      | inr (less, old) ↦ omega arith
    ];
    named = λ b n e. elim (look b n e) [
      | inl (same, here) ↦ let at : (n == m.next_state) ≡ true = ground arith in rw at same
      | inr (less, old) ↦
          let away : (n == m.next_state) ≡ false = ground arith in rw away (h.named b n old)
    ];
    ported = λ b n e. elim (look b n e) [
      | inl (same, here) ↦
          let at : (n == m.next_state) ≡ true = ground arith in
          rw at (subst (λ x. Port x (extract_port s.sandbox.ledger_api_endpoint)) same p)
      | inr (less, old) ↦
          let away : (n == m.next_state) ≡ false = ground arith in rw away (h.ported b n old)
    ];
  }
    where
      id : Str
      id = s.sandbox.id

      look :
          (b : Str) (n : ℕ)
          → get b (put id m.next_state m.sandboxes) ≡ some n
          → ((id ≡ b) × (m.next_state ≡ n)) ⊎ ((n < m.next_state) × (get b m.sandboxes ≡ some n))
      look b n e = elim (Bool-cases (id === b)) [
        | inl same ↦ inl (
          (===_iff id b).0 same,
          some_inj.0 (sym (get-put {V = ℕ} id b m.next_state m.sandboxes ∙ rw same refl) ∙ e),
        )
        | inr other ↦
            let old : get b m.sandboxes ≡ some n =
              sym (get-put {V = ℕ} id b m.next_state m.sandboxes ∙ rw other refl) ∙ e in
            inr (h.stored b n old, old)
      ]

  pub restore_sandboxes-Fits :
      (alive : Number → Bool) (l : List Persisted) (m : Manager)
      → All (λ p. HasPort p.sandbox) l
      → Fits m
      → Fits (restore_sandboxes alive l m)
  unfolding restore_sandboxes
  restore_sandboxes-Fits alive [] m ports h = h
  restore_sandboxes-Fits alive (p ∷ l) m (port, ports) h =
      restore_sandboxes-Fits alive l _ ports (register-Fits _ m port h)

-- How many sandboxes of the file are not the demo sandbox.
abbrev pub count_persisted : List Persisted → ℕ
count_persisted [] = 0
count_persisted (p ∷ l) =
    if p.sandbox.id === demo_sandbox_id then count_persisted l else count_persisted l + 1

pub count_own-restore_sandboxes :
    (alive : Number → Bool) (l : List Persisted) (m : Manager)
    → count_own (restore_sandboxes alive l m).sandboxes ≤ count_own m.sandboxes + count_persisted l
unfolding restore_sandboxes register set_state
count_own-restore_sandboxes alive [] m = omega arith
count_own-restore_sandboxes alive (p ∷ l) m = ground (
  arith,
  count_own-restore_sandboxes alive l (
      register p.sandbox.id
        (record {
          sandbox = record p.sandbox {
            status =
                if alive (extract_port p.sandbox.ledger_api_endpoint) then running else stopped;
          };
          process_handle = none;
          original_request = p.original_request;
        })
        m),
  count_own-put p.sandbox.id m.next_state m.sandboxes,
)

-- What holds of the state of each id holds of each state in the order of the map.
tail_found :
    (j : Str) (k : ℕ) (l : List (Str × ℕ)) (b : Str) (i : ℕ)
    → includes j (keys l) ≡ false
    → get b l ≡ some i
    → get b ((j, k) ∷ l) ≡ some i
unfolding get
tail_found j k l b i p e = elim (Bool-cases (j === b)) [
  | inl same ↦
      let gone : get b l ≡ none =
        ap (λ x. get x l) (sym ((===_iff j b).0 same)) ∙ get-eq-none j l p in
      cc
  | inr other ↦ rw other e
]

head_found : (j : Str) (k : ℕ) (l : List (Str × ℕ)) → get j ((j, k) ∷ l) ≡ some k
unfolding get
head_found j k l = rw (===_refl j) refl

pub All-persisted :
    (P : Persisted → Type 0) (f : ℕ → Persisted) (l : List (Str × ℕ))
    → Distinct (keys l)
    → ((b : Str) (i : ℕ) → get b l ≡ some i → P (f i))
    → All P (map (λ e. f e.1) l)
All-persisted P f [] d h = tt
All-persisted P f ((j, k) ∷ l) (p, d) h =
    (h j k (head_found j k l), All-persisted P f l d (λ b i e. h b i (tail_found j k l b i p e)))

pub count_persisted-own :
    (f : ℕ → Persisted) (l : List (Str × ℕ))
    → Distinct (keys l)
    → ((b : Str) (i : ℕ) → get b l ≡ some i → (f i).sandbox.id ≡ b)
    → count_persisted (map (λ e. f e.1) l) ≡ count_own l
count_persisted-own f [] d h = refl
count_persisted-own f ((j, k) ∷ l) (p, d) h =
    let same : (f k).sandbox.id ≡ j = h j k (head_found j k l) in
    let rest = count_persisted-own f l d (λ b i e. h b i (tail_found j k l b i p e)) in
    rw (same, rest) refl
