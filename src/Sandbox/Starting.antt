-- ===== src/Sandbox/Starting.antt =====
-- What a start of the server (main of api-gateway/src/server.ts) makes of the sandboxes that were there.
use mathlib.Core.Path.{subst}
use mathlib.Core.Option.{some_inj}
use cantontrace.Base.{
  ℕ, ◌≡◌, ◌≢◌, ◌⊎◌, inl, inr, refl, sym, ap, ◌∙◌, List, [], ◌∷◌, Option, none, some, Str, Bool,
  false, All, Bool-cases, arith, ◌===◌, ===_iff, ===_ne,
}
use cantontrace.Base.Lookup.{get, put, delete, get-delete}
use cantontrace.Sandbox.{
  Number, integer, has_port, used_ports, extract_port, Manager, SandboxState, stopped, set_state,
  register, Persisted, demo_sandbox_id, register_demo_sandbox, persist_sandboxes, restore_sandboxes,
}
use cantontrace.Sandbox.Capacity.{IsAllocated, port_of_state, count_own}
use cantontrace.Sandbox.Calls.{absent}
use cantontrace.Sandbox.Restoring.{
  HasPort, Fits, register-Fits, restore_sandboxes-Fits, count_own-restore_sandboxes, All-persisted,
  count_persisted-own,
}

-- The manager of a process that has just begun.
abbrev pub no_sandboxes : Manager
no_sandboxes = record {
  sandboxes = [];
  state = λ _. record {
    sandbox = record {
      id = [];
      name = none;
      status = stopped;
      ledger_api_endpoint = [];
      created_at = [];
      parties = [];
      uploaded_dars = [];
      profiling_enabled = false;
      share_url = none;
      is_demo = false;
    };
    process_handle = none;
    original_request = none;
  };
  next_state = 0;
  freed_ports = [];
}

-- The sandboxes before the server listens: the demo sandbox and those of the file.
unfoldable pub start_sandboxes :
    Option Str → Bool → List Str → Str → (Number → Bool) → List Persisted → Manager
start_sandboxes endpoint reachable parties now alive persisted =
    restore_sandboxes alive persisted
      (register_demo_sandbox endpoint reachable parties now no_sandboxes)

-- A port that an id had before the start, or that of the endpoint of the demo sandbox.
abbrev PortIn : Manager → Option ℕ → Str → Number → Type 0
PortIn m demo id q =
    ((k : ℕ) × (get id m.sandboxes ≡ some k) × (port_of_state m k ≡ q))
    ⊎ ((id ≡ demo_sandbox_id) × ((p : ℕ) × (demo ≡ some p) × (q ≡ integer false p)))

module _ (m : Manager) (demo : Option ℕ) (h : IsAllocated m) where
  PortIn-numbered : (id : Str) (q : Number) → PortIn m demo id q → (p : ℕ) × (q ≡ integer false p)
  PortIn-numbered id q (inl (k, e, at)) = let n = h.numbered id k e in (n.0, sym at ∙ n.1)
  PortIn-numbered id q (inr (e, (p, d, at))) = (p, at)

  persisted-PortIn : All (λ p. HasPort (PortIn m demo) p.sandbox) (persist_sandboxes m)
  unfolding persist_sandboxes
  persisted-PortIn =
      All-persisted (λ p. HasPort (PortIn m demo) p.sandbox) _ m.sandboxes h.distinct
        (λ b i e. inl (i, ap (λ x. get x m.sandboxes) (h.named b i e) ∙ e, refl))

  -- The port of the endpoint is no port of another sandbox.
  module _
      (clear : (p : ℕ)
        → demo ≡ some p
        → (b : Str) (k : ℕ) → get b m.sandboxes ≡ some k
        → b ≢ demo_sandbox_id
        → port_of_state m k ≢ integer false p) where
    only_demo :
        (b : Str) (k p : ℕ)
        → demo ≡ some p
        → get b m.sandboxes ≡ some k
        → port_of_state m k ≡ integer false p
        → b ≡ demo_sandbox_id
    only_demo b k p d e at = elim (Bool-cases (b === demo_sandbox_id)) [
      | inl same ↦ (===_iff b demo_sandbox_id).0 same
      | inr other ↦ absurd (clear p d b k e (λ x. ground (arith, ===_iff b demo_sandbox_id)) at)
    ]

    PortIn-apart : (a b : Str) (q : Number) → PortIn m demo a q → PortIn m demo b q → a ≡ b
    PortIn-apart a b q (inl (j, e, at)) (inl (k, g, there)) = h.apart a b j k e g (at ∙ sym there)
    PortIn-apart a b q (inl (j, e, at)) (inr (s, (p, d, there))) =
        only_demo a j p d e (at ∙ there) ∙ sym s
    PortIn-apart a b q (inr (s, (p, d, there))) (inl (k, g, at)) =
        s ∙ sym (only_demo b k p d g (at ∙ there))
    PortIn-apart a b q (inr (s, x)) (inr (t, y)) = s ∙ sym t

    restored-IsAllocated :
        (alive : Number → Bool) (first : Manager)
        → Fits (PortIn m demo) first
        → count_own first.sandboxes ≡ 0
        → IsAllocated (restore_sandboxes alive (persist_sandboxes m) first)
    unfolding persist_sandboxes
    restored-IsAllocated alive first f none_own =
        let g =
          restore_sandboxes-Fits (PortIn m demo) alive (persist_sandboxes m) first persisted-PortIn
            f in
        record {
          distinct = g.distinct;
          few =
              let few = h.few in
              omega (
                arith,
                count_own-restore_sandboxes alive (persist_sandboxes m) first,
                count_persisted-own
                    (λ k. record {
                      sandbox = (m.state k).sandbox;
                      original_request = (m.state k).original_request;
                    })
                    m.sandboxes h.distinct h.named,
                none_own,
              );
          named = g.named;
          stored = g.stored;
          numbered = λ id n e. PortIn-numbered id _ (g.ported id n e);
          apart = λ a b j k e i p.
              PortIn-apart a b _ (g.ported a j e)
                (subst (PortIn m demo b) (sym p) (g.ported b k i));
        }

no_sandboxes-Fits : (Port : Str → Number → Type 0) → Fits Port no_sandboxes
unfolding get
no_sandboxes-Fits Port = record {
  distinct = tt;
  stored = λ id n e. absurd (nothing e);
  named = λ id n e. absurd (nothing e);
  ported = λ id n e. absurd (nothing e);
}
  where
    nothing : {n : ℕ} → none ≡ some n → ⊥
    nothing e = cc

count_own-demo :
    (s : SandboxState) → count_own (register demo_sandbox_id s no_sandboxes).sandboxes ≡ 0
unfolding register set_state put ◌===◌
count_own-demo s = refl

-- A start without a demo sandbox.
pub start_sandboxes-IsAllocated :
    (reachable : Bool) (parties : List Str) (now : Str) (alive : Number → Bool) (m : Manager)
    → IsAllocated m
    → IsAllocated (start_sandboxes none reachable parties now alive (persist_sandboxes m))
unfolding start_sandboxes register_demo_sandbox
start_sandboxes-IsAllocated reachable parties now alive m h =
    restored-IsAllocated m none h (λ p e. absurd (nothing e)) alive no_sandboxes
      (no_sandboxes-Fits (PortIn m none)) refl
  where
    nothing : {n : ℕ} → none ≡ some n → ⊥
    nothing e = cc

-- A start with one, whose endpoint names a port that no other sandbox had.
pub start_sandboxes-demo-IsAllocated :
    (endpoint : Str) (reachable : Bool) (parties : List Str) (now : Str) (alive : Number → Bool)
    (m : Manager) (p : ℕ)
    → extract_port endpoint ≡ integer false p
    → has_port
        (integer false p)
        (used_ports (record m { sandboxes = delete demo_sandbox_id m.sandboxes }))
      ≡ false
    → IsAllocated m
    → IsAllocated
        (start_sandboxes (some endpoint) reachable parties now alive (persist_sandboxes m))
unfolding start_sandboxes register_demo_sandbox used_ports
start_sandboxes-demo-IsAllocated [] reachable parties now alive m p e free h =
    start_sandboxes-IsAllocated reachable parties now alive m h
start_sandboxes-demo-IsAllocated (c ∷ endpoint) reachable parties now alive m p e free h =
    restored-IsAllocated m (some p) h clear alive _
      (register-Fits (PortIn m (some p)) _ no_sandboxes (inr (refl, (p, refl, e)))
        (no_sandboxes-Fits (PortIn m (some p))))
      (count_own-demo _)
  where
    clear :
        (r : ℕ)
        → some p ≡ some r
        → (b : Str) (k : ℕ) → get b m.sandboxes ≡ some k
        → b ≢ demo_sandbox_id
        → port_of_state m k ≢ integer false r
    clear r same b k found other =
        let kept : get b (delete demo_sandbox_id m.sandboxes) ≡ some k =
          get-delete demo_sandbox_id b m.sandboxes h.distinct
          ∙ rw (===_ne demo_sandbox_id b (λ x. other (sym x))) found in
        λ at.
          absent (port_of_state m) p (delete demo_sandbox_id m.sandboxes) b k free kept
            (at ∙ ap (integer false) (sym (some_inj.0 same)))
