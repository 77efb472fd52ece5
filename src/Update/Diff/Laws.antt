-- ===== src/Update/Diff/Laws.antt =====
-- The two sides of `computeStateDiff` (update-service.ts), without the lookup table.
use cantontrace.Base.{
  ◌≡◌, refl, sym, ap, ◌∙◌, List, [], ◌∷◌, ◌++◌, Option, none, some, Str, map, arith, if◌then◌else◌,
  ◌===◌, append_assoc, append-nil, length, length-map, text, Bool-cases, inl, inr,
}
use cantontrace.Base.Lookup.{get, put, get-put, values}
use cantontrace.Runtime.Decimal.{decimal}
use cantontrace.Ledger.{
  CreatedEvent, LedgerEvent, TemplateId, ActiveContract, created, archived, exercised, assigned,
  unassigned,
}
use cantontrace.Update.Diff.{
  created_by_contract_id, output_of, input_of, Sides, diff_step, diff_loop, compute_state_diff,
}

-- The create events, in order.
unfoldable pub creates : List LedgerEvent → List CreatedEvent
creates [] = []
creates (created c ∷ es) = c ∷ creates es
creates (archived a ∷ es) = creates es
creates (exercised e ∷ es) = creates es
creates (assigned a ∷ es) = creates es
creates (unassigned u ∷ es) = creates es

-- The archived contracts and those of consuming exercises, in order.
unfoldable pub consumed : List LedgerEvent → List (Str × TemplateId)
consumed [] = []
consumed (created c ∷ es) = consumed es
consumed (archived a ∷ es) = (a.contract_id, a.template_id) ∷ consumed es
consumed (exercised e ∷ es) =
    if e.consuming then (e.contract_id, e.template_id) ∷ consumed es else consumed es
consumed (assigned a ∷ es) = consumed es
consumed (unassigned u ∷ es) = consumed es

-- The last create event of a contract.
unfoldable pub last_create : Str → List CreatedEvent → Option CreatedEvent
last_create id [] = none
last_create id (c ∷ cs) = elim (last_create id cs) [
  | some d ↦ some d
  | none ↦ if c.contract_id === id then some c else none
]

abbrev or_get {ℓ} : {V : Type ℓ} → Option V → Option V → Option V
or_get (some v) o = some v
or_get none o = o

get-created_by_contract_id :
    (id : Str) (es : List LedgerEvent) (m : List (Str × CreatedEvent))
    → get id (created_by_contract_id es m) ≡ or_get (last_create id (creates es)) (get id m)
unfolding created_by_contract_id creates last_create
get-created_by_contract_id id [] m = refl
get-created_by_contract_id id (created c ∷ es) m =
    ground (
      arith,
      get-created_by_contract_id id es (put c.contract_id c m),
      get-put c.contract_id id c m,
    )
get-created_by_contract_id id (archived a ∷ es) m = get-created_by_contract_id id es m
get-created_by_contract_id id (exercised e ∷ es) m = get-created_by_contract_id id es m
get-created_by_contract_id id (assigned a ∷ es) m = get-created_by_contract_id id es m
get-created_by_contract_id id (unassigned u ∷ es) m = get-created_by_contract_id id es m

outputs-diff_loop :
    (m : List (Str × CreatedEvent)) (es : List LedgerEvent) (s : Sides)
    → (diff_loop m es s).outputs ≡ s.outputs ++ map output_of (creates es)
unfolding diff_loop diff_step creates
outputs-diff_loop m [] s = sym (append-nil s.outputs)
outputs-diff_loop m (created c ∷ es) s =
    outputs-diff_loop m es _ ∙ append_assoc s.outputs (output_of c ∷ []) _
outputs-diff_loop m (archived a ∷ es) s = outputs-diff_loop m es _
outputs-diff_loop m (exercised e ∷ es) s = elim (Bool-cases e.consuming) [
  | inl yes' ↦ simp yes' (outputs-diff_loop m es _)
  | inr no' ↦ simp no' (outputs-diff_loop m es s)
]
outputs-diff_loop m (assigned a ∷ es) s = outputs-diff_loop m es _
outputs-diff_loop m (unassigned u ∷ es) s = outputs-diff_loop m es _

abbrev input_in : List (Str × CreatedEvent) → Str × TemplateId → ActiveContract
input_in m (id, t) = input_of id t (get id m)

inputs-diff_loop :
    (m : List (Str × CreatedEvent)) (es : List LedgerEvent) (s : Sides)
    → (diff_loop m es s).inputs ≡ s.inputs ++ map (input_in m) (consumed es)
unfolding diff_loop diff_step consumed
inputs-diff_loop m [] s = sym (append-nil s.inputs)
inputs-diff_loop m (created c ∷ es) s = inputs-diff_loop m es _
inputs-diff_loop m (archived a ∷ es) s =
    inputs-diff_loop m es _
    ∙ append_assoc s.inputs (input_of a.contract_id a.template_id (get a.contract_id m) ∷ []) _
inputs-diff_loop m (exercised e ∷ es) s = elim (Bool-cases e.consuming) [
  | inl yes' ↦ simp yes' (
      inputs-diff_loop m es _
      ∙ append_assoc s.inputs (input_of e.contract_id e.template_id (get e.contract_id m) ∷ []) _)
  | inr no' ↦ simp no' (inputs-diff_loop m es s)
]
inputs-diff_loop m (assigned a ∷ es) s = inputs-diff_loop m es _
inputs-diff_loop m (unassigned u ∷ es) s = inputs-diff_loop m es _

abbrev last_created_in : List LedgerEvent → Str × TemplateId → ActiveContract
last_created_in es (id, t) = input_of id t (last_create id (creates es))

map-input_in :
    (es : List LedgerEvent) (l : List (Str × TemplateId))
    → map (input_in (created_by_contract_id es [])) l ≡ map (last_created_in es) l
unfolding get
map-input_in es [] = refl
map-input_in es ((id, t) ∷ l) =
    ground (arith, get-created_by_contract_id id es [], map-input_in es l)

-- A created contract, as it is shown.
abbrev pub shown : CreatedEvent → ActiveContract
shown c = record {
  contract_id = c.contract_id;
  template_id = c.template_id;
  payload = c.payload;
  signatories = c.signatories;
  observers = c.observers;
  created_at = [];
}

-- A consumed contract: as its create event shows it, under the template of the event that consumed it, or
-- with nothing in it.
abbrev pub shown_with : Str → TemplateId → Option CreatedEvent → ActiveContract
shown_with id t (some c) = record (shown c) { contract_id = id; template_id = t }
shown_with id t none = record {
  contract_id = id;
  template_id = t;
  payload = [];
  signatories = [];
  observers = [];
  created_at = [];
}

input_of_lem :
    (id : Str) (t : TemplateId) (o : Option CreatedEvent) → input_of id t o ≡ shown_with id t o
unfolding input_of
input_of_lem id t none = refl
input_of_lem id t (some c) = refl

map-output_of : (l : List CreatedEvent) → map output_of l ≡ map shown l
unfolding output_of
map-output_of [] = refl
map-output_of (c ∷ l) = ap (◌∷◌ (shown c)) (map-output_of l)

map-last_created_in :
    (es : List LedgerEvent) (l : List (Str × TemplateId))
    → map (last_created_in es) l ≡ map (λ c. shown_with c.0 c.1 (last_create c.0 (creates es))) l
map-last_created_in es [] = refl
map-last_created_in es ((id, t) ∷ l) =
    let head = input_of_lem id t (last_create id (creates es)) in
    let tail = map-last_created_in es l in cc

-- The outputs are the created contracts, each with its id, template, payload, signatories and observers.
-- The inputs are the archived contracts and those of consuming exercises, each with its id and template
-- and with the payload, the signatories and the observers of the last create event of that contract in
-- the transaction, or with none of them if it has no create event there. Both are in the order of the
-- events, and the summary tells how many they are.
pub compute_state_diff-sides :
    (o : List (Str × LedgerEvent))
    → ((compute_state_diff o).outputs ≡ map shown (creates (values o)))
      × ((compute_state_diff o).inputs
          ≡ map
              (λ c. shown_with c.0 c.1 (last_create c.0 (creates (values o))))
              (consumed (values o)))
      × ((compute_state_diff o).net_change
          ≡ decimal (length (creates (values o)))
            ++ text " created, "
            ++ decimal (length (consumed (values o)))
            ++ text " consumed")
unfolding compute_state_diff
compute_state_diff-sides o =
    let outputs : (compute_state_diff o).outputs ≡ map shown (creates (values o)) =
      outputs-diff_loop _ (values o) _ ∙ map-output_of (creates (values o)) in
    let inputs : (compute_state_diff o).inputs
        ≡ map (λ c. shown_with c.0 c.1 (last_create c.0 (creates (values o))))
            (consumed (values o)) =
      inputs-diff_loop _ (values o) _
      ∙ map-input_in (values o) (consumed (values o))
      ∙ map-last_created_in (values o) (consumed (values o)) in
    let created_count = ap length outputs ∙ length-map shown (creates (values o)) in
    let consumed_count =
      ap length inputs
      ∙ length-map (λ c. shown_with c.0 c.1 (last_create c.0 (creates (values o))))
          (consumed (values o)) in
    (
      outputs,
      inputs,
      ap
            (λ n.
              decimal n
              ++ text " created, "
              ++ decimal (length (compute_state_diff o).inputs)
              ++ text " consumed")
            created_count
          ∙ ap
              (λ n.
                decimal (length (creates (values o)))
                ++ text " created, "
                ++ decimal n
                ++ text " consumed")
              consumed_count,
    )
