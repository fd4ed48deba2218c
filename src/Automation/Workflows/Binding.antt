-- ===== src/Automation/Workflows/Binding.antt =====
-- What a run's context holds: the declared variables, and the outputs of the steps that are done.
use memovi.Prelude.{
  String, ◌≡◌, refl, sym, ◌⊎◌, inl, inr, Bool, true, false, ◌||◌, List, [], ◌∷◌, ◌++◌, arith,
  str_eq, text-cases, Bool-cases, is_some,
}
use memovi.Prelude.Strings.{strip}
use memovi.Prelude.Maps.{lookup, insert, lookup-insert}
use memovi.Prelude.Results.{Result, ok, ◌>>=◌, ◌>>◌, ok-then, require, ok-next}
use memovi.Automation.Values.{Value, Arguments, object}
use memovi.Automation.Codec.{to_entries}
use memovi.Automation.Store.{Capability}
use memovi.Automation.Workflows.References.{
  Target, step_output, variable_name, target, collect_refs,
}
use memovi.Automation.Workflows.Definitions.{
  WorkflowError, unknown_capability, unsupported_operation, WorkflowStep, WorkflowContext, contains,
  step_ids, with_step_output, with_bound_values, update_all,
}
use memovi.Automation.Workflows.Substitution.{read_bindings, bind_completed_step}
use memovi.Automation.Workflows.Validator.{
  check_target, check_references, check_steps, supports_operation,
}
use memovi.Automation.Workflows.Resolution.{IsBound, AreBound}

-- Each of some names has a value.
abbrev pub Holds : (String → Bool) → Arguments → Type 0
Holds among items = (name : String) → among name ≡ true → is_some (lookup name items) ≡ true

pub insert-Holds :
    (key : String) (v : Value) (items : Arguments) (name : String)
    → is_some (lookup name items) ≡ true
    → is_some (lookup name (insert key v items)) ≡ true
insert-Holds key v items name h =
    rw (lookup-insert name key v items)
      (elim (Bool-cases (str_eq key name)) [ inl e ↦ rw e refl | inr e ↦ rw e h ])

pub insert_itself :
    (key : String) (v : Value) (items : Arguments) (name : String)
    → str_eq key name ≡ true
    → is_some (lookup name (insert key v items)) ≡ true
insert_itself key v items name h = rw (lookup-insert name key v items, h) refl

update_all-Holds :
    (values items : Arguments) (name : String)
    → is_some (lookup name items) ≡ true
    → is_some (lookup name (update_all values items)) ≡ true
unfolding update_all
update_all-Holds [] items name h = h
update_all-Holds ((key, v) ∷ values) items name h =
    update_all-Holds values (insert key v items) name (insert-Holds key v items name h)

-- The context after some steps with their outputs.
unfoldable pub run_context :
    List (WorkflowStep × Value) → WorkflowContext → Result WorkflowError WorkflowContext
run_context [] context = ok context
run_context ((step, output) ∷ done) context =
    bind_completed_step step output context >>= run_context done

abbrev pub steps_of : List (WorkflowStep × Value) → List WorkflowStep
steps_of [] = []
steps_of ((step, output) ∷ done) = step ∷ steps_of done

bound_after :
    (step : WorkflowStep) (output : Value) (context : WorkflowContext) {after : WorkflowContext}
    → bind_completed_step step output context ≡ ok after
    → ((name : String)
        → is_some (lookup name context.variables) ≡ true
        → is_some (lookup name after.variables) ≡ true)
      × ((name : String)
          → (str_eq step.step_id name || is_some (lookup name context.step_outputs)) ≡ true
          → is_some (lookup name after.step_outputs) ≡ true)
unfolding bind_completed_step with_bound_values with_step_output
bound_after step output context {after} h =
    ok-then (read_bindings output step.output_mapping) h λ bindings read end.
      let made : record {
        variables = update_all bindings context.variables;
        step_outputs = insert step.step_id output context.step_outputs;
      }
          ≡ after =
        cc in
      rw (sym made) (
        update_all-Holds bindings context.variables,
        λ name either. elim (Bool-cases (str_eq step.step_id name)) [
          | inl e ↦ insert_itself step.step_id output context.step_outputs name e
          | inr e ↦ insert-Holds step.step_id output context.step_outputs name (rw e at either)
        ],
      )

pub or-cases : (a b : Bool) → (a || b) ≡ true → (a ≡ true) ⊎ (b ≡ true)
or-cases true b h = inl refl
or-cases false b h = inr h

pub or-left : (a b : Bool) → a ≡ true → (a || b) ≡ true
or-left true b h = refl
or-left false b h = cc

pub or-right : (a b : Bool) → b ≡ true → (a || b) ≡ true
or-right true b h = refl
or-right false b h = h

-- The variables of the start stay bound, and each step that is done has an output.
pub run_context-Holds :
    (done : List (WorkflowStep × Value)) (context : WorkflowContext) {final : WorkflowContext}
    → run_context done context ≡ ok final
    → ((name : String)
        → is_some (lookup name context.variables) ≡ true
        → is_some (lookup name final.variables) ≡ true)
      × ((name : String)
          → (contains name (step_ids (steps_of done)) || is_some (lookup name context.step_outputs))
            ≡ true
          → is_some (lookup name final.step_outputs) ≡ true)
unfolding run_context
run_context-Holds [] context {final} h =
    let same : context ≡ final = cc in rw (sym same) (λ name bound. bound, λ name bound. bound)
run_context-Holds ((step, output) ∷ done) context {final} h =
    ok-then (bind_completed_step step output context) h λ next bound rest.
      let (variables, outputs) = bound_after step output context bound in
      let (variables', outputs') = run_context-Holds done next rest in
      (
        λ name there. variables' name (variables name there),
        λ name either. outputs' name (later next name outputs either),
      )
  where
    later :
        (next : WorkflowContext) (name : String)
        → ((n : String)
            → (str_eq step.step_id n || is_some (lookup n context.step_outputs)) ≡ true
            → is_some (lookup n next.step_outputs) ≡ true)
        → ((str_eq step.step_id name || contains name (step_ids (steps_of done)))
            || is_some (lookup name context.step_outputs))
          ≡ true
        → (contains name (step_ids (steps_of done)) || is_some (lookup name next.step_outputs))
          ≡ true
    later next name outputs either =
        let ids = contains name (step_ids (steps_of done)) in
        let there = is_some (lookup name next.step_outputs) in
        let old = is_some (lookup name context.step_outputs) in
        elim (or-cases (str_eq step.step_id name || ids) old either) [
          | inr was ↦
              or-right ids there (outputs name (or-right (str_eq step.step_id name) old was))
          | inl new ↦ elim (or-cases (str_eq step.step_id name) ids new) [
            | inl here ↦
                or-right ids there (outputs name (or-left (str_eq step.step_id name) old here))
            | inr after ↦ or-left ids there after
          ]
        ]

-- The checks of one step: of its capability, and those of its references too.
abbrev registered : List (String × Capability) → WorkflowStep → Result WorkflowError (Unit {0})
registered registry step =
    require (unknown_capability step.capability_id)
      (is_some (lookup (strip step.capability_id) registry))
    >> require (unsupported_operation step.step_id step.operation)
        (supports_operation step.operation (lookup (strip step.capability_id) registry))

module _ (context : WorkflowContext) (declared : List String)
    (variables : (name : String)
      → contains name declared ≡ true
      → is_some (lookup name context.variables) ≡ true) where
  target-IsBound :
      (step_id : String) (known : List String) (ref : String) (t : Target)
      → ((name : String)
          → contains name known ≡ true
          → is_some (lookup name context.step_outputs) ≡ true)
      → check_target step_id declared known ref t ≡ ok tt
      → IsBound context ref t
  target-IsBound step_id known ref variable_name outputs h =
      variables ref (elim (Bool-cases (contains ref declared)) [
        | inl e ↦ e
        | inr e ↦ absurd (ground (arith, rw e at h))
      ])
  target-IsBound step_id known ref (step_output dep path) outputs h = elim (text-cases dep "") [
    | inl (b, _) ↦ absurd (ground (arith, rw b at h))
    | inr (b, n) ↦ (
      n,
      outputs dep (elim (Bool-cases (contains dep known)) [
        | inl e ↦ e
        | inr e ↦ absurd (ground (arith, rw (b, e) at h))
      ]),
    )
  ]

  references-AreBound :
      (step_id : String) (known refs : List String)
      → ((name : String)
          → contains name known ≡ true
          → is_some (lookup name context.step_outputs) ≡ true)
      → check_references step_id declared known refs ≡ ok tt
      → AreBound context refs
  unfolding check_references
  references-AreBound step_id known [] outputs h = tt
  references-AreBound step_id known (ref ∷ refs) outputs h =
      let (checked, rest) = ok-next (check_target step_id declared known ref (target ref)) h in
      (
        target-IsBound step_id known ref (target ref) outputs checked,
        references-AreBound step_id known refs outputs rest,
      )

  abbrev checks :
      List (String × Capability) → List String → WorkflowStep → Result WorkflowError (Unit {0})
  checks registry known step =
      registered registry step
      >> check_references step.step_id declared known
          (collect_refs (object (to_entries step.input_mapping)))

  pub steps-AreBound :
      (registry : List (String × Capability)) (known : List String)
      (done : List (WorkflowStep × Value)) (step : WorkflowStep) (after : List WorkflowStep)
      → ((name : String)
          → contains name known ≡ true
          → is_some (lookup name context.step_outputs) ≡ true)
      → ((name : String)
          → contains name (step_ids (steps_of done)) ≡ true
          → is_some (lookup name context.step_outputs) ≡ true)
      → check_steps registry declared known (steps_of done ++ step ∷ after) ≡ ok tt
      → AreBound context (collect_refs (object (to_entries step.input_mapping)))
  unfolding check_steps
  steps-AreBound registry known [] step after outputs before h =
      let (front, _) = ok-next (checks registry known step) h in
      references-AreBound step.step_id known (collect_refs (object (to_entries step.input_mapping)))
        outputs (ok-next (registered registry step) front).1
  steps-AreBound registry known ((first, output) ∷ done) step after outputs before h =
      let (_, rest) = ok-next (checks registry known first) h in
      steps-AreBound registry (first.step_id ∷ known) done step after grown
        (λ name there.
          before name
            (or-right (str_eq first.step_id name) (contains name (step_ids (steps_of done))) there))
        rest
    where
      grown :
          (name : String)
          → (str_eq first.step_id name || contains name known) ≡ true
          → is_some (lookup name context.step_outputs) ≡ true
      grown name either = elim (or-cases (str_eq first.step_id name) (contains name known) either) [
        | inl here ↦
            before name
              (or-left (str_eq first.step_id name) (contains name (step_ids (steps_of done))) here)
        | inr old ↦ outputs name old
      ]
