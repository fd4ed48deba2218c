-- ===== src/Automation/Workflows/Validated.antt =====
-- A workflow that the validator accepted, with variables that it accepted.
use memovi.Prelude.{
  String, ◌≡◌, sym, inl, inr, true, not, ◌||◌, List, [], ◌∷◌, ◌++◌, str_eq, is_some, filter,
}
use memovi.Prelude.Maps.{lookup, insert}
use memovi.Prelude.Results.{ok, err, ◌>>◌, ok-then, ok-next}
use memovi.Automation.Values.{Value, Arguments, object}
use memovi.Automation.Codec.{to_entries}
use memovi.Automation.Store.{Capability}
use memovi.Automation.Workflows.Definitions.{
  WorkflowError, WorkflowVariable, WorkflowStep, WorkflowDefinition, WorkflowContext, contains,
  variable_names, step_ids,
}
use memovi.Automation.Workflows.Substitution.{substitute_value}
use memovi.Automation.Workflows.Validator.{
  Parsers, check_required, check_steps, check_outputs, validate_definition, resolve_variable,
  resolve_variables, provided_or_default, keys, refuse_unknown, validate_variables,
}
use memovi.Automation.Workflows.Resolution.{IsPathError, substitute-IsPathError}
use memovi.Automation.Workflows.Binding.{
  run_context, steps_of, run_context-Holds, steps-AreBound, or-cases, or-left, or-right,
  insert-Holds, insert_itself,
}

resolve_variables-Holds :
    (ports : Parsers) (provided : Arguments) (variables : List WorkflowVariable)
    (resolved : Arguments) {final : Arguments}
    → resolve_variables ports provided variables resolved ≡ ok final
    → (name : String)
    → (contains name (variable_names variables) || is_some (lookup name resolved)) ≡ true
    → is_some (lookup name final) ≡ true
unfolding resolve_variables
resolve_variables-Holds ports provided [] resolved {final} h name bound =
    let same : resolved ≡ final = cc in rw (sym same) bound
resolve_variables-Holds ports provided (v ∷ variables) resolved h name bound =
    ok-then (resolve_variable ports v (provided_or_default (lookup v.name provided) v.default)) h
      λ value read rest.
        resolve_variables-Holds ports provided variables (insert v.name value resolved) rest name
          (grown value)
  where
    grown :
        (value : Value)
        → (contains name (variable_names variables)
            || is_some (lookup name (insert v.name value resolved)))
          ≡ true
    grown value =
        let names = contains name (variable_names variables) in
        let now = is_some (lookup name (insert v.name value resolved)) in
        elim (or-cases (str_eq v.name name || names) (is_some (lookup name resolved)) bound) [
          | inr old ↦ or-right names now (insert-Holds v.name value resolved name old)
          | inl new ↦ elim (or-cases (str_eq v.name name) names new) [
            | inl here ↦ or-right names now (insert_itself v.name value resolved name here)
            | inr later ↦ or-left names now later
          ]
        ]

validate_variables-Holds :
    (ports : Parsers) (d : WorkflowDefinition) (provided : Arguments) {start : WorkflowContext}
    → validate_variables ports d provided ≡ ok start
    → (name : String) → contains name (variable_names d.variables) ≡ true
    → is_some (lookup name start.variables) ≡ true
unfolding validate_variables
validate_variables-Holds ports d provided {start} h name declared =
    let (_, resolved) =
      ok-next
        (refuse_unknown
          (filter (λ n. not (contains n (variable_names d.variables))) (keys provided)))
        h in
    ok-then (resolve_variables ports provided d.variables []) resolved λ final read end.
      let made : record { variables = final; step_outputs = [] } ≡ start = cc in
      rw (sym made) (
        resolve_variables-Holds ports provided d.variables [] read name (
          or-left (contains name (variable_names d.variables)) (is_some (lookup name [])) declared))

-- Where the validator accepts a definition and the variables of a run, and the steps in front of a
-- step are done with any outputs, the substitution of that step's input can fail only on a path into
-- an output: no variable and no step that it names is missing.
pub validated_input_resolves :
    (registry : List (String × Capability)) (ports : Parsers) (shown : Value → String)
    (d : WorkflowDefinition) (provided : Arguments) (done : List (WorkflowStep × Value))
    (step : WorkflowStep) (after : List WorkflowStep) {start context : WorkflowContext}
    {e : WorkflowError}
    → validate_definition registry d ≡ ok d
    → validate_variables ports d provided ≡ ok start
    → d.steps ≡ steps_of done ++ step ∷ after
    → run_context done start ≡ ok context
    → substitute_value shown context (object (to_entries step.input_mapping)) ≡ err e
    → IsPathError e
unfolding validate_definition
validated_input_resolves registry ports shown d provided done step after {start} {context} valid
      accepted order run failed =
    let (front, _) =
      ok-next
        (check_required registry d.required_capabilities
          >> check_steps registry (variable_names d.variables) [] d.steps
          >> check_outputs d.expected_outputs)
        valid in
    let (most, _) =
      ok-next
        (check_required registry d.required_capabilities
          >> check_steps registry (variable_names d.variables) [] d.steps)
        front in
    let (_, steps) = ok-next (check_required registry d.required_capabilities) most in
    let (variables, outputs) = run_context-Holds done start run in
    let bound =
      steps-AreBound context (variable_names d.variables)
        (λ name declared.
          variables name (validate_variables-Holds ports d provided accepted name declared))
        registry [] done step after (λ name none_known. absurd cc)
        (λ name is_done. outputs name (
          or-left (contains name (step_ids (steps_of done)))
            (is_some (lookup name start.step_outputs)) is_done))
        (rw order at steps) in
    substitute-IsPathError context shown (object (to_entries step.input_mapping)) bound failed
