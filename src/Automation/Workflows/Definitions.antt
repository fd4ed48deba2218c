-- ===== src/Automation/Workflows/Definitions.antt =====
-- packages/automation/src/memovi_automation/domain/value_objects/workflow.py: variables, steps and
-- definitions, and the context of a run. Descriptions, free-form metadata and times are left out.
use memovi.Prelude.{
  ℕ, String, Bool, true, false, ◌||◌, not, Option, none, some, List, [], ◌∷◌, map, filter, str_eq,
  ltb, if◌then◌else◌,
}
use memovi.Prelude.Maps.{insert}
use memovi.Prelude.Strings.{strip}
use memovi.Prelude.Results.{Result, ok, err}
use memovi.Automation.Values.{Value, Arguments}

-- InvalidWorkflowError: the codes, with what is named in the message.
pub data WorkflowError : Type 0 where
  invalid_workflow : WorkflowError
  invalid_variable : String → WorkflowError
  invalid_step : String → WorkflowError
  empty_workflow : WorkflowError
  invalid_version : WorkflowError
  duplicate_step_id : WorkflowError
  duplicate_variable : WorkflowError
  unknown_capability : String → WorkflowError
  unsupported_operation : String → String → WorkflowError
  invalid_reference : String → String → WorkflowError
  undeclared_variable : String → String → WorkflowError
  invalid_expected_output : WorkflowError
  unknown_variables : List String → WorkflowError
  missing_variable : String → WorkflowError
  invalid_variable_value : String → WorkflowError
  -- the five messages of `unresolved_reference`
  empty_steps_reference : String → WorkflowError
  unavailable_step : String → WorkflowError
  unresolved_variable : String → WorkflowError
  path_not_found : String → String → WorkflowError
  not_a_mapping : String → WorkflowError

-- _ALLOWED_VARIABLE_TYPES
pub data VariableType : Type 0 where
  string_variable path_variable number_variable boolean_variable : VariableType

pub record WorkflowVariable : Type 0 where
  pub name : String
  pub type : VariableType
  pub required : Bool
  pub default : Option Value

pub record WorkflowStep : Type 0 where
  pub step_id : String
  pub capability_id : String
  pub operation : String
  pub input_mapping : Arguments
  pub output_mapping : List (String × String)
  pub expected_result : Option String

-- A check of the items of `output_mapping`.
abbrev pub blank_mapping : List (String × String) → Bool
blank_mapping [] = false
blank_mapping ((key, path) ∷ items) =
    str_eq (strip key) "" || str_eq (strip path) "" || blank_mapping items

abbrev pub stripped_paths : List (String × String) → List (String × String)
stripped_paths [] = []
stripped_paths ((key, path) ∷ items) = (key, strip path) ∷ stripped_paths items

abbrev pub stripped : Option String → Option String
stripped none = none
stripped (some s) = some (strip s)

abbrev pub is_blank : Option String → Bool
is_blank none = false
is_blank (some s) = str_eq (strip s) ""

-- WorkflowStep.__post_init__
unfoldable pub step_init : WorkflowStep → Result WorkflowError WorkflowStep
step_init step =
    if str_eq (strip step.step_id) ""
    then err (invalid_step "")
    else if str_eq (strip step.capability_id) ""
    then err (invalid_step (strip step.step_id))
    else if str_eq (strip step.operation) ""
    then err (invalid_step (strip step.step_id))
    else if blank_mapping step.output_mapping
    then err (invalid_step (strip step.step_id))
    else if is_blank step.expected_result
    then err (invalid_step (strip step.step_id))
    else ok (record step {
      step_id = strip step.step_id;
      capability_id = strip step.capability_id;
      operation = strip step.operation;
      output_mapping = stripped_paths step.output_mapping;
      expected_result = stripped step.expected_result;
    })

pub record WorkflowDefinition : Type 0 where
  pub workflow_id : String
  pub name : String
  pub steps : List WorkflowStep
  pub variables : List WorkflowVariable
  pub expected_outputs : List String
  pub required_capabilities : List String
  pub version : ℕ

abbrev pub contains : String → List String → Bool
contains s [] = false
contains s (x ∷ xs) = str_eq x s || contains s xs

-- `len(names) != len(set(names))`
abbrev pub has_duplicates : List String → Bool
has_duplicates [] = false
has_duplicates (x ∷ xs) = contains x xs || has_duplicates xs

-- `tuple(dict.fromkeys(names))`, with what has been seen
unfoldable pub fromkeys : List String → List String → List String
fromkeys seen [] = []
fromkeys seen (x ∷ xs) = elim (contains x seen) [
  | true ↦ fromkeys seen xs
  | false ↦ x ∷ fromkeys (x ∷ seen) xs
]

abbrev pub step_ids : List WorkflowStep → List String
step_ids = map (λ step. step.step_id)

abbrev pub variable_names : List WorkflowVariable → List String
variable_names = map (λ variable. variable.name)

abbrev pub capabilities_or : List String → List WorkflowStep → List String
capabilities_or [] steps = fromkeys [] (map (λ step. step.capability_id) steps)
capabilities_or (x ∷ xs) steps = x ∷ xs

abbrev pub is_empty : List WorkflowStep → Bool
is_empty [] = true
is_empty (step ∷ steps) = false

-- WorkflowDefinition.__post_init__
unfoldable pub definition_init : WorkflowDefinition → Result WorkflowError WorkflowDefinition
unfolding fromkeys
definition_init d =
    if str_eq (strip d.workflow_id) "" || str_eq (strip d.name) ""
    then err invalid_workflow
    else if is_empty d.steps
    then err empty_workflow
    else if ltb d.version 1
    then err invalid_version
    else if has_duplicates (step_ids d.steps)
    then err duplicate_step_id
    else if has_duplicates (variable_names d.variables)
    then err duplicate_variable
    else ok (record d {
      workflow_id = strip d.workflow_id;
      name = strip d.name;
      expected_outputs = map strip (filter (λ s. not (str_eq (strip s) "")) d.expected_outputs);
      required_capabilities = capabilities_or d.required_capabilities d.steps;
    })

-- The variables and the outputs of a run. `None` is a value.
pub record WorkflowContext : Type 0 where
  pub variables : Arguments
  pub step_outputs : Arguments

-- WorkflowContext.with_step_output
unfoldable pub with_step_output : String → Value → WorkflowContext → WorkflowContext
with_step_output step_id output context = record context {
  step_outputs = insert step_id output context.step_outputs;
}

-- `dict.update`
unfoldable pub update_all : Arguments → Arguments → Arguments
update_all [] merged = merged
update_all ((key, v) ∷ values) merged = update_all values (insert key v merged)

-- WorkflowContext.with_bound_values
unfoldable pub with_bound_values : Arguments → WorkflowContext → WorkflowContext
unfolding update_all
with_bound_values values context = record context {
  variables = update_all values context.variables;
}
