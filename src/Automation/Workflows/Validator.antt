-- ===== src/Automation/Workflows/Validator.antt =====
-- packages/automation/src/memovi_automation/application/services/workflow_validator.py. The numbers
-- that a text stands for and the lower case of a text are ports.
use memovi.Prelude.{
  String, Bool, true, false, ◌&&◌, ◌||◌, not, Option, none, some, List, [], ◌∷◌, filter, str_eq,
  if◌then◌else◌, is_some,
}
use memovi.Prelude.Maps.{lookup, insert}
use memovi.Prelude.Strings.{strip}
use memovi.Prelude.Results.{Result, ok, err, ◌>>=◌, ◌>>◌, require}
use memovi.Automation.Values.{Value, null, text, boolean, integer, floating, Arguments, object}
use memovi.Automation.Store.{Capability}
use memovi.Automation.Codec.{to_str, to_entries}
use memovi.Automation.Workflows.References.{
  Target, step_output, variable_name, target, collect_refs,
}
use memovi.Automation.Workflows.Definitions.{
  WorkflowError, unknown_capability, unsupported_operation, invalid_reference, undeclared_variable,
  invalid_expected_output, unknown_variables, missing_variable, invalid_variable_value,
  VariableType, string_variable, path_variable, number_variable, boolean_variable, WorkflowVariable,
  WorkflowStep, WorkflowDefinition, WorkflowContext, contains, variable_names,
}

-- `not_in` a capability's operations, where it declares them
abbrev pub supports_operation : String → Option Capability → Bool
supports_operation operation none = false
supports_operation operation (some c) = elim c.supported_operations [
  | none ↦ true
  | some operations ↦ contains operation operations
]

abbrev pub check_target :
    String → List String → List String → String → Target → Result WorkflowError (Unit {0})
check_target step_id declared known ref variable_name =
    require (undeclared_variable step_id ref) (contains ref declared)
check_target step_id declared known ref (step_output dep_step path) =
    require (invalid_reference step_id ref) (not (str_eq dep_step "") && contains dep_step known)

-- The loop over the references of a step's input; a repeated one is checked again to the same end.
unfoldable pub check_references :
    String → List String → List String → List String → Result WorkflowError (Unit {0})
unfolding target
check_references step_id declared known [] = ok tt
check_references step_id declared known (ref ∷ refs) =
    check_target step_id declared known ref (target ref)
    >> check_references step_id declared known refs

unfoldable pub check_required :
    List (String × Capability) → List String → Result WorkflowError (Unit {0})
check_required registry [] = ok tt
check_required registry (id ∷ ids) =
    require (unknown_capability id) (is_some (lookup (strip id) registry))
    >> check_required registry ids

unfoldable pub check_steps :
    List (String × Capability)
    → List String
    → List String
    → List WorkflowStep
    → Result WorkflowError (Unit {0})
unfolding check_references collect_refs
check_steps registry declared known [] = ok tt
check_steps registry declared known (step ∷ steps) =
    require (unknown_capability step.capability_id)
      (is_some (lookup (strip step.capability_id) registry))
    >> require (unsupported_operation step.step_id step.operation)
        (supports_operation step.operation (lookup (strip step.capability_id) registry))
    >> check_references step.step_id declared known
        (collect_refs (object (to_entries step.input_mapping)))
    >> check_steps registry declared (step.step_id ∷ known) steps

unfoldable pub check_outputs : List String → Result WorkflowError (Unit {0})
check_outputs [] = ok tt
check_outputs (name ∷ names) =
    require invalid_expected_output (not (str_eq name "")) >> check_outputs names

-- WorkflowValidator.validate_definition
unfoldable pub validate_definition :
    List (String × Capability) → WorkflowDefinition → Result WorkflowError WorkflowDefinition
unfolding check_required check_steps check_outputs
validate_definition registry d =
    check_required registry d.required_capabilities
    >> check_steps registry (variable_names d.variables) [] d.steps
    >> check_outputs d.expected_outputs
    >> ok d

pub record Parsers : Type 0 where
  pub shown : Value → String
  -- float(text) and int(text), where they raise nothing
  pub parse_float : String → Option Value
  pub parse_int : String → Option Value
  pub lower : String → String
  -- `"." in text`
  pub has_dot : String → Bool

abbrev pub value_or_error : String → Option Value → Result WorkflowError Value
value_or_error name none = err (invalid_variable_value name)
value_or_error name (some v) = ok v

abbrev pub boolean_text : String → String → Result WorkflowError Value
boolean_text name lowered =
    if str_eq lowered "true" || str_eq lowered "1" || str_eq lowered "yes"
    then ok (boolean true)
    else if str_eq lowered "false" || str_eq lowered "0" || str_eq lowered "no"
    then ok (boolean false)
    else err (invalid_variable_value name)

-- _coerce_variable
abbrev pub coerce_string : Parsers → String → Value → Result WorkflowError Value
coerce_string ports name null = err (invalid_variable_value name)
coerce_string ports name v =
    let stripped = strip (to_str ports.shown v) in
    if str_eq stripped "" then err (invalid_variable_value name) else ok (text stripped)

abbrev pub coerce_number : Parsers → String → Value → Result WorkflowError Value
coerce_number ports name (integer negative n) = ok (integer negative n)
coerce_number ports name (floating s) = ok (floating s)
coerce_number ports name (text s) =
    value_or_error name (if ports.has_dot s then ports.parse_float s else ports.parse_int s)
coerce_number ports name v = value_or_error name (ports.parse_int (to_str ports.shown v))

abbrev pub coerce_boolean : Parsers → String → Value → Result WorkflowError Value
coerce_boolean ports name (boolean b) = ok (boolean b)
coerce_boolean ports name (text s) = boolean_text name (ports.lower (strip s))
coerce_boolean ports name v = err (invalid_variable_value name)

unfoldable pub coerce_variable :
    Parsers → String → VariableType → Value → Result WorkflowError Value
coerce_variable ports name string_variable v = coerce_string ports name v
coerce_variable ports name path_variable v = coerce_string ports name v
coerce_variable ports name number_variable v = coerce_number ports name v
coerce_variable ports name boolean_variable v = coerce_boolean ports name v

abbrev pub provided_or_default : Option Value → Option Value → Option Value
provided_or_default (some v) default = some v
provided_or_default none default = default

-- One round of the loop of `validate_variables`.
unfoldable pub resolve_variable :
    Parsers → WorkflowVariable → Option Value → Result WorkflowError Value
unfolding coerce_variable
resolve_variable ports variable (some v) = coerce_variable ports variable.name variable.type v
resolve_variable ports variable none =
    if variable.required then err (missing_variable variable.name) else ok null

unfoldable pub resolve_variables :
    Parsers → Arguments → List WorkflowVariable → Arguments → Result WorkflowError Arguments
unfolding resolve_variable
resolve_variables ports provided [] resolved = ok resolved
resolve_variables ports provided (variable ∷ variables) resolved =
    resolve_variable ports variable
      (provided_or_default (lookup variable.name provided) variable.default)
    >>= λ v. resolve_variables ports provided variables (insert variable.name v resolved)

abbrev pub keys : Arguments → List String
keys [] = []
keys ((key, v) ∷ items) = key ∷ keys items

abbrev pub refuse_unknown : List String → Result WorkflowError (Unit {0})
refuse_unknown [] = ok tt
refuse_unknown (name ∷ names) = err (unknown_variables (name ∷ names))

-- WorkflowValidator.validate_variables
unfoldable pub validate_variables :
    Parsers → WorkflowDefinition → Arguments → Result WorkflowError WorkflowContext
unfolding resolve_variables
validate_variables ports d provided =
    refuse_unknown
      (filter (λ name. not (contains name (variable_names d.variables))) (keys provided))
    >> (resolve_variables ports provided d.variables [] >>= λ resolved.
        ok (record { variables = resolved; step_outputs = [] }))
