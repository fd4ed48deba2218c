-- ===== src/Automation/Workflows/Examples.antt =====
-- The theorem on validated workflows at a concrete workflow.
use memovi.Prelude.{String, ◌≡◌, refl, true, false, none, some, List, [], ◌∷◌}
use memovi.Prelude.Maps.{lookup, insert}
use memovi.Prelude.Strings.{strip}
use memovi.Prelude.Results.{ok, err}
use memovi.Automation.Values.{Value, text, object, entry, no_entries, Arguments}
use memovi.Automation.Store.{Capability}
use memovi.Automation.Codec.{to_entries}
use memovi.Automation.Workflows.Definitions.{
  WorkflowStep, WorkflowDefinition, WorkflowContext, string_variable, path_not_found,
}
use memovi.Automation.Workflows.Substitution.{substitute_value, bind_completed_step}
use memovi.Automation.Workflows.Validator.{Parsers, validate_definition, validate_variables}
use memovi.Automation.Workflows.Resolution.{IsPathError}
use memovi.Automation.Workflows.Binding.{run_context}
use memovi.Automation.Workflows.Validated.{validated_input_resolves}

abbrev files : Capability
files = record {
  metadata = record { id = "files"; parameters = [] };
  supported_operations = some ("read" ∷ []);
  evaluate_submit = none;
}

abbrev registry : List (String × Capability)
registry = ("files", files) ∷ []

abbrev pub parsers : Parsers
parsers = record {
  shown = λ v. "object";
  parse_float = λ s. none;
  parse_int = λ s. none;
  lower = λ s. s;
  has_dot = λ s. false;
}

abbrev pub reading : WorkflowStep
reading = record {
  step_id = "a";
  capability_id = "files";
  operation = "read";
  input_mapping = ("path", text "${dir}/x") ∷ [];
  output_mapping = ("found", "$.body") ∷ [];
  expected_result = none;
}

abbrev pub showing : WorkflowStep
showing = record {
  step_id = "b";
  capability_id = "files";
  operation = "read";
  input_mapping = ("path", text "${steps.a.name}") ∷ [];
  output_mapping = [];
  expected_result = none;
}

abbrev definition : WorkflowDefinition
definition = record {
  workflow_id = "w";
  name = "Show";
  steps = reading ∷ showing ∷ [];
  variables = record { name = "dir"; type = string_variable; required = true; default = none } ∷ [];
  expected_outputs = [];
  required_capabilities = "files" ∷ [];
  version = 1;
}

abbrev provided : Arguments
provided = ("dir", text " tmp ") ∷ []

abbrev start : WorkflowContext
start = record { variables = ("dir", text "tmp") ∷ []; step_outputs = [] }

abbrev read_body : Value
read_body = object (entry "body" (text "hi") no_entries)

abbrev context : WorkflowContext
context = record {
  variables = ("dir", text "tmp") ∷ ("found", text "hi") ∷ [];
  step_outputs = ("a", read_body) ∷ [];
}

accepted : validate_definition registry definition ≡ ok definition
unfolding strip validate_definition lookup
accepted = refl

started : validate_variables parsers definition provided ≡ ok start
unfolding validate_variables lookup strip insert
started = refl

ran : run_context ((reading, read_body) ∷ []) start ≡ ok context
unfolding run_context bind_completed_step strip lookup insert
ran = refl

fails :
    substitute_value (λ v. "object") context (object (to_entries showing.input_mapping))
    ≡ err (path_not_found "steps.a.name" "name")
unfolding substitute_value lookup
fails = refl

validated_input_resolves_example : IsPathError (path_not_found "steps.a.name" "name")
validated_input_resolves_example =
    validated_input_resolves registry parsers (λ v. "object") definition provided
      ((reading, read_body) ∷ []) showing [] {start = start} {context = context}
      {e = path_not_found "steps.a.name" "name"} accepted started refl ran fails
