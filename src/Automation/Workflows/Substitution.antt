-- ===== src/Automation/Workflows/Substitution.antt =====
-- packages/automation/src/memovi_automation/domain/value_objects/workflow.py: the substitution of
-- references, and the paths into a capability's output. `shown` is Python's `str` of an object that is
-- not a text.
use Prim.Native.Char.{code}
use memovi.Prelude.{
  ◌==◌, String, concat, ◌||◌, Option, none, some, List, [], ◌∷◌, str_eq, if◌then◌else◌,
}
use memovi.Prelude.Maps.{lookup}
use memovi.Prelude.Strings.{strip}
use memovi.Prelude.Results.{Result, ok, err, ◌>>=◌}
use memovi.Automation.Values.{
  Value, Values, Entries, null, text, boolean, integer, floating, object, array, opaque, no_values,
  item, no_entries, entry, Arguments,
}
use memovi.Automation.Codec.{to_str, to_arguments}
use memovi.Automation.Workflows.References.{
  Piece, literal, reference, pieces_of, Target, step_output, variable_name, target, split_dots,
}
use memovi.Automation.Workflows.Definitions.{
  WorkflowError, empty_steps_reference, unavailable_step, unresolved_variable, path_not_found,
  not_a_mapping, WorkflowStep, WorkflowContext, with_step_output, with_bound_values,
}

-- `_dig`
abbrev pub dug : String → String → Option Value → Result WorkflowError Value
dug part ref none = err (path_not_found ref part)
dug part ref (some v) = ok v

unfoldable pub dig : Value → String → String → Result WorkflowError Value
dig (object items) part ref = dug part ref (lookup part (to_arguments items))
dig _ part ref = err (not_a_mapping ref)

unfoldable pub dig_all : List String → String → Value → Result WorkflowError Value
unfolding dig
dig_all [] ref current = ok current
dig_all (part ∷ parts) ref current = dig current part ref >>= dig_all parts ref

-- `_resolve_reference`
abbrev pub output_at : String → String → List String → Option Value → Result WorkflowError Value
output_at ref step_id path none = err (unavailable_step step_id)
output_at ref step_id path (some output) = dig_all path ref output

abbrev pub variable_value : String → Option Value → Result WorkflowError Value
variable_value ref none = err (unresolved_variable ref)
variable_value ref (some v) = ok v

abbrev pub resolve_target : String → WorkflowContext → Target → Result WorkflowError Value
resolve_target ref context variable_name = variable_value ref (lookup ref context.variables)
resolve_target ref context (step_output step_id path) =
    if str_eq ref "steps."
    then err (empty_steps_reference ref)
    else output_at ref step_id path (lookup step_id context.step_outputs)

unfoldable pub resolve_reference : String → WorkflowContext → Result WorkflowError Value
unfolding dig_all target
resolve_reference ref context = resolve_target ref context (target ref)

module _ (shown : Value → String) where
  abbrev pub text_of : Value → String
  text_of null = ""
  text_of v = to_str shown v

  -- `_VARIABLE_REF.sub(repl, template)`
  unfoldable pub join_pieces : WorkflowContext → List Piece → Result WorkflowError String
  unfolding resolve_reference
  join_pieces context [] = ok ""
  join_pieces context (literal s ∷ pieces) =
      join_pieces context pieces >>= λ rest. ok (concat s rest)
  join_pieces context (reference name ∷ pieces) = resolve_reference name context >>= λ v.
      join_pieces context pieces >>= λ rest. ok (concat (text_of v) rest)

  -- `_substitute_string`: a reference alone keeps the type of its value.
  unfoldable pub substitute_pieces : WorkflowContext → List Piece → Result WorkflowError Value
  unfolding join_pieces resolve_reference
  substitute_pieces context (reference name ∷ []) = resolve_reference name context
  substitute_pieces context pieces = join_pieces context pieces >>= λ s. ok (text s)

  unfoldable mutual
    unfolding substitute_pieces pieces_of

    pub substitute_value : WorkflowContext → Value → Result WorkflowError Value
    substitute_value context null = ok null
    substitute_value context (text s) = substitute_pieces context (pieces_of s)
    substitute_value context (boolean b) = ok (boolean b)
    substitute_value context (integer negative n) = ok (integer negative n)
    substitute_value context (floating s) = ok (floating s)
    substitute_value context (object items) =
        substitute_entries context items >>= λ done. ok (object done)
    substitute_value context (array items) =
        substitute_items context items >>= λ done. ok (array done)
    substitute_value context (opaque s) = ok (opaque s)

    pub substitute_items : WorkflowContext → Values → Result WorkflowError Values
    substitute_items context no_values = ok no_values
    substitute_items context (item v rest) = substitute_value context v >>= λ done.
        substitute_items context rest >>= λ others. ok (item done others)

    pub substitute_entries : WorkflowContext → Entries → Result WorkflowError Entries
    substitute_entries context no_entries = ok no_entries
    substitute_entries context (entry key v rest) = substitute_value context v >>= λ done.
        substitute_entries context rest >>= λ others. ok (entry key done others)

-- The parts of a path that are not empty.
abbrev pub filled : List String → List String
filled [] = []
filled (part ∷ parts) = if str_eq part "" then filled parts else part ∷ filled parts

-- What follows `$.` or `$` at the front of a path.
abbrev pub behind_dot : String → String
behind_dot String.[] = String.[]
behind_dot (String.◌∷◌ c rest) = if code c == 46 then rest else String.◌∷◌ c rest

abbrev pub behind_dollar : String → String
behind_dollar String.[] = String.[]
behind_dollar (String.◌∷◌ c rest) = if code c == 36 then behind_dot rest else String.◌∷◌ c rest

-- read_output_path
unfoldable pub read_output_path : Value → String → Result WorkflowError Value
unfolding dig_all split_dots
read_output_path output path =
    let cleaned = strip path in
    if str_eq cleaned "" || str_eq cleaned "$" || str_eq cleaned "."
    then ok output
    else dig_all (filled (split_dots (behind_dollar cleaned))) path output

unfoldable pub read_bindings : Value → List (String × String) → Result WorkflowError Arguments
unfolding read_output_path
read_bindings output [] = ok []
read_bindings output ((name, path) ∷ items) = read_output_path output path >>= λ v.
    read_bindings output items >>= λ bindings. ok ((name, v) ∷ bindings)

-- `_bind_completed_step` of workflow_engine.py
unfoldable pub bind_completed_step :
    WorkflowStep → Value → WorkflowContext → Result WorkflowError WorkflowContext
unfolding read_bindings with_step_output with_bound_values
bind_completed_step step output context = read_bindings output step.output_mapping >>= λ bindings.
    ok (with_bound_values bindings (with_step_output step.step_id output context))
