-- ===== src/Automation/Plans.antt =====
-- packages/automation/src/memovi_automation/application/services: execution_plan_validator.py.
-- A plan is validated before any of its steps is submitted.
pub mod Validity
pub mod Execution
pub mod Progress
use memovi.Prelude.{
  ℕ, String, concat, Bool, true, false, ◌||◌, ◌+◌, Option, none, some, List, [], ◌∷◌, leb, str_eq,
  if◌then◌else◌,
}
use memovi.Automation.Values.{
  Error, Outcome, returned, raised, invalid_arguments, invalid_execution_plan, Value, Arguments,
  CapabilityExecutionStatus, pending_approval, executing, completed, failed, cancelled,
  CapabilityError, CapabilityExecutionRequest, AuthenticatedExecutionContext,
  CapabilityExecutionResult,
}
use memovi.Automation.Arguments.{validate_capability_arguments}
use memovi.Automation.Store.{Capability, State, get_capability}
use memovi.Automation.Authorization.{Engine}
use memovi.Automation.Invoker.{Run}
use memovi.Automation.Submission.{submit}

-- domain/value_objects/execution_plan.py; the texts are stripped when a step is made, and a dependency
-- is the identifier of a step.
pub record ExecutionStep : Type 0 where
  pub step_id : String
  pub capability_id : String
  pub operation : String
  pub arguments : Arguments
  pub dependencies : List String

pub record ExecutionPlan : Type 0 where
  pub plan_id : String
  pub workspace_id : String
  pub conversation_id : Option String
  pub steps : List ExecutionStep

abbrev pub contains : String → List String → Bool
contains s [] = false
contains s (t ∷ ts) = str_eq t s || contains s ts

abbrev quoted : String → String → String → Error
quoted code before name = invalid_execution_plan code (concat before (concat name "'."))

-- `_validate_step_ids`
unfoldable pub validate_step_ids : List String → List ExecutionStep → Outcome (Unit {0})
validate_step_ids seen [] = returned tt
validate_step_ids seen (step ∷ steps) =
    let rest = validate_step_ids (step.step_id ∷ seen) steps in
    if contains step.step_id seen
    then raised (quoted "duplicate_step_id" "Duplicate step id '" step.step_id)
    else rest

-- `index`: the position of a step, counted from `n`. With an identifier twice it would be the last
-- position, but no such plan gets here.
unfoldable pub position : ℕ → String → List ExecutionStep → Option ℕ
position n id [] = none
position n id (step ∷ steps) =
    let rest = position (n + 1) id steps in if str_eq step.step_id id then some n else rest

abbrev pub precedes : Option ℕ → Option ℕ → Bool
precedes (some dependency) (some dependent) = if leb dependent dependency then false else true
precedes dependency dependent = false

abbrev pub then_check : Outcome (Unit {0}) → Outcome (Unit {0}) → Outcome (Unit {0})
then_check (returned done) rest = rest
then_check (raised e) rest = raised e

abbrev dependency_error : String → String → String → String → Error
dependency_error code step middle dependency =
    quoted code (concat "Step '" (concat step middle)) dependency

abbrev pub check_order : String → String → Bool → Outcome (Unit {0})
check_order step dependency true = returned tt
check_order step dependency false = raised (
    invalid_execution_plan "invalid_dependency_order" (
      concat "Step '" (
        concat step (
          concat "' depends on '"
            (concat dependency "' which does not precede it in the plan order.")))))

abbrev pub check_known : List ExecutionStep → String → String → Option ℕ → Outcome (Unit {0})
check_known plan step dependency none =
    raised (dependency_error "unknown_dependency" step "' depends on unknown step '" dependency)
check_known plan step dependency (some n) =
    if str_eq dependency step
    then raised (
        invalid_execution_plan "cyclic_dependency"
          (concat "Step '" (concat step "' cannot depend on itself.")))
    else check_order step dependency (precedes (some n) (position 0 step plan))

unfoldable pub check_dependencies : List ExecutionStep → String → List String → Outcome (Unit {0})
check_dependencies plan step [] = returned tt
check_dependencies plan step (dependency ∷ rest) =
    then_check (check_known plan step dependency (position 0 dependency plan))
      (check_dependencies plan step rest)

-- `_validate_dependency_graph`
unfoldable pub validate_dependency_graph :
    List ExecutionStep → List ExecutionStep → Outcome (Unit {0})
validate_dependency_graph plan [] = returned tt
validate_dependency_graph plan (step ∷ steps) =
    then_check (check_dependencies plan step.step_id step.dependencies)
      (validate_dependency_graph plan steps)

-- `_validate_step`
abbrev check_arguments : ExecutionStep → Outcome Arguments → Outcome (Unit {0})
check_arguments step (returned validated) = returned tt
check_arguments step (raised (invalid_arguments m)) = raised (
    invalid_execution_plan "invalid_arguments"
      (concat "Invalid arguments for step '" (concat step.step_id (concat "': " m))))
check_arguments step (raised e) = raised e

abbrev is_supported : String → Option (List String) → Bool
is_supported operation none = true
is_supported operation (some operations) = contains operation operations

abbrev check_capability : ExecutionStep → Outcome Capability → Outcome (Unit {0})
check_capability step (raised e) = raised (
    invalid_execution_plan "unknown_capability" (
      concat "Unknown capability '"
        (concat step.capability_id (concat "' in step '" (concat step.step_id "'.")))))
check_capability step (returned c) =
    if is_supported step.operation c.supported_operations
    then check_arguments step (validate_capability_arguments step.arguments c.metadata)
    else raised (
        invalid_execution_plan "unknown_operation" (
          concat "Unsupported operation '"
            (concat step.operation (concat "' for capability '" (concat step.capability_id "'.")))))

unfoldable pub validate_step : List (String × Capability) → ExecutionStep → Outcome (Unit {0})
validate_step registry step = check_capability step (get_capability step.capability_id registry)

unfoldable pub validate_steps : List (String × Capability) → List ExecutionStep → Outcome (Unit {0})
unfolding validate_step
validate_steps registry [] = returned tt
validate_steps registry (step ∷ steps) =
    then_check (validate_step registry step) (validate_steps registry steps)

-- `validate`
unfoldable pub validate_plan : List (String × Capability) → ExecutionPlan → Outcome (Unit {0})
unfolding validate_step_ids validate_dependency_graph validate_steps
validate_plan registry plan = then_check (validate_step_ids [] plan.steps) (
    then_check (validate_dependency_graph plan.steps plan.steps)
      (validate_steps registry plan.steps))
