-- ===== src/Automation/Values.antt =====
-- packages/automation/src/memovi_automation/domain: exceptions.py and the value objects. Identifiers
-- are stripped when a value object is made. Free-form metadata, durations and correlation identifiers
-- decide nothing and are left out.
use memovi.Prelude.{none, ℕ, String, Bool, true, false, Option, some, List, ◌==◌}

-- domain/exceptions.py, with `other` for an exception of another package.
pub data Error : Type 0 where
  unknown_capability : String → Error
  execution_not_found : String → Error
  invalid_arguments : String → Error
  authorization_denied : String → String → Error
  capability_execution : String → String → Error
  capability_timeout : String → Error
  capability_cancelled : String → Error
  -- the code and the message
  invalid_execution_plan : String → String → Error
  -- InvalidCapabilityError and the exceptions of workflows
  automation_domain : String → Error
  other : String → Error

-- What code that may raise gives.
pub data Outcome {ℓ} (A : Type ℓ) : Type ℓ where
  returned : A → Outcome A
  raised : Error → Outcome A

-- A Python object that is an argument: the types of JSON, and an object of any other type.
mutual
  pub data Value : Type 0 where
    null : Value
    text : String → Value
    boolean : Bool → Value
    integer : Bool → ℕ → Value
    floating : String → Value
    object : Entries → Value
    array : Values → Value
    opaque : String → Value

  pub data Values : Type 0 where
    no_values : Values
    item : Value → Values → Values

  pub data Entries : Type 0 where
    no_entries : Entries
    entry : String → Value → Entries → Entries

-- A dictionary of arguments.
abbrev pub Arguments : Type 0
Arguments = List (String × Value)

-- capability_parameter.py
pub data ParameterType : Type 0 where
  string_type integer_type number_type boolean_type object_type array_type : ParameterType

pub record CapabilityParameter : Type 0 where
  pub name : String
  pub type : ParameterType
  pub required : Bool

pub record CapabilityMetadata : Type 0 where
  pub id : String
  pub parameters : List CapabilityParameter

pub data PermissionMode : Type 0 where
  always_allow ask_every_time deny : PermissionMode

pub data CapabilityExecutionStatus : Type 0 where
  pending_approval executing completed failed cancelled : CapabilityExecutionStatus

abbrev pub status_index : CapabilityExecutionStatus → ℕ
status_index pending_approval = 0
status_index executing = 1
status_index completed = 2
status_index failed = 3
status_index cancelled = 4

abbrev pub same_status : CapabilityExecutionStatus → CapabilityExecutionStatus → Bool
same_status a b = status_index a == status_index b

abbrev pub is_terminal : CapabilityExecutionStatus → Bool
is_terminal pending_approval = false
is_terminal executing = false
is_terminal completed = true
is_terminal failed = true
is_terminal cancelled = true

pub record CapabilityError : Type 0 where
  pub code : String
  pub message : String

-- `timeout_seconds` is in the unit of the clock.
pub record CapabilityExecutionPolicy : Type 0 where
  pub timeout_seconds : Option ℕ
  pub cancellable : Bool
  pub permission_mode : Option PermissionMode

-- CapabilityExecutionPolicy() in microseconds
abbrev pub default_execution_policy : CapabilityExecutionPolicy
default_execution_policy = record {
  timeout_seconds = some 30000000;
  cancellable = true;
  permission_mode = none;
}

pub record CapabilityExecutionRequest : Type 0 where
  pub id : String
  pub capability_id : String
  pub workspace_id : String
  pub arguments : Arguments
  pub conversation_id : Option String
  pub policy : Option CapabilityExecutionPolicy
  pub source : String

-- `cancellation` is the identity of the token, which is a shared mutable object.
pub record AuthenticatedExecutionContext : Type 0 where
  pub user_id : String
  pub workspace_id : String
  pub session_id : String
  pub request_id : String
  pub cancellation : ℕ
  pub conversation_id : Option String
  pub source : String

pub record CapabilityExecutionResult : Type 0 where
  pub execution_id : String
  pub capability_id : String
  pub workspace_id : String
  pub status : CapabilityExecutionStatus
  pub permission_mode : PermissionMode
  pub output : Option Value
  pub error : Option CapabilityError
  pub conversation_id : Option String
  -- `metadata["source"]`
  pub source : String
  pub created_at : ℕ
  pub updated_at : ℕ

-- The columns of an audit entry that do not summarise arguments or output.
pub record ExecutionAuditEntry : Type 0 where
  pub execution_id : String
  pub workspace_id : String
  pub capability_id : String
  pub status : CapabilityExecutionStatus
  pub permission_mode : PermissionMode
  pub timestamp : ℕ
  pub conversation_id : Option String
  pub source : String
  pub user_id : Option String
