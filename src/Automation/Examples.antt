-- ===== src/Automation/Examples.antt =====
-- The theorems about packages/automation at a small registry: a capability that reads and one whose
-- use must be approved.
use memovi.Prelude.Strings.{strip}
use memovi.Prelude.{◌≡◌, ◌↔◌, refl, inr, true, false, none, some, List, [], ◌∷◌, str_eq}
use memovi.Prelude.Maps.{lookup}
use memovi.Automation.Values.{
  returned, text, boolean, Arguments, string_type, boolean_type, CapabilityMetadata, always_allow,
  ask_every_time, completed, CapabilityExecutionRequest, AuthenticatedExecutionContext,
}
use memovi.Automation.Arguments.{parameter_of, validate_capability_arguments}
use memovi.Automation.Arguments.Schema.{Conforms, validate-Conforms}
use memovi.Automation.Store.{
  Capability, State, get_result, get_pending, get_capability, get_mode, cancel_token,
  token_cancelled,
}
use memovi.Automation.Authorization.{Engine}
use memovi.Automation.Invoker.{Run}
use memovi.Automation.Engine.{result_of, begin_execution, execute}
use memovi.Automation.Engine.Consistency.{IsConsistent}
use memovi.Automation.Engine.Ended.{EndsWith, execute_outputs}
use memovi.Automation.Submission.{submit}
use memovi.Automation.Operations.{approve, cancel}
use memovi.Automation.Operations.Refusal.{IsHeld, gated_submission, outsider_changes_nothing}
use memovi.Automation.Histories.{
  Operation, submit_op, approve_op, cancel_op, recover_op, perform_all, perform_all-IsConsistent,
}

abbrev metadata : CapabilityMetadata
metadata = record {
  id = "filesystem";
  parameters =
      record { name = "path"; type = string_type; required = true }
      ∷ record { name = "recursive"; type = boolean_type; required = false }
      ∷ [];
}

abbrev pub filesystem : Capability
filesystem = record { metadata = metadata; supported_operations = none; evaluate_submit = none }

abbrev pub engine : Engine
engine = record {
  registry = ("filesystem", filesystem) ∷ [];
  membership = record {
    is_member = λ user workspace. str_eq user "ada";
    get_role = λ user workspace. some "owner";
  };
  store_default_mode = ask_every_time;
  default_permission_mode = ask_every_time;
}

abbrev pub arguments : Arguments
arguments = ("path", text "notes.md") ∷ []

abbrev pub request : CapabilityExecutionRequest
request = record {
  id = "e1";
  capability_id = "filesystem";
  workspace_id = "w1";
  arguments = arguments;
  conversation_id = none;
  policy = some (record { timeout_seconds = none; cancellable = false; permission_mode = none });
  source = "api";
}

abbrev pub context : AuthenticatedExecutionContext
context = record {
  user_id = "ada";
  workspace_id = "w1";
  session_id = "s1";
  request_id = "r1";
  cancellation = 7;
  conversation_id = none;
  source = "api";
}

abbrev outsider : AuthenticatedExecutionContext
outsider = record context { user_id = "eve" }

abbrev pub run : Run
run = record {
  meanwhile = λ s. s;
  duration = 5;
  ending = returned (text "done");
  started = 10;
  finished = 15;
}

abbrev pub start : State
start = record {
  results = [];
  pending = [];
  modes = [];
  cancellations = [];
  cancelled_tokens = [];
  audit = [];
}

abbrev pub allowing : State
allowing = record start { modes = (("w1", "filesystem"), always_allow) ∷ [] }

pub start-IsConsistent : IsConsistent start
unfolding lookup get_pending get_result
start-IsConsistent = (λ id. refl, (λ id r c h. cc), (λ id r h. cc))

validate-Conforms_example :
    (validate_capability_arguments arguments metadata ≡ returned arguments)
    ↔ (Conforms arguments metadata × (arguments ≡ arguments))
validate-Conforms_example = validate-Conforms arguments arguments metadata

outsider_changes_nothing_example :
    ((submit engine request outsider run start).1 ≡ start)
    × ((approve engine "e1" "w1" outsider run start).1 ≡ start)
    × ((cancel engine "e1" "w1" outsider 20 start).1 ≡ start)
outsider_changes_nothing_example =
    outsider_changes_nothing engine request "e1" outsider run 20 start refl

abbrev failing_run : Run
failing_run = record run { ending = returned (boolean false); meanwhile = λ s. cancel_token 3 s }

gated_submission_example :
    IsHeld (submit engine request context run start).0
    × (submit engine request context failing_run start ≡ submit engine request context run start)
unfolding strip lookup get_capability get_mode
gated_submission_example =
    gated_submission engine request context run failing_run start filesystem refl refl refl
      (inr refl) refl

-- The token is cancelled during the run, by a request to cancel the execution.
abbrev cancelled_run : Run
cancelled_run = record run { meanwhile = λ s. (cancel engine "e1" "w1" context 12 s).1 }

execute_outputs_example :
    let ended = cancelled_run.meanwhile (begin_execution request context always_allow 10 start) in
    EndsWith "e1"
      (result_of request always_allow completed (some (text "done")) none 10 15)
      ended
      (execute engine request context always_allow cancelled_run start)
unfolding strip lookup get_capability parameter_of token_cancelled
execute_outputs_example =
    execute_outputs engine request context always_allow cancelled_run start filesystem (text "done")
      refl refl
      (
        (((record { name = "path"; type = string_type; required = true }, refl, refl), tt)),
        ((λ r. refl), ((λ r. cc), tt)),
      )
      tt refl refl

abbrev operations : List Operation
operations =
    submit_op request context run
    ∷ approve_op "e1" "w1" context run
    ∷ cancel_op "e1" "w1" context 30
    ∷ recover_op 40
    ∷ []

perform_all-IsConsistent_example : IsConsistent (perform_all engine operations start)
perform_all-IsConsistent_example =
    perform_all-IsConsistent engine operations start ((λ t h. h), ((λ t h. h), (tt, (tt, tt))))
      start-IsConsistent
