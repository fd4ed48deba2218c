-- ===== src/Automation/Engine/Stuck.antt =====
-- An execution that its capability leaves by an exception that the engine does not expect.
use memovi.Prelude.{◌≡◌, refl, false, none, some, get_or, String, ◌∙◌}
use memovi.Automation.Values.{
  returned, raised, automation_domain, executing, PermissionMode, CapabilityExecutionRequest,
  AuthenticatedExecutionContext, default_execution_policy,
}
use memovi.Automation.Store.{
  Capability, State, get_capability, get_result, save_result, clear_pending, token_cancelled,
}
use memovi.Automation.Authorization.{Engine}
use memovi.Automation.Arguments.Schema.{Conforms}
use memovi.Automation.Invoker.{Run}
use memovi.Automation.Invoker.Timely.{InTime, invoke_settles}
use memovi.Automation.Engine.Consistency.{get_result-save_result}
use memovi.Automation.Engine.{
  append_audit, result_of, remember_token, begin_execution, finish_execution, execute,
}

-- The record of an execution that has begun.
begun_result :
    (request : CapabilityExecutionRequest) (context : AuthenticatedExecutionContext)
    (mode : PermissionMode) (run : Run) (s : State)
    → get_result request.id (begin_execution request context mode run.started s)
      ≡ some (result_of request mode executing none none run.started run.started)
unfolding begin_execution append_audit clear_pending get_result save_result
begun_result request context mode run s =
    get_result-save_result (result_of request mode executing none none run.started run.started)
      request.id (remember_token request.id context.cancellation s) refl

-- A registered capability, whose arguments conform to its schema and whose token was not cancelled
-- before, raises in time an exception of the package that is not on its execution, its timeout, its
-- cancellation or on arguments, and meanwhile nothing changes the record of the execution. Then the
-- exception leaves the engine, and the execution is still recorded as executing.
pub execute_stuck :
    (engine : Engine) (request : CapabilityExecutionRequest)
    (context : AuthenticatedExecutionContext) (mode : PermissionMode) (run : Run) (s : State)
    (c : Capability) (m : String)
    → get_capability request.capability_id engine.registry ≡ returned c
    → c.metadata.id ≡ request.capability_id
    → Conforms request.arguments c.metadata
    → InTime (get_or request.policy default_execution_policy) run
    → run.ending ≡ raised (automation_domain m)
    → token_cancelled context.cancellation s.cancelled_tokens ≡ false
    → let begun = begin_execution request context mode run.started s in
      get_result request.id (run.meanwhile begun) ≡ get_result request.id begun
      → ((execute engine request context mode run s).0 ≡ raised (automation_domain m))
        × (get_result request.id (execute engine request context mode run s).1
            ≡ some (result_of request mode executing none none run.started run.started))
unfolding execute begin_execution save_result append_audit clear_pending finish_execution
execute_stuck engine request context mode run s c m found same fit in_time ending fresh quiet =
    let policy = get_or request.policy default_execution_policy in
    let begun = begin_execution request context mode run.started s in
    rw
      (
        found,
        invoke_settles request.capability_id policy context.cancellation run begun fresh c
            request.arguments same fit in_time (rw ending refl),
        ending,
      )
      (refl, quiet ∙ begun_result request context mode run s)
