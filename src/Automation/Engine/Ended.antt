-- ===== src/Automation/Engine/Ended.antt =====
-- What an execution that returns leaves in the store, and which result it gives.
use memovi.Prelude.{
  String, ◌≡◌, ◌≢◌, refl, sym, ◌∙◌, Bool, true, false, ◌&&◌, none, some, eq_iff, arith, get_or,
}
use memovi.Prelude.Maps.{lookup-erase, lookup-insert}
use memovi.Automation.Values.{
  Outcome, returned, raised, invalid_arguments, Value, pending_approval, executing, completed,
  failed, cancelled, same_status, is_terminal, PermissionMode, CapabilityExecutionStatus,
  CapabilityExecutionRequest, AuthenticatedExecutionContext, CapabilityExecutionResult,
  default_execution_policy,
}
use memovi.Automation.Store.{
  Capability, State, get_capability, save_result, get_result, get_pending, clear_pending,
  token_cancelled,
}
use memovi.Automation.Authorization.{Engine}
use memovi.Automation.Arguments.Schema.{Conforms}
use memovi.Automation.Invoker.{Run, CapabilityResult, invoke, cancelled_result}
use memovi.Automation.Invoker.Timely.{InTime, outcome_of, invoke_timely}
use memovi.Automation.Engine.Consistency.{get_result-save_result}
use memovi.Automation.Engine.{
  append_audit, unregistered_result, failed_result, result_of, conclude, begin_execution,
  finish_execution, status_of, execute_registered, execute,
}

-- A returned result is terminal, it is the one in the store, and no request is kept for it.
abbrev pub HasEnded : String → Outcome CapabilityExecutionResult × State → Type 0
HasEnded id (raised e, s) = Unit
HasEnded id (returned r, s) =
    (r.execution_id ≡ id)
    × (get_result id s ≡ some r)
    × (get_pending id s ≡ none)
    × (is_terminal r.status ≡ true)

pub terminal_settled :
    (status : CapabilityExecutionStatus)
    → is_terminal status ≡ true
    → same_status status pending_approval ≡ false
terminal_settled pending_approval t = cc
terminal_settled executing t = refl
terminal_settled completed t = refl
terminal_settled failed t = refl
terminal_settled cancelled t = refl

get_pending-save_result :
    (r : CapabilityExecutionResult) (id : String) (s : State)
    → r.execution_id ≡ id
    → same_status r.status pending_approval ≡ false
    → get_pending id (save_result r s) ≡ none
unfolding get_pending save_result
get_pending-save_result r id s e settled =
    rw settled
      (ground (arith, lookup-erase id r.execution_id s.pending, eq_iff r.execution_id id, e))

conclude-HasEnded :
    (request : CapabilityExecutionRequest) (context : AuthenticatedExecutionContext)
    (r : CapabilityExecutionResult) (s : State)
    → r.execution_id ≡ request.id
    → is_terminal r.status ≡ true
    → HasEnded request.id (conclude request context r s)
unfolding append_audit save_result get_result get_pending
conclude-HasEnded request context r s e t = (
  e,
  get_result-save_result r request.id s e,
  get_pending-save_result r request.id s e (terminal_settled r.status t),
  t,
)

finish_execution-HasEnded :
    (request : CapabilityExecutionRequest) (context : AuthenticatedExecutionContext)
    (mode : PermissionMode) (run : Run) (ended : Outcome CapabilityResult × State)
    → HasEnded request.id (finish_execution request context mode run ended)
unfolding finish_execution
finish_execution-HasEnded request context mode run (returned r, s) =
    conclude-HasEnded request context
      (result_of request mode (status_of r) r.output r.error run.started run.finished) s refl
      (ground arith)
finish_execution-HasEnded request context mode run (raised (invalid_arguments m), s) =
    conclude-HasEnded request context
      (failed_result request mode (record { code = "invalid_arguments"; message = m }) run.started
        run.finished)
      s refl refl
finish_execution-HasEnded request context mode run (raised e, s) = tt

pub execute-HasEnded :
    (engine : Engine) (request : CapabilityExecutionRequest)
    (context : AuthenticatedExecutionContext) (mode : PermissionMode) (run : Run) (s : State)
    → HasEnded request.id (execute engine request context mode run s)
unfolding execute
execute-HasEnded engine request context mode run s =
    go (get_capability request.capability_id engine.registry)
  where
    begun : State
    begun = begin_execution request context mode run.started s

    go :
        (c : Outcome Capability)
        → HasEnded request.id (execute_registered request context mode run c begun)
    go (raised e) =
        conclude-HasEnded request context (unregistered_result request mode run) begun refl refl
    go (returned c) = finish_execution-HasEnded request context mode run (
        invoke request.capability_id c request.arguments
          (get_or request.policy default_execution_policy) context.cancellation run begun)

-- The result of a run that ended with an output.
abbrev pub output_result :
    CapabilityExecutionRequest → PermissionMode → Run → Value → Bool → CapabilityExecutionResult
output_result request mode run output true =
    result_of request mode cancelled none (cancelled_result request.capability_id).error run.started
      run.finished
output_result request mode run output false =
    result_of request mode completed (some output) none run.started run.finished

finish_output :
    (request : CapabilityExecutionRequest) (context : AuthenticatedExecutionContext)
    (mode : PermissionMode) (run : Run) (output : Value) (dropped : Bool) (s : State)
    → finish_execution request context mode run
        (returned (outcome_of request.capability_id output dropped), s)
      ≡ conclude request context (output_result request mode run output dropped) s
unfolding finish_execution
finish_output request context mode run output true s = refl
finish_output request context mode run output false s = refl

conclude-elsewhere :
    (request : CapabilityExecutionRequest) (context : AuthenticatedExecutionContext)
    (r : CapabilityExecutionResult) (s : State) (id : String)
    → r.execution_id ≢ id
    → get_result id (conclude request context r s).1 ≡ get_result id s
unfolding append_audit save_result get_result
conclude-elsewhere request context r s id other =
    ground (arith, lookup-insert id r.execution_id r s.results, eq_iff r.execution_id id, other)

-- The execution is over with `r`: it is given back and stored, no request is kept for it, and of every
-- other execution the store says what it said in `s`.
pub record EndsWith (id : String) (r : CapabilityExecutionResult) (s : State)
    (o : Outcome CapabilityExecutionResult × State) : Type 0 where
  pub given : o.0 ≡ returned r
  pub stored : get_result id o.1 ≡ some r
  pub settled : get_pending id o.1 ≡ none
  pub elsewhere : (other : String) → id ≢ other → get_result other o.1 ≡ get_result other s

conclude-EndsWith :
    (request : CapabilityExecutionRequest) (context : AuthenticatedExecutionContext)
    (r : CapabilityExecutionResult) (s : State)
    → r.execution_id ≡ request.id
    → is_terminal r.status ≡ true
    → EndsWith request.id r s (conclude request context r s)
conclude-EndsWith request context r s e t =
    let ends = conclude-HasEnded request context r s e t in
    record {
      given = refl;
      stored = ends.1;
      settled = ends.2;
      elsewhere =
          λ other n. conclude-elsewhere request context r s other (λ same. n (sym e ∙ same));
    }

output_result-EndsWith :
    (request : CapabilityExecutionRequest) (context : AuthenticatedExecutionContext)
    (mode : PermissionMode) (run : Run) (output : Value) (dropped : Bool) (s : State)
    → EndsWith request.id
        (output_result request mode run output dropped)
        s
        (conclude request context (output_result request mode run output dropped) s)
output_result-EndsWith request context mode run output true s =
    conclude-EndsWith request context (output_result request mode run output true) s refl refl
output_result-EndsWith request context mode run output false s =
    conclude-EndsWith request context (output_result request mode run output false) s refl refl

-- A registered capability, whose arguments conform to its schema and whose token was not cancelled
-- before, is over in time with an output. The result that is given and stored is cancelled if the token
-- is cancelled by then and the policy lets it be cancelled, and completed with the output otherwise,
-- whatever the store says of the execution by then, and no request is kept for it. Of every other
-- execution the store says what it said at the end of the run.
pub execute_outputs :
    (engine : Engine) (request : CapabilityExecutionRequest)
    (context : AuthenticatedExecutionContext) (mode : PermissionMode) (run : Run) (s : State)
    (c : Capability) (output : Value)
    → get_capability request.capability_id engine.registry ≡ returned c
    → c.metadata.id ≡ request.capability_id
    → Conforms request.arguments c.metadata
    → InTime (get_or request.policy default_execution_policy) run
    → run.ending ≡ returned output
    → token_cancelled context.cancellation s.cancelled_tokens ≡ false
    → let ended = run.meanwhile (begin_execution request context mode run.started s) in
      EndsWith request.id
        (output_result request mode run output (
          (get_or request.policy default_execution_policy).cancellable
          && token_cancelled context.cancellation ended.cancelled_tokens))
        ended
        (execute engine request context mode run s)
unfolding execute begin_execution save_result append_audit clear_pending
execute_outputs engine request context mode run s c output found same fit in_time ending fresh =
    let policy = get_or request.policy default_execution_policy in
    let begun = begin_execution request context mode run.started s in
    let ended = run.meanwhile begun in
    rw
      (
        found,
        invoke_timely request.capability_id policy context.cancellation run begun fresh c
            request.arguments output same fit in_time ending,
      )
      (rw
        (finish_output request context mode run output
          (policy.cancellable && token_cancelled context.cancellation ended.cancelled_tokens) ended)
        (output_result-EndsWith request context mode run output
          (policy.cancellable && token_cancelled context.cancellation ended.cancelled_tokens)
          ended))
