-- ===== src/Automation/Durable/Runs.antt =====
-- The store in memory and the durable one under the same calls.
use memovi.Prelude.{ℕ, String, ◌≡◌, ◌≢◌, none, some, []}
use memovi.Prelude.Maps.{Option_map}
use memovi.Automation.Values.{
  Outcome, returned, raised, Value, executing, pending_approval, CapabilityExecutionRequest,
  AuthenticatedExecutionContext, CapabilityExecutionResult,
}
use memovi.Automation.Store
use memovi.Automation.Store.{State}
use memovi.Automation.Codec.RoundTrip.{IsOptionalName, safe_arguments}
use memovi.Automation.Durable
use memovi.Automation.Durable.{Table, safe_output}

-- A call that raises is rolled back.
abbrev pub kept_table : Table → Outcome Table → Table
kept_table rows (returned after) = after
kept_table rows (raised e) = rows

-- What a request and a context need in order to be read back.
pub record IsStorable (request : CapabilityExecutionRequest) (auth : AuthenticatedExecutionContext)
    : Type 0 where
  pub conversation : IsOptionalName request.conversation_id
  pub source : request.source ≢ ""
  pub auth_conversation : IsOptionalName auth.conversation_id
  pub auth_source : auth.source ≢ ""

-- Calls from empty stores on, as the engine makes them. `_execute` stores an execution as executing and
-- clears its pending payload at once, and that pair of calls is one step: between the two the store in
-- memory has dropped the payload already, and the table still has it. Another result that is executing
-- is stored, by `_publish_progress`, only where no payload is kept. A payload is kept for an execution
-- that waits for an approval.
pub data Runs (shown : Value → String) : State → Table → Type 0 where
  started : {s : State} → s.results ≡ [] → s.pending ≡ [] → Runs shown s []
  saved :
      {s : State} {rows : Table}
      → Runs shown s rows
      → (r : CapabilityExecutionResult)
      → (r.status ≡ executing → Store.get_pending r.execution_id s ≡ none)
      → Runs shown (Store.save_result r s) (Durable.save_result r rows)
  begun :
      {s : State} {rows : Table}
      → Runs shown s rows
      → (now : ℕ) (r : CapabilityExecutionResult)
      → Runs shown
          (Store.clear_pending r.execution_id (Store.save_result r s))
          (Durable.clear_pending now r.execution_id (Durable.save_result r rows))
  suspended :
      {s : State} {rows : Table}
      → Runs shown s rows
      → (now : ℕ) (request : CapabilityExecutionRequest) (auth : AuthenticatedExecutionContext)
      → IsStorable request auth
      → (r : CapabilityExecutionResult) → Store.get_result request.id s ≡ some r
      → r.status ≡ pending_approval
      → Runs shown
          (Store.save_pending request auth s)
          (kept_table rows (Durable.save_pending now request auth rows))
  cleared :
      {s : State} {rows : Table}
      → Runs shown s rows
      → (now : ℕ) (id : String)
      → Runs shown (Store.clear_pending id s) (Durable.clear_pending now id rows)
  recovered :
      {s : State} {rows : Table}
      → Runs shown s rows
      → (now later : ℕ) (reason : String)
      → Runs shown
          (Store.fail_interrupted_executions now reason s).1
          (Durable.fail_interrupted_executions shown later reason rows).1
  elsewhere :
      {s after : State} {rows : Table}
      → Runs shown s rows
      → after.results ≡ s.results
      → after.pending ≡ s.pending
      → Runs shown after rows

-- A result but for its times, and as JSON keeps it.
abbrev pub timeless : CapabilityExecutionResult → CapabilityExecutionResult
timeless r = record r { created_at = 0; updated_at = 0 }

abbrev pub kept_result : CapabilityExecutionResult → CapabilityExecutionResult
kept_result r = record r { output = safe_output r.output; created_at = 0; updated_at = 0 }

abbrev pub kept_pending :
    ℕ
    → CapabilityExecutionRequest × AuthenticatedExecutionContext
    → CapabilityExecutionRequest × AuthenticatedExecutionContext
kept_pending token (request, auth) = (
  record request { arguments = safe_arguments request.arguments },
  record auth { cancellation = token },
)

-- The reads of an execution in the two stores.
pub record Agrees (shown : Value → String) (id : String) (s : State) (rows : Table) : Type 0 where
  pub result :
      Option_map timeless (Durable.get_result shown id rows)
      ≡ Option_map kept_result (Store.get_result id s)
  pub pending :
      (token : ℕ)
      → Durable.get_pending shown token id rows
        ≡ returned (Option_map (kept_pending token) (Store.get_pending id s))
  pub idle :
      (r : CapabilityExecutionResult)
      → Store.get_result id s ≡ some r
      → r.status ≡ executing
      → Store.get_pending id s ≡ none
  pub absent : Store.get_result id s ≡ none → Store.get_pending id s ≡ none
