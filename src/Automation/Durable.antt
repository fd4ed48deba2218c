-- ===== src/Automation/Durable.antt =====
-- packages/automation/src/memovi_automation/infrastructure/sqlalchemy_execution_state_store.py, over
-- the rows of its table. The statuses and the modes are kept as the enums that their texts name. Left
-- out are the user, the session and the correlation, and the columns of times that no read returns.
pub mod Runs
pub mod Saving
pub mod Recovering
pub mod Refinement
pub mod Examples
pub mod Reads
use memovi.Prelude.{
  ℕ, String, concat, Bool, true, false, Option, none, some, List, [], ◌∷◌, ◌++◌, map, filter,
  str_eq, if◌then◌else◌,
}
use memovi.Prelude.Table.{get, modify}
use memovi.Automation.Values.{
  Outcome, returned, raised, other, Value, Arguments, PermissionMode, CapabilityExecutionStatus,
  executing, failed, same_status, is_terminal, CapabilityExecutionRequest,
  AuthenticatedExecutionContext, CapabilityExecutionResult, CapabilityError,
}
use memovi.Automation.Codec.{
  json_safe, serialize_error, deserialize_error, serialize_pending_request,
  deserialize_pending_request, serialize_auth_context, deserialize_auth_context,
}

pub record CapabilityExecutionRecord : Type 0 where
  pub execution_id : String
  pub workspace_id : String
  pub capability_id : String
  pub status : CapabilityExecutionStatus
  pub permission_mode : PermissionMode
  pub conversation_id : Option String
  pub output : Option Value
  pub error : Option Arguments
  -- `metadata_json["source"]`
  pub source : String
  pub pending_request : Option Arguments
  pub pending_auth : Option Arguments
  pub created_at : ℕ
  pub updated_at : ℕ

abbrev pub execution_key : CapabilityExecutionRecord → String
execution_key row = row.execution_id

abbrev pub Table : Type 0
Table = List CapabilityExecutionRecord

abbrev pub safe_output : Option Value → Option Value
safe_output none = none
safe_output (some v) = some (json_safe v)

abbrev pub new_record : CapabilityExecutionResult → CapabilityExecutionRecord
new_record result = record {
  execution_id = result.execution_id;
  workspace_id = result.workspace_id;
  capability_id = result.capability_id;
  status = result.status;
  permission_mode = result.permission_mode;
  conversation_id = result.conversation_id;
  output = safe_output result.output;
  error = serialize_error result.error;
  source = result.source;
  pending_request = none;
  pending_auth = none;
  created_at = result.created_at;
  updated_at = result.updated_at;
}

-- The assignments of `save_result` to a row.
abbrev pub overwrite :
    CapabilityExecutionResult → CapabilityExecutionRecord → CapabilityExecutionRecord
overwrite result row = record row {
  workspace_id = result.workspace_id;
  capability_id = result.capability_id;
  status = result.status;
  permission_mode = result.permission_mode;
  conversation_id = result.conversation_id;
  output = safe_output result.output;
  error = serialize_error result.error;
  source = result.source;
  updated_at = result.updated_at;
  pending_request = if is_terminal result.status then none else row.pending_request;
  pending_auth = if is_terminal result.status then none else row.pending_auth;
}

abbrev pub put_result : CapabilityExecutionResult → Table → Option CapabilityExecutionRecord → Table
put_result result rows none = rows ++ new_record result ∷ []
put_result result rows (some row) = modify execution_key result.execution_id (overwrite result) rows

-- SqlAlchemyExecutionStateStore.save_result
unfoldable pub save_result : CapabilityExecutionResult → Table → Table
save_result result rows = put_result result rows (get execution_key result.execution_id rows)

abbrev pub attach :
    ℕ
    → CapabilityExecutionRequest
    → AuthenticatedExecutionContext
    → CapabilityExecutionRecord
    → CapabilityExecutionRecord
attach now request auth row = record row {
  pending_request = some (serialize_pending_request request);
  pending_auth = some (serialize_auth_context auth);
  updated_at = now;
}

abbrev pub put_pending :
    ℕ
    → CapabilityExecutionRequest
    → AuthenticatedExecutionContext
    → Table
    → Option CapabilityExecutionRecord
    → Outcome Table
put_pending now request auth rows none =
    raised (
      other (concat "Cannot save pending payload for unknown execution '" (concat request.id "'.")))
put_pending now request auth rows (some row) =
    returned (modify execution_key request.id (attach now request auth) rows)

-- SqlAlchemyExecutionStateStore.save_pending
unfoldable pub save_pending :
    ℕ → CapabilityExecutionRequest → AuthenticatedExecutionContext → Table → Outcome Table
save_pending now request auth rows =
    put_pending now request auth rows (get execution_key request.id rows)

abbrev pub detach : ℕ → CapabilityExecutionRecord → CapabilityExecutionRecord
detach now row = record row { pending_request = none; pending_auth = none; updated_at = now }

-- SqlAlchemyExecutionStateStore.clear_pending, which does nothing without a row
unfoldable pub clear_pending : ℕ → String → Table → Table
clear_pending now id rows = modify execution_key id (detach now) rows

-- One round of the loop of `fail_interrupted_executions`.
abbrev pub interrupted_row : ℕ → String → CapabilityExecutionRecord → CapabilityExecutionRecord
interrupted_row now reason row =
    if same_status row.status executing
    then record row {
      status = failed;
      error = serialize_error (some (record { code = "interrupted_by_restart"; message = reason }));
      updated_at = now;
      pending_request = none;
      pending_auth = none;
    }
    else row

module _ (shown : Value → String) where
  abbrev pub to_result : CapabilityExecutionRecord → CapabilityExecutionResult
  to_result row = record {
    execution_id = row.execution_id;
    capability_id = row.capability_id;
    workspace_id = row.workspace_id;
    status = row.status;
    permission_mode = row.permission_mode;
    output = row.output;
    error = deserialize_error shown row.error;
    conversation_id = row.conversation_id;
    source = row.source;
    created_at = row.created_at;
    updated_at = row.updated_at;
  }

  abbrev pub result_of_row : Option CapabilityExecutionRecord → Option CapabilityExecutionResult
  result_of_row none = none
  result_of_row (some row) = some (to_result row)

  -- SqlAlchemyExecutionStateStore.get_result
  unfoldable pub get_result : String → Table → Option CapabilityExecutionResult
  get_result id rows = result_of_row (get execution_key id rows)

  -- SqlAlchemyExecutionStateStore.fail_interrupted_executions
  unfoldable pub fail_interrupted_executions :
      ℕ → String → Table → List CapabilityExecutionResult × Table
  fail_interrupted_executions now reason rows = (
    map (λ row. to_result (interrupted_row now reason row))
        (filter (λ row. same_status row.status executing) rows),
    map (interrupted_row now reason) rows,
  )

  abbrev pub pair_up :
      Outcome CapabilityExecutionRequest
      → Outcome AuthenticatedExecutionContext
      → Outcome (Option (CapabilityExecutionRequest × AuthenticatedExecutionContext))
  pair_up (returned request) (returned auth) = returned (some (request, auth))
  pair_up (raised e) auth = raised e
  pair_up (returned request) (raised e) = raised e

  abbrev pub read_pending :
      ℕ
      → Option Arguments
      → Option Arguments
      → Outcome (Option (CapabilityExecutionRequest × AuthenticatedExecutionContext))
  read_pending token (some request) (some auth) =
      pair_up (deserialize_pending_request shown request)
        (deserialize_auth_context shown token auth)
  read_pending token none auth = returned none
  read_pending token (some request) none = returned none

  abbrev pub pending_of_row :
      ℕ
      → Option CapabilityExecutionRecord
      → Outcome (Option (CapabilityExecutionRequest × AuthenticatedExecutionContext))
  pending_of_row token none = returned none
  pending_of_row token (some row) = read_pending token row.pending_request row.pending_auth

  -- SqlAlchemyExecutionStateStore.get_pending, whose context has a new token
  unfoldable pub get_pending :
      ℕ
      → String
      → Table
      → Outcome (Option (CapabilityExecutionRequest × AuthenticatedExecutionContext))
  get_pending token id rows = pending_of_row token (get execution_key id rows)
