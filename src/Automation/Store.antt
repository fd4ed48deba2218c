-- ===== src/Automation/Store.antt =====
-- packages/automation/src/memovi_automation: infrastructure/in_memory_execution_state_store.py,
-- infrastructure/in_memory_permission_policy_store.py and application/services/capability_registry.py,
-- with what the execution engine keeps of its own.
use memovi.Prelude.{
  ℕ, String, concat, Bool, true, false, ◌&&◌, ◌||◌, Option, none, some, List, [], ◌∷◌, filter, leb,
  str_eq, if◌then◌else◌, is_some, ◌==◌,
}
use memovi.Prelude.Strings.{strip}
use memovi.Prelude.Maps.{lookup, insert, erase, map_values}
use memovi.Automation.Values.{
  Outcome, returned, raised, unknown_capability, automation_domain, Arguments, CapabilityMetadata,
  PermissionMode, CapabilityExecutionStatus, pending_approval, executing, failed, same_status,
  CapabilityExecutionRequest, AuthenticatedExecutionContext, CapabilityExecutionResult,
  ExecutionAuditEntry,
}

-- A registered capability: what the protocol of application/ports.py lets the engine ask of it. What
-- an execution does is an argument of the engine's operations.
pub record Capability : Type 0 where
  pub metadata : CapabilityMetadata
  -- The operations that it declares, where it does.
  pub supported_operations : Option (List String)
  -- The optional hook `evaluate_submit_policy`, which gives the mode to apply or raises.
  pub evaluate_submit : Option (Arguments → PermissionMode → Outcome PermissionMode)

-- The state that outlives an operation: the execution store, the permission policies, the engine's
-- own table of tokens, the tokens that are cancelled, and the audit trail.
pub record State : Type 0 where
  pub results : List (String × CapabilityExecutionResult)
  pub pending : List (String × (CapabilityExecutionRequest × AuthenticatedExecutionContext))
  pub modes : List ((String × String) × PermissionMode)
  pub cancellations : List (String × ℕ)
  pub cancelled_tokens : List ℕ
  pub audit : List ExecutionAuditEntry

-- CapabilityRegistry
abbrev get_registered : String → Option Capability → Outcome Capability
get_registered id none =
    raised (unknown_capability (concat "Unknown capability '" (concat id "'.")))
get_registered id (some c) = returned c

abbrev register_unless :
    String → Capability → Bool → List (String × Capability) → Outcome (List (String × Capability))
register_unless id c true registry =
    raised (automation_domain (concat "Capability '" (concat id "' is already registered.")))
register_unless id c false registry = returned (insert id c registry)

unfoldable pub register :
    Capability → List (String × Capability) → Outcome (List (String × Capability))
register c registry =
    if str_eq (strip c.metadata.id) ""
    then raised (automation_domain "Cannot register a capability with a blank id.")
    else register_unless (strip c.metadata.id) c (is_some (lookup (strip c.metadata.id) registry))
        registry

unfoldable pub get_capability : String → List (String × Capability) → Outcome Capability
get_capability id registry = get_registered id (lookup (strip id) registry)

-- InMemoryExecutionStateStore
unfoldable pub save_result : CapabilityExecutionResult → State → State
save_result r s = record s {
  results = insert r.execution_id r s.results;
  pending =
      if same_status r.status pending_approval then s.pending else erase r.execution_id s.pending;
}

unfoldable pub get_result : String → State → Option CapabilityExecutionResult
get_result id s = lookup id s.results

unfoldable pub save_pending :
    CapabilityExecutionRequest → AuthenticatedExecutionContext → State → State
save_pending request context s = record s {
  pending = insert request.id (request, context) s.pending;
}

unfoldable pub get_pending :
    String → State → Option (CapabilityExecutionRequest × AuthenticatedExecutionContext)
get_pending id s = lookup id s.pending

unfoldable pub clear_pending : String → State → State
clear_pending id s = record s { pending = erase id s.pending }

abbrev same_option : Option CapabilityExecutionStatus → CapabilityExecutionStatus → Bool
same_option none status = true
same_option (some wanted) status = same_status status wanted

abbrev same_conversation : Option String → Option String → Bool
same_conversation none conversation = true
same_conversation (some wanted) none = false
same_conversation (some wanted) (some conversation) = str_eq conversation wanted

abbrev pub values : List (String × CapabilityExecutionResult) → List CapabilityExecutionResult
values [] = []
values ((id, r) ∷ items) = r ∷ values items

-- A stable sort by the time of the last change.
abbrev insert_by_time :
    CapabilityExecutionResult → List CapabilityExecutionResult → List CapabilityExecutionResult
insert_by_time r [] = r ∷ []
insert_by_time r (x ∷ xs) =
    let rest = insert_by_time r xs in if leb r.updated_at x.updated_at then r ∷ x ∷ xs else x ∷ rest

abbrev sort_by_time : List CapabilityExecutionResult → List CapabilityExecutionResult
sort_by_time [] = []
sort_by_time (r ∷ rs) = insert_by_time r (sort_by_time rs)

unfoldable pub list_results :
    String
    → Option CapabilityExecutionStatus
    → Option String
    → State
    → List CapabilityExecutionResult
list_results workspace status conversation s = sort_by_time (
    filter
      (λ r.
        str_eq r.workspace_id workspace
        && same_option status r.status
        && same_conversation conversation r.conversation_id)
      (values s.results))

-- One round of the loop of `fail_interrupted_executions`.
unfoldable pub interrupted_to_failed :
    ℕ → String → CapabilityExecutionResult → CapabilityExecutionResult
interrupted_to_failed now reason r =
    if same_status r.status executing
    then record r {
      status = failed;
      error = some (record { code = "interrupted_by_restart"; message = reason });
      updated_at = now;
    }
    else r

abbrev pub interrupted_items :
    List (String × CapabilityExecutionResult) → List (String × CapabilityExecutionResult)
interrupted_items = filter (λ item. same_status item.1.status executing)

unfoldable pub fail_interrupted_executions :
    ℕ → String → State → List CapabilityExecutionResult × State
unfolding interrupted_to_failed
fail_interrupted_executions now reason s = (
  values (map_values (interrupted_to_failed now reason) (interrupted_items s.results)),
  record s { results = map_values (interrupted_to_failed now reason) s.results },
)

-- InMemoryPermissionPolicyStore
unfoldable pub get_mode :
    PermissionMode → String → String → List ((String × String) × PermissionMode) → PermissionMode
get_mode default_mode workspace capability [] = default_mode
get_mode default_mode workspace capability (((w, c), mode) ∷ modes) =
    if str_eq w workspace && str_eq c capability
    then mode
    else get_mode default_mode workspace capability modes

unfoldable pub set_mode :
    String
    → String
    → PermissionMode
    → List ((String × String) × PermissionMode)
    → List ((String × String) × PermissionMode)
set_mode workspace capability mode [] = ((workspace, capability), mode) ∷ []
set_mode workspace capability mode (((w, c), old) ∷ modes) =
    let rest = set_mode workspace capability mode modes in
    if str_eq w workspace && str_eq c capability
    then ((w, c), mode) ∷ modes
    else ((w, c), old) ∷ rest

-- CancellationToken.cancel and .is_cancelled
unfoldable pub cancel_token : ℕ → State → State
cancel_token token s = record s { cancelled_tokens = token ∷ s.cancelled_tokens }

unfoldable pub token_cancelled : ℕ → List ℕ → Bool
token_cancelled token [] = false
token_cancelled token (t ∷ ts) = t == token || token_cancelled token ts
