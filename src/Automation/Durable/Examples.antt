-- ===== src/Automation/Durable/Examples.antt =====
-- The theorems on the durable store and its codec at concrete executions.
use memovi.Prelude.{
  String, ◌≡◌, refl, ◌≢◌, none, some, [], ◌∷◌, eq_iff, str_eq, sym, ◌∙◌, true, false,
}
use memovi.Prelude.Maps.{Option_map, lookup, insert}
use memovi.Prelude.Strings.{strip, lstrip, rstrip}
use memovi.Automation.Values.{
  returned, Value, text, opaque, pending_approval, executing, ask_every_time,
  CapabilityExecutionRequest, AuthenticatedExecutionContext, CapabilityExecutionResult,
}
use memovi.Automation.Store
use memovi.Automation.Store.{State}
use memovi.Automation.Codec.{serialize_pending_request, deserialize_pending_request}
use memovi.Automation.Codec.RoundTrip.{safe_arguments, pending_request_again}
use memovi.Automation.Durable
use memovi.Automation.Durable.{Table}
use memovi.Automation.Durable.Runs.{
  Runs, started, saved, begun, suspended, IsStorable, timeless, kept_result, kept_pending,
  kept_table,
}
use memovi.Automation.Durable.Refinement.{run_refines}

abbrev shown : Value → String
shown v = "object"

abbrev no_state : State
no_state = record {
  results = [];
  pending = [];
  modes = [];
  cancellations = [];
  cancelled_tokens = [];
  audit = [];
}

abbrev request : CapabilityExecutionRequest
request = record {
  id = "e1";
  capability_id = "terminal";
  workspace_id = "w1";
  arguments = ("path", opaque "/tmp") ∷ ("command", text "ls") ∷ [];
  conversation_id = some "c1";
  policy = none;
  source = "chat";
}

abbrev auth : AuthenticatedExecutionContext
auth = record {
  user_id = "u1";
  workspace_id = "w1";
  session_id = "s1";
  request_id = "q1";
  cancellation = 7;
  conversation_id = none;
  source = "chat";
}

abbrev waiting : CapabilityExecutionResult
waiting = record {
  execution_id = "e1";
  capability_id = "terminal";
  workspace_id = "w1";
  status = pending_approval;
  permission_mode = ask_every_time;
  output = none;
  error = none;
  conversation_id = some "c1";
  source = "chat";
  created_at = 1;
  updated_at = 1;
}

abbrev suspended_state : State
suspended_state = Store.save_pending request auth (Store.save_result waiting no_state)

abbrev suspended_table : Table
suspended_table =
    kept_table (Durable.save_result waiting [])
      (Durable.save_pending 2 request auth (Durable.save_result waiting []))

filled : {s : String} → str_eq s "" ≡ false → s ≢ ""
filled {s} h e = let clash : false ≡ true = sym h ∙ (eq_iff s "").1 e in absurd cc

request-IsStorable : IsStorable request auth
unfolding strip lstrip rstrip
request-IsStorable = record {
  conversation = (refl, filled refl);
  source = filled refl;
  auth_conversation = tt;
  auth_source = filled refl;
}

suspended_run : Runs shown suspended_state suspended_table
unfolding Store.get_result Store.save_result lookup insert
suspended_run =
    suspended (saved (started refl refl) waiting (λ h. absurd cc)) 2 request auth request-IsStorable
      waiting refl refl

abbrev running : CapabilityExecutionResult
running = record waiting { status = executing }

-- The approval of the execution: it is stored as executing, and its request is cleared.
abbrev approved_state : State
approved_state = Store.clear_pending "e1" (Store.save_result running suspended_state)

abbrev approved_table : Table
approved_table = Durable.clear_pending 3 "e1" (Durable.save_result running suspended_table)

run_refines_example :
    (Option_map timeless (Durable.get_result shown "e1" approved_table)
      ≡ Option_map kept_result (Store.get_result "e1" approved_state))
    × (Durable.get_pending shown 9 "e1" approved_table
        ≡ returned (Option_map (kept_pending 9) (Store.get_pending "e1" approved_state)))
    × (Option_map timeless
          (Durable.get_result shown "e1" (Durable.save_result running approved_table))
        ≡ Option_map kept_result (Store.get_result "e1" (Store.save_result running approved_state)))
    × (Durable.get_pending shown 9 "e1" (Durable.save_result running approved_table)
        ≡ returned (Option_map (kept_pending 9) (Store.get_pending "e1" approved_state)))
run_refines_example =
    run_refines shown approved_state approved_table (begun suspended_run 3 running) "e1" 9 running
      refl

pending_request_again_example :
    deserialize_pending_request shown (serialize_pending_request request)
    ≡ returned (record request { arguments = safe_arguments request.arguments })
unfolding strip lstrip rstrip
pending_request_again_example =
    pending_request_again shown request (refl, filled refl) (filled refl)
