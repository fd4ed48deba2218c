-- ===== src/Automation/Engine/Consistency.antt =====
-- What holds between the two tables of the execution store, and that an execution keeps it.
use memovi.Prelude.{
  ℕ, String, ◌≡◌, subst, refl, inl, inr, Bool, false, Option, none, some, str_eq, eq_iff, eq_refl,
  arith, is_some, Bool-cases, text-cases, get_or,
}
use memovi.Prelude.Maps.{lookup, lookup-insert, lookup-erase, lookup_of_erase}
use memovi.Automation.Values.{
  Outcome, returned, raised, invalid_arguments, pending_approval, executing, same_status,
  PermissionMode, CapabilityExecutionRequest, AuthenticatedExecutionContext,
  CapabilityExecutionResult, default_execution_policy, CapabilityExecutionPolicy,
}
use memovi.Automation.Store.{
  Capability, State, get_capability, save_result, get_result, save_pending, get_pending,
  clear_pending, cancel_token,
}
use memovi.Automation.Authorization.{Engine}
use memovi.Automation.Invoker.{Run, CapabilityResult, invoke}
use memovi.Automation.Invoker.After.{invoke-state}
use memovi.Automation.Engine.{
  append_audit, unregistered_result, failed_result, remember_token, result_of, conclude,
  begin_execution, finish_execution, status_of, execute_registered, execute,
}

abbrev pub waits : Option CapabilityExecutionResult → Bool
waits none = false
waits (some r) = same_status r.status pending_approval

-- An execution waits for an approval exactly if its request is kept, and both tables have their
-- items under their own identifiers.
abbrev pub IsConsistent : State → Type 0
IsConsistent s =
    ((id : String) → waits (get_result id s) ≡ is_some (get_pending id s))
    × ((id : String) (request : CapabilityExecutionRequest)
          (context : AuthenticatedExecutionContext)
        → get_pending id s ≡ some (request, context)
        → request.id ≡ id)
    × ((id : String) (r : CapabilityExecutionResult)
        → get_result id s ≡ some r
        → r.execution_id ≡ id)

keyed_after :
    (r : CapabilityExecutionResult) (s : State)
    → ((id : String) (x : CapabilityExecutionResult)
        → get_result id s ≡ some x
        → x.execution_id ≡ id)
    → (id : String) (x : CapabilityExecutionResult) → get_result id (save_result r s) ≡ some x
    → x.execution_id ≡ id
unfolding get_result save_result
keyed_after r s keyed id x h = elim (text-cases r.execution_id id) [
  | inl (b, e) ↦ ground (arith, h, b, e, lookup-insert id r.execution_id r s.results)
  | inr (b, e) ↦ keyed id x (rw (lookup-insert id r.execution_id r s.results, b) at h)
]

pub save_result-IsConsistent :
    (r : CapabilityExecutionResult) (s : State)
    → same_status r.status pending_approval ≡ false
    → IsConsistent s
    → IsConsistent (save_result r s)
unfolding save_result get_result get_pending
save_result-IsConsistent r s settled (same, keyed, results_keyed) = rw settled (
  λ id.
      rw (lookup-insert id r.execution_id r s.results, lookup-erase id r.execution_id s.pending)
        (elim (Bool-cases (str_eq r.execution_id id)) [
          | inl e ↦ rw e settled
          | inr e ↦ rw e (same id)
        ]),
  λ id request context h. keyed id request context (lookup_of_erase id r.execution_id s.pending h),
  keyed_after r s results_keyed,
)

pub clear_pending-IsConsistent :
    (id : String) (s : State)
    → waits (get_result id s) ≡ false
    → IsConsistent s
    → IsConsistent (clear_pending id s)
unfolding clear_pending get_result get_pending
clear_pending-IsConsistent id s settled (same, keyed, results_keyed) = (
  λ j. rw (lookup-erase j id s.pending) (elim (text-cases id j) [
    | inl (b, e) ↦ rw b (subst (λ k. waits (lookup k s.results) ≡ false) e settled)
    | inr (b, e) ↦ rw b (same j)
  ]),
  λ j request context h. keyed j request context (lookup_of_erase j id s.pending h),
  results_keyed,
)

-- The record of a key right after it is stored.
pub get_result-save_result :
    (r : CapabilityExecutionResult) (id : String) (s : State)
    → r.execution_id ≡ id
    → get_result id (save_result r s) ≡ some r
unfolding get_result save_result
get_result-save_result r id s e =
    ground (arith, lookup-insert id r.execution_id r s.results, eq_iff r.execution_id id, e)

-- A request is kept right after the record that waits is stored.
pub save_pending-IsConsistent :
    (request : CapabilityExecutionRequest) (context : AuthenticatedExecutionContext)
    (mode : PermissionMode) (now : ℕ) (s : State)
    → IsConsistent s
    → IsConsistent (
        save_pending request context
          (save_result (result_of request mode pending_approval none none now now) s))
unfolding save_pending save_result get_result get_pending
save_pending-IsConsistent request context mode now s (same, keyed, results_keyed) =
    let r = result_of request mode pending_approval none none now now in
    (
      λ j.
          rw
            (
              lookup-insert j request.id r s.results,
              lookup-insert j request.id (request, context) s.pending,
            )
            (elim (Bool-cases (str_eq request.id j)) [ inl e ↦ rw e refl | inr e ↦ rw e (same j) ]),
      λ j other_request other_context h. elim (text-cases request.id j) [
        | inl (b, e) ↦
            ground (arith, h, b, e, lookup-insert j request.id (request, context) s.pending)
        | inr (b, e) ↦
            keyed j other_request other_context
              (rw (lookup-insert j request.id (request, context) s.pending, b) at h)
      ],
      keyed_after r s results_keyed,
    )

begin_execution-IsConsistent :
    (request : CapabilityExecutionRequest) (context : AuthenticatedExecutionContext)
    (mode : PermissionMode) (now : ℕ) (s : State)
    → IsConsistent s
    → IsConsistent (begin_execution request context mode now s)
unfolding begin_execution append_audit get_result get_pending clear_pending save_result
begin_execution-IsConsistent request context mode now s h =
    let r = result_of request mode executing none none now now in
    let stored = save_result r (remember_token request.id context.cancellation s) in
    clear_pending-IsConsistent request.id stored
      (rw (lookup-insert request.id request.id r s.results, eq_refl request.id) refl)
      (save_result-IsConsistent r s refl h)

pub conclude-IsConsistent :
    (request : CapabilityExecutionRequest) (context : AuthenticatedExecutionContext)
    (r : CapabilityExecutionResult) (s : State)
    → same_status r.status pending_approval ≡ false
    → IsConsistent s
    → IsConsistent (conclude request context r s).1
unfolding append_audit save_result get_result get_pending
conclude-IsConsistent request context r s settled h = save_result-IsConsistent r s settled h

status_of-settled : (r : CapabilityResult) → same_status (status_of r) pending_approval ≡ false
status_of-settled r = ground (arith)

finish_execution-IsConsistent :
    (request : CapabilityExecutionRequest) (context : AuthenticatedExecutionContext)
    (mode : PermissionMode) (run : Run) (ended : Outcome CapabilityResult × State)
    → IsConsistent ended.1
    → IsConsistent (finish_execution request context mode run ended).1
unfolding finish_execution
finish_execution-IsConsistent request context mode run (returned r, s) h =
    conclude-IsConsistent request context
      (result_of request mode (status_of r) r.output r.error run.started run.finished) s
      (status_of-settled r) h
finish_execution-IsConsistent request context mode run (raised (invalid_arguments m), s) h =
    conclude-IsConsistent request context
      (failed_result request mode (record { code = "invalid_arguments"; message = m }) run.started
        run.finished)
      s refl h
finish_execution-IsConsistent request context mode run (raised e, s) h = h

pub cancel_token-IsConsistent :
    (token : ℕ) (s : State) → IsConsistent s → IsConsistent (cancel_token token s)
unfolding cancel_token get_result get_pending
cancel_token-IsConsistent token s h = h

-- What runs while a capability does keeps the store consistent, as the operations themselves do.
abbrev pub IsTame : Run → Type 0
IsTame run = (t : State) → IsConsistent t → IsConsistent (run.meanwhile t)

-- An execution keeps the store consistent if what runs meanwhile does.
pub execute-IsConsistent :
    (engine : Engine) (request : CapabilityExecutionRequest)
    (context : AuthenticatedExecutionContext) (mode : PermissionMode) (run : Run) (s : State)
    → IsTame run
    → IsConsistent s
    → IsConsistent (execute engine request context mode run s).1
unfolding execute
execute-IsConsistent engine request context mode run s tame h =
    go (get_capability request.capability_id engine.registry)
  where
    begun : State
    begun = begin_execution request context mode run.started s

    begun-IsConsistent : IsConsistent begun
    begun-IsConsistent = begin_execution-IsConsistent request context mode run.started s h

    policy : CapabilityExecutionPolicy
    policy = get_or request.policy default_execution_policy

    go :
        (c : Outcome Capability)
        → IsConsistent (execute_registered request context mode run c begun).1
    go (raised e) =
        conclude-IsConsistent request context (unregistered_result request mode run) begun refl
          begun-IsConsistent
    go (returned c) =
        finish_execution-IsConsistent request context mode run
          (invoke request.capability_id c request.arguments policy context.cancellation run begun)
          (invoke-state request.capability_id policy context.cancellation IsConsistent
            (λ t k. cancel_token-IsConsistent context.cancellation t k) run begun begun-IsConsistent
            (tame begun begun-IsConsistent) c request.arguments)
