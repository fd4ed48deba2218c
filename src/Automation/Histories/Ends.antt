-- ===== src/Automation/Histories/Ends.antt =====
-- Cancellation, recovery, progress and the permission modes keep the execution store consistent.
use memovi.Prelude.{
  ℕ, String, ◌≡◌, ◌∙◌, ap, ◌⊎◌, refl, inl, inr, Option, none, some, List, [], ◌∷◌, str_eq, arith,
  Bool-cases,
}
use memovi.Prelude.Maps.{lookup, lookup-map_values, Option_map}
use memovi.Automation.Values.{
  Value, Error, Outcome, returned, raised, PermissionMode, same_status, is_terminal, executing,
  AuthenticatedExecutionContext, CapabilityExecutionResult,
}
use memovi.Automation.Store.{
  State, get_result, get_pending, save_result, clear_pending, fail_interrupted_executions,
  interrupted_to_failed, get_capability,
}
use memovi.Automation.Authorization.{Engine, require_workspace_owner}
use memovi.Automation.Engine.{published, append_audit}
use memovi.Automation.Engine.Consistency.{
  get_result-save_result, IsConsistent, waits, save_result-IsConsistent, clear_pending-IsConsistent,
  cancel_token-IsConsistent,
}
use memovi.Automation.Operations.{
  for_member, cancel_found, cancel_current, cancel_flag, cancelled_from,
}
use memovi.Automation.Administration.{
  recover_interrupted_executions, set_permission_mode, interruption, audit_all,
}

outcome-cases :
    {A : Type 0} (o : Outcome A) → ((a : A) × (o ≡ returned a)) ⊎ ((e : Error) × (o ≡ raised e))
outcome-cases (returned a) = inl (a, refl)
outcome-cases (raised e) = inr (e, refl)

cancel_flag-IsConsistent :
    (token : Option ℕ) (s : State) → IsConsistent s → IsConsistent (cancel_flag token s)
cancel_flag-IsConsistent none s h = h
cancel_flag-IsConsistent (some token) s h = cancel_token-IsConsistent token s h

cancel_current-IsConsistent :
    (id : String) (context : AuthenticatedExecutionContext) (now : ℕ)
    (current : CapabilityExecutionResult) (s : State)
    → get_result id s ≡ some current
    → IsConsistent s
    → IsConsistent (cancel_current id context now current s).1
unfolding cancel_current append_audit save_result clear_pending get_result get_pending
cancel_current-IsConsistent id context now current s found h =
    let flagged = cancel_flag (lookup id s.cancellations) s in
    let r = cancelled_from current now in
    clear_pending-IsConsistent id (save_result r flagged)
      (ap waits (get_result-save_result r id flagged (h.2 id current found)))
      (save_result-IsConsistent r flagged refl
        (cancel_flag-IsConsistent (lookup id s.cancellations) s h))

pub cancel_found-IsConsistent :
    (id workspace : String) (context : AuthenticatedExecutionContext) (now : ℕ) (s : State)
    (current : Option CapabilityExecutionResult)
    → get_result id s ≡ current
    → IsConsistent s
    → IsConsistent (cancel_found id workspace context now s current).1
cancel_found-IsConsistent id workspace context now s none e h = h
cancel_found-IsConsistent id workspace context now s (some current) e h =
    elim (Bool-cases (str_eq current.workspace_id workspace)) [
      | inl b ↦ rw b (elim (Bool-cases (is_terminal current.status)) [
        | inl t ↦ rw t h
        | inr t ↦ rw t (cancel_current-IsConsistent id context now current s e h)
      ])
      | inr b ↦ rw b h
    ]

pub for_member-IsConsistent :
    (s : State) (rest : Outcome CapabilityExecutionResult × State) (member : Outcome (Unit {0}))
    → IsConsistent s
    → IsConsistent rest.1
    → IsConsistent (for_member s rest member).1
for_member-IsConsistent s rest (returned member) h k = k
for_member-IsConsistent s rest (raised e) h k = h

audit_all-IsConsistent :
    (rs : List CapabilityExecutionResult) (s : State)
    → IsConsistent s
    → IsConsistent (audit_all rs s)
unfolding append_audit get_result get_pending
audit_all-IsConsistent [] s h = h
audit_all-IsConsistent (r ∷ rs) s h = audit_all-IsConsistent rs (append_audit r.source none r s) h

waits-interrupted :
    (now : ℕ) (reason : String) (r : Option CapabilityExecutionResult)
    → waits (Option_map (interrupted_to_failed now reason) r) ≡ waits r
unfolding interrupted_to_failed
waits-interrupted now reason none = refl
waits-interrupted now reason (some r) = elim (Bool-cases (same_status r.status executing)) [
  | inl e ↦ rw e (ground (arith, e))
  | inr e ↦ rw e refl
]

keyed-interrupted :
    (now : ℕ) (reason id : String) (stored : Option CapabilityExecutionResult)
    (r : CapabilityExecutionResult)
    → ((x : CapabilityExecutionResult) → stored ≡ some x → x.execution_id ≡ id)
    → Option_map (interrupted_to_failed now reason) stored ≡ some r
    → r.execution_id ≡ id
unfolding interrupted_to_failed
keyed-interrupted now reason id none r keyed h = cc
keyed-interrupted now reason id (some x) r keyed h =
    elim (Bool-cases (same_status x.status executing)) [
      | inl e ↦ ground (arith, rw e at h, keyed x refl)
      | inr e ↦ ground (arith, rw e at h, keyed x refl)
    ]

pub recover-IsConsistent :
    (now : ℕ) (s : State) → IsConsistent s → IsConsistent (recover_interrupted_executions now s).1
unfolding recover_interrupted_executions fail_interrupted_executions get_result get_pending
    interrupted_to_failed
recover-IsConsistent now s (same, keyed, results_keyed) =
    audit_all-IsConsistent (fail_interrupted_executions now interruption s).0
      (fail_interrupted_executions now interruption s).1
      (
        λ id.
            rw (lookup-map_values (interrupted_to_failed now interruption) id s.results)
              (waits-interrupted now interruption (lookup id s.results) ∙ same id),
        keyed,
        λ id r h.
            keyed-interrupted now interruption id (lookup id s.results) r (results_keyed id)
              (rw (lookup-map_values (interrupted_to_failed now interruption) id s.results) at h),
      )

pub mode-IsConsistent :
    (engine : Engine) (capability : String) (mode : PermissionMode) (workspace : String)
    (context : AuthenticatedExecutionContext) (s : State)
    → IsConsistent s
    → IsConsistent (set_permission_mode engine capability mode workspace context s).1
unfolding set_permission_mode get_result get_pending
mode-IsConsistent engine capability mode workspace context s h =
    elim (outcome-cases (require_workspace_owner engine context.user_id workspace)) [
      | inl (u, e) ↦ rw e (elim (outcome-cases (get_capability capability engine.registry)) [
        | inl (c, k) ↦ rw k h
        | inr (x, k) ↦ rw k h
      ])
      | inr (x, e) ↦ rw e h
    ]

pub published-IsConsistent :
    (output : Value) (now : ℕ) (s : State) (current : Option CapabilityExecutionResult)
    → IsConsistent s
    → IsConsistent (published output now s current)
published-IsConsistent output now s none h = h
published-IsConsistent output now s (some current) h =
    elim (Bool-cases (same_status current.status executing)) [
      | inl e ↦ rw e (
          save_result-IsConsistent (record current { output = some output; updated_at = now }) s
            (ground (arith, e)) h)
      | inr e ↦ rw e h
    ]
