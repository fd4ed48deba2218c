-- ===== src/Automation/Administration/Recovery.antt =====
-- What a recovery leaves of the executions that a restart interrupted.
use memovi.Prelude.{
  ℕ, String, ◌≡◌, ◌≢◌, refl, inl, inr, ◌⊎◌, true, false, none, some, List, [], ◌∷◌, Bool-cases,
}
use memovi.Prelude.Maps.{map_values, lookup-map_values}
use memovi.Automation.Values.{
  CapabilityExecutionStatus, pending_approval, completed, cancelled, executing, failed, same_status,
  CapabilityExecutionResult,
}
use memovi.Automation.Store.{
  State, get_result, interrupted_to_failed, interrupted_items, fail_interrupted_executions,
}
use memovi.Automation.Engine.{append_audit}
use memovi.Automation.Administration.{recover_interrupted_executions, interruption, audit_all}

audit_all-results :
    (rs : List CapabilityExecutionResult) (s : State) → (audit_all rs s).results ≡ s.results
unfolding append_audit
audit_all-results [] s = refl
audit_all-results (r ∷ rs) s = audit_all-results rs (append_audit r.source none r s)

interrupted_twice :
    (now later : ℕ) (reason : String) (r : CapabilityExecutionResult)
    → interrupted_to_failed later reason (interrupted_to_failed now reason r)
      ≡ interrupted_to_failed now reason r
unfolding interrupted_to_failed
interrupted_twice now later reason r = elim (Bool-cases (same_status r.status executing)) [
  | inl e ↦ rw e refl
  | inr e ↦ rw (e, e) refl
]

not_executing_after :
    (now : ℕ) (reason : String) (r : CapabilityExecutionResult)
    → same_status (interrupted_to_failed now reason r).status executing ≡ false
unfolding interrupted_to_failed
not_executing_after now reason r = elim (Bool-cases (same_status r.status executing)) [
  | inl e ↦ rw e refl
  | inr e ↦ rw (e, e) refl
]

none_interrupted :
    (now : ℕ) (reason : String) (items : List (String × CapabilityExecutionResult))
    → interrupted_items (map_values (interrupted_to_failed now reason) items) ≡ []
unfolding map_values
none_interrupted now reason [] = refl
none_interrupted now reason ((id, r) ∷ items) =
    rw (not_executing_after now reason r) (none_interrupted now reason items)

map_values_twice :
    (now later : ℕ) (reason : String) (items : List (String × CapabilityExecutionResult))
    → map_values
        (interrupted_to_failed later reason)
        (map_values (interrupted_to_failed now reason) items)
      ≡ map_values (interrupted_to_failed now reason) items
unfolding map_values
map_values_twice now later reason [] = refl
map_values_twice now later reason ((id, r) ∷ items) =
    rw (interrupted_twice now later reason r, map_values_twice now later reason items) refl

-- The results after a recovery.
recovered_results :
    (now : ℕ) (s : State)
    → (recover_interrupted_executions now s).1.results
      ≡ map_values (interrupted_to_failed now interruption) s.results
unfolding recover_interrupted_executions fail_interrupted_executions
recovered_results now s =
    audit_all-results (fail_interrupted_executions now interruption s).0
      (fail_interrupted_executions now interruption s).1

nothing_to_recover :
    (later : ℕ) (s : State)
    → interrupted_items s.results ≡ []
    → map_values (interrupted_to_failed later interruption) s.results ≡ s.results
    → recover_interrupted_executions later s ≡ ([], s)
unfolding recover_interrupted_executions fail_interrupted_executions map_values
nothing_to_recover later s idle same = rw (idle, same) refl

executing_of :
    (status : CapabilityExecutionStatus) → same_status status executing ≡ true → status ≡ executing
executing_of pending_approval h = cc
executing_of executing h = refl
executing_of completed h = cc
executing_of failed h = cc
executing_of cancelled h = cc

same_executing :
    (status : CapabilityExecutionStatus) → status ≡ executing → same_status status executing ≡ true
same_executing status e = rw e refl

-- What a recovery makes of an interrupted execution.
abbrev pub interrupted_result : ℕ → CapabilityExecutionResult → CapabilityExecutionResult
interrupted_result now r = record r {
  status = failed;
  error = some (record { code = "interrupted_by_restart"; message = interruption });
  updated_at = now;
}

-- What the store says after a recovery of an execution of which it said `r`.
abbrev pub AfterRecovery : ℕ → CapabilityExecutionResult → CapabilityExecutionResult → Type 0
AfterRecovery now r x =
    ((r.status ≡ executing) × (x ≡ interrupted_result now r)) ⊎ ((r.status ≢ executing) × (x ≡ r))

-- After a recovery a result that was being executed has failed, at its time and as interrupted, and any
-- other result is as it was; a second recovery finds nothing and changes nothing.
pub recovered_once :
    (now later : ℕ) (s : State) (id : String) (r : CapabilityExecutionResult)
    → get_result id s ≡ some r
    → let recovered = (recover_interrupted_executions now s).1 in
      ((x : CapabilityExecutionResult) × (get_result id recovered ≡ some x) × AfterRecovery now r x)
      × (recover_interrupted_executions later recovered ≡ ([], recovered))
unfolding get_result interrupted_to_failed
recovered_once now later s id r found = (
  (
    interrupted_to_failed now interruption r,
    rw
        (
          recovered_results now s,
          lookup-map_values (interrupted_to_failed now interruption) id s.results,
          found,
        )
        refl,
    elim (Bool-cases (same_status r.status executing)) [
      | inl busy ↦ rw busy (inl (executing_of r.status busy, refl))
      | inr idle ↦ rw idle (inr ((λ e. cc (idle, same_executing r.status e)), refl))
    ],
  ),
  nothing_to_recover later recovered
      (rw (recovered_results now s) (none_interrupted now interruption s.results))
      (rw (recovered_results now s) (map_values_twice now later interruption s.results)),
)
  where
    recovered : State
    recovered = (recover_interrupted_executions now s).1
