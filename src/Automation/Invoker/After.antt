-- ===== src/Automation/Invoker/After.antt =====
-- The state that an invocation leaves: the one before, or the one after the run, perhaps with the
-- token cancelled.
use memovi.Prelude.{
  ℕ, String, ◌≡◌, refl, inl, inr, ◌&&◌, ◌||◌, ltb, str_eq, arith, Bool-cases, Option-cases, subst,
  sym,
}
use memovi.Automation.Values.{
  Outcome, returned, raised, unknown_capability, invalid_arguments, execution_not_found,
  authorization_denied, capability_execution, capability_timeout, capability_cancelled,
  automation_domain, invalid_execution_plan, other, Value, Arguments, CapabilityExecutionPolicy,
}
use memovi.Automation.Arguments.{validate_capability_arguments}
use memovi.Automation.Store.{Capability, State, cancel_token, token_cancelled}
use memovi.Automation.Invoker.{
  Run, is_timeout_error, invoke_capability, settle_invocation, invoke_validated, invoke,
}

module _ (requested : String) (policy : CapabilityExecutionPolicy) (token : ℕ) where
  settle-state :
      (ending : Outcome Value) (s : State)
      → (settle_invocation requested policy token (ending, s)).1 ≡ s
  settle-state (returned output) s = ground (arith)
  settle-state (raised (capability_cancelled m)) s = refl
  settle-state (raised (capability_timeout m)) s = refl
  settle-state (raised (capability_execution code m)) s = refl
  settle-state (raised (other m)) s = refl
  settle-state (raised (unknown_capability m)) s = refl
  settle-state (raised (invalid_arguments m)) s = refl
  settle-state (raised (execution_not_found m)) s = refl
  settle-state (raised (authorization_denied m code)) s = refl
  settle-state (raised (automation_domain m)) s = refl
  settle-state (raised (invalid_execution_plan code m)) s = refl

  module _ {κ} (P : State → Type κ) (flagged : (s : State) → P s → P (cancel_token token s))
      (run : Run) (s : State) (before : P s) (after : P (run.meanwhile s)) where
    invoke_capability-state : P (invoke_capability requested policy token run s).1
    unfolding invoke_capability
    invoke_capability-state = elim (Option-cases policy.timeout_seconds) [
      | inl e ↦
          rw e (elim (Bool-cases (policy.cancellable && token_cancelled token s.cancelled_tokens)) [
            | inl b ↦ rw b before
            | inr b ↦ rw b after
          ])
      | inr (limit, e) ↦
          rw e (elim (Bool-cases (ltb limit run.duration || is_timeout_error run.ending)) [
            | inl late ↦ rw late (elim (Bool-cases policy.cancellable) [
              | inl b ↦ rw b (flagged (run.meanwhile s) after)
              | inr b ↦ rw b after
            ])
            | inr done ↦ rw done after
          ])
    ]

    invoke_validated-state :
        (arguments : Outcome Arguments)
        → P (invoke_validated requested policy token run s arguments).1
    invoke_validated-state (raised e) = before
    invoke_validated-state (returned validated) =
        elim (Bool-cases (policy.cancellable && token_cancelled token s.cancelled_tokens)) [
          | inl b ↦ rw b before
          | inr b ↦ rw b (
              let r = invoke_capability requested policy token run s in
              subst P (sym (settle-state r.0 r.1)) invoke_capability-state)
        ]

    pub invoke-state :
        (c : Capability) (arguments : Arguments)
        → P (invoke requested c arguments policy token run s).1
    unfolding invoke
    invoke-state c arguments = elim (Bool-cases (str_eq c.metadata.id requested)) [
      | inl e ↦ rw e (invoke_validated-state (validate_capability_arguments arguments c.metadata))
      | inr e ↦ rw e before
    ]
