-- ===== src/Automation/Invoker/Timely.antt =====
-- An invocation whose run is over before its timeout and whose token was not cancelled before it.
use memovi.Prelude.{
  ℕ, String, ◌≡◌, refl, inl, inr, Bool, true, false, ◌&&◌, none, some, ltb, eq_iff, Bool-cases,
  Option-cases, and-false,
}
use memovi.Automation.Values.{returned, Value, Arguments, CapabilityExecutionPolicy}
use memovi.Automation.Arguments.Schema.{Conforms, validate-Conforms}
use memovi.Automation.Store.{Capability, State, token_cancelled}
use memovi.Automation.Invoker.{
  Run, is_timeout_error, CapabilityResult, invoke, invoke_capability, settle_invocation,
  cancelled_result, success_result,
}

abbrev pub InTime : CapabilityExecutionPolicy → Run → Type 0
InTime policy run = elim policy.timeout_seconds [
  | none ↦ Unit
  | some limit ↦ ltb limit run.duration ≡ false
]

-- What becomes of an output: it is thrown away if the invocation was cancelled by then.
abbrev pub outcome_of : String → Value → Bool → CapabilityResult
outcome_of requested output true = cancelled_result requested
outcome_of requested output false = success_result output

module _ (requested : String) (policy : CapabilityExecutionPolicy) (token : ℕ) (run : Run)
    (s : State) (fresh : token_cancelled token s.cancelled_tokens ≡ false) where
  invoke_capability_timely :
      InTime policy run
      → is_timeout_error run.ending ≡ false
      → invoke_capability requested policy token run s ≡ (run.ending, run.meanwhile s)
  unfolding invoke_capability
  invoke_capability_timely in_time own = elim (Option-cases policy.timeout_seconds) [
    | inl e ↦ rw (e, fresh, and-false policy.cancellable) refl
    | inr (limit, e) ↦ rw (e, (rw e at in_time), own) refl
  ]

  settle_output :
      (output : Value) (t : State)
      → settle_invocation requested policy token (returned output, t) ≡ (
        returned (
            outcome_of requested output
              (policy.cancellable && token_cancelled token t.cancelled_tokens)),
        t,
      )
  settle_output output t =
      elim (Bool-cases (policy.cancellable && token_cancelled token t.cancelled_tokens)) [
        | inl b ↦ rw b refl
        | inr b ↦ rw b refl
      ]

  -- The invocation is what becomes of the run's own ending.
  pub invoke_settles :
      (c : Capability) (arguments : Arguments)
      → c.metadata.id ≡ requested
      → Conforms arguments c.metadata
      → InTime policy run
      → is_timeout_error run.ending ≡ false
      → invoke requested c arguments policy token run s
        ≡ settle_invocation requested policy token (run.ending, run.meanwhile s)
  unfolding invoke
  invoke_settles c arguments same fit in_time own =
      rw
        (
          (eq_iff c.metadata.id requested).1 same,
          (validate-Conforms arguments arguments c.metadata).1 (fit, refl),
          fresh,
          and-false policy.cancellable,
          invoke_capability_timely in_time own,
        )
        refl

  pub invoke_timely :
      (c : Capability) (arguments : Arguments) (output : Value)
      → c.metadata.id ≡ requested
      → Conforms arguments c.metadata
      → InTime policy run
      → run.ending ≡ returned output
      → invoke requested c arguments policy token run s ≡ (
        returned (
            outcome_of requested output
              (policy.cancellable && token_cancelled token (run.meanwhile s).cancelled_tokens)),
        run.meanwhile s,
      )
  invoke_timely c arguments output same fit in_time ending =
      rw (invoke_settles c arguments same fit in_time (rw ending refl), ending)
        (settle_output output (run.meanwhile s))
