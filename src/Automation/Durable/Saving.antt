-- ===== src/Automation/Durable/Saving.antt =====
-- Results and pending payloads that are put into the two stores.
use memovi.Prelude.{
  ℕ, String, ◌≡◌, refl, sym, ap, ◌∙◌, ◌⊎◌, inl, inr, Bool, true, false, Option, none, some,
  if◌then◌else◌, eq_refl,
}
use memovi.Prelude.Maps.{Option_map}
use memovi.Prelude.Table.{get, key-get}
use memovi.Automation.Values.{
  Outcome, returned, Value, CapabilityExecutionStatus, executing, pending_approval, completed,
  failed, cancelled, same_status, is_terminal, CapabilityExecutionRequest,
  AuthenticatedExecutionContext, CapabilityExecutionResult,
}
use memovi.Automation.Store
use memovi.Automation.Store.{State, interrupted_to_failed}
use memovi.Automation.Codec.RoundTrip.{error_again, pending_request_again, auth_context_again}
use memovi.Automation.Durable
use memovi.Automation.Durable.{
  Table, CapabilityExecutionRecord, execution_key, new_record, overwrite, attach, detach,
  interrupted_row, result_of_row, pending_of_row, to_result,
}
use memovi.Automation.Durable.Runs.{
  Agrees, timeless, kept_result, kept_pending, kept_table, IsStorable,
}
use memovi.Automation.Durable.Reads.{
  saved_result, saved_pending, suspended_pending, suspended_result, put_new, put_over, attached,
}

status_kinds :
    (status : CapabilityExecutionStatus)
    → ((is_terminal status ≡ true)
        × (same_status status pending_approval ≡ false)
        × (same_status status executing ≡ false))
      ⊎ ((status ≡ pending_approval) ⊎ (status ≡ executing))
status_kinds pending_approval = inr (inl refl)
status_kinds executing = inr (inr refl)
status_kinds completed = inl (refl, refl, refl)
status_kinds failed = inl (refl, refl, refl)
status_kinds cancelled = inl (refl, refl, refl)

no_pending :
    {A B : Type 0} (f : A → B) (o : Option A)
    → ◌≡◌ {A = Outcome (Option B)} (returned none) (returned (Option_map f o))
    → o ≡ none
no_pending f none h = refl
no_pending f (some a) h = cc

either :
    {A B : Type 0} (f : A → B) (b : Bool)
    → ◌≡◌ {A = Outcome (Option B)}
        (returned (Option_map f (if b then none else none)))
        (returned none)
either f true = refl
either f false = refl

module _ (shown : Value → String) (r : CapabilityExecutionResult) (s : State) (rows : Table) where
  -- The result that is read after it is put in.
  pub saved_result_reads :
      Option_map timeless (Durable.get_result shown r.execution_id (Durable.save_result r rows))
      ≡ Option_map kept_result (Store.get_result r.execution_id (Store.save_result r s))
  unfolding Durable.get_result
  saved_result_reads = written (get execution_key r.execution_id rows) refl
    where
      written :
          (found : Option CapabilityExecutionRecord)
          → get execution_key r.execution_id rows ≡ found
          → Option_map timeless
              (result_of_row shown (get execution_key r.execution_id (Durable.save_result r rows)))
            ≡ Option_map kept_result (Store.get_result r.execution_id (Store.save_result r s))
      written none e = rw (put_new r rows e, saved_result r s, error_again shown r.error) refl
      written (some row) e =
          rw
            (
              put_over r rows e,
              saved_result r s,
              error_again shown r.error,
              key-get execution_key r.execution_id rows e,
            )
            refl

  -- The payload that the table still reads after an execution is stored as executing.
  pub executing_pending_reads :
      Agrees shown r.execution_id s rows
      → r.status ≡ executing
      → (token : ℕ)
      → Durable.get_pending shown token r.execution_id (Durable.save_result r rows)
        ≡ returned (Option_map (kept_pending token) (Store.get_pending r.execution_id s))
  unfolding Durable.get_pending
  executing_pending_reads agrees runs token = read (get execution_key r.execution_id rows) refl
    where
      read :
          (found : Option CapabilityExecutionRecord)
          → get execution_key r.execution_id rows ≡ found
          → pending_of_row shown token
              (get execution_key r.execution_id (Durable.save_result r rows))
            ≡ returned (Option_map (kept_pending token) (Store.get_pending r.execution_id s))
      read none e =
          let old =
            no_pending (kept_pending token) (Store.get_pending r.execution_id s)
              (rw e at agrees.pending token) in
          rw (put_new r rows e, old) refl
      read (some row) e = rw (put_over r rows e, runs) (rw e at agrees.pending token)

  -- What the durable row of a result that is put in reads, in each case of its status.
  pub saved-Agrees :
      Agrees shown r.execution_id s rows
      → (r.status ≡ executing → Store.get_pending r.execution_id s ≡ none)
      → Agrees shown r.execution_id (Store.save_result r s) (Durable.save_result r rows)
  unfolding Durable.get_result Durable.get_pending
  saved-Agrees agrees guard = record {
    result = saved_result_reads;
    pending = λ token. kept token (get execution_key r.execution_id rows) refl;
    idle = λ r' found runs. idle r' (sym found ∙ saved_result r s) runs;
    absent = λ missing. cc_absent (sym missing ∙ saved_result r s);
  }
    where
      cc_absent : {A : Type 0} → none ≡ some r → A
      cc_absent h = absurd cc

      idle :
          (r' : CapabilityExecutionResult)
          → some r' ≡ some r
          → r'.status ≡ executing
          → Store.get_pending r.execution_id (Store.save_result r s) ≡ none
      idle r' same runs =
          let is : r' ≡ r = cc in
          let running : r.status ≡ executing = ap (λ x. x.status) (sym is) ∙ runs in
          saved_pending r s ∙ (rw running refl)

      kept :
          (token : ℕ) (found : Option CapabilityExecutionRecord)
          → get execution_key r.execution_id rows ≡ found
          → pending_of_row shown token
              (get execution_key r.execution_id (Durable.save_result r rows))
            ≡ returned (
                Option_map
                  (kept_pending token)
                  (Store.get_pending r.execution_id (Store.save_result r s)))
      kept token none e =
          let old =
            no_pending (kept_pending token) (Store.get_pending r.execution_id s)
              (rw e at agrees.pending token) in
          rw (put_new r rows e, saved_pending r s, old)
            (sym (either (kept_pending token) (same_status r.status pending_approval)))
      kept token (some row) e = elim (status_kinds r.status) [
        | inl (ended, waits, _) ↦ rw (put_over r rows e, saved_pending r s, ended, waits) refl
        | inr (inl waits) ↦
            rw (put_over r rows e, saved_pending r s, waits) (rw e at agrees.pending token)
        | inr (inr runs) ↦
            rw (put_over r rows e, saved_pending r s, runs)
              (rw (e, guard runs) at agrees.pending token)
      ]

module _ (shown : Value → String) (now : ℕ) (request : CapabilityExecutionRequest)
    (auth : AuthenticatedExecutionContext) (s : State) (rows : Table) where
  pub suspended-Agrees :
      Agrees shown request.id s rows
      → IsStorable request auth
      → (r : CapabilityExecutionResult) → Store.get_result request.id s ≡ some r
      → r.status ≡ pending_approval
      → Agrees shown request.id
          (Store.save_pending request auth s)
          (kept_table rows (Durable.save_pending now request auth rows))
  unfolding Durable.get_result Durable.get_pending
  suspended-Agrees agrees storable r found waits =
      present_row (get execution_key request.id rows) refl
    where
      own : Store.get_pending request.id (Store.save_pending request auth s) ≡ some (request, auth)
      own = suspended_pending request.id request auth s ∙ (rw (eq_refl request.id) refl)

      present_row :
          (row : Option CapabilityExecutionRecord)
          → get execution_key request.id rows ≡ row
          → Agrees shown request.id
              (Store.save_pending request auth s)
              (kept_table rows (Durable.save_pending now request auth rows))
      present_row none e = let both = rw (e, found) at agrees.result in absurd cc
      present_row (some row) e = record {
        result =
            rw (attached now request auth rows e, suspended_result request.id request auth s)
              (rw e at agrees.result);
        pending = λ token.
            rw
              (
                attached now request auth rows e,
                own,
                pending_request_again shown request storable.conversation storable.source,
                auth_context_again shown token auth storable.auth_conversation storable.auth_source,
              )
              refl;
        idle = λ r' other runs.
            let same = sym (sym (suspended_result request.id request auth s) ∙ other) ∙ found in
            let is : r' ≡ r = cc in
            let clash : executing ≡ pending_approval = sym runs ∙ ap (λ x. x.status) is ∙ waits in
            absurd cc;
        absent = λ missing.
            let both = sym (sym (suspended_result request.id request auth s) ∙ missing) ∙ found in
            absurd cc;
      }
