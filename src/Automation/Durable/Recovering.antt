-- ===== src/Automation/Durable/Recovering.antt =====
-- Payloads that are cleared, and executions that a restart interrupted, in the two stores.
use memovi.Prelude.{
  ℕ, String, ◌≡◌, refl, sym, ap, ◌∙◌, inl, inr, true, false, Option, none, some, Bool-cases,
  eq_refl,
}
use memovi.Prelude.Table.{get}
use memovi.Automation.Values.{
  Value, CapabilityExecutionStatus, executing, pending_approval, completed, failed, cancelled,
  same_status, CapabilityExecutionResult,
}
use memovi.Automation.Store
use memovi.Automation.Store.{State, interrupted_to_failed}
use memovi.Automation.Codec.{deserialize_error, serialize_error}
use memovi.Prelude.Maps.{lookup, Option_map}
use memovi.Automation.Durable
use memovi.Automation.Durable.{
  Table, CapabilityExecutionRecord, execution_key, new_record, overwrite, attach, detach,
  interrupted_row, result_of_row, pending_of_row, to_result,
}
use memovi.Automation.Durable.Runs.{Agrees, timeless, kept_result}
use memovi.Automation.Durable.Reads.{
  cleared_pending, recovered_result, interrupted_rows, cleared_rows,
}

executing_of :
    (status : CapabilityExecutionStatus) → same_status status executing ≡ true → status ≡ executing
executing_of executing h = refl
executing_of pending_approval h = cc
executing_of completed h = cc
executing_of failed h = cc
executing_of cancelled h = cc

module _ (shown : Value → String) (now : ℕ) (id : String) (s : State) (rows : Table) where
  pub cleared-Agrees :
      Option_map timeless (Durable.get_result shown id rows)
        ≡ Option_map kept_result (Store.get_result id s)
      → Agrees shown id (Store.clear_pending id s) (Durable.clear_pending now id rows)
  unfolding Durable.get_result Durable.get_pending
  cleared-Agrees same = detached (get execution_key id rows) refl
    where
      no_payload : Store.get_pending id (Store.clear_pending id s) ≡ none
      no_payload = (cleared_pending id id s).0 ∙ (rw (eq_refl id) refl)

      same_result : Store.get_result id (Store.clear_pending id s) ≡ Store.get_result id s
      same_result = (cleared_pending id id s).1

      detached :
          (row : Option CapabilityExecutionRecord)
          → get execution_key id rows ≡ row
          → Agrees shown id (Store.clear_pending id s) (Durable.clear_pending now id rows)
      detached none e = record {
        result = rw (cleared_rows now id rows, e, same_result) (rw e at same);
        pending = λ token. rw (cleared_rows now id rows, e, no_payload) refl;
        idle = λ r found runs. no_payload;
        absent = λ missing. no_payload;
      }
      detached (some row) e = record {
        result = rw (cleared_rows now id rows, e, same_result) (rw e at same);
        pending = λ token. rw (cleared_rows now id rows, e, no_payload) refl;
        idle = λ r found runs. no_payload;
        absent = λ missing. no_payload;
      }

module _ (shown : Value → String) (now later : ℕ) (reason id : String) (s : State)
    (rows : Table) where
  pub recovered-Agrees :
      Agrees shown id s rows
      → Agrees shown id
          (Store.fail_interrupted_executions now reason s).1
          (Durable.fail_interrupted_executions shown later reason rows).1
  unfolding Durable.get_result Durable.get_pending Durable.fail_interrupted_executions
      interrupted_to_failed deserialize_error serialize_error lookup
  recovered-Agrees agrees =
      interrupted (get execution_key id rows) refl (Store.get_result id s) refl
    where
      same_pending :
          Store.get_pending id (Store.fail_interrupted_executions now reason s).1
          ≡ Store.get_pending id s
      same_pending = (recovered_result id now reason s).1

      interrupted :
          (row : Option CapabilityExecutionRecord)
          → get execution_key id rows ≡ row
          → (r : Option CapabilityExecutionResult) → Store.get_result id s ≡ r
          → Agrees shown id
              (Store.fail_interrupted_executions now reason s).1
              (Durable.fail_interrupted_executions shown later reason rows).1
      interrupted none e none f = record {
        result =
            rw (interrupted_rows id later reason rows, e, (recovered_result id now reason s).0, f)
              refl;
        pending = λ token.
            rw (interrupted_rows id later reason rows, e, same_pending)
              (rw e at agrees.pending token);
        idle = λ r found runs. same_pending ∙ agrees.absent f;
        absent = λ missing. same_pending ∙ agrees.absent f;
      }
      interrupted none e (some r) f = let clash = rw (e, f) at agrees.result in absurd cc
      interrupted (some row) e none f = let clash = rw (e, f) at agrees.result in absurd cc
      interrupted (some row) e (some r) f =
          let seen = rw (e, f) at agrees.result in
          let equal : timeless (to_result shown row) ≡ kept_result r = cc in
          let status : row.status ≡ r.status = ap (λ x. x.status) equal in
          elim (Bool-cases (same_status r.status executing)) [
            | inl runs ↦
                let running = executing_of r.status runs in
                let row_runs : same_status row.status executing ≡ true = rw status runs in
                let hit : CapabilityExecutionResult → CapabilityExecutionResult = λ x. record x {
                  status = failed;
                  error = some (record { code = "interrupted_by_restart"; message = reason });
                } in
                let nothing = same_pending ∙ agrees.idle r f running in
                record {
                  result =
                      rw
                        (
                          interrupted_rows id later reason rows,
                          e,
                          row_runs,
                          (recovered_result id now reason s).0,
                          f,
                          runs,
                        )
                        (ap (λ x. some (hit x)) equal);
                  pending = λ token.
                      rw (interrupted_rows id later reason rows, e, row_runs, nothing) refl;
                  idle = λ r' found others. nothing;
                  absent = λ missing. nothing;
                }
            | inr rests ↦
                let row_rests : same_status row.status executing ≡ false = rw status rests in
                record {
                  result =
                      rw
                        (
                          interrupted_rows id later reason rows,
                          e,
                          row_rests,
                          (recovered_result id now reason s).0,
                          f,
                          rests,
                        )
                        (ap some equal);
                  pending = λ token.
                      rw (interrupted_rows id later reason rows, e, row_rests, same_pending)
                        (rw e at agrees.pending token);
                  idle = λ r' found others.
                      let kept : Store.get_result id
                            (Store.fail_interrupted_executions now reason s).1
                          ≡ some r =
                        (recovered_result id now reason s).0 ∙ (rw (f, rests) refl) in
                      let both = sym found ∙ kept in
                      let is : r' ≡ r = cc in
                      let runs : r.status ≡ executing = ap (λ x. x.status) (sym is) ∙ others in
                      let clash : true ≡ false =
                        ap (λ x. same_status x executing) (sym runs) ∙ rests in
                      absurd cc;
                  absent = λ missing.
                      let kept : Store.get_result id
                            (Store.fail_interrupted_executions now reason s).1
                          ≡ some r =
                        (recovered_result id now reason s).0 ∙ (rw (f, rests) refl) in
                      let both = sym missing ∙ kept in absurd cc;
                }
          ]
