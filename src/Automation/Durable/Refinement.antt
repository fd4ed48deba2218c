-- ===== src/Automation/Durable/Refinement.antt =====
-- The durable store reads what the store in memory reads.
use memovi.Prelude.{ℕ, String, ◌≡◌, refl, sym, ◌∙◌, inl, inr, text-cases, subst}
use memovi.Prelude.Maps.{Option_map}
use memovi.Prelude.Table.{get}
use memovi.Automation.Values.{returned, Value, executing, CapabilityExecutionResult}
use memovi.Automation.Store
use memovi.Automation.Store.{State, interrupted_to_failed}
use memovi.Prelude.Maps.{lookup}
use memovi.Automation.Durable
use memovi.Automation.Durable.{
  Table, CapabilityExecutionRecord, execution_key, new_record, overwrite, attach, detach,
  interrupted_row, result_of_row, pending_of_row, to_result,
}
use memovi.Automation.Durable.Runs.{
  Runs, started, saved, begun, suspended, cleared, recovered, elsewhere, Agrees, timeless,
  kept_result, kept_pending, kept_table,
}
use memovi.Automation.Durable.Reads.{
  saved_elsewhere, suspended_pending, suspended_result, cleared_pending, put_elsewhere,
  attached_elsewhere, cleared_elsewhere,
}
use memovi.Automation.Durable.Saving.{
  saved-Agrees, saved_result_reads, executing_pending_reads, suspended-Agrees,
}
use memovi.Automation.Durable.Recovering.{cleared-Agrees, recovered-Agrees}

module _ (shown : Value → String) (id : String) where
  -- An execution that a call does not touch.
  same-Agrees :
      {s after : State} {rows rows' : Table}
      → get execution_key id rows' ≡ get execution_key id rows
      → Store.get_result id after ≡ Store.get_result id s
      → Store.get_pending id after ≡ Store.get_pending id s
      → Agrees shown id s rows
      → Agrees shown id after rows'
  unfolding Durable.get_result Durable.get_pending
  same-Agrees row result pending agrees = record {
    result = rw (row, result) agrees.result;
    pending = λ token. rw (row, pending) (agrees.pending token);
    idle = λ r found runs. pending ∙ agrees.idle r (sym result ∙ found) runs;
    absent = λ missing. pending ∙ agrees.absent (sym result ∙ missing);
  }

run-Agrees :
    (shown : Value → String) (s : State) (rows : Table)
    → Runs shown s rows
    → (id : String) → Agrees shown id s rows
unfolding Store.get_result Store.get_pending Durable.get_result Durable.get_pending get lookup
run-Agrees shown s rows (started no_results no_payloads) id = record {
  result = rw no_results refl;
  pending = λ token. rw no_payloads refl;
  idle = λ r found runs. rw no_payloads refl;
  absent = λ missing. rw no_payloads refl;
}
run-Agrees shown s rows (saved {s = before} {rows = old} run r guard) id =
    elim (text-cases r.execution_id id) [
      | inl (_, e) ↦
          subst (λ k. Agrees shown k (Store.save_result r before) (Durable.save_result r old)) e
            (saved-Agrees shown r before old (run-Agrees shown before old run r.execution_id) guard)
      | inr (_, n) ↦
          same-Agrees shown id (put_elsewhere id r old n) (saved_elsewhere r before id n).0
            (saved_elsewhere r before id n).1 (run-Agrees shown before old run id)
    ]
run-Agrees shown s rows (begun {s = before} {rows = old} run now r) id =
    elim (text-cases r.execution_id id) [
      | inl (_, e) ↦
          subst
            (λ k.
              Agrees shown k (Store.clear_pending r.execution_id (Store.save_result r before))
                (Durable.clear_pending now r.execution_id (Durable.save_result r old)))
            e
            (cleared-Agrees shown now r.execution_id (Store.save_result r before)
              (Durable.save_result r old) (saved_result_reads shown r before old))
      | inr (b, n) ↦
          same-Agrees shown id
            (cleared_elsewhere id now r.execution_id (Durable.save_result r old) n
              ∙ put_elsewhere id r old n)
            ((cleared_pending id r.execution_id (Store.save_result r before)).1
              ∙ (saved_elsewhere r before id n).0)
            ((cleared_pending id r.execution_id (Store.save_result r before)).0
              ∙ (rw b refl)
              ∙ (saved_elsewhere r before id n).1)
            (run-Agrees shown before old run id)
    ]
run-Agrees shown s rows
      (suspended {s = before} {rows = old} run now request auth storable r found waits) id =
    elim (text-cases request.id id) [
      | inl (_, e) ↦
          subst
            (λ k.
              Agrees shown k (Store.save_pending request auth before)
                (kept_table old (Durable.save_pending now request auth old)))
            e
            (suspended-Agrees shown now request auth before old
              (run-Agrees shown before old run request.id) storable r found waits)
      | inr (b, n) ↦
          same-Agrees shown id (attached_elsewhere id now request auth old n)
            (suspended_result id request auth before)
            (suspended_pending id request auth before ∙ (rw b refl))
            (run-Agrees shown before old run id)
    ]
run-Agrees shown s rows (cleared {s = before} {rows = old} run now other) id =
    elim (text-cases other id) [
      | inl (_, e) ↦
          subst
            (λ k.
              Agrees shown k (Store.clear_pending other before)
                (Durable.clear_pending now other old))
            e
            (cleared-Agrees shown now other before old
              (run-Agrees shown before old run other).result)
      | inr (b, n) ↦
          same-Agrees shown id (cleared_elsewhere id now other old n)
            (cleared_pending id other before).1 ((cleared_pending id other before).0 ∙ (rw b refl))
            (run-Agrees shown before old run id)
    ]
run-Agrees shown s rows (recovered {s = before} {rows = old} run now later reason) id =
    recovered-Agrees shown now later reason id before old (run-Agrees shown before old run id)
run-Agrees shown s rows (elsewhere {s = before} run results payloads) id =
    same-Agrees shown id refl (rw results refl) (rw payloads refl)
      (run-Agrees shown before rows run id)

-- After any calls that the engine may make, an execution's being stored as executing and the clearing
-- of its request being one of them, the durable store reads each execution as the store in memory
-- does: the result but for its times, with its output made safe for JSON; and the pending request and
-- context, with the arguments made safe for JSON and a token of their own, without raising. Between the
-- storing of an execution as executing and the clearing, its result reads as in memory, and the durable
-- store still reads the request that the store in memory had before.
pub run_refines :
    (shown : Value → String) (s : State) (rows : Table)
    → Runs shown s rows
    → (id : String) (token : ℕ) (r : CapabilityExecutionResult) → r.status ≡ executing
    → (Option_map timeless (Durable.get_result shown id rows)
        ≡ Option_map kept_result (Store.get_result id s))
      × (Durable.get_pending shown token id rows
          ≡ returned (Option_map (kept_pending token) (Store.get_pending id s)))
      × (Option_map timeless (Durable.get_result shown r.execution_id (Durable.save_result r rows))
          ≡ Option_map kept_result (Store.get_result r.execution_id (Store.save_result r s)))
      × (Durable.get_pending shown token r.execution_id (Durable.save_result r rows)
          ≡ returned (Option_map (kept_pending token) (Store.get_pending r.execution_id s)))
run_refines shown s rows run id token r runs =
    let agrees = run-Agrees shown s rows run id in
    (
      agrees.result,
      agrees.pending token,
      saved_result_reads shown r s rows,
      executing_pending_reads shown r s rows (run-Agrees shown s rows run r.execution_id) runs
          token,
    )
