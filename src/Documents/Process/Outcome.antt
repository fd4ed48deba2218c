-- ===== src/Documents/Process/Outcome.antt =====
-- The three ends of a run of `ProcessDocument.execute` on a pending job, and its refusals.
use memovi.Prelude.{
  String, ◌≡◌, refl, Bool, true, false, some, List, [], ◌∷◌, arith, sym, subst, ◌∙◌,
}
use memovi.Prelude.Table.{get, key-get}
use memovi.Documents.Errors.{Error, ok, err, os_error, transient_document_processing}
use memovi.Documents.Text.{Text, normalize_text}
use memovi.Documents.Job.{ProcessingJob, pending, completed, failed}
use memovi.Documents.Session.{
  Db, Document, DocumentVersion, ProcessingJobRecord, job_id, version_id, document_id, version_init,
  get_document, get_version_by_id, write_job,
}
use memovi.Documents.Process.{
  Ports, Run, Instants, DocumentEvent, processing_started, processing_completed, processing_failed,
  message, extracted, transform, execute, recover_from, fail_job,
}
use memovi.Documents.Process.Steps.{
  with_job, with_content, with_event, started_job, normalizing_job, completed_job, failed_job,
  IsSound, start_lem, advance_lem, complete_lem, fail_lem, transition_job_lem, get-with_job,
  load_lem, content_lem, save_version_lem,
}

-- The rows that a run reads: a sound pending job, its document and its sound version.
pub record IsReady (run : Run) (r : ProcessingJobRecord) (d : Document) (v : DocumentVersion)
    : Type 0 where
  pub row : get job_id r.id run.db.jobs ≡ some r
  pub sound : IsSound r.job
  pub waiting : r.status ≡ pending
  pub document : get document_id r.document_id run.db.documents ≡ some d
  pub version : get version_id r.document_version_id run.db.versions ≡ some v
  pub version_sound : version_init v ≡ ok v

abbrev pub is_transient : Error → Bool
is_transient (os_error m) = true
is_transient _ = false

recover_from_permanent :
    (at : Instants) (events : List DocumentEvent) (job : ProcessingJob) (e : Error)
    → is_transient e ≡ false
    → recover_from at events job e ≡ fail_job at (message e) events job
unfolding recover_from
recover_from_permanent at events job (os_error m) h = cc
recover_from_permanent at events job _ h = refl

get_version_lem :
    (id : String) (db : Db) (v : DocumentVersion)
    → get version_id id db.versions ≡ some v
    → version_init v ≡ ok v
    → get_version_by_id id db ≡ ok (some v)
unfolding get_version_by_id
get_version_lem id db v row sound = ground (arith, row, sound)

-- The events of a run, and the states that it goes through.
abbrev pub started_event : Instants → ProcessingJobRecord → DocumentEvent
started_event at r = processing_started r.document_id r.id at.started

abbrev pub completed_event : Instants → ProcessingJobRecord → DocumentEvent
completed_event at r = processing_completed r.document_id r.id at.announced

abbrev pub failed_event : Instants → ProcessingJobRecord → String → DocumentEvent
failed_event at r reason = processing_failed r.document_id r.id at.failed (some reason)

abbrev pub started_run : Instants → Run → ProcessingJobRecord → Run
started_run at run r = with_event (started_event at r) (with_job (started_job at r.job) run)

abbrev pub normalizing_run : Instants → Run → ProcessingJobRecord → DocumentVersion → Text → Run
normalizing_run at run r v text =
    with_content v.id (normalize_text text)
      (with_job (normalizing_job at r.job) (started_run at run r))

abbrev pub completed_run : Instants → Run → ProcessingJobRecord → DocumentVersion → Text → Run
completed_run at run r v text =
    with_event (completed_event at r)
      (with_job (completed_job at r.job) (normalizing_run at run r v text))

abbrev pub failed_run : Instants → Run → ProcessingJobRecord → String → Run
failed_run at run r reason =
    with_event (failed_event at r reason)
      (with_job (failed_job at reason r.job) (started_run at run r))

module _ (ports : Ports) (at : Instants) (run : Run) (r : ProcessingJobRecord) (d : Document)
    (v : DocumentVersion) (ready : IsReady run r d v) where
  execute_starts :
      execute ports at r.id run
      ≡ transform ports at
          (started_event at r ∷ [])
          d
          v
          (started_job at r.job)
          (started_run at run r)
  unfolding execute get_document
  execute_starts = rw (load_lem run r ready.row ready.sound ready.waiting) (
      rw (ready.document) (
        rw (get_version_lem r.document_version_id run.db v ready.version ready.version_sound) (
          rw (
            transition_job_lem _ r.job (started_job at r.job) run
              (start_lem at r.job ready.sound ready.waiting) ready.row))))

  pub started_row :
      get job_id r.id (started_run at run r).db.jobs ≡ some (write_job (started_job at r.job) r)
  started_row = get-with_job (started_job at r.job) run ready.row

  pub normalizing_row :
      (text : Text)
      → get job_id r.id (normalizing_run at run r v text).db.jobs
        ≡ some (write_job (normalizing_job at r.job) (write_job (started_job at r.job) r))
  normalizing_row text = get-with_job (normalizing_job at r.job) (started_run at run r) started_row

  pub version_row : get version_id v.id run.db.versions ≡ some v
  version_row =
      subst (λ k. get version_id k run.db.versions ≡ some v)
        (sym (key-get version_id r.document_version_id run.db.versions ready.version)) ready.version

  -- Where the text can be extracted, the run returns the completed job, and leaves `completed_run`.
  pub execute_completes :
      (text : Text)
      → extracted ports d v ≡ ok text
      → execute ports at r.id run ≡ (
        ok (record {
          processing_job_id = r.id;
          processing_status = completed;
          events = started_event at r ∷ completed_event at r ∷ [];
        }),
        completed_run at run r v text,
      )
  unfolding transform
  execute_completes text found =
      execute_starts
      ∙ rw found (
          rw
            (transition_job_lem _ (started_job at r.job) (normalizing_job at r.job)
              (started_run at run r) (advance_lem at r.job ready.sound) started_row)
            (rw (content_lem (normalize_text text) v ready.version_sound) (
              rw
                (save_version_lem (normalize_text text) v
                  (with_job (normalizing_job at r.job) (started_run at run r)) version_row)
                (rw (
                  transition_job_lem _ (normalizing_job at r.job) (completed_job at r.job)
                    (normalizing_run at run r v text) (complete_lem at r.job ready.sound)
                    (normalizing_row text))))))

  -- Where it cannot, and the exception is not transient, the job is failed with its message.
  pub execute_fails :
      (e : Error)
      → extracted ports d v ≡ err e
      → is_transient e ≡ false
      → execute ports at r.id run ≡ (
        ok (record {
          processing_job_id = r.id;
          processing_status = failed;
          events = started_event at r ∷ failed_event at r (message e) ∷ [];
        }),
        failed_run at run r (message e),
      )
  unfolding transform fail_job
  execute_fails e found permanent =
      execute_starts
      ∙ rw found (
          rw
            (recover_from_permanent at (started_event at r ∷ []) (started_job at r.job) e permanent)
            (rw (
              transition_job_lem _ (started_job at r.job) (failed_job at (message e) r.job)
                (started_run at run r) (fail_lem at r.job ready.sound (message e)) started_row)))

  -- A transient exception is raised again, with the job left started.
  pub execute_raises :
      (m : String)
      → extracted ports d v ≡ err (os_error m)
      → execute ports at r.id run ≡ (err (transient_document_processing m), (started_run at run r))
  unfolding transform recover_from
  execute_raises m found = execute_starts ∙ rw found
