-- ===== src/Documents/Session.antt =====
-- The database of packages/documents and its repositories: infrastructure/persistence/models.py,
-- infrastructure/repositories/sqlalchemy_processing_job_repository.py and
-- sqlalchemy_document_repository.py. An action on a state may raise; what it wrote before the raise
-- stays, until a rollback gives the committed state back.
use Prim.Native.Char.{code}
use memovi.Prelude.{
  ℕ, String, Bool, true, Option, none, some, List, [], ◌∷◌, ◌++◌, ltb, str_eq, concat, ◌&&◌,
  if◌then◌else◌,
}
use memovi.Prelude.Table.{get, modify}
use memovi.Documents.Errors.{Error, Result, ok, err, value_error, invalid_document_version}
use memovi.Prelude.Strings.{is_space}
use memovi.Documents.Text.{Text}
use memovi.Documents.Job
use memovi.Documents.Job.{ProcessingJob, ProcessingStatus, pending, same_status}

abbrev pub Action : Type 0 → Type 0 → Type 0
Action S A = S → Result A × S

module _ {S A : Type 0} where
  abbrev pub pure : A → Action S A
  pure a s = (ok a, s)

  abbrev pub raise : Error → Action S A
  raise e s = (err e, s)

  abbrev pub lift : Result A → Action S A
  lift r s = (r, s)

module _ {S A B : Type 0} where
  abbrev pub continue : (A → Action S B) → Result A × S → Result B × S
  continue f (ok a, s) = f a s
  continue f (err e, s) = (err e, s)

  infixl 5 ◌>>=◌ ◌>>◌
  abbrev pub ◌>>=◌ : Action S A → (A → Action S B) → Action S B
  ◌>>=◌ m f s = continue f (m s)

  abbrev pub ◌>>◌ : Action S A → Action S B → Action S B
  m >> k = m >>= λ _. k

  -- `try: a = m` whose `except Exception` clause is `handler`; `k` is what follows in the `try` block
  -- and has handlers of its own.
  abbrev pub handled : (Error → Action S B) → (A → Action S B) → Result A × S → Result B × S
  handled handler k (ok a, s) = k a s
  handled handler k (err e, s) = handler e s

  abbrev pub catching : Action S A → (Error → Action S B) → (A → Action S B) → Action S B
  catching m handler k s = handled handler k (m s)

-- The columns of a document that processing reads. The MIME type is a `MimeType` value, which was
-- stripped and put in lower case when it was made.
pub record Document : Type 0 where
  pub id : String
  pub workspace_id : String
  pub mime_type : String

pub record DocumentVersion : Type 0 where
  pub id : String
  pub document_id : String
  pub version_number : ℕ
  pub storage_key : String
  pub normalized_content : Option Text

-- `not text.strip()`
blank : String → Bool
blank String.[] = true
blank (String.◌∷◌ c rest) = is_space (code c) && blank rest

-- `__post_init__` of a document version, which `replace` runs too.
unfoldable pub version_init : DocumentVersion → Result DocumentVersion
unfolding blank
version_init v =
    if str_eq v.id ""
    then err (invalid_document_version "Document version ID is required.")
    else if ltb v.version_number 1
    then err (invalid_document_version "Document version number must be at least 1.")
    else if blank v.storage_key
    then err (invalid_document_version "Document version storage key is required.")
    else ok v

-- DocumentVersion.with_normalized_content
unfoldable pub with_normalized_content : Text → DocumentVersion → Result DocumentVersion
unfolding version_init
with_normalized_content content v = version_init (record v { normalized_content = some content })

-- A row of documents_processing_jobs: the columns of the entity, and two of the queue.
pub record ProcessingJobRecord : Type 0 where
  pub job : ProcessingJob
  pub open job use *
  pub available_at : Option ℕ
  pub claimed_at : Option ℕ

abbrev pub job_id : ProcessingJobRecord → String
job_id r = r.id

abbrev pub version_id : DocumentVersion → String
version_id v = v.id

abbrev pub document_id : Document → String
document_id d = d.id

pub record Db : Type 0 where
  pub documents : List Document
  pub versions : List DocumentVersion
  pub jobs : List ProcessingJobRecord

-- `_to_domain`: the entity is made anew, so its checks run.
abbrev pub to_domain : Option ProcessingJobRecord → Result (Option ProcessingJob)
to_domain none = ok none
to_domain (some r) = elim (Job.post_init r.job) [ ok job ↦ ok (some job) | err e ↦ err e ]

-- SqlAlchemyProcessingJobRepository.get_by_id
unfoldable pub get_by_id : String → Db → Result (Option ProcessingJob)
get_by_id id db = to_domain (get job_id id db.jobs)

-- SqlAlchemyProcessingJobRepository.add
unfoldable pub add : ProcessingJob → Db → Db
add job db = record db {
  jobs =
      db.jobs ++ record { job = job; available_at = some job.created_at; claimed_at = none } ∷ [];
}

abbrev pub or_else : Option ℕ → ℕ → Option ℕ
or_else none d = some d
or_else (some x) d = some x

-- The assignments of `save` to the row. A pending job is released to the queue.
unfoldable pub write_job : ProcessingJob → ProcessingJobRecord → ProcessingJobRecord
write_job job r =
    let columns = record r.job {
      status = job.status;
      failure_reason = job.failure_reason;
      attempt = job.attempt;
      request_id = job.request_id;
      workspace_id = job.workspace_id;
      started_at = job.started_at;
      completed_at = job.completed_at;
      updated_at = job.updated_at;
    } in
    if same_status job.status pending
    then record {
      job = columns;
      available_at = or_else r.available_at job.updated_at;
      claimed_at = none;
    }
    else record r { job = columns }

abbrev pub missing : String → Error
missing id = value_error (concat "Processing job '" (concat id "' was not found."))

-- SqlAlchemyProcessingJobRepository.save
unfoldable pub save : ProcessingJob → Action Db (Unit {0})
save job db = elim (get job_id job.id db.jobs) [
  | none ↦ (err (missing job.id), db)
  | some r ↦ (ok tt, record db { jobs = modify job_id job.id (write_job job) db.jobs })
]

-- `_version_to_domain`
abbrev pub to_version : Option DocumentVersion → Result (Option DocumentVersion)
to_version none = ok none
to_version (some v) = elim (version_init v) [ ok v' ↦ ok (some v') | err e ↦ err e ]

-- SqlAlchemyDocumentRepository.get_by_id_unscoped, get_version_by_id and save_version
unfoldable pub get_document : String → Db → Option Document
get_document id db = get document_id id db.documents

unfoldable pub get_version_by_id : String → Db → Result (Option DocumentVersion)
unfolding version_init
get_version_by_id id db = to_version (get version_id id db.versions)

unfoldable pub save_version : DocumentVersion → Action Db (Unit {0})
save_version version db = elim (get version_id version.id db.versions) [
  | none ↦
      (err (value_error (concat "Document version '" (concat version.id "' was not found."))), db)
  | some row ↦ (
    ok tt,
    record db {
      versions =
          modify version_id version.id
            (λ v. record v { normalized_content = version.normalized_content }) db.versions;
    },
  )
]
