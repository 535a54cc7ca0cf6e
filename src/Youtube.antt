-- ===== src/Youtube.antt =====
-- backend/go-app/handlers/task_handler.go, the tasks of video jobs: which machine may work on a
-- job and in which queue its tasks go (`getJobMachineName`, `shouldProcessTask`,
-- `getDownloadQueueName`, `getMetadataQueueName`), and the state that the handlers share. A queue
-- is named by the last part of its key; the shared queue is "all". PostgreSQL is the argument
-- `machine_of`: the machine name of a job, or `none` where the query fails.
pub mod Update
pub mod Merge
pub mod Acquire
pub mod Stuck
mod Tests
use tmp_cf_ytb_admin.Base.{
  ℕ, zero, ◌≡◌, refl, sym, ap, ◌∙◌, String, str_eq, eq_iff, Bool, true, false, not, ◌&&◌, Option,
  none, some, List, [], ◌∷◌, ◌++◌, ◌==◌, if◌then◌else◌, get, put, get-put, get-put_ne, arith,
  Option-cases, inl, inr,
}

abbrev pub Cache : Type 0
Cache = List (ℕ × String)

abbrev pub machine_or_empty : Option String → String
machine_or_empty none = ""
machine_or_empty (some name) = name

-- The name, and the cache afterwards.
unfoldable pub get_job_machine_name : (ℕ → Option String) → Cache → ℕ → String × Cache
get_job_machine_name machine_of cache job = elim (get job cache) [
  | some name ↦ (name, cache)
  | none ↦ (machine_or_empty (machine_of job), put job (machine_or_empty (machine_of job)) cache)
]

unfoldable pub should_process_task : (ℕ → Option String) → Cache → ℕ → String → Bool × Cache
should_process_task machine_of cache job worker_machine =
    let found = get_job_machine_name machine_of cache job in
    (if str_eq found.0 "" then true else str_eq found.0 worker_machine, found.1)

unfoldable pub get_download_queue_name : (ℕ → Option String) → Cache → ℕ → String × Cache
get_download_queue_name machine_of cache job =
    let found = get_job_machine_name machine_of cache job in
    (if str_eq found.0 "" then "all" else found.0, found.1)

unfoldable pub get_metadata_queue_name : (ℕ → Option String) → Cache → ℕ → String × Cache
get_metadata_queue_name machine_of cache job =
    let found = get_job_machine_name machine_of cache job in
    (if str_eq found.0 "" then "all" else found.0, found.1)

abbrev pub Queues : Type 0
Queues = String → List ℕ

unfoldable pub set_queue : String → List ℕ → Queues → Queues
set_queue name ids queues = λ q. if str_eq q name then ids else queues q

pub get_job_machine_name-some :
    (machine_of : ℕ → Option String) (cache : Cache) (job : ℕ) (name : String)
    → get job cache ≡ some name
    → get_job_machine_name machine_of cache job ≡ (name, cache)
unfolding get_job_machine_name
get_job_machine_name-some machine_of cache job name e = rw (e, get_job_machine_name)

pub get_job_machine_name-get :
    (machine_of : ℕ → Option String) (cache : Cache) (job : ℕ)
    → get job (get_job_machine_name machine_of cache job).1
      ≡ some (get_job_machine_name machine_of cache job).0
unfolding get_job_machine_name
get_job_machine_name-get machine_of cache job =
    ground (arith, get-put job job (machine_or_empty (machine_of job)) cache)

pub get_job_machine_name-stays :
    (machine_of : ℕ → Option String) (cache : Cache) (other job : ℕ) {name : String}
    → get job cache ≡ some name
    → get job (get_job_machine_name machine_of cache other).1 ≡ some name
unfolding get_job_machine_name
get_job_machine_name-stays machine_of cache other job e =
    ground (arith, get-put other job (machine_or_empty (machine_of other)) cache)

-- The first answer for a job, a failed query included, is the answer of every later lookup,
-- whatever PostgreSQL then says and whichever job was asked for in between.
pub get_job_machine_name-sticky :
    (first between later : ℕ → Option String) (cache : Cache) (job other : ℕ)
    → (get_job_machine_name later
        (get_job_machine_name between (get_job_machine_name first cache job).1 other).1
        job).0
      ≡ (get_job_machine_name first cache job).0
get_job_machine_name-sticky first between later cache job other =
    ap (λ r. r.0)
      (get_job_machine_name-some later _ job _
        (get_job_machine_name-stays between _ other job (get_job_machine_name-get first cache job)))
