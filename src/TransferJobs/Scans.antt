-- ===== src/TransferJobs/Scans.antt =====
-- What the scans that a scanner reports make of a job.
use tmp_cf_ytb_admin.Base.{
  String, ℕ, ◌+◌, ◌≤◌, ◌<◌, ◌≡◌, ◌≢◌, ◌⊎◌, refl, sym, ap, ◌∙◌, eq_iff, Bool, true, false, some,
  List, [], ◌∷◌, arith, subst, leb, if◌then◌else◌, length, All, count, suc, ltb, ◌==◌, ◌&&◌, ◌||◌,
  str_eq, either, Bool-cases, inl, inr,
}
use tmp_cf_ytb_admin.Models.{TransferTask}
use tmp_cf_ytb_admin.TransferJobs.{
  stop_transfer_job, TransferJob, Tasks, get_transfer_job_activity_counts, Statement, Response,
  UpdateJobStatusRequest, or_value, has_updates, apply_request, idle_scan, is_quiet, after_scan,
  update_transfer_job_status,
}

-- What `processJob` of backend/worker_transfer/scanner.go reports at the end of a scan.
abbrev pub IsScan : UpdateJobStatusRequest → Type 0
IsScan r = (r.status ≡ "RUNNING") × (r.inc_execution ≡ true)

apply_request-status :
    (r : UpdateJobStatusRequest) (j : TransferJob)
    → r.status ≡ "RUNNING"
    → (apply_request r j).status ≡ "RUNNING"
unfolding apply_request
apply_request-status r j h = rw h refl

has_updates-status : (r : UpdateJobStatusRequest) → r.status ≡ "RUNNING" → has_updates r ≡ true
has_updates-status r h = rw h refl

running≢completed : ◌≢◌ {A = String} "RUNNING" "COMPLETED"
running≢completed = ground (arith, eq_iff "RUNNING" "COMPLETED")

abbrev all_well : Statement → Bool
all_well s = true

-- The tasks of a job with some statuses, counted one by one.
abbrev pub number_of : (TransferTask → Bool) → ℕ → Tasks → ℕ
number_of p job [] = 0
number_of p job (t ∷ ts) = (if t.job_id == job && p t then 1 else 0) + number_of p job ts

abbrev pub IsOver : ℕ → Tasks → Type 0
IsOver job tasks =
    (number_of (λ t. str_eq t.status "PENDING") job tasks ≡ 0)
    × (number_of (λ t. str_eq t.status "RUNNING") job tasks ≡ 0)
    × (number_of (λ t. str_eq t.status "FAILED" && ltb t.retry_count 3) job tasks ≡ 0)

activity-IsOver :
    (job : ℕ) (tasks : Tasks)
    → get_transfer_job_activity_counts job tasks ≡ (0, 0)
    → IsOver job tasks
unfolding get_transfer_job_activity_counts
activity-IsOver job [] h = (refl, refl, refl)
activity-IsOver job (t ∷ ts) h =
    let open' : count
          (λ u. u.job_id == job && (str_eq u.status "PENDING" || str_eq u.status "RUNNING"))
          (t ∷ ts)
        ≡ 0 =
      ap (λ x. x.0) h in
    let failed' : count (λ u. (u.job_id == job && str_eq u.status "FAILED") && ltb u.retry_count 3)
          (t ∷ ts)
        ≡ 0 =
      ap (λ x. x.1) h in
    let one =
      open_one (t.job_id == job) (str_eq t.status "PENDING") (str_eq t.status "RUNNING") _ open' in
    let two =
      failed_one (t.job_id == job) (str_eq t.status "FAILED") (ltb t.retry_count 3) _ failed' in
    let (p, r, f) = activity-IsOver job ts (λ k. (one.1.1 k, two.1 k)) in
    (omega (arith, one.0, p), omega (arith, one.1.0, r), omega (arith, two.0, f))
  where
    open_one :
        (a b c : Bool) (n : ℕ)
        → (if a && (b || c) then suc n else n) ≡ 0
        → (◌≡◌ {A = ℕ} (if a && b then 1 else 0) 0)
          × ((◌≡◌ {A = ℕ} (if a && c then 1 else 0) 0) × (n ≡ 0))
    open_one true true c n h = absurd (omega (arith, h))
    open_one true false true n h = absurd (omega (arith, h))
    open_one true false false n h = (refl, (refl, h))
    open_one false b c n h = (refl, (refl, h))

    failed_one :
        (a b c : Bool) (n : ℕ)
        → (if (a && b) && c then suc n else n) ≡ 0
        → (◌≡◌ {A = ℕ} (if a && (b && c) then 1 else 0) 0) × (n ≡ 0)
    failed_one true true true n h = absurd (omega (arith, h))
    failed_one true true false n h = (refl, h)
    failed_one true false c n h = (refl, h)
    failed_one false b c n h = (refl, h)

module _ (mirrors : Bool) (db : Statement → Bool) (job_id : ℕ) (tasks : Tasks) where
  -- The handler comes to the part on scans, with the job set RUNNING.
  abbrev Reaches : UpdateJobStatusRequest → TransferJob → Response × TransferJob → Type 0
  Reaches r j result =
      (held : TransferJob) × (row : TransferJob) × (result
        ≡ after_scan mirrors db job_id tasks r held row)
      × (held.is_incremental ≡ j.is_incremental)
      × (row.is_incremental ≡ j.is_incremental)
      × (row.status ≡ "RUNNING")
      × (row.consecutive_idle_scans ≡ j.consecutive_idle_scans)

  update-Reaches :
      (r : UpdateJobStatusRequest) (j : TransferJob)
      → IsScan r
      → db Statement.find ≡ true
      → db Statement.updates ≡ true
      → db Statement.execution ≡ true
      → Reaches r j (update_transfer_job_status mirrors db job_id tasks (some r) j)
  unfolding update_transfer_job_status
  update-Reaches r j scan found written runs =
      let row = apply_request r j in
      rw (found, has_updates-status r scan.0, written, scan.1, runs)
        (
          (if mirrors then row else record row { status = j.status }),
          record row { execution_count = row.execution_count + 1 },
          refl,
          unfold apply_request in same_kind mirrors,
          unfold apply_request in refl,
          apply_request-status r j scan.0,
          unfold apply_request in refl,
        )
    where
      same_kind :
          (b : Bool)
          → (if b
              then apply_request r j
              else record (apply_request r j) { status = j.status }).is_incremental
            ≡ j.is_incremental
      same_kind true = unfold apply_request in refl
      same_kind false = unfold apply_request in refl

  -- Otherwise the handler ends early, and the status is what it was, or RUNNING.
  update-early :
      (r : UpdateJobStatusRequest) (j : TransferJob)
      → IsScan r
      → let out = update_transfer_job_status mirrors db job_id tasks (some r) j in
        Reaches r j out ⊎ ((out.1.status ≡ j.status) ⊎ (out.1.status ≡ "RUNNING"))
  update-early r j scan =
      let full = has_updates-status r scan.0 in
      elim (Bool-cases (db Statement.find)) [
        | inr lost ↦ inr (inl (unfold update_transfer_job_status in rw lost refl))
        | inl found ↦ elim (Bool-cases (db Statement.updates)) [
          | inr lost ↦ inr (inl (unfold update_transfer_job_status in rw (found, full, lost) refl))
          | inl written ↦ elim (Bool-cases (db Statement.execution)) [
            | inr lost ↦ inr (
                inr (
                  unfold update_transfer_job_status in
                  rw (found, full, written, scan.1, lost) (apply_request-status r j scan.0)))
            | inl runs ↦ inl (update-Reaches r j scan found written runs)
          ]
        ]
      ]

  is_quiet_lem :
      (r : UpdateJobStatusRequest)
      → is_quiet mirrors db job_id tasks r ≡ true
      → (or_value r.scan_discovered_count 0 ≡ 0)
        × (get_transfer_job_activity_counts job_id tasks ≡ (0, 0))
  is_quiet_lem r h = ground arith

  after_scan-completed :
      (r : UpdateJobStatusRequest) (held row : TransferJob)
      → held.is_incremental ≡ false
      → row.status ≡ "RUNNING"
      → (after_scan mirrors db job_id tasks r held row).1.status ≡ "COMPLETED"
      → is_quiet mirrors db job_id tasks r ≡ true
  after_scan-completed r held row once running done =
      ground (arith, eq_iff held.status "RUNNING", running≢completed)

  -- The report of a scan sets a job that is not incremental COMPLETED, whatever statements fail,
  -- only where the scan found nothing, and no task of the job is PENDING, none is RUNNING, and none
  -- is FAILED with fewer than 3 retries.
  pub update_transfer_job_status-completed :
      (r : UpdateJobStatusRequest) (j : TransferJob)
      → IsScan r
      → j.is_incremental ≡ false
      → j.status ≢ "COMPLETED"
      → (update_transfer_job_status mirrors db job_id tasks (some r) j).1.status ≡ "COMPLETED"
      → (or_value r.scan_discovered_count 0 ≡ 0) × IsOver job_id tasks
  update_transfer_job_status-completed r j scan once open' done = elim (update-early r j scan) [
    | inr (inl same) ↦ absurd (open' (sym same ∙ done))
    | inr (inr running) ↦ absurd (running≢completed (sym running ∙ done))
    | inl (held, row, e, hi, ri, rs, ridle) ↦
        let quiet =
          is_quiet_lem r (
            after_scan-completed r held row (hi ∙ once) rs (sym (ap (λ x. x.1.status) e) ∙ done)) in
        (quiet.0, activity-IsOver job_id tasks quiet.1)
  ]

module _ (mirrors : Bool) (job_id : ℕ) where
  -- A report that PostgreSQL carries out.
  abbrev pub report : Tasks → UpdateJobStatusRequest → TransferJob → TransferJob
  report tasks r j = (update_transfer_job_status mirrors all_well job_id tasks (some r) j).1

  -- An idle scan was counted.
  abbrev Counted : TransferJob → TransferJob → Type 0
  Counted j j' =
      (j'.consecutive_idle_scans ≡ j.consecutive_idle_scans + 1)
      × ((j'.is_incremental ≡ true)
          × (j'.status
              ≡ (if leb 2 (j.consecutive_idle_scans + 1) then "PHASEDCOMPLETED" else "RUNNING")))

  scan-quiet :
      (tasks : Tasks) (r : UpdateJobStatusRequest) (held row : TransferJob)
      → held.is_incremental ≡ true
      → is_quiet mirrors all_well job_id tasks r ≡ true
      → after_scan mirrors all_well job_id tasks r held row
        ≡ idle_scan mirrors all_well job_id tasks row
  scan-quiet tasks r held row inc quiet = rw (inc, quiet) refl

  idle_scan-Counted :
      (tasks : Tasks) (row j : TransferJob)
      → row.is_incremental ≡ true
      → row.status ≡ "RUNNING"
      → row.consecutive_idle_scans ≡ j.consecutive_idle_scans
      → Counted j (idle_scan mirrors all_well job_id tasks row).1
  idle_scan-Counted tasks row j inc running count' = rw (running, ← count') ground arith

  report-idle :
      (tasks : Tasks) (r : UpdateJobStatusRequest) (j : TransferJob)
      → IsScan r
      → j.is_incremental ≡ true
      → is_quiet mirrors all_well job_id tasks r ≡ true
      → Counted j (report tasks r j)
  report-idle tasks r j scan inc quiet =
      let (held, row, e, hi, ri, rs, ridle) =
        update-Reaches mirrors all_well job_id tasks r j scan refl refl refl in
      subst (λ x. Counted j x.1) (sym e)
        (subst (λ x. Counted j x.1) (sym (scan-quiet tasks r held row (hi ∙ inc) quiet))
          (idle_scan-Counted tasks row j (ri ∙ inc) rs ridle))

  stopped≢running : ◌≢◌ {A = String} "RUNNING" "STOPPED"
  stopped≢running = ground (arith, eq_iff "RUNNING" "STOPPED")

  after_scan-not_stopped :
      (tasks : Tasks) (r : UpdateJobStatusRequest) (held row : TransferJob)
      → row.status ≡ "RUNNING"
      → (after_scan mirrors all_well job_id tasks r held row).1.status ≢ "STOPPED"
  after_scan-not_stopped tasks r held row running =
      either Goes held.is_incremental
        (either Goes (is_quiet mirrors all_well job_id tasks r)
          (either Goes _ phased≢stopped (λ e. stopped≢running (sym running ∙ e))) stopped≢running)
        (either Goes (is_quiet mirrors all_well job_id tasks r && str_eq held.status "RUNNING")
          completed≢stopped (λ e. stopped≢running (sym running ∙ e)))
    where
      Goes : Response × TransferJob → Type 0
      Goes out = out.1.status ≢ "STOPPED"

      phased≢stopped : ◌≢◌ {A = String} "PHASEDCOMPLETED" "STOPPED"
      phased≢stopped = ground (arith, eq_iff "PHASEDCOMPLETED" "STOPPED")

      completed≢stopped : ◌≢◌ {A = String} "COMPLETED" "STOPPED"
      completed≢stopped = ground (arith, eq_iff "COMPLETED" "STOPPED")

  -- A job that is stopped does not stay so: when no statement fails, `StopTransferJob` sets it
  -- STOPPED, and the next report of a scan, whatever the job, its tasks and what the scan has found
  -- are, sets another status.
  pub report-restarts :
      (then' tasks : Tasks) (r : UpdateJobStatusRequest) (j : TransferJob)
      → IsScan r
      → let stopped = (stop_transfer_job all_well job_id then' j).1 in
        (stopped.status ≡ "STOPPED") × ((report tasks r stopped).status ≢ "STOPPED")
  unfolding stop_transfer_job
  report-restarts then' tasks r j scan =
      let stopped : TransferJob = (stop_transfer_job all_well job_id then' j).1 in
      let (held, row, e, hi, ri, rs, ridle) =
        update-Reaches mirrors all_well job_id tasks r stopped scan refl refl refl in
      (
        refl,
        subst (λ x. x.1.status ≢ "STOPPED") (sym e) (after_scan-not_stopped tasks r held row rs),
      )

  -- Reports one after the other, each with the tasks as they then are.
  unfoldable pub reports : List (Tasks × UpdateJobStatusRequest) → TransferJob → TransferJob
  reports [] j = j
  reports ((tasks, r) ∷ more) j = reports more (report tasks r j)

  abbrev pub IsIdle : Tasks × UpdateJobStatusRequest → Type 0
  IsIdle (tasks, r) = IsScan r × (is_quiet mirrors all_well job_id tasks r ≡ true)

  -- The reports of idle scans of an incremental job are counted, and from the second one in a row
  -- on they leave the job PHASEDCOMPLETED, whatever its status was, when no statement fails.
  pub reports-idle :
      (scans : List (Tasks × UpdateJobStatusRequest)) (j : TransferJob)
      → All IsIdle scans
      → j.is_incremental ≡ true
      → 0 < length scans
      → 2 ≤ j.consecutive_idle_scans + length scans
      → ((reports scans j).consecutive_idle_scans ≡ j.consecutive_idle_scans + length scans)
        × ((reports scans j).status ≡ "PHASEDCOMPLETED")
  unfolding reports
  reports-idle [] j idle' inc some' enough = absurd (omega arith)
  reports-idle ((tasks, r) ∷ []) j idle' inc some' enough =
      let (n, (i, s)) = report-idle tasks r j idle'.0.0 inc idle'.0.1 in
      (n ∙ omega arith, s ∙ ground arith)
  reports-idle ((tasks, r) ∷ (next ∷ rest)) j idle' inc some' enough =
      let c = report-idle tasks r j idle'.0.0 inc idle'.0.1 in
      let (n, s) =
        reports-idle (next ∷ rest) (report tasks r j) idle'.1 c.1.0 (omega arith)
          (omega (arith, c.0)) in
      (omega (arith, n, c.0), s)
