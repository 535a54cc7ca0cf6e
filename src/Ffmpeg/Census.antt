-- ===== src/Ffmpeg/Census.antt =====
-- The counts in the row of an ffmpeg job, and the tasks that they are to count.
use tmp_cf_ytb_admin.Base.{
  ℕ, suc, ◌+◌, ◌≡◌, refl, sym, ap, ◌∙◌, subst, String, str_eq, eq_iff, Bool, true, false, List, [],
  ◌∷◌, ◌==◌, ==_iff, if◌then◌else◌, ℤ, pos, negsuc, ◌+ℤ◌, count, arith, Bool-cases, inl, inr,
  if_true, if_false,
}
use tmp_cf_ytb_admin.Models.{FfmpegTask, Stored, absent, malformed, parsed}
use tmp_cf_ytb_admin.Sharded.{set_at}
use tmp_cf_ytb_admin.Ffmpeg.Update.{
  FfmpegJob, report_on, has_counts, delta, by_counts, by_status, sync_row,
}

abbrev pub has_status : String → Stored FfmpegTask → Bool
has_status st absent = false
has_status st malformed = false
has_status st (parsed t) = str_eq t.status st

-- How many of the tasks with these ids have a status.
abbrev pub census : String → List ℕ → (ℕ → Stored FfmpegTask) → ℕ
census st ids tasks = count (λ k. has_status st (tasks k)) ids

abbrev unit_if : Bool → ℕ
unit_if true = 1
unit_if false = 0

census-other :
    (st : String) (k : ℕ) (t : FfmpegTask) (ids : List ℕ) (tasks : ℕ → Stored FfmpegTask)
    → count (λ j. k == j) ids ≡ 0
    → census st ids (set_at k (parsed t) tasks) ≡ census st ids tasks
census-other st k t [] tasks h = refl
census-other st k t (j ∷ js) tasks h = elim (Bool-cases (k == j)) [
  | inl same ↦ absurd (ground (arith, h, same))
  | inr other ↦
      let rest = census-other st k t js tasks (sym (if_false {b = k == j} _ _ other) ∙ h) in
      let here : has_status st (set_at k (parsed t) tasks j) ≡ has_status st (tasks j) =
        ap (has_status st) (if_false {b = k == j} (parsed t) (tasks j) other) in
      ap
        (λ b.
          if b
          then suc (census st js (set_at k (parsed t) tasks))
          else census st js (set_at k (parsed t) tasks))
        here
      ∙ ap (λ n. if has_status st (tasks j) then suc n else n) rest
]

count_if : (b : Bool) (n : ℕ) → (if b then suc n else n) ≡ n + unit_if b
count_if true n = omega arith
count_if false n = omega arith

census-one :
    (st : String) (k : ℕ) (e t : FfmpegTask) (ids : List ℕ) (tasks : ℕ → Stored FfmpegTask)
    → count (λ j. k == j) ids ≡ 1
    → tasks k ≡ parsed e
    → census st ids (set_at k (parsed t) tasks) + unit_if (str_eq e.status st)
      ≡ census st ids tasks + unit_if (str_eq t.status st)
census-one st k e t [] tasks h stored = absurd (omega (arith, h))
census-one st k e t (j ∷ js) tasks h stored = elim (Bool-cases (k == j)) [
  | inl same ↦
      let once : count (λ i. k == i) js ≡ 0 =
        omega (arith, sym (if_true {b = k == j} (suc (count (λ i. k == i) js)) _ same) ∙ h) in
      let at : k ≡ j = (==_iff k j).0 same in
      let now : has_status st (set_at k (parsed t) tasks j) ≡ str_eq t.status st =
        ap (has_status st) (if_true {b = k == j} (parsed t) (tasks j) same) in
      let was : has_status st (tasks j) ≡ str_eq e.status st =
        ap (λ i. has_status st (tasks i)) (sym at) ∙ ap (has_status st) stored in
      omega (
        arith,
        count_if (has_status st (set_at k (parsed t) tasks j))
            (census st js (set_at k (parsed t) tasks)),
        count_if (has_status st (tasks j)) (census st js tasks),
        ap unit_if now,
        ap unit_if was,
        census-other st k t js tasks once,
      )
  | inr other ↦
      let rest = census-one st k e t js tasks (sym (if_false {b = k == j} _ _ other) ∙ h) stored in
      let here : has_status st (set_at k (parsed t) tasks j) ≡ has_status st (tasks j) =
        ap (has_status st) (if_false {b = k == j} (parsed t) (tasks j) other) in
      omega (
        arith,
        count_if (has_status st (set_at k (parsed t) tasks j))
            (census st js (set_at k (parsed t) tasks)),
        count_if (has_status st (tasks j)) (census st js tasks),
        ap unit_if here,
        rest,
      )
]

moved :
    (a b : Bool) (m n : ℕ)
    → n + unit_if a ≡ m + unit_if b
    → pos m +ℤ ((if a then negsuc 0 else pos 0) +ℤ (if b then pos 1 else pos 0)) ≡ pos n
unfolding ◌+ℤ◌
moved true true m n h = ground (arith, h)
moved true false m n h = ground (arith, h)
moved false true m n h = ground (arith, h)
moved false false m n h = ground (arith, h)

-- The counts of a row are those of the tasks.
pub record IsExact (ids : List ℕ) (tasks : ℕ → Stored FfmpegTask) (row : FfmpegJob) : Type 0 where
  pub pending : row.pending_count ≡ pos (census "PENDING" ids tasks)
  pub running : row.running_count ≡ pos (census "RUNNING" ids tasks)
  pub success : row.success_count ≡ pos (census "COMPLETED" ids tasks)
  pub failed : row.failed_count ≡ pos (census "FAILED" ids tasks)

module _ (ids : List ℕ) where
  moved-census :
      (st : String) (k : ℕ) (e t : FfmpegTask) (tasks : ℕ → Stored FfmpegTask) (n : ℤ)
      → count (λ j. k == j) ids ≡ 1
      → tasks k ≡ parsed e
      → n ≡ pos (census st ids tasks)
      → n +ℤ delta e.status t.status st ≡ pos (census st ids (set_at k (parsed t) tasks))
  moved-census st k e t tasks n once stored exact =
      ap (λ x. x +ℤ delta e.status t.status st) exact
      ∙ moved (str_eq e.status st) (str_eq t.status st) _ _
          (census-one st k e t ids tasks once stored)

  by_status-IsExact :
      (k : ℕ) (e t : FfmpegTask) (tasks : ℕ → Stored FfmpegTask) (row : FfmpegJob)
      → count (λ j. k == j) ids ≡ 1
      → tasks k ≡ parsed e
      → IsExact ids tasks row
      → IsExact ids (set_at k (parsed t) tasks) (by_status e.status t.status row)
  unfolding by_status
  by_status-IsExact k e t tasks row once stored exact = record {
    pending = moved-census "PENDING" k e t tasks row.pending_count once stored exact.pending;
    running = moved-census "RUNNING" k e t tasks row.running_count once stored exact.running;
    success = moved-census "COMPLETED" k e t tasks row.success_count once stored exact.success;
    failed = moved-census "FAILED" k e t tasks row.failed_count once stored exact.failed;
  }

  same-IsExact :
      (k : ℕ) (e t : FfmpegTask) (tasks : ℕ → Stored FfmpegTask) (row : FfmpegJob)
      → count (λ j. k == j) ids ≡ 1
      → tasks k ≡ parsed e
      → e.status ≡ t.status
      → IsExact ids tasks row
      → IsExact ids (set_at k (parsed t) tasks) row
  same-IsExact k e t tasks row once stored same exact = record {
    pending = exact.pending ∙ ap pos (kept "PENDING");
    running = exact.running ∙ ap pos (kept "RUNNING");
    success = exact.success ∙ ap pos (kept "COMPLETED");
    failed = exact.failed ∙ ap pos (kept "FAILED");
  }
    where
      kept : (st : String) → census st ids tasks ≡ census st ids (set_at k (parsed t) tasks)
      kept st =
          omega
            (arith, census-one st k e t ids tasks once stored, ap (λ s. unit_if (str_eq s st)) same)

  pub sync_row-IsExact :
      (now k : ℕ) (u e : FfmpegTask) (tasks : ℕ → Stored FfmpegTask) (row : FfmpegJob)
      → count (λ j. k == j) ids ≡ 1
      → tasks k ≡ parsed e
      → has_counts u ≡ false
      → IsExact ids tasks row
      → IsExact ids (set_at k (parsed (report_on now u e)) tasks) (sync_row u e row)
  unfolding sync_row report_on
  sync_row-IsExact now k u e tasks row once stored plain exact =
      subst (IsExact ids (set_at k (parsed (report_on now u e)) tasks))
        (sym (if_false {b = has_counts u} (by_counts u row) _ plain))
        (elim (Bool-cases (str_eq e.status u.status)) [
          | inl same ↦
              subst (IsExact ids (set_at k (parsed (report_on now u e)) tasks))
                (sym (
                  if_true {b = str_eq e.status u.status} row (by_status e.status u.status row)
                    same))
                (same-IsExact k e (report_on now u e) tasks row once stored
                  ((eq_iff e.status u.status).0 same) exact)
          | inr differ ↦
              subst (IsExact ids (set_at k (parsed (report_on now u e)) tasks))
                (sym (
                  if_false {b = str_eq e.status u.status} row (by_status e.status u.status row)
                    differ))
                (by_status-IsExact k e (report_on now u e) tasks row once stored exact)
        ])
