-- ===== src/Transfer/Scanner/Sent.antt =====
-- What a scan sends.
use mathlib.Core.List.{map-append}
use tmp_cf_ytb_admin.Base.{
  ℕ, zero, suc, ◌+◌, ◌≤◌, ◌<◌, ◌≡◌, ◌≢◌, refl, sym, ap, ◌∙◌, subst, String, Bool, true, false, not,
  ◌&&◌, Option, none, some, List, [], ◌∷◌, ◌++◌, append_assoc, append-nil, map, arith, leb, ◌==◌,
  if◌then◌else◌, length, length-append, keep, keep-append, All, Bool-cases, Option-cases, inl, inr,
  if_true, if_false,
}
use tmp_cf_ytb_admin.Transfer.Scanner.{
  Object, has, ScannedJob, TransferTaskInput, Scan, Outcome, send_batches, size_of, is_before,
  is_left_out, scan_object, scan_page, max_retries, list_page, scan_pages, is_incremental_scan,
  no_tasks, process_job, not_started, scanned_before, not_connected, failed, finished,
}

abbrev pub concat : List (List TransferTaskInput) → List TransferTaskInput
concat [] = []
concat (b ∷ bs) = b ++ concat bs

abbrev pub IsBatch : List TransferTaskInput → Type 0
IsBatch b = (1 ≤ length b) × (length b ≤ 100)

-- The batches are the tasks, in order.
abbrev pub Carries : List TransferTaskInput → List (List TransferTaskInput) → Type 0
Carries ts bs = (concat bs ≡ ts) × All IsBatch bs

send_batches-Carries :
    (batch ts : List TransferTaskInput)
    → length batch < 100
    → Carries (batch ++ ts) (send_batches batch ts)
unfolding send_batches
send_batches-Carries [] [] short = (refl, record {})
send_batches-Carries (b ∷ bs) [] short =
    subst (Carries ((b ∷ bs) ++ []))
      (sym (if_false {b = length (b ∷ bs) == 0} [] ((b ∷ bs) ∷ []) (ground arith)))
      (refl, ((omega arith, omega (arith, short)), record {}))
send_batches-Carries batch (t ∷ ts) short =
    let full = batch ++ t ∷ [] in
    let size = length-append batch (t ∷ []) in
    let same : full ++ ts ≡ batch ++ t ∷ ts = append_assoc batch (t ∷ []) ts in
    elim (Bool-cases (leb 100 (length full))) [
      | inl complete ↦
          let (rest, all) = send_batches-Carries [] ts (omega arith) in
          subst (Carries (batch ++ t ∷ ts))
            (sym (
              if_true {b = leb 100 (length full)} (full ∷ send_batches [] ts) (send_batches full ts)
                complete))
            (
              ap (λ us. full ++ us) rest ∙ same,
              ((omega (arith, size), omega (arith, size, short)), all),
            )
      | inr room ↦
          subst (Carries (batch ++ t ∷ ts))
            (sym (
              if_false {b = leb 100 (length full)} (full ∷ send_batches [] ts)
                (send_batches full ts) room))
            (subst (λ us. Carries us (send_batches full ts)) same
              (send_batches-Carries full ts (ground (arith, room))))
    ]

module _ (path_match : String → String → Option Bool) (path_base : String → String)
    (is_folder : String → Bool) where
  -- Whether the job selects an object.
  abbrev pub is_selected : Bool → Option ℕ → ScannedJob → Object → Bool
  is_selected incremental since job obj =
      not (is_folder obj.key)
      && not (incremental && is_before path_match path_base is_folder obj.last_modified since)
      && not (is_left_out path_match path_base is_folder job obj.key)

  abbrev pub input_of : Object → TransferTaskInput
  input_of obj = record { src = obj.key; size = size_of path_match path_base is_folder obj.size }

  abbrev pub selected : Bool → Option ℕ → ScannedJob → List Object → List TransferTaskInput
  selected incremental since job objs = map input_of (keep (is_selected incremental since job) objs)

  scan_object-tasks :
      (incremental : Bool) (since : Option ℕ) (job : ScannedJob) (obj : Object) (s : Scan)
      → (scan_object path_match path_base is_folder incremental since job obj s).tasks
        ≡ s.tasks ++ selected incremental since job (obj ∷ [])
  unfolding scan_object
  scan_object-tasks incremental since job obj s =
      cases (is_folder obj.key)
        (incremental && is_before path_match path_base is_folder obj.last_modified since)
        (is_left_out path_match path_base is_folder job obj.key)
    where
      cases :
          (a b c : Bool)
          → let seen = record s { last_key = some obj.key } in
            let out : Scan =
              if a
              then s
              else if b
              then record seen { skipped = s.skipped + 1 }
              else if c
              then seen
              else record seen { tasks = s.tasks ++ input_of obj ∷ [] } in
            out.tasks ≡ s.tasks ++ map input_of (if not a && not b && not c then obj ∷ [] else [])
      cases true b c = sym (append-nil s.tasks)
      cases false true c = sym (append-nil s.tasks)
      cases false false true = sym (append-nil s.tasks)
      cases false false false = refl

  scan_page-tasks :
      (incremental : Bool) (since : Option ℕ) (job : ScannedJob) (objs : List Object) (s : Scan)
      → (scan_page path_match path_base is_folder incremental since job objs s).tasks
        ≡ s.tasks ++ selected incremental since job objs
  unfolding scan_page
  scan_page-tasks incremental since job [] s = sym (append-nil s.tasks)
  scan_page-tasks incremental since job (obj ∷ objs) s =
      scan_page-tasks incremental since job objs
        (scan_object path_match path_base is_folder incremental since job obj s)
      ∙ ap (λ ts. ts ++ selected incremental since job objs)
          (scan_object-tasks incremental since job obj s)
      ∙ append_assoc s.tasks (selected incremental since job (obj ∷ []))
          (selected incremental since job objs)
      ∙ ap (λ ts. s.tasks ++ ts) (one (is_selected incremental since job obj))
    where
      one :
          (b : Bool)
          → let later = keep (is_selected incremental since job) objs in
            map input_of (if b then obj ∷ [] else []) ++ map input_of later
            ≡ map input_of (if b then obj ∷ later else later)
      one true = refl
      one false = refl

  module _ (next_page : ℕ → ℕ → Option (List Object)) where
    abbrev pub or_empty : Option (List Object) → List Object
    or_empty none = []
    or_empty (some objs) = objs

    -- The objects of so many pages from one on, as they are answered in the end.
    abbrev pub objects_of : ℕ → ℕ → List Object
    objects_of zero page = []
    objects_of (suc n) page =
        or_empty (list_page path_match path_base is_folder next_page (λ p. none) page 0 max_retries)
        ++ objects_of n (page + 1)

    selected-append :
        (incremental : Bool) (since : Option ℕ) (job : ScannedJob) (xs ys : List Object)
        → selected incremental since job (xs ++ ys)
          ≡ selected incremental since job xs ++ selected incremental since job ys
    selected-append incremental since job xs ys =
        ap (map input_of) (keep-append (is_selected incremental since job) xs ys)
        ∙ map-append input_of (keep (is_selected incremental since job) xs)
            (keep (is_selected incremental since job) ys)

    abbrev pages : Bool → Option ℕ → ℕ → ℕ → ScannedJob → Scan → Outcome × Scan
    pages incremental since n page job s =
        scan_pages path_match path_base is_folder next_page (λ p. none) incremental since n page job
          s

    scan_pages-some :
        (incremental : Bool) (since : Option ℕ) (n page : ℕ) (job : ScannedJob) (s : Scan)
        (objs : List Object)
        → list_page path_match path_base is_folder next_page (λ p. none) page 0 max_retries
          ≡ some objs
        → pages incremental since (suc n) page job s
          ≡ pages incremental since n
              (page + 1)
              job
              (scan_page path_match path_base is_folder incremental since job objs s)
    unfolding scan_pages
    scan_pages-some incremental since n page job s objs e = rw (e, scan_pages) refl

    scan_pages-none :
        (incremental : Bool) (since : Option ℕ) (n page : ℕ) (job : ScannedJob) (s : Scan)
        → list_page path_match path_base is_folder next_page (λ p. none) page 0 max_retries ≡ none
        → pages incremental since (suc n) page job s ≡ (failed, s)
    unfolding scan_pages
    scan_pages-none incremental since n page job s e = rw (e, scan_pages) refl

    failed≢finished : ◌≢◌ {A = Outcome} failed finished
    failed≢finished e = cc

    scan_pages-tasks :
        (incremental : Bool) (since : Option ℕ) (n page : ℕ) (job : ScannedJob) (s : Scan)
        → (pages incremental since n page job s).0 ≡ finished
        → (pages incremental since n page job s).1.tasks
          ≡ s.tasks ++ selected incremental since job (objects_of n page)
    scan_pages-tasks incremental since zero page job s e =
        unfold scan_pages in sym (append-nil s.tasks)
    scan_pages-tasks incremental since (suc n) page job s e =
        let answer =
          list_page path_match path_base is_folder next_page (λ p. none) page 0 max_retries in
        elim (Option-cases answer) [
          | inl lost ↦ absurd (
              failed≢finished
                (sym (ap (λ r. r.0) (scan_pages-none incremental since n page job s lost)) ∙ e))
          | inr (objs, got) ↦
              let step = scan_pages-some incremental since n page job s objs got in
              let s' = scan_page path_match path_base is_folder incremental since job objs s in
              ap (λ r. r.1.tasks) step
              ∙ scan_pages-tasks incremental since n (page + 1) job s'
                  (sym (ap (λ r. r.0) step) ∙ e)
              ∙ ap (λ ts. ts ++ selected incremental since job (objects_of n (page + 1)))
                  (scan_page-tasks incremental since job objs s)
              ∙ append_assoc s.tasks (selected incremental since job objs)
                  (selected incremental since job (objects_of n (page + 1)))
              ∙ ap (λ ts. s.tasks ++ ts)
                  (sym (selected-append incremental since job objs (objects_of n (page + 1))))
              ∙ ap
                  (λ o.
                    s.tasks
                    ++ selected incremental since job (or_empty o ++ objects_of n (page + 1)))
                  (sym got)
        ]

    -- A scan that finishes, with no refresh of the job in between, has sent the objects of all
    -- pages that the job selects, each once and in their order, in batches of at most 100.
    pub process_job-Carries :
        (started connected : Bool) (n : ℕ) (job : ScannedJob)
        → let out =
            process_job path_match path_base is_folder next_page
              (λ p. none)
              started
              connected
              n
              job in
          let incremental =
            is_incremental_scan path_match path_base is_folder next_page (λ p. none) job in
          out.0 ≡ finished
          → Carries (selected incremental job.last_scan_time job (objects_of n 1)) out.1.0
    unfolding process_job
    process_job-Carries started connected n job e =
        guards started
          (not job.is_incremental && has path_match path_base is_folder job.last_scan_time)
          connected e
      where
        incremental : Bool
        incremental = is_incremental_scan path_match path_base is_folder next_page (λ p. none) job

        out : Outcome × Scan
        out =
            pages incremental job.last_scan_time n 1 job
              (no_tasks path_match path_base is_folder next_page (λ p. none))

        empty : Scan
        empty = no_tasks path_match path_base is_folder next_page (λ p. none)

        guards :
            (a b c : Bool)
            → let r : Outcome × (List (List TransferTaskInput) × Scan) =
                if not a
                then (not_started, ([], empty))
                else if b
                then (scanned_before, ([], empty))
                else if not c
                then (not_connected, ([], empty))
                else (out.0, (send_batches [] out.1.tasks, out.1)) in
              r.0 ≡ finished
              → Carries (selected incremental job.last_scan_time job (objects_of n 1)) r.1.0
        guards false b c e = cc
        guards true true c e = cc
        guards true false false e = cc
        guards true false true e =
            subst (λ ts. Carries ts (send_batches [] out.1.tasks))
              (scan_pages-tasks incremental job.last_scan_time n 1 job empty e)
              (send_batches-Carries [] out.1.tasks (omega arith))
