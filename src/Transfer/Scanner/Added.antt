-- ===== src/Transfer/Scanner/Added.antt =====
-- What a scan leaves in the job when the batches that it sends are added one after another.
use mathlib.Core.List.{map-append}
use tmp_cf_ytb_admin.Base.{
  ℕ, ◌≡◌, refl, sym, ap, ◌∙◌, subst, String, Bool, ◌||◌, Option, none, List, [], ◌∷◌, ◌++◌, map,
}
use tmp_cf_ytb_admin.Sharded.{Input}
use tmp_cf_ytb_admin.SourceSet.{
  SourceSet, IsLawful, mentions, number_new, add_batches, knows-add_batches, number-add_batches,
  number-add_batches_again,
}
use tmp_cf_ytb_admin.SourceSet
use tmp_cf_ytb_admin.Transfer.Scanner.{
  Object, ScannedJob, TransferTaskInput, process_job, is_incremental_scan, finished,
}
use tmp_cf_ytb_admin.Transfer.Scanner.Sent.{concat, selected, objects_of, process_job-Carries}

-- The JSON of a task, as the server reads it.
abbrev pub to_input : TransferTaskInput → Input
to_input t = record { src = t.src; size = t.size }

concat-map :
    (bs : List (List TransferTaskInput))
    → SourceSet.concat (map (map to_input) bs) ≡ map to_input (concat bs)
concat-map [] = refl
concat-map (b ∷ bs) =
    ap (λ r. map to_input b ++ r) (concat-map bs) ∙ sym (map-append to_input b (concat bs))

module _ (S : SourceSet) (law : IsLawful S) where
  -- What adding batches does to a job.
  abbrev pub Adds : List Input → S.State → ℕ × S.State → Type 0
  Adds wanted s after =
      (after.0 ≡ number_new (S.knows s) wanted)
      × ((x : String) → S.knows after.1 x ≡ (S.knows s x || mentions x wanted))

  add_batches-Adds :
      (bs : List (List TransferTaskInput)) (ts : List TransferTaskInput) (s : S.State)
      → concat bs ≡ ts
      → Adds (map to_input ts) s (add_batches S (map (map to_input) bs) s)
  add_batches-Adds bs ts s e =
      subst (λ is. Adds is s (add_batches S (map (map to_input) bs) s))
        (concat-map bs ∙ ap (map to_input) e)
        (
          number-add_batches S law (map (map to_input) bs) s,
          λ x. knows-add_batches S law (map (map to_input) bs) s x,
        )

  -- When a scan finishes, with no refresh of the job in between, and its batches are added one
  -- after another to a job that is kept in any lawful way, then the job knows afterwards what it
  -- knew and the objects of all pages that the scan selects, as many tasks were added as there
  -- are different sources among these that it did not know, and adding the batches of the same
  -- scan again adds none.
  pub process_job-Adds :
      (path_match : String → String → Option Bool) (path_base : String → String)
      (is_folder : String → Bool) (next_page : ℕ → ℕ → Option (List Object))
      (started connected : Bool) (n : ℕ) (job : ScannedJob) (s : S.State)
      → let out =
          process_job path_match path_base is_folder next_page
            (λ p. none)
            started
            connected
            n
            job in
        let incremental =
          is_incremental_scan path_match path_base is_folder next_page (λ p. none) job in
        let wanted =
          selected path_match path_base is_folder incremental job.last_scan_time job
            (objects_of path_match path_base is_folder next_page n 1) in
        let batches = map (map to_input) out.1.0 in
        out.0 ≡ finished
        → Adds (map to_input wanted) s (add_batches S batches s)
          × ((add_batches S batches (add_batches S batches s).1).0 ≡ 0)
  process_job-Adds path_match path_base is_folder next_page started connected n job s e = (
    add_batches-Adds _ _ s
        (process_job-Carries path_match path_base is_folder next_page started connected n job e).0,
    number-add_batches_again S law _ s,
  )
