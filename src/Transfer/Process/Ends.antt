-- ===== src/Transfer/Process/Ends.antt =====
-- How the work on a task ends.
use tmp_cf_ytb_admin.Base.{
  ℕ, ◌≤◌, ◌<◌, ◌≡◌, ◌⊎◌, inl, inr, refl, ap, ◌∙◌, String, Bool, true, false, not, ◌&&◌, Option,
  none, some, List, [], ◌∷◌, ltb, leb, arith, by_test,
}
use tmp_cf_ytb_admin.Transfer.Retry.{WorkerTask, update_task_status_with_retry}
use tmp_cf_ytb_admin.Transfer.Copy.{transfer_file, Request}
use tmp_cf_ytb_admin.Transfer.Process.{
  Head, head_failed, no_length, has_length, Settings, World, Outcome, failed, completed, copy_file,
  copy_after, size_head, work_on, process_task,
}

module _ (cfg : Settings) (w : World) (t : WorkerTask) where
  -- The file was copied to the destination, the size being known.
  abbrev pub IsCopied : Type 0
  IsCopied =
      (size : ℕ) × (size_head cfg w t ≡ has_length size)
      × (w.has_dst_client ≡ true)
      × (w.has_src_url ≡ true)
      × ((transfer_file cfg.multipart_threshold cfg.min_part_size w.copy size w.order).0 ≡ true)

  -- The source was looked for before a retry, and the answer was an error.
  abbrev pub IsGone : Type 0
  IsGone = (0 < t.retry_count) × (w.is_source_found ≡ false)

  -- One report of the end, and one result that agrees with it.
  abbrev pub IsReported : Outcome → Type 0
  IsReported o =
      (r : WorkerTask) × (o.reports ≡ r ∷ [])
      × (r.id ≡ t.id)
      × (r.job_id ≡ t.job_id)
      × (((r.status ≡ "COMPLETED") × ((r.retry_count ≡ 0) × (o.results ≡ true ∷ [])))
          ⊎ ((r.status ≡ "FAILED") × ((t.retry_count ≤ r.retry_count) × (o.results ≡ false ∷ []))))

  failed-IsReported : (msg : String) (asked : List Request) → IsReported (failed cfg w t msg asked)
  unfolding update_task_status_with_retry
  failed-IsReported msg asked = (
    update_task_status_with_retry w.stamp t "FAILED" msg,
    refl,
    refl,
    refl,
    inr (refl, (omega arith, refl)),
  )

  completed-IsReported :
      (msg : String) (deleted : Bool) (asked : List Request)
      → IsReported (completed cfg w t msg deleted asked)
  unfolding update_task_status_with_retry
  completed-IsReported msg deleted asked = (
    update_task_status_with_retry w.stamp t "COMPLETED" msg,
    refl,
    refl,
    refl,
    inl (refl, (refl, refl)),
  )

  -- However the work on a task ends, it is reported once, as completed with no failures or as
  -- failed with no fewer failures than before, and the result that is counted agrees with the
  -- report.
  pub process_task-IsReported : IsReported (process_task cfg w t)
  unfolding process_task copy_file
  process_task-IsReported =
      by_test IsReported (leb cfg.max_retry_count t.retry_count)
        (λ h. (
          record t { src = ""; size = 0; status = "FAILED" },
          refl,
          refl,
          refl,
          inr (refl, (omega arith, refl)),
        ))
        (λ h. on_job w.job)
    where
      asked : ℕ → List Request
      asked size = (transfer_file cfg.multipart_threshold cfg.min_part_size w.copy size w.order).1

      on_copy :
          (delete_source : Bool) (size : ℕ) → IsReported (copy_file cfg w t delete_source size)
      on_copy delete_source size =
          by_test IsReported (not w.has_src_url)
            (λ h. failed-IsReported "Construct Src URL failed" [])
            (λ h.
              by_test IsReported
                (transfer_file cfg.multipart_threshold cfg.min_part_size w.copy size w.order).0
                (λ k. completed-IsReported "" delete_source (asked size))
                (λ k. failed-IsReported w.error_text (asked size)))

      on_head : (delete_source : Bool) (h : Head) → IsReported (copy_after cfg w t delete_source h)
      on_head delete_source head_failed = failed-IsReported "HeadObject failed" []
      on_head delete_source no_length = failed-IsReported "Panic" []
      on_head delete_source (has_length n) = on_copy delete_source n

      on_job : (j : Option Bool) → IsReported (work_on cfg w t j)
      on_job none = failed-IsReported w.error_text []
      on_job (some delete_source) =
          by_test IsReported (ltb 0 t.retry_count && not w.is_source_found)
            (λ h. completed-IsReported "Source object no longer exists, skipping" false [])
            (λ h.
              by_test IsReported (not w.has_dst_client)
                (λ k. failed-IsReported "Dst client init failed" [])
                (λ k. on_head delete_source (size_head cfg w t)))

  -- The source is asked to be deleted at most when the job wants it and the file was copied.
  pub process_task-deleted :
      (process_task cfg w t).is_deleted ≡ true → (w.job ≡ some true) × IsCopied
  unfolding process_task copy_file
  process_task-deleted =
      by_test Safe (leb cfg.max_retry_count t.retry_count) (λ h d. cc) (λ h. on_job w.job refl)
    where
      Safe : Outcome → Type 0
      Safe o = o.is_deleted ≡ true → (w.job ≡ some true) × IsCopied

      not_false : (b : Bool) → not b ≡ false → b ≡ true
      not_false true h = refl
      not_false false h = cc

      on_copy :
          (delete_source : Bool) (size : ℕ)
          → w.job ≡ some delete_source
          → w.has_dst_client ≡ true
          → size_head cfg w t ≡ has_length size
          → Safe (copy_file cfg w t delete_source size)
      on_copy delete_source size j c e =
          by_test Safe (not w.has_src_url) (λ h d. cc)
            (λ h.
              by_test Safe
                (transfer_file cfg.multipart_threshold cfg.min_part_size w.copy size w.order).0
                (λ k d. (j ∙ ap some d, (size, e, c, not_false w.has_src_url h, k))) (λ k d. cc))

      on_head :
          (delete_source : Bool) (h : Head)
          → w.job ≡ some delete_source
          → w.has_dst_client ≡ true
          → size_head cfg w t ≡ h
          → Safe (copy_after cfg w t delete_source h)
      on_head delete_source head_failed j c e d = cc
      on_head delete_source no_length j c e d = cc
      on_head delete_source (has_length n) j c e d = on_copy delete_source n j c e d

      on_job : (j : Option Bool) → w.job ≡ j → Safe (work_on cfg w t j)
      on_job none j = λ d. cc
      on_job (some delete_source) j =
          by_test Safe (ltb 0 t.retry_count && not w.is_source_found) (λ h d. cc)
            (λ h.
              by_test Safe (not w.has_dst_client) (λ k d. cc)
                (λ k.
                  on_head delete_source (size_head cfg w t) j (not_false w.has_dst_client k) refl))
