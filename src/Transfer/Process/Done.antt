-- ===== src/Transfer/Process/Done.antt =====
-- Which tasks count as done.
use tmp_cf_ytb_admin.Base.{
  ℕ, ◌<◌, ◌≡◌, ◌≢◌, ◌⊎◌, ◌↔◌, inl, inr, refl, sym, ap, ◌∙◌, Bool, true, false, not, ◌&&◌, Option,
  none, some, List, [], ◌∷◌, ltb, leb, arith, by_test,
}
use tmp_cf_ytb_admin.Transfer.Retry.{WorkerTask}
use tmp_cf_ytb_admin.Transfer.Copy.{transfer_file}
use tmp_cf_ytb_admin.Transfer.Process.{
  Head, head_failed, no_length, has_length, Settings, World, Outcome, copy_file, copy_after,
  size_head, work_on, process_task,
}
use tmp_cf_ytb_admin.Transfer.Process.Ends.{IsCopied, IsGone}

wrong : {A : Type 0} → ◌≡◌ {A = List Bool} (false ∷ []) (true ∷ []) → A
wrong e = cc

unnegated : (b : Bool) → not b ≡ false → b ≡ true
unnegated true h = refl
unnegated false h = cc

negated : (b : Bool) → not b ≡ true → b ≡ false
negated true h = cc
negated false h = refl

module _ (cfg : Settings) (w : World) (t : WorkerTask) where
  abbrev Done : Type 0
  Done =
      (t.retry_count < cfg.max_retry_count)
      × ((delete_source : Bool) × (w.job ≡ some delete_source))
      × (IsGone cfg w t ⊎ ((¬ (IsGone cfg w t)) × IsCopied cfg w t))

  abbrev Agree : Outcome → Type 0
  Agree o = (o.results ≡ true ∷ []) ↔ Done

  abbrev Here : Type 0
  Here = (¬ (IsGone cfg w t)) × (t.retry_count < cfg.max_retry_count)

  on_copy :
      (delete_source : Bool) (size : ℕ)
      → Here
      → w.job ≡ some delete_source
      → w.has_dst_client ≡ true
      → size_head cfg w t ≡ has_length size
      → Agree (copy_file cfg w t delete_source size)
  unfolding copy_file
  on_copy delete_source size (here, few) j c e =
      by_test Agree (not w.has_src_url)
        (λ h. (
          λ d. wrong d,
          λ (_, _, done). elim done [
            | inl g ↦ absurd (here g)
            | inr (_, (_, _, _, url, _)) ↦ absurd (clash (sym url ∙ negated w.has_src_url h))
          ],
        ))
        (λ h.
          by_test Agree
            (transfer_file cfg.multipart_threshold cfg.min_part_size w.copy size w.order).0
            (λ k. (
              λ d.
                  (few, (delete_source, j), inr (here, (size, e, c, unnegated w.has_src_url h, k))),
              λ d. refl,
            ))
            (λ k. (
              λ d. wrong d,
              λ (_, _, done). elim done [
                | inl g ↦ absurd (here g)
                | inr (_, (size', e', _, _, copied)) ↦ absurd (
                    clash (
                      sym copied
                      ∙ ap
                          (λ n.
                            (transfer_file cfg.multipart_threshold cfg.min_part_size w.copy n
                              w.order).0)
                          (same_length (sym e' ∙ e))
                      ∙ k))
              ],
            )))
    where
      clash : ◌≢◌ {A = Bool} true false
      clash d = cc

      same_length : {m n : ℕ} → has_length m ≡ has_length n → m ≡ n
      same_length d = cc

  on_head :
      (delete_source : Bool) (h : Head)
      → Here
      → w.job ≡ some delete_source
      → w.has_dst_client ≡ true
      → size_head cfg w t ≡ h
      → Agree (copy_after cfg w t delete_source h)
  on_head delete_source head_failed (here, few) j c e = (
    λ d. wrong d,
    λ (_, _, done). elim done [
      | inl g ↦ absurd (here g)
      | inr (_, (n, e', _, _, _)) ↦ absurd (failed≢ n (sym e ∙ e'))
    ],
  )
    where
      failed≢ : (n : ℕ) → head_failed ≢ has_length n
      failed≢ n d = cc
  on_head delete_source no_length (here, few) j c e = (
    λ d. wrong d,
    λ (_, _, done). elim done [
      | inl g ↦ absurd (here g)
      | inr (_, (n, e', _, _, _)) ↦ absurd (none≢ n (sym e ∙ e'))
    ],
  )
    where
      none≢ : (n : ℕ) → no_length ≢ has_length n
      none≢ n d = cc
  on_head delete_source (has_length n) here j c e = on_copy delete_source n here j c e

  on_job :
      t.retry_count < cfg.max_retry_count
      → (j : Option Bool) → w.job ≡ j
      → Agree (work_on cfg w t j)
  on_job few none j = (λ d. wrong d, λ (_, (b, j'), _). absurd (none≢some b (sym j ∙ j')))
    where
      none≢some : (b : Bool) → ◌≢◌ {A = Option Bool} none (some b)
      none≢some b d = cc
  on_job few (some delete_source) j =
      by_test Agree (ltb 0 t.retry_count && not w.is_source_found)
        (λ h. (λ d. (few, (delete_source, j), inl (gone h)), λ d. refl))
        (λ h.
          by_test Agree (not w.has_dst_client)
            (λ k. (
              λ d. wrong d,
              λ (_, _, done). elim done [
                | inl g ↦ absurd (not_gone h g)
                | inr (_, (_, _, c, _, _)) ↦ absurd (clash (sym c ∙ negated w.has_dst_client k))
              ],
            ))
            (λ k.
              on_head delete_source (size_head cfg w t) (λ g. not_gone h g, few) j
                (unnegated w.has_dst_client k) refl))
    where
      clash : ◌≢◌ {A = Bool} true false
      clash d = cc

      gone : (ltb 0 t.retry_count && not w.is_source_found) ≡ true → IsGone cfg w t
      gone h = ground (arith, h)

      not_gone : (ltb 0 t.retry_count && not w.is_source_found) ≡ false → IsGone cfg w t → ⊥
      not_gone h (some', unseen) = ground (arith, h, some', unseen)

  -- A task counts as done exactly when it has a retry left, its job is known, and its file was
  -- copied, or else, on a retry, whatever error the look for its source gave.
  pub process_task-results : ((process_task cfg w t).results ≡ true ∷ []) ↔ (
      (t.retry_count < cfg.max_retry_count)
      × ((delete_source : Bool) × (w.job ≡ some delete_source))
      × (IsGone cfg w t ⊎ ((¬ (IsGone cfg w t)) × IsCopied cfg w t)))
  unfolding process_task copy_file
  process_task-results =
      by_test Agree (leb cfg.max_retry_count t.retry_count)
        (λ h. (λ e. wrong e, λ (few, _, _). absurd (ground (arith, h, few))))
        (λ h. on_job (ground (arith, h)) w.job refl)
