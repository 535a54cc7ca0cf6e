-- ===== src/Youtube/Stuck/Scan.antt =====
-- A scan of all pages of a job.
use tmp_cf_ytb_admin.Base.{
  ℕ, zero, suc, ◌+◌, ◌-◌, ◌<◌, str_eq, ◌&&◌, ◌≡◌, refl, sym, ap, ◌∙◌, subst, String, Bool, true,
  false, ◌||◌, Option, List, [], ◌∷◌, ◌++◌, ltb, ◌==◌, ==_iff, if◌then◌else◌, arith, length, take,
  drop, Bool-cases, inl, inr, if_true, if_false, take-drop, take-all, drop-add, length-drop_le,
  ltb→lt,
}
use tmp_cf_ytb_admin.Models.{YoutubeTask, Stored, absent, malformed, parsed}
use tmp_cf_ytb_admin.Sharded.Writes.{has_id}
use tmp_cf_ytb_admin.Youtube.Stuck.{
  Page, apply_resets, Server, Replies, batch_size, is_stuck, reset_stuck, visit_all, values_of,
  scan_page, scan_pages,
}
use tmp_cf_ytb_admin.Youtube.Stuck.Reset.{settle, IsKeyed, settle-settle, visit_all-value}

-- What a scan of some ids makes of the value of an id.
abbrev pub settle_if : ℕ → Bool → Stored YoutubeTask → Stored YoutubeTask
settle_if now b v = if b then settle now v else v

-- A task that is worked on and was created more than three hours before is pending again.
abbrev pub pending_again : ℕ → Stored YoutubeTask → Stored YoutubeTask
pending_again now absent = absent
pending_again now malformed = malformed
pending_again now (parsed t) =
    if (str_eq t.status "RUNNING" || str_eq t.status "METADATA_PROCESSING")
      && ltb 10800000000000 (now - t.created_at)
    then parsed (record t {
      status = "PENDING";
      worker_id = "";
      error_message = "Reset by stuck monitor";
      updated_at = now;
      is_download_fail = false;
    })
    else parsed t

settle_lem : (now : ℕ) (v : Stored YoutubeTask) → settle now v ≡ pending_again now v
unfolding is_stuck reset_stuck
settle_lem now absent = refl
settle_lem now malformed = refl
settle_lem now (parsed t) = refl

has_id-append : (j : ℕ) (xs ys : List ℕ) → has_id j (xs ++ ys) ≡ (has_id j xs || has_id j ys)
has_id-append j [] ys = refl
has_id-append j (x ∷ xs) ys =
    ap (λ b. x == j || b) (has_id-append j xs ys) ∙ assoc (x == j) (has_id j xs) (has_id j ys)
  where
    assoc : (a b c : Bool) → (a || (b || c)) ≡ ((a || b) || c)
    assoc true b c = refl
    assoc false b c = refl

settle-parsed :
    (now : ℕ) (v : Stored YoutubeTask) (t : YoutubeTask)
    → settle now v ≡ parsed t
    → (u : YoutubeTask) × (v ≡ parsed u) × (u.id ≡ t.id)
settle-parsed now absent t e = cc
settle-parsed now malformed t e = cc
settle-parsed now (parsed u) t e = elim (Bool-cases (is_stuck now u)) [
  | inl s ↦ (
    u,
    refl,
    inner (reset_stuck now u) (unfold reset_stuck in refl)
        (sym (if_true {b = is_stuck now u} (parsed (reset_stuck now u)) (parsed u) s) ∙ e),
  )
  | inr s ↦ (
    u,
    refl,
    inner u refl
        (sym (if_false {b = is_stuck now u} (parsed (reset_stuck now u)) (parsed u) s) ∙ e),
  )
]
  where
    id_of : Stored YoutubeTask → ℕ
    id_of absent = 0
    id_of malformed = 0
    id_of (parsed w) = w.id

    inner : (w : YoutubeTask) → u.id ≡ w.id → parsed w ≡ parsed t → u.id ≡ t.id
    inner w same f = same ∙ ap id_of f

settle_if-keyed :
    (now k : ℕ) (b : Bool) (v : Stored YoutubeTask) (t : YoutubeTask)
    → ((u : YoutubeTask) → v ≡ parsed u → u.id ≡ k)
    → settle_if now b v ≡ parsed t
    → t.id ≡ k
settle_if-keyed now k true v t keyed e =
    let (u, f, same) = settle-parsed now v t e in sym same ∙ keyed u f
settle_if-keyed now k false v t keyed e = keyed t e

shorter :
    (n : ℕ) (xs : List ℕ)
    → 0 < n
    → (length (take n xs) == 0) ≡ false
    → length (drop n xs) < length xs
shorter zero xs h e = absurd (omega (arith, h))
shorter (suc n) [] h e = cc
shorter (suc n) (x ∷ xs) h e = omega (arith, length-drop_le n xs)

less : (a b fuel : ℕ) → a < b → b < suc fuel → a < fuel
less a b fuel h k = omega (arith, h, k)

module _ (machine_of : ℕ → Option String) (now : ℕ) where
  scan_page-value :
      (page : List ℕ) (s : Server) (j : ℕ)
      → IsKeyed s.tasks
      → (scan_page machine_of now true page s).tasks j ≡ settle_if now (has_id j page) (s.tasks j)
  unfolding scan_page apply_resets
  scan_page-value page s j keyed =
      let none_yet : Page = record { resets = []; stats = s.stats; cache = s.cache } in
      let last = visit_all machine_of now (values_of machine_of now s.tasks page) none_yet in
      visit_all-value machine_of now j s.tasks page none_yet
        (record s { stats = last.stats; cache = last.cache }) keyed (inl refl)

  scan_page-IsKeyed :
      (page : List ℕ) (s : Server)
      → IsKeyed s.tasks
      → IsKeyed (scan_page machine_of now true page s).tasks
  scan_page-IsKeyed page s keyed k t e =
      settle_if-keyed now k (has_id k page) (s.tasks k) t (keyed k)
        (sym (scan_page-value page s k keyed) ∙ e)

  settle_twice :
      (a b : Bool) (v : Stored YoutubeTask)
      → settle_if now b (settle_if now a v) ≡ settle_if now (a || b) v
  settle_twice true true v = settle-settle machine_of now v
  settle_twice true false v = refl
  settle_twice false b v = refl

  -- Nothing fails.
  abbrev pub always : Replies
  always = record { ranged = λ o. true; fetched = λ o. true; executed = λ o. true }

  scan_pages-value :
      (fuel : ℕ) (ids : List ℕ) (offset : ℕ) (s : Server) (j : ℕ)
      → length (drop offset ids) < fuel
      → IsKeyed s.tasks
      → (scan_pages machine_of now always fuel ids offset s).tasks j
        ≡ settle_if now (has_id j (drop offset ids)) (s.tasks j)
  unfolding scan_pages
  scan_pages-value zero ids offset s j enough keyed = absurd (omega (arith, enough))
  scan_pages-value (suc fuel) ids offset s j enough keyed =
      let page = take batch_size (drop offset ids) in
      let scanned = scan_page machine_of now true page s in
      let next = scan_pages machine_of now always fuel ids (offset + batch_size) scanned in
      let rest = if ltb (length page) batch_size then scanned else next in
      elim (Bool-cases (length page == 0)) [
        | inl empty ↦
            ap (λ r. r.tasks j) (if_true {b = length page == 0} s rest empty)
            ∙ sym (
                ap (λ xs. settle_if now (has_id j xs) (s.tasks j))
                  (no_ids (drop offset ids) ((==_iff (length page) 0).0 empty)))
        | inr some' ↦
            ap (λ r. r.tasks j) (if_false {b = length page == 0} s rest some')
            ∙ elim (Bool-cases (ltb (length page) batch_size)) [
              | inl last ↦
                  ap (λ r. r.tasks j) (if_true {b = ltb (length page) batch_size} scanned next last)
                  ∙ scan_page-value page s j keyed
                  ∙ ap (λ xs. settle_if now (has_id j xs) (s.tasks j))
                      (take-all batch_size (drop offset ids) (ltb→lt (length page) batch_size last))
              | inr full ↦
                  ap (λ r. r.tasks j)
                    (if_false {b = ltb (length page) batch_size} scanned next full)
                  ∙ scan_pages-value fuel ids (offset + batch_size) scanned j
                      (subst (λ xs. length xs < fuel) (sym (drop-add offset batch_size ids))
                        (fewer (drop offset ids) some' enough))
                      (scan_page-IsKeyed page s keyed)
                  ∙ ap (λ xs. settle_if now (has_id j xs) (scanned.tasks j))
                      (drop-add offset batch_size ids)
                  ∙ ap (settle_if now (has_id j (drop batch_size (drop offset ids))))
                      (scan_page-value page s j keyed)
                  ∙ settle_twice (has_id j page) (has_id j (drop batch_size (drop offset ids)))
                      (s.tasks j)
                  ∙ ap (λ b. settle_if now b (s.tasks j))
                      (sym (has_id-append j page (drop batch_size (drop offset ids))))
                  ∙ ap (λ xs. settle_if now (has_id j xs) (s.tasks j))
                      (take-drop batch_size (drop offset ids))
            ]
      ]
    where
      fewer :
          (xs : List ℕ)
          → (length (take batch_size xs) == 0) ≡ false
          → length xs < suc fuel
          → length (drop batch_size xs) < fuel
      fewer xs e h =
          less (length (drop batch_size xs)) (length xs) fuel
            (shorter batch_size xs (omega arith) e) h

      no_ids : (xs : List ℕ) → length (take batch_size xs) ≡ 0 → xs ≡ []
      no_ids [] h = refl
      no_ids (x ∷ xs) h = absurd (cc)

  -- When all calls succeed and each task is stored under its id, a scan of a job resets every one
  -- of its tasks that is worked on (RUNNING or METADATA_PROCESSING) and was created more than
  -- three hours ago, whenever it was started and however many pages there are: it is PENDING and
  -- without a worker. Every other value stays as it is.
  pub scan_pages-settle :
      (ids : List ℕ) (s : Server) (j : ℕ)
      → IsKeyed s.tasks
      → (scan_pages machine_of now always (suc (length ids)) ids 0 s).tasks j
        ≡ (if has_id j ids then pending_again now (s.tasks j) else s.tasks j)
  scan_pages-settle ids s j keyed =
      scan_pages-value (suc (length ids)) ids 0 s j (omega arith) keyed
      ∙ ap (λ v. if has_id j ids then v else s.tasks j) (settle_lem now (s.tasks j))
