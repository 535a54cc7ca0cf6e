-- ===== src/Youtube/Stuck/Reset.antt =====
-- What a scan for stuck tasks leaves.
use tmp_cf_ytb_admin.Base.{
  ℕ, ◌≡◌, refl, sym, ap, ◌∙◌, subst, String, Bool, true, false, ◌||◌, Option, List, [], ◌∷◌, ◌++◌,
  ◌==◌, ==_iff, if◌then◌else◌, arith, Bool-cases, inl, inr, ◌⊎◌, if_true, if_false,
}
use tmp_cf_ytb_admin.Models.{YoutubeTask, Stored, absent, malformed, parsed}
use tmp_cf_ytb_admin.Sharded.Writes.{has_id}
use tmp_cf_ytb_admin.Youtube.Stuck.{
  Server, Page, is_stuck, reset_stuck, with_reset, visit, visit_all, apply_reset, apply_resets,
  values_of,
}

-- What becomes of a stored task.
abbrev pub settle : ℕ → Stored YoutubeTask → Stored YoutubeTask
settle now absent = absent
settle now malformed = malformed
settle now (parsed t) = if is_stuck now t then parsed (reset_stuck now t) else parsed t

-- Each task is stored under its id.
abbrev pub IsKeyed : (ℕ → Stored YoutubeTask) → Type 0
IsKeyed tasks = (k : ℕ) (t : YoutubeTask) → tasks k ≡ parsed t → t.id ≡ k

module _ (machine_of : ℕ → Option String) (now : ℕ) where
  pub settle-settle : (v : Stored YoutubeTask) → settle now (settle now v) ≡ settle now v
  unfolding is_stuck reset_stuck
  settle-settle absent = refl
  settle-settle malformed = refl
  settle-settle (parsed t) = elim (Bool-cases (is_stuck now t)) [
    | inl s ↦
        ap (settle now) (if_true {b = is_stuck now t} (parsed (reset_stuck now t)) (parsed t) s)
        ∙ sym (if_true {b = is_stuck now t} (parsed (reset_stuck now t)) (parsed t) s)
    | inr s ↦
        ap (settle now) (if_false {b = is_stuck now t} (parsed (reset_stuck now t)) (parsed t) s)
  ]

  apply_resets-append :
      (rs : List (YoutubeTask × String)) (r : YoutubeTask × String) (s : Server)
      → apply_resets machine_of now (rs ++ r ∷ []) s
        ≡ apply_reset machine_of now r (apply_resets machine_of now rs s)
  unfolding apply_resets
  apply_resets-append [] r s = refl
  apply_resets-append (q ∷ qs) r s = apply_resets-append qs r (apply_reset machine_of now q s)

  -- The value of one id, when the resets of a page so far are carried out.
  abbrev pub value_after : ℕ → Page → Server → Stored YoutubeTask
  value_after j p s = (apply_resets machine_of now p.resets s).tasks j

  -- A reset of the task itself, and of another one.
  value-reset :
      (j : ℕ) (t : YoutubeTask) (queue : String) (p : Page) (s : Server) (p' : Page)
      → p'.resets ≡ p.resets ++ (reset_stuck now t, queue) ∷ []
      → value_after j p' s ≡ (if j == t.id then parsed (reset_stuck now t) else value_after j p s)
  unfolding reset_stuck
  value-reset j t queue p s p' e =
      ap (λ rs. (apply_resets machine_of now rs s).tasks j) e
      ∙ ap (λ q. q.tasks j) (apply_resets-append p.resets (reset_stuck now t, queue) s)

  -- The value is the one that was read, or the one it settles to.
  abbrev pub IsSettling : Stored YoutubeTask → Stored YoutubeTask → Type 0
  IsSettling was v = (v ≡ was) ⊎ (v ≡ settle now was)

  settled-either :
      (was v : Stored YoutubeTask) → settle now was ≡ was → IsSettling was v → v ≡ settle now was
  settled-either was v same (inl e) = e ∙ sym same
  settled-either was v same (inr e) = e

  -- One task of a page: the id in question is settled if it is its own, and else left.
  visit-value :
      (j k : ℕ) (v : Stored YoutubeTask) (p : Page) (s : Server)
      → ((t : YoutubeTask) → v ≡ parsed t → t.id ≡ k)
      → ((j == k) ≡ true → IsSettling v (value_after j p s))
      → value_after j (visit machine_of now v p) s
        ≡ (if j == k then settle now v else value_after j p s)
  visit-value j k absent p s keyed h = elim (Bool-cases (j == k)) [
    | inl e ↦
        settled-either absent (value_after j p s) refl (h e)
        ∙ sym (if_true {b = j == k} absent (value_after j p s) e)
    | inr e ↦ sym (if_false {b = j == k} absent (value_after j p s) e)
  ]
  visit-value j k malformed p s keyed h = elim (Bool-cases (j == k)) [
    | inl e ↦
        settled-either malformed (value_after j p s) refl (h e)
        ∙ sym (if_true {b = j == k} malformed (value_after j p s) e)
    | inr e ↦ sym (if_false {b = j == k} malformed (value_after j p s) e)
  ]
  visit-value j k (parsed t) p s keyed h = elim (Bool-cases (is_stuck now t)) [
    | inl stuck ↦
        ap (λ q. value_after j q s)
          (if_true {b = is_stuck now t} (with_reset machine_of now t p) p stuck)
        ∙ value-reset j t _ p s (with_reset machine_of now t p) refl
        ∙ ap (λ i. if j == i then parsed (reset_stuck now t) else value_after j p s) (keyed t refl)
        ∙ ap (λ v. if j == k then v else value_after j p s)
            (sym (if_true {b = is_stuck now t} (parsed (reset_stuck now t)) (parsed t) stuck))
    | inr fine ↦
        let same : settle now (parsed t) ≡ parsed t =
          if_false {b = is_stuck now t} (parsed (reset_stuck now t)) (parsed t) fine in
        ap (λ q. value_after j q s)
          (if_false {b = is_stuck now t} (with_reset machine_of now t p) p fine)
        ∙ elim (Bool-cases (j == k)) [
          | inl e ↦
              settled-either (parsed t) (value_after j p s) same (h e)
              ∙ sym (if_true {b = j == k} (settle now (parsed t)) (value_after j p s) e)
          | inr e ↦ sym (if_false {b = j == k} (settle now (parsed t)) (value_after j p s) e)
        ]
  ]

  -- All of a page, read from `before`.
  pub visit_all-value :
      (j : ℕ) (before : ℕ → Stored YoutubeTask) (ks : List ℕ) (p : Page) (s : Server)
      → IsKeyed before
      → IsSettling (before j) (value_after j p s)
      → value_after j (visit_all machine_of now (values_of machine_of now before ks) p) s
        ≡ (if has_id j ks then settle now (before j) else value_after j p s)
  unfolding visit_all
  visit_all-value j before [] p s keyed h = refl
  visit_all-value j before (k ∷ ks) p s keyed h =
      let p' = visit machine_of now (before k) p in
      let one =
        visit-value j k (before k) p s (keyed k)
          (λ e. subst (λ i. IsSettling (before i) (value_after j p s)) ((==_iff j k).0 e) h) in
      elim (Bool-cases (j == k)) [
        | inl e ↦
            let here : value_after j p' s ≡ settle now (before j) =
              one
              ∙ if_true {b = j == k} (settle now (before k)) (value_after j p s) e
              ∙ ap (λ i. settle now (before i)) (sym ((==_iff j k).0 e)) in
            visit_all-value j before ks p' s keyed (inr here)
            ∙ ap (λ v. if has_id j ks then settle now (before j) else v) here
            ∙ both (has_id j ks) (settle now (before j))
            ∙ sym (
                if_true {b = has_id j (k ∷ ks)} (settle now (before j)) (value_after j p s)
                  (ap (λ b. b || has_id j ks) (flip e)))
        | inr e ↦
            let here : value_after j p' s ≡ value_after j p s =
              one ∙ if_false {b = j == k} (settle now (before k)) (value_after j p s) e in
            visit_all-value j before ks p' s keyed (subst (IsSettling (before j)) (sym here) h)
            ∙ ap (λ v. if has_id j ks then settle now (before j) else v) here
            ∙ ap (λ b. if b then settle now (before j) else value_after j p s)
                (ap (λ b. b || has_id j ks) (sym (flop e)))
      ]
    where
      both : (b : Bool) (v : Stored YoutubeTask) → (if b then v else v) ≡ v
      both true v = refl
      both false v = refl

      flip : (j == k) ≡ true → (k == j) ≡ true
      flip e = ground (arith, e)

      flop : (j == k) ≡ false → (k == j) ≡ false
      flop e = ground (arith, e)
