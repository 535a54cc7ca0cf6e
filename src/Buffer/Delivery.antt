-- ===== src/Buffer/Delivery.antt =====
-- Every pending task is delivered once, in order.
use mathlib.Core.List.{map-append}
use native.Mathlib.Nat.{add-zero}
use tmp_cf_ytb_admin.Base.{
  ℕ, zero, suc, ◌+◌, ◌≤◌, ◌≡◌, refl, sym, ap, ◌∙◌, String, str_eq, true, not, Option, none, some,
  List, [], ◌∷◌, ◌++◌, map, append-nil, append_assoc, arith, if◌then◌else◌, length, take, drop,
  length-append, take-add, take-take, take-map, length-map, subst, ◌||◌, Bool-cases, ◌⊎◌, inl, inr,
  All,
}
use tmp_cf_ytb_admin.Models.{Stored, absent, malformed, parsed}
use tmp_cf_ytb_admin.Buffer.{
  buffer_size, Replies, offer, fill_loop, Job, finish, fill_channel, fill_batch, fill,
}

pair_path : {A B : Type 0} {a a' : A} {b b' : B} → a ≡ a' → b ≡ b' → ◌≡◌ {A = A × B} (a, b) (a', b')
pair_path p q = λ i. (p i, q i)

module _ {A : Type 0} (status : A → String) where
  -- The tasks among stored values that are PENDING.
  unfoldable pub pendings : List (Stored A) → List A
  pendings [] = []
  pendings (absent ∷ items) = pendings items
  pendings (malformed ∷ items) = pendings items
  pendings (parsed t ∷ items) =
      if str_eq (status t) "PENDING" then t ∷ pendings items else pendings items

  pub pendings-append : (xs ys : List (Stored A)) → pendings (xs ++ ys) ≡ pendings xs ++ pendings ys
  unfolding pendings
  pendings-append [] ys = refl
  pendings-append (absent ∷ xs) ys = pendings-append xs ys
  pendings-append (malformed ∷ xs) ys = pendings-append xs ys
  pendings-append (parsed t ∷ xs) ys = ground (arith, pendings-append xs ys)

  offer-pendings :
      (item : Stored A) (ch : List A)
      → (offer status item ch ≡ some (ch ++ pendings (item ∷ [])))
        ⊎ ((offer status item ch ≡ none) × (buffer_size ≤ length ch))
  unfolding offer pendings
  offer-pendings absent ch = inl (rw append-nil)
  offer-pendings malformed ch = inl (rw append-nil)
  offer-pendings (parsed t) ch = ground (arith, append-nil ch)

  fill_loop-room :
      (item : Stored A) (items : List (Stored A)) (ch ch' : List A) (n : ℕ)
      → offer status item ch ≡ some ch'
      → fill_loop status (item ∷ items) ch n ≡ fill_loop status items ch' (n + 1)
  unfolding fill_loop
  fill_loop-room item items ch ch' n e = rw (e, fill_loop)

  fill_loop-full :
      (item : Stored A) (items : List (Stored A)) (ch : List A) (n : ℕ)
      → offer status item ch ≡ none
      → fill_loop status (item ∷ items) ch n ≡ (ch, n)
  unfolding fill_loop
  fill_loop-full item items ch n e = rw (e, fill_loop)

  -- The loop appends the pending tasks of a first part of the batch, counts that part, and stops
  -- early only at a full buffer.
  pub fill_loop_lem :
      (items : List (Stored A)) (ch : List A) (n : ℕ)
      → (k : ℕ) × (k ≤ length items)
        × (fill_loop status items ch n ≡ (ch ++ pendings (take k items), n + k))
        × ((k ≡ length items) ⊎ (buffer_size ≤ length ch + length (pendings (take k items))))
  fill_loop_lem [] ch n =
      (0, omega arith, unfold fill_loop pendings in rw (append-nil, add-zero), inl refl)
  fill_loop_lem (item ∷ items) ch n = elim (offer-pendings item ch) [
    | inl e ↦
        let (k, le, eq, stop) = fill_loop_lem items (ch ++ pendings (item ∷ [])) (n + 1) in
        let whole : pendings (item ∷ take k items)
            ≡ pendings (item ∷ []) ++ pendings (take k items) =
          pendings-append (item ∷ []) (take k items) in
        (
          suc k,
          omega arith,
          fill_loop-room item items ch _ n e
              ∙ eq
              ∙ pair_path (append_assoc ch _ _ ∙ ap (◌++◌ ch) (sym whole)) (omega arith),
          elim stop [
            | inl s ↦ inl (omega arith)
            | inr f ↦ inr (
                omega (
                  arith,
                  length-append ch (pendings (item ∷ [])),
                  ap length whole,
                  length-append (pendings (item ∷ [])) (pendings (take k items)),
                ))
          ],
        )
    | inr (e, full) ↦ (
      0,
      omega arith,
      fill_loop-full item items ch n e
          ∙ pair_path (unfold pendings in sym (append-nil ch)) (omega arith),
      inr (omega arith),
    )
  ]

-- What has been received from a job's buffer so far, and the job.
pub record World (A : Type 0) : Type 0 where
  pub job : Job A
  pub received : List A

pub data Action : Type 0 where
  fills : Replies → Action
  receives : Action

abbrev receive_from : {A : Type 0} → World A → Option (List A) → World A
receive_from w none = w
receive_from w (some []) = w
receive_from w (some (t ∷ ch)) = record {
  job = record w.job { channel = some ch };
  received = w.received ++ t ∷ [];
}

module _ {A : Type 0} (status : A → String) (batch : ℕ) where
  unfoldable pub act : World A → Action → World A
  act w (fills r) = record w { job = fill status batch r w.job }
  act w receives = receive_from w w.job.channel

  unfoldable pub run : World A → List Action → World A
  run w [] = w
  run w (a ∷ as') = run (act w a) as'

-- The two calls whose failure the code does not notice: the read and the write of the offset.
abbrev pub KeepsOffset : Action → Type 0
KeepsOffset (fills r) = (r.offset ≡ true) × (r.save ≡ true)
KeepsOffset receives = Unit {0}

abbrev pub contents : {A : Type 0} → Option (List A) → List A
contents none = []
contents (some ch) = ch

-- All tasks received and all in the buffer are the pending ones up to the offset, in order.
abbrev pub OnceEach : {A : Type 0} → (A → String) → World A → Type 0
OnceEach status w =
    w.received ++ contents w.job.channel
    ≡ pendings status (map w.job.details (take w.job.offset w.job.ids))

module _ {A : Type 0} (status : A → String) (batch : ℕ) where
  -- What a fill does to a job: nothing, or it moves a stretch of ids into the buffer.
  abbrev pub Moved : Job A → Job A → Type 0
  Moved j j' =
      (j' ≡ j)
      ⊎ ((ch : List A) × (k : ℕ) × (j.channel ≡ some ch)
          × (j' ≡ record j {
            channel = some (ch ++ pendings status (map j.details (take k (drop j.offset j.ids))));
            offset = j.offset + k;
          }))

  finish_lem :
      (r : Replies) (j : Job A) (ch : List A) (k : ℕ)
      → r.save ≡ true
      → finish status batch r j j.offset (ch, k)
        ≡ record j { channel = some ch; offset = j.offset + k }
  finish_lem r j ch zero ok = ap (λ o. record j { channel = some ch; offset = o }) (omega arith)
  finish_lem r j ch (suc k) ok = ground arith

  fill_channel-Moved :
      (r : Replies) (j : Job A) (o : Option (List A))
      → r.save ≡ true
      → j.channel ≡ o
      → Moved j (fill_channel status batch r j j.offset (take batch (drop j.offset j.ids)) o)
  fill_channel-Moved r j none ok e = inl refl
  fill_channel-Moved r j (some ch) ok e =
      let items = map j.details (take batch (drop j.offset j.ids)) in
      let (k, le, eq, _) = fill_loop_lem status items ch 0 in
      inr (
        ch,
        k,
        e,
        ap (finish status batch r j j.offset) eq ∙ finish_lem r j _ (0 + k) ok ∙ (λ i. record j {
          channel = some (ch ++ pendings status (read k le i));
          offset = (omega_sum k) i;
        }),
      )
    where
      read :
          (k : ℕ)
          → k ≤ length (map j.details (take batch (drop j.offset j.ids)))
          → take k (map j.details (take batch (drop j.offset j.ids)))
            ≡ map j.details (take k (drop j.offset j.ids))
      read k le =
          take-map k j.details (take batch (drop j.offset j.ids))
          ∙ ap (map j.details) (
              take-take k batch (drop j.offset j.ids)
                (omega (arith, length-map j.details (take batch (drop j.offset j.ids)))))

      omega_sum : (k : ℕ) → j.offset + (0 + k) ≡ j.offset + k
      omega_sum k = omega arith

  fill_batch-Moved :
      (r : Replies) (j : Job A) (batch_ids : List ℕ)
      → r.save ≡ true
      → batch_ids ≡ take batch (drop j.offset j.ids)
      → Moved j (fill_batch status batch r j j.offset batch_ids)
  fill_batch-Moved r j [] ok e = inl refl
  fill_batch-Moved r j (i ∷ is) ok e = elim (Bool-cases (not r.fetch)) [
    | inl lost ↦ rw lost (inl refl)
    | inr got ↦ rw got (
        subst (λ b. Moved j (fill_channel status batch r j j.offset b j.channel)) (sym e)
          (fill_channel-Moved r j j.channel ok refl))
  ]

  fill-Moved : (r : Replies) (j : Job A) → KeepsOffset (fills r) → Moved j (fill status batch r j)
  unfolding fill
  fill-Moved r j ok = elim (Bool-cases (not r.lock || j.locked)) [
    | inl held ↦ rw (held, fill) (inl refl)
    | inr taken ↦ elim (Bool-cases (not r.range)) [
      | inl lost ↦ rw (taken, lost, fill) (inl refl)
      | inr got ↦ rw (taken, got, ok.0, fill) (fill_batch-Moved r j _ ok.1 refl)
    ]
  ]

  fill-OnceEach :
      (w : World A) (r : Replies)
      → KeepsOffset (fills r)
      → OnceEach status w
      → OnceEach status (act status batch w (fills r))
  unfolding act
  fill-OnceEach w r ok h = elim (fill-Moved r w.job ok) [
    | inl same ↦ rw same h
    | inr (ch, k, open', moved) ↦ rw moved (
        sym (append_assoc w.received ch _)
        ∙ ap (λ xs. xs ++ next k) (ap (λ o. w.received ++ contents o) (sym open') ∙ h)
        ∙ sym (pendings-append status _ _)
        ∙ ap (pendings status) (
            sym (map-append w.job.details _ _)
            ∙ ap (map w.job.details) (sym (take-add w.job.offset k w.job.ids))))
  ]
    where
      next : ℕ → List A
      next k = pendings status (map w.job.details (take k (drop w.job.offset w.job.ids)))

  receive-OnceEach :
      (w : World A) → OnceEach status w → OnceEach status (act status batch w receives)
  unfolding act
  receive-OnceEach w h = go w.job.channel refl
    where
      go :
          (o : Option (List A))
          → contents w.job.channel ≡ contents o
          → OnceEach status (receive_from w o)
      go none e = h
      go (some []) e = h
      go (some (t ∷ ch)) e = append_assoc w.received (t ∷ []) ch ∙ ap (◌++◌ w.received) (sym e) ∙ h

  act-OnceEach :
      (w : World A) (a : Action)
      → KeepsOffset a
      → OnceEach status w
      → OnceEach status (act status batch w a)
  act-OnceEach w (fills r) ok h = fill-OnceEach w r ok h
  act-OnceEach w receives ok h = receive-OnceEach w h

  -- Through any fills and receipts in which every read and every write of the offset succeeds,
  -- whichever other Redis calls fail, each pending task up to the offset is received or waiting in
  -- the buffer exactly once, in the order of the sorted set, if that is so at the start.
  pub run-OnceEach :
      (w : World A) (as' : List Action)
      → All KeepsOffset as'
      → OnceEach status w
      → OnceEach status (run status batch w as')
  unfolding run
  run-OnceEach w [] ok h = h
  run-OnceEach w (a ∷ as') ok h =
      run-OnceEach (act status batch w a) as' ok.1 (act-OnceEach w a ok.0 h)
