-- ===== src/Ffmpeg/Acquire.antt =====
-- A request for ffmpeg tasks.
use tmp_cf_ytb_admin.Base.{
  ℕ, ◌<◌, ◌≡◌, refl, ap, ◌∙◌, some, List, [], ◌∷◌, leb, length, arith, if_false, ltb, if◌then◌else◌,
}
use tmp_cf_ytb_admin.Models.{FfmpegTask}
use tmp_cf_ytb_admin.Buffer.{buffer_low_water}
use tmp_cf_ytb_admin.Ffmpeg.{
  Buffered, no_body, receive, visit_jobs, at_least_one, acquire_ffmpeg_tasks,
}

-- The loop is not entered while tasks are wanted.
receive-short : (limit : ℕ) (ch : List FfmpegTask) → 0 < limit → receive limit [] ch ≡ ([], ch)
unfolding receive
receive-short limit [] h = refl
receive-short limit (t ∷ ch) h = if_false {b = leb limit 0} _ ([], t ∷ ch) (ground arith)

-- The jobs whose buffers run low.
abbrev pub low_jobs : List Buffered → List ℕ
low_jobs [] = []
low_jobs (b ∷ bs) =
    if ltb (length b.channel) buffer_low_water then b.job ∷ low_jobs bs else low_jobs bs

visit_jobs-short :
    (limit : ℕ) (bs : List Buffered) → 0 < limit → visit_jobs limit [] bs ≡ ([], (bs, low_jobs bs))
unfolding visit_jobs
visit_jobs-short limit [] h = refl
visit_jobs-short limit (b ∷ bs) h =
    if_false {b = leb limit 0} _ _ (ground arith)
    ∙ ap (visit limit b bs) (receive-short limit b.channel h)
    ∙ ap (joined b) (visit_jobs-short limit bs h)
  where
    joined :
        Buffered
        → List FfmpegTask × (List Buffered × List ℕ)
        → List FfmpegTask × (List Buffered × List ℕ)
    joined c rest = (
      rest.0,
      (
        c ∷ rest.1.0,
        if ltb (length c.channel) buffer_low_water then c.job ∷ rest.1.1 else rest.1.1,
      ),
    )

    visit :
        ℕ
        → Buffered
        → List Buffered
        → List FfmpegTask × List FfmpegTask
        → List FfmpegTask × (List Buffered × List ℕ)
    visit n c cs got =
        let rest = visit_jobs n got.0 cs in
        (
          rest.0,
          (
            record c { channel = got.1 } ∷ rest.1.0,
            if ltb (length c.channel) buffer_low_water then c.job ∷ rest.1.1 else rest.1.1,
          ),
        )

-- A request for tasks gets none, whatever its limit and whatever tasks the buffers hold: where
-- there is a buffer the answer has no body, every buffer keeps its tasks, and all that happens is
-- that the refills of the low buffers are triggered.
pub acquire_ffmpeg_tasks-no_body :
    (limit : ℕ) (b : Buffered) (bs : List Buffered)
    → acquire_ffmpeg_tasks (some limit) (b ∷ bs) ≡ (no_body, (b ∷ bs, low_jobs (b ∷ bs)))
unfolding acquire_ffmpeg_tasks
acquire_ffmpeg_tasks-no_body limit b bs =
    ap (λ out. (no_body, out.1)) (visit_jobs-short (at_least_one limit) (b ∷ bs) (ground arith))
