-- ===== src/Youtube/Acquire/Machines.antt =====
-- Which machines get the tasks of a buffer.
use tmp_cf_ytb_admin.Base.{
  ℕ, zero, suc, ◌≡◌, ◌≢◌, refl, ap, ◌∙◌, String, str_eq, eq_iff, true, false, Option, some, List,
  [], ◌∷◌, get, if◌then◌else◌, arith, Bool-cases, inl, inr, ◌⊎◌, All,
}
use tmp_cf_ytb_admin.Models.{YoutubeTask}
use tmp_cf_ytb_admin.Youtube.{
  Cache, get_job_machine_name, should_process_task, get_job_machine_name-some,
  get_job_machine_name-get, get_job_machine_name-stays,
}
use tmp_cf_ytb_admin.Youtube.Update.{is_empty}
use tmp_cf_ytb_admin.Youtube.Acquire.{keeps, drain}

-- The job of a task is known to run on any machine, or on this one.
abbrev pub Allowed : String → Cache → YoutubeTask → Type 0
Allowed machine cache t =
    (name : String) × (get t.job_id cache ≡ some name) × ((name ≡ "") ⊎ (name ≡ machine))

module _ (machine_of : ℕ → Option String) (machine : String) where
  keeps-stays :
      (cache : Cache) (t : YoutubeTask) (job : ℕ) {name : String}
      → get job cache ≡ some name
      → get job (keeps machine_of machine cache t).1 ≡ some name
  unfolding should_process_task
  keeps-stays cache t job e = elim (Bool-cases (is_empty machine)) [
    | inl anyone ↦ rw anyone e
    | inr pinned ↦ rw pinned (get_job_machine_name-stays machine_of cache t.job_id job e)
  ]

  drain-stays :
      (room : ℕ) (cache : Cache) (ch : List YoutubeTask) (job : ℕ) {name : String}
      → get job cache ≡ some name
      → get job (drain machine_of machine room cache ch).1.1 ≡ some name
  unfolding drain
  drain-stays zero cache ch job e = e
  drain-stays (suc room) cache [] job e = e
  drain-stays (suc room) cache (t ∷ ch) job e =
      elim (Bool-cases (keeps machine_of machine cache t).0) [
        | inl mine ↦
            rw (mine, drain)
              (drain-stays room (keeps machine_of machine cache t).1 ch job
                (keeps-stays cache t job e))
        | inr foreign ↦
            rw (foreign, drain)
              (drain-stays (suc room) (keeps machine_of machine cache t).1 ch job
                (keeps-stays cache t job e))
      ]

  keeps-Allowed :
      (cache : Cache) (t : YoutubeTask)
      → is_empty machine ≡ false
      → (keeps machine_of machine cache t).0 ≡ true
      → Allowed machine (keeps machine_of machine cache t).1 t
  unfolding should_process_task
  keeps-Allowed cache t pinned mine =
      let found = get_job_machine_name machine_of cache t.job_id in
      rw pinned (
        found.0,
        get_job_machine_name-get machine_of cache t.job_id,
        answer found.0 (rw pinned at mine),
      )
    where
      answer :
          (name : String)
          → (if str_eq name "" then true else str_eq name machine) ≡ true
          → (name ≡ "") ⊎ (name ≡ machine)
      answer name e = ground (arith, eq_iff name "", eq_iff name machine)

  -- A worker that names its machine keeps from a buffer only tasks of jobs that, by the names the
  -- process then has cached, may run anywhere or on that machine.
  pub drain-Allowed :
      (room : ℕ) (cache : Cache) (ch : List YoutubeTask)
      → machine ≢ ""
      → All
          (Allowed machine (drain machine_of machine room cache ch).1.1)
          (drain machine_of machine room cache ch).0
  unfolding drain
  drain-Allowed zero cache ch pinned = tt
  drain-Allowed (suc room) cache [] pinned = tt
  drain-Allowed (suc room) cache (t ∷ ch) pinned =
      elim (Bool-cases (keeps machine_of machine cache t).0) [
        | inl mine ↦
            let (name, known, right) = keeps-Allowed cache t named mine in
            rw (mine, drain)
              (
                (
                  name,
                  drain-stays room (keeps machine_of machine cache t).1 ch t.job_id known,
                  right,
                ),
                drain-Allowed room (keeps machine_of machine cache t).1 ch pinned,
              )
        | inr foreign ↦
            rw (foreign, drain)
              (drain-Allowed (suc room) (keeps machine_of machine cache t).1 ch pinned)
      ]
    where
      named : is_empty machine ≡ false
      named = ground (arith, eq_iff machine "")

  keeps-foreign :
      (cache : Cache) (t : YoutubeTask) (name : String)
      → machine ≢ ""
      → get t.job_id cache ≡ some name
      → name ≢ ""
      → name ≢ machine
      → keeps machine_of machine cache t ≡ (false, cache)
  unfolding should_process_task
  keeps-foreign cache t name pinned known some_name other =
      rw (get_job_machine_name-some machine_of cache t.job_id name known)
        (ground (arith, eq_iff machine "", eq_iff name "", eq_iff name machine))

  -- A worker that asks for at least one task empties the buffer of a job that is pinned to
  -- another machine, when the name is cached, and gets nothing.
  pub drain-foreign :
      (room job : ℕ) (cache : Cache) (ch : List YoutubeTask) (name : String)
      → machine ≢ ""
      → get job cache ≡ some name
      → name ≢ ""
      → name ≢ machine
      → All (λ t. t.job_id ≡ job) ch
      → drain machine_of machine (suc room) cache ch ≡ ([], ([], cache))
  unfolding drain
  drain-foreign room job cache [] name pinned known some_name other same = refl
  drain-foreign room job cache (t ∷ ch) name pinned known some_name other same =
      let e : keeps machine_of machine cache t ≡ (false, cache) =
        keeps-foreign cache t name pinned (rw same.0 known) some_name other in
      rw (ap (λ r. r.0) e, drain)
        (ap (λ r. drain machine_of machine (suc room) r.1 ch) e
          ∙ drain-foreign room job cache ch name pinned known some_name other same.1)
