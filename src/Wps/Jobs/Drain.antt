-- ===== src/Wps/Jobs/Drain.antt =====
-- The worker ends every job that is queued.
use giti.Prelude.{
  ◌≡◌, refl, sym, ap, subst, ◌∙◌, false, Option, some, List, [], ◌∷◌, Text, text_eq, text_eq_iff,
  codes, Result, ok, err, Bool-cases, inl, inr, All,
}
use giti.Ows.Request.{Table, put, find}
use giti.Ows.Request.Params.{find-put_same, find-put_other}
use giti.Wps.Jobs.{
  JobStatus, JobMsg, Registry, write_status, stage, outcome, final_status, handle_job, drain,
}

-- The file of an identifier says how the job ended.
pub data IsEnded : Option JobStatus → Type 0 where
  well : {st : JobStatus} → st.status ≡ codes "succeeded" → IsEnded (some st)
  badly : {st : JobStatus} → st.status ≡ codes "failed" → IsEnded (some st)

outcome-IsEnded : (job : JobMsg) (r : Result Text Text) → IsEnded (some (outcome job r))
unfolding outcome
outcome-IsEnded job (ok out) = well refl
outcome-IsEnded job (err e) = badly refl

outcome_id : (job : JobMsg) (r : Result Text Text) → (outcome job r).id ≡ job.id
unfolding outcome
outcome_id job (ok out) = refl
outcome_id job (err e) = refl

-- A write leaves the files of the other identifiers as they are.
pub kept_by :
    (id : Text) (st : JobStatus) (files : Table JobStatus)
    → text_eq id st.id ≡ false
    → find id (write_status st files) ≡ find id files
unfolding write_status
kept_by id st files h = find-put_other id st.id st files h

module _ (registry : Registry) where
  pub final_id : (job : JobMsg) → (final_status registry job).id ≡ job.id
  unfolding final_status
  final_id job = outcome_id job _

  pub final-IsEnded :
      (job : JobMsg) (files : Table JobStatus)
      → IsEnded (find job.id (write_status (final_status registry job) files))
  unfolding write_status final_status
  final-IsEnded job files =
      let st = final_status registry job in
      subst IsEnded
        (sym (
          ap (λ k. find k (put st.id st files)) (sym (outcome_id job _))
          ∙ find-put_same st.id st files))
        (outcome-IsEnded job _)

  -- A job that has ended is still ended when another is handled, and when it is handled again.
  handled :
      (id : Text) (job : JobMsg) (files : Table JobStatus)
      → IsEnded (find id files)
      → IsEnded (find id (handle_job registry job files))
  unfolding handle_job stage
  handled id job files h = elim (Bool-cases (text_eq id job.id)) [
    | inl same ↦
        subst (λ (k : Text). IsEnded (find k (handle_job registry job files)))
          (sym ((text_eq_iff id job.id).0 same)) (final-IsEnded job _)
    | inr other ↦
        let differs : text_eq id (final_status registry job).id ≡ false =
          ap (text_eq id) (final_id job) ∙ other in
        subst IsEnded
          (sym (
            kept_by id (final_status registry job) _ differs
            ∙ kept_by id (stage job (codes "running")) files other))
          h
  ]

  drained :
      (id : Text) (queue : List JobMsg) (files : Table JobStatus)
      → IsEnded (find id files)
      → IsEnded (find id (drain registry queue files))
  unfolding drain
  drained id [] files h = h
  drained id (job ∷ queue) files h = drained id queue _ (handled id job files h)

  HasEnded : Table JobStatus → JobMsg → Type 0
  HasEnded files job = IsEnded (find job.id files)

  -- Once the worker has handled all the jobs of a queue, the status of each is succeeded or failed,
  -- whatever the processes return and whatever identifiers the jobs share.
  pub drain-IsEnded :
      (queue : List JobMsg) (files : Table JobStatus)
      → All (λ (job : JobMsg). IsEnded (find job.id (drain registry queue files))) queue
  unfolding drain handle_job
  drain-IsEnded [] files = tt
  drain-IsEnded (job ∷ queue) files =
      let files' = handle_job registry job files in
      (drained job.id queue files' (final-IsEnded job _), drain-IsEnded queue files')
