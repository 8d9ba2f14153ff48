-- ===== src/Wps/Jobs/Progress.antt =====
-- A job only moves on: accepted, running, and then succeeded or failed.
use giti.Prelude.{
  ℕ, ◌≤◌, ◌<◌, ◌⊎◌, ◌≡◌, refl, sym, ap, subst, ◌∙◌, false, Option, none, some, List, [], ◌∷◌, ◌++◌,
  Text, text_eq, text_eq_iff, codes, Bool-cases, inl, inr, arith, All, All-append, if◌then◌else◌,
}
use giti.Ows.Request.{Table, find}
use giti.Ows.Request.Params.{find-put_same}
use giti.Wps.Jobs.{
  JobStatus, JobMsg, Registry, write_status, stage, final_status, JobSystem, JobStep, enqueues,
  strands, begins, ends, JobReached, rests, steps,
}
use giti.Wps.Jobs.Drain.{IsEnded, well, badly, kept_by, final_id, final-IsEnded}

-- How far a job has come: no file, accepted, running, or ended.
unfoldable pub progress_of : Option JobStatus → ℕ
unfolding text_eq
progress_of none = 0
progress_of (some st) =
    if text_eq st.status (codes "accepted")
    then 1
    else if text_eq st.status (codes "running")
    then 2
    else 3

unfoldable pub progress : Text → Table JobStatus → ℕ
unfolding progress_of find
progress id files = progress_of (find id files)

-- No two of the messages have the same identifier.
Fresh : JobMsg → JobMsg → Type 0
Fresh job other = text_eq other.id job.id ≡ false

Unique : List JobMsg → Type 0
Unique [] = Unit
Unique (job ∷ jobs) = All (Fresh job) jobs × Unique jobs

HasProgress : Table JobStatus → ℕ → JobMsg → Type 0
HasProgress files n job = progress job.id files ≡ n

-- What waits is accepted, and what the worker is busy with is running.
data IsBusy (files : Table JobStatus) : Option JobMsg → Type 0 where
  idle : IsBusy files none
  busy : {job : JobMsg} → HasProgress files 2 job → IsBusy files (some job)

data IsOrderly (s : JobSystem) : Type 0 where
  orderly :
      Unique s.queue → All (HasProgress s.files 1) s.queue → IsBusy s.files s.current → IsOrderly s

ended_progress : (o : Option JobStatus) → IsEnded o → progress_of o ≡ 3
unfolding progress_of
ended_progress none h = elim h [ ]
ended_progress (some st) (well h) = rw h refl
ended_progress (some st) (badly h) = rw h refl

written :
    (job : JobMsg) (status : Text) (files : Table JobStatus)
    → find job.id (write_status (stage job status) files) ≡ some (stage job status)
unfolding write_status stage
written job status files = find-put_same job.id (stage job status) files

accepted_progress :
    (job : JobMsg) (files : Table JobStatus)
    → progress job.id (write_status (stage job (codes "accepted")) files) ≡ 1
unfolding progress progress_of stage
accepted_progress job files = ap progress_of (written job (codes "accepted") files)

running_progress :
    (job : JobMsg) (files : Table JobStatus)
    → progress job.id (write_status (stage job (codes "running")) files) ≡ 2
unfolding progress progress_of stage
running_progress job files = ap progress_of (written job (codes "running") files)

final_progress :
    (registry : Registry) (job : JobMsg) (files : Table JobStatus)
    → progress job.id (write_status (final_status registry job) files) ≡ 3
unfolding progress
final_progress registry job files = ended_progress _ (final-IsEnded registry job files)

other_progress :
    (id : Text) (st : JobStatus) (files : Table JobStatus)
    → text_eq id st.id ≡ false
    → progress id (write_status st files) ≡ progress id files
unfolding progress
other_progress id st files h = ap progress_of (kept_by id st files h)

-- A write moves no file back that was not further.
advanced :
    (st : JobStatus) (files : Table JobStatus)
    → progress st.id files ≤ progress st.id (write_status st files)
    → (id : Text) → progress id files ≤ progress id (write_status st files)
advanced st files h id = elim (Bool-cases (text_eq id st.id)) [
  | inl same ↦
      subst (λ (k : Text). progress k files ≤ progress k (write_status st files))
        (sym ((text_eq_iff id st.id).0 same)) h
  | inr other ↦ let e = other_progress id st files other in omega arith
]

differ :
    (a b : Text) (files : Table JobStatus) (m n : ℕ)
    → progress a files ≡ m
    → progress b files ≡ n
    → m < n
    → (text_eq a b ≡ false) × (text_eq b a ≡ false)
differ a b files m n h k l =
    let apart : (x y : Text) → x ≡ y → progress x files ≡ progress y files =
      λ x y e. ap (λ (t : Text). progress t files) e in
    (
      elim (Bool-cases (text_eq a b)) [
        | inl same ↦ let e = apart a b ((text_eq_iff a b).0 same) in absurd (omega arith)
        | inr other ↦ other
      ],
      elim (Bool-cases (text_eq b a)) [
        | inl same ↦ let e = apart b a ((text_eq_iff b a).0 same) in absurd (omega arith)
        | inr other ↦ other
      ],
    )

Apart : JobStatus → JobMsg → Type 0
Apart st job = text_eq job.id st.id ≡ false

-- A write to another file leaves the progress of all the messages.
others :
    (st : JobStatus) (files : Table JobStatus) (n : ℕ) (jobs : List JobMsg)
    → All (Apart st) jobs
    → All (HasProgress files n) jobs
    → All (HasProgress (write_status st files) n) jobs
unfolding HasProgress Apart
others st files n [] h k = tt
others st files n (job ∷ jobs) h k =
    (other_progress job.id st files h.0 ∙ k.0, others st files n jobs h.1 k.1)

-- A file whose progress is not that of the messages is none of theirs.
Apart-progress :
    (st : JobStatus) (files : Table JobStatus) (m n : ℕ) (jobs : List JobMsg)
    → progress st.id files ≡ m
    → (m < n) ⊎ (n < m)
    → All (HasProgress files n) jobs
    → All (Apart st) jobs
unfolding HasProgress Apart
Apart-progress st files m n [] h l k = tt
Apart-progress st files m n (job ∷ jobs) h (inl l) k =
    ((differ st.id job.id files m n h k.0 l).1, Apart-progress st files m n jobs h (inl l) k.1)
Apart-progress st files m n (job ∷ jobs) h (inr l) k =
    ((differ job.id st.id files n m k.0 h l).0, Apart-progress st files m n jobs h (inr l) k.1)

Unique-snoc :
    (job : JobMsg) (files : Table JobStatus) (jobs : List JobMsg)
    → progress job.id files ≡ 0
    → All (HasProgress files 1) jobs
    → Unique jobs
    → Unique (jobs ++ (job ∷ []))
unfolding Unique Fresh HasProgress
Unique-snoc job files [] h k u = (tt, tt)
Unique-snoc job files (j ∷ jobs) h k u = (
  All-append (Fresh j) jobs (job ∷ []) u.0
      ((differ job.id j.id files 0 1 h k.0 (omega arith)).0, tt),
  Unique-snoc job files jobs h k.1 u.1,
)

absent_progress :
    (id : Text) (files : Table JobStatus) → find id files ≡ none → progress id files ≡ 0
unfolding progress progress_of
absent_progress id files h = ap progress_of h

IsBusy-write_status :
    (st : JobStatus) (files : Table JobStatus) (current : Option JobMsg)
    → progress st.id files ≡ 0
    → IsBusy files current
    → IsBusy (write_status st files) current
unfolding HasProgress
IsBusy-write_status st files none h idle = idle
IsBusy-write_status st files (some job) h (busy k) =
    busy (other_progress job.id st files (differ st.id job.id files 0 2 h k (omega arith)).1 ∙ k)

progress_of_bound : (o : Option JobStatus) → progress_of o ≤ 3
unfolding progress_of
progress_of_bound none = omega arith
progress_of_bound (some st) = ground arith

progress_bound : (id : Text) (files : Table JobStatus) → progress id files ≤ 3
unfolding progress
progress_bound id files = progress_of_bound (find id files)

busy_progress :
    (files : Table JobStatus) (job : JobMsg) → IsBusy files (some job) → progress job.id files ≡ 2
unfolding HasProgress
busy_progress files job (busy h) = h

module _ (registry : Registry) where
  step-IsOrderly : (s s' : JobSystem) → JobStep registry s s' → IsOrderly s → IsOrderly s'
  unfolding HasProgress Unique Apart Fresh stage
  step-IsOrderly s s' (enqueues job new) (orderly u w b) =
      let st = stage job (codes "accepted") in
      let zero_progress = absent_progress job.id s.files new in
      orderly (Unique-snoc job s.files s.queue zero_progress w u)
        (All-append (HasProgress (write_status st s.files) 1) s.queue (job ∷ [])
          (others st s.files 1 s.queue
            (Apart-progress st s.files 0 1 s.queue zero_progress (inl (omega arith)) w) w)
          (accepted_progress job s.files, tt))
        (IsBusy-write_status st s.files s.current zero_progress b)
  step-IsOrderly s s' (strands job new) (orderly u w b) =
      let st = stage job (codes "accepted") in
      let zero_progress = absent_progress job.id s.files new in
      orderly u
        (others st s.files 1 s.queue
          (Apart-progress st s.files 0 1 s.queue zero_progress (inl (omega arith)) w) w)
        (IsBusy-write_status st s.files s.current zero_progress b)
  step-IsOrderly s s' (begins job rest free first) (orderly u w b) =
      let unique = subst Unique first u in
      let waiting = subst (All (HasProgress s.files 1)) first w in
      orderly unique.1 (others (stage job (codes "running")) s.files 1 rest unique.0 waiting.1)
        (busy (running_progress job s.files))
  step-IsOrderly s s' (ends job now) (orderly u w b) =
      let st = final_status registry job in
      let two : progress st.id s.files ≡ 2 =
        ap (λ (k : Text). progress k s.files) (final_id registry job)
        ∙ busy_progress s.files job (subst (IsBusy s.files) now b) in
      orderly u
        (others st s.files 1 s.queue
          (Apart-progress st s.files 2 1 s.queue two (inr (omega arith)) w) w)
        idle

  reached-IsOrderly : (s : JobSystem) → JobReached registry s → IsOrderly s
  unfolding Unique
  reached-IsOrderly s rests = orderly tt tt idle
  reached-IsOrderly s (steps {s = s0} r step) = step-IsOrderly s0 s step (reached-IsOrderly s0 r)

  accepted_advances :
      (job : JobMsg) (files : Table JobStatus)
      → find job.id files ≡ none
      → (id : Text)
      → progress id files ≤ progress id (write_status (stage job (codes "accepted")) files)
  unfolding stage
  accepted_advances job files new =
      advanced (stage job (codes "accepted")) files
        (let zero_progress = absent_progress job.id files new in omega arith)

  step_advances :
      (s s' : JobSystem)
      → JobStep registry s s'
      → IsOrderly s
      → (id : Text) → progress id s.files ≤ progress id s'.files
  unfolding HasProgress stage
  step_advances s s' (enqueues job new) h = accepted_advances job s.files new
  step_advances s s' (strands job new) h = accepted_advances job s.files new
  step_advances s s' (begins job rest free first) (orderly u w b) =
      let waiting = subst (All (HasProgress s.files 1)) first w in
      let one = waiting.0 in
      let two = running_progress job s.files in
      advanced (stage job (codes "running")) s.files (omega arith)
  step_advances s s' (ends job now) (orderly u w b) =
      let st = final_status registry job in
      let three : progress st.id (write_status st s.files) ≡ 3 =
        ap (λ (k : Text). progress k (write_status st s.files)) (final_id registry job)
        ∙ final_progress registry job s.files in
      let bound = progress_bound st.id s.files in advanced st s.files (omega arith)

  -- With one worker, whatever is enqueued meanwhile and whatever the processes return, no step moves
  -- a job back: among no file, accepted, running and ended it stays where it is or goes on.
  pub JobReached-advances :
      (s s' : JobSystem) (id : Text)
      → JobReached registry s
      → JobStep registry s s'
      → progress id s.files ≤ progress id s'.files
  JobReached-advances s s' id r step = step_advances s s' step (reached-IsOrderly s r) id
