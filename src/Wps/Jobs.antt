-- ===== src/Wps/Jobs.antt =====
-- services/wps/internal/wps/jobs.go: jobs that run behind a queue. A status file is written whole,
-- and the queue hands the jobs to the one worker in the order in which they were published.
pub mod Progress
pub mod Drain
use giti.Prelude.{
  ℕ, Option, none, some, List, [], ◌∷◌, ◌++◌, ◌≡◌, Text, text_eq, codes, Result, ok, err,
  if◌then◌else◌,
}
use giti.Ows.Request.{Table, put, find}

pub record JobStatus : Type 0 where
  pub id : Text
  pub process : Text
  pub status : Text
  pub output : Text
  pub error : Text

pub record JobMsg : Type 0 where
  pub id : Text
  pub process : Text
  pub inputs : Table Text

-- `writeStatus`: the file of the identifier.
unfoldable pub write_status : JobStatus → Table JobStatus → Table JobStatus
unfolding put
write_status st files = put st.id st files

unfoldable pub stage : JobMsg → Text → JobStatus
stage job status = record {
  id = job.id;
  process = job.process;
  status = status;
  output = [];
  error = [];
}

-- The processes of the registry with their `Run`, which asks PostGIS, and the `%q` of `fmt`.
pub record Registry : Type 0 where
  pub processes : Table (Table Text → Result Text Text)
  pub quote : Text → Text

-- `encoding/json` on the messages of the queue; nothing is decoded of a text that is not one.
pub record Codec : Type 0 where
  pub encode : JobMsg → Text
  pub decode : Text → Option JobMsg

unfoldable pub run_process :
    Registry → Text → Table Text → Option (Table Text → Result Text Text) → Result Text Text
run_process registry id inputs none = err (codes "unknown process " ++ registry.quote id)
run_process registry id inputs (some p) = p inputs

-- `execNow`
unfoldable pub exec_now : Registry → Text → Table Text → Result Text Text
unfolding run_process find
exec_now registry id inputs = run_process registry id inputs (find id registry.processes)

unfoldable pub outcome : JobMsg → Result Text Text → JobStatus
outcome job (ok out) = record {
  id = job.id;
  process = job.process;
  status = codes "succeeded";
  output = out;
  error = [];
}
outcome job (err e) = record {
  id = job.id;
  process = job.process;
  status = codes "failed";
  output = [];
  error = e;
}

unfoldable pub final_status : Registry → JobMsg → JobStatus
unfolding outcome exec_now
final_status registry job = outcome job (exec_now registry job.process job.inputs)

-- The callback of `RunWorker` on a message that was decoded. Its writes, whose errors it drops,
-- are taken to succeed, and a file to say what was encoded into it.
unfoldable pub handle_job : Registry → JobMsg → Table JobStatus → Table JobStatus
unfolding write_status stage final_status
handle_job registry job files =
    write_status (final_status registry job) (write_status (stage job (codes "running")) files)

-- The callback on any message: one that is not JSON is passed over.
unfoldable pub handle_decoded : Registry → Option JobMsg → Table JobStatus → Table JobStatus
unfolding handle_job
handle_decoded registry none files = files
handle_decoded registry (some job) files = handle_job registry job files

unfoldable pub handle_message : Registry → Codec → Text → Table JobStatus → Table JobStatus
unfolding handle_decoded
handle_message registry codec message files = handle_decoded registry (codec.decode message) files

-- The worker on all that is queued, decoded.
unfoldable pub drain : Registry → List JobMsg → Table JobStatus → Table JobStatus
unfolding handle_job
drain registry [] files = files
drain registry (job ∷ queue) files = drain registry queue (handle_job registry job files)

-- The files, the messages that are published, decoded, and the message that the worker is busy with.
pub record JobSystem : Type 0 where
  pub files : Table JobStatus
  pub queue : List JobMsg
  pub current : Option JobMsg

-- A step is a call of Enqueue, with its file and its message, or one of the two writes of the worker.
pub data JobStep (registry : Registry) : JobSystem → JobSystem → Type 0 where
  -- `Enqueue`; the identifier is random, and no file has it.
  enqueues :
      {s : JobSystem} (job : JobMsg)
      → find job.id s.files ≡ none
      → JobStep registry s record {
        files = write_status (stage job (codes "accepted")) s.files;
        queue = s.queue ++ (job ∷ []);
        current = s.current;
      }
  -- `Enqueue` without a connection, or whose message is lost.
  strands :
      {s : JobSystem} (job : JobMsg)
      → find job.id s.files ≡ none
      → JobStep registry s record {
        files = write_status (stage job (codes "accepted")) s.files;
        queue = s.queue;
        current = s.current;
      }
  begins :
      {s : JobSystem} (job : JobMsg) (rest : List JobMsg)
      → s.current ≡ none
      → s.queue ≡ job ∷ rest
      → JobStep registry s record {
        files = write_status (stage job (codes "running")) s.files;
        queue = rest;
        current = some job;
      }
  ends :
      {s : JobSystem} (job : JobMsg)
      → s.current ≡ some job
      → JobStep registry s record {
        files = write_status (final_status registry job) s.files;
        queue = s.queue;
        current = none;
      }

pub data JobReached (registry : Registry) : JobSystem → Type 0 where
  rests : JobReached registry record { files = []; queue = []; current = none }
  steps :
      {s s' : JobSystem} → JobReached registry s → JobStep registry s s' → JobReached registry s'
