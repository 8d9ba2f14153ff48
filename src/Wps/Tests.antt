-- ===== src/Wps/Tests.antt =====
-- Runs of the processing service.
use giti.Prelude.{
  Text, Result, equal_fold, to_upper, ◌≤◌, ◌≡◌, refl, none, some, List, [], ◌∷◌, codes, ok, All,
}
use giti.Ows.Request.{Request, get, Table, put, find}
use giti.Wps.Inputs.{parse_data_inputs}
use giti.Wps.Jobs.{
  JobStatus, JobMsg, Registry, Codec, handle_message, write_status, stage, drain, JobSystem,
  JobStep, enqueues, begins, JobReached, rests, steps,
}
use giti.Wps.Execute.{JobStore, Backend, connected, execute, is_async}
use giti.Wps.Execute.Agree.{AnswersAs, asked_job, execute-AnswersAs}
use giti.Wps.Jobs.Drain.{IsEnded, drain-IsEnded}
use giti.Wps.Jobs.Progress.{progress, JobReached-advances}

-- Spaces around a name go, those of a value stay.
two_inputs :
    parse_data_inputs (codes "geom=POINT(1 2);; distance = 5;flag")
    ≡ (codes "geom", codes "POINT(1 2)") ∷ (codes "distance", codes " 5") ∷ []
unfolding parse_data_inputs
two_inputs = refl

abbrev registry : Registry
registry = record {
  processes = (codes "buffer", λ inputs. ok (codes "POLYGON")) ∷ [];
  quote = λ t. t;
}

abbrev first_job : JobMsg
first_job = record { id = codes "a1"; process = codes "buffer"; inputs = [] }

abbrev second_job : JobMsg
second_job = record { id = codes "a2"; process = codes "hull"; inputs = [] }

abbrev queue : List JobMsg
queue = first_job ∷ second_job ∷ []

drain-IsEnded_example :
    All (λ (job : JobMsg). IsEnded (find job.id (drain registry queue []))) queue
drain-IsEnded_example = drain-IsEnded registry queue []

abbrev accepted_files : Table JobStatus
accepted_files =
    (
      codes "a1",
      record {
        id = codes "a1";
        process = codes "buffer";
        status = codes "accepted";
        output = [];
        error = [];
      },
    )
    ∷ []

abbrev running_files : Table JobStatus
running_files =
    (
      codes "a1",
      record {
        id = codes "a1";
        process = codes "buffer";
        status = codes "running";
        output = [];
        error = [];
      },
    )
    ∷ []

abbrev waiting : JobSystem
waiting = record { files = accepted_files; queue = first_job ∷ []; current = none }

abbrev working : JobSystem
working = record { files = running_files; queue = []; current = some first_job }

waiting_reached : JobReached registry waiting
unfolding write_status stage find put
waiting_reached = steps rests (enqueues first_job refl)

first_begins : JobStep registry waiting working
unfolding write_status stage put
first_begins = begins first_job [] refl refl

JobReached-advances_example :
    progress (codes "a1") accepted_files ≤ progress (codes "a1") running_files
JobReached-advances_example =
    JobReached-advances registry waiting working (codes "a1") waiting_reached first_begins

abbrev wanted : List Text → Request
wanted mode = record {
  service = codes "WPS";
  version = codes "1.0.0";
  request = codes "Execute";
  params =
      (codes "IDENTIFIER", codes "buffer" ∷ [])
      ∷ (codes "DATAINPUTS", codes "distance=5" ∷ [])
      ∷ (codes "MODE", mode)
      ∷ [];
}

abbrev no_jobs : JobStore
no_jobs = record { files = []; published = [] }

abbrev buffer : Table Text → Result Text Text
buffer inputs = ok (codes "POLYGON")

-- A codec of the jobs a1 at the distance 5.
plain_encode : JobMsg → Text
plain_encode job = job.process

abbrev plain_codec : Codec
plain_codec = record {
  encode = plain_encode;
  decode = λ t.
      some record { id = codes "a1"; process = t; inputs = (codes "distance", codes "5") ∷ [] };
}

abbrev backend : Backend
backend = record {
  registry = registry;
  codec = plain_codec;
  publisher = connected (λ message. none);
  write_error = λ st. none;
}

execute-AnswersAs_example :
    (message : Text) × (((execute backend
          (codes "a1")
          (wanted (codes "async" ∷ []))
          no_jobs).1.published
        ≡ message ∷ [])
      × ((st : JobStatus) × ((find (codes "a1") (handle_message registry plain_codec message [])
              ≡ some st)
            × AnswersAs (codes "buffer") st (execute backend (codes "a1") (wanted []) no_jobs).0)))
unfolding is_async get find equal_fold to_upper asked_job parse_data_inputs plain_encode
execute-AnswersAs_example =
    execute-AnswersAs backend (λ message. none) (codes "a1") no_jobs buffer (wanted [])
      (wanted (codes "async" ∷ [])) [] refl refl refl refl refl refl refl refl refl
