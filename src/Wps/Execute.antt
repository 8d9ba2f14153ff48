-- ===== src/Wps/Execute.antt =====
-- services/wps/internal/wps/execute.go: Execute; jobs.go: Enqueue; wps.go: the status of a job.
pub mod Agree
use giti.Prelude.{
  Bool, true, false, ◌||◌, Option, none, some, List, [], ◌∷◌, ◌++◌, Text, codes, equal_fold, Result,
  ok, err, if◌then◌else◌,
}
use giti.Ows.Request.{Table, Request, get, find}
use giti.Wfs.Encode.{xml_esc}
use giti.Wps.Inputs.{parse_data_inputs}
use giti.Wps.Jobs.{JobStatus, JobMsg, Registry, Codec, write_status, stage, exec_now}

-- A response: an exception report with its code, locator and message, or a document.
pub data ExecuteAnswer : Type 0 where
  exception : Text → Text → Text → ExecuteAnswer
  document : Text → ExecuteAnswer

-- The files, and the messages that NATS has taken, in order, as they were sent.
pub record JobStore : Type 0 where
  pub files : Table JobStatus
  pub published : List Text

-- What `Publish` returns: an error, or nothing. `no_connection` is a nil `nc`.
pub data Publisher : Type 0 where
  no_connection : Publisher
  connected : (Text → Option Text) → Publisher

unfoldable pub publish_result : Text → Text → Option Text → JobStore → Result Text Text × JobStore
publish_result id message (some e) s = (err e, s)
publish_result id message none s =
    (ok id, record { files = s.files; published = s.published ++ (message ∷ []) })

unfoldable pub publish : Publisher → Text → Text → JobStore → Result Text Text × JobStore
unfolding publish_result
publish no_connection id message s = (ok id, s)
publish (connected send) id message s = publish_result id message (send message) s

-- What Execute calls: the processes, `encoding/json`, NATS, and the writing of the file of a new
-- status, which returns an error or nothing.
pub record Backend : Type 0 where
  pub registry : Registry
  pub codec : Codec
  pub publisher : Publisher
  pub write_error : JobStatus → Option Text

unfoldable pub enqueue_written :
    Backend → JobMsg → Option Text → JobStore → Result Text Text × JobStore
unfolding publish write_status stage
enqueue_written back job (some e) s = (err e, s)
enqueue_written back job none s =
    publish back.publisher job.id (back.codec.encode job) record {
      files = write_status (stage job (codes "accepted")) s.files;
      published = s.published;
    }

-- `Enqueue`, with the random identifier in the message. A write that fails is taken to leave no
-- file, and nothing is published.
unfoldable pub enqueue : Backend → JobMsg → JobStore → Result Text Text × JobStore
unfolding enqueue_written stage
enqueue back job s = enqueue_written back job (back.write_error (stage job (codes "accepted"))) s

unfoldable pub is_async : Request → Bool
unfolding equal_fold get
is_async req =
    equal_fold (get req (codes "storeExecuteResponse")) (codes "true")
    || equal_fold (get req (codes "mode")) (codes "async")

unfoldable pub execute_head : Text
execute_head =
    codes
      "<?xml version=\"1.0\" encoding=\"UTF-8\"?>\n<wps:ExecuteResponse xmlns:wps=\"http://www.opengis.net/wps/1.0.0\" xmlns:ows=\"http://www.opengis.net/ows/1.1\""

unfoldable pub accepted_answer : Text → Result Text Text → ExecuteAnswer
unfolding execute_head
accepted_answer id (err e) = exception (codes "NoApplicableCode") [] e
accepted_answer id (ok job_id) = document (
    execute_head
    ++ (codes " statusLocation=\"/wps/status/"
        ++ (job_id
            ++ (codes "\"><wps:Process><ows:Identifier>"
                ++ (id
                    ++ codes
                        "</ows:Identifier></wps:Process><wps:Status>accepted</wps:Status></wps:ExecuteResponse>")))))

unfoldable pub result_answer : Text → Result Text Text → ExecuteAnswer
unfolding execute_head xml_esc
result_answer id (err e) = exception (codes "NoApplicableCode") [] e
result_answer id (ok out) = document (
    execute_head
    ++ (codes "><wps:Process><ows:Identifier>"
        ++ (id
            ++ (codes
                  "</ows:Identifier></wps:Process><wps:Status>succeeded</wps:Status><wps:ProcessOutputs><wps:Output><ows:Identifier>result</ows:Identifier><wps:Data><wps:LiteralData>"
                ++ (xml_esc out
                    ++ codes
                        "</wps:LiteralData></wps:Data></wps:Output></wps:ProcessOutputs></wps:ExecuteResponse>")))))

module _ (back : Backend) (new_id : Text) where
  unfoldable pub execute_mode : Text → Table Text → JobStore → Bool → ExecuteAnswer × JobStore
  unfolding enqueue accepted_answer exec_now result_answer
  execute_mode id inputs s true =
      let queued = enqueue back record { id = new_id; process = id; inputs = inputs } s in
      (accepted_answer id queued.0, queued.1)
  execute_mode id inputs s false = (result_answer id (exec_now back.registry id inputs), s)

  unfoldable pub execute_found :
      Text → Request → JobStore → Option (Table Text → Result Text Text) → ExecuteAnswer × JobStore
  unfolding execute_mode is_async parse_data_inputs get
  execute_found id req s none = (
    exception (codes "InvalidParameterValue") (codes "identifier") (codes "unknown process " ++ id),
    s,
  )
  execute_found id req s (some p) =
      execute_mode id (parse_data_inputs (get req (codes "DataInputs"))) s (is_async req)

  unfoldable pub execute : Request → JobStore → ExecuteAnswer × JobStore
  unfolding execute_found find get
  execute req s =
      let id = get req (codes "identifier") in
      execute_found id req s (find id back.registry.processes)
