-- ===== src/Wps/Execute/Agree.antt =====
-- The two modes of Execute agree.
use giti.Prelude.{
  ◌≡◌, refl, subst, ap, sym, ◌∙◌, true, false, Option, none, some, [], ◌∷◌, ◌++◌, Text, codes,
  Result, ok, err,
}
use giti.Ows.Request.{Table, Request, get, find, put}
use giti.Ows.Request.Params.{find-put_same}
use giti.Wps.Inputs.{parse_data_inputs}
use giti.Wps.Jobs.{
  JobStatus, JobMsg, Registry, Codec, write_status, stage, exec_now, outcome, final_status,
  handle_job, handle_decoded, handle_message,
}
use giti.Wps.Jobs.Drain.{final_id}
use giti.Wps.Execute.{
  ExecuteAnswer, exception, JobStore, Backend, connected, publish, publish_result, enqueue,
  enqueue_written, is_async, result_answer, execute_found, execute_mode, execute,
}

-- What the synchronous call answers for a job that has ended.
pub data AnswersAs (id : Text) : JobStatus → ExecuteAnswer → Type 0 where
  as_succeeded :
      {st : JobStatus} {out : Text}
      → st.status ≡ codes "succeeded"
      → st.output ≡ out
      → AnswersAs id st (result_answer id (ok out))
  as_failed :
      {st : JobStatus} {e : Text}
      → st.status ≡ codes "failed"
      → st.error ≡ e
      → AnswersAs id st (exception (codes "NoApplicableCode") [] e)

answered :
    (id : Text) (job : JobMsg) (r : Result Text Text)
    → AnswersAs id (outcome job r) (result_answer id r)
unfolding outcome result_answer
answered id job (ok out) = as_succeeded refl refl
answered id job (err e) = as_failed refl refl

-- The job that a request asks for.
unfoldable pub asked_job : Text → Request → JobMsg
unfolding get parse_data_inputs
asked_job new_id req = record {
  id = new_id;
  process = get req (codes "identifier");
  inputs = parse_data_inputs (get req (codes "DataInputs"));
}

-- The worker on the message of a job leaves a file that says how the process ended.
worked :
    (registry : Registry) (codec : Codec) (job : JobMsg) (files : Table JobStatus)
    → codec.decode (codec.encode job) ≡ some job
    → find job.id (handle_message registry codec (codec.encode job) files)
      ≡ some (final_status registry job)
unfolding handle_message handle_decoded handle_job write_status
worked registry codec job files known =
    let st = final_status registry job in
    let before = write_status (stage job (codes "running")) files in
    ap (λ m. find job.id (handle_decoded registry m files)) known
    ∙ ap (λ k. find k (put st.id st before)) (sym (final_id registry job))
    ∙ find-put_same st.id st before

module _ (back : Backend) (send : Text → Option Text) (new_id : Text) (s : JobStore) where
  module _ (p : Table Text → Result Text Text) (open_queue : back.publisher ≡ connected send) where
    queued_job :
        (req : Request)
        → find (get req (codes "identifier")) back.registry.processes ≡ some p
        → is_async req ≡ true
        → back.write_error (stage (asked_job new_id req) (codes "accepted")) ≡ none
        → send (back.codec.encode (asked_job new_id req)) ≡ none
        → (execute back new_id req s).1.published
          ≡ s.published ++ (back.codec.encode (asked_job new_id req) ∷ [])
    unfolding execute execute_found execute_mode enqueue enqueue_written publish publish_result
        asked_job
    queued_job req found mode written sent =
        let id = get req (codes "identifier") in
        let inputs = parse_data_inputs (get req (codes "DataInputs")) in
        let job = asked_job new_id req in
        let message = back.codec.encode job in
        let s' : JobStore = record {
          files = write_status (stage job (codes "accepted")) s.files;
          published = s.published;
        } in
        ap (λ o. (execute_found back new_id id req s o).1.published) found
        ∙ ap (λ b. (execute_mode back new_id id inputs s b).1.published) mode
        ∙ ap (λ o. (enqueue_written back job o s).1.published) written
        ∙ ap (λ q. (publish q new_id message s').1.published) open_queue
        ∙ ap (λ o. (publish_result new_id message o s').1.published) sent

  answered_now :
      (p : Table Text → Result Text Text) (req : Request)
      → find (get req (codes "identifier")) back.registry.processes ≡ some p
      → is_async req ≡ false
      → (execute back new_id req s).0
        ≡ result_answer (get req (codes "identifier")) (
            exec_now back.registry
              (get req (codes "identifier"))
              (parse_data_inputs (get req (codes "DataInputs"))))
  unfolding execute execute_found execute_mode
  answered_now p req found mode =
      let id = get req (codes "identifier") in
      let inputs = parse_data_inputs (get req (codes "DataInputs")) in
      ap (λ o. (execute_found back new_id id req s o).0) found
      ∙ ap (λ b. (execute_mode back new_id id inputs s b).0) mode

  -- Two requests for the same process on the same inputs, one of each mode. Where the status file
  -- of the asynchronous one can be written, NATS takes its message, and the message is decoded as
  -- the job that was encoded, it publishes that one message, and the worker on it, whatever the
  -- files are by then, writes the status with which the synchronous one is answered: its output, or
  -- its error. The process is taken as a function of its inputs.
  pub execute-AnswersAs :
      (p : Table Text → Result Text Text) (sync async : Request) (files : Table JobStatus)
      → find (get sync (codes "identifier")) back.registry.processes ≡ some p
      → get async (codes "identifier") ≡ get sync (codes "identifier")
      → get async (codes "DataInputs") ≡ get sync (codes "DataInputs")
      → is_async sync ≡ false
      → is_async async ≡ true
      → back.publisher ≡ connected send
      → back.write_error (stage (asked_job new_id async) (codes "accepted")) ≡ none
      → send (back.codec.encode (asked_job new_id async)) ≡ none
      → back.codec.decode (back.codec.encode (asked_job new_id async))
        ≡ some (asked_job new_id async)
      → (message : Text) × (((execute back new_id async s).1.published
            ≡ s.published ++ (message ∷ []))
          × ((st : JobStatus) × ((find new_id
                    (handle_message back.registry back.codec message files)
                  ≡ some st)
                × AnswersAs (get sync (codes "identifier")) st (execute back new_id sync s).0)))
  unfolding asked_job final_status
  execute-AnswersAs p sync async files found id inputs now later queue written sent known =
      let job = asked_job new_id async in
      let same : asked_job new_id async ≡ asked_job new_id sync =
        ap
          (λ (d : Text × Text). record {
            id = new_id;
            process = d.0;
            inputs = parse_data_inputs d.1;
          })
          (λ i. (id i, inputs i)) in
      let found' = ap (λ (k : Text). find k back.registry.processes) id ∙ found in
      let name = get sync (codes "identifier") in
      let answer : AnswersAs name (final_status back.registry (asked_job new_id sync))
          (execute back new_id sync s).0 =
        subst (AnswersAs name (final_status back.registry (asked_job new_id sync)))
          (sym (answered_now p sync found now)) (answered name (asked_job new_id sync) _) in
      (
        back.codec.encode job,
        (
          queued_job p queue async found' later written sent,
          (
            final_status back.registry job,
            (
              worked back.registry back.codec job files known,
              subst
                  (λ (j : JobMsg).
                    AnswersAs name (final_status back.registry j) (execute back new_id sync s).0)
                  (sym same) answer,
            ),
          ),
        ),
      )
