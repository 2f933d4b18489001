-- ===== src/Microvm/Run/Delivery.antt =====
-- The executor and the agent together: what the agent makes of a task is what the executor reports.
use aws_build_farm.Prelude.{
  length, take, take-eq_self, some-injective, Bytes, codes, bytes_eq, Result, ok, err, ℕ, ◌≤◌, ◌≡◌,
  refl, sym, ap, ◌∙◌, ◌≢◌, inr, true, Option, none, some, [], ◌∷◌, ◌++◌,
}
use aws_build_farm.GoText.Utf8.{is_valid}
use aws_build_farm.Digest.{Sha256}
use aws_build_farm.Proto.{ActionResult, Directory, Tree, Command, Codec}
use aws_build_farm.Task.{
  TaskCodec, ResultCodec, IsTextTask, ExecuteTask, ExecuteResult, execute_path,
}
use aws_build_farm.Os.{Os}
use aws_build_farm.Cas.Interface.{Store}
use aws_build_farm.Agent.Outputs.{AgentError}
use aws_build_farm.Agent.Work.{run_task}
use aws_build_farm.Agent.Handler.{written, write_result, packed, task_answer, handle_execute}
use aws_build_farm.Microvm.{Response, Config, World, execution_failed, response_limit}
use aws_build_farm.Microvm.Run.{
  execute_request, agent_answer, agent_result, decoded_action_result, dispatch,
}

module _ (world : World) (cfg : Config) (tasks : TaskCodec) (results : ResultCodec)
    (commands : Codec Command) (actions : Codec ActionResult) (error_text : AgentError → Bytes)
    (json_error : Bytes → Bytes) (proto_error : Bytes) (sha : Sha256) (st : Store) (os : Os)
    (directories : Codec Directory) (trees : Codec Tree) (config_error : Bytes → Option Bytes)
    (fuel : ℕ) where
  -- What the executor makes of an answer with a result that it can read whole.
  agent_answer-write_result :
      (r : ExecuteResult) (text : Bytes)
      → is_valid r.error ≡ true
      → results.marshal r ≡ some text
      → length text ≤ response_limit
      → agent_answer world cfg tasks results commands actions
          (inr (write_result tasks results actions error_text json_error proto_error r))
        ≡ agent_result world cfg tasks results commands actions (some r)
  unfolding agent_answer write_result
  agent_answer-write_result r text valid written_as fits =
      ap
        (λ t. agent_result world cfg tasks results commands actions (
          results.unmarshal (
            take response_limit
              (written tasks results actions error_text json_error proto_error t))))
        written_as
      ∙ ap (λ t. agent_result world cfg tasks results commands actions (results.unmarshal t))
          (take-eq_self response_limit text fits)
      ∙ ap (agent_result world cfg tasks results commands actions)
          (results.round_trip r text valid written_as)

  -- The handler answers a task that the executor sent with the outcome of `runTask`.
  handle_execute-task :
      (t : ExecuteTask) (body : Bytes) (v v' : os.State × st.State)
      (r : Result AgentError ActionResult)
      → IsTextTask t
      → tasks.marshal t ≡ some body
      → run_task sha st os directories trees commands config_error fuel t v ≡ some (r, v')
      → handle_execute tasks results actions error_text json_error proto_error sha st os directories
          trees commands config_error fuel
          (codes "POST")
          body
          v
        ≡ some (task_answer tasks results actions error_text json_error proto_error r, v')
  unfolding handle_execute bytes_eq
  handle_execute-task t body v v' r texts encoded ran =
      rw (tasks.round_trip t body texts encoded, ran, handle_execute)

  -- What the executor reports if the agent answers with `runTask`'s outcome.
  dispatch-answered :
      (w : world.State) (url token : Bytes) (t : ExecuteTask) (body : Bytes)
      (v v' : os.State × st.State) (r : Result AgentError ActionResult) (response : Response)
      → IsTextTask t
      → tasks.marshal t ≡ some body
      → world.bad_url (url ++ execute_path) ≡ none
      → run_task sha st os directories trees commands config_error fuel t v ≡ some (r, v')
      → handle_execute tasks results actions error_text json_error proto_error sha st os directories
          trees commands config_error fuel
          (codes "POST")
          body
          v
        ≡ some (some response, v')
      → (world.send w (execute_request world cfg tasks results commands actions url token body)).0
        ≡ inr response
      → (task_answer tasks results actions error_text json_error proto_error r ≡ some response)
        × ((dispatch world cfg tasks results commands actions w url token t).0
            ≡ agent_answer world cfg tasks results commands actions (inr response))
  unfolding dispatch
  dispatch-answered w url token t body v v' r response texts encoded good ran handled sent = (
    ap (λ p. p.0)
        (some-injective (sym (handle_execute-task t body v v' r texts encoded ran) ∙ handled)),
    rw (encoded, good, sent, dispatch),
  )

  -- If the agent runs a task to an action result, and the executor's request reaches the agent's handler and
  -- its answer the executor, then the executor reports that action result, given that the messages are encoded,
  -- the strings of the task are valid UTF-8, and the answer is at most 64 MiB long.
  pub dispatch-delivers :
      (w : world.State) (url token : Bytes) (t : ExecuteTask) (body : Bytes)
      (v v' : os.State × st.State) (ar : ActionResult) (b text : Bytes) (response : Response)
      → IsTextTask t
      → tasks.marshal t ≡ some body
      → world.bad_url (url ++ execute_path) ≡ none
      → run_task sha st os directories trees commands config_error fuel t v ≡ some (ok ar, v')
      → actions.marshal ar ≡ some b
      → results.marshal (record { action_result = b; error = [] }) ≡ some text
      → length text ≤ response_limit
      → handle_execute tasks results actions error_text json_error proto_error sha st os directories
          trees commands config_error fuel
          (codes "POST")
          body
          v
        ≡ some (some response, v')
      → (world.send w (execute_request world cfg tasks results commands actions url token body)).0
        ≡ inr response
      → (dispatch world cfg tasks results commands actions w url token t).0 ≡ ok ar
  unfolding task_answer bytes_eq is_valid
  dispatch-delivers w url token t body v v' ar b text response texts encoded good ran packs writes
        fits handled sent =
      let (answers, gives) =
        dispatch-answered w url token t body v v' (ok ar) response texts encoded good ran handled
          sent in
      let whole =
        agent_answer-write_result (record { action_result = b; error = [] }) text refl writes
          fits in
      let holds =
        ap (decoded_action_result world cfg tasks results commands actions)
          (actions.round_trip ar b packs) in
      gives
      ∙ ap (λ a. agent_answer world cfg tasks results commands actions (inr a))
          (sym (some-injective answers))
      ∙ ap
          (λ o. agent_answer world cfg tasks results commands actions (
            inr (
              write_result tasks results actions error_text json_error proto_error
                (packed tasks results actions error_text json_error proto_error o))))
          packs
      ∙ whole
      ∙ holds

  -- If the agent fails to run a task, with an error whose text is not empty and valid UTF-8, and the executor's
  -- request reaches the agent's handler and its answer the executor, then the executor reports a failed
  -- execution with that text, given that the task and the result are encoded, the strings of the task are
  -- valid UTF-8, and the answer is at most 64 MiB long.
  pub dispatch-reports :
      (w : world.State) (url token : Bytes) (t : ExecuteTask) (body : Bytes)
      (v v' : os.State × st.State) (e : AgentError) (text : Bytes) (response : Response)
      → IsTextTask t
      → tasks.marshal t ≡ some body
      → world.bad_url (url ++ execute_path) ≡ none
      → run_task sha st os directories trees commands config_error fuel t v ≡ some (err e, v')
      → error_text e ≢ []
      → is_valid (error_text e) ≡ true
      → results.marshal (record { action_result = []; error = error_text e }) ≡ some text
      → length text ≤ response_limit
      → handle_execute tasks results actions error_text json_error proto_error sha st os directories
          trees commands config_error fuel
          (codes "POST")
          body
          v
        ≡ some (some response, v')
      → (world.send w (execute_request world cfg tasks results commands actions url token body)).0
        ≡ inr response
      → (dispatch world cfg tasks results commands actions w url token t).0
        ≡ err (execution_failed (error_text e))
  unfolding task_answer bytes_eq
  dispatch-reports w url token t body v v' e text response texts encoded good ran said valid writes
        fits handled sent =
      let (answers, gives) =
        dispatch-answered w url token t body v v' (err e) response texts encoded good ran handled
          sent in
      let whole =
        agent_answer-write_result (record { action_result = []; error = error_text e }) text valid
          writes fits in
      gives
      ∙ ap (λ a. agent_answer world cfg tasks results commands actions (inr a))
          (sym (some-injective answers))
      ∙ whole
      ∙ failed (error_text e) said
    where
      failed :
          (text : Bytes)
          → text ≢ []
          → agent_result world cfg tasks results commands actions
              (some (record { action_result = []; error = text }))
            ≡ err (execution_failed text)
      failed [] h = absurd (h refl)
      failed (x ∷ text) h = refl
