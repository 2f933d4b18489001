-- ===== src/Microvm/Run/Answers.antt =====
-- What it takes that the agent's answer holds an action result.
use aws_build_farm.Prelude.{
  ◌==◌, ==_iff, Bool-cases, Option-cases, take, Sum-cases, Bytes, bytes_eq, bytes_eq_iff, Result,
  ok, err, ◌≡◌, refl, sym, ap, ◌∙◌, inl, inr, Option, none, some, [], ◌++◌, arith,
}
use aws_build_farm.Proto.{ActionResult, Command, Codec}
use aws_build_farm.Task.{
  TaskCodec, ResultCodec, IsTextTask, ExecuteTask, ExecuteResult, execute_path,
}
use aws_build_farm.Microvm.{Response, Config, World, ExecError, dispatch_failed, response_limit}
use aws_build_farm.Microvm.Run.{
  execute_request, agent_answer, agent_result, decoded_action_result, dispatch,
}

err-not-ok : {A : Type 0} (e : ExecError) (a : A) → ◌≡◌ {A = Result ExecError A} (err e) (ok a) → ⊥
err-not-ok e a h = cc

module _ (world : World) (cfg : Config) (tasks : TaskCodec) (results : ResultCodec)
    (commands : Codec Command) (actions : Codec ActionResult) where
  -- The agent at `url` is sent the task in the state `w`, and its answer, with the status 200 and no error,
  -- holds the action result.
  pub record IsAnswered (w : world.State) (url token : Bytes) (task : ExecuteTask)
      (ar : ActionResult) (w' : world.State) : Type 0 where
    pub body : Bytes
    pub response : Response
    pub result : ExecuteResult
    pub encoded : tasks.marshal task ≡ some body
    pub decoded : IsTextTask task → tasks.unmarshal body ≡ some task
    pub answered :
        (world.send w (execute_request world cfg tasks results commands actions url token body)).0
        ≡ inr response
    pub after_it :
        (world.send w (execute_request world cfg tasks results commands actions url token body)).1
        ≡ w'
    pub is_ok : response.status ≡ 200
    pub read : results.unmarshal (take response_limit response.body) ≡ some result
    pub no_error : result.error ≡ []
    pub holds : actions.unmarshal result.action_result ≡ some ar

  decoded_action_result-ok :
      (o : Option ActionResult) (ar : ActionResult)
      → decoded_action_result world cfg tasks results commands actions o ≡ ok ar
      → o ≡ some ar
  decoded_action_result-ok none ar h = absurd (cc)
  decoded_action_result-ok (some x) ar h = cc

  agent_result-ok :
      (o : Option ExecuteResult) (ar : ActionResult)
      → agent_result world cfg tasks results commands actions o ≡ ok ar
      → (result : ExecuteResult) × (o ≡ some result)
        × (result.error ≡ [])
        × (actions.unmarshal result.action_result ≡ some ar)
  agent_result-ok none ar h = absurd (cc)
  agent_result-ok (some r) ar h = elim (Bool-cases (bytes_eq r.error [])) [
    | inr failed ↦ absurd (ground (arith, failed, h))
    | inl empty ↦ (
      r,
      refl,
      (bytes_eq_iff r.error []).0 empty,
      decoded_action_result-ok (actions.unmarshal r.action_result) ar (ground (arith, empty, h)),
    )
  ]

  agent_answer-ok :
      (r : Response) (ar : ActionResult)
      → agent_answer world cfg tasks results commands actions (inr r) ≡ ok ar
      → (r.status ≡ 200)
        × (agent_result world cfg tasks results commands actions
              (results.unmarshal (take response_limit r.body))
            ≡ ok ar)
  unfolding agent_answer
  agent_answer-ok r ar h = elim (Bool-cases (r.status == 200)) [
    | inr other ↦ absurd (ground (arith, other, h))
    | inl same ↦ ((==_iff r.status 200).0 same, ground (arith, same, h))
  ]

  answer-IsAnswered :
      (w w' : world.State) (url token : Bytes) (task : ExecuteTask) (ar : ActionResult)
      (body : Bytes)
      → tasks.marshal task ≡ some body
      → (world.send w (execute_request world cfg tasks results commands actions url token body)).1
        ≡ w'
      → agent_answer world cfg tasks results commands actions
          (world.send w (execute_request world cfg tasks results commands actions url token body)).0
        ≡ ok ar
      → IsAnswered w url token task ar w'
  unfolding agent_answer
  answer-IsAnswered w w' url token task ar body encoded kept h =
      let answer = agent_answer world cfg tasks results commands actions in
      elim (Sum-cases
        (world.send w
          (execute_request world cfg tasks results commands actions url token body)).0) [
            | inl (e, failed) ↦
                absurd (err-not-ok (dispatch_failed e) ar (sym (ap answer failed) ∙ h))
            | inr (r, came) ↦
                let (is_ok, read) = agent_answer-ok r ar (sym (ap answer came) ∙ h) in
                let (result, found, no_error, holds) =
                  agent_result-ok (results.unmarshal (take response_limit r.body)) ar read in
                record {
                  body = body;
                  response = r;
                  result = result;
                  encoded = encoded;
                  decoded = λ text. tasks.round_trip task body text encoded;
                  answered = came;
                  after_it = kept;
                  is_ok = is_ok;
                  read = found;
                  no_error = no_error;
                  holds = holds;
                }
          ]

  pub dispatch-ok :
      (w w' : world.State) (url token : Bytes) (task : ExecuteTask) (ar : ActionResult)
      → dispatch world cfg tasks results commands actions w url token task ≡ (ok ar, w')
      → IsAnswered w url token task ar w'
  unfolding dispatch
  dispatch-ok w w' url token task ar h = elim (Option-cases (tasks.marshal task)) [
    | inl failed ↦ absurd (ground (arith, failed, h))
    | inr (body, encoded) ↦ elim (Option-cases (world.bad_url (url ++ execute_path))) [
      | inr (e, bad) ↦ absurd (ground (arith, encoded, bad, h))
      | inl good ↦
          let sent =
            world.send w
              (execute_request world cfg tasks results commands actions url token body) in
          let e : ◌≡◌ {A = Result ExecError ActionResult × world.State}
              (agent_answer world cfg tasks results commands actions sent.0, sent.1) (ok ar, w') =
            sym (rw (encoded, good, dispatch)) ∙ h in
          answer-IsAnswered w w' url token task ar body encoded (ap (λ r. r.1) e) (ap (λ r. r.0) e)
    ]
  ]
