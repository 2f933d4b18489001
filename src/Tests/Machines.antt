-- ===== src/Tests/Machines.antt =====
-- A machine that comes up at once, and the theorems about the runs in it.
use aws_build_farm.Prelude.{
  after, ℤ, pos, Bytes, codes, bytes_eq, Result, ok, ℕ, ◌+◌, ◌≡◌, refl, sym, ap, ◌⊎◌, inr, Option,
  none, some, [], ◌∷◌, arith,
}
use native.Mathlib.Decide.{ℕ_discrete}
use aws_build_farm.Prelude.Dict.{lookup}
use aws_build_farm.Proto.{ActionResult, Command, Codec}
use aws_build_farm.Task.{TaskCodec, ResultCodec, JsonCodec, ExecuteTask, ExecuteResult}
use aws_build_farm.Microvm.{
  ApiError, VmOutput, VmState, running, other_state, Response, Config, World, ExecError,
  auth_header, task_of, normalize_endpoint,
}
use aws_build_farm.Microvm.Boot.{wait_running}
use aws_build_farm.Microvm.Run.{token_of, dispatch, run}
use aws_build_farm.Microvm.Run.Cleanup.{run-terminates}
use aws_build_farm.Microvm.Run.Outcome.{IsUp, IsGranted, IsServed, run-ok}
use aws_build_farm.Tests.Sample.{bare_result, sample_command}

ℤ-discrete : Discrete ℤ
ℤ-discrete = hlevel ℕ_discrete

Bytes-discrete : Discrete Bytes
Bytes-discrete = hlevel ℕ_discrete

unfoldable pub Command-discrete : Discrete Command
Command-discrete = hlevel ℕ_discrete

unfoldable pub ExecuteTask-discrete : Discrete ExecuteTask
ExecuteTask-discrete = hlevel ℕ_discrete

unfoldable pub ExecuteResult-discrete : Discrete ExecuteResult
ExecuteResult-discrete = hlevel ℕ_discrete

unfoldable pub ActionResult-discrete : Discrete ActionResult
ActionResult-discrete = hlevel ℕ_discrete

abbrev pub decided : {P : Type 0} → Dec P → Option Bytes
decided (yes p) = some []
decided (no n) = none

pub single-round-trip :
    {M : Type 0} (eq : Discrete M) (m x : M) (b : Bytes)
    → decided (eq x m) ≡ some b
    → some m ≡ some x
single-round-trip eq m x b h =
    elim (eq x m) as (λ d. decided d ≡ some b → some m ≡ some x) [
      | yes p ↦ λ _. ap (λ t. some t) (sym p)
      | no n ↦ λ g. absurd (cc)
    ]
      h

-- An encoding of one message, by no bytes.
abbrev pub single : {M : Type 0} → Discrete M → M → Codec M
single eq m = record {
  marshal = λ x. decided (eq x m);
  unmarshal = λ b. some m;
  round_trip = single-round-trip eq m;
}

-- An encoding that keeps every message keeps those with valid strings.
abbrev pub json : {M : Type 0} {IsText : M → Type 0} → Codec M → JsonCodec M IsText
json c = record {
  marshal = c.marshal;
  unmarshal = c.unmarshal;
  round_trip = λ m b text. c.round_trip m b;
}

pub single-marshal : {M : Type 0} (eq : Discrete M) (m : M) → (single eq m).marshal m ≡ some []
single-marshal eq m = elim (eq m m) as (λ d. decided d ≡ some []) [
  | yes p ↦ refl
  | no n ↦ absurd (n refl)
]

abbrev machine : VmState → VmOutput
machine state = record {
  id = codes "vm-1";
  endpoint = codes "vm.example";
  state = state;
  reason = [];
}

abbrev pub good : ApiError ⊎ Response
good = inr (record { status = 200; body = [] })

-- The world is its clock. A call to the API takes a nanosecond, and an agent answers at once.
abbrev pub world : World
world = record {
  State = ℕ;
  run_microvm = λ w i. (inr (machine (other_state (codes "PENDING"))), w + 1);
  get_microvm = λ w id. (inr (machine running), w + 1);
  create_auth_token = λ w id. (inr ((auth_header, codes "secret") ∷ []), w + 1);
  terminate_microvm = λ w id. w + 1;
  bad_url = λ url. none;
  send = λ w r. (good, w + 1);
  sleep = λ w d. (none, w + d);
  clock = λ w. w;
  get_takes_time = λ w id. omega arith;
  send_takes_time = λ w r. omega arith;
  sleep_takes_time = λ w d h. omega arith;
}

abbrev pub config : Config
config = record {
  image_identifier = codes "image";
  image_version = [];
  execution_role = [];
  ingress_connectors = [];
  egress_connectors = [];
  region = [];
  bucket = [];
  prefix = [];
  max_duration_seconds = pos 3600;
  agent_port = pos 8080;
  startup_timeout = 5;
}

abbrev sent : ExecuteTask
sent = task_of config [] none (pos 5000000000)

abbrev tasks : TaskCodec
tasks = json (single ExecuteTask-discrete sent)

abbrev done : ExecuteResult
done = record { action_result = []; error = [] }

abbrev results : ResultCodec
results = json (single ExecuteResult-discrete done)

abbrev commands : Codec Command
commands = single Command-discrete sample_command

abbrev actions : Codec ActionResult
actions = single ActionResult-discrete (bare_result 0)

run-terminates_example :
    (answer : Result ExecError ActionResult) × (w' : ℕ) × (run world config tasks results commands
        actions 2 0 sample_command none
        (pos 5000000000)
      ≡ some (answer, w' + 1))
run-terminates_example =
    run-terminates world config tasks results commands actions 1 (omega arith) 0 sample_command none
      (pos 5000000000) [] (machine (other_state (codes "PENDING")))
      (single-marshal Command-discrete sample_command) refl

ran :
    run world config tasks results commands actions 1 0 sample_command none (pos 5000000000)
    ≡ some (ok (bare_result 0), 6)
unfolding run Command-discrete ℕ_discrete after wait_running token_of lookup bytes_eq dispatch
    ExecuteTask-discrete
ran = refl

run-ok_example :
    (b : Bytes) × (out : VmOutput) × (endpoint token : Bytes) × (w₁ w₂ w₃ : ℕ) × (some
        sample_command
      ≡ some sample_command)
    × (◌≡◌ {A = ApiError ⊎ VmOutput} (inr (machine (other_state (codes "PENDING")))) (inr out))
    × IsUp world config tasks results commands actions 1 1 out endpoint w₁
    × IsGranted world config tasks results commands actions w₁ out.id token w₂
    × IsServed world config tasks results commands actions 1 w₂
        (normalize_endpoint endpoint)
        token
        (task_of config b none (pos 5000000000))
        (bare_result 0)
        w₃
    × (6 ≡ w₃ + 1)
run-ok_example =
    run-ok world config tasks results commands actions 1 0 6 sample_command none (pos 5000000000)
      (bare_result 0) ran
