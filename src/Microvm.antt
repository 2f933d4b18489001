-- ===== src/Microvm.antt =====
-- internal/microvm/executor.go: an action runs in a virtual machine of its own. Here the configuration, the
-- API's data, the world it acts on, and the small helpers; the modules below have the loops that wait and the
-- run of an action.
pub mod Boot
pub mod Run
use aws_build_farm.Prelude.{
  ltb, leb, ◌==◌, if◌then◌else◌, length, take, ℤ, pos, negsuc, eq_ℤ, sub_nat, Bytes, codes,
  bytes_eq, ℕ, suc, ◌+◌, ◌*◌, ◌/◌, ◌^◌, ◌≤◌, ◌≡◌, ◌⊎◌, Bool, ◌&&◌, Option, none, some, List, [],
  ◌∷◌, ◌++◌,
}
use aws_build_farm.GoText.Decimal.{show_int}
use aws_build_farm.Prelude.Dict.{Dict}
use aws_build_farm.Digest.{DigestRef, get_hash, get_size_bytes}
use aws_build_farm.Task.{ExecuteTask}

-- An error of the API, of the HTTP client or of a context: its text, and whether it wraps `context.Canceled`.
pub record ApiError : Type 0 where
  pub text : Bytes
  pub is_canceled : Bool

pub data VmState : Type 0 where
  running terminating terminated : VmState
  other_state : Bytes → VmState

-- `RunMicrovmOutput` and `GetMicrovmOutput`, where an absent text is empty, as `aws.ToString` makes it.
pub record VmOutput : Type 0 where
  pub id : Bytes
  pub endpoint : Bytes
  pub state : VmState
  pub reason : Bytes

pub record Request : Type 0 where
  pub method : Bytes
  pub url : Bytes
  pub headers : Dict Bytes
  pub body : Bytes

pub record Response : Type 0 where
  pub status : ℕ
  pub body : Bytes

-- `Config`. The start-up timeout is in nanoseconds and not negative.
pub record Config : Type 0 where
  pub image_identifier : Bytes
  pub image_version : Bytes
  pub execution_role : Bytes
  pub ingress_connectors : List Bytes
  pub egress_connectors : List Bytes
  pub region : Bytes
  pub bucket : Bytes
  pub prefix : Bytes
  pub max_duration_seconds : ℤ
  pub agent_port : ℤ
  pub startup_timeout : ℕ

-- `RunMicrovmInput`. The client token is a new identifier for each call, and the machine is not resumed by
-- itself.
pub record RunInput : Type 0 where
  pub image_identifier : Bytes
  pub image_version : Option Bytes
  pub execution_role : Option Bytes
  pub ingress_connectors : List Bytes
  pub egress_connectors : List Bytes
  pub max_duration_seconds : ℤ
  pub max_idle_seconds : ℤ
  pub suspended_seconds : ℤ

-- The interface `Client`, the HTTP client, whose requests need a URL that parses, and the clock in
-- nanoseconds, over one state of the world. What is relied on of the clock: no call turns it back, and a
-- sleep that is not cut short takes its time.
pub record World : Type 1 where
  pub State : Type 0
  pub run_microvm : State → RunInput → (ApiError ⊎ VmOutput) × State
  pub get_microvm : State → Bytes → (ApiError ⊎ VmOutput) × State
  pub create_auth_token : State → Bytes → (ApiError ⊎ Dict Bytes) × State
  pub terminate_microvm : State → Bytes → State
  pub bad_url : Bytes → Option ApiError
  pub send : State → Request → (ApiError ⊎ Response) × State
  pub sleep : State → ℕ → Option ApiError × State
  pub clock : State → ℕ
  pub get_takes_time : (w : State) (id : Bytes) → clock w ≤ clock (get_microvm w id).1
  pub send_takes_time : (w : State) (r : Request) → clock w ≤ clock (send w r).1
  pub sleep_takes_time :
      (w : State) (d : ℕ) → (sleep w d).0 ≡ none → clock w + d ≤ clock (sleep w d).1

-- The errors of `Run`. `agent_returned` holds the number of the status line.
pub data ExecError : Type 0 where
  marshal_command : ExecError
  run_microvm_failed : ApiError → ExecError
  get_microvm_failed : ApiError → ExecError
  entered_state : VmState → Bytes → ExecError
  not_running : ℕ → VmState → ExecError
  interrupted : ApiError → ExecError
  auth_token_failed : ApiError → ExecError
  auth_token_missing : ExecError
  not_healthy : ℕ → ExecError
  marshal_task : ExecError
  dispatch_failed : ApiError → ExecError
  agent_returned : ℕ → Bytes → ExecError
  bad_request : ApiError → ExecError
  bad_response : ExecError
  execution_failed : Bytes → ExecError
  bad_action_result : ExecError

-- `New`: the defaults.
unfoldable pub with_defaults : Config → Config
with_defaults cfg = record cfg {
  agent_port = if eq_ℤ cfg.agent_port (pos 0) then pos 8080 else cfg.agent_port;
  startup_timeout = if cfg.startup_timeout == 0 then 120 * 1000000000 else cfg.startup_timeout;
  max_duration_seconds =
      if eq_ℤ cfg.max_duration_seconds (pos 0) then pos 3600 else cfg.max_duration_seconds;
}

-- `optString`.
abbrev pub opt_string : Bytes → Option Bytes
opt_string [] = none
opt_string (c ∷ s) = some (c ∷ s)

-- `normalizeEndpoint`.
unfoldable pub normalize_endpoint : Bytes → Bytes
normalize_endpoint endpoint =
    if leb 4 (length endpoint) && bytes_eq (take 4 endpoint) (codes "http")
    then endpoint
    else codes "https://" ++ endpoint

-- `truncate`.
unfoldable pub truncate : Bytes → ℕ → Bytes
truncate b n = if ltb n (length b) then take n b ++ codes "..." else b

abbrev pub second : ℕ
second = 1000000000

-- `int64(timeout / time.Second)`, which rounds towards zero.
abbrev pub whole_seconds : ℤ → ℤ
whole_seconds (pos n) = pos (n / second)
whole_seconds (negsuc n) = sub_nat 0 (suc n / second)

abbrev pub auth_header : Bytes
auth_header = codes "X-aws-proxy-auth"

abbrev pub run_input : Config → RunInput
run_input cfg = record {
  image_identifier = cfg.image_identifier;
  image_version = opt_string cfg.image_version;
  execution_role = opt_string cfg.execution_role;
  ingress_connectors = cfg.ingress_connectors;
  egress_connectors = cfg.egress_connectors;
  max_duration_seconds = cfg.max_duration_seconds;
  max_idle_seconds = cfg.max_duration_seconds;
  suspended_seconds = pos 60;
}

-- The task of `Run`.
abbrev pub task_of : Config → Bytes → DigestRef → ℤ → ExecuteTask
task_of cfg command root timeout = record {
  region = cfg.region;
  bucket = cfg.bucket;
  prefix = cfg.prefix;
  command_proto = command;
  input_root_hash = get_hash root;
  input_root_size = get_size_bytes root;
  timeout_seconds = whole_seconds timeout;
}

-- `setProxyHeaders`. The names of headers are as written; `Header.Set` changes their case, which HTTP ignores.
abbrev pub proxy_headers : Config → Bytes → Dict Bytes
proxy_headers cfg token =
    (auth_header, token) ∷ (codes "X-aws-proxy-port", show_int cfg.agent_port) ∷ []

-- 64 MiB, which `dispatch` reads at most of an answer.
abbrev pub response_limit : ℕ
response_limit = 64 * 2 ^ 20
