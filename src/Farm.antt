-- ===== src/Farm.antt =====
-- cmd/buildfarm-server/main.go: the flags of the server, and the server that it makes of them. The AWS
-- configuration, the network and gRPC are parameters.
pub mod Connectors
pub mod Started
use aws_build_farm.Prelude.{
  if◌then◌else◌, ℤ, Bytes, codes, bytes_eq, Result, ok, err, panic, ◌>>=◌, ℕ, ◌*◌, Bool, is_some,
  Option, none, some, List, [], ◌∷◌, ◌++◌,
}
use aws_build_farm.GoText.Split.{split_on}
use aws_build_farm.GoText.Trim.{trim_space}
use aws_build_farm.Cas.S3Store.{S3Store, new_s3_store}
use aws_build_farm.Server.Operations.{Manager, new_manager}
use aws_build_farm.Agent.Work.{wrap_int32}
use aws_build_farm.Microvm.{Config, with_defaults}

-- The loop of `connectors`.
unfoldable pub named_parts : List Bytes → List Bytes
named_parts [] = []
named_parts (p ∷ ps) =
    let rest = named_parts ps in
    let name = trim_space p in if bytes_eq name [] then rest else name ∷ rest

-- `connectors`.
unfoldable pub connectors : Bytes → Bytes → List Bytes
unfolding named_parts
connectors flag_value fallback =
    named_parts (split_on b',' (if bytes_eq flag_value [] then fallback else flag_value))

abbrev pub connector_prefix : Bytes → Bytes
connector_prefix region =
    codes "arn:aws:lambda:" ++ region ++ codes ":aws:network-connector:aws-network-connector:"

-- `defaultIngress`.
unfoldable pub default_ingress : Bytes → Bytes
default_ingress region = connector_prefix region ++ codes "ALL_INGRESS"

-- `defaultEgress`.
unfoldable pub default_egress : Bytes → Bytes
default_egress region = connector_prefix region ++ codes "INTERNET_EGRESS"

-- The flags of the command line, after `flag.Parse`.
pub record Flags : Type 0 where
  pub listen : Bytes
  pub bucket : Bytes
  pub prefix : Bytes
  pub region : Bytes
  pub instance_name : Bytes
  pub image : Bytes
  pub image_version : Bytes
  pub execution_role : Bytes
  pub ingress : Bytes
  pub egress : Bytes
  pub max_duration : ℤ
  pub agent_port : ℤ

-- The errors that `run` returns.
pub data StartError : Type 0 where
  bucket_required : StartError
  config_not_loaded : Bytes → StartError
  no_region : StartError
  not_listening : Bytes → Bytes → StartError
  not_served : Bytes → StartError

-- The struct `Server` of internal/server/server.go. The executor is its configuration, as `microvm.New`
-- completes it, or none.
pub record Server : Type 0 where
  pub store : S3Store
  pub executor : Option Config
  pub ops : Manager
  pub instance_name : Bytes

-- `server.New`.
abbrev pub new_server : S3Store → Option Config → Bytes → Server
new_server store executor instance_name = record {
  store = store;
  executor = executor;
  ops = new_manager;
  instance_name = instance_name;
}

-- `ExecutionEnabled`.
abbrev pub execution_enabled : Server → Bool
execution_enabled s = is_some s.executor

-- What `run` serves: the server, and the sizes that gRPC is told for messages.
pub record Served : Type 0 where
  pub server : Server
  pub listen : Bytes
  pub max_recv_bytes : ℕ
  pub max_send_bytes : ℕ

-- The calls of other packages: `LoadDefaultConfig` with the option that sets the region, if there is one, which gives
-- the region or an error; `net.Listen`; and `Serve`, which ends with an error or without one.
pub record Platform : Type 0 where
  pub load_config : Option Bytes → Result Bytes Bytes
  pub listen : Bytes → Option Bytes
  pub serve : Served → Option Bytes

-- The option for the region.
abbrev pub region_option : Bytes → Option Bytes
region_option region = if bytes_eq region [] then none else some region

-- The configuration of the executor, which there is if an image is named.
unfoldable pub executor_config : Flags → Bytes → Option Config
unfolding connectors default_ingress default_egress
executor_config f region =
    if bytes_eq f.image []
    then none
    else some (
        with_defaults (record {
          image_identifier = f.image;
          image_version = f.image_version;
          execution_role = f.execution_role;
          ingress_connectors = connectors f.ingress (default_ingress region);
          egress_connectors = connectors f.egress (default_egress region);
          region = region;
          bucket = f.bucket;
          prefix = f.prefix;
          max_duration_seconds = wrap_int32 f.max_duration;
          agent_port = f.agent_port;
          startup_timeout = 0;
        }))

-- The server of the flags, in a region.
unfoldable pub serving : Flags → Bytes → Served
unfolding executor_config
serving f region = record {
  server = new_server (new_s3_store f.bucket f.prefix) (executor_config f region) f.instance_name;
  listen = f.listen;
  max_recv_bytes = 16 * 1024 * 1024;
  max_send_bytes = 16 * 1024 * 1024;
}

-- The region of the configuration, which must not be empty.
abbrev pub resolved : Result Bytes Bytes → Result StartError Bytes
resolved (ok region) = if bytes_eq region [] then err no_region else ok region
resolved (err e) = err (config_not_loaded e)
resolved panic = panic

abbrev pub listening : Bytes → Option Bytes → Served → Result StartError Served
listening address none s = ok s
listening address (some e) s = err (not_listening address e)

-- `run` up to `Serve`.
unfoldable pub start : Platform → Flags → Result StartError Served
unfolding serving
start p f = if bytes_eq f.bucket [] then err bucket_required else do
  region ← resolved (p.load_config (region_option f.region))
  listening f.listen (p.listen f.listen) (serving f region)

abbrev pub ended : Option Bytes → Result StartError (Unit {0})
ended none = ok tt
ended (some e) = err (not_served e)

-- `run`.
unfoldable pub run : Platform → Flags → Result StartError (Unit {0})
unfolding start
run p f = do served ← start p f; ended (p.serve served)
