-- ===== src/Agent/Remote.antt =====
-- cmd/executor-agent/main.go: the store that runTask makes for its task, and the task that runs in it.
use aws_build_farm.Prelude.{Bytes, Result, ℕ, Option}
use aws_build_farm.Digest.{Sha256}
use aws_build_farm.Proto.{ActionResult, Directory, Tree, Command, Codec}
use aws_build_farm.Task.{ExecuteTask}
use aws_build_farm.Os.{Os}
use aws_build_farm.Cas.Interface.{Store}
use aws_build_farm.Cas.S3.{S3}
use aws_build_farm.Cas.S3Store.{new_s3_store}
use aws_build_farm.Cas.S3Store.Laws.{s3_store}
use aws_build_farm.Agent.Outputs.{AgentError}
use aws_build_farm.Agent.Work.{run_task}

-- `clients` gives the client that `s3.NewFromConfig` makes of the configuration for a region.
module _ (clients : Bytes → S3) (actions : Codec ActionResult) where
  -- The `store` of `runTask`.
  abbrev pub task_store : ExecuteTask → Store
  task_store t = s3_store (clients t.region) (new_s3_store t.bucket t.prefix) actions

  module _ (sha : Sha256) (os : Os) (directories : Codec Directory) (trees : Codec Tree)
      (commands : Codec Command) (config_error : Bytes → Option Bytes) (fuel : ℕ) where
    -- `runTask` with the store that it makes.
    unfoldable pub run_remote :
        (t : ExecuteTask)
        → os.State × (clients t.region).State
        → Option (Result AgentError ActionResult × (os.State × (clients t.region).State))
    unfolding run_task
    run_remote t w = run_task sha (task_store t) os directories trees commands config_error fuel t w
