-- ===== src/Server/Waiting.antt =====
-- internal/server/operations.go: the loop of WaitOperation, as a machine whose steps interleave with the
-- updates of the entry that it waits for.
pub mod Answers
use aws_build_farm.Prelude.{ltb, if◌then◌else◌, ℕ, Option, none, some, []}
use aws_build_farm.Server.Status.{Status}
use aws_build_farm.Server.Operation.{Operation, Update, OpEntry, Choice, proceed, lost}

-- Before `snapshot`, in `select` on a channel, or after the return with the operation or an error.
pub data WaitPosition : Type 0 where
  looking : WaitPosition
  blocked : ℕ → WaitPosition
  answered : Option Operation → WaitPosition
  gave_up : Status → WaitPosition

abbrev pub operation_of : Option Update → Option Operation
operation_of none = none
operation_of (some u) = some u.operation

-- One step of the loop of `WaitOperation`.
unfoldable pub wait_step : OpEntry → Choice → WaitPosition → WaitPosition
wait_step e c looking = if e.done then answered (operation_of e.latest) else blocked e.changed
wait_step e proceed (blocked ch) = if ltb ch e.changed then looking else blocked ch
wait_step e (lost s) (blocked ch) = gave_up s
wait_step e c (answered o) = answered o
wait_step e c (gave_up s) = gave_up s
