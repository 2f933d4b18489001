-- ===== src/Server/Operation.antt =====
-- internal/server/operations.go: the entry of an operation, and the streams that watch it.
pub mod Watching
pub mod Waking
use aws_build_farm.Prelude.{
  ltb, ◌==◌, if◌then◌else◌, Bytes, ℕ, ◌+◌, Bool, true, false, not, Option, none, some, List, [],
  ◌∷◌, ◌++◌,
}
use aws_build_farm.Digest.{DigestRef}
use aws_build_farm.Proto.{ActionResult}
use aws_build_farm.Server.Status.{Status}

-- The stages of an execution that the server reports.
pub data Stage : Type 0 where
  cache_check executing completed : Stage

pub record ExecuteResponse : Type 0 where
  pub result : Option ActionResult
  pub cached_result : Bool
  pub status : Status

-- `longrunningpb.Operation`, with its metadata and its response unpacked.
pub record Operation : Type 0 where
  pub name : Bytes
  pub stage : Stage
  pub action_digest : DigestRef
  pub done : Bool
  pub response : Option ExecuteResponse

-- An operation at its address: the server allocates one for each update, so that addresses differ.
pub record Update : Type 0 where
  pub address : ℕ
  pub operation : Operation

-- `opEntry`. The channels of an entry are numbered in the order of their creation: the current one is
-- `changed`, and those below it are closed.
pub record OpEntry : Type 0 where
  pub latest : Option Update
  pub done : Bool
  pub cancelled : Bool
  pub changed : ℕ

-- The entry that `New` registers.
abbrev pub new_entry : OpEntry
new_entry = record { latest = none; done = false; cancelled = false; changed = 0 }

-- `publish`: the latest operation is replaced, the channel closed and a new one made, unless the
-- entry is done.
unfoldable pub publish : OpEntry → Operation → OpEntry
publish e op = if e.done then e else record e {
  latest = some (record { address = e.changed; operation = op });
  done = op.done;
  changed = e.changed + 1;
}

-- Where the loop of `stream` stands: before `snapshot`, before `Send` with what the snapshot gave,
-- in `select` on a channel, or after its return with an error or nil.
pub data Position : Type 0 where
  snapshot : Position
  sending : Update → Bool → ℕ → Position
  waiting : ℕ → Position
  returned : Option Status → Position

pub record Watcher : Type 0 where
  pub position : Position
  pub last_sent : Option ℕ
  pub sent : List Update

abbrev pub new_watcher : Watcher
new_watcher = record { position = snapshot; last_sent = none; sent = [] }

-- What the environment decides at a step: the call goes well, or the connection is lost.
pub data Choice : Type 0 where
  proceed : Choice
  lost : Status → Choice

-- `op != nil && op != lastSent`
abbrev pub is_news : Option ℕ → ℕ → Bool
is_news none a = true
is_news (some b) a = not (a == b)

abbrev look : Option Update → Bool → ℕ → Watcher → Watcher
look none done ch w = record w { position = waiting ch }
look (some u) done ch w =
    if is_news w.last_sent u.address
    then record w { position = sending u done ch }
    else record w { position = waiting ch }

abbrev step_from : Position → OpEntry → Choice → Watcher → Watcher
step_from snapshot e c w = look e.latest e.done e.changed w
step_from (sending u done ch) e proceed w = record {
  position = if done then returned none else waiting ch;
  last_sent = some u.address;
  sent = w.sent ++ u ∷ [];
}
step_from (sending u done ch) e (lost s) w = record w { position = returned (some s) }
step_from (waiting ch) e proceed w =
    if ltb ch e.changed then record w { position = snapshot } else w
step_from (waiting ch) e (lost s) w = record w { position = returned (some s) }
step_from (returned r) e c w = w

-- One step of the loop of `stream`.
unfoldable pub advance : OpEntry → Choice → Watcher → Watcher
advance e c w = step_from w.position e c w
