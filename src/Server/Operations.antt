-- ===== src/Server/Operations.antt =====
-- internal/server/operations.go: the manager of operations and the handlers of the Operations service;
-- and Execute and WaitExecution of internal/server/execution.go up to the stream. An entry is shared by
-- the map and by the streams and executions that watch or update it, so entries stand in a store of their
-- own, and the map holds references: deleting a name leaves the entry to those that hold it.
pub mod Entries
pub mod Listing
use aws_build_farm.Prelude.{
  length, get_elem?, set, Bytes, Result, ok, err, panic, ◌>>=◌, ℕ, Bool, true, Option, none, some,
  List, [], ◌∷◌, ◌++◌,
}
use aws_build_farm.Prelude.Dict.{Dict, lookup, insert, remove}
use aws_build_farm.Proto.{Action, Codec}
use aws_build_farm.Cas.Interface.{Store}
use aws_build_farm.Server.Status.{Code, Status, status, no_operation, operation_without_state}
use aws_build_farm.Server.Operation.{Operation, OpEntry, Update, new_entry, publish}
use aws_build_farm.Server.Execution.{ExecuteRequest, start_execute}

-- `OperationManager`, with the entries that were ever made.
pub record Manager : Type 0 where
  pub ops : Dict ℕ
  pub entries : List OpEntry

-- `NewOperationManager`.
abbrev pub new_manager : Manager
new_manager = record { ops = []; entries = [] }

-- `New`: the reference of the entry. The name comes from `uuid.NewString`.
unfoldable pub new_operation : Bytes → Manager → ℕ × Manager
new_operation name m = (
  length m.entries,
  record { ops = insert name (length m.entries) m.ops; entries = m.entries ++ new_entry ∷ [] },
)

-- `lookup`.
abbrev pub lookup_entry : Manager → Bytes → Result Status ℕ
lookup_entry m name = elim (lookup name m.ops) [
  | some i ↦ ok i
  | none ↦ err (status Code.not_found (no_operation name))
]

-- An entry that some reference points to.
abbrev pub entry_at : Manager → ℕ → Result Status OpEntry
entry_at m i = elim (get_elem? m.entries i) [ some e ↦ ok e | none ↦ panic ]

abbrev pub latest_of : Bytes → Option Update → Result Status Operation
latest_of name none = err (status Code.not_found (operation_without_state name))
latest_of name (some u) = ok u.operation

-- `GetOperation`.
unfoldable pub get_operation : Manager → Bytes → Result Status Operation
get_operation m name = do i ← lookup_entry m name; e ← entry_at m i; latest_of name e.latest

-- What the loop of `ListOperations` adds for an entry.
abbrev pub add_latest : Option Update → List Operation → List Operation
add_latest none ops = ops
add_latest (some u) ops = u.operation ∷ ops

-- `ListOperations`, where `range` visits the map in this order.
unfoldable pub list_operations : Manager → Dict ℕ → Result Status (List Operation)
list_operations m [] = ok []
list_operations m ((name, i) ∷ order) = do
  e ← entry_at m i
  ops ← list_operations m order
  ok (add_latest e.latest ops)

-- `DeleteOperation`.
unfoldable pub delete_operation : Manager → Bytes → Result Status (Unit {0}) × Manager
delete_operation m name = elim (lookup name m.ops) [
  | some i ↦ (ok tt, record m { ops = remove name m.ops })
  | none ↦ (err (status Code.not_found (no_operation name)), m)
]

abbrev cancel_entry : OpEntry → OpEntry
cancel_entry e = record e { cancelled = true }

-- An update of the entry behind a reference.
abbrev update_entry : (OpEntry → OpEntry) → ℕ → Manager → Manager
update_entry f i m = elim (get_elem? m.entries i) [
  | some e ↦ record m { entries = set m.entries i (f e) }
  | none ↦ m
]

-- `CancelOperation`: the context of the run is cancelled, and nothing is published here.
unfoldable pub cancel_operation : Manager → Bytes → Result Status (Unit {0}) × Manager
cancel_operation m name = elim (lookup name m.ops) [
  | some i ↦ (ok tt, update_entry cancel_entry i m)
  | none ↦ (err (status Code.not_found (no_operation name)), m)
]

-- `entry.publish(op)` of a run, which holds the reference.
unfoldable pub publish_at : ℕ → Manager → Operation → Manager
publish_at i m op = update_entry (λ e. publish e op) i m

module _ (st : Store) (codec : Codec Action) where
  -- Execute up to the start of the run and the stream: the action, and the reference of the entry.
  unfoldable pub execute :
      Bool → Bytes → st.State → Manager → ExecuteRequest → Result Status (Action × ℕ) × Manager
  execute enabled name s m req = elim (start_execute st codec enabled s req) [
    | ok action ↦ let made = new_operation name m in (ok (action, made.0), made.1)
    | err e ↦ (err e, m)
    | panic ↦ (panic, m)
  ]

-- WaitExecution up to the stream: the entry to watch.
unfoldable pub wait_execution : Manager → Bytes → Result Status ℕ
wait_execution m name = lookup_entry m name
