-- ===== src/Tests/Operations.antt =====
-- Operations and executions, over the in-memory store.
use aws_build_farm.Prelude.{
  Option, map, ◌≢◌, Bytes, codes, bytes_eq, ok, err, ◌≡◌, refl, true, false, none, some, [], ◌∷◌,
}
use aws_build_farm.Digest.Laws.{validate-from_bytes}
use aws_build_farm.Digest.{validate, from_bytes, is_empty}
use aws_build_farm.GoText.Hex.{encode}
use aws_build_farm.Proto.{Action}
use aws_build_farm.Cas.Reader.{not_found}
use aws_build_farm.Cas.MemStore.{MemStore, get, get_action_result, put_action_result}
use aws_build_farm.Prelude.Dict.{lookup, insert}
use aws_build_farm.Server.Operation.{Operation, publish, returned, cache_check}
use aws_build_farm.Server.Operation.Watching.{World, Reach, Step, initial, IsAscending}
use aws_build_farm.Server.Operation.Waking.{watch_for, done-returns, sent-IsAscending}
use aws_build_farm.Server.Execution.{operation, result_operation, run_action}
use aws_build_farm.Server.Execution.Updates.{EndsOnce, run_action-EndsOnce}
use aws_build_farm.Server.Execution.Caching.{IsSafeEntry, run_action-IsSafeEntry, run_action-again}
use aws_build_farm.Server.Operation.{new_entry, OpEntry, proceed, Update, advance}
use aws_build_farm.Server.Waiting.{looking, answered, gave_up, wait_step}
use aws_build_farm.Server.Waiting.Answers.{WaitReach, IsAnswered, wait_step-answers}
use aws_build_farm.Server.Status.{Status}
use aws_build_farm.Tests.Sample.{
  toy_sha, store, command_codec, sample_command, true_runner, true_runner-NeverPanics, bare_result,
  hello, hello_digest,
}

abbrev op_name : Bytes
op_name = codes "operations/1"

abbrev sample_action : Action
sample_action = record {
  command_digest = some hello_digest;
  input_root_digest = none;
  timeout = none;
  do_not_cache = false;
}

abbrev with_command : MemStore
with_command = record { blobs = (hello_digest.hash, hello) ∷ []; action = [] }

hello_valid : validate (some hello_digest) ≡ none
hello_valid = validate-from_bytes toy_sha hello

run_action-EndsOnce_example :
    EndsOnce
      (run_action store command_codec true_runner op_name
        (some hello_digest)
        with_command
        false
        sample_action).0
run_action-EndsOnce_example =
    run_action-EndsOnce store command_codec true_runner true_runner-NeverPanics op_name
      (some hello_digest) with_command false sample_action

run_action-IsSafeEntry_example :
    IsSafeEntry store command_codec true_runner op_name
      (some hello_digest)
      sample_action
      with_command
      (run_action store command_codec true_runner op_name
        (some hello_digest)
        with_command
        false
        sample_action).1
      hello_digest.hash
run_action-IsSafeEntry_example =
    run_action-IsSafeEntry store command_codec true_runner op_name (some hello_digest) with_command
      false sample_action hello_digest.hash hello_valid tt

missed : store.get_action_result with_command (some hello_digest) ≡ err not_found
unfolding get_action_result lookup
missed = refl

fetched : store.get with_command (some hello_digest) ≡ ok hello
unfolding get lookup is_empty from_bytes encode bytes_eq
fetched = refl

cached_now : (store.put_action_result with_command (some hello_digest) (bare_result 0)).0 ≡ none
unfolding put_action_result
cached_now = refl

abbrev after_run : MemStore
after_run =
    (run_action store command_codec true_runner op_name (some hello_digest) with_command false
      sample_action).1

hit_again : store.get_action_result after_run (some hello_digest) ≡ ok (bare_result 0)
unfolding run_action get put_action_result get_action_result lookup insert is_empty from_bytes
    encode bytes_eq
hit_again = refl

run_action-again_example :
    run_action store command_codec true_runner op_name
      (some hello_digest)
      after_run
      false
      sample_action
    ≡ (
      operation op_name (some hello_digest) cache_check none
          ∷ result_operation op_name (some hello_digest) true (bare_result 0)
          ∷ [],
      after_run,
    )
run_action-again_example =
    run_action-again store command_codec true_runner op_name (some hello_digest) with_command
      sample_action not_found hello sample_command (bare_result 0) (bare_result 0) hello_valid refl
      missed fetched refl refl refl cached_now hit_again

abbrev pub last_operation : Operation
last_operation = result_operation op_name (some hello_digest) true (bare_result 0)

-- The operation is published before the stream looks at it.
abbrev published : World
published = record initial { entry = publish initial.entry last_operation }

published-Reach : Reach initial published
published-Reach = Reach.next Reach.here (Step.update initial last_operation)

published_done : published.entry.done ≡ true
unfolding publish
published_done = refl

done-returns_example : (watch_for 4 published.entry published.watcher).position ≡ returned none
done-returns_example = done-returns published-Reach published_done (λ s h. cc)

abbrev updated : Operation → World → World
updated op w = record w { entry = publish w.entry op }

abbrev watched : World → World
watched w = record w { watcher = advance w.entry proceed w.watcher }

-- An operation is published and sent, and so is the next one.
abbrev first_sent : World
first_sent =
    watched (watched (updated (operation op_name (some hello_digest) cache_check none) initial))

abbrev both_sent : World
both_sent = watched (watched (watched (updated last_operation first_sent)))

both_sent-Reach : Reach initial both_sent
both_sent-Reach =
    let checking = operation op_name (some hello_digest) cache_check none in
    let u₁ = updated checking initial in
    let u₂ = updated last_operation first_sent in
    Reach.next
      (Reach.next
        (Reach.next
          (Reach.next
            (Reach.next
              (Reach.next (Reach.next Reach.here (Step.update initial checking))
                (Step.watch u₁ proceed))
              (Step.watch (watched u₁) proceed))
            (Step.update first_sent last_operation))
          (Step.watch u₂ proceed))
        (Step.watch (watched u₂) proceed))
      (Step.watch (watched (watched u₂)) proceed)

two_sent : map (λ (u : Update). u.address) both_sent.watcher.sent ≡ 0 ∷ 1 ∷ []
unfolding advance publish
two_sent = refl

sent-IsAscending_example : IsAscending 0 both_sent.watcher.sent both_sent.entry.changed
sent-IsAscending_example = sent-IsAscending both_sent-Reach

abbrev finished_entry : OpEntry
finished_entry = publish new_entry last_operation

wait_reached : WaitReach finished_entry looking
wait_reached = WaitReach.update (WaitReach.start new_entry (refl, refl)) last_operation

wait_step-answers_example :
    ((o : Option Operation) → looking ≡ answered o → IsAnswered finished_entry o)
    × (finished_entry.done ≡ true
        → ((s : Status) → looking ≢ gave_up s)
        → (o : Option Operation) × (wait_step finished_entry proceed
              (wait_step finished_entry proceed looking)
            ≡ answered o)
          × IsAnswered finished_entry o)
wait_step-answers_example = wait_step-answers wait_reached
