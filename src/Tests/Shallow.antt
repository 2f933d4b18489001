-- ===== src/Tests/Shallow.antt =====
-- A task on a host with a directory.
use aws_build_farm.Prelude.{
  some-injective, ok-injective, pos, ap, ◌∙◌, if◌then◌else◌, Bool-cases, inl, inr, err, sym, arith,
  All, after, Returns, codes, bytes_eq, bytes_eq_iff, ok, ◌≡◌, refl, true, some, [], ◌∷◌,
}
use native.Mathlib.Decide.{ℕ_discrete}
use aws_build_farm.Digest.{from_bytes, is_empty, empty_hash}
use aws_build_farm.Proto.{Directory, DirectoryNode}
use aws_build_farm.Os.{DirEntry, Os}
use aws_build_farm.Task.{ExecuteTask}
use aws_build_farm.Prelude.Dict.{lookup, insert}
use aws_build_farm.GoText.Path.{path_join, clean, render, elements, push}
use aws_build_farm.GoText.Split.{split_on, join_on}
use aws_build_farm.GoText.Hex.{encode}
use aws_build_farm.Cas.MemStore
use aws_build_farm.Cas.MemStore.{MemStore}
use aws_build_farm.Casfs.Capture.{capture_directory}
use aws_build_farm.Casfs.Trees.Ends.{IsBounded}
use mathlib.Core.Path.{subst}
use aws_build_farm.Agent.Work.{run_task}
use aws_build_farm.Agent.Outputs.Ends.{IsShallow}
use aws_build_farm.Agent.Work.Ends.{run_task-Returns}
use aws_build_farm.Casfs.Materialize.Levels.{HasDepth}
use aws_build_farm.Tests.Tasks.{commands, no_error, task, missing}
use aws_build_farm.Tests.Sample.{toy_sha, store}
use aws_build_farm.Tests.Tasks.{Directory-discrete, Tree-discrete}
use aws_build_farm.Tests.Host.{dir_info, two_unmarshal, directories, trees, host}
use aws_build_farm.Tests.Restored.{captured, state_of}

-- A host of which one directory can be asked for, and of which no file can be read.
abbrev asked_host : Os
asked_host = record host {
  lstat = λ s p. if bytes_eq p (codes "/o") then ok dir_info else err missing;
  read_file = λ s p. err missing;
}

asked-IsBounded : (s : asked_host.State) → IsBounded asked_host s 2 (codes "/o")
unfolding path_join clean render elements push split_on join_on bytes_eq
asked-IsBounded s found read =
    subst
      (All (λ (e : DirEntry).
        e.is_dir ≡ true → IsBounded asked_host s 1 (path_join (codes "/o" ∷ e.name ∷ []))))
      (ok-injective read)
      (
        (λ h. cc),
        (
          (λ h. cc),
          (
            (λ h below below_read.
                subst
                  (All (λ (e : DirEntry).
                    e.is_dir ≡ true
                    → IsBounded asked_host s 0 (path_join (codes "/o/c" ∷ e.name ∷ []))))
                  (ok-injective below_read) ((λ no. cc), tt)),
            tt,
          ),
        ),
      )

asked-IsShallow : IsShallow asked_host 2
asked-IsShallow s path info stat no_link is_dir = elim (Bool-cases (bytes_eq path (codes "/o"))) [
  | inl e ↦
      subst (IsBounded asked_host s 2) (sym ((bytes_eq_iff path (codes "/o")).0 e))
        (asked-IsBounded s)
  | inr e ↦ absurd (ground (arith, e, stat))
]

-- The task has the captured sub-directory as its input root.
abbrev inner_task : ExecuteTask
inner_task = record task {
  input_root_hash = (from_bytes toy_sha (8 ∷ [])).hash;
  input_root_size = pos 1;
}

inner_fetched :
    store.get
      (state_of captured)
      (some (record { hash = inner_task.input_root_hash; size_bytes = inner_task.input_root_size }))
    ≡ ok (8 ∷ [])
unfolding MemStore.get capture_directory Directory-discrete after bytes_eq path_join clean render
    elements split_on push join_on MemStore.put is_empty from_bytes ℕ_discrete encode Tree-discrete
    empty_hash lookup insert
inner_fetched = refl

inner-HasDepth :
    HasDepth store asked_host directories
      (state_of captured)
      2
      (some (record { hash = inner_task.input_root_hash; size_bytes = inner_task.input_root_size }))
inner-HasDepth b d got made =
    subst
      (λ (x : Directory).
        All
          (λ (sub : DirectoryNode).
            HasDepth store asked_host directories (state_of captured) 1 sub.digest)
          x.directories)
      (some-injective (ap two_unmarshal (ok-injective (sym inner_fetched ∙ got)) ∙ made)) tt

run_task-Returns_example : Returns (
    run_task toy_sha store asked_host directories trees commands no_error 2 inner_task
      ([], state_of captured))
run_task-Returns_example =
    run_task-Returns toy_sha store asked_host directories trees 2 asked-IsShallow commands no_error
      inner_task ([], state_of captured) inner-HasDepth
