-- ===== src/Tests/Restored.antt =====
-- A small directory that is captured on one host and made on another, and the theorems about it.
use aws_build_farm.Prelude.{
  length, ◌+◌, ◌<◌, arith, All, after, Bytes, codes, bytes_eq, bytes_eq_iff, Result, ok, ◌≡◌, refl,
  Bool, true, not, ◌&&◌, ◌||◌, Option, none, some, List, [], ◌∷◌,
}
use native.Mathlib.Decide.{ℕ_discrete}
use aws_build_farm.Digest.{from_bytes, is_empty, empty_hash}
use aws_build_farm.Proto.{OutputDirectory, Directory}
use aws_build_farm.GoText.Path.{path_join, clean, render, elements, push}
use aws_build_farm.GoText.Split.{split_on, join_on}
use aws_build_farm.GoText.Hex.{encode}
use aws_build_farm.Cas.MemStore
use aws_build_farm.Cas.MemStore.{new_mem_store, MemStore}
use aws_build_farm.Casfs.Capture.{
  CaptureError, capture_directory, sorted, sort_by_name, insert_by_name, bytes_lt,
}
use aws_build_farm.Casfs.Materialize.{materialize, check_name}
use aws_build_farm.Casfs.Trees.{
  IsListed, IsNamed, IsEncoded, blob_of, message, below, make, make_files, make_links,
}
use aws_build_farm.Casfs.Trees.Captured.{Has, Serves}
use aws_build_farm.Casfs.Trees.RoundTrip.{
  tree_of, tree_blob, all_blobs, HaveHashes, capture_directory-Captured,
  capture_directory-materialize,
}
use mathlib.Core.List.{Perm}
use aws_build_farm.Casfs.Trees.Served.{capture_directory-get_tree}
use aws_build_farm.Server.Status.{Stream}
use aws_build_farm.Server.Tree.{get_tree}
use aws_build_farm.Server.Tree.Pages.{IsSent}
use aws_build_farm.Tests.Sample.{toy_sha, store, hello}
use aws_build_farm.Tests.Tasks.{os, Directory-discrete, Tree-discrete}
use aws_build_farm.Tests.Host.{entries, directories, trees, host, entries-Shows}

-- Whether the hash of a blob tells it from others.
abbrev is_told : Bytes → List Bytes → Bool
is_told a [] = true
is_told a (b ∷ bs) =
    (bytes_eq a b || not (bytes_eq (from_bytes toy_sha a).hash (from_bytes toy_sha b).hash))
    && is_told a bs

abbrev are_told : List Bytes → List Bytes → Bool
are_told [] bs = true
are_told (a ∷ rest) bs = is_told a bs && are_told rest bs

is_told-All :
    (a : Bytes) (bs : List Bytes)
    → is_told a bs ≡ true
    → All (λ b. (from_bytes toy_sha a).hash ≡ (from_bytes toy_sha b).hash → a ≡ b) bs
is_told-All a [] h = tt
is_told-All a (b ∷ bs) h = (
  (λ e. ground (
    arith,
    h,
    e,
    bytes_eq_iff a b,
    bytes_eq_iff (from_bytes toy_sha a).hash (from_bytes toy_sha b).hash,
  )),
  is_told-All a bs (ground (arith, h)),
)

are_told-All :
    (rest bs : List Bytes)
    → are_told rest bs ≡ true
    → All
        (λ a. All (λ b. (from_bytes toy_sha a).hash ≡ (from_bytes toy_sha b).hash → a ≡ b) bs)
        rest
are_told-All [] bs h = tt
are_told-All (a ∷ rest) bs h =
    (is_told-All a bs (ground (arith, h)), are_told-All rest bs (ground (arith, h)))

told :
    are_told ([] ∷ (9 ∷ []) ∷ hello ∷ (8 ∷ []) ∷ []) ([] ∷ (9 ∷ []) ∷ hello ∷ (8 ∷ []) ∷ []) ≡ true
unfolding from_bytes encode bytes_eq
told = refl

entries-HaveHashes : HaveHashes toy_sha (all_blobs toy_sha directories trees entries)
unfolding from_bytes encode message blob_of sorted sort_by_name insert_by_name Directory-discrete
    Tree-discrete ℕ_discrete below empty_hash
entries-HaveHashes =
    are_told-All ([] ∷ (9 ∷ []) ∷ hello ∷ (8 ∷ []) ∷ []) ([] ∷ (9 ∷ []) ∷ hello ∷ (8 ∷ []) ∷ [])
      told

abbrev pub captured : Option (Result CaptureError OutputDirectory × MemStore)
captured =
    capture_directory toy_sha store host directories trees [] 2 (codes "out") (codes "/o")
      new_mem_store

abbrev pub state_of : Option (Result CaptureError OutputDirectory × MemStore) → MemStore
state_of none = new_mem_store
state_of (some (r, c)) = c

abbrev answered : OutputDirectory
answered = record {
  path = codes "out";
  tree_digest = some (from_bytes toy_sha []);
  root_directory_digest = some (from_bytes toy_sha (9 ∷ []));
}

capture_ok : captured ≡ some (ok answered, state_of captured)
unfolding capture_directory Directory-discrete after bytes_eq path_join clean render elements
    split_on push join_on MemStore.put is_empty from_bytes ℕ_discrete encode Tree-discrete
    empty_hash
capture_ok = refl

mem_store-Serves : (c : MemStore) → Serves toy_sha store c
unfolding MemStore.get
mem_store-Serves c d b h = ground (arith, h)

entries-IsListed : IsListed entries
unfolding bytes_lt
entries-IsListed = ((refl, (refl, tt)), ((refl, tt), (tt, ((tt, tt), tt))))

entries-IsNamed : IsNamed entries
unfolding check_name bytes_eq
entries-IsNamed = (refl, (refl, (refl, ((refl, tt), tt))))

capture_directory-Captured_example :
    (answered ≡ record {
      path = codes "out";
      tree_digest = some (from_bytes toy_sha (tree_blob toy_sha directories trees entries));
      root_directory_digest =
          some (from_bytes toy_sha (blob_of directories (message toy_sha directories entries)));
    })
    × (trees.unmarshal (tree_blob toy_sha directories trees entries)
        ≡ some (tree_of toy_sha directories trees entries))
    × (directories.marshal (sorted (message toy_sha directories entries))
        ≡ some (blob_of directories (message toy_sha directories entries)))
    × IsEncoded toy_sha directories entries
    × All (Has toy_sha store (state_of captured)) (all_blobs toy_sha directories trees entries)
capture_directory-Captured_example =
    capture_directory-Captured toy_sha store host directories trees [] entries 2 (codes "out")
      (codes "/o") new_mem_store (state_of captured) answered entries-Shows entries-HaveHashes
      capture_ok

capture_directory-materialize_example :
    materialize store os directories
      (state_of captured)
      2
      answered.root_directory_digest
      (codes "/w")
      []
    ≡ make os entries (codes "/w") []
capture_directory-materialize_example =
    capture_directory-materialize toy_sha store host directories trees [] entries 2 1 (codes "out")
      (codes "/o") new_mem_store (state_of captured) answered os (codes "/w") [] entries-Shows
      entries-IsListed entries-IsNamed (tt, tt) entries-HaveHashes capture_ok
      (mem_store-Serves (state_of captured))

-- The paths that are made, the last first.
made :
    make os entries (codes "/w") []
    ≡ some (ok tt, codes "/w/c/d" ∷ codes "/w/c" ∷ codes "/w/b" ∷ codes "/w/a" ∷ codes "/w" ∷ [])
unfolding make after path_join clean render elements push split_on join_on bytes_eq make_files
    make_links
made = refl

two_fit : length (below toy_sha directories entries) + 1 < 3
unfolding below
two_fit = omega arith

abbrev client : Stream (List Directory)
client = record { sent = []; fault = λ n. none }

capture_directory-get_tree_example :
    (dirs : List Directory) × Perm dirs (
      (tree_of toy_sha directories trees entries).root
      ∷ (tree_of toy_sha directories trees entries).children)
    × IsSent dirs
        (get_tree store directories 3 (state_of captured) answered.root_directory_digest client)
capture_directory-get_tree_example =
    capture_directory-get_tree toy_sha store host directories trees [] entries 2 (codes "out")
      (codes "/o") new_mem_store (state_of captured) answered 3 client entries-Shows
      entries-IsListed entries-HaveHashes capture_ok (mem_store-Serves (state_of captured)) two_fit
      (λ n. refl) refl
