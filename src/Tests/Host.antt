-- ===== src/Tests/Host.antt =====
-- A host that has a small directory, and the encodings of its messages.
use aws_build_farm.Prelude.{
  ◌==◌, if◌then◌else◌, some-injective, Bytes, codes, bytes_eq, ok, err, ◌≡◌, refl, sym, ap, ◌∙◌,
  true, false, Option, none, some, List, [], ◌∷◌,
}
use aws_build_farm.Digest.{from_bytes}
use aws_build_farm.Proto.{Directory, Tree, Codec}
use aws_build_farm.Os.{FileInfo, DirEntry, Os}
use aws_build_farm.GoText.Path.{path_join, clean, render, elements, push}
use aws_build_farm.GoText.Split.{split_on, join_on}
use aws_build_farm.Casfs.Trees.{Entries, end, file, link, dir, Shows}
use aws_build_farm.Tests.Sample.{toy_sha, hello}
use aws_build_farm.Tests.Machines.{single}
use aws_build_farm.Tests.Tasks.{os, Directory-discrete, Tree-discrete, missing}

abbrev pub inside : Entries
inside = link (codes "d") (codes "..") end

-- A file, a link to it, and a directory with a link.
abbrev pub entries : Entries
entries = file (codes "a") hello true (link (codes "b") (codes "a") (dir (codes "c") inside end))

abbrev pub inside_message : Directory
inside_message = record {
  files = [];
  directories = [];
  symlinks = record { name = codes "d"; target = codes ".." } ∷ [];
}

abbrev pub root_message : Directory
root_message = record {
  files =
      record { name = codes "a"; digest = some (from_bytes toy_sha hello); is_executable = true }
      ∷ [];
  directories = record { name = codes "c"; digest = some (from_bytes toy_sha (8 ∷ [])) } ∷ [];
  symlinks = record { name = codes "b"; target = codes "a" } ∷ [];
}

-- Encodings of the two messages, by a byte.
abbrev pub two_marshal : Directory → Option Bytes
two_marshal m = elim (Directory-discrete m inside_message) [
  | yes p ↦ some (8 ∷ [])
  | no n ↦ elim (Directory-discrete m root_message) [ yes p ↦ some (9 ∷ []) | no n' ↦ none ]
]

abbrev pub two_unmarshal : Bytes → Option Directory
two_unmarshal [] = none
two_unmarshal (x ∷ b) = if x == 8 then some inside_message else some root_message

pub two_round_trip : (m : Directory) (b : Bytes) → two_marshal m ≡ some b → two_unmarshal b ≡ some m
two_round_trip m b h =
    elim (Directory-discrete m inside_message)
        as (λ d.
          elim d as (λ _. Option Bytes) [
            | yes p ↦ some (8 ∷ [])
            | no n ↦ elim (Directory-discrete m root_message) [
              | yes p ↦ some (9 ∷ [])
              | no n' ↦ none
            ]
          ]
            ≡ some b
          → two_unmarshal b ≡ some m) [
            | yes p ↦ λ g. ap two_unmarshal (sym (some-injective g)) ∙ ap (λ q. some q) (sym p)
            | no n ↦
                elim (Directory-discrete m root_message)
                  as (λ d.
                    elim d as (λ _. Option Bytes) [ yes p ↦ some (9 ∷ []) | no n' ↦ none ] ≡ some b
                    → two_unmarshal b ≡ some m) [
                      | yes p ↦
                          λ g. ap two_unmarshal (sym (some-injective g)) ∙ ap (λ q. some q) (sym p)
                      | no n' ↦ λ g. absurd (cc)
                    ]
          ]
      h

abbrev pub directories : Codec Directory
directories = record {
  marshal = two_marshal;
  unmarshal = two_unmarshal;
  round_trip = two_round_trip;
}

abbrev pub trees : Codec Tree
trees = single Tree-discrete (record { root = root_message; children = inside_message ∷ [] })

abbrev pub plain_info : FileInfo
plain_info = record { is_symlink = false; is_dir = false; is_executable = true }

abbrev pub link_info : FileInfo
link_info = record { is_symlink = true; is_dir = false; is_executable = true }

abbrev pub dir_info : FileInfo
dir_info = record { is_symlink = false; is_dir = true; is_executable = true }

abbrev pub inner_listing : List DirEntry
inner_listing = record { name = codes "d"; is_dir = false; info = ok link_info } ∷ []

abbrev pub listing : List DirEntry
listing =
    record { name = codes "a"; is_dir = false; info = ok plain_info }
    ∷ record { name = codes "b"; is_dir = false; info = ok link_info }
    ∷ record { name = codes "c"; is_dir = true; info = ok dir_info }
    ∷ []

-- A host that has the directory at `/o`.
abbrev pub host : Os
host = record os {
  read_file = λ s p. if bytes_eq p (codes "/o/a") then ok hello else err missing;
  read_link = λ s p.
      if bytes_eq p (codes "/o/b")
      then ok (codes "a")
      else if bytes_eq p (codes "/o/c/d")
      then ok (codes "..")
      else err missing;
  read_dir = λ s p.
      if bytes_eq p (codes "/o")
      then ok listing
      else if bytes_eq p (codes "/o/c")
      then ok inner_listing
      else err missing;
}

pub entries-Shows : Shows host [] (codes "/o") entries
unfolding path_join clean render elements push split_on join_on bytes_eq
entries-Shows = (
  listing,
  refl,
  (
    _,
    _,
    _,
    refl,
    refl,
    refl,
    refl,
    refl,
    refl,
    refl,
    (
      _,
      _,
      _,
      refl,
      refl,
      refl,
      refl,
      refl,
      (
        _,
        _,
        _,
        inner_listing,
        refl,
        refl,
        refl,
        refl,
        refl,
        refl,
        (_, _, _, refl, refl, refl, refl, refl, refl),
        refl,
      ),
    ),
  ),
)
