-- ===== src/Server/Tree.antt =====
-- internal/server/cas_service.go: the handler GetTree. Its loop ends when the queue is empty, which a
-- store that holds a cycle of directories never lets happen, so the model has fuel: one step a directory.
pub mod Pages
use aws_build_farm.Prelude.{
  ltb, leb, if◌then◌else◌, length, Result, ok, err, panic, ℕ, zero, suc, Option, none, some, List,
  [], ◌∷◌, ◌++◌, map,
}
use aws_build_farm.Digest.{DigestRef, key}
use aws_build_farm.Proto.{Directory, DirectoryNode, Codec}
use aws_build_farm.Cas.Reader
use aws_build_farm.Cas.Interface.{Store}
use aws_build_farm.Server.Status.{
  Code, Status, status, Stream, send, directory_not_found, read_directory, unmarshal_directory,
}

abbrev pub page_size : ℕ
page_size = 100

decoded_directory : DigestRef → Option Directory → Result Status Directory
decoded_directory d none = err (status Code.internal (unmarshal_directory (key d)))
decoded_directory d (some dir) = ok dir

-- The queue grows by the directories of the directory just read.
abbrev pub sub_digests : Directory → List DigestRef
sub_digests dir = map (λ (node : DirectoryNode). node.digest) dir.directories

-- What is left of the page and the stream, and the error of `Send`, when the page is full.
unfoldable pub flush_full :
    List Directory
    → Stream (List Directory)
    → Option Status × List Directory × Stream (List Directory)
flush_full page stream =
    if leb page_size (length page)
    then (let sent = send stream page in (sent.0, [], sent.1))
    else (none, page, stream)

-- `if len(page.Directories) > 0 { … }` and the return that follows.
unfoldable pub flush_last :
    List Directory → Stream (List Directory) → Result Status (Unit {0}) × Stream (List Directory)
flush_last page stream =
    if ltb 0 (length page)
    then (let sent = send stream page in
        elim sent.0 [ some e ↦ (err e, sent.1) | none ↦ (ok tt, sent.1) ])
    else (ok tt, stream)

module _ (st : Store) (codec : Codec Directory) where
  -- One turn's read of a directory.
  unfoldable pub fetch_directory : st.State → DigestRef → Result Status Directory
  unfolding decoded_directory
  fetch_directory s d = elim (st.get s d) [
    | ok b ↦ decoded_directory d (codec.unmarshal b)
    | err Reader.not_found ↦ err (status Code.not_found (directory_not_found (key d)))
    | err e ↦ err (status Code.internal (read_directory (key d) e))
    | panic ↦ panic
  ]

  -- The loop, with the queue and the page. `none` is a loop that has not ended within the fuel.
  unfoldable pub walk :
      ℕ
      → st.State
      → List DigestRef
      → List Directory
      → Stream (List Directory)
      → Option (Result Status (Unit {0}) × Stream (List Directory))
  walk zero s queue page stream = none
  walk (suc n) s [] page stream = some (flush_last page stream)
  walk (suc n) s (d ∷ queue) page stream = elim (fetch_directory s d) [
    | ok dir ↦
        let flushed = flush_full (page ++ dir ∷ []) stream in
        elim flushed.0 [
          | some e ↦ some (err e, flushed.2)
          | none ↦ walk n s (queue ++ sub_digests dir) flushed.1 flushed.2
        ]
    | err e ↦ some (err e, stream)
    | panic ↦ some (panic, stream)
  ]

  -- `GetTree`.
  unfoldable pub get_tree :
      ℕ
      → st.State
      → DigestRef
      → Stream (List Directory)
      → Option (Result Status (Unit {0}) × Stream (List Directory))
  get_tree fuel s root stream = walk fuel s (root ∷ []) [] stream
