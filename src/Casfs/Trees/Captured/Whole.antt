-- ===== src/Casfs/Trees/Captured/Whole.antt =====
-- buildDirectory on a directory of the file system: it makes the directory's message, and the store has its
-- blobs from then on.
use aws_build_farm.Prelude.{
  All, All-append, Bytes, ok, ℕ, ◌≡◌, sym, ap, ◌∙◌, some, List, [], ◌∷◌, ◌++◌, append-nil,
  append_assoc,
}
use aws_build_farm.GoText.Path.{path_join}
use aws_build_farm.Digest.{Sha256, from_bytes}
use aws_build_farm.Proto.{Directory, Tree, Codec}
use aws_build_farm.Os.{DirEntry, Os}
use aws_build_farm.Cas.Interface.{Store}
use aws_build_farm.Casfs.Capture.{sorted, Built, finish_directory, add_directory, build_directory}
use aws_build_farm.Casfs.Trees.{
  Entries, end, file, link, dir, Lists, Shows, blob_of, message, below, blobs, IsEncoded, IsFree,
}
use aws_build_farm.Casfs.Trees.Captured.{Has, Grows, Grows-All, All-split, finish_directory-ok}
use aws_build_farm.Casfs.Trees.Captured.Loop.{build_directory-split}
use aws_build_farm.Casfs.Trees.Captured.Walk.{walk, walk-end, walk-file, walk-link, walk-dir}

module _ (sha : Sha256) (st : Store) (os : Os) (directories : Codec Directory) (trees : Codec Tree)
    (files : os.State) where
  joined : Directory × List Directory → Entries → Directory × List Directory
  joined (d, bl) es =
      let m = message sha directories es in
      (
        record {
          files = d.files ++ m.files;
          directories = d.directories ++ m.directories;
          symlinks = d.symlinks ++ m.symlinks;
        },
        bl ++ below sha directories es,
      )

  module _ (P : Bytes → Type 0) (free : IsFree sha P) where
    Captured : Entries → st.State → st.State → Type 0
    Captured es c c₁ =
        IsEncoded sha directories es
        × All (Has sha st c₁) (blobs sha directories es)
        × Grows sha st P c c₁

    captured :
        (es : Entries) (n : ℕ) (path : Bytes) (listing : List DirEntry) (d : Directory)
        (bl : List Directory) (part : Directory × List Directory) (c c₁ : st.State)
        → Lists os files path listing es
        → All P (blobs sha directories es)
        → walk sha st os directories trees files n path (d, bl) listing c ≡ some (ok part, c₁)
        → (part ≡ joined (d, bl) es) × Captured es c c₁
    unfolding message below joined Captured
    captured end n path listing d bl part c c₁ shown p h =
        let (eq, grows) =
          walk-end sha st os directories trees files P free n path listing (d, bl) part c c₁ shown
            h in
        (
          eq ∙ (λ i. (
            record {
              files = sym (append-nil d.files) i;
              directories = sym (append-nil d.directories) i;
              symlinks = sym (append-nil d.symlinks) i;
            },
            sym (append-nil bl) i,
          )),
          (tt, tt, grows),
        )
    captured (file name b x es) n path listing d bl part c c₁
          (e, info, rest, hl, hn, hi, hs, hd, hx, hr, shown) (p, ps) h =
        let (c₂, h₁, has, grows) =
          walk-file sha st os directories trees files P free n path e info rest d bl part c c₁ name
            b x hn hi hs hd hx hr p
            (ap (λ l. walk sha st os directories trees files n path (d, bl) l c) (sym hl) ∙ h) in
        let (eq, (enc, all, later)) = captured es n path rest _ bl part c₂ c₁ shown ps h₁ in
        (
          eq ∙ (λ i. (
            record {
              files =
                  append_assoc d.files
                    (record { name = name; digest = some (from_bytes sha b); is_executable = x }
                      ∷ [])
                    (message sha directories es).files i;
              directories = d.directories ++ (message sha directories es).directories;
              symlinks = d.symlinks ++ (message sha directories es).symlinks;
            },
            bl ++ below sha directories es,
          )),
          (enc, (later b p has, all), λ b' p' held. later b' p' (grows b' p' held)),
        )
    captured (link name target es) n path listing d bl part c c₁
          (e, info, rest, hl, hn, hi, hs, hr, shown) p h =
        let (c₂, h₁, grows) =
          walk-link sha st os directories trees files P free n path e info rest d bl part c c₁ name
            target hn hi hs hr
            (ap (λ l. walk sha st os directories trees files n path (d, bl) l c) (sym hl) ∙ h) in
        let (eq, (enc, all, later)) = captured es n path rest _ bl part c₂ c₁ shown p h₁ in
        (
          eq ∙ (λ i. (
            record {
              files = d.files ++ (message sha directories es).files;
              directories = d.directories ++ (message sha directories es).directories;
              symlinks =
                  append_assoc d.symlinks (record { name = name; target = target } ∷ [])
                    (message sha directories es).symlinks i;
            },
            bl ++ below sha directories es,
          )),
          (enc, all, λ b' p' held. later b' p' (grows b' p' held)),
        )
    captured (dir name sub es) n path listing d bl part c c₁
          (e, info, rest, inner, hl, hn, hi, hs, hd, hr, below_shown, shown) p h =
        let (child, c₂, eb, h₁) =
          walk-dir sha st os directories trees files P free n path e info rest (d, bl) part c c₁
            name hn hi hs hd
            (ap (λ l. walk sha st os directories trees files n path (d, bl) l c) (sym hl) ∙ h) in
        let full = path_join (path ∷ name ∷ []) in
        let blob = blob_of directories (message sha directories sub) in
        let (ps, (pb, pe)) =
          All-split P (blobs sha directories sub) (blob ∷ blobs sha directories es) p in
        let (m, inside, c₃, ef, hf) =
          build_directory-split sha st os directories trees files n full c c₂ child inner hr eb in
        let (eq', (enc', all', later')) =
          captured sub m full inner _ [] inside c c₃ below_shown ps ef in
        let (made, enc₁, has₁, later₁) =
          finish_directory-ok sha st os directories trees files P free (message sha directories sub)
            (below sha directories sub) c₃ c₂ child pb
            (ap (λ q. finish_directory sha st os directories trees files q c₃) (sym eq') ∙ hf) in
        let (eq, (enc, all, later)) = captured es n path rest _ _ part c₂ c₁ shown pe h₁ in
        (
          eq
              ∙ ap (λ q. joined (add_directory sha st os directories trees files (d, bl) name q) es)
                  made
              ∙ (λ i. (
                record {
                  files = d.files ++ (message sha directories es).files;
                  directories =
                      append_assoc d.directories
                        (record { name = name; digest = some (from_bytes sha blob) } ∷ [])
                        (message sha directories es).directories i;
                  symlinks = d.symlinks ++ (message sha directories es).symlinks;
                },
                append_assoc bl (sorted (message sha directories sub) ∷ below sha directories sub)
                    (below sha directories es) i,
              )),
          (
            (enc₁, (enc', enc)),
            All-append (Has sha st c₁) (blobs sha directories sub) (blob ∷ blobs sha directories es)
                (Grows-All sha st P c₂ c₁ _ later ps (Grows-All sha st P c₃ c₂ _ later₁ ps all'))
                (later blob pb has₁, all),
            λ b' p' held. later b' p' (later₁ b' p' (later' b' p' held)),
          ),
        )

    -- A directory of the file system that is built without an error gives its message, sorted, with the
    -- digest of its encoding and the messages of the directories below it, and the store has all its blobs.
    pub build_directory-Captured :
        (es : Entries) (n : ℕ) (path : Bytes) (c c₁ : st.State) (built : Built)
        → Shows os files path es
        → All P (blobs sha directories es)
        → P (blob_of directories (message sha directories es))
        → build_directory sha st os directories trees files n path c ≡ some (ok built, c₁)
        → (built ≡ record {
          directory = sorted (message sha directories es);
          digest = some (from_bytes sha (blob_of directories (message sha directories es)));
          descendants = below sha directories es;
        })
          × (directories.marshal (sorted (message sha directories es))
              ≡ some (blob_of directories (message sha directories es)))
          × IsEncoded sha directories es
          × Has sha st c₁ (blob_of directories (message sha directories es))
          × All (Has sha st c₁) (blobs sha directories es)
    unfolding joined Captured
    build_directory-Captured es n path c c₁ built (listing, read, shown) ps pb h =
        let (m, part, c', ef, hf) =
          build_directory-split sha st os directories trees files n path c c₁ built listing read
            h in
        let (eq, (enc, all, later)) = captured es m path listing _ [] part c c' shown ps ef in
        let (made, enc₁, has, later₁) =
          finish_directory-ok sha st os directories trees files P free (message sha directories es)
            (below sha directories es) c' c₁ built pb
            (ap (λ q. finish_directory sha st os directories trees files q c') (sym eq) ∙ hf) in
        (made, enc₁, enc, has, Grows-All sha st P c' c₁ _ later₁ ps all)
