-- ===== src/Casfs/Trees/Captured/Walk.antt =====
-- The rounds of the loop of buildDirectory on a directory of the file system: what is left to do after each.
use aws_build_farm.Prelude.{
  after, after-ok, fold_calls, Bytes, Result, ok, ℕ, ◌≡◌, sym, ap, ◌∙◌, Bool, true, false, Option,
  some, List, [], ◌∷◌, ◌++◌,
}
use mathlib.Core.Path.{subst}
use aws_build_farm.GoText.Path.{path_join}
use aws_build_farm.Digest.{Sha256, from_bytes}
use aws_build_farm.Proto.{Directory, Tree, Codec}
use aws_build_farm.Os.{FileInfo, DirEntry, Os}
use aws_build_farm.Cas.Interface.{Store}
use aws_build_farm.Casfs.Capture.{CaptureError, Built, add_directory, add_entry, build_directory}
use aws_build_farm.Casfs.Trees.{IsFree}
use aws_build_farm.Casfs.Trees.Captured.{Has, Grows, add_file-ok, add_symlink-ok}
use aws_build_farm.Casfs.Trees.Captured.Loop.{add_entry-file, add_entry-link, add_entry-dir}

module _ (sha : Sha256) (st : Store) (os : Os) (directories : Codec Directory) (trees : Codec Tree)
    (files : os.State) where
  abbrev pub walk :
      ℕ
      → Bytes
      → Directory × List Directory
      → List DirEntry
      → st.State
      → Option (Result CaptureError (Directory × List Directory) × st.State)
  walk n path = fold_calls (
      add_entry sha st os directories trees files
        (build_directory sha st os directories trees files n) path)

  module _ (P : Bytes → Type 0) (free : IsFree sha P) where
    pub walk-end :
        (n : ℕ) (path : Bytes) (listing : List DirEntry) (start part : Directory × List Directory)
        (c c₁ : st.State)
        → listing ≡ []
        → walk n path start listing c ≡ some (ok part, c₁)
        → (part ≡ start) × Grows sha st P c c₁
    walk-end n path [] start part c c₁ e h =
        let left : c ≡ c₁ = cc in (cc, subst (λ q. Grows sha st P c q) left (λ b p held. held))
    walk-end n path (x ∷ listing) start part c c₁ e h = cc

    pub walk-file :
        (n : ℕ) (path : Bytes) (e : DirEntry) (info : FileInfo) (rest : List DirEntry)
        (d : Directory) (bl : List Directory) (part : Directory × List Directory) (c c₁ : st.State)
        (name b : Bytes) (x : Bool)
        → e.name ≡ name
        → e.info ≡ ok info
        → info.is_symlink ≡ false
        → e.is_dir ≡ false
        → info.is_executable ≡ x
        → os.read_file files (path_join (path ∷ name ∷ [])) ≡ ok b
        → P b
        → walk n path (d, bl) (e ∷ rest) c ≡ some (ok part, c₁)
        → (c₂ : st.State) × (walk n path
              (
                record d {
                  files =
                      d.files
                      ++ record { name = name; digest = some (from_bytes sha b); is_executable = x }
                        ∷ [];
                },
                bl,
              )
              rest
              c₂
            ≡ some (ok part, c₁))
          × Has sha st c₂ b
          × Grows sha st P c c₂
    walk-file n path e info rest d bl part c c₁ name b x hn hi hs hd hx hr p h =
        let (part₁, c₂, ea, h₁) =
          after-ok
            (add_entry sha st os directories trees files
              (build_directory sha st os directories trees files n) path (d, bl) e c)
            _ part c₁ h in
        let (eq, has, grows) =
          add_file-ok sha st os directories trees files P free (path_join (path ∷ e.name ∷ [])) d bl
            e.name b info.is_executable c c₂ part₁
            (ap (λ m. os.read_file files (path_join (path ∷ m ∷ []))) hn ∙ hr) p
            (sym (
                add_entry-file sha st os directories trees files
                  (build_directory sha st os directories trees files n) path (d, bl) e info c hi hs
                  hd)
              ∙ ea) in
        (
          c₂,
          (λ i.
                walk n path
                  (sym
                    (eq ∙ (λ i. (
                      record d {
                        files =
                            d.files
                            ++ record {
                              name = hn i;
                              digest = some (from_bytes sha b);
                              is_executable = hx i;
                            }
                              ∷ [];
                      },
                      bl,
                    )))
                    i)
                  rest c₂)
              ∙ h₁,
          has,
          grows,
        )

    pub walk-link :
        (n : ℕ) (path : Bytes) (e : DirEntry) (info : FileInfo) (rest : List DirEntry)
        (d : Directory) (bl : List Directory) (part : Directory × List Directory) (c c₁ : st.State)
        (name target : Bytes)
        → e.name ≡ name
        → e.info ≡ ok info
        → info.is_symlink ≡ true
        → os.read_link files (path_join (path ∷ name ∷ [])) ≡ ok target
        → walk n path (d, bl) (e ∷ rest) c ≡ some (ok part, c₁)
        → (c₂ : st.State) × (walk n path
              (
                record d { symlinks = d.symlinks ++ record { name = name; target = target } ∷ [] },
                bl,
              )
              rest
              c₂
            ≡ some (ok part, c₁))
          × Grows sha st P c c₂
    walk-link n path e info rest d bl part c c₁ name target hn hi hs hr h =
        let build = build_directory sha st os directories trees files n in
        let full = path_join (path ∷ e.name ∷ []) in
        let (part₁, c₂, ea, h₁) =
          after-ok (add_entry sha st os directories trees files build path (d, bl) e c) _ part c₁
            h in
        let (eq, grows) =
          add_symlink-ok sha st os directories trees files P free full d bl e.name target c c₂ part₁
            (ap (λ m. os.read_link files (path_join (path ∷ m ∷ []))) hn ∙ hr)
            (sym
                (add_entry-link sha st os directories trees files build path (d, bl) e info c hi hs)
              ∙ ea) in
        let made : part₁ ≡ (
          record d { symlinks = d.symlinks ++ record { name = name; target = target } ∷ [] },
          bl,
        ) =
          eq ∙ (λ i. (
            record d { symlinks = d.symlinks ++ record { name = hn i; target = target } ∷ [] },
            bl,
          )) in
        (c₂, (λ i. walk n path (sym made i) rest c₂) ∙ h₁, grows)

    pub walk-dir :
        (n : ℕ) (path : Bytes) (e : DirEntry) (info : FileInfo) (rest : List DirEntry)
        (start part : Directory × List Directory) (c c₁ : st.State) (name : Bytes)
        → e.name ≡ name
        → e.info ≡ ok info
        → info.is_symlink ≡ false
        → e.is_dir ≡ true
        → walk n path start (e ∷ rest) c ≡ some (ok part, c₁)
        → (child : Built) × (c₂ : st.State) × (build_directory sha st os directories trees files n
              (path_join (path ∷ name ∷ []))
              c
            ≡ some (ok child, c₂))
          × (walk n path (add_directory sha st os directories trees files start name child) rest c₂
              ≡ some (ok part, c₁))
    unfolding after
    walk-dir n path e info rest start part c c₁ name hn hi hs hd h =
        let build = build_directory sha st os directories trees files n in
        let (part₁, c₂, ea, h₁) =
          after-ok (add_entry sha st os directories trees files build path start e c) _ part c₁ h in
        let (child, c₃, eb, h₂) = after-ok (build (path_join (path ∷ e.name ∷ [])) c) _ part₁ c₂ (
          sym (add_entry-dir sha st os directories trees files build path start e info c hi hs hd)
          ∙ ea) in
        let left : c₃ ≡ c₂ = cc in
        let made : add_directory sha st os directories trees files start e.name child ≡ part₁ =
          cc in
        let named : add_directory sha st os directories trees files start name child ≡ part₁ =
          ap (λ m. add_directory sha st os directories trees files start m child) (sym hn) ∙ made in
        (
          child,
          c₂,
          ap (λ m. build (path_join (path ∷ m ∷ [])) c) (sym hn)
              ∙ eb
              ∙ ap (λ q. some (ok child, q)) left,
          ap (λ q. walk n path q rest c₂) named ∙ h₁,
        )
