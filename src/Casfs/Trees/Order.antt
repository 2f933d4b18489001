-- ===== src/Casfs/Trees/Order.antt =====
-- A directory that is listed in order is not changed by the sorts of buildDirectory.
use aws_build_farm.Prelude.{All, Bytes, ◌≡◌, refl, ap, ◌∙◌, true, false, List, [], ◌∷◌, arith}
use aws_build_farm.Digest.{Sha256}
use aws_build_farm.Proto.{FileNode, DirectoryNode, SymlinkNode, Directory, Codec}
use aws_build_farm.Casfs.Capture.{bytes_lt, insert_by_name, sort_by_name, sorted}
use aws_build_farm.Casfs.Trees.{Entries, end, file, link, dir, names, IsListed, message}

bytes_lt_asymm : (a b : Bytes) → bytes_lt a b ≡ true → bytes_lt b a ≡ false
unfolding bytes_lt
bytes_lt_asymm [] [] h = absurd (cc)
bytes_lt_asymm [] (y ∷ b) h = refl
bytes_lt_asymm (x ∷ a) [] h = absurd (cc)
bytes_lt_asymm (x ∷ a) (y ∷ b) h = ground (arith, bytes_lt_asymm a b)

-- Each name is below all those that follow.
Ascending : {A : Type 0} → (A → Bytes) → List A → Type 0
Ascending name [] = Unit {0}
Ascending name (x ∷ xs) = All (λ y. bytes_lt (name x) (name y) ≡ true) xs × Ascending name xs

insert_by_name-first :
    {A : Type 0} (name : A → Bytes) (x : A) (xs : List A)
    → All (λ y. bytes_lt (name x) (name y) ≡ true) xs
    → insert_by_name name x xs ≡ x ∷ xs
unfolding insert_by_name
insert_by_name-first name x [] h = refl
insert_by_name-first name x (y ∷ ys) (h, hs) =
    rw (bytes_lt_asymm (name x) (name y) h, insert_by_name) refl

sort_by_name-Ascending :
    {A : Type 0} (name : A → Bytes) (xs : List A) → Ascending name xs → sort_by_name name xs ≡ xs
unfolding sort_by_name Ascending
sort_by_name-Ascending name [] h = refl
sort_by_name-Ascending name (x ∷ xs) (h, hs) =
    ap (insert_by_name name x) (sort_by_name-Ascending name xs hs)
    ∙ insert_by_name-first name x xs h

module _ (sha : Sha256) (directories : Codec Directory) where
  message-All :
      (P : Bytes → Type 0) (es : Entries)
      → All P (names es)
      → All (λ (f : FileNode). P f.name) (message sha directories es).files
        × All (λ (l : SymlinkNode). P l.name) (message sha directories es).symlinks
        × All (λ (d : DirectoryNode). P d.name) (message sha directories es).directories
  unfolding message
  message-All P end h = (tt, tt, tt)
  message-All P (file name b x es) (h, hs) = let (f, l, d) = message-All P es hs in ((h, f), l, d)
  message-All P (link name target es) (h, hs) =
      let (f, l, d) = message-All P es hs in (f, (h, l), d)
  message-All P (dir name sub es) (h, hs) = let (f, l, d) = message-All P es hs in (f, l, (h, d))

  message-Ascending :
      (es : Entries)
      → IsListed es
      → Ascending (λ (f : FileNode). f.name) (message sha directories es).files
        × Ascending (λ (l : SymlinkNode). l.name) (message sha directories es).symlinks
        × Ascending (λ (d : DirectoryNode). d.name) (message sha directories es).directories
  unfolding message Ascending
  message-Ascending end h = (tt, tt, tt)
  message-Ascending (file name b x es) (first, h) =
      let (f, l, d) = message-Ascending es h in
      (((message-All (λ m. bytes_lt name m ≡ true) es first).0, f), l, d)
  message-Ascending (link name target es) (first, h) =
      let (f, l, d) = message-Ascending es h in
      (f, ((message-All (λ m. bytes_lt name m ≡ true) es first).1, l), d)
  message-Ascending (dir name sub es) (first, (inner, h)) =
      let (f, l, d) = message-Ascending es h in
      (f, l, ((message-All (λ m. bytes_lt name m ≡ true) es first).2, d))

  pub sorted-message :
      (es : Entries)
      → IsListed es
      → sorted (message sha directories es) ≡ message sha directories es
  unfolding sorted
  sorted-message es h =
      let (f, l, d) = message-Ascending es h in
      λ i. record {
        files = sort_by_name-Ascending (λ (f : FileNode). f.name) _ f i;
        directories = sort_by_name-Ascending (λ (sub : DirectoryNode). sub.name) _ d i;
        symlinks = sort_by_name-Ascending (λ (sl : SymlinkNode). sl.name) _ l i;
      }
