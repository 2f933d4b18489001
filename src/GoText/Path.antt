-- ===== src/GoText/Path.antt =====
-- `path.Join` and `path.Clean` of the package path, on slash-separated names.
pub mod Absolute
pub mod Plain
use aws_build_farm.Prelude.{
  ◌==◌, if◌then◌else◌, Bytes, bytes_eq, Bool, false, ◌||◌, List, [], ◌∷◌, ◌++◌,
}
use mathlib.Core.List.{foldl, reverse}
use aws_build_farm.GoText.Split.{split, join}

abbrev dot : Bytes
dot = b'.' ∷ []

abbrev pub dot_dot : Bytes
dot_dot = b'.' ∷ b'.' ∷ []

-- What `..` does to the elements before it, the last one first.
abbrev up : Bool → List Bytes → List Bytes
up rooted [] = if rooted then [] else dot_dot ∷ []
up rooted (p ∷ ps) = if bytes_eq p dot_dot then dot_dot ∷ p ∷ ps else ps

-- One element of the name.
unfoldable pub push : Bool → List Bytes → Bytes → List Bytes
push rooted ps p =
    if bytes_eq p [] || bytes_eq p dot
    then ps
    else if bytes_eq p dot_dot
    then up rooted ps
    else p ∷ ps

abbrev pub is_rooted : Bytes → Bool
is_rooted [] = false
is_rooted (c ∷ s) = c == b'/'

-- The elements, joined by slashes.
unfoldable pub render : List Bytes → Bytes
render [] = []
render (p ∷ ps) = join p ps

-- The elements that are left, the last one first.
unfoldable pub elements : Bytes → List Bytes
elements s = foldl (push (is_rooted s)) [] (split s)

abbrev pub or_dot : Bytes → Bytes
or_dot [] = dot
or_dot (c ∷ s) = c ∷ s

-- `path.Clean`.
unfoldable pub clean : Bytes → Bytes
clean s =
    let text = render (reverse (elements s)) in if is_rooted s then b'/' ∷ text else or_dot text

-- What `path.Join` puts before an element.
unfoldable pub join_with : Bytes → Bytes → Bytes
join_with [] p = p
join_with (c ∷ s) p = (c ∷ s) ++ b'/' ∷ p

abbrev pub cleaned : Bytes → Bytes
cleaned [] = []
cleaned (c ∷ s) = clean (c ∷ s)

-- `path.Join` of some elements: those before the first one that is not empty are dropped.
unfoldable pub path_join : List Bytes → Bytes
unfolding join_with
path_join ps = cleaned (foldl join_with [] ps)
