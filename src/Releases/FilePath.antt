-- ===== src/Releases/FilePath.antt =====
-- The functions of `path/filepath` that the uploads and the manifests use, where paths have slashes.
use hsgram_admin.Prelude.{
  ℕ, ◌≡◌, refl, Bool, false, not, ◌&&◌, ◌||◌, List, [], ◌∷◌, ◌++◌, ◌==◌, if◌then◌else◌,
}
use mathlib.Core.List.{reverse}
use hsgram_admin.Prelude.Lists.{rows_where}
use hsgram_admin.Prelude.Text.{Text, codes, is_empty, text_eq}

abbrev pub dot : Text
dot = b'.' ∷ []

abbrev pub dots : Text
dots = b'.' ∷ b'.' ∷ []

abbrev pub has_slash : Text → Bool
has_slash [] = false
has_slash (c ∷ s) = c == b'/' || has_slash s

abbrev pub onto_first : ℕ → List Text → List Text
onto_first c [] = (c ∷ []) ∷ []
onto_first c (s ∷ ss) = (c ∷ s) ∷ ss

-- `strings.Split(s, "/")` and `strings.Join(ss, "/")`.
unfoldable pub split_slash : Text → List Text
split_slash [] = [] ∷ []
split_slash (c ∷ s) = let rest = split_slash s in if c == b'/' then [] ∷ rest else onto_first c rest

abbrev pub join_slash : List Text → Text
join_slash [] = []
join_slash (s ∷ []) = s
join_slash (s ∷ t ∷ ss) = s ++ (b'/' ∷ join_slash (t ∷ ss))

-- What `..` does to the elements so far, the last one first.
abbrev up : Bool → List Text → List Text
up rooted [] = if rooted then [] else dots ∷ []
up rooted (s ∷ out) = if text_eq s dots then dots ∷ s ∷ out else out

abbrev pub walk : Bool → List Text → List Text → List Text
walk rooted out [] = reverse out
walk rooted out (s ∷ ss) =
    walk rooted
      (if is_empty s || text_eq s dot
        then out
        else if text_eq s dots
        then up rooted out
        else s ∷ out)
      ss

abbrev pub is_rooted : Text → Bool
is_rooted [] = false
is_rooted (c ∷ s) = c == b'/'

-- `filepath.Clean`.
abbrev pub clean : Text → Text
clean s =
    let body = join_slash (walk (is_rooted s) [] (split_slash s)) in
    if is_rooted s then b'/' ∷ body else if is_empty body then dot else body

abbrev pub join_given : List Text → Text
join_given [] = []
join_given (s ∷ ss) = clean (join_slash (s ∷ ss))

-- `filepath.Join`.
unfoldable pub join : List Text → Text
unfolding split_slash
join parts = join_given (rows_where (λ s. not (is_empty s)) parts)

-- `filepath.Ext`: from the last dot of the last element.
unfoldable pub ext : Text → Text
ext [] = []
ext (c ∷ s) =
    let rest = ext s in
    if not (is_empty rest) then rest else if c == b'.' && not (has_slash s) then c ∷ s else []

abbrev pub last_of : Text → List Text → Text
last_of s [] = s
last_of s (t ∷ ts) = last_of t ts

abbrev pub without_slashes : Text → Text
without_slashes [] = []
without_slashes (c ∷ s) = if c == b'/' then without_slashes s else c ∷ s

abbrev pub base_of : Text → Text
base_of s = if is_empty s then b'/' ∷ [] else last_of [] (split_slash s)

-- `filepath.Base`.
unfoldable pub base : Text → Text
unfolding split_slash
base s = if is_empty s then dot else base_of (reverse (without_slashes (reverse s)))

joins :
    (join (codes "a" ∷ [] ∷ codes "b" ∷ []) ≡ codes "a/b")
    × (join (codes "/r/" ∷ codes "./x/../../y" ∷ []) ≡ codes "/y")
    × (join (codes "../a" ∷ codes "../.." ∷ []) ≡ codes "../..")
    × (join ([] ∷ []) ≡ [])
    × (join (codes "." ∷ []) ≡ dot)
unfolding join codes text_eq
joins = (refl, refl, refl, refl, refl)

names :
    (ext (codes "a.b/c.tar.gz") ≡ codes ".gz")
    × (ext (codes "a.b/c") ≡ [])
    × (base (codes "a/b.apk//") ≡ codes "b.apk")
    × (base (codes "//") ≡ codes "/")
    × (base [] ≡ dot)
unfolding ext base codes
names = (refl, refl, refl, refl, refl)
