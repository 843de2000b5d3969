-- ===== src/Text/Path.antt =====
-- Go's `path`: `Clean`, `Join`, `Dir` and `Base`, over the segments between slashes.
pub mod Parents
pub mod Segments
pub mod Names
pub mod Last
use Prim.Native.Char.{Char, code}
use mathlib.Core.List.{reverse}
use beegfs_csi_driver.Prelude.{
  String, ◌<>◌, Bool, true, false, ◌||◌, List, [], ◌∷◌, ◌=ℕ◌, ◌==◌, if◌then◌else◌,
}
use beegfs_csi_driver.Text.Strings.{join}

-- One more character in front of the first segment.
push : Char → List String → List String
push c [] = String.◌∷◌ c "" ∷ []
push c (x ∷ xs) = String.◌∷◌ c x ∷ xs

-- The texts between the slashes: one more than there are slashes.
unfoldable pub segments : String → List String
unfolding push
segments String.[] = "" ∷ []
segments (String.◌∷◌ c s) =
    let rest = segments s in if code c =ℕ b'/' then "" ∷ rest else push c rest

-- path.IsAbs
unfoldable pub rooted : String → Bool
rooted String.[] = false
rooted (String.◌∷◌ c s) = code c =ℕ b'/'

-- One segment of `Clean`, on the segments kept so far, the last one first.
keep : Bool → String → List String → List String
keep abs seg kept =
    if seg == "" || seg == "."
    then kept
    else if seg == ".."
    then elim kept [
      | [] ↦ if abs then [] else ".." ∷ []
      | top ∷ below ↦ if top == ".." then ".." ∷ top ∷ below else below
    ]
    else seg ∷ kept

unfoldable pub reduce : Bool → List String → List String → List String
unfolding keep
reduce abs [] kept = kept
reduce abs (seg ∷ segs) kept = reduce abs segs (keep abs seg kept)

-- The path of cleaned segments.
unfoldable pub render : Bool → List String → String
unfolding join
render true segs = "/" <> join segs "/"
render false [] = "."
render false (s ∷ segs) = join (s ∷ segs) "/"

-- path.Clean
unfoldable pub clean : String → String
unfolding rooted segments reduce render
clean p = render (rooted p) (reverse (reduce (rooted p) (segments p) []))

non_empty : List String → List String
non_empty [] = []
non_empty (p ∷ ps) = if p == "" then non_empty ps else p ∷ non_empty ps

-- path.Join
unfoldable pub path_join : List String → String
unfolding non_empty clean join
path_join parts = elim (non_empty parts) [ [] ↦ "" | p ∷ ps ↦ clean (join (p ∷ ps) "/") ]

-- Every segment but the last.
unfoldable pub init : List String → List String
init [] = []
init (p ∷ []) = []
init (p ∷ q ∷ ps) = p ∷ init (q ∷ ps)

-- path.Dir: the cleaned text up to the last slash
unfoldable pub dir : String → String
unfolding rooted segments reduce render init
dir p = render (rooted p) (reverse (reduce (rooted p) (init (segments p)) []))

last_non_empty : List String → String → String
last_non_empty [] found = found
last_non_empty (p ∷ ps) found = last_non_empty ps (if p == "" then found else p)

-- path.Base
unfoldable pub base : String → String
unfolding segments last_non_empty
base p = if p == "" then "." else last_non_empty (segments p) "/"
