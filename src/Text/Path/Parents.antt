-- ===== src/Text/Path/Parents.antt =====
-- Parents of rooted paths: each has fewer slashes, and the last one is "/".
use Prim.Native.Char.{Char, code}
use mathlib.Core.List.{reverse_aux}
use text.Mathlib.TextLemmas.{cons-append}
use beegfs_csi_driver.Prelude.{
  ℕ, suc, ◌≤◌, String, ◌<>◌, ◌≡◌, refl, sym, ap, ◌∙◌, Bool, true, false, List, [], ◌∷◌, ◌=ℕ◌, ◌==◌,
  eq_iff, arith, if◌then◌else◌, length, All, Bool-cases, inl, inr,
}
use beegfs_csi_driver.Text.Strings.{join}
use beegfs_csi_driver.Text.Path.{
  segments, rooted, reduce, render, init, dir, clean, path_join, non_empty,
}
use beegfs_csi_driver.Text.Path.Segments.{
  slashes, IsSegment, segments-IsSegment, length-segments, init-IsSegment, length-init,
  reduce-IsSegment, reverse_aux-IsSegment, render-rooted,
}

-- The directory of a rooted path has fewer segments than the path has slashes.
pub record IsBelow (n : ℕ) (p : String) : Type 0 where
  pub segs : List String
  pub rendered : p ≡ render true segs
  pub proper : All IsSegment segs
  pub shorter : suc (length segs) ≤ n

init-cons : (xs : List String) → 1 ≤ length xs → init ("" ∷ xs) ≡ "" ∷ init xs
unfolding init
init-cons [] h = absurd (omega arith)
init-cons (x ∷ xs) h = refl

segments_of_dir : String → List String
segments_of_dir s = reverse_aux (reduce true (init (segments s)) []) []

rooted_dir :
    (c : Char) (s : String)
    → (code c =ℕ b'/') ≡ true
    → dir (String.◌∷◌ c s) ≡ render true (segments_of_dir s)
unfolding dir segments_of_dir reduce
rooted_dir c s h = rw h (
    ap (λ (xs : List String). render true (reverse_aux (reduce true xs []) []))
      (init-cons (segments s) (omega (arith, length-segments s))))

segments_of_dir_lem :
    (s : String) → All IsSegment (segments_of_dir s) × (length (segments_of_dir s) ≤ slashes s)
unfolding segments_of_dir
segments_of_dir_lem s =
    let (r, n) =
      reduce-IsSegment (init (segments s)) [] (init-IsSegment (segments s) (segments-IsSegment s))
        tt in
    let (q, m) = reverse_aux-IsSegment (reduce true (init (segments s)) []) [] r tt in
    (q, omega (arith, length-init (segments s) (slashes s) (length-segments s)))

pub dir-IsBelow : (p : String) → rooted p ≡ true → IsBelow (slashes p) (dir p)
unfolding rooted
dir-IsBelow String.[] h = absurd (cc)
dir-IsBelow (String.◌∷◌ c s) h = record {
  segs = segments_of_dir s;
  rendered = rooted_dir c s h;
  proper = (segments_of_dir_lem s).0;
  shorter = ground (arith, (segments_of_dir_lem s).1);
}

rooted-clean : (p : String) → rooted p ≡ true → rooted (clean p) ≡ true
unfolding clean
rooted-clean p h =
    ap (λ (b : Bool). rooted (render b (reverse_aux (reduce b (segments p) []) []))) h
    ∙ render-rooted (reverse_aux (reduce true (segments p) []) [])

pub rooted-append : (s t : String) → rooted s ≡ true → rooted (s <> t) ≡ true
unfolding rooted
rooted-append String.[] t h = absurd (cc)
rooted-append (String.◌∷◌ c s) t h = ap rooted (cons-append c s t) ∙ h

pub rooted-eq-empty : (p : String) → rooted p ≡ true → (p == "") ≡ false
rooted-eq-empty p h = elim (Bool-cases (p == "")) [
  | inl empty ↦ absurd (unfold rooted in no (sym (ap rooted ((eq_iff p "").0 empty)) ∙ h))
  | inr named ↦ named
]
  where
    no : ◌≡◌ {A = Bool} false true → ⊥
    no e = cc

non_empty_two :
    (path name : String)
    → (path == "") ≡ false
    → non_empty (path ∷ name ∷ []) ≡ path ∷ (if name == "" then [] else name ∷ [])
unfolding non_empty
non_empty_two path name h = rw h refl

-- What is joined to a rooted path is rooted.
pub rooted-path_join :
    (path name : String) → rooted path ≡ true → rooted (path_join (path ∷ name ∷ [])) ≡ true
unfolding path_join join
rooted-path_join path name h =
    ap
      (λ (parts : List String).
        rooted (elim parts [ [] ↦ "" | p ∷ ps ↦ clean (join (p ∷ ps) "/") ]))
      (non_empty_two path name (rooted-eq-empty path h))
    ∙ joined (name == "")
  where
    joined : (b : Bool) → rooted (clean (join (path ∷ (if b then [] else name ∷ [])) "/")) ≡ true
    joined true = rooted-clean path h
    joined false = rooted-clean (path <> ("/" <> name)) (rooted-append path ("/" <> name) h)
