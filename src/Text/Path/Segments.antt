-- ===== src/Text/Path/Segments.antt =====
-- The segments of texts, and the slashes of cleaned paths.
use Prim.Native.Char.{Char, code}
use mathlib.Core.List.{reverse_aux}
use text.Mathlib.TextLemmas.{nil-append, cons-append}
use beegfs_csi_driver.Prelude.{
  ℕ, zero, suc, ◌+◌, ◌≤◌, String, ◌<>◌, ◌≡◌, refl, ap, ◌∙◌, Bool, true, false, List, [], ◌∷◌, ◌=ℕ◌,
  ◌==◌, ◌||◌, arith, if◌then◌else◌, length, All, Bool-cases, inl, inr,
}
use beegfs_csi_driver.Text.Strings.{join}
use beegfs_csi_driver.Text.Path.{segments, push, rooted, keep, reduce, render, init}

-- The number of slashes of a text.
abbrev pub slashes : String → ℕ
slashes String.[] = 0
slashes (String.◌∷◌ c s) = if code c =ℕ b'/' then suc (slashes s) else slashes s

slashes-append : (s t : String) → slashes (s <> t) ≡ slashes s + slashes t
slashes-append String.[] t = ap slashes (nil-append t) ∙ omega arith
slashes-append (String.◌∷◌ c s) t =
    ap slashes (cons-append c s t) ∙ ground (arith, slashes-append s t)

-- A segment has no slash.
abbrev pub IsSegment : String → Type 0
IsSegment s = slashes s ≡ 0

push-IsSegment :
    (c : Char) (xs : List String)
    → (code c =ℕ b'/') ≡ false
    → All IsSegment xs
    → All IsSegment (push c xs)
unfolding push
push-IsSegment c [] h a = (rw h refl, tt)
push-IsSegment c (x ∷ xs) h (ax, a) = (rw h ax, a)

pub segments-IsSegment : (s : String) → All IsSegment (segments s)
unfolding segments
segments-IsSegment String.[] = (refl, tt)
segments-IsSegment (String.◌∷◌ c s) = elim (Bool-cases (code c =ℕ b'/')) [
  | inl slash ↦ rw slash (refl, segments-IsSegment s)
  | inr other ↦ rw other (push-IsSegment c (segments s) other (segments-IsSegment s))
]

length-push : (c : Char) (xs : List String) → 1 ≤ length xs → length (push c xs) ≡ length xs
unfolding push
length-push c [] h = omega arith
length-push c (x ∷ xs) h = refl

pub length-segments : (s : String) → length (segments s) ≡ suc (slashes s)
unfolding segments
length-segments String.[] = refl
length-segments (String.◌∷◌ c s) = elim (Bool-cases (code c =ℕ b'/')) [
  | inl slash ↦ rw slash (ap suc (length-segments s))
  | inr other ↦
      rw other (length-push c (segments s) (omega (arith, length-segments s)) ∙ length-segments s)
]

pub init-IsSegment : (xs : List String) → All IsSegment xs → All IsSegment (init xs)
unfolding init
init-IsSegment [] a = tt
init-IsSegment (x ∷ []) a = tt
init-IsSegment (x ∷ y ∷ xs) (ax, a) = (ax, init-IsSegment (y ∷ xs) a)

pub length-init : (xs : List String) (n : ℕ) → length xs ≡ suc n → length (init xs) ≡ n
unfolding init
length-init [] n h = absurd (omega arith)
length-init (x ∷ []) n h = omega arith
length-init (x ∷ y ∷ xs) zero h = absurd (omega arith)
length-init (x ∷ y ∷ xs) (suc n) h = ap suc (length-init (y ∷ xs) n (omega arith))

-- What a rooted path keeps of one more segment.
abbrev KeptOf : List String → List String → Type 0
KeptOf kept more = All IsSegment more × (length more ≤ suc (length kept))

parent-KeptOf :
    (kept : List String)
    → All IsSegment kept
    → KeptOf kept
        (elim kept [ [] ↦ [] | top ∷ below ↦ if top == ".." then ".." ∷ top ∷ below else below ])
parent-KeptOf [] a = (tt, omega arith)
parent-KeptOf (top ∷ below) (at, a) = elim (Bool-cases (top == "..")) [
  | inl up ↦ rw up ((refl, (at, a)), omega arith)
  | inr other ↦ rw other (a, omega arith)
]

keep-KeptOf :
    (seg : String) (kept : List String)
    → IsSegment seg
    → All IsSegment kept
    → KeptOf kept (keep true seg kept)
unfolding keep
keep-KeptOf seg kept h a = choose (seg == "" || seg == ".") (seg == "..")
  where
    choose :
        (b u : Bool)
        → KeptOf kept (
            if b
            then kept
            else if u
            then elim kept [
              | [] ↦ []
              | top ∷ below ↦ if top == ".." then ".." ∷ top ∷ below else below
            ]
            else seg ∷ kept)
    choose true u = (a, omega arith)
    choose false true = parent-KeptOf kept a
    choose false false = ((h, a), omega arith)

pub reduce-IsSegment :
    (segs kept : List String)
    → All IsSegment segs
    → All IsSegment kept
    → All IsSegment (reduce true segs kept)
      × (length (reduce true segs kept) ≤ length segs + length kept)
unfolding reduce
reduce-IsSegment [] kept h a = (a, omega arith)
reduce-IsSegment (seg ∷ segs) kept (hs, h) a =
    let (k, n) = keep-KeptOf seg kept hs a in
    let (r, m) = reduce-IsSegment segs (keep true seg kept) h k in (r, omega arith)

pub reverse_aux-IsSegment :
    (xs ys : List String)
    → All IsSegment xs
    → All IsSegment ys
    → All IsSegment (reverse_aux xs ys) × (length (reverse_aux xs ys) ≡ length xs + length ys)
reverse_aux-IsSegment [] ys h a = (a, omega arith)
reverse_aux-IsSegment (x ∷ xs) ys (hx, h) a =
    let (r, n) = reverse_aux-IsSegment xs (x ∷ ys) h (hx, a) in (r, omega arith)

-- A rooted path of segments has a slash for each of them, and "/" has one.
slashes-join :
    (x : String) (xs : List String)
    → All IsSegment (x ∷ xs)
    → slashes (join (x ∷ xs) "/") ≡ length xs
unfolding join
slashes-join x [] (hx, h) = hx
slashes-join x (y ∷ ys) (hx, h) =
    slashes-append x ("/" <> join (y ∷ ys) "/")
    ∙ ap (λ (n : ℕ). slashes x + n) (slashes-append "/" (join (y ∷ ys) "/"))
    ∙ omega (arith, hx, slashes-join y ys h)

pub slashes-render :
    (x : String) (xs : List String)
    → All IsSegment (x ∷ xs)
    → slashes (render true (x ∷ xs)) ≡ length (x ∷ xs)
unfolding render
slashes-render x xs h = slashes-append "/" (join (x ∷ xs) "/") ∙ omega (arith, slashes-join x xs h)

pub render-rooted : (segs : List String) → rooted (render true segs) ≡ true
unfolding render rooted
render-rooted segs = ap rooted (cons-append "/" "" (join segs "/"))
