-- ===== src/Text/Strings.antt =====
-- Go's `strings`: prefixes, search, case, replacement, cutting and joining.
pub mod Split
use Prim.Native.Char.{Char, code}
use beegfs_csi_driver.Prelude.{
  ℕ, ◌+◌, String, ◌<>◌, Bool, true, false, ◌&&◌, ◌||◌, Option, none, some, List, [], ◌∷◌, leb, ◌=ℕ◌,
  if◌then◌else◌, ◌≡◌, ◌≢◌, All, refl, ap, ◌∙◌, arith, ◌++◌,
}
use text.Mathlib.TextLemmas.{nil-append, cons-append}

-- The code points of a text.
abbrev pub codes : String → List ℕ
codes String.[] = []
codes (String.◌∷◌ c s) = code c ∷ codes s

unfoldable pub begins : List ℕ → List ℕ → Bool
begins s [] = true
begins [] (p ∷ ps) = false
begins (c ∷ s) (p ∷ ps) = c =ℕ p && begins s ps

occurs : List ℕ → List ℕ → Bool
occurs [] t = begins [] t
occurs (c ∷ s) t = begins (c ∷ s) t || occurs s t

-- strings.HasPrefix(s, t)
unfoldable pub has_prefix : String → String → Bool
unfolding begins
has_prefix s t = begins (codes s) (codes t)

-- strings.Contains(s, t)
unfoldable pub contains : String → String → Bool
unfolding occurs begins
contains s t = occurs (codes s) (codes t)

-- Beyond ASCII only the dotted capital I and the Kelvin sign have an ASCII lower case.
unfoldable pub lower_code : ℕ → ℕ
lower_code c =
    if leb b'A' c && leb c b'Z'
    then c + 32
    else if c =ℕ 0x130
    then b'i'
    else if c =ℕ 0x212a
    then b'k'
    else c

-- strings.ToLower
unfoldable pub lower : List ℕ → List ℕ
unfolding lower_code
lower [] = []
lower (c ∷ s) = lower_code c ∷ lower s

-- strings.Contains(strings.ToLower(s), t), for an ASCII text t
unfoldable pub contains_lower : String → String → Bool
unfolding lower occurs begins
contains_lower s t = occurs (lower (codes s)) (codes t)

-- strings.HasPrefix(strings.ToLower(s), t), for an ASCII text t
unfoldable pub has_prefix_lower : String → String → Bool
unfolding lower begins
has_prefix_lower s t = begins (lower (codes s)) (codes t)

-- What is left of a text without as many characters as `t` has.
unfoldable pub skip : String → String → String
skip s String.[] = s
skip String.[] (String.◌∷◌ _ t) = ""
skip (String.◌∷◌ _ s) (String.◌∷◌ _ t) = skip s t

-- strings.SplitN(s, sep, 2): the text before the first separator, and the text behind it if there
-- is a separator.
unfoldable pub split_n2 : String → String → String × Option String
unfolding has_prefix skip begins
split_n2 String.[] sep = if has_prefix "" sep then ("", some "") else ("", none)
split_n2 (String.◌∷◌ c s) sep =
    let rest = split_n2 s sep in
    let whole = String.◌∷◌ c s in
    if has_prefix whole sep then ("", some (skip whole sep)) else (String.◌∷◌ c rest.0, rest.1)

-- strings.Replace(s, old, new, 1)
unfoldable pub replace_first : String → String → String → String
unfolding split_n2
replace_first s old new = elim (split_n2 s old).1 [
  | none ↦ s
  | some behind ↦ (split_n2 s old).0 <> (new <> behind)
]

-- strings.Replace(s, old, new, -1), where `old` is one character
unfoldable pub replace_char : ℕ → String → String → String
replace_char old new String.[] = ""
replace_char old new (String.◌∷◌ c s) =
    let rest = replace_char old new s in if code c =ℕ old then new <> rest else String.◌∷◌ c rest

-- strings.Join(parts, sep)
unfoldable pub join : List String → String → String
join [] sep = ""
join (p ∷ []) sep = p
join (p ∷ q ∷ ps) sep = p <> (sep <> join (q ∷ ps) sep)

pub codes-append : (s t : String) → codes (s <> t) ≡ codes s ++ codes t
codes-append String.[] t = ap codes (nil-append t)
codes-append (String.◌∷◌ c s) t =
    ap codes (cons-append c s t) ∙ ap (λ r. code c ∷ r) (codes-append s t)

pub begins-append : (xs ys : List ℕ) → begins (xs ++ ys) xs ≡ true
unfolding begins
begins-append [] ys = refl
begins-append (x ∷ xs) ys = ground (arith, begins-append xs ys)

-- A text begins with its own front.
pub has_prefix-append : (s t : String) → has_prefix (s <> t) s ≡ true
unfolding has_prefix
has_prefix-append s t = rw (codes-append s t) (begins-append (codes s) (codes t))

split_n2_here :
    (c : Char) (t : String) → (code c =ℕ b':') ≡ true → split_n2 (String.◌∷◌ c t) ":" ≡ ("", some t)
unfolding split_n2
split_n2_here c t h = rw h (ap (λ x. ("", some x)) (skip_none t))
  where
    skip_none : (t : String) → skip t "" ≡ t
    skip_none String.[] = refl
    skip_none (String.◌∷◌ c t) = refl

split_n2_later :
    (c : Char) (t : String)
    → (code c =ℕ b':') ≡ false
    → split_n2 (String.◌∷◌ c t) ":" ≡ (String.◌∷◌ c (split_n2 t ":").0, (split_n2 t ":").1)
unfolding split_n2
split_n2_later c t h = rw h refl

-- A text is cut at its first colon.
pub split_n2-append :
    (s t : String) → All (λ c. c ≢ b':') (codes s) → split_n2 (s <> (":" <> t)) ":" ≡ (s, some t)
split_n2-append String.[] t lacks =
    ap (λ x. split_n2 x ":")
      (nil-append (":" <> t) ∙ cons-append ":" "" t ∙ ap (λ x. String.◌∷◌ ":" x) (nil-append t))
    ∙ split_n2_here ":" t refl
split_n2-append (String.◌∷◌ c s) t (hc, hs) =
    ap (λ x. split_n2 x ":") (cons-append c s (":" <> t))
    ∙ split_n2_later c (s <> (":" <> t)) (ground arith)
    ∙ ap (λ (r : String × Option String). (String.◌∷◌ c r.0, r.1)) (split_n2-append s t hs)
