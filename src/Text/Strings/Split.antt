-- ===== src/Text/Strings/Split.antt =====
-- Cutting a text at its first separator, and prefixes without regard to case.
use Prim.Native.Char.{Char, code}
use text.Mathlib.TextLemmas.{nil-append, cons-append}
use text.Mathlib.TextEquality.{Char-path}
use beegfs_csi_driver.Prelude.{
  ℕ, String, ◌<>◌, ◌≡◌, ◌≢◌, ◌<◌, refl, sym, ap, ◌∙◌, true, false, Option, some, List, [], ◌∷◌,
  ◌++◌, All, arith, Bool-cases, inl, inr,
}
use beegfs_csi_driver.Text.Strings.{
  codes, begins, has_prefix, has_prefix-append, lower, lower_code, skip, split_n2,
}

-- A text that begins with another one is that text and the rest.
skip_lem : (s t : String) → begins (codes s) (codes t) ≡ true → s ≡ t <> skip s t
unfolding begins skip
skip_lem s String.[] h = sym (nil-append s)
skip_lem String.[] (String.◌∷◌ d t) h = absurd (ground arith)
skip_lem (String.◌∷◌ c s) (String.◌∷◌ d t) h =
    ap (λ (r : String). String.◌∷◌ c r) (skip_lem s t (ground arith))
    ∙ ap (λ (x : Char). String.◌∷◌ x (t <> skip s t)) (Char-path c d (ground arith))
    ∙ sym (cons-append d t (skip s t))

skip-append : (t s : String) → skip (t <> s) t ≡ s
unfolding skip
skip-append String.[] s = nil-append s
skip-append (String.◌∷◌ d t) s = rw (cons-append d t s) (skip-append t s)

split_n2_found :
    (c : Char) (s sep : String)
    → has_prefix (String.◌∷◌ c s) sep ≡ true
    → split_n2 (String.◌∷◌ c s) sep ≡ ("", some (skip (String.◌∷◌ c s) sep))
unfolding split_n2
split_n2_found c s sep h = rw (h, split_n2) refl

split_n2_step :
    (c : Char) (s sep : String)
    → has_prefix (String.◌∷◌ c s) sep ≡ false
    → split_n2 (String.◌∷◌ c s) sep ≡ (String.◌∷◌ c (split_n2 s sep).0, (split_n2 s sep).1)
unfolding split_n2
split_n2_step c s sep h = rw (h, split_n2) refl

pair_parts :
    (x front : String) (y : Option String) (behind : String)
    → ◌≡◌ {A = String × Option String} (x, y) (front, some behind)
    → (x ≡ front) × (y ≡ some behind)
pair_parts x front y behind e =
    (ap (λ (r : String × Option String). r.0) e, ap (λ (r : String × Option String). r.1) e)

some_injective : (x y : String) → some x ≡ some y → x ≡ y
some_injective x y e = cc

-- The parts around a separator make up the text again.
pub split_n2-rebuild :
    (s : String) (d : Char) (sep front behind : String)
    → split_n2 s (String.◌∷◌ d sep) ≡ (front, some behind)
    → s ≡ front <> (String.◌∷◌ d sep <> behind)
unfolding has_prefix
split_n2-rebuild String.[] d sep front behind h =
    unfold split_n2 begins in absurd (ground (arith, pair_parts _ _ _ _ h))
split_n2-rebuild (String.◌∷◌ c s) d sep front behind h =
    elim (Bool-cases (has_prefix (String.◌∷◌ c s) (String.◌∷◌ d sep))) [
      | inl found ↦
          let (e0, e1) = pair_parts _ front _ behind (sym (split_n2_found c s _ found) ∙ h) in
          skip_lem (String.◌∷◌ c s) (String.◌∷◌ d sep) found
          ∙ sym (nil-append _)
          ∙ ap (λ (b : String). "" <> (String.◌∷◌ d sep <> b)) (some_injective _ behind e1)
          ∙ ap (λ (f : String). f <> (String.◌∷◌ d sep <> behind)) e0
      | inr later ↦
          let (e0, e1) = pair_parts _ front _ behind (sym (split_n2_step c s _ later) ∙ h) in
          ap (λ (r : String). String.◌∷◌ c r)
            (split_n2-rebuild s d sep (split_n2 s (String.◌∷◌ d sep)).0 behind
              (ap (λ (o : Option String). ((split_n2 s (String.◌∷◌ d sep)).0, o)) e1))
          ∙ sym (cons-append c (split_n2 s (String.◌∷◌ d sep)).0 _)
          ∙ ap (λ (f : String). f <> (String.◌∷◌ d sep <> behind)) e0
    ]

pub lower-append : (xs ys : List ℕ) → lower (xs ++ ys) ≡ lower xs ++ lower ys
unfolding lower
lower-append [] ys = refl
lower-append (x ∷ xs) ys = ap (λ r. lower_code x ∷ r) (lower-append xs ys)

-- A character below the letters is its own lower case, and that of no other one.
unlower : (c k : ℕ) → k < b'A' → lower_code c ≡ k → c ≡ k
unfolding lower_code
unlower c k low e = ground arith

begins-unlower :
    (xs ks : List ℕ) → All (λ k. k < b'A') ks → begins (lower xs) ks ≡ true → begins xs ks ≡ true
unfolding begins lower
begins-unlower [] [] low e = refl
begins-unlower (x ∷ xs) [] low e = refl
begins-unlower [] (k ∷ ks) low e = absurd (ground arith)
begins-unlower (x ∷ xs) (k ∷ ks) (lk, low) e = ground (arith, unlower x k, begins-unlower xs ks low)

-- Where a text in lower case begins with a word without colons and "://", the text is cut behind that
-- word.
pub split_n2-scheme :
    (word : List ℕ) (s : String)
    → All (λ c. c ≢ b':') word
    → begins (lower (codes s)) (word ++ codes "://") ≡ true
    → (front behind : String) × (split_n2 s "://" ≡ (front, some behind))
      × (lower (codes front) ≡ word)
unfolding has_prefix begins lower lower_code
split_n2-scheme [] String.[] h e = absurd (ground arith)
split_n2-scheme [] (String.◌∷◌ c s) h e = (
  "",
  skip (String.◌∷◌ c s) "://",
  split_n2_found c s "://" (begins-unlower (codes (String.◌∷◌ c s)) (codes "://") (omega arith) e),
  refl,
)
split_n2-scheme (x ∷ word) String.[] h e = absurd (ground arith)
split_n2-scheme (x ∷ word) (String.◌∷◌ c s) (hx, h) e =
    let (front, behind, cut, low) = split_n2-scheme word s h (ground arith) in
    (
      String.◌∷◌ c front,
      behind,
      split_n2_step c s "://" (ground arith)
          ∙ ap (λ (r : String × Option String). (String.◌∷◌ c r.0, r.1)) cut,
      ground (arith, low),
    )

scheme_step : (c : Char) (s : String) → code c ≢ b':' → has_prefix (String.◌∷◌ c s) "://" ≡ false
unfolding has_prefix begins
scheme_step c s h = ground arith

-- A text without colons is cut off where "://" follows it.
pub split_n2-append_scheme :
    (s t : String)
    → All (λ c. c ≢ b':') (codes s)
    → split_n2 (s <> ("://" <> t)) "://" ≡ (s, some t)
split_n2-append_scheme String.[] t h =
    ap (λ (x : String). split_n2 x "://") (nil-append ("://" <> t) ∙ whole)
    ∙ split_n2_found ":" ("//" <> t) "://"
        (ap (λ (x : String). has_prefix x "://") (sym whole) ∙ has_prefix-append "://" t)
    ∙ ap (λ (x : String). ("", some x))
        (ap (λ (x : String). skip x "://") (sym whole) ∙ skip-append "://" t)
  where
    whole : "://" <> t ≡ String.◌∷◌ ":" ("//" <> t)
    whole = cons-append ":" "//" t
split_n2-append_scheme (String.◌∷◌ c s) t (hc, hs) =
    ap (λ (x : String). split_n2 x "://") (cons-append c s ("://" <> t))
    ∙ split_n2_step c (s <> ("://" <> t)) "://" (scheme_step c _ hc)
    ∙ ap (λ (r : String × Option String). (String.◌∷◌ c r.0, r.1)) (split_n2-append_scheme s t hs)
