-- ===== src/Volume/Id/Names.antt =====
-- Directory names of volumes: one path segment, distinct where identifiers have no underscore, and
-- not distinct in general.
use Prim.Native.Char.{code}
use text.Mathlib.TextLemmas.{nil-append, cons-append, append_assoc}
use text.Mathlib.TextEquality.{Char-path}
use beegfs_csi_driver.Prelude.{
  ℕ, String, ◌<>◌, len, ◌≡◌, ◌≢◌, refl, ◌∙◌, ap, sym, false, List, [], ◌∷◌, arith, ltb, ◌=ℕ◌,
  if◌then◌else◌, All, All-append, Bool-cases, inl, inr,
}
use beegfs_csi_driver.Text.Strings.{codes, codes-append, replace_first, replace_char}
use beegfs_csi_driver.Volume.Id.{flatten_id, sanitize_volume_id}

abbrev pub Lacks : ℕ → String → Type 0
Lacks c s = All (λ d. d ≢ c) (codes s)

replace_char-append :
    (old : ℕ) (new s t : String)
    → replace_char old new (s <> t) ≡ replace_char old new s <> replace_char old new t
unfolding replace_char
replace_char-append old new String.[] t = rw (nil-append t) (sym (nil-append _))
replace_char-append old new (String.◌∷◌ c s) t =
    rw (cons-append c s t, replace_char-append old new s t)
      (elim (Bool-cases (code c =ℕ old)) [
        | inl same ↦ rw same (sym (append_assoc new _ _))
        | inr other ↦ rw other (sym (cons-append c _ _))
      ])

flatten_id-append : (s t : String) → flatten_id (s <> t) ≡ flatten_id s <> flatten_id t
unfolding flatten_id
flatten_id-append s t =
    rw (replace_char-append b'_' "__" s t, replace_char-append b'/' "_" _ _) refl

flatten_swapped : flatten_id "_/" ≡ flatten_id "/_"
unfolding flatten_id
flatten_swapped = refl

flatten_id_collision :
    (before behind : String)
    → flatten_id (before <> ("_/" <> behind)) ≡ flatten_id (before <> ("/_" <> behind))
flatten_id_collision before behind = rw (
  flatten_id-append before ("_/" <> behind),
  flatten_id-append "_/" behind,
  flatten_id-append before ("/_" <> behind),
  flatten_id-append "/_" behind,
  flatten_swapped,
)

-- Two identifiers that differ, without the first "beegfs://", in the order of an underscore and a
-- slash next to it have the same directory name, whatever stands before and behind them, where that
-- name has at most 255 bytes. A longer name is a digest of the identifier.
pub sanitize_volume_id_collision :
    (sha1_hex : String → String) (id id' before behind : String)
    → replace_first id "beegfs://" "" ≡ before <> ("_/" <> behind)
    → replace_first id' "beegfs://" "" ≡ before <> ("/_" <> behind)
    → ltb 255 (len (flatten_id (before <> ("_/" <> behind)))) ≡ false
    → sanitize_volume_id sha1_hex id ≡ sanitize_volume_id sha1_hex id'
unfolding sanitize_volume_id
sanitize_volume_id_collision sha1_hex id id' before behind is is' short =
    short_name sha1_hex id _ is short
    ∙ flatten_id_collision before behind
    ∙ sym (
        short_name sha1_hex id' _ is'
          (ap (λ (n : String). ltb 255 (len n)) (sym (flatten_id_collision before behind)) ∙ short))
  where
    short_name :
        (sha1_hex : String → String) (id rest : String)
        → replace_first id "beegfs://" "" ≡ rest
        → ltb 255 (len (flatten_id rest)) ≡ false
        → sanitize_volume_id sha1_hex id ≡ flatten_id rest
    short_name sha1_hex id rest is short = unfold sanitize_volume_id in rw (is, short) refl

replace_char-Lacks : (old : ℕ) (new s : String) → Lacks old new → Lacks old (replace_char old new s)
unfolding replace_char
replace_char-Lacks old new String.[] h = tt
replace_char-Lacks old new (String.◌∷◌ c s) h =
    let ih = replace_char-Lacks old new s h in
    elim (Bool-cases (code c =ℕ old)) [
      | inl same ↦
          rw (same, codes-append new (replace_char old new s)) (All-append _ (codes new) _ h ih)
      | inr other ↦ rw other (ground arith, ih)
    ]

-- A name that is not a digest holds no slash; the digest is assumed to hold none.
pub sanitize_volume_id-Lacks :
    (sha1_hex : String → String) (id : String)
    → Lacks b'/' (sha1_hex id)
    → Lacks b'/' (sanitize_volume_id sha1_hex id)
unfolding sanitize_volume_id flatten_id
sanitize_volume_id-Lacks sha1_hex id h =
    let escaped = replace_char b'_' "__" (replace_first id "beegfs://" "") in
    elim (Bool-cases (ltb 255 (len (replace_char b'/' "_" escaped)))) [
      | inl long ↦ rw long h
      | inr short ↦ rw short (replace_char-Lacks b'/' "_" escaped (omega arith))
    ]

flat : ℕ → ℕ
flat c = if c =ℕ b'/' then b'_' else c

map_flat : List ℕ → List ℕ
map_flat [] = []
map_flat (c ∷ s) = flat c ∷ map_flat s

codes-replace_char : (s : String) → codes (replace_char b'/' "_" s) ≡ map_flat (codes s)
unfolding replace_char map_flat flat
codes-replace_char String.[] = refl
codes-replace_char (String.◌∷◌ c s) = elim (Bool-cases (code c =ℕ b'/')) [
  | inl same ↦ rw (same, codes-append "_" (replace_char b'/' "_" s), codes-replace_char s)
  | inr other ↦ rw (other, codes-replace_char s)
]

replace_char_absent : (old : ℕ) (new s : String) → Lacks old s → replace_char old new s ≡ s
unfolding replace_char
replace_char_absent old new String.[] h = refl
replace_char_absent old new (String.◌∷◌ c s) (hc, hs) =
    let other : (code c =ℕ old) ≡ false = ground arith in
    rw (other, replace_char_absent old new s hs)

map_flat-injective :
    (s t : List ℕ) → All (λ d. d ≢ b'_') s → All (λ d. d ≢ b'_') t → map_flat s ≡ map_flat t → s ≡ t
unfolding map_flat flat
map_flat-injective [] [] hs ht e = refl
map_flat-injective [] (d ∷ t) hs ht e = cc
map_flat-injective (c ∷ s) [] hs ht e = cc
map_flat-injective (c ∷ s) (d ∷ t) (hc, hs) (hd, ht) e =
    ground (arith, map_flat-injective s t hs ht)

codes-injective : (s t : String) → codes s ≡ codes t → s ≡ t
codes-injective String.[] String.[] e = refl
codes-injective String.[] (String.◌∷◌ d t) e = cc
codes-injective (String.◌∷◌ c s) String.[] e = cc
codes-injective (String.◌∷◌ c s) (String.◌∷◌ d t) e =
    let heads : code c ≡ code d = cc in
    let tails : codes s ≡ codes t = cc in cc (Char-path c d heads, codes-injective s t tails)

-- Identifiers without underscores have distinct names.
pub flatten_id-injective :
    (x y : String) → Lacks b'_' x → Lacks b'_' y → flatten_id x ≡ flatten_id y → x ≡ y
unfolding flatten_id
flatten_id-injective x y hx hy e =
    let e' : replace_char b'/' "_" x ≡ replace_char b'/' "_" y =
      rw (replace_char_absent b'_' "__" x hx, replace_char_absent b'_' "__" y hy) at e in
    codes-injective x y (
      map_flat-injective (codes x) (codes y) hx hy
        (sym (codes-replace_char x) ∙ (ap codes e' ∙ codes-replace_char y)))
