-- ===== src/Text/Path/Names.antt =====
-- Rooted paths that are made of names: what `Join` makes of them.
use Prim.Native.Char.{Char, code}
use mathlib.Core.List.{reverse_aux}
use text.Mathlib.TextLemmas.{nil-append, cons-append}
use beegfs_csi_driver.Prelude.{
  ◌≤◌, String, ◌<>◌, ◌≡◌, refl, sym, ap, ◌∙◌, Bool, true, false, List, [], ◌∷◌, ◌++◌, ◌=ℕ◌, ◌==◌,
  subst, append-nil, arith, length, All, Bool-cases, inl, inr,
}
use beegfs_csi_driver.Text.Strings.{join}
use beegfs_csi_driver.Text.Path.{
  segments, push, rooted, keep, reduce, render, clean, path_join, non_empty,
}
use beegfs_csi_driver.Text.Path.Segments.{IsSegment, length-segments, render-rooted}
use beegfs_csi_driver.Text.Path.Parents.{rooted-eq-empty, rooted-append}

-- A name is a segment that `Clean` keeps as it is.
pub record IsName (s : String) : Type 0 where
  pub segment : IsSegment s
  pub some_text : (s == "") ≡ false
  pub not_dot : (s == ".") ≡ false
  pub not_dots : (s == "..") ≡ false

push-append : (c : Char) (xs ys : List String) → 1 ≤ length xs → push c (xs ++ ys) ≡ push c xs ++ ys
unfolding push
push-append c [] ys h = absurd (omega arith)
push-append c (x ∷ xs) ys h = refl

-- The segments of two texts with a slash between them.
pub segments-append : (s t : String) → segments (s <> ("/" <> t)) ≡ segments s ++ segments t
unfolding segments
segments-append String.[] t = ap segments (
    nil-append ("/" <> t)
    ∙ cons-append "/" "" t
    ∙ ap (λ (x : String). String.◌∷◌ "/" x) (nil-append t))
segments-append (String.◌∷◌ c s) t =
    ap segments (cons-append c s ("/" <> t)) ∙ elim (Bool-cases (code c =ℕ b'/')) [
      | inl slash ↦ rw slash (ap (λ (xs : List String). "" ∷ xs) (segments-append s t))
      | inr other ↦ rw other (
          ap (push c) (segments-append s t)
          ∙ push-append c (segments s) (segments t) (omega (arith, length-segments s)))
    ]

pub segments-of_segment : (s : String) → IsSegment s → segments s ≡ s ∷ []
unfolding segments push
segments-of_segment String.[] h = refl
segments-of_segment (String.◌∷◌ c s) h = elim (Bool-cases (code c =ℕ b'/')) [
  | inl slash ↦ absurd (ground arith)
  | inr other ↦ rw other (ap (push c) (segments-of_segment s (ground arith)))
]

reduce-append :
    (abs : Bool) (xs ys kept : List String)
    → reduce abs (xs ++ ys) kept ≡ reduce abs ys (reduce abs xs kept)
unfolding reduce
reduce-append abs [] ys kept = refl
reduce-append abs (x ∷ xs) ys kept = reduce-append abs xs ys (keep abs x kept)

keep-name : (s : String) (kept : List String) → IsName s → keep true s kept ≡ s ∷ kept
unfolding keep
keep-name s kept h = ground (arith, h.some_text, h.not_dot, h.not_dots)

pub reduce-names :
    (xs kept : List String) → All IsName xs → reduce true xs kept ≡ reverse_aux xs kept
unfolding reduce
reduce-names [] kept h = refl
reduce-names (x ∷ xs) kept (hx, h) =
    ap (reduce true xs) (keep-name x kept hx) ∙ reduce-names xs (x ∷ kept) h

-- The names that a text adds to a path.
pub record Adds (t : String) (ns : List String) : Type 0 where
  pub adds : (kept : List String) → reduce true (segments t) kept ≡ reverse_aux ns kept

reverse_aux-append :
    {A : Type 0} (xs ys zs : List A)
    → reverse_aux (xs ++ ys) zs ≡ reverse_aux ys (reverse_aux xs zs)
reverse_aux-append [] ys zs = refl
reverse_aux-append (x ∷ xs) ys zs = reverse_aux-append xs ys (x ∷ zs)

pub reverse_aux-twice :
    {A : Type 0} (xs ys zs : List A)
    → reverse_aux (reverse_aux xs ys) zs ≡ reverse_aux ys (xs ++ zs)
reverse_aux-twice [] ys zs = refl
reverse_aux-twice (x ∷ xs) ys zs = reverse_aux-twice xs (x ∷ ys) zs

pub name-Adds : (s : String) → IsName s → Adds s (s ∷ [])
unfolding reduce
name-Adds s h = record {
  adds = λ kept.
      ap (λ (xs : List String). reduce true xs kept) (segments-of_segment s h.segment)
      ∙ keep-name s kept h;
}

pub append-Adds :
    (s t : String) (ms ns : List String) → Adds s ms → Adds t ns → Adds (s <> ("/" <> t)) (ms ++ ns)
append-Adds s t ms ns hs ht = record {
  adds = λ kept.
      ap (λ (xs : List String). reduce true xs kept) (segments-append s t)
      ∙ reduce-append true (segments s) (segments t) kept
      ∙ ap (reduce true (segments t)) (hs.adds kept)
      ∙ ht.adds (reverse_aux ms kept)
      ∙ sym (reverse_aux-append ms ns kept);
}

empty-Adds : Adds "" []
unfolding reduce segments keep
empty-Adds = record { adds = λ kept. refl }

names-Adds : (xs : List String) → All IsName xs → Adds (join xs "/") xs
unfolding join
names-Adds [] h = empty-Adds
names-Adds (x ∷ []) (hx, h) = name-Adds x hx
names-Adds (x ∷ y ∷ ys) (hx, h) =
    append-Adds x (join (y ∷ ys) "/") (x ∷ []) (y ∷ ys) (name-Adds x hx) (names-Adds (y ∷ ys) h)

-- A rooted path of names is those names, also behind another path.
pub render-Adds : (xs : List String) → All IsName xs → Adds (render true xs) xs
unfolding render
render-Adds xs h =
    subst (λ (s : String). Adds s xs) (nil-append ("/" <> join xs "/"))
      (append-Adds "" (join xs "/") [] xs empty-Adds (names-Adds xs h))

clean-Adds :
    (p : String) (ns : List String) → rooted p ≡ true → Adds p ns → clean p ≡ render true ns
unfolding clean
clean-Adds p ns h a =
    ap (λ (b : Bool). render b (reverse_aux (reduce b (segments p) []) [])) h
    ∙ ap (λ (xs : List String). render true (reverse_aux xs [])) (a.adds [])
    ∙ ap (render true) (reverse_aux-twice ns [] [] ∙ append-nil ns)

non_empty-names : (xs : List String) → All IsName xs → non_empty xs ≡ xs
unfolding non_empty
non_empty-names [] h = refl
non_empty-names (x ∷ xs) (hx, h) =
    rw hx.some_text (ap (λ (ys : List String). x ∷ ys) (non_empty-names xs h))

-- A text that begins with a slash and adds names to a path.
record IsPath (p : String) (ns : List String) : Type 0 where
  root : rooted p ≡ true
  names : Adds p ns

render-IsPath : (ns : List String) → All IsName ns → IsPath (render true ns) ns
render-IsPath ns h = record { root = render-rooted ns; names = render-Adds ns h }

append-IsPath :
    (p t : String) (ms ns : List String)
    → IsPath p ms
    → Adds t ns
    → IsPath (p <> ("/" <> t)) (ms ++ ns)
append-IsPath p t ms ns h a = record {
  root = rooted-append p ("/" <> t) h.root;
  names = append-Adds p t ms ns h.names a;
}

join-IsPath :
    (p : String) (ms xs : List String)
    → IsPath p ms
    → All IsName xs
    → IsPath (join (p ∷ xs) "/") (ms ++ xs)
unfolding join
join-IsPath p ms [] h hx = subst (IsPath p) (sym (append-nil ms)) h
join-IsPath p ms (x ∷ xs) h hx =
    append-IsPath p (join (x ∷ xs) "/") ms (x ∷ xs) h (names-Adds (x ∷ xs) hx)

path_join-clean :
    (p : String) (ps : List String)
    → (p == "") ≡ false
    → non_empty ps ≡ ps
    → path_join (p ∷ ps) ≡ clean (join (p ∷ ps) "/")
unfolding path_join non_empty
path_join-clean p ps h e =
    rw (h, path_join) (ap (λ (qs : List String). clean (join (p ∷ qs) "/")) e)

-- Names that are joined to a path of names.
pub path_join-names :
    (ms xs : List String)
    → All IsName ms
    → All IsName xs
    → path_join (render true ms ∷ xs) ≡ render true (ms ++ xs)
path_join-names ms xs hm hx =
    path_join-clean (render true ms) xs (rooted-eq-empty _ (render-rooted ms))
      (non_empty-names xs hx)
    ∙ clean-Adds _ (ms ++ xs) joined.root joined.names
  where
    joined : IsPath (join (render true ms ∷ xs) "/") (ms ++ xs)
    joined = join-IsPath (render true ms) ms xs (render-IsPath ms hm) hx

-- A path that is joined to another one is put behind it.
pub path_join-paths :
    (ms ns : List String)
    → All IsName ms
    → All IsName ns
    → path_join (render true ms ∷ render true ns ∷ []) ≡ render true (ms ++ ns)
path_join-paths ms ns hm hn =
    path_join-clean (render true ms) _ (rooted-eq-empty _ (render-rooted ms)) one
    ∙ clean-Adds _ (ms ++ ns) joined.root joined.names
  where
    one : non_empty (render true ns ∷ []) ≡ render true ns ∷ []
    one = unfold non_empty in rw (rooted-eq-empty (render true ns) (render-rooted ns)) refl

    joined : IsPath (join (render true ms ∷ render true ns ∷ []) "/") (ms ++ ns)
    joined = unfold join in append-IsPath _ _ ms ns (render-IsPath ms hm) (render-Adds ns hn)
