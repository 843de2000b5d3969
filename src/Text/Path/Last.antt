-- ===== src/Text/Path/Last.antt =====
-- `Dir` and `Base` on a rooted path of names take its last name off.
use mathlib.Core.List.{reverse_aux}
use text.Mathlib.TextLemmas.{nil-append}
use beegfs_csi_driver.Prelude.{
  ◌≢◌, eq_iff, String, ◌<>◌, ◌≡◌, refl, sym, ap, ◌∙◌, Bool, true, false, List, [], ◌∷◌, ◌++◌, ◌==◌,
  append-nil, All, All-append,
}
use beegfs_csi_driver.Text.Strings.{join}
use beegfs_csi_driver.Text.Path.{segments, keep, reduce, render, init, dir, base, last_non_empty}
use beegfs_csi_driver.Text.Path.Segments.{render-rooted}
use beegfs_csi_driver.Text.Path.Parents.{rooted-eq-empty}
use beegfs_csi_driver.Text.Path.Names.{
  IsName, segments-append, segments-of_segment, reduce-names, reverse_aux-twice,
}

segments-join :
    (x : String) (xs : List String) → All IsName (x ∷ xs) → segments (join (x ∷ xs) "/") ≡ x ∷ xs
unfolding join
segments-join x [] (hx, h) = segments-of_segment x hx.segment
segments-join x (y ∷ ys) (hx, h) =
    segments-append x (join (y ∷ ys) "/")
    ∙ ap (λ (zs : List String). zs ++ segments (join (y ∷ ys) "/"))
        (segments-of_segment x hx.segment)
    ∙ ap (λ (zs : List String). x ∷ zs) (segments-join y ys h)

segments-render :
    (x : String) (xs : List String)
    → All IsName (x ∷ xs)
    → segments (render true (x ∷ xs)) ≡ "" ∷ x ∷ xs
unfolding render segments
segments-render x xs h =
    ap segments (sym (nil-append ("/" <> join (x ∷ xs) "/")))
    ∙ segments-append "" (join (x ∷ xs) "/")
    ∙ ap (λ (zs : List String). "" ∷ zs) (segments-join x xs h)

init-snoc : (xs : List String) (x : String) → init (xs ++ x ∷ []) ≡ xs
unfolding init
init-snoc [] x = refl
init-snoc (y ∷ []) x = refl
init-snoc (y ∷ z ∷ xs) x = ap (λ (zs : List String). y ∷ zs) (init-snoc (z ∷ xs) x)

last-snoc :
    (xs : List String) (x found : String)
    → (x == "") ≡ false
    → last_non_empty (xs ++ x ∷ []) found ≡ x
unfolding last_non_empty
last-snoc [] x found h = rw h refl
last-snoc (y ∷ xs) x found h = last-snoc xs x _ h

pub segments-snoc :
    (xs : List String) (x : String)
    → All IsName (xs ++ x ∷ [])
    → segments (render true (xs ++ x ∷ [])) ≡ ("" ∷ xs) ++ x ∷ []
segments-snoc [] x h = segments-render x [] h
segments-snoc (y ∷ ys) x h = segments-render y (ys ++ x ∷ []) h

-- The directory and the last name of a path of names.
pub dir-snoc :
    (xs : List String) (x : String)
    → All IsName xs
    → IsName x
    → dir (render true (xs ++ x ∷ [])) ≡ render true xs
unfolding dir
dir-snoc xs x hs h =
    ap (λ (b : Bool). render b (reverse_aux (reduce b (init (segments p)) []) []))
      (render-rooted (xs ++ x ∷ []))
    ∙ ap (λ (segs : List String). render true (reverse_aux (reduce true segs []) []))
        (ap init (segments-snoc xs x (All-append IsName xs (x ∷ []) hs (h, tt)))
          ∙ init-snoc ("" ∷ xs) x)
    ∙ ap (λ (kept : List String). render true (reverse_aux kept []))
        (unfold reduce keep in reduce-names xs [] hs)
    ∙ ap (render true) (reverse_aux-twice xs [] [] ∙ append-nil xs)
  where
    p : String
    p = render true (xs ++ x ∷ [])

pub base-snoc :
    (xs : List String) (x : String)
    → All IsName xs
    → IsName x
    → base (render true (xs ++ x ∷ [])) ≡ x
unfolding base
base-snoc xs x hs h = rw (rooted-eq-empty _ (render-rooted (xs ++ x ∷ []))) (
    ap (λ (segs : List String). last_non_empty segs "/")
      (segments-snoc xs x (All-append IsName xs (x ∷ []) hs (h, tt)))
    ∙ last-snoc ("" ∷ xs) x "/" h.some_text)

snoc-neq : (xs : List String) (x : String) → (xs ++ x ∷ []) ≡ xs → ⊥
snoc-neq [] x e = absurd (cc)
snoc-neq (y ∷ ys) x e = snoc-neq ys x (cc)

-- A path with one more name is another one.
pub render-snoc-neq :
    (xs : List String) (x : String)
    → All IsName xs
    → IsName x
    → render true (xs ++ x ∷ []) ≢ render true xs
render-snoc-neq [] x hs h e = named (sym (segments-render x [] (h, tt)) ∙ ap segments e ∙ root)
  where
    root : segments (render true []) ≡ "" ∷ "" ∷ []
    root = unfold render segments in refl

    named : ("" ∷ x ∷ []) ≡ ("" ∷ "" ∷ []) → ⊥
    named e = absurd (cc (h.some_text, (eq_iff x "").1 (cc)))
render-snoc-neq (y ∷ ys) x hs h e = snoc-neq ("" ∷ y ∷ ys) x (
    sym (segments-snoc (y ∷ ys) x (All-append IsName (y ∷ ys) (x ∷ []) hs (h, tt)))
    ∙ ap segments e
    ∙ segments-render y ys hs)
