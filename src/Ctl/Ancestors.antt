-- ===== src/Ctl/Ancestors.antt =====
-- The directories that the loop over the parents of a directory collects: the directory and the
-- directories above it, the most general one first.
use beegfs_csi_driver.Prelude.{
  ℕ, zero, suc, ◌≤◌, String, ◌≡◌, refl, sym, ap, ◌∙◌, true, false, some, List, [], ◌∷◌, ◌++◌, ◌==◌,
  eq_iff, arith, length, All, All-append, append_assoc, Bool-cases, inl, inr, ◌⊎◌, subst,
}
use beegfs_csi_driver.Text.Path.{segments, render, dir}
use beegfs_csi_driver.Text.Path.Names.{IsName}
use beegfs_csi_driver.Text.Path.Last.{dir-snoc, segments-snoc}
use beegfs_csi_driver.Ctl.{parents, dirs_to_make}

-- The paths of the names below a base, each one with all the names before it.
abbrev pub ancestors : List String → List String → List String
ancestors above [] = []
ancestors above (x ∷ xs) = render true (above ++ x ∷ []) ∷ ancestors (above ++ x ∷ []) xs

ancestors-snoc :
    (above xs : List String) (x : String)
    → ancestors above (xs ++ x ∷ [])
      ≡ ancestors above xs ++ render true (above ++ (xs ++ x ∷ [])) ∷ []
ancestors-snoc above [] x = refl
ancestors-snoc above (y ∷ ys) x =
    ap (λ (ps : List String). render true (above ++ y ∷ []) ∷ ps)
      (ancestors-snoc (above ++ y ∷ []) ys x
        ∙ ap (λ (ns : List String). ancestors (above ++ y ∷ []) ys ++ render true ns ∷ [])
            (append_assoc above (y ∷ []) (ys ++ x ∷ [])))

length-snoc : (xs : List String) (x : String) → length (xs ++ x ∷ []) ≡ suc (length xs)
length-snoc [] x = omega arith
length-snoc (y ∷ ys) x = omega (arith, length-snoc ys x)

-- A path of names is no root.
root-neq :
    (xs : List String) (x : String)
    → All IsName xs
    → IsName x
    → (render true (xs ++ x ∷ []) == "/") ≡ false
root-neq xs x hs h = elim (Bool-cases (render true (xs ++ x ∷ []) == "/")) [
  | inr other ↦ other
  | inl same ↦ absurd (
      no xs hs (
        sym (segments-snoc xs x (All-append IsName xs (x ∷ []) hs (h, tt)))
        ∙ ap segments ((eq_iff _ "/").0 same)
        ∙ root))
]
  where
    root : segments "/" ≡ "" ∷ "" ∷ []
    root = unfold segments in refl

    no : (ys : List String) → All IsName ys → (("" ∷ ys) ++ x ∷ []) ≡ ("" ∷ "" ∷ []) → ⊥
    no [] a e = absurd (cc (h.some_text, (eq_iff x "").1 (cc)))
    no (y ∷ ys) (ay, a) e = absurd (cc (ay.some_text, (eq_iff y "").1 (cc)))

parents-root :
    (fuel : ℕ) (dirs : List String) → parents (suc fuel) (render true []) dirs ≡ some dirs
unfolding parents render
parents-root fuel dirs = refl

parents-step :
    (fuel : ℕ) (p : String) (dirs : List String)
    → (p == "/") ≡ false
    → parents (suc fuel) p dirs ≡ parents fuel (dir p) (p ∷ dirs)
unfolding parents
parents-step fuel p dirs h = rw (h, parents) refl

-- A list is empty, or it has a last item.
snoc-cases :
    (ms : List String) → (ms ≡ []) ⊎ ((xs : List String) × (x : String) × (ms ≡ xs ++ x ∷ []))
snoc-cases [] = inl refl
snoc-cases (m ∷ ms) = elim (snoc-cases ms) [
  | inl e ↦ inr ([], m, ap (λ (ns : List String). m ∷ ns) e)
  | inr (xs, x, e) ↦ inr (m ∷ xs, x, ap (λ (ns : List String). m ∷ ns) e)
]

All-snoc : (xs : List String) (x : String) → All IsName (xs ++ x ∷ []) → All IsName xs × IsName x
All-snoc [] x (h, u) = (tt, h)
All-snoc (y ∷ ys) x (hy, h) = let (a, b) = All-snoc ys x h in ((hy, a), b)

parents-ancestors :
    (fuel : ℕ) (ms dirs : List String)
    → All IsName ms
    → suc (length ms) ≤ fuel
    → parents fuel (render true ms) dirs ≡ some (ancestors [] ms ++ dirs)
parents-ancestors zero ms dirs h n = absurd (omega arith)
parents-ancestors (suc fuel) ms dirs h n = go (snoc-cases ms) (λ xs x. parents-ancestors fuel xs x)
  where
    go :
        (ms ≡ []) ⊎ ((xs : List String) × (x : String) × (ms ≡ xs ++ x ∷ []))
        → ((xs ds : List String)
            → All IsName xs
            → suc (length xs) ≤ fuel
            → parents fuel (render true xs) ds ≡ some (ancestors [] xs ++ ds))
        → parents (suc fuel) (render true ms) dirs ≡ some (ancestors [] ms ++ dirs)
    go (inl e) again =
        subst
          (λ (ns : List String).
            parents (suc fuel) (render true ns) dirs ≡ some (ancestors [] ns ++ dirs))
          (sym e) (parents-root fuel dirs)
    go (inr (xs, x, e)) again =
        let (hs, hx) = All-snoc xs x (subst (All IsName) e h) in
        subst
          (λ (ns : List String).
            parents (suc fuel) (render true ns) dirs ≡ some (ancestors [] ns ++ dirs))
          (sym e)
          (parents-step fuel (render true (xs ++ x ∷ [])) dirs (root-neq xs x hs hx)
            ∙ ap (λ (p : String). parents fuel p (render true (xs ++ x ∷ []) ∷ dirs))
                (dir-snoc xs x hs hx)
            ∙ again xs (render true (xs ++ x ∷ []) ∷ dirs) hs
                (omega (arith, n, ap length e, length-snoc xs x))
            ∙ ap some (
                sym (
                  ap (λ (ps : List String). ps ++ dirs) (ancestors-snoc [] xs x)
                  ∙ append_assoc (ancestors [] xs) (render true (xs ++ x ∷ []) ∷ []) dirs)))

pub dirs_to_make-ancestors :
    (xs : List String) (x : String)
    → All IsName xs
    → IsName x
    → dirs_to_make (render true (xs ++ x ∷ [])) ≡ some (ancestors [] (xs ++ x ∷ []))
unfolding dirs_to_make
dirs_to_make-ancestors xs x hs hx =
    ap (λ (p : String). parents (length (segments whole)) p (whole ∷ [])) (dir-snoc xs x hs hx)
    ∙ parents-ancestors (length (segments whole)) xs (whole ∷ []) hs (
        omega (
          arith,
          ap length (segments-snoc xs x (All-append IsName xs (x ∷ []) hs (hx, tt))),
          length-snoc ("" ∷ xs) x,
        ))
    ∙ ap some (sym (ancestors-snoc [] xs x))
  where
    whole : String
    whole = render true (xs ++ x ∷ [])
