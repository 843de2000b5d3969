-- ===== src/Ctl/Parents.antt =====
-- The loop that collects the parents of a directory ends.
use beegfs_csi_driver.Prelude.{
  ℕ, zero, suc, ◌≤◌, String, ◌≡◌, refl, sym, ap, ◌∙◌, true, false, some, List, [], ◌∷◌, ◌==◌, arith,
  length, All, Bool-cases, inl, inr,
}
use beegfs_csi_driver.Text.Strings.{join}
use beegfs_csi_driver.Text.Path.{segments, rooted, render, dir, path_join}
use beegfs_csi_driver.Text.Path.Segments.{
  slashes-render, slashes, IsSegment, length-segments, render-rooted,
}
use beegfs_csi_driver.Text.Path.Parents.{IsBelow, dir-IsBelow, rooted-path_join}
use beegfs_csi_driver.Ctl.{parents, dirs_to_make}

slashes-IsBelow :
    (segs : List String)
    → All IsSegment segs
    → (render true segs == "/") ≡ false
    → slashes (render true segs) ≡ length segs
slashes-IsBelow [] a h = unfold render join in absurd (cc)
slashes-IsBelow (x ∷ xs) a h = slashes-render x xs a

-- From a rooted path of segments the loop ends within one round for each segment and one more.
parents_end :
    (fuel n : ℕ) (p : String) (dirs : List String)
    → IsBelow n p
    → n ≤ fuel
    → (found : List String) × (parents fuel p dirs ≡ some found)
unfolding parents
parents_end zero n p dirs b h = absurd (omega (arith, b.shorter))
parents_end (suc fuel) n p dirs b h = elim (Bool-cases (p == "/")) [
  | inl end ↦ (dirs, rw end refl)
  | inr more ↦
      let e : (render true b.segs == "/") ≡ false =
        ap (λ (x : String). x == "/") (sym b.rendered) ∙ more in
      let fewer : slashes p ≡ length b.segs =
        ap slashes b.rendered ∙ slashes-IsBelow b.segs b.proper e in
      let (found, e) =
        parents_end fuel (slashes p) (dir p) (p ∷ dirs)
          (dir-IsBelow p (ap rooted b.rendered ∙ render-rooted b.segs))
          (omega (arith, fewer, b.shorter)) in
      (found, rw more e)
]

-- For a path that starts with a slash the loop ends: the directories to make are found within as many
-- rounds as the path has segments. Every path that is joined from such a base path and a name, as a
-- volume's path is, starts with a slash.
pub dirs_to_make-ends :
    (path : String)
    → rooted path ≡ true
    → ((found : List String) × (dirs_to_make path ≡ some found))
      × ((name : String)
          → (found : List String) × (dirs_to_make (path_join (path ∷ name ∷ [])) ≡ some found))
unfolding dirs_to_make
dirs_to_make-ends path h = (
  parents_end (length (segments path)) (slashes path) (dir path) (path ∷ []) (dir-IsBelow path h)
      (omega (arith, length-segments path)),
  λ name.
      parents_end (length (segments (path_join (path ∷ name ∷ []))))
        (slashes (path_join (path ∷ name ∷ []))) _ _
        (dir-IsBelow (path_join (path ∷ name ∷ [])) (rooted-path_join path name h))
        (omega (arith, length-segments (path_join (path ∷ name ∷ [])))),
)
