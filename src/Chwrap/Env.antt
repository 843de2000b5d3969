-- ===== src/Chwrap/Env.antt =====
-- modifyEnv: the search path of the command.
use beegfs_csi_driver.Prelude.{
  String, ◌≡◌, refl, ap, ◌∙◌, Bool, true, false, not, ◌&&◌, ◌||◌, List, [], ◌∷◌, ◌++◌, append-nil,
  ◌==◌, eq_iff, member, All, Bool-cases, inl, inr,
}
use beegfs_csi_driver.Text.Strings.{has_prefix}
use beegfs_csi_driver.Chwrap.{without_path, path_entry, modify_env}

-- An entry that is not a search path.
abbrev pub IsOther : String → Type 0
IsOther e = has_prefix e "PATH=" ≡ false

without_path-IsOther : (env : List String) → All IsOther (without_path env)
unfolding without_path
without_path-IsOther [] = tt
without_path-IsOther (e ∷ env) = elim (Bool-cases (has_prefix e "PATH=")) [
  | inl p ↦ rw p (without_path-IsOther env)
  | inr o ↦ rw o (o, without_path-IsOther env)
]

same_prefix : (e x : String) → (e == x) ≡ true → has_prefix e "PATH=" ≡ has_prefix x "PATH="
same_prefix e x h = ap (λ y. has_prefix y "PATH=") ((eq_iff e x).0 h)

dropped : (q same m : Bool) → (same ≡ true → q ≡ true) → (not q && m) ≡ (not q && (same || m))
dropped true same m h = refl
dropped false true m h = cc (h refl)
dropped false false m h = refl

kept :
    (q same m : Bool) → (same ≡ true → q ≡ false) → (same || (not q && m)) ≡ (not q && (same || m))
kept true true m h = cc (h refl)
kept true false m h = refl
kept false same m h = refl

without_path-member :
    (e : String) (env : List String)
    → member e (without_path env) ≡ (not (has_prefix e "PATH=") && member e env)
unfolding without_path member
without_path-member e [] = none_left (has_prefix e "PATH=")
  where
    none_left : (q : Bool) → false ≡ (not q && false)
    none_left true = refl
    none_left false = refl
without_path-member e (x ∷ env) = elim (Bool-cases (has_prefix x "PATH=")) [
  | inl p ↦ rw p (without_path-member e env ∙ dropped _ (e == x) _ (λ h. same_prefix e x h ∙ p))
  | inr o ↦ rw o (
      ap (λ b. (e == x) || b) (without_path-member e env)
      ∙ kept _ (e == x) _ (λ h. same_prefix e x h ∙ o))
]

without_path_same : (env : List String) → All IsOther env → without_path env ≡ env
unfolding without_path
without_path_same [] all = refl
without_path_same (e ∷ env) (o, all) = rw o (ap (λ es. e ∷ es) (without_path_same env all))

without_path-append :
    (xs ys : List String) → without_path (xs ++ ys) ≡ without_path xs ++ without_path ys
unfolding without_path
without_path-append [] ys = refl
without_path-append (x ∷ xs) ys = elim (Bool-cases (has_prefix x "PATH=")) [
  | inl p ↦ rw p (without_path-append xs ys)
  | inr o ↦ rw o (ap (λ es. x ∷ es) (without_path-append xs ys))
]

-- In the changed environment, exactly one entry is a search path, and it is the last one; every other
-- entry stays; and to change the environment again changes nothing.
pub modify_env_lem :
    (env : List String)
    → ((rest : List String) × (modify_env env ≡ rest ++ path_entry ∷ [])
        × All IsOther rest
        × ((e : String) → member e rest ≡ (not (has_prefix e "PATH=") && member e env)))
      × (modify_env (modify_env env) ≡ modify_env env)
unfolding modify_env
modify_env_lem env = (
  (without_path env, refl, without_path-IsOther env, λ e. without_path-member e env),
  ap (λ es. es ++ path_entry ∷ [])
      (without_path-append (without_path env) (path_entry ∷ [])
        ∙ append-nil _
        ∙ without_path_same (without_path env) (without_path-IsOther env)),
)
