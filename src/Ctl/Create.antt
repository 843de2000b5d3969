-- ===== src/Ctl/Create.antt =====
-- The directories that createDirectoryForVolume makes, and when a stripe pattern is set.
use beegfs_csi_driver.Prelude.{
  All, Bool-cases, false, String, ◌≡◌, ◌↔◌, inl, inr, refl, true, ◌&&◌, none, some, List, [], ◌∷◌,
  ◌++◌, arith, ◌==◌,
}
use beegfs_csi_driver.Prelude.Result.{Result, ok, err}
use beegfs_csi_driver.Errors.{Cause, diverges, is_ctl_exist, is_ctl_not_exist}
use beegfs_csi_driver.Params.{StripePatternConfig}
use beegfs_csi_driver.Volume.{BeegfsVolume}
use beegfs_csi_driver.Volume.Mode.{PermissionsConfig}
use beegfs_csi_driver.Host.{Host, History, Call, command}
use mathlib.Core.Bool.{cond}
use beegfs_csi_driver.Text.Path.{render}
use beegfs_csi_driver.Text.Path.Names.{IsName}
use beegfs_csi_driver.Ctl.Ancestors.{ancestors, dirs_to_make-ancestors}
use beegfs_csi_driver.Ctl.{
  CtlVersion, v7, v8, classify, tool, full_args, exec_beegfs_cmd, execute, make_dirs, dirs_to_make,
  construct_create_dir_for_volume_args, version_create_directory, version_stat_directory,
  construct_set_pattern_for_volume_args,
}

-- A stripe pattern is set, with either tool, unless all its settings are empty.
pub construct_set_pattern_for_volume_args-none :
    (cfg : StripePatternConfig) (version : CtlVersion)
    → (construct_set_pattern_for_volume_args cfg version ≡ none)
      ↔ ((cfg.storage_pool_id == "") && ((cfg.chunk_size == "") && (cfg.num_targets == "")) ≡ true)
unfolding construct_set_pattern_for_volume_args
construct_set_pattern_for_volume_args-none cfg v8 = ground arith
construct_set_pattern_for_volume_args-none cfg v7 = ground arith

module _ (h : Host) (version : CtlVersion) (vol : BeegfsVolume) where
  -- The call that makes a directory.
  abbrev pub create_call : List String → String → Call
  create_call args path = command (tool version) (full_args version vol (args ++ path ∷ []))

  -- The run that makes some directories in their order: an answer that the directory exists already
  -- is no error, and the first other error is the last call and the result.
  pub data Making (args : List String)
      : History → List String → Result Cause (Unit {0}) × History → Type 0 where
    all_made : {s : History} → Making args s [] (ok tt, s)
    makes :
        {s : History} {path : String} {paths : List String} {out : String}
        {run : Result Cause (Unit {0}) × History}
        → classify (h.command_reply s (create_call args path)) ≡ ok out
        → Making args (create_call args path ∷ s) paths run
        → Making args s (path ∷ paths) run
    exists_already :
        {s : History} {path : String} {paths : List String} {e : Cause}
        {run : Result Cause (Unit {0}) × History}
        → classify (h.command_reply s (create_call args path)) ≡ err e
        → is_ctl_exist e ≡ true
        → Making args (create_call args path ∷ s) paths run
        → Making args s (path ∷ paths) run
    breaks :
        {s : History} {path : String} {paths : List String} {e : Cause}
        → classify (h.command_reply s (create_call args path)) ≡ err e
        → is_ctl_exist e ≡ false
        → Making args s (path ∷ paths) (err e, create_call args path ∷ s)

  -- What is made of a directory, by what the tool says of it before: nothing if it is there, and if
  -- it is not, it and all directories above it, the most general one first.
  pub data Creating (args names : List String) (t : History)
      : Result Cause String → Result Cause (Unit {0}) × History → Type 0 where
    there : {out : String} → Creating args names t (ok out) (ok tt, t)
    unknown : {e : Cause} → is_ctl_not_exist e ≡ false → Creating args names t (err e) (err e, t)
    missing :
        {e : Cause} {run : Result Cause (Unit {0}) × History}
        → is_ctl_not_exist e ≡ true
        → Making args t (ancestors [] names) run
        → Creating args names t (err e) run

  make_dirs-Making :
      (args paths : List String) (s : History)
      → Making args s paths (make_dirs h version vol args paths s)
  unfolding make_dirs execute exec_beegfs_cmd
  make_dirs-Making args [] s = all_made
  make_dirs-Making args (path ∷ paths) s =
      answered (classify (h.command_reply s (create_call args path))) refl
        (make_dirs-Making args paths (create_call args path ∷ s))
    where
      answered :
          (r : Result Cause String)
          → classify (h.command_reply s (create_call args path)) ≡ r
          → Making args
              (create_call args path ∷ s)
              paths
              (make_dirs h version vol args paths (create_call args path ∷ s))
          → Making args s
              (path ∷ paths)
              (elim r as (λ (_ : Result Cause String). Result Cause (Unit {0}) × History) [
                | ok out ↦ make_dirs h version vol args paths (create_call args path ∷ s)
                | err e ↦
                    cond
                      (is_ctl_exist e)
                      (make_dirs h version vol args paths (create_call args path ∷ s))
                      (err e, create_call args path ∷ s)
              ])
      answered (ok out) is more = makes is more
      answered (err e) is more = elim (Bool-cases (is_ctl_exist e)) [
        | inl exists ↦ rw exists (exists_already is exists more)
        | inr other ↦ rw other (breaks is other)
      ]

  -- Creating a directory that a path of names leads to, with either tool and whatever the tool
  -- answers: nothing is made if it is there; if it is not there, it is made with all its parents in
  -- order, the most general one first, and a directory that exists by then is no error; the first
  -- other error ends the run.
  pub version_create_directory-Creating :
      (names : List String) (name : String) (cfg : PermissionsConfig) (s : History)
      → All IsName names
      → IsName name
      → Creating
          (construct_create_dir_for_volume_args cfg version)
          (names ++ name ∷ [])
          (version_stat_directory h version vol (render true (names ++ name ∷ [])) s).1
          (version_stat_directory h version vol (render true (names ++ name ∷ [])) s).0
          (version_create_directory h version vol (render true (names ++ name ∷ [])) cfg s)
  unfolding version_create_directory
  version_create_directory-Creating names name cfg s hs hn =
      stated (version_stat_directory h version vol path s).0
        (version_stat_directory h version vol path s).1
    where
      path : String
      path = render true (names ++ name ∷ [])

      stated :
          (r : Result Cause String) (t : History)
          → Creating
              (construct_create_dir_for_volume_args cfg version)
              (names ++ name ∷ [])
              t
              r
              (elim r as (λ (_ : Result Cause String). Result Cause (Unit {0}) × History) [
                | ok out ↦ (ok tt, t)
                | err e ↦ elim (is_ctl_not_exist e) [
                  | false ↦ (err e, t)
                  | true ↦ elim (dirs_to_make (render true (names ++ name ∷ []))) [
                    | none ↦ (err diverges, t)
                    | some dirs ↦
                        make_dirs h version vol
                          (construct_create_dir_for_volume_args cfg version)
                          dirs
                          t
                  ]
                ]
              ])
      stated (ok out) t = there
      stated (err e) t = elim (Bool-cases (is_ctl_not_exist e)) [
        | inr other ↦ rw other (unknown other)
        | inl absent ↦
            rw (absent, dirs_to_make-ancestors names name hs hn)
              (missing absent (
                make_dirs-Making (construct_create_dir_for_volume_args cfg version)
                  (ancestors [] (names ++ name ∷ [])) t))
      ]
