-- ===== src/Node/Staging.antt =====
-- When NodeStageVolume mounts a volume: only after the directory of the volume was found.
use beegfs_csi_driver.Prelude.{
  String, ◌≡◌, Bool, true, false, List, [], ◌∷◌, ◌<>◌, ◌⊎◌, inl, inr, refl, some, ◌++◌, member,
  member-append, arith, if◌then◌else◌,
}
use beegfs_csi_driver.Prelude.Result.{Result, ok, err, pure, fail, ◌>>=◌, ◌>>◌}
use beegfs_csi_driver.Text.Path.{path_join}
use beegfs_csi_driver.Errors.{Cause, internal, is_not_exist}
use beegfs_csi_driver.Volume.{BeegfsVolume}
use beegfs_csi_driver.Capability.{VolumeCapability, is_valid_volume_capability, mount_flags_of}
use beegfs_csi_driver.Host.{
  Host, History, Call, Io, mkdir, stat, write_file, dir_exists, is_likely_not_mount_point, mount,
  selinux_enabled, act,
}
use beegfs_csi_driver.Host.Trace.{
  Since, SinceEnd, here, later, Since-trans, Makes, pure-Makes, call-Makes, bind-Makes, Guarded,
  check-Guarded, before-Guarded, known-Guarded, computed-Guarded,
}
use beegfs_csi_driver.Mount.Options.{base_mount_options_lem}
use beegfs_csi_driver.Mount.{
  base_mount_options, add_context, has_context, construct_mount_options, likely_not_mounted,
  mount_if_necessary,
}
use beegfs_csi_driver.ClientFiles.{write_client_files}
use beegfs_csi_driver.Node.{
  checked_capability, Settings, Handler, NodeStageVolumeRequest, stage_arguments, on_host,
  best_effort, stat_volume, volume_from, node_path, track, node_stage_volume,
}
use beegfs_csi_driver.Node.Calls.{
  checked_capability-eq, Prepares, looks, runs, on_host-Makes, best_effort-Makes, stat_volume-Makes,
  write_client_files-Makes,
}

-- The options of the mount: those that are wanted, without the invalid ones, and the volume's own
-- client configuration, with or without the security context.
pub record AreMountOptions (h : Host) (vol : BeegfsVolume) (wanted opts : List String)
    : Type 0 where
  pub own : member ("cfgFile=" <> vol.client_conf_path) opts ≡ true
  pub made :
      (opts ≡ base_mount_options wanted vol)
      ⊎ (opts ≡ add_context h.default_context (base_mount_options wanted vol))

add_context-member :
    (context opt : String) (opts : List String)
    → member opt opts ≡ true
    → member opt (add_context context opts) ≡ true
unfolding add_context
add_context-member context opt opts h = choose (has_context opts)
  where
    choose :
        (b : Bool) → member opt (if b then opts else opts ++ ("context=" <> context) ∷ []) ≡ true
    choose true = h
    choose false = ground (arith, h, member-append opt opts (("context=" <> context) ∷ []))

construct-AreMountOptions :
    (h : Host) (vol : BeegfsVolume) (wanted : List String) (enabled : Bool)
    → AreMountOptions h vol wanted (
        if enabled
        then add_context h.default_context (base_mount_options wanted vol)
        else base_mount_options wanted vol)
construct-AreMountOptions h vol wanted true = record {
  own = add_context-member _ _ _ (base_mount_options_lem wanted vol).0;
  made = inr refl;
}
construct-AreMountOptions h vol wanted false = record {
  own = (base_mount_options_lem wanted vol).0;
  made = inl refl;
}

-- What NodeStageVolume does after the directory of the volume was found: it mounts the file system and
-- leaves a file for the node.
pub data Mounts (h : Host) (cfg : Settings) (req : NodeStageVolumeRequest) (vol : BeegfsVolume)
    : Call → Type 0 where
  asks_context : Mounts h cfg req vol selinux_enabled
  asks_mounted : Mounts h cfg req vol (is_likely_not_mount_point vol.mount_path)
  makes_mount_point : Mounts h cfg req vol (mkdir vol.mount_path 0o750)
  mounts_volume :
      (c : VolumeCapability) (opts : List String)
      → req.volume_capability ≡ some c
      → is_valid_volume_capability c ≡ true
      → AreMountOptions h vol (mount_flags_of c) opts
      → Mounts h cfg req vol (mount "beegfs_nodev" vol.mount_path "beegfs" opts)
  asks_tracked : Mounts h cfg req vol (dir_exists (path_join (vol.csi_dir_path ∷ "nodes" ∷ [])))
  tracks : Mounts h cfg req vol (
      write_file
        (path_join (path_join (vol.csi_dir_path ∷ "nodes" ∷ []) ∷ cfg.node_id ∷ []))
        ""
        0o640)

stage_arguments-eq :
    (req : NodeStageVolumeRequest) (c : VolumeCapability)
    → stage_arguments req ≡ ok c
    → checked_capability req.volume_capability ≡ ok c
unfolding stage_arguments
stage_arguments-eq req c e = ground arith

module _ (h : Host) (cfg : Settings) (req : NodeStageVolumeRequest) (vol : BeegfsVolume) where
  abbrev Q : Call → Type 0
  Q = Mounts h cfg req vol

  likely_not_mounted-Makes : Makes Q (likely_not_mounted h vol.mount_path)
  unfolding likely_not_mounted ◌>>=◌ pure fail
  likely_not_mounted-Makes = record {
    since = λ s. outcome s (h.bool_reply s (is_likely_not_mount_point vol.mount_path));
  }
    where
      made : Makes Q (act h (mkdir vol.mount_path 0o750) >>= λ _. pure true)
      made = bind-Makes Q _ _ (call-Makes Q _ _ makes_mount_point) λ _. pure-Makes Q true

      absent :
          (s t : History) (e : Cause) (b : Bool)
          → Since Q s t
          → SinceEnd {E = Cause} {A = Bool} Q s (elim b [
            | true ↦ (act h (mkdir vol.mount_path 0o750) >>= λ _. pure true) t
            | false ↦ (err e, t)
          ])
      absent s t e true p = Since-trans p (made.since t)
      absent s t e false p = p

      outcome :
          (s : History) (r : Result Cause Bool)
          → SinceEnd {E = Cause} {A = Bool} Q s (elim r [
            | ok not_mnt ↦ (ok not_mnt, is_likely_not_mount_point vol.mount_path ∷ s)
            | err e ↦ elim (is_not_exist e) [
              | true ↦
                  (act h (mkdir vol.mount_path 0o750) >>= λ _. pure true)
                    (is_likely_not_mount_point vol.mount_path ∷ s)
              | false ↦ (err e, is_likely_not_mount_point vol.mount_path ∷ s)
            ]
          ])
      outcome s (ok b) = later _ asks_mounted here
      outcome s (err e) = absent s _ e (is_not_exist e) (later _ asks_mounted here)

  mount_if_necessary-Makes :
      (c : VolumeCapability)
      → req.volume_capability ≡ some c
      → is_valid_volume_capability c ≡ true
      → Makes Q (mount_if_necessary h vol (mount_flags_of c))
  unfolding mount_if_necessary construct_mount_options ◌>>=◌
  mount_if_necessary-Makes c is valid = record {
    since = λ s. Since-trans (later _ asks_context here) (
        (bind-Makes Q _ _ likely_not_mounted-Makes λ not_mnt. choose not_mnt _ (
            construct-AreMountOptions h vol (mount_flags_of c)
              (h.flag_reply s selinux_enabled))).since
          (selinux_enabled ∷ s));
  }
    where
      choose :
          (b : Bool) (opts : List String)
          → AreMountOptions h vol (mount_flags_of c) opts
          → Makes Q (elim b as (λ (_ : Bool). Io (Unit {0})) [
            | false ↦ pure tt
            | true ↦ act h (mount "beegfs_nodev" vol.mount_path "beegfs" opts)
          ])
      choose true opts are = call-Makes Q _ _ (mounts_volume c opts is valid are)
      choose false opts are = pure-Makes Q tt

  track-Makes : Makes Q (track h cfg vol)
  unfolding track
  track-Makes = bind-Makes Q _ _ (call-Makes Q _ _ asks_tracked) λ there. choose there
    where
      choose :
          (b : Bool)
          → Makes Q (elim b as (λ (_ : Bool). Io (Unit {0})) [
            | false ↦ pure tt
            | true ↦ act h (write_file (node_path h cfg vol) "" 0o640)
          ])
      choose true = call-Makes Q _ _ tracks
      choose false = pure-Makes Q tt

  abbrev P : Call → Type 0
  P = Prepares vol cfg.client_conf_template_path

  staged-Guarded :
      (c : VolumeCapability) (s : History)
      → req.volume_capability ≡ some c
      → is_valid_volume_capability c ≡ true
      → Guarded P Q (stat_volume h cfg vol) s (
          (on_host internal (act h (stat vol.mount_dir_path))
              >> (on_host internal (write_client_files h vol cfg.client_conf_template_path)
                  >> (stat_volume h cfg vol
                      >> (on_host internal (mount_if_necessary h vol (mount_flags_of c))
                          >> best_effort (track h cfg vol)))))
            s)
  staged-Guarded c s is valid =
      (before-Guarded P Q check _ _ (on_host-Makes P internal _ (call-Makes P _ _ looks)) λ _.
          before-Guarded P Q check _ _
            (on_host-Makes P internal _ (write_client_files-Makes h vol _))
            λ _.
              check-Guarded P Q check _
                (stat_volume-Makes h P (λ version args. runs version args) cfg vol)
                (bind-Makes Q _ _ (on_host-Makes Q internal _ (mount_if_necessary-Makes c is valid))
                  λ _. best_effort-Makes Q _ track-Makes))
        s
    where
      check : Handler (Unit {0})
      check = stat_volume h cfg vol

-- NodeStageVolume: until it has found the directory of the volume, it only looks at the staging
-- directory, writes the client's files into it and runs the tools. Only afterwards it mounts, and
-- nothing but the mount path of the volume: a BeeGFS mount whose options are those of the requested
-- capability without the invalid ones, or the default ones if there are none, the volume's own client
-- configuration, and perhaps the security context. Where the directory is not found, the request
-- fails and nothing is mounted.
pub node_stage_volume-Guarded :
    (h : Host) (cfg : Settings) (req : NodeStageVolumeRequest) (vol : BeegfsVolume) (s : History)
    → volume_from h cfg req.staging_target_path req.volume_id ≡ ok vol
    → Guarded
        (Prepares vol cfg.client_conf_template_path)
        (Mounts h cfg req vol)
        (stat_volume h cfg vol)
        s
        (node_stage_volume h cfg req s)
unfolding node_stage_volume
node_stage_volume-Guarded h cfg req vol s is_vol =
    computed-Guarded _ _ _ (stage_arguments req) _ s λ c e.
      let (is, valid) = checked_capability-eq _ c (stage_arguments-eq req c e) in
      known-Guarded _ _ _ _ _ vol s is_vol (staged-Guarded h cfg req vol c s is valid)
