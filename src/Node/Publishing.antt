-- ===== src/Node/Publishing.antt =====
-- When NodePublishVolume mounts a volume: only after the directory of the volume was found.
use beegfs_csi_driver.Prelude.{String, ◌≡◌, Bool, true, false, some, List, ◌∷◌, arith}
use beegfs_csi_driver.Prelude.Result.{Result, ok, err, pure, fail, ◌>>=◌}
use beegfs_csi_driver.Errors.{Cause, internal, is_not_exist}
use beegfs_csi_driver.Volume.{BeegfsVolume}
use beegfs_csi_driver.Capability.{VolumeCapability, is_valid_volume_capability}
use beegfs_csi_driver.Host.{Host, History, Call, mkdir_all, is_mount_point, mount, command, act}
use beegfs_csi_driver.Host.Trace.{
  Since, SinceEnd, here, later, Since-trans, Makes, pure-Makes, call-Makes, bind-Makes, Guarded,
  check-Guarded, known-Guarded, computed-Guarded,
}
use beegfs_csi_driver.Ctl.{CtlVersion, tool}
use beegfs_csi_driver.Node.{
  Settings, Handler, NodePublishVolumeRequest, checked_capability, publish_arguments,
  publish_options, on_host, stat_volume, volume_from, target_mounted, node_publish_volume,
}
use beegfs_csi_driver.Node.Calls.{checked_capability-eq, on_host-Makes, stat_volume-Makes}

-- What NodePublishVolume does before: it runs the tools.
pub data Inquires : Call → Type 0 where
  runs : (version : CtlVersion) (args : List String) → Inquires (command (tool version) args)

-- What it does after the directory of the volume was found: it makes the target and mounts the volume
-- there, with the options of a capability that is supported.
pub data Exposes (req : NodePublishVolumeRequest) (vol : BeegfsVolume) : Call → Type 0 where
  asks_mounted : Exposes req vol (is_mount_point req.target_path)
  makes_target : Exposes req vol (mkdir_all req.target_path 0o750)
  mounts_volume :
      (c : VolumeCapability)
      → req.volume_capability ≡ some c
      → is_valid_volume_capability c ≡ true
      → Exposes req vol
          (mount vol.vol_dir_path req.target_path "beegfs" (publish_options c req.readonly))

publish_arguments-eq :
    (req : NodePublishVolumeRequest) (c : VolumeCapability)
    → publish_arguments req ≡ ok c
    → checked_capability req.volume_capability ≡ ok c
unfolding publish_arguments
publish_arguments-eq req c e = ground arith

module _ (h : Host) (cfg : Settings) (req : NodePublishVolumeRequest) (vol : BeegfsVolume) where
  abbrev Q : Call → Type 0
  Q = Exposes req vol

  target_mounted-Makes : Makes Q (target_mounted h cfg req.target_path)
  unfolding target_mounted ◌>>=◌ pure fail
  target_mounted-Makes = record {
    since = λ s. outcome s (h.bool_reply s (is_mount_point req.target_path));
  }
    where
      made : Makes Q (act h (mkdir_all req.target_path 0o750) >>= λ _. pure false)
      made = bind-Makes Q _ _ (call-Makes Q _ _ makes_target) λ _. pure-Makes Q false

      absent :
          (s t : History) (e : Cause) (b : Bool)
          → Since Q s t
          → SinceEnd {E = Cause} {A = Bool} Q s (elim b [
            | true ↦ (act h (mkdir_all req.target_path 0o750) >>= λ _. pure false) t
            | false ↦ (err e, t)
          ])
      absent s t e true p = Since-trans p (made.since t)
      absent s t e false p = p

      outcome :
          (s : History) (r : Result Cause Bool)
          → SinceEnd {E = Cause} {A = Bool} Q s (elim r [
            | ok is_mnt ↦ (ok is_mnt, is_mount_point req.target_path ∷ s)
            | err e ↦ elim (is_not_exist e) [
              | true ↦
                  (act h (mkdir_all req.target_path 0o750) >>= λ _. pure false)
                    (is_mount_point req.target_path ∷ s)
              | false ↦ (err e, is_mount_point req.target_path ∷ s)
            ]
          ])
      outcome s (ok b) = later _ asks_mounted here
      outcome s (err e) = absent s _ e (is_not_exist e) (later _ asks_mounted here)

  expose : VolumeCapability → Bool → Handler (Unit {0})
  expose c is_mnt = elim is_mnt [
    | true ↦ pure tt
    | false ↦
        on_host internal
          (act h (mount vol.vol_dir_path req.target_path "beegfs" (publish_options c req.readonly)))
  ]

  expose-Makes :
      (c : VolumeCapability) (is_mnt : Bool)
      → req.volume_capability ≡ some c
      → is_valid_volume_capability c ≡ true
      → Makes Q (expose c is_mnt)
  unfolding expose
  expose-Makes c true e valid = pure-Makes Q tt
  expose-Makes c false e valid =
      on_host-Makes Q internal _ (call-Makes Q _ _ (mounts_volume c e valid))

-- NodePublishVolume: until it has found the directory of the volume, it only runs the tools. Afterwards
-- it mounts nothing but the directory of the volume at the target path, with the options of the
-- requested capability, which is supported. Where the directory is not found, the request fails and
-- nothing is mounted.
pub node_publish_volume-Guarded :
    (h : Host) (cfg : Settings) (req : NodePublishVolumeRequest) (vol : BeegfsVolume) (s : History)
    → volume_from h cfg req.staging_target_path req.volume_id ≡ ok vol
    → Guarded Inquires (Exposes req vol) (stat_volume h cfg vol) s (node_publish_volume h cfg req s)
unfolding node_publish_volume expose
node_publish_volume-Guarded h cfg req vol s is_vol =
    computed-Guarded _ _ _ (publish_arguments req) _ s λ c e.
      let (is, valid) = checked_capability-eq _ c (publish_arguments-eq req c e) in
      known-Guarded _ _ _ _ _ vol s is_vol (
        check-Guarded _ _ _ _ (stat_volume-Makes h _ (λ version args. runs version args) cfg vol)
          (bind-Makes _ _ _ (on_host-Makes _ internal _ (target_mounted-Makes h cfg req vol))
            λ is_mnt. expose-Makes h cfg req vol c is_mnt is valid)
          s)
