-- ===== src/Node.antt =====
-- The node service (pkg/beegfs/nodeserver.go). It keeps no state of its own: the state is that of the
-- environment.
pub mod Calls
pub mod Options
pub mod Publishing
pub mod Staging
pub mod Tracking
pub mod Unstaging
use beegfs_csi_driver.Prelude.{
  ℕ, String, Bool, true, false, Option, none, some, List, [], ◌∷◌, ◌++◌, ◌==◌, if◌then◌else◌,
}
use beegfs_csi_driver.Prelude.Result.{
  Result, ok, err, Exec, pure, fail, lift, continue, ◌>>=◌, ◌>>◌,
}
use beegfs_csi_driver.Prelude.Fallible
use beegfs_csi_driver.Text.Path.{path_join}
use beegfs_csi_driver.Errors.{
  Cause, failure, is_ctl_not_exist, is_not_exist, Code, invalid_argument, not_found, internal,
  GrpcError, status, grpc_error,
}
use beegfs_csi_driver.Config.{PluginConfig}
use beegfs_csi_driver.Volume.{BeegfsVolume, new_beegfs_volume_from_id}
use beegfs_csi_driver.Capability.{VolumeCapability, is_valid_volume_capability, mount_flags_of}
use beegfs_csi_driver.Host.{
  Host, History, Io, mkdir_all, stat, write_file, remove, exists, dir_exists, is_mount_point, mount,
  cleanup_mount_point, act, ask,
}
use beegfs_csi_driver.ClientFiles.{write_client_files}
use beegfs_csi_driver.Mount.{
  remove_invalid_mount_options, mount_if_necessary, unmount_and_clean_up_if_necessary,
}
use beegfs_csi_driver.Ctl.{stat_directory_for_volume}

pub record Settings : Type 0 where
  pub node_id : String
  pub plugin_config : PluginConfig
  pub client_conf_template_path : String

abbrev pub Handler : Type 0 → Type 0
Handler = Exec History GrpcError

pub record NodePublishVolumeRequest : Type 0 where
  pub volume_id : String
  pub staging_target_path : String
  pub target_path : String
  pub volume_capability : Option VolumeCapability
  pub readonly : Bool

pub record NodeStageVolumeRequest : Type 0 where
  pub volume_id : String
  pub staging_target_path : String
  pub volume_capability : Option VolumeCapability

abbrev pub invalid : {A : Type 0} → String → Result GrpcError A
invalid message = err (status invalid_argument (failure message))

abbrev pub grpc : {A : Type 0} → Code → Result Cause A → Result GrpcError A
grpc code (ok a) = ok a
grpc code (err e) = err (grpc_error code e)

-- An action on the environment, its errors with a code.
unfoldable pub on_host : {A : Type 0} → Code → Io A → Handler A
on_host code m s = let (r, t) = m s in (grpc code r, t)

-- An action whose error is only logged.
unfoldable pub best_effort : {A : Type 0} → Io A → Handler (Unit {0})
best_effort m s = let (r, t) = m s in (ok tt, t)

-- The capability of a request, which must be there and supported.
unfoldable pub checked_capability : Option VolumeCapability → Result GrpcError VolumeCapability
unfolding is_valid_volume_capability
checked_capability none = invalid "Volume capability not provided"
checked_capability (some c) =
    if is_valid_volume_capability c then ok c else invalid "Volume capability not supported"

-- The options of the bind mount of NodePublishVolume.
unfoldable pub publish_options : VolumeCapability → Bool → List String
unfolding remove_invalid_mount_options
publish_options c readonly =
    remove_invalid_mount_options
      ((mount_flags_of c ++ "bind" ∷ []) ++ (if readonly then "ro" ∷ [] else []))

-- The checks at the beginning of NodePublishVolume and NodeStageVolume.
unfoldable pub publish_arguments : NodePublishVolumeRequest → Result GrpcError VolumeCapability
unfolding checked_capability
publish_arguments req =
    if req.volume_id == ""
    then invalid "Volume ID not provided"
    else if req.staging_target_path == ""
    then invalid "Staging target path not provided"
    else if req.target_path == ""
    then invalid "Target path not provided"
    else checked_capability req.volume_capability

unfoldable pub stage_arguments : NodeStageVolumeRequest → Result GrpcError VolumeCapability
unfolding checked_capability
stage_arguments req =
    if req.volume_id == ""
    then invalid "Volume ID not provided"
    else if req.staging_target_path == ""
    then invalid "Staging target path not provided"
    else checked_capability req.volume_capability

module _ (h : Host) (cfg : Settings) where
  -- The directory of the volume must exist on the file system.
  unfoldable pub stat_volume : BeegfsVolume → Handler (Unit {0})
  unfolding stat_directory_for_volume is_ctl_not_exist
  stat_volume vol s =
      let (r, t) = stat_directory_for_volume h vol vol.vol_dir_path_beegfs_root s in
      elim r [
        | ok out ↦ (ok tt, t)
        | err e ↦ (err (grpc_error (if is_ctl_not_exist e then not_found else internal) e), t)
      ]

  -- Whether the target is mounted already; a target that does not exist is made.
  unfoldable pub target_mounted : String → Io Bool
  unfolding is_not_exist
  target_mounted path s = elim (h.bool_reply s (is_mount_point path)) [
    | ok is_mnt ↦ pure is_mnt (is_mount_point path ∷ s)
    | err e ↦ elim (is_not_exist e) [
      | true ↦ (act h (mkdir_all path 0o750) >> pure false) (is_mount_point path ∷ s)
      | false ↦ fail e (is_mount_point path ∷ s)
    ]
  ]

  unfoldable pub volume_from : String → String → Result GrpcError BeegfsVolume
  unfolding new_beegfs_volume_from_id
  volume_from staging_target_path volume_id =
      grpc internal
        (new_beegfs_volume_from_id h.library staging_target_path volume_id cfg.plugin_config)

  -- NodePublishVolume
  unfoldable pub node_publish_volume : NodePublishVolumeRequest → Handler (Unit {0})
  unfolding publish_arguments volume_from stat_volume target_mounted publish_options
  node_publish_volume req = do
    volume_capability ← lift (publish_arguments req)
    vol ← lift (volume_from req.staging_target_path req.volume_id)
    stat_volume vol
    is_mnt ← on_host internal (target_mounted req.target_path)
    elim is_mnt [
      | true ↦ pure tt
      | false ↦ on_host internal (
          act h (
            mount vol.vol_dir_path req.target_path "beegfs"
              (publish_options volume_capability req.readonly)))
    ]

  -- NodeUnpublishVolume
  unfoldable pub node_unpublish_volume : String → String → Handler (Unit {0})
  node_unpublish_volume volume_id target_path =
      if volume_id == ""
      then lift (invalid "Volume ID not provided")
      else if target_path == ""
      then lift (invalid "Target path not provided")
      else on_host internal (act h (cleanup_mount_point target_path true))

  abbrev pub nodes_path : BeegfsVolume → String
  nodes_path vol = path_join (vol.csi_dir_path ∷ "nodes" ∷ [])

  abbrev pub node_path : BeegfsVolume → String
  node_path vol = path_join (nodes_path vol ∷ cfg.node_id ∷ [])

  -- The node's file in the tracking directory, if there is such a directory.
  unfoldable pub track : BeegfsVolume → Io (Unit {0})
  unfolding path_join
  track vol = do
    there ← ask h (dir_exists (nodes_path vol))
    elim there [ false ↦ pure tt | true ↦ act h (write_file (node_path vol) "" 0o640) ]

  unfoldable pub untrack : BeegfsVolume → Io (Unit {0})
  unfolding path_join
  untrack vol = do
    there ← ask h (exists (node_path vol))
    elim there [ false ↦ pure tt | true ↦ act h (remove (node_path vol)) ]

  -- NodeStageVolume
  unfoldable pub node_stage_volume : NodeStageVolumeRequest → Handler (Unit {0})
  unfolding stage_arguments volume_from write_client_files stat_volume mount_if_necessary track
  node_stage_volume req = do
    volume_capability ← lift (stage_arguments req)
    vol ← lift (volume_from req.staging_target_path req.volume_id)
    on_host internal (act h (stat vol.mount_dir_path))
    on_host internal (write_client_files h vol cfg.client_conf_template_path)
    stat_volume vol
    on_host internal (mount_if_necessary h vol (mount_flags_of volume_capability))
    best_effort (track vol)

  -- NodeUnstageVolume
  unfoldable pub node_unstage_volume : String → String → Handler (Unit {0})
  unfolding volume_from untrack unmount_and_clean_up_if_necessary
  node_unstage_volume volume_id staging_target_path =
      if volume_id == ""
      then lift (invalid "Volume ID not provided")
      else if staging_target_path == ""
      then lift (invalid "Staging target path not provided")
      else do
        vol ← lift (volume_from staging_target_path volume_id)
        best_effort (untrack vol)
        on_host internal (unmount_and_clean_up_if_necessary h vol false)
