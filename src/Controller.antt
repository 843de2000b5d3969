-- ===== src/Controller.antt =====
-- The controller service (pkg/beegfs/controllerserver.go). A request runs from its first to its last
-- step here; the calls that it makes in between may find the environment changed by others. The
-- deferred functions of the source run at every exit behind them, in the reverse order.
pub mod Delete
pub mod DeleteVolume
pub mod Validate
pub mod Frames
pub mod Records
pub mod Repeat
pub mod Aborted
pub mod Answers
pub mod Confirm
use beegfs_csi_driver.Prelude.{
  ℕ, String, Bool, true, false, Option, none, some, List, [], ◌∷◌, ◌==◌, ltb, ◌=ℕ◌, length,
  if◌then◌else◌,
}
use beegfs_csi_driver.Prelude.Dict.{Dict}
use beegfs_csi_driver.Prelude.Result.{
  Result, ok, err, Exec, pure, fail, lift, continue, ◌>>=◌, ◌>>◌,
}
use beegfs_csi_driver.Prelude.Fallible
use beegfs_csi_driver.Text.Path.{path_join}
use beegfs_csi_driver.Errors.{
  Cause, failure, is_ctl_not_exist, Code, invalid_argument, not_found, internal, aborted, GrpcError,
  status, crash, grpc_error,
}
use beegfs_csi_driver.Config.{PluginConfig}
use beegfs_csi_driver.Volume.{BeegfsVolume, controller_volume, controller_volume_from_id}
use beegfs_csi_driver.Volume.Mode.{PermissionsConfig, has_special_permissions, go_file_mode}
use beegfs_csi_driver.Params.{ReqParameters, validate_req_params}
use beegfs_csi_driver.Lock.{
  StringLock, VolumeStatus, status_created, status_deleted, StatusMap, obtain_lock_on_string,
  release_lock_on_string, read_status, write_status,
}
use beegfs_csi_driver.Capability.{VolumeCapability, is_valid_volume_capabilities}
use beegfs_csi_driver.Host.{Host, History, Io, mkdir_all, chmod, act}
use beegfs_csi_driver.ClientFiles.{write_client_files}
use beegfs_csi_driver.Mount.{
  mount_if_necessary, unmount_and_clean_up_if_necessary, clean_up_if_necessary,
}
use beegfs_csi_driver.Ctl.{
  create_directory_for_volume, stat_directory_for_volume, set_pattern_for_volume,
}

-- The settings of controllerServer that do not change.
pub record Settings : Type 0 where
  pub plugin_config : PluginConfig
  pub client_conf_template_path : String
  pub cs_data_dir : String
  pub node_unstage_timeout : ℕ

-- Its state, and the calls that have been made.
pub record Server : Type 0 where
  pub volume_ids_in_flight : StringLock
  pub volume_status_map : StatusMap
  pub history : History

abbrev pub Handler : Type 0 → Type 0
Handler = Exec Server GrpcError

pub record CreateVolumeRequest : Type 0 where
  pub name : String
  pub volume_capabilities : List VolumeCapability
  pub parameters : Dict String

abbrev pub grpc : {A : Type 0} → Code → Result Cause A → Result GrpcError A
grpc code (ok a) = ok a
grpc code (err e) = err (grpc_error code e)

abbrev pub invalid : {A : Type 0} → String → Result GrpcError A
invalid message = err (status invalid_argument (failure message))

-- An action on the environment, its errors with a code.
unfoldable pub on_host : {A : Type 0} → Code → Io A → Handler A
on_host code m s = let (r, t) = m s.history in (grpc code r, record s { history = t })

-- An action whose error is only logged.
unfoldable pub best_effort : {A : Type 0} → Io A → Handler (Unit {0})
best_effort m s = let (r, t) = m s.history in (ok tt, record s { history = t })

-- The deferred release of the lock.
unfoldable pub with_lock : {A : Type 0} → String → Handler A → Handler A
unfolding obtain_lock_on_string release_lock_on_string
with_lock volume_id body s =
    let (obtained, lock) = obtain_lock_on_string volume_id s.volume_ids_in_flight in
    elim obtained [
      | false ↦ (err (status aborted (failure "volumeID is in use by another request")), s)
      | true ↦
          let (r, t) = body (record s { volume_ids_in_flight = lock }) in
          (
            r,
            record t {
              volume_ids_in_flight = release_lock_on_string volume_id t.volume_ids_in_flight;
            },
          )
    ]

-- Whether a volume has reached a state.
abbrev pub already : VolumeStatus → Option VolumeStatus → Bool
already st none = false
already status_created (some status_created) = true
already status_created (some status_deleted) = false
already status_deleted (some status_created) = false
already status_deleted (some status_deleted) = true

-- The response of a request that has nothing to do, or what it does.
abbrev pub unless : {A : Type 0} → Bool → A → Handler A → Handler A
unless true a m s = (ok a, s)
unless false a m s = m s

abbrev pub when : Bool → Handler (Unit {0}) → Handler (Unit {0})
when false m = pure tt
when true m = m

-- A deferred action whose error is only logged.
abbrev pub deferred : {A : Type 0} → Handler A → Io (Unit {0}) → Handler A
deferred body cleanup s =
    let (r, t) = body s in let (c, u) = cleanup t.history in (r, record t { history = u })

unfoldable pub set_status : String → VolumeStatus → Handler (Unit {0})
unfolding write_status
set_status volume_id st s =
    (ok tt, record s { volume_status_map = write_status volume_id st s.volume_status_map })

-- The checks at the beginning of CreateVolume.
unfoldable pub create_arguments : CreateVolumeRequest → Result GrpcError ReqParameters
unfolding is_valid_volume_capabilities validate_req_params
create_arguments req =
    if req.name == ""
    then invalid "Volume name not provided"
    else if length req.volume_capabilities =ℕ 0
    then invalid "Volume capabilities not provided"
    else elim (is_valid_volume_capabilities req.volume_capabilities) [
      | false ↦ invalid "Volume capabilities not supported"
      | true ↦
          if length req.parameters =ℕ 0
          then invalid "Parameters not provided"
          else Fallible.◌>>=◌ (grpc invalid_argument (validate_req_params req.parameters))
              λ r. ok r.0
    ]

module _ (h : Host) (cfg : Settings) where
  -- The access mode is set on the mounted file system where beegfs-ctl cannot handle it.
  unfoldable pub apply_special_permissions : BeegfsVolume → PermissionsConfig → Handler (Unit {0})
  unfolding has_special_permissions mount_if_necessary go_file_mode
  apply_special_permissions vol permissions = when (has_special_permissions permissions) do
    on_host internal (mount_if_necessary h vol [])
    on_host internal (act h (chmod vol.vol_dir_path (go_file_mode permissions)))

  -- The directory that tracks the nodes of a volume. Its failure is only logged.
  unfoldable pub create_nodes_dir : BeegfsVolume → Handler (Unit {0})
  unfolding create_directory_for_volume path_join
  create_nodes_dir vol = when (ltb 0 cfg.node_unstage_timeout) (
      best_effort (
        create_directory_for_volume h vol (path_join (vol.csi_dir_path_beegfs_root ∷ "nodes" ∷ []))
          (record { uid = 0; gid = 0; mode = 0o750 })))

  -- CreateVolume between its deferred functions and the response.
  unfoldable pub create_on_host : BeegfsVolume → ReqParameters → Handler String
  unfolding apply_special_permissions create_nodes_dir set_status write_client_files
      create_directory_for_volume set_pattern_for_volume
  create_on_host vol params = do
    on_host internal (act h (mkdir_all vol.mount_dir_path 0o750))
    on_host internal (write_client_files h vol cfg.client_conf_template_path)
    on_host internal
        (create_directory_for_volume h vol vol.vol_dir_path_beegfs_root params.permissions)
    on_host internal (set_pattern_for_volume h vol params.stripe_pattern)
    apply_special_permissions vol params.permissions
    create_nodes_dir vol
    set_status vol.volume_id status_created
    pure vol.volume_id

  -- CreateVolume with the lock on the volume and the cleanup at its end.
  unfoldable pub create_locked : BeegfsVolume → ReqParameters → Handler String
  unfolding with_lock create_on_host unmount_and_clean_up_if_necessary
  create_locked vol params =
      with_lock vol.volume_id
        (deferred (create_on_host vol params) (unmount_and_clean_up_if_necessary h vol true))

  -- CreateVolume, for arguments that have been checked
  unfoldable pub create_checked : BeegfsVolume → ReqParameters → Handler String
  unfolding create_locked read_status
  create_checked vol params s =
      unless (already status_created (read_status vol.volume_id s.volume_status_map)) vol.volume_id
        (create_locked vol params) s

  -- The volume of a CreateVolume request.
  unfoldable pub volume_for : CreateVolumeRequest → ReqParameters → Result GrpcError BeegfsVolume
  unfolding controller_volume
  volume_for req params = grpc internal (
      controller_volume h.library cfg.cs_data_dir cfg.plugin_config params.sys_mgmtd_host
        params.vol_dir_base_path_beegfs_root req.name)

  -- CreateVolume; the response is the identifier of the volume
  unfoldable pub create_volume : CreateVolumeRequest → Handler String
  unfolding create_arguments volume_for create_checked
  create_volume req = do
    params ← lift (create_arguments req)
    vol ← lift (volume_for req params)
    create_checked vol params

-- ControllerExpandVolume: the response is the required capacity, and the capacity range is read
-- without a check for nil.
unfoldable pub controller_expand_volume : String → Option ℕ → Result GrpcError ℕ
controller_expand_volume volume_id capacity_range =
    if volume_id == "" then invalid "Volume ID not provided" else elim capacity_range [
      | none ↦ err (crash "invalid memory address or nil pointer dereference")
      | some required_bytes ↦ ok required_bytes
    ]
