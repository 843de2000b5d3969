-- ===== src/Controller/Validate.antt =====
-- ValidateVolumeCapabilities (pkg/beegfs/controllerserver.go).
use beegfs_csi_driver.Prelude.{String, true, List, [], ◌∷◌, ◌==◌, ◌=ℕ◌, length, if◌then◌else◌}
use beegfs_csi_driver.Prelude.Dict.{Dict}
use beegfs_csi_driver.Prelude.Result.{Result, ok, err, pure, lift, ◌>>=◌, ◌>>◌}
use beegfs_csi_driver.Prelude.Fallible
use beegfs_csi_driver.Errors.{
  is_ctl_not_exist, invalid_argument, not_found, internal, GrpcError, status, grpc_error,
}
use beegfs_csi_driver.Volume.{BeegfsVolume, controller_volume_from_id}
use beegfs_csi_driver.Params.{validate_req_params}
use beegfs_csi_driver.Capability.{VolumeCapability, is_valid_volume_capabilities}
use beegfs_csi_driver.Host.{Host, mkdir_all, act}
use beegfs_csi_driver.ClientFiles.{write_client_files}
use beegfs_csi_driver.Mount.{clean_up_if_necessary}
use beegfs_csi_driver.Ctl.{stat_directory_for_volume}
use beegfs_csi_driver.Controller.{Settings, Handler, grpc, invalid, on_host, with_lock, deferred}

pub record ValidateVolumeCapabilitiesRequest : Type 0 where
  pub volume_id : String
  pub volume_capabilities : List VolumeCapability
  pub parameters : Dict String

-- The response with the confirmed capabilities and parameters, or with a message.
pub data Validation : Type 0 where
  confirmed : List VolumeCapability → Dict String → Validation
  refused : String → Validation

-- The parameters of a ValidateVolumeCapabilities request are checked if there are any. The check
-- takes them out of the request's map, and the result is what is left of it.
unfoldable pub checked_parameters : Dict String → Result GrpcError (Dict String)
unfolding validate_req_params
checked_parameters [] = ok []
checked_parameters (kv ∷ rest) = elim (validate_req_params (kv ∷ rest)) [
  | err e ↦ err (status invalid_argument e)
  | ok (params, left) ↦ ok left
]

module _ (h : Host) (cfg : Settings) where
  -- The directory of a volume is looked up; one that does not exist has an error code of its own.
  unfoldable pub stat_volume : BeegfsVolume → Handler (Unit {0})
  unfolding stat_directory_for_volume is_ctl_not_exist
  stat_volume vol s =
      let (r, t) = stat_directory_for_volume h vol vol.vol_dir_path_beegfs_root s.history in
      let after = record s { history = t } in
      elim r [
        | ok out ↦ (ok tt, after)
        | err e ↦ (err (grpc_error (if is_ctl_not_exist e then not_found else internal) e), after)
      ]

  -- ValidateVolumeCapabilities between its deferred functions and the response.
  unfoldable pub validate_on_host :
      ValidateVolumeCapabilitiesRequest → BeegfsVolume → Dict String → Handler Validation
  unfolding write_client_files stat_volume is_valid_volume_capabilities
  validate_on_host req vol params = do
    on_host internal (act h (mkdir_all vol.mount_dir_path 0o750))
    on_host internal (write_client_files h vol cfg.client_conf_template_path)
    stat_volume vol
    pure (
        if is_valid_volume_capabilities req.volume_capabilities
        then confirmed req.volume_capabilities params
        else refused "access_type must be MountVolume")

  -- The checks at the beginning of ValidateVolumeCapabilities.
  unfoldable pub validate_arguments :
      ValidateVolumeCapabilitiesRequest → Result GrpcError (BeegfsVolume × Dict String)
  unfolding checked_parameters controller_volume_from_id
  validate_arguments req =
      if req.volume_id == ""
      then invalid "Volume ID not provided"
      else if length req.volume_capabilities =ℕ 0
      then invalid "Volume capabilities not provided"
      else Fallible.◌>>=◌ (checked_parameters req.parameters) λ left.
        Fallible.◌>>=◌
          (grpc not_found
            (controller_volume_from_id h.library cfg.cs_data_dir cfg.plugin_config req.volume_id))
          λ vol. ok (vol, left)

  -- ValidateVolumeCapabilities
  unfoldable pub validate_volume_capabilities :
      ValidateVolumeCapabilitiesRequest → Handler Validation
  unfolding validate_arguments with_lock validate_on_host clean_up_if_necessary
  validate_volume_capabilities req = do
    (vol, params) ← lift (validate_arguments req)
    with_lock vol.volume_id
        (deferred (validate_on_host req vol params) (clean_up_if_necessary h vol true))
