-- ===== src/Controller/DeleteVolume.antt =====
-- DeleteVolume (pkg/beegfs/controllerserver.go).
use beegfs_csi_driver.Prelude.{String, true, [], ◌==◌, if◌then◌else◌}
use beegfs_csi_driver.Prelude.Result.{ok, err, ◌>>◌}
use beegfs_csi_driver.Errors.{internal, grpc_error}
use beegfs_csi_driver.Volume.{BeegfsVolume, controller_volume_from_id}
use beegfs_csi_driver.Lock.{status_deleted, read_status}
use beegfs_csi_driver.Host.{Host, mkdir_all, act}
use beegfs_csi_driver.ClientFiles.{write_client_files}
use beegfs_csi_driver.Mount.{mount_if_necessary, unmount_and_clean_up_if_necessary}
use beegfs_csi_driver.Controller.Delete.{delete_volume_until_wait}
use beegfs_csi_driver.Controller.{
  Settings, Handler, invalid, on_host, with_lock, already, unless, set_status,
}

module _ (h : Host) (cfg : Settings) where
  -- DeleteVolume between its deferred functions and the response.
  unfoldable pub delete_on_host : BeegfsVolume → Handler (Unit {0})
  unfolding write_client_files mount_if_necessary delete_volume_until_wait
  delete_on_host vol = do
    on_host internal (act h (mkdir_all vol.mount_dir_path 0o750))
    on_host internal (write_client_files h vol cfg.client_conf_template_path)
    on_host internal (mount_if_necessary h vol [])
    on_host internal (delete_volume_until_wait h vol cfg.node_unstage_timeout)

  -- The deferred function of DeleteVolume: a failed cleanup makes a success an error, and success is
  -- recorded only if both the deletion and the cleanup succeeded.
  unfoldable pub delete_deferred : BeegfsVolume → Handler (Unit {0}) → Handler (Unit {0})
  unfolding unmount_and_clean_up_if_necessary set_status
  delete_deferred vol body s =
      let (r, t) = body s in
      let (c, u) = unmount_and_clean_up_if_necessary h vol true t.history in
      let after = record t { history = u } in
      elim r [
        | err e ↦ (err e, after)
        | ok done ↦ elim c [
          | err e ↦ (err (grpc_error internal e), after)
          | ok cleaned ↦ set_status vol.volume_id status_deleted after
        ]
      ]

  unfoldable pub delete_locked : BeegfsVolume → Handler (Unit {0})
  unfolding with_lock delete_deferred delete_on_host
  delete_locked vol = with_lock vol.volume_id (delete_deferred vol (delete_on_host vol))

  -- DeleteVolume, for a volume
  unfoldable pub delete_checked : BeegfsVolume → Handler (Unit {0})
  unfolding delete_locked read_status
  delete_checked vol s =
      unless (already status_deleted (read_status vol.volume_id s.volume_status_map)) tt
        (delete_locked vol) s

  -- DeleteVolume: an identifier that names no volume counts as deleted
  unfoldable pub delete_volume : String → Handler (Unit {0})
  unfolding controller_volume_from_id delete_checked
  delete_volume volume_id s =
      if volume_id == ""
      then (invalid "Volume ID not provided", s)
      else elim (controller_volume_from_id h.library cfg.cs_data_dir cfg.plugin_config volume_id) [
        | err e ↦ (ok tt, s)
        | ok vol ↦ delete_checked vol s
      ]
