-- ===== src/Controller/Repeat.antt =====
-- Repeated requests of the controller service: the orchestrator may send a request again.
use beegfs_csi_driver.Prelude.{
  String, ◌≡◌, refl, sym, ap, ◌∙◌, Bool, true, false, some, ◌==◌, eq_refl, if◌then◌else◌,
}
use beegfs_csi_driver.Prelude.Result.{Result, ok, err, lift, ◌>>=◌}
use beegfs_csi_driver.Errors.{Cause, failure, GrpcError, status, invalid_argument}
use beegfs_csi_driver.Volume.{BeegfsVolume, controller_volume_from_id}
use beegfs_csi_driver.Params.{ReqParameters}
use beegfs_csi_driver.Lock.{status_created, status_deleted, read_status, write_status}
use beegfs_csi_driver.Lock.Laws.{read-write_status}
use beegfs_csi_driver.Host.{Host}
use beegfs_csi_driver.Controller.{
  Settings, Server, CreateVolumeRequest, create_checked, create_arguments, volume_for,
  create_volume,
}
use beegfs_csi_driver.Controller.DeleteVolume.{delete_checked, delete_volume}
use beegfs_csi_driver.Controller.Frames.{recorded}
use beegfs_csi_driver.Controller.Records.{create_checked-Records, delete_checked-Records}
use beegfs_csi_driver.Controller.Answers.{create_checked-Answers}

module _ (h : Host) (cfg : Settings) where
  created_answer :
      (vol : BeegfsVolume) (params : ReqParameters) (t : Server)
      → read_status vol.volume_id t.volume_status_map ≡ some status_created
      → create_checked h cfg vol params t ≡ (ok vol.volume_id, t)
  unfolding create_checked
  created_answer vol params t known = rw known

  deleted_answer :
      (vol : BeegfsVolume) (t : Server)
      → read_status vol.volume_id t.volume_status_map ≡ some status_deleted
      → delete_checked h cfg vol t ≡ (ok tt, t)
  unfolding delete_checked
  deleted_answer vol t known = rw known

  create_checked_again :
      (vol : BeegfsVolume) (params : ReqParameters) (s t : Server) (id : String)
      → create_checked h cfg vol params s ≡ (ok id, t)
      → create_checked h cfg vol params t ≡ (ok id, t)
  create_checked_again vol params s t id first = rw same (created_answer vol params t known)
    where
      same : id ≡ vol.volume_id
      same = (create_checked-Answers h cfg vol params).only s id (ap (λ r. r.0) first)

      written : t.volume_status_map ≡ write_status id status_created s.volume_status_map
      written =
          sym (ap (λ r. r.1.volume_status_map) first)
          ∙ (create_checked-Records h cfg vol params).status s
          ∙ ap (λ r. recorded status_created (λ (a : String). a) r.0 s.volume_status_map) first

      known : read_status vol.volume_id t.volume_status_map ≡ some status_created
      known = rw (
        written,
        same,
        read-write_status vol.volume_id vol.volume_id status_created,
        eq_refl vol.volume_id,
      )

  delete_checked_again :
      (vol : BeegfsVolume) (s t : Server)
      → delete_checked h cfg vol s ≡ (ok tt, t)
      → delete_checked h cfg vol t ≡ (ok tt, t)
  delete_checked_again vol s t first = deleted_answer vol t known
    where
      written : t.volume_status_map ≡ write_status vol.volume_id status_deleted s.volume_status_map
      written =
          sym (ap (λ r. r.1.volume_status_map) first)
          ∙ (delete_checked-Records h cfg vol).status s
          ∙ ap
              (λ r.
                recorded status_deleted (λ (u : Unit {0}). vol.volume_id) r.0 s.volume_status_map)
              first

      known : read_status vol.volume_id t.volume_status_map ≡ some status_deleted
      known = rw (
        written,
        read-write_status vol.volume_id vol.volume_id status_deleted,
        eq_refl vol.volume_id,
      )

  -- A CreateVolume request that has succeeded, sent again, has the same response and changes nothing:
  -- no call is made.
  pub create_volume_again :
      (req : CreateVolumeRequest) (s t : Server) (id : String)
      → create_volume h cfg req s ≡ (ok id, t)
      → create_volume h cfg req t ≡ (ok id, t)
  unfolding create_volume ◌>>=◌ lift
  create_volume_again req s t id first = checked (create_arguments req) first
    where
      found :
          (params : ReqParameters) (v : Result GrpcError BeegfsVolume)
          → (lift v >>= λ vol. create_checked h cfg vol params) s ≡ (ok id, t)
          → (lift v >>= λ vol. create_checked h cfg vol params) t ≡ (ok id, t)
      found params (ok vol) e = create_checked_again vol params s t id e
      found params (err x) e = cc

      checked :
          (a : Result GrpcError ReqParameters)
          → (lift a >>= λ params.
                lift (volume_for h cfg req params) >>= λ vol. create_checked h cfg vol params)
              s
            ≡ (ok id, t)
          → (lift a >>= λ params.
                lift (volume_for h cfg req params) >>= λ vol. create_checked h cfg vol params)
              t
            ≡ (ok id, t)
      checked (ok params) e = found params (volume_for h cfg req params) e
      checked (err x) e = cc

  -- A DeleteVolume request that has succeeded, sent again, succeeds and changes nothing.
  pub delete_volume_again :
      (id : String) (s t : Server)
      → delete_volume h cfg id s ≡ (ok tt, t)
      → delete_volume h cfg id t ≡ (ok tt, t)
  unfolding delete_volume
  delete_volume_again id s t first = named (id == "") first
    where
      found :
          (v : Result Cause BeegfsVolume)
          → (elim v [ err e ↦ (ok tt, s) | ok vol ↦ delete_checked h cfg vol s ]) ≡ (ok tt, t)
          → (elim v [ err e ↦ (ok tt, t) | ok vol ↦ delete_checked h cfg vol t ]) ≡ (ok tt, t)
      found (ok vol) e = delete_checked_again vol s t e
      found (err x) e = refl

      named :
          (b : Bool)
          → (if b
              then (err (status invalid_argument (failure "Volume ID not provided")), s)
              else elim (controller_volume_from_id h.library cfg.cs_data_dir cfg.plugin_config id) [
                | err e ↦ (ok tt, s)
                | ok vol ↦ delete_checked h cfg vol s
              ])
            ≡ (ok tt, t)
          → (if b
              then (err (status invalid_argument (failure "Volume ID not provided")), t)
              else elim (controller_volume_from_id h.library cfg.cs_data_dir cfg.plugin_config id) [
                | err e ↦ (ok tt, t)
                | ok vol ↦ delete_checked h cfg vol t
              ])
            ≡ (ok tt, t)
      named true e = cc
      named false e =
          found (controller_volume_from_id h.library cfg.cs_data_dir cfg.plugin_config id) e
