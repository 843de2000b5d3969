-- ===== src/Controller/Records.antt =====
-- What the handlers of the controller service do to the lock and to the status map: whatever the
-- environment answers, the lock is released, and a status is recorded only with a success.
use beegfs_csi_driver.Prelude.{
  String, ◌≡◌, ◌↔◌, ◌⊎◌, inl, inr, refl, sym, ap, ◌∙◌, some, member, Bool-cases, Bool, true, false,
  arith, ◌==◌, ltb,
}
use beegfs_csi_driver.Prelude.Result.{Result, ok, pure, lift, ◌>>=◌}
use beegfs_csi_driver.Errors.{GrpcError}
use beegfs_csi_driver.Volume.{BeegfsVolume, controller_volume_from_id}
use beegfs_csi_driver.Volume.Mode.{PermissionsConfig, has_special_permissions}
use beegfs_csi_driver.Params.{ReqParameters}
use beegfs_csi_driver.Lock.{VolumeStatus, status_created, status_deleted, read_status}
use beegfs_csi_driver.Host.{Host}
use beegfs_csi_driver.Mount.{unmount_and_clean_up_if_necessary}
use beegfs_csi_driver.Controller.{
  already, unless, Settings, Server, Handler, CreateVolumeRequest, set_status,
  apply_special_permissions, create_nodes_dir, create_on_host, create_locked, create_checked,
  create_arguments, volume_for, create_volume,
}
use beegfs_csi_driver.Controller.DeleteVolume.{
  delete_on_host, delete_deferred, delete_locked, delete_checked, delete_volume,
}
use beegfs_csi_driver.Controller.Frames.{
  IsQuiet, recorded, Records, on_host-IsQuiet, best_effort-IsQuiet, lift-IsQuiet, bind-IsQuiet,
  bind-Records, with_lock-Records, with_lock_refused_err, with_lock_held, locked, already_iff,
  deferred-Records, when-IsQuiet, unless-Records,
}

module _ (h : Host) (cfg : Settings) where
  apply_special_permissions-IsQuiet :
      (vol : BeegfsVolume) (p : PermissionsConfig) → IsQuiet (apply_special_permissions h cfg vol p)
  unfolding apply_special_permissions
  apply_special_permissions-IsQuiet vol p =
      when-IsQuiet (has_special_permissions p) _
        (bind-IsQuiet _ _ (on_host-IsQuiet _ _) (λ u. on_host-IsQuiet _ _))

  create_nodes_dir-IsQuiet : (vol : BeegfsVolume) → IsQuiet (create_nodes_dir h cfg vol)
  unfolding create_nodes_dir
  create_nodes_dir-IsQuiet vol =
      when-IsQuiet (ltb 0 cfg.node_unstage_timeout) _ (best_effort-IsQuiet _)

  finish_create-Records :
      (id : String)
      → Records status_created
          (λ (a : String). a)
          (set_status id status_created >>= λ (u : Unit {0}). pure id)
  unfolding set_status ◌>>=◌
  finish_create-Records id = record { lock = λ s. refl; status = λ s. refl }

  create_on_host-Records :
      (vol : BeegfsVolume) (params : ReqParameters)
      → Records status_created (λ (a : String). a) (create_on_host h cfg vol params)
  unfolding create_on_host
  create_on_host-Records vol params = bind-Records _ _ _ _ (on_host-IsQuiet _ _) λ u.
      bind-Records _ _ _ _ (on_host-IsQuiet _ _) λ u.
        bind-Records _ _ _ _ (on_host-IsQuiet _ _) λ u.
          bind-Records _ _ _ _ (on_host-IsQuiet _ _) λ u.
            bind-Records _ _ _ _ (apply_special_permissions-IsQuiet vol params.permissions) λ u.
              bind-Records _ _ _ _ (create_nodes_dir-IsQuiet vol)
                λ u. finish_create-Records vol.volume_id

  create_locked-Records :
      (vol : BeegfsVolume) (params : ReqParameters)
      → Records status_created (λ (a : String). a) (create_locked h cfg vol params)
  unfolding create_locked
  create_locked-Records vol params = with_lock-Records _ _ vol.volume_id _ (
      deferred-Records _ _ _ (unmount_and_clean_up_if_necessary h vol true)
        (create_on_host-Records vol params))

  pub create_checked-Records :
      (vol : BeegfsVolume) (params : ReqParameters)
      → Records status_created (λ (a : String). a) (create_checked h cfg vol params)
  unfolding create_checked
  create_checked-Records vol params =
      unless-Records status_created (λ (a : String). a) vol.volume_id _ vol.volume_id refl
        (create_locked-Records vol params)

  lift_then-Records :
      {A B : Type 0} (st : VolumeStatus) (name : B → String) (r : Result GrpcError A)
      (f : A → Handler B)
      → ((a : A) → Records st name (f a))
      → Records st name (lift r >>= f)
  lift_then-Records st name r f rf = bind-Records st name _ _ (lift-IsQuiet r) rf

  create_volume-Records :
      (req : CreateVolumeRequest)
      → Records status_created (λ (a : String). a) (create_volume h cfg req)
  unfolding create_volume
  create_volume-Records req = lift_then-Records _ _ (create_arguments req) _ λ params.
      lift_then-Records _ _ (volume_for h cfg req params) _ λ vol. create_checked-Records vol params

  -- Whatever a CreateVolume request meets, the locks are afterwards as they were before, and the
  -- status map differs only if it succeeds: then the volume of the response is recorded as created.
  pub create_volume-recorded :
      (req : CreateVolumeRequest) (s : Server)
      → ((create_volume h cfg req s).1.volume_ids_in_flight ≡ s.volume_ids_in_flight)
        × ((create_volume h cfg req s).1.volume_status_map
            ≡ recorded status_created
                (λ (a : String). a)
                (create_volume h cfg req s).0
                s.volume_status_map)
  create_volume-recorded req s =
      ((create_volume-Records req).lock s, (create_volume-Records req).status s)

  delete_on_host-IsQuiet : (vol : BeegfsVolume) → IsQuiet (delete_on_host h cfg vol)
  unfolding delete_on_host
  delete_on_host-IsQuiet vol = bind-IsQuiet _ _ (on_host-IsQuiet _ _) λ u.
      bind-IsQuiet _ _ (on_host-IsQuiet _ _)
        λ u. bind-IsQuiet _ _ (on_host-IsQuiet _ _) λ u. on_host-IsQuiet _ _

  delete_deferred-Records :
      (vol : BeegfsVolume) (body : Handler (Unit {0}))
      → IsQuiet body
      → Records status_deleted (λ (u : Unit {0}). vol.volume_id) (delete_deferred h cfg vol body)
  unfolding delete_deferred set_status
  delete_deferred-Records vol body q = record {
    lock = λ s. ground (arith, q.lock s);
    status = λ s. ground (arith, q.status s);
  }

  pub delete_checked-Records :
      (vol : BeegfsVolume)
      → Records status_deleted (λ (u : Unit {0}). vol.volume_id) (delete_checked h cfg vol)
  unfolding delete_checked delete_locked
  delete_checked-Records vol =
      unless-Records status_deleted (λ (u : Unit {0}). vol.volume_id) vol.volume_id _ tt refl
        (with_lock-Records _ _ vol.volume_id _
          (delete_deferred-Records vol _ (delete_on_host-IsQuiet vol)))

  pub delete_volume_checked :
      (id : String) (vol : BeegfsVolume) (s : Server)
      → (id == "") ≡ false
      → controller_volume_from_id h.library cfg.cs_data_dir cfg.plugin_config id ≡ ok vol
      → delete_volume h cfg id s ≡ delete_checked h cfg vol s
  unfolding delete_volume delete_checked
  delete_volume_checked id vol s some_id found = rw (some_id, delete_volume) (rw found)

  delete_deferred-ok :
      (vol : BeegfsVolume) (body : Handler (Unit {0})) (s : Server)
      → (delete_deferred h cfg vol body s).0 ≡ ok tt ↔ (
          ((body s).0 ≡ ok tt)
          × ((unmount_and_clean_up_if_necessary h vol true (body s).1.history).0 ≡ ok tt))
  unfolding delete_deferred set_status
  delete_deferred-ok vol body s = ground arith

  -- The deletion of a volume has been recorded before; or the volume is not in flight, it is deleted
  -- with its lock held, and the cleanup afterwards succeeds too.
  abbrev pub Deletes : BeegfsVolume → Server → Type 0
  Deletes vol s =
      (read_status vol.volume_id s.volume_status_map ≡ some status_deleted)
      ⊎ ((member vol.volume_id s.volume_ids_in_flight.items ≡ false)
          × ((delete_on_host h cfg vol (locked vol.volume_id s)).0 ≡ ok tt)
          × ((unmount_and_clean_up_if_necessary h vol true
                (delete_on_host h cfg vol (locked vol.volume_id s)).1.history).0
              ≡ ok tt))

  delete_locked-ok :
      (vol : BeegfsVolume) (s : Server)
      → (delete_locked h cfg vol s).0 ≡ ok tt ↔ (
          (member vol.volume_id s.volume_ids_in_flight.items ≡ false)
          × ((delete_on_host h cfg vol (locked vol.volume_id s)).0 ≡ ok tt)
          × ((unmount_and_clean_up_if_necessary h vol true
                (delete_on_host h cfg vol (locked vol.volume_id s)).1.history).0
              ≡ ok tt))
  unfolding delete_locked
  delete_locked-ok vol s = elim (Bool-cases (member vol.volume_id s.volume_ids_in_flight.items)) [
    | inl busy ↦ (
      λ done. absurd (cc (done, with_lock_refused_err vol.volume_id (body vol) s busy)),
      λ (free, r, c). absurd (cc (busy, free)),
    )
    | inr free ↦
        let same = ap (λ r. r.0) (with_lock_held vol.volume_id (body vol) s free) in
        let (there, back) =
          delete_deferred-ok vol (delete_on_host h cfg vol) (locked vol.volume_id s) in
        (
          λ done. let (r, c) = there (sym same ∙ done) in (free, r, c),
          λ (f, r, c). same ∙ back (r, c),
        )
  ]
    where
      body : BeegfsVolume → Handler (Unit {0})
      body vol = delete_deferred h cfg vol (delete_on_host h cfg vol)

  delete_checked-ok :
      (vol : BeegfsVolume) (s : Server) → (delete_checked h cfg vol s).0 ≡ ok tt ↔ Deletes vol s
  unfolding delete_checked
  delete_checked-ok vol s =
      choose (already status_deleted (read_status vol.volume_id s.volume_status_map)) refl
    where
      choose :
          (b : Bool)
          → already status_deleted (read_status vol.volume_id s.volume_status_map) ≡ b
          → (unless b tt (delete_locked h cfg vol) s).0 ≡ ok tt ↔ Deletes vol s
      choose true is = (λ done. inl (already_iff status_deleted _ is), λ any. refl)
      choose false is = (
        λ done. inr ((delete_locked-ok vol s).0 done),
        λ d. elim d [
          | inl recorded_before ↦ absurd (cc (is, ap (already status_deleted) recorded_before))
          | inr r ↦ (delete_locked-ok vol s).1 r
        ],
      )

  -- Whatever a DeleteVolume request for the identifier of a volume meets, the locks are afterwards as
  -- they were before, and the status map differs only if it succeeds: then the volume is recorded as
  -- deleted. It succeeds exactly if the deletion has been recorded before, or if the volume is not in
  -- flight and both its deletion and the cleanup afterwards succeed.
  pub delete_volume-recorded :
      (id : String) (vol : BeegfsVolume) (s : Server)
      → (id == "") ≡ false
      → controller_volume_from_id h.library cfg.cs_data_dir cfg.plugin_config id ≡ ok vol
      → ((delete_volume h cfg id s).1.volume_ids_in_flight ≡ s.volume_ids_in_flight)
        × ((delete_volume h cfg id s).1.volume_status_map
            ≡ recorded status_deleted
                (λ (u : Unit {0}). vol.volume_id)
                (delete_volume h cfg id s).0
                s.volume_status_map)
        × ((delete_volume h cfg id s).0 ≡ ok tt ↔ Deletes vol s)
  delete_volume-recorded id vol s some_id found =
      rw (delete_volume_checked id vol s some_id found) (
        (delete_checked-Records vol).lock s,
        (delete_checked-Records vol).status s,
        delete_checked-ok vol s,
      )
