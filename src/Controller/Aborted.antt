-- ===== src/Controller/Aborted.antt =====
-- When DeleteVolume answers Aborted.
use beegfs_csi_driver.Prelude.{
  String, some, ◌≡◌, ◌≢◌, arith, ◌↔◌, refl, sym, ap, ◌∙◌, Bool, true, false, ◌==◌, member,
  Bool-cases, inl, inr,
}
use beegfs_csi_driver.Prelude.Result.{Result, ok, err, continue, ◌>>=◌}
use beegfs_csi_driver.Errors.{
  Cause, ctl_not_exist, ctl_exist, ctl_conn_auth, os_not_exist, failure, panic, diverges, GrpcError,
  status, aborted, internal, grpc_error,
}
use beegfs_csi_driver.Volume.{BeegfsVolume, controller_volume_from_id}
use beegfs_csi_driver.Lock.{status_deleted, read_status}
use beegfs_csi_driver.Host.{Host, Io}
use beegfs_csi_driver.Mount.{unmount_and_clean_up_if_necessary}
use beegfs_csi_driver.Controller.{
  Settings, Server, Handler, grpc, on_host, already, unless, set_status,
}
use beegfs_csi_driver.Controller.DeleteVolume.{
  delete_on_host, delete_deferred, delete_locked, delete_checked, delete_volume,
}
use beegfs_csi_driver.Controller.Frames.{already_iff, locked, with_lock_refused_lem, with_lock_held}
use beegfs_csi_driver.Controller.Records.{delete_volume_checked}

-- The outcome is the code Aborted, whatever its message.
abbrev pub IsAborted : {A : Type 0} → Result GrpcError A → Type 0
IsAborted r = (e : Cause) × (r ≡ err (status aborted e))

-- A handler that never answers Aborted.
record NeverAborts {A : Type 0} (m : Handler A) : Type 0 where
  never : (s : Server) → IsAborted (m s).0 → ⊥

grpc_error-internal : (c e : Cause) → grpc_error internal c ≡ status aborted e → ⊥
unfolding grpc_error
grpc_error-internal (panic m) e h = absurd (cc)
grpc_error-internal diverges e h = absurd (cc)
grpc_error-internal (ctl_not_exist o m) e h = absurd (cc)
grpc_error-internal (ctl_exist o m) e h = absurd (cc)
grpc_error-internal (ctl_conn_auth o m) e h = absurd (cc)
grpc_error-internal os_not_exist e h = absurd (cc)
grpc_error-internal (failure m) e h = absurd (cc)

err_injective :
    {A : Type 0} (x y : GrpcError) → ◌≡◌ {A = Result GrpcError A} (err x) (err y) → x ≡ y
err_injective x y h = cc

on_host-NeverAborts : {A : Type 0} (m : Io A) → NeverAborts (on_host internal m)
unfolding on_host
on_host-NeverAborts {A} m = record { never = λ s. from (m s.history).0 }
  where
    from : (r : Result Cause A) → IsAborted (grpc internal r) → ⊥
    from (ok a) (e, h) = absurd (cc)
    from (err c) (e, h) = grpc_error-internal c e (err_injective {A = A} _ _ h)

bind-NeverAborts :
    {A B : Type 0} (m : Handler A) (f : A → Handler B)
    → NeverAborts m
    → ((a : A) → NeverAborts (f a))
    → NeverAborts (m >>= f)
unfolding ◌>>=◌
bind-NeverAborts {A} m f qm qf = record { never = λ s. after (m s).0 (m s).1 (qm.never s) }
  where
    after :
        (r : Result GrpcError A) (t : Server) → (IsAborted r → ⊥) → IsAborted (continue r f t).0 → ⊥
    after (ok a) t q h = (qf a).never t h
    after (err x) t q (e, h) = q (e, ap err (err_injective _ _ h))

module _ (h : Host) (cfg : Settings) where
  delete_on_host-NeverAborts : (vol : BeegfsVolume) → NeverAborts (delete_on_host h cfg vol)
  unfolding delete_on_host
  delete_on_host-NeverAborts vol = bind-NeverAborts _ _ (on_host-NeverAborts _) λ u.
      bind-NeverAborts _ _ (on_host-NeverAborts _)
        λ u. bind-NeverAborts _ _ (on_host-NeverAborts _) λ u. on_host-NeverAborts _

  abbrev outcome :
      Result GrpcError (Unit {0}) → Result Cause (Unit {0}) → Result GrpcError (Unit {0})
  outcome (err e) c = err e
  outcome (ok done) (err e) = err (grpc_error internal e)
  outcome (ok done) (ok cleaned) = ok tt

  delete_deferred-eq :
      (vol : BeegfsVolume) (body : Handler (Unit {0})) (s : Server)
      → (delete_deferred h cfg vol body s).0
        ≡ outcome (body s).0 (unmount_and_clean_up_if_necessary h vol true (body s).1.history).0
  unfolding delete_deferred set_status
  delete_deferred-eq vol body s = ground arith

  delete_deferred-NeverAborts :
      (vol : BeegfsVolume) (body : Handler (Unit {0}))
      → NeverAborts body
      → NeverAborts (delete_deferred h cfg vol body)
  delete_deferred-NeverAborts vol body q = record {
    never = λ s (e, h').
        after (body s).0 (unmount_and_clean_up_if_necessary h vol true (body s).1.history).0
          (q.never s) (e, sym (delete_deferred-eq vol body s) ∙ h');
  }
    where
      after :
          (r : Result GrpcError (Unit {0})) (c : Result Cause (Unit {0}))
          → (IsAborted r → ⊥)
          → IsAborted (outcome r c)
          → ⊥
      after (err x) c n a = n a
      after (ok done) (err x) n (e, a) =
          grpc_error-internal x e (err_injective {A = Unit {0}} _ _ a)
      after (ok done) (ok cleaned) n (e, a) = absurd (cc)

  delete_locked-Aborted :
      (vol : BeegfsVolume) (s : Server)
      → (IsAborted (delete_locked h cfg vol s).0
          ↔ (member vol.volume_id s.volume_ids_in_flight.items ≡ true))
        × (IsAborted (delete_locked h cfg vol s).0 → (delete_locked h cfg vol s).1 ≡ s)
  unfolding delete_locked
  delete_locked-Aborted vol s =
      elim (Bool-cases (member vol.volume_id s.volume_ids_in_flight.items)) [
        | inl busy ↦
            let refused = with_lock_refused_lem vol.volume_id (body vol) s busy in
            ((λ a. busy, λ b. (_, ap (λ r. r.0) refused)), λ a. ap (λ r. r.1) refused)
        | inr free ↦
            let held = ap (λ r. r.0) (with_lock_held vol.volume_id (body vol) s free) in
            let no : IsAborted (delete_locked h cfg vol s).0 → ⊥ = λ (e, a).
              (delete_deferred-NeverAborts vol _ (delete_on_host-NeverAborts vol)).never
                (locked vol.volume_id s) (e, sym held ∙ a) in
            ((λ a. absurd (no a), λ b. absurd (cc (b, free))), λ a. absurd (no a))
      ]
    where
      body : BeegfsVolume → Handler (Unit {0})
      body vol = delete_deferred h cfg vol (delete_on_host h cfg vol)

  delete_checked-Aborted :
      (vol : BeegfsVolume) (s : Server)
      → (IsAborted (delete_checked h cfg vol s).0 ↔ (
          (member vol.volume_id s.volume_ids_in_flight.items ≡ true)
          × (read_status vol.volume_id s.volume_status_map ≢ some status_deleted)))
        × (IsAborted (delete_checked h cfg vol s).0 → (delete_checked h cfg vol s).1 ≡ s)
  unfolding delete_checked
  delete_checked-Aborted vol s =
      choose (already status_deleted (read_status vol.volume_id s.volume_status_map)) refl
    where
      choose :
          (b : Bool)
          → already status_deleted (read_status vol.volume_id s.volume_status_map) ≡ b
          → (IsAborted (unless b tt (delete_locked h cfg vol) s).0 ↔ (
              (member vol.volume_id s.volume_ids_in_flight.items ≡ true)
              × (read_status vol.volume_id s.volume_status_map ≢ some status_deleted)))
            × (IsAborted (unless b tt (delete_locked h cfg vol) s).0
                → (unless b tt (delete_locked h cfg vol) s).1 ≡ s)
      choose true is = (
        (λ (e, a). absurd (cc), λ (busy, n). absurd (n (already_iff status_deleted _ is))),
        λ (e, a). absurd (cc),
      )
      choose false is =
          let (iff, same) = delete_locked-Aborted vol s in
          (
            (λ a. (iff.0 a, λ r. cc (is, ap (already status_deleted) r)), λ (busy, n). iff.1 busy),
            same,
          )

  -- A DeleteVolume request for the identifier of a volume is refused with the code Aborted exactly if
  -- the volume is in flight and its deletion has not been recorded; a refusal changes nothing, and no
  -- call is made. A volume in flight whose deletion has been recorded is answered with success.
  pub delete_volume-Aborted :
      (id : String) (vol : BeegfsVolume) (s : Server)
      → (id == "") ≡ false
      → controller_volume_from_id h.library cfg.cs_data_dir cfg.plugin_config id ≡ ok vol
      → (IsAborted (delete_volume h cfg id s).0 ↔ (
          (member vol.volume_id s.volume_ids_in_flight.items ≡ true)
          × (read_status vol.volume_id s.volume_status_map ≢ some status_deleted)))
        × (IsAborted (delete_volume h cfg id s).0 → (delete_volume h cfg id s).1 ≡ s)
        × (read_status vol.volume_id s.volume_status_map ≡ some status_deleted
            → delete_volume h cfg id s ≡ (ok tt, s))
  delete_volume-Aborted id vol s some_id is_vol =
      rw (delete_volume_checked h cfg id vol s some_id is_vol)
        ((delete_checked-Aborted vol s).0, (delete_checked-Aborted vol s).1, recorded_before)
    where
      recorded_before :
          read_status vol.volume_id s.volume_status_map ≡ some status_deleted
          → delete_checked h cfg vol s ≡ (ok tt, s)
      recorded_before known = unfold delete_checked in rw known refl
