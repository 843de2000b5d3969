-- ===== src/Controller/Answers.antt =====
-- Handlers of the controller service whose successes all have the same response.
use beegfs_csi_driver.Prelude.{
  String, ◌≡◌, sym, ap, ◌∙◌, Bool, true, false, member, Bool-cases, inl, inr,
}
use beegfs_csi_driver.Prelude.Result.{Result, ok, err, pure, continue, ◌>>=◌}
use beegfs_csi_driver.Errors.{GrpcError}
use beegfs_csi_driver.Volume.{BeegfsVolume}
use beegfs_csi_driver.Params.{ReqParameters}
use beegfs_csi_driver.Host.{Host, Io}
use beegfs_csi_driver.Mount.{unmount_and_clean_up_if_necessary}
use beegfs_csi_driver.Controller.{
  Settings, Server, Handler, with_lock, deferred, create_on_host, create_locked, create_checked,
  unless,
}
use beegfs_csi_driver.Controller.Frames.{with_lock_refused_err, with_lock_held, locked}

-- Every success of the handler has the response `a`.
pub record Answers {A : Type 0} (a : A) (m : Handler A) : Type 0 where
  pub only : (s : Server) (b : A) → (m s).0 ≡ ok b → b ≡ a

module _ {A B : Type 0} where
  bind-Answers :
      (b : B) (m : Handler A) (f : A → Handler B)
      → ((a : A) → Answers b (f a))
      → Answers b (m >>= f)
  unfolding ◌>>=◌
  bind-Answers b m f h = record { only = λ s x. after x (m s).0 (m s).1 }
    where
      after : (x : B) (r : Result GrpcError A) (t : Server) → (continue r f t).0 ≡ ok x → x ≡ b
      after x (ok a) t e = (h a).only t x e
      after x (err e) t e' = cc

module _ {A : Type 0} (a : A) where
  pure-Answers : Answers a (pure a)
  unfolding pure
  pure-Answers = record { only = λ s b h. cc }

  with_lock-Answers :
      (id : String) (body : Handler A) → Answers a body → Answers a (with_lock id body)
  with_lock-Answers id body h = record {
    only = λ s b e. elim (Bool-cases (member id s.volume_ids_in_flight.items)) [
      | inl busy ↦ cc (e, with_lock_refused_err id body s busy)
      | inr free ↦ h.only (locked id s) b (sym (ap (λ r. r.0) (with_lock_held id body s free)) ∙ e)
    ];
  }

  deferred-Answers :
      (body : Handler A) (m : Io (Unit {0})) → Answers a body → Answers a (deferred body m)
  deferred-Answers body m h = record { only = λ s b e. h.only s b e }

  unless-Answers :
      (c : Server → Bool) (m : Handler A) → Answers a m → Answers a (λ s. unless (c s) a m s)
  unless-Answers c m h = record { only = λ s b e. choose s b (c s) e }
    where
      choose : (s : Server) (b : A) (c : Bool) → (unless c a m s).0 ≡ ok b → b ≡ a
      choose s b true e = cc
      choose s b false e = h.only s b e

module _ (h : Host) (cfg : Settings) where
  create_on_host-Answers :
      (vol : BeegfsVolume) (params : ReqParameters)
      → Answers vol.volume_id (create_on_host h cfg vol params)
  unfolding create_on_host
  create_on_host-Answers vol params = bind-Answers _ _ _ λ u. bind-Answers _ _ _ λ u.
      bind-Answers _ _ _ λ u. bind-Answers _ _ _ λ u.
        bind-Answers _ _ _
          λ u. bind-Answers _ _ _ λ u. bind-Answers _ _ _ λ u. pure-Answers vol.volume_id

  create_locked-Answers :
      (vol : BeegfsVolume) (params : ReqParameters)
      → Answers vol.volume_id (create_locked h cfg vol params)
  unfolding create_locked
  create_locked-Answers vol params = with_lock-Answers vol.volume_id vol.volume_id _ (
      deferred-Answers vol.volume_id _ (unmount_and_clean_up_if_necessary h vol true)
        (create_on_host-Answers vol params))

  pub create_checked-Answers :
      (vol : BeegfsVolume) (params : ReqParameters)
      → Answers vol.volume_id (create_checked h cfg vol params)
  unfolding create_checked
  create_checked-Answers vol params =
      unless-Answers vol.volume_id _ _ (create_locked-Answers vol params)
