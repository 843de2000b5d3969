-- ===== src/Controller/Frames.antt =====
-- What handlers leave alone: actions that touch neither the lock nor the status map, and those that
-- restore the lock and record with a success only.
use beegfs_csi_driver.Prelude.{
  String, ◌≡◌, refl, sym, ap, ◌∙◌, Bool, true, false, Option, none, some, ◌∷◌, arith, eq_iff,
  member, Bool-cases, inl, inr,
}
use beegfs_csi_driver.Prelude.Result.{Result, ok, err, pure, lift, continue, ◌>>=◌}
use beegfs_csi_driver.Errors.{failure, Code, GrpcError, status, aborted}
use beegfs_csi_driver.Lock.{
  StringLock, VolumeStatus, status_created, status_deleted, StatusMap, obtain_lock_on_string,
  release_lock_on_string, read_status, write_status, without,
}
use beegfs_csi_driver.Lock.Laws.{without_absent, write_status_same}
use beegfs_csi_driver.Host.{Io}
use beegfs_csi_driver.Controller.{
  Server, Handler, on_host, best_effort, with_lock, when, deferred, set_status, already, unless,
}

-- A handler that touches neither.
pub record IsQuiet {A : Type 0} (m : Handler A) : Type 0 where
  pub lock : (s : Server) → (m s).1.volume_ids_in_flight ≡ s.volume_ids_in_flight
  pub status : (s : Server) → (m s).1.volume_status_map ≡ s.volume_status_map

-- The status map after a handler that records `st` for the volume that it returns, if it succeeds.
abbrev pub recorded :
    {A : Type 0} → VolumeStatus → (A → String) → Result GrpcError A → StatusMap → StatusMap
recorded st name (ok a) m = write_status (name a) st m
recorded st name (err e) m = m

-- A handler that restores the lock, and records with a success only.
pub record Records {A : Type 0} (st : VolumeStatus) (name : A → String) (m : Handler A)
    : Type 0 where
  pub lock : (s : Server) → (m s).1.volume_ids_in_flight ≡ s.volume_ids_in_flight
  pub status :
      (s : Server) → (m s).1.volume_status_map ≡ recorded st name (m s).0 s.volume_status_map

module _ {A : Type 0} where
  pub on_host-IsQuiet : (code : Code) (m : Io A) → IsQuiet (on_host code m)
  unfolding on_host
  on_host-IsQuiet code m = record { lock = λ s. refl; status = λ s. refl }

  pub best_effort-IsQuiet : (m : Io A) → IsQuiet (best_effort m)
  unfolding best_effort
  best_effort-IsQuiet m = record { lock = λ s. refl; status = λ s. refl }

  pub pure-IsQuiet : (a : A) → IsQuiet (pure a)
  unfolding pure
  pure-IsQuiet a = record { lock = λ s. refl; status = λ s. refl }

  pub lift-IsQuiet : (r : Result GrpcError A) → IsQuiet (lift r)
  unfolding lift
  lift-IsQuiet r = record { lock = λ s. refl; status = λ s. refl }

module _ {A B : Type 0} where
  pub bind-IsQuiet :
      (m : Handler A) (f : A → Handler B)
      → IsQuiet m
      → ((a : A) → IsQuiet (f a))
      → IsQuiet (m >>= f)
  unfolding ◌>>=◌
  bind-IsQuiet m f qm qf = record {
    lock = λ s. after_lock (m s).0 (m s).1 ∙ qm.lock s;
    status = λ s. after_status (m s).0 (m s).1 ∙ qm.status s;
  }
    where
      after_lock :
          (r : Result GrpcError A) (t : Server)
          → (continue r f t).1.volume_ids_in_flight ≡ t.volume_ids_in_flight
      after_lock (ok a) t = (qf a).lock t
      after_lock (err e) t = refl

      after_status :
          (r : Result GrpcError A) (t : Server)
          → (continue r f t).1.volume_status_map ≡ t.volume_status_map
      after_status (ok a) t = (qf a).status t
      after_status (err e) t = refl

  pub bind-Records :
      (st : VolumeStatus) (name : B → String) (m : Handler A) (f : A → Handler B)
      → IsQuiet m
      → ((a : A) → Records st name (f a))
      → Records st name (m >>= f)
  unfolding ◌>>=◌
  bind-Records st name m f qm rf = record {
    lock = λ s. after_lock (m s).0 (m s).1 ∙ qm.lock s;
    status = λ s. after_status (m s).0 (m s).1 s.volume_status_map (qm.status s);
  }
    where
      after_lock :
          (r : Result GrpcError A) (t : Server)
          → (continue r f t).1.volume_ids_in_flight ≡ t.volume_ids_in_flight
      after_lock (ok a) t = (rf a).lock t
      after_lock (err e) t = refl

      after_status :
          (r : Result GrpcError A) (t : Server) (old : StatusMap)
          → t.volume_status_map ≡ old
          → (continue r f t).1.volume_status_map ≡ recorded st name (continue r f t).0 old
      after_status (ok a) t old e = (rf a).status t ∙ ap (recorded st name (f a t).0) e
      after_status (err x) t old e = e

abbrev pub locked : String → Server → Server
locked id s = record s {
  volume_ids_in_flight = record { items = id ∷ s.volume_ids_in_flight.items };
}

module _ {A : Type 0} (id : String) (body : Handler A) (s : Server) where
  -- A volume in flight: the request is refused, and nothing changes.
  pub with_lock_refused :
      member id s.volume_ids_in_flight.items ≡ true → (with_lock id body s).1 ≡ s
  unfolding with_lock obtain_lock_on_string
  with_lock_refused h = rw (h, with_lock)

  pub with_lock_refused_err :
      member id s.volume_ids_in_flight.items ≡ true
      → (with_lock id body s).0
        ≡ err (status aborted (failure "volumeID is in use by another request"))
  unfolding with_lock obtain_lock_on_string
  with_lock_refused_err h = rw (h, with_lock)

  pub with_lock_refused_lem :
      member id s.volume_ids_in_flight.items ≡ true
      → with_lock id body s
        ≡ (err (status aborted (failure "volumeID is in use by another request")), s)
  unfolding with_lock obtain_lock_on_string
  with_lock_refused_lem h = rw (h, with_lock)

  pub with_lock_held :
      member id s.volume_ids_in_flight.items ≡ false
      → with_lock id body s ≡ (
        (body (locked id s)).0,
        record (body (locked id s)).1 {
          volume_ids_in_flight =
              release_lock_on_string id (body (locked id s)).1.volume_ids_in_flight;
        },
      )
  unfolding with_lock obtain_lock_on_string
  with_lock_held h = ground arith

pub release_locked :
    (id : String) (v : StringLock)
    → member id v.items ≡ false
    → release_lock_on_string id (record { items = id ∷ v.items }) ≡ v
unfolding release_lock_on_string without
release_locked id v h = ground (arith, eq_iff id id, without_absent id v.items h)

module _ {A : Type 0} (st : VolumeStatus) (name : A → String) where
  -- The lock is obtained and released around a body.
  pub with_lock-Records :
      (id : String) (body : Handler A) → Records st name body → Records st name (with_lock id body)
  with_lock-Records id body b = record {
    lock = λ s. elim (Bool-cases (member id s.volume_ids_in_flight.items)) [
      | inl busy ↦ ap (λ (t : Server). t.volume_ids_in_flight) (with_lock_refused id body s busy)
      | inr free ↦
          rw (with_lock_held id body s free, b.lock (locked id s))
            (release_locked id s.volume_ids_in_flight free)
    ];
    status = λ s. elim (Bool-cases (member id s.volume_ids_in_flight.items)) [
      | inl busy ↦
          rw (with_lock_refused_err id body s busy)
            (ap (λ (t : Server). t.volume_status_map) (with_lock_refused id body s busy))
      | inr free ↦ rw (with_lock_held id body s free) (b.status (locked id s))
    ];
  }

  pub deferred-Records :
      (body : Handler A) (cleanup : Io (Unit {0}))
      → Records st name body
      → Records st name (deferred body cleanup)
  deferred-Records body cleanup b = record { lock = b.lock; status = b.status }

pub when-IsQuiet : (b : Bool) (m : Handler (Unit {0})) → IsQuiet m → IsQuiet (when b m)
when-IsQuiet false m q = pure-IsQuiet tt
when-IsQuiet true m q = q

ruleset quiet_rules =
    (on_host-IsQuiet, best_effort-IsQuiet, pure-IsQuiet, lift-IsQuiet, bind-IsQuiet, when-IsQuiet)

pub set_status-Records :
    (id : String) (st : VolumeStatus) (name : Unit {0} → String)
    → name tt ≡ id
    → Records st name (set_status id st)
unfolding set_status
set_status-Records id st name e = record { lock = λ s. refl; status = λ s. rw e }

pub already_iff : (st : VolumeStatus) (o : Option VolumeStatus) → already st o ≡ true → o ≡ some st
already_iff st none e = cc
already_iff status_created (some status_created) e = refl
already_iff status_created (some status_deleted) e = cc
already_iff status_deleted (some status_created) e = cc
already_iff status_deleted (some status_deleted) e = refl

module _ {A : Type 0} (st : VolumeStatus) (name : A → String) where
  -- A handler that is left out where the status has been reached.
  pub unless-Records :
      (id : String) (m : Handler A) (a : A)
      → name a ≡ id
      → Records st name m
      → Records st name (λ s. unless (already st (read_status id s.volume_status_map)) a m s)
  unless-Records id m a e r = record {
    lock = λ s. choose_lock s (already st (read_status id s.volume_status_map));
    status = λ s. choose_status s (already st (read_status id s.volume_status_map)) refl;
  }
    where
      choose_lock :
          (s : Server) (b : Bool) → (unless b a m s).1.volume_ids_in_flight ≡ s.volume_ids_in_flight
      choose_lock s true = refl
      choose_lock s false = r.lock s

      choose_status :
          (s : Server) (b : Bool)
          → already st (read_status id s.volume_status_map) ≡ b
          → (unless b a m s).1.volume_status_map
            ≡ recorded st name (unless b a m s).0 s.volume_status_map
      choose_status s true reached =
          rw e (sym (write_status_same id st s.volume_status_map (already_iff st _ reached)))
      choose_status s false reached = r.status s
