-- ===== src/Controller/Delete/Wait.antt =====
-- The loop of deleteVolumeUntilWait ends, and what it ends with.
use beegfs_csi_driver.Prelude.{
  ℕ, zero, suc, ◌+◌, ◌-◌, ◌*◌, ◌/◌, ◌≤◌, ◌<◌, ◌≡◌, ◌≢◌, ◌⊎◌, inl, inr, refl, ap, subst, Bool, true,
  false, ◌∷◌, arith,
}
use beegfs_csi_driver.Prelude.Result.{Result, ok, err, continue, ◌>>=◌}
use beegfs_csi_driver.Errors.{Cause, diverges}
use beegfs_csi_driver.Volume.{BeegfsVolume}
use beegfs_csi_driver.Host.{
  Host, History, Io, Call, dir_exists, is_empty, read_dir, remove_all, sleep,
}
use beegfs_csi_driver.Controller.Delete.{
  second, wait_bits, still_waiting, nodes_path, remove_volume, remove_tracking, delete_loop,
  delete_volume_until_wait,
}

-- The clock does not go back, a sleep takes its time, and a call that fails has an error of its own.
pub record KeepsTime (h : Host) : Type 0 where
  pub forward : (s : History) (c : Call) → h.clock s ≤ h.clock (c ∷ s)
  pub sleeps : (s : History) (n : ℕ) → h.clock s + n * second ≤ h.clock (sleep n ∷ s)
  pub unit_ends : (s : History) (c : Call) → h.unit_reply s c ≢ err diverges
  pub bool_ends : (s : History) (c : Call) → h.bool_reply s c ≢ err diverges

-- A success that ended with the removal of the volume, or an error that is not that of fuel that has
-- run out.
abbrev pub IsDone : BeegfsVolume → Result Cause (Unit {0}) × History → Type 0
IsDone vol (r, t) =
    ((u : History) × (r ≡ ok tt) × (t ≡ remove_all vol.vol_dir_path ∷ u))
    ⊎ ((e : Cause) × (r ≡ err e) × (e ≢ diverges))

module _ (h : Host) (time : KeepsTime h) where
  remove_volume-IsDone : (vol : BeegfsVolume) (s : History) → IsDone vol (remove_volume h vol s)
  unfolding remove_volume
  remove_volume-IsDone vol s =
      removed (h.unit_reply s (remove_all vol.vol_dir_path)) (time.unit_ends s _)
    where
      removed :
          (r : Result Cause (Unit {0}))
          → r ≢ err diverges
          → IsDone vol (r, remove_all vol.vol_dir_path ∷ s)
      removed (ok tt) n = inl (s, refl, refl)
      removed (err e) n = inr (e, refl, λ e'. n (ap err e'))

  bind-IsDone :
      {A : Type 0} (vol : BeegfsVolume) (m : Io A) (f : A → Io (Unit {0})) (s : History)
      → (m s).0 ≢ err diverges
      → ((a : A) → IsDone vol (f a (m s).1))
      → IsDone vol ((m >>= f) s)
  unfolding ◌>>=◌
  bind-IsDone vol m f s ends h = after (m s).0 (m s).1 ends h
    where
      after :
          (r : Result Cause _) (t : History)
          → r ≢ err diverges
          → ((a : _) → IsDone vol (f a t))
          → IsDone vol (continue r f t)
      after (ok a) t n k = k a
      after (err e) t n k = inr (e, refl, λ e'. n (ap err e'))

  remove_tracking-IsDone : (vol : BeegfsVolume) (s : History) → IsDone vol (remove_tracking h vol s)
  unfolding remove_tracking
  remove_tracking-IsDone vol s =
      bind-IsDone vol _ _ s (time.unit_ends s _) λ u. remove_volume-IsDone vol _

  no_time : (wait now start : ℕ) → wait ≤ 0 * (2 * second) + (now - start) → now - start < wait → ⊥
  no_time wait now start enough waiting = omega arith

  waiting_lt : (wait elapsed : ℕ) → still_waiting wait elapsed ≡ true → elapsed < wait_bits wait
  unfolding still_waiting
  waiting_lt wait elapsed e = ground arith

  branch :
      (vol : BeegfsVolume) (b : Bool) (f g : Io (Unit {0})) (s : History)
      → IsDone vol (f s)
      → IsDone vol (g s)
      → IsDone vol ((elim b as (λ x. Io (Unit {0})) [ false ↦ f | true ↦ g ]) s)
  branch vol false f g s hf hg = hf
  branch vol true f g s hf hg = hg

  wait_on :
      (fuel start wait : ℕ) (vol : BeegfsVolume) (s : History) (b : Bool)
      → still_waiting wait (h.clock s - start) ≡ b
      → IsDone vol (remove_tracking h vol (read_dir (nodes_path vol) ∷ s))
      → (still_waiting wait (h.clock s - start) ≡ true
          → IsDone vol (delete_loop h fuel start wait vol (sleep 2 ∷ s)))
      → IsDone vol (elim b [
        | true ↦ delete_loop h fuel start wait vol (sleep 2 ∷ s)
        | false ↦ remove_tracking h vol (read_dir (nodes_path vol) ∷ s)
      ])
  wait_on fuel start wait vol s true e over again = again e
  wait_on fuel start wait vol s false e over again = over

  abbrev seen : BeegfsVolume → History → History
  seen vol s = is_empty (nodes_path vol) ∷ dir_exists (nodes_path vol) ∷ s

  seen_later : (vol : BeegfsVolume) (s : History) → h.clock s ≤ h.clock (seen vol s)
  seen_later vol s = omega (
    arith,
    time.forward s (dir_exists (nodes_path vol)),
    time.forward (dir_exists (nodes_path vol) ∷ s) (is_empty (nodes_path vol)),
  )

  delete_loop-step :
      (fuel start wait : ℕ) (vol : BeegfsVolume) (s : History)
      → (still_waiting wait (h.clock (seen vol s) - start) ≡ true
          → IsDone vol (delete_loop h fuel start wait vol (sleep 2 ∷ seen vol s)))
      → IsDone vol (delete_loop h (suc fuel) start wait vol s)
  unfolding delete_loop
  delete_loop-step fuel start wait vol s again = bind-IsDone vol _ _ s (time.bool_ends s _) λ there.
      branch vol there _ _ _ (remove_volume-IsDone vol _) (
        bind-IsDone vol _ _ _ (time.bool_ends _ _) λ empty.
          branch vol empty _ _ _
            (wait_on fuel start wait vol (seen vol s) _ refl (remove_tracking-IsDone vol _) again)
            (remove_tracking-IsDone vol _))

  delete_loop-IsDone :
      (fuel start wait : ℕ) (vol : BeegfsVolume) (s : History)
      → start ≤ h.clock s
      → wait_bits wait ≤ fuel * (2 * second) + (h.clock s - start)
      → IsDone vol (delete_loop h (suc fuel) start wait vol s)
  delete_loop-IsDone zero start wait vol s begun enough =
      delete_loop-step zero start wait vol s λ waiting.
        elim (no_time (wait_bits wait) (h.clock (seen vol s)) start
          (omega (arith, enough, seen_later vol s)) (waiting_lt wait _ waiting)) [ ]
  delete_loop-IsDone (suc m) start wait vol s begun enough =
      delete_loop-step (suc m) start wait vol s λ waiting.
        delete_loop-IsDone m start wait vol (sleep 2 ∷ seen vol s)
          (omega (arith, begun, seen_later vol s, time.forward (seen vol s) (sleep 2)))
          (omega (arith, enough, begun, seen_later vol s, time.sleeps (seen vol s) 2))

  -- Where the clock does not go back and a sleep takes its time, the fuel is enough: the loop ends,
  -- and a success ends with the removal of the volume's directory.
  pub delete_volume_until_wait-IsDone :
      (vol : BeegfsVolume) (wait : ℕ) (s : History)
      → IsDone vol (delete_volume_until_wait h vol wait s)
  unfolding delete_volume_until_wait
  delete_volume_until_wait-IsDone vol wait s =
      subst (λ n. IsDone vol (delete_loop h n (h.clock s) wait vol s))
        {x = suc (wait_bits wait / second + 1)} (omega arith)
        (delete_loop-IsDone (wait_bits wait / second + 1) (h.clock s) wait vol s (omega arith)
          (omega arith))
