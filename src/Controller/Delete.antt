-- ===== src/Controller/Delete.antt =====
-- deleteVolumeUntilWait (pkg/beegfs/controllerserver.go): the volume's directory is removed once no
-- node tracks it any more, or when the time to wait is over.
pub mod Wait
use beegfs_csi_driver.Prelude.{
  ℕ, zero, suc, ◌+◌, ◌-◌, ◌*◌, ◌/◌, ◌%◌, ◌^◌, String, Bool, true, false, not, ◌&&◌, Option, none,
  some, List, [], ◌∷◌, ltb, if◌then◌else◌,
}
use beegfs_csi_driver.Prelude.Result.{
  Result, ok, err, Exec, pure, fail, lift, continue, ◌>>=◌, ◌>>◌,
}
use beegfs_csi_driver.Text.Path.{path_join}
use beegfs_csi_driver.Errors.{Cause, diverges}
use beegfs_csi_driver.Volume.{BeegfsVolume}
use beegfs_csi_driver.Host.{
  Host, History, Io, dir_exists, is_empty, read_dir, remove_all, sleep, act, ask,
}

abbrev pub second : ℕ
second = 1_000_000_000

-- time.Duration(waitTime) * time.Second as the bits of an int64
abbrev pub wait_bits : ℕ → ℕ
wait_bits wait_time = wait_time * second % 2 ^ 64

-- time.Since(start) < time.Duration(waitTime) * time.Second, where the right side may be negative
unfoldable pub still_waiting : ℕ → ℕ → Bool
still_waiting wait_time elapsed =
    ltb (wait_bits wait_time) (2 ^ 63) && ltb elapsed (wait_bits wait_time)

abbrev pub nodes_path : BeegfsVolume → String
nodes_path vol = path_join (vol.csi_dir_path ∷ "nodes" ∷ [])

module _ (h : Host) where
  -- The end of the function: the volume's own directory goes.
  unfoldable pub remove_volume : BeegfsVolume → Io (Unit {0})
  remove_volume vol = act h (remove_all vol.vol_dir_path)

  unfoldable pub remove_tracking : BeegfsVolume → Io (Unit {0})
  unfolding remove_volume
  remove_tracking vol = act h (remove_all vol.csi_dir_path) >> remove_volume vol

  -- The loop. A round that waits makes the next one after a sleep of two seconds.
  unfoldable pub delete_loop : ℕ → ℕ → ℕ → BeegfsVolume → Io (Unit {0})
  unfolding still_waiting remove_volume remove_tracking path_join
  delete_loop zero start wait_time vol = fail diverges
  delete_loop (suc fuel) start wait_time vol = do
    exists ← ask h (dir_exists (nodes_path vol))
    elim exists [
      | false ↦ remove_volume vol
      | true ↦ do
        empty ← ask h (is_empty (nodes_path vol))
        elim empty [
          | true ↦ remove_tracking vol
          | false ↦ λ s. elim (still_waiting wait_time (h.clock s - start)) [
            | true ↦ delete_loop fuel start wait_time vol (sleep 2 ∷ s)
            | false ↦ remove_tracking vol (read_dir (nodes_path vol) ∷ s)
          ]
        ]
    ]

  -- Every round but the last sleeps for two seconds, so these rounds are enough.
  abbrev pub enough_rounds : ℕ → ℕ
  enough_rounds wait_time = wait_bits wait_time / second + 2

  unfoldable pub delete_volume_until_wait : BeegfsVolume → ℕ → Io (Unit {0})
  unfolding delete_loop
  delete_volume_until_wait vol wait_time s =
      delete_loop (enough_rounds wait_time) (h.clock s) wait_time vol s
