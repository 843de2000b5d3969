-- ===== src/Mount/Unmount.antt =====
-- A volume that is bind mounted elsewhere is neither unmounted nor are its files removed.
use beegfs_csi_driver.Prelude.{◌≡◌, refl, Bool, true, false, ◌||◌, List, [], ◌∷◌, ◌++◌, arith}
use beegfs_csi_driver.Prelude.Result.{ok, err, fail, continue, ◌>>=◌}
use beegfs_csi_driver.Errors.{failure}
use beegfs_csi_driver.Volume.{BeegfsVolume}
use beegfs_csi_driver.Host.{Host, History, MountPoint, list_mounts, cleanup_mount_point, remove_all}
use beegfs_csi_driver.Mount.{
  is_bind_mount_of, bind_mounted, clean_up_if_necessary, unmount_and_clean_up_if_necessary,
}

bind_mounted-among :
    (vol : BeegfsVolume) (before after : List MountPoint) (m : MountPoint)
    → is_bind_mount_of vol m ≡ true
    → bind_mounted vol (before ++ m ∷ after) ≡ true
unfolding bind_mounted
bind_mounted-among vol [] after m h = rw h refl
bind_mounted-among vol (n ∷ before) after m h =
    rw (bind_mounted-among vol before after m h) (or_true (is_bind_mount_of vol n))
  where
    or_true : (b : Bool) → (b || true) ≡ true
    or_true true = refl
    or_true false = refl

module _ (h : Host) where
  -- Where one of the listed mount points is a bind mount of the volume, the call fails after the list
  -- has been read: nothing is unmounted and nothing is removed.
  unmount_and_clean_up_if_necessary-refused :
      (vol : BeegfsVolume) (rm_dir : Bool) (s : History) (before after : List MountPoint)
      (m : MountPoint)
      → h.mounts_reply s list_mounts ≡ ok (before ++ m ∷ after)
      → is_bind_mount_of vol m ≡ true
      → unmount_and_clean_up_if_necessary h vol rm_dir s ≡ (
        err (failure "refused to unmount staged file system while bind mounted"),
        list_mounts ∷ s,
      )
  unfolding unmount_and_clean_up_if_necessary ◌>>=◌ fail
  unmount_and_clean_up_if_necessary-refused vol rm_dir s before after m listed bound =
      rw listed (rw (bind_mounted-among vol before after m bound, continue) refl)

  -- Without a bind mount, a success with the removal of the directory has made exactly these calls.
  unmount_and_clean_up_if_necessary-order :
      (vol : BeegfsVolume) (s t : History) (ms : List MountPoint)
      → h.mounts_reply s list_mounts ≡ ok ms
      → bind_mounted vol ms ≡ false
      → unmount_and_clean_up_if_necessary h vol true s ≡ (ok tt, t)
      → t
        ≡ remove_all vol.mount_dir_path ∷ cleanup_mount_point vol.mount_path false ∷ list_mounts ∷ s
  unfolding unmount_and_clean_up_if_necessary clean_up_if_necessary ◌>>=◌ fail
  unmount_and_clean_up_if_necessary-order vol s t ms listed free e = ground arith
