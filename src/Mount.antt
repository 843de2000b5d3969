-- ===== src/Mount.antt =====
-- Mounting, unmounting and mount options (pkg/beegfs/beegfs_util.go).
pub mod Options
pub mod Unmount
use beegfs_csi_driver.Prelude.{
  ℕ, String, ◌<>◌, Bool, true, false, not, ◌&&◌, ◌||◌, Option, none, some, List, [], ◌∷◌, ◌++◌,
  ◌==◌, member, if◌then◌else◌,
}
use beegfs_csi_driver.Prelude.Result.{
  Result, ok, err, Exec, pure, fail, lift, continue, ◌>>=◌, ◌>>◌,
}
use beegfs_csi_driver.Text.Strings.{contains, contains_lower, has_prefix}
use beegfs_csi_driver.Text.Path.{path_join, base}
use beegfs_csi_driver.Errors.{Cause, failure, is_not_exist}
use beegfs_csi_driver.Volume.{BeegfsVolume}
use beegfs_csi_driver.Host.{
  Host, Io, MountPoint, mkdir, is_likely_not_mount_point, mount, list_mounts, cleanup_mount_point,
  read_dir, remove_all, selinux_enabled, act, ask, names, mounts,
}

-- removeInvalidMountOptions, with the options kept so far
unfoldable pub keep_valid : List String → List String → List String
unfolding contains_lower member
keep_valid [] kept = kept
keep_valid (opt ∷ opts) kept =
    keep_valid opts
      (if contains_lower opt "cfgfile" || member opt kept then kept else kept ++ opt ∷ [])

unfoldable pub remove_invalid_mount_options : List String → List String
unfolding keep_valid
remove_invalid_mount_options opts = keep_valid opts []

unfoldable pub has_context : List String → Bool
unfolding has_prefix
has_context [] = false
has_context (opt ∷ opts) = has_prefix opt "context=" || has_context opts

-- addContextToMountOptionsIfNecessary
unfoldable pub add_context : String → List String → List String
unfolding has_context
add_context default_context opts =
    if has_context opts then opts else opts ++ ("context=" <> default_context) ∷ []

-- The options of constructMountOptions before the security context.
unfoldable pub base_mount_options : List String → BeegfsVolume → List String
unfolding remove_invalid_mount_options
base_mount_options [] vol = "rw" ∷ "relatime" ∷ ("cfgFile=" <> vol.client_conf_path) ∷ "nosuid" ∷ []
base_mount_options (opt ∷ opts) vol =
    remove_invalid_mount_options (opt ∷ opts) ++ ("cfgFile=" <> vol.client_conf_path) ∷ []

-- Whether an option of a mount point names the volume's beegfs-client.conf.
unfoldable pub names_conf : BeegfsVolume → List String → Bool
unfolding contains
names_conf vol [] = false
names_conf vol (opt ∷ opts) = contains opt vol.client_conf_path || names_conf vol opts

-- Whether a mount point other than the volume's own is a bind mount of its file system.
unfoldable pub is_bind_mount_of : BeegfsVolume → MountPoint → Bool
unfolding contains base path_join names_conf
is_bind_mount_of vol entry =
    entry.device == "beegfs_nodev"
    && (not (contains entry.path (path_join (base vol.mount_dir_path ∷ "mount" ∷ [])))
        && names_conf vol entry.opts)

unfoldable pub bind_mounted : BeegfsVolume → List MountPoint → Bool
unfolding is_bind_mount_of
bind_mounted vol [] = false
bind_mounted vol (entry ∷ entries) = is_bind_mount_of vol entry || bind_mounted vol entries

module _ (h : Host) where
  -- constructMountOptions
  unfoldable pub construct_mount_options : List String → BeegfsVolume → Io (List String)
  unfolding base_mount_options add_context
  construct_mount_options desired vol s =
      let opts = base_mount_options desired vol in
      (
        ok (if h.flag_reply s selinux_enabled then add_context h.default_context opts else opts),
        selinux_enabled ∷ s,
      )

  -- The answer of the mounter; where the mount point does not exist, it is made.
  unfoldable pub likely_not_mounted : String → Io Bool
  unfolding is_not_exist
  likely_not_mounted path s = elim (h.bool_reply s (is_likely_not_mount_point path)) [
    | ok not_mnt ↦ pure not_mnt (is_likely_not_mount_point path ∷ s)
    | err e ↦ elim (is_not_exist e) [
      | true ↦ (act h (mkdir path 0o750) >> pure true) (is_likely_not_mount_point path ∷ s)
      | false ↦ fail e (is_likely_not_mount_point path ∷ s)
    ]
  ]

  -- mountIfNecessary
  unfoldable pub mount_if_necessary : BeegfsVolume → List String → Io (Unit {0})
  unfolding construct_mount_options likely_not_mounted
  mount_if_necessary vol desired = do
    opts ← construct_mount_options desired vol
    not_mnt ← likely_not_mounted vol.mount_path
    elim not_mnt [
      | false ↦ pure tt
      | true ↦ act h (mount "beegfs_nodev" vol.mount_path "beegfs" opts)
    ]

  -- The files of a directory, one after another, until one cannot be removed.
  unfoldable pub remove_each : String → List String → Io (Unit {0})
  unfolding path_join
  remove_each path [] = pure tt
  remove_each path (name ∷ rest) =
      act h (remove_all (path_join (path ∷ name ∷ []))) >> remove_each path rest

  -- cleanUpIfNecessary
  unfoldable pub clean_up_if_necessary : BeegfsVolume → Bool → Io (Unit {0})
  unfolding remove_each
  clean_up_if_necessary vol true = act h (remove_all vol.mount_dir_path)
  clean_up_if_necessary vol false = do
    found ← names h (read_dir vol.mount_dir_path)
    remove_each vol.mount_dir_path found

  -- unmountAndCleanUpIfNecessary
  unfoldable pub unmount_and_clean_up_if_necessary : BeegfsVolume → Bool → Io (Unit {0})
  unfolding bind_mounted clean_up_if_necessary
  unmount_and_clean_up_if_necessary vol rm_dir = do
    all_mounts ← mounts h list_mounts
    elim (bind_mounted vol all_mounts) [
      | true ↦ fail (failure "refused to unmount staged file system while bind mounted")
      | false ↦ do
        act h (cleanup_mount_point vol.mount_path false)
        clean_up_if_necessary vol rm_dir
    ]
