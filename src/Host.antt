-- ===== src/Host.antt =====
-- The environment of the driver: the node's file system (`afero`, `os`), the mounter
-- (k8s.io/mount-utils), external commands (`os/exec`), the network and the clock. None of it is code
-- of the repository. A call is recorded in the history, and the environment answers it from the
-- whole history so far. Every behaviour is such a function, also one with other processes at work,
-- and theorems hold for all of them.
pub mod Trace
use beegfs_csi_driver.Prelude.{ℕ, String, Bool, Option, List, ◌∷◌}
use beegfs_csi_driver.Prelude.Dict.{Dict}
use beegfs_csi_driver.Prelude.Result.{Result, Exec}
use beegfs_csi_driver.Errors.{Cause}
use beegfs_csi_driver.Volume.{Library}

-- A call with its arguments, the permission bits included.
pub data Call : Type 0 where
  -- fs.MkdirAll, os.Mkdir, fs.Stat, fsutil.ReadFile, fsutil.WriteFile
  mkdir_all mkdir : String → ℕ → Call
  stat read_file : String → Call
  write_file : String → String → ℕ → Call
  -- fs.Create, and writing to the file that it made
  create : String → Call
  write_to : String → String → Call
  -- fs.RemoveAll, fs.Remove, ReadDir, Exists, DirExists, IsEmpty, os.Chmod
  remove_all remove read_dir exists dir_exists is_empty : String → Call
  chmod : String → ℕ → Call
  -- the mounter
  is_likely_not_mount_point is_mount_point : String → Call
  mount : String → String → String → List String → Call
  list_mounts : Call
  cleanup_mount_point : String → Bool → Call
  -- exec.Command(name, args...).Run()
  command : String → List String → Call
  -- net.ListenPacket("udp4", ""), closing its socket, time.Sleep in seconds, selinux.GetEnabled
  listen_packet close_packet : Call
  sleep : ℕ → Call
  selinux_enabled : Call

-- The calls so far, the last one first.
abbrev pub History : Type 0
History = List Call

pub record MountPoint : Type 0 where
  pub device : String
  pub path : String
  pub opts : List String

-- The error of the run, if there is one, and what was written.
pub record CommandOutput : Type 0 where
  pub run_error : Option String
  pub stdout : String
  pub stderr : String

pub record Host : Type 0 where
  pub unit_reply : History → Call → Result Cause (Unit {0})
  pub bool_reply : History → Call → Result Cause Bool
  pub text_reply : History → Call → Result Cause String
  pub names_reply : History → Call → Result Cause (List String)
  pub mounts_reply : History → Call → Result Cause (List MountPoint)
  pub command_reply : History → Call → CommandOutput
  -- the address of a new socket, and the port of an address (net.ResolveUDPAddr)
  pub local_addr_reply : History → Call → Result Cause String
  pub resolve_udp_addr : String → Result Cause ℕ
  pub flag_reply : History → Call → Bool
  -- time.Now(), in nanoseconds
  pub clock : History → ℕ
  -- gopkg.in/ini.v1: the keys of the default section of a text, and the text with its keys set
  pub ini_load : String → Result Cause (Dict String)
  pub ini_print : String → Dict String → String
  -- the text of the default SELinux context
  pub default_context : String
  pub library : Library

-- An action on the environment.
abbrev pub Io : Type 0 → Type 0
Io = Exec History Cause

module _ (h : Host) where
  abbrev pub act : Call → Io (Unit {0})
  act c s = (h.unit_reply s c, c ∷ s)

  abbrev pub ask : Call → Io Bool
  ask c s = (h.bool_reply s c, c ∷ s)

  abbrev pub read_text : Call → Io String
  read_text c s = (h.text_reply s c, c ∷ s)

  abbrev pub names : Call → Io (List String)
  names c s = (h.names_reply s c, c ∷ s)

  abbrev pub mounts : Call → Io (List MountPoint)
  mounts c s = (h.mounts_reply s c, c ∷ s)

  abbrev pub local_addr : Call → Io String
  local_addr c s = (h.local_addr_reply s c, c ∷ s)
