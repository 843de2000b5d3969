-- ===== src/Ctl.antt =====
-- The beegfs and beegfs-ctl commands (pkg/beegfs/beegfs_ctl.go): arguments, classes of errors, and
-- the dispatch between BeeGFS 8 and BeeGFS 7.
pub mod Create
pub mod Parents
pub mod Ancestors
use Prim.Native.Nat.{bit_and}
use mathlib.Core.Bool.{cond}
use beegfs_csi_driver.Prelude.{
  ℕ, zero, suc, ◌+◌, String, ◌<>◌, Bool, true, false, ◌||◌, Option, none, some, List, [], ◌∷◌, ◌++◌,
  ◌==◌, ltb, ◌=ℕ◌, length, if◌then◌else◌,
}
use beegfs_csi_driver.Prelude.Result.{
  Result, ok, err, Exec, pure, fail, lift, continue, ◌>>=◌, ◌>>◌,
}
use beegfs_csi_driver.Text.Strings.{contains}
use beegfs_csi_driver.Text.Numbers.{decimal, octal3}
use beegfs_csi_driver.Text.Path.{dir, segments}
use beegfs_csi_driver.Errors.{
  Cause, ctl_not_exist, ctl_exist, ctl_conn_auth, failure, diverges, is_ctl_not_exist, is_ctl_exist,
  is_ctl_conn_auth,
}
use beegfs_csi_driver.Params.{StripePatternConfig}
use beegfs_csi_driver.Volume.{BeegfsVolume, zero_volume, get_conn_auth_path, get_tls_cert_path}
use beegfs_csi_driver.Volume.Mode.{PermissionsConfig}
use beegfs_csi_driver.Host.{Host, Io, CommandOutput, command}

-- The outcome of a finished command, by its error and what it wrote.
unfoldable pub classify : CommandOutput → Result Cause String
unfolding contains
classify out = elim out.run_error [
  | none ↦ ok out.stdout
  | some e ↦
      if contains out.stderr "does not exist" || contains out.stderr "no such file or directory"
      then err (ctl_not_exist out.stdout out.stderr)
      else if contains out.stderr "exists already" || contains out.stdout "exists already"
      then err (ctl_exist out.stdout out.stderr)
      else if contains out.stderr "No connAuthFile configured"
      then err (ctl_conn_auth out.stdout out.stderr)
      else err (failure e)
]

pub data CtlVersion : Type 0 where
  v7 v8 : CtlVersion

-- net.JoinHostPort
unfoldable pub join_host_port : String → String → String
unfolding contains
join_host_port host port =
    if contains host ":" then "[" <> (host <> ("]:" <> port)) else host <> (":" <> port)

unfoldable pub is_help : List String → Bool
is_help [] = false
is_help (arg ∷ args) = arg == "--help"

-- The flags that the BeeGFS 8 tool gets in place of a configuration file.
unfoldable pub v8_flags : BeegfsVolume → List String
unfolding join_host_port get_conn_auth_path get_tls_cert_path
v8_flags vol =
    ("--mgmtd-addr="
      <> join_host_port vol.sys_mgmtd_host
          (if vol.config.grpc_port == "" then "8010" else vol.config.grpc_port))
    ∷ (if vol.config.conn_auth == ""
        then "--auth-disable"
        else "--auth-file=" <> get_conn_auth_path vol)
    ∷ (if vol.config.tls_cert == ""
        then "--tls-disable"
        else "--tls-cert-file=" <> get_tls_cert_path vol)
    ∷ []

-- The arguments of (*beegfsCtlExecutorV8) execute and (*beegfsCtlExecutorV7) execute.
unfoldable pub full_args : CtlVersion → BeegfsVolume → List String → List String
unfolding v8_flags is_help
full_args v8 vol args = if is_help args then args else args ++ v8_flags vol
full_args v7 vol args = ("--cfgFile=" <> vol.client_conf_path) ∷ args

abbrev pub tool : CtlVersion → String
tool v8 = "beegfs"
tool v7 = "beegfs-ctl"

-- One argument for each setting that is not empty, in front of those that follow.
abbrev option_arg : String → String → List String → List String
option_arg flag value args = if value == "" then args else (flag <> value) ∷ args

abbrev pub stripe_args : CtlVersion → StripePatternConfig → List String
stripe_args v8 cfg =
    option_arg "--pool=" cfg.storage_pool_id
      (option_arg "--chunk-size=" cfg.chunk_size (option_arg "--num-targets=" cfg.num_targets []))
stripe_args v7 cfg =
    option_arg "--storagepoolid=" cfg.storage_pool_id
      (option_arg "--chunksize=" cfg.chunk_size (option_arg "--numtargets=" cfg.num_targets []))

-- constructSetPatternForVolumeArgs; `none` where nothing has to be executed
unfoldable pub construct_set_pattern_for_volume_args :
    StripePatternConfig → CtlVersion → Option (List String)
construct_set_pattern_for_volume_args cfg v8 = elim (stripe_args v8 cfg) [
  | [] ↦ none
  | arg ∷ args ↦ some ("--mount=none" ∷ "entry" ∷ "set" ∷ arg ∷ args)
]
construct_set_pattern_for_volume_args cfg v7 = elim (stripe_args v7 cfg) [
  | [] ↦ none
  | arg ∷ args ↦ some ("--unmounted" ∷ "--setpattern" ∷ arg ∷ args)
]

abbrev owner_args : PermissionsConfig → List String
owner_args cfg =
    (if cfg.uid =ℕ 0 then [] else ("--uid=" <> decimal cfg.uid) ∷ [])
    ++ (if cfg.gid =ℕ 0 then [] else ("--gid=" <> decimal cfg.gid) ∷ [])

-- constructCreateDirForVolumeArgs
unfoldable pub construct_create_dir_for_volume_args : PermissionsConfig → CtlVersion → List String
unfolding octal3 decimal
construct_create_dir_for_volume_args cfg v8 =
    "--mount=none"
    ∷ "entry"
    ∷ "create"
    ∷ "directory"
    ∷ ("--permissions=" <> octal3 (bit_and cfg.mode 0o777))
    ∷ owner_args cfg
construct_create_dir_for_volume_args cfg v7 =
    "--unmounted"
    ∷ "--createdir"
    ∷ ("--access=" <> octal3 (bit_and cfg.mode 0o777))
    ∷ owner_args cfg

-- The loop that collects the parents of a directory, the most general one first. It ends at "/", and
-- for a relative path, whose parents end in ".", it does not.
unfoldable pub parents : ℕ → String → List String → Option (List String)
unfolding dir
parents zero path dirs = none
parents (suc fuel) path dirs =
    let rest = parents fuel (dir path) (path ∷ dirs) in if path == "/" then some dirs else rest

unfoldable pub dirs_to_make : String → Option (List String)
unfolding parents segments
dirs_to_make dir_path = parents (length (segments dir_path)) (dir dir_path) (dir_path ∷ [])

module _ (h : Host) where
  -- execBeeGFSCmd
  unfoldable pub exec_beegfs_cmd : String → List String → Io String
  unfolding classify
  exec_beegfs_cmd name args s =
      (classify (h.command_reply s (command name args)), command name args ∷ s)

  unfoldable pub execute : CtlVersion → BeegfsVolume → List String → Io String
  unfolding exec_beegfs_cmd full_args
  execute version vol args = exec_beegfs_cmd (tool version) (full_args version vol args)

  unfoldable pub version_stat_directory : CtlVersion → BeegfsVolume → String → Io String
  unfolding execute
  version_stat_directory v8 vol path =
      execute v8 vol ("--mount=none" ∷ "entry" ∷ "info" ∷ path ∷ [])
  version_stat_directory v7 vol path = execute v7 vol ("--unmounted" ∷ "--getentryinfo" ∷ path ∷ [])

  -- The directories are made in turn; one that exists already is no error.
  unfoldable pub make_dirs : CtlVersion → BeegfsVolume → List String → List String → Io (Unit {0})
  unfolding execute is_ctl_exist
  make_dirs version vol args [] s = (ok tt, s)
  make_dirs version vol args (path ∷ rest) s =
      let (r, t) = execute version vol (args ++ path ∷ []) s in
      let more = make_dirs version vol args rest t in
      elim r [ ok out ↦ more | err e ↦ cond (is_ctl_exist e) more (err e, t) ]

  -- createDirectoryForVolume of both executors
  unfoldable pub version_create_directory :
      CtlVersion → BeegfsVolume → String → PermissionsConfig → Io (Unit {0})
  unfolding version_stat_directory make_dirs dirs_to_make is_ctl_not_exist
      construct_create_dir_for_volume_args
  version_create_directory version vol path cfg s =
      let (r, t) = version_stat_directory version vol path s in
      elim r [
        | ok out ↦ (ok tt, t)
        | err e ↦ elim (is_ctl_not_exist e) [
          | false ↦ (err e, t)
          | true ↦ elim (dirs_to_make path) [
            | none ↦ (err diverges, t)
            | some dirs ↦
                make_dirs version vol (construct_create_dir_for_volume_args cfg version) dirs t
          ]
        ]
      ]

  -- setPatternForVolume of both executors
  unfoldable pub version_set_pattern :
      CtlVersion → BeegfsVolume → StripePatternConfig → Io (Unit {0})
  unfolding construct_set_pattern_for_volume_args execute
  version_set_pattern version vol cfg = elim (construct_set_pattern_for_volume_args cfg version) [
    | none ↦ pure tt
    | some args ↦ execute version vol (args ++ vol.vol_dir_path_beegfs_root ∷ []) >>= λ out. pure tt
  ]

  -- detectCTLVersion
  unfoldable pub detect_ctl_version : BeegfsVolume → Io CtlVersion
  unfolding execute
  detect_ctl_version vol s =
      let (r, t) = execute v8 vol ("node" ∷ "list" ∷ []) s in
      let (q, u) = execute v7 vol ("--listnodes" ∷ "--nodetype=management" ∷ []) t in
      elim r [
        | ok out ↦ (ok v8, t)
        | err e ↦ elim q [
          | ok out ↦ (ok v7, u)
          | err e' ↦ (err (failure "unable to verify if this is a BeeGFS 7 or 8 volume"), u)
        ]
      ]

  -- The methods of beegfsCtlDispatcher.
  unfoldable pub create_directory_for_volume :
      BeegfsVolume → String → PermissionsConfig → Io (Unit {0})
  unfolding detect_ctl_version version_create_directory
  create_directory_for_volume vol path cfg = do
    version ← detect_ctl_version vol
    version_create_directory version vol path cfg

  unfoldable pub stat_directory_for_volume : BeegfsVolume → String → Io String
  unfolding detect_ctl_version version_stat_directory
  stat_directory_for_volume vol path = do
    version ← detect_ctl_version vol
    version_stat_directory version vol path

  unfoldable pub set_pattern_for_volume : BeegfsVolume → StripePatternConfig → Io (Unit {0})
  unfolding detect_ctl_version version_set_pattern
  set_pattern_for_volume vol cfg = do
    version ← detect_ctl_version vol
    version_set_pattern version vol cfg

  -- newBeeGFSCtlExecutor: the driver needs one of the tools.
  unfoldable pub new_beegfs_ctl_executor : Io (Unit {0})
  unfolding execute is_ctl_conn_auth
  new_beegfs_ctl_executor s =
      let (r8, t) = execute v8 zero_volume ("--help" ∷ []) s in
      let (r7, u) = execute v7 zero_volume ("--help" ∷ []) t in
      elim r8 [
        | ok out ↦ (ok tt, u)
        | err e8 ↦ elim r7 [
          | ok out ↦ (ok tt, u)
          | err e7 ↦
              cond (is_ctl_conn_auth e7) (ok tt, u)
                (err (failure "unable to verify that a BeeGFS CTL is installed"), u)
        ]
      ]
