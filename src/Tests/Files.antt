-- ===== src/Tests/Files.antt =====
-- The theorems on files, options and commands at concrete inputs.
use beegfs_csi_driver.Prelude.{
  String, ◌<>◌, ◌≡◌, refl, Bool, true, false, ◌&&◌, [], ◌∷◌, none, some, member, arith, ◌==◌, ltb,
  len,
}
use beegfs_csi_driver.Prelude.Dict.{lookup, insert}
use beegfs_csi_driver.Prelude.Result.{ok, err, ◌>>=◌}
use beegfs_csi_driver.Volume.{BeegfsVolume}
use beegfs_csi_driver.Text.Strings.{contains_lower, replace_first}
use beegfs_csi_driver.Text.Path.{render}
use beegfs_csi_driver.Text.Path.Names.{IsName}
use beegfs_csi_driver.Errors.{ctl_not_exist, is_ctl_not_exist}
use beegfs_csi_driver.Config.Merge.{entries}
use beegfs_csi_driver.Volume.Id.{flatten_id, sanitize_volume_id}
use beegfs_csi_driver.Volume.Id.Names.{
  Lacks, sanitize_volume_id_collision, sanitize_volume_id-Lacks,
}
use beegfs_csi_driver.Volume.Mode.{PermissionsConfig}
use beegfs_csi_driver.Host.{Host, History, Call, CommandOutput, command}
use beegfs_csi_driver.ClientFiles.{set_client_conf, write_client_files}
use beegfs_csi_driver.ClientFiles.Written.{IsWritten, write_client_files-IsWritten}
use beegfs_csi_driver.ClientFiles.Keys.{set_client_conf_order}
use beegfs_csi_driver.Mount.{base_mount_options, remove_invalid_mount_options}
use beegfs_csi_driver.Mount.Options.{
  Distinct, allowed, remove_invalid_mount_options_lem, base_mount_options_lem,
}
use beegfs_csi_driver.Ctl.{
  v7, dirs_to_make, construct_create_dir_for_volume_args, version_stat_directory,
  version_create_directory,
}
use beegfs_csi_driver.Ctl.Create.{Creating, version_create_directory-Creating}
use beegfs_csi_driver.Chwrap.{find_binary, binary_directories}
use beegfs_csi_driver.Chwrap.Search.{Found, find_binary-Found}
use beegfs_csi_driver.Tests.{host, volume, template}

base_mount_options_lem_example :
    (member ("cfgFile=" <> volume.client_conf_path) (base_mount_options ("noatime" ∷ []) volume)
      ≡ true)
    × ((opt : String)
        → (contains_lower opt "cfgfile" && member opt (base_mount_options ("noatime" ∷ []) volume))
          ≡ (contains_lower opt "cfgfile" && (opt == ("cfgFile=" <> volume.client_conf_path))))
base_mount_options_lem_example = base_mount_options_lem ("noatime" ∷ []) volume

remove_invalid_mount_options_lem_example :
    Distinct (remove_invalid_mount_options ("ro" ∷ "CFGFILE=x" ∷ "ro" ∷ []))
    × ((opt : String)
        → member opt (remove_invalid_mount_options ("ro" ∷ "CFGFILE=x" ∷ "ro" ∷ []))
          ≡ (allowed opt && member opt ("ro" ∷ "CFGFILE=x" ∷ "ro" ∷ [])))
remove_invalid_mount_options_lem_example =
    remove_invalid_mount_options_lem ("ro" ∷ "CFGFILE=x" ∷ "ro" ∷ [])

-- A volume with an interface and a secret, and a template with the keys for them.
abbrev full_volume : BeegfsVolume
full_volume = record volume {
  config = record volume.config { conn_interfaces = "eth0" ∷ []; conn_auth = "secret" };
}

abbrev full_host : Host
full_host = record host {
  ini_load =
      λ b. ok (("connInterfacesFile", "") ∷ ("sysMgmtdHost", "") ∷ ("connAuthFile", "") ∷ template);
}

no_host : lookup "sysMgmtdHost" (entries full_volume.config.beegfs_client_conf) ≡ none
unfolding lookup
no_host = refl

writes :
    write_client_files full_host full_volume "/template" []
    ≡ (ok tt, (write_client_files full_host full_volume "/template" []).1)
unfolding write_client_files ◌>>=◌
writes = refl

write_client_files-IsWritten_example :
    IsWritten full_host full_volume "/template"
      (write_client_files full_host full_volume "/template" []).1
write_client_files-IsWritten_example =
    write_client_files-IsWritten full_host full_volume "/template" []
      (write_client_files full_host full_volume "/template" []).1 no_host writes

has_port : lookup "connMgmtdPort" template ≡ some "8008"
unfolding lookup
has_port = refl

no_tcp_port : lookup "connMgmtdPortTCP" template ≡ none
unfolding lookup
no_tcp_port = refl

set_client_conf_order_example :
    (set_client_conf (("connMgmtdPort", "1") ∷ ("connMgmtdPortTCP", "2") ∷ []) (template, "")
      ≡ ok (insert "connMgmtdPort" "2" (insert "connMgmtdPort" "1" template), "2"))
    × (set_client_conf (("connMgmtdPortTCP", "2") ∷ ("connMgmtdPort", "1") ∷ []) (template, "")
        ≡ ok (insert "connMgmtdPort" "1" (insert "connMgmtdPort" "2" template), "2"))
set_client_conf_order_example = set_client_conf_order "1" "2" "8008" template has_port no_tcp_port

-- The directory does not exist, and every other command succeeds.
abbrev is_stat : Call → Bool
is_stat (command name (a ∷ b ∷ c ∷ args)) = c == "--getentryinfo"
is_stat c = false

abbrev missing : CommandOutput
missing = record { run_error = some "exit status 1"; stdout = ""; stderr = "path does not exist" }

abbrev fine : CommandOutput
fine = record { run_error = none; stdout = "created"; stderr = "" }

abbrev empty_host : Host
empty_host = record host {
  command_reply = λ s c. elim (is_stat c) [ true ↦ missing | false ↦ fine ];
}

abbrev permissions : PermissionsConfig
permissions = record { uid = 0; gid = 0; mode = 0o750 }

abbrev stat_calls : History
stat_calls =
    command "beegfs-ctl" (
      ("--cfgFile=" <> volume.client_conf_path)
      ∷ "--unmounted"
      ∷ "--getentryinfo"
      ∷ "/scratch/pvc1"
      ∷ [])
    ∷ []

stats :
    version_stat_directory empty_host v7 volume "/scratch/pvc1" []
    ≡ (err (ctl_not_exist "" "path does not exist"), stat_calls)
unfolding version_stat_directory
stats = refl

not_there : is_ctl_not_exist (ctl_not_exist "" "path does not exist") ≡ true
unfolding is_ctl_not_exist
not_there = refl

two_dirs : dirs_to_make "/scratch/pvc1" ≡ some ("/scratch" ∷ "/scratch/pvc1" ∷ [])
unfolding dirs_to_make
two_dirs = refl

scratch : IsName "scratch"
scratch = record { segment = refl; some_text = refl; not_dot = refl; not_dots = refl }

pvc : IsName "pvc1"
pvc = record { segment = refl; some_text = refl; not_dot = refl; not_dots = refl }

version_create_directory-Creating_example :
    Creating empty_host v7 volume
      (construct_create_dir_for_volume_args permissions v7)
      ("scratch" ∷ "pvc1" ∷ [])
      (version_stat_directory empty_host v7 volume "/scratch/pvc1" []).1
      (version_stat_directory empty_host v7 volume "/scratch/pvc1" []).0
      (version_create_directory empty_host v7 volume "/scratch/pvc1" permissions [])
unfolding render
version_create_directory-Creating_example =
    version_create_directory-Creating empty_host v7 volume ("scratch" ∷ []) "pvc1" permissions []
      (scratch, tt) pvc

same_short : ltb 255 (len (flatten_id ("host/a" <> ("_/" <> "b")))) ≡ false
unfolding flatten_id
same_short = refl

first_id : replace_first "beegfs://host/a_/b" "beegfs://" "" ≡ "host/a" <> ("_/" <> "b")
unfolding replace_first
first_id = refl

second_id : replace_first "beegfs://host/a/_b" "beegfs://" "" ≡ "host/a" <> ("/_" <> "b")
unfolding replace_first
second_id = refl

sanitize_volume_id_collision_example :
    sanitize_volume_id (λ s. "da39") "beegfs://host/a_/b"
    ≡ sanitize_volume_id (λ s. "da39") "beegfs://host/a/_b"
sanitize_volume_id_collision_example =
    sanitize_volume_id_collision (λ s. "da39") "beegfs://host/a_/b" "beegfs://host/a/_b" "host/a"
      "b" first_id second_id same_short

no_slash : Lacks b'/' "da39"
no_slash = (omega arith, (omega arith, (omega arith, (omega arith, tt))))

sanitize_volume_id-Lacks_example :
    Lacks b'/' (sanitize_volume_id (λ s. "da39") "beegfs://host/scratch/pvc1")
sanitize_volume_id-Lacks_example =
    sanitize_volume_id-Lacks (λ s. "da39") "beegfs://host/scratch/pvc1" no_slash

find_binary-Found_example :
    Found
      (λ p. elim (p == "/host/usr/sbin/beegfs-ctl") [ true ↦ some 0o100755 | false ↦ none ])
      "/host"
      "beegfs-ctl"
      binary_directories
      (find_binary
        (λ p. elim (p == "/host/usr/sbin/beegfs-ctl") [ true ↦ some 0o100755 | false ↦ none ])
        "/host"
        "beegfs-ctl")
find_binary-Found_example =
    find_binary-Found
      (λ p. elim (p == "/host/usr/sbin/beegfs-ctl") [ true ↦ some 0o100755 | false ↦ none ]) "/host"
      "beegfs-ctl"
