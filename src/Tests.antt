-- ===== src/Tests.antt =====
-- Concrete runs: an environment in which every call succeeds, and the theorems applied to it.
mod Controller
mod Config
mod Files
mod Start
mod Cluster
mod Operator
mod Serving
mod Node
use beegfs_csi_driver.Prelude.{
  ℕ, ◌+◌, ◌*◌, String, ◌<>◌, Bool, true, false, Option, none, some, List, [], ◌∷◌,
}
use beegfs_csi_driver.Prelude.Dict.{Dict}
use beegfs_csi_driver.Prelude.Result.{Result, ok, err}
use beegfs_csi_driver.Errors.{Cause, failure}
use beegfs_csi_driver.Config.{BeegfsConfig, new_beegfs_config, PluginConfig}
use beegfs_csi_driver.Volume.{BeegfsVolume, Url, Library}
use beegfs_csi_driver.Capability.{VolumeCapability}
use beegfs_csi_driver.Host.{Host, History, Call, sleep}
use beegfs_csi_driver.Controller.{Settings, Server, CreateVolumeRequest}
use beegfs_csi_driver.Controller.Delete.{second}

-- The URL of one volume.
abbrev pub volume_url : String
volume_url = "beegfs://host/scratch/pvc1"

abbrev pub library : Library
library = record {
  url_string = λ u. u.scheme <> ("://" <> (u.host <> u.path));
  url_parse = λ s. ok (record { scheme = "beegfs"; host = "host"; path = "/scratch/pvc1" });
  sha1_hex = λ s. "da39a3ee5e6b4b0d3255bfef95601890afd80709";
}

-- Only sleeping takes time.
abbrev pub slept : History → ℕ
slept [] = 0
slept (sleep n ∷ s) = slept s + n * second
slept (c ∷ s) = slept s

abbrev pub template : Dict String
template = ("sysMgmtdHost", "") ∷ ("connClientPort", "8004") ∷ ("connMgmtdPort", "8008") ∷ []

abbrev pub host : Host
host = record {
  unit_reply = λ s c. ok tt;
  bool_reply = λ s c. ok true;
  text_reply = λ s c. ok "sysMgmtdHost=";
  names_reply = λ s c. ok [];
  mounts_reply = λ s c. ok [];
  command_reply = λ s c. record { run_error = none; stdout = ""; stderr = "" };
  local_addr_reply = λ s c. ok "0.0.0.0:50000";
  resolve_udp_addr = λ a. ok 50000;
  flag_reply = λ s c. false;
  clock = slept;
  ini_load = λ t. ok template;
  ini_print = λ t d. t;
  default_context = "system_u:object_r:container_file_t:s0";
  library = library;
}

abbrev pub plugin_config : PluginConfig
plugin_config = record { default_config = new_beegfs_config; file_system_specific_configs = [] }

abbrev pub settings : Settings
settings = record {
  plugin_config = plugin_config;
  client_conf_template_path = "/etc/beegfs/beegfs-client.conf";
  cs_data_dir = "/csi";
  node_unstage_timeout = 60;
}

abbrev pub server : Server
server = record {
  volume_ids_in_flight = record { items = [] };
  volume_status_map = [];
  history = [];
}

abbrev pub mount_capability : VolumeCapability
mount_capability = record {
  mount_flags = some ("noatime" ∷ "cfgFile=/tmp/x" ∷ "noatime" ∷ []);
  block = false;
}

abbrev pub parameters : Dict String
parameters =
    ("sysMgmtdHost", "host")
    ∷ ("volDirBasePath", "scratch")
    ∷ ("permissions/mode", "0755")
    ∷ ("stripePattern/chunkSize", "1m")
    ∷ []

abbrev pub create_request : CreateVolumeRequest
create_request = record {
  name = "pvc1";
  volume_capabilities = mount_capability ∷ [];
  parameters = parameters;
}

abbrev pub volume : BeegfsVolume
volume = record {
  config = new_beegfs_config;
  client_conf_path = "/csi/host_scratch_pvc1/beegfs-client.conf";
  csi_dir_path = "/csi/host_scratch_pvc1/mount/scratch/.csi/volumes/pvc1";
  csi_dir_path_beegfs_root = "/scratch/.csi/volumes/pvc1";
  mount_dir_path = "/csi/host_scratch_pvc1";
  mount_path = "/csi/host_scratch_pvc1/mount";
  sys_mgmtd_host = "host";
  vol_dir_base_path_beegfs_root = "/scratch";
  vol_dir_base_path = "/csi/host_scratch_pvc1/mount/scratch";
  vol_dir_path_beegfs_root = "/scratch/pvc1";
  vol_dir_path = "/csi/host_scratch_pvc1/mount/scratch/pvc1";
  volume_id = volume_url;
}
