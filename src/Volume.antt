-- ===== src/Volume.antt =====
-- Volumes, their identifiers and their permissions (pkg/beegfs/beegfs.go, and parts of
-- pkg/beegfs/beegfs_util.go and pkg/beegfs/controllerserver.go). `net/url` is a parameter.
pub mod Places
pub mod Id
pub mod Mode
use beegfs_csi_driver.Prelude.{String, ◌<>◌, Bool, true, false, List, [], ◌∷◌, ◌==◌}
use beegfs_csi_driver.Prelude.Result.{Result, ok, err}
use beegfs_csi_driver.Prelude.Fallible.{◌>>=◌}
use beegfs_csi_driver.Text.Path.{path_join, dir, base}
use beegfs_csi_driver.Errors.{Cause, failure}
use beegfs_csi_driver.Config.{zero_beegfs_config, BeegfsConfig, PluginConfig}
use beegfs_csi_driver.Config.Merge.{squash_config_for_sys_mgmtd_host}
use Id.{sanitize_volume_id}

pub record BeegfsVolume : Type 0 where
  pub config : BeegfsConfig
  pub client_conf_path : String
  pub csi_dir_path : String
  pub csi_dir_path_beegfs_root : String
  pub mount_dir_path : String
  pub mount_path : String
  pub sys_mgmtd_host : String
  pub vol_dir_base_path_beegfs_root : String
  pub vol_dir_base_path : String
  pub vol_dir_path_beegfs_root : String
  pub vol_dir_path : String
  pub volume_id : String

-- beegfsVolume{}
abbrev pub zero_volume : BeegfsVolume
zero_volume = record {
  config = zero_beegfs_config;
  client_conf_path = "";
  csi_dir_path = "";
  csi_dir_path_beegfs_root = "";
  mount_dir_path = "";
  mount_path = "";
  sys_mgmtd_host = "";
  vol_dir_base_path_beegfs_root = "";
  vol_dir_base_path = "";
  vol_dir_path_beegfs_root = "";
  vol_dir_path = "";
  volume_id = "";
}

-- The parts of a parsed URL that the driver reads.
pub record Url : Type 0 where
  pub scheme : String
  pub host : String
  pub path : String

-- `net/url`: (*URL).String() and url.Parse, and `crypto/sha1` printed in hexadecimal.
pub record Library : Type 0 where
  pub url_string : Url → String
  pub url_parse : String → Result Cause Url
  pub sha1_hex : String → String

-- (beegfsVolume) getConnAuthPath and getTLSCertPath
unfoldable pub get_conn_auth_path : BeegfsVolume → String
get_conn_auth_path v = path_join (v.mount_dir_path ∷ "connAuthFile" ∷ [])

unfoldable pub get_tls_cert_path : BeegfsVolume → String
get_tls_cert_path v = path_join (v.mount_dir_path ∷ "cert.pem" ∷ [])

module _ (lib : Library) where
  -- NewBeegfsURL
  unfoldable pub new_beegfs_url : String → String → String
  new_beegfs_url host path = lib.url_string (record { scheme = "beegfs"; host = host; path = path })

  -- parseBeegfsURL, with the host and the path of the identifier
  unfoldable pub parse_beegfs_url : String → Result Cause (String × String)
  parse_beegfs_url raw_url = do
    url ← lib.url_parse raw_url
    elim (url.scheme == "beegfs") [
      | true ↦ ok (url.host, url.path)
      | false ↦ err (failure "URL has incorrect scheme")
    ]

  -- newBeegfsVolume; squashing cannot panic, which Config.Merge.Layers shows
  unfoldable pub new_beegfs_volume :
      String → String → String → PluginConfig → Result Cause BeegfsVolume
  unfolding new_beegfs_url
  new_beegfs_volume mount_dir_path sys_mgmtd_host vol_dir_path_beegfs_root plugin_config = do
    config ← squash_config_for_sys_mgmtd_host sys_mgmtd_host plugin_config
    let mount_path = path_join (mount_dir_path ∷ "mount" ∷ [])
    let vol_dir_path = path_join (mount_path ∷ vol_dir_path_beegfs_root ∷ [])
    let vol_dir_base_path = dir vol_dir_path
    let vol_dir_base_path_beegfs_root = dir vol_dir_path_beegfs_root
    let vol_name = base vol_dir_path_beegfs_root
    ok (record {
      config = config;
      client_conf_path = path_join (mount_dir_path ∷ "beegfs-client.conf" ∷ []);
      csi_dir_path = path_join (vol_dir_base_path ∷ ".csi" ∷ "volumes" ∷ vol_name ∷ []);
      csi_dir_path_beegfs_root =
          path_join (vol_dir_base_path_beegfs_root ∷ ".csi" ∷ "volumes" ∷ vol_name ∷ []);
      mount_dir_path = mount_dir_path;
      mount_path = mount_path;
      sys_mgmtd_host = sys_mgmtd_host;
      vol_dir_base_path_beegfs_root = vol_dir_base_path_beegfs_root;
      vol_dir_base_path = vol_dir_base_path;
      vol_dir_path_beegfs_root = vol_dir_path_beegfs_root;
      vol_dir_path = vol_dir_path;
      volume_id = new_beegfs_url sys_mgmtd_host vol_dir_path_beegfs_root;
    })

  -- newBeegfsVolumeFromID
  unfoldable pub new_beegfs_volume_from_id :
      String → String → PluginConfig → Result Cause BeegfsVolume
  unfolding parse_beegfs_url new_beegfs_volume
  new_beegfs_volume_from_id mount_dir_path volume_id plugin_config = do
    (sys_mgmtd_host, vol_dir_path_beegfs_root) ← parse_beegfs_url volume_id
    new_beegfs_volume mount_dir_path sys_mgmtd_host vol_dir_path_beegfs_root plugin_config

  -- (*controllerServer) newBeegfsVolume: the mount directory lies in the service's data directory
  unfoldable pub controller_volume :
      String → PluginConfig → String → String → String → Result Cause BeegfsVolume
  unfolding new_beegfs_volume new_beegfs_url
  controller_volume cs_data_dir plugin_config sys_mgmtd_host vol_dir_base_path_beegfs_root
        vol_name =
      let vol_dir_path_beegfs_root = path_join (vol_dir_base_path_beegfs_root ∷ vol_name ∷ []) in
      let volume_id = new_beegfs_url sys_mgmtd_host vol_dir_path_beegfs_root in
      let mount_dir_path =
        path_join (cs_data_dir ∷ sanitize_volume_id lib.sha1_hex volume_id ∷ []) in
      new_beegfs_volume mount_dir_path sys_mgmtd_host vol_dir_path_beegfs_root plugin_config

  -- (*controllerServer) newBeegfsVolumeFromID
  unfoldable pub controller_volume_from_id :
      String → PluginConfig → String → Result Cause BeegfsVolume
  unfolding new_beegfs_volume_from_id
  controller_volume_from_id cs_data_dir plugin_config volume_id =
      let mount_dir_path =
        path_join (cs_data_dir ∷ sanitize_volume_id lib.sha1_hex volume_id ∷ []) in
      new_beegfs_volume_from_id mount_dir_path volume_id plugin_config
