-- ===== src/Config/Merge.antt =====
-- overWriteBeegfsConfig, overwriteFileSystemSpecificConfigs (pkg/beegfs/config.go) and
-- squashConfigForSysMgmtdHost (pkg/beegfs/beegfs_util.go). The maps of the configurations are not
-- shared with anything that is read later, so copies serve for the source's references.

pub mod Layers
pub mod NilMap
use beegfs_csi_driver.Prelude.{
  String, Bool, true, false, Option, none, some, List, [], ◌∷◌, ◌++◌, ◌==◌, if◌then◌else◌,
}
use beegfs_csi_driver.Prelude.Dict.{Dict, insert}
use beegfs_csi_driver.Prelude.Result.{Result, ok, err}
use beegfs_csi_driver.Prelude.Fallible.{◌>>=◌}
use beegfs_csi_driver.Errors.{Cause, panic}
use beegfs_csi_driver.Config.{
  BeegfsConfig, new_beegfs_config, FileSystemSpecificConfig, PluginConfig,
}

-- `if len(from) != 0 { to = from }`, for texts and for slices
abbrev pub prefer_text : String → String → String
prefer_text to from = if from == "" then to else from

abbrev pub prefer_list : List String → List String → List String
prefer_list to [] = to
prefer_list to (x ∷ xs) = x ∷ xs

-- The entries that a `range` over the map visits.
abbrev pub entries : Option (Dict String) → Dict String
entries none = []
entries (some m) = m

-- `for k, v := range from { to[k] = v }`: a write to a nil map panics
write_entries : Option (Dict String) → Dict String → Result Cause (Option (Dict String))
write_entries to [] = ok to
write_entries none (kv ∷ from) = err (panic "assignment to entry in nil map")
write_entries (some m) ((k, v) ∷ from) = write_entries (some (insert k v m)) from

-- overWriteBeegfsConfig
unfoldable pub overwrite_beegfs_config : BeegfsConfig → BeegfsConfig → Result Cause BeegfsConfig
unfolding write_entries
overwrite_beegfs_config to from = do
  conf ← write_entries to.beegfs_client_conf (entries from.beegfs_client_conf)
  ok (record {
    grpc_port = prefer_text to.grpc_port from.grpc_port;
    conn_interfaces = prefer_list to.conn_interfaces from.conn_interfaces;
    conn_net_filter = prefer_list to.conn_net_filter from.conn_net_filter;
    conn_tcp_only_filter = prefer_list to.conn_tcp_only_filter from.conn_tcp_only_filter;
    beegfs_client_conf = conf;
    conn_auth = prefer_text to.conn_auth from.conn_auth;
    tls_cert = prefer_text to.tls_cert from.tls_cert;
    conn_rdma_interfaces = prefer_list to.conn_rdma_interfaces from.conn_rdma_interfaces;
  })

-- The inner loop: every entry of the host is overwritten, and whether there was one.
overwrite_matching :
    FileSystemSpecificConfig
    → List FileSystemSpecificConfig
    → Result Cause (List FileSystemSpecificConfig × Bool)
overwrite_matching from [] = ok ([], false)
overwrite_matching from (to ∷ rest) = elim (to.sys_mgmtd_host == from.sys_mgmtd_host) [
  | true ↦ do
    config ← overwrite_beegfs_config to.config from.config
    others ← overwrite_matching from rest
    ok (record to { config = config } ∷ others.0, true)
  | false ↦ do others ← overwrite_matching from rest; ok (to ∷ others.0, others.1)
]

-- overwriteFileSystemSpecificConfigs
unfoldable pub overwrite_file_system_specific_configs :
    List FileSystemSpecificConfig
    → List FileSystemSpecificConfig
    → Result Cause (List FileSystemSpecificConfig)
unfolding overwrite_matching overwrite_beegfs_config
overwrite_file_system_specific_configs write_to [] = ok write_to
overwrite_file_system_specific_configs write_to (from ∷ rest) = do
  (written, had_config) ← overwrite_matching from write_to
  overwrite_file_system_specific_configs (if had_config then written else written ++ from ∷ []) rest

-- The loop of squashConfigForSysMgmtdHost.
overwrite_for_host :
    String → BeegfsConfig → List FileSystemSpecificConfig → Result Cause BeegfsConfig
unfolding overwrite_beegfs_config
overwrite_for_host host config [] = ok config
overwrite_for_host host config (specific ∷ rest) = elim (host == specific.sys_mgmtd_host) [
  | true ↦ overwrite_beegfs_config config specific.config >>= λ c. overwrite_for_host host c rest
  | false ↦ overwrite_for_host host config rest
]

-- squashConfigForSysMgmtdHost
unfoldable pub squash_config_for_sys_mgmtd_host : String → PluginConfig → Result Cause BeegfsConfig
unfolding overwrite_for_host
squash_config_for_sys_mgmtd_host host config = do
  returned ← overwrite_beegfs_config new_beegfs_config config.default_config
  overwrite_for_host host returned config.file_system_specific_configs
