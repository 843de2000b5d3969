-- ===== src/Config.antt =====
-- The plugin configuration: its types (operator/api/v1/beegfsdriver_types.go).
pub mod Merge
pub mod Secrets
pub mod Validate
pub mod Load
use beegfs_csi_driver.Prelude.{String, Option, none, some, List, []}
use beegfs_csi_driver.Prelude.Dict.{Dict}

-- BeegfsConfig. `beegfs_client_conf` is `none` for a nil map, which can be read but not written.
pub record BeegfsConfig : Type 0 where
  pub grpc_port : String
  pub conn_interfaces : List String
  pub conn_net_filter : List String
  pub conn_tcp_only_filter : List String
  pub beegfs_client_conf : Option (Dict String)
  pub conn_auth : String
  pub tls_cert : String
  pub conn_rdma_interfaces : List String

-- BeegfsConfig{}
abbrev pub zero_beegfs_config : BeegfsConfig
zero_beegfs_config = record {
  grpc_port = "";
  conn_interfaces = [];
  conn_net_filter = [];
  conn_tcp_only_filter = [];
  beegfs_client_conf = none;
  conn_auth = "";
  tls_cert = "";
  conn_rdma_interfaces = [];
}

-- NewBeegfsConfig()
abbrev pub new_beegfs_config : BeegfsConfig
new_beegfs_config = record zero_beegfs_config { beegfs_client_conf = some [] }

pub record FileSystemSpecificConfig : Type 0 where
  pub sys_mgmtd_host : String
  pub config : BeegfsConfig

pub record PluginConfig : Type 0 where
  pub default_config : BeegfsConfig
  pub file_system_specific_configs : List FileSystemSpecificConfig

-- PluginConfig{}
abbrev pub zero_plugin_config : PluginConfig
zero_plugin_config = record {
  default_config = zero_beegfs_config;
  file_system_specific_configs = [];
}

pub record NodeSpecificConfig : Type 0 where
  pub node_list : List String
  pub default_config : BeegfsConfig
  pub file_system_specific_configs : List FileSystemSpecificConfig

-- PluginConfigFromFile, with its embedded PluginConfig.
pub record PluginConfigFromFile : Type 0 where
  pub plugin_config : PluginConfig
  pub node_specific_configs : List NodeSpecificConfig

pub record ConnAuthConfig : Type 0 where
  pub sys_mgmtd_host : String
  pub conn_auth : String
  pub encoding : String

pub record TlsCertConfig : Type 0 where
  pub sys_mgmtd_host : String
  pub tls_cert : String
