-- ===== src/Tests/Config.antt =====
-- The theorems on the configuration and on parameters at concrete inputs.
use beegfs_csi_driver.Prelude.{
  ◌<◌, String, ◌≡◌, ◌↔◌, refl, true, List, [], ◌∷◌, some, member, arith, All, map, ◌==◌,
}
use beegfs_csi_driver.Prelude.Dict.{Dict, lookup, erase, insert}
use beegfs_csi_driver.Prelude.Result.{ok, err}
use beegfs_csi_driver.Errors.{failure}
use beegfs_csi_driver.Config.{
  BeegfsConfig, zero_beegfs_config, new_beegfs_config, PluginConfig, NodeSpecificConfig,
  PluginConfigFromFile, ConnAuthConfig, TlsCertConfig,
}
use beegfs_csi_driver.Config.Merge.{squash_config_for_sys_mgmtd_host}
use beegfs_csi_driver.Config.Merge.Layers.{HasMap, layers, IsOverlay, squash-IsOverlay}
use beegfs_csi_driver.Config.Merge.NilMap.{nil_map_write}
use beegfs_csi_driver.Config.Secrets.{apply_conn_auths}
use beegfs_csi_driver.Config.Secrets.Lookup.{auth_of, or_else, last_auth, auth_of-apply_conn_auths}
use beegfs_csi_driver.Config.Validate.{Net, validate_config, strip_config, all_configs}
use beegfs_csi_driver.Config.Validate.Accepts.{
  IsValid, conf_value, without_no_effect, validate_config-IsValid, strip_config-conf_value,
}
use beegfs_csi_driver.Config.Load.{parse_config_from_file}
use beegfs_csi_driver.Config.Load.Outcome.{
  parse_config_from_file-IsValid, parse_config_from_file-panic,
}
use beegfs_csi_driver.Params.{ReqParameters, validate_req_params}
use beegfs_csi_driver.Params.Accepted.{IsAccepted, validate_req_params-IsAccepted}
use beegfs_csi_driver.Volume.Mode.{
  PermissionsConfig, go_file_mode, file_mode, go_file_mode-eq-file_mode,
}
use beegfs_csi_driver.Tests.{parameters}

-- A default configuration with a map, and one file system that overrides a key of it.
abbrev two_layers : PluginConfig
two_layers = record {
  default_config = record new_beegfs_config {
    beegfs_client_conf = some (("connMgmtdPort", "8008") ∷ ("sysMgmtdHost", "x") ∷ []);
  };
  file_system_specific_configs =
      record {
        sys_mgmtd_host = "host.example";
        config = record new_beegfs_config {
          beegfs_client_conf = some (("connMgmtdPort", "9008") ∷ []);
          grpc_port = "8010";
        };
      }
      ∷ [];
}

distinct_keys : All HasMap (layers "host.example" two_layers)
unfolding lookup
distinct_keys = ((refl, (refl, tt)), ((refl, tt), tt))

squash-IsOverlay_example :
    (c : BeegfsConfig) × (squash_config_for_sys_mgmtd_host "host.example" two_layers ≡ ok c)
    × IsOverlay new_beegfs_config (layers "host.example" two_layers) c
squash-IsOverlay_example = squash-IsOverlay "host.example" two_layers distinct_keys

abbrev net : Net
net = record { parse_ip = λ s. s == "10.0.0.1"; parse_cidr = λ s. s == "10.0.0.0/8" }

validate_config-IsValid_example : (validate_config net two_layers ≡ ok tt) ↔ IsValid net two_layers
validate_config-IsValid_example = validate_config-IsValid net two_layers

strip_config-conf_value_example :
    map (conf_value "sysMgmtdHost") (all_configs (strip_config two_layers))
    ≡ map (without_no_effect "sysMgmtdHost") (all_configs two_layers)
strip_config-conf_value_example = strip_config-conf_value "sysMgmtdHost" two_layers

-- A file with a configuration for the node "n1".
abbrev for_n1 : NodeSpecificConfig
for_n1 = record {
  node_list = "n1" ∷ [];
  default_config = record zero_beegfs_config {
    beegfs_client_conf = some (("quotaEnabled", "true") ∷ []);
  };
  file_system_specific_configs = [];
}

abbrev file : PluginConfigFromFile
file = record { plugin_config = two_layers; node_specific_configs = for_n1 ∷ [] }

abbrev loaded : PluginConfig
loaded = record two_layers {
  default_config = record new_beegfs_config {
    beegfs_client_conf = some (("connMgmtdPort", "8008") ∷ ("quotaEnabled", "true") ∷ []);
  };
}

loads : parse_config_from_file net (λ s. ok file) (ok "bytes") "n1" ≡ ok loaded
unfolding parse_config_from_file erase insert
loads = refl

parse_config_from_file-IsValid_example :
    (c : PluginConfig) × IsValid net c × (loaded ≡ strip_config c)
parse_config_from_file-IsValid_example =
    parse_config_from_file-IsValid net (λ s. ok file) (ok "bytes") "n1" loads

abbrev nil_file : PluginConfigFromFile
nil_file = record {
  plugin_config = record two_layers { default_config = zero_beegfs_config };
  node_specific_configs = for_n1 ∷ [];
}

names_n1 : member "n1" for_n1.node_list ≡ true
unfolding member
names_n1 = refl

parse_config_from_file-panic_example :
    parse_config_from_file net (λ s. ok nil_file) (ok "bytes") "n1" ≡ err nil_map_write
parse_config_from_file-panic_example =
    parse_config_from_file-panic net (λ s. ok nil_file) "bytes" "n1" nil_file for_n1 [] refl refl
      refl names_n1 (λ e. cc)

abbrev secrets : List ConnAuthConfig
secrets = record { sys_mgmtd_host = "host.example"; conn_auth = "s3cret"; encoding = "raw" } ∷ []

abbrev with_secret : PluginConfig
with_secret = record two_layers {
  file_system_specific_configs =
      record {
        sys_mgmtd_host = "host.example";
        config = record new_beegfs_config {
          beegfs_client_conf = some (("connMgmtdPort", "9008") ∷ []);
          grpc_port = "8010";
          conn_auth = "s3cret\n";
        };
      }
      ∷ [];
}

applies : apply_conn_auths (λ s. err (failure "not base64")) secrets two_layers ≡ ok with_secret
unfolding apply_conn_auths
applies = refl

auth_of-apply_conn_auths_example :
    auth_of "host.example" with_secret.file_system_specific_configs
    ≡ or_else
        (last_auth (λ s. err (failure "not base64")) "host.example" secrets)
        (auth_of "host.example" two_layers.file_system_specific_configs)
auth_of-apply_conn_auths_example =
    auth_of-apply_conn_auths (λ s. err (failure "not base64")) "host.example" secrets two_layers
      applies

abbrev certs : List TlsCertConfig
certs = record { sys_mgmtd_host = "other.example"; tls_cert = "PEM" } ∷ []

abbrev accepted : ReqParameters
accepted = record {
  sys_mgmtd_host = "host";
  vol_dir_base_path_beegfs_root = "/scratch";
  stripe_pattern = record { storage_pool_id = ""; chunk_size = "1m"; num_targets = "" };
  permissions = record { uid = 0; gid = 0; mode = 0o755 };
}

accepts : validate_req_params parameters ≡ ok (accepted, [])
unfolding validate_req_params
accepts = refl

validate_req_params-IsAccepted_example :
    IsAccepted parameters accepted × (◌≡◌ {A = Dict String} [] [])
validate_req_params-IsAccepted_example =
    validate_req_params-IsAccepted parameters accepted [] accepts

abbrev sticky : PermissionsConfig
sticky = record { uid = 1000; gid = 1000; mode = 0o1777 }

twelve_bits : sticky.mode < 4096
twelve_bits = omega arith

go_file_mode-eq-file_mode_example : go_file_mode sticky ≡ file_mode sticky.mode
go_file_mode-eq-file_mode_example = go_file_mode-eq-file_mode sticky twelve_bits
