-- ===== src/Config/Load/Outcome.antt =====
-- What a loaded configuration satisfies, and the run-time panic of a merge into a nil map.
use beegfs_csi_driver.Prelude.{String, ◌≡◌, ◌≢◌, true, none, List, [], ◌∷◌, member}
use beegfs_csi_driver.Prelude.Result.{Result, ok, err}
use beegfs_csi_driver.Prelude.Fallible.{>>=-eq-ok}
use beegfs_csi_driver.Errors.{Cause}
use beegfs_csi_driver.Config.{PluginConfig, NodeSpecificConfig, PluginConfigFromFile}
use beegfs_csi_driver.Config.Merge.{entries}
use beegfs_csi_driver.Config.Merge.NilMap.{nil_map_write, overwrite_beegfs_config-panic}
use beegfs_csi_driver.Config.Validate.{Net, validate_config, strip_config}
use beegfs_csi_driver.Config.Validate.Accepts.{IsValid, validate_config-IsValid}
use beegfs_csi_driver.Config.Load.{apply_node_config, apply_node_configs, parse_config_from_file}

-- A configuration that is loaded is the stripped form of one that is valid.
pub parse_config_from_file-IsValid :
    (net : Net) (unmarshal : String → Result Cause PluginConfigFromFile)
    (read : Result Cause String) (node_id : String) {loaded : PluginConfig}
    → parse_config_from_file net unmarshal read node_id ≡ ok loaded
    → (c : PluginConfig) × IsValid net c × (loaded ≡ strip_config c)
unfolding parse_config_from_file
parse_config_from_file-IsValid net unmarshal read node_id h =
    let (bytes, e1, h1) = >>=-eq-ok read _ h in
    let (raw, e2, h2) = >>=-eq-ok (unmarshal bytes) _ h1 in
    let (c, e3, h3) =
      >>=-eq-ok (apply_node_configs node_id raw.plugin_config raw.node_specific_configs) _ h2 in
    let (u, e4, h4) = >>=-eq-ok (validate_config net c) _ h3 in
    (c, (validate_config-IsValid net c).0 e4, ok_injective h4)
  where
    ok_injective : {a b : PluginConfig} → ◌≡◌ {A = Result Cause PluginConfig} (ok a) (ok b) → b ≡ a
    ok_injective e = cc

apply_node_config-panic :
    (node_id : String) (c : PluginConfig) (node : NodeSpecificConfig)
    → member node_id node.node_list ≡ true
    → c.default_config.beegfs_client_conf ≡ none
    → entries node.default_config.beegfs_client_conf ≢ []
    → apply_node_config node_id c node ≡ err nil_map_write
unfolding apply_node_config
apply_node_config-panic node_id c node named nil writes = rw (
  named,
  apply_node_config,
  (overwrite_beegfs_config-panic c.default_config node.default_config).1 (nil, writes),
)

-- When the default configuration of the file has no beegfsClientConf and the first node specific
-- configuration names the node and has one, loading ends in a panic.
pub parse_config_from_file-panic :
    (net : Net) (unmarshal : String → Result Cause PluginConfigFromFile) (bytes node_id : String)
    (raw : PluginConfigFromFile) (node : NodeSpecificConfig) (rest : List NodeSpecificConfig)
    → unmarshal bytes ≡ ok raw
    → raw.plugin_config.default_config.beegfs_client_conf ≡ none
    → raw.node_specific_configs ≡ node ∷ rest
    → member node_id node.node_list ≡ true
    → entries node.default_config.beegfs_client_conf ≢ []
    → parse_config_from_file net unmarshal (ok bytes) node_id ≡ err nil_map_write
unfolding parse_config_from_file apply_node_configs
parse_config_from_file-panic net unmarshal bytes node_id raw node rest parsed nil first named
      writes =
    rw (parsed, first, apply_node_config-panic node_id raw.plugin_config node named nil writes)
