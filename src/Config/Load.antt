-- ===== src/Config/Load.antt =====
-- parseConfigFromFile (pkg/beegfs/config.go). `read` is what reading the file gives, and `unmarshal`
-- is `yaml.UnmarshalStrict`.
pub mod Outcome
use beegfs_csi_driver.Prelude.{String, Bool, true, false, List, [], ◌∷◌, member}
use beegfs_csi_driver.Prelude.Result.{Result, ok, err}
use beegfs_csi_driver.Prelude.Fallible.{◌>>=◌, ◌>>◌}
use beegfs_csi_driver.Errors.{Cause}
use beegfs_csi_driver.Config.{PluginConfig, NodeSpecificConfig, PluginConfigFromFile}
use beegfs_csi_driver.Config.Merge.{overwrite_beegfs_config, overwrite_file_system_specific_configs}
use beegfs_csi_driver.Config.Validate.{Net, validate_config, strip_config}

-- One round of the loop over the node specific configurations.
unfoldable pub apply_node_config :
    String → PluginConfig → NodeSpecificConfig → Result Cause PluginConfig
unfolding member overwrite_beegfs_config overwrite_file_system_specific_configs
apply_node_config node_id config node = elim (member node_id node.node_list) [
  | true ↦ do
    default_config ← overwrite_beegfs_config config.default_config node.default_config
    specific ←
        overwrite_file_system_specific_configs config.file_system_specific_configs
          node.file_system_specific_configs
    ok (record { default_config = default_config; file_system_specific_configs = specific })
  | false ↦ ok config
]

unfoldable pub apply_node_configs :
    String → PluginConfig → List NodeSpecificConfig → Result Cause PluginConfig
unfolding apply_node_config
apply_node_configs node_id config [] = ok config
apply_node_configs node_id config (node ∷ rest) = do
  applied ← apply_node_config node_id config node
  apply_node_configs node_id applied rest

-- parseConfigFromFile
unfoldable pub parse_config_from_file :
    Net
    → (String → Result Cause PluginConfigFromFile)
    → Result Cause String
    → String
    → Result Cause PluginConfig
unfolding apply_node_configs validate_config strip_config
parse_config_from_file net unmarshal read node_id = do
  raw_bytes ← read
  raw ← unmarshal raw_bytes
  config ← apply_node_configs node_id raw.plugin_config raw.node_specific_configs
  validate_config net config
  ok (strip_config config)
