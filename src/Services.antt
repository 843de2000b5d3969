-- ===== src/Services.antt =====
-- The three services and the driver that serves them: the constructors and NewBeegfsDriver
-- (pkg/beegfs/beegfs.go, controllerserver.go, nodeserver.go), the identity service
-- (identityserver.go), and the handlers that answer from constants.
pub mod Working
use beegfs_csi_driver.Prelude.{
  ℕ, String, Bool, true, false, List, [], ◌∷◌, map, ◌==◌, if◌then◌else◌,
}
use beegfs_csi_driver.Prelude.Result.{
  Result, ok, err, Exec, pure, fail, lift, continue, ◌>>=◌, ◌>>◌,
}
use beegfs_csi_driver.Errors.{failure, unimplemented, unavailable, GrpcError, status}
use beegfs_csi_driver.Config.{PluginConfig}
use beegfs_csi_driver.Lock.{StringLock, new_string_lock, StatusMap, new_status_map}
use beegfs_csi_driver.Host.{Host, Io}
use beegfs_csi_driver.Ctl.{new_beegfs_ctl_executor}
use beegfs_csi_driver.Controller
use beegfs_csi_driver.Node
use beegfs_csi_driver.Driver.{Decoders, Arguments, Driver, new_beegfs_driver}
use beegfs_csi_driver.Driver.ClientModule.{verify_beegfs_client_module_is_available}
use beegfs_csi_driver.Grpc

pub record IdentityServer : Type 0 where
  pub name : String
  pub version : String

pub record PluginInfo : Type 0 where
  pub name : String
  pub vendor_version : String

-- GetPluginInfo
unfoldable pub get_plugin_info : IdentityServer → Result GrpcError PluginInfo
get_plugin_info ids =
    if ids.name == ""
    then err (status unavailable (failure "Driver name not configured"))
    else if ids.version == ""
    then err (status unavailable (failure "Driver is missing version"))
    else ok (record { name = ids.name; vendor_version = ids.version })

pub data PluginCapability : Type 0 where
  service_controller expansion_online : PluginCapability

-- GetPluginCapabilities
abbrev pub get_plugin_capabilities : List PluginCapability
get_plugin_capabilities = service_controller ∷ expansion_online ∷ []

pub data ControllerCapability : Type 0 where
  create_delete_volume expand_volume : ControllerCapability

-- controllerCaps
abbrev pub controller_caps : List ControllerCapability
controller_caps = create_delete_volume ∷ expand_volume ∷ []

-- The capability of a service as it is sent: a type of RPC.
pub record ServiceCapability (A : Type 0) : Type 0 where
  pub rpc : A

-- getControllerServiceCapabilities
unfoldable pub get_controller_service_capabilities :
    List ControllerCapability → List (ServiceCapability ControllerCapability)
get_controller_service_capabilities [] = []
get_controller_service_capabilities (cap ∷ caps) =
    record { rpc = cap } ∷ get_controller_service_capabilities caps

-- ControllerGetCapabilities
unfoldable pub controller_get_capabilities : List (ServiceCapability ControllerCapability)
unfolding get_controller_service_capabilities
controller_get_capabilities = get_controller_service_capabilities controller_caps

pub data NodeCapability : Type 0 where
  stage_unstage_volume : NodeCapability

-- nodeCaps
abbrev pub node_caps : List NodeCapability
node_caps = stage_unstage_volume ∷ []

-- NodeGetCapabilities, with its loop over nodeCaps
unfoldable pub node_get_capabilities : List NodeCapability → List (ServiceCapability NodeCapability)
node_get_capabilities [] = []
node_get_capabilities (cap ∷ caps) = record { rpc = cap } ∷ node_get_capabilities caps

-- NodeGetInfo
abbrev pub node_get_info : Node.Settings → String
node_get_info ns = ns.node_id

-- The handlers that the controller service and the node service do not implement.
pub data Unsupported : Type 0 where
  controller_publish_volume controller_unpublish_volume get_capacity list_volumes : Unsupported
  create_snapshot delete_snapshot list_snapshots : Unsupported
  controller_get_volume controller_modify_volume : Unsupported
  node_get_volume_stats node_expand_volume : Unsupported

-- Each of them answers without a look at its request.
unfoldable pub answer_unsupported : {A : Type 0} → Unsupported → Result GrpcError A
answer_unsupported handler = err (status unimplemented (failure ""))

-- The state of the controller service when it is made.
pub record ControllerServer : Type 0 where
  pub settings : Controller.Settings
  pub volume_ids_in_flight : StringLock
  pub volume_status_map : StatusMap

-- The driver with its services.
pub record WorkingDriver : Type 0 where
  pub driver : Driver
  pub ids : IdentityServer
  pub ns : Node.Settings
  pub cs : ControllerServer

module _ (h : Host) where
  -- newNodeServer
  unfoldable pub new_node_server : String → PluginConfig → String → Io Node.Settings
  unfolding new_beegfs_ctl_executor
  new_node_server node_id plugin_config template = do
    new_beegfs_ctl_executor h
    pure (record {
      node_id = node_id;
      plugin_config = plugin_config;
      client_conf_template_path = template;
    })

  -- newControllerServer
  unfoldable pub new_controller_server : PluginConfig → String → String → ℕ → Io ControllerServer
  unfolding new_beegfs_ctl_executor
  new_controller_server plugin_config template cs_data_dir node_unstage_timeout = do
    new_beegfs_ctl_executor h
    pure (record {
      settings = record {
        plugin_config = plugin_config;
        client_conf_template_path = template;
        cs_data_dir = cs_data_dir;
        node_unstage_timeout = node_unstage_timeout;
      };
      volume_ids_in_flight = new_string_lock;
      volume_status_map = new_status_map;
    })

  -- NewBeegfsDriver; the identity service is made by newBeegfsDriver
  unfoldable pub new_working_beegfs_driver : Decoders → String → Arguments → ℕ → Io WorkingDriver
  unfolding verify_beegfs_client_module_is_available new_beegfs_driver new_node_server
      new_controller_server
  new_working_beegfs_driver decoders vendor_version a node_unstage_timeout = do
    verify_beegfs_client_module_is_available h
    driver ← new_beegfs_driver h decoders vendor_version a
    ns ← new_node_server driver.node_id driver.plugin_config driver.client_conf_template_path
    cs ←
        new_controller_server driver.plugin_config driver.client_conf_template_path
          driver.cs_data_dir node_unstage_timeout
    pure (record {
      driver = driver;
      ids = record { name = driver.driver_name; version = driver.version };
      ns = ns;
      cs = cs;
    })

-- Run: all three services are there.
unfoldable pub run : Grpc.Network → WorkingDriver → Grpc.Action
run network w =
    Grpc.serve network (Grpc.identity ∷ Grpc.controller ∷ Grpc.node ∷ []) w.driver.endpoint
