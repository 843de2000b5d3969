-- ===== src/Tests/Start.antt =====
-- The theorems on the start of the driver and on the operator at concrete inputs.
use beegfs_csi_driver.Prelude.{◌≡◌, refl, false, []}
use beegfs_csi_driver.Prelude.Dict.{erase}
use beegfs_csi_driver.Prelude.Result.{ok, err, ◌>>=◌, lift}
use beegfs_csi_driver.Errors.{failure}
use beegfs_csi_driver.Host.{History}
use beegfs_csi_driver.Driver.{Decoders, Arguments, Driver}
use beegfs_csi_driver.Lock.{new_string_lock, new_status_map}
use beegfs_csi_driver.Services.{WorkingDriver, new_working_beegfs_driver}
use beegfs_csi_driver.Services.Working.{IsWorking, new_working_beegfs_driver-IsWorking}
use beegfs_csi_driver.Tests.{host, plugin_config}

abbrev decoders : Decoders
decoders = record {
  config = λ s. ok (record { plugin_config = plugin_config; node_specific_configs = [] });
  conn_auths = λ s. ok [];
  tls_certs = λ s. ok [];
  base64 = λ s. err (failure "illegal base64 data");
  net = record { parse_ip = λ s. false; parse_cidr = λ s. false };
}

abbrev arguments : Arguments
arguments = record {
  conn_auth_path = "";
  tls_certs_path = "";
  config_path = "/config.yaml";
  cs_data_dir = "/csi";
  driver_name = "beegfs.csi.netapp.com";
  endpoint = "unix:///csi.sock";
  node_id = "n1";
  client_conf_template_path = "";
  version = "";
}

abbrev driver : Driver
driver = record {
  driver_name = "beegfs.csi.netapp.com";
  node_id = "n1";
  version = "v1";
  endpoint = "unix:///csi.sock";
  plugin_config = plugin_config;
  client_conf_template_path = "/etc/beegfs/beegfs-client.conf";
  cs_data_dir = "/csi";
}

abbrev working : WorkingDriver
working = record {
  driver = driver;
  ids = record { name = "beegfs.csi.netapp.com"; version = "v1" };
  ns = record {
    node_id = "n1";
    plugin_config = plugin_config;
    client_conf_template_path = "/etc/beegfs/beegfs-client.conf";
  };
  cs = record {
    settings = record {
      plugin_config = plugin_config;
      client_conf_template_path = "/etc/beegfs/beegfs-client.conf";
      cs_data_dir = "/csi";
      node_unstage_timeout = 60;
    };
    volume_ids_in_flight = new_string_lock;
    volume_status_map = new_status_map;
  };
}

-- The calls of a start, the last one first.
abbrev start_calls : History
start_calls = (new_working_beegfs_driver host decoders "v1" arguments 60 []).1

starts : new_working_beegfs_driver host decoders "v1" arguments 60 [] ≡ (ok working, start_calls)
unfolding new_working_beegfs_driver ◌>>=◌ lift erase
starts = refl

new_working_beegfs_driver-IsWorking_example : IsWorking host "v1" arguments 60 [] working
new_working_beegfs_driver-IsWorking_example =
    new_working_beegfs_driver-IsWorking host decoders "v1" arguments 60 working [] start_calls
      starts
