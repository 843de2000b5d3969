-- ===== src/Tests/Controller.antt =====
-- The theorems on the controller service at concrete requests.
use beegfs_csi_driver.Prelude.{
  ◌≤◌, String, ◌≡◌, ◌≢◌, ◌↔◌, some, refl, true, false, not, [], ◌∷◌, member, arith, ◌==◌,
}
use beegfs_csi_driver.Prelude.Dict.{Dict}
use beegfs_csi_driver.Prelude.Result.{ok, err, ◌>>=◌}
use beegfs_csi_driver.Config.Merge.{squash_config_for_sys_mgmtd_host}
use beegfs_csi_driver.Errors.{failure, status, aborted}
use beegfs_csi_driver.Text.Path.{path_join, dir, base}
use beegfs_csi_driver.Volume.Id.{sanitize_volume_id}
use beegfs_csi_driver.Capability.{is_valid_volume_capabilities}
use beegfs_csi_driver.Volume.{controller_volume_from_id}
use beegfs_csi_driver.Lock.{status_created, status_deleted, obtain_lock_on_string, read_status}
use beegfs_csi_driver.Lock.Exclusion.{
  Traffic, volumes, Distinct, Reach, here, next, begin, Reach-exclusion,
}
use beegfs_csi_driver.Host.{History, Call, sleep}
use beegfs_csi_driver.Controller.{Server, create_volume, on_host, best_effort}
use beegfs_csi_driver.Controller.DeleteVolume.{delete_volume}
use beegfs_csi_driver.Controller.Validate.{
  ValidateVolumeCapabilitiesRequest, confirmed, validate_volume_capabilities,
}
use beegfs_csi_driver.Controller.Frames.{recorded}
use beegfs_csi_driver.Controller.Records.{create_volume-recorded, delete_volume-recorded, Deletes}
use beegfs_csi_driver.Controller.Repeat.{create_volume_again, delete_volume_again}
use beegfs_csi_driver.Controller.Aborted.{IsAborted, delete_volume-Aborted}
use beegfs_csi_driver.Controller.Confirm.{
  validate_volume_capabilities-unchanged, validate_volume_capabilities-confirmed,
}
use beegfs_csi_driver.Controller.Delete.{delete_volume_until_wait}
use beegfs_csi_driver.Controller.Delete.Wait.{KeepsTime, IsDone, delete_volume_until_wait-IsDone}
use beegfs_csi_driver.Tests.{
  volume_url, library, slept, host, settings, server, create_request, mount_capability, parameters,
  volume,
}

create_volume-recorded_example :
    ((create_volume host settings create_request server).1.volume_ids_in_flight
      ≡ server.volume_ids_in_flight)
    × ((create_volume host settings create_request server).1.volume_status_map
        ≡ recorded status_created
            (λ (a : String). a)
            (create_volume host settings create_request server).0
            server.volume_status_map)
create_volume-recorded_example = create_volume-recorded host settings create_request server

created :
    create_volume host settings create_request server
    ≡ (ok volume_url, (create_volume host settings create_request server).1)
unfolding create_volume ◌>>=◌ squash_config_for_sys_mgmtd_host on_host best_effort
created = refl

create_volume_again_example :
    create_volume host settings create_request (create_volume host settings create_request server).1
    ≡ (ok volume_url, (create_volume host settings create_request server).1)
create_volume_again_example =
    create_volume_again host settings create_request server
      (create_volume host settings create_request server).1 volume_url created

is_volume :
    controller_volume_from_id library settings.cs_data_dir settings.plugin_config volume_url
    ≡ ok volume
unfolding controller_volume_from_id squash_config_for_sys_mgmtd_host path_join dir
    sanitize_volume_id base
is_volume = refl

some_id : (volume_url == "") ≡ false
some_id = refl

delete_volume-recorded_example :
    ((delete_volume host settings volume_url server).1.volume_ids_in_flight
      ≡ server.volume_ids_in_flight)
    × ((delete_volume host settings volume_url server).1.volume_status_map
        ≡ recorded status_deleted
            (λ (u : Unit {0}). volume_url)
            (delete_volume host settings volume_url server).0
            server.volume_status_map)
    × ((delete_volume host settings volume_url server).0 ≡ ok tt
        ↔ Deletes host settings volume server)
delete_volume-recorded_example =
    delete_volume-recorded host settings volume_url volume server some_id is_volume

deleted :
    delete_volume host settings volume_url server
    ≡ (ok tt, (delete_volume host settings volume_url server).1)
unfolding delete_volume ◌>>=◌ squash_config_for_sys_mgmtd_host on_host
deleted = refl

delete_volume_again_example :
    delete_volume host settings volume_url (delete_volume host settings volume_url server).1
    ≡ (ok tt, (delete_volume host settings volume_url server).1)
delete_volume_again_example =
    delete_volume_again host settings volume_url server
      (delete_volume host settings volume_url server).1 deleted

-- A request for the volume is in flight.
abbrev busy_server : Server
busy_server = record server { volume_ids_in_flight = record { items = volume_url ∷ [] } }

delete_volume-Aborted_example :
    (IsAborted (delete_volume host settings volume_url busy_server).0 ↔ (
      (member volume_url busy_server.volume_ids_in_flight.items ≡ true)
      × (read_status volume_url busy_server.volume_status_map ≢ some status_deleted)))
    × (IsAborted (delete_volume host settings volume_url busy_server).0
        → (delete_volume host settings volume_url busy_server).1 ≡ busy_server)
    × (read_status volume_url busy_server.volume_status_map ≡ some status_deleted
        → delete_volume host settings volume_url busy_server ≡ (ok tt, busy_server))
delete_volume-Aborted_example =
    delete_volume-Aborted host settings volume_url volume busy_server some_id is_volume

-- The volume is in flight, so the request is refused.
busy_refused :
    delete_volume host settings volume_url busy_server
    ≡ (err (status aborted (failure "volumeID is in use by another request")), busy_server)
unfolding delete_volume ◌>>=◌ squash_config_for_sys_mgmtd_host on_host
busy_refused = refl

abbrev validate_request : ValidateVolumeCapabilitiesRequest
validate_request = record {
  volume_id = volume_url;
  volume_capabilities = mount_capability ∷ [];
  parameters = parameters;
}

validate_volume_capabilities-unchanged_example :
    ((validate_volume_capabilities host settings validate_request server).1.volume_ids_in_flight
      ≡ server.volume_ids_in_flight)
    × ((validate_volume_capabilities host settings validate_request server).1.volume_status_map
        ≡ server.volume_status_map)
validate_volume_capabilities-unchanged_example =
    validate_volume_capabilities-unchanged host settings validate_request server

valid :
    (validate_volume_capabilities host settings validate_request server).0
    ≡ ok (confirmed (mount_capability ∷ []) [])
unfolding validate_volume_capabilities ◌>>=◌ squash_config_for_sys_mgmtd_host on_host
valid = refl

validate_volume_capabilities-confirmed_example :
    ((mount_capability ∷ []) ≡ validate_request.volume_capabilities)
    × (is_valid_volume_capabilities validate_request.volume_capabilities ≡ true)
    × (◌≡◌ {A = Dict String} [] [])
validate_volume_capabilities-confirmed_example =
    validate_volume_capabilities-confirmed host settings validate_request server
      (mount_capability ∷ []) [] valid

-- The clock of the tests keeps time.
slept_forward : (s : History) (c : Call) → slept s ≤ slept (c ∷ s)
slept_forward s (sleep n) = omega arith
slept_forward s c = omega arith

keeps_time : KeepsTime host
keeps_time = record {
  forward = slept_forward;
  sleeps = λ s n. omega arith;
  unit_ends = λ s c e. cc;
  bool_ends = λ s c e. cc;
}

delete_volume_until_wait-IsDone_example : IsDone volume (delete_volume_until_wait host volume 60 [])
delete_volume_until_wait-IsDone_example =
    delete_volume_until_wait-IsDone host keeps_time volume 60 []

-- One goroutine runs a request.
abbrev one_running : Traffic
one_running = record { lock = record { items = volume_url ∷ [] }; running = (1, volume_url) ∷ [] }

reached : Reach one_running
unfolding obtain_lock_on_string
reached = next here (begin 1 volume_url refl refl)

Reach-exclusion_example :
    Distinct (volumes one_running.running)
    × ((id : String)
        → (obtain_lock_on_string id one_running.lock).0
          ≡ not (member id (volumes one_running.running)))
Reach-exclusion_example = Reach-exclusion reached
