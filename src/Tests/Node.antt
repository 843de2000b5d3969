-- ===== src/Tests/Node.antt =====
-- The theorems on the node service at concrete requests.
use beegfs_csi_driver.Prelude.{
  String, ◌≡◌, refl, subst, true, false, some, List, [], ◌∷◌, All, ◌==◌,
}
use beegfs_csi_driver.Text.Path.Segments.{slashes}
use beegfs_csi_driver.Text.Path.Names.{IsName}
use beegfs_csi_driver.Volume.Id.{sanitize_volume_id}
use beegfs_csi_driver.Controller.Delete
use beegfs_csi_driver.Errors.{Cause, failure, status, internal, grpc_error}
use beegfs_csi_driver.Host.{Host, list_mounts, remove, exists}
use beegfs_csi_driver.Node.Unstaging.{
  Untracks, Unmounts, ReadsNames, not_bound, node_unstage_volume-Guarded,
}
use beegfs_csi_driver.Node.Tracking.{tracking-shared}
use beegfs_csi_driver.Prelude.Result.{Result, ok, err, ◌>>=◌}
use beegfs_csi_driver.Config.Merge.{squash_config_for_sys_mgmtd_host}
use beegfs_csi_driver.Text.Path.{path_join, render, dir, base}
use beegfs_csi_driver.Volume.{BeegfsVolume, parse_beegfs_url, controller_volume_from_id}
use beegfs_csi_driver.Host.Trace.{Guarded}
use beegfs_csi_driver.Node.{
  Settings, NodePublishVolumeRequest, NodeStageVolumeRequest, stat_volume, volume_from, nodes_path,
  node_publish_volume, node_stage_volume, node_unstage_volume, on_host, best_effort,
}
use beegfs_csi_driver.Node.Calls.{Prepares}
use beegfs_csi_driver.Node.Staging.{Mounts, node_stage_volume-Guarded}
use beegfs_csi_driver.Node.Publishing.{Inquires, Exposes, node_publish_volume-Guarded}
use beegfs_csi_driver.Tests.{volume_url, library, host, plugin_config, mount_capability, volume}

abbrev node_settings : Settings
node_settings = record {
  node_id = "node1";
  plugin_config = plugin_config;
  client_conf_template_path = "/etc/beegfs/beegfs-client.conf";
}

-- The volume as it is staged.
abbrev staged_volume : BeegfsVolume
staged_volume = record volume {
  client_conf_path = "/staging/beegfs-client.conf";
  csi_dir_path = "/staging/mount/scratch/.csi/volumes/pvc1";
  mount_dir_path = "/staging";
  mount_path = "/staging/mount";
  vol_dir_base_path = "/staging/mount/scratch";
  vol_dir_path = "/staging/mount/scratch/pvc1";
}

is_staged : volume_from host node_settings "/staging" volume_url ≡ ok staged_volume
unfolding volume_from squash_config_for_sys_mgmtd_host path_join dir base
is_staged = refl

abbrev stage_request : NodeStageVolumeRequest
stage_request = record {
  volume_id = volume_url;
  staging_target_path = "/staging";
  volume_capability = some mount_capability;
}

node_stage_volume-Guarded_example :
    Guarded
      (Prepares staged_volume node_settings.client_conf_template_path)
      (Mounts host node_settings stage_request staged_volume)
      (stat_volume host node_settings staged_volume)
      []
      (node_stage_volume host node_settings stage_request [])
node_stage_volume-Guarded_example =
    node_stage_volume-Guarded host node_settings stage_request staged_volume [] is_staged

abbrev publish_request : NodePublishVolumeRequest
publish_request = record {
  volume_id = volume_url;
  staging_target_path = "/staging";
  target_path = "/target";
  volume_capability = some mount_capability;
  readonly = false;
}

node_publish_volume-Guarded_example :
    Guarded Inquires
      (Exposes publish_request staged_volume)
      (stat_volume host node_settings staged_volume)
      []
      (node_publish_volume host node_settings publish_request [])
node_publish_volume-Guarded_example =
    node_publish_volume-Guarded host node_settings publish_request staged_volume [] is_staged

abbrev plain :
    (s : String)
    → (slashes s ≡ 0)
    → (s == "") ≡ false
    → (s == ".") ≡ false
    → (s == "..") ≡ false
    → IsName s
plain s a b c d = record { segment = a; some_text = b; not_dot = c; not_dots = d }

tracking-shared_example :
    (Delete.nodes_path volume
      ≡ path_join
          (volume.mount_path ∷ path_join (volume.csi_dir_path_beegfs_root ∷ "nodes" ∷ []) ∷ []))
    × (nodes_path host node_settings staged_volume
        ≡ path_join (
            staged_volume.mount_path
            ∷ path_join (volume.csi_dir_path_beegfs_root ∷ "nodes" ∷ [])
            ∷ []))
    × (staged_volume.vol_dir_path
        ≡ path_join (staged_volume.mount_path ∷ volume.vol_dir_path_beegfs_root ∷ []))
unfolding render
tracking-shared_example =
    tracking-shared host node_settings "/csi" plugin_config volume_url "host" "pvc1"
      ("csi" ∷ "host_scratch_pvc1" ∷ []) ("staging" ∷ []) ("scratch" ∷ []) volume staged_volume
      (plain "csi" refl refl refl refl, (plain "host_scratch_pvc1" refl refl refl refl, tt))
      (plain "staging" refl refl refl refl, tt) (plain "scratch" refl refl refl refl, tt)
      (plain "pvc1" refl refl refl refl) is_url is_dir is_controlled is_staged
  where
    is_url : parse_beegfs_url library volume_url ≡ ok ("host", "/scratch/pvc1")
    is_url = unfold parse_beegfs_url in refl

    is_dir :
        path_join ("/csi" ∷ sanitize_volume_id library.sha1_hex volume_url ∷ [])
        ≡ "/csi/host_scratch_pvc1"
    is_dir = unfold path_join sanitize_volume_id in refl

    is_controlled : controller_volume_from_id library "/csi" plugin_config volume_url ≡ ok volume
    is_controlled =
        unfold controller_volume_from_id squash_config_for_sys_mgmtd_host path_join dir
          sanitize_volume_id base in
        refl

-- The staging directory holds one file, the client's configuration.
abbrev listing_host : Host
listing_host = record host { names_reply = λ s c. ok ("beegfs-client.conf" ∷ []) }

lists_names : ReadsNames listing_host "/staging"
lists_names s found e =
    subst (All IsName) (ok_injective e) (plain "beegfs-client.conf" refl refl refl refl, tt)
  where
    ok_injective : {a b : List String} → ◌≡◌ {A = Result Cause (List String)} (ok a) (ok b) → a ≡ b
    ok_injective e = cc

is_staged_there : volume_from listing_host node_settings "/staging" volume_url ≡ ok staged_volume
unfolding volume_from squash_config_for_sys_mgmtd_host path_join dir base
is_staged_there = refl

staging_path : staged_volume.mount_dir_path ≡ render true ("staging" ∷ [])
unfolding render
staging_path = refl

node_unstage_volume-Guarded_example :
    Guarded
      (Untracks node_settings staged_volume)
      (Unmounts ("staging" ∷ []) staged_volume)
      (not_bound listing_host staged_volume)
      []
      (node_unstage_volume listing_host node_settings volume_url "/staging" [])
node_unstage_volume-Guarded_example =
    node_unstage_volume-Guarded listing_host node_settings volume_url "/staging" staged_volume
      ("staging" ∷ []) [] (plain "staging" refl refl refl refl, tt) staging_path lists_names
      is_staged_there

-- A node where the staged file system is still bind mounted into a pod.
abbrev bound_host : Host
bound_host = record host {
  mounts_reply = λ s c. ok (
      record {
        device = "beegfs_nodev";
        path = "/pods/1/volume";
        opts = "rw" ∷ "cfgFile=/staging/beegfs-client.conf" ∷ [];
      }
      ∷ []);
}

-- The file that tracks the node is gone although the volume stays mounted.
unstage_refused : node_unstage_volume bound_host node_settings volume_url "/staging" [] ≡ (
  err (status internal (failure "refused to unmount staged file system while bind mounted")),
  list_mounts
      ∷ remove "/staging/mount/scratch/.csi/volumes/pvc1/nodes/node1"
      ∷ exists "/staging/mount/scratch/.csi/volumes/pvc1/nodes/node1"
      ∷ [],
)
unfolding node_unstage_volume ◌>>=◌ squash_config_for_sys_mgmtd_host on_host best_effort grpc_error
    dir
unstage_refused = refl
