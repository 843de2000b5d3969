-- ===== src/Operator/Pods.antt =====
-- The annotations and the node affinity of the driver's pods, and the objects that the operator makes
-- anew (operator/controllers/beegfsdriver_controller.go).
pub mod Overrides
pub mod Adapted
pub mod Versions
use beegfs_csi_driver.Prelude.{String, ◌<>◌, Option, none, some, List, [], ◌∷◌}
use beegfs_csi_driver.Prelude.Dict.{Dict, insert}
use beegfs_csi_driver.Prelude.Result.{Result, ok, err}
use beegfs_csi_driver.Prelude.Fallible.{◌>>=◌}
use beegfs_csi_driver.Config.Merge.{entries}
use beegfs_csi_driver.Operator.Containers.{
  Container, set_images, set_log_level, set_node_resources, set_controller_resources,
}
use beegfs_csi_driver.Operator.Objects.{
  ObjectMeta, BeegfsDriver, ConfigMap, Secret, Affinity, PodTemplate, WorkloadSpec, StatefulSet,
  DaemonSet,
}
use beegfs_csi_driver.Operator.Api.{ApiError, Machinery, Request, or_crash}

-- The names in deploy/k8s/deploy.go.
abbrev pub resource_name_config_map : String
resource_name_config_map = "csi-beegfs-config"

abbrev pub resource_name_secret : String
resource_name_secret = "csi-beegfs-connauth"

abbrev pub resource_name_tls : String
resource_name_tls = "csi-beegfs-tlscerts"

abbrev pub key_name_config_map : String
key_name_config_map = "csi-beegfs-config.yaml"

abbrev pub key_name_secret : String
key_name_secret = "csi-beegfs-connauth.yaml"

abbrev pub key_name_tls : String
key_name_tls = "csi-beegfs-tlscerts.yaml"

abbrev new_meta : String → ObjectMeta
new_meta name = record { name = name; namespace = ""; resource_version = ""; owner = none }

-- newConfigMap
unfoldable pub new_config_map : Machinery → BeegfsDriver → Result ApiError ConfigMap
new_config_map lib driver = do
  text ← lib.marshal driver.spec.plugin_config_from_file
  ok (record {
    meta = new_meta resource_name_config_map;
    contents =
        (
          key_name_config_map,
          "# This file is managed by the BeeGFS CSI driver operator. Do not modify it directly."
              <> ("\n" <> text),
        )
        ∷ [];
  })

-- newSecret
abbrev pub new_secret : Secret
new_secret = record {
  meta = new_meta resource_name_secret;
  contents = (key_name_secret, none) ∷ [];
}

-- newTLS
abbrev pub new_tls : Secret
new_tls = record { meta = new_meta resource_name_tls; contents = (key_name_tls, none) ∷ [] }

-- setCommonObjectMetadata
unfoldable pub set_common_object_metadata :
    Machinery → Request → BeegfsDriver → ObjectMeta → Result ApiError ObjectMeta
set_common_object_metadata lib req driver meta =
    lib.set_controller_reference driver (record meta { namespace = req.namespace })

abbrev pub annotation_config_map_version : String
annotation_config_map_version = "beegfs.csi.netapp.com/configMapVersion"

abbrev pub annotation_connauth_secret_version : String
annotation_connauth_secret_version = "beegfs.csi.netapp.com/connauthSecretVersion"

abbrev pub annotation_tls_certs_secret_version : String
annotation_tls_certs_secret_version = "beegfs.csi.netapp.com/tlscertsSecretVersion"

abbrev pub name_and_version : ObjectMeta → String
name_and_version meta = meta.name <> ("/" <> meta.resource_version)

-- A version that is recorded only if the object is there.
unfoldable pub annotate : String → Option Secret → Dict String → Dict String
unfolding insert
annotate key none m = m
annotate key (some s) m = insert key (name_and_version s.meta) m

-- setResourceVersionAnnotations
unfoldable pub set_resource_version_annotations :
    ConfigMap → Option Secret → Option Secret → PodTemplate → PodTemplate
unfolding annotate insert
set_resource_version_annotations cm s t template = record template {
  annotations = some (
      annotate annotation_tls_certs_secret_version t (
        annotate annotation_connauth_secret_version s (
          insert annotation_config_map_version (name_and_version cm.meta)
            (entries template.annotations))));
}

-- setNodeAffinity
unfoldable pub set_node_affinity : Option String → Option Affinity → Option Affinity
set_node_affinity none old = old
set_node_affinity (some node_affinity) none =
    some
      (record { node_affinity = some node_affinity; pod_affinity = none; pod_anti_affinity = none })
set_node_affinity (some node_affinity) (some old) =
    some (record old { node_affinity = some node_affinity })

-- The zero specification, of an object that was not found.
abbrev pub zero_spec : WorkloadSpec
zero_spec = record {
  template = record { annotations = none; containers = []; affinity = none; other = "" };
  other = "";
}

abbrev pub spec_of_stateful_set : Option StatefulSet → WorkloadSpec
spec_of_stateful_set none = zero_spec
spec_of_stateful_set (some sts) = sts.spec

abbrev pub spec_of_daemon_set : Option DaemonSet → WorkloadSpec
spec_of_daemon_set none = zero_spec
spec_of_daemon_set (some ds) = ds.spec

-- The specification of a workload with its template's annotations, containers and affinity replaced.
unfoldable pub customised :
    WorkloadSpec → List Container → String → ConfigMap → Secret → Secret → WorkloadSpec
unfolding set_resource_version_annotations set_node_affinity
customised spec containers node_affinity cm s t = record spec {
  template = record (set_resource_version_annotations cm (some s) (some t) spec.template) {
    containers = containers;
    affinity = set_node_affinity (some node_affinity) spec.template.affinity;
  };
}

-- Images and the log level, which both workloads share.
unfoldable pub with_overrides : BeegfsDriver → List Container → List Container
unfolding set_images set_log_level
with_overrides driver containers =
    set_log_level driver.spec.log_level
      (set_images containers driver.spec.container_image_overrides)

module _ (lib : Machinery) (req : Request) (driver : BeegfsDriver) (cm : ConfigMap)
    (s t : Secret) where
  -- What Reconcile makes of the Stateful Set of the manifest.
  unfoldable pub desired_stateful_set : StatefulSet → Result ApiError StatefulSet
  unfolding set_common_object_metadata with_overrides set_controller_resources customised or_crash
  desired_stateful_set sts = do
    meta ← set_common_object_metadata lib req driver sts.meta
    containers ← or_crash (
        set_controller_resources driver.spec.container_resource_overrides
          (with_overrides driver sts.spec.template.containers))
    ok (record sts {
      meta = meta;
      spec = customised sts.spec containers driver.spec.node_affinity_controller_service cm s t;
    })

  -- What Reconcile makes of the Daemon Set of the manifest.
  unfoldable pub desired_daemon_set : DaemonSet → Result ApiError DaemonSet
  unfolding set_common_object_metadata with_overrides set_node_resources customised or_crash
  desired_daemon_set ds = do
    meta ← set_common_object_metadata lib req driver ds.meta
    containers ← or_crash (
        set_node_resources driver.spec.container_resource_overrides
          (with_overrides driver ds.spec.template.containers))
    ok (record ds {
      meta = meta;
      spec = customised ds.spec containers driver.spec.node_affinity_node_service cm s t;
    })
