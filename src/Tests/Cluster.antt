-- ===== src/Tests/Cluster.antt =====
-- A small cluster for the operator: its manifests, its objects and the answers of its server.
use beegfs_csi_driver.Prelude.{
  String, ◌≡◌, ◌≢◌, refl, ◌&&◌, Bool, true, false, Option, none, some, List, [], ◌∷◌, arith, ◌==◌,
  eq_iff, eq_refl, if◌then◌else◌,
}
use beegfs_csi_driver.Prelude.Result.{ok, err}
use beegfs_csi_driver.Operator.Containers.{ContainerImageOverride, ResourceRequirements}
use beegfs_csi_driver.Operator.Objects.{
  ObjectMeta, Condition, BeegfsDriverSpec, BeegfsDriver, ConfigMap, Secret, Rules, CsiDriver,
  WorkloadSpec, StatefulSet, DaemonSet, role, cluster_role,
}
use beegfs_csi_driver.Operator.Api.{Api, Machinery, Manifests, Request, ApiError, api_failure}
use beegfs_csi_driver.Operator.Pods.{
  resource_name_config_map, resource_name_secret, resource_name_tls,
}
use beegfs_csi_driver.Operator.Reconcile.{finalizer_cluster_resource_deletion}
use beegfs_csi_driver.Operator.Reconcile.Conditions.{ConditionLaws}
use beegfs_csi_driver.Tests.{plugin_config}

abbrev pub meta : String → String → ObjectMeta
meta name version = record {
  name = name;
  namespace = "beegfs-csi";
  resource_version = version;
  owner = some "driver";
}

abbrev pub find : List Condition → String → Option Condition
find [] type = none
find (c ∷ cs) type = if c.type == type then some c else find cs type

abbrev pub same_texts : List String → List String → Bool
same_texts [] [] = true
same_texts (x ∷ xs) (y ∷ ys) = x == y && same_texts xs ys
same_texts _ _ = false

abbrev pub lib : Machinery
lib = record {
  marshal = λ c. ok "config: {}";
  set_controller_reference = λ d m. ok (record m { owner = some d.meta.name });
  set_status_condition = λ cs c. c ∷ cs;
  find_status_condition = find;
  add_finalizer = λ fs f. f ∷ fs;
  remove_finalizer = λ fs f. [];
  same_status = λ a b. true;
  same_contents = λ a b. true;
  same_rules = same_texts;
  same_subjects = λ a b. true;
  same_role_ref = λ a b. a == b;
  is_derivative = λ a b. true;
}

pub laws : ConditionLaws lib
laws = record {
  find-set = λ cs c. first cs c;
  find-set_other = λ cs c type differs. other cs c type differs;
}
  where
    first : (cs : List Condition) (c : Condition) → find (c ∷ cs) c.type ≡ some c
    first cs c = rw (eq_refl c.type) refl

    other :
        (cs : List Condition) (c : Condition) (type : String)
        → type ≢ c.type
        → find (c ∷ cs) type ≡ find cs type
    other cs c type differs = ground (arith, eq_iff c.type type)

abbrev pub kept : ContainerImageOverride
kept = record { image = ""; tag = "" }

abbrev pub no_resources : ResourceRequirements
no_resources = record { limits = none; requests = none }

abbrev pub spec : BeegfsDriverSpec
spec = record {
  container_image_overrides = record {
    beegfs_csi_driver = kept;
    csi_node_driver_registrar = kept;
    csi_provisioner = kept;
    csi_resizer = kept;
    liveness_probe = kept;
  };
  container_resource_overrides = record {
    controller_beegfs_resources = no_resources;
    controller_csi_provisioner_resources = no_resources;
    node_beegfs_resources = no_resources;
    node_driver_registrar_resources = no_resources;
    node_liveness_probe_resources = no_resources;
  };
  log_level = none;
  node_affinity_controller_service = "required: master";
  node_affinity_node_service = "";
  plugin_config_from_file = record { plugin_config = plugin_config; node_specific_configs = [] };
}

abbrev pub driver : BeegfsDriver
driver = record {
  meta = meta "driver" "7";
  finalizers = finalizer_cluster_resource_deletion ∷ [];
  deletion_timestamp = false;
  spec = spec;
  conditions = [];
}

abbrev pub cm : ConfigMap
cm = record { meta = meta resource_name_config_map "11"; contents = [] }

abbrev pub auth : Secret
auth = record { meta = meta resource_name_secret "12"; contents = [] }

abbrev pub tls : Secret
tls = record { meta = meta resource_name_tls "13"; contents = [] }

abbrev pub rules : String → List String → Rules
rules name rs = record { meta = meta name "14"; rules = rs }

abbrev pub csi : CsiDriver
csi = record { meta = meta "beegfs.csi.netapp.com" "15"; spec = "attachRequired: false" }

abbrev pub clean_spec : WorkloadSpec
clean_spec = record {
  template = record { annotations = none; containers = []; affinity = none; other = "" };
  other = "";
}

abbrev pub sts : StatefulSet
sts = record {
  meta = meta "csi-beegfs-controller" "16";
  spec = clean_spec;
  replicas = 1;
  ready_replicas = 1;
}

abbrev pub ds : DaemonSet
ds = record {
  meta = meta "csi-beegfs-node" "17";
  spec = clean_spec;
  desired_number_scheduled = 3;
  number_ready = 2;
}

abbrev pub manifests : Manifests
manifests = record {
  controller_service = sts;
  node_service = ds;
  rbac_objects = cluster_role (rules "provisioner" []) ∷ role (rules "leader" []) ∷ [];
  csi_driver_info = csi;
}

abbrev pub req : Request
req = record { name = "driver"; namespace = "beegfs-csi" }

abbrev pub api : Api
api = record {
  get_driver = λ s c. ok driver;
  get_config_map = λ s c. ok cm;
  get_secret = λ s c. ok auth;
  get_service_account = λ s c. err ApiError.not_found;
  get_rules = λ s c. ok (rules "leader" ("get leases" ∷ []));
  get_binding = λ s c. err ApiError.not_found;
  get_csi_driver = λ s c. ok csi;
  get_stateful_set = λ s c. ok sts;
  get_daemon_set = λ s c. ok ds;
  put_config_map = λ s c. ok cm;
  put_secret = λ s c. ok auth;
  put_driver = λ s c. ok driver;
  put = λ s c. err (api_failure "forbidden");
}
