-- ===== src/Operator/Objects.antt =====
-- The Kubernetes objects that the operator reads and writes, with the fields that its code reads or
-- changes (operator/api/v1/beegfsdriver_types.go and the types of k8s.io/api). A value that the code
-- only passes on, such as a node affinity or the rest of a specification, is a text.
use beegfs_csi_driver.Prelude.{ℕ, String, Bool, Option, List}
use beegfs_csi_driver.Prelude.Dict.{Dict}
use beegfs_csi_driver.Config.{PluginConfigFromFile}
use beegfs_csi_driver.Operator.Containers.{
  ContainerImageOverrides, ContainerResourceOverrides, Container,
}

-- metav1.ObjectMeta; the owner is the controller reference.
pub record ObjectMeta : Type 0 where
  pub name : String
  pub namespace : String
  pub resource_version : String
  pub owner : Option String

-- metav1.Condition, as far as Reconcile sets it
pub record Condition : Type 0 where
  pub type : String
  pub status : Bool
  pub reason : String
  pub message : String

pub record BeegfsDriverSpec : Type 0 where
  pub container_image_overrides : ContainerImageOverrides
  pub container_resource_overrides : ContainerResourceOverrides
  pub log_level : Option (Bool × ℕ)
  pub node_affinity_controller_service : String
  pub node_affinity_node_service : String
  pub plugin_config_from_file : PluginConfigFromFile

-- The custom resource. `deletion_timestamp` tells whether it is set; the conditions are its status.
pub record BeegfsDriver : Type 0 where
  pub meta : ObjectMeta
  pub finalizers : List String
  pub deletion_timestamp : Bool
  pub spec : BeegfsDriverSpec
  pub conditions : List Condition

pub record ConfigMap : Type 0 where
  pub meta : ObjectMeta
  pub contents : Dict String

-- A secret's entries may be nil.
pub record Secret : Type 0 where
  pub meta : ObjectMeta
  pub contents : Dict (Option String)

pub record ServiceAccount : Type 0 where
  pub meta : ObjectMeta

-- rbacv1.ClusterRole and rbacv1.Role; a rule is a text
pub record Rules : Type 0 where
  pub meta : ObjectMeta
  pub rules : List String

pub record Subject : Type 0 where
  pub kind : String
  pub name : String
  pub namespace : String

-- rbacv1.ClusterRoleBinding and rbacv1.RoleBinding
pub record Binding : Type 0 where
  pub meta : ObjectMeta
  pub subjects : List Subject
  pub role_ref : String

pub record CsiDriver : Type 0 where
  pub meta : ObjectMeta
  pub spec : String

-- corev1.Affinity
pub record Affinity : Type 0 where
  pub node_affinity : Option String
  pub pod_affinity : Option String
  pub pod_anti_affinity : Option String

-- corev1.PodTemplateSpec; its annotations may be nil
pub record PodTemplate : Type 0 where
  pub annotations : Option (Dict String)
  pub containers : List Container
  pub affinity : Option Affinity
  pub other : String

-- The specification of a Stateful Set or a Daemon Set.
pub record WorkloadSpec : Type 0 where
  pub template : PodTemplate
  pub other : String

pub record StatefulSet : Type 0 where
  pub meta : ObjectMeta
  pub spec : WorkloadSpec
  pub replicas : ℕ
  pub ready_replicas : ℕ

pub record DaemonSet : Type 0 where
  pub meta : ObjectMeta
  pub spec : WorkloadSpec
  pub desired_number_scheduled : ℕ
  pub number_ready : ℕ

-- What GetRBAC finds in the manifest: `[]interface{}` with one of five types each.
pub data RbacObject : Type 0 where
  service_account : ServiceAccount → RbacObject
  cluster_role : Rules → RbacObject
  cluster_role_binding : Binding → RbacObject
  role : Rules → RbacObject
  role_binding : Binding → RbacObject

pub data Kind : Type 0 where
  beegfs_drivers config_maps secrets service_accounts cluster_roles cluster_role_bindings roles :
      Kind
  role_bindings csi_drivers stateful_sets daemon_sets : Kind

-- An object that is sent to the API server.
pub data Object : Type 0 where
  config_map : ConfigMap → Object
  secret : Secret → Object
  rbac : RbacObject → Object
  csi_driver : CsiDriver → Object
  stateful_set : StatefulSet → Object
  daemon_set : DaemonSet → Object
  driver : BeegfsDriver → Object

unfoldable pub kind_of_rbac : RbacObject → Kind
kind_of_rbac (service_account o) = service_accounts
kind_of_rbac (cluster_role o) = cluster_roles
kind_of_rbac (cluster_role_binding o) = cluster_role_bindings
kind_of_rbac (role o) = roles
kind_of_rbac (role_binding o) = role_bindings

unfoldable pub kind_of : Object → Kind
unfolding kind_of_rbac
kind_of (config_map o) = config_maps
kind_of (secret o) = secrets
kind_of (rbac o) = kind_of_rbac o
kind_of (csi_driver o) = csi_drivers
kind_of (stateful_set o) = stateful_sets
kind_of (daemon_set o) = daemon_sets
kind_of (driver o) = beegfs_drivers
