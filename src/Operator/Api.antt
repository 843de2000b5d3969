-- ===== src/Operator/Api.antt =====
-- The API server as the reconciler sees it, and what the reconciler uses of Kubernetes' libraries.
-- A call is recorded in the history, and the server answers it from the whole history so far. A
-- successful write of a Config Map, a Secret or the custom resource brings the object back as it is
-- stored, with its new version.
use beegfs_csi_driver.Prelude.{String, Bool, Option, none, some, List, ◌∷◌}
use beegfs_csi_driver.Prelude.Dict.{Dict}
use beegfs_csi_driver.Prelude.Result.{Result, ok, err, Exec}
use beegfs_csi_driver.Errors.{Cause, panic}
use beegfs_csi_driver.Config.{PluginConfigFromFile}
use beegfs_csi_driver.Operator.Objects.{
  ObjectMeta, Condition, BeegfsDriver, ConfigMap, Secret, ServiceAccount, Rules, Subject, Binding,
  CsiDriver, WorkloadSpec, StatefulSet, DaemonSet, RbacObject, Kind, Object,
}

pub data Call : Type 0 where
  -- the kind, the name and the namespace, which is empty for a cluster-scoped object
  get : Kind → String → String → Call
  create update : Object → Call
  -- r.Status().Update
  update_status : BeegfsDriver → Call
  delete : Kind → String → Call

-- The calls so far, the last one first.
abbrev pub History : Type 0
History = List Call

pub data ApiError : Type 0 where
  -- errors.IsNotFound holds
  not_found : ApiError
  api_failure : String → ApiError
  -- a run-time panic of the operator
  crash : String → ApiError

pub record Api : Type 0 where
  pub get_driver : History → Call → Result ApiError BeegfsDriver
  pub get_config_map : History → Call → Result ApiError ConfigMap
  pub get_secret : History → Call → Result ApiError Secret
  pub get_service_account : History → Call → Result ApiError ServiceAccount
  pub get_rules : History → Call → Result ApiError Rules
  pub get_binding : History → Call → Result ApiError Binding
  pub get_csi_driver : History → Call → Result ApiError CsiDriver
  pub get_stateful_set : History → Call → Result ApiError StatefulSet
  pub get_daemon_set : History → Call → Result ApiError DaemonSet
  pub put_config_map : History → Call → Result ApiError ConfigMap
  pub put_secret : History → Call → Result ApiError Secret
  pub put_driver : History → Call → Result ApiError BeegfsDriver
  -- any other write, and deletions
  pub put : History → Call → Result ApiError (Unit {0})

-- k8s.io/apimachinery, controller-runtime and sigs.k8s.io/yaml
pub record Machinery : Type 0 where
  pub marshal : PluginConfigFromFile → Result ApiError String
  pub set_controller_reference : BeegfsDriver → ObjectMeta → Result ApiError ObjectMeta
  pub set_status_condition : List Condition → Condition → List Condition
  pub find_status_condition : List Condition → String → Option Condition
  pub add_finalizer : List String → String → List String
  pub remove_finalizer : List String → String → List String
  -- equality.Semantic.DeepEqual at the types at which it is called
  pub same_status : List Condition → List Condition → Bool
  pub same_contents : Dict String → Dict String → Bool
  pub same_rules : List String → List String → Bool
  pub same_subjects : List Subject → List Subject → Bool
  pub same_role_ref : String → String → Bool
  -- equality.Semantic.DeepDerivative
  pub is_derivative : WorkloadSpec → WorkloadSpec → Bool

-- The objects that deploy/k8s/deploy.go reads from the manifests.
pub record Manifests : Type 0 where
  pub controller_service : StatefulSet
  pub node_service : DaemonSet
  pub rbac_objects : List RbacObject
  pub csi_driver_info : CsiDriver

-- ctrl.Request
pub record Request : Type 0 where
  pub name : String
  pub namespace : String

abbrev pub Action : Type 0 → Type 0
Action = Exec History ApiError

-- `if err != nil { if !errors.IsNotFound(err) { return err } ... } else { ... }`
unfoldable pub or_absent : {A : Type 0} → Result ApiError A → Result ApiError (Option A)
or_absent (ok a) = ok (some a)
or_absent (err not_found) = ok none
or_absent (err (api_failure message)) = err (api_failure message)
or_absent (err (crash message)) = err (crash message)

-- `if err != nil && !errors.IsNotFound(err) { return err }`
unfoldable pub or_gone : Result ApiError (Unit {0}) → Result ApiError (Unit {0})
or_gone (ok a) = ok tt
or_gone (err not_found) = ok tt
or_gone (err (api_failure message)) = err (api_failure message)
or_gone (err (crash message)) = err (crash message)

-- The errors of the code on containers, which are panics.
unfoldable pub or_crash : {A : Type 0} → Result Cause A → Result ApiError A
or_crash (ok a) = ok a
or_crash (err (panic message)) = err (crash message)
or_crash (err _) = err (crash "")

unfoldable pub fetch :
    {A : Type 0} → (History → Call → Result ApiError A) → Call → Action (Option A)
unfolding or_absent
fetch reply c s = (or_absent (reply s c), c ∷ s)

unfoldable pub send : {A : Type 0} → (History → Call → Result ApiError A) → Call → Action A
send reply c s = (reply s c, c ∷ s)

unfoldable pub remove : (History → Call → Result ApiError (Unit {0})) → Call → Action (Unit {0})
unfolding or_gone
remove reply c s = (or_gone (reply s c), c ∷ s)
