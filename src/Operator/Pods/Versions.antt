-- ===== src/Operator/Pods/Versions.antt =====
-- The annotations that tie the pods to the versions of their configuration.
use beegfs_csi_driver.Prelude.{
  String, ◌≡◌, refl, sym, subst, ap, ◌∙◌, Option, none, some, List, ◌==◌, arith, if◌then◌else◌,
}
use beegfs_csi_driver.Prelude.Dict.{Dict, lookup, insert, lookup-insert}
use beegfs_csi_driver.Prelude.Result.{Result, ok, err}
use beegfs_csi_driver.Prelude.Fallible.{>>=-eq-ok}
use beegfs_csi_driver.Errors.{
  Cause, panic, ctl_not_exist, ctl_exist, ctl_conn_auth, os_not_exist, failure, diverges,
}
use beegfs_csi_driver.Config.Merge.{entries}
use beegfs_csi_driver.Operator.Containers.{Container, ResourceRequirements}
use beegfs_csi_driver.Operator.Resources.{AreOverridden}
use beegfs_csi_driver.Operator.Pods.Adapted.{AreAdapted, overridden-AreAdapted}
use beegfs_csi_driver.Operator.Pods.Overrides.{
  controller_overrides, node_overrides, set_controller_resources-lookup, set_node_resources-lookup,
}
use beegfs_csi_driver.Operator.Objects.{
  BeegfsDriver, ConfigMap, Secret, Affinity, PodTemplate, WorkloadSpec, StatefulSet, DaemonSet,
}
use beegfs_csi_driver.Operator.Api.{ApiError, Machinery, Request, or_crash}
use beegfs_csi_driver.Operator.Pods.{
  annotation_config_map_version, annotation_connauth_secret_version,
  annotation_tls_certs_secret_version, name_and_version, set_resource_version_annotations,
  customised, set_node_affinity, with_overrides, set_common_object_metadata, desired_stateful_set,
  desired_daemon_set,
}

-- The annotations after a rollout: the three versions, and what the manifest has under other keys.
abbrev pub versions : ConfigMap → Secret → Secret → Option (Dict String) → String → Option String
versions cm s t old j =
    if annotation_tls_certs_secret_version == j
    then some (name_and_version t.meta)
    else if annotation_connauth_secret_version == j
    then some (name_and_version s.meta)
    else if annotation_config_map_version == j
    then some (name_and_version cm.meta)
    else lookup j (entries old)

set_resource_version_annotations-versions :
    (cm : ConfigMap) (s t : Secret) (template : PodTemplate) (j : String)
    → lookup j
        (entries (set_resource_version_annotations cm (some s) (some t) template).annotations)
      ≡ versions cm s t template.annotations j
unfolding set_resource_version_annotations
set_resource_version_annotations-versions cm s t template j = ground (
  arith,
  lookup-insert annotation_tls_certs_secret_version j (name_and_version t.meta) (
      insert annotation_connauth_secret_version (name_and_version s.meta) (
        insert annotation_config_map_version (name_and_version cm.meta)
          (entries template.annotations))),
  lookup-insert annotation_connauth_secret_version j (name_and_version s.meta) (
      insert annotation_config_map_version (name_and_version cm.meta)
        (entries template.annotations)),
  lookup-insert annotation_config_map_version j (name_and_version cm.meta)
      (entries template.annotations),
)

-- What the manifest has of an affinity beside that to nodes.
abbrev pub pod_affinity_of : Option Affinity → Option String
pod_affinity_of none = none
pod_affinity_of (some a) = a.pod_affinity

abbrev pub pod_anti_affinity_of : Option Affinity → Option String
pod_anti_affinity_of none = none
pod_anti_affinity_of (some a) = a.pod_anti_affinity

-- The affinity of the pods: the one to nodes is replaced, also where the manifest has none, and what
-- the manifest has of the other two is kept.
pub record IsPlaced (affinity : String) (before after : Option Affinity) : Type 0 where
  pub placement : Affinity
  pub present : after ≡ some placement
  pub to_nodes : placement.node_affinity ≡ some affinity
  pub to_pods : placement.pod_affinity ≡ pod_affinity_of before
  pub not_to_pods : placement.pod_anti_affinity ≡ pod_anti_affinity_of before

set_node_affinity-IsPlaced :
    (affinity : String) (old : Option Affinity)
    → IsPlaced affinity old (set_node_affinity (some affinity) old)
unfolding set_node_affinity
set_node_affinity-IsPlaced affinity none = record {
  placement = _;
  present = refl;
  to_nodes = refl;
  to_pods = refl;
  not_to_pods = refl;
}
set_node_affinity-IsPlaced affinity (some old) = record {
  placement = _;
  present = refl;
  to_nodes = refl;
  to_pods = refl;
  not_to_pods = refl;
}

-- What a rollout sends: the workload of the manifest, but for the annotations, the containers and the
-- node affinity of its pods.
pub record IsRolledOut (cm : ConfigMap) (s t : Secret) (affinity : String) (d : BeegfsDriver)
    (resources : String → Option ResourceRequirements) (clean spec : WorkloadSpec) : Type 0 where
  pub annotated :
      (j : String)
      → lookup j (entries spec.template.annotations) ≡ versions cm s t clean.template.annotations j
  pub adapted :
      AreAdapted d.spec.container_image_overrides d.spec.log_level resources
        clean.template.containers spec.template.containers
  pub placed : IsPlaced affinity clean.template.affinity spec.template.affinity
  pub template_kept : spec.template.other ≡ clean.template.other
  pub rest_kept : spec.other ≡ clean.other

customised-IsRolledOut :
    (d : BeegfsDriver) (clean : WorkloadSpec) (containers : List Container) (affinity : String)
    (cm : ConfigMap) (s t : Secret) (resources : String → Option ResourceRequirements)
    → AreOverridden resources (with_overrides d clean.template.containers) containers
    → IsRolledOut cm s t affinity d resources clean (customised clean containers affinity cm s t)
unfolding customised with_overrides
customised-IsRolledOut d clean containers affinity cm s t resources h = record {
  annotated = set_resource_version_annotations-versions cm s t clean.template;
  adapted =
      overridden-AreAdapted d.spec.container_image_overrides d.spec.log_level resources
        clean.template.containers containers h;
  placed = set_node_affinity-IsPlaced affinity clean.template.affinity;
  template_kept = refl;
  rest_kept = refl;
}

or_crash-eq-ok : {A : Type 0} (r : Result Cause A) {a : A} → or_crash r ≡ ok a → r ≡ ok a
unfolding or_crash
or_crash-eq-ok (ok a) e = ground arith
or_crash-eq-ok (err (panic m)) e = absurd (ground arith)
or_crash-eq-ok (err (ctl_not_exist o m)) e = absurd (ground arith)
or_crash-eq-ok (err (ctl_exist o m)) e = absurd (ground arith)
or_crash-eq-ok (err (ctl_conn_auth o m)) e = absurd (ground arith)
or_crash-eq-ok (err os_not_exist) e = absurd (ground arith)
or_crash-eq-ok (err (failure m)) e = absurd (ground arith)
or_crash-eq-ok (err diverges) e = absurd (ground arith)

ok_injective : {A : Type 0} (x y : A) → ◌≡◌ {A = Result ApiError A} (ok x) (ok y) → x ≡ y
ok_injective x y e = cc

module _ (lib : Machinery) (req : Request) (d : BeegfsDriver) (cm : ConfigMap) (s t : Secret) where
  -- A Stateful Set that is sent has the specification of the manifest, but for three changes. Its pods
  -- carry the names and versions of the Config Map and of both secrets. Their node affinity is that
  -- of the resource, also where the manifest has none. In each container the resource's overrides
  -- for its name, where there are any, replace the image and the tag (said of images whose only
  -- colon precedes the tag) and the quantities of "cpu" and "memory", and the log level, where there
  -- is one, is the value of the variables named LOG_LEVEL; all else of a container stays.
  pub desired_stateful_set-IsRolledOut :
      (clean w : StatefulSet)
      → desired_stateful_set lib req d cm s t clean ≡ ok w
      → IsRolledOut cm s t d.spec.node_affinity_controller_service d
          (λ name. lookup name (controller_overrides d.spec.container_resource_overrides))
          clean.spec
          w.spec
  unfolding desired_stateful_set
  desired_stateful_set-IsRolledOut clean w e =
      let (meta, owned, rest) = >>=-eq-ok (set_common_object_metadata lib req d clean.meta) _ e in
      let (containers, made, is) = >>=-eq-ok (or_crash _) _ rest in
      subst (IsRolledOut cm s t d.spec.node_affinity_controller_service d _ clean.spec)
        (ap (λ (x : StatefulSet). x.spec) (ok_injective _ w is))
        (customised-IsRolledOut d clean.spec containers _ cm s t _ (
          set_controller_resources-lookup d.spec.container_resource_overrides _ containers
            (or_crash-eq-ok _ made)))

  -- The same of a Daemon Set, with the node service's affinity and resources.
  desired_daemon_set-IsRolledOut :
      (clean w : DaemonSet)
      → desired_daemon_set lib req d cm s t clean ≡ ok w
      → IsRolledOut cm s t d.spec.node_affinity_node_service d
          (λ name. lookup name (node_overrides d.spec.container_resource_overrides))
          clean.spec
          w.spec
  unfolding desired_daemon_set
  desired_daemon_set-IsRolledOut clean w e =
      let (meta, owned, rest) = >>=-eq-ok (set_common_object_metadata lib req d clean.meta) _ e in
      let (containers, made, is) = >>=-eq-ok (or_crash _) _ rest in
      subst (IsRolledOut cm s t d.spec.node_affinity_node_service d _ clean.spec)
        (ap (λ (x : DaemonSet). x.spec) (ok_injective _ w is))
        (customised-IsRolledOut d clean.spec containers _ cm s t _ (
          set_node_resources-lookup d.spec.container_resource_overrides _ containers
            (or_crash-eq-ok _ made)))

-- Two Stateful Sets that are sent for the same resource and have the same specification carry the
-- same names and versions: a new version of the Config Map or of a secret changes the specification.
desired_stateful_set-restarts :
    (lib : Machinery) (req : Request) (d : BeegfsDriver) (clean w w' : StatefulSet)
    (cm cm' : ConfigMap) (s s' t t' : Secret)
    → desired_stateful_set lib req d cm s t clean ≡ ok w
    → desired_stateful_set lib req d cm' s' t' clean ≡ ok w'
    → w.spec ≡ w'.spec
    → (name_and_version cm.meta ≡ name_and_version cm'.meta)
      × (name_and_version s.meta ≡ name_and_version s'.meta)
      × (name_and_version t.meta ≡ name_and_version t'.meta)
desired_stateful_set-restarts lib req d clean w w' cm cm' s s' t t' e e' same = (
  some_injective _ _ (agree annotation_config_map_version),
  some_injective _ _ (agree annotation_connauth_secret_version),
  some_injective _ _ (agree annotation_tls_certs_secret_version),
)
  where
    some_injective : (x y : String) → some x ≡ some y → x ≡ y
    some_injective x y h = cc

    agree :
        (j : String)
        → versions cm s t clean.spec.template.annotations j
          ≡ versions cm' s' t' clean.spec.template.annotations j
    agree j =
        sym ((desired_stateful_set-IsRolledOut lib req d cm s t clean w e).annotated j)
        ∙ ap (λ (x : WorkloadSpec). lookup j (entries x.template.annotations)) same
        ∙ (desired_stateful_set-IsRolledOut lib req d cm' s' t' clean w' e').annotated j
