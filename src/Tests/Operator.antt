-- ===== src/Tests/Operator.antt =====
-- The theorems on the operator's reconciler at a small cluster.
use beegfs_csi_driver.Prelude.{
  ◌≡◌, ◌≢◌, ◌≤◌, ◌↔◌, ◌==◌, refl, true, false, none, some, [], ◌∷◌, All, member,
}
use beegfs_csi_driver.Prelude.Result.{Result, ok}
use beegfs_csi_driver.Prelude.Dict.{lookup}
use beegfs_csi_driver.Operator.Pods.Overrides.{controller_overrides}
use beegfs_csi_driver.Operator.Objects.{
  BeegfsDriver, StatefulSet, DaemonSet, ObjectMeta, cluster_role, stateful_set, daemon_set,
}
use beegfs_csi_driver.Operator.Api.{ApiError, api_failure}
use beegfs_csi_driver.Operator.Pods.{
  set_common_object_metadata, customised, desired_stateful_set, desired_daemon_set,
  annotation_config_map_version, annotation_connauth_secret_version,
  annotation_tls_certs_secret_version, name_and_version,
}
use beegfs_csi_driver.Operator.Pods.Versions.{IsRolledOut, desired_stateful_set-IsRolledOut}
use beegfs_csi_driver.Operator.Status.{
  controller_condition, node_condition, reason_service_not_created,
}
use beegfs_csi_driver.Operator.Ensure.{roll_out_controller, roll_out_node}
use beegfs_csi_driver.Operator.Reconcile.{
  reconcile, finalize, observed, finalizer_cluster_resource_deletion, contains_string,
}
use beegfs_csi_driver.Operator.Reconcile.Deletion.{Allowed, reconcile-Allowed}
use beegfs_csi_driver.Operator.Reconcile.Finalizer.{
  EndsWith, let_go, finalizer_deletions, finalize-EndsWith,
}
use beegfs_csi_driver.Operator.Reconcile.Grants.{Foreseen, reconcile-Foreseen}
use beegfs_csi_driver.Operator.Reconcile.Refused.{reconcile-refused}
use beegfs_csi_driver.Operator.Reconcile.Conditions.{
  is_none, conditions_lem, RollsOut, roll_outs-RollsOut,
}
use beegfs_csi_driver.Tests.Cluster.{
  meta, lib, laws, spec, driver, cm, auth, tls, rules, clean_spec, sts, ds, manifests, req, api,
}

reconcile-Allowed_example : All (Allowed false) (reconcile api lib manifests req []).1
reconcile-Allowed_example =
    reconcile-Allowed api lib manifests req false
      (record { read = λ s c d e. lives d e; stored = λ s c d e. lives d e })
  where
    lives :
        (d : BeegfsDriver)
        → ◌≡◌ {A = Result ApiError BeegfsDriver} (ok driver) (ok d)
        → d.deletion_timestamp ≡ false
    lives d e = cc

has_finalizer : contains_string driver.finalizers finalizer_cluster_resource_deletion ≡ true
unfolding contains_string member
has_finalizer = refl

finalize-EndsWith_example :
    EndsWith api
      (let_go api lib manifests driver)
      (finalizer_deletions api lib manifests driver)
      []
      (finalize api lib manifests driver [])
finalize-EndsWith_example = finalize-EndsWith api lib manifests driver [] has_finalizer

reconcile-Foreseen_example : All Foreseen (reconcile api lib manifests req []).1
reconcile-Foreseen_example = reconcile-Foreseen api lib manifests req

leader_named :
    (d : BeegfsDriver) (m : ObjectMeta)
    → set_common_object_metadata lib req d (rules "leader" []).meta ≡ ok m
    → m.name ≡ "leader"
unfolding set_common_object_metadata
leader_named d m e = cc

reconcile-refused_example : (reconcile api lib manifests req []).0 ≢ ok tt
reconcile-refused_example =
    reconcile-refused api lib manifests req (api_failure "forbidden") (λ t c h. refl)
      (rules "leader" []) (rules "leader" ("get leases" ∷ [])) leader_named (λ t. refl) refl
      (λ s c d e. lives d e) (cluster_role (rules "provisioner" []) ∷ []) [] refl
      (λ s. (driver, refl, refl))
  where
    lives :
        (d : BeegfsDriver)
        → ◌≡◌ {A = Result ApiError BeegfsDriver} (ok driver) (ok d)
        → d.deletion_timestamp ≡ false
    lives d e = cc

conditions_lem_example :
    ((controller_condition (some sts)).status ≡ true
      ↔ ((w : StatefulSet) × (some sts ≡ some w) × (1 ≤ w.replicas) × (1 ≤ w.ready_replicas)))
    × ((node_condition (some ds)).status ≡ true ↔ (
        (w : DaemonSet) × (some ds ≡ some w)
        × (1 ≤ w.desired_number_scheduled)
        × (w.desired_number_scheduled ≤ w.number_ready)))
    × (((controller_condition (some sts)).reason == reason_service_not_created)
        ≡ is_none (some sts))
    × (((node_condition (some ds)).reason == reason_service_not_created) ≡ is_none (some ds))
conditions_lem_example = conditions_lem (some sts) (some ds)

-- The resource with the status that was observed.
abbrev now : BeegfsDriver
now = observed api lib manifests req driver (some sts) none

abbrev wanted_sts : StatefulSet
wanted_sts = record sts {
  meta = meta "csi-beegfs-controller" "16";
  spec = customised clean_spec [] spec.node_affinity_controller_service cm auth tls;
}

abbrev wanted_ds : DaemonSet
wanted_ds = record ds {
  meta = meta "csi-beegfs-node" "17";
  spec = customised clean_spec [] spec.node_affinity_node_service cm auth tls;
}

sts_made : desired_stateful_set lib req now cm auth tls sts ≡ ok wanted_sts
unfolding desired_stateful_set
sts_made = refl

ds_made : desired_daemon_set lib req now cm auth tls ds ≡ ok wanted_ds
unfolding desired_daemon_set
ds_made = refl

roll_outs-RollsOut_example :
    RollsOut api.put
      (stateful_set wanted_sts)
      (λ (w : StatefulSet). lib.is_derivative wanted_sts.spec w.spec)
      []
      (some sts)
      (roll_out_controller api lib req now cm auth tls sts (some sts) [])
    × RollsOut api.put
        (daemon_set wanted_ds)
        (λ (w : DaemonSet). lib.is_derivative wanted_ds.spec w.spec)
        []
        none
        (roll_out_node api lib req now cm auth tls ds none [])
roll_outs-RollsOut_example =
    roll_outs-RollsOut api lib manifests req laws driver now (some sts) none cm auth tls wanted_sts
      wanted_ds [] refl sts_made ds_made

-- A manifest with a container and an affinity, and a resource that overrides what it can.
abbrev full_sts : StatefulSet
full_sts = record sts {
  spec = record {
    template = record {
      annotations = none;
      containers =
          record {
            name = "beegfs";
            image = "ghcr.io/beegfs-csi-driver:v1";
            env =
                record { name = "LOG_LEVEL"; value = "3" }
                ∷ record { name = "KUBE_NODE_NAME"; value = "n" }
                ∷ [];
            resources = record { limits = some (("cpu", "1") ∷ []); requests = none };
          }
          ∷ [];
      affinity = some (record {
        node_affinity = some "preferred: worker";
        pod_affinity = some "with";
        pod_anti_affinity = none;
      });
      other = "volumes";
    };
    other = "selector";
  };
}

abbrev eager : BeegfsDriver
eager = record driver {
  spec = record spec {
    container_image_overrides = record spec.container_image_overrides {
      beegfs_csi_driver = record { image = ""; tag = "v2" };
    };
    container_resource_overrides = record spec.container_resource_overrides {
      controller_beegfs_resources = record {
        limits = some (("cpu", "2") ∷ ("disk", "9") ∷ []);
        requests = none;
      };
    };
    log_level = some (false, 5);
  };
}

abbrev full_wanted : StatefulSet
full_wanted = record full_sts {
  spec = record {
    template = record {
      annotations = some (
          (annotation_config_map_version, name_and_version cm.meta)
          ∷ (annotation_connauth_secret_version, name_and_version auth.meta)
          ∷ (annotation_tls_certs_secret_version, name_and_version tls.meta)
          ∷ []);
      containers =
          record {
            name = "beegfs";
            image = "ghcr.io/beegfs-csi-driver:v2";
            env =
                record { name = "LOG_LEVEL"; value = "5" }
                ∷ record { name = "KUBE_NODE_NAME"; value = "n" }
                ∷ [];
            resources = record { limits = some (("cpu", "2") ∷ []); requests = none };
          }
          ∷ [];
      affinity = some (record {
        node_affinity = some "required: master";
        pod_affinity = some "with";
        pod_anti_affinity = none;
      });
      other = "volumes";
    };
    other = "selector";
  };
}

full_made : desired_stateful_set lib req eager cm auth tls full_sts ≡ ok full_wanted
unfolding desired_stateful_set
full_made = refl

desired_stateful_set-IsRolledOut_example :
    IsRolledOut cm auth tls "required: master" eager
      (λ name. lookup name (controller_overrides eager.spec.container_resource_overrides))
      full_sts.spec
      full_wanted.spec
desired_stateful_set-IsRolledOut_example =
    desired_stateful_set-IsRolledOut lib req eager cm auth tls full_sts full_wanted full_made
