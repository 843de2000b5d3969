-- ===== src/Operator/Reconcile.antt =====
-- Reconcile (operator/controllers/beegfsdriver_controller.go) as a whole: the status, the finalizer,
-- and the objects of the driver.
pub mod Deletion
pub mod Conditions
pub mod Finalizer
pub mod Grants
pub mod Refused
use beegfs_csi_driver.Prelude.{String, Bool, true, false, Option, none, some, List, [], ◌∷◌, member}
use beegfs_csi_driver.Prelude.Result.{
  Result, ok, err, Exec, pure, fail, lift, continue, ◌>>=◌, ◌>>◌,
}
use beegfs_csi_driver.Operator.Objects.{
  Condition, BeegfsDriver, StatefulSet, DaemonSet, RbacObject, service_account, cluster_role,
  cluster_role_binding, role, role_binding, cluster_roles, cluster_role_bindings, csi_drivers,
  beegfs_drivers, stateful_sets, daemon_sets, driver,
}
use beegfs_csi_driver.Operator.Api.{
  Api, Machinery, Manifests, Request, Action, Call, get, update, update_status, delete, fetch, send,
  remove,
}
use beegfs_csi_driver.Operator.Pods.{new_secret, new_tls}
use beegfs_csi_driver.Operator.Status.{controller_condition, node_condition}
use beegfs_csi_driver.Operator.Ensure.{
  ensure_config_map, ensure_secret, ensure_rbac, ensure_csi_driver, roll_out_controller,
  roll_out_node,
}

abbrev pub finalizer_cluster_resource_deletion : String
finalizer_cluster_resource_deletion = "beegfs.csi.netapp.com/clusterResourceDeletion"

-- containsString
unfoldable pub contains_string : List String → String → Bool
unfolding member
contains_string slice s = member s slice

module _ (api : Api) (lib : Machinery) where
  -- The cluster-scoped ones of the objects, in a loop over all.
  unfoldable pub delete_cluster_objects : List RbacObject → Action (Unit {0})
  delete_cluster_objects [] = pure tt
  delete_cluster_objects (cluster_role o ∷ os) =
      remove api.put (delete cluster_roles o.meta.name) >> delete_cluster_objects os
  delete_cluster_objects (cluster_role_binding o ∷ os) =
      remove api.put (delete cluster_role_bindings o.meta.name) >> delete_cluster_objects os
  delete_cluster_objects (service_account o ∷ os) = delete_cluster_objects os
  delete_cluster_objects (role o ∷ os) = delete_cluster_objects os
  delete_cluster_objects (role_binding o ∷ os) = delete_cluster_objects os

  -- Don't bother the Kubernetes API server unless the status has changed.
  unfoldable pub push_status : List Condition → BeegfsDriver → Action BeegfsDriver
  push_status old_status d = elim (lib.same_status d.conditions old_status) [
    | true ↦ pure d
    | false ↦ send api.put_driver (update_status d)
  ]

  abbrev pub with_finalizer : BeegfsDriver → BeegfsDriver
  with_finalizer d = record d {
    finalizers = lib.add_finalizer d.finalizers finalizer_cluster_resource_deletion;
  }

  abbrev pub without_finalizer : BeegfsDriver → BeegfsDriver
  without_finalizer d = record d {
    finalizers = lib.remove_finalizer d.finalizers finalizer_cluster_resource_deletion;
  }

  unfoldable pub ensure_finalizer : BeegfsDriver → Action BeegfsDriver
  ensure_finalizer d = elim (contains_string d.finalizers finalizer_cluster_resource_deletion) [
    | true ↦ pure d
    | false ↦ send api.put_driver (update (driver (with_finalizer d)))
  ]

  module _ (manifests : Manifests) where
    -- The resource is being deleted, so its finalizer runs.
    unfoldable pub finalize : BeegfsDriver → Action (Unit {0})
    finalize d = elim (contains_string d.finalizers finalizer_cluster_resource_deletion) [
      | false ↦ pure tt
      | true ↦ do
        delete_cluster_objects manifests.rbac_objects
        remove api.put (delete csi_drivers manifests.csi_driver_info.meta.name)
        stored ← send api.put_driver (update (driver (without_finalizer d)))
        pure tt
    ]

    module _ (req : Request) where
      -- Everything that the driver needs, in the order of the source.
      unfoldable pub deploy :
          BeegfsDriver → Option StatefulSet → Option DaemonSet → Action (Unit {0})
      unfolding ensure_config_map ensure_secret ensure_rbac ensure_csi_driver roll_out_controller
          roll_out_node
      deploy d sts_found ds_found = do
        cm ← ensure_config_map api lib req d
        s ← ensure_secret api lib req d new_secret
        t ← ensure_secret api lib req d new_tls
        ensure_rbac api lib req d manifests.rbac_objects
        ensure_csi_driver api lib req d manifests.csi_driver_info
        roll_out_controller api lib req d cm s t manifests.controller_service sts_found
        roll_out_node api lib req d cm s t manifests.node_service ds_found

      -- After the status has been pushed: the finalizer, and then the objects.
      unfoldable pub proceed :
          BeegfsDriver → Option StatefulSet → Option DaemonSet → Action (Unit {0})
      unfolding ensure_finalizer finalize deploy
      proceed d sts_found ds_found = elim d.deletion_timestamp [
        | true ↦ finalize d
        | false ↦ do d' ← ensure_finalizer d; deploy d' sts_found ds_found
      ]

      -- The status that Reconcile observes.
      abbrev pub observed : BeegfsDriver → Option StatefulSet → Option DaemonSet → BeegfsDriver
      observed d sts_found ds_found = record d {
        conditions =
            lib.set_status_condition
              (lib.set_status_condition d.conditions (controller_condition sts_found))
              (node_condition ds_found);
      }

      unfoldable pub reconcile_driver : BeegfsDriver → Action (Unit {0})
      unfolding controller_condition node_condition push_status proceed
      reconcile_driver d = do
        sts_found ←
            fetch api.get_stateful_set
              (get stateful_sets manifests.controller_service.meta.name req.namespace)
        ds_found ←
            fetch api.get_daemon_set
              (get daemon_sets manifests.node_service.meta.name req.namespace)
        d' ← push_status d.conditions (observed d sts_found ds_found)
        proceed d' sts_found ds_found

      -- Reconcile
      unfoldable pub reconcile : Action (Unit {0})
      unfolding reconcile_driver
      reconcile = do
        found ← fetch api.get_driver (get beegfs_drivers req.name req.namespace)
        elim found [ none ↦ pure tt | some d ↦ reconcile_driver d ]
