-- ===== src/Operator/Reconcile/Grants.antt =====
-- The permissions that the markers above Reconcile ask for, and the calls that it makes
-- (operator/controllers/beegfsdriver_controller.go, operator/config/rbac/role.yaml).
use beegfs_csi_driver.Prelude.{◌≡◌, refl, ◌⊎◌, inl, inr, Bool, true, false, List, [], ◌∷◌, All}
use beegfs_csi_driver.Operator.Objects.{
  BeegfsDriver, RbacObject, service_account, cluster_role, cluster_role_binding, role, role_binding,
  Object, config_map, secret, rbac, csi_driver, stateful_set, daemon_set, driver, Kind,
  beegfs_drivers, cluster_roles, cluster_role_bindings, roles, role_bindings, csi_drivers,
  stateful_sets, daemon_sets, kind_of,
}
use beegfs_csi_driver.Operator.Api.{
  Api, Machinery, Manifests, Request, Call, get, create, update, update_status, delete,
}
use beegfs_csi_driver.Operator.Calls.{
  Makes, pure-Makes, fetch-Makes, send-Makes, remove-Makes, bind-Makes, option-Makes, bool-Makes,
}
use beegfs_csi_driver.Operator.Ensure.Permissions.{Allows, IsUpdated}
use beegfs_csi_driver.Operator.Reconcile.{
  delete_cluster_objects, push_status, ensure_finalizer, finalize, proceed, reconcile_driver,
  reconcile,
}
use beegfs_csi_driver.Operator.Reconcile.Deletion.{deploy-Makes}

-- The verbs `update` and `delete` of the markers.
unfoldable pub may_update : Kind → Bool
may_update beegfs_drivers = true
may_update cluster_roles = true
may_update stateful_sets = true
may_update daemon_sets = true
may_update _ = false

unfoldable pub may_delete : Kind → Bool
may_delete beegfs_drivers = true
may_delete cluster_roles = true
may_delete cluster_role_bindings = true
may_delete roles = true
may_delete role_bindings = true
may_delete csi_drivers = true
may_delete _ = false

-- Whether the markers grant a call: they grant `get` and `create` of every kind that it touches.
unfoldable pub granted : Call → Bool
unfolding may_update may_delete kind_of
granted (get k name namespace) = true
granted (create o) = true
granted (update_status d) = true
granted (update o) = may_update (kind_of o)
granted (delete k name) = may_delete k

-- The updates of the four kinds that the reconciler updates with no such grant.
abbrev pub UpdateWithoutGrant : Call → Type 0
UpdateWithoutGrant (update (config_map o)) = Unit
UpdateWithoutGrant (update (rbac (cluster_role_binding o))) = Unit
UpdateWithoutGrant (update (rbac (role o))) = Unit
UpdateWithoutGrant (update (rbac (role_binding o))) = Unit
UpdateWithoutGrant _ = ⊥

abbrev pub Foreseen : Call → Type 0
Foreseen c = (granted c ≡ true) ⊎ ((granted c ≡ false) × UpdateWithoutGrant c)

Foreseen-Allows : Allows Foreseen
unfolding granted
Foreseen-Allows = record {
  gets = λ k n ns. inl refl;
  creates = λ o. inl refl;
  updates = λ o u. foreseen o u;
}
  where
    foreseen : (o : Object) → IsUpdated o → Foreseen (update o)
    foreseen (driver d) u = inl refl
    foreseen (config_map o) u = inr (refl, tt)
    foreseen (secret o) u = absurd u
    foreseen (rbac (service_account o)) u = absurd u
    foreseen (rbac (cluster_role o)) u = inl refl
    foreseen (rbac (cluster_role_binding o)) u = inr (refl, tt)
    foreseen (rbac (role o)) u = inr (refl, tt)
    foreseen (rbac (role_binding o)) u = inr (refl, tt)
    foreseen (csi_driver o) u = absurd u
    foreseen (stateful_set o) u = inl refl
    foreseen (daemon_set o) u = inl refl

module _ (api : Api) (lib : Machinery) (manifests : Manifests) (req : Request) where
  delete_cluster_objects-Foreseen :
      (os : List RbacObject) → Makes Foreseen (delete_cluster_objects api lib os)
  unfolding delete_cluster_objects granted
  delete_cluster_objects-Foreseen [] = pure-Makes _ tt
  delete_cluster_objects-Foreseen (cluster_role o ∷ os) =
      bind-Makes _ _ _ (remove-Makes _ _ _ (inl refl)) (λ _. delete_cluster_objects-Foreseen os)
  delete_cluster_objects-Foreseen (cluster_role_binding o ∷ os) =
      bind-Makes _ _ _ (remove-Makes _ _ _ (inl refl)) (λ _. delete_cluster_objects-Foreseen os)
  delete_cluster_objects-Foreseen (service_account o ∷ os) = delete_cluster_objects-Foreseen os
  delete_cluster_objects-Foreseen (role o ∷ os) = delete_cluster_objects-Foreseen os
  delete_cluster_objects-Foreseen (role_binding o ∷ os) = delete_cluster_objects-Foreseen os

  finalize-Foreseen : (d : BeegfsDriver) → Makes Foreseen (finalize api lib manifests d)
  unfolding finalize granted
  finalize-Foreseen d =
      bool-Makes _ _ _ _
        (bind-Makes _ _ _ (delete_cluster_objects-Foreseen manifests.rbac_objects) λ _.
          bind-Makes _ _ _ (remove-Makes _ _ _ (inl refl))
            λ _. bind-Makes _ _ _ (send-Makes _ _ _ (inl refl)) (λ stored. pure-Makes _ tt))
        (pure-Makes _ tt)

  reconcile_driver-Foreseen :
      (d : BeegfsDriver) → Makes Foreseen (reconcile_driver api lib manifests req d)
  unfolding reconcile_driver push_status proceed ensure_finalizer granted
  reconcile_driver-Foreseen d = bind-Makes _ _ _ (fetch-Makes _ _ _ (inl refl)) λ sts.
      bind-Makes _ _ _ (fetch-Makes _ _ _ (inl refl)) λ ds.
        bind-Makes _ _ _ (bool-Makes _ _ _ _ (pure-Makes _ _) (send-Makes _ _ _ (inl refl))) λ d'.
          bool-Makes _ _ _ _ (finalize-Foreseen d') (
            bind-Makes _ _ _ (bool-Makes _ _ _ _ (pure-Makes _ _) (send-Makes _ _ _ (inl refl)))
              (λ d''. deploy-Makes api lib manifests req _ Foreseen-Allows d'' sts ds))

  -- Every call of a reconciliation is granted by the markers, or updates a Config Map, a Cluster Role
  -- Binding, a Role or a Role Binding, which they do not grant.
  pub reconcile-Foreseen : All Foreseen (reconcile api lib manifests req []).1
  unfolding reconcile granted
  reconcile-Foreseen =
      (bind-Makes _ _ _ (fetch-Makes _ _ _ (inl refl))
          λ found. option-Makes _ found _ _ (pure-Makes _ tt) reconcile_driver-Foreseen).keeps
        [] tt
