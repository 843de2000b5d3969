-- ===== src/Operator/Reconcile/Deletion.antt =====
-- What the reconciler does while the custom resource is being deleted, and while it is not.
use beegfs_csi_driver.Prelude.{
  ◌≡◌, refl, sym, ◌∙◌, subst, Bool, true, false, Option, none, some, List, [], ◌∷◌, All, Bool-cases,
  inl, inr, arith,
}
use beegfs_csi_driver.Prelude.Result.{ok, pure}
use beegfs_csi_driver.Operator.Objects.{
  Condition, BeegfsDriver, StatefulSet, DaemonSet, RbacObject, service_account, cluster_role,
  cluster_role_binding, role, role_binding, cluster_roles, cluster_role_bindings, csi_drivers,
  Object, driver,
}
use beegfs_csi_driver.Operator.Api.{
  Api, Machinery, Manifests, Request, Call, History, Action, get, create, update, update_status,
  delete, send,
}
use beegfs_csi_driver.Operator.Pods.{new_secret, new_tls}
use beegfs_csi_driver.Operator.Calls.{
  Makes, pure-Makes, fetch-Makes, send-Makes, remove-Makes, bind-Makes, bind_with-Makes, bool-Makes,
  bool_with-Makes, fetch-eq-some,
}
use beegfs_csi_driver.Operator.Ensure.Permissions.{
  Allows, ensure_config_map-Makes, ensure_secret-Makes, ensure_rbac-Makes, ensure_csi_driver-Makes,
  roll_out_controller-Makes, roll_out_node-Makes,
}
use beegfs_csi_driver.Operator.Reconcile.{
  delete_cluster_objects, push_status, ensure_finalizer, finalize, deploy, proceed,
  reconcile_driver, reconcile,
}

-- The calls that are allowed while the resource is being deleted, and while it is not.
abbrev pub Allowed : Bool → Call → Type 0
Allowed deleting (get k name namespace) = Unit
Allowed deleting (update_status d) = Unit
Allowed deleting (update (driver d)) = Unit
Allowed true (delete cluster_roles name) = Unit
Allowed true (delete cluster_role_bindings name) = Unit
Allowed true (delete csi_drivers name) = Unit
Allowed true _ = ⊥
Allowed false (delete k name) = ⊥
Allowed false (create o) = Unit
Allowed false (update o) = Unit

live : Allows (Allowed false)
live = record { gets = λ k n ns. tt; creates = λ o. tt; updates = λ o u. allowed o }
  where
    allowed : (o : Object) → Allowed false (update o)
    allowed (driver d) = tt
    allowed (Object.config_map o) = tt
    allowed (Object.secret o) = tt
    allowed (Object.rbac o) = tt
    allowed (Object.csi_driver o) = tt
    allowed (Object.stateful_set o) = tt
    allowed (Object.daemon_set o) = tt

as-Allowed :
    {A : Type 0} (b deleting : Bool) (m : Action A)
    → b ≡ deleting
    → Makes (Allowed b) m
    → Makes (Allowed deleting) m
as-Allowed b deleting m e = subst (λ (x : Bool). Makes (Allowed x) m) e

-- Whether the resource is being deleted does not change in the course of a reconciliation.
pub record Throughout (api : Api) (deleting : Bool) : Type 0 where
  pub read :
      (s : History) (c : Call) (d : BeegfsDriver)
      → api.get_driver s c ≡ ok d
      → d.deletion_timestamp ≡ deleting
  pub stored :
      (s : History) (c : Call) (d : BeegfsDriver)
      → api.put_driver s c ≡ ok d
      → d.deletion_timestamp ≡ deleting

module _ (api : Api) (lib : Machinery) (manifests : Manifests) (req : Request) where
  pub deploy-Makes :
      (P : Call → Type 0) (allows : Allows P) (d : BeegfsDriver) (sts : Option StatefulSet)
      (ds : Option DaemonSet)
      → Makes P (deploy api lib manifests req d sts ds)
  unfolding deploy
  deploy-Makes P allows d sts ds =
      bind-Makes P _ _ (ensure_config_map-Makes P allows api lib req d) λ cm.
        bind-Makes P _ _ (ensure_secret-Makes P allows api lib req d new_secret) λ s.
          bind-Makes P _ _ (ensure_secret-Makes P allows api lib req d new_tls) λ t.
            bind-Makes P _ _ (ensure_rbac-Makes P allows api lib req d manifests.rbac_objects) λ _.
              bind-Makes P _ _
                (ensure_csi_driver-Makes P allows api lib req d manifests.csi_driver_info)
                λ _.
                  bind-Makes P _ _
                    (roll_out_controller-Makes P allows api lib req d cm s t
                      manifests.controller_service sts)
                    λ _. roll_out_node-Makes P allows api lib req d cm s t manifests.node_service ds

  delete_cluster_objects-Makes :
      (os : List RbacObject) → Makes (Allowed true) (delete_cluster_objects api lib os)
  unfolding delete_cluster_objects
  delete_cluster_objects-Makes [] = pure-Makes _ tt
  delete_cluster_objects-Makes (cluster_role o ∷ os) =
      bind-Makes _ _ _ (remove-Makes _ _ _ tt) (λ _. delete_cluster_objects-Makes os)
  delete_cluster_objects-Makes (cluster_role_binding o ∷ os) =
      bind-Makes _ _ _ (remove-Makes _ _ _ tt) (λ _. delete_cluster_objects-Makes os)
  delete_cluster_objects-Makes (service_account o ∷ os) = delete_cluster_objects-Makes os
  delete_cluster_objects-Makes (role o ∷ os) = delete_cluster_objects-Makes os
  delete_cluster_objects-Makes (role_binding o ∷ os) = delete_cluster_objects-Makes os

  finalize-Makes : (d : BeegfsDriver) → Makes (Allowed true) (finalize api lib manifests d)
  unfolding finalize
  finalize-Makes d =
      bool-Makes _ _ _ _
        (bind-Makes _ _ _ (delete_cluster_objects-Makes manifests.rbac_objects) λ _.
          bind-Makes _ _ _ (remove-Makes _ _ _ tt)
            λ _. bind-Makes _ _ _ (send-Makes _ _ _ tt) (λ stored. pure-Makes _ tt))
        (pure-Makes _ tt)

  module _ (deleting : Bool) (throughout : Throughout api deleting) where
    ensure_finalizer-Makes :
        (d : BeegfsDriver) → Makes (Allowed deleting) (ensure_finalizer api lib d)
    unfolding ensure_finalizer
    ensure_finalizer-Makes d = bool-Makes _ _ _ _ (pure-Makes _ d) (send-Makes _ _ _ tt)

    proceed-Makes :
        (d : BeegfsDriver) (sts : Option StatefulSet) (ds : Option DaemonSet)
        → d.deletion_timestamp ≡ deleting
        → Makes (Allowed deleting) (proceed api lib manifests req d sts ds)
    unfolding proceed
    proceed-Makes d sts ds e =
        bool_with-Makes _ _ _ _
          (λ gone. as-Allowed true deleting _ (sym gone ∙ e) (finalize-Makes d))
          λ here. bind-Makes _ _ _ (ensure_finalizer-Makes d) λ d'.
            as-Allowed false deleting _ (sym here ∙ e) (deploy-Makes (Allowed false) live d' sts ds)

    push_status-Makes :
        (old : List Condition) (d : BeegfsDriver)
        → Makes (Allowed deleting) (push_status api lib old d)
    unfolding push_status
    push_status-Makes old d = bool-Makes _ _ _ _ (pure-Makes _ d) (send-Makes _ _ _ tt)

    pushed :
        (old : List Condition) (d : BeegfsDriver)
        → d.deletion_timestamp ≡ deleting
        → (s : History) (d' : BeegfsDriver) → (push_status api lib old d s).0 ≡ ok d'
        → d'.deletion_timestamp ≡ deleting
    unfolding push_status pure send
    pushed old d e s d' run = elim (Bool-cases (lib.same_status d.conditions old)) [
      | inl same ↦ ground arith
      | inr other ↦ throughout.stored s (update_status d) d' (ground arith)
    ]

    reconcile_driver-Makes :
        (d : BeegfsDriver)
        → d.deletion_timestamp ≡ deleting
        → Makes (Allowed deleting) (reconcile_driver api lib manifests req d)
    unfolding reconcile_driver
    reconcile_driver-Makes d e = bind-Makes _ _ _ (fetch-Makes _ _ _ tt) λ sts.
        bind-Makes _ _ _ (fetch-Makes _ _ _ tt) λ ds.
          bind_with-Makes _ _ _ (λ d'. d'.deletion_timestamp ≡ deleting) (pushed _ _ e)
            (push_status-Makes _ _) (λ d' e'. proceed-Makes d' sts ds e')

    -- While the resource is being deleted, a reconciliation reads, updates the resource itself and its
    -- status, and deletes Cluster Roles, Cluster Role Bindings and the CSI Driver; it creates nothing.
    -- While it is not being deleted, a reconciliation deletes nothing.
    pub reconcile-Allowed : All (Allowed deleting) (reconcile api lib manifests req []).1
    unfolding reconcile
    reconcile-Allowed =
        (bind_with-Makes _ _ _
            (λ o. (d : BeegfsDriver) → o ≡ some d → d.deletion_timestamp ≡ deleting)
            (λ s o run d is. throughout.read s _ d (fetch-eq-some _ _ s o d run is))
            (fetch-Makes _ _ _ tt) (λ found h. found_driver found h)).keeps
          [] tt
      where
        found_driver :
            (found : Option BeegfsDriver)
            → ((d : BeegfsDriver) → found ≡ some d → d.deletion_timestamp ≡ deleting)
            → Makes
                (Allowed deleting)
                (elim found [ none ↦ pure tt | some d ↦ reconcile_driver api lib manifests req d ])
        found_driver none h = pure-Makes _ tt
        found_driver (some d) h = reconcile_driver-Makes d (h d refl)
