-- ===== src/Operator/Ensure.antt =====
-- How Reconcile brings each object onto the cluster: it reads what is there, creates what is missing
-- and updates what differs (operator/controllers/beegfsdriver_controller.go).
pub mod Permissions
use beegfs_csi_driver.Prelude.{
  String, Bool, true, false, Option, none, some, List, [], ◌∷◌, map, ◌&&◌, ◌==◌,
}
use beegfs_csi_driver.Prelude.Result.{
  Result, ok, err, Exec, pure, fail, lift, continue, ◌>>=◌, ◌>>◌,
}
use beegfs_csi_driver.Operator.Objects.{
  ObjectMeta, Condition, BeegfsDriver, ConfigMap, Secret, ServiceAccount, Rules, Subject, Binding,
  CsiDriver, Affinity, PodTemplate, WorkloadSpec, StatefulSet, DaemonSet, RbacObject,
  service_account, cluster_role, cluster_role_binding, role, role_binding, config_maps, secrets,
  service_accounts, cluster_roles, cluster_role_bindings, roles, role_bindings, csi_drivers,
  config_map, secret, rbac, csi_driver, stateful_set, daemon_set,
}
use beegfs_csi_driver.Operator.Api.{
  Api, Machinery, Manifests, Request, Action, crash, get, create, update, fetch, send,
}
use beegfs_csi_driver.Operator.Pods.{
  new_config_map, set_common_object_metadata, desired_stateful_set, desired_daemon_set,
  spec_of_stateful_set, spec_of_daemon_set,
}
use beegfs_csi_driver.Operator.Status.{
  condition_controller_service_ready, condition_node_service_ready, reason_service_not_created,
}

-- object.Subjects[j].Namespace = req.Namespace
abbrev pub bind_namespace : Request → Binding → Binding
bind_namespace req b = record b {
  subjects = map (λ (s : Subject). record s { namespace = req.namespace }) b.subjects;
}

module _ (api : Api) (lib : Machinery) (req : Request) (driver : BeegfsDriver) where
  abbrev owned : ObjectMeta → Action ObjectMeta
  owned meta = lift (set_common_object_metadata lib req driver meta)

  unfoldable pub ensure_config_map : Action ConfigMap
  unfolding new_config_map set_common_object_metadata
  ensure_config_map = do
    fresh ← lift (new_config_map lib driver)
    meta ← owned fresh.meta
    found ← fetch api.get_config_map (get config_maps meta.name req.namespace)
    elim found [
      | none ↦ send api.put_config_map (create (config_map (record fresh { meta = meta })))
      | some old ↦ elim (lib.same_contents fresh.contents old.contents) [
        | true ↦ pure old
        | false ↦ send api.put_config_map (update (config_map (record fresh { meta = meta })))
      ]
    ]

  -- Both secrets: a missing one is created, and one that is there is left alone.
  unfoldable pub ensure_secret : Secret → Action Secret
  unfolding set_common_object_metadata
  ensure_secret fresh = do
    meta ← owned fresh.meta
    found ← fetch api.get_secret (get secrets meta.name req.namespace)
    elim found [
      | none ↦ send api.put_secret (create (secret (record fresh { meta = meta })))
      | some old ↦ pure old
    ]

  unfoldable pub ensure_service_account : ServiceAccount → Action (Unit {0})
  unfolding set_common_object_metadata
  ensure_service_account o = do
    meta ← owned o.meta
    found ← fetch api.get_service_account (get service_accounts meta.name req.namespace)
    elim found [
      | none ↦ send api.put (create (rbac (service_account (record o { meta = meta }))))
      | some old ↦ pure tt
    ]

  unfoldable pub ensure_cluster_role : Rules → Action (Unit {0})
  ensure_cluster_role o = do
    found ← fetch api.get_rules (get cluster_roles o.meta.name "")
    elim found [
      | none ↦ send api.put (create (rbac (cluster_role o)))
      | some old ↦ elim (lib.same_rules o.rules old.rules) [
        | true ↦ pure tt
        | false ↦ send api.put (update (rbac (cluster_role o)))
      ]
    ]

  abbrev pub same_binding : Binding → Binding → Bool
  same_binding o old =
      lib.same_subjects o.subjects old.subjects && lib.same_role_ref o.role_ref old.role_ref

  unfoldable pub ensure_cluster_role_binding : Binding → Action (Unit {0})
  ensure_cluster_role_binding b = do
    let o = bind_namespace req b
    found ← fetch api.get_binding (get cluster_role_bindings o.meta.name "")
    elim found [
      | none ↦ send api.put (create (rbac (cluster_role_binding o)))
      | some old ↦ elim (same_binding o old) [
        | true ↦ pure tt
        | false ↦ send api.put (update (rbac (cluster_role_binding o)))
      ]
    ]

  unfoldable pub ensure_role : Rules → Action (Unit {0})
  unfolding set_common_object_metadata
  ensure_role o = do
    meta ← owned o.meta
    found ← fetch api.get_rules (get roles meta.name req.namespace)
    elim found [
      | none ↦ send api.put (create (rbac (role (record o { meta = meta }))))
      | some old ↦ elim (lib.same_rules o.rules old.rules) [
        | true ↦ pure tt
        | false ↦ send api.put (update (rbac (role (record o { meta = meta }))))
      ]
    ]

  unfoldable pub ensure_role_binding : Binding → Action (Unit {0})
  unfolding set_common_object_metadata
  ensure_role_binding b = do
    meta ← owned b.meta
    let o = bind_namespace req (record b { meta = meta })
    found ← fetch api.get_binding (get role_bindings o.meta.name req.namespace)
    elim found [
      | none ↦ send api.put (create (rbac (role_binding o)))
      | some old ↦ elim (same_binding o old) [
        | true ↦ pure tt
        | false ↦ send api.put (update (rbac (role_binding o)))
      ]
    ]

  -- The switch on the type of an object.
  unfoldable pub ensure_rbac_object : RbacObject → Action (Unit {0})
  unfolding ensure_service_account ensure_cluster_role ensure_cluster_role_binding ensure_role
      ensure_role_binding
  ensure_rbac_object (service_account o) = ensure_service_account o
  ensure_rbac_object (cluster_role o) = ensure_cluster_role o
  ensure_rbac_object (cluster_role_binding o) = ensure_cluster_role_binding o
  ensure_rbac_object (role o) = ensure_role o
  ensure_rbac_object (role_binding o) = ensure_role_binding o

  unfoldable pub ensure_rbac : List RbacObject → Action (Unit {0})
  unfolding ensure_rbac_object
  ensure_rbac [] = pure tt
  ensure_rbac (o ∷ os) = ensure_rbac_object o >> ensure_rbac os

  unfoldable pub ensure_csi_driver : CsiDriver → Action (Unit {0})
  ensure_csi_driver o = do
    found ← fetch api.get_csi_driver (get csi_drivers o.meta.name "")
    elim found [ none ↦ send api.put (create (csi_driver o)) | some old ↦ pure tt ]

  -- meta.FindStatusCondition(...).Reason == ReasonServiceNotCreated, with a nil pointer if there is no
  -- such condition
  unfoldable pub not_created : String → Action Bool
  not_created type = elim (lib.find_status_condition driver.conditions type) [
    | none ↦ fail (crash "invalid memory address or nil pointer dereference")
    | some condition ↦ pure (condition.reason == reason_service_not_created)
  ]

  unfoldable pub roll_out_controller :
      ConfigMap → Secret → Secret → StatefulSet → Option StatefulSet → Action (Unit {0})
  unfolding desired_stateful_set not_created
  roll_out_controller cm s t clean found = do
    sts ← lift (desired_stateful_set lib req driver cm s t clean)
    absent ← not_created condition_controller_service_ready
    elim absent [
      | true ↦ send api.put (create (stateful_set sts))
      | false ↦ elim (lib.is_derivative sts.spec (spec_of_stateful_set found)) [
        | true ↦ pure tt
        | false ↦ send api.put (update (stateful_set sts))
      ]
    ]

  unfoldable pub roll_out_node :
      ConfigMap → Secret → Secret → DaemonSet → Option DaemonSet → Action (Unit {0})
  unfolding desired_daemon_set not_created
  roll_out_node cm s t clean found = do
    ds ← lift (desired_daemon_set lib req driver cm s t clean)
    absent ← not_created condition_node_service_ready
    elim absent [
      | true ↦ send api.put (create (daemon_set ds))
      | false ↦ elim (lib.is_derivative ds.spec (spec_of_daemon_set found)) [
        | true ↦ pure tt
        | false ↦ send api.put (update (daemon_set ds))
      ]
    ]
