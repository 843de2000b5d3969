-- ===== src/Operator/Ensure/Permissions.antt =====
-- The calls by which the reconciler brings objects onto the cluster.
use beegfs_csi_driver.Prelude.{String, Bool, true, false, Option, none, some, List, [], ◌∷◌}
use beegfs_csi_driver.Prelude.Result.{Result, pure, ◌>>=◌}
use beegfs_csi_driver.Operator.Objects.{
  Object, Kind, RbacObject, BeegfsDriver, CsiDriver, StatefulSet, DaemonSet, ConfigMap, Secret,
  service_account, cluster_role, cluster_role_binding, role, role_binding, secret, rbac, csi_driver,
}
use beegfs_csi_driver.Operator.Api.{
  Api, Machinery, Request, Action, ApiError, History, Call, get, create, update, fetch, send,
}
use beegfs_csi_driver.Operator.Calls.{
  Makes, pure-Makes, fail-Makes, lift-Makes, fetch-Makes, send-Makes, bind-Makes, option-Makes,
  bool-Makes,
}
use beegfs_csi_driver.Operator.Ensure.{
  ensure_config_map, ensure_secret, ensure_rbac_object, ensure_rbac, ensure_csi_driver, not_created,
  roll_out_controller, roll_out_node,
}

-- The objects that the reconciler ever updates.
abbrev pub IsUpdated : Object → Type 0
IsUpdated (secret o) = ⊥
IsUpdated (csi_driver o) = ⊥
IsUpdated (rbac (service_account o)) = ⊥
IsUpdated (rbac _) = Unit
IsUpdated _ = Unit

-- What a predicate on calls has to allow.
pub record Allows (P : Call → Type 0) : Type 0 where
  pub gets : (k : Kind) (name namespace : String) → P (get k name namespace)
  pub creates : (o : Object) → P (create o)
  pub updates : (o : Object) → IsUpdated o → P (update o)

module _ (P : Call → Type 0) (allows : Allows P) {B : Type 0} where
  keep_or_update-Makes :
      (same : Bool) (a : B) (reply : History → Call → Result ApiError B) (o : Object)
      → IsUpdated o
      → Makes P (elim same [ true ↦ pure a | false ↦ send reply (update o) ])
  keep_or_update-Makes same a reply o u =
      bool-Makes P same _ _ (pure-Makes P a) (send-Makes P reply _ (allows.updates o u))

  fetched-Makes :
      {A : Type 0} (read : History → Call → Result ApiError A) (k : Kind) (name namespace : String)
      (reply : History → Call → Result ApiError B) (o : Object) (f : A → Action B)
      → ((a : A) → Makes P (f a))
      → Makes P (
          fetch read (get k name namespace) >>= λ found. elim found [
            | none ↦ send reply (create o)
            | some a ↦ f a
          ])
  fetched-Makes read k name namespace reply o f qf =
      bind-Makes P _ _ (fetch-Makes P read _ (allows.gets k name namespace))
        λ found. option-Makes P found _ f (send-Makes P reply _ (allows.creates o)) qf

module _ (P : Call → Type 0) (allows : Allows P) (api : Api) (lib : Machinery) (req : Request)
    (d : BeegfsDriver) where
  pub ensure_config_map-Makes : Makes P (ensure_config_map api lib req d)
  unfolding ensure_config_map
  ensure_config_map-Makes = bind-Makes P _ _ (lift-Makes P _) λ fresh.
      bind-Makes P _ _ (lift-Makes P _) λ meta.
        fetched-Makes P allows _ _ _ _ _ _ _ λ old. keep_or_update-Makes P allows _ old _ _ tt

  pub ensure_secret-Makes : (fresh : Secret) → Makes P (ensure_secret api lib req d fresh)
  unfolding ensure_secret
  ensure_secret-Makes fresh =
      bind-Makes P _ _ (lift-Makes P _)
        λ meta. fetched-Makes P allows _ _ _ _ _ _ _ λ old. pure-Makes P old

  ensure_rbac_object-Makes : (o : RbacObject) → Makes P (ensure_rbac_object api lib req d o)
  unfolding ensure_rbac_object
  ensure_rbac_object-Makes (service_account o) =
      bind-Makes P _ _ (lift-Makes P _)
        λ meta. fetched-Makes P allows _ _ _ _ _ _ _ λ old. pure-Makes P tt
  ensure_rbac_object-Makes (cluster_role o) =
      fetched-Makes P allows _ _ _ _ _ _ _ λ old. keep_or_update-Makes P allows _ tt _ _ tt
  ensure_rbac_object-Makes (cluster_role_binding o) =
      fetched-Makes P allows _ _ _ _ _ _ _ λ old. keep_or_update-Makes P allows _ tt _ _ tt
  ensure_rbac_object-Makes (role o) =
      bind-Makes P _ _ (lift-Makes P _) λ meta.
        fetched-Makes P allows _ _ _ _ _ _ _ λ old. keep_or_update-Makes P allows _ tt _ _ tt
  ensure_rbac_object-Makes (role_binding o) =
      bind-Makes P _ _ (lift-Makes P _) λ meta.
        fetched-Makes P allows _ _ _ _ _ _ _ λ old. keep_or_update-Makes P allows _ tt _ _ tt

  pub ensure_rbac-Makes : (os : List RbacObject) → Makes P (ensure_rbac api lib req d os)
  unfolding ensure_rbac
  ensure_rbac-Makes [] = pure-Makes P tt
  ensure_rbac-Makes (o ∷ os) =
      bind-Makes P _ _ (ensure_rbac_object-Makes o) (λ _. ensure_rbac-Makes os)

  pub ensure_csi_driver-Makes : (o : CsiDriver) → Makes P (ensure_csi_driver api lib req d o)
  unfolding ensure_csi_driver
  ensure_csi_driver-Makes o = fetched-Makes P allows _ _ _ _ _ _ _ λ old. pure-Makes P tt

  not_created-Makes : (type : String) → Makes P (not_created api lib req d type)
  unfolding not_created
  not_created-Makes type = option-Makes P _ _ _ (fail-Makes P _) (λ c. pure-Makes P _)

  pub roll_out_controller-Makes :
      (cm : ConfigMap) (s t : Secret) (clean : StatefulSet) (found : Option StatefulSet)
      → Makes P (roll_out_controller api lib req d cm s t clean found)
  unfolding roll_out_controller
  roll_out_controller-Makes cm s t clean found = bind-Makes P _ _ (lift-Makes P _) λ sts.
      bind-Makes P _ _ (not_created-Makes _) λ absent.
        bool-Makes P absent _ _ (send-Makes P _ _ (allows.creates _))
          (keep_or_update-Makes P allows _ tt _ _ tt)

  pub roll_out_node-Makes :
      (cm : ConfigMap) (s t : Secret) (clean : DaemonSet) (found : Option DaemonSet)
      → Makes P (roll_out_node api lib req d cm s t clean found)
  unfolding roll_out_node
  roll_out_node-Makes cm s t clean found = bind-Makes P _ _ (lift-Makes P _) λ ds.
      bind-Makes P _ _ (not_created-Makes _) λ absent.
        bool-Makes P absent _ _ (send-Makes P _ _ (allows.creates _))
          (keep_or_update-Makes P allows _ tt _ _ tt)
