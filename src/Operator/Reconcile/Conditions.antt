-- ===== src/Operator/Reconcile/Conditions.antt =====
-- The status conditions, and how the rollout of the two services reads them.
use beegfs_csi_driver.Prelude.{
  String, ◌≡◌, ◌≢◌, ◌≤◌, ◌↔◌, refl, sym, subst, ap, ◌∷◌, ◌∙◌, inl, inr, Bool, true, false, Option,
  none, some, List, Bool-cases, ltb, ◌==◌, eq_iff, arith,
}
use beegfs_csi_driver.Prelude.Result.{Result, ok, pure, lift, continue, ◌>>=◌}
use beegfs_csi_driver.Operator.Objects.{
  Condition, BeegfsDriver, StatefulSet, DaemonSet, ConfigMap, Secret, Object, stateful_set,
  daemon_set,
}
use beegfs_csi_driver.Operator.Api.{
  Api, Machinery, Manifests, Request, History, Call, Action, ApiError, create, update, send,
}
use beegfs_csi_driver.Operator.Pods.{
  desired_stateful_set, desired_daemon_set, spec_of_stateful_set, spec_of_daemon_set,
}
use beegfs_csi_driver.Operator.Status.{
  controller_condition, node_condition, condition_controller_service_ready,
  condition_node_service_ready, reason_service_not_created,
}
use beegfs_csi_driver.Operator.Ensure.{not_created, roll_out_controller, roll_out_node}
use beegfs_csi_driver.Operator.Reconcile.{observed}

-- What meta.SetStatusCondition and meta.FindStatusCondition are documented to do.
pub record ConditionLaws (lib : Machinery) : Type 0 where
  pub find-set :
      (cs : List Condition) (c : Condition)
      → lib.find_status_condition (lib.set_status_condition cs c) c.type ≡ some c
  pub find-set_other :
      (cs : List Condition) (c : Condition) (type : String)
      → type ≢ c.type
      → lib.find_status_condition (lib.set_status_condition cs c) type
        ≡ lib.find_status_condition cs type

abbrev pub is_none {ℓ} : {A : Type ℓ} → Option A → Bool
is_none none = true
is_none (some a) = false

controller_ready :
    (sts : Option StatefulSet)
    → (controller_condition sts).status ≡ true
      ↔ ((w : StatefulSet) × (sts ≡ some w) × (1 ≤ w.replicas) × (1 ≤ w.ready_replicas))
unfolding controller_condition
controller_ready none = (λ h. absurd (ground arith), λ h. absurd (ground (arith, h.1)))
controller_ready (some w) =
    (λ h. (w, refl, ground arith, ground arith), λ (x, e, p, q). ground arith)

node_ready :
    (ds : Option DaemonSet)
    → (node_condition ds).status ≡ true ↔ (
        (w : DaemonSet) × (ds ≡ some w)
        × (1 ≤ w.desired_number_scheduled)
        × (w.desired_number_scheduled ≤ w.number_ready))
unfolding node_condition
node_ready none = (λ h. absurd (ground arith), λ h. absurd (ground (arith, h.1)))
node_ready (some w) = (λ h. (w, refl, ground arith, ground arith), λ (x, e, p, q). ground arith)

controller_absent :
    (sts : Option StatefulSet)
    → ((controller_condition sts).reason == reason_service_not_created) ≡ is_none sts
unfolding controller_condition
controller_absent none = refl
controller_absent (some w) = elim (Bool-cases (ltb w.replicas 1)) [
  | inl unscheduled ↦ rw (unscheduled, controller_condition) refl
  | inr scheduled ↦ elim (Bool-cases (ltb w.ready_replicas 1)) [
    | inl few ↦ rw (scheduled, few, controller_condition) refl
    | inr all ↦ rw (scheduled, all, controller_condition) refl
  ]
]

node_absent :
    (ds : Option DaemonSet)
    → ((node_condition ds).reason == reason_service_not_created) ≡ is_none ds
unfolding node_condition
node_absent none = refl
node_absent (some w) = elim (Bool-cases (ltb w.desired_number_scheduled 1)) [
  | inl unscheduled ↦ rw (unscheduled, node_condition) refl
  | inr scheduled ↦ elim (Bool-cases (ltb w.number_ready w.desired_number_scheduled)) [
    | inl few ↦ rw (scheduled, few, node_condition) refl
    | inr all ↦ rw (scheduled, all, node_condition) refl
  ]
]

-- A service is reported ready exactly if its workload is on the cluster and has its pods: for the
-- controller service at least one scheduled and at least one ready; for the node service at least
-- one scheduled and as many ready as are scheduled. The reason is ServiceNotCreated exactly if the
-- workload is not there.
pub conditions_lem :
    (sts : Option StatefulSet) (ds : Option DaemonSet)
    → ((controller_condition sts).status ≡ true
        ↔ ((w : StatefulSet) × (sts ≡ some w) × (1 ≤ w.replicas) × (1 ≤ w.ready_replicas)))
      × ((node_condition ds).status ≡ true ↔ (
          (w : DaemonSet) × (ds ≡ some w)
          × (1 ≤ w.desired_number_scheduled)
          × (w.desired_number_scheduled ≤ w.number_ready)))
      × (((controller_condition sts).reason == reason_service_not_created) ≡ is_none sts)
      × (((node_condition ds).reason == reason_service_not_created) ≡ is_none ds)
conditions_lem sts ds = (controller_ready sts, node_ready ds, controller_absent sts, node_absent ds)

controller_type :
    (sts : Option StatefulSet)
    → (controller_condition sts).type ≡ condition_controller_service_ready
unfolding controller_condition
controller_type none = refl
controller_type (some w) = ground arith

node_type : (ds : Option DaemonSet) → (node_condition ds).type ≡ condition_node_service_ready
unfolding node_condition
node_type none = refl
node_type (some w) = ground arith

services_differ : condition_controller_service_ready ≢ condition_node_service_ready
services_differ =
    ground (arith, eq_iff condition_controller_service_ready condition_node_service_ready)

module _ (api : Api) (lib : Machinery) (manifests : Manifests) (req : Request)
    (laws : ConditionLaws lib) (d stored : BeegfsDriver) (sts : Option StatefulSet)
    (ds : Option DaemonSet) where
  found_not_created :
      (type : String) (c : Condition) (s : History)
      → lib.find_status_condition stored.conditions type ≡ some c
      → not_created api lib req stored type s ≡ (ok (c.reason == reason_service_not_created), s)
  unfolding not_created pure
  found_not_created type c s found = rw (found, not_created) refl

  -- Where the stored resource has the conditions that were observed, a service counts as not created
  -- exactly if its workload was not found.
  not_created-observed :
      stored.conditions ≡ (observed api lib manifests req d sts ds).conditions
      → (s : History)
      → (not_created api lib req stored condition_controller_service_ready s
          ≡ (ok (is_none sts), s))
        × (not_created api lib req stored condition_node_service_ready s ≡ (ok (is_none ds), s))
  not_created-observed same s = (
    found_not_created _ (controller_condition sts) s (
          ap (λ cs. lib.find_status_condition cs condition_controller_service_ready) same
          ∙ laws.find-set_other _ _ _ (λ e. services_differ (e ∙ node_type ds))
          ∙ subst
              (λ t.
                lib.find_status_condition
                  (lib.set_status_condition d.conditions (controller_condition sts)) t
                ≡ some (controller_condition sts))
              (controller_type sts) (laws.find-set _ _))
        ∙ ap (λ b. (ok b, s)) (controller_absent sts),
    found_not_created _ (node_condition ds) s (
          ap (λ cs. lib.find_status_condition cs condition_node_service_ready) same
          ∙ subst
              (λ t.
                lib.find_status_condition
                  (lib.set_status_condition
                    (lib.set_status_condition d.conditions (controller_condition sts))
                    (node_condition ds))
                  t
                ≡ some (node_condition ds))
              (node_type ds) (laws.find-set _ _))
        ∙ ap (λ b. (ok b, s)) (node_absent ds),
  )

-- What a rollout does with the workload that is wanted: a missing one is created, and one that is
-- there is updated, or left alone where it has what is wanted.
pub data RollsOut {W : Type 0} (reply : History → Call → Result ApiError (Unit {0}))
    (wanted : Object) (has : W → Bool) (s : History)
    : Option W → Result ApiError (Unit {0}) × History → Type 0 where
  creates : RollsOut reply wanted has s none (reply s (create wanted), create wanted ∷ s)
  updates :
      (w : W)
      → has w ≡ false
      → RollsOut reply wanted has s (some w) (reply s (update wanted), update wanted ∷ s)
  keeps : (w : W) → has w ≡ true → RollsOut reply wanted has s (some w) (ok tt, s)

roll :
    {W : Type 0} (reply : History → Call → Result ApiError (Unit {0})) (wanted : Object)
    (has : W → Bool) (kept : Bool) (found : Option W) (s : History)
    → ((w : W) → found ≡ some w → kept ≡ has w)
    → RollsOut reply wanted has s found (
        (elim (is_none found) as (λ (_ : Bool). Action (Unit {0})) [
          | true ↦ send reply (create wanted)
          | false ↦ elim kept [ true ↦ pure tt | false ↦ send reply (update wanted) ]
        ])
          s)
unfolding send pure
roll reply wanted has kept none s same = creates
roll reply wanted has true (some w) s same = keeps w (sym (same w refl))
roll reply wanted has false (some w) s same = updates w (sym (same w refl))

lift-eq :
    {A : Type 0} (r : Result ApiError A) (a : A) (s : History) → r ≡ ok a → lift r s ≡ (ok a, s)
unfolding lift
lift-eq r a s e = ap (λ (x : Result ApiError _). (x, s)) e

bind-eq :
    {A B : Type 0} (m : Action A) (f : A → Action B) (a : A) (s : History)
    → m s ≡ (ok a, s)
    → (m >>= f) s ≡ f a s
unfolding ◌>>=◌
bind-eq m f a s e = ap (λ (r : Result ApiError _ × History). continue r.0 f r.1) e

module _ (api : Api) (lib : Machinery) (manifests : Manifests) (req : Request)
    (laws : ConditionLaws lib) (d stored : BeegfsDriver) (sts : Option StatefulSet)
    (ds : Option DaemonSet) (cm : ConfigMap) (auth tls : Secret) where
  -- Where the stored resource has the conditions that were observed, and the wanted workloads can be
  -- computed, the rollout of each service reads no nil pointer, creates its workload exactly if none
  -- was found, and updates one that was found exactly if it lacks what is wanted.
  pub roll_outs-RollsOut :
      (wanted : StatefulSet) (wanted' : DaemonSet) (s : History)
      → stored.conditions ≡ (observed api lib manifests req d sts ds).conditions
      → desired_stateful_set lib req stored cm auth tls manifests.controller_service ≡ ok wanted
      → desired_daemon_set lib req stored cm auth tls manifests.node_service ≡ ok wanted'
      → RollsOut api.put
          (stateful_set wanted)
          (λ (w : StatefulSet). lib.is_derivative wanted.spec w.spec)
          s
          sts
          (roll_out_controller api lib req stored cm auth tls manifests.controller_service sts s)
        × RollsOut api.put
            (daemon_set wanted')
            (λ (w : DaemonSet). lib.is_derivative wanted'.spec w.spec)
            s
            ds
            (roll_out_node api lib req stored cm auth tls manifests.node_service ds s)
  unfolding roll_out_controller roll_out_node
  roll_outs-RollsOut wanted wanted' s same made made' =
      let (absent, absent') =
        not_created-observed api lib manifests req laws d stored sts ds same s in
      (
        subst (RollsOut api.put (stateful_set wanted) _ s sts)
            (sym (
              bind-eq (lift _) _ wanted s (lift-eq _ wanted s made)
              ∙ bind-eq _ _ (is_none sts) s absent))
            (roll api.put _ _ (lib.is_derivative wanted.spec (spec_of_stateful_set sts)) sts s
              (λ w e. ap (λ o. lib.is_derivative wanted.spec (spec_of_stateful_set o)) e)),
        subst (RollsOut api.put (daemon_set wanted') _ s ds)
            (sym (
              bind-eq (lift _) _ wanted' s (lift-eq _ wanted' s made')
              ∙ bind-eq _ _ (is_none ds) s absent'))
            (roll api.put _ _ (lib.is_derivative wanted'.spec (spec_of_daemon_set ds)) ds s
              (λ w e. ap (λ o. lib.is_derivative wanted'.spec (spec_of_daemon_set o)) e)),
      )
