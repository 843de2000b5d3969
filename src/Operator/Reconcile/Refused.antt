-- ===== src/Operator/Reconcile/Refused.antt =====
-- A Role that differs from the manifest, where the server refuses what the markers do not grant.
use beegfs_csi_driver.Prelude.{
  ◌≢◌, ◌≡◌, refl, sym, ap, ◌∙◌, subst, Bool, true, false, Option, none, some, List, [], ◌∷◌, ◌++◌,
}
use beegfs_csi_driver.Prelude.Result.{Result, ok, err, pure, lift, continue, ◌>>=◌}
use beegfs_csi_driver.Operator.Objects.{
  BeegfsDriver, StatefulSet, DaemonSet, ObjectMeta, Rules, RbacObject, role, roles, beegfs_drivers,
  rbac,
}
use beegfs_csi_driver.Operator.Api.{
  Api, Machinery, Manifests, Request, Action, Call, History, ApiError, get, create, update, fetch,
  send, or_absent, update_status,
}
use beegfs_csi_driver.Operator.Pods.{set_common_object_metadata}
use beegfs_csi_driver.Operator.Ensure.{ensure_role, ensure_rbac_object, ensure_rbac}
use beegfs_csi_driver.Operator.Reconcile.Grants.{granted}
use beegfs_csi_driver.Operator.Reconcile.{push_status, deploy, proceed, reconcile_driver, reconcile}

-- The action never succeeds.
record Fails {A : Type 0} (m : Action A) : Type 0 where
  never : (s : History) (a : A) → (m s).0 ≡ ok a → ⊥

module _ {A B : Type 0} where
  later-Fails :
      (m : Action A) (f : A → Action B)
      → ((a : A) (s : History) → (m s).0 ≡ ok a → Fails (f a))
      → Fails (m >>= f)
  unfolding ◌>>=◌
  later-Fails m f h = record { never = λ s b. after (m s).0 (m s).1 (h' s) b }
    where
      h' : (s : History) (a : A) → (m s).0 ≡ ok a → Fails (f a)
      h' s a e = h a s e

      after :
          (r : Result ApiError A) (t : History)
          → ((a : A) → r ≡ ok a → Fails (f a))
          → (b : B) → (continue r f t).0 ≡ ok b
          → ⊥
      after (ok a) t q b e = (q a refl).never t b e
      after (err x) t q b e = absurd (cc)

  first-Fails : (m : Action A) (f : A → Action B) → Fails m → Fails (m >>= f)
  first-Fails m f q = later-Fails m f (λ a s e. absurd (q.never s a e))

some_of :
    {A : Type 0} (a : A) (r : Option A)
    → ◌≡◌ {A = Result ApiError (Option A)} (ok (some a)) (ok r)
    → r ≡ some a
some_of a r e = cc

abbrev timestamp : Option BeegfsDriver → Bool
timestamp none = true
timestamp (some d) = d.deletion_timestamp

module _ (api : Api) (lib : Machinery) (manifests : Manifests) (req : Request)
    (forbidden : ApiError)
    (refuses : (t : History) (c : Call) → granted c ≡ false → api.put t c ≡ err forbidden)
    (o old : Rules)
    (named : (d : BeegfsDriver) (meta : ObjectMeta)
      → set_common_object_metadata lib req d o.meta ≡ ok meta
      → meta.name ≡ o.meta.name)
    (found : (t : History) → api.get_rules t (get roles o.meta.name req.namespace) ≡ ok old)
    (differs : lib.same_rules o.rules old.rules ≡ false) where
  -- What ensuring the Role does with the one that it reads.
  abbrev brought : ObjectMeta → Option Rules → Action (Unit {0})
  brought meta none = send api.put (create (rbac (role (record o { meta = meta }))))
  brought meta (some there) = elim (lib.same_rules o.rules there.rules) [
    | true ↦ pure tt
    | false ↦ send api.put (update (rbac (role (record o { meta = meta }))))
  ]

  brought-Fails : (meta : ObjectMeta) (r : Option Rules) → r ≡ some old → Fails (brought meta r)
  unfolding send pure granted
  brought-Fails meta r e =
      subst (λ (x : Option Rules). Fails (brought meta x)) (sym e)
        (record { never = λ s a h. no (lib.same_rules o.rules old.rules) differs s a h })
    where
      no :
          (b : Bool)
          → b ≡ false
          → (s : History) (a : Unit {0})
          → ((elim b as (λ (_ : Bool). Action (Unit {0})) [
            | true ↦ pure tt
            | false ↦ send api.put (update (rbac (role (record o { meta = meta }))))
          ])
              s).0
            ≡ ok a
          → ⊥
      no true e s a h = absurd (cc)
      no false e s a h =
          absurd (cc (h, refuses s (update (rbac (role (record o { meta = meta })))) refl))

  ensure_role-Fails : (d : BeegfsDriver) → Fails (ensure_role api lib req d o)
  unfolding ensure_role fetch lift or_absent
  ensure_role-Fails d = later-Fails _ _ λ meta s owned. later-Fails _ _ λ r t read.
      brought-Fails meta r (
        some_of old r (
          sym (
            ap or_absent (
              ap (λ (name : _). api.get_rules t (get roles name req.namespace)) (named d meta owned)
              ∙ found t))
          ∙ read))

  ensure_rbac-Fails :
      (d : BeegfsDriver) (before behind : List RbacObject)
      → Fails (ensure_rbac api lib req d (before ++ role o ∷ behind))
  unfolding ensure_rbac ensure_rbac_object
  ensure_rbac-Fails d [] behind = first-Fails _ _ (ensure_role-Fails d)
  ensure_rbac-Fails d (b ∷ before) behind =
      later-Fails _ _ (λ u s e. ensure_rbac-Fails d before behind)

  deploy-Fails :
      (d : BeegfsDriver) (sts : Option StatefulSet) (ds : Option DaemonSet)
      (before behind : List RbacObject)
      → manifests.rbac_objects ≡ before ++ role o ∷ behind
      → Fails (deploy api lib manifests req d sts ds)
  unfolding deploy
  deploy-Fails d sts ds before behind among = later-Fails _ _ λ cm s e. later-Fails _ _ λ a s e.
      later-Fails _ _ λ b s e. first-Fails _ _ (
        subst (λ (os : List RbacObject). Fails (ensure_rbac api lib req d os)) (sym among)
          (ensure_rbac-Fails d before behind))

  module _
      (stored : (s : History) (c : Call) (d : BeegfsDriver)
        → api.put_driver s c ≡ ok d
        → d.deletion_timestamp ≡ false)
      (before behind : List RbacObject)
      (among : manifests.rbac_objects ≡ before ++ role o ∷ behind) where
    push_status-live :
        (d now d' : BeegfsDriver) (s : History)
        → now.deletion_timestamp ≡ false
        → (push_status api lib d.conditions now s).0 ≡ ok d'
        → d'.deletion_timestamp ≡ false
    unfolding push_status
    push_status-live d now d' s live e = choose (lib.same_status now.conditions d.conditions) e
      where
        choose :
            (b : Bool)
            → ((elim b as (λ (_ : Bool). Action BeegfsDriver) [
              | true ↦ pure now
              | false ↦ send api.put_driver (update_status now)
            ])
                s).0
              ≡ ok d'
            → d'.deletion_timestamp ≡ false
        choose true e = unfold pure in cc (e, live)
        choose false e = unfold send in stored s _ d' e

    proceed-Fails :
        (d : BeegfsDriver) (sts : Option StatefulSet) (ds : Option DaemonSet)
        → d.deletion_timestamp ≡ false
        → Fails (proceed api lib manifests req d sts ds)
    unfolding proceed
    proceed-Fails d sts ds live =
        rw live (later-Fails _ _ λ d' s e. deploy-Fails d' sts ds before behind among)

    reconcile_driver-Fails :
        (d : BeegfsDriver)
        → d.deletion_timestamp ≡ false
        → Fails (reconcile_driver api lib manifests req d)
    unfolding reconcile_driver
    reconcile_driver-Fails d live = later-Fails _ _ λ sts s e. later-Fails _ _ λ ds s e.
        later-Fails _ _ λ d' s e. proceed-Fails d' sts ds (push_status-live d _ d' s live e)

    -- Where the server refuses every call that the markers do not grant, and the cluster has a Role of
    -- the manifests with other rules, no reconciliation of a resource that is not being deleted
    -- succeeds, whatever the server answers otherwise. The server is assumed to keep the Role and not
    -- to mark the resource as deleted, and the owner reference to keep the Role's name.
    pub reconcile-refused :
        ((s : History)
          → (d : BeegfsDriver) × (api.get_driver s (get beegfs_drivers req.name req.namespace)
              ≡ ok d)
            × (d.deletion_timestamp ≡ false))
        → (reconcile api lib manifests req []).0 ≢ ok tt
    unfolding reconcile fetch or_absent
    reconcile-refused read = whole.never [] tt
      where
        known :
            (r : Option BeegfsDriver) (d : BeegfsDriver)
            → r ≡ some d
            → d.deletion_timestamp ≡ false
            → Fails (elim r as (λ (_ : Option BeegfsDriver). Action (Unit {0})) [
              | none ↦ pure tt
              | some d' ↦ reconcile_driver api lib manifests req d'
            ])
        known none d e live = absurd (cc)
        known (some d') d e live = reconcile_driver-Fails d' (ap timestamp e ∙ live)

        whole : Fails (reconcile api lib manifests req)
        whole = later-Fails _ _ λ r s e.
            let (d, is, live) = read s in known r d (some_of d r (sym (ap or_absent is) ∙ e)) live
