-- ===== src/Operator/Reconcile/Finalizer.antt =====
-- The order in which the finalizer deletes, and what it leaves when a deletion fails.
use beegfs_csi_driver.Prelude.{
  ◌≡◌, ◌≢◌, ap, refl, sym, subst, ◌∙◌, ◌⊎◌, inl, inr, true, List, [], ◌∷◌, ◌++◌, All, All-append,
  append_assoc,
}
use beegfs_csi_driver.Prelude.Result.{Result, ok, err, pure, continue, ◌>>=◌, ◌>>◌}
use beegfs_csi_driver.Operator.Objects.{
  BeegfsDriver, RbacObject, service_account, cluster_role, cluster_role_binding, role, role_binding,
  cluster_roles, cluster_role_bindings, csi_drivers, driver,
}
use beegfs_csi_driver.Operator.Api.{
  Api, Machinery, Manifests, Call, ApiError, History, Action, delete, update, remove, send, or_gone,
  not_found, api_failure, crash,
}
use beegfs_csi_driver.Operator.Reconcile.{
  delete_cluster_objects, finalize, contains_string, without_finalizer,
  finalizer_cluster_resource_deletion,
}

abbrev pub IsDeletion : Call → Type 0
IsDeletion (delete k name) = Unit
IsDeletion _ = ⊥

-- The deletions of the cluster-scoped objects among these, in their order.
abbrev pub cluster_deletions : List RbacObject → List Call
cluster_deletions [] = []
cluster_deletions (cluster_role o ∷ os) = delete cluster_roles o.meta.name ∷ cluster_deletions os
cluster_deletions (cluster_role_binding o ∷ os) =
    delete cluster_role_bindings o.meta.name ∷ cluster_deletions os
cluster_deletions (service_account o ∷ os) = cluster_deletions os
cluster_deletions (role o ∷ os) = cluster_deletions os
cluster_deletions (role_binding o ∷ os) = cluster_deletions os

-- The history after these calls.
abbrev pub after : List Call → History → History
after [] s = s
after (c ∷ cs) s = after cs (c ∷ s)

-- The object of a deletion is gone: it was deleted, or it was not found.
abbrev pub IsGone : Result ApiError (Unit {0}) → Type 0
IsGone r = (r ≡ ok tt) ⊎ (r ≡ err not_found)

-- Each of these deletions, made one after another, was answered so.
abbrev pub AllGone : Api → List Call → History → Type 0
AllGone api [] s = Unit
AllGone api (c ∷ cs) s = IsGone (api.put s c) × AllGone api cs (c ∷ s)

-- A run that fails has made deletions only, and ends with the error that the last of them was
-- answered with, which is another one than that the object was not found.
pub record Failed {A : Type 0} (api : Api) (s : History) (run : Result ApiError A × History)
    : Type 0 where
  pub error : ApiError
  pub fails : run.0 ≡ err error
  pub last_call : Call
  pub earlier : List Call
  pub made : run.1 ≡ last_call ∷ (earlier ++ s)
  pub deletions : IsDeletion last_call × All IsDeletion earlier
  pub answer : api.put (earlier ++ s) last_call ≡ err error
  pub other : error ≢ not_found

-- What `end` does after these deletions, if all of them were answered well, or a failure before it.
abbrev pub EndsWith :
    {A : Type 0} → Api → Action A → List Call → History → Result ApiError A × History → Type 0
EndsWith api end deletions s run =
    ((run ≡ end (after deletions s)) × AllGone api deletions s) ⊎ Failed api s run

sequel :
    {A B C : Type 0} (m : Action A) (f : A → Action B) (g : B → Action C) (s : History)
    → ((m >>= f) >>= g) s ≡ (m >>= λ a. f a >>= g) s
unfolding ◌>>=◌
sequel {A} {B} {C} m f g s = same (m s).0 (m s).1
  where
    same :
        (r : Result ApiError A) (t : History)
        → continue (continue r f t).0 g (continue r f t).1
          ≡ continue r (λ a u. continue (f a u).0 g (f a u).1) t
    same (ok a) t = refl
    same (err e) t = refl

module _ (api : Api) {A : Type 0} (end : Action A) where
  remove-EndsWith :
      (c : Call) (rest : Action A) (calls : List Call) (s : History)
      → IsDeletion c
      → EndsWith api end calls (c ∷ s) (rest (c ∷ s))
      → EndsWith api end (c ∷ calls) s ((remove api.put c >> rest) s)
  unfolding ◌>>=◌ remove or_gone
  remove-EndsWith c rest calls s d next = choose (api.put s c) refl
    where
      goes : IsGone (api.put s c) → EndsWith api end (c ∷ calls) s (rest (c ∷ s))
      goes gone = elim next [
        | inl (done, all_gone) ↦ inl (done, (gone, all_gone))
        | inr failure ↦ inr (record {
          error = failure.error;
          fails = failure.fails;
          last_call = failure.last_call;
          earlier = failure.earlier ++ (c ∷ []);
          made =
              failure.made
              ∙ ap (λ (u : History). failure.last_call ∷ u)
                  (sym (append_assoc failure.earlier (c ∷ []) s));
          deletions = (
            failure.deletions.0,
            All-append IsDeletion failure.earlier (c ∷ []) failure.deletions.1 (d, tt),
          );
          answer =
              ap (λ (u : History). api.put u failure.last_call)
                (append_assoc failure.earlier (c ∷ []) s)
              ∙ failure.answer;
          other = failure.other;
        })
      ]

      failed :
          (e : ApiError)
          → api.put s c ≡ err e
          → e ≢ not_found
          → EndsWith api end (c ∷ calls) s (err e, c ∷ s)
      failed e is other = inr (record {
        error = e;
        fails = refl;
        last_call = c;
        earlier = [];
        made = refl;
        deletions = (d, tt);
        answer = is;
        other = other;
      })

      choose :
          (r : Result ApiError (Unit {0}))
          → api.put s c ≡ r
          → EndsWith api end (c ∷ calls) s (continue (or_gone r) (λ _. rest) (c ∷ s))
      choose (ok a) is = goes (inl is)
      choose (err not_found) is = goes (inr is)
      choose (err (api_failure m)) is = failed (api_failure m) is (λ e. cc)
      choose (err (crash m)) is = failed (crash m) is (λ e. cc)

  module _ (lib : Machinery) (rest : Action A) (calls : List Call)
      (ends : (s : History) → EndsWith api end calls s (rest s)) where
    delete_cluster_objects-EndsWith :
        (os : List RbacObject) (s : History)
        → EndsWith api end
            (cluster_deletions os ++ calls)
            s
            ((delete_cluster_objects api lib os >> rest) s)
    unfolding delete_cluster_objects
    delete_cluster_objects-EndsWith [] s = unfold ◌>>=◌ pure in ends s
    delete_cluster_objects-EndsWith (cluster_role o ∷ os) s =
        subst (EndsWith api end (cluster_deletions (cluster_role o ∷ os) ++ calls) s)
          (sym (sequel _ _ _ s))
          (remove-EndsWith _ _ (cluster_deletions os ++ calls) s tt
            (delete_cluster_objects-EndsWith os _))
    delete_cluster_objects-EndsWith (cluster_role_binding o ∷ os) s =
        subst (EndsWith api end (cluster_deletions (cluster_role_binding o ∷ os) ++ calls) s)
          (sym (sequel _ _ _ s))
          (remove-EndsWith _ _ (cluster_deletions os ++ calls) s tt
            (delete_cluster_objects-EndsWith os _))
    delete_cluster_objects-EndsWith (service_account o ∷ os) s =
        delete_cluster_objects-EndsWith os s
    delete_cluster_objects-EndsWith (role o ∷ os) s = delete_cluster_objects-EndsWith os s
    delete_cluster_objects-EndsWith (role_binding o ∷ os) s = delete_cluster_objects-EndsWith os s

abbrev forget : {A : Type 0} → Result ApiError A → Result ApiError (Unit {0})
forget (ok a) = ok tt
forget (err e) = err e

module _ (api : Api) (lib : Machinery) (manifests : Manifests) (d : BeegfsDriver) where
  -- The deletions of the finalizer, in their order.
  abbrev pub finalizer_deletions : List Call
  finalizer_deletions =
      cluster_deletions manifests.rbac_objects
      ++ delete csi_drivers manifests.csi_driver_info.meta.name ∷ []

  -- The update that lets the resource go.
  abbrev pub let_go : Action (Unit {0})
  let_go s =
      let c = update (driver (without_finalizer api lib d)) in (forget (api.put_driver s c), c ∷ s)

  last :
      (s : History)
      → (send api.put_driver (update (driver (without_finalizer api lib d))) >>= λ stored. pure tt)
          (delete csi_drivers manifests.csi_driver_info.meta.name ∷ s)
        ≡ let_go (delete csi_drivers manifests.csi_driver_info.meta.name ∷ s)
  unfolding ◌>>=◌ send pure
  last s = answered (api.put_driver _ _) _
    where
      answered :
          (r : Result ApiError BeegfsDriver) (t : History)
          → continue r (λ stored u. (ok tt, u)) t ≡ (forget r, t)
      answered (ok stored) t = refl
      answered (err e) t = refl

  -- If the resource has the finalizer, either all Cluster Roles and Cluster Role Bindings of the
  -- manifests and then the CSI Driver are deleted, each deletion being answered with success or with
  -- NotFound, and the finalizer is removed as the last call, whose answer decides the result; or the
  -- last call is a deletion with another error, which is the result, and nothing but deletions has
  -- been called, so the finalizer stays.
  pub finalize-EndsWith :
      (s : History)
      → contains_string d.finalizers finalizer_cluster_resource_deletion ≡ true
      → EndsWith api let_go finalizer_deletions s (finalize api lib manifests d s)
  unfolding finalize
  finalize-EndsWith s has =
      rw (has, finalize)
        (delete_cluster_objects-EndsWith api let_go lib _ _
          (λ t. remove-EndsWith api let_go _ _ [] t tt (inl (last t, tt))) manifests.rbac_objects s)
