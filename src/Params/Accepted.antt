-- ===== src/Params/Accepted.antt =====
-- What the parameters of a CreateVolume request are where validateReqParams accepts them.
use beegfs_csi_driver.Prelude.{
  String, ◌≡◌, refl, sym, ap, ◌∙◌, subst, Bool, true, false, Option, none, some, [], ◌∷◌, arith,
  ◌==◌, eq_iff, member, if◌then◌else◌,
}
use beegfs_csi_driver.Prelude.Dict.{Dict, lookup, erase}
use beegfs_csi_driver.Prelude.Result.{Result, ok, err}
use beegfs_csi_driver.Prelude.Fallible.{>>=-eq-ok}
use beegfs_csi_driver.Errors.{Cause, failure}
use beegfs_csi_driver.Params.{
  ReqParameters, value_of, stripe_param, permissions_param, get_stripe_pattern_config_from_params,
  get_permissions_config_from_params, optional_params, validate_req_params, sys_mgmtd_host_key,
  vol_dir_base_path_key,
}
use beegfs_csi_driver.Params.Lookup.{
  known_keys, for_keys-ok, InRange, permissions_param-InRange, lookup-erase_unknown,
  permissions_param-lookup, stripe_param-lookup,
}

-- What an accepted request's parameters are.
pub record IsAccepted (params : Dict String) (r : ReqParameters) : Type 0 where
  pub host : r.sys_mgmtd_host ≡ value_of sys_mgmtd_host_key params
  pub host_given : (r.sys_mgmtd_host == "") ≡ false
  pub known : (j : String) → (if member j known_keys then none else lookup j params) ≡ none
  pub range : InRange r.permissions

finished :
    (p : ReqParameters) (left left' : Dict String) (r : ReqParameters)
    → ◌≡◌ {A = Result Cause (ReqParameters × Dict String)}
        (elim left' [
          | [] ↦ ok (p, [])
          | extra ∷ more ↦ err (failure "CreateVolume parameter invalid")
        ])
        (ok (r, left))
    → (p ≡ r) × (left ≡ []) × (left' ≡ [])
finished p left [] r e = (cc, cc, refl)
finished p left (x ∷ xs) r e = cc

start_range : InRange (record { uid = 0; gid = 0; mode = 0o0777 })
start_range = record { uid = omega arith; gid = omega arith; mode = omega arith }

optional_params-ok :
    (host base : String) (params : Dict String) (r : ReqParameters) (left : Dict String)
    → optional_params host base params ≡ ok (r, left)
    → (r.sys_mgmtd_host ≡ host)
      × (left ≡ [])
      × InRange r.permissions
      × ((j : String) → member j known_keys ≡ false → lookup j params ≡ none)
unfolding optional_params get_permissions_config_from_params get_stripe_pattern_config_from_params
    lookup
optional_params-ok host base params r left e =
    let ((stripe, params'), e1, rest) =
      >>=-eq-ok (get_stripe_pattern_config_from_params params) _ e in
    let ((permissions, left'), e2, e3) =
      >>=-eq-ok (get_permissions_config_from_params params') _ rest in
    let (is_r, nothing, empty) = finished _ left left' r e3 in
    (
      sym (ap (λ (p : ReqParameters). p.sys_mgmtd_host) is_r),
      nothing,
      subst InRange (ap (λ (p : ReqParameters). p.permissions) is_r) (
          for_keys-ok (λ a. InRange a.0) permissions_param permissions_param-InRange params' _ _
            start_range e2),
      λ j unknown.
          sym (
            for_keys-ok (λ a. lookup j a.1 ≡ lookup j params) stripe_param
              (λ k a b same h. stripe_param-lookup j k a b unknown h ∙ same) params _ _ refl e1)
          ∙ sym (
              for_keys-ok (λ a. lookup j a.1 ≡ lookup j params') permissions_param
                (λ k a b same h. permissions_param-lookup j k a b unknown h ∙ same) params' _ _ refl
                e2)
          ∙ ap (lookup j) empty,
    )

lookup-without_required :
    (params : Dict String) (j : String)
    → member j known_keys ≡ false
    → lookup j (erase vol_dir_base_path_key (erase sys_mgmtd_host_key params)) ≡ lookup j params
unfolding member
lookup-without_required params j h =
    lookup-erase_unknown vol_dir_base_path_key j _
      (ground (arith, eq_iff vol_dir_base_path_key j, eq_iff j vol_dir_base_path_key))
    ∙ lookup-erase_unknown sys_mgmtd_host_key j params
        (ground (arith, eq_iff sys_mgmtd_host_key j, eq_iff j sys_mgmtd_host_key))

required :
    (params params' : Dict String) (r : ReqParameters) (left : Dict String) (given : Bool)
    → ((value_of sys_mgmtd_host_key params) == "") ≡ given
    → (base : Option String)
    → ◌≡◌ {A = Result Cause (ReqParameters × Dict String)}
        (if given then err (failure "sysMgmtdHost not provided") else elim base [
          | none ↦ err (failure "volDirBasePath not provided")
          | some base_path ↦ optional_params (value_of sys_mgmtd_host_key params) base_path params'
        ])
        (ok (r, left))
    → ((j : String) → member j known_keys ≡ false → lookup j params' ≡ lookup j params)
    → IsAccepted params r × (left ≡ [])
required params params' r left true g base e same = cc
required params params' r left false g none e same = cc
required params params' r left false g (some base_path) e same =
    let (is_host, nothing, range, unknown) =
      optional_params-ok (value_of sys_mgmtd_host_key params) base_path params' r left e in
    (
      record {
        host = is_host;
        host_given = rw is_host g;
        known = λ j. others unknown j (member j known_keys) refl;
        range = range;
      },
      nothing,
    )
  where
    others :
        ((j : String) → member j known_keys ≡ false → lookup j params' ≡ none)
        → (j : String) (b : Bool) → member j known_keys ≡ b
        → (if b then none else lookup j params) ≡ none
    others unknown j true u = refl
    others unknown j false u = sym (same j u) ∙ unknown j u

-- A request whose parameters are accepted names its management host; it has no parameter but those
-- that the driver knows; the user and group numbers have 32 bits and the access mode 12; and nothing
-- is left of the map that the parameters were taken out of.
pub validate_req_params-IsAccepted :
    (params : Dict String) (r : ReqParameters) (left : Dict String)
    → validate_req_params params ≡ ok (r, left)
    → IsAccepted params r × (left ≡ [])
unfolding validate_req_params
validate_req_params-IsAccepted params r left e =
    required params _ r left _ refl _ e (lookup-without_required params)
