-- ===== src/Controller/Confirm.antt =====
-- ValidateVolumeCapabilities: its state, and what it confirms.
use beegfs_csi_driver.Prelude.{
  String, ◌≡◌, refl, sym, ap, ◌∙◌, Bool, true, false, List, [], ◌∷◌, arith, ◌==◌, member,
  if◌then◌else◌, Bool-cases, inl, inr, length, ◌=ℕ◌,
}
use beegfs_csi_driver.Prelude.Dict.{Dict}
use beegfs_csi_driver.Prelude.Result.{Result, ok, err, pure, lift, continue, ◌>>=◌}
use beegfs_csi_driver.Prelude.Fallible.{>>=-eq-ok}
use beegfs_csi_driver.Errors.{Cause, GrpcError, status, invalid_argument}
use beegfs_csi_driver.Volume.{BeegfsVolume}
use beegfs_csi_driver.Params.{ReqParameters, validate_req_params}
use beegfs_csi_driver.Params.Accepted.{validate_req_params-IsAccepted}
use beegfs_csi_driver.Capability.{VolumeCapability, is_valid_volume_capabilities}
use beegfs_csi_driver.Host.{Host, Io}
use beegfs_csi_driver.Mount.{clean_up_if_necessary}
use beegfs_csi_driver.Controller.{Settings, Server, Handler, with_lock, deferred}
use beegfs_csi_driver.Controller.Validate.{
  ValidateVolumeCapabilitiesRequest, Validation, confirmed, refused, checked_parameters,
  stat_volume, validate_on_host, validate_arguments, validate_volume_capabilities,
}
use beegfs_csi_driver.Controller.Frames.{
  IsQuiet, bind-IsQuiet, on_host-IsQuiet, pure-IsQuiet, lift-IsQuiet, with_lock_refused_lem,
  with_lock_held, locked, release_locked,
}

-- Every confirmation of the handler is of these capabilities, all supported, and of no parameters.
record Confirms (caps : List VolumeCapability) (m : Handler Validation) : Type 0 where
  only :
      (s : Server) (caps' : List VolumeCapability) (params : Dict String)
      → (m s).0 ≡ ok (confirmed caps' params)
      → (caps' ≡ caps) × (is_valid_volume_capabilities caps ≡ true) × (params ≡ [])

module _ {A : Type 0} (caps : List VolumeCapability) where
  bind-Confirms :
      (m : Handler A) (f : A → Handler Validation)
      → ((a : A) (s : Server) → (m s).0 ≡ ok a → Confirms caps (f a))
      → Confirms caps (m >>= f)
  unfolding ◌>>=◌
  bind-Confirms m f h = record { only = λ s c p. after s c p (m s).0 (m s).1 refl }
    where
      after :
          (s : Server) (c : List VolumeCapability) (p : Dict String) (r : Result GrpcError A)
          (t : Server)
          → (m s).0 ≡ r
          → (continue r f t).0 ≡ ok (confirmed c p)
          → (c ≡ caps) × (is_valid_volume_capabilities caps ≡ true) × (p ≡ [])
      after s c p (ok a) t is_a e = (h a s is_a).only t c p e
      after s c p (err x) t is_a e = cc

verdict-Confirms :
    (caps : List VolumeCapability) (b : Bool)
    → is_valid_volume_capabilities caps ≡ b
    → Confirms caps
        (pure (if b then confirmed caps [] else refused "access_type must be MountVolume"))
unfolding pure
verdict-Confirms caps true v = record { only = λ s c p e. (cc, v, cc) }
verdict-Confirms caps false v = record { only = λ s c p e. cc }

-- Nothing is left of the parameters.
checked_parameters-empty :
    (params left : Dict String) → checked_parameters params ≡ ok left → left ≡ []
unfolding checked_parameters
checked_parameters-empty [] left e = cc
checked_parameters-empty (kv ∷ rest) left e = after (validate_req_params (kv ∷ rest)) refl e
  where
    after :
        (r : Result Cause (ReqParameters × Dict String))
        → validate_req_params (kv ∷ rest) ≡ r
        → ◌≡◌ {A = Result GrpcError (Dict String)}
            (elim r [ err e ↦ err (status invalid_argument e) | ok (params, left) ↦ ok left ])
            (ok left)
        → left ≡ []
    after (ok (p, l)) v e = cc (e, (validate_req_params-IsAccepted (kv ∷ rest) p l v).1)
    after (err x) v e = cc

module _ (h : Host) (cfg : Settings) where
  validate_on_host-Confirms :
      (req : ValidateVolumeCapabilitiesRequest) (vol : BeegfsVolume)
      → Confirms req.volume_capabilities (validate_on_host h cfg req vol [])
  unfolding validate_on_host
  validate_on_host-Confirms req vol = bind-Confirms _ _ _ λ u s e.
      bind-Confirms _ _ _
        λ u s e. bind-Confirms _ _ _ λ u s e. verdict-Confirms req.volume_capabilities _ refl

  stat_volume-IsQuiet : (vol : BeegfsVolume) → IsQuiet (stat_volume h cfg vol)
  unfolding stat_volume
  stat_volume-IsQuiet vol = record { lock = λ s. ground arith; status = λ s. ground arith }

  validate_on_host-IsQuiet :
      (req : ValidateVolumeCapabilitiesRequest) (vol : BeegfsVolume) (params : Dict String)
      → IsQuiet (validate_on_host h cfg req vol params)
  unfolding validate_on_host
  validate_on_host-IsQuiet req vol params = bind-IsQuiet _ _ (on_host-IsQuiet _ _) λ u.
      bind-IsQuiet _ _ (on_host-IsQuiet _ _)
        λ u. bind-IsQuiet _ _ (stat_volume-IsQuiet vol) λ u. pure-IsQuiet _

module _ {A : Type 0} where
  deferred-IsQuiet :
      (body : Handler A) (m : Io (Unit {0})) → IsQuiet body → IsQuiet (deferred body m)
  deferred-IsQuiet body m q = record { lock = q.lock; status = q.status }

  with_lock-IsQuiet : (id : String) (body : Handler A) → IsQuiet body → IsQuiet (with_lock id body)
  with_lock-IsQuiet id body q = record {
    lock = λ s. elim (Bool-cases (member id s.volume_ids_in_flight.items)) [
      | inl busy ↦
          ap (λ (r : Result GrpcError A × Server). r.1.volume_ids_in_flight)
            (with_lock_refused_lem id body s busy)
      | inr free ↦
          rw (with_lock_held id body s free, q.lock (locked id s))
            (release_locked id s.volume_ids_in_flight free)
    ];
    status = λ s. elim (Bool-cases (member id s.volume_ids_in_flight.items)) [
      | inl busy ↦
          ap (λ (r : Result GrpcError A × Server). r.1.volume_status_map)
            (with_lock_refused_lem id body s busy)
      | inr free ↦ rw (with_lock_held id body s free) (q.status (locked id s))
    ];
  }

with_lock-Confirms :
    (caps : List VolumeCapability) (id : String) (body : Handler Validation)
    → Confirms caps body
    → Confirms caps (with_lock id body)
with_lock-Confirms caps id body h = record {
  only = λ s c p e. elim (Bool-cases (member id s.volume_ids_in_flight.items)) [
    | inl busy ↦ cc (
      e,
      ap (λ (r : Result GrpcError Validation × Server). r.0) (with_lock_refused_lem id body s busy),
    )
    | inr free ↦ h.only (locked id s) c p (sym (ap (λ r. r.0) (with_lock_held id body s free)) ∙ e)
  ];
}

deferred-Confirms :
    (caps : List VolumeCapability) (body : Handler Validation) (m : Io (Unit {0}))
    → Confirms caps body
    → Confirms caps (deferred body m)
deferred-Confirms caps body m h = record { only = h.only }

module _ (h : Host) (cfg : Settings) where
  validate_volume_capabilities-IsQuiet :
      (req : ValidateVolumeCapabilitiesRequest) → IsQuiet (validate_volume_capabilities h cfg req)
  unfolding validate_volume_capabilities
  validate_volume_capabilities-IsQuiet req = bind-IsQuiet _ _ (lift-IsQuiet _) λ vp.
      with_lock-IsQuiet vp.0.volume_id _ (
        deferred-IsQuiet _ (clean_up_if_necessary h vp.0 true)
          (validate_on_host-IsQuiet h cfg req vp.0 vp.1))

  -- ValidateVolumeCapabilities leaves the locks and the recorded statuses as they were, whatever it
  -- meets.
  pub validate_volume_capabilities-unchanged :
      (req : ValidateVolumeCapabilitiesRequest) (s : Server)
      → ((validate_volume_capabilities h cfg req s).1.volume_ids_in_flight ≡ s.volume_ids_in_flight)
        × ((validate_volume_capabilities h cfg req s).1.volume_status_map ≡ s.volume_status_map)
  validate_volume_capabilities-unchanged req s = (
    (validate_volume_capabilities-IsQuiet req).lock s,
    (validate_volume_capabilities-IsQuiet req).status s,
  )

  past_checks :
      {A : Type 0} (a b : Bool) (x y : GrpcError) (m : Result GrpcError A) (r : A)
      → ◌≡◌ {A = Result GrpcError A} (if a then err x else if b then err y else m) (ok r)
      → m ≡ ok r
  past_checks true b x y m r e = cc
  past_checks false true x y m r e = cc
  past_checks false false x y m r e = e

  validate_arguments-empty :
      (req : ValidateVolumeCapabilitiesRequest) (vp : BeegfsVolume × Dict String)
      → validate_arguments h cfg req ≡ ok vp
      → vp.1 ≡ []
  unfolding validate_arguments
  validate_arguments-empty req vp e =
      let (left, e1, more) =
        >>=-eq-ok (checked_parameters req.parameters) _
          (past_checks (req.volume_id == "") (length req.volume_capabilities =ℕ 0) _ _ _ vp e) in
      let (vol, e2, e3) = >>=-eq-ok _ (λ vol. ok (vol, left)) more in
      cc (e3, checked_parameters-empty req.parameters left e1)

  confirm_after :
      (req : ValidateVolumeCapabilitiesRequest) (vp : BeegfsVolume × Dict String)
      → vp.1 ≡ []
      → Confirms req.volume_capabilities (
          with_lock vp.0.volume_id
            (deferred (validate_on_host h cfg req vp.0 vp.1) (clean_up_if_necessary h vp.0 true)))
  confirm_after req vp e = rw e (
      with_lock-Confirms req.volume_capabilities vp.0.volume_id _ (
        deferred-Confirms _ _ (clean_up_if_necessary h vp.0 true)
          (validate_on_host-Confirms h cfg req vp.0)))

  validate_volume_capabilities-Confirms :
      (req : ValidateVolumeCapabilitiesRequest)
      → Confirms req.volume_capabilities (validate_volume_capabilities h cfg req)
  unfolding validate_volume_capabilities lift
  validate_volume_capabilities-Confirms req =
      bind-Confirms _ _ _ λ vp s e. confirm_after req vp (validate_arguments-empty req vp e)

  -- A confirmation is of the capabilities of the request, which are all supported. It never has
  -- parameters, whatever those of the request are.
  pub validate_volume_capabilities-confirmed :
      (req : ValidateVolumeCapabilitiesRequest) (s : Server) (caps : List VolumeCapability)
      (params : Dict String)
      → (validate_volume_capabilities h cfg req s).0 ≡ ok (confirmed caps params)
      → (caps ≡ req.volume_capabilities)
        × (is_valid_volume_capabilities req.volume_capabilities ≡ true)
        × (params ≡ [])
  validate_volume_capabilities-confirmed req = (validate_volume_capabilities-Confirms req).only
