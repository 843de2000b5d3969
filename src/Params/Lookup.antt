-- ===== src/Params/Lookup.antt =====
-- Rounds over the parameters of a request, and what they leave of the map.
use beegfs_csi_driver.Prelude.{
  ℕ, ◌<◌, ◌^◌, String, ◌≡◌, ap, ◌∙◌, subst, false, Option, none, some, List, [], ◌∷◌, arith, ◌==◌,
  eq_iff, member, Bool-cases, inl, inr,
}
use beegfs_csi_driver.Prelude.Dict.{Dict, lookup, erase, lookup-erase}
use beegfs_csi_driver.Prelude.Result.{Result, ok, err}
use beegfs_csi_driver.Prelude.Fallible.{>>=-eq-ok}
use beegfs_csi_driver.Text.Strings.{has_prefix}
use beegfs_csi_driver.Text.Numbers.{parse_uint, parse_uint_sound}
use beegfs_csi_driver.Errors.{Cause, failure}
use beegfs_csi_driver.Volume.Mode.{PermissionsConfig}
use beegfs_csi_driver.Params.{
  StripePatternConfig, value_of, stripe_param, permissions_param, for_keys, sys_mgmtd_host_key,
  vol_dir_base_path_key, storage_pool_id_key, chunk_size_key, num_targets_key, permissions_uid_key,
  permissions_gid_key, permissions_mode_key,
}

-- The parameters that the driver knows.
abbrev pub known_keys : List String
known_keys =
    sys_mgmtd_host_key ∷ vol_dir_base_path_key ∷ storage_pool_id_key ∷ chunk_size_key
    ∷ num_targets_key ∷ permissions_uid_key ∷ permissions_gid_key ∷ permissions_mode_key ∷ []

ok_injective : {A : Type 0} {a b : A} → ◌≡◌ {A = Result Cause A} (ok a) (ok b) → a ≡ b
ok_injective e = cc

-- A round that succeeds leaves what `P` says of the state.
pub for_keys-ok :
    {A : Type 0} (P : A → Type 0) (round : String → A → Result Cause A)
    → ((k : String) (a b : A) → P a → round k a ≡ ok b → P b)
    → (m : Dict String) (a b : A) → P a
    → for_keys round m a ≡ ok b
    → P b
unfolding for_keys
for_keys-ok P round step [] a b pa e = subst P (ok_injective e) pa
for_keys-ok P round step ((k, v) ∷ rest) a b pa e =
    let (c, first, later) = >>=-eq-ok (round k a) (for_keys round rest) e in
    for_keys-ok P round step rest c b (step k a c pa first) later

-- The bounds of the numbers that the permissions are made of.
pub record InRange (p : PermissionsConfig) : Type 0 where
  pub uid : p.uid < 2 ^ 32
  pub gid : p.gid < 2 ^ 32
  pub mode : p.mode < 2 ^ 12

parse_32 : (s : String) (n : ℕ) → parse_uint s 10 32 ≡ some n → n < 2 ^ 32
parse_32 s n e = omega (arith, (parse_uint_sound s 10 32 e).2)

parse_12 : (s : String) (n : ℕ) → parse_uint s 8 12 ≡ some n → n < 2 ^ 12
parse_12 s n e = omega (arith, (parse_uint_sound s 8 12 e).2)

pub permissions_param-InRange :
    (k : String) (a b : PermissionsConfig × Dict String)
    → InRange a.0
    → permissions_param k a ≡ ok b
    → InRange b.0
unfolding permissions_param
permissions_param-InRange k (cfg, params) (cfg', params') r e = record {
  uid = grind (arith, parse_32 (value_of permissions_uid_key params), r.uid, e);
  gid = grind (arith, parse_32 (value_of permissions_gid_key params), r.gid, e);
  mode = grind (arith, parse_12 (value_of permissions_mode_key params), r.mode, e);
}

pub lookup-erase_unknown :
    (k j : String) (params : Dict String)
    → (k == j) ≡ false
    → lookup j (erase k params) ≡ lookup j params
lookup-erase_unknown k j params h = rw (lookup-erase k j params, h)

unknown_uid : (j : String) → member j known_keys ≡ false → (permissions_uid_key == j) ≡ false
unfolding member
unknown_uid j h = ground (arith, eq_iff permissions_uid_key j, eq_iff j permissions_uid_key)

unknown_gid : (j : String) → member j known_keys ≡ false → (permissions_gid_key == j) ≡ false
unfolding member
unknown_gid j h = ground (arith, eq_iff permissions_gid_key j, eq_iff j permissions_gid_key)

unknown_mode : (j : String) → member j known_keys ≡ false → (permissions_mode_key == j) ≡ false
unfolding member
unknown_mode j h = ground (arith, eq_iff permissions_mode_key j, eq_iff j permissions_mode_key)

pub taken :
    (o : Option ℕ) (msg key : String) (params params' : Dict String) (cfg' : PermissionsConfig)
    (f : ℕ → PermissionsConfig)
    → ◌≡◌ {A = Result Cause (PermissionsConfig × Dict String)}
        (elim o [ none ↦ err (failure msg) | some n ↦ ok (f n, erase key params) ])
        (ok (cfg', params'))
    → params' ≡ erase key params
taken none msg key params params' cfg' f e = cc
taken (some n) msg key params params' cfg' f e = cc

pub permissions_param-lookup :
    (j k : String) (a b : PermissionsConfig × Dict String)
    → member j known_keys ≡ false
    → permissions_param k a ≡ ok b
    → lookup j b.1 ≡ lookup j a.1
unfolding permissions_param
permissions_param-lookup j k (cfg, params) (cfg', params') unknown e =
    elim (Bool-cases (has_prefix k "permissions/")) [
      | inr other ↦ grind (arith, e, other)
      | inl ours ↦ elim (Bool-cases (k == permissions_uid_key)) [
        | inl uid ↦
            ap (lookup j)
              (taken _ _ permissions_uid_key params params' cfg' _ (rw (ours, uid) at e))
            ∙ lookup-erase_unknown permissions_uid_key j params (unknown_uid j unknown)
        | inr no_uid ↦ elim (Bool-cases (k == permissions_gid_key)) [
          | inl gid ↦
              ap (lookup j)
                (taken _ _ permissions_gid_key params params' cfg' _ (rw (ours, no_uid, gid) at e))
              ∙ lookup-erase_unknown permissions_gid_key j params (unknown_gid j unknown)
          | inr no_gid ↦ elim (Bool-cases (k == permissions_mode_key)) [
            | inl mode ↦
                ap (lookup j) (
                  taken _ _ permissions_mode_key params params' cfg' _
                    (rw (ours, no_uid, no_gid, mode) at e))
                ∙ lookup-erase_unknown permissions_mode_key j params (unknown_mode j unknown)
            | inr no_mode ↦ grind (arith, e, ours, no_uid, no_gid, no_mode)
          ]
        ]
      ]
    ]

pub stripe_param-lookup :
    (j k : String) (a b : StripePatternConfig × Dict String)
    → member j known_keys ≡ false
    → stripe_param k a ≡ ok b
    → lookup j b.1 ≡ lookup j a.1
unfolding stripe_param member
stripe_param-lookup j k (cfg, params) (cfg', params') unknown e = ground (
  arith,
  lookup-erase storage_pool_id_key j params,
  lookup-erase chunk_size_key j params,
  lookup-erase num_targets_key j params,
  eq_iff storage_pool_id_key j,
  eq_iff chunk_size_key j,
  eq_iff num_targets_key j,
  eq_iff j storage_pool_id_key,
  eq_iff j chunk_size_key,
  eq_iff j num_targets_key,
)
