-- ===== src/Params.antt =====
-- The parameters of a CreateVolume request (pkg/beegfs/controllerserver.go): validateReqParams,
-- getStripePatternConfigFromParams and getPermissionsConfigFromParams. The source takes each
-- parameter out of the map once it has read it; what is left at the end is an error.
pub mod Accepted
pub mod Lookup
use beegfs_csi_driver.Prelude.{
  ℕ, String, Bool, true, false, ◌||◌, Option, none, some, List, [], ◌∷◌, ◌==◌, if◌then◌else◌,
}
use beegfs_csi_driver.Prelude.Dict.{Dict, lookup, erase}
use beegfs_csi_driver.Prelude.Result.{Result, ok, err}
use beegfs_csi_driver.Prelude.Fallible.{◌>>=◌}
use beegfs_csi_driver.Text.Strings.{has_prefix, contains}
use beegfs_csi_driver.Text.Numbers.{parse_uint}
use beegfs_csi_driver.Text.Path.{clean, path_join}
use beegfs_csi_driver.Text.Regex.{Regex, one, seq, plus, matches, is_lower, is_upper, is_digit}
use beegfs_csi_driver.Errors.{Cause, failure}
use beegfs_csi_driver.Volume.Mode.{PermissionsConfig}

abbrev pub vol_dir_base_path_key : String
vol_dir_base_path_key = "volDirBasePath"

abbrev pub sys_mgmtd_host_key : String
sys_mgmtd_host_key = "sysMgmtdHost"

abbrev pub storage_pool_id_key : String
storage_pool_id_key = "stripePattern/storagePoolID"

abbrev pub chunk_size_key : String
chunk_size_key = "stripePattern/chunkSize"

abbrev pub num_targets_key : String
num_targets_key = "stripePattern/numTargets"

abbrev pub permissions_uid_key : String
permissions_uid_key = "permissions/uid"

abbrev pub permissions_gid_key : String
permissions_gid_key = "permissions/gid"

abbrev pub permissions_mode_key : String
permissions_mode_key = "permissions/mode"

abbrev pub default_permissions_mode : ℕ
default_permissions_mode = 0o0777

pub record StripePatternConfig : Type 0 where
  pub storage_pool_id : String
  pub chunk_size : String
  pub num_targets : String

pub record ReqParameters : Type 0 where
  pub sys_mgmtd_host : String
  pub vol_dir_base_path_beegfs_root : String
  pub stripe_pattern : StripePatternConfig
  pub permissions : PermissionsConfig

-- params[k], which is the empty text where there is no key
abbrev pub value_of : String → Dict String → String
value_of k params = elim (lookup k params) [ none ↦ "" | some v ↦ v ]

-- (^[0-9]+[a-zA-Z]$)
abbrev pub chunk_size_regex : Regex
chunk_size_regex = seq (plus (one is_digit)) (one (λ c. is_lower c || is_upper c))

-- A number of 16 bits, or nothing.
unfoldable pub valid_uint16 : String → Bool
unfolding parse_uint
valid_uint16 val = elim (parse_uint val 10 16) [ none ↦ val == "" | some n ↦ true ]

unfoldable pub valid_chunk_size : String → Bool
unfolding matches
valid_chunk_size val = val == "" || matches chunk_size_regex val

-- One round of the loop of getStripePatternConfigFromParams, for the key `param`.
unfoldable pub stripe_param :
    String → StripePatternConfig × Dict String → Result Cause (StripePatternConfig × Dict String)
unfolding contains valid_uint16 valid_chunk_size erase lookup
stripe_param param (cfg, params) =
    if contains param "stripePattern/"
    then if param == storage_pool_id_key
      then if valid_uint16 (value_of storage_pool_id_key params)
        then ok (
          record cfg { storage_pool_id = value_of storage_pool_id_key params },
          erase storage_pool_id_key params,
        )
        else err (failure "could not parse provided StoragePoolID")
      else if param == chunk_size_key
      then if valid_chunk_size (value_of chunk_size_key params)
        then ok (
          record cfg { chunk_size = value_of chunk_size_key params },
          erase chunk_size_key params,
        )
        else err (failure "could not parse provided chunkSize")
      else if param == num_targets_key
      then if valid_uint16 (value_of num_targets_key params)
        then ok (
          record cfg { num_targets = value_of num_targets_key params },
          erase num_targets_key params,
        )
        else err (failure "could not parse provided numTargets")
      else err (failure "CreateVolume parameter invalid")
    else ok (cfg, params)

-- One round of the loop of getPermissionsConfigFromParams.
unfoldable pub permissions_param :
    String → PermissionsConfig × Dict String → Result Cause (PermissionsConfig × Dict String)
unfolding has_prefix parse_uint erase lookup
permissions_param param (cfg, params) =
    if has_prefix param "permissions/"
    then if param == permissions_uid_key
      then (elim (parse_uint (value_of permissions_uid_key params) 10 32) [
        | none ↦ err (failure "could not parse provided UID")
        | some uid ↦ ok (record cfg { uid = uid }, erase permissions_uid_key params)
      ])
      else if param == permissions_gid_key
      then (elim (parse_uint (value_of permissions_gid_key params) 10 32) [
        | none ↦ err (failure "could not parse provided GID")
        | some gid ↦ ok (record cfg { gid = gid }, erase permissions_gid_key params)
      ])
      else if param == permissions_mode_key
      then (elim (parse_uint (value_of permissions_mode_key params) 8 12) [
        | none ↦ err (failure "could not parse provided mode")
        | some mode ↦ ok (record cfg { mode = mode }, erase permissions_mode_key params)
      ])
      else err (failure "CreateVolume parameter invalid")
    else ok (cfg, params)

-- `for param := range params`: the keys that the map has when the loop starts. A round deletes no
-- key but its own.
unfoldable pub for_keys :
    {A : Type 0} → (String → A → Result Cause A) → Dict String → A → Result Cause A
for_keys round [] a = ok a
for_keys round ((k, v) ∷ rest) a = round k a >>= for_keys round rest

unfoldable pub get_stripe_pattern_config_from_params :
    Dict String → Result Cause (StripePatternConfig × Dict String)
unfolding for_keys stripe_param
get_stripe_pattern_config_from_params params =
    for_keys stripe_param params
      (record { storage_pool_id = ""; chunk_size = ""; num_targets = "" }, params)

unfoldable pub get_permissions_config_from_params :
    Dict String → Result Cause (PermissionsConfig × Dict String)
unfolding for_keys permissions_param
get_permissions_config_from_params params =
    for_keys permissions_param params
      (record { uid = 0; gid = 0; mode = default_permissions_mode }, params)

-- The rest of validateReqParams, after the two required parameters have been taken out.
unfoldable pub optional_params :
    String → String → Dict String → Result Cause (ReqParameters × Dict String)
unfolding get_stripe_pattern_config_from_params get_permissions_config_from_params clean path_join
optional_params host base_path params = do
  (stripe, params') ← get_stripe_pattern_config_from_params params
  (permissions, left) ← get_permissions_config_from_params params'
  elim left [
    | [] ↦ ok (
      record {
        sys_mgmtd_host = host;
        vol_dir_base_path_beegfs_root = clean (path_join ("/" ∷ base_path ∷ []));
        stripe_pattern = stripe;
        permissions = permissions;
      },
      [],
    )
    | extra ∷ more ↦ err (failure "CreateVolume parameter invalid")
  ]

-- validateReqParams, with what is left of the caller's map, which the source takes the parameters
-- out of
unfoldable pub validate_req_params : Dict String → Result Cause (ReqParameters × Dict String)
unfolding optional_params lookup erase
validate_req_params params =
    if value_of sys_mgmtd_host_key params == ""
    then err (failure "sysMgmtdHost not provided")
    else elim (lookup vol_dir_base_path_key (erase sys_mgmtd_host_key params)) [
      | none ↦ err (failure "volDirBasePath not provided")
      | some base_path ↦
          optional_params (value_of sys_mgmtd_host_key params) base_path
            (erase vol_dir_base_path_key (erase sys_mgmtd_host_key params))
    ]
