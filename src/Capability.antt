-- ===== src/Capability.antt =====
-- Volume capabilities: isValidVolumeCapabilities and isValidVolumeCapability
-- (pkg/beegfs/beegfs_util.go).
use beegfs_csi_driver.Prelude.{String, Bool, true, false, Option, none, some, List, [], ◌∷◌}

-- The mount flags of GetMount(), unless it is nil, and whether GetBlock() is not nil.
pub record VolumeCapability : Type 0 where
  pub mount_flags : Option (List String)
  pub block : Bool

abbrev pub supported : VolumeCapability → Bool
supported c = elim c.mount_flags [
  | none ↦ false
  | some flags ↦ elim c.block [ true ↦ false | false ↦ true ]
]

-- isValidVolumeCapabilities
unfoldable pub is_valid_volume_capabilities : List VolumeCapability → Bool
is_valid_volume_capabilities [] = true
is_valid_volume_capabilities (c ∷ cs) =
    let rest = is_valid_volume_capabilities cs in elim (supported c) [ true ↦ rest | false ↦ false ]

unfoldable pub is_valid_volume_capability : VolumeCapability → Bool
unfolding is_valid_volume_capabilities
is_valid_volume_capability c = is_valid_volume_capabilities (c ∷ [])

-- GetMount().MountFlags
abbrev pub mount_flags_of : VolumeCapability → List String
mount_flags_of c = elim c.mount_flags [ none ↦ [] | some flags ↦ flags ]
