-- ===== src/Node/Options.antt =====
-- The options of the bind mount that publishes a volume.
use beegfs_csi_driver.Prelude.{
  String, ◌≡◌, refl, ap, ◌∙◌, Bool, true, false, ◌||◌, not, ◌&&◌, [], ◌∷◌, ◌++◌, arith, ◌==◌,
  member, member-append, if◌then◌else◌,
}
use beegfs_csi_driver.Text.Strings.{contains_lower}
use beegfs_csi_driver.Capability.{VolumeCapability, mount_flags_of}
use beegfs_csi_driver.Mount.Options.{Distinct, remove_invalid_mount_options_lem, allowed}
use beegfs_csi_driver.Node.{publish_options}

publish_options-member :
    (c : VolumeCapability) (readonly : Bool) (opt : String)
    → member opt (publish_options c readonly) ≡ (
        allowed opt
        && ((member opt (mount_flags_of c) || (opt == "bind")) || (readonly && (opt == "ro"))))
unfolding publish_options member
publish_options-member c true opt =
    (remove_invalid_mount_options_lem _).1 opt
    ∙ ap (λ b. allowed opt && b)
        (member-append opt (mount_flags_of c ++ "bind" ∷ []) ("ro" ∷ [])
          ∙ rw (member-append opt (mount_flags_of c) ("bind" ∷ []))
              (tidy (member opt (mount_flags_of c)) (opt == "bind") (opt == "ro")))
  where
    tidy : (a b r : Bool) → ((a || (b || false)) || (r || false)) ≡ ((a || b) || r)
    tidy a b r = ground arith
publish_options-member c false opt =
    (remove_invalid_mount_options_lem _).1 opt
    ∙ ap (λ b. allowed opt && b)
        (member-append opt (mount_flags_of c ++ "bind" ∷ []) []
          ∙ rw (member-append opt (mount_flags_of c) ("bind" ∷ []))
              (tidy (member opt (mount_flags_of c)) (opt == "bind")))
  where
    tidy : (a b : Bool) → ((a || (b || false)) || false) ≡ ((a || b) || false)
    tidy a b = ground arith

publish_options-Distinct :
    (c : VolumeCapability) (readonly : Bool) → Distinct (publish_options c readonly)
unfolding publish_options
publish_options-Distinct c readonly =
    (remove_invalid_mount_options_lem
      ((mount_flags_of c ++ "bind" ∷ []) ++ (if readonly then "ro" ∷ [] else []))).0

-- A volume is published by a bind mount, which is read-only exactly if the request or the mount flags
-- say so; no option occurs twice, and none names a configuration of the client.
publish_options_lem :
    (c : VolumeCapability) (readonly : Bool)
    → (member "bind" (publish_options c readonly) ≡ true)
      × (member "ro" (publish_options c readonly) ≡ (member "ro" (mount_flags_of c) || readonly))
      × Distinct (publish_options c readonly)
      × ((opt : String)
          → (contains_lower opt "cfgfile" && member opt (publish_options c readonly)) ≡ false)
unfolding contains_lower
publish_options_lem c readonly = (
  publish_options-member c readonly "bind" ∙ ground arith,
  publish_options-member c readonly "ro" ∙ ground arith,
  publish_options-Distinct c readonly,
  λ opt.
      ap (λ b. contains_lower opt "cfgfile" && b) (publish_options-member c readonly opt)
      ∙ never (contains_lower opt "cfgfile") _,
)
  where
    never : (b m : Bool) → (b && (not b && m)) ≡ false
    never true m = refl
    never false m = refl
