-- ===== src/Mount/Options.antt =====
-- The mount options that the driver passes on and adds.
use beegfs_csi_driver.Prelude.{
  String, ◌<>◌, ◌≡◌, refl, ap, ◌∙◌, Bool, true, false, not, ◌&&◌, ◌||◌, List, [], ◌∷◌, ◌++◌, ◌==◌,
  arith, eq_iff, member, member-append, if◌then◌else◌, Bool-cases, inl, inr,
}
use beegfs_csi_driver.Text.Strings.{contains_lower, has_prefix, has_prefix-append}
use beegfs_csi_driver.Volume.{BeegfsVolume}
use beegfs_csi_driver.Mount.{
  keep_valid, remove_invalid_mount_options, has_context, add_context, base_mount_options,
}

-- No option occurs twice.
abbrev pub Distinct : List String → Type 0
Distinct [] = Unit
Distinct (opt ∷ opts) = (member opt opts ≡ false) × Distinct opts

Distinct-append :
    (opts : List String) (opt : String)
    → Distinct opts
    → member opt opts ≡ false
    → Distinct (opts ++ opt ∷ [])
unfolding member
Distinct-append [] opt d h = (refl, tt)
Distinct-append (o ∷ opts) opt (absent, d) h = (
  ground (arith, member-append o opts (opt ∷ []), absent, eq_iff o opt, eq_iff opt o),
  Distinct-append opts opt d (ground arith),
)

-- An option that may be kept.
abbrev pub allowed : String → Bool
allowed opt = not (contains_lower opt "cfgfile")

keep_valid-member :
    (opts kept : List String) (opt : String)
    → member opt (keep_valid opts kept) ≡ (member opt kept || (allowed opt && member opt opts))
unfolding keep_valid member
keep_valid-member [] kept opt = ground arith
keep_valid-member (o ∷ opts) kept opt =
    keep_valid-member opts _ opt
    ∙ next (contains_lower o "cfgfile") (member o kept) (opt == o) (member opt opts)
        (λ e. ap (λ x. contains_lower x "cfgfile") ((eq_iff opt o).0 e))
        (λ e. ap (λ x. member x kept) ((eq_iff opt o).0 e)) refl
  where
    next :
        (c m same later : Bool)
        → (same ≡ true → contains_lower opt "cfgfile" ≡ c)
        → (same ≡ true → member opt kept ≡ m)
        → opt == o ≡ same
        → (member opt (if c || m then kept else kept ++ o ∷ []) || (allowed opt && later))
          ≡ (member opt kept || (allowed opt && (same || later)))
    next c m same later hc hm hs = ground (arith, member-append opt kept (o ∷ []))

keep_valid-Distinct : (opts kept : List String) → Distinct kept → Distinct (keep_valid opts kept)
unfolding keep_valid
keep_valid-Distinct [] kept d = d
keep_valid-Distinct (o ∷ opts) kept d =
    keep_valid-Distinct opts _ (next (contains_lower o "cfgfile") (member o kept) refl)
  where
    next : (c m : Bool) → member o kept ≡ m → Distinct (if c || m then kept else kept ++ o ∷ [])
    next true m e = d
    next false true e = d
    next false false e = Distinct-append kept o d e

-- What is kept of the requested options: no option occurs twice, and an option occurs exactly if it
-- was requested and its text, in lower case, does not contain "cfgfile".
pub remove_invalid_mount_options_lem :
    (opts : List String)
    → Distinct (remove_invalid_mount_options opts)
      × ((opt : String)
          → member opt (remove_invalid_mount_options opts) ≡ (allowed opt && member opt opts))
unfolding remove_invalid_mount_options member
remove_invalid_mount_options_lem opts =
    (keep_valid-Distinct opts [] tt, λ opt. keep_valid-member opts [] opt)

or_assoc : (a b c : Bool) → (a || (b || c)) ≡ ((a || b) || c)
or_assoc true b c = refl
or_assoc false b c = refl

has_context-append :
    (xs ys : List String) → has_context (xs ++ ys) ≡ (has_context xs || has_context ys)
unfolding has_context
has_context-append [] ys = refl
has_context-append (x ∷ xs) ys =
    ap (λ b. has_prefix x "context=" || b) (has_context-append xs ys)
    ∙ or_assoc (has_prefix x "context=") (has_context xs) (has_context ys)

or_true : (b : Bool) → (b || true) ≡ true
or_true true = refl
or_true false = refl

add_context_added :
    (default_context : String) (opts : List String)
    → has_context (add_context default_context opts) ≡ true
unfolding add_context has_context
add_context_added default_context opts = elim (Bool-cases (has_context opts)) [
  | inl h ↦ rw (h, add_context) h
  | inr h ↦
      rw
        (
          h,
          has_context-append opts (("context=" <> default_context) ∷ []),
          has_prefix-append "context=" default_context,
          add_context,
        )
        (or_true (has_context opts))
]

-- With the security context added, the options have a context, and adding one once more changes
-- nothing.
pub add_context_lem :
    (default_context : String) (opts : List String)
    → (has_context (add_context default_context opts) ≡ true)
      × (add_context default_context (add_context default_context opts)
          ≡ add_context default_context opts)
unfolding add_context
add_context_lem default_context opts =
    (add_context_added default_context opts, rw (add_context_added default_context opts))

or_false : (b : Bool) → (b || false) ≡ b
or_false true = refl
or_false false = refl

base_of :
    (opts : List String) (vol : BeegfsVolume)
    → member ("cfgFile=" <> vol.client_conf_path) (base_mount_options opts vol) ≡ true
unfolding base_mount_options member
base_of [] vol =
    ground (arith, eq_iff ("cfgFile=" <> vol.client_conf_path) ("cfgFile=" <> vol.client_conf_path))
base_of (o ∷ opts) vol =
    rw
      (member-append ("cfgFile=" <> vol.client_conf_path) (remove_invalid_mount_options (o ∷ opts))
        (("cfgFile=" <> vol.client_conf_path) ∷ []))
      (ground
        (arith, eq_iff ("cfgFile=" <> vol.client_conf_path) ("cfgFile=" <> vol.client_conf_path)))

no_conf :
    (opt lit : String)
    → contains_lower lit "cfgfile" ≡ false
    → contains_lower opt "cfgfile" ≡ true
    → (opt == lit) ≡ false
no_conf opt lit none has = elim (Bool-cases (opt == lit)) [
  | inl same ↦ cc (none, has, (eq_iff opt lit).0 same)
  | inr other ↦ other
]

base_mount_options-own :
    (opts : List String) (vol : BeegfsVolume) (opt : String)
    → contains_lower opt "cfgfile" ≡ true
    → member opt (base_mount_options opts vol) ≡ (opt == ("cfgFile=" <> vol.client_conf_path))
unfolding base_mount_options member contains_lower
base_mount_options-own [] vol opt has =
    rw (no_conf opt "rw" refl has, no_conf opt "relatime" refl has, no_conf opt "nosuid" refl has)
      (or_false (opt == ("cfgFile=" <> vol.client_conf_path)))
base_mount_options-own (o ∷ opts) vol opt has =
    member-append opt (remove_invalid_mount_options (o ∷ opts))
      (("cfgFile=" <> vol.client_conf_path) ∷ [])
    ∙ rw ((remove_invalid_mount_options_lem (o ∷ opts)).1 opt, has)
        (or_false (opt == ("cfgFile=" <> vol.client_conf_path)))

-- Whatever options are requested, the mount options name the volume's own configuration of the
-- client, and no other one of them has a text that contains "cfgfile" in lower case.
pub base_mount_options_lem :
    (opts : List String) (vol : BeegfsVolume)
    → (member ("cfgFile=" <> vol.client_conf_path) (base_mount_options opts vol) ≡ true)
      × ((opt : String)
          → (contains_lower opt "cfgfile" && member opt (base_mount_options opts vol))
            ≡ (contains_lower opt "cfgfile" && (opt == ("cfgFile=" <> vol.client_conf_path))))
base_mount_options_lem opts vol =
    (base_of opts vol, λ opt. only opt (contains_lower opt "cfgfile") refl)
  where
    only :
        (opt : String) (b : Bool)
        → contains_lower opt "cfgfile" ≡ b
        → (b && member opt (base_mount_options opts vol))
          ≡ (b && (opt == ("cfgFile=" <> vol.client_conf_path)))
    only opt true has = base_mount_options-own opts vol opt has
    only opt false has = refl
