-- ===== src/Volume/Mode.antt =====
-- permissionsConfig (pkg/beegfs/beegfs.go): owners and access modes of volume directories.
use Prim.Native.Nat.{bit_and, bit_or}
use beegfs_csi_driver.Prelude.{
  ℕ, zero, suc, ◌+◌, ◌*◌, ◌/◌, ◌%◌, ◌<◌, ◌≤◌, ◌≡◌, refl, ◌↔◌, Bool, true, ◌&&◌, ◌||◌, arith, ltb,
  ◌=ℕ◌, if◌then◌else◌,
}

-- uid and gid have 32 bits, mode 16.
pub record PermissionsConfig : Type 0 where
  pub uid : ℕ
  pub gid : ℕ
  pub mode : ℕ

unfoldable pub has_non_default_owner_or_group : PermissionsConfig → Bool
has_non_default_owner_or_group cfg = ltb 0 cfg.uid || ltb 0 cfg.gid

-- A non-zero first octal digit.
unfoldable pub has_special_permissions : PermissionsConfig → Bool
has_special_permissions cfg = ltb 0o0777 cfg.mode

-- os.ModeSticky, os.ModeSetgid and os.ModeSetuid
abbrev pub mode_sticky : ℕ
mode_sticky = 0x100000

abbrev pub mode_setgid : ℕ
mode_setgid = 0x400000

abbrev pub mode_setuid : ℕ
mode_setuid = 0x800000

unfoldable pub go_mode : ℕ → ℕ
go_mode mode =
    let normal = bit_and mode 0o777 in
    let sticky = if ltb 0 (bit_and mode 0o1000) then bit_or normal mode_sticky else normal in
    let setgid = if ltb 0 (bit_and mode 0o2000) then bit_or sticky mode_setgid else sticky in
    if ltb 0 (bit_and mode 0o4000) then bit_or setgid mode_setuid else setgid

-- (permissionsConfig) goFileMode
unfoldable pub go_file_mode : PermissionsConfig → ℕ
unfolding go_mode
go_file_mode cfg = go_mode cfg.mode

-- Every value below `n` passes.
passes : (ℕ → Bool) → ℕ → Bool
passes test zero = true
passes test (suc bound) = passes test bound && test bound

passes_sound :
    (test : ℕ → Bool) (bound mode : ℕ) → mode < bound → passes test bound ≡ true → test mode ≡ true
unfolding passes
passes_sound test zero mode small all = absurd (omega arith)
passes_sound test (suc bound) mode small all = ground (arith, passes_sound test bound mode)

-- A bit of a number.
abbrev pub bit : ℕ → ℕ → ℕ
bit weight n = n / weight % 2

-- The mode that os.FileMode should have, by arithmetic.
abbrev pub file_mode : ℕ → ℕ
file_mode mode =
    mode % 512
    + bit 512 mode * mode_sticky
    + bit 1024 mode * mode_setgid
    + bit 2048 mode * mode_setuid

mode_table : passes (λ m. go_mode m =ℕ file_mode m) 4096 ≡ true
unfolding passes go_mode
mode_table = refl

same_of_test : (a b : ℕ) → (a =ℕ b) ≡ true → a ≡ b
same_of_test a b h = ground arith

-- For every access mode of twelve bits the Go mode has the nine permission bits, and the sticky,
-- setgid and setuid bits at Go's positions exactly where the access mode has them.
pub go_file_mode-eq-file_mode :
    (cfg : PermissionsConfig) → cfg.mode < 4096 → go_file_mode cfg ≡ file_mode cfg.mode
unfolding go_file_mode
go_file_mode-eq-file_mode cfg h = same_of_test _ _ (passes_sound _ 4096 cfg.mode h mode_table)

-- A mode of twelve bits is special exactly when its Go mode has a bit beyond the nine.
pub has_special_permissions-go_file_mode :
    (cfg : PermissionsConfig)
    → cfg.mode < 4096
    → (has_special_permissions cfg ≡ true) ↔ (512 ≤ go_file_mode cfg)
unfolding has_special_permissions
has_special_permissions-go_file_mode cfg h = rw (go_file_mode-eq-file_mode cfg h) (ground arith)
