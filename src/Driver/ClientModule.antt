-- ===== src/Driver/ClientModule.antt =====
-- Whether the client's kernel module is loaded or can be (pkg/beegfs/beegfs_util.go).
use beegfs_csi_driver.Prelude.{
  ◌≡◌, ◌↔◌, ◌⊎◌, inl, inr, refl, Bool, true, false, none, some, [], ◌∷◌, ◌==◌, if◌then◌else◌,
}
use beegfs_csi_driver.Prelude.Result.{Result, ok, err}
use beegfs_csi_driver.Text.Strings.{contains}
use beegfs_csi_driver.Errors.{Cause, failure}
use beegfs_csi_driver.Host.{Host, History, Io, CommandOutput, command}

-- The outcome of lsmod, and that of modprobe, which exits with 1 where there is no such module.
unfoldable pub loaded_outcome : CommandOutput → Result Cause Bool
unfolding contains
loaded_outcome out = elim out.run_error [
  | some e ↦ err (failure e)
  | none ↦ ok (contains out.stdout "beegfs")
]

unfoldable pub installed_outcome : CommandOutput → Result Cause Bool
installed_outcome out = elim out.run_error [
  | some e ↦ if e == "exit status 1" then ok false else err (failure e)
  | none ↦ ok true
]

-- The check after lsmod, whose error is only logged, and after modprobe.
unfoldable pub available : Result Cause Bool → Result Cause Bool → Result Cause (Unit {0})
available (ok true) installed = ok tt
available (ok false) (err e) = err e
available (err x) (err e) = err e
available (ok false) (ok true) = ok tt
available (err x) (ok true) = ok tt
available (ok false) (ok false) = err (failure "the BeeGFS client kernel module is not installed")
available (err x) (ok false) = err (failure "the BeeGFS client kernel module is not installed")

module _ (h : Host) where
  -- isBeegfsClientModuleLoaded
  unfoldable pub is_beegfs_client_module_loaded : Io Bool
  unfolding loaded_outcome
  is_beegfs_client_module_loaded s =
      (loaded_outcome (h.command_reply s (command "lsmod" [])), command "lsmod" [] ∷ s)

  -- isBeegfsClientModuleInstalled
  unfoldable pub is_beegfs_client_module_installed : Io Bool
  unfolding installed_outcome
  is_beegfs_client_module_installed s = (
    installed_outcome (h.command_reply s (command "modprobe" ("-R" ∷ "beegfs" ∷ []))),
    command "modprobe" ("-R" ∷ "beegfs" ∷ []) ∷ s,
  )

  -- verifyBeegfsClientModuleIsAvailable: modprobe runs unless the module is loaded
  unfoldable pub verify_beegfs_client_module_is_available : Io (Unit {0})
  unfolding is_beegfs_client_module_loaded is_beegfs_client_module_installed available
  verify_beegfs_client_module_is_available s =
      let (loaded, t) = is_beegfs_client_module_loaded s in
      let (installed, u) = is_beegfs_client_module_installed t in
      (
        available loaded installed,
        (elim loaded [ ok b ↦ (elim b [ true ↦ t | false ↦ u ]) | err e ↦ u ]),
      )

  -- The check succeeds exactly if the module is loaded, or else installed.
  pub verify_beegfs_client_module_is_available_lem :
      (s : History)
      → ((verify_beegfs_client_module_is_available s).0 ≡ ok tt) ↔ (
          ((is_beegfs_client_module_loaded s).0 ≡ ok true)
          ⊎ ((is_beegfs_client_module_installed (command "lsmod" [] ∷ s)).0 ≡ ok true))
  unfolding verify_beegfs_client_module_is_available
  verify_beegfs_client_module_is_available_lem s = either _ _
    where
      either : (l i : Result Cause Bool) → (available l i ≡ ok tt) ↔ ((l ≡ ok true) ⊎ (i ≡ ok true))
      either (ok true) i = (λ e. inl refl, λ e. refl)
      either (ok false) (ok true) = (λ e. inr refl, λ e. refl)
      either (ok false) (ok false) = (λ e. cc, λ e. elim e [ inl a ↦ cc | inr b ↦ cc ])
      either (ok false) (err x) = (λ e. cc, λ e. elim e [ inl a ↦ cc | inr b ↦ cc ])
      either (err y) (ok true) = (λ e. inr refl, λ e. refl)
      either (err y) (ok false) = (λ e. cc, λ e. elim e [ inl a ↦ cc | inr b ↦ cc ])
      either (err y) (err x) = (λ e. cc, λ e. elim e [ inl a ↦ cc | inr b ↦ cc ])
