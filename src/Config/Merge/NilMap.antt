-- ===== src/Config/Merge/NilMap.antt =====
-- overWriteBeegfsConfig writes into the map of its target, and panics where that map is nil.
use beegfs_csi_driver.Prelude.{String, ◌≡◌, ◌≢◌, refl, ◌↔◌, Option, none, some, [], ◌∷◌}
use beegfs_csi_driver.Prelude.Dict.{Dict, insert}
use beegfs_csi_driver.Prelude.Result.{Result, ok, err}
use beegfs_csi_driver.Prelude.Fallible.{◌>>=◌}
use beegfs_csi_driver.Errors.{Cause, panic}
use beegfs_csi_driver.Config.{BeegfsConfig}
use beegfs_csi_driver.Config.Merge.{entries, write_entries, overwrite_beegfs_config}

abbrev pub nil_map_write : Cause
nil_map_write = panic "assignment to entry in nil map"

write_entries-some :
    (m from : Dict String) → (w : Dict String) × (write_entries (some m) from ≡ ok (some w))
unfolding write_entries
write_entries-some m [] = (m, refl)
write_entries-some m ((k, v) ∷ from) = write_entries-some (insert k v m) from

write_entries_panics :
    (to : Option (Dict String)) (from : Dict String)
    → (write_entries to from ≡ err nil_map_write) ↔ ((to ≡ none) × (from ≢ []))
unfolding write_entries
write_entries_panics to [] = (λ h. cc, λ h. absurd (h.1 refl))
write_entries_panics none (kv ∷ from) = (λ h. (refl, λ e. cc), λ h. refl)
write_entries_panics (some m) ((k, v) ∷ from) =
    let (w, e) = write_entries-some (insert k v m) from in (λ h. cc, λ h. cc)

then_ok-err :
    {A B : Type 0} (m : Result Cause A) (f : A → B) (e : Cause)
    → ((m >>= λ a. ok (f a)) ≡ err e) ↔ (m ≡ err e)
then_ok-err (ok a) f e = (λ h. cc, λ h. cc)
then_ok-err (err e') f e = (λ h. cc, λ h. cc)

-- An overwrite panics exactly when the target's map is nil and the source's has an entry.
pub overwrite_beegfs_config-panic :
    (to from : BeegfsConfig)
    → (overwrite_beegfs_config to from ≡ err nil_map_write)
      ↔ ((to.beegfs_client_conf ≡ none) × (entries from.beegfs_client_conf ≢ []))
unfolding overwrite_beegfs_config
overwrite_beegfs_config-panic to from =
    let writes = write_entries_panics to.beegfs_client_conf (entries from.beegfs_client_conf) in
    let chain =
      then_ok-err (write_entries to.beegfs_client_conf (entries from.beegfs_client_conf)) _ _ in
    (λ h. writes.0 (chain.0 h), λ h. chain.1 (writes.1 h))
