-- ===== src/Volume/Places.antt =====
-- The directories of a volume: the controller service and each node mount the file system somewhere
-- else, and mean the same directories of it.
use beegfs_csi_driver.Prelude.{
  String, ◌≡◌, refl, sym, ap, ◌∙◌, subst, true, List, [], ◌∷◌, ◌++◌, append_assoc, All, All-append,
}
use beegfs_csi_driver.Prelude.Result.{Result, ok, err}
use beegfs_csi_driver.Prelude.Fallible
use beegfs_csi_driver.Text.Path.{path_join, render, dir, base}
use beegfs_csi_driver.Text.Path.Names.{IsName, path_join-names, path_join-paths}
use beegfs_csi_driver.Text.Path.Last.{dir-snoc, base-snoc}
use beegfs_csi_driver.Errors.{Cause}
use beegfs_csi_driver.Config.{PluginConfig}
use beegfs_csi_driver.Config.Merge.{squash_config_for_sys_mgmtd_host}
use beegfs_csi_driver.Volume.{BeegfsVolume, Library, new_beegfs_volume}

-- The paths of a volume, under the mount path that a service uses and on the file system itself.
pub record IsPlaced (ms bs : List String) (name : String) (vol : BeegfsVolume) : Type 0 where
  pub mount_path : vol.mount_path ≡ render true (ms ++ "mount" ∷ [])
  pub vol_dir_path_beegfs_root : vol.vol_dir_path_beegfs_root ≡ render true (bs ++ name ∷ [])
  pub vol_dir_path : vol.vol_dir_path ≡ render true ((ms ++ "mount" ∷ []) ++ (bs ++ name ∷ []))
  pub csi_dir_path_beegfs_root :
      vol.csi_dir_path_beegfs_root ≡ render true (bs ++ ".csi" ∷ "volumes" ∷ name ∷ [])
  pub csi_dir_path :
      vol.csi_dir_path
      ≡ render true ((ms ++ "mount" ∷ []) ++ (bs ++ ".csi" ∷ "volumes" ∷ name ∷ []))

-- The same of a volume that may have failed to be made.
abbrev PlacedIfOk : List String → List String → String → Result Cause BeegfsVolume → Type 0
PlacedIfOk ms bs name (ok vol) = IsPlaced ms bs name vol
PlacedIfOk ms bs name (err e) = Unit

bind-PlacedIfOk :
    {A : Type 0} (ms bs : List String) (name : String) (r : Result Cause A)
    (f : A → Result Cause BeegfsVolume)
    → ((a : A) → PlacedIfOk ms bs name (f a))
    → PlacedIfOk ms bs name (Fallible.◌>>=◌ r f)
bind-PlacedIfOk ms bs name (ok a) f h = h a
bind-PlacedIfOk ms bs name (err e) f h = tt

mount_name : IsName "mount"
mount_name = record { segment = refl; some_text = refl; not_dot = refl; not_dots = refl }

csi_name : IsName ".csi"
csi_name = record { segment = refl; some_text = refl; not_dot = refl; not_dots = refl }

volumes_name : IsName "volumes"
volumes_name = record { segment = refl; some_text = refl; not_dot = refl; not_dots = refl }

nodes_name : IsName "nodes"
nodes_name = record { segment = refl; some_text = refl; not_dot = refl; not_dots = refl }

-- The paths that newBeegfsVolume puts together.
module _ (ms bs : List String) (name : String) (hm : All IsName ms) (hb : All IsName bs)
    (hn : IsName name) where
  mount_names : All IsName (ms ++ "mount" ∷ [])
  mount_names = All-append IsName ms ("mount" ∷ []) hm (mount_name, tt)

  csi_names : All IsName (".csi" ∷ "volumes" ∷ name ∷ [])
  csi_names = (csi_name, (volumes_name, (hn, tt)))

  mount_path_lem : path_join (render true ms ∷ "mount" ∷ []) ≡ render true (ms ++ "mount" ∷ [])
  mount_path_lem = path_join-names ms ("mount" ∷ []) hm (mount_name, tt)

  vol_dir_path_lem :
      path_join (path_join (render true ms ∷ "mount" ∷ []) ∷ render true (bs ++ name ∷ []) ∷ [])
      ≡ render true ((ms ++ "mount" ∷ []) ++ (bs ++ name ∷ []))
  vol_dir_path_lem =
      ap (λ (p : String). path_join (p ∷ render true (bs ++ name ∷ []) ∷ [])) mount_path_lem
      ∙ path_join-paths (ms ++ "mount" ∷ []) (bs ++ name ∷ []) mount_names
          (All-append IsName bs (name ∷ []) hb (hn, tt))

  -- The directory behind a path of names, where `Dir` and `Base` take its last name off.
  csi_dir_lem :
      (ns : List String)
      → All IsName ns
      → path_join (
          dir (render true (ns ++ name ∷ []))
          ∷ ".csi"
          ∷ "volumes"
          ∷ base (render true (bs ++ name ∷ []))
          ∷ [])
        ≡ render true (ns ++ ".csi" ∷ "volumes" ∷ name ∷ [])
  csi_dir_lem ns h =
      ap
        (λ (d : String).
          path_join (d ∷ ".csi" ∷ "volumes" ∷ base (render true (bs ++ name ∷ [])) ∷ []))
        (dir-snoc ns name h hn)
      ∙ ap (λ (b : String). path_join (render true ns ∷ ".csi" ∷ "volumes" ∷ b ∷ []))
          (base-snoc bs name hb hn)
      ∙ path_join-names ns (".csi" ∷ "volumes" ∷ name ∷ []) h csi_names

pub new_beegfs_volume-IsPlaced :
    (lib : Library) (cfg : PluginConfig) (host name : String) (ms bs : List String)
    (vol : BeegfsVolume)
    → All IsName ms
    → All IsName bs
    → IsName name
    → new_beegfs_volume lib (render true ms) host (render true (bs ++ name ∷ [])) cfg ≡ ok vol
    → IsPlaced ms bs name vol
unfolding new_beegfs_volume
new_beegfs_volume-IsPlaced lib cfg host name ms bs vol hm hb hn e =
    subst (PlacedIfOk ms bs name) e (
      bind-PlacedIfOk ms bs name (squash_config_for_sys_mgmtd_host host cfg) _ λ config. record {
        mount_path = mount_path_lem ms bs name hm hb hn;
        vol_dir_path_beegfs_root = refl;
        vol_dir_path = vol_dir_path_lem ms bs name hm hb hn;
        csi_dir_path_beegfs_root = csi_dir_lem ms bs name hm hb hn bs hb;
        csi_dir_path =
            ap
              (λ (p : String).
                path_join (dir p ∷ ".csi" ∷ "volumes" ∷ base (render true (bs ++ name ∷ [])) ∷ []))
              (vol_dir_path_lem ms bs name hm hb hn
                ∙ ap (render true) (sym (append_assoc (ms ++ "mount" ∷ []) bs (name ∷ []))))
            ∙ csi_dir_lem ms bs name hm hb hn ((ms ++ "mount" ∷ []) ++ bs)
                (All-append IsName (ms ++ "mount" ∷ []) bs (mount_names ms bs name hm hb hn) hb)
            ∙ ap (render true)
                (append_assoc (ms ++ "mount" ∷ []) bs (".csi" ∷ "volumes" ∷ name ∷ []));
      })

-- A directory below a joined path is the directory below its second part, joined.
nodes-path_join :
    (mount csi : List String)
    → All IsName mount
    → All IsName csi
    → path_join (render true (mount ++ csi) ∷ "nodes" ∷ [])
      ≡ path_join (render true mount ∷ path_join (render true csi ∷ "nodes" ∷ []) ∷ [])
nodes-path_join mount csi hm hc =
    path_join-names (mount ++ csi) ("nodes" ∷ []) (All-append IsName mount csi hm hc)
      (nodes_name, tt)
    ∙ ap (render true) (append_assoc mount csi ("nodes" ∷ []))
    ∙ sym (
        path_join-paths mount (csi ++ "nodes" ∷ []) hm
          (All-append IsName csi ("nodes" ∷ []) hc (nodes_name, tt)))
    ∙ ap (λ (p : String). path_join (render true mount ∷ p ∷ []))
        (sym (path_join-names csi ("nodes" ∷ []) hc (nodes_name, tt)))

-- The directory that tracks the nodes of a volume: where it is on the file system itself, and under the
-- mount path of a service.
pub nodes_dir-eq :
    (ms bs : List String) (name : String) (vol other : BeegfsVolume)
    → All IsName ms
    → All IsName bs
    → IsName name
    → IsPlaced ms bs name vol
    → vol.csi_dir_path_beegfs_root ≡ other.csi_dir_path_beegfs_root
    → path_join (vol.csi_dir_path ∷ "nodes" ∷ [])
      ≡ path_join (vol.mount_path ∷ path_join (other.csi_dir_path_beegfs_root ∷ "nodes" ∷ []) ∷ [])
nodes_dir-eq ms bs name vol other hm hb hn placed same =
    ap (λ (p : String). path_join (p ∷ "nodes" ∷ [])) placed.csi_dir_path
    ∙ nodes-path_join (ms ++ "mount" ∷ []) (bs ++ ".csi" ∷ "volumes" ∷ name ∷ [])
        (mount_names ms bs name hm hb hn)
        (All-append IsName bs (".csi" ∷ "volumes" ∷ name ∷ []) hb (csi_names ms bs name hm hb hn))
    ∙ ap
        (λ (p : String).
          path_join (
            p ∷ path_join (render true (bs ++ ".csi" ∷ "volumes" ∷ name ∷ []) ∷ "nodes" ∷ []) ∷ []))
        (sym placed.mount_path)
    ∙ ap (λ (p : String). path_join (vol.mount_path ∷ path_join (p ∷ "nodes" ∷ []) ∷ []))
        (sym placed.csi_dir_path_beegfs_root ∙ same)

pub vol_dir-eq :
    (ms bs : List String) (name : String) (vol other : BeegfsVolume)
    → All IsName ms
    → All IsName bs
    → IsName name
    → IsPlaced ms bs name vol
    → vol.vol_dir_path_beegfs_root ≡ other.vol_dir_path_beegfs_root
    → vol.vol_dir_path ≡ path_join (vol.mount_path ∷ other.vol_dir_path_beegfs_root ∷ [])
vol_dir-eq ms bs name vol other hm hb hn placed same =
    placed.vol_dir_path
    ∙ sym (
        path_join-paths (ms ++ "mount" ∷ []) (bs ++ name ∷ []) (mount_names ms bs name hm hb hn)
          (All-append IsName bs (name ∷ []) hb (hn, tt)))
    ∙ ap (λ (p : String). path_join (p ∷ render true (bs ++ name ∷ []) ∷ []))
        (sym placed.mount_path)
    ∙ ap (λ (p : String). path_join (vol.mount_path ∷ p ∷ []))
        (sym placed.vol_dir_path_beegfs_root ∙ same)
