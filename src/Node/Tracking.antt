-- ===== src/Node/Tracking.antt =====
-- The controller service and the nodes agree on the directories of a volume.
use beegfs_csi_driver.Prelude.{
  String, ◌≡◌, refl, sym, ap, ◌∙◌, true, List, [], ◌∷◌, ◌++◌, All, arith,
}
use beegfs_csi_driver.Prelude.Result.{Result, ok, err}
use beegfs_csi_driver.Prelude.Fallible
use beegfs_csi_driver.Text.Path.{path_join, render}
use beegfs_csi_driver.Text.Path.Names.{IsName}
use beegfs_csi_driver.Errors.{Cause, Code, internal}
use beegfs_csi_driver.Config.{PluginConfig}
use beegfs_csi_driver.Volume.{
  BeegfsVolume, Library, parse_beegfs_url, new_beegfs_volume, new_beegfs_volume_from_id,
  controller_volume_from_id,
}
use beegfs_csi_driver.Volume.Id.{sanitize_volume_id}
use beegfs_csi_driver.Volume.Places.{IsPlaced, new_beegfs_volume-IsPlaced, nodes_dir-eq, vol_dir-eq}
use beegfs_csi_driver.Host.{Host}
use beegfs_csi_driver.Controller.Delete
use beegfs_csi_driver.Node.{Settings, grpc, volume_from, nodes_path}

-- Wherever a service mounts the file system, the volume of an identifier has the same directories.
from_id-IsPlaced :
    (lib : Library) (cfg : PluginConfig) (id host name : String) (ms bs : List String)
    (vol : BeegfsVolume)
    → All IsName ms
    → All IsName bs
    → IsName name
    → parse_beegfs_url lib id ≡ ok (host, render true (bs ++ name ∷ []))
    → new_beegfs_volume_from_id lib (render true ms) id cfg ≡ ok vol
    → IsPlaced ms bs name vol
unfolding new_beegfs_volume_from_id
from_id-IsPlaced lib cfg id host name ms bs vol hm hb hn is_url e =
    new_beegfs_volume-IsPlaced lib cfg host name ms bs vol hm hb hn (
      ap
        (λ (r : Result Cause (String × String)).
          Fallible.◌>>=◌ r
            λ (q : String × String). new_beegfs_volume lib (render true ms) q.0 q.1 cfg)
        (sym is_url)
      ∙ e)

grpc-eq_ok : {A : Type 0} (code : Code) (r : Result Cause A) (a : A) → grpc code r ≡ ok a → r ≡ ok a
grpc-eq_ok code (ok b) a e = ap ok (ground arith)
grpc-eq_ok code (err x) a e = absurd (ground arith)

-- For a volume whose identifier names a path of at least one name, and mount directories that are
-- paths of names: the directory that the controller service creates on the file system to track the
-- nodes of the volume is, under the mount path of the controller service, the one that DeleteVolume
-- waits for, and, under the mount path of a node, the one that the node tracks itself in. The directory
-- that a node publishes is the volume's directory on the file system.
pub tracking-shared :
    (h : Host) (settings : Settings) (cs_data_dir : String) (cfg : PluginConfig)
    (id host name : String) (cs ns bs : List String) (c n : BeegfsVolume)
    → All IsName cs
    → All IsName ns
    → All IsName bs
    → IsName name
    → parse_beegfs_url h.library id ≡ ok (host, render true (bs ++ name ∷ []))
    → path_join (cs_data_dir ∷ sanitize_volume_id h.library.sha1_hex id ∷ []) ≡ render true cs
    → controller_volume_from_id h.library cs_data_dir cfg id ≡ ok c
    → volume_from h settings (render true ns) id ≡ ok n
    → (Delete.nodes_path c
        ≡ path_join (c.mount_path ∷ path_join (c.csi_dir_path_beegfs_root ∷ "nodes" ∷ []) ∷ []))
      × (nodes_path h settings n
          ≡ path_join (n.mount_path ∷ path_join (c.csi_dir_path_beegfs_root ∷ "nodes" ∷ []) ∷ []))
      × (n.vol_dir_path ≡ path_join (n.mount_path ∷ c.vol_dir_path_beegfs_root ∷ []))
unfolding controller_volume_from_id volume_from
tracking-shared h settings cs_data_dir cfg id host name cs ns bs c n hc hs hb hn is_url is_dir is_c
      is_n =
    let pc =
      from_id-IsPlaced h.library cfg id host name cs bs c hc hb hn is_url
        (ap (λ (d : String). new_beegfs_volume_from_id h.library d id cfg) (sym is_dir) ∙ is_c) in
    let pn =
      from_id-IsPlaced h.library settings.plugin_config id host name ns bs n hs hb hn is_url
        (grpc-eq_ok internal _ n is_n) in
    (
      nodes_dir-eq cs bs name c c hc hb hn pc refl,
      nodes_dir-eq ns bs name n c hs hb hn pn
          (pn.csi_dir_path_beegfs_root ∙ sym pc.csi_dir_path_beegfs_root),
      vol_dir-eq ns bs name n c hs hb hn pn
          (pn.vol_dir_path_beegfs_root ∙ sym pc.vol_dir_path_beegfs_root),
    )
