-- ===== src/Node/Unstaging.antt =====
-- When NodeUnstageVolume unmounts a volume: only after no bind mount of its file system was found.
use beegfs_csi_driver.Prelude.{
  ◌≢◌, ◌∙◌, ◌++◌, All, String, ◌≡◌, refl, sym, ap, subst, Bool, true, false, List, [], ◌∷◌, ◌==◌,
  if◌then◌else◌,
}
use beegfs_csi_driver.Prelude.Result.{Result, ok, err, pure, fail, lift, continue, ◌>>=◌, ◌>>◌}
use beegfs_csi_driver.Text.Path.{path_join, render}
use beegfs_csi_driver.Text.Path.Names.{IsName, path_join-names}
use beegfs_csi_driver.Text.Path.Last.{render-snoc-neq}
use beegfs_csi_driver.Errors.{Cause, failure, GrpcError, internal, grpc_error}
use beegfs_csi_driver.Volume.{BeegfsVolume}
use beegfs_csi_driver.Host.{
  Host, History, Call, Io, MountPoint, remove_all, remove, read_dir, exists, list_mounts,
  cleanup_mount_point, act,
}
use beegfs_csi_driver.Host.Trace.{
  Since, here, later, Since-trans, Makes, pure-Makes, call-Makes, bind-Makes, Guarded, refused,
  passed, before-Guarded, known-Guarded,
}
use beegfs_csi_driver.Mount.{
  bind_mounted, remove_each, clean_up_if_necessary, unmount_and_clean_up_if_necessary,
}
use beegfs_csi_driver.Node.{
  Settings, Handler, invalid, on_host, best_effort, volume_from, node_path, untrack,
  node_unstage_volume,
}
use beegfs_csi_driver.Node.Calls.{best_effort-Makes}

-- The mount points of the node are known, and none is a bind mount of the volume's file system.
pub not_bound : Host → BeegfsVolume → Handler (Unit {0})
not_bound h vol s = elim (h.mounts_reply s list_mounts) [
  | err e ↦ (err (grpc_error internal e), list_mounts ∷ s)
  | ok all_mounts ↦ elim (bind_mounted vol all_mounts) [
    | true ↦ (err (grpc_error internal (failure "bind mounted")), list_mounts ∷ s)
    | false ↦ (ok tt, list_mounts ∷ s)
  ]
]

-- What NodeUnstageVolume does before: it removes the file that tracks the node, and lists the mount
-- points.
pub data Untracks (cfg : Settings) (vol : BeegfsVolume) : Call → Type 0 where
  asks_tracked :
      Untracks cfg vol
        (exists (path_join (path_join (vol.csi_dir_path ∷ "nodes" ∷ []) ∷ cfg.node_id ∷ [])))
  untracks :
      Untracks cfg vol
        (remove (path_join (path_join (vol.csi_dir_path ∷ "nodes" ∷ []) ∷ cfg.node_id ∷ [])))
  lists : Untracks cfg vol list_mounts

-- What it does afterwards: it unmounts the file system of the volume, and removes entries of the
-- staging directory, each of which is another path than the directory.
pub data Unmounts (ms : List String) (vol : BeegfsVolume) : Call → Type 0 where
  unmounts : Unmounts ms vol (cleanup_mount_point vol.mount_path false)
  reads : Unmounts ms vol (read_dir vol.mount_dir_path)
  empties :
      (name : String)
      → IsName name
      → render true (ms ++ name ∷ []) ≢ vol.mount_dir_path
      → Unmounts ms vol (remove_all (render true (ms ++ name ∷ [])))

-- What ReadDir is documented to answer: names of entries, without "." and "..".
abbrev pub ReadsNames : Host → String → Type 0
ReadsNames h path =
    (s : History) (found : List String)
    → h.names_reply s (read_dir path) ≡ ok found
    → All IsName found

module _ (h : Host) (cfg : Settings) (vol : BeegfsVolume) (ms : List String) (hm : All IsName ms)
    (staged : vol.mount_dir_path ≡ render true ms)
    (reads_names : ReadsNames h vol.mount_dir_path) where
  abbrev P : Call → Type 0
  P = Untracks cfg vol

  abbrev Q : Call → Type 0
  Q = Unmounts ms vol

  untrack-Makes : Makes P (untrack h cfg vol)
  unfolding untrack
  untrack-Makes = bind-Makes P _ _ (call-Makes P _ _ asks_tracked) λ there. choose there
    where
      choose :
          (b : Bool)
          → Makes P (elim b as (λ (_ : Bool). Io (Unit {0})) [
            | false ↦ pure tt
            | true ↦ act h (remove (node_path h cfg vol))
          ])
      choose true = call-Makes P _ _ untracks
      choose false = pure-Makes P tt

  remove_each-Makes :
      (names : List String) → All IsName names → Makes Q (remove_each h vol.mount_dir_path names)
  unfolding remove_each
  remove_each-Makes [] hs = pure-Makes Q tt
  remove_each-Makes (name ∷ rest) (hn, hs) =
      bind-Makes Q _ _
        (call-Makes Q _ _ (
          subst (λ (p : String). Unmounts ms vol (remove_all p))
            (sym (
              ap (λ (p : String). path_join (p ∷ name ∷ [])) staged
              ∙ path_join-names ms (name ∷ []) hm (hn, tt)))
            (empties name hn (λ e. render-snoc-neq ms name hm hn (e ∙ staged)))))
        λ _. remove_each-Makes rest hs

  clean_up-Makes : Makes Q (clean_up_if_necessary h vol false)
  unfolding clean_up_if_necessary ◌>>=◌
  clean_up-Makes = record {
    since = λ s.
        Since-trans (later _ reads here)
          (listed s (h.names_reply s (read_dir vol.mount_dir_path)) refl);
  }
    where
      listed :
          (s : History) (r : Result Cause (List String))
          → h.names_reply s (read_dir vol.mount_dir_path) ≡ r
          → Since Q
              (read_dir vol.mount_dir_path ∷ s)
              (continue r
                (λ found. remove_each h vol.mount_dir_path found)
                (read_dir vol.mount_dir_path ∷ s)).1
      listed s (ok found) e = (remove_each-Makes found (reads_names s found e)).since _
      listed s (err x) e = here

  unmount : Io (Unit {0})
  unmount = act h (cleanup_mount_point vol.mount_path false) >> clean_up_if_necessary h vol false

  unmount-Makes : Makes Q unmount
  unfolding unmount
  unmount-Makes = bind-Makes Q _ _ (call-Makes Q _ _ unmounts) λ _. clean_up-Makes

  not_bound-eq :
      (s : History) (found : List MountPoint)
      → h.mounts_reply s list_mounts ≡ ok found
      → bind_mounted vol found ≡ false
      → not_bound h vol s ≡ (ok tt, list_mounts ∷ s)
  unfolding not_bound
  not_bound-eq s found e free = rw (e, not_bound) (rw free refl)

  -- The outcome by the answer of the mounter.
  listed :
      (s : History) (r : Result Cause (List MountPoint))
      → h.mounts_reply s list_mounts ≡ r
      → Guarded P Q (not_bound h vol) s (
          on_host internal
            (λ (t : History).
              continue r
                (λ all_mounts. elim (bind_mounted vol all_mounts) [
                  | true ↦ fail (failure "refused to unmount staged file system while bind mounted")
                  | false ↦ unmount
                ])
                t)
            (list_mounts ∷ s))
  unfolding on_host fail
  listed s (err e) is = refused _ _ (later _ lists here)
  listed s (ok found) is = bound (bind_mounted vol found) refl
    where
      bound :
          (b : Bool)
          → bind_mounted vol found ≡ b
          → Guarded P Q (not_bound h vol) s (
              on_host internal
                (elim b [
                  | true ↦ fail (failure "refused to unmount staged file system while bind mounted")
                  | false ↦ unmount
                ])
                (list_mounts ∷ s))
      bound true e = refused _ _ (later _ lists here)
      bound false e =
          let known = not_bound-eq s found is e in
          passed s _ _ here (ap (λ (x : Result GrpcError (Unit {0}) × History). x.0) known)
            (subst (λ (x : Result GrpcError (Unit {0}) × History). Since P s x.1) (sym known)
              (later _ lists here))
            (subst
              (λ (x : Result GrpcError (Unit {0}) × History).
                Since Q x.1 (unmount (list_mounts ∷ s)).1)
              (sym known) (unmount-Makes.since (list_mounts ∷ s)))

  unmount-Guarded :
      (s : History)
      → Guarded P Q
          (not_bound h vol)
          s
          (on_host internal (unmount_and_clean_up_if_necessary h vol false) s)
  unfolding on_host unmount_and_clean_up_if_necessary ◌>>=◌ unmount
  unmount-Guarded s = listed s (h.mounts_reply s list_mounts) refl

-- NodeUnstageVolume: until it has found that no other mount point of the node is a bind mount of the
-- volume's file system, it only removes the file that tracks the node. It unmounts nothing but the
-- mount path of the volume, and only afterwards; then it removes entries of the staging directory,
-- and never the directory itself, which is a path of names, where ReadDir answers names of entries.
-- Where a bind mount is found, the request fails and nothing is unmounted.
pub node_unstage_volume-Guarded :
    (h : Host) (cfg : Settings) (volume_id staging_target_path : String) (vol : BeegfsVolume)
    (ms : List String) (s : History)
    → All IsName ms
    → vol.mount_dir_path ≡ render true ms
    → ReadsNames h vol.mount_dir_path
    → volume_from h cfg staging_target_path volume_id ≡ ok vol
    → Guarded
        (Untracks cfg vol)
        (Unmounts ms vol)
        (not_bound h vol)
        s
        (node_unstage_volume h cfg volume_id staging_target_path s)
unfolding node_unstage_volume lift
node_unstage_volume-Guarded h cfg volume_id staging_target_path vol ms s hm staged reads_names
      is_vol =
    choose (volume_id == "") (staging_target_path == "")
  where
    run : Handler (Unit {0})
    run = lift (volume_from h cfg staging_target_path volume_id) >>= λ (v : BeegfsVolume).
        best_effort (untrack h cfg v)
        >> on_host internal (unmount_and_clean_up_if_necessary h v false)

    goes : Guarded (Untracks cfg vol) (Unmounts ms vol) (not_bound h vol) s (run s)
    goes = known-Guarded _ _ _ _ _ vol s is_vol (
        before-Guarded _ _ _ _ _
          (best_effort-Makes _ _ (untrack-Makes h cfg vol ms hm staged reads_names))
          (λ _. unmount-Guarded h cfg vol ms hm staged reads_names) s)

    choose :
        (a b : Bool)
        → Guarded (Untracks cfg vol) (Unmounts ms vol) (not_bound h vol) s (
            (if a
                then lift (invalid "Volume ID not provided")
                else if b
                then lift (invalid "Staging target path not provided")
                else run)
              s)
    choose true b = refused _ s here
    choose false true = refused _ s here
    choose false false = goes
