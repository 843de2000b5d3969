-- ===== src/Lock.antt =====
-- threadSafeStringLock and threadSafeStatusMap (pkg/beegfs/thread_safe.go). Each method holds the
-- mutex of its structure from beginning to end, so a call is one step on the contents.
pub mod Laws
pub mod Exclusion
use beegfs_csi_driver.Prelude.{
  String, ◌≡◌, Bool, true, false, Option, List, [], ◌∷◌, arith, ◌==◌, eq_iff, member, if◌then◌else◌,
}
use beegfs_csi_driver.Prelude.Dict.{Dict, lookup, insert}

-- The locked texts, without repetition.
pub record StringLock : Type 0 where
  pub items : List String

abbrev pub new_string_lock : StringLock
new_string_lock = record { items = [] }

unfoldable pub without : String → List String → List String
without s [] = []
without s (x ∷ xs) = let rest = without s xs in if s == x then rest else x ∷ rest

-- obtainLockOnString
unfoldable pub obtain_lock_on_string : String → StringLock → Bool × StringLock
unfolding member
obtain_lock_on_string s v =
    if member s v.items then (false, v) else (true, record v { items = s ∷ v.items })

-- releaseLockOnString
unfoldable pub release_lock_on_string : String → StringLock → StringLock
unfolding without
release_lock_on_string s v = record v { items = without s v.items }

pub data VolumeStatus : Type 0 where
  status_created status_deleted : VolumeStatus

abbrev pub StatusMap : Type 0
StatusMap = Dict VolumeStatus

abbrev pub new_status_map : StatusMap
new_status_map = []

-- writeStatus
unfoldable pub write_status : String → VolumeStatus → StatusMap → StatusMap
unfolding insert
write_status = insert

-- readStatus
unfoldable pub read_status : String → StatusMap → Option VolumeStatus
unfolding lookup
read_status = lookup
