-- ===== src/Lock/Laws.antt =====
-- The lock as a set and the status map as a map.
use beegfs_csi_driver.Prelude.{
  String, ◌≡◌, refl, false, not, ◌&&◌, ◌||◌, some, List, [], ◌∷◌, arith, ◌==◌, eq_iff, member,
  if◌then◌else◌,
}
use beegfs_csi_driver.Prelude.Dict.{lookup, insert, lookup-insert}
use beegfs_csi_driver.Lock.{
  StringLock, VolumeStatus, StatusMap, without, obtain_lock_on_string, release_lock_on_string,
  write_status, read_status,
}

pub without_absent : (s : String) (xs : List String) → member s xs ≡ false → without s xs ≡ xs
unfolding member without
without_absent s [] h = refl
without_absent s (x ∷ xs) h = ground (arith, without_absent s xs)

pub member-without :
    (s t : String) (xs : List String) → member t (without s xs) ≡ (not (t == s) && member t xs)
unfolding member without
member-without s t [] = ground arith
member-without s t (x ∷ xs) =
    ground (arith, member-without s t xs, eq_iff t s, eq_iff t x, eq_iff s x)

-- Obtaining succeeds exactly where the text is not locked; then it is locked, and every other text
-- is as it was. Releasing it restores the lock.
pub obtain_lock_on_string_lem :
    (s : String) (v : StringLock)
    → ((obtain_lock_on_string s v).0 ≡ not (member s v.items))
      × ((t : String) → member t (obtain_lock_on_string s v).1.items ≡ (t == s || member t v.items))
      × ((if (obtain_lock_on_string s v).0
            then release_lock_on_string s (obtain_lock_on_string s v).1
            else v)
          ≡ v)
unfolding obtain_lock_on_string release_lock_on_string member without
obtain_lock_on_string_lem s v = (
  ground arith,
  λ t. ground (arith, eq_iff t s),
  ground (arith, eq_iff s s, without_absent s v.items),
)

-- A status that is written is read, and those of other volumes stay.
pub read-write_status :
    (k j : String) (st : VolumeStatus) (m : StatusMap)
    → read_status j (write_status k st m) ≡ (if k == j then some st else read_status j m)
unfolding read_status write_status
read-write_status k j st m = lookup-insert k j st m

pub write_status_same :
    (k : String) (st : VolumeStatus) (m : StatusMap)
    → read_status k m ≡ some st
    → write_status k st m ≡ m
unfolding read_status write_status lookup insert
write_status_same k st [] h = cc
write_status_same k st ((j, w) ∷ m) h = ground (arith, eq_iff j k, write_status_same k st m)
