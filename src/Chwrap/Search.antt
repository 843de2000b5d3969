-- ===== src/Chwrap/Search.antt =====
-- findBinary: the first directory that has the binary.
use beegfs_csi_driver.Prelude.{
  ℕ, String, ◌<>◌, ◌≡◌, inl, inr, refl, ap, true, false, Option, List, [], ◌∷◌, ◌++◌, All,
  Bool-cases,
}
use beegfs_csi_driver.Chwrap.{valid_binary, find_in, find_binary, binary_directories}

-- The binary's path in a directory.
abbrev pub path_in : String → String → String
path_in directory binary = directory <> ("/" <> binary)

-- A directory that does not have the binary.
abbrev pub IsMissing : (String → Option ℕ) → String → String → String → Type 0
IsMissing lstat prefix binary directory =
    valid_binary lstat (prefix <> path_in directory binary) ≡ false

-- Nothing is found, and no directory has the binary; or it is found in the first directory that has it.
pub data Found (lstat : String → Option ℕ) (prefix binary : String) (directories : List String)
    : String → Type 0 where
  nowhere :
      All (IsMissing lstat prefix binary) directories → Found lstat prefix binary directories ""
  first :
      (before : List String) (directory : String) (after : List String)
      → directories ≡ before ++ directory ∷ after
      → All (IsMissing lstat prefix binary) before
      → valid_binary lstat (prefix <> path_in directory binary) ≡ true
      → Found lstat prefix binary directories (path_in directory binary)

further :
    {lstat : String → Option ℕ} {prefix binary found directory : String} {rest : List String}
    → IsMissing lstat prefix binary directory
    → Found lstat prefix binary rest found
    → Found lstat prefix binary (directory ∷ rest) found
further m (nowhere all) = nowhere (m, all)
further {directory = directory} m (first before d after e all v) =
    first (directory ∷ before) d after (ap (λ ds. directory ∷ ds) e) (m, all) v

find_in-Found :
    (lstat : String → Option ℕ) (prefix binary : String) (directories : List String)
    → Found lstat prefix binary directories (find_in lstat prefix binary directories)
unfolding find_in
find_in-Found lstat prefix binary [] = nowhere tt
find_in-Found lstat prefix binary (directory ∷ rest) =
    elim (Bool-cases (valid_binary lstat (prefix <> path_in directory binary))) [
      | inl v ↦ rw v (first [] directory rest refl tt v)
      | inr m ↦ rw m (further m (find_in-Found lstat prefix binary rest))
    ]

-- findBinary yields the binary's path in the first of its directories that has it below the prefix,
-- or the empty text if none has.
pub find_binary-Found :
    (lstat : String → Option ℕ) (prefix binary : String)
    → Found lstat prefix binary binary_directories (find_binary lstat prefix binary)
unfolding find_binary
find_binary-Found lstat prefix binary = find_in-Found lstat prefix binary binary_directories
