-- ===== src/Chwrap.antt =====
-- The command wrapper cmd/chwrap/main.go: it finds a binary of the host, and runs it with the host's
-- root directory and search path. `unix.Lstat` is the parameter `lstat`, which yields the mode.
pub mod Search
pub mod Env
use Prim.Native.Nat.{bit_and}
use beegfs_csi_driver.Prelude.{
  ℕ, String, ◌<>◌, Bool, true, false, not, ◌&&◌, ◌||◌, Option, none, some, List, [], ◌∷◌, ◌++◌,
  ◌==◌, ◌=ℕ◌, if◌then◌else◌,
}
use beegfs_csi_driver.Text.Strings.{has_prefix}
use beegfs_csi_driver.Text.Path.{segments}

-- validBinary: a regular file or a link that its owner may read and execute
unfoldable pub valid_mode : ℕ → Bool
valid_mode mode =
    (bit_and mode 0o170000 =ℕ 0o100000 || bit_and mode 0o170000 =ℕ 0o120000)
    && (not (bit_and mode 0o400 =ℕ 0) && not (bit_and mode 0o100 =ℕ 0))

unfoldable pub valid_binary : (String → Option ℕ) → String → Bool
unfolding valid_mode
valid_binary lstat path = elim (lstat path) [ none ↦ false | some mode ↦ valid_mode mode ]

abbrev pub plugin_directory : String
plugin_directory = "/var/lib/kubelet/plugins/beegfs.csi.netapp.com/client/"

-- The directories of findBinary, in its order.
abbrev pub binary_directories : List String
binary_directories =
    (plugin_directory <> "sbin")
    ∷ (plugin_directory <> "bin")
    ∷ "/usr/local/sbin"
    ∷ "/usr/local/bin"
    ∷ "/usr/sbin"
    ∷ "/usr/bin"
    ∷ "/sbin"
    ∷ "/bin"
    ∷ []

unfoldable pub find_in : (String → Option ℕ) → String → String → List String → String
unfolding valid_binary
find_in lstat prefix binary [] = ""
find_in lstat prefix binary (directory ∷ rest) =
    let later = find_in lstat prefix binary rest in
    let path = directory <> ("/" <> binary) in
    if valid_binary lstat (prefix <> path) then path else later

-- findBinary
unfoldable pub find_binary : (String → Option ℕ) → String → String → String
unfolding find_in
find_binary lstat prefix binary = find_in lstat prefix binary binary_directories

unfoldable pub without_path : List String → List String
unfolding has_prefix
without_path [] = []
without_path (e ∷ env) =
    let rest = without_path env in if has_prefix e "PATH=" then rest else e ∷ rest

abbrev pub path_entry : String
path_entry =
    "PATH=/var/lib/kubelet/plugins/beegfs.csi.netapp.com/client/sbin:/usr/local/sbin:/usr/local/bin:/usr/sbin:/usr/bin:/sbin:/bin"

-- modifyEnv
unfoldable pub modify_env : List String → List String
unfolding without_path
modify_env old_env = without_path old_env ++ path_entry ∷ []

last_segment : List String → String → String
last_segment [] found = found
last_segment (s ∷ rest) found = last_segment rest s

-- The end of `main`: the exit status of a missing command, or the program that replaces the process
-- after the root directory has been changed to /host, with its arguments and its environment.
pub data Outcome : Type 0 where
  exit : ℕ → Outcome
  exec : String → List String → List String → Outcome

-- main, for the arguments os.Args, which hold at least the name of the program
unfoldable pub main : (String → Option ℕ) → String → List String → List String → Outcome
unfolding find_binary modify_env segments last_segment
main lstat program args env =
    let binary = last_segment (segments program) program in
    let argv0 = find_binary lstat "/host" binary in
    if argv0 == "" then exit 127 else exec argv0 (program ∷ args) (modify_env env)
