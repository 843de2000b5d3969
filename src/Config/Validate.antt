-- ===== src/Config/Validate.antt =====
-- validateConfig and stripConfig (pkg/beegfs/config.go). The parsers of addresses in Go's `net` are
-- parameters.
pub mod Accepts
use beegfs_csi_driver.Prelude.{
  ℕ, ◌≤◌, String, Bool, true, false, not, ◌&&◌, ◌||◌, Option, none, some, List, [], ◌∷◌, map, ◌==◌,
  ltb, ◌=ℕ◌, if◌then◌else◌,
}
use beegfs_csi_driver.Prelude.Dict.{Dict, erase}
use beegfs_csi_driver.Prelude.Result.{Result, ok, err}
use beegfs_csi_driver.Prelude.Fallible.{◌>>=◌, ◌>>◌, require}
use beegfs_csi_driver.Text.Numbers.{atoi}
use beegfs_csi_driver.Text.Regex.{
  Regex, one, seq, alt, empty, star, opt, plus, up_to, matches, is_lower, is_digit,
}
use beegfs_csi_driver.Errors.{Cause, failure}
use beegfs_csi_driver.Config.{BeegfsConfig, FileSystemSpecificConfig, PluginConfig}

-- net.ParseIP(s) != nil, and net.ParseCIDR(s) without an error.
pub record Net : Type 0 where
  pub parse_ip : String → Bool
  pub parse_cidr : String → Bool

-- [a-z0-9] and [_a-z0-9], [a-z0-9-], [_a-z0-9-]
abbrev word : ℕ → Bool
word c = is_lower c || is_digit c

abbrev word_ : ℕ → Bool
word_ c = word c || c =ℕ b'_'

abbrev dashed : ℕ → Bool
dashed c = word c || c =ℕ b'-'

abbrev dashed_ : ℕ → Bool
dashed_ c = word_ c || c =ℕ b'-'

abbrev dot : Regex
dot = one (λ c. c =ℕ b'.')

-- (?:[_a-z0-9](?:[_a-z0-9-]{0,61}[a-z0-9]\.)
label : Regex
unfolding up_to
label = seq (one word_) (seq (up_to 61 (one dashed_)) (seq (one word) dot))

-- (?:[0-9]+/[0-9]{2})\.)
numbered : Regex
numbered =
    seq (plus (one is_digit))
      (seq (one (λ c. c =ℕ b'/')) (seq (one is_digit) (seq (one is_digit) dot)))

-- The domain names that validateConfig accepts.
unfoldable pub domain_regex : Regex
unfolding label numbered up_to
domain_regex =
    seq (plus (alt label numbered))
      (opt (seq (one is_lower) (opt (seq (up_to 61 (one dashed)) (one word)))))

unfoldable pub valid_host : Net → String → Bool
unfolding domain_regex matches
valid_host net host = host == "localhost" || net.parse_ip host || matches domain_regex host

unfoldable pub valid_port : String → Bool
unfolding atoi
valid_port port = elim (atoi port) [
  | none ↦ false
  | some (minus, p) ↦ not minus && (ltb 0 p && not (ltb 65535 p))
]

unfoldable pub valid_filter : Net → String → Bool
valid_filter net filter = net.parse_cidr filter || net.parse_ip filter

check_filters : Net → Cause → List String → Result Cause (Unit {0})
unfolding valid_filter
check_filters net e [] = ok tt
check_filters net e (filter ∷ rest) =
    require (valid_filter net filter) e >> check_filters net e rest

check_hosts : Net → List FileSystemSpecificConfig → Result Cause (Unit {0})
unfolding valid_host
check_hosts net [] = ok tt
check_hosts net (config ∷ rest) =
    require (valid_host net config.sys_mgmtd_host) (failure "invalid SysMgmtdHost")
    >> check_hosts net rest

check_config : Net → BeegfsConfig → Result Cause (Unit {0})
unfolding check_filters valid_port
check_config net config = do
  require (config.grpc_port == "" || valid_port config.grpc_port) (failure "invalid GrpcPort")
  check_filters net (failure "invalid ConnNetFilter") config.conn_net_filter
  check_filters net (failure "invalid ConnTCPOnlyFilter") config.conn_tcp_only_filter

check_configs : Net → List BeegfsConfig → Result Cause (Unit {0})
unfolding check_config
check_configs net [] = ok tt
check_configs net (config ∷ rest) = check_config net config >> check_configs net rest

abbrev pub config_of : FileSystemSpecificConfig → BeegfsConfig
config_of specific = specific.config

-- The default configuration and those of the file systems.
abbrev pub all_configs : PluginConfig → List BeegfsConfig
all_configs c = c.default_config ∷ map config_of c.file_system_specific_configs

-- validateConfig
unfoldable pub validate_config : Net → PluginConfig → Result Cause (Unit {0})
unfolding check_hosts check_configs
validate_config net c =
    check_hosts net c.file_system_specific_configs >> check_configs net (all_configs c)

-- noEffectBeegfsConfOptions
abbrev pub no_effect_beegfs_conf_options : List String
no_effect_beegfs_conf_options =
    "sysMgmtdHost" ∷ "connClientPortUDP" ∷ "connClientPort" ∷ "connPortShift" ∷ []

erase_all : List String → Dict String → Dict String
erase_all [] m = m
erase_all (k ∷ ks) m = erase_all ks (erase k m)

-- The options without effect are deleted from a configuration's map; a nil map has none.
unfoldable pub strip_beegfs_config : BeegfsConfig → BeegfsConfig
unfolding erase_all
strip_beegfs_config c = record c {
  beegfs_client_conf = elim c.beegfs_client_conf [
    | none ↦ none
    | some m ↦ some (erase_all no_effect_beegfs_conf_options m)
  ];
}

abbrev pub strip_specific : FileSystemSpecificConfig → FileSystemSpecificConfig
strip_specific specific = record specific { config = strip_beegfs_config specific.config }

-- stripConfig: the loop's copies of the configurations share their maps with the originals
unfoldable pub strip_config : PluginConfig → PluginConfig
unfolding strip_beegfs_config
strip_config c = record {
  default_config = strip_beegfs_config c.default_config;
  file_system_specific_configs = map strip_specific c.file_system_specific_configs;
}
