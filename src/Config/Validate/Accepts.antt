-- ===== src/Config/Validate/Accepts.antt =====
-- What validateConfig accepts, and what stripConfig leaves.
use beegfs_csi_driver.Prelude.{
  ℕ, ◌≤◌, String, ◌≡◌, refl, ◌↔◌, ◌⊎◌, Bool, true, false, ◌||◌, Option, none, some, List, [], ◌∷◌,
  map, arith, ◌==◌, eq_iff, if◌then◌else◌, All, member,
}
use beegfs_csi_driver.Prelude.Dict.{Dict, lookup, erase, lookup-erase}
use beegfs_csi_driver.Prelude.Result.{Result, ok, err}
use beegfs_csi_driver.Prelude.Fallible.{◌>>◌, require}
use beegfs_csi_driver.Text.Numbers.{atoi}
use beegfs_csi_driver.Text.Regex.{matches}
use beegfs_csi_driver.Errors.{Cause}
use beegfs_csi_driver.Config.{BeegfsConfig, FileSystemSpecificConfig, PluginConfig}
use beegfs_csi_driver.Config.Merge.{entries}
use beegfs_csi_driver.Config.Validate.{
  Net, domain_regex, valid_host, valid_port, valid_filter, check_filters, check_hosts, check_config,
  check_configs, all_configs, validate_config, no_effect_beegfs_conf_options, erase_all,
  strip_beegfs_config, strip_specific, config_of, strip_config,
}

-- A host is localhost, an address or a domain name.
abbrev pub IsHost : Net → String → Type 0
IsHost net host =
    (host ≡ "localhost") ⊎ ((net.parse_ip host ≡ true) ⊎ (matches domain_regex host ≡ true))

-- A port is left out, or a number from 1 to 65535.
abbrev pub IsPort : String → Type 0
IsPort port = (port ≡ "") ⊎ ((p : ℕ) × (atoi port ≡ some (false, p)) × (1 ≤ p) × (p ≤ 65535))

-- A filter is a network or an address.
abbrev pub IsFilter : Net → String → Type 0
IsFilter net filter = (net.parse_cidr filter ≡ true) ⊎ (net.parse_ip filter ≡ true)

abbrev pub IsValidConfig : Net → BeegfsConfig → Type 0
IsValidConfig net c =
    IsPort c.grpc_port
    × All (IsFilter net) c.conn_net_filter
    × All (IsFilter net) c.conn_tcp_only_filter

abbrev pub IsValid : Net → PluginConfig → Type 0
IsValid net c =
    All (λ s. IsHost net s.sys_mgmtd_host) c.file_system_specific_configs
    × All (IsValidConfig net) (all_configs c)

require_then :
    (b : Bool) (e : Cause) (m : Result Cause (Unit {0}))
    → ((require b e >> m) ≡ ok tt) ↔ ((b ≡ true) × (m ≡ ok tt))
require_then true e m = (λ h. (refl, h), λ h. h.1)
require_then false e m = (λ h. cc, λ h. cc)

then_ok : (l m : Result Cause (Unit {0})) → ((l >> m) ≡ ok tt) ↔ ((l ≡ ok tt) × (m ≡ ok tt))
then_ok (ok tt) m = (λ h. (refl, h), λ h. h.1)
then_ok (err e) m = (λ h. cc, λ h. cc)

valid_host_iff : (net : Net) (host : String) → (valid_host net host ≡ true) ↔ IsHost net host
unfolding valid_host
valid_host_iff net host = ground (arith, eq_iff host "localhost")

valid_port_iff : (port : String) → ((port == "" || valid_port port) ≡ true) ↔ IsPort port
unfolding valid_port
valid_port_iff port = ground (arith, eq_iff port "")

valid_filter_iff :
    (net : Net) (filter : String) → (valid_filter net filter ≡ true) ↔ IsFilter net filter
unfolding valid_filter
valid_filter_iff net filter = ground arith

check_filters_iff :
    (net : Net) (e : Cause) (filters : List String)
    → (check_filters net e filters ≡ ok tt) ↔ All (IsFilter net) filters
unfolding check_filters
check_filters_iff net e [] = (λ h. tt, λ h. refl)
check_filters_iff net e (f ∷ fs) =
    let step = require_then (valid_filter net f) e (check_filters net e fs) in
    let rest = check_filters_iff net e fs in
    (
      λ h. ((valid_filter_iff net f).0 (step.0 h).0, rest.0 (step.0 h).1),
      λ h. step.1 ((valid_filter_iff net f).1 h.0, rest.1 h.1),
    )

check_hosts_iff :
    (net : Net) (l : List FileSystemSpecificConfig)
    → (check_hosts net l ≡ ok tt) ↔ All (λ s. IsHost net s.sys_mgmtd_host) l
unfolding check_hosts
check_hosts_iff net [] = (λ h. tt, λ h. refl)
check_hosts_iff net (s ∷ l) =
    let step = require_then (valid_host net s.sys_mgmtd_host) _ (check_hosts net l) in
    let rest = check_hosts_iff net l in
    let here = valid_host_iff net s.sys_mgmtd_host in
    (λ h. (here.0 (step.0 h).0, rest.0 (step.0 h).1), λ h. step.1 (here.1 h.0, rest.1 h.1))

check_config_iff :
    (net : Net) (c : BeegfsConfig) → (check_config net c ≡ ok tt) ↔ IsValidConfig net c
unfolding check_config
check_config_iff net c =
    let port = valid_port_iff c.grpc_port in
    let nets = check_filters_iff net _ c.conn_net_filter in
    let tcps = check_filters_iff net _ c.conn_tcp_only_filter in
    let outer = require_then (c.grpc_port == "" || valid_port c.grpc_port) _ _ in
    let inner = then_ok (check_filters net _ c.conn_net_filter) _ in
    (
      λ h. let (p, more) = outer.0 h in let (n, t) = inner.0 more in (port.0 p, nets.0 n, tcps.0 t),
      λ h. outer.1 (port.1 h.0, inner.1 (nets.1 h.1, tcps.1 h.2)),
    )

check_configs_iff :
    (net : Net) (cs : List BeegfsConfig)
    → (check_configs net cs ≡ ok tt) ↔ All (IsValidConfig net) cs
unfolding check_configs
check_configs_iff net [] = (λ h. tt, λ h. refl)
check_configs_iff net (c ∷ cs) =
    let step = then_ok (check_config net c) (check_configs net cs) in
    let rest = check_configs_iff net cs in
    let here = check_config_iff net c in
    (λ h. (here.0 (step.0 h).0, rest.0 (step.0 h).1), λ h. step.1 (here.1 h.0, rest.1 h.1))

-- A configuration is accepted exactly when each file system's host is localhost, an address or a
-- domain name, and in every configuration, the default one included, the port is left out or from 1
-- to 65535 and each filter is a network or an address.
pub validate_config-IsValid :
    (net : Net) (c : PluginConfig) → (validate_config net c ≡ ok tt) ↔ IsValid net c
unfolding validate_config
validate_config-IsValid net c =
    let step = then_ok (check_hosts net c.file_system_specific_configs) _ in
    let hosts = check_hosts_iff net c.file_system_specific_configs in
    let configs = check_configs_iff net (all_configs c) in
    (λ h. (hosts.0 (step.0 h).0, configs.0 (step.0 h).1), λ h. step.1 (hosts.1 h.0, configs.1 h.1))

lookup-erase_all :
    (ks : List String) (j : String) (m : Dict String)
    → lookup j (erase_all ks m) ≡ (if member j ks then none else lookup j m)
unfolding erase_all member
lookup-erase_all [] j m = refl
lookup-erase_all (k ∷ ks) j m =
    ground (arith, lookup-erase_all ks j (erase k m), lookup-erase k j m, eq_iff j k, eq_iff k j)

abbrev pub conf_value : String → BeegfsConfig → Option String
conf_value j c = lookup j (entries c.beegfs_client_conf)

abbrev pub without_no_effect : String → BeegfsConfig → Option String
without_no_effect j c = if member j no_effect_beegfs_conf_options then none else conf_value j c

conf_value-strip :
    (j : String) (c : BeegfsConfig) → conf_value j (strip_beegfs_config c) ≡ without_no_effect j c
unfolding strip_beegfs_config
conf_value-strip j c = strip c.beegfs_client_conf
  where
    strip :
        (conf : Option (Dict String))
        → lookup j (
            entries (elim conf [
              | none ↦ none
              | some m ↦ some (erase_all no_effect_beegfs_conf_options m)
            ]))
          ≡ (if member j no_effect_beegfs_conf_options then none else lookup j (entries conf))
    strip none = unfold lookup in ground arith
    strip (some m) = lookup-erase_all no_effect_beegfs_conf_options j m

map-conf_value :
    (j : String) (l : List FileSystemSpecificConfig)
    → map (conf_value j) (map config_of (map strip_specific l))
      ≡ map (without_no_effect j) (map config_of l)
map-conf_value j [] = refl
map-conf_value j (s ∷ l) = cc (conf_value-strip j s.config, map-conf_value j l)

-- In every configuration of the stripped result, the options without effect are gone and every
-- other key has the value it had.
pub strip_config-conf_value :
    (j : String) (c : PluginConfig)
    → map (conf_value j) (all_configs (strip_config c)) ≡ map (without_no_effect j) (all_configs c)
unfolding strip_config
strip_config-conf_value j c =
    cc (conf_value-strip j c.default_config, map-conf_value j c.file_system_specific_configs)
