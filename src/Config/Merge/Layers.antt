-- ===== src/Config/Merge/Layers.antt =====
-- The squashed configuration is described layer by layer: of the default configuration and those of
-- the host, in order, the last one that sets a value decides it.
use beegfs_csi_driver.Prelude.{
  String, ◌≡◌, ◌≢◌, refl, ◌∙◌, Option, none, some, List, [], ◌∷◌, arith, ◌==◌, eq_iff,
  if◌then◌else◌, All, Bool-cases, inl, inr,
}
use beegfs_csi_driver.Prelude.Dict.{Dict, lookup, insert, NodupKeys, lookup-insert}
use beegfs_csi_driver.Prelude.Result.{ok}
use beegfs_csi_driver.Config.{
  BeegfsConfig, new_beegfs_config, FileSystemSpecificConfig, PluginConfig,
}
use beegfs_csi_driver.Config.Merge.{
  prefer_text, prefer_list, entries, write_entries, overwrite_beegfs_config, overwrite_for_host,
  squash_config_for_sys_mgmtd_host,
}

-- The configurations that are meant for a host.
abbrev pub for_host : String → List FileSystemSpecificConfig → List BeegfsConfig
for_host host [] = []
for_host host (specific ∷ rest) =
    let others = for_host host rest in
    if host == specific.sys_mgmtd_host then specific.config ∷ others else others

abbrev pub layers : String → PluginConfig → List BeegfsConfig
layers host config = config.default_config ∷ for_host host config.file_system_specific_configs

-- The value of a field in the last layer that sets it.
abbrev pub last_set : (BeegfsConfig → String) → List BeegfsConfig → String
last_set field [] = ""
last_set field (c ∷ cs) = prefer_text (field c) (last_set field cs)

abbrev pub last_slice : (BeegfsConfig → List String) → List BeegfsConfig → List String
last_slice field [] = []
last_slice field (c ∷ cs) = prefer_list (field c) (last_slice field cs)

abbrev pub or_else : Option String → Option String → Option String
or_else none other = other
or_else (some v) other = some v

abbrev pub last_entry : String → List BeegfsConfig → Option String
last_entry k [] = none
last_entry k (c ∷ cs) = or_else (last_entry k cs) (lookup k (entries c.beegfs_client_conf))

-- `c` is `base` under the layers: each field is that of the last layer that sets it, and that of
-- `base` where none does.
pub record IsOverlay (base : BeegfsConfig) (ls : List BeegfsConfig) (c : BeegfsConfig)
    : Type 0 where
  pub grpc_port : c.grpc_port ≡ prefer_text base.grpc_port (last_set (λ l. l.grpc_port) ls)
  pub conn_auth : c.conn_auth ≡ prefer_text base.conn_auth (last_set (λ l. l.conn_auth) ls)
  pub tls_cert : c.tls_cert ≡ prefer_text base.tls_cert (last_set (λ l. l.tls_cert) ls)
  pub conn_interfaces :
      c.conn_interfaces ≡ prefer_list base.conn_interfaces (last_slice (λ l. l.conn_interfaces) ls)
  pub conn_net_filter :
      c.conn_net_filter ≡ prefer_list base.conn_net_filter (last_slice (λ l. l.conn_net_filter) ls)
  pub conn_tcp_only_filter :
      c.conn_tcp_only_filter
      ≡ prefer_list base.conn_tcp_only_filter (last_slice (λ l. l.conn_tcp_only_filter) ls)
  pub conn_rdma_interfaces :
      c.conn_rdma_interfaces
      ≡ prefer_list base.conn_rdma_interfaces (last_slice (λ l. l.conn_rdma_interfaces) ls)
  pub client_conf :
      (k : String)
      → lookup k (entries c.beegfs_client_conf)
        ≡ or_else (last_entry k ls) (lookup k (entries base.beegfs_client_conf))
  pub not_nil : c.beegfs_client_conf ≢ none

-- The keys of a configuration's map are distinct, as those of every Go map.
abbrev pub HasMap : BeegfsConfig → Type 0
HasMap c = NodupKeys (entries c.beegfs_client_conf)

write : Dict String → Dict String → Dict String
write m [] = m
write m ((k, v) ∷ from) = write (insert k v m) from

write_entries-write :
    (m from : Dict String) → write_entries (some m) from ≡ ok (some (write m from))
unfolding write_entries write
write_entries-write m [] = refl
write_entries-write m ((k, v) ∷ from) = write_entries-write (insert k v m) from

lookup-write :
    (k : String) (m from : Dict String)
    → NodupKeys from
    → lookup k (write m from) ≡ or_else (lookup k from) (lookup k m)
unfolding write lookup
lookup-write k m [] u = refl
lookup-write k m ((j, v) ∷ from) (fresh, u) =
    ground (arith, lookup-write k (insert j v m) from u, lookup-insert j k v m, eq_iff j k)

prefer_text_assoc :
    (a b c : String) → prefer_text (prefer_text a b) c ≡ prefer_text a (prefer_text b c)
prefer_text_assoc a b c = ground arith

prefer_list_assoc :
    (a b c : List String) → prefer_list (prefer_list a b) c ≡ prefer_list a (prefer_list b c)
prefer_list_assoc a b [] = refl
prefer_list_assoc a b (x ∷ c) = refl

or_else_assoc : (a b c : Option String) → or_else (or_else a b) c ≡ or_else a (or_else b c)
or_else_assoc none b c = refl
or_else_assoc (some v) b c = refl

module _ (to from : BeegfsConfig) (ls : List BeegfsConfig) where
  text_step :
      (field : BeegfsConfig → String) {a : String}
      → a ≡ prefer_text (prefer_text (field to) (field from)) (last_set field ls)
      → a ≡ prefer_text (field to) (last_set field (from ∷ ls))
  text_step field e = e ∙ prefer_text_assoc (field to) (field from) (last_set field ls)

  slice_step :
      (field : BeegfsConfig → List String) {a : List String}
      → a ≡ prefer_list (prefer_list (field to) (field from)) (last_slice field ls)
      → a ≡ prefer_list (field to) (last_slice field (from ∷ ls))
  slice_step field e = e ∙ prefer_list_assoc (field to) (field from) (last_slice field ls)

-- The result of an overwrite whose target has a map.
overwritten : BeegfsConfig → Dict String → BeegfsConfig → BeegfsConfig
overwritten to m from = record {
  grpc_port = prefer_text to.grpc_port from.grpc_port;
  conn_interfaces = prefer_list to.conn_interfaces from.conn_interfaces;
  conn_net_filter = prefer_list to.conn_net_filter from.conn_net_filter;
  conn_tcp_only_filter = prefer_list to.conn_tcp_only_filter from.conn_tcp_only_filter;
  beegfs_client_conf = some (write m (entries from.beegfs_client_conf));
  conn_auth = prefer_text to.conn_auth from.conn_auth;
  tls_cert = prefer_text to.tls_cert from.tls_cert;
  conn_rdma_interfaces = prefer_list to.conn_rdma_interfaces from.conn_rdma_interfaces;
}

overwrite_some :
    (to from : BeegfsConfig) (m : Dict String)
    → to.beegfs_client_conf ≡ some m
    → overwrite_beegfs_config to from ≡ ok (overwritten to m from)
unfolding overwrite_beegfs_config overwritten
overwrite_some to from m h = rw (h, write_entries-write m (entries from.beegfs_client_conf)) refl

IsOverlay-self : (c : BeegfsConfig) → c.beegfs_client_conf ≢ none → IsOverlay c [] c
IsOverlay-self c h = record {
  grpc_port = refl;
  conn_auth = refl;
  tls_cert = refl;
  conn_interfaces = refl;
  conn_net_filter = refl;
  conn_tcp_only_filter = refl;
  conn_rdma_interfaces = refl;
  client_conf = λ k. refl;
  not_nil = h;
}

IsOverlay-cons :
    (to from c : BeegfsConfig) (m : Dict String) (ls : List BeegfsConfig)
    → to.beegfs_client_conf ≡ some m
    → HasMap from
    → IsOverlay (overwritten to m from) ls c
    → IsOverlay to (from ∷ ls) c
unfolding overwritten
IsOverlay-cons to from c m ls h u o = record {
  grpc_port = text_step to from ls (λ l. l.grpc_port) o.grpc_port;
  conn_auth = text_step to from ls (λ l. l.conn_auth) o.conn_auth;
  tls_cert = text_step to from ls (λ l. l.tls_cert) o.tls_cert;
  conn_interfaces = slice_step to from ls (λ l. l.conn_interfaces) o.conn_interfaces;
  conn_net_filter = slice_step to from ls (λ l. l.conn_net_filter) o.conn_net_filter;
  conn_tcp_only_filter = slice_step to from ls (λ l. l.conn_tcp_only_filter) o.conn_tcp_only_filter;
  conn_rdma_interfaces = slice_step to from ls (λ l. l.conn_rdma_interfaces) o.conn_rdma_interfaces;
  client_conf = λ k. cc (
    o.client_conf k,
    lookup-write k m (entries from.beegfs_client_conf) u,
    h,
    or_else_assoc (last_entry k ls) (lookup k (entries from.beegfs_client_conf)) (lookup k m),
  );
  not_nil = o.not_nil;
}

overwrite_for_host-IsOverlay :
    (host : String) (to : BeegfsConfig) (m : Dict String)
    (specifics : List FileSystemSpecificConfig)
    → to.beegfs_client_conf ≡ some m
    → All HasMap (for_host host specifics)
    → (c : BeegfsConfig) × (overwrite_for_host host to specifics ≡ ok c)
      × IsOverlay to (for_host host specifics) c
unfolding overwrite_for_host
overwrite_for_host-IsOverlay host to m [] h u = (to, refl, IsOverlay-self to (cc))
overwrite_for_host-IsOverlay host to m (s ∷ rest) h u =
    elim (Bool-cases (host == s.sys_mgmtd_host)) [
      | inl same ↦
          let u' : All HasMap (s.config ∷ for_host host rest) = rw same at u in
          let (c, run, o) =
            overwrite_for_host-IsOverlay host (overwritten to m s.config)
              (write m (entries s.config.beegfs_client_conf)) rest (unfold overwritten in refl)
              u'.1 in
          (
            c,
            rw (same, overwrite_for_host) (rw (overwrite_some to s.config m h) run),
            rw same (IsOverlay-cons to s.config c m _ h u'.0 o),
          )
      | inr other ↦
          let u' : All HasMap (for_host host rest) = rw other at u in
          let (c, run, o) = overwrite_for_host-IsOverlay host to m rest h u' in
          (c, rw (other, overwrite_for_host) run, rw other o)
    ]

-- Squashing never fails, and the result is the empty configuration under the default configuration
-- and those of the host: for each field, and for each key of the client's map, the value of the
-- last layer that sets it. The maps of these layers have distinct keys.
pub squash-IsOverlay :
    (host : String) (config : PluginConfig)
    → All HasMap (layers host config)
    → (c : BeegfsConfig) × (squash_config_for_sys_mgmtd_host host config ≡ ok c)
      × IsOverlay new_beegfs_config (layers host config) c
unfolding squash_config_for_sys_mgmtd_host
squash-IsOverlay host config (u, us) =
    let (c, run, o) =
      overwrite_for_host-IsOverlay host (overwritten new_beegfs_config [] config.default_config)
        (write [] (entries config.default_config.beegfs_client_conf))
        config.file_system_specific_configs (unfold overwritten in refl) us in
    (
      c,
      rw (overwrite_some new_beegfs_config config.default_config [] refl) run,
      IsOverlay-cons new_beegfs_config config.default_config c [] _ refl u o,
    )
