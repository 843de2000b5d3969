-- ===== src/Config/Secrets/Lookup.antt =====
-- The secrets files as maps from hosts to secrets: the last entry of a host decides.
use beegfs_csi_driver.Prelude.{
  String, ◌<>◌, ◌≡◌, refl, Option, none, some, List, [], ◌∷◌, arith, ◌==◌, eq_iff, if◌then◌else◌,
}
use beegfs_csi_driver.Prelude.Result.{Result, ok, err}
use beegfs_csi_driver.Prelude.Fallible.{>>=-eq-ok}
use beegfs_csi_driver.Errors.{Cause}
use beegfs_csi_driver.Config.{FileSystemSpecificConfig, PluginConfig, ConnAuthConfig, TlsCertConfig}
use beegfs_csi_driver.Config.Secrets.{
  decode_conn_auth, set_conn_auth, apply_conn_auths, set_tls_cert, apply_tls_certs,
}

-- The secret and the certificate in the first configuration of a host.
abbrev pub auth_of : String → List FileSystemSpecificConfig → Option String
auth_of host [] = none
auth_of host (s ∷ rest) =
    if s.sys_mgmtd_host == host then some s.config.conn_auth else auth_of host rest

abbrev pub cert_of : String → List FileSystemSpecificConfig → Option String
cert_of host [] = none
cert_of host (s ∷ rest) =
    if s.sys_mgmtd_host == host then some s.config.tls_cert else cert_of host rest

abbrev pub or_else : Option String → Option String → Option String
or_else none other = other
or_else (some v) other = some v

abbrev pub decoded : Result Cause String → Option String
decoded (ok s) = some s
decoded (err e) = none

-- The secret of the last entry for a host.
abbrev pub last_auth : (String → Result Cause String) → String → List ConnAuthConfig → Option String
last_auth decode host [] = none
last_auth decode host (c ∷ cs) =
    or_else (last_auth decode host cs)
      (if c.sys_mgmtd_host == host then decoded (decode_conn_auth decode c) else none)

abbrev pub last_cert : String → List TlsCertConfig → Option String
last_cert host [] = none
last_cert host (c ∷ cs) =
    or_else (last_cert host cs)
      (if c.sys_mgmtd_host == host then some (c.tls_cert <> "\n") else none)

auth_of-set_conn_auth :
    (h j a : String) (l : List FileSystemSpecificConfig)
    → auth_of j (set_conn_auth h a l) ≡ (if h == j then some a else auth_of j l)
unfolding set_conn_auth
auth_of-set_conn_auth h j a [] = refl
auth_of-set_conn_auth h j a (s ∷ rest) = ground (
  arith,
  eq_iff h j,
  eq_iff h s.sys_mgmtd_host,
  eq_iff s.sys_mgmtd_host j,
  auth_of-set_conn_auth h j a rest,
)

cert_of-set_tls_cert :
    (h j a : String) (l : List FileSystemSpecificConfig)
    → cert_of j (set_tls_cert h a l) ≡ (if h == j then some a else cert_of j l)
unfolding set_tls_cert
cert_of-set_tls_cert h j a [] = refl
cert_of-set_tls_cert h j a (s ∷ rest) = ground (
  arith,
  eq_iff h j,
  eq_iff h s.sys_mgmtd_host,
  eq_iff s.sys_mgmtd_host j,
  cert_of-set_tls_cert h j a rest,
)

-- When the connAuth file is applied without an error, the first configuration of each host has the
-- secret of the host's last entry in the file, and keeps its own where the file has no entry for
-- it.
pub auth_of-apply_conn_auths :
    (decode : String → Result Cause String) (host : String) (cs : List ConnAuthConfig)
    (config : PluginConfig) {applied : PluginConfig}
    → apply_conn_auths decode cs config ≡ ok applied
    → auth_of host applied.file_system_specific_configs
      ≡ or_else (last_auth decode host cs) (auth_of host config.file_system_specific_configs)
unfolding apply_conn_auths
auth_of-apply_conn_auths decode host [] config h = ground arith
auth_of-apply_conn_auths decode host (c ∷ cs) config {applied} h =
    let (a, da, run) = >>=-eq-ok (decode_conn_auth decode c) _ h in
    let ih =
      auth_of-apply_conn_auths decode host cs
        (record config {
          file_system_specific_configs =
              set_conn_auth c.sys_mgmtd_host a config.file_system_specific_configs;
        })
        run in
    ground (
      arith,
      da,
      ih,
      auth_of-set_conn_auth c.sys_mgmtd_host host a config.file_system_specific_configs,
    )

-- After the TLS file has been applied, the first configuration of each host has the certificate of
-- the host's last entry in the file, with a newline, and keeps its own where the file has no entry
-- for it.
pub cert_of-apply_tls_certs :
    (host : String) (cs : List TlsCertConfig) (config : PluginConfig)
    → cert_of host (apply_tls_certs cs config).file_system_specific_configs
      ≡ or_else (last_cert host cs) (cert_of host config.file_system_specific_configs)
unfolding apply_tls_certs
cert_of-apply_tls_certs host [] config = refl
cert_of-apply_tls_certs host (c ∷ cs) config = ground (
  arith,
  cert_of-apply_tls_certs host cs (record config {
    file_system_specific_configs =
        set_tls_cert c.sys_mgmtd_host (c.tls_cert <> "\n") config.file_system_specific_configs;
  }),
  cert_of-set_tls_cert c.sys_mgmtd_host host (c.tls_cert <> "\n")
      config.file_system_specific_configs,
)
