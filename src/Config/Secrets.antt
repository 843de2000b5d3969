-- ===== src/Config/Secrets.antt =====
-- parseConnAuthFromFile and parseTLSCertsFromFile (pkg/beegfs/config.go), after the file has been
-- read and unmarshalled. Base64 decoding is the parameter `decode`: it yields bytes.
pub mod Lookup
use beegfs_csi_driver.Prelude.{
  String, ◌<>◌, Option, none, some, List, [], ◌∷◌, ◌==◌, ◌||◌, if◌then◌else◌,
}
use beegfs_csi_driver.Prelude.Result.{Result, ok, err}
use beegfs_csi_driver.Prelude.Fallible.{◌>>=◌}
use beegfs_csi_driver.Errors.{Cause, failure}
use beegfs_csi_driver.Config.{
  BeegfsConfig, zero_beegfs_config, FileSystemSpecificConfig, PluginConfig, ConnAuthConfig,
  TlsCertConfig,
}

-- The secret as it is written to the client's files: a raw one gets a final newline.
unfoldable pub decode_conn_auth :
    (String → Result Cause String) → ConnAuthConfig → Result Cause String
decode_conn_auth decode c =
    if c.encoding == "raw" || c.encoding == ""
    then ok (c.conn_auth <> "\n")
    else if c.encoding == "base64"
    then decode c.conn_auth
    else err (failure "invalid ConnAuthFile encoding")

-- The first configuration of the host gets the secret; where there is none, one is appended.
unfoldable pub set_conn_auth :
    String → String → List FileSystemSpecificConfig → List FileSystemSpecificConfig
set_conn_auth host auth [] =
    record { sys_mgmtd_host = host; config = record zero_beegfs_config { conn_auth = auth } } ∷ []
set_conn_auth host auth (specific ∷ rest) =
    if host == specific.sys_mgmtd_host
    then record specific { config = record specific.config { conn_auth = auth } } ∷ rest
    else specific ∷ set_conn_auth host auth rest

-- parseConnAuthFromFile
unfoldable pub apply_conn_auths :
    (String → Result Cause String) → List ConnAuthConfig → PluginConfig → Result Cause PluginConfig
unfolding decode_conn_auth set_conn_auth
apply_conn_auths decode [] config = ok config
apply_conn_auths decode (c ∷ rest) config = do
  auth ← decode_conn_auth decode c
  apply_conn_auths decode rest (record config {
    file_system_specific_configs =
        set_conn_auth c.sys_mgmtd_host auth config.file_system_specific_configs;
  })

unfoldable pub set_tls_cert :
    String → String → List FileSystemSpecificConfig → List FileSystemSpecificConfig
set_tls_cert host cert [] =
    record { sys_mgmtd_host = host; config = record zero_beegfs_config { tls_cert = cert } } ∷ []
set_tls_cert host cert (specific ∷ rest) =
    if host == specific.sys_mgmtd_host
    then record specific { config = record specific.config { tls_cert = cert } } ∷ rest
    else specific ∷ set_tls_cert host cert rest

-- parseTLSCertsFromFile
unfoldable pub apply_tls_certs : List TlsCertConfig → PluginConfig → PluginConfig
unfolding set_tls_cert
apply_tls_certs [] config = config
apply_tls_certs (c ∷ rest) config = apply_tls_certs rest (record config {
  file_system_specific_configs =
      set_tls_cert c.sys_mgmtd_host (c.tls_cert <> "\n") config.file_system_specific_configs;
})
