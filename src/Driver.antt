-- ===== src/Driver.antt =====
-- The start of the driver (pkg/beegfs/beegfs.go): newBeegfsDriver and the template of the client's
-- configuration. Decoding YAML and Base64 are parameters.
pub mod ClientModule
pub mod Start
use beegfs_csi_driver.Prelude.{
  String, Bool, true, false, Option, none, some, List, [], ◌∷◌, ◌==◌, if◌then◌else◌,
}
use beegfs_csi_driver.Prelude.Result.{
  Result, ok, err, Exec, pure, fail, lift, continue, ◌>>=◌, ◌>>◌,
}
use beegfs_csi_driver.Prelude.Fallible
use beegfs_csi_driver.Errors.{Cause, failure}
use beegfs_csi_driver.Config.{
  PluginConfig, zero_plugin_config, PluginConfigFromFile, ConnAuthConfig, TlsCertConfig,
}
use beegfs_csi_driver.Config.Validate.{Net}
use beegfs_csi_driver.Config.Load.{parse_config_from_file}
use beegfs_csi_driver.Config.Secrets.{apply_conn_auths, apply_tls_certs}
use beegfs_csi_driver.Host.{Host, History, Io, read_file, mkdir_all, act, read_text}

-- yaml.UnmarshalStrict into the types of the three files, base64.StdEncoding.DecodeString, and `net`.
pub record Decoders : Type 0 where
  pub config : String → Result Cause PluginConfigFromFile
  pub conn_auths : String → Result Cause (List ConnAuthConfig)
  pub tls_certs : String → Result Cause (List TlsCertConfig)
  pub base64 : String → Result Cause String
  pub net : Net

-- The arguments of newBeegfsDriver.
pub record Arguments : Type 0 where
  pub conn_auth_path : String
  pub tls_certs_path : String
  pub config_path : String
  pub cs_data_dir : String
  pub driver_name : String
  pub endpoint : String
  pub node_id : String
  pub client_conf_template_path : String
  pub version : String

-- The driver, before the services are added.
pub record Driver : Type 0 where
  pub driver_name : String
  pub node_id : String
  pub version : String
  pub endpoint : String
  pub plugin_config : PluginConfig
  pub client_conf_template_path : String
  pub cs_data_dir : String

abbrev pub default_paths : List String
default_paths =
    "/etc/beegfs/beegfs-client.conf" ∷ "/host/etc/beegfs/beegfs-client.conf"
    ∷ "/var/lib/kubelet/plugins/beegfs.csi.netapp.com/client/beegfs-client.conf"
    ∷ "/host/var/lib/kubelet/plugins/beegfs.csi.netapp.com/client/beegfs-client.conf" ∷ []

-- The checks of newBeegfsDriver before anything is read.
unfoldable pub check_names : Arguments → Result Cause (Unit {0})
check_names a =
    if a.driver_name == ""
    then err (failure "no driver name provided")
    else if a.node_id == ""
    then err (failure "no node id provided")
    else if a.endpoint == ""
    then err (failure "no driver endpoint provided")
    else ok tt

abbrev pub found_template : String → Result Cause String
found_template path =
    if path == ""
    then err (failure "failed to get valid default client configuration template file")
    else ok path

module _ (h : Host) where
  -- The first path that can be read, or the empty text.
  unfoldable pub first_readable : List String → History → String × History
  first_readable [] s = ("", s)
  first_readable (path ∷ rest) s =
      let later = first_readable rest (read_file path ∷ s) in
      elim (h.text_reply s (read_file path)) [
        | ok bytes ↦ (path, read_file path ∷ s)
        | err e ↦ later
      ]

  -- getDefaultClientConfTemplatePath
  unfoldable pub get_default_client_conf_template_path : History → String × History
  unfolding first_readable
  get_default_client_conf_template_path = first_readable default_paths

  -- The template that newBeegfsDriver settles on.
  unfoldable pub template_path : String → Io String
  unfolding get_default_client_conf_template_path
  template_path given s =
      if given == ""
      then (
        found_template (get_default_client_conf_template_path s).0,
        (get_default_client_conf_template_path s).1,
      )
      else (read_text h (read_file given) >>= λ bytes. pure given) s

  unfoldable pub make_data_dir : String → Io (Unit {0})
  make_data_dir dir s =
      if dir == ""
      then (err (failure "no controller service data directory path provided"), s)
      else act h (mkdir_all dir 0o750) s

  module _ (d : Decoders) where
    -- parseConfigFromFile, if there is a path
    unfoldable pub load_config : String → String → Io PluginConfig
    unfolding parse_config_from_file
    load_config path node_id s = if path == "" then (ok zero_plugin_config, s) else (
      parse_config_from_file d.net d.config (h.text_reply s (read_file path)) node_id,
      read_file path ∷ s,
    )

    -- parseConnAuthFromFile, if there is a path
    unfoldable pub load_conn_auths : String → PluginConfig → Io PluginConfig
    unfolding apply_conn_auths
    load_conn_auths path config s = if path == "" then (ok config, s) else (
      Fallible.◌>>=◌ (h.text_reply s (read_file path)) λ bytes.
          Fallible.◌>>=◌ (d.conn_auths bytes) λ auths. apply_conn_auths d.base64 auths config,
      read_file path ∷ s,
    )

    -- parseTLSCertsFromFile, if there is a path
    unfoldable pub load_tls_certs : String → PluginConfig → Io PluginConfig
    unfolding apply_tls_certs
    load_tls_certs path config s = if path == "" then (ok config, s) else (
      Fallible.◌>>=◌ (h.text_reply s (read_file path))
          λ bytes. Fallible.◌>>=◌ (d.tls_certs bytes) λ certs. ok (apply_tls_certs certs config),
      read_file path ∷ s,
    )

    -- newBeegfsDriver; `vendor_version` is the version that the build sets
    unfoldable pub new_beegfs_driver : String → Arguments → Io Driver
    unfolding check_names template_path load_config load_conn_auths load_tls_certs make_data_dir
    new_beegfs_driver vendor_version a = do
      lift (check_names a)
      template ← template_path a.client_conf_template_path
      config ← load_config a.config_path a.node_id
      with_auths ← load_conn_auths a.conn_auth_path config
      with_certs ← load_tls_certs a.tls_certs_path with_auths
      make_data_dir a.cs_data_dir
      pure (record {
        driver_name = a.driver_name;
        node_id = a.node_id;
        version = if a.version == "" then vendor_version else a.version;
        endpoint = a.endpoint;
        plugin_config = with_certs;
        client_conf_template_path = template;
        cs_data_dir = a.cs_data_dir;
      })
