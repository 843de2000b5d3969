-- ===== src/ClientFiles.antt =====
-- writeClientFiles (pkg/beegfs/beegfs_util.go): beegfs-client.conf and the files next to it. The
-- client's configuration is the dictionary of the template's keys.
pub mod Keys
pub mod Kept
pub mod Written
use beegfs_csi_driver.Prelude.{
  ℕ, String, ◌<>◌, Bool, true, false, ◌||◌, Option, none, some, List, [], ◌∷◌, ◌==◌, if◌then◌else◌,
}
use beegfs_csi_driver.Prelude.Dict.{Dict, lookup, insert}
use beegfs_csi_driver.Prelude.Result.{Result, ok, err, Exec, pure, lift, continue, ◌>>=◌, ◌>>◌}
use beegfs_csi_driver.Prelude.Fallible
use beegfs_csi_driver.Text.Strings.{join}
use beegfs_csi_driver.Text.Numbers.{decimal}
use beegfs_csi_driver.Text.Path.{path_join}
use beegfs_csi_driver.Errors.{Cause, failure}
use beegfs_csi_driver.Config.Merge.{entries}
use beegfs_csi_driver.Volume.{BeegfsVolume, get_conn_auth_path, get_tls_cert_path}
use beegfs_csi_driver.Host.{
  Host, Io, read_file, write_file, create, write_to, listen_packet, close_packet, act, read_text,
  local_addr,
}

-- The helper setConfigValueIfKeyExists.
unfoldable pub set_config_value : String → String → Dict String → Result Cause (Dict String)
unfolding lookup insert
set_config_value key value conf = elim (lookup key conf) [
  | none ↦ err (failure "key not in template beegfs-client.conf file")
  | some old ↦ ok (insert key value conf)
]

-- The port goes to the key of BeeGFS 8, or else to that of BeeGFS 7.
unfoldable pub set_client_port : String → Dict String → Result Cause (Dict String)
unfolding set_config_value
set_client_port value conf = elim (set_config_value "connClientPort" value conf) [
  | ok conf' ↦ ok conf'
  | err e ↦ set_config_value "connClientPortUDP" value conf
]

-- One key of the driver's configuration, with the management port that stands in for deprecated
-- keys so far.
unfoldable pub set_client_conf_entry :
    String → String → Dict String × String → Result Cause (Dict String × String)
unfolding set_config_value lookup
set_client_conf_entry k v (conf, mgmtd_port) = elim (set_config_value k v conf) [
  | ok conf' ↦ ok (conf', mgmtd_port)
  | err e ↦
      if k == "connMgmtdPortTCP" || k == "connMgmtdPortUDP"
      then (elim (lookup "connMgmtdPort" conf) [
        | none ↦ err e
        | some old ↦
            if mgmtd_port == "" || mgmtd_port == v
            then ok (insert "connMgmtdPort" v conf, v)
            else err (failure "connMgmtdPortTCP and connMgmtdPortUDP appear to be different")
      ])
      else err e
]

-- The loop over the driver's configuration.
unfoldable pub set_client_conf :
    Dict String → Dict String × String → Result Cause (Dict String × String)
unfolding set_client_conf_entry
set_client_conf [] state = ok state
set_client_conf ((k, v) ∷ rest) state =
    Fallible.◌>>=◌ (set_client_conf_entry k v state) (set_client_conf rest)

-- The keys that are set before any file is written.
unfoldable pub configure : BeegfsVolume → String → Dict String → Result Cause (Dict String)
unfolding set_config_value set_client_port set_client_conf
configure vol client_port conf =
    Fallible.◌>>=◌ (set_config_value "sysMgmtdHost" vol.sys_mgmtd_host conf) λ conf.
      Fallible.◌>>=◌ (set_client_port client_port conf) λ conf.
        Fallible.◌>>=◌ (set_client_conf (entries vol.config.beegfs_client_conf) (conf, ""))
          λ state. ok state.0

-- The deferred close: its error counts only if there is no other one.
unfoldable pub after_close :
    {A : Type 0} → Result Cause A → Result Cause (Unit {0}) → Result Cause A
after_close (ok a) (ok u) = ok a
after_close (ok a) (err e) = err e
after_close (err e) closed = err e

module _ (h : Host) where
  -- getEphemeralPortUDP: the port of a socket that is closed again.
  unfoldable pub get_ephemeral_port_udp : Io ℕ
  unfolding after_close
  get_ephemeral_port_udp s =
      let (r, t) = local_addr h listen_packet s in
      let (closed, u) = act h close_packet t in
      elim r [ err e ↦ (err e, t) | ok addr ↦ (after_close (h.resolve_udp_addr addr) closed, u) ]

  -- A list of the configuration, one item to a line, in a file that a key names.
  unfoldable pub write_listing : String → String → List String → Dict String → Io (Dict String)
  unfolding set_config_value join
  write_listing key path [] conf = pure conf
  write_listing key path (item ∷ items) conf = do
    conf' ← lift (set_config_value key path conf)
    act h (write_file path (join (item ∷ items) "\n" <> "\n") 0o644)
    pure conf'

  -- The secret is written as it is.
  unfoldable pub write_conn_auth : BeegfsVolume → Dict String → Io (Dict String)
  unfolding set_config_value get_conn_auth_path
  write_conn_auth vol conf = elim (vol.config.conn_auth == "") [
    | true ↦ pure conf
    | false ↦ do
      conf' ← lift (set_config_value "connAuthFile" (get_conn_auth_path vol) conf)
      act h (write_file (get_conn_auth_path vol) vol.config.conn_auth 0o400)
      pure conf'
  ]

  -- The certificate has no key in the client's configuration.
  unfoldable pub write_tls_cert : BeegfsVolume → Io (Unit {0})
  unfolding get_tls_cert_path
  write_tls_cert vol = elim (vol.config.tls_cert == "") [
    | true ↦ pure tt
    | false ↦ act h (write_file (get_tls_cert_path vol) vol.config.tls_cert 0o400)
  ]

  -- writeClientFiles
  unfoldable pub write_client_files : BeegfsVolume → String → Io (Unit {0})
  unfolding get_ephemeral_port_udp configure write_listing write_conn_auth write_tls_cert decimal
  write_client_files vol conf_template_path = do
    client_port ← get_ephemeral_port_udp
    bytes ← read_text h (read_file conf_template_path)
    template ← lift (h.ini_load bytes)
    conf ← lift (configure vol (decimal client_port) template)
    conf ←
        write_listing "connInterfacesFile"
          (path_join (vol.mount_dir_path ∷ "connInterfacesFile" ∷ [])) vol.config.conn_interfaces
          conf
    conf ← write_conn_auth vol conf
    write_tls_cert vol
    conf ←
        write_listing "connNetFilterFile"
          (path_join (vol.mount_dir_path ∷ "connNetFilterFile" ∷ [])) vol.config.conn_net_filter
          conf
    conf ←
        write_listing "connTcpOnlyFilterFile"
          (path_join (vol.mount_dir_path ∷ "connTcpOnlyFilterFile" ∷ []))
          vol.config.conn_tcp_only_filter conf
    conf ←
        write_listing "connRDMAInterfacesFile"
          (path_join (vol.mount_dir_path ∷ "connRDMAInterfacesFile" ∷ []))
          vol.config.conn_rdma_interfaces conf
    act h (create vol.client_conf_path)
    act h (write_to vol.client_conf_path (h.ini_print bytes conf))
