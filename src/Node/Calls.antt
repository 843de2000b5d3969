-- ===== src/Node/Calls.antt =====
-- The calls of the parts that NodeStageVolume and NodePublishVolume are made of.
use beegfs_csi_driver.Prelude.{
  true, ◌≡◌, arith, some, none, Option, ℕ, String, List, [], ◌∷◌, ◌==◌, if◌then◌else◌,
}
use beegfs_csi_driver.Prelude.Dict.{Dict}
use beegfs_csi_driver.Prelude.Result.{Result, ok, err}
use beegfs_csi_driver.Text.Path.{path_join}
use beegfs_csi_driver.Errors.{
  Cause, Code, GrpcError, failure, is_ctl_not_exist, grpc_error, not_found, internal,
}
use beegfs_csi_driver.Volume.{BeegfsVolume, get_conn_auth_path, get_tls_cert_path}
use beegfs_csi_driver.Host.{
  Host, History, Call, Io, stat, read_file, write_file, create, write_to, command, listen_packet,
  close_packet,
}
use beegfs_csi_driver.Host.Trace.{
  Since, SinceEnd, here, later, Since-trans, Makes, pure-Makes, lift-Makes, call-Makes, bind-Makes,
  bool-Makes,
}
use beegfs_csi_driver.Ctl.{
  CtlVersion, v7, v8, tool, exec_beegfs_cmd, execute, detect_ctl_version, version_stat_directory,
  stat_directory_for_volume,
}
use beegfs_csi_driver.Text.Numbers.{decimal}
use beegfs_csi_driver.ClientFiles.{
  get_ephemeral_port_udp, after_close, configure, write_listing, write_conn_auth, write_tls_cert,
  write_client_files,
}
use beegfs_csi_driver.Capability.{VolumeCapability, is_valid_volume_capability}
use beegfs_csi_driver.Node.{checked_capability, Settings, on_host, best_effort, stat_volume}

-- What NodeStageVolume does before the directory of the volume is known to be there: it looks at the
-- staging directory, writes files of the client into it, and runs the tools.
pub data Prepares (vol : BeegfsVolume) (template_path : String) : Call → Type 0 where
  looks : Prepares vol template_path (stat vol.mount_dir_path)
  listens : Prepares vol template_path listen_packet
  closes : Prepares vol template_path close_packet
  reads : Prepares vol template_path (read_file template_path)
  writes :
      (name text : String) (mode : ℕ)
      → Prepares vol template_path
          (write_file (path_join (vol.mount_dir_path ∷ name ∷ [])) text mode)
  creates : Prepares vol template_path (create vol.client_conf_path)
  fills : (text : String) → Prepares vol template_path (write_to vol.client_conf_path text)
  runs :
      (version : CtlVersion) (args : List String)
      → Prepares vol template_path (command (tool version) args)

-- A capability that passes the check is that of the request, and supported.
pub checked_capability-eq :
    (o : Option VolumeCapability) (c : VolumeCapability)
    → checked_capability o ≡ ok c
    → (o ≡ some c) × (is_valid_volume_capability c ≡ true)
unfolding checked_capability
checked_capability-eq none c e = absurd (ground arith)
checked_capability-eq (some d) c e = ground arith

pub on_host-Makes :
    {A : Type 0} (P : Call → Type 0) (code : Code) (m : Io A) → Makes P m → Makes P (on_host code m)
unfolding on_host
on_host-Makes P code m p = record { since = λ s. p.since s }

pub best_effort-Makes :
    {A : Type 0} (P : Call → Type 0) (m : Io A) → Makes P m → Makes P (best_effort m)
unfolding best_effort
best_effort-Makes P m p = record { since = λ s. p.since s }

module _ (h : Host) where
  module _ (P : Call → Type 0)
      (tools : (version : CtlVersion) (args : List String) → P (command (tool version) args)) where
    execute-Makes :
        (version : CtlVersion) (vol : BeegfsVolume) (args : List String)
        → Makes P (execute h version vol args)
    unfolding execute exec_beegfs_cmd
    execute-Makes version vol args = record { since = λ s. later _ (tools version _) here }

    version_stat_directory-Makes :
        (version : CtlVersion) (vol : BeegfsVolume) (path : String)
        → Makes P (version_stat_directory h version vol path)
    unfolding version_stat_directory
    version_stat_directory-Makes v8 vol path =
        execute-Makes v8 vol ("--mount=none" ∷ "entry" ∷ "info" ∷ path ∷ [])
    version_stat_directory-Makes v7 vol path =
        execute-Makes v7 vol ("--unmounted" ∷ "--getentryinfo" ∷ path ∷ [])

    detect_ctl_version-Makes : (vol : BeegfsVolume) → Makes P (detect_ctl_version h vol)
    unfolding detect_ctl_version
    detect_ctl_version-Makes vol = record {
      since = λ s.
          let (r, t) = execute h v8 vol ("node" ∷ "list" ∷ []) s in
          let p = (execute-Makes v8 vol ("node" ∷ "list" ∷ [])).since s in
          let second = execute h v7 vol ("--listnodes" ∷ "--nodetype=management" ∷ []) t in
          outcome s t second.1 r second.0 p (
            Since-trans p
              ((execute-Makes v7 vol ("--listnodes" ∷ "--nodetype=management" ∷ [])).since t));
    }
      where
        outcome :
            (s t u : History) (r q : Result Cause String)
            → Since P s t
            → Since P s u
            → SinceEnd {E = Cause} {A = CtlVersion} P s (elim r [
              | ok out ↦ (ok v8, t)
              | err e ↦ elim q [
                | ok out ↦ (ok v7, u)
                | err e' ↦ (err (failure "unable to verify if this is a BeeGFS 7 or 8 volume"), u)
              ]
            ])
        outcome s t u (ok out) q p p' = p
        outcome s t u (err e) (ok out) p p' = p'
        outcome s t u (err e) (err e') p p' = p'

    pub stat_directory_for_volume-Makes :
        (vol : BeegfsVolume) (path : String) → Makes P (stat_directory_for_volume h vol path)
    unfolding stat_directory_for_volume
    stat_directory_for_volume-Makes vol path =
        bind-Makes P (detect_ctl_version h vol) _ (detect_ctl_version-Makes vol)
          (λ version. version_stat_directory-Makes version vol path)

    pub stat_volume-Makes : (cfg : Settings) (vol : BeegfsVolume) → Makes P (stat_volume h cfg vol)
    unfolding stat_volume
    stat_volume-Makes cfg vol = record {
      since = λ s.
          outcome s _ (stat_directory_for_volume h vol vol.vol_dir_path_beegfs_root s).0
            ((stat_directory_for_volume-Makes vol _).since s);
    }
      where
        outcome :
            (s t : History) (r : Result Cause String)
            → Since P s t
            → SinceEnd {E = GrpcError} {A = Unit {0}} P s (elim r [
              | ok out ↦ (ok tt, t)
              | err e ↦ (err (grpc_error (if is_ctl_not_exist e then not_found else internal) e), t)
            ])
        outcome s t (ok out) p = p
        outcome s t (err e) p = p

-- The files of the client.
module _ (h : Host) (vol : BeegfsVolume) (template_path : String) where
  abbrev P : Call → Type 0
  P = Prepares vol template_path

  write_listing-Makes :
      (key name : String) (items : List String) (conf : Dict String)
      → Makes P (write_listing h key (path_join (vol.mount_dir_path ∷ name ∷ [])) items conf)
  unfolding write_listing
  write_listing-Makes key name [] conf = pure-Makes P conf
  write_listing-Makes key name (item ∷ items) conf =
      bind-Makes P _ _ (lift-Makes P _)
        λ conf'. bind-Makes P _ _ (call-Makes P _ _ (writes name _ _)) λ _. pure-Makes P conf'

  write_conn_auth-Makes : (conf : Dict String) → Makes P (write_conn_auth h vol conf)
  unfolding write_conn_auth get_conn_auth_path
  write_conn_auth-Makes conf = bool-Makes P (vol.config.conn_auth == "") _ _ (pure-Makes P conf) (
      bind-Makes P _ _ (lift-Makes P _) λ conf'.
        bind-Makes P _ _ (call-Makes P _ _ (writes "connAuthFile" _ _)) λ _. pure-Makes P conf')

  write_tls_cert-Makes : Makes P (write_tls_cert h vol)
  unfolding write_tls_cert get_tls_cert_path
  write_tls_cert-Makes =
      bool-Makes P (vol.config.tls_cert == "") _ _ (pure-Makes P tt)
        (call-Makes P _ _ (writes "cert.pem" _ _))

  get_ephemeral_port_udp-Makes : Makes P (get_ephemeral_port_udp h)
  unfolding get_ephemeral_port_udp
  get_ephemeral_port_udp-Makes = record {
    since = λ s. outcome s (h.local_addr_reply s listen_packet);
  }
    where
      outcome :
          (s : History) (r : Result Cause String)
          → SinceEnd {E = Cause} {A = ℕ} P s (elim r [
            | err e ↦ (err e, listen_packet ∷ s)
            | ok addr ↦ (
              after_close (h.resolve_udp_addr addr) (h.unit_reply (listen_packet ∷ s) close_packet),
              close_packet ∷ listen_packet ∷ s,
            )
          ])
      outcome s (ok addr) = later _ closes (later _ listens here)
      outcome s (err e) = later _ listens here

  pub write_client_files-Makes : Makes P (write_client_files h vol template_path)
  unfolding write_client_files
  write_client_files-Makes = bind-Makes P _ _ get_ephemeral_port_udp-Makes λ client_port.
      bind-Makes P _ _ (call-Makes P _ _ reads) λ bytes.
        bind-Makes P _ _ (lift-Makes P (h.ini_load bytes)) λ template.
          bind-Makes P _ _ (lift-Makes P (configure vol (decimal client_port) template)) λ conf.
            bind-Makes P _ _ (write_listing-Makes _ "connInterfacesFile" _ conf) λ conf.
              bind-Makes P _ _ (write_conn_auth-Makes conf) λ conf.
                bind-Makes P _ _ write_tls_cert-Makes λ _.
                  bind-Makes P _ _ (write_listing-Makes _ "connNetFilterFile" _ conf) λ conf.
                    bind-Makes P _ _ (write_listing-Makes _ "connTcpOnlyFilterFile" _ conf) λ conf.
                      bind-Makes P _ _ (write_listing-Makes _ "connRDMAInterfacesFile" _ conf)
                        λ conf.
                          bind-Makes P _ _ (call-Makes P _ _ creates)
                            λ _. call-Makes P _ _ (fills (h.ini_print bytes conf))
