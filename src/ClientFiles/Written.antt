-- ===== src/ClientFiles/Written.antt =====
-- What writeClientFiles writes to beegfs-client.conf.
use beegfs_csi_driver.Prelude.{String, ◌≡◌, refl, ap, ◌∙◌, none, some, [], ◌∷◌}
use beegfs_csi_driver.Prelude.Dict.{Dict, lookup}
use beegfs_csi_driver.Prelude.Result.{ok, lift, ◌>>=◌, ◌>>◌}
use beegfs_csi_driver.Text.Numbers.{decimal}
use beegfs_csi_driver.Text.Path.{path_join}
use beegfs_csi_driver.Config.Merge.{entries}
use beegfs_csi_driver.Volume.{BeegfsVolume}
use beegfs_csi_driver.Host.{Host, History, Io, Call, read_file, create, write_to, act, read_text}
use beegfs_csi_driver.ClientFiles.{
  configure, write_listing, write_conn_auth, write_tls_cert, write_client_files,
  get_ephemeral_port_udp,
}
use beegfs_csi_driver.ClientFiles.Kept.{
  bind-eq-ok, Agrees, Agrees-trans, Keeps, write_listing-Keeps, write_conn_auth-Keeps,
}
use beegfs_csi_driver.ClientFiles.Keys.{keys, configure-keys}

module _ (h : Host) where
  -- An action whose success ends with the writing of a configuration that agrees with this one.
  record Ends (path bytes : String) (conf : Dict String) (m : Io (Unit {0})) : Type 0 where
    ends :
        (s t : History)
        → m s ≡ (ok tt, t)
        → (conf' : Dict String) × Agrees conf conf'
          × ((earlier : History) × (t
                ≡ write_to path (h.ini_print bytes conf') ∷ create path ∷ earlier))

  bind-Ends :
      (path bytes : String) (conf : Dict String) (m : Io (Dict String))
      (f : Dict String → Io (Unit {0}))
      → Keeps conf m
      → ((c : Dict String) → Ends path bytes c (f c))
      → Ends path bytes conf (m >>= f)
  bind-Ends path bytes conf m f km ef = record {
    ends = λ s t e.
        let (c, u, first, rest) = bind-eq-ok m f e in
        let (conf', kept, written) = (ef c).ends u t rest in
        (conf', Agrees-trans (km.returns s u c first) kept, written);
  }

  then-Ends :
      {A : Type 0} (path bytes : String) (conf : Dict String) (m : Io A) (f : A → Io (Unit {0}))
      → ((a : A) → Ends path bytes conf (f a))
      → Ends path bytes conf (m >>= f)
  then-Ends path bytes conf m f ef = record {
    ends = λ s t e. let (a, u, first, rest) = bind-eq-ok m f e in (ef a).ends u t rest;
  }

  act-calls : (c : Call) (s t : History) → act h c s ≡ (ok tt, t) → t ≡ c ∷ s
  act-calls c s t e = cc

  write-Ends :
      (path bytes : String) (conf : Dict String)
      → Ends path bytes conf (act h (create path) >> act h (write_to path (h.ini_print bytes conf)))
  write-Ends path bytes conf = record {
    ends = λ s t e.
        let (u, v, first, rest) =
          bind-eq-ok (act h (create path))
            (λ (u : Unit {0}). act h (write_to path (h.ini_print bytes conf))) e in
        (
          conf,
          record { same_keys = refl; same_host = refl },
          (
            s,
            act-calls _ v t rest
                ∙ ap (λ (i : History). write_to path (h.ini_print bytes conf) ∷ i)
                    (act-calls _ s v first),
          ),
        );
  }

  -- The lists, the secret and the files that hold them, and at last the configuration.
  abbrev written_after : BeegfsVolume → String → Dict String → Io (Unit {0})
  written_after vol bytes conf = do
    conf ←
        write_listing h "connInterfacesFile"
          (path_join (vol.mount_dir_path ∷ "connInterfacesFile" ∷ [])) vol.config.conn_interfaces
          conf
    conf ← write_conn_auth h vol conf
    write_tls_cert h vol
    conf ←
        write_listing h "connNetFilterFile"
          (path_join (vol.mount_dir_path ∷ "connNetFilterFile" ∷ [])) vol.config.conn_net_filter
          conf
    conf ←
        write_listing h "connTcpOnlyFilterFile"
          (path_join (vol.mount_dir_path ∷ "connTcpOnlyFilterFile" ∷ []))
          vol.config.conn_tcp_only_filter conf
    conf ←
        write_listing h "connRDMAInterfacesFile"
          (path_join (vol.mount_dir_path ∷ "connRDMAInterfacesFile" ∷ []))
          vol.config.conn_rdma_interfaces conf
    act h (create vol.client_conf_path)
    act h (write_to vol.client_conf_path (h.ini_print bytes conf))

  written_after-Ends :
      (vol : BeegfsVolume) (bytes : String) (conf : Dict String)
      → Ends vol.client_conf_path bytes conf (written_after vol bytes conf)
  written_after-Ends vol bytes c0 =
      bind-Ends _ bytes c0 _ _ (write_listing-Keeps h _ _ _ c0 refl) λ c1.
        bind-Ends _ bytes c1 _ _ (write_conn_auth-Keeps h vol c1) λ c2.
          then-Ends _ bytes c2 _ _ λ u.
            bind-Ends _ bytes c2 _ _ (write_listing-Keeps h _ _ _ c2 refl) λ c3.
              bind-Ends _ bytes c3 _ _ (write_listing-Keeps h _ _ _ c3 refl) λ c4.
                bind-Ends _ bytes c4 _ _ (write_listing-Keeps h _ _ _ c4 refl)
                  λ c5. write-Ends _ bytes c5

  -- The client's configuration has been written, as the last call.
  pub record IsWritten (vol : BeegfsVolume) (template_path : String) (t : History) : Type 0 where
    pub bytes : String
    pub before_read : History
    pub read : h.text_reply before_read (read_file template_path) ≡ ok bytes
    pub template : Dict String
    pub loaded : h.ini_load bytes ≡ ok template
    pub conf : Dict String
    pub same_keys : keys conf ≡ keys template
    pub host : lookup "sysMgmtdHost" conf ≡ some vol.sys_mgmtd_host
    pub earlier : History
    pub written :
        t
        ≡ write_to vol.client_conf_path (h.ini_print bytes conf)
          ∷ create vol.client_conf_path
          ∷ earlier

  -- Where the driver's configuration does not name a management host: if writeClientFiles succeeds,
  -- its last calls create beegfs-client.conf and write to it a configuration with the keys of the
  -- template that it has read, in their order, and with the management host of the volume.
  pub write_client_files-IsWritten :
      (vol : BeegfsVolume) (template_path : String) (s t : History)
      → lookup "sysMgmtdHost" (entries vol.config.beegfs_client_conf) ≡ none
      → write_client_files h vol template_path s ≡ (ok tt, t)
      → IsWritten vol template_path t
  unfolding write_client_files lift
  write_client_files-IsWritten vol template_path s t n e =
      let (port, s1, e1, r1) =
        bind-eq-ok (get_ephemeral_port_udp h)
          (λ port. read_text h (read_file template_path) >>= λ bytes.
            lift (h.ini_load bytes) >>= λ template.
            lift (configure vol (decimal port) template) >>= written_after vol bytes)
          e in
      let (bytes, s2, e2, r2) =
        bind-eq-ok (read_text h (read_file template_path))
          (λ bytes. lift (h.ini_load bytes) >>= λ template.
            lift (configure vol (decimal port) template) >>= written_after vol bytes)
          r1 in
      let (template, s3, e3, r3) =
        bind-eq-ok (lift (h.ini_load bytes))
          (λ template. lift (configure vol (decimal port) template) >>= written_after vol bytes)
          r2 in
      let (c0, s4, e4, r4) =
        bind-eq-ok (lift (configure vol (decimal port) template)) (written_after vol bytes) r3 in
      let (k, hosted) =
        configure-keys vol (decimal port) template c0 n (ap (λ (r : _ × History). r.0) e4) in
      let (conf, kept, (earlier, written)) = (written_after-Ends vol bytes c0).ends s4 t r4 in
      record {
        bytes = bytes;
        before_read = s1;
        read = ap (λ (r : _ × History). r.0) e2;
        template = template;
        loaded = ap (λ (r : _ × History). r.0) e3;
        conf = conf;
        same_keys = kept.same_keys ∙ k;
        host = kept.same_host ∙ hosted;
        earlier = earlier;
        written = written;
      }
