-- ===== src/Services/Working.antt =====
-- What a driver that NewBeegfsDriver makes is like.
use beegfs_csi_driver.Prelude.{
  ℕ, String, ◌≡◌, refl, sym, ap, ◌∙◌, subst, member, true, false, none, ◌==◌,
}
use beegfs_csi_driver.Prelude.Result.{Result, ok}
use beegfs_csi_driver.Errors.{Cause}
use beegfs_csi_driver.Prelude.Dict.{lookup}
use beegfs_csi_driver.Config.{PluginConfig}
use beegfs_csi_driver.Lock.{new_string_lock, new_status_map, obtain_lock_on_string, read_status}
use beegfs_csi_driver.Host.{Host, History}
use beegfs_csi_driver.Node
use beegfs_csi_driver.Driver.{Decoders, Arguments}
use beegfs_csi_driver.Driver.ClientModule.{verify_beegfs_client_module_is_available}
use beegfs_csi_driver.Driver.Start.{IsStarted, new_beegfs_driver-IsStarted, then_ok, started}
use beegfs_csi_driver.Services.{
  get_plugin_info, ControllerServer, WorkingDriver, new_node_server, new_controller_server,
  new_working_beegfs_driver,
}

pub record IsWorking (h : Host) (vendor_version : String) (a : Arguments) (timeout : ℕ)
    (s : History) (w : WorkingDriver) : Type 0 where
  pub module_available : (verify_beegfs_client_module_is_available h s).0 ≡ ok tt
  pub started : IsStarted vendor_version a w.driver
  pub named :
      (w.driver.version == "") ≡ false
      → get_plugin_info w.ids
        ≡ ok (record { name = a.driver_name; vendor_version = w.driver.version })
  pub on_node : w.ns.node_id ≡ a.node_id
  pub same_config : w.cs.settings.plugin_config ≡ w.ns.plugin_config
  pub same_template : w.cs.settings.client_conf_template_path ≡ w.ns.client_conf_template_path
  pub waits : w.cs.settings.node_unstage_timeout ≡ timeout
  pub unlocked : (id : String) → (obtain_lock_on_string id w.cs.volume_ids_in_flight).0 ≡ true
  pub unrecorded : (id : String) → read_status id w.cs.volume_status_map ≡ none

plugin_info_lem :
    (name version given : String)
    → (name == "") ≡ false
    → (version == "") ≡ false
    → name ≡ given
    → get_plugin_info (record { name = name; version = version })
      ≡ ok (record { name = given; vendor_version = version })
unfolding get_plugin_info
plugin_info_lem name version given named versioned e =
    rw (named, get_plugin_info, versioned)
      (ap (λ (n : String). ok (record { name = n; vendor_version = version })) e)

module _ (h : Host) where
  node_server_lem :
      (node_id : String) (config : PluginConfig) (template : String) (s t : History)
      (ns : Node.Settings)
      → new_node_server h node_id config template s ≡ (ok ns, t)
      → ns
        ≡ record { node_id = node_id; plugin_config = config; client_conf_template_path = template }
  unfolding new_node_server
  node_server_lem node_id config template s t ns e =
      let (u, s1, e1, r1) = then_ok _ _ s t ns e in sym (started h _ ns s1 t r1)

  controller_server_lem :
      (config : PluginConfig) (template dir : String) (timeout : ℕ) (s t : History)
      (cs : ControllerServer)
      → new_controller_server h config template dir timeout s ≡ (ok cs, t)
      → cs ≡ record {
        settings = record {
          plugin_config = config;
          client_conf_template_path = template;
          cs_data_dir = dir;
          node_unstage_timeout = timeout;
        };
        volume_ids_in_flight = new_string_lock;
        volume_status_map = new_status_map;
      }
  unfolding new_controller_server
  controller_server_lem config template dir timeout s t cs e =
      let (u, s1, e1, r1) = then_ok _ _ s t cs e in sym (started h _ cs s1 t r1)

  -- A driver with its services has found the kernel module, and has started. Its identity service,
  -- if there is a version, answers with the name that was given; its node service is that of the given
  -- node; both of the other services have the same configuration and template; and the controller
  -- service has the given timeout, with no volume locked and none recorded.
  pub new_working_beegfs_driver-IsWorking :
      (d : Decoders) (vendor_version : String) (a : Arguments) (timeout : ℕ) (w : WorkingDriver)
      (s t : History)
      → new_working_beegfs_driver h d vendor_version a timeout s ≡ (ok w, t)
      → IsWorking h vendor_version a timeout s w
  unfolding new_working_beegfs_driver
  new_working_beegfs_driver-IsWorking d vendor_version a timeout w s t e =
      let (u, s1, e1, r1) = then_ok _ _ s t w e in
      let (driver, s2, e2, r2) = then_ok _ _ s1 t w r1 in
      let (ns, s3, e3, r3) = then_ok _ _ s2 t w r2 in
      let (cs, s4, e4, r4) = then_ok _ _ s3 t w r3 in
      let begun = new_beegfs_driver-IsStarted h d vendor_version a driver s1 s2 e2 in
      let ns_is = node_server_lem _ _ _ s2 s3 ns e3 in
      let cs_is = controller_server_lem _ _ _ timeout s3 s4 cs e4 in
      subst (IsWorking h vendor_version a timeout s) (started h _ w s4 t r4) (record {
        module_available = ap (λ (r : Result Cause (Unit {0}) × History). r.0) e1;
        started = begun;
        named = λ v.
            plugin_info_lem driver.driver_name driver.version a.driver_name begun.named v
              begun.driver_name;
        on_node = ap (λ (n : Node.Settings). n.node_id) ns_is ∙ begun.node_id;
        same_config =
            ap (λ (c : ControllerServer). c.settings.plugin_config) cs_is
            ∙ sym (ap (λ (n : Node.Settings). n.plugin_config) ns_is);
        same_template =
            ap (λ (c : ControllerServer). c.settings.client_conf_template_path) cs_is
            ∙ sym (ap (λ (n : Node.Settings). n.client_conf_template_path) ns_is);
        waits = ap (λ (c : ControllerServer). c.settings.node_unstage_timeout) cs_is;
        unlocked = λ id.
            ap (λ (c : ControllerServer). (obtain_lock_on_string id c.volume_ids_in_flight).0) cs_is
            ∙ unfold obtain_lock_on_string member in refl;
        unrecorded = λ id.
            ap (λ (c : ControllerServer). read_status id c.volume_status_map) cs_is
            ∙ unfold read_status lookup in refl;
      })
