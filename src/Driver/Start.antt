-- ===== src/Driver/Start.antt =====
-- What a driver that has started is like.
use beegfs_csi_driver.Prelude.{
  String, ◌≡◌, refl, ap, subst, Bool, true, false, ◌==◌, arith, if◌then◌else◌,
}
use beegfs_csi_driver.Prelude.Result.{Result, ok, err, pure, lift, continue, ◌>>=◌}
use beegfs_csi_driver.Errors.{Cause, failure}
use beegfs_csi_driver.Host.{Host, History, Io, read_file, read_text}
use beegfs_csi_driver.Driver.{
  Decoders, Arguments, Driver, check_names, get_default_client_conf_template_path, found_template,
  template_path, make_data_dir, new_beegfs_driver,
}

-- Inversion of a chain of actions that succeeded.
module _ {A B : Type 0} where
  pub then_ok :
      (m : Io A) (f : A → Io B) (s t : History) (b : B)
      → (m >>= f) s ≡ (ok b, t)
      → (a : A) × (u : History) × (m s ≡ (ok a, u)) × (f a u ≡ (ok b, t))
  unfolding ◌>>=◌
  then_ok m f s t b e = after (m s).0 refl e
    where
      after :
          (r : Result Cause A)
          → (m s).0 ≡ r
          → continue r f (m s).1 ≡ (ok b, t)
          → (a : A) × (u : History) × (m s ≡ (ok a, u)) × (f a u ≡ (ok b, t))
      after (ok a) is_a run = (a, (m s).1, ap (λ r. (r, (m s).1)) is_a, run)
      after (err x) is_err run = cc

check_names-ok :
    (a : Arguments)
    → check_names a ≡ ok tt
    → ((a.driver_name == "") ≡ false) × ((a.node_id == "") ≡ false) × ((a.endpoint == "") ≡ false)
unfolding check_names
check_names-ok a e = ground arith

-- A driver that has started.
pub record IsStarted (vendor_version : String) (a : Arguments) (d : Driver) : Type 0 where
  pub driver_name : d.driver_name ≡ a.driver_name
  pub node_id : d.node_id ≡ a.node_id
  pub endpoint : d.endpoint ≡ a.endpoint
  pub cs_data_dir : d.cs_data_dir ≡ a.cs_data_dir
  pub named : (d.driver_name == "") ≡ false
  pub on_node : (d.node_id == "") ≡ false
  pub reachable : (d.endpoint == "") ≡ false
  pub has_data_dir : (d.cs_data_dir == "") ≡ false
  pub has_template : (d.client_conf_template_path == "") ≡ false
  pub version : d.version ≡ (if a.version == "" then vendor_version else a.version)

module _ (h : Host) where
  pub started :
      {A : Type 0} (x y : A) (s t : History)
      → ◌≡◌ {A = Result Cause A × History} (pure x s) (ok y, t)
      → x ≡ y
  unfolding pure
  started x y s t e = cc

  template_path-ok :
      (given path : String) (s t : History)
      → template_path h given s ≡ (ok path, t)
      → (path == "") ≡ false
  unfolding template_path ◌>>=◌ pure
  template_path-ok given path s t e = choose (given == "") refl e
    where
      found :
          (p : String) (b : Bool) (u : History)
          → (p == "") ≡ b
          → ◌≡◌ {A = Result Cause String × History}
              (
                if b
                    then err
                        (failure "failed to get valid default client configuration template file")
                    else ok p,
                u,
              )
              (ok path, t)
          → (path == "") ≡ false
      found p true u is_empty run = cc
      found p false u is_empty run = cc

      choose :
          (b : Bool)
          → (given == "") ≡ b
          → ◌≡◌ {A = Result Cause String × History}
              (if b
                then (
                  found_template (get_default_client_conf_template_path h s).0,
                  (get_default_client_conf_template_path h s).1,
                )
                else (read_text h (read_file given) >>= λ bytes. pure given) s)
              (ok path, t)
          → (path == "") ≡ false
      choose true is_given run = found (get_default_client_conf_template_path h s).0 _ _ refl run
      choose false is_given run =
          let (bytes, u, e1, e2) =
            then_ok (read_text h (read_file given)) (λ bytes. pure given) s t path run in
          rw (started given path u t e2) at is_given

  make_data_dir-ok :
      (dir : String) (s t : History) → make_data_dir h dir s ≡ (ok tt, t) → (dir == "") ≡ false
  unfolding make_data_dir
  make_data_dir-ok dir s t e = ground arith

  -- A driver that starts has a name, a node, an endpoint, a data directory and a template of the
  -- client's configuration, each as it was given where it was given; without a version, it has that of
  -- the build.
  pub new_beegfs_driver-IsStarted :
      (d : Decoders) (vendor_version : String) (a : Arguments) (driver : Driver) (s t : History)
      → new_beegfs_driver h d vendor_version a s ≡ (ok driver, t)
      → IsStarted vendor_version a driver
  unfolding new_beegfs_driver lift
  new_beegfs_driver-IsStarted d vendor_version a driver s t e =
      let (u1, s1, e1, r1) = then_ok _ _ s t driver e in
      let (template, s2, e2, r2) = then_ok _ _ s1 t driver r1 in
      let (config, s3, e3, r3) = then_ok _ _ s2 t driver r2 in
      let (with_auths, s4, e4, r4) = then_ok _ _ s3 t driver r3 in
      let (with_certs, s5, e5, r5) = then_ok _ _ s4 t driver r4 in
      let (u6, s6, e6, r6) = then_ok _ _ s5 t driver r5 in
      let names = check_names-ok a (ap (λ (r : Result Cause (Unit {0}) × History). r.0) e1) in
      subst (IsStarted vendor_version a) (started _ _ s6 t r6) (record {
        driver_name = refl;
        node_id = refl;
        endpoint = refl;
        cs_data_dir = refl;
        named = names.0;
        on_node = names.1;
        reachable = names.2;
        has_data_dir = make_data_dir-ok a.cs_data_dir s5 s6 e6;
        has_template = template_path-ok a.client_conf_template_path template s1 s2 e2;
        version = refl;
      })
