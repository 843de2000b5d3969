-- ===== src/ClientFiles/Kept.antt =====
-- What writeClientFiles keeps of the configuration once it has been configured.
use beegfs_csi_driver.Prelude.{String, ◌≡◌, refl, ap, ◌∙◌, Bool, true, false, List, [], ◌∷◌, ◌==◌}
use beegfs_csi_driver.Prelude.Dict.{Dict, lookup}
use beegfs_csi_driver.Prelude.Result.{Result, ok, err, pure, lift, continue, ◌>>=◌, ◌>>◌}
use beegfs_csi_driver.Errors.{Cause}
use beegfs_csi_driver.Volume.{BeegfsVolume, get_conn_auth_path}
use beegfs_csi_driver.Host.{Host, History, Io, write_file, act}
use beegfs_csi_driver.ClientFiles.{set_config_value, write_listing, write_conn_auth}
use beegfs_csi_driver.ClientFiles.Keys.{keys, set_config_value-ok}

-- Inversion of a successful chain of actions.
pub bind-eq-ok :
    {A B : Type 0} (m : Io A) (f : A → Io B) {s t : History} {b : B}
    → (m >>= f) s ≡ (ok b, t)
    → (a : A) × (u : History) × (m s ≡ (ok a, u)) × (f a u ≡ (ok b, t))
unfolding ◌>>=◌
bind-eq-ok {A} {B} m f {s} {t} {b} e = after (m s).0 (m s).1 refl e
  where
    after :
        (r : Result Cause A) (u : History)
        → m s ≡ (r, u)
        → continue r f u ≡ (ok b, t)
        → (a : A) × (u : History) × (m s ≡ (ok a, u)) × (f a u ≡ (ok b, t))
    after (ok a) u is e = (a, u, is, e)
    after (err x) u is e = absurd (cc)

-- Two configurations with the same keys in the same order, and the same management host.
pub record Agrees (a b : Dict String) : Type 0 where
  pub same_keys : keys b ≡ keys a
  pub same_host : lookup "sysMgmtdHost" b ≡ lookup "sysMgmtdHost" a

pub Agrees-trans : {a b c : Dict String} → Agrees a b → Agrees b c → Agrees a c
Agrees-trans p q = record {
  same_keys = q.same_keys ∙ p.same_keys;
  same_host = q.same_host ∙ p.same_host;
}

-- An action whose success returns a configuration that agrees with this one.
pub record Keeps (conf : Dict String) (m : Io (Dict String)) : Type 0 where
  pub returns : (s t : History) (conf' : Dict String) → m s ≡ (ok conf', t) → Agrees conf conf'

pure-Keeps : (conf : Dict String) → Keeps conf (pure conf)
unfolding pure
pure-Keeps conf = record {
  returns =
      λ s t conf' e. record { same_keys = ap keys (back e); same_host = ap (lookup _) (back e) };
}
  where
    back :
        {s t : History} {c : Dict String}
        → ◌≡◌ {A = Result Cause (Dict String) × History} (ok conf, s) (ok c, t)
        → c ≡ conf
    back e = cc

set-Keeps :
    (key value : String) (conf : Dict String)
    → (key == "sysMgmtdHost") ≡ false
    → Keeps conf (lift (set_config_value key value conf))
unfolding lift
set-Keeps key value conf other = record {
  returns = λ s t conf' e.
      let (k, v) = set_config_value-ok key value conf conf' (ap (λ (r : _ × History). r.0) e) in
      record { same_keys = k; same_host = v "sysMgmtdHost" ∙ rw other refl };
}

bind-Keeps :
    (conf : Dict String) (m : Io (Dict String)) (f : Dict String → Io (Dict String))
    → Keeps conf m
    → ((c : Dict String) → Keeps c (f c))
    → Keeps conf (m >>= f)
bind-Keeps conf m f km kf = record {
  returns = λ s t conf' e.
      let (c, u, first, rest) = bind-eq-ok m f e in
      Agrees-trans (km.returns s u c first) ((kf c).returns u t conf' rest);
}

then-Keeps :
    {A : Type 0} (conf : Dict String) (m : Io A) (f : A → Io (Dict String))
    → ((a : A) → Keeps conf (f a))
    → Keeps conf (m >>= f)
then-Keeps conf m f kf = record {
  returns =
      λ s t conf' e. let (a, u, first, rest) = bind-eq-ok m f e in (kf a).returns u t conf' rest;
}

module _ (h : Host) where
  pub write_listing-Keeps :
      (key path : String) (items : List String) (conf : Dict String)
      → (key == "sysMgmtdHost") ≡ false
      → Keeps conf (write_listing h key path items conf)
  unfolding write_listing
  write_listing-Keeps key path [] conf other = pure-Keeps conf
  write_listing-Keeps key path (item ∷ items) conf other =
      bind-Keeps conf _ _ (set-Keeps key path conf other) λ c. then-Keeps c _ _ λ u. pure-Keeps c

  pub write_conn_auth-Keeps :
      (vol : BeegfsVolume) (conf : Dict String) → Keeps conf (write_conn_auth h vol conf)
  unfolding write_conn_auth
  write_conn_auth-Keeps vol conf = choose (vol.config.conn_auth == "")
    where
      choose :
          (b : Bool)
          → Keeps conf (elim b as (λ (_ : Bool). Io (Dict String)) [
            | true ↦ pure conf
            | false ↦
                lift (set_config_value "connAuthFile" (get_conn_auth_path vol) conf) >>= λ conf'.
                act h (write_file (get_conn_auth_path vol) vol.config.conn_auth 0o400) >> pure conf'
          ])
      choose true = pure-Keeps conf
      choose false =
          bind-Keeps conf _ _ (set-Keeps "connAuthFile" _ conf refl)
            λ c. then-Keeps c _ _ λ u. pure-Keeps c
