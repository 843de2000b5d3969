-- ===== src/ClientFiles/Keys.antt =====
-- The keys of beegfs-client.conf: which ones are set, and what the order of the configuration does.
use beegfs_csi_driver.Prelude.{
  String, ◌≡◌, refl, sym, ap, ◌∙◌, false, Option, none, some, List, [], ◌∷◌, arith, ◌==◌, eq_iff,
  if◌then◌else◌, Option-cases, Bool-cases, inl, inr,
}
use beegfs_csi_driver.Prelude.Dict.{Dict, lookup, insert, lookup-insert}
use beegfs_csi_driver.Prelude.Result.{Result, ok, err}
use beegfs_csi_driver.Prelude.Fallible
use beegfs_csi_driver.Prelude.Fallible.{>>=-eq-ok}
use beegfs_csi_driver.Errors.{Cause, failure}
use beegfs_csi_driver.Config.Merge.{entries}
use beegfs_csi_driver.Volume.{BeegfsVolume}
use beegfs_csi_driver.ClientFiles.{
  set_config_value, set_client_port, set_client_conf_entry, set_client_conf, configure,
}

-- The keys of a configuration, in their order.
abbrev pub keys : Dict String → List String
keys [] = []
keys ((k, v) ∷ conf) = k ∷ keys conf

keys-insert :
    (k v w : String) (conf : Dict String)
    → lookup k conf ≡ some w
    → keys (insert k v conf) ≡ keys conf
unfolding lookup insert
keys-insert k v w [] h = cc
keys-insert k v w ((j, x) ∷ conf) h = elim (Bool-cases (j == k)) [
  | inl same ↦ rw same (ap (λ i. i ∷ keys conf) (sym ((eq_iff j k).0 same)))
  | inr other ↦ rw other (ap (λ i. j ∷ i) (keys-insert k v w conf (rw other at h)))
]

-- A value is set only where the template has the key; then it is the key's, and the other keys are
-- as they were.
pub set_config_value-ok :
    (k v : String) (conf conf' : Dict String)
    → set_config_value k v conf ≡ ok conf'
    → (keys conf' ≡ keys conf)
      × ((j : String) → lookup j conf' ≡ (if k == j then some v else lookup j conf))
unfolding set_config_value
set_config_value-ok k v conf conf' e = after (lookup k conf) refl e
  where
    after :
        (o : Option String)
        → lookup k conf ≡ o
        → ◌≡◌ {A = Result Cause (Dict String)}
            (elim o [
              | none ↦ err (failure "key not in template beegfs-client.conf file")
              | some old ↦ ok (insert k v conf)
            ])
            (ok conf')
        → (keys conf' ≡ keys conf)
          × ((j : String) → lookup j conf' ≡ (if k == j then some v else lookup j conf))
    after none h e = cc
    after (some w) h e = (cc (e, keys-insert k v w conf h), λ j. cc (e, lookup-insert k j v conf))

-- The keys are as in the template.
set_client_conf_entry-keys :
    (k v : String) (a b : Dict String × String)
    → set_client_conf_entry k v a ≡ ok b
    → keys b.0 ≡ keys a.0
unfolding set_client_conf_entry set_config_value
set_client_conf_entry-keys k v (conf, p) (conf', p') e = elim (Option-cases (lookup k conf)) [
  | inr (w, found) ↦ grind (arith, e, found, keys-insert k v w conf found)
  | inl missing ↦ elim (Option-cases (lookup "connMgmtdPort" conf)) [
    | inr (w, found) ↦ grind (arith, e, missing, found, keys-insert "connMgmtdPort" v w conf found)
    | inl gone ↦ grind (arith, e, missing, gone)
  ]
]

set_client_conf-keys :
    (cfg : Dict String) (a b : Dict String × String)
    → set_client_conf cfg a ≡ ok b
    → keys b.0 ≡ keys a.0
unfolding set_client_conf
set_client_conf-keys [] a b e = cc
set_client_conf-keys ((k, v) ∷ cfg) a b e =
    let (c, first, later) = >>=-eq-ok (set_client_conf_entry k v a) (set_client_conf cfg) e in
    set_client_conf-keys cfg c b later ∙ set_client_conf_entry-keys k v a c first

set_client_port-keys :
    (v : String) (conf conf' : Dict String)
    → set_client_port v conf ≡ ok conf'
    → keys conf' ≡ keys conf
unfolding set_client_port
set_client_port-keys v conf conf' e = after (set_config_value "connClientPort" v conf) refl e
  where
    after :
        (r : Result Cause (Dict String))
        → set_config_value "connClientPort" v conf ≡ r
        → (elim r [ ok c ↦ ok c | err x ↦ set_config_value "connClientPortUDP" v conf ]) ≡ ok conf'
        → keys conf' ≡ keys conf
    after (ok c) h e = cc (e, (set_config_value-ok "connClientPort" v conf c h).0)
    after (err x) h e = (set_config_value-ok "connClientPortUDP" v conf conf' e).0

set_client_conf_entry-host :
    (k v : String) (a b : Dict String × String)
    → (k == "sysMgmtdHost") ≡ false
    → set_client_conf_entry k v a ≡ ok b
    → lookup "sysMgmtdHost" b.0 ≡ lookup "sysMgmtdHost" a.0
unfolding set_client_conf_entry set_config_value
set_client_conf_entry-host k v (conf, p) (conf', p') n e = elim (Option-cases (lookup k conf)) [
  | inr (w, found) ↦ grind (arith, e, found, n, lookup-insert k "sysMgmtdHost" v conf)
  | inl missing ↦ elim (Option-cases (lookup "connMgmtdPort" conf)) [
    | inr (w, found) ↦
        grind (arith, e, missing, found, lookup-insert "connMgmtdPort" "sysMgmtdHost" v conf)
    | inl gone ↦ grind (arith, e, missing, gone)
  ]
]

set_client_conf-host :
    (cfg : Dict String) (a b : Dict String × String)
    → lookup "sysMgmtdHost" cfg ≡ none
    → set_client_conf cfg a ≡ ok b
    → lookup "sysMgmtdHost" b.0 ≡ lookup "sysMgmtdHost" a.0
unfolding set_client_conf lookup
set_client_conf-host [] a b n e = cc
set_client_conf-host ((k, v) ∷ cfg) a b n e = elim (Bool-cases (k == "sysMgmtdHost")) [
  | inl same ↦ grind (arith, n, same)
  | inr other ↦
      let (c, first, later) = >>=-eq-ok (set_client_conf_entry k v a) (set_client_conf cfg) e in
      set_client_conf-host cfg c b (rw other at n) later
      ∙ set_client_conf_entry-host k v a c other first
]

set_client_port-host :
    (v : String) (conf conf' : Dict String)
    → set_client_port v conf ≡ ok conf'
    → lookup "sysMgmtdHost" conf' ≡ lookup "sysMgmtdHost" conf
unfolding set_client_port
set_client_port-host v conf conf' e = after (set_config_value "connClientPort" v conf) refl e
  where
    after :
        (r : Result Cause (Dict String))
        → set_config_value "connClientPort" v conf ≡ r
        → (elim r [ ok c ↦ ok c | err x ↦ set_config_value "connClientPortUDP" v conf ]) ≡ ok conf'
        → lookup "sysMgmtdHost" conf' ≡ lookup "sysMgmtdHost" conf
    after (ok c) h e = cc (e, (set_config_value-ok "connClientPort" v conf c h).1 "sysMgmtdHost")
    after (err x) h e = (set_config_value-ok "connClientPortUDP" v conf conf' e).1 "sysMgmtdHost"

-- Before any file is written, the keys are those of the template, in its order, and the management
-- host is that of the volume, where the driver's configuration does not name another.
pub configure-keys :
    (vol : BeegfsVolume) (client_port : String) (template conf : Dict String)
    → lookup "sysMgmtdHost" (entries vol.config.beegfs_client_conf) ≡ none
    → configure vol client_port template ≡ ok conf
    → (keys conf ≡ keys template) × (lookup "sysMgmtdHost" conf ≡ some vol.sys_mgmtd_host)
unfolding configure
configure-keys vol client_port template conf n e =
    let (c1, e1, r1) =
      >>=-eq-ok (set_config_value "sysMgmtdHost" vol.sys_mgmtd_host template) _ e in
    let (c2, e2, r2) = >>=-eq-ok (set_client_port client_port c1) _ r1 in
    let (c3, e3, r3) =
      >>=-eq-ok (set_client_conf (entries vol.config.beegfs_client_conf) (c2, "")) _ r2 in
    let hosted = set_config_value-ok "sysMgmtdHost" vol.sys_mgmtd_host template c1 e1 in
    (
      ap keys (ok_injective (sym r3))
          ∙ set_client_conf-keys _ (c2, "") c3 e3
          ∙ set_client_port-keys client_port c1 c2 e2
          ∙ hosted.0,
      ap (lookup "sysMgmtdHost") (ok_injective (sym r3))
          ∙ set_client_conf-host _ (c2, "") c3 n e3
          ∙ set_client_port-host client_port c1 c2 e2
          ∙ hosted.1 "sysMgmtdHost",
    )
  where
    ok_injective : {a b : Dict String} → ◌≡◌ {A = Result Cause (Dict String)} (ok a) (ok b) → a ≡ b
    ok_injective e = cc

two_entries :
    (k v j w : String) (a b c : Dict String × String)
    → set_client_conf_entry k v a ≡ ok b
    → set_client_conf_entry j w b ≡ ok c
    → set_client_conf ((k, v) ∷ (j, w) ∷ []) a ≡ ok c
unfolding set_client_conf
two_entries k v j w a b c e1 e2 =
    ap (λ r. Fallible.◌>>=◌ r (set_client_conf ((j, w) ∷ []))) e1
    ∙ ap (λ r. Fallible.◌>>=◌ r (set_client_conf [])) e2

entry_direct :
    (k v w : String) (conf : Dict String) (p : String)
    → lookup k conf ≡ some w
    → set_client_conf_entry k v (conf, p) ≡ ok (insert k v conf, p)
unfolding set_client_conf_entry set_config_value
entry_direct k v w conf p found = ground (arith, found)

entry_tcp :
    (v w : String) (conf : Dict String)
    → lookup "connMgmtdPortTCP" conf ≡ none
    → lookup "connMgmtdPort" conf ≡ some w
    → set_client_conf_entry "connMgmtdPortTCP" v (conf, "") ≡ ok (insert "connMgmtdPort" v conf, v)
unfolding set_client_conf_entry set_config_value
entry_tcp v w conf missing found = ground (arith, missing, found)

-- The port that is kept is the last one in the order in which the loop visits the configuration:
-- where the template has "connMgmtdPort" and not "connMgmtdPortTCP", a configuration of both keys
-- yields one port in one order, and the other in the other.
pub set_client_conf_order :
    (port tcp old : String) (conf : Dict String)
    → lookup "connMgmtdPort" conf ≡ some old
    → lookup "connMgmtdPortTCP" conf ≡ none
    → (set_client_conf (("connMgmtdPort", port) ∷ ("connMgmtdPortTCP", tcp) ∷ []) (conf, "")
        ≡ ok (insert "connMgmtdPort" tcp (insert "connMgmtdPort" port conf), tcp))
      × (set_client_conf (("connMgmtdPortTCP", tcp) ∷ ("connMgmtdPort", port) ∷ []) (conf, "")
          ≡ ok (insert "connMgmtdPort" port (insert "connMgmtdPort" tcp conf), tcp))
unfolding set_client_conf set_client_conf_entry set_config_value
set_client_conf_order port tcp old conf found missing = (
  two_entries "connMgmtdPort" port "connMgmtdPortTCP" tcp (conf, "") _ _
      (entry_direct "connMgmtdPort" port old conf "" found)
      (entry_tcp tcp port (insert "connMgmtdPort" port conf)
        (lookup-insert "connMgmtdPort" "connMgmtdPortTCP" port conf ∙ missing)
        (lookup-insert "connMgmtdPort" "connMgmtdPort" port conf)),
  two_entries "connMgmtdPortTCP" tcp "connMgmtdPort" port (conf, "") _ _
      (entry_tcp tcp old conf missing found)
      (entry_direct "connMgmtdPort" port tcp (insert "connMgmtdPort" tcp conf) tcp
        (lookup-insert "connMgmtdPort" "connMgmtdPort" tcp conf)),
)
