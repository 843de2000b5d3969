-- ===== src/Deploy.antt =====
-- GetRBAC (deploy/k8s/deploy.go): the objects of the embedded manifest of roles, bindings and service
-- accounts. `yaml.UnmarshalStrict` is a parameter, and so is the text of the manifest.
pub mod Documents
use beegfs_csi_driver.Prelude.{
  ℕ, zero, suc, ◌+◌, ◌≤◌, String, ◌<>◌, ◌≡◌, refl, sym, ap, ◌∙◌, Bool, true, false, Option, none,
  some, List, [], ◌∷◌, ◌++◌, arith, length, if◌then◌else◌, append_assoc, append-nil,
}
use beegfs_csi_driver.Prelude.Result.{Result, ok, err}
use beegfs_csi_driver.Text.Strings.{codes, contains, split_n2, join}
use beegfs_csi_driver.Text.Strings.Split.{split_n2-rebuild}
use beegfs_csi_driver.Errors.{Cause, failure}
use beegfs_csi_driver.Operator.Objects.{
  RbacObject, Kind, service_accounts, cluster_roles, cluster_role_bindings, roles, role_bindings,
}

-- bytes.Split(s, sep), for a separator that is not empty: on as many rounds as there are characters,
-- each of which cuts at the first separator.
unfoldable pub split_rounds : ℕ → String → String → List String
unfolding split_n2
split_rounds zero s sep = s ∷ []
split_rounds (suc fuel) s sep = elim (split_n2 s sep).1 [
  | none ↦ s ∷ []
  | some behind ↦ (split_n2 s sep).0 ∷ split_rounds fuel behind sep
]

unfoldable pub split : String → String → List String
unfolding split_rounds
split s sep = split_rounds (length (codes s)) s sep

-- The kind of object that a document is taken for. The bindings come first, since they name a role.
unfoldable pub kind_of_document : String → Option Kind
unfolding contains
kind_of_document doc =
    if contains doc "kind: ClusterRoleBinding"
    then some cluster_role_bindings
    else if contains doc "kind: ClusterRole"
    then some cluster_roles
    else if contains doc "kind: RoleBinding"
    then some role_bindings
    else if contains doc "kind: Role"
    then some roles
    else if contains doc "kind: ServiceAccount"
    then some service_accounts
    else none

module _ (unmarshal_strict : Kind → String → Result Cause RbacObject) where
  -- One document.
  unfoldable pub read_document : String → Result Cause RbacObject
  unfolding kind_of_document
  read_document doc = elim (kind_of_document doc) [
    | none ↦ err (failure "unexpected document found in RBAC manifest")
    | some kind ↦ unmarshal_strict kind doc
  ]

  -- The loop over the documents: the objects so far come back beside the first error.
  unfoldable pub read_documents : List String → List RbacObject → List RbacObject × Option Cause
  unfolding read_document
  read_documents [] objects = (objects, none)
  read_documents (doc ∷ docs) objects = elim (read_document doc) [
    | err e ↦ (objects, some e)
    | ok object ↦ read_documents docs (objects ++ object ∷ [])
  ]

  -- GetRBAC
  unfoldable pub get_rbac : String → List RbacObject × Option Cause
  unfolding split read_documents
  get_rbac rbac_bytes = read_documents (split rbac_bytes "---") []
