-- ===== src/Tests/Serving.antt =====
-- The theorems on the server, the services and the parents of directories at concrete inputs.
use beegfs_csi_driver.Prelude.{
  ◌+◌, String, ◌<>◌, ◌≡◌, ◌≢◌, ◌↔◌, refl, true, some, List, [], ◌∷◌, arith, length,
}
use beegfs_csi_driver.Prelude.Result.{ok}
use beegfs_csi_driver.Text.Path.{path_join, rooted}
use beegfs_csi_driver.Ctl.{dirs_to_make}
use beegfs_csi_driver.Ctl.Parents.{dirs_to_make-ends}
use beegfs_csi_driver.Grpc.{parse_endpoint, request_id}
use beegfs_csi_driver.Grpc.Endpoint.{IsProtocol, parse_endpoint_iff}
use beegfs_csi_driver.Grpc.RequestIds.{counter_after, request_id-distinct}
use beegfs_csi_driver.Operator.Objects.{cluster_roles}
use beegfs_csi_driver.Deploy.{kind_of_document, split}
use beegfs_csi_driver.Services.{
  create_delete_volume, expand_volume, stage_unstage_volume, controller_get_capabilities, node_caps,
  node_get_capabilities,
}

parse_endpoint_iff_example : parse_endpoint "UNIX://tmp/csi.sock" ≡ ok ("UNIX", "tmp/csi.sock") ↔ (
    ("UNIX://tmp/csi.sock" ≡ "UNIX" <> ("://" <> "tmp/csi.sock"))
    × (◌≢◌ {A = String} "tmp/csi.sock" "")
    × IsProtocol "UNIX")
parse_endpoint_iff_example = parse_endpoint_iff "UNIX://tmp/csi.sock" "UNIX" "tmp/csi.sock"

request_id-distinct_example :
    (length (request_id (counter_after 1 4294967295)) ≡ 4)
    × (request_id (counter_after 1 4294967295) ≢ request_id (counter_after 3 4294967295))
    × (request_id (counter_after (1 + 0x10000) 4294967295)
        ≡ request_id (counter_after 1 4294967295))
request_id-distinct_example = request_id-distinct 4294967295 1 3 (omega arith) (omega arith)

is_rooted : rooted "/scratch" ≡ true
unfolding rooted
is_rooted = refl

dirs_to_make-ends_example :
    ((found : List String) × (dirs_to_make "/scratch" ≡ some found))
    × ((name : String)
        → (found : List String) × (dirs_to_make (path_join ("/scratch" ∷ name ∷ [])) ≡ some found))
dirs_to_make-ends_example = dirs_to_make-ends "/scratch" is_rooted

capabilities :
    (controller_get_capabilities
      ≡ record { rpc = create_delete_volume } ∷ record { rpc = expand_volume } ∷ [])
    × (node_get_capabilities node_caps ≡ record { rpc = stage_unstage_volume } ∷ [])
unfolding controller_get_capabilities node_get_capabilities
capabilities = (refl, refl)

-- A binding of a Cluster Role in a namespace is taken for the Cluster Role.
role_binding_document :
    kind_of_document "kind: RoleBinding\nroleRef:\n  kind: ClusterRole\n" ≡ some cluster_roles
unfolding kind_of_document
role_binding_document = refl

rbac_documents :
    split "kind: ServiceAccount\n---\nkind: Role\n" "---"
    ≡ "kind: ServiceAccount\n" ∷ "\nkind: Role\n" ∷ []
unfolding split
rbac_documents = refl
