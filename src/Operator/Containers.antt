-- ===== src/Operator/Containers.antt =====
-- The changes that the operator makes to the containers of the driver
-- (operator/controllers/beegfsdriver_controller.go): images, log level and resources. The source
-- changes the slices of containers in place, and its log lines are left out.
use beegfs_csi_driver.Prelude.{
  ℕ, String, ◌<>◌, Bool, true, false, Option, none, some, List, [], ◌∷◌, map, ◌==◌, ◌=ℕ◌, length,
  if◌then◌else◌,
}
use beegfs_csi_driver.Prelude.Dict.{Dict, lookup, insert}
use beegfs_csi_driver.Prelude.Result.{Result, ok, err}
use beegfs_csi_driver.Prelude.Fallible.{◌>>=◌}
use beegfs_csi_driver.Text.Strings.{split_n2}
use beegfs_csi_driver.Text.Numbers.{decimal}
use beegfs_csi_driver.Errors.{Cause}
use beegfs_csi_driver.Config.Merge.{entries}
use beegfs_csi_driver.Config.Merge.NilMap.{nil_map_write}

pub record ContainerImageOverride : Type 0 where
  pub image : String
  pub tag : String

pub record ContainerImageOverrides : Type 0 where
  pub beegfs_csi_driver : ContainerImageOverride
  pub csi_node_driver_registrar : ContainerImageOverride
  pub csi_provisioner : ContainerImageOverride
  pub csi_resizer : ContainerImageOverride
  pub liveness_probe : ContainerImageOverride

-- corev1.ResourceRequirements; its quantities are texts, and its maps may be nil
pub record ResourceRequirements : Type 0 where
  pub limits : Option (Dict String)
  pub requests : Option (Dict String)

pub record ContainerResourceOverrides : Type 0 where
  pub controller_beegfs_resources : ResourceRequirements
  pub controller_csi_provisioner_resources : ResourceRequirements
  pub node_beegfs_resources : ResourceRequirements
  pub node_driver_registrar_resources : ResourceRequirements
  pub node_liveness_probe_resources : ResourceRequirements

-- The parts of corev1.EnvVar and corev1.Container that the operator reads or changes.
pub record EnvVar : Type 0 where
  pub name : String
  pub value : String

pub record Container : Type 0 where
  pub name : String
  pub image : String
  pub env : List EnvVar
  pub resources : ResourceRequirements

-- The names in deploy/k8s/deploy.go.
abbrev pub container_name_beegfs_csi_driver : String
container_name_beegfs_csi_driver = "beegfs"

abbrev pub container_name_csi_node_driver_registrar : String
container_name_csi_node_driver_registrar = "node-driver-registrar"

abbrev pub container_name_csi_provisioner : String
container_name_csi_provisioner = "csi-provisioner"

abbrev pub container_name_csi_resizer : String
container_name_csi_resizer = "csi-resizer"

abbrev pub container_name_liveness_probe : String
container_name_liveness_probe = "liveness-probe"

abbrev pub text_or_empty : Option String → String
text_or_empty none = ""
text_or_empty (some t) = t

-- getImageStringWithOverride
unfoldable pub get_image_string_with_override : String → ContainerImageOverride → String
unfolding split_n2
get_image_string_with_override image_with_tag override =
    let (front, behind) = split_n2 image_with_tag ":" in
    (if override.image == "" then front else override.image)
    <> (":" <> (if override.tag == "" then text_or_empty behind else override.tag))

-- The map containerNameToImageOverrideMap.
unfoldable pub image_override_for : ContainerImageOverrides → String → Option ContainerImageOverride
image_override_for overrides name =
    if name == container_name_beegfs_csi_driver
    then some overrides.beegfs_csi_driver
    else if name == container_name_csi_node_driver_registrar
    then some overrides.csi_node_driver_registrar
    else if name == container_name_csi_provisioner
    then some overrides.csi_provisioner
    else if name == container_name_csi_resizer
    then some overrides.csi_resizer
    else if name == container_name_liveness_probe
    then some overrides.liveness_probe
    else none

-- The body of the loop of setImages.
unfoldable pub set_image : ContainerImageOverrides → Container → Container
unfolding image_override_for get_image_string_with_override
set_image overrides c = elim (image_override_for overrides c.name) [
  | none ↦ c
  | some v ↦
      if v.image == ""
      then if v.tag == "" then c else record c { image = get_image_string_with_override c.image v }
      else record c { image = get_image_string_with_override c.image v }
]

-- setImages
unfoldable pub set_images : List Container → ContainerImageOverrides → List Container
unfolding set_image
set_images containers overrides = map (set_image overrides) containers

-- strconv.Itoa of a sign, `true` for minus, and a magnitude
abbrev pub itoa : Bool × ℕ → String
itoa (true, n) = "-" <> decimal n
itoa (false, n) = decimal n

unfoldable pub set_log_level_env : String → EnvVar → EnvVar
set_log_level_env level v = if v.name == "LOG_LEVEL" then record v { value = level } else v

-- setLogLevel
unfoldable pub set_log_level : Option (Bool × ℕ) → List Container → List Container
unfolding set_log_level_env decimal
set_log_level none containers = containers
set_log_level (some level) containers =
    map (λ (c : Container). record c { env = map (set_log_level_env (itoa level)) c.env })
      containers

-- `if v, ok := from[k]; ok { to[k] = v }`: a write to a nil map panics
unfoldable pub override_quantity :
    String → Option (Dict String) → Option (Dict String) → Result Cause (Option (Dict String))
unfolding lookup insert
override_quantity k from to = elim (lookup k (entries from)) [
  | none ↦ ok to
  | some v ↦ elim to [ none ↦ err nil_map_write | some m ↦ ok (some (insert k v m)) ]
]

unfoldable pub override_quantities :
    Option (Dict String) → Option (Dict String) → Result Cause (Option (Dict String))
unfolding override_quantity
override_quantities from to =
    if length (entries from) =ℕ 0
    then ok to
    else override_quantity "cpu" from to >>= override_quantity "memory" from

-- One case of the switches: the limits, and then the requests.
unfoldable pub override_resources : ResourceRequirements → Container → Result Cause Container
unfolding override_quantities
override_resources overrides c = do
  limits ← override_quantities overrides.limits c.resources.limits
  requests ← override_quantities overrides.requests c.resources.requests
  ok (record c { resources = record { limits = limits; requests = requests } })

unfoldable pub node_overrides_for :
    ContainerResourceOverrides → String → Option ResourceRequirements
node_overrides_for overrides name =
    if name == "beegfs"
    then some overrides.node_beegfs_resources
    else if name == "node-driver-registrar"
    then some overrides.node_driver_registrar_resources
    else if name == "liveness-probe"
    then some overrides.node_liveness_probe_resources
    else none

unfoldable pub controller_overrides_for :
    ContainerResourceOverrides → String → Option ResourceRequirements
controller_overrides_for overrides name =
    if name == "beegfs"
    then some overrides.controller_beegfs_resources
    else if name == "csi-provisioner"
    then some overrides.controller_csi_provisioner_resources
    else none

-- The loop of both functions.
unfoldable pub set_resources :
    (String → Option ResourceRequirements) → List Container → Result Cause (List Container)
unfolding override_resources
set_resources overrides_for [] = ok []
set_resources overrides_for (c ∷ cs) = do
  c' ← elim (overrides_for c.name) [ none ↦ ok c | some overrides ↦ override_resources overrides c ]
  cs' ← set_resources overrides_for cs
  ok (c' ∷ cs')

-- setNodeResources
unfoldable pub set_node_resources :
    ContainerResourceOverrides → List Container → Result Cause (List Container)
unfolding set_resources node_overrides_for
set_node_resources overrides = set_resources (node_overrides_for overrides)

-- setControllerResources
unfoldable pub set_controller_resources :
    ContainerResourceOverrides → List Container → Result Cause (List Container)
unfolding set_resources controller_overrides_for
set_controller_resources overrides = set_resources (controller_overrides_for overrides)
