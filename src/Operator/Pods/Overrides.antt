-- ===== src/Operator/Pods/Overrides.antt =====
-- The overrides of the custom resource as maps from the names of containers.
use beegfs_csi_driver.Prelude.{
  eq_iff, fun_ext, String, ◌≡◌, refl, subst, Option, List, [], ◌∷◌, arith, ◌==◌,
}
use beegfs_csi_driver.Prelude.Dict.{Dict, lookup}
use beegfs_csi_driver.Prelude.Result.{ok}
use beegfs_csi_driver.Operator.Containers.{
  ContainerImageOverride, ContainerImageOverrides, ResourceRequirements, Container,
  set_controller_resources, set_node_resources, image_override_for, ContainerResourceOverrides,
  controller_overrides_for, node_overrides_for,
}
use beegfs_csi_driver.Operator.Resources.{
  AreOverridden, set_controller_resources-AreOverridden, set_node_resources-AreOverridden,
}

eq_sym : (a b : String) → (a == b) ≡ (b == a)
eq_sym a b = ground (arith, eq_iff a b, eq_iff b a)

-- The overrides by the names of the containers.
abbrev pub image_overrides : ContainerImageOverrides → Dict ContainerImageOverride
image_overrides o =
    ("beegfs", o.beegfs_csi_driver)
    ∷ ("node-driver-registrar", o.csi_node_driver_registrar)
    ∷ ("csi-provisioner", o.csi_provisioner)
    ∷ ("csi-resizer", o.csi_resizer)
    ∷ ("liveness-probe", o.liveness_probe)
    ∷ []

abbrev pub controller_overrides : ContainerResourceOverrides → Dict ResourceRequirements
controller_overrides o =
    ("beegfs", o.controller_beegfs_resources)
    ∷ ("csi-provisioner", o.controller_csi_provisioner_resources)
    ∷ []

abbrev pub node_overrides : ContainerResourceOverrides → Dict ResourceRequirements
node_overrides o =
    ("beegfs", o.node_beegfs_resources)
    ∷ ("node-driver-registrar", o.node_driver_registrar_resources)
    ∷ ("liveness-probe", o.node_liveness_probe_resources)
    ∷ []

pub image_override_for-lookup :
    (o : ContainerImageOverrides) (name : String)
    → image_override_for o name ≡ lookup name (image_overrides o)
unfolding image_override_for lookup
image_override_for-lookup o name =
    rw
      (
        eq_sym name "beegfs",
        eq_sym name "node-driver-registrar",
        eq_sym name "csi-provisioner",
        eq_sym name "csi-resizer",
        eq_sym name "liveness-probe",
      )
      refl

controller_overrides_for-lookup :
    (o : ContainerResourceOverrides)
    → controller_overrides_for o ≡ (λ name. lookup name (controller_overrides o))
unfolding controller_overrides_for lookup
controller_overrides_for-lookup o =
    fun_ext λ name. rw (eq_sym name "beegfs", eq_sym name "csi-provisioner") refl

node_overrides_for-lookup :
    (o : ContainerResourceOverrides)
    → node_overrides_for o ≡ (λ name. lookup name (node_overrides o))
unfolding node_overrides_for lookup
node_overrides_for-lookup o = fun_ext λ name.
    rw (eq_sym name "beegfs", eq_sym name "node-driver-registrar", eq_sym name "liveness-probe")
      refl

pub set_controller_resources-lookup :
    (o : ContainerResourceOverrides) (cs ds : List Container)
    → set_controller_resources o cs ≡ ok ds
    → AreOverridden (λ name. lookup name (controller_overrides o)) cs ds
set_controller_resources-lookup o cs ds e =
    subst (λ (r : String → Option ResourceRequirements). AreOverridden r cs ds)
      (controller_overrides_for-lookup o) (set_controller_resources-AreOverridden o cs ds e)

pub set_node_resources-lookup :
    (o : ContainerResourceOverrides) (cs ds : List Container)
    → set_node_resources o cs ≡ ok ds
    → AreOverridden (λ name. lookup name (node_overrides o)) cs ds
set_node_resources-lookup o cs ds e =
    subst (λ (r : String → Option ResourceRequirements). AreOverridden r cs ds)
      (node_overrides_for-lookup o) (set_node_resources-AreOverridden o cs ds e)
