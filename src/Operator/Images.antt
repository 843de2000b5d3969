-- ===== src/Operator/Images.antt =====
-- The images of containers.
use beegfs_csi_driver.Prelude.{String, ◌<>◌, ◌≡◌, ◌≢◌, refl, All, arith}
use beegfs_csi_driver.Text.Strings.{codes, split_n2-append}
use beegfs_csi_driver.Config.Merge.{prefer_text}
use beegfs_csi_driver.Operator.Containers.{
  ContainerImageOverride, ContainerImageOverrides, Container, set_image,
  get_image_string_with_override,
}

-- An image and a tag are overridden independently: where the image has no colon, what is empty in the
-- override stays, and what is not replaces its part.
pub get_image_string_with_override_lem :
    (image tag : String) (v : ContainerImageOverride)
    → All (λ c. c ≢ b':') (codes image)
    → get_image_string_with_override (image <> (":" <> tag)) v
      ≡ prefer_text image v.image <> (":" <> prefer_text tag v.tag)
unfolding get_image_string_with_override
get_image_string_with_override_lem image tag v lacks = rw (split_n2-append image tag lacks) refl

set_image-name :
    (overrides : ContainerImageOverrides) (c : Container) → (set_image overrides c).name ≡ c.name
unfolding set_image
set_image-name overrides c = ground arith
