-- ===== src/Operator/Pods/Adapted.antt =====
-- What a rollout makes of the containers of the manifest.
use beegfs_csi_driver.Prelude.{
  ℕ, String, ◌<>◌, ◌≡◌, ◌≢◌, refl, sym, ap, subst, ◌∙◌, Bool, true, false, Option, none, some, List,
  [], ◌∷◌, All, map, arith, ◌==◌, if◌then◌else◌,
}
use beegfs_csi_driver.Prelude.Dict.{lookup}
use beegfs_csi_driver.Text.Strings.{codes}
use beegfs_csi_driver.Config.Merge.{entries, prefer_text}
use beegfs_csi_driver.Operator.Containers.{
  ContainerImageOverride, ContainerImageOverrides, ResourceRequirements, EnvVar, Container,
  image_override_for, set_image, get_image_string_with_override, itoa, set_log_level_env,
  set_log_level, set_images,
}
use beegfs_csi_driver.Operator.Pods.Overrides.{image_overrides, image_override_for-lookup}
use beegfs_csi_driver.Operator.Images.{get_image_string_with_override_lem}
use beegfs_csi_driver.Operator.Resources.{IsOverridden, AreOverridden, overridden}

abbrev pub image_after : Option ContainerImageOverride → String → String → String
image_after none image tag = image <> (":" <> tag)
image_after (some v) image tag = prefer_text image v.image <> (":" <> prefer_text tag v.tag)

abbrev pub value_after : Option (Bool × ℕ) → EnvVar → String
value_after none v = v.value
value_after (some level) v = if v.name == "LOG_LEVEL" then itoa level else v.value

-- Variables with the same names, where only those named LOG_LEVEL have the level, if there is one.
abbrev pub AreLevelled : Option (Bool × ℕ) → List EnvVar → List EnvVar → Type 0
AreLevelled level [] [] = Unit
AreLevelled level [] (w ∷ ws) = ⊥
AreLevelled level (v ∷ vs) [] = ⊥
AreLevelled level (v ∷ vs) (w ∷ ws) =
    (w.name ≡ v.name) × (w.value ≡ value_after level v) × AreLevelled level vs ws

abbrev pub limits_after :
    Option ResourceRequirements → ResourceRequirements → String → Option String
limits_after none r j = lookup j (entries r.limits)
limits_after (some o) r j = overridden o.limits r.limits j

abbrev pub requests_after :
    Option ResourceRequirements → ResourceRequirements → String → Option String
requests_after none r j = lookup j (entries r.requests)
requests_after (some o) r j = overridden o.requests r.requests j

-- What one container becomes. Of its image and its tag each one is replaced where the override for
-- the container's name has it; this is said of images without a colon before that of the tag.
pub record IsAdapted (images : ContainerImageOverrides) (level : Option (Bool × ℕ))
    (resources : String → Option ResourceRequirements) (before after : Container) : Type 0 where
  pub same_name : after.name ≡ before.name
  pub image_replaced :
      (image tag : String)
      → All (λ c. c ≢ b':') (codes image)
      → before.image ≡ image <> (":" <> tag)
      → after.image ≡ image_after (lookup before.name (image_overrides images)) image tag
  pub levelled : AreLevelled level before.env after.env
  pub limits :
      (j : String)
      → lookup j (entries after.resources.limits)
        ≡ limits_after (resources before.name) before.resources j
  pub requests :
      (j : String)
      → lookup j (entries after.resources.requests)
        ≡ requests_after (resources before.name) before.resources j

abbrev pub AreAdapted :
    ContainerImageOverrides
    → Option (Bool × ℕ)
    → (String → Option ResourceRequirements)
    → List Container
    → List Container
    → Type 0
AreAdapted images level resources [] [] = Unit
AreAdapted images level resources [] (d ∷ ds) = ⊥
AreAdapted images level resources (c ∷ cs) [] = ⊥
AreAdapted images level resources (c ∷ cs) (d ∷ ds) =
    IsAdapted images level resources c d × AreAdapted images level resources cs ds

-- The image of a container.
chosen :
    (o : Option ContainerImageOverride) (c : Container) (image tag : String)
    → All (λ c. c ≢ b':') (codes image)
    → c.image ≡ image <> (":" <> tag)
    → (elim o as (λ (_ : Option ContainerImageOverride). Container) [
      | none ↦ c
      | some v ↦
          if v.image == ""
          then if v.tag == ""
            then c
            else record c { image = get_image_string_with_override c.image v }
          else record c { image = get_image_string_with_override c.image v }
    ]).image
      ≡ image_after o image tag
chosen none c image tag lacks is = is
chosen (some v) c image tag lacks is =
    let whole : get_image_string_with_override c.image v
        ≡ prefer_text image v.image <> (":" <> prefer_text tag v.tag) =
      ap (λ (i : String). get_image_string_with_override i v) is
      ∙ get_image_string_with_override_lem image tag v lacks in
    choose (v.image == "") (v.tag == "") refl refl whole
  where
    choose :
        (b b' : Bool)
        → (v.image == "") ≡ b
        → (v.tag == "") ≡ b'
        → get_image_string_with_override c.image v
          ≡ prefer_text image v.image <> (":" <> prefer_text tag v.tag)
        → (if b
            then if b' then c else record c { image = get_image_string_with_override c.image v }
            else record c { image = get_image_string_with_override c.image v }).image
          ≡ prefer_text image v.image <> (":" <> prefer_text tag v.tag)
    choose true true e e' w = rw (e, e') is
    choose true false e e' w = w
    choose false b' e e' w = w

set_image-after :
    (images : ContainerImageOverrides) (c : Container) (image tag : String)
    → All (λ c. c ≢ b':') (codes image)
    → c.image ≡ image <> (":" <> tag)
    → (set_image images c).image ≡ image_after (lookup c.name (image_overrides images)) image tag
unfolding set_image
set_image-after images c image tag lacks is =
    chosen (image_override_for images c.name) c image tag lacks is
    ∙ ap (λ (o : Option ContainerImageOverride). image_after o image tag)
        (image_override_for-lookup images c.name)

-- An image override changes the image only.
record SameButImage (c d : Container) : Type 0 where
  same_name : d.name ≡ c.name
  same_env : d.env ≡ c.env
  same_resources : d.resources ≡ c.resources

set_image-SameButImage :
    (images : ContainerImageOverrides) (c : Container) → SameButImage c (set_image images c)
unfolding set_image
set_image-SameButImage images c = record {
  same_name = ground arith;
  same_env = ground arith;
  same_resources = ground arith;
}

kept_env : (vs : List EnvVar) → AreLevelled none vs vs
kept_env [] = tt
kept_env (v ∷ vs) = (refl, refl, kept_env vs)

levelled_env :
    (level : Bool × ℕ) (vs : List EnvVar)
    → AreLevelled (some level) vs (map (set_log_level_env (itoa level)) vs)
unfolding set_log_level_env
levelled_env level [] = tt
levelled_env level (v ∷ vs) = (ground arith, ground arith, levelled_env level vs)

adapt :
    (images : ContainerImageOverrides) (level : Option (Bool × ℕ))
    (resources : String → Option ResourceRequirements) (c m d : Container)
    → m.name ≡ c.name
    → m.resources ≡ c.resources
    → m.image ≡ (set_image images c).image
    → AreLevelled level c.env m.env
    → IsOverridden (resources m.name) m d
    → IsAdapted images level resources c d
adapt images level resources c m d name res image env q = record {
  same_name = q.same_name ∙ name;
  image_replaced = λ i tag lacks is. q.same_image ∙ image ∙ set_image-after images c i tag lacks is;
  levelled = subst (AreLevelled level c.env) (sym q.same_env) env;
  limits = λ j.
      q.limits j
      ∙ after_limits (resources m.name) j
      ∙ ap (λ (n : String). limits_after (resources n) m.resources j) name
      ∙ ap (λ (r : ResourceRequirements). limits_after (resources c.name) r j) res;
  requests = λ j.
      q.requests j
      ∙ after_requests (resources m.name) j
      ∙ ap (λ (n : String). requests_after (resources n) m.resources j) name
      ∙ ap (λ (r : ResourceRequirements). requests_after (resources c.name) r j) res;
}
  where
    after_limits :
        (o : Option ResourceRequirements) (j : String)
        → (elim o as (λ (_ : Option ResourceRequirements). Option String) [
          | none ↦ lookup j (entries m.resources.limits)
          | some v ↦ overridden v.limits m.resources.limits j
        ])
          ≡ limits_after o m.resources j
    after_limits none j = refl
    after_limits (some v) j = refl

    after_requests :
        (o : Option ResourceRequirements) (j : String)
        → (elim o as (λ (_ : Option ResourceRequirements). Option String) [
          | none ↦ lookup j (entries m.resources.requests)
          | some v ↦ overridden v.requests m.resources.requests j
        ])
          ≡ requests_after o m.resources j
    after_requests none j = refl
    after_requests (some v) j = refl

-- The containers of the manifest after the images, the log level and the resources.
pub overridden-AreAdapted :
    (images : ContainerImageOverrides) (level : Option (Bool × ℕ))
    (resources : String → Option ResourceRequirements) (cs ds : List Container)
    → AreOverridden resources (set_log_level level (set_images cs images)) ds
    → AreAdapted images level resources cs ds
unfolding set_log_level set_images
overridden-AreAdapted images none resources [] [] h = tt
overridden-AreAdapted images (some l) resources [] [] h = tt
overridden-AreAdapted images none resources [] (d ∷ ds) h = h
overridden-AreAdapted images (some l) resources [] (d ∷ ds) h = h
overridden-AreAdapted images none resources (c ∷ cs) [] h = h
overridden-AreAdapted images (some l) resources (c ∷ cs) [] h = h
overridden-AreAdapted images none resources (c ∷ cs) (d ∷ ds) (first, rest) =
    let same = set_image-SameButImage images c in
    (
      adapt images none resources c (set_image images c) d same.same_name same.same_resources refl
          (subst (AreLevelled none c.env) (sym same.same_env) (kept_env c.env)) first,
      overridden-AreAdapted images none resources cs ds rest,
    )
overridden-AreAdapted images (some l) resources (c ∷ cs) (d ∷ ds) (first, rest) =
    let same = set_image-SameButImage images c in
    (
      adapt images (some l) resources c
          (record (set_image images c) {
            env = map (set_log_level_env (itoa l)) (set_image images c).env;
          })
          d same.same_name same.same_resources refl
          (subst (λ vs. AreLevelled (some l) c.env (map (set_log_level_env (itoa l)) vs))
            (sym same.same_env) (levelled_env l c.env))
          first,
      overridden-AreAdapted images (some l) resources cs ds rest,
    )
