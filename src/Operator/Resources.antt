-- ===== src/Operator/Resources.antt =====
-- The resources of containers.
use beegfs_csi_driver.Prelude.{
  String, ◌≡◌, refl, subst, Bool, true, false, ◌||◌, Option, none, some, List, [], ◌∷◌, ◌==◌,
  eq_iff, arith, if◌then◌else◌, length, ◌=ℕ◌, Option-cases, inl, inr,
}
use beegfs_csi_driver.Prelude.Dict.{Dict, lookup, lookup-insert}
use beegfs_csi_driver.Prelude.Result.{Result, ok}
use beegfs_csi_driver.Prelude.Fallible.{◌>>=◌, >>=-eq-ok}
use beegfs_csi_driver.Errors.{Cause}
use beegfs_csi_driver.Config.Merge.{entries}
use beegfs_csi_driver.Config.Merge.Layers.{or_else}
use beegfs_csi_driver.Operator.Containers.{
  ResourceRequirements, ContainerResourceOverrides, Container, override_quantity,
  override_quantities, override_resources, set_resources, node_overrides_for, set_node_resources,
  controller_overrides_for, set_controller_resources,
}

override_quantity-ok :
    (k j : String) (from to to' : Option (Dict String))
    → override_quantity k from to ≡ ok to'
    → lookup j (entries to') ≡ (
        if k == j
        then or_else (lookup j (entries from)) (lookup j (entries to))
        else lookup j (entries to))
unfolding override_quantity
override_quantity-ok k j from to to' e = elim (Option-cases (lookup k (entries from))) [
  | inl absent ↦ grind (arith, e, absent, eq_iff k j)
  | inr (v, found) ↦ elim (Option-cases to) [
    | inl nil ↦ grind (arith, e, found, nil)
    | inr (m, is_map) ↦ grind (arith, e, found, is_map, eq_iff k j, lookup-insert k j v m)
  ]
]

-- The value of an override, or what was there before.
abbrev pub overridden : Option (Dict String) → Option (Dict String) → String → Option String
overridden from to j =
    if "cpu" == j || "memory" == j
    then or_else (lookup j (entries from)) (lookup j (entries to))
    else lookup j (entries to)

nothing_overridden :
    (from to : Option (Dict String)) (j : String)
    → (length (entries from) =ℕ 0) ≡ true
    → lookup j (entries to) ≡ overridden from to j
nothing_overridden none to j h =
    unfold lookup in same ("cpu" == j || "memory" == j) (lookup j (entries to))
  where
    same : (b : Bool) (o : Option String) → o ≡ (if b then o else o)
    same true o = refl
    same false o = refl
nothing_overridden (some []) to j h =
    unfold lookup in same ("cpu" == j || "memory" == j) (lookup j (entries to))
  where
    same : (b : Bool) (o : Option String) → o ≡ (if b then o else o)
    same true o = refl
    same false o = refl
nothing_overridden (some (kv ∷ m)) to j h = absurd (ground arith)

both_overridden :
    (c m : Bool) (f o mid last : Option String)
    → mid ≡ (if c then or_else f o else o)
    → last ≡ (if m then or_else f mid else mid)
    → last ≡ (if c || m then or_else f o else o)
both_overridden true true none o mid last e1 e2 = cc
both_overridden true true (some v) o mid last e1 e2 = cc
both_overridden true false f o mid last e1 e2 = cc
both_overridden false true f o mid last e1 e2 = cc
both_overridden false false f o mid last e1 e2 = cc

override_quantities-ok :
    (from to to' : Option (Dict String)) (j : String)
    → override_quantities from to ≡ ok to'
    → lookup j (entries to') ≡ overridden from to j
unfolding override_quantities
override_quantities-ok from to to' j e = choose (length (entries from) =ℕ 0) refl e
  where
    choose :
        (b : Bool)
        → (length (entries from) =ℕ 0) ≡ b
        → ◌≡◌ {A = Result Cause (Option (Dict String))}
            (if b
              then ok to
              else (override_quantity "cpu" from to >>= override_quantity "memory" from))
            (ok to')
        → lookup j (entries to') ≡ overridden from to j
    choose true none_given run = cc (run, nothing_overridden from to j none_given)
    choose false given run =
        let (mid, first, second) =
          >>=-eq-ok (override_quantity "cpu" from to) (override_quantity "memory" from) run in
        both_overridden ("cpu" == j) ("memory" == j) (lookup j (entries from))
          (lookup j (entries to)) _ _ (override_quantity-ok "cpu" j from to mid first)
          (override_quantity-ok "memory" j from mid to' second)

-- What one container becomes: its name, image and environment stay, and the quantities of "cpu" and
-- "memory" are those of the overrides for its name, where these have one.
pub record IsOverridden (overrides : Option ResourceRequirements) (before after : Container)
    : Type 0 where
  pub same_name : after.name ≡ before.name
  pub same_image : after.image ≡ before.image
  pub same_env : after.env ≡ before.env
  pub limits :
      (j : String)
      → lookup j (entries after.resources.limits) ≡ (elim overrides [
        | none ↦ lookup j (entries before.resources.limits)
        | some o ↦ overridden o.limits before.resources.limits j
      ])
  pub requests :
      (j : String)
      → lookup j (entries after.resources.requests) ≡ (elim overrides [
        | none ↦ lookup j (entries before.resources.requests)
        | some o ↦ overridden o.requests before.resources.requests j
      ])

abbrev pub AreOverridden :
    (String → Option ResourceRequirements) → List Container → List Container → Type 0
AreOverridden overrides_for [] [] = Unit
AreOverridden overrides_for [] (d ∷ ds) = ⊥
AreOverridden overrides_for (c ∷ cs) [] = ⊥
AreOverridden overrides_for (c ∷ cs) (d ∷ ds) =
    IsOverridden (overrides_for c.name) c d × AreOverridden overrides_for cs ds

override_resources-IsOverridden :
    (o : ResourceRequirements) (c d : Container)
    → override_resources o c ≡ ok d
    → IsOverridden (some o) c d
unfolding override_resources
override_resources-IsOverridden o c d e =
    let (l, e1, more) = >>=-eq-ok (override_quantities o.limits c.resources.limits) _ e in
    let (r, e2, last) = >>=-eq-ok (override_quantities o.requests c.resources.requests) _ more in
    record {
      same_name = cc last;
      same_image = cc last;
      same_env = cc last;
      limits = λ j. cc (last, override_quantities-ok o.limits c.resources.limits l j e1);
      requests = λ j. cc (last, override_quantities-ok o.requests c.resources.requests r j e2);
    }

maybe-IsOverridden :
    (o : Option ResourceRequirements) (c d : Container)
    → ◌≡◌ {A = Result Cause Container}
        (elim o [ none ↦ ok c | some v ↦ override_resources v c ])
        (ok d)
    → IsOverridden o c d
maybe-IsOverridden none c d e = record {
  same_name = cc;
  same_image = cc;
  same_env = cc;
  limits = λ j. cc;
  requests = λ j. cc;
}
maybe-IsOverridden (some v) c d e = override_resources-IsOverridden v c d e

set_resources-AreOverridden :
    (overrides_for : String → Option ResourceRequirements) (cs ds : List Container)
    → set_resources overrides_for cs ≡ ok ds
    → AreOverridden overrides_for cs ds
unfolding set_resources
set_resources-AreOverridden overrides_for [] [] e = tt
set_resources-AreOverridden overrides_for [] (d ∷ ds) e = cc
set_resources-AreOverridden overrides_for (c ∷ cs) ds e =
    let (d, e1, more) =
      >>=-eq-ok
        (elim (overrides_for c.name) as (λ x. Result Cause Container) [
          | none ↦ ok c
          | some v ↦ override_resources v c
        ])
        _ e in
    let (ds', e2, last) = >>=-eq-ok (set_resources overrides_for cs) _ more in
    subst (AreOverridden overrides_for (c ∷ cs)) (injective last) (
      maybe-IsOverridden (overrides_for c.name) c d e1,
      set_resources-AreOverridden overrides_for cs ds' e2,
    )
  where
    injective :
        {a b : List Container} → ◌≡◌ {A = Result Cause (List Container)} (ok a) (ok b) → a ≡ b
    injective e = cc

-- When the resources of the node's containers are set without an error, the containers stay in their
-- order, and each one has the quantities of "cpu" and "memory" that the overrides for its name give,
-- and all else as before.
pub set_node_resources-AreOverridden :
    (overrides : ContainerResourceOverrides) (cs ds : List Container)
    → set_node_resources overrides cs ≡ ok ds
    → AreOverridden (node_overrides_for overrides) cs ds
unfolding set_node_resources
set_node_resources-AreOverridden overrides =
    set_resources-AreOverridden (node_overrides_for overrides)

-- When the resources of the controller's containers are set without an error, the containers stay in
-- their order, and each one has the quantities of "cpu" and "memory" that the overrides for its name
-- give, and all else as before.
pub set_controller_resources-AreOverridden :
    (overrides : ContainerResourceOverrides) (cs ds : List Container)
    → set_controller_resources overrides cs ≡ ok ds
    → AreOverridden (controller_overrides_for overrides) cs ds
unfolding set_controller_resources
set_controller_resources-AreOverridden overrides =
    set_resources-AreOverridden (controller_overrides_for overrides)
