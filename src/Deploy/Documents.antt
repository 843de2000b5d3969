-- ===== src/Deploy/Documents.antt =====
-- What GetRBAC returns, by the documents of the manifest.
use beegfs_csi_driver.Prelude.{
  arith, length, ℕ, ◌+◌, ◌≤◌, zero, suc, String, ◌<>◌, ◌≡◌, refl, sym, ap, ◌∙◌, Option, none, some,
  List, [], ◌∷◌, ◌++◌, append_assoc, append-nil, subst,
}
use beegfs_csi_driver.Prelude.Result.{Result, ok, err}
use beegfs_csi_driver.Text.Strings.{codes, codes-append, split_n2, join}
use beegfs_csi_driver.Text.Strings.Split.{split_n2-rebuild}
use beegfs_csi_driver.Errors.{Cause}
use beegfs_csi_driver.Operator.Objects.{RbacObject, Kind}
use beegfs_csi_driver.Deploy.{split_rounds, split, read_document, read_documents, get_rbac}

-- The objects of documents that are read in turn, up to the first that cannot be read.
pub data Reads (unmarshal_strict : Kind → String → Result Cause RbacObject)
    : List String → List RbacObject → Option Cause → Type 0 where
  all_read : Reads unmarshal_strict [] [] none
  reads :
      {doc : String} {docs : List String} {object : RbacObject} {objects : List RbacObject}
      {e : Option Cause}
      → read_document unmarshal_strict doc ≡ ok object
      → Reads unmarshal_strict docs objects e
      → Reads unmarshal_strict (doc ∷ docs) (object ∷ objects) e
  stops :
      {doc : String} {docs : List String} {e : Cause}
      → read_document unmarshal_strict doc ≡ err e
      → Reads unmarshal_strict (doc ∷ docs) [] (some e)

-- The pieces of a text, joined again.
join-cons :
    (x sep : String) (xs : List String)
    → (xs ≡ [] → ⊥)
    → join (x ∷ xs) sep ≡ x <> (sep <> join xs sep)
unfolding join
join-cons x sep [] h = absurd (h refl)
join-cons x sep (y ∷ ys) h = refl

cons-neq_empty : {x : String} {xs : List String} → (x ∷ xs) ≡ [] → ⊥
cons-neq_empty e = absurd (cc)

split_rounds-neq_empty : (fuel : ℕ) (s sep : String) → split_rounds fuel s sep ≡ [] → ⊥
unfolding split_rounds
split_rounds-neq_empty zero s sep e = cons-neq_empty e
split_rounds-neq_empty (suc fuel) s sep e = choose (split_n2 s sep).1 e
  where
    choose :
        (o : Option String)
        → (elim o [
          | none ↦ s ∷ []
          | some behind ↦ (split_n2 s sep).0 ∷ split_rounds fuel behind sep
        ])
          ≡ []
        → ⊥
    choose none e = cons-neq_empty e
    choose (some b) e = cons-neq_empty e

join-split_rounds : (fuel : ℕ) (s : String) → join (split_rounds fuel s "---") "---" ≡ s
unfolding split_rounds join
join-split_rounds zero s = refl
join-split_rounds (suc fuel) s =
    choose (λ behind. join-split_rounds fuel behind) (split_n2 s "---").1 refl
  where
    choose :
        ((behind : String) → join (split_rounds fuel behind "---") "---" ≡ behind)
        → (o : Option String) → (split_n2 s "---").1 ≡ o
        → join
            (elim o [
              | none ↦ s ∷ []
              | some behind ↦ (split_n2 s "---").0 ∷ split_rounds fuel behind "---"
            ])
            "---"
          ≡ s
    choose again none e = refl
    choose again (some behind) e =
        join-cons _ "---" (split_rounds fuel behind "---")
          (split_rounds-neq_empty fuel behind "---")
        ∙ ap (λ (t : String). (split_n2 s "---").0 <> ("---" <> t)) (again behind)
        ∙ sym (
            split_n2-rebuild s "-" "--" (split_n2 s "---").0 behind
              (ap (λ (o : Option String). ((split_n2 s "---").0, o)) e))

length-append : (xs ys : List ℕ) → length (xs ++ ys) ≡ length xs + length ys
length-append [] ys = omega arith
length-append (x ∷ xs) ys = omega (arith, length-append xs ys)

-- What is behind a separator is shorter than the text.
behind_shorter :
    (s behind : String)
    → (split_n2 s "---").1 ≡ some behind
    → suc (length (codes behind)) ≤ length (codes s)
behind_shorter s behind e =
    let whole =
      split_n2-rebuild s "-" "--" (split_n2 s "---").0 behind
        (ap (λ (o : Option String). ((split_n2 s "---").0, o)) e) in
    let cut =
      ap (λ (t : String). length (codes t)) whole
      ∙ ap length (codes-append (split_n2 s "---").0 ("---" <> behind))
      ∙ length-append (codes (split_n2 s "---").0) (codes ("---" <> behind)) in
    let rest = ap length (codes-append "---" behind) in omega (arith, cut, rest)

-- As many rounds as there are characters are enough: any two such numbers of rounds agree.
split_rounds-enough :
    (fuel more : ℕ) (s : String)
    → length (codes s) ≤ fuel
    → length (codes s) ≤ more
    → split_rounds more s "---" ≡ split_rounds fuel s "---"
unfolding split_rounds split_n2
split_rounds-enough zero zero s h k = refl
split_rounds-enough zero (suc more) String.[] h k = refl
split_rounds-enough (suc fuel) zero String.[] h k = refl
split_rounds-enough zero (suc more) (String.◌∷◌ c s) h k = absurd (omega arith)
split_rounds-enough (suc fuel) zero (String.◌∷◌ c s) h k = absurd (omega arith)
split_rounds-enough (suc fuel) (suc more) s h k =
    choose (λ behind less less'. split_rounds-enough fuel more behind less less')
      (split_n2 s "---").1 refl
  where
    choose :
        ((behind : String)
          → length (codes behind) ≤ fuel
          → length (codes behind) ≤ more
          → split_rounds more behind "---" ≡ split_rounds fuel behind "---")
        → (o : Option String) → (split_n2 s "---").1 ≡ o
        → ◌≡◌ {A = List String}
            (elim o [
              | none ↦ s ∷ []
              | some behind ↦ (split_n2 s "---").0 ∷ split_rounds more behind "---"
            ])
            (elim o [
              | none ↦ s ∷ []
              | some behind ↦ (split_n2 s "---").0 ∷ split_rounds fuel behind "---"
            ])
    choose again none e = refl
    choose again (some behind) e =
        ap (λ (ps : List String). (split_n2 s "---").0 ∷ ps)
          (again behind (omega (arith, h, behind_shorter s behind e))
            (omega (arith, k, behind_shorter s behind e)))

module _ (unmarshal_strict : Kind → String → Result Cause RbacObject) where
  -- What the loop adds to the objects that it has.
  read_documents-Reads :
      (docs : List String) (had : List RbacObject)
      → (objects : List RbacObject) × (e : Option Cause) × Reads unmarshal_strict docs objects e
        × (read_documents unmarshal_strict docs had ≡ (had ++ objects, e))
  unfolding read_documents
  read_documents-Reads [] had =
      ([], none, all_read, ap (λ (os : List RbacObject). (os, none)) (sym (append-nil had)))
  read_documents-Reads (doc ∷ docs) had =
      choose (λ object. read_documents-Reads docs (had ++ object ∷ []))
        (read_document unmarshal_strict doc) refl
    where
      choose :
          ((object : RbacObject)
            → (objects : List RbacObject) × (e : Option Cause) × Reads unmarshal_strict docs objects
                e
              × (read_documents unmarshal_strict docs (had ++ object ∷ [])
                  ≡ ((had ++ object ∷ []) ++ objects, e)))
          → (r : Result Cause RbacObject) → read_document unmarshal_strict doc ≡ r
          → (objects : List RbacObject) × (e : Option Cause) × Reads unmarshal_strict
              (doc ∷ docs)
              objects
              e
            × ((elim r [
              | err x ↦ (had, some x)
              | ok object ↦ read_documents unmarshal_strict docs (had ++ object ∷ [])
            ])
                ≡ (had ++ objects, e))
      choose again (err x) is =
          ([], some x, stops is, ap (λ (os : List RbacObject). (os, some x)) (sym (append-nil had)))
      choose again (ok object) is =
          let (objects, e, read, eq) = again object in
          (
            object ∷ objects,
            e,
            reads is read,
            eq ∙ ap (λ (os : List RbacObject). (os, e)) (append_assoc had (object ∷ []) objects),
          )

  -- GetRBAC cuts the manifest into documents, which make it up again with "---" between them, and
  -- returns the objects of the documents in their order: all of them, or with the error of the first
  -- document that cannot be read the objects of those before it.
  get_rbac-Reads :
      (rbac_bytes : String)
      → (join (split rbac_bytes "---") "---" ≡ rbac_bytes)
        × Reads unmarshal_strict
            (split rbac_bytes "---")
            (get_rbac unmarshal_strict rbac_bytes).0
            (get_rbac unmarshal_strict rbac_bytes).1
  unfolding get_rbac split
  get_rbac-Reads rbac_bytes = (
    join-split_rounds _ rbac_bytes,
    let (objects, e, read, eq) = read_documents-Reads (split rbac_bytes "---") [] in
        subst
          (λ (r : List RbacObject × Option Cause).
            Reads unmarshal_strict (split rbac_bytes "---") r.0 r.1)
          (sym eq) read,
  )
