-- ===== src/Grpc/Endpoint.antt =====
-- Which endpoints the server accepts.
use beegfs_csi_driver.Prelude.{
  ℕ, String, ◌<>◌, ◌≡◌, ◌≢◌, ◌↔◌, ◌⊎◌, inl, inr, refl, sym, ap, ◌∙◌, subst, Bool, true, false, ◌||◌,
  List, [], ◌∷◌, ◌++◌, All, arith, eq_iff, ◌==◌, if◌then◌else◌, append_assoc,
}
use beegfs_csi_driver.Prelude.Result.{Result, ok}
use beegfs_csi_driver.Errors.{Cause}
use beegfs_csi_driver.Text.Strings.{
  codes, codes-append, begins, begins-append, lower, lower_code, has_prefix_lower, split_n2,
}
use beegfs_csi_driver.Text.Strings.Split.{
  lower-append, split_n2-rebuild, split_n2-scheme, split_n2-append_scheme,
}
use beegfs_csi_driver.Grpc.{parse_endpoint, endpoint_parts, invalid_endpoint}

-- The text is a protocol that the server knows, in whatever case.
abbrev pub IsProtocol : String → Type 0
IsProtocol proto = (lower (codes proto) ≡ codes "unix") ⊎ (lower (codes proto) ≡ codes "tcp")

parts_ok :
    (front behind proto address : String)
    → ◌≡◌ {A = Result Cause (String × String)}
        (if behind == "" then invalid_endpoint else ok (front, behind))
        (ok (proto, address))
    → (front ≡ proto) × (behind ≡ address) × (address ≢ "")
parts_ok front behind proto address e = ground (arith, eq_iff behind "")

lower-Lacks : (s : List ℕ) → All (λ c. c ≢ b':') (lower s) → All (λ c. c ≢ b':') s
unfolding lower lower_code
lower-Lacks [] h = tt
lower-Lacks (x ∷ s) (hx, h) = (ground arith, lower-Lacks s h)

begins_scheme :
    (proto address : String) (word : List ℕ)
    → lower (codes proto) ≡ word
    → begins (lower (codes (proto <> ("://" <> address)))) (word ++ codes "://") ≡ true
unfolding lower lower_code
begins_scheme proto address word e =
    ap (λ (s : List ℕ). begins s (word ++ codes "://"))
      (ap lower (
          codes-append proto ("://" <> address)
          ∙ ap (λ (s : List ℕ). codes proto ++ s) (codes-append "://" address))
        ∙ lower-append (codes proto) (codes "://" ++ codes address)
        ∙ ap (λ (w : List ℕ). w ++ (codes "://" ++ lower (codes address))) e
        ∙ sym (append_assoc word (codes "://") (lower (codes address))))
    ∙ begins-append (word ++ codes "://") (lower (codes address))

-- The parts of an endpoint that begins with a protocol.
scheme_parts :
    (word : List ℕ) (ep proto address : String)
    → All (λ c. c ≢ b':') word
    → begins (lower (codes ep)) (word ++ codes "://") ≡ true
    → endpoint_parts (split_n2 ep "://") ≡ ok (proto, address)
    → (ep ≡ proto <> ("://" <> address)) × (address ≢ "") × (lower (codes proto) ≡ word)
scheme_parts word ep proto address lacks begun e =
    let (front, behind, cut, low) = split_n2-scheme word ep lacks begun in
    let (f, b, filled) = parts_ok front behind proto address (sym (ap endpoint_parts cut) ∙ e) in
    (
      split_n2-rebuild ep ":" "//" front behind cut
          ∙ ap (λ (x : String). x <> ("://" <> behind)) f
          ∙ ap (λ (x : String). proto <> ("://" <> x)) b,
      filled,
      sym (ap (λ (x : String). lower (codes x)) f) ∙ low,
    )

known :
    (ep proto address : String)
    → (u t : Bool) → has_prefix_lower ep "unix://" ≡ u
    → has_prefix_lower ep "tcp://" ≡ t
    → (if u || t then endpoint_parts (split_n2 ep "://") else invalid_endpoint)
      ≡ ok (proto, address)
    → (ep ≡ proto <> ("://" <> address)) × (address ≢ "") × IsProtocol proto
unfolding has_prefix_lower
known ep proto address true t is_unix is_tcp e =
    let (whole, filled, low) =
      scheme_parts (codes "unix") ep proto address (omega arith) is_unix e in
    (whole, filled, inl low)
known ep proto address false true is_unix is_tcp e =
    let (whole, filled, low) = scheme_parts (codes "tcp") ep proto address (omega arith) is_tcp e in
    (whole, filled, inr low)
known ep proto address false false is_unix is_tcp e = absurd (ground arith)

accepted :
    (word : List ℕ) (proto address : String)
    → All (λ c. c ≢ b':') word
    → address ≢ ""
    → lower (codes proto) ≡ word
    → (begins (lower (codes (proto <> ("://" <> address)))) (word ++ codes "://") ≡ true)
      × (endpoint_parts (split_n2 (proto <> ("://" <> address)) "://") ≡ ok (proto, address))
accepted word proto address lacks filled low = (
  begins_scheme proto address word low,
  ap endpoint_parts (
        split_n2-append_scheme proto address
          (lower-Lacks (codes proto) (subst (All (λ (c : ℕ). c ≢ b':')) (sym low) lacks)))
      ∙ ground (arith, eq_iff address ""),
)

taken :
    (u t : Bool) (x y z : Result Cause (String × String))
    → (u ≡ true) ⊎ (t ≡ true)
    → x ≡ y
    → (if u || t then x else z) ≡ y
taken u t x y z h e = ground (arith, h)

begun_parts :
    (proto address : String)
    → address ≢ ""
    → IsProtocol proto
    → parse_endpoint (proto <> ("://" <> address)) ≡ ok (proto, address)
unfolding parse_endpoint has_prefix_lower
begun_parts proto address filled (inl low) =
    let (begun, parts) = accepted (codes "unix") proto address (omega arith) filled low in
    taken _ _ _ _ _ (inl begun) parts
begun_parts proto address filled (inr low) =
    let (begun, parts) = accepted (codes "tcp") proto address (omega arith) filled low in
    taken _ _ _ _ _ (inr begun) parts

-- An endpoint is accepted, as a protocol and an address, exactly if it is the protocol, "://" and an
-- address that is not empty, where the protocol is "unix" or "tcp" in whatever case. The protocol is
-- passed on in the case that it has.
pub parse_endpoint_iff :
    (ep proto address : String)
    → parse_endpoint ep ≡ ok (proto, address)
      ↔ ((ep ≡ proto <> ("://" <> address)) × (address ≢ "") × IsProtocol proto)
unfolding parse_endpoint
parse_endpoint_iff ep proto address = (
  λ e. known ep proto address _ _ refl refl e,
  λ (whole, filled, protocol). ap parse_endpoint whole ∙ begun_parts proto address filled protocol,
)
