-- ===== src/Nested/Signing/Flat.antt =====
-- src/nested.rs: the responses of an inner quorum, added up, against the response of one FROST signer
-- with the summed nonces and the shared key.
use frostito.Prelude.{◌≡◌, refl, ap, ◌∙◌, List, [], ◌∷◌, map, length, arith}
use frostito.Curve.{Curve}
use frostito.Curve.Ring.{ring}
use frostito.Lagrange.Combination.{combine}
use frostito.Zf.{InnerSigningParams}
use frostito.Nested.Nonces.{NoncePair}
use frostito.Nested.Signing.{response_of}

module _ (c : Curve) where
  infixl 65 ◌⊕◌
  infixl 70 ◌⊗◌
  open c use {Scalar, scalars, zero as zero_scalar, one, from_u32, ◌⊕◌, ◌⊗◌}

  -- A member of the quorum: the nonces of its round and its share of the inner key.
  pub record Member : Type 0 where
    pub nonces : NoncePair Scalar
    pub scalar : Scalar

  -- The sum of the members' responses, each with its coefficient.
  unfoldable pub sum_responses :
      InnerSigningParams Scalar → Scalar → List Member → List Scalar → Scalar
  sum_responses params z (m ∷ members) (mu ∷ lagrange) =
      sum_responses params (z ⊕ response_of c m.nonces params mu m.scalar) members lagrange
  sum_responses params z _ _ = z

  -- The sums of the nonces, component by component.
  unfoldable pub sum_nonces : NoncePair Scalar → List Member → NoncePair Scalar
  sum_nonces total [] = total
  sum_nonces total (m ∷ members) =
      sum_nonces
        (record {
          hiding = total.hiding ⊕ m.nonces.hiding;
          binding = total.binding ⊕ m.nonces.binding;
        })
        members

  -- One more member's response moves the flat response along.
  response_step :
      (params : InnerSigningParams Scalar) (total : NoncePair Scalar) (acc mu : Scalar) (m : Member)
      → response_of c total params one acc ⊕ response_of c m.nonces params mu m.scalar
        ≡ response_of c
            (record {
              hiding = total.hiding ⊕ m.nonces.hiding;
              binding = total.binding ⊕ m.nonces.binding;
            })
            params
            one
            (acc ⊕ mu ⊗ m.scalar)
  unfolding response_of
  response_step params total acc mu m = simp ring

  pub sum_responses-flat :
      (params : InnerSigningParams Scalar) (members : List Member) (lagrange : List Scalar)
      (total : NoncePair Scalar) (acc : Scalar)
      → length members ≡ length lagrange
      → sum_responses params (response_of c total params one acc) members lagrange
        ≡ response_of c
            (sum_nonces total members)
            params
            one
            (combine scalars acc lagrange (map (λ m. m.scalar) members))
  unfolding sum_responses sum_nonces combine
  sum_responses-flat params [] [] total acc l = refl
  sum_responses-flat params [] (mu ∷ lagrange) total acc l = absurd (omega arith)
  sum_responses-flat params (m ∷ members) [] total acc l = absurd (omega arith)
  sum_responses-flat params (m ∷ members) (mu ∷ lagrange) total acc l =
      ap (λ z. sum_responses params z members lagrange) (response_step params total acc mu m)
      ∙ sum_responses-flat params members lagrange _ (acc ⊕ mu ⊗ m.scalar) (omega arith)
