-- ===== src/Provider/Arango/Checksum.antt =====
-- internal/provider/v1/arango_checksum.go: the checksum of a specification in the encoding of the
-- pinned operator, on lists of bytes. The text that is replaced is JSON, so it is not empty.
pub mod Legacy
use data_product_controller.Prelude.{
  ℕ, zero, suc, ◌<◌, ◌-◌, String, ◌≡◌, true, Option, none, some, List, [], ◌∷◌, ◌++◌, if◌then◌else◌,
  length, nat_eq, arith, refl, ap, ◌∙◌, inl, inr, Bool-cases, All,
}
use data_product_controller.Controller.Version.{codes}
use data_product_controller.Provider.Names.{is_prefix}
use data_product_controller.Provider.Arango.{VolumeClaim, DeploymentSpec, OperatorMetadata, Codec}

-- all but the first bytes
abbrev pub drop : ℕ → List ℕ → List ℕ
drop n [] = []
drop zero (c ∷ cs) = c ∷ cs
drop (suc n) (c ∷ cs) = drop n cs

-- bytes.Replace of one match
abbrev pub replace_first : List ℕ → List ℕ → List ℕ → List ℕ
replace_first old new [] = []
replace_first old new (c ∷ cs) =
    let rest = replace_first old new cs in
    if is_prefix old (c ∷ cs) then new ++ drop (length old) (c ∷ cs) else c ∷ rest

-- bytes.ReplaceAll; the skipped bytes belong to the last match
abbrev pub replace_all : ℕ → List ℕ → List ℕ → List ℕ → List ℕ
replace_all skipped old new [] = []
replace_all (suc skipped) old new (c ∷ cs) = replace_all skipped old new cs
replace_all zero old new (c ∷ cs) =
    let hit = is_prefix old (c ∷ cs) in
    let rest = replace_all (if hit then length old - 1 else 0) old new cs in
    if hit then new ++ rest else c ∷ rest

infixl 5 ◌>>=◌
abbrev ◌>>=◌ : Option (List ℕ) → (List ℕ → Option (List ℕ)) → Option (List ℕ)
none >>= k = none
some a >>= k = k a

module _ {Time Entry : Type 0} (codec : Codec Time Entry) where
  -- the metadata as the pinned operator encodes it
  unfoldable pub legacy_metadata : List ℕ → Option (List ℕ)
  legacy_metadata metadata = encode (codec.decode_metadata metadata)
    where
      encode : Option (OperatorMetadata Time Entry) → Option (List ℕ)
      encode none = none
      encode (some m) = codec.encode_metadata m

  -- one group of the loop
  pub with_group : List ℕ → Option VolumeClaim → Option (List ℕ)
  unfolding legacy_metadata
  with_group encoded none = some encoded
  with_group encoded (some claim) = do
    current ← claim.encoded
    metadata ← claim.encoded_metadata
    legacy ← legacy_metadata metadata
    some (
        replace_all 0 current
          (replace_first (codes "\"metadata\":" ++ metadata) (codes "\"metadata\":" ++ legacy)
            current)
          encoded)

  -- the loop over the groups
  pub with_groups : Option (List ℕ) → List (Option VolumeClaim) → Option (List ℕ)
  unfolding with_group
  with_groups encoded [] = encoded
  with_groups encoded (claim ∷ claims) = with_groups (encoded >>= λ e. with_group e claim) claims

  pub digest_of : Option (List ℕ) → Option String
  digest_of none = none
  digest_of (some encoded) = some (codec.digest encoded)

  -- arangoSpecChecksum
  unfoldable pub arango_checksum : DeploymentSpec → Option String
  unfolding with_groups digest_of
  arango_checksum spec = digest_of (with_groups spec.encoded spec.claims)
