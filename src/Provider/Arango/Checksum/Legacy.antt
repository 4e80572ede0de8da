-- ===== src/Provider/Arango/Checksum/Legacy.antt =====
-- internal/provider/v1/arango_checksum.go: the replacement of a claim's metadata by the operator's.
use data_product_controller.Prelude.{ℕ, ◌≡◌, false, List, [], ◌∷◌, ◌++◌, nat_eq}
use data_product_controller.Controller.Version.{codes}
use data_product_controller.Provider.Names.{is_prefix}

-- no match of a text begins in the first bytes
abbrev pub Clear : List ℕ → List ℕ → List ℕ → Type 0
Clear old [] rest = Unit
Clear old (c ∷ cs) rest = (is_prefix old ((c ∷ cs) ++ rest) ≡ false) × Clear old cs rest

-- the member of a claim's encoding that holds the metadata
abbrev pub member_of : List ℕ → List ℕ
member_of metadata = codes "\"metadata\":" ++ metadata
