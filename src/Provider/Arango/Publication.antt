-- ===== src/Provider/Arango/Publication.antt =====
-- internal/provider/v1/arango.go, `arangoPublication`: the annotations of the password Secret, and
-- the list of collections among them.
pub mod Collections
use Prim.Native.String
use data_product_controller.Prelude.{
  ℕ, zero, suc, ◌+◌, ◌*◌, ◌≤◌, ◌<◌, String, ◌≡◌, ◌↔◌, Bool, true, false, not, ◌&&◌, ◌||◌, List, [],
  ◌∷◌, ◌++◌, map, if◌then◌else◌, any, length, leb, ltb, ◌==◌, string_eq, nat_eq, nat_beq, arith,
  refl, ap, sym, ◌∙◌, subst, inl, inr, Bool-cases, nat_beq_iff, All,
}
use data_product_controller.Controller.Version.{codes}
use data_product_controller.Provider.Names.{
  is_lower, is_upper, is_digit, all_of, is_name, codes_beq,
}

-- `[A-Za-z0-9_-]`
unfoldable pub continues_name : ℕ → Bool
continues_name c = is_upper c || (is_lower c || (is_digit c || (nat_beq c b'_' || nat_beq c b'-')))

-- `^[A-Za-z][A-Za-z0-9_-]{0,63}$`
unfoldable pub is_arango_name : List ℕ → Bool
is_arango_name name = is_name (λ c. is_upper c || is_lower c) continues_name 63 name

-- strings.Split at commas
abbrev pub split_names : List ℕ → List (List ℕ)
split_names [] = [] ∷ []
split_names (c ∷ cs) = let rest = split_names cs in if c == b',' then [] ∷ rest else extend c rest
  where
    extend : ℕ → List (List ℕ) → List (List ℕ)
    extend c [] = (c ∷ []) ∷ []
    extend c (name ∷ names) = (c ∷ name) ∷ names

-- the bytes of the UTF-8 encoding of a code point
abbrev pub width : ℕ → ℕ
width c = if ltb c 128 then 1 else if ltb c 2048 then 2 else if ltb c 65536 then 3 else 4

-- `len` of a Go string
abbrev pub byte_length : List ℕ → ℕ
byte_length [] = 0
byte_length (c ∷ cs) = width c + byte_length cs

-- the loop over the collections
pub fresh_names : List (List ℕ) → List (List ℕ) → Bool
fresh_names seen [] = true
fresh_names seen (name ∷ names) =
    not (not (is_arango_name name) || any (codes_beq name) seen) && fresh_names (name ∷ seen) names

-- arangoPublication, from `collectionNames` on
unfoldable pub are_collections : List ℕ → Bool
unfolding fresh_names
are_collections text =
    not (ltb (64 * 64 + 63) (byte_length text))
    && (not (ltb 64 (length (split_names text))) && fresh_names [] (split_names text))

-- strings.ToLower of an ASCII text
abbrev pub lower : List ℕ → List ℕ
lower text = map (λ c. if is_upper c then c + 32 else c) text

abbrev pub graph_annotation : (String → String) → String → List ℕ
graph_annotation annotations field = codes (annotations (String.◌++◌ "data.devantler.tech/" field))

unfoldable pub is_operator_user : List ℕ → Bool
is_operator_user user =
    any (λ name. codes_beq user (codes name)) ("root" ∷ "operator" ∷ "internal" ∷ "backup" ∷ [])

-- arangoPublication
unfoldable pub is_arango_publication : (String → String) → Bool
unfolding is_operator_user
is_arango_publication annotations =
    annotations "data.devantler.tech/arango-publication" == "v1"
    && (annotations "data.devantler.tech/arango-access" == "read-only"
        && (is_arango_name (graph_annotation annotations "arango-user")
            && (is_arango_name (graph_annotation annotations "arango-database")
                && (is_arango_name (graph_annotation annotations "arango-graph")
                    && (not (is_operator_user (lower (graph_annotation annotations "arango-user")))
                        && are_collections (graph_annotation annotations "arango-collections"))))))

abbrev pub join_names : List (List ℕ) → List ℕ
join_names [] = []
join_names (name ∷ []) = name
join_names (name ∷ next ∷ names) = name ++ b',' ∷ join_names (next ∷ names)
