-- ===== src/Provider/Arango/Publication/Collections.antt =====
-- internal/provider/v1/arango.go, `arangoPublication`: which lists of collections pass.
use data_product_controller.Prelude.{
  ℕ, suc, ◌+◌, ◌*◌, ◌≤◌, ◌<◌, ◌≡◌, ◌≢◌, ◌↔◌, Bool, true, false, List, [], ◌∷◌, ◌++◌, any, length,
  ◌==◌, nat_eq, arith, refl, ap, sym, ◌∙◌, subst, inl, inr, Bool-cases, nat_beq_iff, leb→le, All,
  All-mono,
}
use data_product_controller.Provider.Names.{
  is_lower, is_upper, is_digit, all_of, is_name, codes_beq, codes_beq-eq,
}
use data_product_controller.Provider.Arango.Publication.{
  continues_name, is_arango_name, split_names, width, byte_length, fresh_names, are_collections,
  join_names,
}

split_names-cons :
    (text : List ℕ) → (name : List ℕ) × (names : List (List ℕ)) × (split_names text ≡ name ∷ names)
split_names-cons [] = ([], [], refl)
split_names-cons (c ∷ cs) =
    let (name, names, e) = split_names-cons cs in
    elim (Bool-cases (c == b',')) [
      | inl comma ↦ ([], split_names cs, rw comma refl)
      | inr other ↦ (c ∷ name, names, rw (other, e) refl)
    ]

-- Joining the collections that a text is split into, with commas, gives the text.
pub join_names-split_names : (text : List ℕ) → join_names (split_names text) ≡ text
join_names-split_names [] = refl
join_names-split_names (c ∷ cs) =
    let (name, names, e) = split_names-cons cs in
    let later : join_names (name ∷ names) ≡ cs = rw e at (join_names-split_names cs) in
    elim (Bool-cases (c == b',')) [
      | inl comma ↦
          let same : c ≡ b',' = (nat_beq_iff c b',').0 comma in
          rw (comma, e, same) (ap (λ x. b',' ∷ x) later)
      | inr other ↦ rw (other, e) (extend_first c name names ∙ ap (λ x. c ∷ x) later)
    ]
  where
    extend_first :
        (c : ℕ) (name : List ℕ) (names : List (List ℕ))
        → join_names ((c ∷ name) ∷ names) ≡ c ∷ join_names (name ∷ names)
    extend_first c name [] = refl
    extend_first c name (next ∷ names) = refl

-- the names are distinct
abbrev pub Distinct : List (List ℕ) → Type 0
Distinct [] = Unit
Distinct (name ∷ names) = All (λ other. name ≢ other) names × Distinct names

abbrev IsName : List ℕ → Type 0
IsName name = is_arango_name name ≡ true

abbrev IsUnseen : List (List ℕ) → List ℕ → Type 0
IsUnseen seen name = any (codes_beq name) seen ≡ false

codes_beq_self : (a : List ℕ) → codes_beq a a ≡ true
codes_beq_self [] = refl
codes_beq_self (c ∷ cs) = rw ((nat_beq_iff c c).1 refl, codes_beq_self cs) refl

codes_beq-false : (a b : List ℕ) → a ≢ b → codes_beq a b ≡ false
codes_beq-false a b h = elim (Bool-cases (codes_beq a b)) [
  | inl same ↦ absurd (h (codes_beq-eq a b same))
  | inr differ ↦ differ
]

fresh_names-Distinct :
    (seen names : List (List ℕ))
    → fresh_names seen names ≡ true
    → All IsName names × Distinct names × All (IsUnseen seen) names
unfolding fresh_names
fresh_names-Distinct seen [] h = (tt, tt, tt)
fresh_names-Distinct seen (name ∷ names) h =
    let (good, distinct, unseen) = fresh_names-Distinct (name ∷ seen) names (ground arith) in
    (
      (ground arith, good),
      (All-mono (λ other u same. differs other u same) names unseen, distinct),
      (ground arith, All-mono (λ other u. ground arith) names unseen),
    )
  where
    differs : (other : List ℕ) → IsUnseen (name ∷ seen) other → name ≢ other
    differs other u same =
        let hit = subst (λ x. codes_beq x name ≡ true) same (codes_beq_self name) in
        absurd (ground arith)

Distinct-fresh_names :
    (seen names : List (List ℕ))
    → All IsName names
    → Distinct names
    → All (IsUnseen seen) names
    → fresh_names seen names ≡ true
unfolding fresh_names
Distinct-fresh_names seen [] good distinct unseen = refl
Distinct-fresh_names seen (name ∷ names) (named, good) (differ, distinct) (new, unseen) =
    let later =
      Distinct-fresh_names (name ∷ seen) names good distinct (unseen_behind names differ unseen) in
    rw (named, new, later) refl
  where
    unseen_behind :
        (names : List (List ℕ))
        → All (λ other. name ≢ other) names
        → All (IsUnseen seen) names
        → All (IsUnseen (name ∷ seen)) names
    unseen_behind [] d u = tt
    unseen_behind (other ∷ others) (d, ds) (u, us) =
        (rw (codes_beq-false other name (λ e. d (sym e)), u) refl, unseen_behind others ds us)

byte_length-append : (a b : List ℕ) → byte_length (a ++ b) ≡ byte_length a + byte_length b
byte_length-append [] b = omega arith
byte_length-append (c ∷ cs) b = omega (arith, byte_length-append cs b)

-- a class of ASCII code points
all_of-byte_length :
    (p : ℕ → Bool) (text : List ℕ)
    → ((c : ℕ) → p c ≡ true → c < 128)
    → all_of p text ≡ true
    → byte_length text ≡ length text
all_of-byte_length p [] ascii h = refl
all_of-byte_length p (c ∷ cs) ascii h =
    let small = ascii c (ground arith) in
    let later = all_of-byte_length p cs ascii (ground arith) in ground arith

continues_name-ascii : (c : ℕ) → continues_name c ≡ true → c < 128
unfolding continues_name is_upper is_lower is_digit
continues_name-ascii c h = ground arith

is_arango_name-byte_length : (name : List ℕ) → is_arango_name name ≡ true → byte_length name ≤ 64
unfolding is_arango_name is_name is_upper is_lower is_digit
is_arango_name-byte_length [] h = cc
is_arango_name-byte_length (c ∷ cs) h =
    let rest = all_of-byte_length continues_name cs continues_name-ascii (ground arith) in
    let short : length cs ≤ 63 = leb→le (length cs) 63 (ground arith) in
    let one : width c ≡ 1 = ground arith in omega (arith, rest, short, one)

join_names-byte_length :
    (name : List ℕ) (names : List (List ℕ))
    → All IsName (name ∷ names)
    → byte_length (join_names (name ∷ names)) + 1 ≤ 65 * suc (length names)
join_names-byte_length name [] (good, _) = omega (arith, is_arango_name-byte_length name good)
join_names-byte_length name (next ∷ names) (good, later) = omega (
  arith,
  byte_length-append name (b',' ∷ join_names (next ∷ names)),
  is_arango_name-byte_length name good,
  join_names-byte_length next names later,
)

-- a list of at most 64 distinct names
pub record IsCollections (text : List ℕ) : Type 0 where
  pub few : length (split_names text) ≤ 64
  pub named : All IsName (split_names text)
  pub distinct : Distinct (split_names text)

are_collections-IsCollections : (text : List ℕ) → are_collections text ≡ true → IsCollections text
unfolding are_collections
are_collections-IsCollections text h =
    let (good, distinct, _) = fresh_names-Distinct [] (split_names text) (ground arith) in
    record { few = ground arith; named = good; distinct = distinct }

IsCollections-are_collections : (text : List ℕ) → IsCollections text → are_collections text ≡ true
unfolding are_collections
IsCollections-are_collections text h =
    let fresh =
      Distinct-fresh_names [] (split_names text) h.named h.distinct (unseen (split_names text)) in
    let few = h.few in let short = within text h in ground arith
  where
    unseen : (names : List (List ℕ)) → All (IsUnseen []) names
    unseen [] = tt
    unseen (name ∷ names) = (refl, unseen names)

    within : (text : List ℕ) → IsCollections text → byte_length text ≤ 64 * 64 + 63
    within text h =
        let (name, names, e) = split_names-cons text in
        let few : suc (length names) ≤ 64 = subst (λ x. length x ≤ 64) e h.few in
        let bound = join_names-byte_length name names (subst (All IsName) e h.named) in
        let whole : join_names (name ∷ names) ≡ text =
          subst (λ x. join_names x ≡ text) e (join_names-split_names text) in
        subst (λ x. byte_length x ≤ 64 * 64 + 63) whole (omega (arith, bound, few))

-- A list of collections passes exactly when it has at most 64 names, each of which is an application
-- name, and no name twice. So the bound on its bytes, which is tested first, rejects no such list.
pub are_collections_iff : (text : List ℕ) → (are_collections text ≡ true) ↔ IsCollections text
are_collections_iff text = (are_collections-IsCollections text, IsCollections-are_collections text)
