-- ===== src/Provider/Hybrid/Profile.antt =====
-- internal/provider/v1/cnpg_hybrid.go, `hybridSourceProfile` and `hybridPublication`: what they show.
use data_product_controller.Prelude.{
  ℕ, String, ℤ, pos, negsuc, ◌<◌, ◌≡◌, ◌≢◌, ◌⊎◌, Bool, true, false, Option, none, some, List, [],
  ◌∷◌, arith, eq_iff, ◌==◌, string_eq, refl, ◌∙◌, ap, inl, inr, Bool-cases, Memᴰ, subst,
}
use data_product_controller.Controller.Version.{codes}
use data_product_controller.Provisioner.{Nested, malformed, absent, present, string_of}
use data_product_controller.Provider.{Resource, Secret}
use data_product_controller.Provider.Names.{value, value-decimal, codes_beq-eq, decimal, has_prefix}
use data_product_controller.Provider.Checks.{any-true, is_omitted-absent}
use data_product_controller.Provider.Hybrid.{
  minimal_image, age_image, supports, profile_of, has_profile, reports, is_identifier, annotation,
  names_generation, is_application_user, is_publication, preloads_age,
}

-- the generation of the observed source, as the publisher wrote it
names_generation-value :
    (generation : ℤ) (text : String)
    → names_generation generation text ≡ true
    → (n : ℕ) × (generation ≡ pos n) × (0 < n) × (value 0 (codes text) ≡ n)
unfolding names_generation
names_generation-value (negsuc n) text h = cc
names_generation-value (pos n) text h = (
  n,
  refl,
  ground arith,
  ap (value 0) (codes_beq-eq (codes text) (decimal n) (ground arith)) ∙ value-decimal n,
)

-- the declared and reported image, and what it supports
pub record HasProfile (r : Resource) (engine : String) : Type 0 where
  pub image : String
  pub declared : string_of (r.fields.string_at ("spec" ∷ "imageName" ∷ [])) ≡ some image
  pub reported : r.fields.string_at ("status" ∷ "image" ∷ []) ≡ present image
  pub no_catalog : r.fields.field_at ("spec" ∷ "imageCatalogRef" ∷ []) ≡ absent
  pub official : (image ≡ minimal_image) ⊎ (image ≡ age_image)
  pub document : image ≡ minimal_image → engine ≡ "document"
  pub preloaded :
      engine ≡ "graph"
      → (libraries : List String) × (r.fields.strings_at
            ("spec" ∷ "postgresql" ∷ "shared_preload_libraries" ∷ [])
          ≡ present libraries)
        × Memᴰ "age" libraries

supports-official :
    (r : Resource) (engine image : String)
    → supports r engine image ≡ true
    → (image ≡ minimal_image) ⊎ (image ≡ age_image)
unfolding supports
supports-official r engine image h = elim (Bool-cases (image == minimal_image)) [
  | inl minimal ↦ inl ((eq_iff image minimal_image).0 minimal)
  | inr other ↦ elim (Bool-cases (image == age_image)) [
    | inl age ↦ inr ((eq_iff image age_image).0 age)
    | inr unknown ↦ absurd (clash (rw (other, unknown) at h))
  ]
]
  where
    clash : ◌≢◌ {A = Bool} false true
    clash x = cc

supports-document :
    (r : Resource) (engine image : String)
    → supports r engine image ≡ true
    → image ≡ minimal_image
    → engine ≡ "document"
unfolding supports
supports-document r engine image h e =
    (eq_iff engine "document").0 (rw ((eq_iff image minimal_image).1 e) at h)

preloads_age-listed :
    (n : Nested (List String))
    → preloads_age n ≡ true
    → (libraries : List String) × (n ≡ present libraries) × Memᴰ "age" libraries
unfolding preloads_age
preloads_age-listed malformed h = cc
preloads_age-listed absent h = cc
preloads_age-listed (present libraries) h =
    let (library, member, e) = any-true _ libraries h in
    (libraries, refl, subst (λ x. Memᴰ x libraries) ((eq_iff library "age").0 e) member)

supports-preloaded :
    (r : Resource) (engine image : String)
    → supports r engine image ≡ true
    → engine ≡ "graph"
    → (libraries : List String) × (r.fields.strings_at
          ("spec" ∷ "postgresql" ∷ "shared_preload_libraries" ∷ [])
        ≡ present libraries)
      × Memᴰ "age" libraries
unfolding supports
supports-preloaded r engine image h e =
    let other : (engine == "document") ≡ false = rw e refl in
    preloads_age-listed _ (ground (arith, other))

-- the reported image is there and is the declared one
reports-present : (n : Nested String) (image : String) → reports n image ≡ true → n ≡ present image
unfolding reports
reports-present malformed image h = cc
reports-present absent image h = cc
reports-present (present current) image h = ap present ((eq_iff current image).0 h)

profile_of-HasProfile :
    (r : Resource) (engine : String) (o : Option String)
    → string_of (r.fields.string_at ("spec" ∷ "imageName" ∷ [])) ≡ o
    → r.fields.field_at ("spec" ∷ "imageCatalogRef" ∷ []) ≡ absent
    → profile_of r engine o ≡ true
    → HasProfile r engine
unfolding profile_of
profile_of-HasProfile r engine none at_o no_catalog h = cc
profile_of-HasProfile r engine (some image) at_o no_catalog h =
    let supported : supports r engine image ≡ true = ground arith in
    record {
      image = image;
      declared = at_o;
      reported = reports-present _ image (ground arith);
      no_catalog = no_catalog;
      official = supports-official r engine image supported;
      document = supports-document r engine image supported;
      preloaded = supports-preloaded r engine image supported;
    }

pub has_profile-HasProfile :
    (r : Resource) (engine : String) → has_profile r engine ≡ true → HasProfile r engine
unfolding has_profile
has_profile-HasProfile r engine h =
    profile_of-HasProfile r engine _ refl (is_omitted-absent _ (ground arith)) (ground arith)

-- the publication of a read-only capability
pub record IsCapability (secret : Secret) (generation : ℤ) (engine : String) : Type 0 where
  pub publication : annotation secret "publication" ≡ "v1"
  pub read_only : annotation secret "access" ≡ "read-only"
  pub current : ℕ
  pub generation_is : generation ≡ pos current
  pub seen : value 0 (codes (annotation secret "source-generation")) ≡ current
  pub database : is_identifier (annotation secret "database") ≡ true
  pub user : is_identifier (annotation secret "user") ≡ true
  pub not_postgres : annotation secret "user" ≢ "postgres"
  pub not_replica : annotation secret "user" ≢ "streaming_replica"
  pub not_pg : has_prefix (annotation secret "user") "pg_" ≡ false
  pub not_cnpg : has_prefix (annotation secret "user") "cnpg_" ≡ false
  pub capability :
      ((engine ≡ "graph") × (annotation secret "capability" ≡ "age/1.7.0"))
      ⊎ ((engine ≡ "document") × (annotation secret "capability" ≡ "jsonb/v1"))

is_publication-capability :
    (secret : Secret) (generation : ℤ) (engine : String)
    → is_publication secret generation engine ≡ true
    → ((engine ≡ "graph") × (annotation secret "capability" ≡ "age/1.7.0"))
      ⊎ ((engine ≡ "document") × (annotation secret "capability" ≡ "jsonb/v1"))
unfolding is_publication
is_publication-capability secret generation engine h = elim (Bool-cases (engine == "graph")) [
  | inl graph ↦ inl (
    (eq_iff engine "graph").0 graph,
    ground (arith, eq_iff (annotation secret "capability") "age/1.7.0"),
  )
  | inr other ↦ inr (
    ground (arith, eq_iff engine "document"),
    ground (arith, eq_iff (annotation secret "capability") "jsonb/v1"),
  )
]

is_application_user-other :
    (user : String)
    → is_application_user user ≡ true
    → (user ≢ "postgres")
      × (user ≢ "streaming_replica")
      × (has_prefix user "pg_" ≡ false)
      × (has_prefix user "cnpg_" ≡ false)
unfolding is_application_user
is_application_user-other user h = (
  (λ e. ground (arith, eq_iff user "postgres")),
  (λ e. ground (arith, eq_iff user "streaming_replica")),
  ground arith,
  ground arith,
)

pub is_publication-IsCapability :
    (secret : Secret) (generation : ℤ) (engine : String)
    → is_publication secret generation engine ≡ true
    → IsCapability secret generation engine
unfolding is_publication
is_publication-IsCapability secret generation engine h =
    let (n, e, positive, seen) =
      names_generation-value generation (annotation secret "source-generation") (ground arith) in
    let (not_postgres, not_replica, not_pg, not_cnpg) =
      is_application_user-other (annotation secret "user") (ground arith) in
    record {
      publication = ground (arith, eq_iff (annotation secret "publication") "v1");
      read_only = ground (arith, eq_iff (annotation secret "access") "read-only");
      current = n;
      generation_is = e;
      seen = seen;
      database = ground arith;
      user = ground arith;
      not_postgres = not_postgres;
      not_replica = not_replica;
      not_pg = not_pg;
      not_cnpg = not_cnpg;
      capability = is_publication-capability secret generation engine h;
    }
