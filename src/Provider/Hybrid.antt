-- ===== src/Provider/Hybrid.antt =====
-- internal/provider/v1/cnpg_hybrid.go: the observation of a hybrid CloudNativePG source, its image
-- profile, and the capability that an independent publisher declares on the Secret.
pub mod Profile
pub mod Published
mod Tests
use Prim.Native.String
use data_product_controller.Prelude.{
  ℕ, String, ℤ, pos, negsuc, Bool, true, false, not, ◌&&◌, ◌||◌, Option, none, some, List, [], ◌∷◌,
  if◌then◌else◌, any, ◌==◌, string_eq, nat_eq, nat_beq, ltb,
}
use data_product_controller.Kube.{ObjectKey}
use data_product_controller.Api.{ProvisionedSource, EngineSelection}
use data_product_controller.Connector.{Observation}
use data_product_controller.Controller.Version.{codes}
use data_product_controller.Provisioner.{
  Nested, malformed, absent, present, Owner, string_of, holds,
}
use data_product_controller.Provider.{
  Resource, Secret, Kind, Reader, Check, go, stop, ◌>>=◌, ◌>>◌, require, conclude_checks,
  read_or_stop, reader_or_stop, selects, is_omitted,
}
use data_product_controller.Provider.Names.{
  is_lower, is_digit, is_name, has_prefix, decimal, codes_beq,
}
use data_product_controller.Provider.Cnpg.{cluster_kind, cnpg_ready}

-- hybridReaderSecret
pub is_reader_secret : String → String → Bool
is_reader_secret cluster secret =
    not (secret == "")
    && not (
        any (λ suffix. secret == String.◌++◌ cluster suffix)
          ("-app" ∷ "-superuser" ∷ "-replication" ∷ "-server" ∷ "-ca" ∷ "-client" ∷ []))

-- a reference that is malformed or names the Secret
unfoldable pub refers : String → Nested String → Bool
refers secret malformed = true
refers secret absent = "" == secret
refers secret (present name) = name == secret

-- hybridConfiguredReader
pub is_dedicated : Resource → String → Bool
unfolding refers
is_dedicated r secret = not (
    any (λ path. refers secret (r.fields.string_at path))
      (("spec" ∷ "superuserSecret" ∷ "name" ∷ [])
        ∷ ("spec" ∷ "bootstrap" ∷ "initdb" ∷ "secret" ∷ "name" ∷ [])
        ∷ ("spec" ∷ "bootstrap" ∷ "recovery" ∷ "secret" ∷ "name" ∷ [])
        ∷ ("spec" ∷ "bootstrap" ∷ "pg_basebackup" ∷ "secret" ∷ "name" ∷ [])
        ∷ ("spec" ∷ "certificates" ∷ "serverCASecret" ∷ [])
        ∷ ("spec" ∷ "certificates" ∷ "serverTLSSecret" ∷ [])
        ∷ ("spec" ∷ "certificates" ∷ "clientCASecret" ∷ [])
        ∷ ("spec" ∷ "certificates" ∷ "replicationTLSSecret" ∷ [])
        ∷ []))

-- hybridAGEPreload
pub preloads_age : Nested (List String) → Bool
preloads_age malformed = false
preloads_age absent = false
preloads_age (present libraries) = any (λ library. library == "age") libraries

abbrev pub minimal_image : String
minimal_image =
    "ghcr.io/cloudnative-pg/postgresql:17.11-minimal-trixie@sha256:d78e771decf39071aa8bfb96684e8b7e6e5f3c6e00a945404249756db2c6c712"

abbrev pub age_image : String
age_image =
    "ghcr.io/devantler-tech/data-product-controller-postgresql-age:17.11-age1.7.0-dpc1.16.0@sha256:0b6e2d75d5551586570979d767a28b255953c2ee86820409ad9fe37d91ce3fa8"

-- the image against the engine
pub supports : Resource → String → String → Bool
unfolding preloads_age
supports r engine image =
    if image == minimal_image
    then engine == "document"
    else if not (image == age_image)
    then false
    else engine == "document"
      || preloads_age
          (r.fields.strings_at ("spec" ∷ "postgresql" ∷ "shared_preload_libraries" ∷ []))

-- the reported image, which has to be there
pub reports : Nested String → String → Bool
reports malformed image = false
reports absent image = false
reports (present current) image = current == image

pub profile_of : Resource → String → Option String → Bool
unfolding supports reports
profile_of r engine none = false
profile_of r engine (some image) =
    (engine == "document" || engine == "graph")
    && (reports (r.fields.string_at ("status" ∷ "image" ∷ [])) image && supports r engine image)

-- hybridSourceProfile
pub has_profile : Resource → String → Bool
unfolding profile_of
has_profile r engine =
    is_omitted (r.fields.field_at ("spec" ∷ "imageCatalogRef" ∷ []))
    && profile_of r engine (string_of (r.fields.string_at ("spec" ∷ "imageName" ∷ [])))

-- hybridCurrentOwner
pub is_current_owner : Resource → List Owner → Bool
is_current_owner r owners =
    not (r.uid == "")
    && any
        (λ o.
          o.api_version == "postgresql.cnpg.io/v1"
          && (o.kind == "Cluster" && (o.name == r.name && o.uid == r.uid)))
        owners

-- hybridIdentifier, `^[a-z][a-z0-9_]{0,62}$`
pub is_identifier : String → Bool
is_identifier s = is_name is_lower (λ c. is_lower c || (is_digit c || nat_beq c b'_')) 62 (codes s)

abbrev pub annotation : Secret → String → String
annotation secret field = secret.annotations (String.◌++◌ "data.devantler.tech/cnpg-hybrid-" field)

-- the generation that the publisher saw, in decimal digits
pub names_generation : ℤ → String → Bool
names_generation (negsuc n) text = false
names_generation (pos n) text = ltb 0 n && codes_beq (codes text) (decimal n)

pub is_application_user : String → Bool
is_application_user user = not (
    user == "postgres"
    || (user == "streaming_replica" || (has_prefix user "pg_" || has_prefix user "cnpg_")))

-- hybridPublication
pub is_publication : Secret → ℤ → String → Bool
unfolding is_identifier names_generation is_application_user
is_publication secret generation engine =
    annotation secret "publication" == "v1"
    && (annotation secret "access" == "read-only"
        && (names_generation generation (annotation secret "source-generation")
            && (is_identifier (annotation secret "database")
                && (is_identifier (annotation secret "user")
                    && (is_application_user (annotation secret "user")
                        && (if engine == "graph"
                            then annotation secret "capability" == "age/1.7.0"
                              && is_identifier (annotation secret "graph")
                            else engine == "document"
                              && (annotation secret "capability" == "jsonb/v1"
                                  && (is_identifier (annotation secret "schema")
                                      && (is_identifier (annotation secret "table")
                                          && is_identifier (annotation secret "column"))))))))))

-- `source.Engine.Type`, behind the guard
abbrev pub engine_type : Option EngineSelection → String
engine_type none = ""
engine_type (some e) = e.kind

-- the guard on the source
pub is_hybrid_source : String → ProvisionedSource → Bool
unfolding is_reader_secret
is_hybrid_source namespace s =
    not (namespace == "")
    && (not (s.resource_ref.name == "")
        && (s.resource_ref.api_version == "postgresql.cnpg.io/v1"
            && (s.resource_ref.kind == "Cluster"
                && (s.adapter == "cnpg-hybrid/v1"
                    && ((selects s.engine "document" "cnpg-hybrid"
                          || selects s.engine "graph" "cnpg-hybrid")
                        && is_reader_secret s.resource_ref.name s.connection_secret_ref.name)))))

unfoldable pub hybrid_checks : Option Reader → String → ProvisionedSource → Check String
hybrid_checks reader namespace s = do
  require (is_hybrid_source namespace s) "SourceInvalid"
      "Use document or graph with cnpg-hybrid/v1, a same-namespace Cluster and a dedicated application reader publication."
  k ← reader_or_stop reader
  cluster ←
      read_or_stop
        (k.get_source cluster_kind (record { namespace = namespace; name = s.resource_ref.name }))
        "SourceNotFound" "Create the referenced CloudNativePG Cluster in this product's namespace."
  require (not cluster.deleting) "SourceDeleting"
      "The source is being deleted; restore or replace its reference."
  require (is_dedicated cluster s.connection_secret_ref.name) "SourceInvalid"
      "Check the Cluster's configured publication references and use a dedicated application reader publication outside its operator publications."
  require (has_profile cluster (engine_type s.engine)) "SourceProfileUnsupported"
      "Use the supported immutable PostgreSQL image and declared hybrid capability configuration."
  require (cnpg_ready cluster) "SourceNotReady"
      "The Cluster must report Ready=True, all requested instances ready and a settled primary; inspect its status."
  secret ←
      read_or_stop
        (k.get_secret (record { namespace = namespace; name = s.connection_secret_ref.name }))
        "ConnectionNotPublished" "Wait for the independent publisher's application reader Secret."
  require (not secret.deleting) "ConnectionNotPublished"
      "The application Secret is being deleted; wait for its publisher."
  require (is_current_owner cluster secret.owners) "ConnectionOwnerMismatch"
      "The application reader Secret must identify the current Cluster UID; reconcile its publication."
  require (is_publication secret cluster.generation (engine_type s.engine))
      "ConnectionPublicationUnsupported"
      "Publish the supported read-only capability metadata for the current Cluster generation after verifying the application query."
  go "The hybrid source is ready and its current application reader capability is published."

-- Observe of CloudNativePGHybrid
unfoldable pub observe_hybrid : Option Reader → String → ProvisionedSource → Observation
unfolding hybrid_checks
observe_hybrid reader namespace s = conclude_checks (hybrid_checks reader namespace s)
