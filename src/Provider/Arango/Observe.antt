-- ===== src/Provider/Arango/Observe.antt =====
-- internal/provider/v1/arango.go, `arangoOperatorSecret` and `Observe`.
pub mod Published
use Prim.Native.String
use data_product_controller.Prelude.{
  String, Bool, true, false, not, ◌&&◌, ◌||◌, Option, none, some, List, [], ◌∷◌, any, ◌==◌,
  string_eq,
}
use data_product_controller.Kube.{ObjectKey}
use data_product_controller.Api.{ProvisionedSource, ProvisionedResourceReference}
use data_product_controller.Connector.{Observation}
use data_product_controller.Provisioner.{Owner}
use data_product_controller.Provider.{
  Resource, Secret, Kind, Reader, Check, go, stop, ◌>>=◌, ◌>>◌, require, conclude_checks,
  read_or_stop, reader_or_stop, selects,
}
use data_product_controller.Provider.Arango.{DeploymentSpec, Deployment, Member, Codec, ArangoApi}
use data_product_controller.Provider.Arango.Publication.{is_arango_publication}
use data_product_controller.Provider.Arango.Status.{
  require_arango, is_text, specs_of, arango_readiness,
}

abbrev pub arango_kind : Kind
arango_kind = record { api_version = "database.arangodb.com/v1"; kind = "ArangoDeployment" }

abbrev pub operator_suffixes : List String
operator_suffixes =
    "-jwt" ∷ "-jwt-folder" ∷ "-root-password" ∷ "-exporter-jwt-token" ∷ "-ca" ∷ "-rlm"
    ∷ "-truststore" ∷ "-encryption-folder" ∷ []

-- one specification of the loop
unfoldable pub names_secret : String → DeploymentSpec → Bool
unfolding is_text
names_secret name spec =
    name == spec.jwt_secret
    || (name == spec.ca_secret
        || (name == spec.metrics_secret
            || (name == spec.license_secret
                || (name == spec.encryption_key_secret
                    || (is_text spec.restore_encryption_secret name
                        || (any (λ keyfile. keyfile == name) spec.keyfiles
                            || (any (λ secret. name == secret) spec.image_pull_secrets
                                || any (λ password. name == password.1) spec.passwords)))))))

-- arangoOperatorSecret
unfoldable pub is_operator_secret : Deployment → String → Bool
is_operator_secret d name =
    any (λ suffix. name == String.◌++◌ d.name suffix) operator_suffixes
    || (any (λ (member : Member). name == String.◌++◌ (member.name_in d.name) "-tls-keyfile")
          d.singles
        || any (names_secret name) (specs_of d))

-- one round of the loop over the owners
pub is_arango_owner : ProvisionedResourceReference → Resource → Owner → Bool
is_arango_owner ref r o =
    o.api_version == ref.api_version && (o.kind == ref.kind && (o.name == r.name && o.uid == r.uid))

-- the guard on the source
pub is_arango_source : String → ProvisionedSource → Bool
is_arango_source namespace s =
    not (namespace == "")
    && (not (s.resource_ref.name == "")
        && (s.resource_ref.api_version == "database.arangodb.com/v1"
            && (s.resource_ref.kind == "ArangoDeployment"
                && (s.adapter == "arangodb/v1"
                    && (selects s.engine "graph" "native"
                        && not (s.connection_secret_ref.name == ""))))))

-- resource.MarshalJSON and json.Unmarshal
unfoldable pub decoded_or_stop : Option Deployment → Check Deployment
decoded_or_stop (some d) = go d
decoded_or_stop none =
    stop "SourceInvalid"
      "Use graph/native with arangodb/v1, an authenticated single-server ArangoDeployment and a dedicated application password Secret."

module _ {Time Entry : Type 0} (codec : Codec Time Entry) (api : ArangoApi) where
  unfoldable pub arango_checks : Option Reader → String → ProvisionedSource → Check String
  unfolding is_arango_source is_arango_owner
  arango_checks reader namespace s = do
    require_arango (is_arango_source namespace s)
    k ← reader_or_stop reader
    resource ←
        read_or_stop
          (k.get_source arango_kind (record { namespace = namespace; name = s.resource_ref.name }))
          "SourceNotFound"
          "Install the supported ArangoDB operator and create the referenced ArangoDeployment in this product's namespace."
    require (not resource.deleting) "SourceDeleting"
        "The source is being deleted; restore or replace its reference."
    require_arango (not (resource.uid == ""))
    deployment ← decoded_or_stop (api.decode resource)
    arango_readiness codec api deployment
    require (not (is_operator_secret deployment s.connection_secret_ref.name))
        "ConnectionPublicationUnsupported"
        "Publish a dedicated application password Secret; root and operator credentials are unsupported."
    secret ←
        read_or_stop
          (k.get_secret (record { namespace = namespace; name = s.connection_secret_ref.name }))
          "ConnectionNotPublished"
          "Publish the referenced application password Secret with the Graph publication contract and current source ownership."
    require (not secret.deleting) "ConnectionNotPublished"
        "The application password Secret is being deleted; wait for its publisher."
    require (is_arango_publication secret.annotations) "ConnectionPublicationUnsupported"
        "Publish v1 metadata for a dedicated read-only application user, database, graph and explicit collections."
    require (any (is_arango_owner s.resource_ref resource) secret.owners) "ConnectionOwnerMismatch"
        "The application password Secret must reference the current ArangoDeployment; wait for its publisher to reconcile."
    go
        "The Graph provider reports current-spec readiness and its declared application password is published."

  -- Observe of ArangoDB
  unfoldable pub observe_arango : Option Reader → String → ProvisionedSource → Observation
  unfolding arango_checks
  observe_arango reader namespace s = conclude_checks (arango_checks reader namespace s)
