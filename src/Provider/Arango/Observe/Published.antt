-- ===== src/Provider/Arango/Observe/Published.antt =====
-- internal/provider/v1/arango.go, `Observe`: what a ready graph source shows.
use Prim.Native.String
use data_product_controller.Prelude.{
  String, ◌≡◌, ◌≢◌, true, false, Option, none, some, List, ℕ, [], ◌∷◌, sym, some_inj, any, ◌==◌,
  string_eq, arith, eq_iff, Memᴰ,
}
use data_product_controller.Kube.{found}
use data_product_controller.Api.{ProvisionedSource, ProvisionedResourceReference}
use data_product_controller.Provisioner.{Owner}
use data_product_controller.Provider.{
  Resource, Secret, Reader, go, read_or_stop, reader_or_stop, selects,
}
use data_product_controller.Provider.Checks.{
  >>=-eq-go, require-eq-go, read_or_stop-eq-go, reader_or_stop-eq-go, conclude_checks-ready,
  IsSelected, selects-IsSelected, any-true, any-false, not-true, or-false, differs,
}
use data_product_controller.Provider.Arango.{DeploymentSpec, Member, Deployment, Codec, ArangoApi}
use data_product_controller.Provider.Arango.Publication.{
  is_arango_publication, graph_annotation, lower, is_operator_user, is_arango_name,
}
use data_product_controller.Provider.Arango.Publication.Collections.{
  IsCollections, are_collections_iff,
}
use data_product_controller.Provider.Arango.Status.{specs_of, is_text, arango_readiness}
use data_product_controller.Provider.Arango.Status.Running.{IsRunning, arango_readiness-IsRunning}
use data_product_controller.Provider.Arango.Status.Facts.{require_arango-eq-go}
use data_product_controller.Controller.Version.{codes}
use data_product_controller.Provider.Names.{codes_beq}
use data_product_controller.Provider.Arango.Observe.{
  arango_kind, names_secret, is_operator_secret, is_arango_owner, is_arango_source, decoded_or_stop,
  arango_checks, observe_arango, operator_suffixes,
}

-- a Secret that the operator does not own, by its name
pub record IsApplicationSecret (d : Deployment) (name : String) : Type 0 where
  pub not_derived :
      (suffix : String) → Memᴰ suffix operator_suffixes → name ≢ String.◌++◌ d.name suffix
  pub not_keyfile :
      (member : Member)
      → Memᴰ member d.singles
      → name ≢ String.◌++◌ (member.name_in d.name) "-tls-keyfile"
  pub not_jwt : (spec : DeploymentSpec) → Memᴰ spec (specs_of d) → name ≢ spec.jwt_secret
  pub not_ca : (spec : DeploymentSpec) → Memᴰ spec (specs_of d) → name ≢ spec.ca_secret
  pub not_metrics : (spec : DeploymentSpec) → Memᴰ spec (specs_of d) → name ≢ spec.metrics_secret
  pub not_license : (spec : DeploymentSpec) → Memᴰ spec (specs_of d) → name ≢ spec.license_secret
  pub not_encryption :
      (spec : DeploymentSpec) → Memᴰ spec (specs_of d) → name ≢ spec.encryption_key_secret
  pub not_restore :
      (spec : DeploymentSpec) → Memᴰ spec (specs_of d) → spec.restore_encryption_secret ≢ some name
  pub not_server_keyfile :
      (spec : DeploymentSpec) (keyfile : String)
      → Memᴰ spec (specs_of d)
      → Memᴰ keyfile spec.keyfiles
      → name ≢ keyfile
  pub not_pulled :
      (spec : DeploymentSpec) (secret : String)
      → Memᴰ spec (specs_of d)
      → Memᴰ secret spec.image_pull_secrets
      → name ≢ secret
  pub not_password :
      (spec : DeploymentSpec) (password : String × String)
      → Memᴰ spec (specs_of d)
      → Memᴰ password spec.passwords
      → name ≢ password.1

-- the tests of one specification
record Unnamed (name : String) (spec : DeploymentSpec) : Type 0 where
  jwt : (name == spec.jwt_secret) ≡ false
  ca : (name == spec.ca_secret) ≡ false
  metrics : (name == spec.metrics_secret) ≡ false
  license : (name == spec.license_secret) ≡ false
  encryption : (name == spec.encryption_key_secret) ≡ false
  restore : is_text spec.restore_encryption_secret name ≡ false
  keyfile : any (λ keyfile. keyfile == name) spec.keyfiles ≡ false
  pulled : any (λ secret. name == secret) spec.image_pull_secrets ≡ false
  password : any (λ (password : String × String). name == password.1) spec.passwords ≡ false

names_secret-Unnamed :
    (name : String) (spec : DeploymentSpec) → names_secret name spec ≡ false → Unnamed name spec
unfolding names_secret
names_secret-Unnamed name spec h =
    let (jwt, h1) = or-false _ _ h in
    let (ca, h2) = or-false _ _ h1 in
    let (metrics, h3) = or-false _ _ h2 in
    let (license, h4) = or-false _ _ h3 in
    let (encryption, h5) = or-false _ _ h4 in
    let (restore, h6) = or-false _ _ h5 in
    let (keyfile, h7) = or-false _ _ h6 in
    let (pulled, password) = or-false _ _ h7 in
    record {
      jwt = jwt;
      ca = ca;
      metrics = metrics;
      license = license;
      encryption = encryption;
      restore = restore;
      keyfile = keyfile;
      pulled = pulled;
      password = password;
    }

-- a text that is not the wanted one
is_text-not : (o : Option String) (s : String) → is_text o s ≡ false → o ≢ some s
unfolding is_text
is_text-not none s h e = cc
is_text-not (some t) s h e = ground (arith, eq_iff t s, some_inj e)

-- A name that is not one of the operator's Secrets is no derived name, no member's TLS keyfile, and
-- in no specification the name of any of its secrets.
pub is_operator_secret-IsApplicationSecret :
    (d : Deployment) (name : String)
    → is_operator_secret d name ≡ false
    → IsApplicationSecret d name
unfolding is_operator_secret
is_operator_secret-IsApplicationSecret d name h =
    let (derived, others) = or-false _ _ h in
    let (keyfiles, specs) = or-false _ _ others in
    record {
      not_derived = λ suffix m.
          differs name (String.◌++◌ d.name suffix)
            (any-false (λ x. name == String.◌++◌ d.name x) operator_suffixes derived m);
      not_jwt = λ spec m. differs name spec.jwt_secret (unnamed spec specs m).jwt;
      not_keyfile = λ member m. differs name (String.◌++◌ (member.name_in d.name) "-tls-keyfile") (
          any-false (λ (x : Member). name == String.◌++◌ (x.name_in d.name) "-tls-keyfile")
            d.singles keyfiles m);
      not_ca = λ spec m. differs name spec.ca_secret (unnamed spec specs m).ca;
      not_metrics = λ spec m. differs name spec.metrics_secret (unnamed spec specs m).metrics;
      not_license = λ spec m. differs name spec.license_secret (unnamed spec specs m).license;
      not_encryption =
          λ spec m. differs name spec.encryption_key_secret (unnamed spec specs m).encryption;
      not_restore =
          λ spec m. is_text-not spec.restore_encryption_secret name (unnamed spec specs m).restore;
      not_server_keyfile = λ spec keyfile m k e.
          differs keyfile name
            (any-false (λ x. x == name) spec.keyfiles (unnamed spec specs m).keyfile k) (sym e);
      not_pulled = λ spec secret m k.
          differs name secret
            (any-false (λ x. name == x) spec.image_pull_secrets (unnamed spec specs m).pulled k);
      not_password = λ spec password m k. differs name password.1 (
          any-false (λ (x : String × String). name == x.1) spec.passwords
            (unnamed spec specs m).password k);
    }
  where
    unnamed :
        (spec : DeploymentSpec)
        → any (names_secret name) (specs_of d) ≡ false
        → Memᴰ spec (specs_of d)
        → Unnamed name spec
    unnamed spec specs m =
        names_secret-Unnamed name spec (any-false (names_secret name) (specs_of d) specs m)

-- the users of the operator
abbrev pub operator_users : List String
operator_users = "root" ∷ "operator" ∷ "internal" ∷ "backup" ∷ []

is_operator_user-none :
    (user : List ℕ)
    → is_operator_user user ≡ false
    → (name : String) → Memᴰ name operator_users
    → codes_beq user (codes name) ≡ false
unfolding is_operator_user
is_operator_user-none user h name m = any-false (λ x. codes_beq user (codes x)) operator_users h m

-- the publication of a read-only graph
pub record IsGraph (annotations : String → String) : Type 0 where
  pub version : annotations "data.devantler.tech/arango-publication" ≡ "v1"
  pub read_only : annotations "data.devantler.tech/arango-access" ≡ "read-only"
  pub user : is_arango_name (graph_annotation annotations "arango-user") ≡ true
  pub database : is_arango_name (graph_annotation annotations "arango-database") ≡ true
  pub graph : is_arango_name (graph_annotation annotations "arango-graph") ≡ true
  pub not_operator :
      (name : String)
      → Memᴰ name operator_users
      → codes_beq (lower (graph_annotation annotations "arango-user")) (codes name) ≡ false
  pub collections : IsCollections (graph_annotation annotations "arango-collections")

is_arango_publication-IsGraph :
    (annotations : String → String) → is_arango_publication annotations ≡ true → IsGraph annotations
unfolding is_arango_publication
is_arango_publication-IsGraph annotations h = record {
  version = ground (arith, eq_iff (annotations "data.devantler.tech/arango-publication") "v1");
  read_only = ground (arith, eq_iff (annotations "data.devantler.tech/arango-access") "read-only");
  user = ground arith;
  database = ground arith;
  graph = ground arith;
  not_operator = is_operator_user-none _ (ground arith);
  collections =
      (are_collections_iff (graph_annotation annotations "arango-collections")).0 (ground arith);
}

module _ {Time Entry : Type 0} (codec : Codec Time Entry) (api : ArangoApi) (reader : Option Reader)
    (namespace : String) (s : ProvisionedSource) where
  -- a ready graph source
  pub record IsGraphPublished : Type 0 where
    pub selected : IsSelected s.engine "graph" "native"
    pub client : Reader
    pub configured : reader ≡ some client
    pub resource : Resource
    pub read :
        client.get_source arango_kind (record { namespace = namespace; name = s.resource_ref.name })
        ≡ found resource
    pub kept : resource.deleting ≡ false
    pub deployment : Deployment
    pub decoded : api.decode resource ≡ some deployment
    pub running : IsRunning codec api deployment
    pub application : IsApplicationSecret deployment s.connection_secret_ref.name
    pub secret : Secret
    pub published :
        client.get_secret (record { namespace = namespace; name = s.connection_secret_ref.name })
        ≡ found secret
    pub secret_kept : secret.deleting ≡ false
    pub graph : IsGraph secret.annotations
    pub owner : Owner
    pub member : Memᴰ owner secret.owners
    pub owner_version : owner.api_version ≡ s.resource_ref.api_version
    pub owner_kind : owner.kind ≡ s.resource_ref.kind
    pub same_name : owner.name ≡ resource.name
    pub same_uid : owner.uid ≡ resource.uid
    pub identified : resource.uid ≢ ""

  is_arango_source-selects :
      is_arango_source namespace s ≡ true → selects s.engine "graph" "native" ≡ true
  unfolding is_arango_source
  is_arango_source-selects h = ground arith

  is_arango_owner-current :
      (ref : ProvisionedResourceReference) (r : Resource) (o : Owner)
      → is_arango_owner ref r o ≡ true
      → (o.api_version ≡ ref.api_version)
        × (o.kind ≡ ref.kind)
        × (o.name ≡ r.name)
        × (o.uid ≡ r.uid)
  unfolding is_arango_owner
  is_arango_owner-current ref r o h = (
    ground (arith, eq_iff o.api_version ref.api_version),
    ground (arith, eq_iff o.kind ref.kind),
    ground (arith, eq_iff o.name r.name),
    ground (arith, eq_iff o.uid r.uid),
  )

  decoded_or_stop-eq-go :
      (o : Option Deployment) (d : Deployment) → decoded_or_stop o ≡ go d → o ≡ some d
  unfolding decoded_or_stop
  decoded_or_stop-eq-go none d h = cc
  decoded_or_stop-eq-go (some x) d h = cc

  checks-IsGraphPublished :
      (message : String)
      → arango_checks codec api reader namespace s ≡ go message
      → IsGraphPublished
  unfolding arango_checks
  checks-IsGraphPublished message h =
      let (source, h1) = require_arango-eq-go _ _ h in
      let (client, configured, h2) = >>=-eq-go (reader_or_stop reader) _ h1 in
      let (resource, read, h3) = >>=-eq-go (read_or_stop _ _ _) _ h2 in
      let (kept, h4) = require-eq-go _ _ _ _ h3 in
      let (identified, h5) = require_arango-eq-go _ _ h4 in
      let (deployment, decoded, h6) = >>=-eq-go (decoded_or_stop _) _ h5 in
      let (u, running, h7) = >>=-eq-go (arango_readiness codec api deployment) _ h6 in
      let (application, h8) = require-eq-go _ _ _ _ h7 in
      let (secret, published, h9) = >>=-eq-go (read_or_stop _ _ _) _ h8 in
      let (secret_kept, h10) = require-eq-go _ _ _ _ h9 in
      let (graph, h11) = require-eq-go _ _ _ _ h10 in
      let (owned, _) = require-eq-go _ _ _ _ h11 in
      let (o, member, matched) =
        any-true (is_arango_owner s.resource_ref resource) secret.owners owned in
      let (version, kind, name, uid) = is_arango_owner-current s.resource_ref resource o matched in
      record {
        selected = selects-IsSelected s.engine "graph" "native" (is_arango_source-selects source);
        client = client;
        configured = reader_or_stop-eq-go reader configured;
        resource = resource;
        read = read_or_stop-eq-go _ _ _ read;
        kept = not-true resource.deleting kept;
        deployment = deployment;
        decoded = decoded_or_stop-eq-go _ deployment decoded;
        running = arango_readiness-IsRunning codec api deployment u running;
        application = is_operator_secret-IsApplicationSecret deployment _ (not-true _ application);
        secret = secret;
        published = read_or_stop-eq-go _ _ _ published;
        secret_kept = not-true secret.deleting secret_kept;
        graph = is_arango_publication-IsGraph secret.annotations graph;
        owner = o;
        member = member;
        owner_version = version;
        owner_kind = kind;
        same_name = name;
        same_uid = uid;
        identified = differs resource.uid "" (not-true _ identified);
      }

  -- A graph source is observed ready only if graph/native is selected, the resource was read, is kept
  -- and decodes to a running ArangoDeployment; the Secret has no name that the operator derives, is no
  -- member's TLS keyfile, and is in neither the declared nor the accepted specification the JWT, CA,
  -- metrics, license, encryption or restore secret, a TLS keyfile, an image pull secret or a bootstrap
  -- password; and it was read, is kept, publishes a read-only graph and has an owner with the API
  -- version and kind that the source names and the name and uid of the resource.
  pub observe_arango-IsGraphPublished :
      (observe_arango codec api reader namespace s).ready ≡ true → IsGraphPublished
  unfolding observe_arango
  observe_arango-IsGraphPublished h =
      let (message, ran) = conclude_checks-ready (arango_checks codec api reader namespace s) h in
      checks-IsGraphPublished message ran
