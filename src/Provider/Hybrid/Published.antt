-- ===== src/Provider/Hybrid/Published.antt =====
-- internal/provider/v1/cnpg_hybrid.go, `Observe`: what a ready hybrid source shows.
use Prim.Native.String
use data_product_controller.Prelude.{
  String, ◌≡◌, ◌≢◌, ◌⊎◌, Bool, true, false, Option, some, List, [], ◌∷◌, arith, eq_iff, ◌==◌,
  string_eq, any, inl, inr, Bool-cases, Memᴰ,
}
use data_product_controller.Kube.{found}
use data_product_controller.Api.{ProvisionedSource}
use data_product_controller.Provisioner.{malformed, Owner, string_of}
use data_product_controller.Provider.{
  Resource, Secret, Reader, go, read_or_stop, reader_or_stop, selects,
}
use data_product_controller.Provider.Checks.{
  >>=-eq-go, require-eq-go, read_or_stop-eq-go, reader_or_stop-eq-go, conclude_checks-ready,
  IsSelected, selects-IsSelected, any-false, any-true, not-true, refers-false, and-true, differs,
}
use data_product_controller.Provider.Cnpg.{cluster_kind}
use data_product_controller.Provider.Cnpg.Ready.{IsSettled, cnpg_ready-IsSettled}
use data_product_controller.Provider.Hybrid.{
  is_reader_secret, is_dedicated, refers, is_current_owner, engine_type, is_hybrid_source,
  hybrid_checks, observe_hybrid,
}
use data_product_controller.Provider.Hybrid.Profile.{
  HasProfile, has_profile-HasProfile, IsCapability, is_publication-IsCapability,
}

-- the Secrets that CloudNativePG itself writes
abbrev pub operator_suffixes : List String
operator_suffixes = "-app" ∷ "-superuser" ∷ "-replication" ∷ "-server" ∷ "-ca" ∷ "-client" ∷ []

is_reader_secret-differs :
    (cluster secret suffix : String)
    → is_reader_secret cluster secret ≡ true
    → Memᴰ suffix operator_suffixes
    → secret ≢ String.◌++◌ cluster suffix
unfolding is_reader_secret
is_reader_secret-differs cluster secret suffix h m same =
    clash (any-false (λ x. secret == String.◌++◌ cluster x) operator_suffixes (reserved h) m)
      ((eq_iff secret (String.◌++◌ cluster suffix)).1 same)
  where
    reserved :
        is_reader_secret cluster secret ≡ true
        → any (λ x. secret == String.◌++◌ cluster x) operator_suffixes ≡ false
    reserved e = ground arith

    clash : {b : Bool} → b ≡ false → b ≡ true → ⊥
    clash x y = cc

-- where a Cluster refers to a Secret of its own
abbrev pub operator_paths : List (List String)
operator_paths =
    ("spec" ∷ "superuserSecret" ∷ "name" ∷ [])
    ∷ ("spec" ∷ "bootstrap" ∷ "initdb" ∷ "secret" ∷ "name" ∷ [])
    ∷ ("spec" ∷ "bootstrap" ∷ "recovery" ∷ "secret" ∷ "name" ∷ [])
    ∷ ("spec" ∷ "bootstrap" ∷ "pg_basebackup" ∷ "secret" ∷ "name" ∷ [])
    ∷ ("spec" ∷ "certificates" ∷ "serverCASecret" ∷ [])
    ∷ ("spec" ∷ "certificates" ∷ "serverTLSSecret" ∷ [])
    ∷ ("spec" ∷ "certificates" ∷ "clientCASecret" ∷ [])
    ∷ ("spec" ∷ "certificates" ∷ "replicationTLSSecret" ∷ [])
    ∷ []

is_dedicated-free :
    (r : Resource) (secret : String)
    → is_dedicated r secret ≡ true
    → (path : List String) → Memᴰ path operator_paths
    → (r.fields.string_at path ≢ malformed) × (string_of (r.fields.string_at path) ≢ some secret)
unfolding is_dedicated
is_dedicated-free r secret h path m =
    refers-false secret (r.fields.string_at path)
      (any-false (λ x. refers secret (r.fields.string_at x)) operator_paths (not-true _ h) m)

-- an owner of the Secret that is the observed Cluster
pub record IsOwned (r : Resource) (owners : List Owner) : Type 0 where
  pub owner : Owner
  pub member : Memᴰ owner owners
  pub version : owner.api_version ≡ "postgresql.cnpg.io/v1"
  pub kind_is : owner.kind ≡ "Cluster"
  pub named : owner.name ≡ r.name
  pub same_uid : owner.uid ≡ r.uid
  pub identified : r.uid ≢ ""

is_current_owner-IsOwned :
    (r : Resource) (owners : List Owner) → is_current_owner r owners ≡ true → IsOwned r owners
unfolding is_current_owner
is_current_owner-IsOwned r owners h =
    let (identified, some_owner) = and-true _ _ h in
    let (o, member, matched) = any-true _ owners some_owner in
    record {
      owner = o;
      member = member;
      version = ground (arith, eq_iff o.api_version "postgresql.cnpg.io/v1");
      kind_is = ground (arith, eq_iff o.kind "Cluster");
      named = ground (arith, eq_iff o.name r.name);
      same_uid = ground (arith, eq_iff o.uid r.uid);
      identified = differs r.uid "" (not-true _ identified);
    }

module _ (reader : Option Reader) (namespace : String) (s : ProvisionedSource) where
  -- a ready hybrid source
  pub record IsHybridPublished : Type 0 where
    pub selected :
        IsSelected s.engine "document" "cnpg-hybrid" ⊎ IsSelected s.engine "graph" "cnpg-hybrid"
    pub reader_secret :
        (suffix : String)
        → Memᴰ suffix operator_suffixes
        → s.connection_secret_ref.name ≢ String.◌++◌ s.resource_ref.name suffix
    pub client : Reader
    pub configured : reader ≡ some client
    pub cluster : Resource
    pub read :
        client.get_source cluster_kind
          (record { namespace = namespace; name = s.resource_ref.name })
        ≡ found cluster
    pub kept : cluster.deleting ≡ false
    pub dedicated :
        (path : List String)
        → Memᴰ path operator_paths
        → (cluster.fields.string_at path ≢ malformed)
          × (string_of (cluster.fields.string_at path) ≢ some s.connection_secret_ref.name)
    pub profile : HasProfile cluster (engine_type s.engine)
    pub settled : IsSettled cluster
    pub secret : Secret
    pub published :
        client.get_secret (record { namespace = namespace; name = s.connection_secret_ref.name })
        ≡ found secret
    pub secret_kept : secret.deleting ≡ false
    pub owned : IsOwned cluster secret.owners
    pub capability : IsCapability secret cluster.generation (engine_type s.engine)

  is_hybrid_source-IsSelected :
      is_hybrid_source namespace s ≡ true
      → IsSelected s.engine "document" "cnpg-hybrid" ⊎ IsSelected s.engine "graph" "cnpg-hybrid"
  unfolding is_hybrid_source
  is_hybrid_source-IsSelected h = elim (Bool-cases (selects s.engine "document" "cnpg-hybrid")) [
    | inl document ↦ inl (selects-IsSelected s.engine "document" "cnpg-hybrid" document)
    | inr other ↦ inr (selects-IsSelected s.engine "graph" "cnpg-hybrid" (ground arith))
  ]

  is_hybrid_source-reader :
      is_hybrid_source namespace s ≡ true
      → is_reader_secret s.resource_ref.name s.connection_secret_ref.name ≡ true
  unfolding is_hybrid_source
  is_hybrid_source-reader h = ground arith

  checks-IsHybridPublished :
      (message : String) → hybrid_checks reader namespace s ≡ go message → IsHybridPublished
  unfolding hybrid_checks
  checks-IsHybridPublished message h =
      let (source, h1) = require-eq-go _ _ _ _ h in
      let (client, configured, h2) = >>=-eq-go (reader_or_stop reader) _ h1 in
      let (cluster, read, h3) = >>=-eq-go (read_or_stop _ _ _) _ h2 in
      let (kept, h4) = require-eq-go _ _ _ _ h3 in
      let (dedicated, h5) = require-eq-go _ _ _ _ h4 in
      let (profile, h6) = require-eq-go _ _ _ _ h5 in
      let (settled, h7) = require-eq-go _ _ _ _ h6 in
      let (secret, published, h8) = >>=-eq-go (read_or_stop _ _ _) _ h7 in
      let (secret_kept, h9) = require-eq-go _ _ _ _ h8 in
      let (owner, h10) = require-eq-go _ _ _ _ h9 in
      let (capability, _) = require-eq-go _ _ _ _ h10 in
      record {
        selected = is_hybrid_source-IsSelected source;
        reader_secret =
            λ suffix m. is_reader_secret-differs _ _ suffix (is_hybrid_source-reader source) m;
        client = client;
        configured = reader_or_stop-eq-go reader configured;
        cluster = cluster;
        read = read_or_stop-eq-go _ _ _ read;
        kept = not-true cluster.deleting kept;
        dedicated = is_dedicated-free cluster s.connection_secret_ref.name dedicated;
        profile = has_profile-HasProfile cluster (engine_type s.engine) profile;
        settled = cnpg_ready-IsSettled cluster settled;
        secret = secret;
        published = read_or_stop-eq-go _ _ _ published;
        secret_kept = not-true secret.deleting secret_kept;
        owned = is_current_owner-IsOwned cluster secret.owners owner;
        capability =
            is_publication-IsCapability secret cluster.generation (engine_type s.engine) capability;
      }

  -- A hybrid source is observed ready only if document or graph is selected, its Secret has no name
  -- that the operator itself writes, the Cluster was read, is kept and settled, refers to that Secret
  -- nowhere, declares and reports the same one of the two supported images, with age preloaded for a
  -- graph, and the Secret was read, is kept, has an owner with the kind, the name and the uid of the
  -- Cluster, and declares a read-only capability of the engine for the Cluster's current generation
  -- and a user that is neither postgres nor streaming_replica nor starts with pg_ or cnpg_.
  pub observe_hybrid-IsHybridPublished :
      (observe_hybrid reader namespace s).ready ≡ true → IsHybridPublished
  unfolding observe_hybrid
  observe_hybrid-IsHybridPublished h =
      let (message, ran) = conclude_checks-ready (hybrid_checks reader namespace s) h in
      checks-IsHybridPublished message ran
