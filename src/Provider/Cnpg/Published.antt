-- ===== src/Provider/Cnpg/Published.antt =====
-- internal/provider/v1/cnpg.go, `Observe`: what a ready SQL source shows.
use data_product_controller.Prelude.{
  String, ◌≡◌, ◌≢◌, true, false, Option, none, some, List, [], ◌∷◌, refl, arith, eq_iff, string_eq,
  Memᴰ,
}
use Prim.Native.String
use data_product_controller.Kube.{found}
use data_product_controller.Api.{ProvisionedSource}
use data_product_controller.Provisioner.{absent, Owner, GroupVersion}
use data_product_controller.Provider.{
  Resource, Secret, Reader, go, read_or_stop, reader_or_stop, selects,
}
use data_product_controller.Provider.Checks.{
  >>=-eq-go, require-eq-go, read_or_stop-eq-go, reader_or_stop-eq-go, conclude_checks-ready,
  IsSelected, selects-IsSelected, any-true, not-true, is_omitted-absent,
}
use data_product_controller.Provider.Cnpg.{
  cluster_kind, generated_secret, is_owner, owned_by, is_cnpg_source, cnpg_checks, observe_cnpg,
}
use data_product_controller.Provider.Cnpg.Ready.{IsSettled, cnpg_ready-IsSettled}

module _ (parse : String → Option GroupVersion) (reader : Option Reader) (namespace : String)
    (s : ProvisionedSource) where
  -- an owner of the Secret that is the observed Cluster
  pub record IsOwned (r : Resource) (owners : List Owner) : Type 0 where
    pub owner : Owner
    pub member : Memᴰ owner owners
    pub version : GroupVersion
    pub parsed : parse owner.api_version ≡ some version
    pub operator : version.group ≡ "postgresql.cnpg.io"
    pub kind_is : owner.kind ≡ "Cluster"
    pub named : owner.name ≡ r.name
    pub same_uid : owner.uid ≡ r.uid
    pub identified : r.uid ≢ ""

  -- a ready SQL source
  pub record IsPublished : Type 0 where
    pub selected : IsSelected s.engine "sql" "native"
    pub generated_name : s.connection_secret_ref.name ≡ String.◌++◌ s.resource_ref.name "-app"
    pub client : Reader
    pub configured : reader ≡ some client
    pub cluster : Resource
    pub read :
        client.get_source cluster_kind
          (record { namespace = namespace; name = s.resource_ref.name })
        ≡ found cluster
    pub kept : cluster.deleting ≡ false
    pub initdb_generated :
        cluster.fields.field_at ("spec" ∷ "bootstrap" ∷ "initdb" ∷ "secret" ∷ []) ≡ absent
    pub recovery_generated :
        cluster.fields.field_at ("spec" ∷ "bootstrap" ∷ "recovery" ∷ "secret" ∷ []) ≡ absent
    pub pg_basebackup_generated :
        cluster.fields.field_at ("spec" ∷ "bootstrap" ∷ "pg_basebackup" ∷ "secret" ∷ []) ≡ absent
    pub settled : IsSettled cluster
    pub secret : Secret
    pub published :
        client.get_secret (record { namespace = namespace; name = s.connection_secret_ref.name })
        ≡ found secret
    pub secret_kept : secret.deleting ≡ false
    pub owned : IsOwned cluster secret.owners

  is_owner-named :
      (r : Resource) (o : Owner) (v : Option GroupVersion)
      → is_owner r o v ≡ true
      → (version : GroupVersion) × (v ≡ some version)
        × (version.group ≡ "postgresql.cnpg.io")
        × (o.kind ≡ "Cluster")
        × (o.name ≡ r.name)
        × (o.uid ≡ r.uid)
        × (r.uid ≢ "")
  unfolding is_owner
  is_owner-named r o none h = cc
  is_owner-named r o (some v) h = (
    v,
    refl,
    ground (arith, eq_iff v.group "postgresql.cnpg.io"),
    ground (arith, eq_iff o.kind "Cluster"),
    ground (arith, eq_iff o.name r.name),
    ground (arith, eq_iff o.uid r.uid),
    (λ e. ground (arith, eq_iff r.uid "")),
  )

  owned_by-IsOwned :
      (r : Resource) (owners : List Owner) → owned_by parse r owners ≡ true → IsOwned r owners
  unfolding owned_by
  owned_by-IsOwned r owners h =
      let (o, member, matched) = any-true _ owners h in
      let (v, parsed, operator, kind, named, uid, identified) =
        is_owner-named r o (parse o.api_version) matched in
      record {
        owner = o;
        member = member;
        version = v;
        parsed = parsed;
        operator = operator;
        kind_is = kind;
        named = named;
        same_uid = uid;
        identified = identified;
      }

  is_cnpg_source-selects :
      is_cnpg_source namespace s ≡ true → selects s.engine "sql" "native" ≡ true
  unfolding is_cnpg_source
  is_cnpg_source-selects h = ground arith

  is_cnpg_source-named :
      is_cnpg_source namespace s ≡ true
      → s.connection_secret_ref.name ≡ String.◌++◌ s.resource_ref.name "-app"
  unfolding is_cnpg_source
  is_cnpg_source-named h =
      ground (arith, eq_iff s.connection_secret_ref.name (String.◌++◌ s.resource_ref.name "-app"))

  -- the three places of a Secret that is not generated are left out
  generated_secret-absent :
      (r : Resource)
      → generated_secret r ≡ true
      → (r.fields.field_at ("spec" ∷ "bootstrap" ∷ "initdb" ∷ "secret" ∷ []) ≡ absent)
        × (r.fields.field_at ("spec" ∷ "bootstrap" ∷ "recovery" ∷ "secret" ∷ []) ≡ absent)
        × (r.fields.field_at ("spec" ∷ "bootstrap" ∷ "pg_basebackup" ∷ "secret" ∷ []) ≡ absent)
  unfolding generated_secret
  generated_secret-absent r h = (
    is_omitted-absent _ (ground arith),
    is_omitted-absent _ (ground arith),
    is_omitted-absent _ (ground arith),
  )

  checks-IsPublished :
      (message : String) → cnpg_checks parse reader namespace s ≡ go message → IsPublished
  unfolding cnpg_checks
  checks-IsPublished message h =
      let (source, h1) = require-eq-go _ _ _ _ h in
      let (client, configured, h2) = >>=-eq-go (reader_or_stop reader) _ h1 in
      let (cluster, read, h3) = >>=-eq-go (read_or_stop _ _ _) _ h2 in
      let (kept, h4) = require-eq-go _ _ _ _ h3 in
      let (generated, h5) = require-eq-go _ _ _ _ h4 in
      let (settled, h6) = require-eq-go _ _ _ _ h5 in
      let (initdb, recovery, pg_basebackup) = generated_secret-absent cluster generated in
      let (secret, published, h7) = >>=-eq-go (read_or_stop _ _ _) _ h6 in
      let (secret_kept, h8) = require-eq-go _ _ _ _ h7 in
      let (owned, h9) = require-eq-go _ _ _ _ h8 in
      record {
        selected = selects-IsSelected s.engine "sql" "native" (is_cnpg_source-selects source);
        client = client;
        configured = reader_or_stop-eq-go reader configured;
        cluster = cluster;
        read = read_or_stop-eq-go _ _ _ read;
        kept = not-true cluster.deleting kept;
        generated_name = is_cnpg_source-named source;
        initdb_generated = initdb;
        recovery_generated = recovery;
        pg_basebackup_generated = pg_basebackup;
        settled = cnpg_ready-IsSettled cluster settled;
        secret = secret;
        published = read_or_stop-eq-go _ _ _ published;
        secret_kept = not-true secret.deleting secret_kept;
        owned = owned_by-IsOwned cluster secret.owners owned;
      }

  -- A SQL source is observed ready only if sql/native is selected, its Secret has the name that the
  -- operator generates, the Cluster was read, is not being deleted, declares no Secret of its own for
  -- initdb, recovery or pg_basebackup and is settled, and the Secret was read, is not being deleted
  -- and has an owner that is a Cluster of the operator's API with the name and the uid of this one.
  pub observe_cnpg-IsPublished : (observe_cnpg parse reader namespace s).ready ≡ true → IsPublished
  unfolding observe_cnpg
  observe_cnpg-IsPublished h =
      let (message, ran) = conclude_checks-ready (cnpg_checks parse reader namespace s) h in
      checks-IsPublished message ran
