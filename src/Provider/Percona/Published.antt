-- ===== src/Provider/Percona/Published.antt =====
-- internal/provider/v1/percona.go, `Observe` and `perconaReadiness`: what a ready Document source shows.
use data_product_controller.Prelude.{
  String, ℤ, pos, ◌≡◌, ◌≢◌, Bool, true, false, not, ◌&&◌, Option, none, some, List, [], ◌∷◌, arith,
  eq_iff, ◌==◌, string_eq, refl, ◌⊎◌, inl, inr, leb_ℤ, Memᴰ,
}
use data_product_controller.Kube.{found}
use data_product_controller.Api.{ProvisionedSource}
use data_product_controller.Provisioner.{
  Nested, malformed, absent, present, Owner, is_current, holds, string_of,
}
use data_product_controller.Provider.{
  Node, Resource, Secret, Reader, go, read_or_stop, reader_or_stop, selects, counts, int_of,
}
use data_product_controller.Provider.Checks.{
  >>=-eq-go, require-eq-go, read_or_stop-eq-go, reader_or_stop-eq-go, conclude_checks-ready,
  IsSelected, selects-IsSelected, any-true, not-true, holds-string_of,
}
use data_product_controller.Provider.Percona.{
  percona_kind, is_false, require_valid, require_ready, not_paused, one_replica, is_plain_replica,
  is_none_listed, is_named, positive_size, percona_readiness, is_percona_owner, is_percona_source,
  percona_checks, observe_percona, system_publication,
}
use data_product_controller.Provider.Percona.Users.{
  IsDedicated, is_application_password-IsDedicated,
}

require_valid-eq-go : (b : Bool) (u : Unit {0}) → require_valid b ≡ go u → b ≡ true
unfolding require_valid
require_valid-eq-go true u h = refl
require_valid-eq-go false u h = cc

not_paused-eq-go : (n : Nested Bool) (u : Unit {0}) → not_paused n ≡ go u → is_false n ≡ true
unfolding not_paused is_false
not_paused-eq-go malformed u h = cc
not_paused-eq-go absent u h = refl
not_paused-eq-go (present false) u h = refl
not_paused-eq-go (present true) u h = cc

one_replica-eq-go :
    (n : Nested (List (Option Node))) (replica : Node)
    → one_replica n ≡ go replica
    → n ≡ present (some replica ∷ [])
unfolding one_replica
one_replica-eq-go malformed r h = cc
one_replica-eq-go absent r h = cc
one_replica-eq-go (present []) r h = cc
one_replica-eq-go (present (none ∷ [])) r h = cc
one_replica-eq-go (present (some x ∷ [])) r h = cc
one_replica-eq-go (present (none ∷ y ∷ rest)) r h = cc
one_replica-eq-go (present (some x ∷ y ∷ rest)) r h = cc

positive_size-eq-go :
    (o : Option ℤ) (n : ℤ) → positive_size o ≡ go n → (o ≡ some n) × (leb_ℤ n (pos 0) ≡ false)
unfolding positive_size
positive_size-eq-go none n h = cc
positive_size-eq-go (some k) n h = ground arith

require_ready-eq-go : (b : Bool) (u : Unit {0}) → require_ready b ≡ go u → b ≡ true
unfolding require_ready
require_ready-eq-go true u h = refl
require_ready-eq-go false u h = cc

-- a flag that is left out or false
abbrev pub IsUnset : Nested Bool → Type 0
IsUnset n = (n ≡ absent) ⊎ (n ≡ present false)

-- a named replica set without arbiters, non-voting, hidden or external members
pub record IsPlain (replica : Node) : Type 0 where
  pub no_arbiter : IsUnset (replica.fields.bool_at ("arbiter" ∷ "enabled" ∷ []))
  pub no_nonvoting : IsUnset (replica.fields.bool_at ("nonvoting" ∷ "enabled" ∷ []))
  pub no_hidden : IsUnset (replica.fields.bool_at ("hidden" ∷ "enabled" ∷ []))
  pub no_external :
      (replica.slice_at ("externalNodes" ∷ []) ≡ absent)
      ⊎ (replica.slice_at ("externalNodes" ∷ []) ≡ present [])
  pub name : String
  pub at_name : replica.fields.string_at ("name" ∷ []) ≡ present name
  pub named : name ≢ ""

-- a managed replica set of the supported version that is up
pub record IsRunning (r : Resource) : Type 0 where
  pub version : string_of (r.fields.string_at ("spec" ∷ "crVersion" ∷ [])) ≡ some "1.23.0"
  pub active : IsUnset (r.fields.bool_at ("spec" ∷ "pause" ∷ []))
  pub managed : IsUnset (r.fields.bool_at ("spec" ∷ "unmanaged" ∷ []))
  pub unsharded : IsUnset (r.fields.bool_at ("spec" ∷ "sharding" ∷ "enabled" ∷ []))
  pub identified : r.uid ≢ ""
  pub replica : Node
  pub one : r.slice_at ("spec" ∷ "replsets" ∷ []) ≡ present (some replica ∷ [])
  pub plain : IsPlain replica
  pub desired : ℤ
  pub declared : int_of (replica.fields.int_at ("size" ∷ [])) ≡ some desired
  pub positive : leb_ℤ desired (pos 0) ≡ false
  pub state : string_of (r.fields.string_at ("status" ∷ "state" ∷ [])) ≡ some "ready"
  pub current :
      is_current r.generation (r.fields.int_at ("status" ∷ "observedGeneration" ∷ [])) ≡ true
  pub size : counts (r.fields.int_at ("status" ∷ "size" ∷ [])) desired ≡ true
  pub ready : counts (r.fields.int_at ("status" ∷ "ready" ∷ [])) desired ≡ true

is_false-IsUnset : (n : Nested Bool) → is_false n ≡ true → IsUnset n
unfolding is_false
is_false-IsUnset malformed h = cc
is_false-IsUnset absent h = inl refl
is_false-IsUnset (present false) h = inr refl
is_false-IsUnset (present true) h = cc

is_none_listed-empty :
    {A : Type 0} (n : Nested (List A)) → is_none_listed n ≡ true → (n ≡ absent) ⊎ (n ≡ present [])
unfolding is_none_listed
is_none_listed-empty malformed h = cc
is_none_listed-empty absent h = inl refl
is_none_listed-empty (present []) h = inr refl
is_none_listed-empty (present (x ∷ xs)) h = cc

is_named-present :
    (n : Nested String) → is_named n ≡ true → (name : String) × (n ≡ present name) × (name ≢ "")
unfolding is_named holds
is_named-present malformed h = cc
is_named-present absent h = cc
is_named-present (present name) h = (name, refl, λ e. ground (arith, eq_iff name ""))

is_plain_replica-IsPlain : (replica : Node) → is_plain_replica replica ≡ true → IsPlain replica
unfolding is_plain_replica
is_plain_replica-IsPlain replica h =
    let (name, at_name, named) = is_named-present _ (ground arith) in
    record {
      no_arbiter = is_false-IsUnset _ (ground arith);
      no_nonvoting = is_false-IsUnset _ (ground arith);
      no_hidden = is_false-IsUnset _ (ground arith);
      no_external = is_none_listed-empty _ (ground arith);
      name = name;
      at_name = at_name;
      named = named;
    }

-- a source that the operator manages, as one replica set
managed-IsUnset :
    (r : Resource) (u s : Nested Bool)
    → (not (r.uid == "") && (is_false u && is_false s)) ≡ true
    → (r.uid ≢ "") × IsUnset u × IsUnset s
managed-IsUnset r u s h = (
  (λ e. ground (arith, eq_iff r.uid "")),
  is_false-IsUnset u (ground arith),
  is_false-IsUnset s (ground arith),
)

pub percona_readiness-IsRunning :
    (r : Resource) (u : Unit {0}) → percona_readiness r ≡ go u → IsRunning r
unfolding percona_readiness
percona_readiness-IsRunning r u h =
    let (version, h1) = require-eq-go _ _ _ _ h in
    let (p, paused, h2) = >>=-eq-go (not_paused _) _ h1 in
    let (v, valid, h3) = >>=-eq-go (require_valid _) _ h2 in
    let (replica, one, h4) = >>=-eq-go (one_replica _) _ h3 in
    let (w, plain, h5) = >>=-eq-go (require_valid _) _ h4 in
    let (desired, sized, h6) = >>=-eq-go (positive_size _) _ h5 in
    let (_, h7) = require-eq-go _ _ _ _ h6 in
    let up = require_ready-eq-go _ u h7 in
    let (identified, managed, unsharded) = managed-IsUnset r _ _ (require_valid-eq-go _ v valid) in
    let (declared, positive) = positive_size-eq-go _ desired sized in
    record {
      version = holds-string_of _ "1.23.0" version;
      active = is_false-IsUnset _ (not_paused-eq-go _ p paused);
      managed = managed;
      unsharded = unsharded;
      identified = identified;
      replica = replica;
      one = one_replica-eq-go _ replica one;
      plain = is_plain_replica-IsPlain replica (require_valid-eq-go _ w plain);
      desired = desired;
      declared = declared;
      positive = positive;
      state = holds-string_of _ "ready" (ground arith);
      current = ground arith;
      size = ground arith;
      ready = ground arith;
    }

module _ (reader : Option Reader) (namespace : String) (s : ProvisionedSource) where
  -- a ready Document source
  pub record IsPerconaPublished : Type 0 where
    pub selected : IsSelected s.engine "document" "native"
    pub not_system : s.connection_secret_ref.name ≢ system_publication
    pub client : Reader
    pub configured : reader ≡ some client
    pub cluster : Resource
    pub read :
        client.get_source percona_kind
          (record { namespace = namespace; name = s.resource_ref.name })
        ≡ found cluster
    pub kept : cluster.deleting ≡ false
    pub running : IsRunning cluster
    pub dedicated : IsDedicated cluster s.connection_secret_ref.name
    pub secret : Secret
    pub published :
        client.get_secret (record { namespace = namespace; name = s.connection_secret_ref.name })
        ≡ found secret
    pub secret_kept : secret.deleting ≡ false
    pub owner : Owner
    pub member : Memᴰ owner secret.owners
    pub owner_version : owner.api_version ≡ "psmdb.percona.com/v1"
    pub owner_kind : owner.kind ≡ "PerconaServerMongoDB"
    pub same_name : owner.name ≡ cluster.name
    pub same_uid : owner.uid ≡ cluster.uid

  is_percona_source-selects :
      is_percona_source namespace s ≡ true → selects s.engine "document" "native" ≡ true
  unfolding is_percona_source
  is_percona_source-selects h = ground arith

  is_percona_source-secret :
      is_percona_source namespace s ≡ true → s.connection_secret_ref.name ≢ system_publication
  unfolding is_percona_source
  is_percona_source-secret h e =
      ground (arith, eq_iff s.connection_secret_ref.name system_publication)

  is_percona_owner-current :
      (r : Resource) (o : Owner)
      → is_percona_owner r o ≡ true
      → (o.api_version ≡ "psmdb.percona.com/v1")
        × (o.kind ≡ "PerconaServerMongoDB")
        × (o.name ≡ r.name)
        × (o.uid ≡ r.uid)
  unfolding is_percona_owner
  is_percona_owner-current r o h = (
    ground (arith, eq_iff o.api_version "psmdb.percona.com/v1"),
    ground (arith, eq_iff o.kind "PerconaServerMongoDB"),
    ground (arith, eq_iff o.name r.name),
    ground (arith, eq_iff o.uid r.uid),
  )

  checks-IsPerconaPublished :
      (message : String) → percona_checks reader namespace s ≡ go message → IsPerconaPublished
  unfolding percona_checks
  checks-IsPerconaPublished message h =
      let (source, h1) = require-eq-go _ _ _ _ h in
      let (client, configured, h2) = >>=-eq-go (reader_or_stop reader) _ h1 in
      let (cluster, read, h3) = >>=-eq-go (read_or_stop _ _ _) _ h2 in
      let (kept, h4) = require-eq-go _ _ _ _ h3 in
      let (u, running, h5) = >>=-eq-go (percona_readiness cluster) _ h4 in
      let (dedicated, h6) = require-eq-go _ _ _ _ h5 in
      let (secret, published, h7) = >>=-eq-go (read_or_stop _ _ _) _ h6 in
      let (secret_kept, h8) = require-eq-go _ _ _ _ h7 in
      let (owned, _) = require-eq-go _ _ _ _ h8 in
      let (o, member, matched) = any-true (is_percona_owner cluster) secret.owners owned in
      let (version, kind, name, uid) = is_percona_owner-current cluster o matched in
      record {
        selected =
            selects-IsSelected s.engine "document" "native" (is_percona_source-selects source);
        not_system = is_percona_source-secret source;
        client = client;
        configured = reader_or_stop-eq-go reader configured;
        cluster = cluster;
        read = read_or_stop-eq-go _ _ _ read;
        kept = not-true cluster.deleting kept;
        running = percona_readiness-IsRunning cluster u running;
        dedicated =
            is_application_password-IsDedicated cluster s.connection_secret_ref.name dedicated;
        secret = secret;
        published = read_or_stop-eq-go _ _ _ published;
        secret_kept = not-true secret.deleting secret_kept;
        owner = o;
        member = member;
        owner_version = version;
        owner_kind = kind;
        same_name = name;
        same_uid = uid;
      }

  -- A Document source is observed ready only if document/native is selected, the resource was read,
  -- is kept, managed, unsharded and not paused, runs the supported version as one named replica set
  -- of the declared positive size that is up, without arbiter, non-voting, hidden or external
  -- members, the Secret is the password of exactly one declared user, whose roles are all `read` on
  -- application databases, and it was read, is kept and has an owner with the kind, the name and the
  -- uid of the resource.
  pub observe_percona-IsPerconaPublished :
      (observe_percona reader namespace s).ready ≡ true → IsPerconaPublished
  unfolding observe_percona
  observe_percona-IsPerconaPublished h =
      let (message, ran) = conclude_checks-ready (percona_checks reader namespace s) h in
      checks-IsPerconaPublished message ran
