-- ===== src/Provisioner/Sourced.antt =====
-- internal/provisioner/v1/observer.go, `Observe` and `crossplaneReady`: what a ready source shows.
use data_product_controller.Prelude.{
  String, ℤ, ◌≡◌, ◌≢◌, ◌⊎◌, Bool, true, false, not, ◌&&◌, Option, none, some, List, [], ◌∷◌, ◌==◌,
  string_eq, update, arith, eq_iff, Bool-cases, Option-cases, inl, inr, refl, sym, ap, subst,
  some_inj, Memᴰ,
}
use data_product_controller.Kube.{Failure, not_found, forbidden, unauthorized, Fetch, found, failed}
use data_product_controller.Api.{ProvisionedSource}
use data_product_controller.Provisioner.{
  Nested, malformed, absent, present, Status, Resource, Secret, GroupVersion, Reader, Crossplane,
  source_read_failure, is_current, string_of, holds, noted, all_noted, conditions_ready,
  crossplane_ready, same_connection, owned, owner_matches, Owner, after_secret, after_resource,
  after_mapping, configured, after_version, observe_provisioned,
}
use data_product_controller.Provider.Checks.{holds-string_of, any-true}

-- a condition of the name that is true and current
pub record Reports (generation : ℤ) (items : List (Option Status)) (name : String) : Type 0 where
  pub status : Status
  pub member : Memᴰ (some status) items
  pub named : string_of status.kind ≡ some name
  pub up : holds status.status "True" ≡ true
  pub current : is_current generation status.observed_generation ≡ true

Reports-tail :
    {generation : ℤ} {items : List (Option Status)} {name : String} (i : Option Status)
    → Reports generation items name
    → Reports generation (i ∷ items) name
Reports-tail i r = record {
  status = r.status;
  member = Memᴰ.tail r.member;
  named = r.named;
  up = r.up;
  current = r.current;
}

-- a round that goes on has noted nothing, or a condition that is true and current
noted-some :
    (generation : ℤ) (seen later : String → Bool) (c : Status) (r : Option String)
    → noted generation seen c r ≡ some later
    → (k : String) → later k ≡ true
    → (seen k ≡ true)
      ⊎ ((r ≡ some k)
          × (holds c.status "True" ≡ true)
          × (is_current generation c.observed_generation ≡ true))
unfolding noted
noted-some generation seen later c none h k up = cc
noted-some generation seen later c (some name) h k up =
    elim (Bool-cases (not (name == "Ready") && not (name == "Synced"))) [
      | inl other ↦ inl (subst (λ f. f k ≡ true) (sym (some_inj (rw other at h))) up)
      | inr named ↦ elim (Bool-cases (seen name)) [
        | inl again ↦ absurd (clash (rw (named, again) at h))
        | inr fresh ↦ elim (Bool-cases (holds c.status "True")) [
          | inr down ↦ absurd (clash (rw (named, fresh, down) at h))
          | inl good ↦ elim (Bool-cases (is_current generation c.observed_generation)) [
            | inr stale ↦ absurd (clash (rw (named, fresh, good, stale) at h))
            | inl current ↦
                at_name
                  (subst (λ f. f k ≡ true) (sym (some_inj (rw (named, fresh, good, current) at h)))
                    up)
                  good current
          ]
        ]
      ]
    ]
  where
    clash : ◌≢◌ {A = Option (String → Bool)} none (some later)
    clash x = cc

    at_name :
        update seen name true k ≡ true
        → holds c.status "True" ≡ true
        → is_current generation c.observed_generation ≡ true
        → (seen k ≡ true)
          ⊎ ((some name ≡ some k)
              × (holds c.status "True" ≡ true)
              × (is_current generation c.observed_generation ≡ true))
    at_name x good current = elim (Bool-cases (k == name)) [
      | inl same ↦ inr (ap some (sym ((eq_iff k name).0 same)), good, current)
      | inr other ↦ inl (rw other at x)
    ]

all_noted-true :
    (generation : ℤ) (seen : String → Bool) (items : List (Option Status)) (k : String)
    → all_noted generation (some seen) items ≡ true
    → (k ≡ "Ready") ⊎ (k ≡ "Synced")
    → (seen k ≡ true) ⊎ Reports generation items k
unfolding all_noted
all_noted-true generation seen [] k h (inl e) = inl (rw e (ground arith))
all_noted-true generation seen [] k h (inr e) = inl (rw e (ground arith))
all_noted-true generation seen (none ∷ items) k h e = cc
all_noted-true generation seen (some c ∷ items) k h e =
    elim (Option-cases (noted generation seen c (string_of c.kind))) [
      | inl stopped ↦ absurd (clash (subst (λ x. all_noted generation x items ≡ true) stopped h))
      | inr (later, went_on) ↦
          elim (all_noted-true generation later items k
            (subst (λ x. all_noted generation x items ≡ true) went_on h) e) [
              | inr found_later ↦ inr (Reports-tail (some c) found_later)
              | inl up ↦ elim (noted-some generation seen later c (string_of c.kind) went_on k up) [
                | inl old ↦ inl old
                | inr (named, good, current) ↦ inr (record {
                  status = c;
                  member = Memᴰ.head refl;
                  named = named;
                  up = good;
                  current = current;
                })
              ]
            ]
    ]
  where
    clash : all_noted generation none items ≢ true
    clash x = cc

-- both conditions of a resource that is ready
pub record IsReported (r : Resource) : Type 0 where
  pub observed : is_current r.generation r.observed_generation ≡ true
  pub items : List (Option Status)
  pub conditions : r.conditions ≡ present items
  pub ready : Reports r.generation items "Ready"
  pub synced : Reports r.generation items "Synced"

conditions_ready-Reports :
    (generation : ℤ) (n : Nested (List (Option Status)))
    → conditions_ready generation n ≡ true
    → (items : List (Option Status)) × (n ≡ present items)
      × Reports generation items "Ready"
      × Reports generation items "Synced"
unfolding conditions_ready
conditions_ready-Reports generation malformed h = cc
conditions_ready-Reports generation absent h = cc
conditions_ready-Reports generation (present items) h = (
  items,
  refl,
  noted_later (all_noted-true generation (λ _. false) items "Ready" h (inl refl)),
  noted_later (all_noted-true generation (λ _. false) items "Synced" h (inr refl)),
)
  where
    noted_later : {P : Type 0} → (false ≡ true) ⊎ P → P
    noted_later (inl e) = cc
    noted_later (inr p) = p

crossplane_ready-IsReported : (r : Resource) → crossplane_ready r ≡ true → IsReported r
unfolding crossplane_ready
crossplane_ready-IsReported r h =
    let (items, e, ready, synced) =
      conditions_ready-Reports r.generation r.conditions (ground arith) in
    record {
      observed = ground arith;
      items = items;
      conditions = e;
      ready = ready;
      synced = synced;
    }

-- an owner of the Secret that is the observed resource
pub record IsOwner (c : Crossplane) (version : GroupVersion) (r : Resource) (secret : Secret)
    : Type 0 where
  pub owner : Owner
  pub member : Memᴰ owner secret.owners
  pub owner_version : GroupVersion
  pub parsed : c.parse_group_version owner.api_version ≡ some owner_version
  pub versioned : owner_version.version ≢ ""
  pub same_group : owner_version.group ≡ version.group
  pub identified : r.uid ≢ ""
  pub same_uid : owner.uid ≡ r.uid
  pub same_name : owner.name ≡ r.name
  pub same_kind : owner.kind ≡ r.kind

owner_matches-IsOwner :
    (c : Crossplane) (version : GroupVersion) (r : Resource) (secret : Secret) (o : Owner)
    (v : Option GroupVersion)
    → Memᴰ o secret.owners
    → c.parse_group_version o.api_version ≡ v
    → owner_matches version r o v ≡ true
    → IsOwner c version r secret
unfolding owner_matches
owner_matches-IsOwner c version r secret o none m e h = cc
owner_matches-IsOwner c version r secret o (some v) m e h = record {
  owner = o;
  member = m;
  owner_version = v;
  parsed = e;
  versioned = λ x. ground (arith, eq_iff v.version "");
  same_group = ground (arith, eq_iff v.group version.group);
  identified = λ x. ground (arith, eq_iff r.uid "");
  same_uid = ground (arith, eq_iff o.uid r.uid);
  same_name = ground (arith, eq_iff o.name r.name);
  same_kind = ground (arith, eq_iff o.kind r.kind);
}

owned-IsOwner :
    (c : Crossplane) (version : GroupVersion) (r : Resource) (secret : Secret)
    → owned c version r secret ≡ true
    → IsOwner c version r secret
unfolding owned
owned-IsOwner c version r secret h =
    let (o, member, matched) = any-true _ secret.owners h in
    owner_matches-IsOwner c version r secret o (c.parse_group_version o.api_version) member refl
      matched

-- the connection that the resource writes is the product's
same_connection-here :
    (namespace name : String) (r : Resource)
    → same_connection namespace name r ≡ true
    → (string_of r.connection_name ≡ some name)
      × ((string_of r.connection_namespace ≡ some "")
          ⊎ (string_of r.connection_namespace ≡ some namespace))
unfolding same_connection
same_connection-here namespace name r h = (
  holds-string_of r.connection_name name (ground arith),
  elim (Bool-cases (holds r.connection_namespace "")) [
    | inl blank ↦ inl (holds-string_of r.connection_namespace "" blank)
    | inr other ↦ inr (holds-string_of r.connection_namespace namespace (ground arith))
  ],
)

-- what a source that is observed ready shows
pub record IsProvisioned (c : Crossplane) (namespace : String) (s : ProvisionedSource)
    : Type 0 where
  pub version : GroupVersion
  pub parsed : c.parse_group_version s.resource_ref.api_version ≡ some version
  pub adapter : s.adapter ≡ "crossplane/v1"
  pub reader : Reader
  pub configured : c.reader ≡ some reader
  pub resource : Resource
  pub read :
      reader.get_resource version s.resource_ref.kind
        (record { namespace = namespace; name = s.resource_ref.name })
      ≡ found resource
  pub kept : resource.deleting ≡ false
  pub reported : IsReported resource
  pub connection_named : string_of resource.connection_name ≡ some s.connection_secret_ref.name
  pub connection_here :
      (string_of resource.connection_namespace ≡ some "")
      ⊎ (string_of resource.connection_namespace ≡ some namespace)
  pub secret : Secret
  pub published :
      reader.get_secret (record { namespace = namespace; name = s.connection_secret_ref.name })
      ≡ found secret
  pub secret_kept : secret.deleting ≡ false
  pub owned_by : IsOwner c version resource secret

source_read_failure-unready : (e : Failure) → (source_read_failure e).ready ≢ true
unfolding source_read_failure
source_read_failure-unready forbidden h = cc
source_read_failure-unready unauthorized h = cc
source_read_failure-unready _ h = cc

module _ (c : Crossplane) where
  after_secret-ready :
      (version : GroupVersion) (r : Resource) (f : Fetch Secret)
      → (after_secret c version r f).ready ≡ true
      → (secret : Secret) × (f ≡ found secret)
        × (secret.deleting ≡ false)
        × (owned c version r secret ≡ true)
  unfolding after_secret
  after_secret-ready version r (failed not_found) h = cc
  after_secret-ready version r (failed e) h = absurd (source_read_failure-unready e h)
  after_secret-ready version r (found secret) h = (secret, refl, ground arith, ground arith)

  after_resource-ready :
      (namespace : String) (s : ProvisionedSource) (version : GroupVersion) (reader : Reader)
      (f : Fetch Resource)
      → (after_resource c namespace s version reader f).ready ≡ true
      → (r : Resource) × (f ≡ found r)
        × (r.deleting ≡ false)
        × (crossplane_ready r ≡ true)
        × (same_connection namespace s.connection_secret_ref.name r ≡ true)
        × ((after_secret c version r (
              reader.get_secret
                (record { namespace = namespace; name = s.connection_secret_ref.name }))).ready
            ≡ true)
  unfolding after_resource
  after_resource-ready namespace s version reader (failed not_found) h = cc
  after_resource-ready namespace s version reader (failed e) h =
      absurd (source_read_failure-unready e h)
  after_resource-ready namespace s version reader (found r) h =
      (r, refl, ground arith, ground arith, ground arith, ground arith)

  configured-ready :
      (namespace : String) (s : ProvisionedSource) (version : GroupVersion) (r : Option Reader)
      (m : Option (GroupVersion → String → Option Bool))
      → (configured c namespace s version r m).ready ≡ true
      → (reader : Reader) × (r ≡ some reader)
        × ((after_resource c namespace s version reader (
              reader.get_resource version s.resource_ref.kind
                (record { namespace = namespace; name = s.resource_ref.name }))).ready
            ≡ true)
  unfolding configured after_mapping
  configured-ready namespace s version none m h = cc
  configured-ready namespace s version (some reader) none h = cc
  configured-ready namespace s version (some reader) (some mapping) h =
      (reader, refl, mapped (mapping version s.resource_ref.kind) h)
    where
      mapped :
          (x : Option Bool)
          → (after_mapping c namespace s version reader x).ready ≡ true
          → (after_resource c namespace s version reader (
              reader.get_resource version s.resource_ref.kind
                (record { namespace = namespace; name = s.resource_ref.name }))).ready
            ≡ true
      mapped none x = cc
      mapped (some true) x = x
      mapped (some false) x = cc

  after_version-ready :
      (namespace : String) (s : ProvisionedSource) (v : Option GroupVersion)
      → (after_version c namespace s v).ready ≡ true
      → (version : GroupVersion) × (v ≡ some version)
        × (s.adapter ≡ "crossplane/v1")
        × ((configured c namespace s version c.reader c.mapper).ready ≡ true)
  unfolding after_version
  after_version-ready namespace s none h = cc
  after_version-ready namespace s (some version) h =
      (version, refl, ground (arith, eq_iff s.adapter "crossplane/v1"), ground arith)

  -- A source is observed ready only if its adapter is crossplane/v1, and the referenced resource was
  -- read, is not being deleted, reports Ready and Synced as true without a stale generation, names
  -- the product's connection Secret in the product's namespace or in none, and the Secret was read, is
  -- not being deleted and has an owner with the uid, name, kind and API group of that resource.
  pub observe_provisioned-ready :
      (namespace : String) (s : ProvisionedSource)
      → (observe_provisioned c namespace s).ready ≡ true
      → IsProvisioned c namespace s
  unfolding observe_provisioned
  observe_provisioned-ready namespace s h =
      let (version, parsed, adapter, a) = after_version-ready namespace s _ h in
      let (reader, at_reader, b) = configured-ready namespace s version c.reader c.mapper a in
      let (r, read, kept, up, connection, d) =
        after_resource-ready namespace s version reader _ b in
      let (connection_named, connection_here) =
        same_connection-here namespace s.connection_secret_ref.name r connection in
      let (secret, published, secret_kept, owner) = after_secret-ready version r _ d in
      record {
        version = version;
        parsed = parsed;
        adapter = adapter;
        reader = reader;
        configured = at_reader;
        resource = r;
        read = read;
        kept = kept;
        reported = crossplane_ready-IsReported r up;
        connection_named = connection_named;
        connection_here = connection_here;
        secret = secret;
        published = published;
        secret_kept = secret_kept;
        owned_by = owned-IsOwner c version r secret owner;
      }
