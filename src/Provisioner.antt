-- ===== src/Provisioner.antt =====
-- internal/provisioner/v1/observer.go: the observation of a Crossplane resource and its connection
-- Secret. A resource is unstructured, so each nested read may be malformed, absent or present; the
-- reader, the mapper and the parser of group versions are parameters.
pub mod Sourced
pub mod Sample
mod Tests
use data_product_controller.Prelude.{
  String, ℤ, Bool, true, false, not, ◌&&◌, ◌||◌, Option, none, some, List, [], ◌∷◌, if◌then◌else◌,
  ◌==◌, string_eq, int_eq, update, any,
}
use data_product_controller.Kube.{
  ObjectKey, Failure, not_found, forbidden, unauthorized, Fetch, found, failed,
}
use data_product_controller.Api.{ProvisionedSource}
use data_product_controller.Connector.{Observation}

-- a nested read of an unstructured object
pub data Nested (A : Type 0) : Type 0 where
  malformed : Nested A
  absent : Nested A
  present : A → Nested A

pub record Status : Type 0 where
  pub kind : Nested String
  pub status : Nested String
  pub observed_generation : Nested ℤ

-- an element of status.conditions: `none` is not an object
pub record Resource : Type 0 where
  pub uid : String
  pub name : String
  pub kind : String
  pub generation : ℤ
  pub deleting : Bool
  pub observed_generation : Nested ℤ
  pub conditions : Nested (List (Option Status))
  pub connection_name : Nested String
  pub connection_namespace : Nested String

pub record Owner : Type 0 where
  pub api_version : String
  pub kind : String
  pub name : String
  pub uid : String

pub record Secret : Type 0 where
  pub deleting : Bool
  pub owners : List Owner

pub record GroupVersion : Type 0 where
  pub group : String
  pub version : String

pub record Reader : Type 0 where
  pub get_resource : GroupVersion → String → ObjectKey → Fetch Resource
  pub get_secret : ObjectKey → Fetch Secret

-- Crossplane; `mapper` says whether the mapped scope is the namespace
pub record Crossplane : Type 0 where
  pub reader : Option Reader
  pub mapper : Option (GroupVersion → String → Option Bool)
  pub parse_group_version : String → Option GroupVersion

pub source_unavailable : String → String → Observation
source_unavailable reason message = record { ready = false; reason = reason; message = message }

abbrev pub source_ready : Observation
source_ready = record {
  ready = true;
  reason = "SourceReady";
  message = "The provisioner is ready and its connection Secret is published.";
}

pub source_read_failure : Failure → Observation
unfolding source_unavailable
source_read_failure forbidden =
    source_unavailable "SourceAccessDenied"
      "Grant the controller get access to the referenced resource and connection Secret in this namespace."
source_read_failure unauthorized =
    source_unavailable "SourceAccessDenied"
      "Grant the controller get access to the referenced resource and connection Secret in this namespace."
source_read_failure _ =
    source_unavailable "SourceUnavailable"
      "The source could not be observed; check API availability and controller access."

-- an optional generation that is current
unfoldable pub is_current : ℤ → Nested ℤ → Bool
is_current generation malformed = false
is_current generation absent = true
is_current generation (present g) = g == generation

-- a nested string, which is empty where it is absent
unfoldable pub string_of : Nested String → Option String
string_of malformed = none
string_of absent = some ""
string_of (present s) = some s

-- `err != nil || value != wanted` is false
unfoldable pub holds : Nested String → String → Bool
holds malformed wanted = false
holds absent wanted = "" == wanted
holds (present s) wanted = s == wanted

-- one round of the loop over the conditions behind the read of the type: `none` is `return false`
pub noted : ℤ → (String → Bool) → Status → Option String → Option (String → Bool)
unfolding is_current holds
noted generation seen c none = none
noted generation seen c (some name) =
    if not (name == "Ready") && not (name == "Synced")
    then some seen
    else if seen name
    then none
    else if not (holds c.status "True")
    then none
    else if not (is_current generation c.observed_generation)
    then none
    else some (update seen name true)

-- the loop over the conditions, and what is returned behind it
pub all_noted : ℤ → Option (String → Bool) → List (Option Status) → Bool
unfolding noted string_of
all_noted generation none items = false
all_noted generation (some seen) [] = seen "Ready" && seen "Synced"
all_noted generation (some seen) (none ∷ rest) = false
all_noted generation (some seen) (some c ∷ rest) =
    all_noted generation (noted generation seen c (string_of c.kind)) rest

pub conditions_ready : ℤ → Nested (List (Option Status)) → Bool
unfolding all_noted
conditions_ready generation malformed = false
conditions_ready generation absent = false
conditions_ready generation (present items) = all_noted generation (some (λ _. false)) items

-- crossplaneReady
pub crossplane_ready : Resource → Bool
unfolding is_current conditions_ready
crossplane_ready r =
    is_current r.generation r.observed_generation && conditions_ready r.generation r.conditions

-- the connection that the resource writes
pub same_connection : String → String → Resource → Bool
unfolding holds
same_connection namespace name r =
    holds r.connection_name name
    && (holds r.connection_namespace "" || holds r.connection_namespace namespace)

-- one round of the loop over the owners
pub owner_matches : GroupVersion → Resource → Owner → Option GroupVersion → Bool
owner_matches version r owner none = false
owner_matches version r owner (some v) =
    not (v.version == "")
    && (v.group == version.group
        && (not (r.uid == "")
            && (owner.uid == r.uid && (owner.name == r.name && owner.kind == r.kind))))

module _ (c : Crossplane) where
  pub owned : GroupVersion → Resource → Secret → Bool
  unfolding owner_matches
  owned version r secret =
      any (λ owner. owner_matches version r owner (c.parse_group_version owner.api_version))
        secret.owners

  pub after_secret : GroupVersion → Resource → Fetch Secret → Observation
  unfolding owned source_unavailable source_read_failure
  after_secret version r (failed not_found) =
      source_unavailable "ConnectionNotPublished"
        "The provisioner must publish the referenced connection Secret in this product's namespace."
  after_secret version r (failed e) = source_read_failure e
  after_secret version r (found secret) =
      if secret.deleting
      then source_unavailable "ConnectionNotPublished"
          "The connection Secret is being deleted; wait for the provisioner to republish it."
      else if not (owned version r secret)
      then source_unavailable "ConnectionOwnerMismatch"
          "The connection Secret must belong to the current provisioner resource; wait for its publisher to reconcile."
      else source_ready

  pub after_resource :
      String → ProvisionedSource → GroupVersion → Reader → Fetch Resource → Observation
  unfolding after_secret crossplane_ready same_connection source_unavailable source_read_failure
  after_resource namespace s version reader (failed not_found) =
      source_unavailable "SourceNotFound"
        "Create the referenced provisioner resource in this product's namespace."
  after_resource namespace s version reader (failed e) = source_read_failure e
  after_resource namespace s version reader (found r) =
      if r.deleting
      then source_unavailable "SourceDeleting"
          "The provisioner resource is being deleted; restore or replace the source reference."
      else if not (crossplane_ready r)
      then source_unavailable "SourceNotReady"
          "The provisioner must report Ready=True and Synced=True; inspect its conditions for details."
      else if not (same_connection namespace s.connection_secret_ref.name r)
      then source_unavailable "ConnectionReferenceMismatch"
          "The provisioner's connection Secret reference must match this product's same-namespace connection reference."
      else after_secret version r (
          reader.get_secret (record { namespace = namespace; name = s.connection_secret_ref.name }))

  pub after_mapping : String → ProvisionedSource → GroupVersion → Reader → Option Bool → Observation
  unfolding after_resource source_unavailable
  after_mapping namespace s version reader none =
      source_unavailable "SourceAPIUnavailable"
        "Install the referenced provisioner's API and allow discovery before retrying."
  after_mapping namespace s version reader (some namespaced) =
      if not namespaced
      then source_unavailable "SourceScopeUnsupported"
          "The referenced provisioner resource must be namespaced."
      else after_resource namespace s version reader (
          reader.get_resource version s.resource_ref.kind
            (record { namespace = namespace; name = s.resource_ref.name }))

  pub configured :
      String
      → ProvisionedSource
      → GroupVersion
      → Option Reader
      → Option (GroupVersion → String → Option Bool)
      → Observation
  unfolding after_mapping source_unavailable
  configured namespace s version (some reader) (some mapping) =
      after_mapping namespace s version reader (mapping version s.resource_ref.kind)
  configured namespace s version _ _ =
      source_unavailable "SourceUnavailable"
        "The provisioner reader is unavailable; check controller configuration."

  pub invalid_source : Observation
  unfolding source_unavailable
  invalid_source =
      source_unavailable "SourceInvalid"
        "Use the crossplane/v1 adapter with a namespaced custom-resource reference and connection Secret."

  pub after_version : String → ProvisionedSource → Option GroupVersion → Observation
  unfolding configured invalid_source
  after_version namespace s none = invalid_source
  after_version namespace s (some version) =
      if version.group == ""
        || (not (s.adapter == "crossplane/v1")
            || (namespace == ""
                || (s.resource_ref.kind == ""
                    || (s.resource_ref.name == "" || s.connection_secret_ref.name == ""))))
      then invalid_source
      else configured namespace s version c.reader c.mapper

  -- Observe
  pub observe_provisioned : String → ProvisionedSource → Observation
  unfolding after_version
  observe_provisioned namespace s =
      after_version namespace s (c.parse_group_version s.resource_ref.api_version)
