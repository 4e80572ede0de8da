-- ===== src/Provider.antt =====
-- internal/provider/v1: what the engine providers share. An observation is a chain of checks, each
-- of which goes on or stops with a public reason. A source is unstructured: apimachinery's nested
-- reads of it are given by path, and a list of objects holds `none` where an element is no object.
-- The metadata-only reader is a parameter.
pub mod Checks
pub mod Reasons
pub mod Names
pub mod Sample
pub mod Cnpg
pub mod Hybrid
pub mod Percona
pub mod Arango
pub mod Registry
use data_product_controller.Prelude.{
  String, ℤ, pos, Bool, true, false, not, ◌&&◌, Option, none, some, List, [], ◌∷◌, if◌then◌else◌,
  any, ◌==◌, string_eq, int_eq,
}
use data_product_controller.Kube.{
  ObjectKey, Failure, not_found, forbidden, unauthorized, Fetch, found, failed,
}
use data_product_controller.Api.{EngineSelection, ProvisionedSource}
use data_product_controller.Connector.{Observation}
use data_product_controller.Provisioner.{Nested, malformed, absent, present, Owner, GroupVersion}

-- the nested reads of an object
pub record Fields : Type 0 where
  pub string_at : List String → Nested String
  pub int_at : List String → Nested ℤ
  pub bool_at : List String → Nested Bool
  pub strings_at : List String → Nested (List String)
  pub field_at : List String → Nested (Unit {0})

-- an object with lists of objects
pub record Node : Type 0 where
  pub fields : Fields
  pub slice_at : List String → Nested (List (Option Fields))

-- unstructured.Unstructured
pub record Resource : Type 0 where
  pub name : String
  pub uid : String
  pub generation : ℤ
  pub deleting : Bool
  pub fields : Fields
  pub slice_at : List String → Nested (List (Option Node))

-- metav1.PartialObjectMetadata of a Secret; a missing annotation is empty
pub record Secret : Type 0 where
  pub deleting : Bool
  pub owners : List Owner
  pub annotations : String → String

-- the API version and the kind of a typed engine API
pub record Kind : Type 0 where
  pub api_version : String
  pub kind : String

pub record Reader : Type 0 where
  pub get_source : Kind → ObjectKey → Fetch Resource
  pub get_secret : ObjectKey → Fetch Secret

-- a check that stops has a reason and a message
pub data Check {ℓ} (A : Type ℓ) : Type ℓ where
  go : A → Check A
  stop : String → String → Check A

infixl 5 ◌>>=◌ ◌>>◌
abbrev pub ◌>>=◌ {ℓ κ} : {A : Type ℓ} {B : Type κ} → Check A → (A → Check B) → Check B
go a >>= f = f a
stop reason message >>= f = stop reason message

abbrev pub ◌>>◌ {ℓ} : {B : Type ℓ} → Check (Unit {0}) → Check B → Check B
m >> k = m >>= λ _. k

-- go on if the test holds
unfoldable pub require : Bool → String → String → Check (Unit {0})
require true reason message = go tt
require false reason message = stop reason message

-- unavailable
unfoldable pub unavailable : String → String → Observation
unavailable reason message = record { ready = false; reason = reason; message = message }

-- the observation that a chain of checks ends with; its value is the message of a ready source
unfoldable pub conclude_checks : Check String → Observation
unfolding unavailable
conclude_checks (stop reason message) = unavailable reason message
conclude_checks (go message) = record { ready = true; reason = "SourceReady"; message = message }

-- readFailure, with the reason and the message of a missing object
unfoldable pub read_or_stop {ℓ} : {A : Type ℓ} → Fetch A → String → String → Check A
read_or_stop (found a) reason message = go a
read_or_stop (failed not_found) reason message = stop reason message
read_or_stop (failed forbidden) reason message =
    stop "SourceAccessDenied"
      "Grant exact-name get access to the provider resource and its application Secret in this namespace."
read_or_stop (failed unauthorized) reason message =
    stop "SourceAccessDenied"
      "Grant exact-name get access to the provider resource and its application Secret in this namespace."
read_or_stop (failed _) reason message =
    stop "SourceUnavailable"
      "The source could not be observed; check API availability and scoped controller access."

-- a nil reader
unfoldable pub reader_or_stop : Option Reader → Check Reader
reader_or_stop (some r) = go r
reader_or_stop none =
    stop "SourceUnavailable" "The provider reader is unavailable; check controller configuration."

-- the selection of an engine by every one of its fields
unfoldable pub selects : Option EngineSelection → String → String → Bool
selects none kind provider = false
selects (some e) kind provider =
    e.api_version == "engine-provider/v1" && (e.kind == kind && e.provider == provider)

-- `err == nil && value == wanted`, where an absent count is zero
unfoldable pub counts : Nested ℤ → ℤ → Bool
counts malformed wanted = false
counts absent wanted = pos 0 == wanted
counts (present n) wanted = n == wanted

-- a count and its error
unfoldable pub int_of : Nested ℤ → Option ℤ
int_of malformed = none
int_of absent = some (pos 0)
int_of (present n) = some n

-- `err != nil || found` is false
unfoldable pub is_omitted : {A : Type 0} → Nested A → Bool
is_omitted malformed = false
is_omitted absent = true
is_omitted (present _) = false
