-- ===== src/Provider/Reasons.antt =====
-- internal/provider/v1: the reasons that an engine provider gives for a source that is not ready.
pub mod Relational
pub mod Document
pub mod Graph
use data_product_controller.Prelude.{
  String, ◌≡◌, Bool, true, false, not, ◌&&◌, ◌||◌, Option, none, some, List, [], ◌∷◌, any,
  if◌then◌else◌, ◌==◌, string_eq, refl, arith, leb_ℤ, ℤ, pos, inl, inr, Bool-cases,
}
use data_product_controller.Kube.{
  Fetch, found, failed, not_found, forbidden, unauthorized, expired, unencodable, rejected, other,
}
use data_product_controller.Connector.{Observation}
use data_product_controller.Provisioner.{Nested, malformed, absent, present, GroupVersion}
use data_product_controller.Api.{ProvisionedSource}
use data_product_controller.Provider.{
  Node, Resource, Reader, Check, go, stop, ◌>>=◌, require, conclude_checks, unavailable,
  read_or_stop, reader_or_stop,
}
use data_product_controller.Provider.Cnpg.{cnpg_checks, observe_cnpg}
use data_product_controller.Provider.Hybrid.{hybrid_checks, observe_hybrid}
use data_product_controller.Provider.Percona.{
  percona_checks, observe_percona, percona_readiness, not_paused, require_valid, require_ready,
  one_replica, positive_size, invalid,
}
use data_product_controller.Provider.Arango.{Codec, ArangoApi, Deployment, Member}
use data_product_controller.Provider.Arango.Status.{
  arango_readiness, require_arango, require_current, checksum_or_stop, one_member,
}
use data_product_controller.Provider.Arango.Observe.{arango_checks, observe_arango, decoded_or_stop}

-- the reasons of the providers
abbrev pub public_reasons : List String
public_reasons =
    "SourceInvalid" ∷ "SourceUnavailable" ∷ "SourceNotFound" ∷ "SourceAccessDenied"
    ∷ "SourceDeleting" ∷ "SourceNotReady" ∷ "SourcePaused" ∷ "SourceFailed"
    ∷ "SourceVersionUnsupported" ∷ "SourceProfileUnsupported" ∷ "ConnectionNotPublished"
    ∷ "ConnectionOwnerMismatch" ∷ "ConnectionPublicationUnsupported" ∷ []

abbrev pub is_listed : String → Bool
is_listed reason = any (λ listed. reason == listed) public_reasons

-- a chain that stops only with a listed reason
abbrev pub IsPublic {ℓ} : {A : Type ℓ} → Check A → Type 0
IsPublic (go a) = Unit
IsPublic (stop reason message) = is_listed reason ≡ true

pub bind-IsPublic {ℓ κ} :
    {A : Type ℓ} {B : Type κ} (m : Check A) (f : A → Check B)
    → IsPublic m
    → ((a : A) → IsPublic (f a))
    → IsPublic (m >>= f)
bind-IsPublic (go a) f h k = k a
bind-IsPublic (stop reason message) f h k = h

pub require-IsPublic :
    (t : Bool) (reason message : String)
    → is_listed reason ≡ true
    → IsPublic (require t reason message)
unfolding require
require-IsPublic true reason message h = tt
require-IsPublic false reason message h = h

-- a test in front of the rest of a chain
pub check_in {κ} :
    {B : Type κ} (t : Bool) (reason message : String) (k : Check B)
    → is_listed reason ≡ true
    → IsPublic k
    → IsPublic (require t reason message >>= λ _. k)
check_in t reason message k h rest =
    bind-IsPublic (require t reason message) (λ _. k) (require-IsPublic t reason message h)
      (λ _. rest)

pub read_or_stop-IsPublic {ℓ} :
    {A : Type ℓ} (f : Fetch A) (reason message : String)
    → is_listed reason ≡ true
    → IsPublic (read_or_stop f reason message)
unfolding read_or_stop
read_or_stop-IsPublic (found a) reason message h = tt
read_or_stop-IsPublic (failed not_found) reason message h = h
read_or_stop-IsPublic (failed forbidden) reason message h = refl
read_or_stop-IsPublic (failed unauthorized) reason message h = refl
read_or_stop-IsPublic (failed expired) reason message h = refl
read_or_stop-IsPublic (failed unencodable) reason message h = refl
read_or_stop-IsPublic (failed rejected) reason message h = refl
read_or_stop-IsPublic (failed other) reason message h = refl

pub reader_or_stop-IsPublic : (r : Option Reader) → IsPublic (reader_or_stop r)
unfolding reader_or_stop
reader_or_stop-IsPublic (some r) = tt
reader_or_stop-IsPublic none = refl

-- an observation that is not ready has a listed reason
pub conclude_checks-listed :
    (m : Check String)
    → IsPublic m
    → (conclude_checks m).ready ≡ false
    → is_listed (conclude_checks m).reason ≡ true
unfolding conclude_checks unavailable
conclude_checks-listed (go message) public h = cc
conclude_checks-listed (stop reason message) public h = public
