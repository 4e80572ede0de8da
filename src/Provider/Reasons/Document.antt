-- ===== src/Provider/Reasons/Document.antt =====
-- internal/provider/v1/percona.go: the reasons of sources that are not ready.
use data_product_controller.Prelude.{
  String, ◌≡◌, Bool, true, false, Option, none, some, List, [], ◌∷◌, string_eq, refl, leb_ℤ, ℤ, pos,
  inl, inr, Bool-cases,
}
use data_product_controller.Provisioner.{Nested, malformed, absent, present}
use data_product_controller.Api.{ProvisionedSource}
use data_product_controller.Provider.{Node, Resource, Reader, require, read_or_stop, reader_or_stop}
use data_product_controller.Provider.Percona.{
  percona_checks, observe_percona, percona_readiness, not_paused, require_valid, require_ready,
  one_replica, positive_size, invalid,
}
use data_product_controller.Provider.Reasons.{
  is_listed, IsPublic, bind-IsPublic, require-IsPublic, check_in, read_or_stop-IsPublic,
  reader_or_stop-IsPublic, conclude_checks-listed,
}

not_paused-IsPublic : (n : Nested Bool) → IsPublic (not_paused n)
unfolding not_paused invalid
not_paused-IsPublic malformed = refl
not_paused-IsPublic absent = tt
not_paused-IsPublic (present false) = tt
not_paused-IsPublic (present true) = refl

require_valid-IsPublic : (b : Bool) → IsPublic (require_valid b)
unfolding require_valid invalid
require_valid-IsPublic true = tt
require_valid-IsPublic false = refl

one_replica-IsPublic : (n : Nested (List (Option Node))) → IsPublic (one_replica n)
unfolding one_replica invalid
one_replica-IsPublic malformed = refl
one_replica-IsPublic absent = refl
one_replica-IsPublic (present []) = refl
one_replica-IsPublic (present (none ∷ [])) = refl
one_replica-IsPublic (present (some x ∷ [])) = tt
one_replica-IsPublic (present (none ∷ y ∷ rest)) = refl
one_replica-IsPublic (present (some x ∷ y ∷ rest)) = refl

positive_size-IsPublic : (o : Option ℤ) → IsPublic (positive_size o)
unfolding positive_size invalid
positive_size-IsPublic none = refl
positive_size-IsPublic (some n) = elim (Bool-cases (leb_ℤ n (pos 0))) [
  | inl e ↦ rw e refl
  | inr e ↦ rw e tt
]

require_ready-IsPublic : (b : Bool) → IsPublic (require_ready b)
unfolding require_ready
require_ready-IsPublic b = require-IsPublic b _ _ refl

percona_readiness-IsPublic : (r : Resource) → IsPublic (percona_readiness r)
unfolding percona_readiness
percona_readiness-IsPublic r = check_in _ _ _ _ refl (
    bind-IsPublic (not_paused _) _ (not_paused-IsPublic _) (λ _.
      bind-IsPublic (require_valid _) _ (require_valid-IsPublic _) (λ _.
        bind-IsPublic (one_replica _) _ (one_replica-IsPublic _) (λ replica.
          bind-IsPublic (require_valid _) _ (require_valid-IsPublic _) (λ _.
            bind-IsPublic (positive_size _) _ (positive_size-IsPublic _) (λ desired.
              bind-IsPublic (require _ "SourceFailed" _) _
                (require-IsPublic _ "SourceFailed" _ refl) (λ _. require_ready-IsPublic _)))))))

percona_checks-IsPublic :
    (reader : Option Reader) (namespace : String) (s : ProvisionedSource)
    → IsPublic (percona_checks reader namespace s)
unfolding percona_checks
percona_checks-IsPublic reader namespace s = check_in _ _ _ _ refl (
    bind-IsPublic (reader_or_stop reader) _ (reader_or_stop-IsPublic reader) (λ k.
      bind-IsPublic (read_or_stop _ _ _) _ (read_or_stop-IsPublic _ _ _ refl) (λ cluster.
        check_in _ _ _ _ refl (
          bind-IsPublic (percona_readiness cluster) _ (percona_readiness-IsPublic cluster) (λ _.
            check_in _ _ _ _ refl (
              bind-IsPublic (read_or_stop _ _ _) _ (read_or_stop-IsPublic _ _ _ refl)
                (λ secret. check_in _ _ _ _ refl (check_in _ _ _ _ refl tt))))))))

pub percona-listed :
    (reader : Option Reader) (namespace : String) (s : ProvisionedSource)
    → (observe_percona reader namespace s).ready ≡ false
    → is_listed (observe_percona reader namespace s).reason ≡ true
unfolding observe_percona
percona-listed reader namespace s =
    conclude_checks-listed _ (percona_checks-IsPublic reader namespace s)
