-- ===== src/Provider/Reasons/Graph.antt =====
-- internal/provider/v1/arango.go: the reasons of sources that are not ready.
use data_product_controller.Prelude.{
  String, ◌≡◌, true, false, Option, none, some, List, [], ◌∷◌, string_eq, refl,
}
use data_product_controller.Api.{ProvisionedSource}
use data_product_controller.Provider.{Reader, read_or_stop, reader_or_stop}
use data_product_controller.Provider.Arango.{Codec, ArangoApi, Deployment, Member}
use data_product_controller.Provider.Arango.Status.{
  arango_readiness, require_arango, require_current, checksum_or_stop, one_member,
}
use data_product_controller.Provider.Arango.Observe.{arango_checks, observe_arango, decoded_or_stop}
use data_product_controller.Provider.Reasons.{
  is_listed, IsPublic, bind-IsPublic, require-IsPublic, check_in, read_or_stop-IsPublic,
  reader_or_stop-IsPublic, conclude_checks-listed,
}

one_member-IsPublic : (members : List Member) → IsPublic (one_member members)
unfolding one_member
one_member-IsPublic [] = refl
one_member-IsPublic (x ∷ []) = tt
one_member-IsPublic (x ∷ y ∷ rest) = refl

checksum_or_stop-IsPublic : (o : Option String) → IsPublic (checksum_or_stop o)
unfolding checksum_or_stop
checksum_or_stop-IsPublic none = refl
checksum_or_stop-IsPublic (some c) = tt

decoded_or_stop-IsPublic : (o : Option Deployment) → IsPublic (decoded_or_stop o)
unfolding decoded_or_stop
decoded_or_stop-IsPublic none = refl
decoded_or_stop-IsPublic (some d) = tt

module _ {Time Entry : Type 0} (codec : Codec Time Entry) (api : ArangoApi) where
  arango_readiness-IsPublic : (d : Deployment) → IsPublic (arango_readiness codec api d)
  unfolding arango_readiness require_arango require_current
  arango_readiness-IsPublic d = check_in _ _ _ _ refl (
      check_in _ _ _ _ refl (
        check_in _ _ _ _ refl (
          check_in _ _ _ _ refl (
            bind-IsPublic (checksum_or_stop _) _ (checksum_or_stop-IsPublic _) (λ checksum.
              check_in _ _ _ _ refl (
                check_in _ _ _ _ refl (
                  check_in _ _ _ _ refl (
                    bind-IsPublic (one_member d.singles) _ (one_member-IsPublic d.singles)
                      (λ member. require-IsPublic _ _ _ refl)))))))))

  arango_checks-IsPublic :
      (reader : Option Reader) (namespace : String) (s : ProvisionedSource)
      → IsPublic (arango_checks codec api reader namespace s)
  unfolding arango_checks require_arango
  arango_checks-IsPublic reader namespace s = check_in _ _ _ _ refl (
      bind-IsPublic (reader_or_stop reader) _ (reader_or_stop-IsPublic reader) (λ k.
        bind-IsPublic (read_or_stop _ _ _) _ (read_or_stop-IsPublic _ _ _ refl) (λ resource.
          check_in _ _ _ _ refl (
            check_in _ _ _ _ refl (
              bind-IsPublic (decoded_or_stop _) _ (decoded_or_stop-IsPublic _) (λ d.
                bind-IsPublic (arango_readiness codec api d) _ (arango_readiness-IsPublic d) (λ _.
                  check_in _ _ _ _ refl (
                    bind-IsPublic (read_or_stop _ _ _) _ (read_or_stop-IsPublic _ _ _ refl)
                      (λ secret.
                        check_in _ _ _ _ refl
                          (check_in _ _ _ _ refl (check_in _ _ _ _ refl tt)))))))))))

pub arango-listed :
    {Time Entry : Type 0} (codec : Codec Time Entry) (api : ArangoApi) (reader : Option Reader)
    (namespace : String) (s : ProvisionedSource)
    → (observe_arango codec api reader namespace s).ready ≡ false
    → is_listed (observe_arango codec api reader namespace s).reason ≡ true
unfolding observe_arango
arango-listed codec api reader namespace s =
    conclude_checks-listed _ (arango_checks-IsPublic codec api reader namespace s)
