-- ===== src/Provider/Reasons/Relational.antt =====
-- internal/provider/v1/cnpg.go and cnpg_hybrid.go: the reasons of sources that are not ready.
use data_product_controller.Prelude.{String, ◌≡◌, true, false, Option, string_eq, refl}
use data_product_controller.Provisioner.{GroupVersion}
use data_product_controller.Api.{ProvisionedSource}
use data_product_controller.Provider.{Reader, read_or_stop, reader_or_stop}
use data_product_controller.Provider.Cnpg.{cnpg_checks, observe_cnpg}
use data_product_controller.Provider.Hybrid.{hybrid_checks, observe_hybrid}
use data_product_controller.Provider.Reasons.{
  is_listed, IsPublic, bind-IsPublic, check_in, read_or_stop-IsPublic, reader_or_stop-IsPublic,
  conclude_checks-listed,
}

cnpg_checks-IsPublic :
    (parse : String → Option GroupVersion) (reader : Option Reader) (namespace : String)
    (s : ProvisionedSource)
    → IsPublic (cnpg_checks parse reader namespace s)
unfolding cnpg_checks
cnpg_checks-IsPublic parse reader namespace s = check_in _ _ _ _ refl (
    bind-IsPublic (reader_or_stop reader) _ (reader_or_stop-IsPublic reader) (λ k.
      bind-IsPublic (read_or_stop _ _ _) _ (read_or_stop-IsPublic _ _ _ refl) (λ cluster.
        check_in _ _ _ _ refl (
          check_in _ _ _ _ refl (
            check_in _ _ _ _ refl (
              bind-IsPublic (read_or_stop _ _ _) _ (read_or_stop-IsPublic _ _ _ refl)
                (λ secret. check_in _ _ _ _ refl (check_in _ _ _ _ refl tt))))))))

hybrid_checks-IsPublic :
    (reader : Option Reader) (namespace : String) (s : ProvisionedSource)
    → IsPublic (hybrid_checks reader namespace s)
unfolding hybrid_checks
hybrid_checks-IsPublic reader namespace s = check_in _ _ _ _ refl (
    bind-IsPublic (reader_or_stop reader) _ (reader_or_stop-IsPublic reader) (λ k.
      bind-IsPublic (read_or_stop _ _ _) _ (read_or_stop-IsPublic _ _ _ refl) (λ cluster.
        check_in _ _ _ _ refl (
          check_in _ _ _ _ refl (
            check_in _ _ _ _ refl (
              check_in _ _ _ _ refl (
                bind-IsPublic (read_or_stop _ _ _) _ (read_or_stop-IsPublic _ _ _ refl) (λ secret.
                  check_in _ _ _ _ refl (check_in _ _ _ _ refl (check_in _ _ _ _ refl tt))))))))))

pub cnpg-listed :
    (parse : String → Option GroupVersion) (reader : Option Reader) (namespace : String)
    (s : ProvisionedSource)
    → (observe_cnpg parse reader namespace s).ready ≡ false
    → is_listed (observe_cnpg parse reader namespace s).reason ≡ true
unfolding observe_cnpg
cnpg-listed parse reader namespace s =
    conclude_checks-listed _ (cnpg_checks-IsPublic parse reader namespace s)

pub hybrid-listed :
    (reader : Option Reader) (namespace : String) (s : ProvisionedSource)
    → (observe_hybrid reader namespace s).ready ≡ false
    → is_listed (observe_hybrid reader namespace s).reason ≡ true
unfolding observe_hybrid
hybrid-listed reader namespace s =
    conclude_checks-listed _ (hybrid_checks-IsPublic reader namespace s)
