-- ===== src/Controller/Requests/Tests.antt =====
-- An event of `orders`, whose output `reports` takes.
use data_product_controller.Prelude.{◌≡◌, ◌↔◌, true, some, List, [], ◌∷◌, refl, Memᴰ, sort_slice}
use data_product_controller.Kube.{ObjectKey, found}
use data_product_controller.Api.{object_key}
use data_product_controller.Controller.Samples.{orders, reports}
use data_product_controller.Controller.Requests.{
  requests_for_dependency, requests_among, search, offers, offer,
}
use data_product_controller.Controller.Requests.Products.{Depends, requests_for_dependency_iff}

reports_requested :
    requests_for_dependency (some true) (some orders) (found (orders ∷ reports ∷ []))
    ≡ some (object_key reports ∷ [])
unfolding requests_for_dependency requests_among search offers offer sort_slice
reports_requested = refl

requests_for_dependency_iff_example :
    (rs : List ObjectKey) × (requests_for_dependency
        (some true)
        (some orders)
        (found (orders ∷ reports ∷ []))
      ≡ some rs)
    × ((c : ObjectKey) → Memᴰ c rs ↔ Depends (orders ∷ reports ∷ []) (object_key orders) c)
requests_for_dependency_iff_example = requests_for_dependency_iff orders (orders ∷ reports ∷ [])
