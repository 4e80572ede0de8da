-- ===== src/Provider/Cnpg/Tests.antt =====
-- A settled Cluster with its application Secret, and what the theorems say of it.
use data_product_controller.Provisioner.{is_current, string_of, holds}
use data_product_controller.Prelude.{◌≡◌, true, some, refl}
use data_product_controller.Provider.{
  Reader, int_of, counts, conclude_checks, require, selects, reader_or_stop, read_or_stop,
  is_omitted,
}
use data_product_controller.Provider.Sample.{
  reader_of, parse_version, cluster, app_secret, sql_source,
}
use data_product_controller.Provider.Cnpg.{
  cnpg_ready, observe_cnpg, is_cnpg_source, generated_secret, owned_by,
}
use data_product_controller.Provider.Cnpg.Ready.{IsSettled, cnpg_ready-IsSettled}
use data_product_controller.Provider.Cnpg.Published.{IsPublished, observe_cnpg-IsPublished}

abbrev reader : Reader
reader = reader_of (cluster "postgresql:17") app_secret

settled_ready : cnpg_ready (cluster "postgresql:17") ≡ true
unfolding cnpg_ready is_current string_of holds int_of counts
settled_ready = refl

cnpg_ready-IsSettled_example : IsSettled (cluster "postgresql:17")
cnpg_ready-IsSettled_example = cnpg_ready-IsSettled (cluster "postgresql:17") settled_ready

sql_ready : (observe_cnpg parse_version (some reader) "shop" sql_source).ready ≡ true
unfolding observe_cnpg conclude_checks require is_cnpg_source selects reader_or_stop read_or_stop
    generated_secret is_omitted cnpg_ready is_current string_of holds int_of counts owned_by
sql_ready = refl

observe_cnpg-IsPublished_example : IsPublished parse_version (some reader) "shop" sql_source
observe_cnpg-IsPublished_example =
    observe_cnpg-IsPublished parse_version (some reader) "shop" sql_source sql_ready
