-- ===== src/Controller/Version/Tests.antt =====
-- Versions that are compatible, and what the theorems say of them.
use data_product_controller.Prelude.{◌≡◌, ◌↔◌, true, some, refl, arith}
use data_product_controller.Controller.Version.{Triple, compatible_version, stable_version}
use data_product_controller.Controller.Version.Sample.{sample_semver, lex_le}
use data_product_controller.Controller.Version.Laws.{IsCompatible, compatible_version_iff}

abbrev newer : Triple
newer = record { major = 1; minor = 10; patch = 0 }

abbrev older : Triple
older = record { major = 1; minor = 9; patch = 3 }

accepted : compatible_version sample_semver "v1.10.0" "v1.9.3" ≡ true
unfolding compatible_version stable_version sample_semver lex_le
accepted = refl

older_accepted : compatible_version sample_semver "v1.9.3" "v1.2.0" ≡ true
unfolding compatible_version stable_version sample_semver lex_le
older_accepted = refl

newer_parsed : stable_version "v1.10.0" ≡ some newer
unfolding stable_version
newer_parsed = refl

older_parsed : stable_version "v1.9.3" ≡ some older
unfolding stable_version
older_parsed = refl

compatible_version_iff_example :
    (compatible_version sample_semver "v1.10.0" "v1.9.3" ≡ true)
    ↔ IsCompatible sample_semver "v1.10.0" "v1.9.3" newer older
compatible_version_iff_example =
    compatible_version_iff sample_semver "v1.10.0" "v1.9.3" newer older newer_parsed older_parsed
      (omega arith, omega arith, omega arith) (omega arith, omega arith, omega arith)
