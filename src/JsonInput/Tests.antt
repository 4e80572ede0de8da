-- ===== src/JsonInput/Tests.antt =====
-- A text with a pair of surrogates, and what the theorem says of it.
use data_product_controller.Prelude.{◌≡◌, true, false, refl}
use data_product_controller.Controller.Version.{codes}
use data_product_controller.JsonInput.{valid_unicode_escapes, parse_unit, digit, is_high, is_low}
use data_product_controller.JsonInput.Encoded.{Encoded, valid_unicode_escapes_iff}

pair_passes : valid_unicode_escapes (codes "[\"\\ud83d\\ude00\"]") ≡ true
unfolding valid_unicode_escapes parse_unit digit is_high is_low
pair_passes = refl

lone_half_fails : valid_unicode_escapes (codes "[\"\\ud83d\"]") ≡ false
unfolding valid_unicode_escapes parse_unit digit is_high
lone_half_fails = refl

valid_unicode_escapes_iff_example : Encoded false (codes "[\"\\ud83d\\ude00\"]")
valid_unicode_escapes_iff_example =
    (valid_unicode_escapes_iff (codes "[\"\\ud83d\\ude00\"]")).0 pair_passes
