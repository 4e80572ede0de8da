-- ===== src/Controller/Version/Sample.antt =====
-- A concrete `Semver`: its laws can be met.
use data_product_controller.Prelude.{
  ◌≡◌, ◌↔◌, Bool, true, ◌&&◌, ◌||◌, ltb, leb, nat_beq, arith, some_inj, sym, refl, ◌∙◌,
}
use data_product_controller.Controller.Version.{Triple, LexLe, Semver, stable_version}

unfoldable pub lex_le : Triple → Triple → Bool
lex_le a b =
    ltb a.major b.major
    || (nat_beq a.major b.major
        && (ltb a.minor b.minor || (nat_beq a.minor b.minor && leb a.patch b.patch)))

pub lex_le_iff : (a b : Triple) → (lex_le a b ≡ true) ↔ LexLe a b
unfolding lex_le
lex_le_iff a b = ground arith

unfoldable pub sample_semver : Semver
unfolding lex_le
sample_semver = record {
  Version = Triple;
  parse_semantic = stable_version;
  components = λ v. v;
  major = λ v. v.major;
  at_least = λ v w. lex_le w v;
  major-components = λ v. refl;
  parse_fits = λ s t h fits. (t, h);
  parse_components = λ s t v h k. some_inj (sym k ∙ h);
  at_least_stable = λ s r t u v w hs hr ps pr. lex_le_iff w v;
}
