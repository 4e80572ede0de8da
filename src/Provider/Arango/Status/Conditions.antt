-- ===== src/Provider/Arango/Status/Conditions.antt =====
-- internal/provider/v1/arango.go, `arangoConditions`: what a list of conditions that passes shows.
use data_product_controller.Prelude.{
  String, ◌≡◌, ◌≢◌, Bool, true, false, not, ◌||◌, Option, none, some, List, [], ◌∷◌, ◌==◌,
  string_eq, arith, eq_iff, refl, sym, ◌∙◌, ap, subst, inl, inr, Bool-cases, Option-cases, Memᴰ,
  some_inj, update, update_self, update_ne,
}
use mathlib.Core.List.Memᴰ
use data_product_controller.Provider.Checks.{any-false}
use data_product_controller.Provider.Arango.{DeploymentCondition}
use data_product_controller.Provider.Arango.Status.{
  seen_conditions, was_true, all_seen, has_conditions,
}

-- a round that goes on
seen_conditions-step :
    (seen final : String → Option Bool) (c : DeploymentCondition) (items : List DeploymentCondition)
    → seen_conditions seen (c ∷ items) ≡ some final
    → (seen c.kind ≡ none)
      × (seen_conditions (update seen c.kind (some (c.status == "True"))) items ≡ some final)
unfolding seen_conditions
seen_conditions-step seen final c items h =
    elim (Bool-cases (c.kind == "" || not (c.status == "True" || c.status == "False"))) [
      | inl bad ↦ absurd (clash (rw bad at h))
      | inr good ↦ elim (Option-cases (seen c.kind)) [
        | inl fresh ↦ (fresh, rw (good, fresh) at h)
        | inr (b, twice) ↦ absurd (clash (rw (good, twice) at h))
      ]
    ]
  where
    clash : ◌≢◌ {A = Option (String → Option Bool)} none (some final)
    clash x = cc

-- what was seen stays
seen_conditions-keeps :
    (seen final : String → Option Bool) (items : List DeploymentCondition) (kind : String)
    (b : Bool)
    → seen_conditions seen items ≡ some final
    → seen kind ≡ some b
    → final kind ≡ some b
unfolding seen_conditions
seen_conditions-keeps seen final [] kind b h known = subst (λ f. f kind ≡ some b) (some_inj h) known
seen_conditions-keeps seen final (c ∷ items) kind b h known =
    let (fresh, ran) = seen_conditions-step seen final c items h in
    seen_conditions-keeps (update seen c.kind (some (c.status == "True"))) final items kind b ran
      (update_ne seen c.kind (some (c.status == "True")) kind (clash fresh) ∙ known)
  where
    clash : seen c.kind ≡ none → kind ≢ c.kind
    clash fresh same = let e = ap seen same in cc

-- each condition is seen with its status
seen_conditions-mem :
    (seen final : String → Option Bool) (items : List DeploymentCondition) (c : DeploymentCondition)
    → seen_conditions seen items ≡ some final
    → Memᴰ c items
    → final c.kind ≡ some (c.status == "True")
seen_conditions-mem seen final [] c h m = absurd (Memᴰ.not-nil m)
seen_conditions-mem seen final (d ∷ items) c h m =
    let (fresh, ran) = seen_conditions-step seen final d items h in
    elim (Memᴰ.cases_cons m) [
      | inl e ↦
          subst (λ (x : DeploymentCondition). final x.kind ≡ some (x.status == "True")) (sym e)
            (seen_conditions-keeps (update seen d.kind (some (d.status == "True"))) final items
              d.kind (d.status == "True") ran (update_self seen d.kind (some (d.status == "True"))))
      | inr later ↦
          seen_conditions-mem (update seen d.kind (some (d.status == "True"))) final items c ran
            later
    ]

-- a kind that is seen behind the loop was seen in front of it or is listed
seen_conditions-from :
    (seen final : String → Option Bool) (items : List DeploymentCondition) (kind : String)
    (b : Bool)
    → seen_conditions seen items ≡ some final
    → final kind ≡ some b
    → seen kind ≡ none
    → (c : DeploymentCondition) × Memᴰ c items × (c.kind ≡ kind)
unfolding seen_conditions
seen_conditions-from seen final [] kind b h known fresh =
    let e = ap (λ (f : String → Option Bool). f kind) (some_inj h) in
    absurd (clash (sym fresh ∙ e ∙ known))
  where
    clash : ◌≢◌ {A = Option Bool} none (some b)
    clash x = cc
seen_conditions-from seen final (d ∷ items) kind b h known fresh =
    let (_, ran) = seen_conditions-step seen final d items h in
    elim (Bool-cases (kind == d.kind)) [
      | inl same ↦ (d, Memᴰ.head refl, sym ((eq_iff kind d.kind).0 same))
      | inr other ↦
          let differs : kind ≢ d.kind = λ e. apart other ((eq_iff kind d.kind).1 e) in
          let (c, m, e) =
            seen_conditions-from (update seen d.kind (some (d.status == "True"))) final items kind b
              ran known (update_ne seen d.kind (some (d.status == "True")) kind differs ∙ fresh) in
          (c, Memᴰ.tail m, e)
    ]
  where
    apart : {x : Bool} → x ≡ false → x ≡ true → ⊥
    apart p q = cc

-- a required type: some condition has it, and each one of it is true
pub record IsTrueOnly (items : List DeploymentCondition) (kind : String) : Type 0 where
  pub condition : DeploymentCondition
  pub member : Memᴰ condition items
  pub named : condition.kind ≡ kind
  pub unambiguous : (c : DeploymentCondition) → Memᴰ c items → c.kind ≡ kind → c.status ≡ "True"

was_true-some : (o : Option Bool) → was_true o ≡ true → o ≡ some true
unfolding was_true
was_true-some none h = cc
was_true-some (some b) h = ap some h

all_seen-IsTrueOnly :
    (items : List DeploymentCondition) (required : List String) (o : Option (String → Option Bool))
    (kind : String)
    → seen_conditions (λ _. none) items ≡ o
    → all_seen o required ≡ true
    → Memᴰ kind required
    → IsTrueOnly items kind
unfolding all_seen
all_seen-IsTrueOnly items required none kind ran h m = cc
all_seen-IsTrueOnly items required (some final) kind ran h m =
    let known =
      was_true-some (final kind)
        (positive (any-false (λ x. not (was_true (final x))) required (negative h) m)) in
    let (c, listed, named) =
      seen_conditions-from (λ _. none) final items kind true ran known refl in
    record {
      condition = c;
      member = listed;
      named = named;
      unambiguous = λ d dm e.
          let seen = seen_conditions-mem (λ _. none) final items d ran dm in
          let same = subst (λ x. final x ≡ some (d.status == "True")) e seen in
          (eq_iff d.status "True").0 (some_inj (sym same ∙ known));
    }
  where
    negative : {b : Bool} → not b ≡ true → b ≡ false
    negative e = ground arith

    positive : {b : Bool} → not b ≡ false → b ≡ true
    positive e = ground arith

-- A list of conditions passes only if each required type is listed, and every condition of that type
-- is true.
pub has_conditions-IsTrueOnly :
    (items : List DeploymentCondition) (required : List String) (kind : String)
    → has_conditions items required ≡ true
    → Memᴰ kind required
    → IsTrueOnly items kind
unfolding has_conditions
has_conditions-IsTrueOnly items required kind h m =
    all_seen-IsTrueOnly items required (seen_conditions (λ _. none) items) kind refl h m
