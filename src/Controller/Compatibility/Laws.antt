-- ===== src/Controller/Compatibility/Laws.antt =====
-- internal/controller/composition.go, `inputCompatibility` and `producerReady`: what they test.
use data_product_controller.Prelude.{
  String, ◌≡◌, ◌↔◌, true, false, Option, none, some, List, [], ◌∷◌, Memᴰ, arith, eq_iff,
  int_beq_iff, refl, subst, and-eq-true, Option-cases, Bool-cases, inl, inr, ◌==◌, string_eq,
}
use data_product_controller.Kube.{Condition, condition_true, ConditionApi}
use data_product_controller.Api.{InputContract, InputPort, OutputPort, DataProduct, condition_ready}
use data_product_controller.Controller.Version.{Semver, compatible_version}
use data_product_controller.Controller.Compatibility.{
  find_port, find_output, input_compatibility, contract_reason, producer_ready, ready_at,
}

-- the contract that an input requires, if it requires one, is met
abbrev pub MeetsContract : Semver → Option InputContract → DataProduct → OutputPort → Type 0
MeetsContract semver none producer o = Unit
MeetsContract semver (some c) producer o =
    (o.protocol ≡ c.protocol)
    × (compatible_version semver producer.spec.version c.minimum_version ≡ true)

-- the first output of the name, and that it meets the contract
pub record Supplies (semver : Semver) (input : InputPort) (producer : DataProduct) : Type 0 where
  pub output : OutputPort
  pub selected : find_output producer input.product_ref.output ≡ some output
  pub contract : MeetsContract semver input.contract producer output

pub find_port_sound :
    (ports : List OutputPort) (name : String) (o : OutputPort)
    → find_port ports name ≡ some o
    → (o.name ≡ name) × Memᴰ o ports
unfolding find_port
find_port_sound [] name o h = cc
find_port_sound (p ∷ ports) name o h = elim (Bool-cases (p.name == name)) [
  | inl same ↦
      let here : p ≡ o = ground arith in rw (← here) ((eq_iff p.name name).0 same, Memᴰ.head refl)
  | inr other ↦ let (named, m) = find_port_sound ports name o (ground arith) in (named, Memᴰ.tail m)
]

contract_reason_empty :
    (semver : Semver) (c : Option InputContract) (p : DataProduct) (o : OutputPort)
    → (contract_reason semver c p o ≡ "") ↔ MeetsContract semver c p o
unfolding contract_reason
contract_reason_empty semver none p o = (λ _. tt, λ _. refl)
contract_reason_empty semver (some c) p o = (
  λ h. ground (arith, eq_iff o.protocol c.protocol, eq_iff "ContractIncompatible" ""),
  λ m. ground (arith, eq_iff o.protocol c.protocol),
)

-- The reason is empty exactly when the producer declares the output and meets the contract.
pub input_compatibility_iff :
    (semver : Semver) (input : InputPort) (producer : DataProduct)
    → (input_compatibility semver input producer ≡ "") ↔ Supplies semver input producer
unfolding input_compatibility
input_compatibility_iff semver input producer =
    elim (Option-cases (find_output producer input.product_ref.output)) [
      | inl missing ↦ rw missing (λ h. cc, λ s. absurd (clash missing s.selected))
      | inr (o, selected) ↦ rw selected (
        λ h. record {
          output = o;
          selected = selected;
          contract = (contract_reason_empty semver input.contract producer o).0 h;
        },
        λ s. (contract_reason_empty semver input.contract producer o).1 (
            subst (MeetsContract semver input.contract producer) (same s.selected selected)
              s.contract),
      )
    ]
  where
    clash :
        {o : OutputPort}
        → find_output producer input.product_ref.output ≡ none
        → find_output producer input.product_ref.output ≡ some o
        → ⊥
    clash e f = cc

    same :
        {o r : OutputPort}
        → find_output producer input.product_ref.output ≡ some o
        → find_output producer input.product_ref.output ≡ some r
        → o ≡ r
    same e f = cc

-- the stored Ready condition is true and current, and the product is not being deleted
pub record IsReady (conditions : ConditionApi) (p : DataProduct) : Type 0 where
  pub kept : p.deleting ≡ false
  pub condition : Condition
  pub stored : conditions.find p.status.conditions condition_ready ≡ some condition
  pub status : condition.status ≡ condition_true
  pub current : condition.observed_generation ≡ p.generation

ready_at_iff :
    (p : DataProduct) (c : Condition)
    → (ready_at p (some c) ≡ true)
      ↔ ((c.status ≡ condition_true) × (c.observed_generation ≡ p.generation))
unfolding ready_at
ready_at_iff p c = (
  λ h. ground (arith, int_beq_iff c.observed_generation p.generation),
  λ h. ground (arith, int_beq_iff c.observed_generation p.generation),
)

-- A producer counts as ready exactly when it is not being deleted and its Ready condition is true
-- for its current generation.
pub producer_ready_iff :
    (conditions : ConditionApi) (p : DataProduct)
    → (producer_ready conditions p ≡ true) ↔ IsReady conditions p
unfolding producer_ready
producer_ready_iff conditions p =
    elim (Option-cases (conditions.find p.status.conditions condition_ready)) [
      | inl missing ↦ rw missing (λ h. ground arith, λ s. absurd (clash missing s.stored))
      | inr (c, stored) ↦ rw stored (
        λ h.
            let (kept, at) = and-eq-true _ _ h in
            let (status, current) = (ready_at_iff p c).0 at in
            record {
              kept = ground arith;
              condition = c;
              stored = stored;
              status = status;
              current = current;
            },
        λ s. rw s.kept (
            (ready_at_iff p c).1 (
              subst (λ d. (d.status ≡ condition_true) × (d.observed_generation ≡ p.generation))
                (same s.stored stored) (s.status, s.current))),
      )
    ]
  where
    clash :
        {c : Condition}
        → conditions.find p.status.conditions condition_ready ≡ none
        → conditions.find p.status.conditions condition_ready ≡ some c
        → ⊥
    clash e f = cc

    same :
        {c d : Condition}
        → conditions.find p.status.conditions condition_ready ≡ some c
        → conditions.find p.status.conditions condition_ready ≡ some d
        → c ≡ d
    same e f = cc
