-- ===== src/Kube.antt =====
-- What the program takes from Kubernetes' Go modules, which are not part of the repository: object
-- keys, API read results, status conditions with their helpers (apimachinery `meta`), and the
-- laws of those that the program relies on. They are parameters of the model.
pub mod Laws
pub mod Sample
use data_product_controller.Prelude.{
  ℕ, String, ℤ, ◌≡◌, ◌≢◌, ◌↔◌, refl, Bool, true, false, ◌&&◌, Option, none, some, List, Equality,
  ◌==◌, string_eq, arith, eq_iff,
}

-- client.ObjectKey (types.NamespacedName)
pub record ObjectKey : Type 0 where
  pub namespace : String
  pub name : String

abbrev key_beq : ObjectKey → ObjectKey → Bool
key_beq a b = a.namespace == b.namespace && a.name == b.name

pub key_beq_iff : (a b : ObjectKey) → (key_beq a b ≡ true) ↔ (a ≡ b)
key_beq_iff a b = ground (arith, eq_iff a.namespace b.namespace, eq_iff a.name b.name)

instance abbrev pub key_eq : Equality ObjectKey
key_eq = record { test = key_beq; test_iff = key_beq_iff }

-- a text, or the format and the arguments that fmt.Sprintf would render
pub data Message : Type 0 where
  text : String → Message
  format : String → List String → Message

-- the error classes that the program tells apart: apierrors.IsNotFound, IsForbidden,
-- IsUnauthorized, an expired context, an encoding failure, a rejected write, any other
pub data Failure : Type 0 where
  not_found forbidden unauthorized expired unencodable rejected other : Failure

-- the result of an API read
pub data Fetch {ℓ} (A : Type ℓ) : Type ℓ where
  found : A → Fetch A
  failed : Failure → Fetch A

-- metav1.ConditionStatus
pub data ConditionStatus : Type 0 where
  condition_true condition_false condition_unknown : ConditionStatus

-- `status == metav1.ConditionTrue`
abbrev pub is_true : ConditionStatus → Bool
is_true condition_true = true
is_true _ = false

-- metav1.Condition; the zero time is `none`
pub record Condition : Type 0 where
  pub kind : String
  pub status : ConditionStatus
  pub observed_generation : ℤ
  pub last_transition_time : Option ℕ
  pub reason : String
  pub message : Message

-- meta.SetStatusCondition, meta.FindStatusCondition and meta.RemoveStatusCondition: a condition is
-- stored under its type, the setter chooses the transition time, and other types are left alone.
pub record ConditionApi : Type 0 where
  pub set : List Condition → Condition → List Condition
  pub find : List Condition → String → Option Condition
  pub remove : List Condition → String → List Condition
  pub find-set_self :
      (cs : List Condition) (c : Condition)
      → (t : Option ℕ) × (find (set cs c) c.kind ≡ some (record c { last_transition_time = t }))
  pub find-set_ne :
      (cs : List Condition) (c : Condition) (k : String)
      → k ≢ c.kind
      → find (set cs c) k ≡ find cs k
  pub find-remove_self : (cs : List Condition) (k : String) → find (remove cs k) k ≡ none
  pub find-remove_ne :
      (cs : List Condition) (k j : String) → j ≢ k → find (remove cs k) j ≡ find cs j
