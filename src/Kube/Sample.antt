-- ===== src/Kube/Sample.antt =====
-- The condition helpers on concrete lists: the laws of `ConditionApi` can be met.
use data_product_controller.Prelude.{
  String, ◌≡◌, ◌≢◌, refl, Option, none, some, List, [], ◌∷◌, ◌==◌, string_eq, if◌then◌else◌, arith,
  eq_iff,
}
use data_product_controller.Kube.{Condition, ConditionApi}

unfoldable pub find : List Condition → String → Option Condition
find [] k = none
find (c ∷ cs) k = if c.kind == k then some c else find cs k

unfoldable pub set : List Condition → Condition → List Condition
set [] c = c ∷ []
set (d ∷ cs) c = if d.kind == c.kind then c ∷ cs else d ∷ set cs c

unfoldable pub remove : List Condition → String → List Condition
remove [] k = []
remove (c ∷ cs) k = let rest = remove cs k in if c.kind == k then rest else c ∷ rest

pub find-set_self : (cs : List Condition) (c : Condition) → find (set cs c) c.kind ≡ some c
unfolding find set
find-set_self [] c = ground (arith, eq_iff c.kind c.kind)
find-set_self (d ∷ cs) c =
    ground (arith, eq_iff c.kind c.kind, eq_iff d.kind c.kind, find-set_self cs c)

pub find-set_ne :
    (cs : List Condition) (c : Condition) (k : String) → k ≢ c.kind → find (set cs c) k ≡ find cs k
unfolding find set
find-set_ne [] c k h = ground (arith, eq_iff c.kind k)
find-set_ne (d ∷ cs) c k h =
    ground (arith, eq_iff c.kind k, eq_iff d.kind k, eq_iff d.kind c.kind, find-set_ne cs c k h)

pub find-remove_self : (cs : List Condition) (k : String) → find (remove cs k) k ≡ none
unfolding find remove
find-remove_self [] k = refl
find-remove_self (c ∷ cs) k = ground (arith, find-remove_self cs k)

pub find-remove_ne : (cs : List Condition) (k j : String) → j ≢ k → find (remove cs k) j ≡ find cs j
unfolding find remove
find-remove_ne [] k j h = refl
find-remove_ne (c ∷ cs) k j h =
    ground (arith, eq_iff c.kind k, eq_iff c.kind j, find-remove_ne cs k j h)

unfoldable pub sample_conditions : ConditionApi
unfolding find set remove
sample_conditions = record {
  set = set;
  find = find;
  remove = remove;
  find-set_self = λ cs c. (c.last_transition_time, find-set_self cs c);
  find-set_ne = find-set_ne;
  find-remove_self = find-remove_self;
  find-remove_ne = find-remove_ne;
}
