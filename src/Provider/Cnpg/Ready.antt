-- ===== src/Provider/Cnpg/Ready.antt =====
-- internal/provider/v1/cnpg.go, `cnpgReady`: the facts behind a settled Cluster.
use data_product_controller.Prelude.{
  ℕ, suc, ◌+◌, String, ℤ, pos, ◌≡◌, ◌≢◌, ◌⊎◌, Bool, true, false, Option, none, some, List, [], ◌∷◌,
  if◌then◌else◌, ◌==◌, string_eq, int_eq, leb_ℤ, arith, eq_iff, refl, sym, ◌∙◌, ap, subst, inl, inr,
  Bool-cases, Option-cases, Memᴰ, some_inj,
}
use data_product_controller.Provisioner.{
  Nested, malformed, absent, present, is_current, string_of, holds,
}
use data_product_controller.Provider.{Resource, Node, counts, int_of}
use data_product_controller.Provider.Cnpg.{
  noted_ready, settled_with, same_primary, replicas_settled, facts_settled, conditions_settled,
  cnpg_ready,
}

abbrev pub type_of : Node → Option String
type_of c = string_of (c.fields.string_at ("type" ∷ []))

abbrev is_ready_type : Option String → Bool
is_ready_type none = false
is_ready_type (some kind) = kind == "Ready"

-- the number of conditions of type Ready
abbrev pub ready_count : List (Option Node) → ℕ
ready_count [] = 0
ready_count (none ∷ items) = ready_count items
ready_count (some c ∷ items) =
    let later = ready_count items in if is_ready_type (type_of c) then suc later else later

-- a Ready condition that is true and current
pub record IsReported (generation : ℤ) (items : List (Option Node)) : Type 0 where
  pub condition : Node
  pub member : Memᴰ (some condition) items
  pub named : type_of condition ≡ some "Ready"
  pub up : holds (condition.fields.string_at ("status" ∷ [])) "True" ≡ true
  pub current : is_current generation (condition.fields.int_at ("observedGeneration" ∷ [])) ≡ true

abbrev bit : Bool → ℕ
bit true = 1
bit false = 0

-- the flag behind the loop, and what it counts
record Ends (generation : ℤ) (rest : Bool → Bool) (ready : Bool) (items : List (Option Node))
    : Type 0 where
  final : Bool
  passed : rest final ≡ true
  counted : bit ready + ready_count items ≡ bit final
  reported : final ≡ true → (ready ≡ true) ⊎ IsReported generation items

-- a round that goes on
noted_ready-some :
    (generation : ℤ) (ready later : Bool) (c : Node) (r : Option String)
    → noted_ready generation ready c r ≡ some later
    → ((is_ready_type r ≡ false) × (later ≡ ready))
      ⊎ ((r ≡ some "Ready")
          × (ready ≡ false)
          × (later ≡ true)
          × (holds (c.fields.string_at ("status" ∷ [])) "True" ≡ true)
          × (is_current generation (c.fields.int_at ("observedGeneration" ∷ [])) ≡ true))
unfolding noted_ready
noted_ready-some generation ready later c none h = cc
noted_ready-some generation ready later c (some kind) h = elim (Bool-cases (kind == "Ready")) [
  | inr other ↦ inl (other, sym (some_inj (rw other at h)))
  | inl named ↦ inr (
    ap some ((eq_iff kind "Ready").0 named),
    ground arith,
    ground arith,
    ground arith,
    ground arith,
  )
]

Ends-tail :
    {generation : ℤ} {rest : Bool → Bool} {ready : Bool} {items : List (Option Node)} (c : Node)
    → is_ready_type (type_of c) ≡ false
    → Ends generation rest ready items
    → Ends generation rest ready (some c ∷ items)
Ends-tail c other e = record {
  final = e.final;
  passed = e.passed;
  counted = rw other e.counted;
  reported = λ up. elim (e.reported up) [
    | inl old ↦ inl old
    | inr r ↦ inr (record {
      condition = r.condition;
      member = Memᴰ.tail r.member;
      named = r.named;
      up = r.up;
      current = r.current;
    })
  ];
}

Ends-head :
    {generation : ℤ} {rest : Bool → Bool} {items : List (Option Node)} (c : Node)
    → type_of c ≡ some "Ready"
    → holds (c.fields.string_at ("status" ∷ [])) "True" ≡ true
    → is_current generation (c.fields.int_at ("observedGeneration" ∷ [])) ≡ true
    → Ends generation rest true items
    → Ends generation rest false (some c ∷ items)
Ends-head c named up current e =
    let kind : is_ready_type (type_of c) ≡ true = ap is_ready_type named ∙ refl in
    record {
      final = e.final;
      passed = e.passed;
      counted = rw kind (omega (arith, e.counted));
      reported = λ on. inr (record {
        condition = c;
        member = Memᴰ.head refl;
        named = named;
        up = up;
        current = current;
      });
    }

settled_with-Ends :
    (generation : ℤ) (rest : Bool → Bool) (ready : Bool) (items : List (Option Node))
    → settled_with generation rest (some ready) items ≡ true
    → Ends generation rest ready items
unfolding settled_with
settled_with-Ends generation rest ready [] h = record {
  final = ready;
  passed = h;
  counted = omega arith;
  reported = λ up. inl up;
}
settled_with-Ends generation rest ready (none ∷ items) h = cc
settled_with-Ends generation rest ready (some c ∷ items) h =
    elim (Option-cases (noted_ready generation ready c (type_of c))) [
      | inl stopped ↦
          absurd (clash (subst (λ x. settled_with generation rest x items ≡ true) stopped h))
      | inr (later, went_on) ↦
          let e =
            settled_with-Ends generation rest later items
              (subst (λ x. settled_with generation rest x items ≡ true) went_on h) in
          elim (noted_ready-some generation ready later c (type_of c) went_on) [
            | inl (other, same) ↦
                Ends-tail c other (subst (λ x. Ends generation rest x items) same e)
            | inr (named, fresh, on, up, current) ↦
                subst (λ x. Ends generation rest x (some c ∷ items)) (sym fresh)
                  (Ends-head c named up current (subst (λ x. Ends generation rest x items) on e))
          ]
    ]
  where
    clash : settled_with generation rest none items ≢ true
    clash x = cc

-- a Cluster that is settled
pub record IsSettled (r : Resource) : Type 0 where
  pub observed :
      is_current r.generation (r.fields.int_at ("status" ∷ "observedGeneration" ∷ [])) ≡ true
  pub items : List (Option Node)
  pub conditions : r.slice_at ("status" ∷ "conditions" ∷ []) ≡ present items
  pub one_ready : ready_count items ≡ 1
  pub reported : IsReported r.generation items
  pub desired : ℤ
  pub declared : int_of (r.fields.int_at ("spec" ∷ "instances" ∷ [])) ≡ some desired
  pub positive : leb_ℤ desired (pos 0) ≡ false
  pub instances : counts (r.fields.int_at ("status" ∷ "instances" ∷ [])) desired ≡ true
  pub ready_instances : counts (r.fields.int_at ("status" ∷ "readyInstances" ∷ [])) desired ≡ true
  pub primary : String
  pub primary_named : primary ≢ ""
  pub current_primary :
      string_of (r.fields.string_at ("status" ∷ "currentPrimary" ∷ [])) ≡ some primary
  pub target_primary :
      string_of (r.fields.string_at ("status" ∷ "targetPrimary" ∷ [])) ≡ some primary

same_primary-Settled :
    (current target : Nested String)
    → same_primary current target ≡ true
    → (p : String) × (p ≢ "") × (string_of current ≡ some p) × (string_of target ≡ some p)
unfolding same_primary string_of
same_primary-Settled malformed target h = cc
same_primary-Settled absent malformed h = cc
same_primary-Settled absent absent h = cc
same_primary-Settled absent (present t) h = ground (arith, eq_iff "" "")
same_primary-Settled (present c) malformed h = cc
same_primary-Settled (present c) absent h = absurd (ground (arith, eq_iff c ""))
same_primary-Settled (present c) (present t) h =
    (c, (λ e. ground (arith, eq_iff c "")), refl, ap some (ground (arith, eq_iff c t)))

-- the facts behind the loop
record Facts (r : Resource) (ready : Bool) : Type 0 where
  up : ready ≡ true
  desired : ℤ
  declared : int_of (r.fields.int_at ("spec" ∷ "instances" ∷ [])) ≡ some desired
  positive : leb_ℤ desired (pos 0) ≡ false
  instances : counts (r.fields.int_at ("status" ∷ "instances" ∷ [])) desired ≡ true
  ready_instances : counts (r.fields.int_at ("status" ∷ "readyInstances" ∷ [])) desired ≡ true
  primary :
      same_primary
        (r.fields.string_at ("status" ∷ "currentPrimary" ∷ []))
        (r.fields.string_at ("status" ∷ "targetPrimary" ∷ []))
      ≡ true

facts_settled-Facts : (r : Resource) (ready : Bool) → facts_settled r ready ≡ true → Facts r ready
unfolding facts_settled replicas_settled
facts_settled-Facts r ready h =
    elim (Option-cases (int_of (r.fields.int_at ("spec" ∷ "instances" ∷ [])))) [
      | inl broken ↦ absurd (clash (rw broken at h))
      | inr (desired, declared) ↦
          let facts = rw declared at h in
          record {
            up = ground arith;
            desired = desired;
            declared = declared;
            positive = ground arith;
            instances = ground arith;
            ready_instances = ground arith;
            primary = ground arith;
          }
    ]
  where
    clash : ◌≢◌ {A = Bool} false true
    clash x = cc

conditions_settled-IsSettled :
    (r : Resource) (n : Nested (List (Option Node)))
    → is_current r.generation (r.fields.int_at ("status" ∷ "observedGeneration" ∷ [])) ≡ true
    → r.slice_at ("status" ∷ "conditions" ∷ []) ≡ n
    → conditions_settled r n ≡ true
    → IsSettled r
unfolding conditions_settled
conditions_settled-IsSettled r malformed observed at_n h = cc
conditions_settled-IsSettled r absent observed at_n h = cc
conditions_settled-IsSettled r (present items) observed at_n h =
    let e = settled_with-Ends r.generation (facts_settled r) false items h in
    let f = facts_settled-Facts r e.final e.passed in
    let (p, named, current, target) = same_primary-Settled _ _ f.primary in
    record {
      observed = observed;
      items = items;
      conditions = at_n;
      one_ready = omega (arith, subst (λ x. bit false + ready_count items ≡ bit x) f.up e.counted);
      reported = elim (e.reported f.up) [ inl old ↦ absurd (clash old) | inr r ↦ r ];
      desired = f.desired;
      declared = f.declared;
      positive = f.positive;
      instances = f.instances;
      ready_instances = f.ready_instances;
      primary = p;
      primary_named = named;
      current_primary = current;
      target_primary = target;
    }
  where
    clash : ◌≢◌ {A = Bool} false true
    clash x = cc

-- A Cluster counts as ready only if its observed generation is not stale, it lists exactly one
-- condition of type Ready, which is true and not stale, its instances and ready instances are the
-- declared positive number, and its current primary is named and is the target primary.
pub cnpg_ready-IsSettled : (r : Resource) → cnpg_ready r ≡ true → IsSettled r
unfolding cnpg_ready
cnpg_ready-IsSettled r h = conditions_settled-IsSettled r _ (ground arith) refl (ground arith)
