-- ===== src/ContractProbe/Views.antt =====
-- internal/contractprobe/service.go: what the metrics show, and what each request has of them.
use data_product_controller.Prelude.{
  ℕ, String, ◌≡◌, ◌⊎◌, Bool, true, false, some, if◌then◌else◌, ◌==◌, string_eq, nat_eq, refl, sym,
  ◌∙◌, ap, inl, inr, Bool-cases, List, [], ◌∷◌, Option, none, subst,
}
use data_product_controller.ContractProbe.Service.{
  Phase, idle, holding, judged, passed, locked, counted, stamped, cleared, settled, answered,
  finished, reading, gathered, Memory, is_writing, in_slot, gauge, ready_after, observed_after,
}

-- the metrics show the last completed observation
pub record IsView (m : Memory) : Type 0 where
  pub ready : m.ready ≡ ready_after m.history
  pub observed : m.observed ≡ observed_after m.history

-- a value of the metrics behind some completed observation of a history, or before the first one
abbrev pub IsPast : List (String × ℕ) → ℕ → Option ℕ → Type 0
IsPast [] ready observed = (ready ≡ 0) × (observed ≡ none)
IsPast ((reason, now) ∷ history) ready observed =
    ((ready ≡ gauge reason) × (observed ≡ some now)) ⊎ IsPast history ready observed

pub IsView-IsPast :
    (history : List (String × ℕ)) (ready : ℕ) (observed : Option ℕ)
    → ready ≡ ready_after history
    → observed ≡ observed_after history
    → IsPast history ready observed
IsView-IsPast [] ready observed a b = (a, b)
IsView-IsPast (last ∷ history) ready observed a b = inl (a, b)

-- what the metrics show while a request writes them, and what a snapshot has shown
abbrev pub Progress : Memory → Phase → Type 0
Progress m (locked r) = IsView m
Progress m (counted r) = IsView m
Progress m (stamped r now) = m.observed ≡ some now
Progress m (cleared r now) = (m.observed ≡ some now) × (m.ready ≡ 0)
Progress m (settled r now) = (m.observed ≡ some now) × (m.ready ≡ gauge r)
Progress m (gathered ready observed) = IsPast m.history ready observed
Progress m _ = Unit

pub clash : {b : Bool} → b ≡ true → b ≡ false → ⊥
clash h k = cc

pub writing-in_slot : (p : Phase) → is_writing p ≡ true → in_slot p ≡ true
writing-in_slot p h = go p h
  where
    go : (p : Phase) → is_writing p ≡ true → in_slot p ≡ true
    go idle h = cc
    go holding h = refl
    go (judged r) h = refl
    go (passed r) h = refl
    go (locked r) h = refl
    go (counted r) h = refl
    go (stamped r n) h = refl
    go (cleared r n) h = refl
    go (settled r n) h = refl
    go (answered r) h = refl
    go (finished r) h = cc
    go reading h = cc
    go (gathered a b) h = cc

-- a history that stays or gains one observation
pub data Grown (before after : List (String × ℕ)) : Type 0 where
  same : after ≡ before → Grown before after
  more : (last : String × ℕ) → after ≡ last ∷ before → Grown before after

pub Grown-IsPast :
    {before after : List (String × ℕ)} (ready : ℕ) (observed : Option ℕ)
    → Grown before after
    → IsPast before ready observed
    → IsPast after ready observed
Grown-IsPast ready observed (same e) past = subst (λ h. IsPast h ready observed) (sym e) past
Grown-IsPast ready observed (more last e) past =
    subst (λ h. IsPast h ready observed) (sym e) (inr past)

-- a request that does not write keeps what it has, when another one moves
pub quiet-Progress :
    (m m' : Memory) (p : Phase)
    → Grown m.history m'.history
    → is_writing p ≡ false
    → Progress m p
    → Progress m' p
quiet-Progress m m' idle g h old = tt
quiet-Progress m m' holding g h old = tt
quiet-Progress m m' (judged r) g h old = tt
quiet-Progress m m' (passed r) g h old = tt
quiet-Progress m m' (locked r) g h old = absurd (clash refl h)
quiet-Progress m m' (counted r) g h old = absurd (clash refl h)
quiet-Progress m m' (stamped r n) g h old = absurd (clash refl h)
quiet-Progress m m' (cleared r n) g h old = absurd (clash refl h)
quiet-Progress m m' (settled r n) g h old = absurd (clash refl h)
quiet-Progress m m' (answered r) g h old = tt
quiet-Progress m m' (finished r) g h old = tt
quiet-Progress m m' reading g h old = tt
quiet-Progress m m' (gathered a b) g h old = Grown-IsPast a b g old

pub gauge-settled :
    (r : String) (ready : ℕ) → ready ≡ 0 → (if r == "ContractReachable" then 1 else ready) ≡ gauge r
gauge-settled r ready h = elim (Bool-cases (r == "ContractReachable")) [
  | inl e ↦ rw e refl
  | inr e ↦ rw e h
]

pub same-IsView :
    {m m' : Memory}
    → m'.ready ≡ m.ready
    → m'.observed ≡ m.observed
    → m'.history ≡ m.history
    → IsView m
    → IsView m'
same-IsView a b c v = record {
  ready = a ∙ v.ready ∙ ap ready_after (sym c);
  observed = b ∙ v.observed ∙ ap observed_after (sym c);
}
