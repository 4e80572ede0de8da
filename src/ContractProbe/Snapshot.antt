-- ===== src/ContractProbe/Snapshot.antt =====
-- internal/contractprobe/service.go: what holds in every state, whatever the interleaving. One request
-- has the slot, no snapshot is taken while one writes, and the metrics show the last observation.
use data_product_controller.Prelude.{
  ℕ, String, ◌≡◌, ◌≢◌, ◌⊎◌, Bool, true, false, string_eq, nat_eq, update, update_self, update_ne,
  refl, sym, ◌∙◌, ap, subst, inl, inr, Bool-cases, nat_beq_iff, nat_beq, Option,
}
use data_product_controller.ContractProbe.Service.{
  Phase, idle, holding, judged, passed, locked, counted, stamped, cleared, settled, answered,
  finished, reading, gathered, Memory, State, is_writing, is_reading, in_slot, Unwritten, Move,
  Step, pick, initial, Reach, start, later,
}
use data_product_controller.ContractProbe.Views.{
  IsView, Progress, clash, writing-in_slot, quiet-Progress, IsPast, same-IsView,
}
use data_product_controller.ContractProbe.Moves.{
  Slotted, kept, taken, freed, Move-Slotted, Move-writing, Move-reading, Move-metrics,
  Move-Progress, Move-Grown, Move-IsView,
}

pub record Holds (s : State) : Type 0 where
  pub free : s.memory.slot ≡ false → (i : ℕ) → in_slot (s.threads i) ≡ false
  pub alone : (i j : ℕ) → in_slot (s.threads i) ≡ true → in_slot (s.threads j) ≡ true → i ≡ j
  pub apart : (i j : ℕ) → is_reading (s.threads i) ≡ true → is_writing (s.threads j) ≡ true → ⊥
  pub view : Unwritten s → IsView s.memory
  pub progress : (i : ℕ) → Progress s.memory (s.threads i)

pub not-true-false : (b : Bool) → (b ≡ true → ⊥) → b ≡ false
not-true-false true h = absurd (h refl)
not-true-false false h = refl

pub apart_of : (j i : ℕ) → (j ≡ i) ⊎ (j ≢ i)
apart_of j i = elim (Bool-cases (nat_beq j i)) [
  | inl e ↦ inl ((nat_beq_iff j i).0 e)
  | inr e ↦ inr (λ same. clash ((nat_beq_iff j i).1 same) e)
]

module _ {target : String} (s : State) (h : Holds s) (i : ℕ) {m : Memory} {p : Phase}
    (mv : Move target s s.memory (s.threads i) m p) where
  abbrev behind : ℕ → Phase
  behind = update s.threads i p

  behind_self : (j : ℕ) → j ≡ i → behind j ≡ p
  behind_self j e = ap (λ x. update s.threads i p x) e ∙ update_self s.threads i p

  behind_other : (j : ℕ) → j ≢ i → behind j ≡ s.threads j
  behind_other j differs = update_ne s.threads i p j differs

  -- no other request has the slot where the one that moved has it
  alone_behind : (j : ℕ) → j ≢ i → in_slot p ≡ true → in_slot (s.threads j) ≡ true → ⊥
  alone_behind j differs has other = elim (Move-Slotted mv) [
    | kept same slot ↦ differs (h.alone j i other (same ∙ has))
    | taken vacant slot ↦ clash other (h.free vacant j)
    | freed had gone ↦ clash has gone
  ]

  free_behind : m.slot ≡ false → (j : ℕ) → in_slot (behind j) ≡ false
  free_behind vacant j = elim (apart_of j i) [
    | inl e ↦ ap in_slot (behind_self j e) ∙ own (Move-Slotted mv)
    | inr differs ↦ ap in_slot (behind_other j differs) ∙ others differs (Move-Slotted mv)
  ]
    where
      own : Slotted s.memory (s.threads i) m p → in_slot p ≡ false
      own (kept same slot) = sym same ∙ h.free (sym slot ∙ vacant) i
      own (taken was slot) = absurd (clash slot vacant)
      own (freed had gone) = gone

      others : j ≢ i → Slotted s.memory (s.threads i) m p → in_slot (s.threads j) ≡ false
      others differs (kept same slot) = h.free (sym slot ∙ vacant) j
      others differs (taken was slot) = h.free was j
      others differs (freed had gone) =
          not-true-false (in_slot (s.threads j)) (λ x. differs (h.alone j i x had))

  alone_after : (a b : ℕ) → in_slot (behind a) ≡ true → in_slot (behind b) ≡ true → a ≡ b
  alone_after a b ha hb = elim (apart_of a i) [
    | inl ea ↦ elim (apart_of b i) [
      | inl eb ↦ ea ∙ sym eb
      | inr nb ↦ absurd (alone_behind b nb (own a ea ha) (there b nb hb))
    ]
    | inr na ↦ elim (apart_of b i) [
      | inl eb ↦ absurd (alone_behind a na (own b eb hb) (there a na ha))
      | inr nb ↦ h.alone a b (there a na ha) (there b nb hb)
    ]
  ]
    where
      own : (j : ℕ) → j ≡ i → in_slot (behind j) ≡ true → in_slot p ≡ true
      own j e x = sym (ap in_slot (behind_self j e)) ∙ x

      there : (j : ℕ) → j ≢ i → in_slot (behind j) ≡ true → in_slot (s.threads j) ≡ true
      there j d x = sym (ap in_slot (behind_other j d)) ∙ x

  -- a request that wrote before the move is alone in writing
  others_quiet :
      is_writing (s.threads i) ≡ true → (j : ℕ) → j ≢ i → is_writing (s.threads j) ≡ false
  others_quiet w j differs = not-true-false (is_writing (s.threads j)) (λ x.
      differs (h.alone j i (writing-in_slot (s.threads j) x) (writing-in_slot (s.threads i) w)))

  apart_after : (a b : ℕ) → is_reading (behind a) ≡ true → is_writing (behind b) ≡ true → ⊥
  apart_after a b ra wb = elim (apart_of a i) [
    | inl ea ↦ elim (apart_of b i) [
      | inl eb ↦
          same_phase p (sym (ap is_reading (behind_self a ea)) ∙ ra)
            (sym (ap is_writing (behind_self b eb)) ∙ wb)
      | inr nb ↦
          clash (sym (ap is_writing (behind_other b nb)) ∙ wb)
            (Move-reading mv (sym (ap is_reading (behind_self a ea)) ∙ ra) b)
    ]
    | inr na ↦
        let reads = sym (ap is_reading (behind_other a na)) ∙ ra in
        elim (apart_of b i) [
          | inl eb ↦ elim (Move-writing mv (sym (ap is_writing (behind_self b eb)) ∙ wb)) [
            | inl before ↦ h.apart a i reads before
            | inr (_, unread) ↦ clash reads (unread a)
          ]
          | inr nb ↦ h.apart a b reads (sym (ap is_writing (behind_other b nb)) ∙ wb)
        ]
  ]
    where
      same_phase : (q : Phase) → is_reading q ≡ true → is_writing q ≡ true → ⊥
      same_phase reading x y = cc
      same_phase idle x y = cc
      same_phase holding x y = cc
      same_phase (judged r) x y = cc
      same_phase (passed r) x y = cc
      same_phase (locked r) x y = cc
      same_phase (counted r) x y = cc
      same_phase (stamped r n) x y = cc
      same_phase (cleared r n) x y = cc
      same_phase (settled r n) x y = cc
      same_phase (answered r) x y = cc
      same_phase (finished r) x y = cc
      same_phase (gathered u v) x y = cc

  behind-IsView : ((j : ℕ) → is_writing (behind j) ≡ false) → IsView m
  behind-IsView quiet = elim (Bool-cases (is_writing (s.threads i))) [
    | inl wrote ↦ Move-IsView mv wrote (own (quiet i)) (h.progress i)
    | inr still ↦ elim (Move-metrics mv) [
      | inl (a, b, c) ↦ same-IsView a b c (h.view (before still))
      | inr wrote ↦ absurd (clash wrote still)
    ]
  ]
    where
      own : is_writing (behind i) ≡ false → is_writing p ≡ false
      own q = sym (ap is_writing (behind_self i refl)) ∙ q

      before : is_writing (s.threads i) ≡ false → Unwritten s
      before still j = elim (apart_of j i) [
        | inl e ↦ ap (λ x. is_writing (s.threads x)) e ∙ still
        | inr d ↦ sym (ap is_writing (behind_other j d)) ∙ quiet j
      ]

  same-Progress :
      (m.ready ≡ s.memory.ready)
      → (m.observed ≡ s.memory.observed)
      → (m.history ≡ s.memory.history)
      → (q : Phase) → Progress s.memory q
      → Progress m q
  same-Progress a b c idle old = tt
  same-Progress a b c holding old = tt
  same-Progress a b c (judged r) old = tt
  same-Progress a b c (passed r) old = tt
  same-Progress a b c (locked r) old = same-IsView a b c old
  same-Progress a b c (counted r) old = same-IsView a b c old
  same-Progress a b c (stamped r now) old = b ∙ old
  same-Progress a b c (cleared r now) (x, y) = (b ∙ x, a ∙ y)
  same-Progress a b c (settled r now) (x, y) = (b ∙ x, a ∙ y)
  same-Progress a b c (answered r) old = tt
  same-Progress a b c (finished r) old = tt
  same-Progress a b c reading old = tt
  same-Progress a b c (gathered u v) old = subst (λ x. IsPast x u v) (sym c) old

  reads_alone : is_reading (s.threads i) ≡ true → Unwritten s
  reads_alone r j = not-true-false (is_writing (s.threads j)) (h.apart i j r)

  behind-Progress : (j : ℕ) → Progress m (behind j)
  behind-Progress j = elim (apart_of j i) [
    | inl e ↦
        subst (Progress m) (sym (behind_self j e))
          (Move-Progress mv (h.progress i) h.view reads_alone)
    | inr d ↦ subst (Progress m) (sym (behind_other j d)) (elim (Move-metrics mv) [
      | inl (a, b, c) ↦ same-Progress a b c (s.threads j) (h.progress j)
      | inr wrote ↦
          quiet-Progress s.memory m (s.threads j) (Move-Grown mv) (others_quiet wrote j d)
            (h.progress j)
    ])
  ]

  Move-Holds : Holds (record { memory = m; threads = behind })
  Move-Holds = record {
    free = free_behind;
    alone = alone_after;
    apart = apart_after;
    view = behind-IsView;
    progress = behind-Progress;
  }

pub Step-Holds : {target : String} {s t : State} → Holds s → Step target s t → Holds t
Step-Holds {target} {s} h (pick i mv) = Move-Holds s h i mv

initial-Holds : Holds initial
initial-Holds = record {
  free = λ e i. refl;
  alone = λ i j a b. absurd (clash a refl);
  apart = λ i j a b. clash a refl;
  view = λ u. record { ready = refl; observed = refl };
  progress = λ i. tt;
}

-- In every state that any interleaving of requests reaches, at most one request has the slot, no
-- snapshot is being taken while a request writes the metrics, and the metrics show the last completed
-- observation whenever no request writes them.
pub Reach-Holds : {target : String} {s : State} → Reach target s → Holds s
Reach-Holds start = initial-Holds
Reach-Holds (later r st) = Step-Holds (Reach-Holds r) st

-- A snapshot that any request has taken, however the requests interleave, shows the readiness and the
-- time of one completed observation together, or the initial values, and no mixture of two.
pub snapshot-IsPast :
    {target : String} {s : State} (i : ℕ) (ready : ℕ) (observed : Option ℕ)
    → Reach target s
    → s.threads i ≡ gathered ready observed
    → IsPast s.memory.history ready observed
snapshot-IsPast {s = s} i ready observed r e =
    subst (Progress s.memory) e ((Reach-Holds r).progress i)
