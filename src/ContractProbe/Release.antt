-- ===== src/ContractProbe/Release.antt =====
-- internal/contractprobe/service.go: a request that has the slot can end and give it back.
use data_product_controller.Prelude.{
  ℕ, String, ◌≡◌, Bool, true, false, Option, none, some, update, update_self, update_ne, nat_eq,
  refl, sym, ◌∙◌, ap, subst, inl, inr,
}
use data_product_controller.ContractProbe.{Network, judged_reason}
use data_product_controller.ContractProbe.Service.{
  Phase, idle, holding, judged, passed, locked, counted, stamped, cleared, settled, answered,
  finished, reading, gathered, Memory, State, is_writing, is_reading, in_slot, Unwritten, Unread,
  Move, judge, pass, lock, record_request, stamp, clear, settle, unlock, release, pick, Reach,
}
use data_product_controller.ContractProbe.Views.{clash, writing-in_slot}
use data_product_controller.ContractProbe.Snapshot.{
  Holds, Step-Holds, Reach-Holds, not-true-false, apart_of,
}

abbrev pub moved : State → ℕ → Memory → Phase → State
moved s i m p = record { memory = m; threads = update s.threads i p }

-- the result that a request in a phase ends with, unless it is cancelled
abbrev pub pending : Option Bool → Network → String → Phase → Option String
pending enabled network target idle = none
pending enabled network target holding = some (judged_reason enabled network target)
pending enabled network target (judged r) = some r
pending enabled network target (passed r) = some r
pending enabled network target (locked r) = some r
pending enabled network target (counted r) = some r
pending enabled network target (stamped r now) = some r
pending enabled network target (cleared r now) = some r
pending enabled network target (settled r now) = some r
pending enabled network target (answered r) = some r
pending enabled network target (finished r) = some r
pending enabled network target reading = none
pending enabled network target (gathered a b) = none

-- Moves of one request alone that leave its pending result as it is: it is judged by this feature
-- gate and this network, and it is not cancelled.
pub data Run (enabled : Option Bool) (network : Network) (target : String) (i : ℕ)
    : State → State → Type 0 where
  here : {s : State} → Run enabled network target i s s
  next :
      {s t : State} {m : Memory} {p : Phase}
      → Move target s s.memory (s.threads i) m p
      → pending enabled network target p ≡ pending enabled network target (s.threads i)
      → Run enabled network target i (moved s i m p) t
      → Run enabled network target i s t

-- a run of one request alone, which ends with its pending result and the slot free
pub record Ends (enabled : Option Bool) (network : Network) (target : String) (s : State) (i : ℕ)
    : Type 0 where
  pub final : State
  pub run : Run enabled network target i s final
  pub vacant : final.memory.slot ≡ false
  pub result : String
  pub ended : final.threads i ≡ finished result
  pub decided : pending enabled network target (s.threads i) ≡ some result

-- nobody writes while a request that does not write has the slot
alone-Unwritten :
    (s : State) (i : ℕ)
    → Holds s
    → in_slot (s.threads i) ≡ true
    → is_writing (s.threads i) ≡ false
    → Unwritten s
alone-Unwritten s i h has quiet j = not-true-false (is_writing (s.threads j)) (λ w.
    clash
      (subst (λ x. is_writing (s.threads x) ≡ true)
        (h.alone j i (writing-in_slot (s.threads j) w) has) w)
      quiet)

moved-Unread :
    (s : State) (i : ℕ) (m : Memory) (p : Phase)
    → Unread s
    → is_reading p ≡ false
    → Unread (moved s i m p)
moved-Unread s i m p unread quiet j = elim (apart_of j i) [
  | inl e ↦
      ap (λ x. is_reading (update s.threads i p x)) e
      ∙ ap is_reading (update_self s.threads i p)
      ∙ quiet
  | inr d ↦ ap is_reading (update_ne s.threads i p j d) ∙ unread j
]

module _ {target : String} (enabled : Option Bool) (network : Network) where
  -- one more move in front of a run
  after_move :
      (s : State) (i : ℕ) (before : Phase) {m : Memory} {p : Phase}
      → s.threads i ≡ before
      → Move target s s.memory before m p
      → pending enabled network target p ≡ pending enabled network target before
      → ((moved s i m p).threads i ≡ p → Ends enabled network target (moved s i m p) i)
      → Ends enabled network target s i
  after_move s i before {m} {p} e mv same rest =
      let f = rest (update_self s.threads i p) in
      record {
        final = f.final;
        run =
            next (subst (λ x. Move target s s.memory x m p) (sym e) mv)
              (same ∙ ap (pending enabled network target) (sym e)) f.run;
        vacant = f.vacant;
        result = f.result;
        ended = f.ended;
        decided =
            ap (pending enabled network target) e
            ∙ (sym same
                ∙ (ap (pending enabled network target) (sym (update_self s.threads i p))
                    ∙ f.decided));
      }

  answered-Ends :
      (s : State) (i : ℕ) (r : String) → s.threads i ≡ answered r → Ends enabled network target s i
  answered-Ends s i r e = after_move s i (answered r) e (release r) refl (λ at. record {
    final = _;
    run = here;
    vacant = refl;
    result = r;
    ended = at;
    decided = ap (pending enabled network target) at;
  })

  settled-Ends :
      (s : State) (i : ℕ) (r : String) (now : ℕ)
      → s.threads i ≡ settled r now
      → Ends enabled network target s i
  settled-Ends s i r now e =
      after_move s i (settled r now) e (unlock r now) refl (answered-Ends _ i r)

  cleared-Ends :
      (s : State) (i : ℕ) (r : String) (now : ℕ)
      → s.threads i ≡ cleared r now
      → Ends enabled network target s i
  cleared-Ends s i r now e =
      after_move s i (cleared r now) e (settle r now) refl (settled-Ends _ i r now)

  stamped-Ends :
      (s : State) (i : ℕ) (r : String) (now : ℕ)
      → s.threads i ≡ stamped r now
      → Ends enabled network target s i
  stamped-Ends s i r now e =
      after_move s i (stamped r now) e (clear r now) refl (cleared-Ends _ i r now)

  counted-Ends :
      (s : State) (i : ℕ) (r : String) → s.threads i ≡ counted r → Ends enabled network target s i
  counted-Ends s i r e = after_move s i (counted r) e (stamp r 1) refl (stamped-Ends _ i r 1)

  locked-Ends :
      (s : State) (i : ℕ) (r : String) → s.threads i ≡ locked r → Ends enabled network target s i
  locked-Ends s i r e = after_move s i (locked r) e (record_request r) refl (counted-Ends _ i r)

  passed-Ends :
      (s : State) (i : ℕ) (r : String)
      → Holds s
      → Unread s
      → s.threads i ≡ passed r
      → Ends enabled network target s i
  passed-Ends s i r h unread e =
      let free = alone-Unwritten s i h (ap in_slot e) (ap is_writing e) in
      after_move s i (passed r) e (lock r free unread) refl (locked-Ends _ i r)

  judged-Ends :
      (s : State) (i : ℕ) (r : String)
      → Holds s
      → Unread s
      → s.threads i ≡ judged r
      → Ends enabled network target s i
  judged-Ends s i r h unread e =
      let mv : Move target s s.memory (s.threads i) s.memory (passed r) =
        subst (λ x. Move target s s.memory x s.memory (passed r)) (sym e) (pass r) in
      after_move s i (judged r) e (pass r) refl (
        passed-Ends _ i r (Step-Holds h (pick i mv))
          (moved-Unread s i s.memory (passed r) unread refl))

  holding-Ends :
      (s : State) (i : ℕ)
      → Holds s
      → Unread s
      → s.threads i ≡ holding
      → Ends enabled network target s i
  holding-Ends s i h unread e =
      let r = judged_reason enabled network target in
      let mv : Move target s s.memory (s.threads i) s.memory (judged r) =
        subst (λ x. Move target s s.memory x s.memory (judged r)) (sym e) (judge enabled network) in
      after_move s i holding e (judge enabled network) refl (
        judged-Ends _ i r (Step-Holds h (pick i mv))
          (moved-Unread s i s.memory (judged r) unread refl))

  in_slot-Ends :
      (s : State) (i : ℕ) (p : Phase)
      → Holds s
      → Unread s
      → s.threads i ≡ p
      → in_slot p ≡ true
      → Ends enabled network target s i
  in_slot-Ends s i idle h unread e has = cc
  in_slot-Ends s i holding h unread e has = holding-Ends s i h unread e
  in_slot-Ends s i (judged r) h unread e has = judged-Ends s i r h unread e
  in_slot-Ends s i (passed r) h unread e has = passed-Ends s i r h unread e
  in_slot-Ends s i (locked r) h unread e has = locked-Ends s i r e
  in_slot-Ends s i (counted r) h unread e has = counted-Ends s i r e
  in_slot-Ends s i (stamped r now) h unread e has = stamped-Ends s i r now e
  in_slot-Ends s i (cleared r now) h unread e has = cleared-Ends s i r now e
  in_slot-Ends s i (settled r now) h unread e has = settled-Ends s i r now e
  in_slot-Ends s i (answered r) h unread e has = answered-Ends s i r e
  in_slot-Ends s i (finished r) h unread e has = cc
  in_slot-Ends s i reading h unread e has = cc
  in_slot-Ends s i (gathered a b) h unread e has = cc

  -- From every state that is reached and in which no snapshot is being taken, a request that has the
  -- slot can go on alone and without being cancelled, under every feature gate and network, to a free
  -- slot and its result: what that gate and network judge of the target where it is not judged yet,
  -- and otherwise the result that it already has.
  pub slot-Ends :
      (s : State) (i : ℕ)
      → Reach target s
      → Unread s
      → in_slot (s.threads i) ≡ true
      → Ends enabled network target s i
  slot-Ends s i r unread has = in_slot-Ends s i (s.threads i) (Reach-Holds r) unread refl has
