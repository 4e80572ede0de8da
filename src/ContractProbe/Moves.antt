-- ===== src/ContractProbe/Moves.antt =====
-- internal/contractprobe/service.go: what one move does to the slot, to the locks and to the metrics.
use data_product_controller.Prelude.{
  String, ◌≡◌, ◌⊎◌, true, false, string_eq, nat_eq, refl, inl, inr,
}
use data_product_controller.ContractProbe.Service.{
  Phase, Memory, State, is_writing, is_reading, in_slot, Unwritten, Unread, Move, acquire, refuse,
  judge, pass, cancel, lock, revoke, record_request, stamp, clear, settle, unlock, release,
  read_lock, gather,
}
use data_product_controller.ContractProbe.Views.{
  IsView, IsView-IsPast, Progress, clash, Grown, same, more, gauge-settled, same-IsView,
}

-- what a move does to the slot
pub data Slotted (m : Memory) (p : Phase) (m' : Memory) (p' : Phase) : Type 0 where
  kept : in_slot p ≡ in_slot p' → m'.slot ≡ m.slot → Slotted m p m' p'
  taken : m.slot ≡ false → m'.slot ≡ true → Slotted m p m' p'
  freed : in_slot p ≡ true → in_slot p' ≡ false → Slotted m p m' p'

module _ {target : String} {s : State} {m : Memory} where
  pub Move-Slotted :
      {p : Phase} {m' : Memory} {p' : Phase} → Move target s m p m' p' → Slotted m p m' p'
  Move-Slotted (acquire h) = taken h refl
  Move-Slotted (refuse h) = kept refl refl
  Move-Slotted (judge e k) = kept refl refl
  Move-Slotted (pass r) = kept refl refl
  Move-Slotted (cancel r) = kept refl refl
  Move-Slotted (lock r u v) = kept refl refl
  Move-Slotted (revoke r) = kept refl refl
  Move-Slotted (record_request r) = kept refl refl
  Move-Slotted (stamp r now) = kept refl refl
  Move-Slotted (clear r now) = kept refl refl
  Move-Slotted (settle r now) = kept refl refl
  Move-Slotted (unlock r now) = kept refl refl
  Move-Slotted (release r) = freed refl refl
  Move-Slotted (read_lock u) = kept refl refl
  Move-Slotted gather = kept refl refl

  -- a request that writes behind a move wrote before it, or nobody wrote or read
  pub Move-writing :
      {p : Phase} {m' : Memory} {p' : Phase}
      → Move target s m p m' p'
      → is_writing p' ≡ true
      → (is_writing p ≡ true) ⊎ (Unwritten s × Unread s)
  Move-writing (acquire h) w = cc
  Move-writing (refuse h) w = cc
  Move-writing (judge e k) w = cc
  Move-writing (pass r) w = cc
  Move-writing (cancel r) w = cc
  Move-writing (lock r u v) w = inr (u, v)
  Move-writing (revoke r) w = cc
  Move-writing (record_request r) w = inl refl
  Move-writing (stamp r now) w = inl refl
  Move-writing (clear r now) w = inl refl
  Move-writing (settle r now) w = inl refl
  Move-writing (unlock r now) w = cc
  Move-writing (release r) w = cc
  Move-writing (read_lock u) w = cc
  Move-writing gather w = cc

  -- a request that reads behind a move has just locked, while nobody wrote
  pub Move-reading :
      {p : Phase} {m' : Memory} {p' : Phase}
      → Move target s m p m' p'
      → is_reading p' ≡ true
      → Unwritten s
  Move-reading (acquire h) w = cc
  Move-reading (refuse h) w = cc
  Move-reading (judge e k) w = cc
  Move-reading (pass r) w = cc
  Move-reading (cancel r) w = cc
  Move-reading (lock r u v) w = cc
  Move-reading (revoke r) w = cc
  Move-reading (record_request r) w = cc
  Move-reading (stamp r now) w = cc
  Move-reading (clear r now) w = cc
  Move-reading (settle r now) w = cc
  Move-reading (unlock r now) w = cc
  Move-reading (release r) w = cc
  Move-reading (read_lock u) w = u
  Move-reading gather w = cc

  -- a move leaves the shown metrics alone, or is one of a request that writes
  pub Move-metrics :
      {p : Phase} {m' : Memory} {p' : Phase}
      → Move target s m p m' p'
      → ((m'.ready ≡ m.ready) × (m'.observed ≡ m.observed) × (m'.history ≡ m.history))
        ⊎ (is_writing p ≡ true)
  Move-metrics (acquire h) = inl (refl, refl, refl)
  Move-metrics (refuse h) = inl (refl, refl, refl)
  Move-metrics (judge e k) = inl (refl, refl, refl)
  Move-metrics (pass r) = inl (refl, refl, refl)
  Move-metrics (cancel r) = inl (refl, refl, refl)
  Move-metrics (lock r u v) = inl (refl, refl, refl)
  Move-metrics (revoke r) = inr refl
  Move-metrics (record_request r) = inr refl
  Move-metrics (stamp r now) = inr refl
  Move-metrics (clear r now) = inr refl
  Move-metrics (settle r now) = inr refl
  Move-metrics (unlock r now) = inr refl
  Move-metrics (release r) = inl (refl, refl, refl)
  Move-metrics (read_lock u) = inl (refl, refl, refl)
  Move-metrics gather = inl (refl, refl, refl)

  pub Move-Grown :
      {p : Phase} {m' : Memory} {p' : Phase} → Move target s m p m' p' → Grown m.history m'.history
  Move-Grown (acquire h) = same refl
  Move-Grown (refuse h) = same refl
  Move-Grown (judge e k) = same refl
  Move-Grown (pass r) = same refl
  Move-Grown (cancel r) = same refl
  Move-Grown (lock r u v) = same refl
  Move-Grown (revoke r) = same refl
  Move-Grown (record_request r) = same refl
  Move-Grown (stamp r now) = same refl
  Move-Grown (clear r now) = same refl
  Move-Grown (settle r now) = same refl
  Move-Grown (unlock r now) = more (r, now) refl
  Move-Grown (release r) = same refl
  Move-Grown (read_lock u) = same refl
  Move-Grown gather = same refl

  pub Move-Progress :
      {p : Phase} {m' : Memory} {p' : Phase}
      → Move target s m p m' p'
      → Progress m p
      → (Unwritten s → IsView m)
      → (is_reading p ≡ true → Unwritten s)
      → Progress m' p'
  Move-Progress (acquire h) old view alone = tt
  Move-Progress (refuse h) old view alone = tt
  Move-Progress (judge e k) old view alone = tt
  Move-Progress (pass r) old view alone = tt
  Move-Progress (cancel r) old view alone = tt
  Move-Progress (lock r u v) old view alone = view u
  Move-Progress (revoke r) old view alone = tt
  Move-Progress (record_request r) old view alone = same-IsView refl refl refl old
  Move-Progress (stamp r now) old view alone = refl
  Move-Progress (clear r now) old view alone = (old, refl)
  Move-Progress (settle r now) (observed, zero) view alone =
      (observed, gauge-settled r m.ready zero)
  Move-Progress (unlock r now) old view alone = tt
  Move-Progress (release r) old view alone = tt
  Move-Progress (read_lock u) old view alone = tt
  Move-Progress gather old view alone =
      let v = view (alone refl) in IsView-IsPast m.history m.ready m.observed v.ready v.observed

  -- the metrics where a request gives the lock back
  pub Move-IsView :
      {p : Phase} {m' : Memory} {p' : Phase}
      → Move target s m p m' p'
      → is_writing p ≡ true
      → is_writing p' ≡ false
      → Progress m p
      → IsView m'
  Move-IsView (acquire h) w q old = cc
  Move-IsView (refuse h) w q old = cc
  Move-IsView (judge e k) w q old = cc
  Move-IsView (pass r) w q old = cc
  Move-IsView (cancel r) w q old = cc
  Move-IsView (lock r u v) w q old = cc
  Move-IsView (revoke r) w q old = same-IsView refl refl refl old
  Move-IsView (record_request r) w q old = absurd (clash refl q)
  Move-IsView (stamp r now) w q old = absurd (clash refl q)
  Move-IsView (clear r now) w q old = absurd (clash refl q)
  Move-IsView (settle r now) w q old = absurd (clash refl q)
  Move-IsView (unlock r now) w q (observed, ready) = record { ready = ready; observed = observed }
  Move-IsView (release r) w q old = cc
  Move-IsView (read_lock u) w q old = cc
  Move-IsView gather w q old = cc
