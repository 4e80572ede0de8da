-- ===== src/ContractProbe/Service.antt =====
-- internal/contractprobe/service.go, `readiness` and `Gather`, run by any number of requests at once.
-- A step is one call that others can see. The slot is the channel's one place; that sync.RWMutex
-- keeps a writer alone is the premises `Unwritten` and `Unread` of its locks. `history` is not part
-- of the program: it records the completed observations, the last one first.
use data_product_controller.Prelude.{
  ℕ, ◌+◌, String, ◌≡◌, Bool, true, false, Option, none, some, List, [], ◌∷◌, if◌then◌else◌, ◌==◌,
  string_eq, nat_eq, update,
}
use data_product_controller.ContractProbe.{Network, judged_reason}

-- where a request stands: in `readiness`, from `holding` to `answered` with the slot and from
-- `locked` to `settled` with the lock, or in `Gather`
pub data Phase : Type 0 where
  idle holding : Phase
  judged passed locked counted : String → Phase
  stamped cleared settled : String → ℕ → Phase
  answered finished : String → Phase
  reading : Phase
  gathered : ℕ → Option ℕ → Phase

-- the metrics and the slot
pub record Memory : Type 0 where
  pub slot : Bool
  pub requests : String → ℕ
  pub ready : ℕ
  pub observed : Option ℕ
  pub history : List (String × ℕ)

pub record State : Type 0 where
  pub memory : Memory
  pub threads : ℕ → Phase

abbrev pub is_writing : Phase → Bool
is_writing (locked _) = true
is_writing (counted _) = true
is_writing (stamped _ _) = true
is_writing (cleared _ _) = true
is_writing (settled _ _) = true
is_writing _ = false

abbrev pub is_reading : Phase → Bool
is_reading reading = true
is_reading _ = false

abbrev pub in_slot : Phase → Bool
in_slot holding = true
in_slot (judged _) = true
in_slot (passed _) = true
in_slot (locked _) = true
in_slot (counted _) = true
in_slot (stamped _ _) = true
in_slot (cleared _ _) = true
in_slot (settled _ _) = true
in_slot (answered _) = true
in_slot _ = false

abbrev pub Unwritten : State → Type 0
Unwritten s = (i : ℕ) → is_writing (s.threads i) ≡ false

abbrev pub Unread : State → Type 0
Unread s = (i : ℕ) → is_reading (s.threads i) ≡ false

-- `s.requests.WithLabelValues(label).Inc()`
abbrev pub count : String → Memory → Memory
count label m = record m { requests = update m.requests label (m.requests label + 1) }

-- the gauge of a reason
abbrev pub gauge : String → ℕ
gauge reason = if reason == "ContractReachable" then 1 else 0

-- a step of one request in a state
pub data Move (target : String) (s : State) (m : Memory) : Phase → Memory → Phase → Type 0 where
  acquire : m.slot ≡ false → Move target s m idle (record m { slot = true }) holding
  refuse :
      m.slot ≡ true
      → Move target s m idle (count "ContractProbeBusy" m) (finished "ContractProbeBusy")
  judge :
      (enabled : Option Bool) (network : Network)
      → Move target s m holding m (judged (judged_reason enabled network target))
  pass : (r : String) → Move target s m (judged r) m (passed r)
  cancel :
      (r : String)
      → Move target s m
          (judged r)
          (count "ContractProbeCancelled" m)
          (answered "ContractProbeCancelled")
  lock : (r : String) → Unwritten s → Unread s → Move target s m (passed r) m (locked r)
  revoke :
      (r : String)
      → Move target s m
          (locked r)
          (count "ContractProbeCancelled" m)
          (answered "ContractProbeCancelled")
  record_request : (r : String) → Move target s m (locked r) (count r m) (counted r)
  stamp :
      (r : String) (now : ℕ)
      → Move target s m (counted r) (record m { observed = some now }) (stamped r now)
  clear :
      (r : String) (now : ℕ)
      → Move target s m (stamped r now) (record m { ready = 0 }) (cleared r now)
  settle :
      (r : String) (now : ℕ)
      → Move target s m
          (cleared r now)
          (record m { ready = if r == "ContractReachable" then 1 else m.ready })
          (settled r now)
  unlock :
      (r : String) (now : ℕ)
      → Move target s m (settled r now) (record m { history = (r, now) ∷ m.history }) (answered r)
  release : (r : String) → Move target s m (answered r) (record m { slot = false }) (finished r)
  read_lock : Unwritten s → Move target s m idle m reading
  gather : Move target s m reading m (gathered m.ready m.observed)

pub data Step (target : String) (s : State) : State → Type 0 where
  pick :
      (i : ℕ) {m : Memory} {p : Phase}
      → Move target s s.memory (s.threads i) m p
      → Step target s (record { memory = m; threads = update s.threads i p })

-- NewService
abbrev pub initial : State
initial = record {
  memory = record { slot = false; requests = λ _. 0; ready = 0; observed = none; history = [] };
  threads = λ _. idle;
}

pub data Reach (target : String) : State → Type 0 where
  start : Reach target initial
  later : {s t : State} → Reach target s → Step target s t → Reach target t

-- what the metrics show after a history
abbrev pub ready_after : List (String × ℕ) → ℕ
ready_after [] = 0
ready_after ((reason, _) ∷ _) = gauge reason

abbrev pub observed_after : List (String × ℕ) → Option ℕ
observed_after [] = none
observed_after ((_, now) ∷ _) = some now
