-- ===== src/Controller/Requests/Reached.antt =====
-- internal/controller/dataproduct_controller.go, `requestsForDependency`: the products that a
-- search requests, with transitive consumers.
use data_product_controller.Prelude.{
  ℕ, zero, suc, ◌≡◌, ◌≢◌, ◌⊎◌, Bool, true, false, Option, none, some, List, [], ◌∷◌, ◌++◌, ◌==◌,
  false≢true, Bool-cases, inl, inr, refl, sym, ◌∙◌, subst, some_inj, Memᴰ,
}
use mathlib.Core.List.Memᴰ
use data_product_controller.Kube.{ObjectKey, key_eq, key_beq_iff}
use data_product_controller.Controller.Requests.{Edge, consumers_of, Search, offer, offers, search}

-- `c` takes an output of `k`, or of a product that does
pub data Consumes (es : List Edge) (k : ObjectKey) : ObjectKey → Type 0 where
  direct : {c : ObjectKey} → Memᴰ c (consumers_of k es) → Consumes es k c
  onward : {m c : ObjectKey} → Consumes es k m → Memᴰ c (consumers_of m es) → Consumes es k c

-- how a search with transitive consumers goes on
record Grown (s s' : Search) : Type 0 where
  seen : (k : ObjectKey) → s.seen k ≡ true → s'.seen k ≡ true
  queue : (k : ObjectKey) → Memᴰ k s.queue → Memᴰ k s'.queue
  fresh : (k : ObjectKey) → s'.seen k ≡ true → (s.seen k ≡ true) ⊎ Memᴰ k s'.queue
  listed :
      ((k : ObjectKey) → s.seen k ≡ true → Memᴰ k s.requests)
      → (k : ObjectKey) → s'.seen k ≡ true
      → Memᴰ k s'.requests

Grown-refl : (s : Search) → Grown s s
Grown-refl s = record { seen = λ k h. h; queue = λ k h. h; fresh = λ k h. inl h; listed = λ f. f }

Grown-trans : {s t u : Search} → Grown s t → Grown t u → Grown s u
Grown-trans {s} {t} {u} a b = record {
  seen = λ k h. b.seen k (a.seen k h);
  queue = λ k h. b.queue k (a.queue k h);
  fresh = λ k h. elim (b.fresh k h) [
    | inr queued ↦ inr queued
    | inl before ↦ elim (a.fresh k before) [
      | inl old ↦ inl old
      | inr queued ↦ inr (b.queue k queued)
    ]
  ];
  listed = λ f. b.listed (a.listed f);
}

last : (k c : ObjectKey) (xs : List ObjectKey) → (k == c) ≡ true → Memᴰ k (xs ++ (c ∷ []))
last k c xs same = Memᴰ.append_right xs (Memᴰ.head ((key_beq_iff k c).0 same))

offer-Grown : (c : ObjectKey) (s : Search) → Grown s (offer true c s)
unfolding offer
offer-Grown c s = elim (Bool-cases (s.seen c)) [
  | inl old ↦ rw old (Grown-refl s)
  | inr new ↦ rw new (record {
    seen = λ k h. elim (Bool-cases (k == c)) [ inl same ↦ rw same refl | inr other ↦ rw other h ];
    queue = λ k h. Memᴰ.append_left (c ∷ []) h;
    fresh = λ k h. elim (Bool-cases (k == c)) [
      | inl same ↦ inr (last k c s.queue same)
      | inr other ↦ inl (rw other at h)
    ];
    listed = λ f k h. elim (Bool-cases (k == c)) [
      | inl same ↦ last k c s.requests same
      | inr other ↦ Memᴰ.append_left (c ∷ []) (f k (rw other at h))
    ];
  })
]

offer-seen : (c : ObjectKey) (s : Search) → (offer true c s).seen c ≡ true
unfolding offer
offer-seen c s = elim (Bool-cases (s.seen c)) [
  | inl old ↦ rw old old
  | inr new ↦ rw (new, (key_beq_iff c c).1 refl) refl
]

offers-Grown : (cs : List ObjectKey) (s : Search) → Grown s (offers true cs s)
unfolding offers
offers-Grown [] s = Grown-refl s
offers-Grown (c ∷ cs) s = Grown-trans (offer-Grown c s) (offers-Grown cs (offer true c s))

offers-seen :
    (cs : List ObjectKey) (s : Search) (c : ObjectKey)
    → Memᴰ c cs
    → (offers true cs s).seen c ≡ true
unfolding offers
offers-seen [] s c h = absurd (Memᴰ.not-nil h)
offers-seen (d ∷ cs) s c h = elim (Memᴰ.cases_cons h) [
  | inl same ↦ rw same ((offers-Grown cs (offer true d s)).seen d (offer-seen d s))
  | inr later ↦ offers-seen cs (offer true d s) c later
]

-- the products that wait to be searched, or are settled
pub record IsClosed (es : List Edge) (root : ObjectKey) (s : Search) : Type 0 where
  pub listed : (k : ObjectKey) → s.seen k ≡ true → Memᴰ k s.requests
  pub settled :
      (k : ObjectKey)
      → (k ≡ root) ⊎ (s.seen k ≡ true)
      → Memᴰ k s.queue ⊎ ((c : ObjectKey) → Memᴰ c (consumers_of k es) → s.seen c ≡ true)

pub queue_cases :
    (q : List ObjectKey)
    → (q ≡ []) ⊎ ((key : ObjectKey) × (rest : List ObjectKey) × (q ≡ key ∷ rest))
queue_cases [] = inl refl
queue_cases (key ∷ rest) = inr (key, rest, refl)

-- one round of the outer loop
round-IsClosed :
    (es : List Edge) (root key : ObjectKey) (rest : List ObjectKey) (s : Search)
    → s.queue ≡ key ∷ rest
    → IsClosed es root s
    → IsClosed es root (offers true (consumers_of key es) (record s { queue = rest }))
round-IsClosed es root key rest s at_queue h =
    let s' = record s { queue = rest } in
    let grown = offers-Grown (consumers_of key es) s' in
    let all_seen = offers-seen (consumers_of key es) s' in
    record {
      listed = grown.listed h.listed;
      settled = λ k reached. elim (Bool-cases (k == key)) [
        | inl same ↦ inr (λ c member.
            all_seen c
              (subst (λ x. Memᴰ c (consumers_of x es)) ((key_beq_iff k key).0 same) member))
        | inr other ↦ elim (known k reached grown.fresh) [
          | inr queued ↦ inl queued
          | inl before ↦ elim (h.settled k before) [
            | inr done ↦ inr (λ c member. grown.seen c (done c member))
            | inl waiting ↦ elim (Memᴰ.cases_cons (subst (λ q. Memᴰ k q) at_queue waiting)) [
              | inl same ↦ absurd (clash k other same)
              | inr later ↦ inl (grown.queue k later)
            ]
          ]
        ]
      ];
    }
  where
    known :
        {q : List ObjectKey} {f g : ObjectKey → Bool}
        → (k : ObjectKey) → (k ≡ root) ⊎ (g k ≡ true)
        → ((j : ObjectKey) → g j ≡ true → (f j ≡ true) ⊎ Memᴰ j q)
        → ((k ≡ root) ⊎ (f k ≡ true)) ⊎ Memᴰ k q
    known k (inl e) fresh = inl (inl e)
    known k (inr e) fresh = elim (fresh k e) [ inl old ↦ inl (inr old) | inr queued ↦ inr queued ]

    clash : (k : ObjectKey) → (k == key) ≡ false → k ≢ key
    clash k other same = false≢true (sym other ∙ (key_beq_iff k key).1 same)

-- a search that ends has requested every consumer
Consumes-listed :
    (es : List Edge) (root c : ObjectKey) (s : Search)
    → IsClosed es root s
    → s.queue ≡ []
    → Consumes es root c
    → s.seen c ≡ true
Consumes-listed es root c s h empty (direct member) = elim (h.settled root (inl refl)) [
  | inl waiting ↦ absurd (Memᴰ.not-nil (subst (λ q. Memᴰ root q) empty waiting))
  | inr done ↦ done c member
]
Consumes-listed es root c s h empty (onward {m} to_m member) =
    elim (h.settled m (inr (Consumes-listed es root m s h empty to_m))) [
      | inl waiting ↦ absurd (Memᴰ.not-nil (subst (λ q. Memᴰ m q) empty waiting))
      | inr done ↦ done c member
    ]

pub search-listed :
    (es : List Edge) (root c : ObjectKey) (fuel : ℕ) (s : Search) (rs : List ObjectKey)
    → IsClosed es root s
    → search true es fuel s ≡ some rs
    → Consumes es root c
    → Memᴰ c rs
unfolding search
search-listed es root c zero s rs h ran to = absurd (clash ran)
  where
    clash : ◌≢◌ {A = Option (List ObjectKey)} none (some rs)
    clash x = cc
search-listed es root c (suc fuel) s rs h ran to = elim (queue_cases s.queue) [
  | inl empty ↦
      subst (λ x. Memᴰ c x) (some_inj (rw empty at ran))
        (h.listed c (Consumes-listed es root c s h empty to))
  | inr (key, rest, filled) ↦
      search-listed es root c fuel (offers true (consumers_of key es) (record s { queue = rest }))
        rs (round-IsClosed es root key rest s filled h) (rw filled at ran) to
]
