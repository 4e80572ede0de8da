-- ===== src/Controller/Requests/Exact.antt =====
-- internal/controller/dataproduct_controller.go, `requestsForDependency`: the fuel of the search,
-- and the requests with transitive consumers.
use data_product_controller.Prelude.{
  ℕ, zero, suc, ◌+◌, ◌≤◌, ◌<◌, ◌≡◌, ◌≢◌, ◌⊎◌, ◌↔◌, Bool, true, false, Option, none, some, List, [],
  ◌∷◌, arith, length, length-append, ◌==◌, update, sort_slice, sort_slice-All, All-sort_slice, All,
  All-mem, All-mono, Bool-cases, inl, inr, refl, sym, ap, subst, some_inj, Memᴰ, if◌then◌else◌,
}
use mathlib.Core.List.Memᴰ
use data_product_controller.Kube.{ObjectKey, key_eq, key_beq_iff}
use data_product_controller.Controller.Requests.{
  Edge, consumers_of, Search, offer, offers, search, start_search, by_string, requests_among,
}
use data_product_controller.Controller.Requests.Reached.{
  Consumes, direct, onward, IsClosed, queue_cases, search-listed,
}

-- what is queued and requested was reached
record IsSound (es : List Edge) (root : ObjectKey) (s : Search) : Type 0 where
  queue : (k : ObjectKey) → Memᴰ k s.queue → (k ≡ root) ⊎ Consumes es root k
  requests : (k : ObjectKey) → Memᴰ k s.requests → Consumes es root k

offer-IsSound :
    (es : List Edge) (root c : ObjectKey) (s : Search)
    → Consumes es root c
    → IsSound es root s
    → IsSound es root (offer true c s)
unfolding offer
offer-IsSound es root c s reached h = elim (Bool-cases (s.seen c)) [
  | inl old ↦ rw old h
  | inr new ↦ rw new (record {
    queue = λ k member. elim (Memᴰ.append_cases s.queue member) [
      | inl before ↦ h.queue k before
      | inr added ↦ inr (subst (λ x. Consumes es root x) (sym (Memᴰ.eq_of_singleton added)) reached)
    ];
    requests = λ k member. elim (Memᴰ.append_cases s.requests member) [
      | inl before ↦ h.requests k before
      | inr added ↦ subst (λ x. Consumes es root x) (sym (Memᴰ.eq_of_singleton added)) reached
    ];
  })
]

offers-IsSound :
    (es : List Edge) (root : ObjectKey) (cs : List ObjectKey) (s : Search)
    → ((c : ObjectKey) → Memᴰ c cs → Consumes es root c)
    → IsSound es root s
    → IsSound es root (offers true cs s)
unfolding offers
offers-IsSound es root [] s reached h = h
offers-IsSound es root (c ∷ cs) s reached h =
    offers-IsSound es root cs (offer true c s) (λ d m. reached d (Memᴰ.tail m))
      (offer-IsSound es root c s (reached c (Memᴰ.head refl)) h)

-- the consumers of a product that was reached
next :
    {es : List Edge} {root : ObjectKey} (k c : ObjectKey)
    → (k ≡ root) ⊎ Consumes es root k
    → Memᴰ c (consumers_of k es)
    → Consumes es root c
next {es} k c (inl e) m = direct (subst (λ x. Memᴰ c (consumers_of x es)) e m)
next k c (inr to) m = onward to m

search-IsSound :
    (es : List Edge) (root c : ObjectKey) (fuel : ℕ) (s : Search) (rs : List ObjectKey)
    → IsSound es root s
    → search true es fuel s ≡ some rs
    → Memᴰ c rs
    → Consumes es root c
unfolding search
search-IsSound es root c zero s rs h ran m = absurd (clash ran)
  where
    clash : ◌≢◌ {A = Option (List ObjectKey)} none (some rs)
    clash x = cc
search-IsSound es root c (suc fuel) s rs h ran m = elim (queue_cases s.queue) [
  | inl empty ↦ h.requests c (subst (λ x. Memᴰ c x) (sym (some_inj (rw empty at ran))) m)
  | inr (key, rest, filled) ↦
      search-IsSound es root c fuel (offers true (consumers_of key es) (record s { queue = rest }))
        rs
        (offers-IsSound es root (consumers_of key es) (record s { queue = rest })
          (λ d member.
            next key d (h.queue key (subst (λ q. Memᴰ key q) (sym filled) (Memᴰ.head refl))) member)
          (record {
            queue = λ k member. h.queue k (subst (λ q. Memᴰ k q) (sym filled) (Memᴰ.tail member));
            requests = h.requests;
          }))
        (rw filled at ran) m
]

-- the inputs whose consumers were not seen
abbrev unseen : (ObjectKey → Bool) → List Edge → ℕ
unseen f [] = 0
unseen f (e ∷ rest) = let n = unseen f rest in if f e.consumer then n else suc n

unseen-update_le :
    (f : ObjectKey → Bool) (c : ObjectKey) (es : List Edge)
    → unseen (update f c true) es ≤ unseen f es
unseen-update_le f c [] = omega arith
unseen-update_le f c (e ∷ es) = elim (Bool-cases (e.consumer == c)) [
  | inl same ↦ elim (Bool-cases (f e.consumer)) [
    | inl old ↦ rw (same, old) (unseen-update_le f c es)
    | inr new ↦ rw (same, new) (omega (arith, unseen-update_le f c es))
  ]
  | inr other ↦ elim (Bool-cases (f e.consumer)) [
    | inl old ↦ rw (other, old) (unseen-update_le f c es)
    | inr new ↦ rw (other, new) (omega (arith, unseen-update_le f c es))
  ]
]

unseen-length : (f : ObjectKey → Bool) (es : List Edge) → unseen f es ≤ length es
unseen-length f [] = omega arith
unseen-length f (e ∷ es) = elim (Bool-cases (f e.consumer)) [
  | inl old ↦ rw old (omega (arith, unseen-length f es))
  | inr new ↦ rw new (omega (arith, unseen-length f es))
]

-- an input in front of the others
unseen-cons :
    (f : ObjectKey → Bool) (c : ObjectKey) (e : Edge) (es : List Edge)
    → unseen (update f c true) es < unseen f es
    → unseen (update f c true) (e ∷ es) < unseen f (e ∷ es)
unseen-cons f c e es h = elim (Bool-cases (e.consumer == c)) [
  | inl same ↦ elim (Bool-cases (f e.consumer)) [
    | inl old ↦ rw (same, old) h
    | inr new ↦ rw (same, new) (omega (arith, h))
  ]
  | inr other ↦ elim (Bool-cases (f e.consumer)) [
    | inl old ↦ rw (other, old) h
    | inr new ↦ rw (other, new) (omega (arith, h))
  ]
]

unseen-head :
    (f : ObjectKey → Bool) (c : ObjectKey) (e : Edge) (es : List Edge)
    → f c ≡ false
    → c ≡ e.consumer
    → unseen (update f c true) (e ∷ es) < unseen f (e ∷ es)
unseen-head f c e es new same =
    let fresh : f e.consumer ≡ false = subst (λ x. f x ≡ false) same new in
    rw ((key_beq_iff e.consumer c).1 (sym same), fresh) (omega (arith, unseen-update_le f c es))

unseen-drop :
    (f : ObjectKey → Bool) (c k : ObjectKey) (es : List Edge)
    → f c ≡ false
    → Memᴰ c (consumers_of k es)
    → unseen (update f c true) es < unseen f es
unseen-drop f c k [] new m = absurd (Memᴰ.not-nil m)
unseen-drop f c k (e ∷ es) new m = elim (Bool-cases (e.producer == k)) [
  | inl named ↦ elim (Memᴰ.cases_cons (rw named at m)) [
    | inl same ↦ unseen-head f c e es new same
    | inr later ↦ unseen-cons f c e es (unseen-drop f c k es new later)
  ]
  | inr other ↦ unseen-cons f c e es (unseen-drop f c k es new (rw other at m))
]

abbrev remaining : List Edge → Search → ℕ
remaining es s = length s.queue + unseen s.seen es

offer-remaining :
    (es : List Edge) (k c : ObjectKey) (s : Search)
    → Memᴰ c (consumers_of k es)
    → remaining es (offer true c s) ≤ remaining es s
unfolding offer
offer-remaining es k c s m = elim (Bool-cases (s.seen c)) [
  | inl old ↦ rw old (omega arith)
  | inr new ↦
      rw new (omega (arith, length-append s.queue (c ∷ []), unseen-drop s.seen c k es new m))
]

offers-remaining :
    (es : List Edge) (k : ObjectKey) (cs : List ObjectKey) (s : Search)
    → ((c : ObjectKey) → Memᴰ c cs → Memᴰ c (consumers_of k es))
    → remaining es (offers true cs s) ≤ remaining es s
unfolding offers
offers-remaining es k [] s f = omega arith
offers-remaining es k (c ∷ cs) s f = omega (
  arith,
  offer-remaining es k c s (f c (Memᴰ.head refl)),
  offers-remaining es k cs (offer true c s) (λ d m. f d (Memᴰ.tail m)),
)

search_returns :
    (es : List Edge) (fuel : ℕ) (s : Search)
    → remaining es s < fuel
    → (rs : List ObjectKey) × (search true es fuel s ≡ some rs)
unfolding search
search_returns es zero s h = absurd (omega (arith, h))
search_returns es (suc fuel) s h = elim (queue_cases s.queue) [
  | inl empty ↦ rw empty (s.requests, refl)
  | inr (key, rest, filled) ↦ rw filled (
      search_returns es fuel (offers true (consumers_of key es) (record s { queue = rest })) (
        omega (
          arith,
          h,
          ap length filled,
          offers-remaining es key (consumers_of key es) (record s { queue = rest }) (λ c m. m),
        )))
]

-- every element of a list is an element of it
All-self : (xs : List ObjectKey) → All (λ x. Memᴰ x xs) xs
All-self [] = tt
All-self (x ∷ xs) = (Memᴰ.head refl, All-mono (λ y m. Memᴰ.tail m) xs (All-self xs))

sorted_iff : (rs : List ObjectKey) (c : ObjectKey) → Memᴰ c (sort_slice by_string rs) ↔ Memᴰ c rs
sorted_iff rs c = (
  λ m.
      All-mem (λ x. Memᴰ x rs) (sort_slice by_string rs)
        (sort_slice-All by_string (λ x. Memᴰ x rs) rs (All-self rs)) m,
  λ m.
      All-mem (λ x. Memᴰ x (sort_slice by_string rs)) rs
        (All-sort_slice by_string (λ x. Memᴰ x (sort_slice by_string rs)) rs
          (All-self (sort_slice by_string rs)))
        m,
)

start-IsClosed : (es : List Edge) (root : ObjectKey) → IsClosed es root (start_search root)
start-IsClosed es root = record {
  listed = λ k h. absurd (clash h);
  settled =
      λ k reached. elim reached [ inl e ↦ inl (Memᴰ.head e) | inr seen ↦ absurd (clash seen) ];
}
  where
    clash : ◌≢◌ {A = Bool} false true
    clash x = cc

-- With transitive consumers, the search for the requests always ends, and it requests exactly the
-- products that take an output of the changed one, directly or through other products.
pub requests_among_iff :
    (root : ObjectKey) (es : List Edge)
    → (rs : List ObjectKey) × (requests_among true root es ≡ some rs)
      × ((c : ObjectKey) → Memᴰ c rs ↔ Consumes es root c)
unfolding requests_among
requests_among_iff root es =
    let (found_keys, ran) =
      search_returns es (length es + 2) (start_search root)
        (omega (arith, unseen-length (λ _. false) es)) in
    (
      sort_slice by_string found_keys,
      rw ran refl,
      λ c. (
        λ m.
            search-IsSound es root c (length es + 2) (start_search root) found_keys
              (record {
                queue = λ k m'. inl (Memᴰ.eq_of_singleton m');
                requests = λ k m'. absurd (Memᴰ.not-nil m');
              })
              ran ((sorted_iff found_keys c).0 m),
        λ to. (sorted_iff found_keys c).1 (
            search-listed es root c (length es + 2) (start_search root) found_keys
              (start-IsClosed es root) ran to),
      ),
    )
