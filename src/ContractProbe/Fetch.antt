-- ===== src/ContractProbe/Fetch.antt =====
-- internal/contractprobe/service.go, `fetch`: when a contract is reachable.
use data_product_controller.Prelude.{
  ℕ, ◌+◌, ◌≤◌, ◌<◌, String, pos, ◌≡◌, ◌≢◌, ◌↔◌, Bool, true, false, not, ◌||◌, Option, none, some,
  ltb, nat_beq, leb_ℤ, arith, nat_beq_iff, refl, inl, inr, Bool-cases, ◌==◌, string_eq, eq_iff,
}
use data_product_controller.ContractProbe.{
  Url, Body, Response, Network, limit, copied, is_valid_target, is_identity, sized_result,
  response_result, target_result, fetch,
}

-- a body of one to 2^20 bytes, read to its end
pub record IsBounded (b : Body) : Type 0 where
  pub not_empty : 0 < b.length
  pub bounded : b.length ≤ 1048576
  pub whole : b.fails ≡ false

-- a response that shows a reachable contract
pub record IsAnswer (r : Response) : Type 0 where
  pub status : r.status_code ≡ 200
  pub declared : leb_ℤ r.content_length (pos limit) ≡ true
  pub identity : is_identity r.encodings ≡ true
  pub body : IsBounded r.body

-- a target that is valid, requested, and answered
pub record IsReachable (k : Network) (target : String) : Type 0 where
  pub url : Url
  pub parsed : k.parse target ≡ some url
  pub valid : is_valid_target target url ≡ true
  pub requestable : k.is_requestable target ≡ true
  pub response : Response
  pub answered : k.do_request target ≡ some response
  pub answer : IsAnswer response

apart : {a b : String} → (a == b) ≡ false → a ≢ b
apart {a} {b} h e = ground (arith, eq_iff a b)

unavailable_apart : ◌≢◌ {A = String} "ContractUnavailable" "ContractReachable"
unavailable_apart = apart refl

invalid_apart : ◌≢◌ {A = String} "ContractInvalidResponse" "ContractReachable"
invalid_apart = apart refl

configuration_apart : ◌≢◌ {A = String} "ContractConfigurationInvalid" "ContractReachable"
configuration_apart = apart refl

sized_result-reachable :
    (size : ℕ) (b : Bool)
    → sized_result (size, b) ≡ "ContractReachable"
    → (b ≡ false) × (0 < size) × (size ≤ 1048576)
unfolding sized_result
sized_result-reachable size true h = absurd (unavailable_apart h)
sized_result-reachable size false h = elim (Bool-cases (nat_beq size 0 || ltb limit size)) [
  | inl bad ↦ absurd (invalid_apart (rw bad at h))
  | inr good ↦ (refl, ground arith, ground arith)
]

copied-IsBounded :
    (b : Body) → sized_result (copied (limit + 1) b) ≡ "ContractReachable" → IsBounded b
copied-IsBounded b h = elim (Bool-cases (ltb b.length (limit + 1))) [
  | inl short ↦
      let (whole, not_empty, bounded) = sized_result-reachable b.length b.fails (rw short at h) in
      record { not_empty = not_empty; bounded = bounded; whole = whole }
  | inr long ↦
      let (_, _, bounded) = sized_result-reachable (limit + 1) _ (rw long at h) in
      absurd (omega (arith, bounded))
]

IsBounded-copied :
    (b : Body) → IsBounded b → sized_result (copied (limit + 1) b) ≡ "ContractReachable"
unfolding sized_result
IsBounded-copied b h =
    let short : ltb b.length (limit + 1) ≡ true = bounded_ltb b.length h.bounded in
    let good : (nat_beq b.length 0 || ltb limit b.length) ≡ false =
      in_range b.length h.not_empty h.bounded in
    rw (short, h.whole, good) refl
  where
    bounded_ltb : (n : ℕ) → n ≤ 1048576 → ltb n (limit + 1) ≡ true
    bounded_ltb n e = ground arith

    in_range : (n : ℕ) → 0 < n → n ≤ 1048576 → (nat_beq n 0 || ltb limit n) ≡ false
    in_range n p e = ground arith

response_result-IsAnswer :
    (r : Response) → response_result (some r) ≡ "ContractReachable" → IsAnswer r
unfolding response_result
response_result-IsAnswer r h = elim (Bool-cases (not (nat_beq r.status_code 200))) [
  | inl other ↦ absurd (unavailable_apart (rw other at h))
  | inr ok ↦
      elim (Bool-cases
        (not (leb_ℤ r.content_length (pos limit)) || not (is_identity r.encodings))) [
          | inl bad ↦ absurd (invalid_apart (rw (ok, bad) at h))
          | inr good ↦ record {
            status = ground (arith, nat_beq_iff r.status_code 200);
            declared = ground arith;
            identity = ground arith;
            body = copied-IsBounded r.body (rw (ok, good) at h);
          }
        ]
]

IsAnswer-response_result :
    (r : Response) → IsAnswer r → response_result (some r) ≡ "ContractReachable"
unfolding response_result
IsAnswer-response_result r h =
    let ok = (nat_beq_iff r.status_code 200).1 h.status in
    rw (ok, h.declared, h.identity) (IsBounded-copied r.body h.body)

module _ (k : Network) (target : String) where
  target_result-IsReachable :
      (u : Option Url) (o : Option Response)
      → k.parse target ≡ u
      → k.do_request target ≡ o
      → target_result k target u ≡ "ContractReachable"
      → IsReachable k target
  unfolding target_result response_result
  target_result-IsReachable none o parsed ran h = absurd (configuration_apart h)
  target_result-IsReachable (some u) o parsed ran h =
      elim (Bool-cases (not (is_valid_target target u) || not (k.is_requestable target))) [
        | inl bad ↦ absurd (configuration_apart (rw bad at h))
        | inr good ↦ answered o ran (rw (good, ran) at h) good
      ]
    where
      answered :
          (o : Option Response)
          → k.do_request target ≡ o
          → response_result o ≡ "ContractReachable"
          → (not (is_valid_target target u) || not (k.is_requestable target)) ≡ false
          → IsReachable k target
      answered none e x good = absurd (unavailable_apart x)
      answered (some r) e x good = record {
        url = u;
        parsed = parsed;
        valid = ground arith;
        requestable = ground arith;
        response = r;
        answered = e;
        answer = response_result-IsAnswer r x;
      }

  IsReachable-fetch : IsReachable k target → fetch k target ≡ "ContractReachable"
  unfolding fetch target_result
  IsReachable-fetch h =
      rw (h.parsed, h.valid, h.requestable, h.answered)
        (IsAnswer-response_result h.response h.answer)

  fetch-IsReachable : fetch k target ≡ "ContractReachable" → IsReachable k target
  unfolding fetch
  fetch-IsReachable h = target_result-IsReachable (k.parse target) (k.do_request target) refl refl h

  -- The probe reports a contract reachable exactly when its target parses to a valid URL and can be
  -- requested, and the response has status 200, no encoding, no declared length above 2^20, and a
  -- body of one to 2^20 bytes that was read to its end.
  pub fetch_iff : (fetch k target ≡ "ContractReachable") ↔ IsReachable k target
  fetch_iff = (fetch-IsReachable, IsReachable-fetch)
