-- ===== src/JsonInput/Encoded.antt =====
-- internal/jsoninput/unicode.go: the texts that pass, by their pieces.
use data_product_controller.Prelude.{
  ℕ, zero, suc, ◌≡◌, ◌≢◌, ◌↔◌, Bool, true, false, not, ◌||◌, Option, none, some, List, [], ◌∷◌,
  nat_beq, nat_beq_iff, arith, refl, sym, subst, inl, inr, Bool-cases, Option-cases, some_inj,
}
use data_product_controller.JsonInput.{
  parse_unit, is_high, is_low, low_half, after_unit, unit_escape, escape, round, goes_on, next_of,
  skipped_of, scan, valid_unicode_escapes,
}

-- the rest of a text, outside or inside a string, as quotes, other bytes, escapes, escapes of code
-- units that are no surrogate, and pairs of a high and a low surrogate
pub data Encoded : Bool → List ℕ → Type 0 where
  finished : {s : Bool} → Encoded s []
  quote : {s : Bool} {rest : List ℕ} → Encoded (not s) rest → Encoded s (b'"' ∷ rest)
  outside : (c : ℕ) {rest : List ℕ} → c ≢ b'"' → Encoded false rest → Encoded false (c ∷ rest)
  inside : (c : ℕ) {rest : List ℕ} → c ≢ b'"' → c ≢ 92 → Encoded true rest → Encoded true (c ∷ rest)
  escaped : (e : ℕ) {rest : List ℕ} → e ≢ b'u' → Encoded true rest → Encoded true (92 ∷ e ∷ rest)
  one_unit :
      (a b c d : ℕ) (code : ℕ) {rest : List ℕ}
      → parse_unit a b c d ≡ some code
      → is_high code ≡ false
      → is_low code ≡ false
      → Encoded true rest
      → Encoded true (92 ∷ b'u' ∷ a ∷ b ∷ c ∷ d ∷ rest)
  pair :
      (a b c d : ℕ) (high : ℕ) (e f g h : ℕ) (low : ℕ) {rest : List ℕ}
      → parse_unit a b c d ≡ some high
      → is_high high ≡ true
      → parse_unit e f g h ≡ some low
      → is_low low ≡ true
      → Encoded true rest
      → Encoded true (92 ∷ b'u' ∷ a ∷ b ∷ c ∷ d ∷ 92 ∷ b'u' ∷ e ∷ f ∷ g ∷ h ∷ rest)

beq_false : (a b : ℕ) → a ≢ b → nat_beq a b ≡ false
beq_false a b h = ground (arith, nat_beq_iff a b)

Encoded-scan : {s : Bool} {bytes : List ℕ} → Encoded s bytes → scan 0 s bytes ≡ true
unfolding scan round escape unit_escape after_unit low_half
Encoded-scan finished = refl
Encoded-scan (quote more) = Encoded-scan more
Encoded-scan (outside c h more) = rw (beq_false c b'"' h) (Encoded-scan more)
Encoded-scan (inside c h k more) = rw (beq_false c b'"' h, beq_false c 92 k) (Encoded-scan more)
Encoded-scan (escaped e h more) = rw (beq_false e b'u' h) (Encoded-scan more)
Encoded-scan (one_unit a b c d code p h l more) = rw (p, h, l) (Encoded-scan more)
Encoded-scan (pair a b c d high e f g h low p hi q lo more) = rw (p, hi, q, lo) (Encoded-scan more)

abbrev skip : ℕ → List ℕ → List ℕ
skip zero bytes = bytes
skip (suc n) [] = []
skip (suc n) (c ∷ rest) = skip n rest

low_half-pair :
    (rest : List ℕ) (k : ℕ) (a b c d high : ℕ)
    → parse_unit a b c d ≡ some high
    → is_high high ≡ true
    → low_half rest ≡ some k
    → Encoded true (skip k (b'u' ∷ a ∷ b ∷ c ∷ d ∷ rest))
    → Encoded true (92 ∷ b'u' ∷ a ∷ b ∷ c ∷ d ∷ rest)
unfolding low_half
low_half-pair [] k a b c d high p hi h more = cc
low_half-pair (_ ∷ []) k a b c d high p hi h more = cc
low_half-pair (_ ∷ _ ∷ []) k a b c d high p hi h more = cc
low_half-pair (_ ∷ _ ∷ _ ∷ []) k a b c d high p hi h more = cc
low_half-pair (_ ∷ _ ∷ _ ∷ _ ∷ []) k a b c d high p hi h more = cc
low_half-pair (_ ∷ _ ∷ _ ∷ _ ∷ _ ∷ []) k a b c d high p hi h more = cc
low_half-pair (s ∷ u ∷ e ∷ f ∷ g ∷ i ∷ rest) k a b c d high p hi h more =
    elim (Bool-cases (not (nat_beq s 92) || not (nat_beq u b'u'))) [
      | inl bad ↦ absurd (clash (rw bad at h))
      | inr good ↦ elim (Option-cases (parse_unit e f g i)) [
        | inl none_parsed ↦ absurd (clash (rw (good, none_parsed) at h))
        | inr (low, q) ↦ elim (Bool-cases (is_low low)) [
          | inr other ↦ absurd (clash (rw (good, q, other) at h))
          | inl lo ↦
              let counted : 11 ≡ k = some_inj (rw (good, q, lo) at h) in
              let tail : Encoded true rest =
                subst
                  (λ x. Encoded true (skip x (b'u' ∷ a ∷ b ∷ c ∷ d ∷ s ∷ u ∷ e ∷ f ∷ g ∷ i ∷ rest)))
                  (sym counted) more in
              let first : s ≡ 92 = ground (arith, nat_beq_iff s 92) in
              let second : u ≡ b'u' = ground (arith, nat_beq_iff u b'u') in
              subst (λ x. Encoded true (92 ∷ b'u' ∷ a ∷ b ∷ c ∷ d ∷ x ∷ u ∷ e ∷ f ∷ g ∷ i ∷ rest))
                (sym first)
                (subst
                  (λ x. Encoded true (92 ∷ b'u' ∷ a ∷ b ∷ c ∷ d ∷ 92 ∷ x ∷ e ∷ f ∷ g ∷ i ∷ rest))
                  (sym second) (pair a b c d high e f g i low p hi q lo tail))
        ]
      ]
    ]
  where
    clash : ◌≢◌ {A = Option ℕ} none (some k)
    clash x = cc

unit_escape-Encoded :
    (rest : List ℕ) (k : ℕ)
    → unit_escape rest ≡ some k
    → Encoded true (skip k (b'u' ∷ rest))
    → Encoded true (92 ∷ b'u' ∷ rest)
unfolding unit_escape after_unit
unit_escape-Encoded [] k h more = cc
unit_escape-Encoded (_ ∷ []) k h more = cc
unit_escape-Encoded (_ ∷ _ ∷ []) k h more = cc
unit_escape-Encoded (_ ∷ _ ∷ _ ∷ []) k h more = cc
unit_escape-Encoded (a ∷ b ∷ c ∷ d ∷ rest) k h more = elim (Option-cases (parse_unit a b c d)) [
  | inl none_parsed ↦ absurd (clash (rw none_parsed at h))
  | inr (code, p) ↦ elim (Bool-cases (is_high code)) [
    | inl hi ↦ low_half-pair rest k a b c d code p hi (rw (p, hi) at h) more
    | inr not_high ↦ elim (Bool-cases (is_low code)) [
      | inl lo ↦ absurd (clash (rw (p, not_high, lo) at h))
      | inr not_low ↦
          let counted : 5 ≡ k = some_inj (rw (p, not_high, not_low) at h) in
          let tail : Encoded true rest =
            subst (λ x. Encoded true (skip x (b'u' ∷ a ∷ b ∷ c ∷ d ∷ rest))) (sym counted) more in
          one_unit a b c d code p not_high not_low tail
    ]
  ]
]
  where
    clash : ◌≢◌ {A = Option ℕ} none (some k)
    clash x = cc

escape-Encoded :
    (rest : List ℕ) (k : ℕ)
    → escape rest ≡ some k
    → Encoded true (skip k rest)
    → Encoded true (92 ∷ rest)
unfolding escape
escape-Encoded [] k h more = cc
escape-Encoded (e ∷ rest) k h more = elim (Bool-cases (nat_beq e b'u')) [
  | inr other ↦
      let counted : 1 ≡ k = some_inj (rw other at h) in
      escaped e (λ same. apart other ((nat_beq_iff e b'u').1 same))
        (subst (λ x. Encoded true (skip x (e ∷ rest))) (sym counted) more)
  | inl unit ↦
      let same : e ≡ b'u' = (nat_beq_iff e b'u').0 unit in
      subst (λ x. Encoded true (92 ∷ x ∷ rest)) (sym same)
        (unit_escape-Encoded rest k (rw unit at h)
          (subst (λ x. Encoded true (skip k (x ∷ rest))) same more))
]
  where
    apart : {b : Bool} → b ≡ false → b ≡ true → ⊥
    apart x y = cc

round-Encoded :
    (s : Bool) (c : ℕ) (rest : List ℕ)
    → goes_on (round s c rest) ≡ true
    → Encoded (next_of (round s c rest)) (skip (skipped_of (round s c rest)) rest)
    → Encoded s (c ∷ rest)
unfolding round
round-Encoded s c rest h more = elim (Bool-cases (nat_beq c b'"')) [
  | inl is_quote ↦
      let same : c ≡ b'"' = (nat_beq_iff c b'"').0 is_quote in
      subst (λ x. Encoded s (x ∷ rest)) (sym same) (quote (rw is_quote at more))
  | inr no_quote ↦
      let differs : c ≢ b'"' = λ e. apart no_quote ((nat_beq_iff c b'"').1 e) in
      by_side s differs no_quote h more
]
  where
    apart : {b : Bool} → b ≡ false → b ≡ true → ⊥
    apart x y = cc

    by_side :
        (s : Bool)
        → c ≢ b'"'
        → nat_beq c b'"' ≡ false
        → goes_on (round s c rest) ≡ true
        → Encoded (next_of (round s c rest)) (skip (skipped_of (round s c rest)) rest)
        → Encoded s (c ∷ rest)
    by_side false differs no_quote h more = outside c differs (rw no_quote at more)
    by_side true differs no_quote h more = elim (Bool-cases (nat_beq c 92)) [
      | inr plain ↦
          inside c differs (λ e. apart plain ((nat_beq_iff c 92).1 e))
            (rw (no_quote, plain) at more)
      | inl slash ↦ elim (Option-cases (escape rest)) [
        | inl broken ↦ absurd (apart refl (rw (no_quote, slash, broken) at h))
        | inr (k, e) ↦
            let same : c ≡ 92 = (nat_beq_iff c 92).0 slash in
            subst (λ x. Encoded true (x ∷ rest)) (sym same)
              (escape-Encoded rest k e (rw (no_quote, slash, e) at more))
      ]
    ]

scan-Encoded :
    (skipped : ℕ) (s : Bool) (bytes : List ℕ)
    → scan skipped s bytes ≡ true
    → Encoded s (skip skipped bytes)
unfolding scan
scan-Encoded zero s [] h = finished
scan-Encoded (suc n) s [] h = finished
scan-Encoded (suc n) s (c ∷ rest) h = scan-Encoded n s rest h
scan-Encoded zero s (c ∷ rest) h =
    round-Encoded s c rest (ground arith)
      (scan-Encoded (skipped_of (round s c rest)) (next_of (round s c rest)) rest (ground arith))

-- A text passes exactly when it can be read, from outside a string, as quotes, other bytes, escapes,
-- escapes of code units that are no surrogate, and pairs of a high and a low surrogate.
pub valid_unicode_escapes_iff :
    (bytes : List ℕ) → (valid_unicode_escapes bytes ≡ true) ↔ Encoded false bytes
unfolding valid_unicode_escapes
valid_unicode_escapes_iff bytes = (scan-Encoded 0 false bytes, Encoded-scan)
