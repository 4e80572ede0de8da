-- ===== src/Provider/Names.antt =====
-- internal/provider/v1: the regular expressions of published names, matched on code points, and
-- strconv.FormatInt of a positive number.
use Prim.Native.Nat.{◌/◌, ◌%◌}
use data_product_controller.Prelude.{
  ℕ, zero, suc, ◌+◌, ◌-◌, ◌*◌, ◌≤◌, ◌<◌, String, ◌≡◌, Bool, true, false, ◌&&◌, ◌||◌, List, [], ◌∷◌,
  if◌then◌else◌, leb, ltb, length, ◌==◌, nat_eq, arith, refl, ◌∙◌, ap, Bool-cases, inl, inr,
}
use data_product_controller.Controller.Version.{codes}

unfoldable pub is_lower : ℕ → Bool
is_lower c = leb b'a' c && leb c b'z'

unfoldable pub is_upper : ℕ → Bool
is_upper c = leb b'A' c && leb c b'Z'

unfoldable pub is_digit : ℕ → Bool
is_digit c = leb b'0' c && leb c b'9'

-- every code point is of a class
abbrev pub all_of : (ℕ → Bool) → List ℕ → Bool
all_of p [] = true
all_of p (c ∷ cs) = p c && all_of p cs

-- `^[first][rest]{0,limit}$`
unfoldable pub is_name : (ℕ → Bool) → (ℕ → Bool) → ℕ → List ℕ → Bool
is_name first rest limit [] = false
is_name first rest limit (c ∷ cs) = first c && (all_of rest cs && leb (length cs) limit)

-- strings.HasPrefix
abbrev pub is_prefix : List ℕ → List ℕ → Bool
is_prefix [] text = true
is_prefix (_ ∷ _) [] = false
is_prefix (p ∷ ps) (c ∷ cs) = p == c && is_prefix ps cs

unfoldable pub has_prefix : String → String → Bool
has_prefix text prefix = is_prefix (codes prefix) (codes text)

-- the decimal digits of a number in front of others; the fuel is above the number
pub decimal_before : ℕ → ℕ → List ℕ → List ℕ
decimal_before zero n rest = rest
decimal_before (suc fuel) n rest =
    let longer = decimal_before fuel (n / 10) ((b'0' + n % 10) ∷ rest) in
    if ltb n 10 then (b'0' + n) ∷ rest else longer

unfoldable pub decimal : ℕ → List ℕ
unfolding decimal_before
decimal n = decimal_before (suc n) n []

abbrev pub codes_beq : List ℕ → List ℕ → Bool
codes_beq [] [] = true
codes_beq [] (_ ∷ _) = false
codes_beq (_ ∷ _) [] = false
codes_beq (a ∷ cs) (b ∷ ds) = a == b && codes_beq cs ds

-- strings.HasSuffix
abbrev pub is_suffix : List ℕ → List ℕ → Bool
is_suffix suffix [] = codes_beq suffix []
is_suffix suffix (c ∷ cs) = codes_beq suffix (c ∷ cs) || is_suffix suffix cs

-- the number that a text of digits denotes, behind `acc`
abbrev pub value : ℕ → List ℕ → ℕ
value acc [] = acc
value acc (c ∷ cs) = value (acc * 10 + (c - b'0')) cs

value-decimal_before :
    (fuel n : ℕ) (rest : List ℕ) → n < fuel → value 0 (decimal_before fuel n rest) ≡ value n rest
unfolding decimal_before
value-decimal_before zero n rest h = absurd (omega (arith, h))
value-decimal_before (suc fuel) n rest h = elim (Bool-cases (ltb n 10)) [
  | inl small ↦ rw small (ap (λ x. value x rest) (omega arith))
  | inr large ↦ rw large (
      value-decimal_before fuel (n / 10) ((b'0' + n % 10) ∷ rest)
        (omega (arith, h, large_le n large))
      ∙ ap (λ x. value x rest) (omega arith))
]
  where
    large_le : (n : ℕ) → ltb n 10 ≡ false → 10 ≤ n
    large_le n e = ground arith

-- The decimal digits of a number denote it.
pub value-decimal : (n : ℕ) → value 0 (decimal n) ≡ n
unfolding decimal
value-decimal n = value-decimal_before (suc n) n [] (omega arith)

pub codes_beq-eq : (a b : List ℕ) → codes_beq a b ≡ true → a ≡ b
codes_beq-eq [] [] h = refl
codes_beq-eq [] (b ∷ ds) h = cc
codes_beq-eq (a ∷ cs) [] h = cc
codes_beq-eq (a ∷ cs) (b ∷ ds) h =
    let head : a ≡ b = ground arith in
    let tail = codes_beq-eq cs ds (ground arith) in rw (head, tail) refl
