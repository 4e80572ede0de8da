-- ===== src/JsonInput.antt =====
-- internal/jsoninput/unicode.go: the check for unpaired surrogates in the escapes of JSON text, on a
-- list of bytes. The index of the loop is the rest of the list and a number of bytes to skip.
pub mod Encoded
mod Tests
use data_product_controller.Prelude.{
  ℕ, zero, suc, ◌+◌, ◌-◌, ◌*◌, Bool, true, false, not, ◌&&◌, ◌||◌, Option, none, some, List, [],
  ◌∷◌, if◌then◌else◌, leb, nat_beq,
}

-- the value of a hexadecimal digit
unfoldable pub digit : ℕ → Option ℕ
digit c =
    if leb b'0' c && leb c b'9'
    then some (c - b'0')
    else if leb b'a' c && leb c b'f'
    then some (c - b'a' + 10)
    else if leb b'A' c && leb c b'F'
    then some (c - b'A' + 10)
    else none

-- strconv.ParseUint of four bytes to the base 16
unfoldable pub parse_unit : ℕ → ℕ → ℕ → ℕ → Option ℕ
parse_unit a b c d = four (digit a) (digit b) (digit c) (digit d)
  where
    four : Option ℕ → Option ℕ → Option ℕ → Option ℕ → Option ℕ
    four (some a) (some b) (some c) (some d) = some (a * 4096 + b * 256 + c * 16 + d)
    four _ _ _ _ = none

unfoldable pub is_high : ℕ → Bool
is_high code = leb 55296 code && leb code 56319

unfoldable pub is_low : ℕ → Bool
is_low code = leb 56320 code && leb code 57343

-- the escape that has to follow a high surrogate: the bytes to skip behind the backslash
pub low_half : List ℕ → Option ℕ
low_half (s ∷ u ∷ a ∷ b ∷ c ∷ d ∷ rest) =
    if not (nat_beq s 92) || not (nat_beq u b'u') then none else paired (parse_unit a b c d)
  where
    paired : Option ℕ → Option ℕ
    paired none = none
    paired (some low) = if is_low low then some 11 else none
low_half _ = none

pub after_unit : Option ℕ → List ℕ → Option ℕ
unfolding low_half
after_unit none rest = none
after_unit (some code) rest =
    if is_high code then low_half rest else if is_low code then none else some 5

pub unit_escape : List ℕ → Option ℕ
unfolding after_unit
unit_escape (a ∷ b ∷ c ∷ d ∷ rest) = after_unit (parse_unit a b c d) rest
unit_escape _ = none

-- what follows a backslash in a string: the bytes to skip
pub escape : List ℕ → Option ℕ
unfolding unit_escape
escape [] = none
escape (e ∷ rest) = if not (nat_beq e b'u') then some 1 else unit_escape rest

-- one round of the loop: whether a string goes on, and the bytes to skip; `none` is `return false`
pub round : Bool → ℕ → List ℕ → Option (Bool × ℕ)
unfolding escape
round in_string c rest =
    if nat_beq c b'"'
    then some (not in_string, 0)
    else if not in_string || not (nat_beq c 92)
    then some (in_string, 0)
    else in_escape (escape rest)
  where
    in_escape : Option ℕ → Option (Bool × ℕ)
    in_escape none = none
    in_escape (some skipped) = some (true, skipped)

abbrev pub goes_on : Option (Bool × ℕ) → Bool
goes_on none = false
goes_on (some _) = true

abbrev pub next_of : Option (Bool × ℕ) → Bool
next_of none = false
next_of (some (in_string, _)) = in_string

abbrev pub skipped_of : Option (Bool × ℕ) → ℕ
skipped_of none = 0
skipped_of (some (_, skipped)) = skipped

-- the loop
pub scan : ℕ → Bool → List ℕ → Bool
unfolding round
scan skipped in_string [] = true
scan (suc skipped) in_string (c ∷ rest) = scan skipped in_string rest
scan zero in_string (c ∷ rest) =
    let o = round in_string c rest in goes_on o && scan (skipped_of o) (next_of o) rest

-- ValidUnicodeEscapes
unfoldable pub valid_unicode_escapes : List ℕ → Bool
unfolding scan
valid_unicode_escapes bytes = scan 0 false bytes
