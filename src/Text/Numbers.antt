-- ===== src/Text/Numbers.antt =====
-- Go's `strconv`: unsigned numbers in a base, and signed decimals.
use beegfs_csi_driver.Prelude.{
  ℕ, zero, suc, ◌+◌, ◌-◌, ◌*◌, ◌/◌, ◌%◌, ◌^◌, ◌≤◌, ◌<◌, ◌≡◌, String, ◌<>◌, Bool, true, false, ◌||◌,
  Option, none, some, List, [], ◌∷◌, ltb, leb, ◌=ℕ◌, if◌then◌else◌, arith, All,
}
use beegfs_csi_driver.Text.Strings.{codes}

-- The rounds of `strconv.ParseUint` over the digits. `max` is `1 << bitSize - 1`. For the sizes that
-- the driver uses, at most 32 bits, the product of a round fits 64 bits and cannot wrap.
scan : ℕ → ℕ → List ℕ → ℕ → Option ℕ
scan base max [] n = some n
scan base max (c ∷ s) n =
    let rest = scan base max s (n * base + (c - b'0')) in
    if ltb c b'0' || leb (b'0' + base) c
    then none
    else if ltb max (n * base + (c - b'0'))
    then none
    else rest

scan_text : ℕ → ℕ → List ℕ → Option ℕ
unfolding scan
scan_text base bits [] = none
scan_text base bits (c ∷ s) = scan base (2 ^ bits - 1) (c ∷ s) 0

-- strconv.ParseUint(s, base, bits), for a base of at most ten; `none` is the error.
unfoldable pub parse_uint : String → ℕ → ℕ → Option ℕ
unfolding scan_text
parse_uint s base bits = scan_text base bits (codes s)

-- strconv.Atoi, as the pair of a sign, `true` for minus, and a magnitude.
atoi_codes : List ℕ → Option (Bool × ℕ)
unfolding scan_text
atoi_codes [] = none
atoi_codes (c ∷ s) =
    if c =ℕ b'-'
    then elim (scan_text 10 64 s) [
      | none ↦ none
      | some n ↦ if leb n (2 ^ 63) then some (true, n) else none
    ]
    else elim (scan_text 10 64 (if c =ℕ b'+' then s else c ∷ s)) [
      | none ↦ none
      | some n ↦ if ltb n (2 ^ 63) then some (false, n) else none
    ]

unfoldable pub atoi : String → Option (Bool × ℕ)
unfolding atoi_codes
atoi s = atoi_codes (codes s)

-- The text of a digit.
unfoldable pub digit_text : ℕ → String
digit_text d =
    if d =ℕ 0
    then "0"
    else if d =ℕ 1
    then "1"
    else if d =ℕ 2
    then "2"
    else if d =ℕ 3
    then "3"
    else if d =ℕ 4
    then "4"
    else if d =ℕ 5
    then "5"
    else if d =ℕ 6
    then "6"
    else if d =ℕ 7
    then "7"
    else if d =ℕ 8
    then "8"
    else "9"

-- The digits of a number in a base, at most `fuel` of them, in front of a text.
unfoldable pub digits : ℕ → ℕ → ℕ → String → String
unfolding digit_text
digits zero base n rest = rest
digits (suc fuel) base n rest =
    let text = digit_text (n % base) <> rest in
    let more = digits fuel base (n / base) text in if ltb n base then text else more

-- %d of a number of 64 bits, which has at most twenty digits
unfoldable pub decimal : ℕ → String
unfolding digits
decimal n = digits 20 10 n ""

-- %03o of a number below 0o1000
unfoldable pub octal3 : ℕ → String
unfolding digit_text
octal3 n = digit_text (n / 64 % 8) <> (digit_text (n / 8 % 8) <> digit_text (n % 8))

abbrev pub IsDigit : ℕ → ℕ → Type 0
IsDigit base c = (b'0' ≤ c) × (c < b'0' + base)

-- The number that digits spell behind `n`, with no bound.
abbrev pub value : ℕ → ℕ → List ℕ → ℕ
value base n [] = n
value base n (c ∷ s) = value base (n * base + (c - b'0')) s

scan_sound :
    (base max : ℕ) (s : List ℕ) (n r : ℕ)
    → n ≤ max
    → scan base max s n ≡ some r
    → All (IsDigit base) s × (r ≡ value base n s) × (r ≤ max)
unfolding scan
scan_sound base max [] n r fits h = ground arith
scan_sound base max (c ∷ s) n r fits h =
    ground (arith, scan_sound base max s (n * base + (c - b'0')) r)

-- What `parse_uint` accepts is digits of the base, and its value is theirs and fits the bits.
pub parse_uint_sound :
    (s : String) (base bits : ℕ) {r : ℕ}
    → parse_uint s base bits ≡ some r
    → All (IsDigit base) (codes s) × (r ≡ value base 0 (codes s)) × (r ≤ 2 ^ bits - 1)
unfolding parse_uint
parse_uint_sound s base bits {r} h = go (codes s) h
  where
    go :
        (cs : List ℕ)
        → scan_text base bits cs ≡ some r
        → All (IsDigit base) cs × (r ≡ value base 0 cs) × (r ≤ 2 ^ bits - 1)
    go [] e = cc
    go (c ∷ cs) e = scan_sound base (2 ^ bits - 1) (c ∷ cs) 0 r (omega arith) e
