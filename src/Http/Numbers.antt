-- ===== src/Http/Numbers.antt =====
-- `parseInt` as the endpoints call it (`parseIntIfExists` in http/dataQueryEndpoint.ts), over the
-- code units of a string. A number is exact here: the source's loses digits above 2^53.
use logstore_node.Base.{
  ℕ, ◌+◌, ◌*◌, ◌-◌, zero, suc, ℤ, pos, negsuc, neg, Bool, true, false, ◌&&◌, ◌||◌, Option, none,
  some, [], ◌∷◌, Text, leb, ◌==◌, if◌then◌else◌,
}

-- A number of the source: none of the infinities arises here.
pub data Number : Type 0 where
  nan : Number
  number : ℤ → Number

abbrev is_space : ℕ → Bool
is_space c = (leb 9 c && leb c 13) || c == 32 || c == 160 || c == 65279

unfoldable pub skip_spaces : Text → Text
skip_spaces [] = []
skip_spaces (c ∷ cs) = if is_space c then skip_spaces cs else c ∷ cs

-- The value of a digit: 0-9, a-z, A-Z.
abbrev digit_value : ℕ → Option ℕ
digit_value c =
    if leb 48 c && leb c 57
    then some (c - 48)
    else if leb 97 c && leb c 122
    then some (c - 87)
    else if leb 65 c && leb c 90
    then some (c - 55)
    else none

-- The digits of a radix at the start of a string, after those already read.
unfoldable pub parse_digits : ℕ → Option ℕ → Text → Option ℕ
parse_digits radix read [] = read
parse_digits radix read (c ∷ cs) = elim (digit_value c) [
  | none ↦ read
  | some d ↦
      if leb radix d
      then read
      else parse_digits radix (some (elim read [ none ↦ d | some n ↦ n * radix + d ])) cs
]

-- What follows the prefix 0x or 0X, where the string starts with it.
abbrev after_prefix : Text → Option Text
after_prefix (z ∷ x ∷ cs) = if z == 48 && (x == 120 || x == 88) then some cs else none
after_prefix _ = none

unfoldable pub parse_unsigned : Text → Option ℕ
unfolding parse_digits
parse_unsigned cs = elim (after_prefix cs) [
  | none ↦ parse_digits 10 none cs
  | some ds ↦ parse_digits 16 none ds
]

abbrev signed : Bool → Option ℕ → Number
signed negative none = nan
signed negative (some n) = number (if negative then neg (pos n) else pos n)

unfoldable pub parse_signed : Text → Number
unfolding parse_unsigned
parse_signed [] = nan
parse_signed (c ∷ cs) =
    if c == 45
    then signed true (parse_unsigned cs)
    else if c == 43
    then signed false (parse_unsigned cs)
    else signed false (parse_unsigned (c ∷ cs))

unfoldable pub parse_int : Text → Number
unfolding skip_spaces parse_signed
parse_int s = parse_signed (skip_spaces s)

unfoldable pub parse_int_if_exists : Option Text → Option Number
unfolding parse_int
parse_int_if_exists none = none
parse_int_if_exists (some x) = some (parse_int x)

-- `x || d` for a number that may be `undefined` or NaN.
abbrev pub parsed_or : Option Number → ℤ → ℤ
parsed_or none d = d
parsed_or (some nan) d = d
parsed_or (some (number (pos zero))) d = d
parsed_or (some (number (pos (suc n)))) d = pos (suc n)
parsed_or (some (number (negsuc n))) d = negsuc n
