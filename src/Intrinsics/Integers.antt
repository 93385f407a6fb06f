-- ===== src/Intrinsics/Integers.antt =====
-- The parsers of integers of include/noam/intrinsics.hpp: `parse_charconv` for the integer types,
-- with `std::from_chars` and `std::to_string` of the standard library for them. Values are exact
-- integers; `std::from_chars` refuses what does not fit in the type.
pub mod Suffix
pub mod Ranges
pub mod RoundTrip
use noam.Base.{
  ℕ, zero, suc, ◌+◌, ◌-◌, ◌*◌, ◌^◌, ◌%◌, ◌/◌, Bool, true, false, ◌&&◌, List, [], ◌∷◌, ◌++◌, length,
  Option, none, some, if◌then◌else◌, ◌>>=◌, leb, ltb, ◌==◌,
}
use noam.Base.Int.{ℤ, pos, negsuc}
use noam.Intrinsics.Words.{FromChars, charconv}
use noam.Parser.{Parser}
use noam.Parser.Refines.{Grammar}
use noam.Result.{DefaultConstructible}
use noam.State.{Memory}
use noam.State.View.{chars}

-- An integer type, by its width and whether it is signed.
pub record IntegerType : Type 0 where
  pub bits : ℕ
  pub signed : Bool

abbrev pub is_digit : ℕ → Bool
is_digit c = leb 48 c && leb c 57

-- The digits at the beginning, behind those of a number, and what follows them.
unfoldable pub scan : List ℕ → ℕ → ℕ × List ℕ
scan [] n = (n, [])
scan (c ∷ l) n = let more = scan l (n * 10 + (c - 48)) in if is_digit c then more else (n, c ∷ l)

-- One digit at least.
unfoldable pub magnitude : List ℕ → Option (ℕ × List ℕ)
magnitude [] = none
magnitude (c ∷ l) = if is_digit c then some (scan (c ∷ l) 0) else none

abbrev pub negate : ℕ → ℤ
negate zero = pos 0
negate (suc n) = negsuc n

-- The greatest and the least value, without its sign.
abbrev pub greatest : IntegerType → ℕ
greatest t = 2 ^ (if t.signed then t.bits - 1 else t.bits) - 1

abbrev pub least : IntegerType → ℕ
least t = if t.signed then 2 ^ (t.bits - 1) else 0

-- A number that fits; a minus sign is one for signed types only.
abbrev pub positive : IntegerType → Option (ℕ × List ℕ) → Option (ℤ × List ℕ)
positive t found = do (n, rest) ← found; if leb n (greatest t) then some (pos n, rest) else none

abbrev pub negative : IntegerType → Option (ℕ × List ℕ) → Option (ℤ × List ℕ)
negative t found = do (n, rest) ← found; if leb n (least t) then some (negate n, rest) else none

unfoldable pub integer_grammar : IntegerType → Grammar ℤ
integer_grammar t [] = none
integer_grammar t (c ∷ l) =
    if t.signed && c == b'-' then negative t (magnitude l) else positive t (magnitude (c ∷ l))

-- `std::from_chars(begin, end, value)`
unfoldable pub from_chars : IntegerType → FromChars ℤ
from_chars t m begin end = do
  (value, rest) ← integer_grammar t (chars m begin (end - begin))
  some (end - length rest, value)

module _ ⦃d : DefaultConstructible ℤ⦄ where
  -- `parse_charconv<T>` for integers, and its instances. `int` has 32 bits, and `long` has 64.
  abbrev pub parse_charconv : IntegerType → Parser ℤ
  parse_charconv t = charconv (from_chars t)

  abbrev pub parse_short : Parser ℤ
  parse_short = parse_charconv (record { bits = 16; signed = true })

  abbrev pub parse_ushort : Parser ℤ
  parse_ushort = parse_charconv (record { bits = 16; signed = false })

  abbrev pub parse_int32 : Parser ℤ
  parse_int32 = parse_charconv (record { bits = 32; signed = true })

  abbrev pub parse_uint32 : Parser ℤ
  parse_uint32 = parse_charconv (record { bits = 32; signed = false })

  abbrev pub parse_int64 : Parser ℤ
  parse_int64 = parse_charconv (record { bits = 64; signed = true })

  abbrev pub parse_uint64 : Parser ℤ
  parse_uint64 = parse_charconv (record { bits = 64; signed = false })

  abbrev pub parse_int8 : Parser ℤ
  parse_int8 = parse_charconv (record { bits = 8; signed = true })

  abbrev pub parse_uint8 : Parser ℤ
  parse_uint8 = parse_charconv (record { bits = 8; signed = false })

-- `std::to_string`, with fuel for the digits.
unfoldable pub decimal : ℕ → ℕ → List ℕ
decimal zero n = []
decimal (suc fuel) n =
    let more = decimal fuel (n / 10) in
    if ltb n 10 then (48 + n) ∷ [] else more ++ (48 + n % 10) ∷ []

unfoldable pub to_string : ℤ → List ℕ
to_string (pos n) = decimal (suc n) n
to_string (negsuc n) = b'-' ∷ decimal (suc (suc n)) (suc n)
