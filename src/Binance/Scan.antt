-- ===== src/Binance/Scan.antt =====
-- `scan_depth_u_fields` of src/exchanges/binance.rs: three integers of a depth message, found in
-- its text without parsing the JSON. `str::find` and `parse::<i64>` are modelled as documented.
mod Tests
use rstrader.Base.{
  ℕ, ◌-◌, ◌+◌, ◌*◌, ◌^◌, Bool, true, false, not, ◌≡◌, refl, Option, none, some, List, [], ◌∷◌, ◌++◌,
  length, ltb, leb, ◌==◌, if◌then◌else◌, drop,
}
use rstrader.Base.Options.{◌>>=◌}
use rstrader.Base.Bytes.{Bytes, ascii}
use rstrader.Base.Suffix.{starts_with}
use rstrader.Base.Int.{ℤ, pos, negsuc}

-- The text behind the first occurrence of the needle.
pub find_after : Bytes → Bytes → Option Bytes
unfolding starts_with
find_after needle [] = if starts_with needle [] then some [] else none
find_after needle (c ∷ text) =
    let later = find_after needle text in
    if starts_with needle (c ∷ text) then some (drop (length needle) (c ∷ text)) else later

is_space : ℕ → Bool
is_space c = if c == 32 then true else if c == 9 then true else if c == 10 then true else c == 13

pub skip_blanks : Bytes → Bytes
unfolding is_space
skip_blanks [] = []
skip_blanks (c ∷ text) = let rest = skip_blanks text in if is_space c then rest else c ∷ text

is_digit : ℕ → Bool
is_digit c = if leb 48 c then leb c 57 else false

-- The digits at the start, as values.
pub digits : Bytes → List ℕ
unfolding is_digit
digits [] = []
digits (c ∷ text) = let rest = digits text in if is_digit c then (c - 48) ∷ rest else []

value_from : ℕ → List ℕ → ℕ
value_from n [] = n
value_from n (d ∷ ds) = value_from (n * 10 + d) ds

-- `parse::<i64>` of digits with or without a minus sign; out of range is an error.
pub parse_i64 : Bool → List ℕ → Option ℤ
unfolding value_from
parse_i64 minus [] = none
parse_i64 true (d ∷ ds) =
    let n = value_from 0 (d ∷ ds) in
    if leb n (2 ^ 63) then some (if n == 0 then pos 0 else negsuc (n - 1)) else none
parse_i64 false (d ∷ ds) =
    let n = value_from 0 (d ∷ ds) in if ltb n (2 ^ 63) then some (pos n) else none

-- The number at the start of a text.
pub number_at : Bytes → Option ℤ
number_at [] = none
number_at (c ∷ text) =
    if c == 45 then parse_i64 true (digits text) else parse_i64 false (digits (c ∷ text))

pub scan_number : Bytes → Bytes → Option ℤ
scan_number key text = do
  rest ← find_after (ascii "\"" ++ key ++ ascii "\":") text
  number_at (skip_blanks rest)

pub scan_depth_u_fields : Bytes → Option (ℤ × ℤ × ℤ)
scan_depth_u_fields text = do
  first_u ← scan_number (ascii "U") text
  final_u ← scan_number (ascii "u") text
  prev_u ← scan_number (ascii "pu") text
  some (first_u, final_u, prev_u)
