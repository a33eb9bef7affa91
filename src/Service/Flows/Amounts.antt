-- ===== src/Service/Flows/Amounts.antt =====
-- fund_flow_graph.go: amounts as decimal texts. A byte is the code of an ASCII character.
pub mod Sums
use flashloan_scanner.Base.{
  ℕ, zero, suc, ◌+◌, ◌-◌, ◌/◌, ◌%◌, String, Bool, List, [], ◌∷◌, str_eq, leb, ltb, ◌==◌,
  if◌then◌else◌, text_append,
}
use flashloan_scanner.Base.Text.{trim_space, text_length, take_text, drop_text}
use flashloan_scanner.Base.Decimal.{nth_char, digit}
use Prim.Native.Char.{Char, code}

unfoldable pub normalize_amount : String → String
unfolding trim_space
normalize_amount value =
    let trimmed = trim_space value in if str_eq trimmed "" then "0" else trimmed

-- A text backwards, in front of another one.
unfoldable pub reverse_onto : String → String → String
reverse_onto String.[] acc = acc
reverse_onto (String.◌∷◌ c s) acc = reverse_onto s (String.◌∷◌ c acc)

-- `int(b - '0')` for a byte.
abbrev pub byte_digit : Char → ℕ
byte_digit c = (code c + 256 - b'0') % 256

-- `byte('0' + carry)`; the carry of two bytes is below 57.
unfoldable pub carry_char : ℕ → Char
unfolding nth_char
carry_char carry = nth_char "0123456789:;<=>?@ABCDEFGHIJKLMNOPQRSTUVWXYZ[\\]^_`abcdefgh" carry

-- The loop from the last digits on, with what it appends to `result`.
unfoldable pub add_digits : ℕ → String → String → String
unfolding digit carry_char
add_digits carry String.[] String.[] =
    if ltb 0 carry then String.◌∷◌ (carry_char carry) String.[] else String.[]
add_digits carry (String.◌∷◌ c s) String.[] =
    let sum = carry + byte_digit c in
    String.◌∷◌ (digit (sum % 10)) (add_digits (sum / 10) s String.[])
add_digits carry String.[] (String.◌∷◌ d t) =
    let sum = carry + byte_digit d in
    String.◌∷◌ (digit (sum % 10)) (add_digits (sum / 10) String.[] t)
add_digits carry (String.◌∷◌ c s) (String.◌∷◌ d t) =
    let sum = carry + byte_digit c + byte_digit d in
    String.◌∷◌ (digit (sum % 10)) (add_digits (sum / 10) s t)

unfoldable pub add_decimal_strings : String → String → String
unfolding trim_space normalize_amount reverse_onto add_digits
add_decimal_strings left right =
    let l = trim_space left in
    let r = trim_space right in
    if str_eq l ""
    then normalize_amount r
    else if str_eq r ""
    then normalize_amount l
    else reverse_onto (add_digits 0 (reverse_onto l "") (reverse_onto r "")) ""

-- The loop of sumRawAmounts.
unfoldable pub add_amounts : String → List String → String
unfolding normalize_amount add_decimal_strings
add_amounts total [] = total
add_amounts total (value ∷ values) =
    let normalized = normalize_amount value in
    add_amounts
      (if str_eq normalized "0"
        then total
        else if str_eq total "0"
        then normalized
        else add_decimal_strings total normalized)
      values

unfoldable pub sum_raw_amounts : List String → String
unfolding add_amounts
sum_raw_amounts values = add_amounts "0" values

unfoldable pub first_non_zero_string : List String → String
unfolding normalize_amount
first_non_zero_string [] = "0"
first_non_zero_string (value ∷ values) =
    let rest = first_non_zero_string values in
    if str_eq (normalize_amount value) "0" then rest else normalize_amount value

unfoldable pub compact_raw_amount : String → String
unfolding normalize_amount text_length take_text drop_text
compact_raw_amount value =
    let normalized = normalize_amount value in
    if leb (text_length normalized) 10
    then normalized
    else text_append (take_text 6 normalized)
        (text_append "..." (drop_text (text_length normalized - 4) normalized))
