-- ===== src/Base/Decimal.antt =====
-- Decimal texts of numbers: strconv.FormatUint and big.Int's String, and SetString with base 10.
-- Every big.Int of the modelled code is a uint256 of a contract or a column, or a block number, so
-- that it is a natural number.
use Prim.Native.Nat.{ℕ, zero, suc, ◌+◌, ◌-◌, ◌*◌, ◌/◌, ◌%◌, ◌≤◌, ◌<◌}
use Prim.Native.Char.{Char, code}
use Prim.Native.String.{String}
use mathlib.Core.Path.{◌≡◌, refl, ◌∙◌, ap}
use mathlib.Core.Logic.{◌≢◌, inl, inr}
use mathlib.Core.Bool.{Bool, ◌&&◌}
use mathlib.Core.Option.{Option, none, some}
use native.Mathlib.Omega.{arith}
use flashloan_scanner.Base.Tests.{◌==◌, leb, if◌then◌else◌, Bool-cases}
use flashloan_scanner.Base.Prefix.{Lacks}

unfoldable pub nth_char : String → ℕ → Char
nth_char String.[] i = "0"
nth_char (String.◌∷◌ c s) zero = c
nth_char (String.◌∷◌ c s) (suc i) = nth_char s i

unfoldable pub digit : ℕ → Char
unfolding nth_char
digit d = nth_char "0123456789" d

-- The digits of `n`, most significant first, in front of `acc`.
digits : ℕ → ℕ → String → String
digits zero n acc = acc
digits (suc fuel) n acc =
    let more = digits fuel (n / 10) (String.◌∷◌ (digit (n % 10)) acc) in
    if n == 0 then acc else more

unfoldable pub decimal : ℕ → String
unfolding digits digit
decimal n = if n == 0 then "0" else digits n n String.[]

abbrev pub is_digit : Char → Bool
is_digit c = leb b'0' (code c) && leb (code c) b'9'

unfoldable pub parse_digits : ℕ → String → Option ℕ
parse_digits acc String.[] = some acc
parse_digits acc (String.◌∷◌ c s) =
    let more = parse_digits (acc * 10 + (code c - b'0')) s in if is_digit c then more else none

-- The value of a text of digits, at least one, without a sign.
unfoldable pub parse_decimal : String → Option ℕ
unfolding parse_digits
parse_decimal String.[] = none
parse_decimal (String.◌∷◌ c s) = parse_digits 0 (String.◌∷◌ c s)

hex_digit : Char → Option ℕ
hex_digit c =
    let n = code c in
    if is_digit c
    then some (n - b'0')
    else if leb b'a' n && leb n b'f'
    then some (n - b'a' + 10)
    else if leb b'A' n && leb n b'F'
    then some (n - b'A' + 10)
    else none

unfoldable pub hex_digits : ℕ → String → Option ℕ
unfolding hex_digit
hex_digits acc String.[] = some acc
hex_digits acc (String.◌∷◌ c s) = elim (hex_digit c) [
  | none ↦ none
  | some d ↦ hex_digits (acc * 16 + d) s
]

-- The value of a text of hexadecimal digits, at least one, without a sign.
unfoldable pub parse_hex : String → Option ℕ
unfolding hex_digits
parse_hex String.[] = none
parse_hex (String.◌∷◌ c s) = hex_digits 0 (String.◌∷◌ c s)

pub code-digit : (d : ℕ) → d < 10 → code (digit d) ≡ b'0' + d
unfolding digit
code-digit zero h = refl
code-digit (suc zero) h = refl
code-digit (suc (suc zero)) h = refl
code-digit (suc (suc (suc zero))) h = refl
code-digit (suc (suc (suc (suc zero)))) h = refl
code-digit (suc (suc (suc (suc (suc zero))))) h = refl
code-digit (suc (suc (suc (suc (suc (suc zero)))))) h = refl
code-digit (suc (suc (suc (suc (suc (suc (suc zero))))))) h = refl
code-digit (suc (suc (suc (suc (suc (suc (suc (suc zero)))))))) h = refl
code-digit (suc (suc (suc (suc (suc (suc (suc (suc (suc zero))))))))) h = refl
code-digit (suc (suc (suc (suc (suc (suc (suc (suc (suc (suc d)))))))))) h = absurd (omega arith)

parse_digits-digit :
    (acc d : ℕ) (s : String)
    → d < 10
    → parse_digits acc (String.◌∷◌ (digit d) s) ≡ parse_digits (acc * 10 + d) s
unfolding parse_digits
parse_digits-digit acc d s h = ground (arith, code-digit d h)

parse_digits-digits :
    (fuel n : ℕ) (s : String) → n ≤ fuel → parse_digits 0 (digits fuel n s) ≡ parse_digits n s
unfolding digits
parse_digits-digits zero n s h = let e : n ≡ 0 = omega arith in rw e
parse_digits-digits (suc fuel) n s h = elim (Bool-cases (n == 0)) [
  | inl done ↦ rw done (let e : n ≡ 0 = ground arith in rw e)
  | inr more ↦ rw more (
      parse_digits-digits fuel (n / 10) _ (ground arith)
      ∙ parse_digits-digit (n / 10) (n % 10) s (omega arith)
      ∙ ap (λ k. parse_digits k s) (omega arith))
]

parse_decimal-digits :
    (fuel n : ℕ) (c : Char) (s : String)
    → parse_decimal (digits fuel n (String.◌∷◌ c s))
      ≡ parse_digits 0 (digits fuel n (String.◌∷◌ c s))
unfolding digits parse_decimal
parse_decimal-digits zero n c s = refl
parse_decimal-digits (suc fuel) n c s =
    ground (arith, parse_decimal-digits fuel (n / 10) (digit (n % 10)) (String.◌∷◌ c s))

-- The decimal text of a number reads back as that number.
pub parse_decimal-decimal : (n : ℕ) → parse_decimal (decimal n) ≡ some n
unfolding decimal parse_decimal
parse_decimal-decimal zero = refl
parse_decimal-decimal (suc n) = ground (
  arith,
  parse_decimal-digits n (suc n / 10) (digit (suc n % 10)) String.[],
  parse_digits-digits (suc n) (suc n) String.[],
)

-- Two numbers with one decimal text are equal.
pub decimal-injective : (m n : ℕ) → decimal m ≡ decimal n → m ≡ n
decimal-injective m n e = cc (parse_decimal-decimal m, parse_decimal-decimal n)

-- A decimal text is never empty.
pub decimal-ne-empty : (n : ℕ) → decimal n ≢ ""
decimal-ne-empty n e = cc (parse_decimal-decimal n, parse_empty)
  where
    parse_empty : parse_decimal "" ≡ none
    parse_empty = unfold parse_decimal in refl

digits-Lacks : (fuel n : ℕ) (s : String) → Lacks "." s → Lacks "." (digits fuel n s)
unfolding digits
digits-Lacks zero n s h = h
digits-Lacks (suc fuel) n s h = elim (Bool-cases (n == 0)) [
  | inl done ↦ rw done h
  | inr more ↦
      rw more (digits-Lacks fuel (n / 10) _ (ground (arith, code-digit (n % 10) (omega arith)), h))
]

decimal-suc : (n : ℕ) → decimal (suc n) ≡ digits (suc n) (suc n) String.[]
unfolding decimal
decimal-suc n = ground arith

-- A decimal text has no dot.
pub decimal-Lacks : (n : ℕ) → Lacks "." (decimal n)
decimal-Lacks zero = unfold decimal in (refl, tt)
decimal-Lacks (suc n) = rw (decimal-suc n) (digits-Lacks (suc n) (suc n) String.[] tt)
