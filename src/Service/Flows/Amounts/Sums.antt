-- ===== src/Service/Flows/Amounts/Sums.antt =====
-- The addition of decimal texts against the addition of numbers.
use Prim.Native.Char.{Char, code}
use text.Mathlib.TextLemmas.{nil-append, cons-append, append-nil}
use flashloan_scanner.Base.{
  ℕ, ◌+◌, ◌-◌, ◌*◌, ◌/◌, ◌%◌, ◌≤◌, String, true, false, some, List, [], ◌∷◌, ◌≡◌, ◌≢◌, refl, ap,
  ◌∙◌, arith, inl, inr, Bool-cases, All₂, str_eq, str_eq→eq, text_append, ltb,
}
use flashloan_scanner.Base.Text.{Solid, trim_space-Solid}
use flashloan_scanner.Base.Decimal.{parse_decimal, parse_digits, digit, code-digit, is_digit}
use flashloan_scanner.Service.Flows.Amounts.{
  normalize_amount, reverse_onto, byte_digit, carry_char, add_digits, add_decimal_strings,
  add_amounts, sum_raw_amounts,
}

-- Digits only.
abbrev Digits : String → Type 0
Digits String.[] = Unit
Digits (String.◌∷◌ c s) = (b'0' ≤ code c) × (code c ≤ b'9') × Digits s

-- The value of the digits when the first one counts the units.
value : String → ℕ
value String.[] = 0
value (String.◌∷◌ c s) = (code c - b'0') + 10 * value s

Digits-Solid : (s : String) → Digits s → Solid s
Digits-Solid String.[] h = tt
Digits-Solid (String.◌∷◌ c s) h = (omega arith, omega arith, Digits-Solid s h.2)

parse_digits-Digits : (s : String) (acc n : ℕ) → parse_digits acc s ≡ some n → Digits s
unfolding parse_digits
parse_digits-Digits String.[] acc n h = tt
parse_digits-Digits (String.◌∷◌ c s) acc n h = elim (Bool-cases (is_digit c)) [
  | inl good ↦
      (ground arith, ground arith, parse_digits-Digits s _ n (rw (parse_digits, good) at h))
  | inr bad ↦ absurd (ground (arith, h, bad))
]

reverse_onto-Digits : (s acc : String) → Digits s → Digits acc → Digits (reverse_onto s acc)
unfolding reverse_onto
reverse_onto-Digits String.[] acc h k = k
reverse_onto-Digits (String.◌∷◌ c s) acc h k =
    reverse_onto-Digits s (String.◌∷◌ c acc) h.2 (h.0, h.1, k)

-- Twice backwards.
reverse_onto-reverse_onto :
    (s a b : String) → reverse_onto (reverse_onto s a) b ≡ reverse_onto a (text_append s b)
unfolding reverse_onto
reverse_onto-reverse_onto String.[] a b = rw (nil-append b) refl
reverse_onto-reverse_onto (String.◌∷◌ c s) a b =
    reverse_onto-reverse_onto s (String.◌∷◌ c a) b ∙ rw (cons-append c s b) refl

parse_digits-reverse_onto :
    (s t : String) → Digits s → parse_digits 0 (reverse_onto s t) ≡ parse_digits (value s) t
unfolding reverse_onto parse_digits value
parse_digits-reverse_onto String.[] t h = refl
parse_digits-reverse_onto (String.◌∷◌ c s) t h =
    let good : is_digit c ≡ true = ground (arith, h.0, h.1) in
    parse_digits-reverse_onto s (String.◌∷◌ c t) h.2
    ∙ rw (parse_digits, good) (ap (λ n. parse_digits n t) (omega arith))

byte_digit_lem : (c : Char) → b'0' ≤ code c → code c ≤ b'9' → byte_digit c ≡ code c - b'0'
byte_digit_lem c h k = omega arith

digit-Digits : (n : ℕ) (s : String) → Digits s → Digits (String.◌∷◌ (digit (n % 10)) s)
digit-Digits n s h =
    let e = code-digit (n % 10) (omega arith) in (omega (arith, e), omega (arith, e), h)

-- A digit in front of a sum.
value-digit : (n : ℕ) (s : String) → value (String.◌∷◌ (digit (n % 10)) s) ≡ n % 10 + 10 * value s
unfolding value
value-digit n s = omega (arith, code-digit (n % 10) (omega arith))

carry_char_one : code (carry_char 1) ≡ b'1'
carry_char_one = unfold carry_char in refl

-- The sum has only digits and the right value.
record Adds (sum : String) (n : ℕ) : Type 0 where
  digits : Digits sum
  right : value sum ≡ n

one_more :
    (n m total : ℕ) (s : String)
    → Adds s (n / 10 + m)
    → total ≡ n + 10 * m
    → Adds (String.◌∷◌ (digit (n % 10)) s) total
one_more n m total s h e = record {
  digits = digit-Digits n s h.digits;
  right = omega (arith, value-digit n s, h.right, e);
}

last_carry : (carry : ℕ) → carry ≡ 1 → Adds (String.◌∷◌ (carry_char carry) String.[]) carry
unfolding value
last_carry carry e = rw e (record {
  digits = (omega (arith, carry_char_one), omega (arith, carry_char_one), tt);
  right = omega (arith, carry_char_one);
})

same_sum : (s : String) (m n : ℕ) → m ≡ n → Adds s m → Adds s n
same_sum s m n e h = record { digits = h.digits; right = h.right ∙ e }

add_digits-Adds :
    (s t : String) (carry : ℕ)
    → Digits s
    → Digits t
    → carry ≤ 1
    → Adds (add_digits carry s t) (carry + value s + value t)
unfolding add_digits value
add_digits-Adds String.[] String.[] carry h k c = elim (Bool-cases (ltb 0 carry)) [
  | inl some_left ↦
      let e : carry ≡ 1 = ground arith in
      rw some_left (same_sum _ carry _ (omega arith) (last_carry carry e))
  | inr nothing ↦ rw nothing (record { digits = tt; right = ground arith })
]
add_digits-Adds (String.◌∷◌ a s) String.[] carry h k c =
    let e = byte_digit_lem a h.0 h.1 in
    let rest =
      add_digits-Adds s String.[] ((carry + byte_digit a) / 10) h.2 tt (omega (arith, e)) in
    one_more (carry + byte_digit a) (value s) _ _ (same_sum _ _ _ (omega arith) rest)
      (omega (arith, e))
add_digits-Adds String.[] (String.◌∷◌ b t) carry h k c =
    let f = byte_digit_lem b k.0 k.1 in
    let rest =
      add_digits-Adds String.[] t ((carry + byte_digit b) / 10) tt k.2 (omega (arith, f)) in
    one_more (carry + byte_digit b) (value t) _ _ (same_sum _ _ _ (omega arith) rest)
      (omega (arith, f))
add_digits-Adds (String.◌∷◌ a s) (String.◌∷◌ b t) carry h k c =
    let n = carry + byte_digit a + byte_digit b in
    let e = byte_digit_lem a h.0 h.1 in
    let f = byte_digit_lem b k.0 k.1 in
    let rest = add_digits-Adds s t (n / 10) h.2 k.2 (omega (arith, e, f)) in
    one_more n (value s + value t) _ _ (same_sum _ _ _ (omega arith) rest) (omega (arith, e, f))

parse_decimal-digits : (s : String) (n : ℕ) → parse_decimal s ≡ some n → parse_digits 0 s ≡ some n
unfolding parse_decimal
parse_decimal-digits String.[] n h = cc
parse_decimal-digits (String.◌∷◌ c s) n h = h

digits-parse_decimal :
    (s : String) (n : ℕ) → s ≢ "" → parse_digits 0 s ≡ some n → parse_decimal s ≡ some n
unfolding parse_decimal
digits-parse_decimal String.[] n filled h = absurd (filled refl)
digits-parse_decimal (String.◌∷◌ c s) n filled h = h

parse_decimal-filled : (s : String) (n : ℕ) → parse_decimal s ≡ some n → s ≢ ""
unfolding parse_decimal
parse_decimal-filled String.[] n h e = cc
parse_decimal-filled (String.◌∷◌ c s) n h e = cc

reverse_onto-filled : (s : String) (c : Char) (t : String) → reverse_onto s (String.◌∷◌ c t) ≢ ""
unfolding reverse_onto
reverse_onto-filled String.[] c t e = cc
reverse_onto-filled (String.◌∷◌ d s) c t e = reverse_onto-filled s d (String.◌∷◌ c t) e

reverse-filled : (s : String) → s ≢ "" → reverse_onto s "" ≢ ""
unfolding reverse_onto
reverse-filled String.[] filled e = filled refl
reverse-filled (String.◌∷◌ c s) filled e = reverse_onto-filled s c "" e

add_digits-filled : (s t : String) (carry : ℕ) → s ≢ "" → add_digits carry s t ≢ ""
unfolding add_digits
add_digits-filled String.[] t carry filled e = filled refl
add_digits-filled (String.◌∷◌ c s) String.[] carry filled e = cc
add_digits-filled (String.◌∷◌ c s) (String.◌∷◌ d t) carry filled e = cc

-- The digits of a decimal text, the last one first.
record Reversed (s : String) (n : ℕ) : Type 0 where
  digits : Digits (reverse_onto s "")
  right : value (reverse_onto s "") ≡ n

parse_decimal-Reversed : (s : String) (n : ℕ) → parse_decimal s ≡ some n → Reversed s n
unfolding parse_digits
parse_decimal-Reversed s n h =
    let flat = parse_decimal-digits s n h in
    let all = reverse_onto-Digits s "" (parse_digits-Digits s 0 n flat) tt in
    let twice : reverse_onto (reverse_onto s "") "" ≡ s = twice_backwards s in
    let back = parse_digits-reverse_onto (reverse_onto s "") "" all in
    record { digits = all; right = cc (twice, back, flat) }
  where
    twice_backwards : (s : String) → reverse_onto (reverse_onto s "") "" ≡ s
    twice_backwards s = unfold reverse_onto in reverse_onto-reverse_onto s "" "" ∙ append-nil s

-- addDecimalStrings on two decimal texts gives a decimal text of the sum.
add_decimal_strings-sum :
    (l r : String) (m n : ℕ)
    → parse_decimal l ≡ some m
    → parse_decimal r ≡ some n
    → parse_decimal (add_decimal_strings l r) ≡ some (m + n)
unfolding add_decimal_strings parse_digits
add_decimal_strings-sum l r m n h k =
    let p = parse_decimal-Reversed l m h in
    let q = parse_decimal-Reversed r n k in
    let a =
      add_digits-Adds (reverse_onto l "") (reverse_onto r "") 0 p.digits q.digits (omega arith) in
    let sum = add_digits 0 (reverse_onto l "") (reverse_onto r "") in
    let l_trimmed =
      trim_space-Solid l
        (Digits-Solid l (parse_digits-Digits l 0 m (parse_decimal-digits l m h))) in
    let r_trimmed =
      trim_space-Solid r
        (Digits-Solid r (parse_digits-Digits r 0 n (parse_decimal-digits r n k))) in
    let filled = parse_decimal-filled l m h in
    let other = parse_decimal-filled r n k in
    let reads : parse_digits 0 (reverse_onto sum "") ≡ some (m + n) =
      parse_digits-reverse_onto sum "" a.digits
      ∙ ap some (omega (arith, a.right, p.right, q.right)) in
    rw (add_decimal_strings, l_trimmed, r_trimmed, not_empty l filled, not_empty r other)
      (digits-parse_decimal _ (m + n)
        (reverse-filled sum (add_digits-filled (reverse_onto l "") _ 0 (reverse-filled l filled)))
        reads)
  where
    not_empty : (s : String) → s ≢ "" → str_eq s "" ≡ false
    not_empty s filled = elim (Bool-cases (str_eq s "")) [
      | inl same ↦ absurd (filled (str_eq→eq s "" same))
      | inr apart ↦ apart
    ]

-- An amount, where an empty one counts as 0.
abbrev pub Reads : String → ℕ → Type 0
Reads text n = parse_decimal (normalize_amount text) ≡ some n

abbrev pub total : List ℕ → ℕ
total [] = 0
total (n ∷ ns) = n + total ns

parse_zero : parse_decimal "0" ≡ some 0
parse_zero = unfold parse_decimal parse_digits in refl

zero_is : (s : String) (n : ℕ) → parse_decimal s ≡ some n → str_eq s "0" ≡ true → n ≡ 0
zero_is s n h z = let e = str_eq→eq s "0" z in cc (h, e, parse_zero)

add_amounts-total :
    (values : List String) (numbers : List ℕ) (sum : String) (n : ℕ)
    → All₂ Reads values numbers
    → parse_decimal sum ≡ some n
    → parse_decimal (add_amounts sum values) ≡ some (n + total numbers)
unfolding add_amounts
add_amounts-total [] [] sum n hs h = h ∙ ap some (omega arith)
add_amounts-total [] (m ∷ numbers) sum n hs h = absurd hs
add_amounts-total (v ∷ values) [] sum n hs h = absurd hs
add_amounts-total (v ∷ values) (m ∷ numbers) sum n hs h =
    let amount = normalize_amount v in
    elim (Bool-cases (str_eq amount "0")) [
      | inl none_there ↦
          let e = zero_is amount m hs.0 none_there in
          rw none_there (add_amounts-total values numbers sum n hs.1 h ∙ ap some (omega (arith, e)))
      | inr some_there ↦ elim (Bool-cases (str_eq sum "0")) [
        | inl first ↦
            let e = zero_is sum n h first in
            rw (some_there, first)
              (add_amounts-total values numbers amount m hs.1 hs.0 ∙ ap some (omega (arith, e)))
        | inr later ↦
            rw (some_there, later)
              (add_amounts-total values numbers (add_decimal_strings sum amount) (n + m) hs.1
                  (add_decimal_strings-sum sum amount n m h hs.0)
                ∙ ap some (omega arith))
      ]
    ]

-- sumRawAmounts on amounts that are decimal texts, or empty for 0, gives a decimal text of their
-- sum, of any length.
pub sum_raw_amounts-total :
    (values : List String) (numbers : List ℕ)
    → All₂ Reads values numbers
    → parse_decimal (sum_raw_amounts values) ≡ some (total numbers)
unfolding sum_raw_amounts
sum_raw_amounts-total values numbers hs =
    add_amounts-total values numbers "0" 0 hs parse_zero ∙ ap some (omega arith)
