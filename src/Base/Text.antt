-- ===== src/Base/Text.antt =====
-- The functions of Go's `strings` and `big` packages that the scanner calls, on native texts.
use Prim.Native.Nat.{ℕ, zero, suc, ◌≤◌}
use Prim.Native.Char.{Char, code}
use Prim.Native.String.{String}
use text.Mathlib.Text.{find?, ◌==◌ as str_eq}
use mathlib.Core.Path.{◌≡◌, refl}
use mathlib.Core.Logic.{◌⊎◌, inl, inr}
use mathlib.Core.Bool.{Bool, true, false, ◌&&◌, ◌||◌}
use mathlib.Core.Option.{none, some}
use text.Mathlib.TextEquality.{Char-path}
use native.Mathlib.Omega.{arith}
use flashloan_scanner.Base.Tests.{◌==◌, leb, if◌then◌else◌, Bool-cases}

-- The letter of `ls` that stands where `us` has `c`.
lower_in : String → String → Char → Char
lower_in (String.◌∷◌ u us) (String.◌∷◌ l ls) c = if code c == code u then l else lower_in us ls c
lower_in _ _ c = c

lower_char : Char → Char
unfolding lower_in
lower_char c = lower_in "ABCDEFGHIJKLMNOPQRSTUVWXYZ" "abcdefghijklmnopqrstuvwxyz" c

-- strings.ToLower, on ASCII texts.
unfoldable pub to_lower : String → String
unfolding lower_char
to_lower String.[] = String.[]
to_lower (String.◌∷◌ c s) = String.◌∷◌ (lower_char c) (to_lower s)

-- strings.Contains
unfoldable pub contains : String → String → Bool
contains s t = elim (find? s t) [ none ↦ false | some _ ↦ true ]

abbrev IsLower : Char → Type 0
IsLower c = lower_char c ≡ c

abbrev AllLower : String → Type 0
AllLower String.[] = Unit
AllLower (String.◌∷◌ c s) = IsLower c × AllLower s

lower_in_cases :
    (us ls : String) (c : Char) → AllLower ls → (lower_in us ls c ≡ c) ⊎ IsLower (lower_in us ls c)
unfolding lower_in
lower_in_cases (String.◌∷◌ u us) (String.◌∷◌ l ls) c h = elim (Bool-cases (code c == code u)) [
  | inl same ↦ rw same (inr h.0)
  | inr other ↦ rw other (lower_in_cases us ls c h.1)
]
lower_in_cases (String.◌∷◌ u us) String.[] c h = inl refl
lower_in_cases String.[] ls c h = inl refl

all_lower : String → Bool
unfolding lower_char
all_lower String.[] = true
all_lower (String.◌∷◌ c s) = code (lower_char c) == code c && all_lower s

all_lower-AllLower : (s : String) → all_lower s ≡ true → AllLower s
unfolding all_lower
all_lower-AllLower String.[] h = tt
all_lower-AllLower (String.◌∷◌ c s) h =
    (Char-path (lower_char c) c (ground arith), all_lower-AllLower s (ground arith))

letters_AllLower : AllLower "abcdefghijklmnopqrstuvwxyz"
unfolding all_lower
letters_AllLower = all_lower-AllLower "abcdefghijklmnopqrstuvwxyz" refl

lower_char_cases : (c : Char) → (lower_char c ≡ c) ⊎ IsLower (lower_char c)
unfolding lower_char lower_in
lower_char_cases c =
    lower_in_cases "ABCDEFGHIJKLMNOPQRSTUVWXYZ" "abcdefghijklmnopqrstuvwxyz" c letters_AllLower

lower_char_idem : (c : Char) → lower_char (lower_char c) ≡ lower_char c
lower_char_idem c = elim (lower_char_cases c) [ inl same ↦ rw (same, same) | inr lower ↦ lower ]

pub to_lower_idem : (s : String) → to_lower (to_lower s) ≡ to_lower s
unfolding to_lower
to_lower_idem String.[] = refl
to_lower_idem (String.◌∷◌ c s) = cc (lower_char_idem c, to_lower_idem s)

-- unicode.IsSpace
is_space : Char → Bool
is_space c =
    let n = code c in
    leb 9 n && leb n 13
    || n == 32
    || n == 0x85
    || n == 0xa0
    || n == 0x1680
    || leb 0x2000 n && leb n 0x200a
    || n == 0x2028
    || n == 0x2029
    || n == 0x202f
    || n == 0x205f
    || n == 0x3000

trim_left : String → String
unfolding is_space
trim_left String.[] = String.[]
trim_left (String.◌∷◌ c s) = if is_space c then trim_left s else String.◌∷◌ c s

trim_right : String → String
unfolding is_space
trim_right String.[] = String.[]
trim_right (String.◌∷◌ c s) =
    let rest = trim_right s in if is_space c && str_eq rest "" then String.[] else String.◌∷◌ c rest

-- strings.TrimSpace
unfoldable pub trim_space : String → String
unfolding trim_left trim_right
trim_space s = trim_right (trim_left s)

-- len, on ASCII texts.
unfoldable pub text_length : String → ℕ
text_length String.[] = 0
text_length (String.◌∷◌ c s) = suc (text_length s)

-- s[:n] and s[n:], where a text that is too short ends the result.
unfoldable pub take_text : ℕ → String → String
take_text zero s = String.[]
take_text (suc n) String.[] = String.[]
take_text (suc n) (String.◌∷◌ c s) = String.◌∷◌ c (take_text n s)

unfoldable pub drop_text : ℕ → String → String
drop_text zero s = s
drop_text (suc n) String.[] = String.[]
drop_text (suc n) (String.◌∷◌ c s) = drop_text n s

-- strings.HasPrefix
unfoldable pub has_prefix : String → String → Bool
has_prefix s String.[] = true
has_prefix String.[] (String.◌∷◌ c p) = false
has_prefix (String.◌∷◌ d s) (String.◌∷◌ c p) = code d == code c && has_prefix s p

-- Only characters that can be seen, of ASCII.
abbrev pub Solid : String → Type 0
Solid String.[] = Unit
Solid (String.◌∷◌ c s) = (b'!' ≤ code c) × (code c ≤ b'~') × Solid s

solid_char : (c : Char) → b'!' ≤ code c → code c ≤ b'~' → is_space c ≡ false
unfolding is_space
solid_char c h k = ground arith

trim_left-Solid : (s : String) → Solid s → trim_left s ≡ s
unfolding trim_left
trim_left-Solid String.[] h = refl
trim_left-Solid (String.◌∷◌ c s) h = rw (solid_char c h.0 h.1) refl

trim_right-Solid : (s : String) → Solid s → trim_right s ≡ s
unfolding trim_right
trim_right-Solid String.[] h = refl
trim_right-Solid (String.◌∷◌ c s) h = rw (solid_char c h.0 h.1, trim_right-Solid s h.2) refl

pub trim_space-Solid : (s : String) → Solid s → trim_space s ≡ s
unfolding trim_space
trim_space-Solid s h = rw (trim_left-Solid s h) (trim_right-Solid s h)
