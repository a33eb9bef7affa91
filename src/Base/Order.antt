-- ===== src/Base/Order.antt =====
-- Go's `<` on strings. It compares the bytes, and the bytes of UTF-8 compare as the characters do.
use Prim.Native.Char.{code}
use Prim.Native.String.{String}
use mathlib.Core.Path.{◌≡◌, refl}
use mathlib.Core.Logic.{◌≢◌, inl, inr}
use mathlib.Core.Bool.{Bool, true, false, ◌&&◌, ◌||◌}
use text.Mathlib.TextEquality.{Char-path}
use native.Mathlib.Omega.{arith}
use flashloan_scanner.Base.Tests.{◌==◌, ltb, Bool-cases}

unfoldable pub text_ltb : String → String → Bool
text_ltb String.[] String.[] = false
text_ltb String.[] (String.◌∷◌ d t) = true
text_ltb (String.◌∷◌ c s) String.[] = false
text_ltb (String.◌∷◌ c s) (String.◌∷◌ d t) =
    ltb (code c) (code d) || code c == code d && text_ltb s t

-- Of two texts one is the smaller, or they are equal.
pub text_ltb-total : (s t : String) → text_ltb s t ≡ false → s ≢ t → text_ltb t s ≡ true
unfolding text_ltb
text_ltb-total String.[] String.[] h n = absurd (n refl)
text_ltb-total String.[] (String.◌∷◌ d t) h n = cc
text_ltb-total (String.◌∷◌ c s) String.[] h n = refl
text_ltb-total (String.◌∷◌ c s) (String.◌∷◌ d t) h n = elim (Bool-cases (code c == code d)) [
  | inl same ↦
      let e : c ≡ d = Char-path c d (ground arith) in
      let smaller = text_ltb-total s t (ground arith) (λ f. n (cc (e, f))) in ground arith
  | inr other ↦ ground arith
]
