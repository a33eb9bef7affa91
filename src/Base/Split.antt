-- ===== src/Base/Split.antt =====
-- strings.Split at one character, and that it undoes a join.
use Prim.Native.Char.{Char, code}
use Prim.Native.String.{String, ◌++◌ as text_append}
use mathlib.Core.Path.{◌≡◌, refl}
use mathlib.Core.List.{List, [], ◌∷◌}
use text.Mathlib.TextLemmas.{nil-append, cons-append}
use native.Mathlib.Omega.{arith}
use flashloan_scanner.Base.Tests.{◌==◌, if◌then◌else◌}
use flashloan_scanner.Base.Prefix.{Lacks}

abbrev pub add_first : Char → List String → List String
add_first c [] = String.◌∷◌ c String.[] ∷ []
add_first c (part ∷ parts) = String.◌∷◌ c part ∷ parts

unfoldable pub split_at : Char → String → List String
split_at d String.[] = String.[] ∷ []
split_at d (String.◌∷◌ c s) =
    let rest = split_at d s in if code c == code d then String.[] ∷ rest else add_first c rest

pub split_at-Lacks : (d : Char) (s : String) → Lacks d s → split_at d s ≡ s ∷ []
unfolding split_at
split_at-Lacks d String.[] h = refl
split_at-Lacks d (String.◌∷◌ c s) h = rw (h.0, split_at-Lacks d s h.1) refl

pub split_at-append :
    (d : Char) (s t : String)
    → Lacks d s
    → split_at d (text_append s (String.◌∷◌ d t)) ≡ s ∷ split_at d t
unfolding split_at
split_at-append d String.[] t h = rw (nil-append (String.◌∷◌ d t), split_at) (ground arith)
split_at-append d (String.◌∷◌ c s) t h =
    rw (cons-append c s (String.◌∷◌ d t), split_at, h.0, split_at-append d s t h.1) refl
