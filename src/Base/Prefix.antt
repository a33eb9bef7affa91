-- ===== src/Base/Prefix.antt =====
-- Prefixes of texts, as strings.HasPrefix tests them.
use Prim.Native.Nat.{◌+◌, ◌≤◌}
use Prim.Native.Char.{Char, code}
use Prim.Native.String.{String, ◌++◌ as text_append}
use mathlib.Core.Path.{◌≡◌, refl}
use mathlib.Core.Bool.{true, false}
use native.Mathlib.Omega.{arith}
use text.Mathlib.TextEquality.{Char-path}
use text.Mathlib.TextLemmas.{nil-append, cons-append}
use flashloan_scanner.Base.Tests.{◌==◌}
use flashloan_scanner.Base.Text.{has_prefix, text_length}

pub text_length-append :
    (s t : String) → text_length (text_append s t) ≡ text_length s + text_length t
unfolding text_length
text_length-append String.[] t = rw (nil-append t) (omega arith)
text_length-append (String.◌∷◌ c s) t =
    rw (cons-append c s t) (omega (arith, text_length-append s t))

pub has_prefix-length : (s p : String) → has_prefix s p ≡ true → text_length p ≤ text_length s
unfolding has_prefix text_length
has_prefix-length s String.[] h = omega arith
has_prefix-length String.[] (String.◌∷◌ c p) h = cc
has_prefix-length (String.◌∷◌ d s) (String.◌∷◌ c p) h =
    omega (arith, has_prefix-length s p (ground arith))

pub has_prefix_trans :
    (x q p : String) → has_prefix x q ≡ true → has_prefix q p ≡ true → has_prefix x p ≡ true
unfolding has_prefix
has_prefix_trans x q String.[] h k = refl
has_prefix_trans x String.[] (String.◌∷◌ c p) h k = cc
has_prefix_trans String.[] (String.◌∷◌ d q) (String.◌∷◌ c p) h k = cc
has_prefix_trans (String.◌∷◌ e x) (String.◌∷◌ d q) (String.◌∷◌ c p) h k =
    ground (arith, has_prefix_trans x q p (ground arith) (ground arith))

-- A common text in front.
pub has_prefix-common :
    (p s t : String) → has_prefix (text_append p s) (text_append p t) ≡ has_prefix s t
unfolding has_prefix
has_prefix-common String.[] s t = rw (nil-append s, nil-append t) refl
has_prefix-common (String.◌∷◌ c p) s t =
    rw (cons-append c p s, cons-append c p t, has_prefix) (ground (arith, has_prefix-common p s t))

pub has_prefix-append :
    (s t p : String) → has_prefix s p ≡ true → has_prefix (text_append s t) p ≡ true
unfolding has_prefix
has_prefix-append s t String.[] h = refl
has_prefix-append String.[] t (String.◌∷◌ c p) h = cc
has_prefix-append (String.◌∷◌ d s) t (String.◌∷◌ c p) h =
    rw (cons-append d s t, has_prefix) (ground (arith, has_prefix-append s t p (ground arith)))

pub has_prefix_self : (s t : String) → has_prefix (text_append s t) s ≡ true
unfolding has_prefix
has_prefix_self String.[] t = refl
has_prefix_self (String.◌∷◌ c s) t =
    rw (cons-append c s t, has_prefix) (ground (arith, has_prefix_self s t))

pub has_prefix_refl : (s : String) → has_prefix s s ≡ true
unfolding has_prefix
has_prefix_refl String.[] = refl
has_prefix_refl (String.◌∷◌ c s) = ground (arith, has_prefix_refl s)

-- What is left of a text behind a prefix that two of its prefixes share.
pub rest_behind :
    (x p s t : String)
    → has_prefix x (text_append p s) ≡ true
    → has_prefix x (text_append p t) ≡ true
    → (y : String) × (has_prefix y s ≡ true) × (has_prefix y t ≡ true)
unfolding has_prefix
rest_behind x String.[] s t h k = (x, rw (nil-append s) at h, rw (nil-append t) at k)
rest_behind String.[] (String.◌∷◌ c p) s t h k =
    absurd (ground (arith, rw (cons-append c p s) at h))
rest_behind (String.◌∷◌ d x) (String.◌∷◌ c p) s t h k =
    rest_behind x p s t (ground (arith, rw (cons-append c p s) at h))
      (ground (arith, rw (cons-append c p t) at k))

-- The character is not in the text.
abbrev pub Lacks : Char → String → Type 0
Lacks d String.[] = Unit
Lacks d (String.◌∷◌ c s) = ((code c == code d) ≡ false) × Lacks d s

-- Two prefixes of a text up to the first such character are equal.
pub same_until :
    (d : Char) (x s t u v : String)
    → Lacks d s
    → Lacks d t
    → has_prefix x (text_append s (String.◌∷◌ d u)) ≡ true
    → has_prefix x (text_append t (String.◌∷◌ d v)) ≡ true
    → s ≡ t
unfolding has_prefix
same_until d x String.[] String.[] u v a b h k = refl
same_until d String.[] (String.◌∷◌ c s) t u v a b h k =
    absurd (ground (arith, rw (cons-append c s (String.◌∷◌ d u)) at h))
same_until d String.[] String.[] (String.◌∷◌ c t) u v a b h k =
    absurd (ground (arith, rw (cons-append c t (String.◌∷◌ d v)) at k))
same_until d (String.◌∷◌ e x) String.[] (String.◌∷◌ c t) u v a b h k = absurd (
    ground
      (arith, rw (nil-append (String.◌∷◌ d u)) at h, rw (cons-append c t (String.◌∷◌ d v)) at k, b))
same_until d (String.◌∷◌ e x) (String.◌∷◌ c s) String.[] u v a b h k = absurd (
    ground
      (arith, rw (nil-append (String.◌∷◌ d v)) at k, rw (cons-append c s (String.◌∷◌ d u)) at h, a))
same_until d (String.◌∷◌ e x) (String.◌∷◌ c s) (String.◌∷◌ b t) u v a l h k =
    let h' = rw (cons-append c s (String.◌∷◌ d u)) at h in
    let k' = rw (cons-append b t (String.◌∷◌ d v)) at k in
    let same : c ≡ b = Char-path c b (ground (arith, h', k')) in
    let rest = same_until d x s t u v a.1 l.1 (ground (arith, h')) (ground (arith, k')) in
    cc (same, rest)
