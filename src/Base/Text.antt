-- ===== src/Base/Text.antt =====
-- Texts are compared by the library's test, whose truth is equality.
use mathlib.Core.Path.{◌≡◌}
use mathlib.Core.Bool.{Bool, true, false, ◌&&◌, ◌||◌}
use mathlib.Core.Option.{Option, none, some}
use mathlib.Core.List.{List, [], ◌∷◌}
use Prim.Native.String.{String, [] as empty, ◌∷◌ as before, ◌++◌ as append}
use Prim.Native.Char.{code}
use Prim.Native.Nat.{ℕ, zero, suc, ◌/◌, ◌%◌}
use mathlib.Core.Path.{refl, ap}
use native.Mathlib.Omega.{arith}
use kalshi_bet_router.Base.Lists.{any}
use kalshi_bet_router.Base.Tests.{if◌then◌else◌, leb, ◌==◌}
pub use text.Mathlib.Text.{◌==◌ as str_eq}
pub use text.Mathlib.TextEquality.{eq_iff as str_eq_iff}
pub use text.Mathlib.TextPositions.{eq_refl as str_eq_refl}

-- `a == b` for values that may be `None`.
abbrev pub option_str_eq : Option String → Option String → Bool
option_str_eq none none = true
option_str_eq none (some t) = false
option_str_eq (some s) none = false
option_str_eq (some s) (some t) = str_eq s t

pub option_str_eq-eq : (a b : Option String) → option_str_eq a b ≡ true → a ≡ b
option_str_eq-eq none none h = refl
option_str_eq-eq none (some t) h = ground arith
option_str_eq-eq (some s) none h = ground arith
option_str_eq-eq (some s) (some t) h = ap (λ u. some u) ((str_eq_iff s t).0 h)

-- `s in xs`.
abbrev pub contains : String → List String → Bool
contains s xs = any (λ t. str_eq t s) xs

-- The characters that `str.strip` takes off.
abbrev pub is_space : ℕ → Bool
is_space c =
    (leb 9 c && leb c 13)
    || (leb 28 c && leb c 32)
    || c == 133
    || c == 160
    || c == 5760
    || (leb 8192 c && leb c 8202)
    || c == 8232
    || c == 8233
    || c == 8239
    || c == 8287
    || c == 12288

-- `not s.strip()`
abbrev pub is_blank : String → Bool
is_blank empty = true
is_blank (before c s) = is_space (code c) && is_blank s

-- A text put together from its parts, as an f-string is.
abbrev pub concat : List String → String
concat [] = ""
concat (s ∷ ss) = append s (concat ss)

abbrev pub digit_text : ℕ → String
digit_text zero = "0"
digit_text (suc zero) = "1"
digit_text (suc (suc zero)) = "2"
digit_text (suc (suc (suc zero))) = "3"
digit_text (suc (suc (suc (suc zero)))) = "4"
digit_text (suc (suc (suc (suc (suc zero))))) = "5"
digit_text (suc (suc (suc (suc (suc (suc zero)))))) = "6"
digit_text (suc (suc (suc (suc (suc (suc (suc zero))))))) = "7"
digit_text (suc (suc (suc (suc (suc (suc (suc (suc zero)))))))) = "8"
digit_text (suc (suc (suc (suc (suc (suc (suc (suc (suc n))))))))) = "9"

unfoldable pub str_loop : ℕ → ℕ → String → String
str_loop zero n rest = rest
str_loop (suc fuel) n rest =
    let more = str_loop fuel (n / 10) (append (digit_text (n % 10)) rest) in
    if n == 0 then rest else more

-- `str(n)`; each round of the loop writes a digit, and there are at most `n` of them.
unfoldable pub str : ℕ → String
unfolding str_loop
str n = if n == 0 then "0" else str_loop n n ""

str_example : str 1063 ≡ "1063"
unfolding str
str_example = refl
