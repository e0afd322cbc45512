-- ===== src/Common/Text.antt =====
-- Texts as lists of Unicode scalar values, with the methods of `str` and `char` that the code uses.
use Prim.Native.Nat.{ℕ, zero, suc, ◌+◌, ◌-◌, ◌≤◌}
use Prim.Native.Char.{code}
use Prim.Native.String.{String}
use mathlib.Core.Path.{◌≡◌, refl}
use mathlib.Core.Logic.{◌↔◌}
use mathlib.Core.Bool.{Bool, true, false, ◌&&◌, ◌||◌}
use mathlib.Core.List.{List, [], ◌∷◌, ◌++◌}
use mathlib.Core.Option.{Option, none, some}
use native.Mathlib.Omega.{arith}
use xiaozhi_esp32_server_rus.Common.Tests.{leb, ltb, ◌==◌, if◌then◌else◌}
use xiaozhi_esp32_server_rus.Common.Lists.{length, all}

abbrev pub Text : Type 0
Text = List ℕ

-- A literal as its code points.
abbrev pub codes : String → Text
codes String.[] = []
codes (String.◌∷◌ c s) = code c ∷ codes s

unfoldable pub text_eq : Text → Text → Bool
text_eq [] [] = true
text_eq [] (y ∷ ys) = false
text_eq (x ∷ xs) [] = false
text_eq (x ∷ xs) (y ∷ ys) = x == y && text_eq xs ys

abbrev pub is_empty : Text → Bool
is_empty [] = true
is_empty (x ∷ xs) = false

-- `char::is_whitespace`: the code points with the property White_Space.
unfoldable pub is_whitespace : ℕ → Bool
is_whitespace c =
    (leb 9 c && leb c 13)
    || (c == 32)
    || (c == 0x85)
    || (c == 0xa0)
    || (c == 0x1680)
    || (leb 0x2000 c && leb c 0x200a)
    || (c == 0x2028)
    || (c == 0x2029)
    || (c == 0x202f)
    || (c == 0x205f)
    || (c == 0x3000)

-- `trim_start_matches` and `trim_end_matches` by a test on characters.
unfoldable pub trim_start_by : (ℕ → Bool) → Text → Text
trim_start_by p [] = []
trim_start_by p (c ∷ s) = let rest = trim_start_by p s in if p c then rest else c ∷ s

unfoldable pub trim_end_by : (ℕ → Bool) → Text → Text
trim_end_by p [] = []
trim_end_by p (c ∷ s) = let rest = trim_end_by p s in if is_empty rest && p c then [] else c ∷ rest

abbrev pub trim_by : (ℕ → Bool) → Text → Text
trim_by p s = trim_end_by p (trim_start_by p s)

abbrev pub trim : Text → Text
trim = trim_by is_whitespace

-- `strip_prefix`
unfoldable pub strip_prefix : Text → Text → Option Text
strip_prefix [] s = some s
strip_prefix (p ∷ ps) [] = none
strip_prefix (p ∷ ps) (c ∷ s) = let rest = strip_prefix ps s in if p == c then rest else none

unfoldable pub starts_with : Text → Text → Bool
starts_with [] s = true
starts_with (p ∷ ps) [] = false
starts_with (p ∷ ps) (c ∷ s) = p == c && starts_with ps s

-- `s.contains(p)`, the pattern first
unfoldable pub contains : Text → Text → Bool
unfolding starts_with
contains p [] = is_empty p
contains p (c ∷ s) = starts_with p (c ∷ s) || contains p s

-- `to_ascii_lowercase`
unfoldable pub to_ascii_lowercase : Text → Text
to_ascii_lowercase [] = []
to_ascii_lowercase (c ∷ s) = (if leb b'A' c && leb c b'Z' then c + 32 else c) ∷ to_ascii_lowercase s

-- `s.replace(a, b)` on characters
unfoldable pub replace_char : ℕ → ℕ → Text → Text
replace_char a b [] = []
replace_char a b (c ∷ s) = (if c == a then b else c) ∷ replace_char a b s

-- The bytes of a character, and `len` of a text, in UTF-8.
abbrev pub len_utf8 : ℕ → ℕ
len_utf8 c = if ltb c 0x80 then 1 else if ltb c 0x800 then 2 else if ltb c 0x10000 then 3 else 4

unfoldable pub utf8_len : Text → ℕ
utf8_len [] = 0
utf8_len (c ∷ s) = len_utf8 c + utf8_len s

unfoldable pub is_ascii_alphanumeric : ℕ → Bool
is_ascii_alphanumeric c =
    (leb b'0' c && leb c b'9') || (leb b'A' c && leb c b'Z') || (leb b'a' c && leb c b'z')

unfoldable pub is_ascii_punctuation : ℕ → Bool
is_ascii_punctuation c =
    (leb 33 c && leb c 47)
    || (leb 58 c && leb c 64)
    || (leb 91 c && leb c 96)
    || (leb 123 c && leb c 126)

-- `s.split(sep)` for a separator that is not empty. The counter is how much of a separator is
-- still to be passed over.
abbrev push_first : ℕ → List Text → List Text
push_first c [] = (c ∷ []) ∷ []
push_first c (p ∷ ps) = (c ∷ p) ∷ ps

unfoldable pub split_from : Text → ℕ → Text → List Text
unfolding starts_with
split_from sep k [] = [] ∷ []
split_from sep (suc k) (c ∷ s) = split_from sep k s
split_from sep zero (c ∷ s) =
    let cut = [] ∷ split_from sep (length sep - 1) s in
    let on = push_first c (split_from sep 0 s) in if starts_with sep (c ∷ s) then cut else on

abbrev pub split : Text → Text → List Text
split sep s = split_from sep 0 s

-- `s.replace(pat, by)` for a pattern that is not empty.
replace_from : Text → Text → ℕ → Text → Text
unfolding starts_with
replace_from pat by k [] = []
replace_from pat by (suc k) (c ∷ s) = replace_from pat by k s
replace_from pat by zero (c ∷ s) =
    let cut = by ++ replace_from pat by (length pat - 1) s in
    let on = c ∷ replace_from pat by 0 s in if starts_with pat (c ∷ s) then cut else on

pub text_eq_iff : (s t : Text) → (text_eq s t ≡ true) ↔ (s ≡ t)
unfolding text_eq
text_eq_iff [] [] = (λ _. refl, λ _. refl)
text_eq_iff [] (y ∷ ys) = ground arith
text_eq_iff (x ∷ xs) [] = ground arith
text_eq_iff (x ∷ xs) (y ∷ ys) = ground (arith, text_eq_iff xs ys)

pub text_eq_refl : (s : Text) → text_eq s s ≡ true
text_eq_refl s = (text_eq_iff s s).1 refl

pub strip_prefix-append : (p s : Text) → strip_prefix p (p ++ s) ≡ some s
unfolding strip_prefix
strip_prefix-append [] s = refl
strip_prefix-append (c ∷ p) s = ground (arith, strip_prefix-append p s)

module _ (p q : ℕ → Bool) where
  all-trim_start_by : (s : Text) → all q s ≡ true → all q (trim_start_by p s) ≡ true
  unfolding trim_start_by
  all-trim_start_by [] h = refl
  all-trim_start_by (c ∷ s) h = ground (arith, all-trim_start_by s)

  pub all-trim_end_by : (s : Text) → all q s ≡ true → all q (trim_end_by p s) ≡ true
  unfolding trim_end_by
  all-trim_end_by [] h = refl
  all-trim_end_by (c ∷ s) h = ground (arith, all-trim_end_by s)

  pub all-trim_by : (s : Text) → all q s ≡ true → all q (trim_by p s) ≡ true
  all-trim_by s h = all-trim_end_by (trim_start_by p s) (all-trim_start_by s h)

pub length-utf8_len : (s : Text) → length s ≤ utf8_len s
unfolding utf8_len
length-utf8_len [] = omega arith
length-utf8_len (c ∷ s) = ground (arith, length-utf8_len s)
