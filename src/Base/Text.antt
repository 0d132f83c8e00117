-- ===== src/Base/Text.antt =====
-- Rust's `str` functions that the program calls, by recursion on the characters.
use Prim.Native.Nat.{ℕ, ◌+◌, ◌-◌, ◌<◌, compare, Ordering}
use Prim.Native.Char.{Char, char, code, IsScalar}
use Prim.Native.String.{String, [], ◌∷◌, ◌++◌, char_at, find, len, compare as compare_str}
use text.Mathlib.Text.{is_le}
use native.Mathlib.Decide.{dec_le}
use mathlib.Core.List.{List}
use mathlib.Core.Path.{◌≡◌, refl, ap}
use mathlib.Core.Logic.{dite, inl, inr}
use mathlib.Core.Bool.{Bool, true, false, ◌&&◌, ◌||◌}
use mathlib.Core.Option.{Option, none, some}
use native.Mathlib.Omega.{arith}
use text.Mathlib.TextLemmas.{nil-append, cons-append, append-nil}
use lore_auth_bridge.Base.Tests.{Bool-cases, leb, beq_self, ◌==◌, nat_eq, string_eq, if◌then◌else◌}

-- `format!` and `join("")` of the parts.
abbrev pub concat : List String → String
concat List.[] = ""
concat (List.◌∷◌ s rest) = s ++ concat rest

unfoldable pub is_empty_str : String → Bool
is_empty_str [] = true
is_empty_str (c ∷ s) = false

-- `char::is_whitespace`: the property White_Space.
unfoldable pub is_whitespace : Char → Bool
is_whitespace c =
    let n = code c in
    (leb 9 n && leb n 13)
    || n == 32
    || n == 0x85
    || n == 0xa0
    || n == 0x1680
    || (leb 0x2000 n && leb n 0x200a)
    || n == 0x2028
    || n == 0x2029
    || n == 0x202f
    || n == 0x205f
    || n == 0x3000

unfoldable pub trim_start : String → String
trim_start [] = []
trim_start (c ∷ s) = let rest = trim_start s in if is_whitespace c then rest else c ∷ s

unfoldable pub trim_end : String → String
trim_end [] = []
trim_end (c ∷ s) =
    let rest = trim_end s in if is_empty_str rest && is_whitespace c then [] else c ∷ rest

-- `str::trim`.
unfoldable pub trim : String → String
unfolding trim_start trim_end is_whitespace is_empty_str
trim s = trim_end (trim_start s)

-- `trim_end_matches(c)`.
unfoldable pub trim_end_matches : Char → String → String
unfolding is_empty_str
trim_end_matches d [] = []
trim_end_matches d (c ∷ s) =
    let rest = trim_end_matches d s in
    if is_empty_str rest && code c == code d then [] else c ∷ rest

-- `chars().any(p)`.
unfoldable pub any_char : (Char → Bool) → String → Bool
any_char p [] = false
any_char p (c ∷ s) = p c || any_char p s

-- `bytes().all(p)` for a `p` that holds of ASCII bytes only: it fails on each byte of another
-- character.
unfoldable pub all_chars : (Char → Bool) → String → Bool
all_chars p [] = true
all_chars p (c ∷ s) = p c && all_chars p s

-- `strip_prefix(p)`.
unfoldable pub strip_prefix : String → String → Option String
strip_prefix [] s = some s
strip_prefix (d ∷ p) [] = none
strip_prefix (d ∷ p) (c ∷ s) =
    let rest = strip_prefix p s in if code d == code c then rest else none

-- `strip_suffix(p)`.
unfoldable pub strip_suffix : String → String → Option String
unfolding is_empty_str
strip_suffix p [] = if is_empty_str p then some "" else none
strip_suffix p (c ∷ s) =
    let rest = strip_suffix p s in
    if c ∷ s == p then some "" else elim rest [ none ↦ none | some t ↦ some (c ∷ t) ]

-- `starts_with(p)`.
unfoldable pub has_prefix : String → String → Bool
has_prefix [] s = true
has_prefix (d ∷ p) [] = false
has_prefix (d ∷ p) (c ∷ s) = code d == code c && has_prefix p s

pub strip_prefix-append : (p s : String) → strip_prefix p (p ++ s) ≡ some s
unfolding strip_prefix
strip_prefix-append [] s = rw (nil-append s) refl
strip_prefix-append (d ∷ p) s = rw (cons-append d p s, beq_self (code d)) (strip_prefix-append p s)

pub has_prefix-append : (p s : String) → has_prefix p (p ++ s) ≡ true
unfolding has_prefix
has_prefix-append [] s = refl
has_prefix-append (d ∷ p) s = rw (cons-append d p s) (ground (arith, has_prefix-append p s))

pub strip_prefix-none : (p s : String) → has_prefix p s ≡ false → strip_prefix p s ≡ none
unfolding has_prefix strip_prefix
strip_prefix-none [] s h = cc
strip_prefix-none (d ∷ p) [] h = refl
strip_prefix-none (d ∷ p) (c ∷ s) h = elim (Bool-cases (has_prefix p s)) [
  | inl e ↦ ground (arith, e)
  | inr e ↦ ground (arith, e, strip_prefix-none p s e)
]

pub has_prefix-nonempty :
    (d : Char) (p s : String) → has_prefix (d ∷ p) s ≡ true → is_empty_str s ≡ false
unfolding has_prefix is_empty_str
has_prefix-nonempty d p [] h = cc
has_prefix-nonempty d p (c ∷ s) h = refl

pub concat-two : (p s : String) → concat (List.◌∷◌ p (List.◌∷◌ s List.[])) ≡ p ++ s
concat-two p s = ap (λ t. p ++ t) (append-nil s)

-- `rsplit_once(c)`, the part behind the last `c`.
unfoldable pub after_last : Char → String → Option String
after_last d [] = none
after_last d (c ∷ s) = elim (after_last d s) [
  | some t ↦ some t
  | none ↦ if code c == code d then some s else none
]

is_scalar_of_small : (n : ℕ) → n < 1000 → IsScalar n
is_scalar_of_small n h = let e : compare n 55296 ≡ Ordering.lt = ground arith in rw e tt

unfoldable pub is_ascii_uppercase : Char → Bool
is_ascii_uppercase c = leb 65 (code c) && leb (code c) 90

unfoldable pub is_ascii_lowercase : Char → Bool
is_ascii_lowercase c = leb 97 (code c) && leb (code c) 122

-- `to_ascii_lowercase` and `to_ascii_uppercase` of a character.
unfoldable pub lower_char : Char → Char
unfolding dec_le is_scalar_of_small
lower_char c =
    dite (dec_le 65 (code c))
      (λ _.
        dite (dec_le (code c) 90)
          (λ h. char (code c + 32) (is_scalar_of_small (code c + 32) (omega arith))) (λ _. c))
      (λ _. c)

unfoldable pub upper_char : Char → Char
unfolding dec_le is_scalar_of_small
upper_char c =
    dite (dec_le 97 (code c))
      (λ _.
        dite (dec_le (code c) 122)
          (λ h. char (code c - 32) (is_scalar_of_small (code c - 32) (omega arith))) (λ _. c))
      (λ _. c)

unfoldable pub map_chars : (Char → Char) → String → String
map_chars f [] = []
map_chars f (c ∷ s) = f c ∷ map_chars f s

unfoldable pub to_ascii_lowercase : String → String
unfolding map_chars lower_char
to_ascii_lowercase = map_chars lower_char

unfoldable pub to_ascii_uppercase : String → String
unfolding map_chars upper_char
to_ascii_uppercase = map_chars upper_char

unfoldable pub eq_ignore_ascii_case : String → String → Bool
unfolding to_ascii_lowercase
eq_ignore_ascii_case s t = to_ascii_lowercase s == to_ascii_lowercase t

-- `str::cmp` as `<=`.
unfoldable pub str_leb : String → String → Bool
str_leb s t = is_le (compare_str s t)

-- `s.contains(t)`: `find` answers past the end where `t` does not stand in `s`.
unfoldable pub contains_str : String → String → Bool
contains_str s t = leb (find s t) (len s)

-- Tests of the functions above.
trim_lower : to_ascii_lowercase (trim "  Ann@Example.COM ") ≡ "ann@example.com"
unfolding to_ascii_lowercase trim
trim_lower = refl

domain_of : after_last (char_at "@" 0) "a@b@c.d" ≡ some "c.d"
unfolding after_last
domain_of = refl
