-- ===== src/Common/Text.antt =====
-- Text walked by code point: decimal printing, number parsing and white space, as the Rust standard
-- library does them.
use Prim.Native.Char.{code}
use Prim.Native.String.{String, ◌++◌ as ◌<>◌}
use Prim.Native.Nat.{ℕ, zero, suc, ◌+◌, ◌-◌, ◌*◌, ◌/◌, ◌%◌, ◌^◌}
use mathlib.Core.Path.{◌≡◌, refl}
use mathlib.Core.Bool.{Bool, true, false, ◌&&◌, ◌||◌}
use mathlib.Core.Option.{Option, none, some}
use mathlib.Core.List.{List, [], ◌∷◌, ◌++◌}
use fupi.Common.Tests.{ltb, leb, ◌==◌, if◌then◌else◌}

-- The code points of a text: its bytes, where it is ASCII.
abbrev pub codes : String → List ℕ
codes String.[] = []
codes (String.◌∷◌ c s) = code c ∷ codes s

-- `is_empty`
abbrev pub is_empty_text : String → Bool
is_empty_text String.[] = true
is_empty_text (String.◌∷◌ c s) = false

abbrev digit_text : ℕ → String
digit_text d =
    if d == 0
    then "0"
    else if d == 1
    then "1"
    else if d == 2
    then "2"
    else if d == 3
    then "3"
    else if d == 4
    then "4"
    else if d == 5
    then "5"
    else if d == 6
    then "6"
    else if d == 7
    then "7"
    else if d == 8
    then "8"
    else "9"

show_onto : ℕ → ℕ → String → String
show_onto zero n s = s
show_onto (suc f) n s =
    let more = show_onto f (n / 10) (digit_text (n % 10) <> s) in
    if ltb n 10 then digit_text n <> s else more

-- `format!("{n}")` of an unsigned number: the fuel `n + 1` is more than its digits.
unfoldable pub show : ℕ → String
unfolding show_onto
show n = show_onto (suc n) n ""

-- The decimal digits of `parse`, with the overflow check of `u64`.
parse_digits : List ℕ → ℕ → Option ℕ
parse_digits [] acc = some acc
parse_digits (c ∷ cs) acc =
    let next = acc * 10 + (c - 48) in
    let rest = parse_digits cs next in
    if leb 48 c && leb c 57 then (if ltb next (2 ^ 64) then rest else none) else none

after_sign : List ℕ → List ℕ
after_sign [] = []
after_sign (c ∷ cs) = if c == 43 then cs else c ∷ cs

-- `str::parse::<u64>`: one leading `+` is allowed, and at least one digit is needed.
unfoldable pub parse_u64 : List ℕ → Option ℕ
unfolding parse_digits after_sign
parse_u64 cs = elim (after_sign cs) [ [] ↦ none | c ∷ r ↦ parse_digits (c ∷ r) 0 ]

-- `char::is_whitespace`
unfoldable pub is_whitespace : ℕ → Bool
is_whitespace c =
    (leb 9 c && leb c 13)
    || c == 32
    || c == 0x85
    || c == 0xa0
    || c == 0x1680
    || (leb 0x2000 c && leb c 0x200a)
    || c == 0x2028
    || c == 0x2029
    || c == 0x202f
    || c == 0x205f
    || c == 0x3000

unfoldable pub trim_start : List ℕ → List ℕ
unfolding is_whitespace
trim_start [] = []
trim_start (c ∷ cs) = let rest = trim_start cs in if is_whitespace c then rest else c ∷ cs

unfoldable pub trim_end : List ℕ → List ℕ
unfolding is_whitespace
trim_end [] = []
trim_end (c ∷ cs) = elim (trim_end cs) [
  | [] ↦ if is_whitespace c then [] else c ∷ []
  | d ∷ r ↦ c ∷ d ∷ r
]

-- `trim_end_matches` of a single character
unfoldable pub trim_end_matches : ℕ → List ℕ → List ℕ
trim_end_matches p [] = []
trim_end_matches p (c ∷ cs) = elim (trim_end_matches p cs) [
  | [] ↦ if c == p then [] else c ∷ []
  | d ∷ r ↦ c ∷ d ∷ r
]

-- `str::trim`
unfoldable pub trim : List ℕ → List ℕ
unfolding trim_start trim_end
trim cs = trim_end (trim_start cs)

show_test : show 230 ≡ "230"
unfolding show
show_test = refl

parse_test : parse_u64 (codes "+0230") ≡ some 230
unfolding parse_u64
parse_test = refl

-- `str::as_bytes`: the UTF-8 encoding of a code point, and of a text.
utf8_char : ℕ → List ℕ
utf8_char c =
    if ltb c 0x80
    then c ∷ []
    else if ltb c 0x800
    then (0xc0 + c / 0x40) ∷ (0x80 + c % 0x40) ∷ []
    else if ltb c 0x10000
    then (0xe0 + c / 0x1000) ∷ (0x80 + c / 0x40 % 0x40) ∷ (0x80 + c % 0x40) ∷ []
    else (0xf0 + c / 0x40000)
      ∷ (0x80 + c / 0x1000 % 0x40)
      ∷ (0x80 + c / 0x40 % 0x40)
      ∷ (0x80 + c % 0x40)
      ∷ []

utf8_codes : List ℕ → List ℕ
unfolding utf8_char
utf8_codes [] = []
utf8_codes (c ∷ cs) = utf8_char c ++ utf8_codes cs

unfoldable pub as_bytes : String → List ℕ
unfolding utf8_codes
as_bytes s = utf8_codes (codes s)
