-- ===== src/Prelude/Text.antt =====
-- The methods of `str` that the sources call, over the characters of a native text.
pub mod Laws
pub mod Affix
pub mod Trim
pub mod Digits
pub mod Lines
use Prim.Native.Nat.{ℕ, zero, suc, ◌+◌, ◌*◌, ◌-◌, ◌^◌, ◌≤◌, ◌<◌}
use Prim.Native.Char.{Char, code}
use Prim.Native.String.{String, [], ◌∷◌}
use mathlib.Core.Bool.{Bool, true, false, ◌&&◌, ◌||◌}
use mathlib.Core.Logic.{◌≢◌}
use mathlib.Core.Option.{Option, none, some}
use mathlib.Core.List
use mathlib.Core.List.{List, [], ◌∷◌}
use text.Mathlib.Text.{◌==◌ as str_eq}
use ipp_client.Prelude.Tests.{◌==◌, leb, ltb, map_option, and_then, if◌then◌else◌}

-- No character of the text has this code.
abbrev pub Lacks : ℕ → String → Type 0
Lacks d [] = Unit
Lacks d (c ∷ s) = (code c ≢ d) × Lacks d s

abbrev pub is_empty : String → Bool
is_empty [] = true
is_empty (c ∷ s) = false

unfoldable pub strip_prefix : String → String → Option String
strip_prefix [] s = some s
strip_prefix (d ∷ p) [] = none
strip_prefix (d ∷ p) (c ∷ s) =
    let rest = strip_prefix p s in if code c == code d then rest else none

unfoldable pub strip_suffix : String → String → Option String
strip_suffix p [] = if is_empty p then some [] else none
strip_suffix p (c ∷ s) =
    let rest = map_option (strip_suffix p s) (λ l. c ∷ l) in
    if str_eq (c ∷ s) p then some [] else rest

unfoldable pub contains : String → String → Bool
unfolding strip_prefix
contains p [] = is_empty p
contains p (c ∷ s) =
    let later = contains p s in elim (strip_prefix p (c ∷ s)) [ some _ ↦ true | none ↦ later ]

-- Split at the first, or at the last, character with this code.
unfoldable pub split_once : ℕ → String → Option (String × String)
split_once d [] = none
split_once d (c ∷ s) =
    let rest = map_option (split_once d s) (λ (l, r). (c ∷ l, r)) in
    if code c == d then some ([], s) else rest

abbrev rsplit_step : ℕ → Char → String → Option (String × String) → Option (String × String)
rsplit_step d c s (some (l, r)) = some (c ∷ l, r)
rsplit_step d c s none = if code c == d then some ([], s) else none

unfoldable pub rsplit_once : ℕ → String → Option (String × String)
rsplit_once d [] = none
rsplit_once d (c ∷ s) = rsplit_step d c s (rsplit_once d s)

-- `split(d).next()`: the piece before the first separator; it is always there.
unfoldable pub first_piece : ℕ → String → String
first_piece d [] = []
first_piece d (c ∷ s) = let rest = first_piece d s in if code c == d then [] else c ∷ rest

-- `rsplit(d).next()`: the piece behind the last separator; it is always there.
unfoldable pub last_piece : ℕ → String → String
unfolding rsplit_once
last_piece d s = elim (rsplit_once d s) [ some (l, r) ↦ r | none ↦ s ]

unfoldable pub trim_end_matches : ℕ → String → String
trim_end_matches d [] = []
trim_end_matches d (c ∷ s) =
    let rest = trim_end_matches d s in if is_empty rest && code c == d then [] else c ∷ rest

-- The characters with the Unicode property White_Space.
abbrev pub is_whitespace : ℕ → Bool
is_whitespace c =
    (leb 9 c && leb c 13)
    || c == 32
    || c == 0x85
    || c == 0xa0
    || c == 0x1680
    || (leb 0x2000 c && leb c 0x200a)
    || c == 0x2028
    || c == 0x2029
    || c == 0x202f
    || c == 0x205f
    || c == 0x3000

-- The run of characters up to the first whitespace.
unfoldable pub word : String → String
word [] = []
word (c ∷ s) = let rest = word s in if is_whitespace (code c) then [] else c ∷ rest

-- `split_whitespace().next()`
unfoldable pub first_word : String → Option String
unfolding word
first_word [] = none
first_word (c ∷ s) =
    let rest = first_word s in
    let found = word s in if is_whitespace (code c) then rest else some (c ∷ found)

-- `lines()`: split behind each line feed, without the line feed and one carriage return before
-- it; no line is made of what is empty behind the last line feed.
abbrev add_char : Char → List String → List String
add_char c [] = (c ∷ []) ∷ []
add_char c (l ∷ ls) = (c ∷ l) ∷ ls

unfoldable pub strip_cr : String → String
strip_cr [] = []
strip_cr (c ∷ s) = let rest = strip_cr s in if is_empty s && code c == 13 then [] else c ∷ rest

-- A line that begins with its first character; `raw_lines` keeps the carriage returns.
unfoldable pub raw_lines : String → List (String × Bool)
raw_lines [] = []
raw_lines (c ∷ s) =
    let rest = raw_lines s in
    if code c == 10
    then ([], true) ∷ rest
    else elim rest [ [] ↦ (c ∷ [], false) ∷ [] | (l, ended) ∷ ls ↦ (c ∷ l, ended) ∷ ls ]

abbrev finish_line : String × Bool → String
finish_line (l, ended) = if ended then strip_cr l else l

unfoldable pub lines : String → List String
unfolding raw_lines strip_cr
lines s = List.map finish_line (raw_lines s)

-- `parse::<u32>()`: an optional plus sign and at least one digit, with no overflow.
unfoldable pub digits : ℕ → String → Option ℕ
digits n [] = some n
digits n (c ∷ s) =
    let d = code c - 48 in
    let rest = digits (n * 10 + d) s in
    if leb 48 (code c) && leb (code c) 57 && ltb (n * 10 + d) (2 ^ 32) then rest else none

abbrev pub nonempty_digits : String → Option ℕ
nonempty_digits [] = none
nonempty_digits (c ∷ s) = digits 0 (c ∷ s)

unfoldable pub parse_u32 : String → Option ℕ
unfolding digits
parse_u32 [] = none
parse_u32 (c ∷ s) = if code c == 43 then nonempty_digits s else digits 0 (c ∷ s)
