-- ===== src/Config.antt =====
-- src/config_reader.cc and include/config_reader.h: the reader of the configuration file. A text is
-- the list of its bytes, none of them NUL, and `isspace` is that of the C locale. The maps of sections are never
-- taken away, so the pointer `m` of Load is the name of its section.
pub mod Trim
pub mod Meanings
pub mod Entries
pub mod Lists
pub mod Numbers
use mathlib.Core.List.{reverse}
use easy_reactor.Base.{
  min, get_elem?, ℕ, zero, suc, ◌+◌, ◌-◌, ◌*◌, ◌%◌, ◌^◌, List, [], ◌∷◌, ◌++◌, Option, none, some,
  Bool, true, false, not, ◌&&◌, ◌||◌, ltb, leb, ◌==◌, if◌then◌else◌, length, take, drop,
}
use easy_reactor.Base.Text.{Bytes, TextMap, equal, put, index_of}
use easy_reactor.Base.Run.{Run, ok, abort, starved, ◌>>=◌, ◌>>◌, assert, deref}

pub record ConfigReader : Type 0 where
  pub sections : TextMap (TextMap Bytes)

abbrev pub empty_config : ConfigReader
empty_config = record { sections = λ k. none }

-- `isspace`
abbrev pub is_space : ℕ → Bool
is_space c = (leb b'\t' c && leb c b'\r') || c == b' '

-- `first_not_empty` behind the loop of trimLeft.
pub first_not_empty : Bytes → ℕ
first_not_empty [] = 0
first_not_empty (c ∷ s) = let rest = first_not_empty s in if is_space c then suc rest else 0

unfoldable pub trim_left : Bytes → Bytes
unfolding first_not_empty
trim_left s = drop (first_not_empty s) s

-- `last_not_empty` behind the loop of trimRight, on the bytes from the end on.
pub last_not_empty : Bytes → ℕ → ℕ
last_not_empty [] n = n
last_not_empty (c ∷ s) n = let rest = last_not_empty s (n - 1) in if is_space c then rest else n

unfoldable pub trim_right : Bytes → Bytes
unfolding last_not_empty
trim_right s = take (last_not_empty (reverse s) (length s)) s

unfoldable pub trim : Bytes → Bytes
unfolding trim_left trim_right
trim s = trim_left (trim_right s)

-- `s.at(i)`, which throws out of range.
abbrev pub at : Bytes → ℕ → Option ℕ
at = get_elem?

-- The Boolean of isSection with `section`, which the caller reads only if it is `true`.
unfoldable pub is_section : Bytes → Run (Option Bytes)
unfolding trim
is_section line =
    let section = trim line in
    let bracketed : Run (Option Bytes) = do
      first ← deref (at section 0)
      last ← deref (at section (length section - 1))
      ok (
          if not (first == b'[') || not (last == b']')
          then none
          else some (trim (take (length section - 2) (drop 1 section))))
    in if leb (length section) 2 then ok none else bracketed

-- The tests on the trimmed key: an empty one, and one that starts a comment, set nothing.
abbrev pub unless_comment : Bytes → Bytes → Option (Bytes × Bytes)
unless_comment [] value = none
unless_comment (c ∷ rest) value = if c == b'#' || c == b';' then none else some (c ∷ rest, value)

-- The key and the value of a line, for a line that sets one.
unfoldable pub assignment : Bytes → Option (Bytes × Bytes)
unfolding trim index_of
assignment line = elim (index_of (λ c. c == b'=') line) [
  | none ↦ none
  | some equ_pos ↦ unless_comment (trim (take equ_pos line)) (trim (drop (suc equ_pos) line))
]

-- The section line `[section]`, for what `_map.find(section)` gives.
abbrev pub open_section : ConfigReader → Bytes → Option (TextMap Bytes) → ConfigReader
open_section c section none = record { sections = put c.sections section (λ k. none) }
open_section c section (some entries) = c

-- `key` is set in the section that `m` points to.
abbrev pub set_entry :
    ConfigReader → Option Bytes → Option (Bytes × Bytes) → Run (ConfigReader × Option Bytes)
set_entry c m none = ok (c, m)
set_entry c m (some (key, value)) = do
  section ← deref m
  entries ← deref (c.sections section)
  ok (record { sections = put c.sections section (put entries key value) }, m)

-- A round of the loop of Load, with the section that `m` points to.
unfoldable pub load_line : ConfigReader × Option Bytes → Bytes → Run (ConfigReader × Option Bytes)
unfolding is_section assignment
load_line (c, m) line = is_section line >>= λ found. elim found [
  | some section ↦ ok (open_section c section (c.sections section), some section)
  | none ↦ set_entry c m (assignment line)
]

-- What getline gives in turn, the text behind the last newline included.
unfoldable pub lines : Bytes → List Bytes
lines [] = [] ∷ []
lines (c ∷ s) =
    if c == b'\n' then [] ∷ lines s else elim (lines s) [ [] ↦ [] | l ∷ ls ↦ (c ∷ l) ∷ ls ]

unfoldable pub load_lines :
    ConfigReader × Option Bytes → List Bytes → Run (ConfigReader × Option Bytes)
load_lines s [] = ok s
load_lines s (line ∷ rest) = do t ← load_line s line; load_lines t rest

-- `none` is a file that cannot be opened.
pub load : Option Bytes → ConfigReader → Run (Bool × ConfigReader)
unfolding lines load_lines
load none c = ok (false, c)
load (some file) c = do (d, m) ← load_lines (c, none) (lines file); ok (true, d)

-- `setPath`, on the reader that there is.
pub set_path : Option Bytes → Option ConfigReader → Run (Bool × ConfigReader)
unfolding load
set_path file none = load file empty_config
set_path file (some c) = abort

unfoldable pub ins : Option ConfigReader → Run ConfigReader
ins config = deref config

-- The look-up that all getters make.
abbrev pub value_in : Option (TextMap Bytes) → Bytes → Option Bytes
value_in none key = none
value_in (some entries) key = entries key

unfoldable pub find_value : ConfigReader → Bytes → Bytes → Option Bytes
find_value c section key = value_in (c.sections section) key

abbrev pub or_default : Option Bytes → Bytes → Bytes
or_default none default_value = default_value
or_default (some value) default_value = value

pub get_string : ConfigReader → Bytes → Bytes → Bytes → Bytes
unfolding find_value
get_string c section key default_value = or_default (find_value c section key) default_value

-- `tolower` in the C locale.
abbrev pub to_lower : ℕ → ℕ
to_lower c = if leb b'A' c && leb c b'Z' then c + 32 else c

-- `strcasecmp(s, t) == 0`
pub same_nocase : Bytes → Bytes → Bool
same_nocase [] [] = true
same_nocase (x ∷ s) (y ∷ t) = (to_lower x == to_lower y) && same_nocase s t
same_nocase _ _ = false

abbrev pub true_text : Bytes
true_text = b't' ∷ b'r' ∷ b'u' ∷ b'e' ∷ []

pub get_bool : ConfigReader → Bytes → Bytes → Bool → Bool
unfolding find_value
get_bool c section key default_value = elim (find_value c section key) [
  | none ↦ default_value
  | some value ↦ if same_nocase value true_text then true else default_value
]

abbrev pub is_sep : ℕ → Bool
is_sep c = c == b',' || c == b' ' || c == b'\t'

-- `str.find_first_of(sep, start)`, and `find_first_not_of`.
unfoldable pub find_from : (ℕ → Bool) → Bytes → ℕ → Option ℕ
unfolding index_of
find_from test str start = elim (index_of test (drop start str)) [
  | none ↦ none
  | some i ↦ some (start + i)
]

-- The loop of GetStringList, with `v` so far. Each round moves `start` on, so the fuel lasts.
pub split_loop : ℕ → Bytes → ℕ → List Bytes → Run (List Bytes)
split_loop zero str start v = starved
split_loop (suc fuel) str start v = elim (find_from is_sep str start) [
  | none ↦ ok (v ++ drop start str ∷ [])
  | some index ↦
      let pushed = v ++ take (index - start) (drop start str) ∷ [] in
      elim (find_from (λ c. not (is_sep c)) str index) [
        | none ↦ ok pushed
        | some next ↦ split_loop fuel str next pushed
      ]
]

pub get_string_list : ConfigReader → Bytes → Bytes → Run (List Bytes)
unfolding get_string split_loop
get_string_list c section key =
    let str = get_string c section key [] in split_loop (length str + 1) str 0 []

abbrev pub is_digit : ℕ → Bool
is_digit c = leb b'0' c && leb c b'9'

-- The number that the digits at the front spell, behind `n`.
unfoldable pub read_digits : Bytes → ℕ → ℕ
read_digits [] n = n
read_digits (c ∷ s) n =
    let rest = read_digits s (n * 10 + (c - b'0')) in if is_digit c then rest else n

-- A `long long` out of range is read as the nearest one; as an `unsigned` it is taken modulo 2 ^ 32.
unfoldable pub signed_number : Bytes → ℕ
unfolding read_digits
signed_number [] = 0
signed_number (c ∷ s) =
    if c == b'-'
    then (2 ^ 64 - min (read_digits s 0) (2 ^ 63)) % 2 ^ 32
    else if c == b'+'
    then min (read_digits s 0) (2 ^ 63 - 1) % 2 ^ 32
    else min (read_digits (c ∷ s) 0) (2 ^ 63 - 1) % 2 ^ 32

-- `iss >> v` skips spaces, and leaves 0 if no number is there.
unfoldable pub parse_number : Bytes → ℕ
unfolding signed_number trim_left
parse_number s = signed_number (trim_left s)

-- `default_value` is an `unsigned`.
unfoldable pub get_number : ConfigReader → Bytes → Bytes → ℕ → ℕ
unfolding find_value parse_number
get_number c section key default_value = elim (find_value c section key) [
  | none ↦ default_value
  | some value ↦ parse_number value
]

-- What `<<` and `>>` do for a `float`: `show` prints one, `read` reads one, if there is one.
pub record FloatText (F : Type 0) : Type 0 where
  pub nought : F
  pub show : F → Bytes
  pub read : Bytes → Option F

pub get_float : {F : Type 0} → FloatText F → ConfigReader → Bytes → Bytes → F → F
unfolding get_string
get_float t c section key default_value =
    elim (t.read (get_string c section key (t.show default_value))) [
      | none ↦ t.nought
      | some fresult ↦ fresult
    ]
