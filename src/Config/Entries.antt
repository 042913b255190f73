-- ===== src/Config/Entries.antt =====
-- Load and GetString of src/config_reader.cc against the assignments of the file, in order.
use easy_reactor.Base.{
  Bool-cases, ◌⊎◌, arith, ap, Option-cases, sym, ◌∙◌, inr, ◌&&◌, inl, if◌then◌else◌, ◌≡◌, refl,
  List, [], ◌∷◌, Option, none, some, Bool, true, false,
}
use easy_reactor.Base.Run.{Gives-weaken, Run, ok, abort, Gives, gives, Gives-bind}
use easy_reactor.Base.Text.{Bytes, TextMap, equal, put, equal_refl, equal-cases}
use easy_reactor.Config.{
  or_default, set_entry, value_in, ConfigReader, empty_config, is_section, assignment, load_line,
  load_lines, lines, load, find_value, get_string,
}
use easy_reactor.Config.Meanings.{
  Meaning, opens, sets, nothing, Says, said, section_line, entry_line, other_line, has_orphan,
  last_set,
}

-- The pointer `m` leads to a section that is there.
abbrev pub IsOpen : ConfigReader → Option Bytes → Type 0
IsOpen c none = Unit {0}
IsOpen c (some name) = (entries : TextMap Bytes) × (c.sections name ≡ some entries)

-- `m` is the section `section`.
abbrev pub inside : Bytes → Option Bytes → Bool
inside section none = false
inside section (some name) = equal section name

abbrev pub is_open : Option Bytes → Bool
is_open none = false
is_open (some name) = true

-- The reader agrees with `last_set` on what it finds.
abbrev pub Agrees : ConfigReader × Option Bytes → List Meaning → ConfigReader → Type 0
Agrees (c, m) ms d =
    (section key : Bytes)
    → find_value d section key
      ≡ last_set section key (inside section m) (find_value c section key) ms

equal_sym : (s t : Bytes) → equal s t ≡ equal t s
equal_sym s t = elim (equal-cases s t) [
  | inl (e, same) ↦ rw same refl
  | inr e ↦ elim (equal-cases t s) [ inl (f, same) ↦ rw same refl | inr f ↦ e ∙ sym f ]
]

value_in-if :
    (b : Bool) (x y : Option (TextMap Bytes)) (key : Bytes)
    → value_in (if b then x else y) key ≡ (if b then value_in x key else value_in y key)
value_in-if true x y key = refl
value_in-if false x y key = refl

-- A new section holds nothing.
opened_value :
    (c : ConfigReader) (name section key : Bytes)
    → c.sections name ≡ none
    → find_value (record { sections = put c.sections name (λ k. none) }) section key
      ≡ find_value c section key
unfolding find_value
opened_value c name section key e =
    value_in-if (equal name section) (some (λ k. none)) (c.sections section) key
    ∙ elim (equal-cases name section) [
      | inl (hit, same) ↦
          let gone : value_in (c.sections section) key ≡ none =
            ap (λ n. value_in (c.sections n) key) (sym same) ∙ ap (λ o. value_in o key) e in
          rw (hit, gone) refl
      | inr miss ↦ rw miss refl
    ]

set_value :
    (c : ConfigReader) (name k v section key : Bytes) (entries : TextMap Bytes)
    → c.sections name ≡ some entries
    → find_value (record { sections = put c.sections name (put entries k v) }) section key
      ≡ (if equal section name && equal key k then some v else find_value c section key)
unfolding find_value
set_value c name k v section key entries e =
    value_in-if (equal name section) (some (put entries k v)) (c.sections section) key
    ∙ elim (equal-cases name section) [
      | inl (hit, same) ↦
          let old : value_in (c.sections section) key ≡ entries key =
            ap (λ n. value_in (c.sections n) key) (sym same) ∙ ap (λ o. value_in o key) e in
          rw (hit, old, equal_sym section name, hit, equal_sym key k) refl
      | inr miss ↦ rw (miss, equal_sym section name, miss) refl
    ]

-- A line that opens a section.
load_section :
    (c : ConfigReader) (m : Option Bytes) (line name : Bytes)
    → is_section line ≡ ok (some name)
    → (d : ConfigReader) × (load_line (c, m) line ≡ ok (d, some name))
      × IsOpen d (some name)
      × ((section key : Bytes) → find_value d section key ≡ find_value c section key)
unfolding load_line
load_section c m line name e = elim (Option-cases (c.sections name)) [
  | inl new ↦ (
    record { sections = put c.sections name (λ k. none) },
    rw (e, new) refl,
    ((λ k. none), rw (equal_refl name) refl),
    λ section key. opened_value c name section key new,
  )
  | inr (entries, old) ↦ (c, rw (e, old) refl, (entries, old), λ section key. refl)
]

-- A line that sets a value, in a section.
load_entry :
    (c : ConfigReader) (name line key value : Bytes)
    → is_section line ≡ ok none
    → assignment line ≡ some (key, value)
    → IsOpen c (some name)
    → (d : ConfigReader) × (load_line (c, some name) line ≡ ok (d, some name))
      × IsOpen d (some name)
      × ((section k : Bytes)
          → find_value d section k
            ≡ (if equal section name && equal k key then some value else find_value c section k))
unfolding load_line
load_entry c name line key value e f (entries, old) = (
  record { sections = put c.sections name (put entries key value) },
  rw (e, f, set_entry, old) refl,
  (put entries key value, rw (equal_refl name) refl),
  λ section k. set_value c name key value section k entries old,
)

load_other :
    (c : ConfigReader) (m : Option Bytes) (line : Bytes)
    → is_section line ≡ ok none
    → assignment line ≡ none
    → load_line (c, m) line ≡ ok (c, m)
unfolding load_line
load_other c m line e f = rw (e, f) refl

load_lines_agree :
    (c : ConfigReader) (m : Option Bytes) {ls : List Bytes} {ms : List Meaning}
    → Says ls ms
    → IsOpen c m
    → has_orphan (is_open m) ms ≡ false
    → Gives (λ r. Agrees (c, m) ms r.0) (load_lines (c, m) ls)
unfolding load_lines has_orphan last_set
load_lines_agree c m said open_m tidy = gives (λ section key. refl)
load_lines_agree c m (section_line line name e says) open_m tidy =
    let (d, runs, there, same) = load_section c m line name e in
    rw runs (
      Gives-weaken (load_lines_agree d (some name) says there tidy)
        λ r agrees section key. rw (← (same section key)) (agrees section key))
load_lines_agree c none (entry_line line key value e f says) open_m tidy = absurd (ground arith)
load_lines_agree c (some name) (entry_line line key value e f says) open_m tidy =
    let (d, runs, there, changed) = load_entry c name line key value e f open_m in
    rw runs (
      Gives-weaken (load_lines_agree d (some name) says there tidy)
        λ r agrees section k. rw (← (changed section k)) (agrees section k))
load_lines_agree c m (other_line line e f says) open_m tidy =
    rw (load_other c m line e f) (load_lines_agree c m says open_m tidy)

never_orphan : (ms : List Meaning) → has_orphan true ms ≡ false
unfolding has_orphan
never_orphan [] = refl
never_orphan (opens name ∷ ms) = never_orphan ms
never_orphan (sets key value ∷ ms) = never_orphan ms
never_orphan (nothing ∷ ms) = never_orphan ms

-- From no section on, an assignment before any section aborts.
load_lines-abort :
    (c : ConfigReader) {ls : List Bytes} {ms : List Meaning}
    → Says ls ms
    → has_orphan false ms ≡ true
    → load_lines (c, none) ls ≡ abort
unfolding load_lines has_orphan load_line
load_lines-abort c said orphan = cc
load_lines-abort c (section_line line name {ms = ms'} e says) orphan = cc (never_orphan ms')
load_lines-abort c (entry_line line key value e f says) orphan = rw (e, f) refl
load_lines-abort c (other_line line e f says) orphan = rw (e, f) (load_lines-abort c says orphan)

-- What Load makes of a file that says `ms`, read back by GetString.
abbrev pub LoadEnd : List Meaning → Run (Bool × ConfigReader) → Type 0
LoadEnd ms r =
    ((has_orphan false ms ≡ true) × (r ≡ abort))
    ⊎ ((has_orphan false ms ≡ false)
        × Gives
            (λ (opened, d).
              (opened ≡ true)
              × ((section key default_value : Bytes)
                  → get_string d section key default_value
                    ≡ or_default (last_set section key false none ms) default_value))
            r)

-- What the reader finds behind Load.
pub load-find_value :
    (file : Bytes) (ms : List Meaning)
    → Says (lines file) ms
    → has_orphan false ms ≡ false
    → Gives
        (λ (b, d).
          (b ≡ true)
          × ((section key : Bytes) → find_value d section key ≡ last_set section key false none ms))
        (load (some file) empty_config)
unfolding load find_value
load-find_value file ms says tidy =
    Gives-bind (load_lines_agree empty_config none says tt tidy)
      λ (d, m) agrees. gives (refl, agrees)

-- On a file whose lines say `ms`, Load aborts exactly if an assignment stands before any section;
-- else it succeeds, and GetString finds for every section and key the value that is set last for that
-- key in any part of that section, or the default if there is none.
pub load_correct :
    (file : Bytes) (ms : List Meaning)
    → Says (lines file) ms
    → LoadEnd ms (load (some file) empty_config)
unfolding load get_string find_value
load_correct file ms says = elim (Bool-cases (has_orphan false ms)) [
  | inl orphan ↦ inl (orphan, rw (load_lines-abort empty_config says orphan) refl)
  | inr tidy ↦ inr (
    tidy,
    Gives-weaken (load-find_value file ms says tidy) λ (b, d) (done, finds). (
      done,
      λ section key default_value. ap (λ o. or_default o default_value) (finds section key),
    ),
  )
]
