-- ===== src/Config/Meanings.antt =====
-- The lines of a configuration file as load_line of src/config_reader.cc takes them.
use easy_reactor.Base.{
  drop, take, ◌==◌, leb_gt, ◌-◌, ◌-◌, leb_le, length, ◌||◌, lt-cases, ◌<◌, not, arith, Option-cases,
  inr, ◌&&◌, inl, if◌then◌else◌, ℕ, ◌≡◌, refl, List, [], ◌∷◌, Option, none, some, Bool, true, false,
}
use easy_reactor.Base.Run.{ok}
use easy_reactor.Base.Text.{Bytes, equal}
use easy_reactor.Base.Lists.Nth.{nth, get_elem?-nth}
use easy_reactor.Config.{at, trim, is_section, assignment}

-- What a line of the file says.
pub data Meaning : Type 0 where
  opens : Bytes → Meaning
  sets : Bytes → Bytes → Meaning
  nothing : Meaning

-- The lines say this, in order.
pub data Says : List Bytes → List Meaning → Type 0 where
  said : Says [] []
  section_line :
      (line name : Bytes) {ls : List Bytes} {ms : List Meaning}
      → is_section line ≡ ok (some name)
      → Says ls ms
      → Says (line ∷ ls) (opens name ∷ ms)
  entry_line :
      (line key value : Bytes) {ls : List Bytes} {ms : List Meaning}
      → is_section line ≡ ok none
      → assignment line ≡ some (key, value)
      → Says ls ms
      → Says (line ∷ ls) (sets key value ∷ ms)
  other_line :
      (line : Bytes) {ls : List Bytes} {ms : List Meaning}
      → is_section line ≡ ok none
      → assignment line ≡ none
      → Says ls ms
      → Says (line ∷ ls) (nothing ∷ ms)

-- Whether an assignment stands before any section; the Boolean says that there was a section.
unfoldable pub has_orphan : Bool → List Meaning → Bool
has_orphan seen [] = false
has_orphan seen (opens name ∷ ms) = has_orphan true ms
has_orphan seen (sets key value ∷ ms) = not seen || has_orphan seen ms
has_orphan seen (nothing ∷ ms) = has_orphan seen ms

-- The value that is set last for `key` inside a section called `section`: `here` says that the lines
-- stand in one, and `value` is the one set so far.
unfoldable pub last_set : Bytes → Bytes → Bool → Option Bytes → List Meaning → Option Bytes
last_set section key here value [] = value
last_set section key here value (opens name ∷ ms) =
    last_set section key (equal section name) value ms
last_set section key here value (sets k v ∷ ms) =
    last_set section key here (if here && equal key k then some v else value) ms
last_set section key here value (nothing ∷ ms) = last_set section key here value ms

at-some : (s : Bytes) (i : ℕ) → i < length s → (c : ℕ) × (at s i ≡ some c)
at-some s i lt = (nth 0 s i, get_elem?-nth 0 s i lt)

-- No access of isSection is out of range.
is_section-ok : (line : Bytes) → (found : Option Bytes) × (is_section line ≡ ok found)
unfolding is_section
is_section-ok line = elim (lt-cases 2 (length (trim line))) [
  | inr short ↦ (none, rw (leb_le (length (trim line)) 2 short) refl)
  | inl long ↦
      let (first, e) = at-some (trim line) 0 (omega arith) in
      let (last, f) = at-some (trim line) (length (trim line) - 1) (omega arith) in
      (
        if not (first == b'[') || not (last == b']')
            then none
            else some (trim (take (length (trim line) - 2) (drop 1 (trim line)))),
        rw (leb_gt (length (trim line)) 2 long, e, f) refl,
      )
]

-- Every file says something.
pub Says-total : (ls : List Bytes) → (ms : List Meaning) × Says ls ms
Says-total [] = ([], said)
Says-total (line ∷ ls) =
    let (ms, says) = Says-total ls in let (found, e) = is_section-ok line in go ms says found e
  where
    go :
        (ms : List Meaning)
        → Says ls ms
        → (found : Option Bytes) → is_section line ≡ ok found
        → (ms : List Meaning) × Says (line ∷ ls) ms
    go ms says (some name) e = (opens name ∷ ms, section_line line name e says)
    go ms says none e = elim (Option-cases (assignment line)) [
      | inl f ↦ (nothing ∷ ms, other_line line e f says)
      | inr ((key, value), f) ↦ (sets key value ∷ ms, entry_line line key value e f says)
    ]
