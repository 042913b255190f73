-- ===== src/Tests/Config.antt =====
-- A configuration of two lines, and values of each kind.
use easy_reactor.Base.{arith, ◌≡◌, refl, List, [], ◌∷◌, some}
use easy_reactor.Base.Run.{ok}
use easy_reactor.Base.Text.{Bytes}
use easy_reactor.Config.{
  ConfigReader, assignment, empty_config, is_section, load, lines, get_string, get_number,
  get_string_list, find_value,
}
use easy_reactor.Config.Meanings.{Meaning, Says}
use easy_reactor.Config.Entries.{LoadEnd, load_correct}
use easy_reactor.Config.Lists.{Words, get_string_list_total}
use easy_reactor.Config.Numbers.{Sign, Spells, wrapped, get_number_correct}

abbrev padded : Bytes
padded = b' ' ∷ b'k' ∷ b'\t' ∷ []

-- The file `[s]`, `k = v`.
abbrev small_file : Bytes
small_file = b'[' ∷ b's' ∷ b']' ∷ b'\n' ∷ b'k' ∷ b'=' ∷ b'v' ∷ []

abbrev small_meaning : List Meaning
small_meaning = Meaning.opens (b's' ∷ []) ∷ Meaning.sets (b'k' ∷ []) (b'v' ∷ []) ∷ []

small_file-Says : Says (lines small_file) small_meaning
unfolding lines is_section assignment
small_file-Says =
    Says.section_line _ (b's' ∷ []) refl
      (Says.entry_line _ (b'k' ∷ []) (b'v' ∷ []) refl refl Says.said)

load_correct_example : LoadEnd small_meaning (load (some small_file) empty_config)
load_correct_example = load_correct small_file small_meaning small_file-Says

-- A reader with one value, of the key `k` in the section `s`.
abbrev with_value : Bytes → ConfigReader
with_value value = record { sections = λ section. some (λ key. some value) }

abbrev three_words : Bytes
three_words = b'a' ∷ b',' ∷ b' ' ∷ b'b' ∷ b'c' ∷ b' ' ∷ b'd' ∷ []

get_string_list_total_example :
    (ws : List Bytes) × Words (get_string (with_value three_words) [] [] []) ws
    × (get_string_list (with_value three_words) [] [] ≡ ok ws)
get_string_list_total_example = get_string_list_total (with_value three_words) [] []

-- The value ` -12 `.
abbrev negative : Bytes
negative = b' ' ∷ b'-' ∷ b'1' ∷ b'2' ∷ b' ' ∷ []

get_number_correct_example : get_number (with_value negative) [] [] 5 ≡ wrapped Sign.minus 12
unfolding find_value
get_number_correct_example =
    get_number_correct (with_value negative) [] [] 5 (b' ' ∷ []) (b'1' ∷ b'2' ∷ []) (b' ' ∷ [])
      Sign.minus 12 refl (refl, tt)
      (Spells.more_digits (b'1' ∷ []) 1 2 (omega arith) (Spells.one_digit 1 (omega arith))) refl
      (omega arith)

-- The value `False`, with the default `true`.
abbrev no_text : Bytes
no_text = b'F' ∷ b'a' ∷ b'l' ∷ b's' ∷ b'e' ∷ []
