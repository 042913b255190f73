-- ===== src/Config/Numbers.antt =====
-- GetNumber and GetBool of src/config_reader.cc.
use mathlib.Core.Bool.{false≢true}
use mathlib.Core.List.{append_assoc, map}
use easy_reactor.Config.{to_lower}
use easy_reactor.Base.{
  Bool-cases, ◌≢◌, ◌⊎◌, ==_refl, eq-cases, ==_ne, sym, min, arith, inr, inl, lt-cases, ap, subst,
  ◌∙◌, ℕ, zero, suc, ◌+◌, ◌-◌, ◌*◌, ◌/◌, ◌%◌, ◌^◌, ◌<◌, ◌≡◌, refl, [], ◌∷◌, ◌++◌, some, Bool, true,
  false,
}
use easy_reactor.Base.Text.{Bytes, AllTest}
use easy_reactor.Config.{
  ConfigReader, is_space, is_digit, trim_left, read_digits, signed_number, parse_number, find_value,
  get_number, same_nocase, true_text, get_bool,
}

-- The digits of a number.
pub data Spells : Bytes → ℕ → Type 0 where
  one_digit : (d : ℕ) → d < 10 → Spells ((b'0' + d) ∷ []) d
  more_digits :
      (s : Bytes) (n d : ℕ) → d < 10 → Spells s n → Spells (s ++ (b'0' + d) ∷ []) (n * 10 + d)

-- Every number has its digits.
pub Spells-total : (n : ℕ) → (s : Bytes) × Spells s n
Spells-total n = go (suc n) n (omega arith)
  where
    go : (fuel n : ℕ) → n < fuel → (s : Bytes) × Spells s n
    go zero n lt = absurd (omega arith)
    go (suc fuel) n lt = elim (lt-cases n 10) [
      | inl small ↦ ((b'0' + n) ∷ [], one_digit n small)
      | inr large ↦
          let (s, spells) = go fuel (n / 10) (omega arith) in
          (
            s ++ (b'0' + n % 10) ∷ [],
            subst (Spells (s ++ (b'0' + n % 10) ∷ [])) (omega arith)
                (more_digits s (n / 10) (n % 10) (omega arith) spells),
          )
    ]

-- What follows does not go on with a digit.
abbrev pub EndsNumber : Bytes → Type 0
EndsNumber [] = Unit {0}
EndsNumber (c ∷ s) = is_digit c ≡ false

read_digit :
    (d k : ℕ) (rest : Bytes)
    → d < 10
    → read_digits ((b'0' + d) ∷ rest) k ≡ read_digits rest (k * 10 + d)
unfolding read_digits
read_digit d k rest lt = ground arith

read_digits-Spells :
    (s : Bytes) (n : ℕ) (rest : Bytes) → Spells s n → read_digits (s ++ rest) 0 ≡ read_digits rest n
read_digits-Spells _ _ rest (one_digit d lt) =
    read_digit d 0 rest lt ∙ ap (read_digits rest) (omega arith)
read_digits-Spells _ _ rest (more_digits s n d lt spells) =
    ap (λ t. read_digits t 0) (append_assoc s ((b'0' + d) ∷ []) rest)
    ∙ read_digits-Spells s n ((b'0' + d) ∷ rest) spells
    ∙ read_digit d n rest lt

read_digits-end : (rest : Bytes) (n : ℕ) → EndsNumber rest → read_digits rest n ≡ n
unfolding read_digits
read_digits-end [] n h = refl
read_digits-end (c ∷ rest) n h = rw h refl

pub data Sign : Type 0 where
  unsigned plus minus : Sign

abbrev pub sign_bytes : Sign → Bytes
sign_bytes unsigned = []
sign_bytes plus = b'+' ∷ []
sign_bytes minus = b'-' ∷ []

-- The `unsigned` that the number gives.
abbrev pub wrapped : Sign → ℕ → ℕ
wrapped minus n = (2 ^ 64 - n) % 2 ^ 32
wrapped _ n = n % 2 ^ 32

first_digit :
    (s : Bytes) (n : ℕ) → Spells s n → (d : ℕ) × (t : Bytes) × (s ≡ (b'0' + d) ∷ t) × (d < 10)
first_digit _ _ (one_digit d lt) = (d, [], refl, lt)
first_digit _ _ (more_digits s n d lt spells) =
    let (e, t, same, small) = first_digit s n spells in
    (e, t ++ (b'0' + d) ∷ [], ap (λ u. u ++ (b'0' + d) ∷ []) same, small)

signed_digit :
    (d : ℕ) (t : Bytes)
    → d < 10
    → signed_number ((b'0' + d) ∷ t) ≡ min (read_digits ((b'0' + d) ∷ t) 0) (2 ^ 63 - 1) % 2 ^ 32
unfolding signed_number
signed_digit d t lt =
    rw (==_ne (b'0' + d) b'-' (λ e. omega arith), ==_ne (b'0' + d) b'+' (λ e. omega arith)) refl

signed_number-Spells :
    (sign : Sign) (s rest : Bytes) (n : ℕ)
    → Spells s n
    → EndsNumber rest
    → n < 2 ^ 63
    → signed_number (sign_bytes sign ++ (s ++ rest)) ≡ wrapped sign n
unfolding signed_number
signed_number-Spells plus s rest n spells end fits =
    let value = read_digits-Spells s n rest spells ∙ read_digits-end rest n end in
    rw value (omega arith)
signed_number-Spells minus s rest n spells end fits =
    let value = read_digits-Spells s n rest spells ∙ read_digits-end rest n end in
    rw value (omega arith)
signed_number-Spells unsigned s rest n spells end fits =
    let value = read_digits-Spells s n rest spells ∙ read_digits-end rest n end in
    let (d, t, same, small) = first_digit s n spells in
    let text : s ++ rest ≡ (b'0' + d) ∷ (t ++ rest) = ap (λ u. u ++ rest) same in
    ap signed_number text
    ∙ signed_digit d (t ++ rest) small
    ∙ ap (λ u. min (read_digits u 0) (2 ^ 63 - 1) % 2 ^ 32) (sym text)
    ∙ ap (λ k. min k (2 ^ 63 - 1) % 2 ^ 32) value
    ∙ omega arith

trim_left-spaces : (pre s : Bytes) → AllTest is_space true pre → trim_left (pre ++ s) ≡ trim_left s
unfolding trim_left
trim_left-spaces [] s h = refl
trim_left-spaces (c ∷ pre) s (hc, h) = rw hc (trim_left-spaces pre s h)

digit_start : (d : ℕ) (t : Bytes) → d < 10 → trim_left ((b'0' + d) ∷ t) ≡ (b'0' + d) ∷ t
unfolding trim_left
digit_start d t lt = let no_space : is_space (b'0' + d) ≡ false = ground arith in rw no_space refl

-- A sign or a digit is no space.
signed_start :
    (sign : Sign) (s rest : Bytes) (n : ℕ)
    → Spells s n
    → trim_left (sign_bytes sign ++ (s ++ rest)) ≡ sign_bytes sign ++ (s ++ rest)
unfolding trim_left
signed_start plus s rest n spells = refl
signed_start minus s rest n spells = refl
signed_start unsigned s rest n spells =
    let (d, t, same, small) = first_digit s n spells in
    let text : s ++ rest ≡ (b'0' + d) ∷ (t ++ rest) = ap (λ u. u ++ rest) same in
    ap trim_left text ∙ digit_start d (t ++ rest) small ∙ sym text

-- For a value that is spaces, a sign or none, the digits of a number below 2 ^ 63, and then no digit,
-- GetNumber gives that number modulo 2 ^ 32, so a negative one comes out as a large positive one.
pub get_number_correct :
    (c : ConfigReader) (section key : Bytes) (default_value : ℕ) (pre s rest : Bytes) (sign : Sign)
    (n : ℕ)
    → find_value c section key ≡ some (pre ++ (sign_bytes sign ++ (s ++ rest)))
    → AllTest is_space true pre
    → Spells s n
    → EndsNumber rest
    → n < 2 ^ 63
    → get_number c section key default_value ≡ wrapped sign n
unfolding get_number parse_number
get_number_correct c section key default_value pre s rest sign n found spaces spells end fits =
    rw
      (
        found,
        get_number,
        trim_left-spaces pre (sign_bytes sign ++ (s ++ rest)) spaces,
        signed_start sign s rest n spells,
      )
      (signed_number-Spells sign s rest n spells end fits)

same_nocase-map : (s t : Bytes) → same_nocase s t ≡ true → map to_lower s ≡ map to_lower t
unfolding same_nocase
same_nocase-map [] [] h = refl
same_nocase-map (x ∷ s) (y ∷ t) h =
    let (same, rest) : (to_lower x ≡ to_lower y) × (same_nocase s t ≡ true) =
      elim (eq-cases (to_lower x) (to_lower y)) [
        | inl e ↦ (e, rw (e, ==_refl (to_lower y)) at h)
        | inr ne ↦ absurd (false≢true (rw (==_ne (to_lower x) (to_lower y) ne) at h))
      ] in
    ap (λ c. c ∷ map to_lower s) same ∙ ap (◌∷◌ (to_lower y)) (same_nocase-map s t rest)
same_nocase-map [] (y ∷ t) h = cc
same_nocase-map (x ∷ s) [] h = cc

map-same_nocase : (s t : Bytes) → map to_lower s ≡ map to_lower t → same_nocase s t ≡ true
unfolding same_nocase
map-same_nocase [] [] h = refl
map-same_nocase (x ∷ s) (y ∷ t) h =
    let same : to_lower x ≡ to_lower y = cc in
    rw (same, ==_refl (to_lower y)) (map-same_nocase s t (cc))
map-same_nocase [] (y ∷ t) h = cc
map-same_nocase (x ∷ s) [] h = cc

-- For a key that is there GetBool is `true` if the value is the word "true" in any case of letters;
-- for every other value, the word "false" among them, it is the default.
pub get_bool_correct :
    (c : ConfigReader) (section key value : Bytes) (default_value : Bool)
    → find_value c section key ≡ some value
    → ((map to_lower value ≡ true_text) × (get_bool c section key default_value ≡ true))
      ⊎ ((map to_lower value ≢ true_text) × (get_bool c section key default_value ≡ default_value))
unfolding get_bool
get_bool_correct c section key value default_value found =
    elim (Bool-cases (same_nocase value true_text)) [
      | inl hit ↦ inl (same_nocase-map value true_text hit, rw (found, get_bool, hit) refl)
      | inr miss ↦ inr (
        (λ e. false≢true (sym miss ∙ map-same_nocase value true_text e)),
        rw (found, get_bool, miss) refl,
      )
    ]
