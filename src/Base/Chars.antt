-- ===== src/Base/Chars.antt =====
-- Texts that the code walks, as lists of code points, and JavaScript's text of a number: its decimal digits.
use Prim.Native.Char.{code}
use Prim.Native.Nat.{ℕ, zero, suc, ◌+◌, ◌-◌, ◌*◌, ◌/◌, ◌%◌, ◌<◌}
use Prim.Native.String.{String}
use mathlib.Core.Path.{◌≡◌, refl, sym, ap, ◌∙◌}
use mathlib.Core.Logic.{◌≢◌, inl, inr}
use mathlib.Core.Bool.{Bool, true, false, not, ◌&&◌}
use mathlib.Core.List.{List, [], ◌∷◌, ◌++◌}
use native.Mathlib.Omega.{arith}
use github_for_jira.Base.Tests.{ltb, leb, ◌==◌, if◌then◌else◌, Bool-cases}
use github_for_jira.Base.Lists.{All, length}

abbrev pub Text : Type 0
Text = List ℕ

-- the code points of a literal
abbrev pub codes : String → Text
codes String.[] = []
codes (String.◌∷◌ c s) = code c ∷ codes s

-- `===` on texts
abbrev pub text_eq : Text → Text → Bool
text_eq [] [] = true
text_eq (a ∷ s) (b ∷ t) = (a == b) && text_eq s t
text_eq _ _ = false

pub text_eq_refl : (s : Text) → text_eq s s ≡ true
text_eq_refl [] = refl
text_eq_refl (a ∷ s) = ground (arith, text_eq_refl s)

pub text_eq-eq : (s t : Text) → text_eq s t ≡ true → s ≡ t
text_eq-eq [] [] h = refl
text_eq-eq [] (b ∷ t) h = cc
text_eq-eq (a ∷ s) [] h = cc
text_eq-eq (a ∷ s) (b ∷ t) h = ground (arith, text_eq-eq s t)

-- The bytes of a code point in UTF-8.
abbrev pub utf8 : ℕ → List ℕ
utf8 c =
    if ltb c 0x80
    then c ∷ []
    else if ltb c 0x800
    then (0xC0 + c / 0x40) ∷ (0x80 + c % 0x40) ∷ []
    else if ltb c 0x10000
    then (0xE0 + c / 0x1000) ∷ (0x80 + c / 0x40 % 0x40) ∷ (0x80 + c % 0x40) ∷ []
    else (0xF0 + c / 0x40000)
      ∷ (0x80 + c / 0x1000 % 0x40)
      ∷ (0x80 + c / 0x40 % 0x40)
      ∷ (0x80 + c % 0x40)
      ∷ []

-- The units of UTF-16, by which JavaScript counts and compares.
abbrev pub utf16 : Text → List ℕ
utf16 [] = []
utf16 (c ∷ s) =
    if ltb c 0x10000
    then c ∷ utf16 s
    else (0xD800 + (c - 0x10000) / 0x400) ∷ (0xDC00 + (c - 0x10000) % 0x400) ∷ utf16 s

-- `s.length`
abbrev pub utf16_length : Text → ℕ
utf16_length s = length (utf16 s)

-- `\d`
abbrev pub is_digit : ℕ → Bool
is_digit c = leb b'0' c && leb c b'9'

-- The characters that a text begins with and that pass a test, and what follows them.
unfoldable pub span : (ℕ → Bool) → Text → Text × Text
span p [] = ([], [])
span p (c ∷ s) = let (run, rest) = span p s in if p c then (c ∷ run, rest) else ([], c ∷ s)

-- The text does not begin with a character that passes the test.
abbrev pub stops : (ℕ → Bool) → Text → Bool
stops p [] = true
stops p (c ∷ s) = not (p c)

pub span-append :
    (p : ℕ → Bool) (run rest : Text)
    → All (λ c. p c ≡ true) run
    → stops p rest ≡ true
    → span p (run ++ rest) ≡ (run, rest)
unfolding span
span-append p [] [] h e = refl
span-append p [] (c ∷ s) h e = ground arith
span-append p (c ∷ run) rest (h, hs) e = rw (span-append p run rest hs e) (rw h refl)

pub span_parts :
    (p : ℕ → Bool) (s : Text)
    → (s ≡ (span p s).0 ++ (span p s).1)
      × All (λ c. p c ≡ true) (span p s).0
      × (stops p (span p s).1 ≡ true)
unfolding span
span_parts p [] = (refl, tt, refl)
span_parts p (c ∷ s) =
    let (e, h, stop) = span_parts p s in
    elim (Bool-cases (p c)) [
      | inl passes ↦ rw passes (ap (λ t. c ∷ t) e, (passes, h), stop)
      | inr fails ↦ rw fails (refl, tt, rw fails refl)
    ]

-- the number that the digits spell behind `n`
abbrev pub value_from : ℕ → Text → ℕ
value_from n [] = n
value_from n (c ∷ s) = value_from (n * 10 + (c - b'0')) s

-- The digits of a number in front of a text; the first argument is fuel.
digits_before : ℕ → ℕ → Text → Text
digits_before zero n out = out
digits_before (suc fuel) n out =
    let more = digits_before fuel (n / 10) ((b'0' + n % 10) ∷ out) in
    if ltb n 10 then (b'0' + n) ∷ out else more

-- `String(n)`
unfoldable pub number_text : ℕ → Text
unfolding digits_before
number_text n = digits_before (suc n) n []

digits_before-value :
    (fuel n : ℕ) (out : Text)
    → n < fuel
    → value_from 0 (digits_before fuel n out) ≡ value_from n out
unfolding digits_before
digits_before-value zero n out h = absurd (omega arith)
digits_before-value (suc fuel) n out h = elim (Bool-cases (ltb n 10)) [
  | inl small ↦ rw small (ap (λ m. value_from m out) (omega arith))
  | inr large ↦ rw large (
      digits_before-value fuel (n / 10) ((b'0' + n % 10) ∷ out) (ground arith)
      ∙ ap (λ m. value_from m out) (omega arith))
]

digits_before-All :
    (fuel n : ℕ) (out : Text)
    → All (λ c. is_digit c ≡ true) out
    → All (λ c. is_digit c ≡ true) (digits_before fuel n out)
unfolding digits_before
digits_before-All zero n out h = h
digits_before-All (suc fuel) n out h = elim (Bool-cases (ltb n 10)) [
  | inl small ↦ rw small (ground arith, h)
  | inr large ↦ rw large (digits_before-All fuel (n / 10) ((b'0' + n % 10) ∷ out) (ground arith, h))
]

digits_before-ne_nil : (fuel n : ℕ) (c : ℕ) (out : Text) → digits_before fuel n (c ∷ out) ≢ []
unfolding digits_before
digits_before-ne_nil zero n c out = cc
digits_before-ne_nil (suc fuel) n c out =
    ground (arith, digits_before-ne_nil fuel (n / 10) (b'0' + n % 10) (c ∷ out))

-- The text of a number is read back as that number.
pub value-number_text : (n : ℕ) → value_from 0 (number_text n) ≡ n
unfolding number_text
value-number_text n = digits_before-value (suc n) n [] (omega arith)

pub number_text-All : (n : ℕ) → All (λ c. is_digit c ≡ true) (number_text n)
unfolding number_text
number_text-All n = digits_before-All (suc n) n [] tt

pub number_text-ne_nil : (n : ℕ) → number_text n ≢ []
unfolding number_text
number_text-ne_nil n = ground (arith, digits_before-ne_nil n (n / 10) (b'0' + n % 10) [])

pub number_text-injective : (m n : ℕ) → number_text m ≡ number_text n → m ≡ n
number_text-injective m n h = sym (value-number_text m) ∙ ap (value_from 0) h ∙ value-number_text n
