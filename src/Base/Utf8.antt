-- ===== src/Base/Utf8.antt =====
-- UTF-8 and hexadecimal digits: `Buffer.from(s)` and `.toString("hex")`.
use Prim.Native.Nat.{ℕ, ◌+◌, ◌-◌, ◌*◌, ◌/◌, ◌%◌, ◌<◌}
use mathlib.Core.Path.{◌≡◌, refl, sym, ap, ◌∙◌}
use mathlib.Core.Logic.{◌≢◌, inl, inr}
use mathlib.Core.Bool.{Bool, true, ◌&&◌, ◌||◌}
use mathlib.Core.List.{List, [], ◌∷◌, ◌++◌}
use native.Mathlib.Omega.{arith}
use github_for_jira.Base.Tests.{ltb, leb, if◌then◌else◌, Bool-cases}
use github_for_jira.Base.Lists.{All, All-append}
use github_for_jira.Base.Chars.{Text, utf8, is_digit}

-- Lone surrogates aside, which a text of code points does not have, the bytes of a text.
unfoldable pub utf8_text : Text → List ℕ
utf8_text [] = []
utf8_text (c ∷ s) = utf8 c ++ utf8_text s

abbrev pub IsCodePoints : Text → Type 0
IsCodePoints s = All (λ c. c < 0x110000) s

utf8-append :
    (c d : ℕ) (s t : List ℕ)
    → c < 0x110000
    → d < 0x110000
    → utf8 c ++ s ≡ utf8 d ++ t
    → (c ≡ d) × (s ≡ t)
utf8-append c d s t hc hd e = ground arith

utf8-ne_nil : (c : ℕ) (s : List ℕ) → [] ≢ utf8 c ++ s
utf8-ne_nil c s e = ground arith

pub utf8_text-injective :
    (s t : Text) → IsCodePoints s → IsCodePoints t → utf8_text s ≡ utf8_text t → s ≡ t
unfolding utf8_text
utf8_text-injective [] [] hs ht e = refl
utf8_text-injective [] (d ∷ t) hs ht e = absurd (utf8-ne_nil d (utf8_text t) e)
utf8_text-injective (c ∷ s) [] hs ht e = absurd (utf8-ne_nil c (utf8_text s) (sym e))
utf8_text-injective (c ∷ s) (d ∷ t) (hc, hs) (hd, ht) e =
    let (p, q) = utf8-append c d (utf8_text s) (utf8_text t) hc hd e in
    ground (arith, utf8_text-injective s t hs ht q)

abbrev pub IsBytes : List ℕ → Type 0
IsBytes bs = All (λ b. b < 256) bs

utf8-IsBytes : (c : ℕ) → c < 0x110000 → IsBytes (utf8 c)
utf8-IsBytes c h = elim (Bool-cases (ltb c 0x80)) [
  | inl one ↦ rw one (ground arith, tt)
  | inr more ↦ elim (Bool-cases (ltb c 0x800)) [
    | inl two ↦ rw (more, two) (ground arith, (omega arith, tt))
    | inr more2 ↦ elim (Bool-cases (ltb c 0x10000)) [
      | inl three ↦ rw (more, more2, three) (ground arith, (omega arith, (omega arith, tt)))
      | inr four ↦
          rw (more, more2, four) (omega arith, (omega arith, (omega arith, (omega arith, tt))))
    ]
  ]
]

pub utf8_text-IsBytes : (s : Text) → IsCodePoints s → IsBytes (utf8_text s)
unfolding utf8_text
utf8_text-IsBytes [] h = tt
utf8_text-IsBytes (c ∷ s) (h, hs) =
    All-append (λ b. b < 256) (utf8 c) (utf8_text s) (utf8-IsBytes c h) (utf8_text-IsBytes s hs)

abbrev pub hex_char : ℕ → ℕ
hex_char d = if ltb d 10 then b'0' + d else b'a' + (d - 10)

unfoldable pub to_hex : List ℕ → Text
to_hex [] = []
to_hex (b ∷ bs) = hex_char (b / 16) ∷ hex_char (b % 16) ∷ to_hex bs

abbrev pub is_hex : ℕ → Bool
is_hex c = is_digit c || ((leb b'a' c && leb c b'f') || (leb b'A' c && leb c b'F'))

abbrev pub hex_value : ℕ → ℕ
hex_value c = if is_digit c then c - b'0' else if leb b'a' c then c - b'a' + 10 else c - b'A' + 10

-- `Buffer.from(hash, "hex")`, which ends before the first pair that is no number.
unfoldable pub from_hex : Text → List ℕ
from_hex (a ∷ b ∷ s) =
    let rest = from_hex s in
    if is_hex a && is_hex b then (hex_value a * 16 + hex_value b) ∷ rest else []
from_hex _ = []

hex_char-is_hex : (d : ℕ) → d < 16 → is_hex (hex_char d) ≡ true
hex_char-is_hex d h = ground arith

hex_value-hex_char : (d : ℕ) → d < 16 → hex_value (hex_char d) ≡ d
hex_value-hex_char d h = ground arith

-- Bytes are read back from their hexadecimal digits.
pub from_hex-to_hex : (bs : List ℕ) → IsBytes bs → from_hex (to_hex bs) ≡ bs
unfolding from_hex to_hex
from_hex-to_hex [] h = refl
from_hex-to_hex (b ∷ bs) (h, hs) =
    let hi : b / 16 < 16 = omega arith in
    let lo : b % 16 < 16 = omega arith in
    rw
      (
        hex_char-is_hex (b / 16) hi,
        hex_char-is_hex (b % 16) lo,
        hex_value-hex_char (b / 16) hi,
        hex_value-hex_char (b % 16) lo,
        from_hex-to_hex bs hs,
      )
      (ap (λ c. c ∷ bs) (omega arith))

pub to_hex-injective : (bs cs : List ℕ) → IsBytes bs → IsBytes cs → to_hex bs ≡ to_hex cs → bs ≡ cs
to_hex-injective bs cs hb hc e = sym (from_hex-to_hex bs hb) ∙ ap from_hex e ∙ from_hex-to_hex cs hc

pub to_hex-All : (bs : List ℕ) → IsBytes bs → All (λ c. is_hex c ≡ true) (to_hex bs)
unfolding to_hex
to_hex-All [] h = tt
to_hex-All (b ∷ bs) (h, hs) = (
  hex_char-is_hex (b / 16) (omega arith),
  (hex_char-is_hex (b % 16) (omega arith), to_hex-All bs hs),
)
