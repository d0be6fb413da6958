-- ===== src/Jira/JiraId/Injective.antt =====
-- The ids that src/jira/util/id.ts gives to branches are valid, and different for different names.
use github_for_jira.Base.{
  ◌≡◌, ◌≢◌, refl, sym, ap, inl, inr, true, [], ◌∷◌, arith, Bool-cases, all, All, head?, some, Text,
  utf8_text, to_hex, is_hex, IsCodePoints, utf8_text-injective, utf8_text-IsBytes, to_hex-injective,
  to_hex-All,
}
use github_for_jira.Jira.JiraId.{is_id_char, valid_jira_id, get_jira_id}

all-of_hex : (s : Text) → All (λ c. is_hex c ≡ true) s → all is_id_char s ≡ true
all-of_hex [] h = refl
all-of_hex (c ∷ s) (h, hs) = let ih = all-of_hex s hs in ground arith

valid-get_jira_id : (s : Text) → IsCodePoints s → valid_jira_id (get_jira_id s) ≡ true
unfolding get_jira_id
valid-get_jira_id s h = elim (Bool-cases (valid_jira_id s)) [
  | inl valid ↦ rw valid valid
  | inr other ↦
      rw other
        (all-of_hex (to_hex (utf8_text s)) (to_hex-All (utf8_text s) (utf8_text-IsBytes s h)))
]

tail : Text → Text
tail [] = []
tail (c ∷ s) = s

by_cases :
    (s t : Text)
    → IsCodePoints s
    → IsCodePoints t
    → head? s ≢ some b'~'
    → head? t ≢ some b'~'
    → get_jira_id s ≡ get_jira_id t
    → s ≡ t
unfolding get_jira_id tail
by_cases s t hs ht ns nt e = elim (Bool-cases (valid_jira_id s)) [
  | inl valid_s ↦ elim (Bool-cases (valid_jira_id t)) [
    | inl valid_t ↦ rw (valid_s, valid_t, get_jira_id) at e
    | inr other_t ↦ let e' = rw (valid_s, other_t, get_jira_id) at e in absurd (ns (ap head? e'))
  ]
  | inr other_s ↦ elim (Bool-cases (valid_jira_id t)) [
    | inl valid_t ↦
        let e' = rw (other_s, valid_t, get_jira_id) at e in absurd (nt (sym (ap head? e')))
    | inr other_t ↦
        let e' = rw (other_s, other_t, get_jira_id) at e in
        utf8_text-injective s t hs ht (
          to_hex-injective (utf8_text s) (utf8_text t) (utf8_text-IsBytes s hs)
            (utf8_text-IsBytes t ht) (ap tail e'))
  ]
]

-- The id of a branch is one that Jira accepts, and branches with the same id have the same name.
-- The names do not begin with a tilde, which Git allows in no name.
pub get_jira_id-injective :
    (s t : Text)
    → IsCodePoints s
    → IsCodePoints t
    → head? s ≢ some b'~'
    → head? t ≢ some b'~'
    → get_jira_id s ≡ get_jira_id t
    → (valid_jira_id (get_jira_id s) ≡ true) × (s ≡ t)
get_jira_id-injective s t hs ht ns nt e = (valid-get_jira_id s hs, by_cases s t hs ht ns nt e)
