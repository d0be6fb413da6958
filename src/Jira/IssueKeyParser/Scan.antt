-- ===== src/Jira/IssueKeyParser/Scan.antt =====
-- The search for issue keys (src/util/jira-utils.ts), which goes on behind each match, finds the keys at
-- all places: none begins inside of another.
use mathlib.Core.List.{append_assoc}
use github_for_jira.Base.{
  ℕ, zero, suc, ◌<◌, ◌≤◌, ◌≡◌, refl, sym, ap, ◌∙◌, inl, inr, Bool, true, false, not, List, [], ◌∷◌,
  ◌++◌, Option, none, some, arith, if◌then◌else◌, Bool-cases, Option-cases, length, length-append,
  All, Text, is_digit, stops,
}
use github_for_jira.Jira.IssueKeyParser.{is_letter, is_alnum, key_at, match_at, match_all}
use github_for_jira.Jira.IssueKeyParser.Keys.{IsKey, key_at-append, key_at-IsKey}

abbrev pub add_key : Option (Text × Text) → List Text → List Text
add_key none keys = keys
add_key (some (key, rest)) keys = key ∷ keys

-- The keys at all places behind the start or a character that is no letter and no digit; the first
-- argument says whether the text is at such a place.
unfoldable pub all_keys : Bool → Text → List Text
all_keys boundary [] = []
all_keys boundary (c ∷ s) =
    add_key (if boundary then key_at (c ∷ s) else none) (all_keys (not (is_alnum c)) s)

all_keys-alnum :
    (run s : Text) → All (λ c. is_alnum c ≡ true) run → all_keys false (run ++ s) ≡ all_keys false s
unfolding all_keys
all_keys-alnum [] s h = refl
all_keys-alnum (c ∷ run) s (h, hs) = rw h (all_keys-alnum run s hs)

key_at-no_letter : (c : ℕ) (s : Text) → is_letter c ≡ false → key_at (c ∷ s) ≡ none
unfolding key_at
key_at-no_letter c s h = rw h refl

all_keys-no_key : (s : Text) → key_at s ≡ none → all_keys true s ≡ all_keys false s
unfolding all_keys
all_keys-no_key [] h = refl
all_keys-no_key (c ∷ s) h = rw h refl

digits-alnum : (ds : Text) → All (λ c. is_digit c ≡ true) ds → All (λ c. is_alnum c ≡ true) ds
digits-alnum [] h = tt
digits-alnum (d ∷ ds) (h, hs) = (ground arith, digits-alnum ds hs)

all_keys-number :
    (d : ℕ) (ds s : Text)
    → b'1' ≤ d
    → d ≤ b'9'
    → All (λ c. is_digit c ≡ true) ds
    → all_keys false (b'-' ∷ d ∷ (ds ++ s)) ≡ all_keys false s
unfolding all_keys
all_keys-number d ds s lo hi h =
    let no_letter : is_letter d ≡ false = ground arith in
    let digit : is_alnum d ≡ true = ground arith in
    rw (key_at-no_letter d (ds ++ s) no_letter, digit) (all_keys-alnum ds s (digits-alnum ds h))

-- Behind a key that was found, the other keys are those behind its end.
pub all_keys-key :
    (key rest : Text)
    → IsKey key
    → stops is_alnum rest ≡ true
    → all_keys true (key ++ rest) ≡ key ∷ all_keys false rest
unfolding all_keys
all_keys-key key rest k stop =
    let number = b'-' ∷ k.digit ∷ k.digits in
    let whole : key ++ rest ≡ k.letter ∷ (k.run ++ (number ++ rest)) =
      ap (λ t. t ++ rest) k.parts ∙ ap (λ t. k.letter ∷ t) (append_assoc k.run number rest) in
    let found : key_at (k.letter ∷ (k.run ++ (number ++ rest))) ≡ some (key, rest) =
      ap key_at (sym whole) ∙ key_at-append key rest k stop in
    ap (all_keys true) whole
    ∙ rw (found, k.is_letter_)
        (ap (λ t. key ∷ t)
          (all_keys-alnum k.run (number ++ rest) k.run_alnum
            ∙ all_keys-number k.digit k.digits rest k.digit_min k.digit_max k.digits_digit))

length-rest : (s key rest : Text) → IsKey key → s ≡ key ++ rest → length rest < length s
length-rest s key rest k e = omega (arith, ap length e, length-append key rest, ap length k.parts)

all_keys-found :
    (s key rest : Text)
    → key_at s ≡ some (key, rest)
    → (all_keys true s ≡ key ∷ all_keys false rest) × (length rest < length s)
all_keys-found s key rest e =
    let (k, whole, stop) = key_at-IsKey s key rest e in
    (ap (all_keys true) whole ∙ all_keys-key key rest k stop, length-rest s key rest k whole)

-- Where no key begins, the search is at the next character.
all_keys-behind :
    (c : ℕ) (s : Text) (b : Bool)
    → (if b then key_at (c ∷ s) else none) ≡ none
    → all_keys b (c ∷ s) ≡ all_keys (not (is_alnum c)) s
unfolding all_keys
all_keys-behind c s b h = rw h refl

match_at-first :
    (b : Bool) (c : ℕ) (s : Text) (p : Text × Text)
    → (if b then key_at (c ∷ s) else none) ≡ some p
    → match_at b (c ∷ s) ≡ some p
unfolding match_at
match_at-first b c s p h = rw h refl

match_at-second :
    (b : Bool) (c : ℕ) (s : Text)
    → (if b then key_at (c ∷ s) else none) ≡ none
    → match_at b (c ∷ s) ≡ (if is_alnum c then none else key_at s)
unfolding match_at
match_at-second b c s h = rw h refl

match_all-none :
    (fuel : ℕ) (b : Bool) (c : ℕ) (s : Text)
    → match_at b (c ∷ s) ≡ none
    → match_all (suc fuel) b (c ∷ s) ≡ match_all fuel false s
unfolding match_all
match_all-none fuel b c s h = rw (h, match_all) refl

match_all-some :
    (fuel : ℕ) (b : Bool) (c : ℕ) (s key rest : Text)
    → match_at b (c ∷ s) ≡ some (key, rest)
    → match_all (suc fuel) b (c ∷ s) ≡ key ∷ match_all fuel false rest
unfolding match_all
match_all-some fuel b c s key rest h = rw (h, match_all) refl

at_start :
    (b : Bool) (o : Option (Text × Text)) (p : Text × Text)
    → (if b then o else none) ≡ some p
    → (b ≡ true) × (o ≡ some p)
at_start true o p h = (refl, h)
at_start false o p h = absurd (cc)

pub match_all-eq-all_keys :
    (fuel : ℕ) (b : Bool) (s : Text) → length s < fuel → match_all fuel b s ≡ all_keys b s
unfolding match_all all_keys
match_all-eq-all_keys zero b s h = absurd (omega arith)
match_all-eq-all_keys (suc fuel) b [] h = refl
match_all-eq-all_keys (suc fuel) b (c ∷ s) h =
    elim (Option-cases (if b then key_at (c ∷ s) else none)) [
      | inr ((key, rest), first) ↦
          let (start, found) = at_start b (key_at (c ∷ s)) (key, rest) first in
          let (keys, shorter) = all_keys-found (c ∷ s) key rest found in
          let ih = match_all-eq-all_keys fuel false rest (omega (arith, shorter)) in
          match_all-some fuel b c s key rest (match_at-first b c s (key, rest) first)
          ∙ ap (λ t. key ∷ t) ih
          ∙ rw start (sym keys)
      | inl no_first ↦ elim (Bool-cases (is_alnum c)) [
        | inl alnum ↦
            let ih = match_all-eq-all_keys fuel false s (omega (arith, h)) in
            let none_ : match_at b (c ∷ s) ≡ none =
              match_at-second b c s no_first ∙ rw alnum refl in
            match_all-none fuel b c s none_
            ∙ ih
            ∙ sym (all_keys-behind c s b no_first ∙ rw alnum refl)
        | inr separator ↦
            let behind : all_keys b (c ∷ s) ≡ all_keys true s =
              all_keys-behind c s b no_first ∙ rw separator refl in
            let at_next : match_at b (c ∷ s) ≡ key_at s =
              match_at-second b c s no_first ∙ rw separator refl in
            elim (Option-cases (key_at s)) [
              | inl no_key ↦
                  let ih = match_all-eq-all_keys fuel false s (omega (arith, h)) in
                  match_all-none fuel b c s (at_next ∙ no_key)
                  ∙ ih
                  ∙ sym (behind ∙ all_keys-no_key s no_key)
              | inr ((key, rest), found) ↦
                  let (keys, shorter) = all_keys-found s key rest found in
                  let ih = match_all-eq-all_keys fuel false rest (omega (arith, shorter, h)) in
                  match_all-some fuel b c s key rest (at_next ∙ found)
                  ∙ ap (λ t. key ∷ t) ih
                  ∙ sym (behind ∙ keys)
            ]
      ]
    ]
