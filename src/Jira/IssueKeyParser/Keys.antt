-- ===== src/Jira/IssueKeyParser/Keys.antt =====
-- What an issue key is, and that the parser of src/util/jira-utils.ts takes exactly those at a place.
use mathlib.Core.List.{append_assoc}
use github_for_jira.Base.{
  ℕ, ◌≤◌, ◌≡◌, refl, sym, ap, ◌∙◌, inl, inr, true, ◌&&◌, [], ◌∷◌, ◌++◌, Option, some, arith, leb,
  ◌==◌, Bool-cases, Option-cases, length, All, Text, is_digit, span, stops, span-append, span_parts,
  get_or, subst, leb→le, le→leb, ==_iff, and-elim,
}
use github_for_jira.Jira.IssueKeyParser.{is_letter, is_alnum, number_at, key_at}

-- A letter, then 1 to 255 letters and digits, a hyphen, and a number of 1 to 256 digits that does not
-- begin with 0.
pub record IsKey (key : Text) : Type 0 where
  pub letter : ℕ
  pub run : Text
  pub digit : ℕ
  pub digits : Text
  pub parts : key ≡ letter ∷ (run ++ (b'-' ∷ digit ∷ digits))
  pub is_letter_ : is_letter letter ≡ true
  pub run_alnum : All (λ c. is_alnum c ≡ true) run
  pub run_long : 1 ≤ length run
  pub run_short : length run ≤ 255
  pub digit_min : b'1' ≤ digit
  pub digit_max : digit ≤ b'9'
  pub digits_digit : All (λ c. is_digit c ≡ true) digits
  pub digits_short : length digits ≤ 255

stops-digit : (s : Text) → stops is_alnum s ≡ true → stops is_digit s ≡ true
stops-digit [] h = refl
stops-digit (c ∷ s) h = ground arith

number_at-append :
    (d : ℕ) (ds rest : Text)
    → b'1' ≤ d
    → d ≤ b'9'
    → All (λ c. is_digit c ≡ true) ds
    → length ds ≤ 255
    → stops is_alnum rest ≡ true
    → number_at (b'-' ∷ d ∷ (ds ++ rest)) ≡ some (d ∷ ds, rest)
unfolding number_at
number_at-append d ds rest lo hi digits short stop =
    rw
      (
        span-append is_digit ds rest digits (stops-digit rest stop),
        stop,
        le→leb b'1' d lo,
        le→leb d b'9' hi,
        le→leb (length ds) 255 short,
      )
      refl

-- The parser takes a key that ends at the end, or before a character that is no letter and no digit.
pub key_at-append :
    (key rest : Text)
    → IsKey key
    → stops is_alnum rest ≡ true
    → key_at (key ++ rest) ≡ some (key, rest)
unfolding key_at
key_at-append key rest k stop =
    let after = b'-' ∷ k.digit ∷ (k.digits ++ rest) in
    let whole : key ++ rest ≡ k.letter ∷ (k.run ++ after) =
      ap (λ t. t ++ rest) k.parts
      ∙ ap (λ t. k.letter ∷ t) (append_assoc k.run (b'-' ∷ k.digit ∷ k.digits) rest) in
    ap key_at whole
    ∙ rw
        (
          span-append is_alnum k.run after k.run_alnum refl,
          number_at-append k.digit k.digits rest k.digit_min k.digit_max k.digits_digit
              k.digits_short stop,
          k.is_letter_,
          le→leb 1 (length k.run) k.run_long,
          le→leb (length k.run) 255 k.run_short,
        )
        (ap (λ t. some (t, rest)) (sym k.parts))

-- What number_at takes.
record IsNumber (s number rest : Text) : Type 0 where
  digit : ℕ
  digits : Text
  parts : number ≡ digit ∷ digits
  whole : s ≡ b'-' ∷ (number ++ rest)
  digit_min : b'1' ≤ digit
  digit_max : digit ≤ b'9'
  digits_digit : All (λ c. is_digit c ≡ true) digits
  digits_short : length digits ≤ 255
  stop : stops is_alnum rest ≡ true

tested-IsNumber :
    (h d : ℕ) (s ds r : Text)
    → s ≡ ds ++ r
    → All (λ c. is_digit c ≡ true) ds
    → ((h == b'-') && ((leb b'1' d && leb d b'9') && (leb (length ds) 255 && stops is_alnum r)))
      ≡ true
    → IsNumber (h ∷ d ∷ s) (d ∷ ds) r
tested-IsNumber h d s ds r e digits t =
    let (hyphen, t1) = and-elim (h == b'-') _ t in
    let (range, t2) = and-elim (leb b'1' d && leb d b'9') _ t1 in
    let (lo, hi) = and-elim (leb b'1' d) _ range in
    let (short, stop_) = and-elim (leb (length ds) 255) _ t2 in
    record {
      digit = d;
      digits = ds;
      parts = refl;
      whole = rw ((==_iff h b'-').0 hyphen) (ap (λ u. b'-' ∷ d ∷ u) e);
      digit_min = leb→le b'1' d lo;
      digit_max = leb→le d b'9' hi;
      digits_digit = digits;
      digits_short = leb→le (length ds) 255 short;
      stop = stop_;
    }

same_pair : (p q : Text × Text) → (◌≡◌ {A = Option (Text × Text)} (some p) (some q)) → p ≡ q
same_pair p q e = ap (λ o. get_or o p) e

number_at-IsNumber :
    (s number rest : Text) → number_at s ≡ some (number, rest) → IsNumber s number rest
unfolding number_at
number_at-IsNumber [] number rest e = absurd (cc)
number_at-IsNumber (h ∷ []) number rest e = absurd (cc)
number_at-IsNumber (h ∷ d ∷ s) number rest e =
    let ds = (span is_digit s).0 in
    let r = (span is_digit s).1 in
    let (whole, digits, stop) = span_parts is_digit s in
    elim (Bool-cases
      ((h == b'-') && ((leb b'1' d && leb d b'9') && (leb (length ds) 255 && stops is_alnum r)))) [
        | inl t ↦
            let e' = rw t at e in
            subst (λ q. IsNumber (h ∷ d ∷ s) q.0 q.1) (same_pair (d ∷ ds, r) (number, rest) e')
              (tested-IsNumber h d s ds r whole digits t)
        | inr f ↦ absurd (let e' = rw f at e in cc)
      ]

-- A key in parts.
tested-IsKey :
    (c : ℕ) (s run after number rest : Text)
    → s ≡ run ++ after
    → All (λ d. is_alnum d ≡ true) run
    → (is_letter c && (leb 1 (length run) && leb (length run) 255)) ≡ true
    → IsNumber after number rest
    → let key = c ∷ (run ++ (b'-' ∷ number)) in
      IsKey key × (c ∷ s ≡ key ++ rest) × (stops is_alnum rest ≡ true)
tested-IsKey c s run after number rest e alnum t n =
    let (letter_, t1) = and-elim (is_letter c) _ t in
    let (long, short) = and-elim (leb 1 (length run)) _ t1 in
    (
      record {
        letter = c;
        run = run;
        digit = n.digit;
        digits = n.digits;
        parts = ap (λ u. c ∷ (run ++ (b'-' ∷ u))) n.parts;
        is_letter_ = letter_;
        run_alnum = alnum;
        run_long = leb→le 1 (length run) long;
        run_short = leb→le (length run) 255 short;
        digit_min = n.digit_min;
        digit_max = n.digit_max;
        digits_digit = n.digits_digit;
        digits_short = n.digits_short;
      },
      ap (λ u. c ∷ u)
          (e ∙ ap (λ u. run ++ u) n.whole ∙ sym (append_assoc run (b'-' ∷ number) rest)),
      n.stop,
    )

-- What the parser takes is a key, and ends at the end or before such a character.
pub key_at-IsKey :
    (s key rest : Text)
    → key_at s ≡ some (key, rest)
    → IsKey key × (s ≡ key ++ rest) × (stops is_alnum rest ≡ true)
unfolding key_at
key_at-IsKey [] key rest e = absurd (cc)
key_at-IsKey (c ∷ s) key rest e =
    let run = (span is_alnum s).0 in
    let after = (span is_alnum s).1 in
    let (whole, alnum, stop) = span_parts is_alnum s in
    elim (Bool-cases (is_letter c && (leb 1 (length run) && leb (length run) 255))) [
      | inl t ↦ elim (Option-cases (number_at after)) [
        | inl no_number ↦ absurd (let e' = rw (t, no_number) at e in cc)
        | inr (p, taken) ↦
            let e' = rw (t, taken) at e in
            subst (λ q. IsKey q.0 × (c ∷ s ≡ q.0 ++ q.1) × (stops is_alnum q.1 ≡ true))
              (same_pair (c ∷ (run ++ (b'-' ∷ p.0)), p.1) (key, rest) e')
              (tested-IsKey c s run after p.0 p.1 whole alnum t
                (number_at-IsNumber after p.0 p.1 taken))
      ]
      | inr f ↦ absurd (let e' = rw f at e in cc)
    ]
