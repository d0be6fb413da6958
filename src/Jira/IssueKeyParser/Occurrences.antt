-- ===== src/Jira/IssueKeyParser/Occurrences.antt =====
-- jiraIssueKeyParser (src/util/jira-utils.ts) gives the issue keys that occur in a text.
use github_for_jira.Base.{
  ℕ, suc, ◌≡◌, refl, sym, ap, ◌∙◌, ◌↔◌, ◌⊎◌, inl, inr, Bool, true, false, not, List, [], ◌∷◌, ◌++◌,
  map, subst, Option, none, some, arith, if◌then◌else◌, Option-cases, length, length-append, Any,
  here, there, Text, stops,
}
use github_for_jira.Jira.IssueKeyParser.{is_alnum, key_at, to_upper, match_all, issue_key_parser}
use github_for_jira.Jira.IssueKeyParser.Keys.{IsKey, key_at-append, key_at-IsKey}
use github_for_jira.Jira.IssueKeyParser.Scan.{add_key, all_keys, match_all-eq-all_keys}

-- The text before a key is empty, at the start, or ends with a character that is no letter and no digit.
abbrev pub boundary : Bool → Text → Bool
boundary b [] = b
boundary b (c ∷ s) = boundary (not (is_alnum c)) s

-- An issue key that stands in a text, with no letter and no digit right before or behind it. The first
-- argument says whether it may stand at the very beginning.
pub record Occurs (b : Bool) (key s : Text) : Type 0 where
  pub before : Text
  pub behind : Text
  pub whole : s ≡ before ++ (key ++ behind)
  pub is_key : IsKey key
  pub starts : boundary b before ≡ true
  pub ends : stops is_alnum behind ≡ true

Occurs-behind :
    (b : Bool) (c : ℕ) (key s : Text) → Occurs (not (is_alnum c)) key s → Occurs b key (c ∷ s)
Occurs-behind b c key s o = record {
  before = c ∷ o.before;
  behind = o.behind;
  whole = ap (λ t. c ∷ t) o.whole;
  is_key = o.is_key;
  starts = o.starts;
  ends = o.ends;
}

Any-cons : {P : Text → Type 0} (k : Text) (ks : List Text) → Any P (k ∷ ks) → P k ⊎ Any P ks
Any-cons k ks (here p) = inl p
Any-cons k ks (there m) = inr m

Any-add_key :
    {P : Text → Type 0} (o : Option (Text × Text)) (ks : List Text)
    → Any P ks
    → Any P (add_key o ks)
Any-add_key none ks m = m
Any-add_key (some p) ks m = there m

all_keys-Occurs : (b : Bool) (s key : Text) → Any (λ k. k ≡ key) (all_keys b s) → Occurs b key s
unfolding all_keys
all_keys-Occurs b [] key m = elim m [ ]
all_keys-Occurs false (c ∷ s) key m =
    Occurs-behind false c key s (all_keys-Occurs (not (is_alnum c)) s key m)
all_keys-Occurs true (c ∷ s) key m = elim (Option-cases (key_at (c ∷ s))) [
  | inl no_key ↦
      let m' = rw no_key at m in
      Occurs-behind true c key s (all_keys-Occurs (not (is_alnum c)) s key m')
  | inr ((k, rest), found) ↦
      let m' = rw found at m in
      elim (Any-cons k (all_keys (not (is_alnum c)) s) m') [
        | inl same ↦
            let (is_key_, whole_, stop) = key_at-IsKey (c ∷ s) k rest found in
            subst (λ t. Occurs true t (c ∷ s)) same
              (record {
                before = [];
                behind = rest;
                whole = whole_;
                is_key = is_key_;
                starts = refl;
                ends = stop;
              })
        | inr later ↦ Occurs-behind true c key s (all_keys-Occurs (not (is_alnum c)) s key later)
      ]
]

all_keys-first :
    (s key rest : Text) → key_at s ≡ some (key, rest) → Any (λ k. k ≡ key) (all_keys true s)
unfolding all_keys key_at
all_keys-first [] key rest found = absurd (cc)
all_keys-first (c ∷ s) key rest found = rw found (here refl)

Occurs-all_keys :
    (b : Bool) (before key behind : Text)
    → IsKey key
    → boundary b before ≡ true
    → stops is_alnum behind ≡ true
    → Any (λ k. k ≡ key) (all_keys b (before ++ (key ++ behind)))
unfolding all_keys
Occurs-all_keys b [] key behind k start stop =
    rw start (all_keys-first (key ++ behind) key behind (key_at-append key behind k stop))
Occurs-all_keys b (c ∷ before) key behind k start stop =
    Any-add_key (if b then key_at (c ∷ (before ++ (key ++ behind))) else none) _
      (Occurs-all_keys (not (is_alnum c)) before key behind k start stop)

-- The matches are the occurrences.
match_all_iff :
    (s key : Text) → Any (λ k. k ≡ key) (match_all (suc (length s)) true s) ↔ Occurs true key s
match_all_iff s key = rw (match_all-eq-all_keys (suc (length s)) true s (omega arith)) (
  all_keys-Occurs true s key,
  λ o.
      subst (λ t. Any (λ k. k ≡ key) (all_keys true t)) (sym o.whole)
        (Occurs-all_keys true o.before key o.behind o.is_key o.starts o.ends),
)

map-Any :
    (f : Text → Text) (u : Text) (ks : List Text)
    → Any (λ v. v ≡ u) (map f ks)
    → (k : Text) × Any (λ j. j ≡ k) ks × (f k ≡ u)
map-Any f u [] m = elim m [ ]
map-Any f u (k ∷ ks) (here e) = (k, here refl, e)
map-Any f u (k ∷ ks) (there m) = let (j, n, e) = map-Any f u ks m in (j, there n, e)

Any-map :
    (f : Text → Text) (k u : Text) (ks : List Text)
    → f k ≡ u
    → Any (λ j. j ≡ k) ks
    → Any (λ v. v ≡ u) (map f ks)
Any-map f k u [] e m = elim m [ ]
Any-map f k u (j ∷ ks) e (here same) = here (ap f same ∙ e)
Any-map f k u (j ∷ ks) e (there m) = there (Any-map f k u ks e m)

empty-no_key : (key : Text) → Occurs true key [] → ⊥
empty-no_key key o = omega (
  arith,
  ap length o.whole,
  length-append o.before (key ++ o.behind),
  length-append key o.behind,
  ap length o.is_key.parts,
)

-- A text is among the issue keys of a text exactly when it is the upper-case form of an issue key that
-- occurs there, with no letter and no digit right before or behind it.
pub issue_key_parser_iff :
    (uniq : List Text → List Text)
    (same_members : (ks : List Text) (u : Text) → Any (λ v. v ≡ u) (uniq ks) ↔ Any (λ v. v ≡ u) ks)
    (s u : Text)
    → Any (λ v. v ≡ u) (issue_key_parser uniq s)
      ↔ ((key : Text) × Occurs true key s × (map to_upper key ≡ u))
unfolding issue_key_parser
issue_key_parser_iff uniq same_members [] u =
    ((λ m. elim m [ ]), (λ (key, o, e). absurd (empty-no_key key o)))
issue_key_parser_iff uniq same_members (c ∷ s) u =
    let matches = match_all (suc (length (c ∷ s))) true (c ∷ s) in
    let members = same_members (map (map to_upper) matches) u in
    (
      (λ m.
          let (key, n, e) = map-Any (map to_upper) u matches (members.0 m) in
          (key, (match_all_iff (c ∷ s) key).0 n, e)),
      (λ (key, o, e).
          members.1 (Any-map (map to_upper) key u matches e ((match_all_iff (c ∷ s) key).1 o))),
    )
