-- ===== src/Transforms/PullRequest/Reviews/Last.antt =====
-- Each reviewer of a pull request appears once, with the state of the last review
-- (src/transforms/transform-pull-request.ts).
use github_for_jira.Base.{
  ◌≡◌, refl, sym, ap, ◌∙◌, inl, inr, true, false, List, [], ◌∷◌, ◌++◌, Option, none, some, arith,
  if◌then◌else◌, Bool-cases, any, find, map_option, Text, text_eq, text_eq-eq, subst,
}
use github_for_jira.Transforms.PullRequest.Reviews.{
  ApprovalStatus, Review, JiraReviewer, map_review_state, login_of, key_of, is_prototype_key,
  has_key, set_status, add_review, reduce_reviews,
}

-- The status that a login has in a list of reviewers.
abbrev pub status_of : Text → List JiraReviewer → Option ApprovalStatus
status_of k acc = map_option (λ r. r.approval_status) (find (has_key k) acc)

abbrev pub review_key : Review → Text
review_key r = key_of (login_of r.author)

-- The state of the last review of a login, or the one before the reviews.
abbrev pub last_state : Text → Option ApprovalStatus → List Review → Option ApprovalStatus
last_state k o [] = o
last_state k o (r ∷ rs) =
    last_state k (if text_eq (review_key r) k then some (map_review_state r.state) else o) rs

find-none :
    (k : Text) (acc : List JiraReviewer) → any (has_key k) acc ≡ false → status_of k acc ≡ none
find-none k [] h = refl
find-none k (r ∷ acc) h = let ih = find-none k acc in ground (arith, ih)

status_of-set_same :
    (k : Text) (s : ApprovalStatus) (acc : List JiraReviewer)
    → any (has_key k) acc ≡ true
    → status_of k (set_status k s acc) ≡ some s
status_of-set_same k s [] h = absurd (cc)
status_of-set_same k s (r ∷ acc) h = elim (Bool-cases (has_key k r)) [
  | inl e ↦ rw e (rw e refl)
  | inr e ↦ rw e (rw e (status_of-set_same k s acc (rw e at h)))
]

status_of-set_other :
    (j k : Text) (s : ApprovalStatus) (acc : List JiraReviewer)
    → text_eq j k ≡ false
    → status_of k (set_status j s acc) ≡ status_of k acc
status_of-set_other j k s [] h = refl
status_of-set_other j k s (r ∷ acc) h = elim (Bool-cases (has_key j r)) [
  | inl e ↦
      let differs : has_key k r ≡ false =
        ap (λ t. text_eq t k) (text_eq-eq (key_of r.login) j e) ∙ h in
      rw e (rw differs (status_of-set_other j k s acc h))
  | inr e ↦ elim (Bool-cases (has_key k r)) [
    | inl same ↦ rw e (rw same refl)
    | inr other ↦ rw e (rw other (status_of-set_other j k s acc h))
  ]
]

status_of-append :
    (k : Text) (acc : List JiraReviewer) (n : JiraReviewer)
    → has_key k n ≡ false
    → status_of k (acc ++ (n ∷ [])) ≡ status_of k acc
status_of-append k [] n h = rw h refl
status_of-append k (r ∷ acc) n h = elim (Bool-cases (has_key k r)) [
  | inl same ↦ rw same refl
  | inr other ↦ rw other (status_of-append k acc n h)
]

status_of-append_new :
    (k : Text) (acc : List JiraReviewer) (n : JiraReviewer)
    → has_key k n ≡ true
    → any (has_key k) acc ≡ false
    → status_of k (acc ++ (n ∷ [])) ≡ some n.approval_status
status_of-append_new k [] n h none_ = rw h refl
status_of-append_new k (r ∷ acc) n h none_ =
    let other : has_key k r ≡ false = ground arith in
    let rest : any (has_key k) acc ≡ false = ground arith in
    rw other (status_of-append_new k acc n h rest)

prototype_other :
    (j k : Text) → is_prototype_key j ≡ true → is_prototype_key k ≡ false → text_eq j k ≡ false
prototype_other j k hj hk = elim (Bool-cases (text_eq j k)) [
  | inl e ↦ let e' : true ≡ false = sym hj ∙ ap is_prototype_key (text_eq-eq j k e) ∙ hk in cc
  | inr e ↦ e
]

-- One review: the status of its login is its state, and the others keep theirs.
pub status_of-add_review :
    (k : Text) (acc : List JiraReviewer) (r : Review)
    → (is_prototype_key (review_key r) ≡ true → text_eq (review_key r) k ≡ false)
    → status_of k (add_review acc r)
      ≡ (if text_eq (review_key r) k then some (map_review_state r.state) else status_of k acc)
unfolding add_review
status_of-add_review k acc r hk =
    let j = review_key r in
    let s = map_review_state r.state in
    elim (Bool-cases (is_prototype_key j)) [
      | inl lost ↦ rw (lost, add_review) (rw (hk lost) refl)
      | inr kept ↦ elim (Bool-cases (any (has_key j) acc)) [
        | inl seen ↦ rw (kept, add_review) (rw seen (by_key_seen k j s acc seen))
        | inr fresh ↦ rw (kept, add_review) (rw fresh (by_key_new k j _ acc fresh refl))
      ]
    ]
  where
    by_key_seen :
        (k j : Text) (s : ApprovalStatus) (acc : List JiraReviewer)
        → any (has_key j) acc ≡ true
        → status_of k (set_status j s acc) ≡ (if text_eq j k then some s else status_of k acc)
    by_key_seen k j s acc seen = elim (Bool-cases (text_eq j k)) [
      | inl same ↦ rw same (
          subst (λ t. status_of t (set_status j s acc) ≡ some s) (text_eq-eq j k same)
            (status_of-set_same j s acc seen))
      | inr other ↦ rw other (status_of-set_other j k s acc other)
    ]

    by_key_new :
        (k j : Text) (n : JiraReviewer) (acc : List JiraReviewer)
        → any (has_key j) acc ≡ false
        → key_of n.login ≡ j
        → status_of k (acc ++ (n ∷ []))
          ≡ (if text_eq j k then some n.approval_status else status_of k acc)
    by_key_new k j n acc fresh key = elim (Bool-cases (text_eq j k)) [
      | inl same ↦
          let j_is_k = text_eq-eq j k same in
          rw same (
            status_of-append_new k acc n (ap (λ t. text_eq t k) key ∙ same)
              (ap (λ t. any (has_key t) acc) (sym j_is_k) ∙ fresh))
      | inr other ↦ rw other (status_of-append k acc n (ap (λ t. text_eq t k) key ∙ other))
    ]

pub status_of-reduce_reviews :
    (k : Text) (acc : List JiraReviewer) (rs : List Review)
    → is_prototype_key k ≡ false
    → status_of k (reduce_reviews acc rs) ≡ last_state k (status_of k acc) rs
unfolding reduce_reviews
status_of-reduce_reviews k acc [] h = refl
status_of-reduce_reviews k acc (r ∷ rs) h =
    status_of-reduce_reviews k (add_review acc r) rs h
    ∙ ap (λ o. last_state k o rs)
        (status_of-add_review k acc r (λ lost. prototype_other (review_key r) k lost h))
