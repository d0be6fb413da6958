-- ===== src/Transforms/PullRequest/Reviews/Distinct.antt =====
-- No reviewer of a pull request appears twice (src/transforms/transform-pull-request.ts).
use github_for_jira.Base.{
  ℕ, suc, ◌+◌, ◌≤◌, ◌≡◌, refl, sym, ap, ◌∙◌, inl, inr, Bool, true, false, List, [], ◌∷◌, ◌++◌, none,
  arith, if◌then◌else◌, Bool-cases, any, filter, length, Text, text_eq, text_eq-eq,
}
use github_for_jira.Transforms.PullRequest.Reviews.{
  ApprovalStatus, Review, JiraReviewer, map_review_state, key_of, is_prototype_key, has_key,
  set_status, add_review, reduce_reviews,
}
use github_for_jira.Transforms.PullRequest.Reviews.Last.{
  status_of, last_state, review_key, status_of-add_review, status_of-reduce_reviews,
}

-- How often a login appears.
abbrev pub count : Text → List JiraReviewer → ℕ
count k acc = length (filter (has_key k) acc)

count-none : (k : Text) (acc : List JiraReviewer) → any (has_key k) acc ≡ false → count k acc ≡ 0
count-none k [] h = refl
count-none k (r ∷ acc) h =
    let other : has_key k r ≡ false = ground arith in
    let rest : any (has_key k) acc ≡ false = ground arith in rw other (count-none k acc rest)

count-set_status :
    (j k : Text) (s : ApprovalStatus) (acc : List JiraReviewer)
    → count k (set_status j s acc) ≡ count k acc
count-set_status j k s [] = refl
count-set_status j k s (r ∷ acc) =
    let ih = count-set_status j k s acc in
    elim (Bool-cases (has_key j r)) [
      | inl e ↦ elim (Bool-cases (has_key k r)) [
        | inl f ↦ rw e (rw f (ap suc ih))
        | inr f ↦ rw e (rw f ih)
      ]
      | inr e ↦ elim (Bool-cases (has_key k r)) [
        | inl f ↦ rw e (rw f (ap suc ih))
        | inr f ↦ rw e (rw f ih)
      ]
    ]

abbrev added : Bool → ℕ
added true = 1
added false = 0

count-append :
    (k : Text) (acc : List JiraReviewer) (n : JiraReviewer)
    → count k (acc ++ (n ∷ [])) ≡ count k acc + added (has_key k n)
count-append k [] n = ground arith
count-append k (r ∷ acc) n = let ih = count-append k acc n in ground arith

count-add_review :
    (k : Text) (acc : List JiraReviewer) (r : Review)
    → count k acc ≤ 1
    → count k (add_review acc r) ≤ 1
unfolding add_review
count-add_review k acc r h = elim (Bool-cases (is_prototype_key (review_key r))) [
  | inl lost ↦ rw (lost, add_review) h
  | inr kept ↦ elim (Bool-cases (any (has_key (review_key r)) acc)) [
    | inl seen ↦
        rw (kept, add_review)
          (rw seen
            (omega (arith, count-set_status (review_key r) k (map_review_state r.state) acc, h)))
    | inr fresh ↦ rw (kept, add_review) (rw fresh (new k (review_key r) _ acc fresh refl h))
  ]
]
  where
    new :
        (k j : Text) (n : JiraReviewer) (acc : List JiraReviewer)
        → any (has_key j) acc ≡ false
        → key_of n.login ≡ j
        → count k acc ≤ 1
        → count k (acc ++ (n ∷ [])) ≤ 1
    new k j n acc fresh key h = elim (Bool-cases (has_key k n)) [
      | inl same ↦
          let n_is_k = text_eq-eq (key_of n.login) k same in
          let before : count k acc ≡ 0 =
            count-none k acc (ap (λ t. any (has_key t) acc) (sym n_is_k ∙ key) ∙ fresh) in
          let one : added (has_key k n) ≡ 1 = rw same refl in
          omega (arith, count-append k acc n, before, one)
      | inr other ↦
          let zero_ : added (has_key k n) ≡ 0 = rw other refl in
          omega (arith, count-append k acc n, zero_, h)
    ]

count-reduce_reviews :
    (k : Text) (acc : List JiraReviewer) (rs : List Review)
    → count k acc ≤ 1
    → count k (reduce_reviews acc rs) ≤ 1
unfolding reduce_reviews
count-reduce_reviews k acc [] h = h
count-reduce_reviews k acc (r ∷ rs) h =
    count-reduce_reviews k (add_review acc r) rs (count-add_review k acc r h)

add_review-lost :
    (acc : List JiraReviewer) (r : Review)
    → is_prototype_key (review_key r) ≡ true
    → add_review acc r ≡ acc
unfolding add_review
add_review-lost acc r lost = rw (lost, add_review) refl

status_of-prototype :
    (k : Text) (acc : List JiraReviewer) (rs : List Review)
    → is_prototype_key k ≡ true
    → status_of k acc ≡ none
    → status_of k (reduce_reviews acc rs) ≡ none
unfolding reduce_reviews
status_of-prototype k acc [] hk h = h
status_of-prototype k acc (r ∷ rs) hk h =
    status_of-prototype k (add_review acc r) rs hk
      (elim (Bool-cases (is_prototype_key (review_key r))) [
        | inl lost ↦ ap (status_of k) (add_review-lost acc r lost) ∙ h
        | inr kept ↦
            status_of-add_review k acc r (λ lost. apart lost kept)
            ∙ rw (other (review_key r) kept) h
      ])
  where
    apart : {b : Bool} {P : Type 0} → b ≡ true → b ≡ false → P
    apart e f = absurd (let g = sym e ∙ f in cc)

    other : (j : Text) → is_prototype_key j ≡ false → text_eq j k ≡ false
    other j hj = elim (Bool-cases (text_eq j k)) [
      | inl e ↦
          let g : true ≡ false = sym hk ∙ ap is_prototype_key (sym (text_eq-eq j k e)) ∙ hj in cc
      | inr e ↦ e
    ]

-- Among the reviewers that are sent for a pull request, every login appears once at most, with the state of
-- its last review, and it appears if it has a review; but a login that is a property of every object,
-- such as constructor, never appears.
pub reduce_reviews-status_of :
    (k : Text) (rs : List Review)
    → (count k (reduce_reviews [] rs) ≤ 1)
      × (status_of k (reduce_reviews [] rs)
          ≡ (if is_prototype_key k then none else last_state k none rs))
reduce_reviews-status_of k rs = (
  count-reduce_reviews k [] rs (omega arith),
  elim (Bool-cases (is_prototype_key k)) [
    | inl lost ↦ rw lost (status_of-prototype k [] rs lost refl)
    | inr kept ↦ rw kept (status_of-reduce_reviews k [] rs kept)
  ],
)
