-- ===== src/Transforms/Deployment/Associations.antt =====
-- How many associations src/transforms/transform-deployment.ts sends.
use github_for_jira.Base.{
  ℕ, ◌+◌, ◌-◌, ◌≤◌, ◌<◌, min, ◌≡◌, refl, ◌∙◌, List, [], ◌∷◌, ◌++◌, String, Option, arith, take,
  length, le→leb, length-take, length-take_le,
}
use github_for_jira.Transforms.Deployment.{
  max_associations_per_entity, Config, JiraAssociation, issue_id_or_keys, service_id_or_keys,
  commit, slice_to_difference, unless_nil, service_ids_of, issue_count, commit_values,
  map_to_association_array,
}

abbrev pub value_count : JiraAssociation → ℕ
value_count (issue_id_or_keys vs) = length vs
value_count (service_id_or_keys vs) = length vs
value_count (commit vs) = length vs

abbrev pub total_values : List JiraAssociation → ℕ
total_values [] = 0
total_values (a ∷ as_) = value_count a + total_values as_

total-append :
    (xs ys : List JiraAssociation) → total_values (xs ++ ys) ≡ total_values xs + total_values ys
total-append [] ys = omega arith
total-append (x ∷ xs) ys = omega (arith, total-append xs ys)

total_three :
    (xs ys zs : List JiraAssociation)
    → total_values ((xs ++ ys) ++ zs) ≡ total_values xs + (total_values ys + total_values zs)
total_three xs ys zs = omega (arith, total-append (xs ++ ys) zs, total-append xs ys)

length-slice :
    {A : Type 0} (a b : ℕ) (xs : List A)
    → b ≤ a
    → length (slice_to_difference a b xs) ≡ min (a - b) (length xs)
unfolding slice_to_difference
length-slice a b xs h = rw (le→leb b a h) (length-take (a - b) xs)

unless_nil_total :
    {A : Type 0} (xs : List A) (a : JiraAssociation)
    → (length xs ≡ 0 → value_count a ≡ 0)
    → total_values (unless_nil xs (a ∷ [])) ≡ value_count a
unless_nil_total [] a h = let e = h refl in omega arith
unless_nil_total (x ∷ xs) a h = omega arith

length-slice_le :
    {A : Type 0} (a b : ℕ) (xs : List A) → length (slice_to_difference a b xs) ≤ length xs
unfolding slice_to_difference
length-slice_le a b xs =
    ground (arith, length-take (a - b) xs, length-take (length xs - (b - a)) xs)

length-slice_negative :
    {A : Type 0} (a b : ℕ) (xs : List A)
    → a < b
    → length (slice_to_difference a b xs) ≡ length xs - (b - a)
unfolding slice_to_difference
length-slice_negative a b xs h = ground (arith, length-take (length xs - (b - a)) xs)

commit_total :
    (commits kept : List String)
    → length kept ≤ length commits
    → total_values (unless_nil commits (unless_nil kept (commit kept ∷ []))) ≡ length kept
commit_total [] [] h = refl
commit_total [] (k ∷ ks) h = absurd (omega arith)
commit_total (c ∷ cs) [] h = refl
commit_total (c ∷ cs) (k ∷ ks) h = omega arith

-- The number of values, part by part.
total_parts :
    (issue_ids commits : List String) (config : Option Config)
    → let services = service_ids_of config in
      total_values (map_to_association_array issue_ids commits config)
      ≡ issue_count issue_ids
        + (length (slice_to_difference max_associations_per_entity (issue_count issue_ids) services)
            + length (commit_values issue_ids services commits))
unfolding map_to_association_array issue_count commit_values
total_parts issue_ids commits config =
    let services = service_ids_of config in
    let i = take max_associations_per_entity issue_ids in
    let s = slice_to_difference max_associations_per_entity (issue_count issue_ids) services in
    let c = commit_values issue_ids services commits in
    let parts =
      total_three (unless_nil issue_ids (issue_id_or_keys i ∷ []))
        (unless_nil services (service_id_or_keys s ∷ []))
        (unless_nil commits (unless_nil c (commit c ∷ []))) in
    let issues =
      unless_nil_total issue_ids (issue_id_or_keys i)
        (λ e. omega (arith, length-take max_associations_per_entity issue_ids, e)) in
    let services_ = unless_nil_total services (service_id_or_keys s) (λ e.
      omega
        (arith, length-slice_le max_associations_per_entity (issue_count issue_ids) services, e)) in
    let commits_ = commit_total commits c (
      length-slice_le max_associations_per_entity (issue_count issue_ids + length services)
        commits) in
    parts ∙ (cc (issues, services_, commits_))

issue_count_le : (issue_ids : List String) → issue_count issue_ids ≤ max_associations_per_entity
unfolding issue_count
issue_count_le issue_ids = length-take_le max_associations_per_entity issue_ids

-- Issues (at most 500 of which are kept) and services that are at most 500 together: as many values
-- are sent as there are issues kept, services and commits, or 500 if there are more.
pub map_to_association_array-total :
    (issue_ids commits : List String) (config : Option Config)
    → issue_count issue_ids + length (service_ids_of config) ≤ max_associations_per_entity
    → total_values (map_to_association_array issue_ids commits config)
      ≡ min max_associations_per_entity
          (issue_count issue_ids + length (service_ids_of config) + length commits)
unfolding commit_values
map_to_association_array-total issue_ids commits config h =
    let services = service_ids_of config in
    let i = issue_count issue_ids in
    let parts = total_parts issue_ids commits config in
    let s = length-slice max_associations_per_entity i services (omega (arith, h)) in
    let c = length-slice max_associations_per_entity (i + length services) commits h in
    omega (arith, parts, s, c, h)

-- With issues (at most 500 of which are kept) and services that are more than 500 together, every
-- commit beyond the excess is sent besides 500 values.
pub map_to_association_array-exceeds :
    (issue_ids commits : List String) (config : Option Config)
    → max_associations_per_entity < issue_count issue_ids + length (service_ids_of config)
    → total_values (map_to_association_array issue_ids commits config)
      ≡ max_associations_per_entity
        + (length commits
            - (issue_count issue_ids
                + length (service_ids_of config)
                - max_associations_per_entity))
unfolding commit_values
map_to_association_array-exceeds issue_ids commits config h =
    let services = service_ids_of config in
    let i = issue_count issue_ids in
    let parts = total_parts issue_ids commits config in
    let s = length-slice max_associations_per_entity i services (issue_count_le issue_ids) in
    let c = length-slice_negative max_associations_per_entity (i + length services) commits h in
    omega (arith, parts, s, c, h, issue_count_le issue_ids)
