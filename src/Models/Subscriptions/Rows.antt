-- ===== src/Models/Subscriptions/Rows.antt =====
-- Searching, counting and filtering in a table of subscriptions (src/models/subscription.ts).
use github_for_jira.Base.{
  ◌≤◌, ◌≡◌, refl, ap, inl, inr, Bool, true, false, ◌||◌, not, List, [], ◌∷◌, ◌++◌, none, some,
  arith, Bool-cases, get_or, subst, any, find, filter, length,
}
use github_for_jira.Models.Subscriptions.{SubscriptionRow}

pub any-find-none :
    (p : SubscriptionRow → Bool) (rows : List SubscriptionRow)
    → find p rows ≡ none
    → any p rows ≡ false
any-find-none p [] h = refl
any-find-none p (r ∷ rows) h = ground (arith, any-find-none p rows)

pub any-find-some :
    (p : SubscriptionRow → Bool) (rows : List SubscriptionRow) (r : SubscriptionRow)
    → find p rows ≡ some r
    → any p rows ≡ true
any-find-some p [] r h = absurd (cc)
any-find-some p (x ∷ rows) r h = ground (arith, any-find-some p rows r)

pub any-append :
    (p : SubscriptionRow → Bool) (xs ys : List SubscriptionRow)
    → any p (xs ++ ys) ≡ (any p xs || any p ys)
any-append p [] ys = refl
any-append p (x ∷ xs) ys = let ih = any-append p xs ys in ground arith

pub filter-append :
    (p : SubscriptionRow → Bool) (xs ys : List SubscriptionRow)
    → filter p (xs ++ ys) ≡ filter p xs ++ filter p ys
filter-append p [] ys = refl
filter-append p (x ∷ xs) ys = let ih = filter-append p xs ys in ground arith

pub filter-none :
    (p : SubscriptionRow → Bool) (rows : List SubscriptionRow)
    → any p rows ≡ false
    → filter p rows ≡ []
filter-none p [] h = refl
filter-none p (r ∷ rows) h = ground (arith, filter-none p rows)

pub or_swap : (a b : Bool) → (a || (b || false)) ≡ (b || a)
or_swap true true = refl
or_swap true false = refl
or_swap false true = refl
or_swap false false = refl

pub length-filter-filter :
    (f g : SubscriptionRow → Bool) (rows : List SubscriptionRow)
    → length (filter f (filter g rows)) ≤ length (filter f rows)
length-filter-filter f g [] = omega arith
length-filter-filter f g (r ∷ rows) =
    let ih = length-filter-filter f g rows in
    elim (Bool-cases (g r)) [
      | inl kept ↦ elim (Bool-cases (f r)) [
        | inl counted ↦ rw (kept, counted) (omega (arith, ih))
        | inr other ↦ rw (kept, other) ih
      ]
      | inr gone ↦ elim (Bool-cases (f r)) [
        | inl counted ↦ rw (gone, counted) (omega (arith, ih))
        | inr other ↦ rw (gone, other) ih
      ]
    ]

pub find-holds :
    (p : SubscriptionRow → Bool) (rows : List SubscriptionRow) (r : SubscriptionRow)
    → find p rows ≡ some r
    → p r ≡ true
find-holds p [] r h = absurd (cc)
find-holds p (x ∷ rows) r h = elim (Bool-cases (p x)) [
  | inl found ↦ let e = rw found at h in subst (λ y. p y ≡ true) (ap (λ o. get_or o x) e) found
  | inr other ↦ find-holds p rows r (rw other at h)
]

pub find-filter-not :
    (p : SubscriptionRow → Bool) (rows : List SubscriptionRow)
    → find p (filter (λ r. not (p r)) rows) ≡ none
find-filter-not p [] = refl
find-filter-not p (r ∷ rows) =
    let ih = find-filter-not p rows in
    elim (Bool-cases (p r)) [ inl found ↦ rw found ih | inr other ↦ rw (other, other) ih ]
