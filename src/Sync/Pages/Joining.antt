-- ===== src/Sync/Pages/Joining.antt =====
-- Pages of lists, and the joining of what the fetches of src/sync/parallel-page-fetcher.ts give.
use github_for_jira.Base.{
  ℕ, zero, suc, ◌+◌, ◌<◌, ◌≡◌, refl, sym, ap, ◌∙◌, inl, inr, true, false, ◌&&◌, List, [], ◌∷◌, ◌++◌,
  Option, none, some, arith, is_empty, Bool-cases, last?, take, drop, length,
}
use github_for_jira.Sync.Pages.{BackfillPayload, builds_of, merge_jira_payload}

pub is_empty-nil : {A : Type 0} (xs : List A) → is_empty xs ≡ true → xs ≡ []
is_empty-nil [] h = refl
is_empty-nil (x ∷ xs) h = absurd (cc)

and_empty :
    {A B : Type 0} (xs : List A) (ys : List B) → (is_empty xs && is_empty ys) ≡ true → ys ≡ []
and_empty [] ys h = is_empty-nil ys h
and_empty (x ∷ xs) ys h = absurd (cc)

pub builds_of-merge_jira_payload :
    (a b : Option BackfillPayload) → builds_of (merge_jira_payload a b) ≡ builds_of a ++ builds_of b
unfolding merge_jira_payload
builds_of-merge_jira_payload none none = refl
builds_of-merge_jira_payload none (some y) =
    elim (Bool-cases (is_empty y.pull_requests && is_empty y.builds)) [
      | inl e ↦ rw e (sym (and_empty y.pull_requests y.builds e))
      | inr e ↦ rw e refl
    ]
builds_of-merge_jira_payload (some x) none =
    elim (Bool-cases (is_empty (x.pull_requests ++ []) && is_empty (x.builds ++ []))) [
      | inl e ↦ rw e (sym (and_empty (x.pull_requests ++ []) (x.builds ++ []) e))
      | inr e ↦ rw e refl
    ]
builds_of-merge_jira_payload (some x) (some y) =
    elim (Bool-cases
      (is_empty (x.pull_requests ++ y.pull_requests) && is_empty (x.builds ++ y.builds))) [
        | inl e ↦
            rw e (sym (and_empty (x.pull_requests ++ y.pull_requests) (x.builds ++ y.builds) e))
        | inr e ↦ rw e refl
      ]

pub drop-nil : {A : Type 0} (n : ℕ) → drop {A = A} n [] ≡ []
drop-nil zero = refl
drop-nil (suc n) = refl

pub drop-drop : {A : Type 0} (m n : ℕ) (xs : List A) → drop m (drop n xs) ≡ drop (n + m) xs
drop-drop m zero xs = let e : 0 + m ≡ m = omega arith in ap (λ k. drop k xs) (sym e)
drop-drop m (suc n) [] = drop-nil m ∙ sym (drop-nil (suc n + m))
drop-drop m (suc n) (x ∷ xs) =
    let e : suc n + m ≡ suc (n + m) = omega arith in
    drop-drop m n xs ∙ ap (λ k. drop k (x ∷ xs)) (sym e)

pub last?-append : {A : Type 0} (xs : List A) (x : A) → last? (xs ++ (x ∷ [])) ≡ some x
last?-append [] x = refl
last?-append (y ∷ []) x = refl
last?-append (y ∷ z ∷ xs) x = last?-append (z ∷ xs) x

pub take-nil : {A : Type 0} (n : ℕ) (xs : List A) → 0 < n → is_empty (take n xs) ≡ true → xs ≡ []
take-nil zero xs h e = absurd (omega (arith, h))
take-nil (suc n) [] h e = refl
take-nil (suc n) (x ∷ xs) h e = absurd (cc)

pub take-cons : {A : Type 0} (n : ℕ) (xs : List A) → is_empty (take n xs) ≡ false → 0 < length xs
take-cons zero xs e = absurd (cc)
take-cons (suc n) [] e = absurd (cc)
take-cons (suc n) (x ∷ xs) e = omega arith

pub append-nil : {A : Type 0} (xs : List A) → xs ++ [] ≡ xs
append-nil [] = refl
append-nil (x ∷ xs) = ap (λ ys. x ∷ ys) (append-nil xs)

pub append_assoc : {A : Type 0} (xs ys zs : List A) → (xs ++ ys) ++ zs ≡ xs ++ (ys ++ zs)
append_assoc [] ys zs = refl
append_assoc (x ∷ xs) ys zs = ap (λ us. x ∷ us) (append_assoc xs ys zs)
