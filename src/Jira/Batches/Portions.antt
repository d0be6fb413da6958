-- ===== src/Jira/Batches/Portions.antt =====
-- What the portions of src/jira/client/jira-client.ts hold.
use github_for_jira.Base.{
  All-append_left, All-append_right, ℕ, zero, suc, ◌≤◌, ◌<◌, ◌≡◌, refl, sym, ap, ◌∙◌, ◌⊎◌, inl, inr,
  true, false, List, [], ◌∷◌, ◌++◌, String, arith, any, not, ◌=s=◌, if◌then◌else◌, Bool-cases, take,
  drop, length, All, is_empty, length-append, length-take_le, length-drop, take-append-drop, subst,
  All-map,
}
use text.Mathlib.TextPositions.{eq_refl}
use github_for_jira.Jira.IssueKeys.{IssueKeyObject}
use github_for_jira.Jira.Batches.{
  is_first, ids_of, dedup_from, dedup_commits, portion, chunks, commit_chunks,
}

abbrev pub concat : {A : Type 0} → List (List A) → List A
concat [] = []
concat (xs ∷ xss) = xs ++ concat xss

append-nil : {A : Type 0} (xs : List A) → xs ++ [] ≡ xs
append-nil [] = refl
append-nil (x ∷ xs) = ap (λ ys. x ∷ ys) (append-nil xs)

is_empty-nil : {A : Type 0} (xs : List A) → is_empty xs ≡ true → xs ≡ []
is_empty-nil [] h = refl
is_empty-nil (x ∷ xs) h = cc

not_empty-length : {A : Type 0} (xs : List A) → is_empty xs ≡ false → 1 ≤ length xs
not_empty-length [] h = cc
not_empty-length (x ∷ xs) h = omega arith

chunks-concat :
    {A : Type 0} (fuel : ℕ) (xs : List A) → length xs < fuel → concat (chunks fuel xs) ≡ xs
unfolding chunks
chunks-concat zero xs h = absurd (omega arith)
chunks-concat (suc fuel) xs h =
    let whole = take-append-drop portion xs in
    elim (Bool-cases (is_empty (drop portion xs))) [
      | inl ended ↦
          rw ended
            (ap (λ ys. take portion xs ++ ys) (sym (is_empty-nil (drop portion xs) ended)) ∙ whole)
      | inr more ↦
          let n = not_empty-length (drop portion xs) more in
          rw more (
            ap (λ ys. take portion xs ++ ys)
              (chunks-concat fuel (drop portion xs) (omega (arith, length-drop portion xs, n)))
            ∙ whole)
    ]

chunks_le : {A : Type 0} (fuel : ℕ) (xs : List A) → All (λ c. length c ≤ portion) (chunks fuel xs)
unfolding chunks
chunks_le zero xs = tt
chunks_le (suc fuel) xs = (
  length-take_le portion xs,
  rest (Bool-cases (is_empty (drop portion xs))) (chunks_le fuel (drop portion xs)),
)
  where
    rest :
        (is_empty (drop portion xs) ≡ true) ⊎ (is_empty (drop portion xs) ≡ false)
        → All (λ c. length c ≤ portion) (chunks fuel (drop portion xs))
        → All
            (λ c. length c ≤ portion)
            (if is_empty (drop portion xs) then [] else chunks fuel (drop portion xs))
    rest (inl ended) ih = rw ended tt
    rest (inr more) ih = rw more ih

-- No text stands in the list twice.
abbrev pub IsDistinct : List String → Type 0
IsDistinct [] = Unit
IsDistinct (x ∷ xs) = All (λ y. (x =s= y) ≡ false) xs × IsDistinct xs

is_first-absent :
    (before ys : List String) (id : String)
    → is_first (before ++ ys) id (length before) ≡ true
    → All (λ x. (x =s= id) ≡ false) before
unfolding is_first
is_first-absent [] ys id h = tt
is_first-absent (x ∷ before) ys id h = elim (Bool-cases (x =s= id)) [
  | inl same ↦ absurd (let h' = rw same at h in ground arith)
  | inr other ↦ (other, is_first-absent before ys id (rw other at h))
]

append-shift :
    (xs : List String) (y : String) (ys : List String) → (xs ++ (y ∷ [])) ++ ys ≡ xs ++ (y ∷ ys)
append-shift [] y ys = refl
append-shift (x ∷ xs) y ys = ap (λ zs. x ∷ zs) (append-shift xs y ys)

length-snoc : (xs : List String) (y : String) → length (xs ++ (y ∷ [])) ≡ suc (length xs)
length-snoc xs y = omega (arith, length-append xs (y ∷ []))

-- What is kept after some ids: ids that are not among them and that are distinct.
abbrev IsFresh : List String → List String → Type 0
IsFresh before ids = All (λ i. All (λ x. (x =s= i) ≡ false) before) ids × IsDistinct ids

fresh-left :
    (before ids : List String) (y : String)
    → All (λ i. All (λ x. (x =s= i) ≡ false) (before ++ (y ∷ []))) ids
    → All (λ i. All (λ x. (x =s= i) ≡ false) before) ids
fresh-left before ids y h =
    All-map (λ i k. All-append_left (λ x. (x =s= i) ≡ false) before (y ∷ []) k) ids h

fresh-last :
    (before ids : List String) (y : String)
    → All (λ i. All (λ x. (x =s= i) ≡ false) (before ++ (y ∷ []))) ids
    → All (λ i. (y =s= i) ≡ false) ids
fresh-last before ids y h =
    All-map (λ i k. (All-append_right (λ x. (x =s= i) ≡ false) before (y ∷ []) k).0) ids h

dedup_from-IsFresh :
    (before : List String) (cs : List IssueKeyObject)
    → IsFresh before (ids_of (dedup_from (before ++ ids_of cs) (length before) cs))
unfolding dedup_from
dedup_from-IsFresh before [] = (tt, tt)
dedup_from-IsFresh before (c ∷ cs) =
    let ih = dedup_from-IsFresh (before ++ (c.id ∷ [])) cs in
    let (fresh, distinct) =
      rw (append-shift before c.id (ids_of cs), length-snoc before c.id) at ih in
    elim (Bool-cases (is_first (before ++ (c.id ∷ ids_of cs)) c.id (length before))) [
      | inl first ↦ rw first (
        (is_first-absent before (c.id ∷ ids_of cs) c.id first, fresh-left before _ c.id fresh),
        (fresh-last before _ c.id fresh, distinct),
      )
      | inr later ↦ rw later (fresh-left before _ c.id fresh, distinct)
    ]

-- The commits whose ids are neither among some ids nor the id of an earlier commit.
pub keep_first : List String → List IssueKeyObject → List IssueKeyObject
keep_first seen [] = []
keep_first seen (c ∷ cs) =
    let rest = keep_first (seen ++ (c.id ∷ [])) cs in
    if any (λ x. x =s= c.id) seen then rest else c ∷ rest

is_first-any :
    (before ys : List String) (id : String)
    → is_first (before ++ (id ∷ ys)) id (length before) ≡ not (any (λ x. x =s= id) before)
unfolding is_first
is_first-any [] ys id = eq_refl id
is_first-any (x ∷ before) ys id = let ih = is_first-any before ys id in ground arith

dedup_from-keep_first :
    (before : List String) (cs : List IssueKeyObject)
    → dedup_from (before ++ ids_of cs) (length before) cs ≡ keep_first before cs
unfolding dedup_from keep_first
dedup_from-keep_first before [] = refl
dedup_from-keep_first before (c ∷ cs) =
    let ih = dedup_from-keep_first (before ++ (c.id ∷ [])) cs in
    let ih' = rw (append-shift before c.id (ids_of cs), length-snoc before c.id) at ih in
    rw (is_first-any before (ids_of cs) c.id, ih') (ground arith)

length-dedup_from :
    (ids : List String) (pos : ℕ) (cs : List IssueKeyObject)
    → length (dedup_from ids pos cs) ≤ length cs
unfolding dedup_from
length-dedup_from ids pos [] = omega arith
length-dedup_from ids pos (c ∷ cs) = let ih = length-dedup_from ids (suc pos) cs in ground arith

-- The portions of the commits: joined, they are all commits in order, less those whose id an earlier
-- commit has (a fold that remembers the ids seen so far), none has more than 400, and no two commits in them have one id.
pub commit_chunks-portions :
    (commits : List IssueKeyObject)
    → (concat (commit_chunks commits) ≡ keep_first [] commits)
      × (All (λ c. length c ≤ portion) (commit_chunks commits)
          × IsDistinct (ids_of (concat (commit_chunks commits))))
unfolding commit_chunks dedup_commits
commit_chunks-portions commits =
    let enough = length-dedup_from (ids_of commits) 0 commits in
    let joined =
      chunks-concat (suc (length commits)) (dedup_commits commits) (omega (arith, enough)) in
    (
      joined ∙ dedup_from-keep_first [] commits,
      (
        chunks_le (suc (length commits)) (dedup_commits commits),
        subst (λ cs. IsDistinct (ids_of cs)) (sym joined) (dedup_from-IsFresh [] commits).1,
      ),
    )
