-- ===== src/Sync/Pages/Alerts/Walk.antt =====
-- All pages of a repository's alerts: what Jira gets when a task for alerts runs page by page
-- (src/sync/code-scanning-alerts.ts, dependabot-alerts.ts, secret-scanning-alerts.ts).
use github_for_jira.Base.{
  ℕ, zero, suc, ◌+◌, ◌-◌, ◌*◌, ◌≤◌, ◌<◌, ◌≡◌, refl, sym, ap, ◌∙◌, ◌⊎◌, inl, inr, Bool, true, false,
  List, [], ◌∷◌, ◌++◌, map, Option, none, some, arith, ltb, is_empty, Bool-cases, take, drop,
  length, length-drop, take-append-drop, last?, get_or, map_option, All, All-map, and-elim, subst,
}
use github_for_jira.Sync.Cursor.{
  SerialisedCursor, missing, json, new_cursor, scale, copy_with_page_no, serialise,
}
use github_for_jira.Sync.Pages.Joining.{append_assoc, drop-drop}
use github_for_jira.Sync.Pages.Builds.Walk.{scale_json, scale_missing}
use github_for_jira.Transforms.Repository.{TransformError}
use github_for_jira.Transforms.Alerts.{Vulnerability}
use github_for_jira.Sync.Pages.Alerts.{
  FetchError, AlertPage, last_page, page_of_alerts, get_alert_task, are_all_earlier_than_from_date,
}

abbrev pub sent_before :
    List Vulnerability → TransformError ⊎ List Vulnerability → TransformError ⊎ List Vulnerability
sent_before vs (inl e) = inl e
sent_before vs (inr rest) = inr (vs ++ rest)

-- The vulnerabilities that Jira gets when a task is run again and again, each time with the cursor of the
-- last edge before, until there is no edge; `none`: there are still edges after that many rounds.
pub backfill_alerts :
    (SerialisedCursor → TransformError ⊎ AlertPage)
    → ℕ
    → SerialisedCursor
    → Option (TransformError ⊎ List Vulnerability)
backfill_alerts task zero cursor = none
backfill_alerts task (suc fuel) cursor = elim (task cursor) [
  | inl e ↦ some (inl e)
  | inr page ↦ elim (last? page.cursors) [
    | none ↦ some (inr (get_or page.vulnerabilities []))
    | some next ↦
        map_option (sent_before (get_or page.vulnerabilities [])) (backfill_alerts task fuel next)
  ]
]

abbrev pub is_earlier : Option ℕ → ℕ → Bool
is_earlier none time = false
is_earlier (some from_date) time = ltb time from_date

list_cases : {A : Type 0} (xs : List A) → (xs ≡ []) ⊎ ((x : A) × (ys : List A) × (xs ≡ x ∷ ys))
list_cases [] = inl refl
list_cases (x ∷ xs) = inr (x, xs, refl)

map-append : {A B : Type 0} (f : A → B) (xs ys : List A) → map f (xs ++ ys) ≡ map f xs ++ map f ys
map-append f [] ys = refl
map-append f (x ∷ xs) ys = ap (λ zs. f x ∷ zs) (map-append f xs ys)

empty_page : {A : Type 0} (p : ℕ) (xs : List A) → xs ≡ [] → is_empty (take p xs) ≡ true
empty_page zero xs e = refl
empty_page (suc p) [] e = refl
empty_page (suc p) (x ∷ xs) e = absurd (cc)

full_page :
    {A : Type 0} (p : ℕ) (xs : List A) (x : A) (ys : List A)
    → 0 < p
    → xs ≡ x ∷ ys
    → is_empty (take p xs) ≡ false
full_page zero xs x ys h e = absurd (omega arith)
full_page (suc p) [] x ys h e = absurd (cc)
full_page (suc p) (z ∷ xs) x ys h e = refl

module _ {A : Type 0} (created_at : A → ℕ) where
  -- GitHub's order of alerts, `sort: "created"` and `direction: "desc"`.
  abbrev pub IsNewestFirst : List A → Type 0
  IsNewestFirst [] = Unit
  IsNewestFirst (a ∷ alerts) = All (λ b. created_at b ≤ created_at a) alerts × IsNewestFirst alerts

  -- GitHub lists alerts, newest first, in pages of `p`.
  pub record IsListing (p : ℕ) (alerts : List A) (fetch : ℕ → ℕ → FetchError ⊎ List A)
      : Type 0 where
    pub newest_first : IsNewestFirst alerts
    pub listed : (page_no : ℕ) → fetch p page_no ≡ inr (take p (drop ((page_no - 1) * p) alerts))

  -- The backfill of some alerts ends and sends a first part of them, in order and each once, and what it does not send
  -- was created before the start date.
  abbrev pub IsSent :
      Option ℕ
      → (A → Vulnerability)
      → List A
      → Option (TransformError ⊎ List Vulnerability)
      → Type 0
  IsSent from_date vulnerability alerts result =
      (sent : List A) × (rest : List A) × (alerts ≡ sent ++ rest)
      × All (λ a. is_earlier from_date (created_at a) ≡ true) rest
      × (result ≡ some (inr (map vulnerability sent)))

  IsNewestFirst-drop :
      (n : ℕ) (alerts : List A) → IsNewestFirst alerts → IsNewestFirst (drop n alerts)
  IsNewestFirst-drop zero alerts h = h
  IsNewestFirst-drop (suc n) [] h = tt
  IsNewestFirst-drop (suc n) (a ∷ alerts) (h, k) = IsNewestFirst-drop n alerts k

  -- If a page is earlier than the start date, so is all that comes after it.
  all_earlier :
      (from_date : Option ℕ) (p : ℕ) (transform : List A → Option (List Vulnerability)) (a : A)
      (alerts : List A)
      → 0 < p
      → IsNewestFirst (a ∷ alerts)
      → are_all_earlier_than_from_date created_at transform (take p (a ∷ alerts)) from_date ≡ true
      → All (λ b. is_earlier from_date (created_at b) ≡ true) (a ∷ alerts)
  all_earlier none p transform a alerts h k e = absurd (cc)
  all_earlier (some d) zero transform a alerts h k e = absurd (omega arith)
  all_earlier (some d) (suc p) transform a alerts h (k, _) e =
      let first = (and-elim (ltb (created_at a) d) _ e).0 in
      (first, All-map (λ b (le : created_at b ≤ created_at a). ground arith) alerts k)

  module _ (p : ℕ) (0<p : 0 < p) (alerts : List A) (fetch : ℕ → ℕ → FetchError ⊎ List A)
      (listing : IsListing p alerts fetch) (vulnerability : A → Vulnerability)
      (transform : List A → Option (List Vulnerability))
      (transforms : (l : List A) → transform l ≡ some (map vulnerability l))
      (is_over : FetchError → Bool) (from_date : Option ℕ) where
    abbrev task : SerialisedCursor → TransformError ⊎ AlertPage
    task cursor = get_alert_task created_at transform is_over fetch cursor p from_date

    -- What is left from page `j + 1` on.
    abbrev rest_at : ℕ → List A
    rest_at j = drop (j * p) alerts

    rest_at-suc : (j : ℕ) → rest_at (j + 1) ≡ drop p (rest_at j)
    rest_at-suc j =
        let e : (j + 1) * p ≡ j * p + p = omega arith in
        ap (λ k. drop k alerts) e ∙ sym (drop-drop p (j * p) alerts)

    task_at :
        (j : ℕ) (cursor : SerialisedCursor)
        → scale p (new_cursor cursor) ≡ record { per_page = p; page_no = j + 1 }
        → task cursor
          ≡ page_of_alerts created_at transform from_date (json p (j + 1 + 1)) (take p (rest_at j))
    unfolding get_alert_task copy_with_page_no serialise
    task_at j cursor at_j =
        let e : j + 1 - 1 ≡ j = omega arith in
        let page = listing.listed (j + 1) ∙ ap (λ k. inr (take p (drop (k * p) alerts))) e in
        let next = ap (λ c. serialise (copy_with_page_no (c.page_no + 1) c)) at_j in
        rw (at_j, get_alert_task)
          (rw page
            (ap (λ n. page_of_alerts created_at transform from_date n (take p (rest_at j))) next))

    page_last :
        (next : SerialisedCursor) (xs : List A)
        → (is_empty xs ≡ true)
          ⊎ (are_all_earlier_than_from_date created_at transform xs from_date ≡ true)
        → page_of_alerts created_at transform from_date next xs ≡ inr last_page
    unfolding page_of_alerts
    page_last next xs (inl e) = rw e refl
    page_last next xs (inr e) = elim (Bool-cases (is_empty xs)) [
      | inl h ↦ rw h refl
      | inr h ↦ rw h (rw e refl)
    ]

    page_next :
        (next : SerialisedCursor) (xs : List A)
        → is_empty xs ≡ false
        → are_all_earlier_than_from_date created_at transform xs from_date ≡ false
        → page_of_alerts created_at transform from_date next xs
          ≡ inr (record { cursors = next ∷ []; vulnerabilities = some (map vulnerability xs) })
    unfolding page_of_alerts
    page_next next xs h e = rw h (rw e (rw (transforms xs) refl))

    last-IsSent :
        (fuel j : ℕ) (cursor : SerialisedCursor)
        → task cursor ≡ inr last_page
        → All (λ a. is_earlier from_date (created_at a) ≡ true) (rest_at j)
        → IsSent from_date vulnerability (rest_at j) (backfill_alerts task (suc fuel) cursor)
    unfolding backfill_alerts
    last-IsSent fuel j cursor ended early =
        ([], rest_at j, refl, early, rw (ended, backfill_alerts) refl)

    next-IsSent :
        (fuel j : ℕ) (cursor next : SerialisedCursor)
        → task cursor
          ≡ inr (record {
            cursors = next ∷ [];
            vulnerabilities = some (map vulnerability (take p (rest_at j)));
          })
        → IsSent from_date vulnerability (rest_at (j + 1)) (backfill_alerts task fuel next)
        → IsSent from_date vulnerability (rest_at j) (backfill_alerts task (suc fuel) cursor)
    unfolding backfill_alerts
    next-IsSent fuel j cursor next page (sent, rest, split, early, done) =
        let xs = take p (rest_at j) in
        (
          xs ++ sent,
          rest,
          sym (take-append-drop p (rest_at j))
              ∙ ap (λ l. xs ++ l) (sym (rest_at-suc j) ∙ split)
              ∙ sym (append_assoc xs sent rest),
          early,
          rw (page, backfill_alerts)
              (rw done (ap (λ vs. some (inr vs)) (sym (map-append vulnerability xs sent)))),
        )

    backfill_from :
        (fuel j : ℕ) (cursor : SerialisedCursor)
        → scale p (new_cursor cursor) ≡ record { per_page = p; page_no = j + 1 }
        → length (rest_at j) < fuel
        → IsSent from_date vulnerability (rest_at j) (backfill_alerts task fuel cursor)
    backfill_from zero j cursor at_j enough = absurd (omega arith)
    backfill_from (suc fuel) j cursor at_j enough =
        let page = take p (rest_at j) in
        let fetched = task_at j cursor at_j in
        elim (list_cases (rest_at j)) [
          | inl ended ↦
              last-IsSent fuel j cursor (fetched ∙ page_last _ page (inl (empty_page p _ ended)))
                (rw ended tt)
          | inr (a, l, more) ↦
              let newest = rw more at (IsNewestFirst-drop (j * p) alerts listing.newest_first) in
              elim (Bool-cases
                (are_all_earlier_than_from_date created_at transform page from_date)) [
                  | inl earlier ↦
                      let e = rw more at earlier in
                      last-IsSent fuel j cursor (fetched ∙ page_last _ page (inr earlier))
                        (rw more (all_earlier from_date p transform a l 0<p newest e))
                  | inr later ↦
                      let fewer : length (rest_at (j + 1)) < fuel =
                        let n = ap length more in
                        let d = ap length (rest_at-suc j) ∙ length-drop p (rest_at j) in
                        omega (arith, d, n, 0<p, enough) in
                      next-IsSent fuel j cursor _
                        (fetched ∙ page_next _ page (full_page p _ a l 0<p more) later)
                        (backfill_from fuel (j + 1) _ (scale_json p (j + 1)) fewer)
                ]
        ]

    pub backfill_alerts-IsSent :
        IsSent from_date vulnerability alerts (backfill_alerts task (suc (length alerts)) missing)
    backfill_alerts-IsSent =
        let z : 0 * p ≡ 0 = omega arith in
        let all_ : rest_at 0 ≡ alerts = ap (λ k. drop k alerts) z in
        let l = ap length all_ in
        subst
          (λ xs.
            IsSent from_date vulnerability xs (backfill_alerts task (suc (length alerts)) missing))
          all_
          (backfill_from (suc (length alerts)) 0 missing (scale_missing p 0<p) (omega (arith, l)))
