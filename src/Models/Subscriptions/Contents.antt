-- ===== src/Models/Subscriptions/Contents.antt =====
-- The table of subscriptions as a set of installations (src/models/subscription.ts).
use github_for_jira.Base.{
  ℕ, ◌≤◌, ◌≡◌, refl, sym, ap, ◌∙◌, inl, inr, Bool, true, ◌||◌, ◌&&◌, not, List, [], ◌∷◌, String,
  Option, none, some, arith, ◌==◌, ==_iff, ◌=s=◌, eq_iff, Bool-cases, Option-cases, subst,
  length-append, any, find, filter, and-elim, length,
}
use github_for_jira.Models.Subscriptions.Rows.{
  any-find-none, any-find-some, any-append, filter-append, filter-none, or_swap,
  length-filter-filter, find-holds, find-filter-not,
}
use github_for_jira.Models.Subscriptions.{
  SubscriptionRow, SubscriptionInstallPayload, SubscriptionPayload, or_null, same_id,
  is_installed_by, is_uninstalled_by, new_row, install, uninstall, find_installation,
}

-- What identifies an installation.
pub record Installation : Type 0 where
  pub installation_id : ℕ
  pub host : String
  pub client_key : String
  pub app_id : Option ℕ

abbrev pub same : Installation → Installation → Bool
same a b =
    (a.installation_id == b.installation_id)
    && ((a.host =s= b.host) && ((a.client_key =s= b.client_key) && same_id a.app_id b.app_id))

abbrev pub installation_of : SubscriptionRow → Installation
installation_of r = record {
  installation_id = r.github_installation_id;
  host = r.jira_host;
  client_key = r.jira_client_key;
  app_id = r.github_app_id;
}

abbrev pub asked_for : SubscriptionInstallPayload → Installation
asked_for p = record {
  installation_id = p.installation_id;
  host = p.host;
  client_key = p.hashed_client_key;
  app_id = or_null p.github_app_id;
}

-- How many rows an installation has.
abbrev pub count : Installation → List SubscriptionRow → ℕ
count i rows = length (filter (λ r. same (installation_of r) i) rows)

abbrev pub holds : Installation → List SubscriptionRow → Bool
holds i rows = any (λ r. same (installation_of r) i) rows

same_id-eq : (a b : Option ℕ) → same_id a b ≡ true → a ≡ b
same_id-eq none none h = refl
same_id-eq none (some n) h = absurd (cc)
same_id-eq (some m) none h = absurd (cc)
same_id-eq (some m) (some n) h = ap some ((==_iff m n).0 h)

same_id_refl : (a : Option ℕ) → same_id a a ≡ true
same_id_refl none = refl
same_id_refl (some n) = (==_iff n n).1 refl

same-eq : (a b : Installation) → same a b ≡ true → a ≡ b
same-eq a b h =
    let (ids, rest) = and-elim _ _ h in
    let (hosts, rest2) = and-elim _ _ rest in
    let (keys, apps) = and-elim _ _ rest2 in
    let e1 = (==_iff a.installation_id b.installation_id).0 ids in
    let e2 = (eq_iff a.host b.host).0 hosts in
    let e3 = (eq_iff a.client_key b.client_key).0 keys in
    let e4 = same_id-eq a.app_id b.app_id apps in
    λ i. record { installation_id = e1 i; host = e2 i; client_key = e3 i; app_id = e4 i }

same_refl : (a : Installation) → same a a ≡ true
same_refl a =
    (let e = (==_iff a.installation_id a.installation_id).1 refl in
      let h = (eq_iff a.host a.host).1 refl in
      let k = (eq_iff a.client_key a.client_key).1 refl in rw (e, h, k) (same_id_refl a.app_id))

-- `install` adds the installation, if it is not there, and no other.
holds-install :
    (i : Installation) (id : ℕ) (p : SubscriptionInstallPayload) (rows : List SubscriptionRow)
    → holds i (install id p rows).1 ≡ (same (asked_for p) i || holds i rows)
unfolding install
holds-install i id p rows = elim (Option-cases (find (is_installed_by p) rows)) [
  | inl missing ↦
      rw (missing, install)
        (any-append (λ r. same (installation_of r) i) rows (new_row id p ∷ [])
          ∙ or_swap (holds i rows) (same (asked_for p) i))
  | inr (r, there) ↦
      rw (there, install)
        (elim (Bool-cases (same (asked_for p) i)) [
          | inl asked ↦
              let e = same-eq (asked_for p) i asked in
              rw asked (
                subst (λ j. holds j rows ≡ true) e (any-find-some (is_installed_by p) rows r there))
          | inr other ↦ rw other refl
        ])
]

-- The rows of an uninstalled installation are those of its app and host, with any client key.
abbrev pub is_covered : SubscriptionPayload → Installation → Bool
is_covered p i =
    (i.installation_id == p.installation_id)
    && ((i.host =s= p.host) && same_id i.app_id (or_null p.github_app_id))

holds-uninstall :
    (i : Installation) (p : SubscriptionPayload) (rows : List SubscriptionRow)
    → holds i (uninstall p rows) ≡ (not (is_covered p i) && holds i rows)
unfolding uninstall
holds-uninstall i p [] = ground arith
holds-uninstall i p (r ∷ rows) =
    let ih = holds-uninstall i p rows in
    elim (Bool-cases (same (installation_of r) i)) [
      | inl this ↦
          let e = ap (is_covered p) (same-eq (installation_of r) i this) in
          elim (Bool-cases (is_uninstalled_by p r)) [
            | inl gone ↦ let c = sym e ∙ gone in rw (gone, c) (rw c at ih)
            | inr kept ↦ let c = sym e ∙ kept in rw (kept, c, this) refl
          ]
      | inr other ↦ elim (Bool-cases (is_uninstalled_by p r)) [
        | inl gone ↦ rw (gone, other) ih
        | inr kept ↦ rw (kept, other) ih
      ]
    ]

count-install :
    (i : Installation) (id : ℕ) (p : SubscriptionInstallPayload) (rows : List SubscriptionRow)
    → count i rows ≤ 1
    → count i (install id p rows).1 ≤ 1
unfolding install
count-install i id p rows h = elim (Option-cases (find (is_installed_by p) rows)) [
  | inl missing ↦
      let f = λ (r : SubscriptionRow). same (installation_of r) i in
      let parts = ap length (filter-append f rows (new_row id p ∷ [])) in
      elim (Bool-cases (same (asked_for p) i)) [
        | inl asked ↦
            let e = same-eq (asked_for p) i asked in
            let none_ : filter f rows ≡ [] =
              subst (λ j. filter (λ (r : SubscriptionRow). same (installation_of r) j) rows ≡ []) e
                (filter-none (is_installed_by p) rows
                  (any-find-none (is_installed_by p) rows missing)) in
            rw (missing, install) (rw (parts, none_, asked) (omega arith))
        | inr other ↦
            rw (missing, install)
              (let l = length-append (filter f rows) [] in rw (parts, other) (omega (arith, l, h)))
      ]
  | inr (r, there) ↦ rw (there, install) h
]

count-uninstall :
    (i : Installation) (q : SubscriptionPayload) (rows : List SubscriptionRow)
    → count i rows ≤ 1
    → count i (uninstall q rows) ≤ 1
unfolding uninstall
count-uninstall i q rows h =
    let l =
      length-filter-filter (λ r. same (installation_of r) i) (λ r. not (is_uninstalled_by q r))
        rows in
    omega (arith, l, h)

returned :
    (id : ℕ) (p : SubscriptionInstallPayload) (rows : List SubscriptionRow)
    → same (installation_of (install id p rows).0) (asked_for p) ≡ true
unfolding install
returned id p rows = elim (Option-cases (find (is_installed_by p) rows)) [
  | inl missing ↦ rw (missing, install) (same_refl (asked_for p))
  | inr (r, there) ↦ rw (there, install) (find-holds (is_installed_by p) rows r there)
]

find_installation-uninstall :
    (q : SubscriptionPayload) (rows : List SubscriptionRow)
    → find_installation q.host q.installation_id q.github_app_id (uninstall q rows) ≡ none
unfolding find_installation uninstall
find_installation-uninstall q rows = elim (Bool-cases (q.installation_id == 0)) [
  | inl zero_ ↦ rw zero_ refl
  | inr other ↦ rw other (find-filter-not (is_uninstalled_by q) rows)
]

-- The table is the set of the installations that it holds. Installing adds the installation that is asked
-- for, which the row that is returned is of, and no other. Uninstalling removes the installations of the
-- host, the installation id and the app, whatever their client key, and no other, and no row of theirs is
-- found afterwards. An installation that has one row at most has one at most after either.
pub install-uninstall-contents :
    (i : Installation) (id : ℕ) (p : SubscriptionInstallPayload) (q : SubscriptionPayload)
    (rows : List SubscriptionRow)
    → count i rows ≤ 1
    → (holds i (install id p rows).1 ≡ (same (asked_for p) i || holds i rows))
      × (holds i (uninstall q rows) ≡ (not (is_covered q i) && holds i rows))
      × (count i (install id p rows).1 ≤ 1)
      × (count i (uninstall q rows) ≤ 1)
      × (same (installation_of (install id p rows).0) (asked_for p) ≡ true)
      × (find_installation q.host q.installation_id q.github_app_id (uninstall q rows) ≡ none)
install-uninstall-contents i id p q rows h = (
  holds-install i id p rows,
  holds-uninstall i q rows,
  count-install i id p rows h,
  count-uninstall i q rows h,
  returned id p rows,
  find_installation-uninstall q rows,
)
