-- ===== src/Models/Subscriptions.antt =====
-- The installing and uninstalling of subscriptions in src/models/subscription.ts. A row has the columns that
-- these operations read and write; the table is a list of rows, and the id that the database gives a new
-- row is a parameter.
pub mod Rows
pub mod Contents
mod Tests
use github_for_jira.Base.{
  ℕ, Bool, true, false, ◌&&◌, not, List, [], ◌∷◌, ◌++◌, String, Option, none, some, ◌==◌, ◌=s=◌,
  if◌then◌else◌, find, filter,
}

pub record SubscriptionRow : Type 0 where
  pub id : ℕ
  pub github_installation_id : ℕ
  pub jira_host : String
  pub jira_client_key : String
  pub github_app_id : Option ℕ

pub record SubscriptionInstallPayload : Type 0 where
  pub installation_id : ℕ
  pub host : String
  pub hashed_client_key : String
  pub github_app_id : Option ℕ

pub record SubscriptionPayload : Type 0 where
  pub installation_id : ℕ
  pub host : String
  pub github_app_id : Option ℕ

-- `n || null`
abbrev pub or_null : Option ℕ → Option ℕ
or_null none = none
or_null (some n) = if n == 0 then none else some n

abbrev pub same_id : Option ℕ → Option ℕ → Bool
same_id none none = true
same_id none (some n) = false
same_id (some m) none = false
same_id (some m) (some n) = m == n

abbrev pub is_installed_by : SubscriptionInstallPayload → SubscriptionRow → Bool
is_installed_by p r =
    (r.github_installation_id == p.installation_id)
    && ((r.jira_host =s= p.host)
        && ((r.jira_client_key =s= p.hashed_client_key)
            && same_id r.github_app_id (or_null p.github_app_id)))

abbrev pub is_uninstalled_by : SubscriptionPayload → SubscriptionRow → Bool
is_uninstalled_by p r =
    (r.github_installation_id == p.installation_id)
    && ((r.jira_host =s= p.host) && same_id r.github_app_id (or_null p.github_app_id))

abbrev pub new_row : ℕ → SubscriptionInstallPayload → SubscriptionRow
new_row id p = record {
  id = id;
  github_installation_id = p.installation_id;
  jira_host = p.host;
  jira_client_key = p.hashed_client_key;
  github_app_id = or_null p.github_app_id;
}

-- `findOrCreate`: the row and the table.
unfoldable pub install :
    ℕ → SubscriptionInstallPayload → List SubscriptionRow → SubscriptionRow × List SubscriptionRow
install id p rows = elim (find (is_installed_by p) rows) [
  | some r ↦ (r, rows)
  | none ↦ (new_row id p, rows ++ (new_row id p ∷ []))
]

unfoldable pub uninstall : SubscriptionPayload → List SubscriptionRow → List SubscriptionRow
uninstall p rows = filter (λ r. not (is_uninstalled_by p r)) rows

-- `installationId || null` finds no row for 0, since every row has an installation.
unfoldable pub find_installation :
    String → ℕ → Option ℕ → List SubscriptionRow → Option SubscriptionRow
find_installation host installation_id github_app_id rows =
    if installation_id == 0
    then none
    else find
        (is_uninstalled_by (record {
          installation_id = installation_id;
          host = host;
          github_app_id = github_app_id;
        }))
        rows
