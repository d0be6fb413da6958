-- ===== src/Models/Subscriptions/Tests.antt =====
-- The theorem on subscriptions at a concrete table.
use github_for_jira.Base.{◌≡◌, ◌≤◌, refl, true, ◌||◌, ◌&&◌, not, List, [], ◌∷◌, none, some, arith}
use github_for_jira.Models.Subscriptions.{
  SubscriptionRow, SubscriptionInstallPayload, SubscriptionPayload, new_row, install, uninstall,
  find_installation,
}
use github_for_jira.Models.Subscriptions.Contents.{
  Installation, same, installation_of, asked_for, holds, count, is_covered,
  install-uninstall-contents,
}

abbrev payload : SubscriptionInstallPayload
payload = record {
  installation_id = 1;
  host = "https://x.atlassian.net";
  hashed_client_key = "new";
  github_app_id = some 0;
}

abbrev old_row : SubscriptionRow
old_row = new_row 1 (record payload { hashed_client_key = "old" })

abbrev rows : List SubscriptionRow
rows = old_row ∷ []

abbrev removal : SubscriptionPayload
removal = record { installation_id = 1; host = "https://x.atlassian.net"; github_app_id = none }

abbrev installation : Installation
installation = asked_for payload

-- an installation with a new client key gets a row of its own, and both are removed together
reinstalled : (install 2 payload rows).1 ≡ old_row ∷ new_row 2 payload ∷ []
unfolding install
reinstalled = refl

removed_both : uninstall removal (old_row ∷ new_row 2 payload ∷ []) ≡ []
unfolding uninstall
removed_both = refl

install-uninstall-contents_example :
    (holds installation (install 2 payload rows).1
      ≡ (same (asked_for payload) installation || holds installation rows))
    × (holds installation (uninstall removal rows)
        ≡ (not (is_covered removal installation) && holds installation rows))
    × (count installation (install 2 payload rows).1 ≤ 1)
    × (count installation (uninstall removal rows) ≤ 1)
    × (same (installation_of (install 2 payload rows).0) (asked_for payload) ≡ true)
    × (find_installation removal.host removal.installation_id removal.github_app_id
          (uninstall removal rows)
        ≡ none)
install-uninstall-contents_example =
    install-uninstall-contents installation 2 payload removal rows (omega arith)
