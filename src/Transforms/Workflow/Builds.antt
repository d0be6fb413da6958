-- ===== src/Transforms/Workflow/Builds.antt =====
-- When a build is sent to Jira, and with what (src/transforms/transform-workflow.ts).
use github_for_jira.Base.{
  ◌≤◌, ◌≡◌, refl, ◌⊎◌, inl, inr, Bool, true, false, ◌&&◌, not, List, [], Option, none, some, arith,
  if◌then◌else◌, is_empty, Bool-cases, length, length-take_le, get_or, take, Text,
}
use github_for_jira.Jira.IssueKeyParser.{issue_key_parser}
use github_for_jira.Transforms.Workflow.{
  WorkflowRun, JiraBuild, Reference, map_pull_requests, searched_text, workflow_build,
  transform_workflow,
}

references_le :
    (rs : List Reference) (b : Bool) → length (get_or (if b then none else some (take 5 rs)) []) ≤ 5
references_le rs true = omega arith
references_le rs false = length-take_le 5 rs

-- A build is sent exactly when an issue key is in the name of its branch, the message of its commit or the messages
-- of its first pull request's commits, or all are to be sent. It has these issue keys, and refers to
-- five pull requests at most.
pub transform_workflow-sent :
    (uniq : List Text → List Text) (compare : Text → Text → Text → Text → Option (List Text))
    (always_send : Bool) (run : WorkflowRun)
    → let keys = issue_key_parser uniq (searched_text compare run) in
      ((transform_workflow uniq compare always_send run ≡ none)
        × ((is_empty keys && not always_send) ≡ true))
      ⊎ ((build : JiraBuild) × (transform_workflow uniq compare always_send run ≡ some build)
          × ((is_empty keys && not always_send) ≡ false)
          × (build.issue_keys ≡ keys)
          × (length (get_or build.references []) ≤ 5))
unfolding transform_workflow workflow_build
transform_workflow-sent uniq compare always_send run =
    let keys = issue_key_parser uniq (searched_text compare run) in
    elim (Bool-cases (is_empty keys && not always_send)) [
      | inl no_keys ↦ inl (rw no_keys refl, no_keys)
      | inr has_keys ↦ inr (
        workflow_build run keys,
        rw has_keys refl,
        has_keys,
        refl,
        references_le (map_pull_requests run.pull_requests) (is_empty run.pull_requests),
      )
    ]
