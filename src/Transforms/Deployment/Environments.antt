-- ===== src/Transforms/Deployment/Environments.antt =====
-- The states and environments that src/transforms/transform-deployment.ts can send to Jira.
use github_for_jira.Base.{
  map_option, ℕ, ◌≡◌, refl, ap, inl, inr, Bool, true, false, ◌||◌, List, [], ◌∷◌, ◌++◌, String,
  Option, none, some, arith, ◌=s=◌, if◌then◌else◌, Bool-cases, Option-cases, last?, any, All,
  and_then, is_some, get_or, get_elem?,
}
use github_for_jira.Transforms.Deployment.{
  map_state, Config, map_environment_with_config, valid_envs, environment_mapping,
  map_environment_by_name, truthy_type, map_environment, Deployment, last_successful,
  get_last_successful_deploy_commit_sha,
}

-- What Jira's deployments API takes as a state and as the type of an environment.
abbrev pub jira_states : List String
jira_states =
    "unknown" ∷ "pending" ∷ "in_progress" ∷ "cancelled" ∷ "failed" ∷ "rolled_back" ∷ "successful"
    ∷ []

abbrev pub jira_environments : List String
jira_environments = "unmapped" ∷ "development" ∷ "testing" ∷ "staging" ∷ "production" ∷ []

abbrev pub is_among : List String → String → Bool
is_among names t = any (λ v. v =s= t) names

state_among :
    (a b c d : Bool)
    → is_among jira_states (
        if a
        then "pending"
        else if b
        then "in_progress"
        else if c
        then "successful"
        else if d
        then "failed"
        else "unknown")
      ≡ true
state_among true b c d = refl
state_among false true c d = refl
state_among false false true d = refl
state_among false false false true = refl
state_among false false false false = refl

-- Every state, also one that GitHub does not document, becomes a state that Jira knows.
pub map_state-is_among :
    (to_lower_case : String → String) (state : Option String)
    → is_among jira_states (map_state to_lower_case state) ≡ true
unfolding map_state
map_state-is_among to_lower_case none = refl
map_state-is_among to_lower_case (some state) =
    let s = to_lower_case state in
    state_among (s =s= "queued" || s =s= "waiting") (s =s= "pending" || s =s= "in_progress")
      (s =s= "success") (s =s= "error" || s =s= "failure")

by_name-is_among :
    (names_match : List String → String → Bool) (environment : String)
    → is_among jira_environments (map_environment_by_name names_match environment) ≡ true
unfolding map_environment_by_name
by_name-is_among names_match environment =
    found (names_match (names 0) environment) (names_match (names 1) environment)
      (names_match (names 2) environment) (names_match (names 3) environment)
  where
    names : ℕ → List String
    names n = elim (get_elem? environment_mapping n) [ none ↦ [] | some e ↦ e.1 ]

    found :
        (a b c d : Bool)
        → is_among jira_environments (
            get_or
              (map_option
                (λ (e : String × List String). e.0)
                (if a
                  then some ("development", names 0)
                  else if b
                  then some ("testing", names 1)
                  else if c
                  then some ("staging", names 2)
                  else if d
                  then some ("production", names 3)
                  else none))
              "unmapped")
          ≡ true
    found true b c d = refl
    found false true c d = refl
    found false false true d = refl
    found false false false true = refl
    found false false false false = refl

unmapped_too : (t : String) → (("unmapped" =s= t) || true) ≡ true
unmapped_too t = ground arith

-- Every environment, whatever the user's configuration says, gets a type that Jira knows.
pub map_environment-is_among :
    (minimatch : String → String → Bool) (names_match : List String → String → Bool)
    (environment : String) (config : Option Config)
    → is_among jira_environments (map_environment minimatch names_match environment config) ≡ true
unfolding map_environment
map_environment-is_among minimatch names_match environment config =
    elim (Option-cases
      (and_then config (λ c. truthy_type (map_environment_with_config minimatch environment c)))) [
        | inl none_ ↦ rw (none_, map_environment) (by_name-is_among names_match environment)
        | inr (t, some_) ↦ elim (Bool-cases (any (λ v. v =s= t) valid_envs)) [
          | inl valid ↦ rw (some_, map_environment) (rw valid (rw valid (unmapped_too t)))
          | inr other ↦ rw (some_, map_environment) (rw other refl)
        ]
      ]

last-some : {A : Type 0} (x : A) (xs : List A) → (y : A) × (last? (x ∷ xs) ≡ some y)
last-some x [] = (x, refl)
last-some x (y ∷ ys) = last-some y ys

-- A commit to compare with is always found in a list with a deployment in it.
pub get_last_successful_deploy_commit_sha-is_some :
    (statuses : ℕ → Option (List String)) (d : Deployment) (ds : List Deployment)
    → is_some (get_last_successful_deploy_commit_sha statuses (d ∷ ds)) ≡ true
unfolding get_last_successful_deploy_commit_sha
get_last_successful_deploy_commit_sha-is_some statuses d ds =
    let (y, e) = last-some d ds in
    elim (Option-cases (last_successful statuses (d ∷ ds))) [
      | inl none_ ↦ rw (none_, get_last_successful_deploy_commit_sha) (rw e refl)
      | inr (sha, some_) ↦ rw (some_, get_last_successful_deploy_commit_sha) refl
    ]

abbrev pub is_successful : (ℕ → Option (List String)) → Deployment → Option Bool
is_successful statuses d = map_option (λ states. any (λ s. s =s= "success") states) (statuses d.id)

last_successful-first :
    (statuses : ℕ → Option (List String)) (before : List Deployment) (d : Deployment)
    (after : List Deployment)
    → All (λ b. is_successful statuses b ≡ some false) before
    → is_successful statuses d ≡ some true
    → last_successful statuses (before ++ (d ∷ after)) ≡ some d.sha
unfolding last_successful
last_successful-first statuses [] d after failed success = elim (Option-cases (statuses d.id)) [
  | inl none_ ↦ absurd (let s = rw none_ at success in cc)
  | inr (states, some_) ↦
      let s = rw some_ at success in
      rw (some_, last_successful) (rw (ap (λ o. get_or o false) s) refl)
]
last_successful-first statuses (b ∷ before) d after (e, failed) success =
    let ih = last_successful-first statuses before d after failed success in
    elim (Option-cases (statuses b.id)) [
      | inl none_ ↦ absurd (let s = rw none_ at e in cc)
      | inr (states, some_) ↦
          let s = rw some_ at e in rw (some_, last_successful) (rw (ap (λ o. get_or o true) s) ih)
    ]

-- The commit to compare with is that of the first deployment with a successful status, if GitHub
-- answers for all of the deployments before it.
pub get_last_successful_deploy_commit_sha-first :
    (statuses : ℕ → Option (List String)) (before : List Deployment) (d : Deployment)
    (after : List Deployment)
    → All (λ b. is_successful statuses b ≡ some false) before
    → is_successful statuses d ≡ some true
    → get_last_successful_deploy_commit_sha statuses (before ++ (d ∷ after)) ≡ some d.sha
unfolding get_last_successful_deploy_commit_sha
get_last_successful_deploy_commit_sha-first statuses before d after failed success =
    rw
      (
        last_successful-first statuses before d after failed success,
        get_last_successful_deploy_commit_sha,
      )
      refl
