-- ===== src/Github/Tokens/Tests.antt =====
-- The theorems on tokens at a concrete cache, which keeps the entries that were set last.
use github_for_jira.Base.{
  ℕ, suc, zero, ◌+◌, ◌≤◌, ◌≡◌, ◌≢◌, refl, ap, ◌⊎◌, inl, inr, true, false, List, [], ◌∷◌, Option,
  none, some, if◌then◌else◌, Bool-cases, take, get_or, Text, codes, text_eq, text_eq_refl,
  text_eq-eq, sym, ◌∙◌,
}
use github_for_jira.Github.Errors.{Error}
use github_for_jira.Github.InstallationId.{InstallationId, to_string, from_string}
use github_for_jira.Github.InstallationId.RoundTrip.{from_string-to_string}
use github_for_jira.Github.Tokens.{
  AuthToken, LruCache, one_minute, Reach, store, here, next, get_installation_token, store_token,
}
use github_for_jira.Github.Tokens.Invariant.{get_installation_token-Issued}

abbrev Entries : Type 0
Entries = List (Text × AuthToken)

abbrev lookup : Text → Entries → Option AuthToken
lookup k [] = none
lookup k ((j, v) ∷ c) = let rest = lookup k c in if text_eq j k then some v else rest

lookup-set :
    (j k : Text) (u v : AuthToken) (c : Entries)
    → lookup k ((j, u) ∷ c) ≡ some v
    → ((j ≡ k) × (u ≡ v)) ⊎ ((j ≢ k) × (lookup k c ≡ some v))
lookup-set j k u v c h = elim (Bool-cases (text_eq j k)) [
  | inl e ↦ let h' = rw e at h in inl (text_eq-eq j k e, ap (λ o. get_or o u) h')
  | inr e ↦ let h' = rw e at h in inr ((λ same. differs same e), h')
]
  where
    differs : (_ : j ≡ k) → text_eq j k ≡ false → ⊥
    differs same e = let t : true ≡ false = sym (text_eq_refl j) ∙ ap (text_eq j) same ∙ e in cc

lookup-take :
    (n : ℕ) (k : Text) (v : AuthToken) (c : Entries)
    → lookup k (take n c) ≡ some v
    → lookup k c ≡ some v
lookup-take zero k v c h = absurd (let e : none ≡ some v = h in cc)
lookup-take (suc n) k v [] h = h
lookup-take (suc n) k v ((j, u) ∷ c) h = elim (Bool-cases (text_eq j k)) [
  | inl e ↦ let h' = rw e at h in rw e h'
  | inr e ↦ let h' = rw e at h in rw e (lookup-take n k v c h')
]

nothing_held : (k : Text) (v : AuthToken) → lookup k [] ≡ some v → ⊥
nothing_held k v h = cc

abbrev entries : LruCache
entries = record {
  Cache = Entries;
  empty = [];
  get = (λ now k c. (lookup k c, c));
  set = (λ now k v age c. (k, v) ∷ c);
  reset = (λ c. []);
  set_max = (λ n c. take n c);
  Holds = (λ k v c. lookup k c ≡ some v);
  holds_empty = (λ k v h. nothing_held k v h);
  holds_get = (λ now k v c h. h);
  get_keeps = (λ now j k v c h. h);
  set_holds = (λ now j k u v age c h. lookup-set j k u v c h);
  holds_reset = (λ k v c h. nothing_held k v h);
  set_max_keeps = (λ n k v c h. lookup-take n k v c h);
}

abbrev token_of : ℕ → AuthToken
token_of n = record { token = "t"; expiration_date = n }

-- GitHub issues tokens that end with the number of the installation.
abbrev IssuedFor : ℕ → Option ℕ → AuthToken → Type 0
IssuedFor i a t = t ≡ token_of i

abbrev two_installations : Entries
two_installations =
    (store_token entries 0 (inr (token_of 900000)) 900000 none
      (store_token entries 0 (inr (token_of 7)) 7 (some 2) []).1).1

two_installations-Reach : Reach entries IssuedFor [] two_installations
two_installations-Reach =
    next (next here (store 0 7 (some 2) (token_of 7) [] refl))
      (store 0 900000 none (token_of 900000) _ refl)

get_installation_token-Issued_example :
    ((t : AuthToken) × ((get_installation_token entries 1000 2000
          (inr (token_of 7))
          (λ c. c)
          7
          (some 2)
          two_installations).0
        ≡ inr t)
      × IssuedFor 7 (some 2) t
      × ((1000 + one_minute ≤ t.expiration_date)
          ⊎ (◌≡◌ {A = Error ⊎ AuthToken} (inr (token_of 7)) (inr t))))
    ⊎ ((e : Error) × ((get_installation_token entries 1000 2000
            (inr (token_of 7))
            (λ c. c)
            7
            (some 2)
            two_installations).0
          ≡ inl e)
        × (◌≡◌ {A = Error ⊎ AuthToken} (inr (token_of 7)) (inl e)))
get_installation_token-Issued_example =
    get_installation_token-Issued entries IssuedFor 1000 2000 7 (some 2) (inr (token_of 7)) (λ c. c)
      two_installations answer_seven two_installations-Reach
  where
    answer_seven :
        (t : AuthToken) (h : ◌≡◌ {A = Error ⊎ AuthToken} (inr (token_of 7)) (inr t))
        → t ≡ token_of 7
    answer_seven t h = cc

abbrev on_a_server : InstallationId
on_a_server = record {
  github_base_url = codes "https://ghe.example.com";
  app_id = 12;
  installation_id = 3456;
}

from_string-to_string_example : from_string (to_string on_a_server) ≡ some on_a_server
from_string-to_string_example = from_string-to_string on_a_server refl refl
