-- ===== src/Github/Tokens.antt =====
-- src/github/client/auth-token.ts, app-token-holder.ts and installation-token-cache.ts: tokens for
-- GitHub, and the caches that hold them. The package lru-cache is a parameter: a record of its
-- operations with the laws that the code relies on. The signing of tokens, the lookup of a key and
-- GitHub's answer are parameters too. Times are milliseconds since the epoch. What other requests do
-- to the cache while one waits is the argument `meanwhile`. Logs and metrics are left out.
pub mod Keys
pub mod Invariant
mod Tests
use github_for_jira.Base.{
  ℕ, ◌+◌, ◌-◌, ◌*◌, ◌/◌, ◌≡◌, ◌≢◌, ◌⊎◌, inl, inr, Bool, ◌++◌, String, Option, none, some, ltb,
  ◌=s=◌, if◌then◌else◌, Text, codes, number_text,
}
use github_for_jira.Github.Errors.{Error}
use github_for_jira.Github.InstallationId.{InstallationId, to_string}

abbrev pub one_minute : ℕ
one_minute = 60 * 1000

abbrev pub nine_minutes_msec : ℕ
nine_minutes_msec = 9 * 60 * 1000

pub record AuthToken : Type 0 where
  pub token : String
  pub expiration_date : ℕ

unfoldable pub is_about_to_expire : ℕ → AuthToken → Bool
is_about_to_expire now t = ltb t.expiration_date (now + one_minute)

-- Subtraction stops at 0 as `Math.max(…, 0)` does.
unfoldable pub millis_until_about_to_expire : ℕ → AuthToken → ℕ
millis_until_about_to_expire now t = t.expiration_date - one_minute - now

-- The operations of lru-cache, and which entries a cache holds. A cache may drop entries at any
-- time; it never makes one up, and an entry that is set replaces that of the same key.
pub record LruCache : Type 1 where
  pub Cache : Type 0
  pub empty : Cache
  pub get : ℕ → Text → Cache → Option AuthToken × Cache
  pub set : ℕ → Text → AuthToken → Option ℕ → Cache → Cache
  pub reset : Cache → Cache
  pub set_max : ℕ → Cache → Cache
  pub Holds : Text → AuthToken → Cache → Type 0
  pub holds_empty : (k : Text) (v : AuthToken) → Holds k v empty → ⊥
  pub holds_get :
      (now : ℕ) (k : Text) (v : AuthToken) (c : Cache) → (get now k c).0 ≡ some v → Holds k v c
  pub get_keeps :
      (now : ℕ) (j k : Text) (v : AuthToken) (c : Cache) → Holds k v (get now j c).1 → Holds k v c
  pub set_holds :
      (now : ℕ) (j k : Text) (u v : AuthToken) (age : Option ℕ) (c : Cache)
      → Holds k v (set now j u age c)
      → ((j ≡ k) × (u ≡ v)) ⊎ ((j ≢ k) × Holds k v c)
  pub holds_reset : (k : Text) (v : AuthToken) (c : Cache) → Holds k v (reset c) → ⊥
  pub set_max_keeps :
      (n : ℕ) (k : Text) (v : AuthToken) (c : Cache) → Holds k v (set_max n c) → Holds k v c

-- The claims of an app's token, in seconds.
pub record JwtPayload : Type 0 where
  pub iat : ℕ
  pub exp : ℕ
  pub iss : Text

-- `now` and `later` are the two calls of `Date.now()`, the second one first.
unfoldable pub jwt_payload : ℕ → ℕ → Text → JwtPayload
jwt_payload now later app_id = record {
  iat = (later - one_minute) / 1000;
  exp = (now + nine_minutes_msec) / 1000;
  iss = app_id;
}

unfoldable pub create_app_jwt : (JwtPayload → String → String) → ℕ → ℕ → String → Text → AuthToken
unfolding jwt_payload
create_app_jwt encode_asymmetric now later key app_id = record {
  token = encode_asymmetric (jwt_payload now later app_id) key;
  expiration_date = now + nine_minutes_msec;
}

-- `${githubInstallationId}_${gitHubAppId}`
unfoldable pub cache_key : ℕ → Option ℕ → Text
cache_key installation_id none = number_text installation_id ++ codes "_undefined"
cache_key installation_id (some app_id) =
    number_text installation_id ++ (codes "_" ++ number_text app_id)

-- Why no app token is there: the lookup of the key failed, or it gave an empty key.
pub data TokenError : Type 0 where
  lookup_failed : Error → TokenError
  no_private_key : TokenError

module _ (lru : LruCache) where
  open lru use {Cache, get, set, reset, set_max}

  -- The new token of an app, made at `created` and stored at `later`.
  unfoldable pub renew_app_token :
      (JwtPayload → String → String)
      → ℕ
      → ℕ
      → (Error ⊎ String)
      → InstallationId
      → Cache
      → (TokenError ⊎ AuthToken) × Cache
  unfolding create_app_jwt
  renew_app_token encode_asymmetric created later (inl e) app_id cache =
      (inl (lookup_failed e), cache)
  renew_app_token encode_asymmetric created later (inr key) app_id cache =
      let t = create_app_jwt encode_asymmetric created later key (number_text app_id.app_id) in
      if key =s= ""
      then (inl no_private_key, cache)
      else (inr t, set later (to_string app_id) t none cache)

  -- `now` is the time of the call; the token in the cache is used unless it is missing or too old.
  unfoldable pub get_app_token :
      (JwtPayload → String → String)
      → ℕ
      → ℕ
      → ℕ
      → (Error ⊎ String)
      → (Cache → Cache)
      → InstallationId
      → Cache
      → (TokenError ⊎ AuthToken) × Cache
  unfolding renew_app_token is_about_to_expire to_string
  get_app_token encode_asymmetric now created later found meanwhile app_id cache =
      let (current, c) = get now (to_string app_id) cache in
      let renewed = renew_app_token encode_asymmetric created later found app_id (meanwhile c) in
      elim current [
        | none ↦ renewed
        | some t ↦ if is_about_to_expire now t then renewed else (inr t, c)
      ]

  -- What GitHub's answer to the request for a new token becomes, and the cache with it.
  unfoldable pub store_token :
      ℕ → (Error ⊎ AuthToken) → ℕ → Option ℕ → Cache → (Error ⊎ AuthToken) × Cache
  unfolding millis_until_about_to_expire cache_key
  store_token later (inl e) installation_id app_id cache = (inl e, cache)
  store_token later (inr t) installation_id app_id cache = (
    inr t,
    set later (cache_key installation_id app_id) t (some (millis_until_about_to_expire later t))
        cache,
  )

  unfoldable pub get_installation_token :
      ℕ
      → ℕ
      → (Error ⊎ AuthToken)
      → (Cache → Cache)
      → ℕ
      → Option ℕ
      → Cache
      → (Error ⊎ AuthToken) × Cache
  unfolding store_token is_about_to_expire cache_key
  get_installation_token now later generated meanwhile installation_id app_id cache =
      let (current, c) = get now (cache_key installation_id app_id) cache in
      let renewed = store_token later generated installation_id app_id (meanwhile c) in
      elim current [
        | none ↦ renewed
        | some t ↦ if is_about_to_expire now t then renewed else (inr t, c)
      ]

  -- One step of the process on the cache of installation tokens. A request is two steps, the read
  -- and the storing of what GitHub answered for it, so that other requests come between them.
  pub data Step (Issued : ℕ → Option ℕ → AuthToken → Type 0) : Cache → Cache → Type 0 where
    read : (now i : ℕ) (a : Option ℕ) (c : Cache) → Step Issued c (get now (cache_key i a) c).1
    store :
        (later i : ℕ) (a : Option ℕ) (t : AuthToken) (c : Cache)
        → Issued i a t
        → Step Issued c (store_token later (inr t) i a c).1
    clear : (c : Cache) → Step Issued c (reset c)
    resize : (n : ℕ) (c : Cache) → Step Issued c (set_max n c)

  pub data Reach (Issued : ℕ → Option ℕ → AuthToken → Type 0) (c : Cache) : Cache → Type 0 where
    here : Reach Issued c c
    next : {d e : Cache} → Reach Issued c d → Step Issued d e → Reach Issued c e
