-- ===== src/Github/Tokens/Invariant.antt =====
-- What the cache of installation tokens (src/github/client/installation-token-cache.ts) holds, whatever the
-- requests, and how the tokens of apps (src/github/client/app-token-holder.ts) are made.
use github_for_jira.Base.{
  ℕ, ◌+◌, ◌*◌, ◌≤◌, ◌<◌, ◌≡◌, refl, ◌⊎◌, inl, inr, false, Option, arith, String, Text, Bool-cases,
  Option-cases, subst,
}
use github_for_jira.Github.Errors.{Error}
use github_for_jira.Github.Tokens.{
  AuthToken, LruCache, cache_key, is_about_to_expire, store_token, get_installation_token, Step,
  Reach, read, store, clear, resize, here, next, JwtPayload, jwt_payload, one_minute,
  create_app_jwt,
}
use github_for_jira.Github.Tokens.Keys.{cache_key-injective}

fresh-le :
    (now : ℕ) (t : AuthToken)
    → is_about_to_expire now t ≡ false
    → now + one_minute ≤ t.expiration_date
unfolding is_about_to_expire
fresh-le now t h = ground arith

module _ (lru : LruCache) (Issued : ℕ → Option ℕ → AuthToken → Type 0) where
  open lru use {Cache, Holds, empty, get}

  -- Every token that the cache holds under the key of an installation was issued for it.
  abbrev pub IsIssued : Cache → Type 0
  IsIssued c = (i : ℕ) (a : Option ℕ) (t : AuthToken) → Holds (cache_key i a) t c → Issued i a t

  set-IsIssued :
      (later i : ℕ) (a : Option ℕ) (t : AuthToken) (age : Option ℕ) (c : Cache)
      → Issued i a t
      → IsIssued c
      → IsIssued (lru.set later (cache_key i a) t age c)
  set-IsIssued later i a t age c issued h j b u held =
      elim (lru.set_holds later (cache_key i a) (cache_key j b) t u age c held) [
        | inl (k, same) ↦
            let (p, q) = cache_key-injective i j a b k in
            subst (λ v. Issued j b v) same
              (subst (λ o. Issued j o t) q (subst (λ n. Issued n a t) p issued))
        | inr (k, old) ↦ h j b u old
      ]

  pub Step-IsIssued : {c d : Cache} → Step lru Issued c d → IsIssued c → IsIssued d
  unfolding store_token
  Step-IsIssued (read now i a c) h =
      λ j b t held. h j b t (lru.get_keeps now (cache_key i a) (cache_key j b) t c held)
  Step-IsIssued (store later i a t c issued) h = set-IsIssued later i a t _ c issued h
  Step-IsIssued (clear c) h = λ j b t held. absurd (lru.holds_reset (cache_key j b) t c held)
  Step-IsIssued (resize n c) h =
      λ j b t held. h j b t (lru.set_max_keeps n (cache_key j b) t c held)

  pub Reach-IsIssued : {c d : Cache} → IsIssued c → Reach lru Issued c d → IsIssued d
  Reach-IsIssued h here = h
  Reach-IsIssued h (next r s) = Step-IsIssued s (Reach-IsIssued h r)

  -- What a new token of GitHub gives.
  renewed-Issued :
      (now later i : ℕ) (a : Option ℕ) (generated : Error ⊎ AuthToken) (c : Cache)
      → ((t : AuthToken) → generated ≡ inr t → Issued i a t)
      → ((t : AuthToken) × ((store_token lru later generated i a c).0 ≡ inr t)
          × Issued i a t
          × ((now + one_minute ≤ t.expiration_date) ⊎ (generated ≡ inr t)))
        ⊎ ((e : Error) × ((store_token lru later generated i a c).0 ≡ inl e) × (generated ≡ inl e))
  unfolding store_token
  renewed-Issued now later i a (inl e) c answers = inr (e, refl, refl)
  renewed-Issued now later i a (inr t) c answers = inl (t, refl, answers t refl, inr refl)

  -- In every state that the process can reach from an empty cache, a request gives a token that GitHub
  -- issued for this installation of this app: one from the cache, valid for a minute more at
  -- least, or the one that GitHub answers now. It fails only with the error of that answer.
  pub get_installation_token-Issued :
      (now later i : ℕ) (a : Option ℕ) (generated : Error ⊎ AuthToken) (meanwhile : Cache → Cache)
      (c : Cache)
      → ((t : AuthToken) → generated ≡ inr t → Issued i a t)
      → Reach lru Issued empty c
      → ((t : AuthToken) × ((get_installation_token lru now later generated meanwhile i a c).0
            ≡ inr t)
          × Issued i a t
          × ((now + one_minute ≤ t.expiration_date) ⊎ (generated ≡ inr t)))
        ⊎ ((e : Error) × ((get_installation_token lru now later generated meanwhile i a c).0
              ≡ inl e)
            × (generated ≡ inl e))
  unfolding get_installation_token
  get_installation_token-Issued now later i a generated meanwhile c answers reach =
      let k = cache_key i a in
      let renewed = renewed-Issued now later i a generated (meanwhile (get now k c).1) answers in
      elim (Option-cases (get now k c).0) [
        | inl none_ ↦ rw (none_, get_installation_token) renewed
        | inr (t, some_) ↦ elim (Bool-cases (is_about_to_expire now t)) [
          | inl old ↦ rw (some_, get_installation_token) (rw old renewed)
          | inr fresh ↦
              rw (some_, get_installation_token)
                (rw fresh (
                  inl (
                    t,
                    refl,
                    Reach-IsIssued none_held reach i a t (lru.holds_get now k t c some_),
                    inl (fresh-le now t fresh),
                  )))
        ]
      ]
    where
      none_held : IsIssued empty
      none_held j b t held = absurd (lru.holds_empty (cache_key j b) t held)

-- GitHub accepts a lifetime of ten minutes at most, and the token that is held is of the same end.
pub create_app_jwt_bounds :
    (encode_asymmetric : JwtPayload → String → String) (now later : ℕ) (key : String)
    (app_id : Text)
    → now ≤ later
    → one_minute ≤ later
    → let p = jwt_payload now later app_id in
      let t = create_app_jwt encode_asymmetric now later key app_id in
      (p.exp ≤ p.iat + 600)
      × (p.exp * 1000 ≤ t.expiration_date)
      × (t.expiration_date < p.exp * 1000 + 1000)
      × (is_about_to_expire now t ≡ false)
unfolding jwt_payload create_app_jwt is_about_to_expire
create_app_jwt_bounds encode_asymmetric now later key app_id h k =
    (omega arith, omega arith, omega arith, ground arith)
