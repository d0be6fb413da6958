-- ===== src/Github/Tokens/Keys.antt =====
-- The keys of the token caches (src/github/client/installation-token-cache.ts): different
-- installations and apps have different keys.
use github_for_jira.Base.{
  ℕ, ◌≡◌, ◌≢◌, refl, sym, ap, true, false, [], ◌∷◌, ◌++◌, Option, none, some, arith, All, subst,
  Text, codes, is_digit, number_text, number_text-All, number_text-injective,
}
use github_for_jira.Github.Tokens.{cache_key}

-- A text of digits ends where the first other character stands.
pub digits-split :
    (s t : Text) (a b : ℕ) (u v : Text)
    → All (λ c. is_digit c ≡ true) s
    → All (λ c. is_digit c ≡ true) t
    → is_digit a ≡ false
    → is_digit b ≡ false
    → (s ++ (a ∷ u)) ≡ t ++ (b ∷ v)
    → (s ≡ t) × (u ≡ v)
digits-split [] [] a b u v hs ht na nb e = ground arith
digits-split [] (d ∷ t) a b u v hs ht na nb e = ground arith
digits-split (c ∷ s) [] a b u v hs ht na nb e = ground arith
digits-split (c ∷ s) (d ∷ t) a b u v hs ht na nb e =
    ground (arith, digits-split s t a b u v hs.1 ht.1 na nb)

undefined-ne-number_text : (n : ℕ) → codes "undefined" ≢ number_text n
undefined-ne-number_text n e =
    let digits : All (λ c. is_digit c ≡ true) (codes "undefined") =
      subst (All (λ c. is_digit c ≡ true)) (sym e) (number_text-All n) in
    let first : false ≡ true = digits.0 in cc

pub cache_key-injective :
    (i j : ℕ) (a b : Option ℕ) → cache_key i a ≡ cache_key j b → (i ≡ j) × (a ≡ b)
unfolding cache_key
cache_key-injective i j none none e =
    let (p, q) =
      digits-split (number_text i) (number_text j) b'_' b'_' (codes "undefined") (codes "undefined")
        (number_text-All i) (number_text-All j) refl refl e in
    (number_text-injective i j p, refl)
cache_key-injective i j none (some b) e =
    let (p, q) =
      digits-split (number_text i) (number_text j) b'_' b'_' (codes "undefined") (number_text b)
        (number_text-All i) (number_text-All j) refl refl e in
    absurd (undefined-ne-number_text b q)
cache_key-injective i j (some a) none e =
    let (p, q) =
      digits-split (number_text i) (number_text j) b'_' b'_' (number_text a) (codes "undefined")
        (number_text-All i) (number_text-All j) refl refl e in
    absurd (undefined-ne-number_text a (sym q))
cache_key-injective i j (some a) (some b) e =
    let (p, q) =
      digits-split (number_text i) (number_text j) b'_' b'_' (number_text a) (number_text b)
        (number_text-All i) (number_text-All j) refl refl e in
    (number_text-injective i j p, ap some (number_text-injective a b q))
