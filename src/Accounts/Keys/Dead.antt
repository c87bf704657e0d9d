-- ===== src/Accounts/Keys/Dead.antt =====
-- No operation of backend/src/modules/apikey makes a revoked key active again.
use background_job_runner.Prelude.{
  ℕ, ◌≡◌, refl, ap, ◌∙◌, fun_ext, Bool, true, false, List, [], ◌∷◌, map, Option, none, some, arith,
  ◌==◌, any, any_mono, any-map, Bool-cases, inl, inr, if_elim, false_of_imp, Text,
}
use background_job_runner.Prelude.Texts.{starts_with}
use background_job_runner.Errors.{Thrown, Result, ok, err}
use background_job_runner.Http.Pages.{pagination_params}
use background_job_runner.Accounts.Store.{
  User, ApiKey, Tables, Access, continue, ◌>>=◌, by_fault, statement,
}
use background_job_runner.Accounts.Keys.{
  ApiKeyIdentity, same_key, insert_key, insert, touched, touch_last_used, is_revocable, revoked,
  revoke_by_id, revoke_api_key, or_not_found, find_active_by_hash, after_touch, create_api_key,
  verify_api_key, list_api_keys, find_all_by_user_paginated, page_rows, count_rows, as_page,
  generate_key, new_key, api_key_prefix,
}

-- A key is known, and no key of that id and that user is active.
pub record IsDead (user_id id : ℕ) (s : Tables) : Type 0 where
  pub known : any (λ (k : ApiKey). k.id == id) s.keys ≡ true
  pub gone : any (is_revocable user_id id) s.keys ≡ false

pub any-none : {A : Type 0} (xs : List A) → any (λ _. false) xs ≡ false
any-none [] = refl
any-none (x ∷ xs) = any-none xs

module _ (user_id id : ℕ) where
  abbrev pub Keeps {ℓ} : {A : Type ℓ} → Access A → Type 0
  Keeps m = (s : Tables) → IsDead user_id id s → IsDead user_id id (m s).1

  calm :
      (s : Tables) (fs : List (Option Thrown))
      → IsDead user_id id s
      → IsDead user_id id (record s { faults = fs })
  calm s fs d = record { known = d.known; gone = d.gone }

  Keeps-statement {ℓ} : {A : Type ℓ} (m : Access A) → Keeps m → Keeps (statement m)
  unfolding statement
  Keeps-statement m h s d = by_faults s.faults
    where
      by_faults : (fs : List (Option Thrown)) → IsDead user_id id (by_fault fs m s).1
      by_faults [] = h s d
      by_faults (none ∷ fs) = h (record s { faults = fs }) (calm s fs d)
      by_faults (some e ∷ fs) = calm s fs d

  Keeps-bind {ℓ κ} :
      {A : Type ℓ} {B : Type κ} (m : Access A) (f : A → Access B)
      → Keeps m
      → ((a : A) → Keeps (f a))
      → Keeps (m >>= f)
  Keeps-bind {A = A} m f h g s d = by_result (m s).0 (m s).1 (h s d)
    where
      by_result :
          (r : Result A) (v : Tables) → IsDead user_id id v → IsDead user_id id (continue r f v).1
      by_result (ok a) v e = g a v e
      by_result (err x) v e = e

  Keeps-insert_key : (k : ApiKey) → Keeps (insert_key k)
  Keeps-insert_key k s d =
      if_elim (λ (r : Result (Unit {0}) × Tables). IsDead user_id id r.1) (any (same_key k) s.keys)
        _ _ (λ _. d)
        (λ free.
          if_elim (λ (r : Result (Unit {0}) × Tables). IsDead user_id id r.1)
            (any (λ (u : User). u.id == k.user_id) s.users) _ _
            (λ _. record { known = ground (arith, d.known); gone = added free }) (λ _. d))
    where
      added : any (same_key k) s.keys ≡ false → any (is_revocable user_id id) (k ∷ s.keys) ≡ false
      added free = elim (Bool-cases (k.id == id)) [
        | inl e ↦ absurd (
            ground (
              arith,
              any_mono (λ (j : ApiKey). j.id == id) (same_key k) s.keys (λ j q. ground arith)
                  d.known,
            ))
        | inr e ↦ ground (arith, d.gone)
      ]

  -- A change of the rows that keeps ids and makes none of them active.
  Keeps-map :
      (f : Tables → ApiKey → ApiKey)
      → ((s : Tables) (k : ApiKey) → (f s k).id ≡ k.id)
      → ((s : Tables) (k : ApiKey)
          → is_revocable user_id id (f s k) ≡ true
          → is_revocable user_id id k ≡ true)
      → (s : Tables) → IsDead user_id id s
      → IsDead user_id id (record s { keys = map (f s) s.keys })
  Keeps-map f same less s d = record {
    known =
        any-map (λ (k : ApiKey). k.id == id) (f s) s.keys
        ∙ ap (λ p. any p s.keys) (fun_ext (λ k. ap (λ i. i == id) (same s k)))
        ∙ d.known;
    gone =
        any-map (is_revocable user_id id) (f s) s.keys
        ∙ false_of_imp (any (λ k. is_revocable user_id id (f s k)) s.keys)
            (any_mono (λ k. is_revocable user_id id (f s k)) (is_revocable user_id id) s.keys
              (less s))
            d.gone;
  }

  touched-id : (now i : ℕ) (k : ApiKey) → (touched now i k).id ≡ k.id
  touched-id now i k = ground arith

  touched-revocable :
      (now i : ℕ) (k : ApiKey)
      → is_revocable user_id id (touched now i k) ≡ true
      → is_revocable user_id id k ≡ true
  touched-revocable now i k h = ground arith

  pub revoked-id : (now u i : ℕ) (k : ApiKey) → (revoked now u i k).id ≡ k.id
  revoked-id now u i k = ground arith

  revoked-revocable :
      (now u i : ℕ) (k : ApiKey)
      → is_revocable user_id id (revoked now u i k) ≡ true
      → is_revocable user_id id k ≡ true
  revoked-revocable now u i k h = ground arith

  pub not_revocable :
      (now : ℕ) (k : ApiKey) → is_revocable user_id id (revoked now user_id id k) ≡ false
  not_revocable now k = ground arith

  Keeps-insert : (k : ApiKey) → Keeps (insert k)
  unfolding insert
  Keeps-insert k = Keeps-statement (insert_key k) (Keeps-insert_key k)

  Keeps-touch : (i : ℕ) → Keeps (touch_last_used i)
  unfolding touch_last_used
  Keeps-touch i =
      Keeps-statement _ (
        Keeps-map (λ s. touched s.now i) (λ s. touched-id s.now i) (λ s. touched-revocable s.now i))

  pub Keeps-revoke : (u i : ℕ) → Keeps (revoke_api_key u i)
  unfolding revoke_api_key revoke_by_id
  Keeps-revoke u i =
      Keeps-bind (revoke_by_id u i) or_not_found
        (Keeps-statement _ (
          Keeps-map (λ s. revoked s.now u i) (λ s. revoked-id s.now u i)
            (λ s. revoked-revocable s.now u i)))
        answered
    where
      answered : (b : Bool) → Keeps (or_not_found b)
      answered true s d = d
      answered false s d = d

  pub Keeps-list : (u : ℕ) (limit page : Option ℕ) → Keeps (list_api_keys u limit page)
  unfolding list_api_keys find_all_by_user_paginated
  Keeps-list u limit page =
      let p = pagination_params limit page in
      Keeps-bind (statement (page_rows u p)) (λ rows. statement (count_rows u) >>= as_page p rows)
        (Keeps-statement (page_rows u p) (λ s d. d))
        (λ rows.
          Keeps-bind (statement (count_rows u)) (as_page p rows)
            (Keeps-statement (count_rows u) (λ s d. d)) (λ n s d. d))

  module _ (hash_key : Text → Text) where
    pub Keeps-create :
        (u : ℕ) (name : Text) (i at : ℕ) (random : Text)
        → Keeps (create_api_key hash_key u name i at random)
    unfolding create_api_key
    Keeps-create u name i at random =
        Keeps-bind (insert (new_key hash_key i at u name (generate_key random))) _ (Keeps-insert _)
          (λ _ s d. d)

    pub Keeps-verify : (plaintext : Text) → Keeps (verify_api_key hash_key plaintext)
    unfolding verify_api_key find_active_by_hash
    Keeps-verify plaintext s d =
        if_elim (λ (m : Access (Option ApiKeyIdentity)). IsDead user_id id (m s).1)
          (starts_with plaintext api_key_prefix) _ _
          (λ _.
            Keeps-bind (find_active_by_hash (hash_key plaintext)) after_touch
              (Keeps-statement _ (λ v e. e)) touch s d)
          (λ _. d)
      where
        touch : (o : Option ApiKeyIdentity) → Keeps (after_touch o)
        touch none v e = e
        touch (some i) v e =
            Keeps-bind (touch_last_used i.key_id) _ (Keeps-touch i.key_id) (λ _ x q. q) v e
