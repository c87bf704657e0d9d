-- ===== src/Accounts/Keys/Revoked.antt =====
-- A revoked key stays revoked: backend/src/modules/apikey.
use background_job_runner.Prelude.{
  ℕ, ◌≡◌, ◌≢◌, refl, ap, sym, ◌∙◌, fun_ext, Bool, true, false, List, [], ◌∷◌, map, Option, none,
  some, arith, ◌==◌, ==_iff, any, any_mono, any-map, any-at, and-true, Text,
}
use background_job_runner.Errors.{Thrown, ok}
use background_job_runner.Accounts.Store.{ApiKey, Tables, statement}
use background_job_runner.Accounts.Keys.Verified.{verify-IsKeyOf}
use background_job_runner.Accounts.Keys.{
  ApiKeyIdentity, is_revocable, revoked, revoke_by_id, revoke_api_key, or_not_found, create_api_key,
  verify_api_key, list_api_keys,
}
use background_job_runner.Accounts.Keys.Dead.{
  IsDead, any-none, Keeps-create, Keeps-list, Keeps-revoke, Keeps-verify, revoked-id, not_revocable,
}

-- Everything that is done to the keys, and the passing of time with what the connection will throw.
pub data KeyCall : Type 0 where
  create : ℕ → Text → ℕ → ℕ → Text → KeyCall
  list_keys : ℕ → Option ℕ → Option ℕ → KeyCall
  revoke : ℕ → ℕ → KeyCall
  verify : Text → KeyCall
  pass : ℕ → List (Option Thrown) → KeyCall

module _ (hash_key : Text → Text) where
  abbrev pub perform_key_call : KeyCall → Tables → Tables
  perform_key_call (create u name i at random) s = (create_api_key hash_key u name i at random s).1
  perform_key_call (list_keys u limit page) s = (list_api_keys u limit page s).1
  perform_key_call (revoke u i) s = (revoke_api_key u i s).1
  perform_key_call (verify plaintext) s = (verify_api_key hash_key plaintext s).1
  perform_key_call (pass now faults) s = record s { now = now; faults = faults }

  unfoldable pub after_calls : List KeyCall → Tables → Tables
  after_calls [] s = s
  after_calls (c ∷ cs) s = after_calls cs (perform_key_call c s)

  module _ (user_id id : ℕ) where
    Keeps-call :
        (c : KeyCall) (s : Tables) → IsDead user_id id s → IsDead user_id id (perform_key_call c s)
    Keeps-call (create u name i at random) s d =
        Keeps-create user_id id hash_key u name i at random s d
    Keeps-call (list_keys u limit page) s d = Keeps-list user_id id u limit page s d
    Keeps-call (revoke u i) s d = Keeps-revoke user_id id u i s d
    Keeps-call (verify plaintext) s d = Keeps-verify user_id id hash_key plaintext s d
    Keeps-call (pass now faults) s d = record { known = d.known; gone = d.gone }

    Keeps-calls :
        (cs : List KeyCall) (s : Tables)
        → IsDead user_id id s
        → IsDead user_id id (after_calls cs s)
    unfolding after_calls
    Keeps-calls [] s d = d
    Keeps-calls (c ∷ cs) s d = Keeps-calls cs (perform_key_call c s) (Keeps-call c s d)

  revoke-IsDead :
      (user_id id : ℕ) (s : Tables)
      → (revoke_api_key user_id id s).0 ≡ ok tt
      → IsDead user_id id (revoke_api_key user_id id s).1
  unfolding revoke_api_key revoke_by_id statement
  revoke-IsDead user_id id s h = by_faults s.faults h
    where
      dead :
          (v : Tables)
          → any (is_revocable user_id id) v.keys ≡ true
          → IsDead user_id id (record v { keys = map (revoked v.now user_id id) v.keys })
      dead v e = record {
        known =
            any-map (λ (k : ApiKey). k.id == id) (revoked v.now user_id id) v.keys
            ∙ ap (λ p. any p v.keys)
                (fun_ext (λ k. ap (λ i. i == id) (revoked-id user_id id v.now user_id id k)))
            ∙ any_mono (is_revocable user_id id) (λ k. k.id == id) v.keys (λ k q. ground arith) e;
        gone =
            any-map (is_revocable user_id id) (revoked v.now user_id id) v.keys
            ∙ ap (λ p. any p v.keys) (fun_ext (not_revocable user_id id v.now))
            ∙ any-none v.keys;
      }

      by_found :
          (v : Tables) (b : Bool)
          → any (is_revocable user_id id) v.keys ≡ b
          → (or_not_found b (record v { keys = map (revoked v.now user_id id) v.keys })).0 ≡ ok tt
          → IsDead user_id id
              (or_not_found b (record v { keys = map (revoked v.now user_id id) v.keys })).1
      by_found v true e q = dead v e
      by_found v false e q = absurd (ground arith)

      by_faults :
          (fs : List (Option Thrown))
          → (revoke_api_key user_id id (record s { faults = fs })).0 ≡ ok tt
          → IsDead user_id id (revoke_api_key user_id id (record s { faults = fs })).1
      by_faults [] q =
          by_found (record s { faults = [] }) (any (is_revocable user_id id) s.keys) refl q
      by_faults (none ∷ fs) q =
          by_found (record s { faults = fs }) (any (is_revocable user_id id) s.keys) refl q
      by_faults (some e ∷ fs) q = absurd (ground arith)

  -- Once a user's key has been revoked, no text is verified as that key of that user any more, whatever is
  -- called in the meantime, however the clock runs, and whatever the connection throws.
  pub revoked-never_verified :
      (user_id id : ℕ) (s : Tables) (cs : List KeyCall) (plaintext : Text) (i : ApiKeyIdentity)
      → (revoke_api_key user_id id s).0 ≡ ok tt
      → (verify_api_key hash_key plaintext (after_calls cs (revoke_api_key user_id id s).1)).0
        ≡ ok (some i)
      → i ≢ record { key_id = id; user_id = user_id }
  revoked-never_verified user_id id s cs plaintext i h v e =
      let t = after_calls cs (revoke_api_key user_id id s).1 in
      let d =
        Keeps-calls user_id id cs (revoke_api_key user_id id s).1 (revoke-IsDead user_id id s h) in
      let k = verify-IsKeyOf hash_key t plaintext i v in
      let own = ap (λ (x : ApiKeyIdentity). x.key_id) (sym k.is ∙ e) in
      let of_user = ap (λ (x : ApiKeyIdentity). x.user_id) (sym k.is ∙ e) in
      absurd (
        ground (
          arith,
          any-at (is_revocable user_id id)
              (and-true
                (and-true ((==_iff k.row.id id).1 own) ((==_iff k.row.user_id user_id).1 of_user))
                k.active)
              k.stands,
          d.gone,
        ))
