-- ===== src/Accounts/Keys/Verified.antt =====
-- What a verified key is: verifyApiKey of backend/src/modules/apikey/apikey.service.ts.
use background_job_runner.Prelude.{
  ◌≡◌, refl, subst, true, ◌&&◌, List, [], ◌∷◌, map, Option, none, some, arith, filter, At, at_head,
  At-filter_inv, if_elim, Text, text_eq,
}
use background_job_runner.Prelude.Texts.{starts_with}
use background_job_runner.Errors.{Thrown, Result, ok, err}
use background_job_runner.Repository.Sql.Results.{OnOk}
use background_job_runner.Accounts.Store.{
  ApiKey, Tables, Access, continue, pure, by_fault, statement,
}
use background_job_runner.Accounts.Keys.{
  ApiKeyIdentity, identity_of, first_identity, is_active, touched, touch_last_used,
  find_active_by_hash, after_touch, verify_api_key, api_key_prefix,
}

module _ (hash_key : Text → Text) where
  -- The active row that a verified key is.
  pub record IsKeyOf (s : Tables) (plaintext : Text) (i : ApiKeyIdentity) : Type 0 where
    pub row : ApiKey
    pub stands : At row s.keys
    pub active : is_active row ≡ true
    pub hashed : text_eq row.key_hash (hash_key plaintext) ≡ true
    pub is : i ≡ identity_of row
    pub marked : starts_with plaintext api_key_prefix ≡ true

  module _ (s : Tables) (plaintext : Text) where
    abbrev pub IsGood : Option ApiKeyIdentity → Tables → Type 0
    IsGood none v = Unit
    IsGood (some i) v = IsKeyOf s plaintext i

    first-IsGood :
        (ks : List ApiKey)
        → starts_with plaintext api_key_prefix ≡ true
        → ((k : ApiKey)
            → At k ks
            → At k s.keys × ((text_eq k.key_hash (hash_key plaintext) && is_active k) ≡ true))
        → (v : Tables) → IsGood (first_identity ks) v
    first-IsGood [] m f v = tt
    first-IsGood (k ∷ ks) m f v =
        let (i, q) = f k at_head in
        record {
          row = k;
          stands = i;
          active = ground arith;
          hashed = ground arith;
          is = refl;
          marked = m;
        }

    find-IsGood :
        starts_with plaintext api_key_prefix ≡ true
        → (fs : List (Option Thrown))
        → OnOk IsGood (
            by_fault fs
              (λ v. (
                ok (
                    first_identity (
                      filter (λ k. text_eq k.key_hash (hash_key plaintext) && is_active k) v.keys)),
                v,
              ))
              s)
    find-IsGood m fs = by_faults fs
      where
        found :
            (v : Tables)
            → IsGood
                (first_identity
                  (filter (λ k. text_eq k.key_hash (hash_key plaintext) && is_active k) s.keys))
                v
        found v =
            first-IsGood _ m
              (λ k i.
                At-filter_inv (λ k. text_eq k.key_hash (hash_key plaintext) && is_active k) k s.keys
                  i)
              v

        by_faults :
            (fs : List (Option Thrown))
            → OnOk IsGood (
                by_fault fs
                  (λ v. (
                    ok (
                        first_identity (
                          filter
                            (λ k. text_eq k.key_hash (hash_key plaintext) && is_active k)
                            v.keys)),
                    v,
                  ))
                  s)
        by_faults [] = found s
        by_faults (none ∷ gs) = found (record s { faults = gs })
        by_faults (some e ∷ gs) = tt

    touch-IsGood :
        (r : Result (Option ApiKeyIdentity) × Tables)
        → OnOk IsGood r
        → OnOk IsGood (continue r.0 after_touch r.1)
    unfolding touch_last_used statement
    touch-IsGood (err e, v) g = tt
    touch-IsGood (ok none, v) g = tt
    touch-IsGood (ok (some i), v) g = by_faults v.faults
      where
        by_faults :
            (fs : List (Option Thrown))
            → OnOk IsGood (
                continue
                  (by_fault {0} fs
                    (λ (x : Tables).
                      (ok tt, record x { keys = map (touched x.now i.key_id) x.keys }))
                    v).0
                  (λ _. pure (some i))
                  (by_fault {0} fs
                    (λ (x : Tables).
                      (ok tt, record x { keys = map (touched x.now i.key_id) x.keys }))
                    v).1)
        by_faults [] = g
        by_faults (none ∷ fs) = g
        by_faults (some e ∷ fs) = tt

    -- A text that is verified is the plaintext of an active key of the table.
    pub verify-IsGood : OnOk IsGood (verify_api_key hash_key plaintext s)
    unfolding verify_api_key find_active_by_hash statement
    verify-IsGood =
        if_elim (λ (m : Access (Option ApiKeyIdentity)). OnOk IsGood (m s))
          (starts_with plaintext api_key_prefix) _ _
          (λ m. touch-IsGood (find_active_by_hash (hash_key plaintext) s) (find-IsGood m s.faults))
          (λ _. tt)

    pub verify-IsKeyOf :
        (i : ApiKeyIdentity)
        → (verify_api_key hash_key plaintext s).0 ≡ ok (some i)
        → IsKeyOf s plaintext i
    verify-IsKeyOf i h =
        subst (λ r. OnOk IsGood (r, (verify_api_key hash_key plaintext s).1)) h verify-IsGood
