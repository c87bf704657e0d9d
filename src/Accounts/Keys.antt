-- ===== src/Accounts/Keys.antt =====
-- API keys: backend/src/modules/apikey/apikey.repository.ts and apikey.service.ts.
-- The hash is a parameter; a key's random part is an argument.
pub mod Dead
pub mod Revoked
pub mod Verified
use background_job_runner.Prelude.{
  ℕ, ◌+◌, Bool, true, false, ◌&&◌, ◌||◌, not, List, [], ◌∷◌, ◌++◌, map, Option, none, some, ◌==◌,
  leb, ltb, any, filter, head?, length, take, drop, if◌then◌else◌, Text, codes, text_eq,
}
use background_job_runner.Prelude.Sort.{sort_by}
use background_job_runner.Prelude.Texts.{starts_with}
use background_job_runner.Errors.{Thrown, Result, ok, err, caused, database, not_found, app_error}
use background_job_runner.Accounts.Store.{
  User, ApiKey, Tables, Access, ◌>>=◌, ◌>>◌, pure, raise, statement, unique_violation,
  foreign_key_violation, as_error,
}
use background_job_runner.Http.Pages.{Page, pagination_params}

pub record ApiKeyIdentity : Type 0 where
  pub key_id : ℕ
  pub user_id : ℕ

-- The primary key and the unique index on `keyHash`, and the reference to the user.
abbrev pub same_key : ApiKey → ApiKey → Bool
same_key k j = j.id == k.id || text_eq j.key_hash k.key_hash

abbrev pub insert_key : ApiKey → Access (Unit {0})
insert_key k s =
    if any (same_key k) s.keys
    then (err unique_violation, s)
    else if any (λ (u : User). u.id == k.user_id) s.users
    then (ok tt, record s { keys = k ∷ s.keys })
    else (err foreign_key_violation, s)

abbrev pub caught {ℓ} : {A : Type ℓ} → Result A → Result A
caught (ok a) = ok a
caught (err e) = err (caused database none (as_error e))

unfoldable pub insert : ApiKey → Access (Unit {0})
insert k s = let (r, s') = statement (insert_key k) s in (caught r, s')

abbrev pub is_active : ApiKey → Bool
is_active k = elim k.revoked_at [ none ↦ true | some at ↦ false ]

abbrev pub newest_first : ApiKey → ApiKey → Bool
newest_first k j = ltb j.created_at k.created_at || (k.created_at == j.created_at && leb j.id k.id)

abbrev pub active_of : ℕ → Tables → List ApiKey
active_of user_id s = filter (λ k. k.user_id == user_id && is_active k) s.keys

pub record Paginated {ℓ} (A : Type ℓ) : Type ℓ where
  pub data_page : List A
  pub count : ℕ
  pub limit : ℕ
  pub page : ℕ

abbrev pub page_rows : ℕ → Page → Access (List ApiKey)
page_rows user_id p s =
    (ok (take p.limit (drop p.offset (sort_by newest_first (active_of user_id s)))), s)

abbrev pub count_rows : ℕ → Access ℕ
count_rows user_id s = (ok (length (active_of user_id s)), s)

abbrev pub as_page : Page → List ApiKey → ℕ → Access (Paginated ApiKey)
as_page p rows count =
    pure (record { data_page = rows; count = count; limit = p.limit; page = p.page })

unfoldable pub find_all_by_user_paginated : ℕ → Page → Access (Paginated ApiKey)
find_all_by_user_paginated user_id p =
    statement (page_rows user_id p) >>= λ rows. statement (count_rows user_id) >>= as_page p rows

abbrev pub identity_of : ApiKey → ApiKeyIdentity
identity_of k = record { key_id = k.id; user_id = k.user_id }

abbrev pub first_identity : List ApiKey → Option ApiKeyIdentity
first_identity [] = none
first_identity (k ∷ ks) = some (identity_of k)

unfoldable pub find_active_by_hash : Text → Access (Option ApiKeyIdentity)
find_active_by_hash hash =
    statement
      λ s. (ok (first_identity (filter (λ k. text_eq k.key_hash hash && is_active k) s.keys)), s)

-- 60 seconds.
abbrev pub is_stale : ℕ → Option ℕ → Bool
is_stale now none = true
is_stale now (some at) = ltb (at + 60000) now

abbrev pub touched : ℕ → ℕ → ApiKey → ApiKey
touched now id k =
    if k.id == id && is_stale now k.last_used_at then record k { last_used_at = some now } else k

unfoldable pub touch_last_used : ℕ → Access (Unit {0})
touch_last_used id = statement λ s. (ok tt, record s { keys = map (touched s.now id) s.keys })

abbrev pub is_revocable : ℕ → ℕ → ApiKey → Bool
is_revocable user_id id k = k.id == id && k.user_id == user_id && is_active k

abbrev pub revoked : ℕ → ℕ → ℕ → ApiKey → ApiKey
revoked now user_id id k =
    if is_revocable user_id id k then record k { revoked_at = some now } else k

unfoldable pub revoke_by_id : ℕ → ℕ → Access Bool
revoke_by_id user_id id = statement λ s. (
  ok (any (is_revocable user_id id) s.keys),
  record s { keys = map (revoked s.now user_id id) s.keys },
)

abbrev pub api_key_prefix : Text
api_key_prefix = codes "jrk_"

abbrev pub generate_key : Text → Text
generate_key random = api_key_prefix ++ random

pub record CreatedApiKey : Type 0 where
  pub api_key : ApiKey
  pub plaintext : Text

unfoldable pub list_api_keys : ℕ → Option ℕ → Option ℕ → Access (Paginated ApiKey)
list_api_keys user_id limit page = find_all_by_user_paginated user_id (pagination_params limit page)

abbrev pub or_not_found : Bool → Access (Unit {0})
or_not_found true = pure tt
or_not_found false = raise (app_error not_found)

unfoldable pub revoke_api_key : ℕ → ℕ → Access (Unit {0})
revoke_api_key user_id id = revoke_by_id user_id id >>= or_not_found

abbrev pub after_touch : Option ApiKeyIdentity → Access (Option ApiKeyIdentity)
after_touch none = pure none
after_touch (some identity) = touch_last_used identity.key_id >> pure (some identity)

module _ (hash_key : Text → Text) where
  abbrev pub new_key : ℕ → ℕ → ℕ → Text → Text → ApiKey
  new_key id at user_id name plaintext = record {
    id = id;
    user_id = user_id;
    name = name;
    key_hash = hash_key plaintext;
    prefix = take 12 plaintext;
    last_used_at = none;
    revoked_at = none;
    created_at = at;
  }

  -- `random` is the base64url of the random bytes, `id` the uuid, `at` the application's clock.
  unfoldable pub create_api_key : ℕ → Text → ℕ → ℕ → Text → Access CreatedApiKey
  create_api_key user_id name id at random =
      let key = new_key id at user_id name (generate_key random) in
      insert key >> pure (record { api_key = key; plaintext = generate_key random })

  unfoldable pub verify_api_key : Text → Access (Option ApiKeyIdentity)
  verify_api_key plaintext =
      if starts_with plaintext api_key_prefix
      then find_active_by_hash (hash_key plaintext) >>= after_touch
      else pure none
