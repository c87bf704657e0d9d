-- ===== src/Frontend/Pages.antt =====
-- What the pages of the frontend keep and decide: app/login/page.tsx and app/(app)/dashboard/page.tsx,
-- components/AuthAware.tsx, components/task/TaskActions.tsx, lib/ui-hooks/useDialog.ts and useTaskViewMode.ts
-- of frontend/src.
use background_job_runner.Prelude.{
  ℕ, ◌+◌, Bool, true, false, ◌&&◌, ◌||◌, not, List, [], ◌∷◌, Option, none, some, if◌then◌else◌, leb,
  ltb, ◌==◌, any, length, Text, codes,
}
use background_job_runner.Prelude.Texts.{starts_with, trim, is_blank}
use background_job_runner.Types.{TaskStatus, status_eq}
use background_job_runner.Frontend.Filters.{TaskFilterState, default_filters, max_limit}

-- The login page.
pub data Mode : Type 0 where
  login signup : Mode

pub record FieldErrors : Type 0 where
  pub email : Bool
  pub password : Bool
  pub name : Bool

abbrev pub min_password_length : ℕ
min_password_length = 8

abbrev pub max_name_length : ℕ
max_name_length = 100

-- A dot with a character before and one after it.
abbrev pub dot_after : Text → Bool
dot_after [] = false
dot_after (c ∷ []) = false
dot_after (c ∷ d ∷ s) = (d == 46 && not (leb (length s) 0)) || dot_after (d ∷ s)

abbrev pub has_space : Text → Bool
has_space s = any is_blank s

-- What follows the only `@`.
abbrev pub domain_of : Text → Option Text
domain_of [] = none
domain_of (c ∷ s) =
    let rest = domain_of s in
    if c == 64 then (if any (λ (d : ℕ). d == 64) s then none else some s) else rest

-- `^[^\s@]+@[^\s@]+\.[^\s@]+$`
unfoldable pub email_pattern : Text → Bool
email_pattern [] = false
email_pattern (c ∷ s) =
    not (c == 64)
    && not (has_space (c ∷ s))
    && (elim (domain_of s) as (λ _. Bool) [ some d ↦ dot_after d | none ↦ false ])

abbrev pub name_error : Mode → Text → Bool
name_error login trimmed = false
name_error signup trimmed = ltb (length trimmed) 1 || ltb max_name_length (length trimmed)

-- The fields with an error; the messages are left out.
unfoldable pub validate : Mode → Text → Text → Text → FieldErrors
validate mode email password name = record {
  email = not (email_pattern (trim email));
  password = ltb (length password) min_password_length;
  name = name_error mode (trim name);
}

pub data SignIn : Type 0 where
  login_with : Text → Text → SignIn
  signup_with : Text → Text → Text → SignIn

abbrev pub sign_in : Mode → Text → Text → Text → SignIn
sign_in login email password name = login_with (trim email) password
sign_in signup email password name = signup_with (trim email) (trim name) password

abbrev pub has_errors : FieldErrors → Bool
has_errors e = e.email || e.password || e.name

unfoldable pub login_submit : Mode → Text → Text → Text → Option SignIn
login_submit mode email password name =
    if has_errors (validate mode email password name)
    then none
    else some (sign_in mode email password name)

-- The dashboard.
pub record Dashboard : Type 0 where
  pub filters : TaskFilterState
  pub limit : ℕ

abbrev pub initial_limit : ℕ
initial_limit = 20

abbrev pub limit_step : ℕ
limit_step = 20

abbrev pub opened : Dashboard
opened = record { filters = default_filters; limit = initial_limit }

abbrev pub apply_filters : TaskFilterState → Dashboard → Dashboard
apply_filters next d = record { filters = next; limit = initial_limit }

abbrev pub is_status : TaskStatus → Option TaskStatus → Bool
is_status status none = false
is_status status (some s) = status_eq s status

unfoldable pub toggle_status : TaskStatus → Dashboard → Dashboard
toggle_status status d =
    apply_filters
      (record d.filters {
        status = if is_status status d.filters.status then none else some status;
      })
      d

abbrev pub looks_truncated : ℕ → Dashboard → Bool
looks_truncated rows d = leb d.limit rows

abbrev pub at_cap : Dashboard → Bool
at_cap d = leb max_limit d.limit

unfoldable pub load_more : Dashboard → Dashboard
load_more d = record d {
  limit = if leb (d.limit + limit_step) max_limit then d.limit + limit_step else max_limit;
}

-- What stands in front of an authenticated page.
pub data Shown : Type 0 where
  spinner error_state page : Shown

abbrev pub is_signed_out : Option ℕ → Bool
is_signed_out none = false
is_signed_out (some status) = status == 401

-- `error` is there with its status, if it has one; the second result is the redirect to the login page.
unfoldable pub auth_aware : Bool → Option (Option ℕ) → Bool → Shown × Bool
auth_aware is_pending none has_data =
    if is_pending
    then (spinner, false)
    else if not has_data
    then (spinner, false)
    else (page, false)
auth_aware is_pending (some status) has_data =
    let signed_out = is_signed_out status in
    if is_pending || signed_out then (spinner, signed_out) else (error_state, signed_out)

-- The conflict among the errors of collect, cancel and retry, by their statuses.
abbrev pub is_conflict : Option ℕ → Bool
is_conflict none = false
is_conflict (some status) = status == 409

unfoldable pub conflict : List (Option ℕ) → Option (Option ℕ)
conflict [] = none
conflict (status ∷ rest) =
    let later = conflict rest in if is_conflict status then some status else later

-- A dialog and what it is about.
pub record DialogState {ℓ} (T : Type ℓ) : Type ℓ where
  pub is_open : Bool
  pub about : Option T

abbrev pub dialog_open {ℓ} : {T : Type ℓ} → Option T → DialogState T → DialogState T
dialog_open about d = record { is_open = true; about = about }

abbrev pub dialog_close {ℓ} : {T : Type ℓ} → DialogState T → DialogState T
dialog_close d = record { is_open = false; about = none }

-- The view of the tasks, of which `ready` tells that the stored choice was read.
pub data ViewMode : Type 0 where
  cards table : ViewMode

pub record View : Type 0 where
  pub mode : ViewMode
  pub ready : Bool

abbrev pub first_view : View
first_view = record { mode = cards; ready = false }

abbrev pub rehydrate : Option ViewMode → View → View
rehydrate none v = record v { ready = true }
rehydrate (some mode) v = record { mode = mode; ready = true }

abbrev pub is_table : ViewMode → Bool
is_table cards = false
is_table table = true

abbrev pub show_table : View → Bool → Bool
show_table v is_desktop = v.ready && is_desktop && is_table v.mode

-- `startsWith` on the first part of a query's key, if that is a text.
abbrev pub is_task_query : Option Text → Bool
is_task_query none = false
is_task_query (some root) = starts_with root (codes "/api/v1/tasks")
