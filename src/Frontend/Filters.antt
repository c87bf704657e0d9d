-- ===== src/Frontend/Filters.antt =====
-- The filters of the dashboard: frontend/src/lib/utils/task-filters.ts.
-- `new Date(text).toISOString()`, or that the date is not valid, is a parameter.
use background_job_runner.Prelude.{
  ℕ, ◌≤◌, ◌≡◌, refl, ap, ◌∙◌, ◌↔◌, Bool, true, false, [], ◌∷◌, ◌++◌, Option, none, some, arith, ltb,
  filter, length, Text, codes,
}
use background_job_runner.Types.{TaskStatus, SortOrder, asc, desc}
use background_job_runner.Http.TaskSchema.{ListTasksQuery, valid_list_query}

pub record TaskFilterState : Type 0 where
  pub status : Option TaskStatus
  pub lane : Option Text
  pub from : Option Text
  pub to : Option Text
  pub sort : SortOrder

abbrev pub default_filters : TaskFilterState
default_filters = record { status = none; lane = none; from = none; to = none; sort = desc }

abbrev pub max_limit : ℕ
max_limit = 100

abbrev pub is_set {ℓ} : {A : Type ℓ} → Option A → Bool
is_set none = false
is_set (some a) = true

abbrev pub is_ascending : SortOrder → Bool
is_ascending asc = true
is_ascending desc = false

unfoldable pub active_filter_count : TaskFilterState → ℕ
active_filter_count f = length (
    filter (λ (b : Bool). b)
      (is_set f.status ∷ is_set f.lane ∷ is_set f.from ∷ is_set f.to ∷ is_ascending f.sort ∷ []))

unfoldable pub is_filtered : TaskFilterState → Bool
is_filtered f = ltb 0 (active_filter_count f)

module _ (to_iso : Text → Option Text) where
  abbrev pub day_boundary : Text → Text → Option Text
  day_boundary day time = to_iso (day ++ 84 ∷ time)

  abbrev pub boundary_of : Option Text → Text → Option Text
  boundary_of none time = none
  boundary_of (some []) time = none
  boundary_of (some (c ∷ day)) time = day_boundary (c ∷ day) time

  unfoldable pub to_list_tasks_params : TaskFilterState → ℕ → ListTasksQuery
  to_list_tasks_params f limit = record {
    status = f.status;
    lane = f.lane;
    from = boundary_of f.from (codes "00:00:00.000");
    to = boundary_of f.to (codes "23:59:59.999");
    sort = some f.sort;
    limit = some limit;
    offset = none;
  }

unset-none : {A : Type 0} (o : Option A) → is_set o ≡ false → o ≡ none
unset-none none h = refl
unset-none (some a) h = absurd (ground arith)

count_zero :
    (a b c d e : Bool)
    → ltb 0 (length (filter (λ (x : Bool). x) (a ∷ b ∷ c ∷ d ∷ e ∷ []))) ≡ false
    → (a ≡ false) × (b ≡ false) × (c ≡ false) × (d ≡ false) × (e ≡ false)
count_zero true b c d e h = absurd (ground arith)
count_zero false true c d e h = absurd (ground arith)
count_zero false false true d e h = absurd (ground arith)
count_zero false false false true e h = absurd (ground arith)
count_zero false false false false true h = absurd (ground arith)
count_zero false false false false false h = (refl, refl, refl, refl, refl)

descending : (s : SortOrder) → is_ascending s ≡ false → s ≡ desc
descending asc h = absurd (ground arith)
descending desc h = refl

-- The page says that nothing is filtered exactly when the filters are the default ones.
pub is_filtered-default_filters :
    (f : TaskFilterState) → (is_filtered f ≡ false) ↔ (f ≡ default_filters)
unfolding is_filtered active_filter_count
is_filtered-default_filters f = (to_default, of_default)
  where
    to_default : is_filtered f ≡ false → f ≡ default_filters
    to_default h =
        let (a, b, c, d, e) =
          count_zero (is_set f.status) (is_set f.lane) (is_set f.from) (is_set f.to)
            (is_ascending f.sort) h in
        ap {B = TaskFilterState} (λ x. record f { status = x }) (unset-none f.status a)
        ∙ ap {B = TaskFilterState} (λ x. record f { status = none; lane = x }) (unset-none f.lane b)
        ∙ ap {B = TaskFilterState} (λ x. record f { status = none; lane = none; from = x })
            (unset-none f.from c)
        ∙ ap {B = TaskFilterState} (λ x. record default_filters { to = x; sort = f.sort })
            (unset-none f.to d)
        ∙ ap {B = TaskFilterState} (λ x. record default_filters { sort = x }) (descending f.sort e)

    of_default : f ≡ default_filters → is_filtered f ≡ false
    of_default h = simp h refl

-- With a limit from 1 to the largest one, the server accepts the parameters that the page sends.
pub valid-to_list_tasks_params :
    (to_iso : Text → Option Text) (f : TaskFilterState) (limit : ℕ)
    → 1 ≤ limit
    → limit ≤ max_limit
    → valid_list_query (to_list_tasks_params to_iso f limit) ≡ true
unfolding valid_list_query to_list_tasks_params
valid-to_list_tasks_params to_iso f limit h g = ground arith
