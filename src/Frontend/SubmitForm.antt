-- ===== src/Frontend/SubmitForm.antt =====
-- The form that submits a task: frontend/src/components/dashboard/SubmitTaskDialog.tsx.
-- `String(…)` of a default that is not a text is a parameter, as are JavaScript's numbers.
pub mod Filled
pub mod Rounds
pub mod Accepted
use background_job_runner.Prelude.{
  ℕ, Bool, true, false, ◌&&◌, not, List, [], ◌∷◌, Option, none, some, if◌then◌else◌, Text, text_eq,
  any, map,
}
use background_job_runner.Types.{Value, Params}
use background_job_runner.Engine.Numbers.{Numbers}
use background_job_runner.Engine.Registry.{
  ParamType, number, boolean, string, ParamDescriptor, WorkerDescriptor, set_param,
}

-- `string | boolean | undefined`
pub data FieldValue : Type 0 where
  unsupplied : FieldValue
  switched : Bool → FieldValue
  typed : Text → FieldValue

pub data FieldError : Type 0 where
  required not_a_number : FieldError
  at_least at_most : ℕ → FieldError

abbrev pub is_true : Value → Bool
is_true (Value.bool true) = true
is_true _ = false

abbrev pub is_empty : FieldValue → Bool
is_empty unsupplied = true
is_empty (switched b) = false
is_empty (typed []) = true
is_empty (typed (c ∷ s)) = false

abbrev pub value_of : FieldValue → Value
value_of unsupplied = Value.undefined
value_of (switched b) = Value.bool b
value_of (typed s) = Value.str s

abbrev pub Overrides : Type 0
Overrides = List (Text × FieldValue)

abbrev pub supplied_or : FieldValue → FieldValue → FieldValue
supplied_or initial unsupplied = initial
supplied_or initial v = v

-- `overrides[name] ?? initial`
unfoldable pub overridden : Text → FieldValue → Overrides → FieldValue
overridden name initial [] = initial
overridden name initial ((k, v) ∷ os) =
    let rest = overridden name initial os in if text_eq k name then supplied_or initial v else rest

-- The values of `new Map(entries)`: of two entries of one key the later one stays.
unfoldable pub map_values {ℓ} : {A : Type ℓ} → List (Text × A) → List A
map_values [] = []
map_values {A = A} ((k, v) ∷ es) =
    let rest = map_values es in if any (λ (e : Text × A). text_eq e.0 k) es then rest else v ∷ rest

abbrev pub is_fine : Option FieldError → Bool
is_fine none = true
is_fine (some e) = false

unfoldable pub every_fine : List (Option FieldError) → Bool
every_fine [] = true
every_fine (e ∷ es) = is_fine e && every_fine es

module _ (text_of : Value → Text) where
  abbrev pub default_value : ParamType → Value → FieldValue
  default_value boolean Value.undefined = unsupplied
  default_value boolean d = switched (is_true d)
  default_value number Value.undefined = typed []
  default_value number d = typed (text_of d)
  default_value string Value.undefined = typed []
  default_value string d = typed (text_of d)

  unfoldable pub descriptor_value : ParamDescriptor → FieldValue
  descriptor_value param = default_value param.type param.default

  unfoldable pub current_value : Overrides → ParamDescriptor → FieldValue
  current_value os param = overridden param.name (descriptor_value param) os

module _ (num : Numbers) where
  abbrev pub too_small : Option ℕ → ℕ → Option FieldError → Option FieldError
  too_small none n next = next
  too_small (some min) n next = if num.lt n min then some (at_least min) else next

  abbrev pub too_big : Option ℕ → ℕ → Option FieldError
  too_big none n = none
  too_big (some max) n = if num.lt max n then some (at_most max) else none

  unfoldable pub number_error : ParamDescriptor → ℕ → Option FieldError
  number_error param parsed =
      if not (num.is_finite parsed)
      then some not_a_number
      else too_small param.min parsed (too_big param.max parsed)

  abbrev pub typed_error : ParamType → ParamDescriptor → FieldValue → Option FieldError
  typed_error number param value = number_error param (num.of_value (value_of value))
  typed_error boolean param value = none
  typed_error string param value = none

  unfoldable pub field_error : ParamDescriptor → FieldValue → Option FieldError
  field_error param value =
      if param.required && is_empty value
      then some required
      else if is_empty value
      then none
      else typed_error param.type param value

  abbrev pub sent_value : ParamType → FieldValue → Value
  sent_value number value = Value.num (num.of_value (value_of value))
  sent_value boolean value = value_of value
  sent_value string value = value_of value

module _ (num : Numbers) (text_of : Value → Text) where
  unfoldable pub errors : Overrides → List ParamDescriptor → List (Text × Option FieldError)
  errors os params =
      map (λ (p : ParamDescriptor). (p.name, field_error num p (current_value text_of os p))) params

  unfoldable pub valid : Overrides → List ParamDescriptor → Bool
  valid os params = every_fine (map_values (errors os params))

  -- The loop of `handleSubmit`.
  unfoldable pub fill : Overrides → List ParamDescriptor → Params → Params
  fill os [] payload = payload
  fill os (p ∷ ps) payload =
      let value = current_value text_of os p in
      fill os ps
        (if is_empty value then payload else set_param p.name (sent_value num p.type value) payload)

-- What the dialog holds.
pub record Dialog : Type 0 where
  pub lane_name : Text
  pub overrides : Overrides

pub record CreateTask : Type 0 where
  pub lane : Text
  pub params : Option Params

-- `lanes.find((candidate) => candidate.lane === name) ?? first`
unfoldable pub first_named : Text → WorkerDescriptor → List WorkerDescriptor → WorkerDescriptor
first_named name first [] = first
first_named name first (l ∷ ls) =
    let rest = first_named name first ls in if text_eq l.lane name then l else rest

unfoldable pub chosen_lane : Text → List WorkerDescriptor → Option WorkerDescriptor
chosen_lane name [] = none
chosen_lane name (l ∷ ls) = some (first_named name l (l ∷ ls))

abbrev pub select_lane : Text → Dialog → Dialog
select_lane next d = record { lane_name = next; overrides = [] }

abbrev pub handle_close : Dialog → Dialog
handle_close d = record d { overrides = [] }

abbrev pub params_of : Params → Option Params
params_of [] = none
params_of (p ∷ ps) = some (p ∷ ps)

module _ (num : Numbers) (text_of : Value → Text) where
  abbrev pub submit_to : Overrides → Option WorkerDescriptor → Option CreateTask
  submit_to os none = none
  submit_to os (some lane) =
      if valid num text_of os lane.params
      then some
          (record { lane = lane.lane; params = params_of (fill num text_of os lane.params []) })
      else none

  unfoldable pub handle_submit : List WorkerDescriptor → Dialog → Option CreateTask
  handle_submit lanes d = submit_to d.overrides (chosen_lane d.lane_name lanes)
