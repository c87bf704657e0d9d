-- ===== src/Engine/Registry.antt =====
-- The worker registry: backend/src/engine/workers/registry.ts, with the descriptors of types.ts there.
-- A handler is the runner's business and no field here.
pub mod Entries
pub mod Listed
pub mod Typed
pub mod Validated
use background_job_runner.Prelude.{
  ℕ, Bool, true, false, ◌||◌, not, List, [], ◌∷◌, Option, none, some, if◌then◌else◌, filter, Text,
  text_eq, codes,
}
use background_job_runner.Types.{Value, Params}
use background_job_runner.Errors.{Result, ok, err, bad_request, app_error}
use background_job_runner.Engine.Numbers.{Numbers}

pub data ParamType : Type 0 where
  number boolean string : ParamType

-- `default` is `undefined` where none is declared; `min` and `max` are doubles.
pub record ParamDescriptor : Type 0 where
  pub name : Text
  pub type : ParamType
  pub required : Bool
  pub default : Value
  pub min : Option ℕ
  pub max : Option ℕ

pub record WorkerDescriptor : Type 0 where
  pub lane : Text
  pub params : List ParamDescriptor

-- `new Map(descriptors.map(…))`: of two descriptors of one lane the later one stays.
unfoldable pub find_lane : Text → List WorkerDescriptor → Option WorkerDescriptor
find_lane lane [] = none
find_lane lane (d ∷ ds) = elim (find_lane lane ds) [
  | some e ↦ some e
  | none ↦ if text_eq d.lane lane then some d else none
]

unfoldable pub other_lanes : Text → List WorkerDescriptor → List WorkerDescriptor
other_lanes lane ds = filter (λ (d : WorkerDescriptor). not (text_eq d.lane lane)) ds

abbrev pub found_or : WorkerDescriptor → Option WorkerDescriptor → WorkerDescriptor
found_or d none = d
found_or d (some e) = e

-- `[...byLane.values()]`: each lane where it was first declared, with its last descriptor.
unfoldable pub list : List WorkerDescriptor → List WorkerDescriptor
list [] = []
list (d ∷ ds) = found_or d (find_lane d.lane ds) ∷ other_lanes d.lane (list ds)

unfoldable pub get : List WorkerDescriptor → Text → Result WorkerDescriptor
get ds lane = elim (find_lane lane ds) [ some d ↦ ok d | none ↦ err (app_error bad_request) ]

abbrev pub is_some {ℓ} : {A : Type ℓ} → Option A → Bool
is_some none = false
is_some (some a) = true

unfoldable pub has : List WorkerDescriptor → Text → Bool
has ds lane = is_some (find_lane lane ds)

-- `params[name]`
unfoldable pub get_param : Text → Params → Value
get_param name [] = Value.undefined
get_param name ((k, v) ∷ ps) = if text_eq k name then v else get_param name ps

-- `target[name] = value`
unfoldable pub set_param : Text → Value → Params → Params
set_param name v [] = (name, v) ∷ []
set_param name v ((k, w) ∷ ps) =
    let rest = (k, w) ∷ set_param name v ps in if text_eq k name then (k, v) ∷ ps else rest

-- `delete target[name]`
unfoldable pub delete_param : Text → Params → Params
delete_param name [] = []
delete_param name ((k, w) ∷ ps) =
    let rest = delete_param name ps in if text_eq k name then rest else (k, w) ∷ rest

unfoldable pub apply_missing : Params → ParamDescriptor → Result Params
apply_missing target spec = elim spec.default [
  | Value.undefined ↦
      if spec.required then err (app_error bad_request) else ok (delete_param spec.name target)
  | d ↦ ok (set_param spec.name d target)
]

abbrev pub is_bool : Value → Bool
is_bool (Value.bool b) = true
is_bool _ = false

unfoldable pub coerce_boolean : Value → Result Value
coerce_boolean (Value.bool b) = ok (Value.bool b)
coerce_boolean (Value.str s) =
    if text_eq s (codes "true")
    then ok (Value.bool true)
    else if text_eq s (codes "false")
    then ok (Value.bool false)
    else err (app_error bad_request)
coerce_boolean _ = err (app_error bad_request)

abbrev pub coerce_string : Value → Result Value
coerce_string (Value.str s) = ok (Value.str s)
coerce_string _ = err (app_error bad_request)

module _ (num : Numbers) where
  -- `typeof value === 'number' ? value : Number(value)`
  abbrev pub to_number : Value → ℕ
  to_number (Value.num n) = n
  to_number v = num.of_value v

  abbrev pub below : Option ℕ → ℕ → Bool
  below none n = false
  below (some bound) n = num.lt n bound

  abbrev pub above : Option ℕ → ℕ → Bool
  above none n = false
  above (some bound) n = num.lt bound n

  unfoldable pub coerce_number : Value → ParamDescriptor → Result Value
  coerce_number value spec =
      let n = to_number value in
      if is_bool value || not (num.is_finite n)
      then err (app_error bad_request)
      else if below spec.min n
      then err (app_error bad_request)
      else if above spec.max n
      then err (app_error bad_request)
      else ok (Value.num n)

  abbrev pub coerce_as : ParamType → Value → ParamDescriptor → Result Value
  coerce_as number value spec = coerce_number value spec
  coerce_as boolean value spec = coerce_boolean value
  coerce_as string value spec = coerce_string value

  unfoldable pub coerce : Value → ParamDescriptor → Result Value
  coerce value spec = coerce_as spec.type value spec

  abbrev pub store_result : Text → Params → Result Value → Result Params
  store_result name target (ok v) = ok (set_param name v target)
  store_result name target (err e) = err e

  -- One round of the loop: `value` is what the submitter sent.
  abbrev pub normalise : Value → ParamDescriptor → Params → Result Params
  normalise Value.undefined spec target = apply_missing target spec
  normalise Value.null spec target = apply_missing target spec
  normalise value spec target = store_result spec.name target (coerce value spec)

  abbrev pub and_then : Result Params → (Params → Result Params) → Result Params
  and_then (ok p) f = f p
  and_then (err e) f = err e

  unfoldable pub normalise_all : Params → List ParamDescriptor → Params → Result Params
  normalise_all params [] target = ok target
  normalise_all params (spec ∷ specs) target =
      and_then (normalise (get_param spec.name params) spec target) (normalise_all params specs)

  abbrev pub validate_with : Params → Result WorkerDescriptor → Result Params
  validate_with params (ok d) = normalise_all params d.params params
  validate_with params (err e) = err e

  unfoldable pub validate_params : List WorkerDescriptor → Text → Params → Result Params
  validate_params ds lane params = validate_with params (get ds lane)
