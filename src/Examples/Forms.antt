-- ===== src/Examples/Forms.antt =====
-- The form that submits a task, filled in, and the validation of parameters.
use background_job_runner.Prelude.{
  ◌≡◌, refl, inl, inr, All, true, false, [], ◌∷◌, none, some, ltb, Text, text_eq, codes,
}
use background_job_runner.Prelude.Decimal.{read_digits}
use background_job_runner.Types.{Value, Params}
use background_job_runner.Engine.Numbers.{Numbers}
use background_job_runner.Engine.Registry
use background_job_runner.Engine.Registry.{
  list, other_lanes, number, boolean, string, ParamDescriptor, WorkerDescriptor, find_lane,
  validate_params, set_param, get_param, get, normalise_all, apply_missing, delete_param, coerce,
  coerce_boolean, coerce_number,
}
use background_job_runner.Engine.Registry.Entries.{is_named}
use background_job_runner.Engine.Registry.Typed.{Settled}
use background_job_runner.Engine.Registry.Validated.{validate_params-IsTyped, validate_params_idem}
use background_job_runner.Errors.{ok}
use background_job_runner.Http.TaskRoutes.{params_or_empty}
use background_job_runner.Frontend.SubmitForm.{
  typed, Dialog, CreateTask, handle_submit, chosen_lane, first_named, fill, valid, overridden,
  every_fine, map_values, errors, field_error, current_value, number_error, descriptor_value,
}
use background_job_runner.Frontend.SubmitForm.Rounds.{is_ok}
use background_job_runner.Frontend.SubmitForm.Accepted.{submitted-IsAccepted}

-- Digits are read; what is no number is not finite.
abbrev form_numbers : Numbers
form_numbers = record {
  integer = read_digits;
  of_value = λ v. elim v [
    | Value.num n ↦ n
    | Value.str s ↦ elim (read_digits s) [ some n ↦ n | none ↦ 1000000 ]
    | _ ↦ 1000000
  ];
  is_finite = λ n. ltb n 1000000;
  lt = ltb;
}

abbrev plain_text : Value → Text
plain_text (Value.str s) = s
plain_text _ = []

abbrev seconds : ParamDescriptor
seconds = record {
  name = codes "seconds";
  type = number;
  required = true;
  default = Value.undefined;
  min = some 1;
  max = some 60;
}

abbrev fail : ParamDescriptor
fail = record {
  name = codes "fail";
  type = boolean;
  required = false;
  default = Value.bool false;
  min = none;
  max = none;
}

abbrev note : ParamDescriptor
note = record {
  name = codes "note";
  type = string;
  required = false;
  default = Value.undefined;
  min = none;
  max = none;
}

abbrev mock_lane : WorkerDescriptor
mock_lane = record { lane = codes "mock"; params = seconds ∷ fail ∷ note ∷ [] }

abbrev filled_dialog : Dialog
filled_dialog = record {
  lane_name = codes "mock";
  overrides = (codes "seconds", typed (codes "5")) ∷ [];
}

abbrev mock_request : CreateTask
mock_request = record {
  lane = codes "mock";
  params = some ((codes "seconds", Value.num 5) ∷ (codes "fail", Value.bool false) ∷ []);
}

mock_sent :
    handle_submit form_numbers plain_text (Registry.list (mock_lane ∷ [])) filled_dialog
    ≡ some mock_request
unfolding handle_submit valid fill overridden chosen_lane first_named list find_lane other_lanes
    every_fine map_values errors text_eq field_error current_value number_error read_digits
    descriptor_value set_param
mock_sent = refl

submitted-IsAccepted_example :
    is_ok (
      validate_params form_numbers
        (mock_lane ∷ [])
        mock_request.lane
        (params_or_empty mock_request.params))
    ≡ true
unfolding find_lane chosen_lane overridden text_eq first_named list other_lanes
submitted-IsAccepted_example =
    submitted-IsAccepted form_numbers plain_text (mock_lane ∷ []) filled_dialog mock_lane
      mock_request refl (refl, (refl, (refl, tt))) (refl, (refl, (refl, tt))) mock_sent

abbrev sent_params : Params
sent_params =
    (codes "seconds", Value.str (codes "5")) ∷ (codes "colour", Value.str (codes "red")) ∷ []

abbrev stored_params : Params
stored_params =
    (codes "seconds", Value.num 5)
    ∷ (codes "colour", Value.str (codes "red"))
    ∷ (codes "fail", Value.bool false)
    ∷ []

mock_validated :
    validate_params form_numbers (mock_lane ∷ []) (codes "mock") sent_params ≡ ok stored_params
unfolding validate_params get find_lane text_eq normalise_all get_param set_param delete_param
    apply_missing coerce coerce_boolean coerce_number read_digits
mock_validated = refl

validate_params-IsTyped_example :
    All
      (λ (spec : ParamDescriptor).
        Settled form_numbers spec (get_param spec.name sent_params) stored_params)
      mock_lane.params
    × ((name : Text)
        → is_named name mock_lane.params ≡ false
        → get_param name stored_params ≡ get_param name sent_params)
unfolding find_lane text_eq
validate_params-IsTyped_example =
    validate_params-IsTyped form_numbers (mock_lane ∷ []) (codes "mock") sent_params stored_params
      mock_lane refl (refl, (refl, (refl, tt))) mock_validated

validate_params_idem_example :
    validate_params form_numbers (mock_lane ∷ []) (codes "mock") stored_params ≡ ok stored_params
unfolding find_lane text_eq
validate_params_idem_example =
    validate_params_idem form_numbers (mock_lane ∷ []) (codes "mock") sent_params stored_params
      mock_lane refl (refl, (refl, (refl, tt))) (inl refl, (inr tt, (inl refl, tt))) mock_validated
