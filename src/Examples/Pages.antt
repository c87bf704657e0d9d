-- ===== src/Examples/Pages.antt =====
-- The theorems on the frontend's own decisions, at concrete inputs.
use background_job_runner.Prelude.{◌≡◌, [], none, arith, codes}
use background_job_runner.Errors.{error, database, status_code, class_code}
use background_job_runner.Http.Errors.{Foreign, answer}
use background_job_runner.Frontend.Snackbars.{SnackbarOptions}
use background_job_runner.Frontend.Failures.{api_error_message}
use background_job_runner.Frontend.Failures.Hidden.{received, received-hides}

abbrev plain_options : SnackbarOptions
plain_options = record { key = none; variant = none; persist = none; auto_hide_duration = none }

abbrev no_status : Foreign
no_status = record { code = none; status = none }

received-hides_example :
    api_error_message (
      received
        (codes "secret")
        (λ n. [])
        (codes "Yev")
        (codes "500")
        (answer (error database none) no_status))
    ≡ api_error_message (
        received
          (codes "other")
          (λ n. [])
          (codes "Yev")
          (codes "500")
          (answer (error database none) no_status))
unfolding answer status_code class_code
received-hides_example =
    received-hides (error database none) no_status (codes "secret") (codes "other") (λ n. [])
      (codes "Yev") (codes "500") (omega arith)
