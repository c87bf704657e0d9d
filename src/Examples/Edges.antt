-- ===== src/Examples/Edges.antt =====
-- The theorem on answers to errors, at a concrete error.
use background_job_runner.Prelude.{none, some, codes}
use background_job_runner.Errors.{error, plain}
use background_job_runner.Http.Errors.{Foreign, IsAnswer, answer, answer-IsAnswer}

abbrev too_large : Foreign
too_large = record { code = some (codes "FST_ERR_CTP_BODY_TOO_LARGE"); status = some 413 }

answer-IsAnswer_example : IsAnswer (error plain none) (answer (error plain none) too_large)
answer-IsAnswer_example = answer-IsAnswer (error plain none) too_large
