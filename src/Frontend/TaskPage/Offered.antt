-- ===== src/Frontend/TaskPage/Offered.antt =====
-- What becomes of the actions that the page of a task offers.
use background_job_runner.Prelude.{
  ℕ, ◌≤◌, ◌≡◌, ◌≢◌, refl, sym, ap, ◌∙◌, true, ◌&&◌, [], some, arith, if_elim, and-true_right, any,
  At,
}
use background_job_runner.Types.{TaskRow, EngineConfig, status_eq}
use background_job_runner.Types.Events.{TaskEventType}
use background_job_runner.Errors.{Result, ok}
use background_job_runner.Repository.Schema.{keys_ok}
use background_job_runner.Repository.Writes.{selects, apply_patch}
use background_job_runner.Repository.Operations.{handle_of, TransitionInput}
use background_job_runner.Engine.Numbers.{Numbers, ReadsDecimals}
use background_job_runner.Engine.World.{World, continue}
use background_job_runner.Engine.Runner.Written.{Writes}
use background_job_runner.Engine.Operations.{Task, find, to_task, cancellable}
use background_job_runner.Engine.Operations.Guarded.{Guarded, collect-Guarded, retry-Guarded}
use background_job_runner.Engine.Operations.Decisions.{collected_row, retried_row}
use background_job_runner.Engine.Operations.Cancelling.{
  Cancels, cancelled_row, aborted, cancel-Cancels,
}
use background_job_runner.Engine.Operations.Newest.{IsNewest, find-IsNewest}
use background_job_runner.Http.TaskSchema.{TaskResponse, to_task_response}
use background_job_runner.Http.TaskRoutes.{
  Reply, send, collect_task_result, retry_task, cancel_task,
}
use background_job_runner.Frontend.TaskPage.{
  Queries, TaskView, Button, collect_button, retry_button, cancel_button, ownership, is_owned,
  actionable, has_button, offers, page_of, press, has_status, failed_with, is_error,
}
use background_job_runner.Frontend.Actions.{Agrees, actions-Agrees}

-- The row after the action of a button.
abbrev pub pressed_row : EngineConfig → ℕ → TaskRow → Button → TaskRow
pressed_row config at t collect_button = collected_row at t
pressed_row config at t retry_button = retried_row config at t
pressed_row config at t cancel_button = cancelled_row at t

abbrev pub pressed_type : Button → TaskEventType
pressed_type collect_button = TaskEventType.collected
pressed_type retry_button = TaskEventType.retry_requested
pressed_type cancel_button = TaskEventType.cancelled

-- Cancelling aborts an execution that is running here.
abbrev pub after_press : TaskRow → Button → World → World
after_press t cancel_button v = aborted t.id t.status v
after_press t _ v = v

-- The request of a button is answered with the task after the action, which was written with one event.
pub Pressed : Numbers → EngineConfig → World → TaskRow → Button → ℕ → Type 0
Pressed num config w t button at =
    (v : World) × (press num config (some t.user_id) t button at w ≡ (
      ok (record {
        status = 200;
        body = to_task_response (to_task (pressed_row config at t button));
      }),
      after_press t button v,
    ))
    × Writes w v t (pressed_row config at t button) (pressed_type button)

-- The task stands in tables with valid keys behind a connection that works, is the newest with its handle,
-- and has a handle that can be read.
pub record IsNamed (w : World) (t : TaskRow) : Type 0 where
  pub calm : w.db.faults ≡ []
  pub keys : keys_ok w.db.tasks ≡ true
  pub stands : At t w.db.tasks
  pub newest : IsNewest w.db.tasks t
  pub lane : t.lane ≢ []
  pub positive : 1 ≤ t.handle_num
  pub safe : t.handle_num ≤ 2147483647

offers-has_button :
    (q : Queries) (t : TaskRow) (button : Button)
    → q.task.received ≡ some t
    → offers (page_of q) button ≡ true
    → has_button t button ≡ true
unfolding offers page_of
offers-has_button q t button shown h =
    if_elim P (has_status 404 (failed_with q.task)) _ _ (λ _ k. absurd (ground arith))
      (λ _.
        if_elim P (has_status 400 (failed_with q.task)) _ _ (λ _ k. absurd (ground arith))
          (λ _.
            if_elim P (is_error q.task) _ _ (λ _ k. absurd (ground arith))
              (λ _ k.
                and-true_right (is_owned (ownership q) && actionable t) (has_button t button)
                  (rw shown at k))))
      h
  where
    P : TaskView → Type 0
    P page = offers page button ≡ true → has_button t button ≡ true

Guarded-done :
    {input : TransitionInput} {at : ℕ} {w : World} {t : TaskRow} {r : Result Task × World}
    → Guarded input at w t r
    → selects input.task_id input.guard t ≡ true
    → (v : World) × (r ≡ (ok (to_task (apply_patch input.patch at t)), v))
      × Writes w v t (apply_patch input.patch at t) input.type
Guarded-done (Guarded.done v s writes) h = (v, refl, writes)
Guarded-done (Guarded.refused v s same) h = absurd (ground arith)

Cancels-done :
    {at : ℕ} {w : World} {t : TaskRow} {r : Result Task × World}
    → Cancels cancellable at w t r
    → any (status_eq t.status) cancellable ≡ true
    → (v : World) × (r ≡ (ok (to_task (cancelled_row at t)), aborted t.id t.status v))
      × Writes w v t (cancelled_row at t) TaskEventType.cancelled
Cancels-done (Cancels.done v s writes) h = (v, refl, writes)
Cancels-done (Cancels.refused v s same) h = absurd (ground arith)

-- What the route makes of the engine's result.
replied : Result Task × World → Result (Reply TaskResponse) × World
replied r = continue r.0 (λ task. send 200 (to_task_response task)) r.1

module _ (num : Numbers) (reads : ReadsDecimals num) (config : EngineConfig) (w : World)
    (t : TaskRow) (named : IsNamed w t) where
  found : find num t.user_id (handle_of t.lane t.handle_num) w ≡ (ok t, w)
  found =
      find-IsNewest num w t reads named.lane named.positive named.safe named.calm named.stands
        named.newest

  has_button-Pressed :
      (button : Button) (at : ℕ) → has_button t button ≡ true → Pressed num config w t button at
  unfolding Pressed press collect_task_result retry_task cancel_task replied
  has_button-Pressed collect_button at h =
      let handle = handle_of t.lane t.handle_num in
      let (v, ran, writes) =
        Guarded-done (collect-Guarded num t.user_id handle w t at found named.calm named.keys)
          (sym (Agrees.collect (actions-Agrees config at t)) ∙ h) in
      (v, ap replied ran, writes)
  has_button-Pressed retry_button at h =
      let handle = handle_of t.lane t.handle_num in
      let (v, ran, writes) =
        Guarded-done (retry-Guarded num t.user_id handle w t config at found named.calm named.keys)
          (sym (Agrees.retry (actions-Agrees config at t)) ∙ h) in
      (v, ap replied ran, writes)
  has_button-Pressed cancel_button at h =
      let handle = handle_of t.lane t.handle_num in
      let (v, ran, writes) =
        Cancels-done (cancel-Cancels num t.user_id handle w t at found named.calm named.keys)
          (sym (Agrees.cancel (actions-Agrees config at t)) ∙ h) in
      (v, ap replied ran, writes)

-- Of a task that stands in tables with valid keys behind a connection that works, is the newest with its
-- handle, and has a handle that can be read: every action that its page offers is done when its user asks for
-- it with nothing in between. The server answers with the task after the action, written with one event.
pub offers-Pressed :
    (num : Numbers) (config : EngineConfig) (w : World) (t : TaskRow) (q : Queries)
    (button : Button) (at : ℕ)
    → ReadsDecimals num
    → IsNamed w t
    → q.task.received ≡ some t
    → offers (page_of q) button ≡ true
    → Pressed num config w t button at
offers-Pressed num config w t q button at reads named shown h =
    has_button-Pressed num reads config w t named button at (offers-has_button q t button shown h)
