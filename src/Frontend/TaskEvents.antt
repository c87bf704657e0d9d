-- ===== src/Frontend/TaskEvents.antt =====
-- The dashboard's ear to the stream: frontend/src/lib/hooks/useTaskEvents.tsx, with the status of
-- components/TaskEventStream/store.ts.
-- The state is the status, the pending timer, the refetches asked for, and the toasts. A frame's type is what
-- the browser dispatches by. The link that a toast renders is left out.
use background_job_runner.Prelude.{
  ℕ, suc, ◌+◌, ◌≡◌, refl, ap, ◌∙◌, List, [], ◌∷◌, ◌++◌, Option, none, some, Text, codes,
}
use background_job_runner.Prelude.Decimal.{decimal}
use background_job_runner.Types.Events.{TaskEventType}
use background_job_runner.Frontend.Snackbars.{Variant}

pub data TaskStreamStatus : Type 0 where
  connecting open_stream failing : TaskStreamStatus

pub record TaskEvent : Type 0 where
  pub id : ℕ
  pub task_id : ℕ
  pub handle : Text
  pub lane : Text
  pub type : TaskEventType

pub record CompletionToast : Type 0 where
  pub key : Text
  pub variant : Variant
  pub message : Text

abbrev pub completion_variant : TaskEventType → Option Variant
completion_variant TaskEventType.ready = some Variant.success
completion_variant TaskEventType.failed = some Variant.error
completion_variant TaskEventType.cancelled = some Variant.info
completion_variant _ = none

abbrev pub type_text : TaskEventType → Text
type_text TaskEventType.ready = codes "ready"
type_text TaskEventType.failed = codes "failed"
type_text TaskEventType.cancelled = codes "cancelled"
type_text TaskEventType.accepted = codes "accepted"
type_text TaskEventType.started = codes "started"
type_text TaskEventType.retry_scheduled = codes "retry_scheduled"
type_text TaskEventType.requeued_on_restart = codes "requeued_on_restart"
type_text TaskEventType.lease_expired = codes "lease_expired"
type_text TaskEventType.collected = codes "collected"
type_text TaskEventType.retry_requested = codes "retry_requested"

abbrev pub toast_key : TaskEvent → ℕ → Text
toast_key e now = codes "task-event-" ++ decimal e.id ++ 45 ∷ decimal now

abbrev pub toast_of : TaskEvent → ℕ → Option Variant → Option CompletionToast
toast_of e now none = none
toast_of e now (some v) = some (record {
  key = toast_key e now;
  variant = v;
  message = codes "Task " ++ e.handle ++ 32 ∷ type_text e.type;
})

unfoldable pub completion_toast : TaskEvent → ℕ → Option CompletionToast
completion_toast e now = toast_of e now (completion_variant e.type)

pub record Hook : Type 0 where
  pub status : TaskStreamStatus
  pub flush_timer : Option ℕ
  pub refetches : ℕ
  pub toasts : List CompletionToast

-- The debounce is 250 milliseconds; a pending timer is the time at which it fires.
unfoldable pub schedule_invalidate : ℕ → Hook → Hook
schedule_invalidate now h = record h { flush_timer = some (now + 250) }

abbrev pub add_toast : Option CompletionToast → Hook → Hook
add_toast none h = h
add_toast (some t) h = record h { toasts = h.toasts ++ t ∷ [] }

unfoldable pub on_open : ℕ → Hook → Hook
unfolding schedule_invalidate
on_open now h = schedule_invalidate now (record h { status = TaskStreamStatus.open_stream })

unfoldable pub on_error : Hook → Hook
on_error h = record h { status = TaskStreamStatus.failing }

-- A frame with what `parseTaskEvent` makes of its data.
unfoldable pub on_task_event : ℕ → Option TaskEvent → Hook → Hook
unfolding schedule_invalidate completion_toast
on_task_event now none h = h
on_task_event now (some e) h = schedule_invalidate now (add_toast (completion_toast e now) h)

-- The timer that is pending fires.
abbrev pub fired : Option ℕ → Hook → Hook
fired none h = h
fired (some at) h = record h { flush_timer = none; refetches = suc h.refetches }

unfoldable pub fire : Hook → Hook
fire h = fired h.flush_timer h

-- The hook's clean-up.
unfoldable pub clean_up : Hook → Hook
clean_up h = record h { status = TaskStreamStatus.connecting; flush_timer = none }

unfoldable pub hear : List (ℕ × Option TaskEvent) → Hook → Hook
hear [] h = h
hear ((now, e) ∷ es) h = hear es (on_task_event now e h)

-- What a burst of frames and the timer behind it come to.
pub record IsOneRefetch (h k : Hook) : Type 0 where
  pub refetches : k.refetches ≡ suc h.refetches
  pub idle : k.flush_timer ≡ none

refetches-on_task_event :
    (now : ℕ) (e : Option TaskEvent) (h : Hook) → (on_task_event now e h).refetches ≡ h.refetches
unfolding on_task_event schedule_invalidate completion_toast
refetches-on_task_event now none h = refl
refetches-on_task_event now (some e) h = added (toast_of e now (completion_variant e.type))
  where
    added : (o : Option CompletionToast) → (add_toast o h).refetches ≡ h.refetches
    added none = refl
    added (some t) = refl

refetches-hear : (es : List (ℕ × Option TaskEvent)) (h : Hook) → (hear es h).refetches ≡ h.refetches
unfolding hear
refetches-hear [] h = refl
refetches-hear ((now, e) ∷ es) h =
    refetches-hear es (on_task_event now e h) ∙ refetches-on_task_event now e h

-- A timer that is pending stays pending, or is replaced.
pending-hear :
    (es : List (ℕ × Option TaskEvent)) (h : Hook) (at : ℕ)
    → h.flush_timer ≡ some at
    → (due : ℕ) × ((hear es h).flush_timer ≡ some due)
unfolding hear on_task_event schedule_invalidate completion_toast
pending-hear [] h at p = (at, p)
pending-hear ((now, none) ∷ es) h at p = pending-hear es h at p
pending-hear ((now, some e) ∷ es) h at p =
    pending-hear es (on_task_event now (some e) h) (now + 250) refl

-- However many frames arrive before the timer fires, the first of them a task event, the timer then asks for
-- one refetch only, and none is pending.
pub burst-IsOneRefetch :
    (now : ℕ) (e : TaskEvent) (es : List (ℕ × Option TaskEvent)) (h : Hook)
    → IsOneRefetch h (fire (hear ((now, some e) ∷ es) h))
unfolding hear fire on_task_event schedule_invalidate completion_toast
burst-IsOneRefetch now e es h =
    let start = on_task_event now (some e) h in
    let (due, p) = pending-hear es start (now + 250) refl in
    let count = refetches-hear es start ∙ refetches-on_task_event now (some e) h in
    record {
      refetches = ap (λ o. (fired o (hear es start)).refetches) p ∙ ap suc count;
      idle = ap (λ o. (fired o (hear es start)).flush_timer) p;
    }
