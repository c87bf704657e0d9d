-- ===== src/Http/Stream/Seamless.antt =====
-- What a stream sends: GET /events of backend/src/modules/task/task.routes.ts.
use background_job_runner.Prelude.{
  ℕ, suc, zero, ◌≤◌, ◌<◌, ◌≡◌, refl, ap, sym, ◌∙◌, fun_ext, Bool, true, false, ◌||◌, ◌&&◌, not,
  List, [], ◌∷◌, ◌++◌, append-nil, append_assoc, map, arith, ◌==◌, ==_iff, ltb, any, filter, length,
  take, if◌then◌else◌, Bool-cases, At, at_head, at_tail, At-filter, At-append_left, At-append_right,
  At-map, inl, inr,
}
use background_job_runner.Prelude.Sort.{sort_by, At-sort_by}
use background_job_runner.Types.{TaskRow}
use background_job_runner.Types.Events.{EngineEvent, TaskEventRow, TaskEventWithTask}
use background_job_runner.Errors.{ok}
use background_job_runner.Repository.Sql.{statement, guarded}
use background_job_runner.Repository.Reads
use background_job_runner.Repository.Reads.{query, join_task, join_tasks, event_le}
use background_job_runner.Engine.Bus.{to_engine_event}
use background_job_runner.Engine.World.{World}
use background_job_runner.Engine.Operations.{events_since}
use background_job_runner.Http.Stream.{
  Connection, Frame, to_frame, opened, emit, on_event, receive, replay, flush, take_buffer, resume,
  stream, open_stream,
}

-- The connection before and after the replay.
waiting : List EngineEvent → List ℕ → List Frame → Connection
waiting b d s = record opened { buffered = b; delivered = d; sent = s }

flowing : List Frame → Connection
flowing s = record opened { live = true; sent = s }

receive-waiting :
    (b es : List EngineEvent) (d : List ℕ) (s : List Frame)
    → receive (waiting b d s) es ≡ waiting (b ++ es) d s
unfolding receive on_event waiting
receive-waiting b [] d s = ap (λ x. waiting x d s) (sym (append-nil b))
receive-waiting b (e ∷ es) d s =
    receive-waiting (b ++ e ∷ []) es d s ∙ ap (λ x. waiting x d s) (append_assoc b (e ∷ []) es)

receive-flowing :
    (s : List Frame) (es : List EngineEvent)
    → receive (flowing s) es ≡ flowing (s ++ map to_frame es)
unfolding receive on_event emit flowing
receive-flowing s [] = ap flowing (sym (append-nil s))
receive-flowing s (e ∷ es) =
    receive-flowing (s ++ to_frame e ∷ []) es
    ∙ ap flowing (append_assoc s (to_frame e ∷ []) (map to_frame es))

-- The ids that a replay marks as delivered.
marked : List ℕ → List EngineEvent → List ℕ
marked d [] = d
marked d (e ∷ es) = marked (e.id ∷ d) es

pub has_id : List EngineEvent → EngineEvent → Bool
has_id es e = any (λ (r : EngineEvent). e.id == r.id) es

any-marked :
    (i : ℕ) (d : List ℕ) (es : List EngineEvent)
    → any (◌==◌ i) (marked d es) ≡ (any (λ (r : EngineEvent). i == r.id) es || any (◌==◌ i) d)
unfolding marked
any-marked i d [] = refl
any-marked i d (e ∷ es) = any-marked i (e.id ∷ d) es ∙ ground arith

replay-waiting :
    (es b : List EngineEvent) (d : List ℕ) (s : List Frame)
    → replay es (waiting b d s) ≡ waiting b (marked d es) (s ++ map to_frame es)
unfolding replay emit waiting marked
replay-waiting [] b d s = ap (waiting b d) (sym (append-nil s))
replay-waiting (e ∷ es) b d s =
    replay-waiting es b (e.id ∷ d) (s ++ to_frame e ∷ [])
    ∙ ap (waiting b (marked (e.id ∷ d) es)) (append_assoc s (to_frame e ∷ []) (map to_frame es))

fresh : List ℕ → EngineEvent → Bool
fresh d e = not (any (◌==◌ e.id) d)

flush-waiting :
    (es : List EngineEvent) (d : List ℕ) (s : List Frame)
    → flush es (waiting [] d s) ≡ waiting [] d (s ++ map to_frame (filter (fresh d) es))
unfolding flush emit waiting fresh
flush-waiting [] d s = ap (waiting [] d) (sym (append-nil s))
flush-waiting (e ∷ es) d s = elim (Bool-cases (any (◌==◌ e.id) d)) [
  | inl h ↦ simp h (flush-waiting es d s)
  | inr h ↦ simp h (
      flush-waiting es d (s ++ to_frame e ∷ [])
      ∙ ap (waiting [] d) (append_assoc s (to_frame e ∷ []) (map to_frame (filter (fresh d) es))))
]

fresh-marked : (es : List EngineEvent) → fresh (marked [] es) ≡ (λ e. not (has_id es e))
unfolding fresh has_id
fresh-marked es = fun_ext (λ e. ap not (any-marked e.id [] es ∙ ground arith))

resumed :
    (early replayed : List EngineEvent)
    → resume replayed (receive opened early)
      ≡ flowing
          (map to_frame replayed ++ map to_frame (filter (λ e. not (has_id replayed e)) early))
unfolding resume waiting flowing
resumed early replayed =
    ap (resume replayed) (receive-waiting [] early [] [])
    ∙ ap {B = Connection}
        (λ (c : Connection). record (take_buffer c) { live = true; delivered = [] })
        (replay-waiting replayed early [] [])
    ∙ ap {B = Connection} (λ (c : Connection). record c { live = true; delivered = [] })
        (flush-waiting early (marked [] replayed) (map to_frame replayed))
    ∙ ap (λ p. flowing (map to_frame replayed ++ map to_frame (filter p early)))
        (fresh-marked replayed)

-- A stream sends what it replays, in order, then what was published while it waited for the replay and
-- that the replay has not brought, then whatever is published later.
pub stream-sent :
    (early replayed late : List EngineEvent)
    → (stream early replayed late).sent
      ≡ map to_frame replayed
        ++ map to_frame (filter (λ e. not (has_id replayed e)) early)
        ++ map to_frame late
unfolding stream
stream-sent early replayed late =
    ap (λ (c : Connection). (receive c late).sent) (resumed early replayed)
    ∙ unfold flowing in
      ap (λ (c : Connection). c.sent)
        (receive-flowing
          (map to_frame replayed ++ map to_frame (filter (λ e. not (has_id replayed e)) early))
          late)

At-join_task :
    (e : TaskEventRow) (t : TaskRow) (ts : List TaskRow)
    → At t ts
    → t.id ≡ e.task_id
    → At (record { event = e; lane = t.lane; handle_num = t.handle_num }) (join_task e ts)
unfolding join_task
At-join_task e t [] i h = elim i [ ]
At-join_task e t (_ ∷ ts) at_head h = simp ((==_iff t.id e.task_id).1 h) at_head
At-join_task e t (u ∷ ts) (at_tail i) h = skip (u.id == e.task_id) (At-join_task e t ts i h)
  where
    skip :
        (b : Bool) {r : List TaskEventWithTask} {x : TaskEventWithTask}
        → At x r
        → At x (if b then record { event = e; lane = u.lane; handle_num = u.handle_num } ∷ r else r)
    skip true j = at_tail j
    skip false j = j

At-join_tasks :
    (e : TaskEventRow) (es : List TaskEventRow) (t : TaskRow) (ts : List TaskRow)
    → At e es
    → At t ts
    → t.id ≡ e.task_id
    → At (record { event = e; lane = t.lane; handle_num = t.handle_num }) (join_tasks es ts)
unfolding join_tasks
At-join_tasks e [] t ts i j h = elim i [ ]
At-join_tasks e (_ ∷ es) t ts at_head j h =
    At-append_left (join_tasks es ts) (At-join_task e t ts j h)
At-join_tasks e (d ∷ es) t ts (at_tail i) j h =
    At-append_right (join_task d ts) (At-join_tasks e es t ts i j h)

take-all : {A : Type 0} (n : ℕ) (xs : List A) → length xs ≤ n → take n xs ≡ xs
take-all zero [] h = refl
take-all zero (x ∷ xs) h = absurd (omega (arith, h))
take-all (suc n) [] h = refl
take-all (suc n) (x ∷ xs) h = ap (◌∷◌ x) (take-all n xs (omega (arith, h)))

-- The events of a user after the cursor, as the query joins them.
unfoldable pub missed_events : ℕ → ℕ → World → List TaskEventWithTask
missed_events user_id cursor w =
    join_tasks
      (sort_by event_le
        (filter (λ (e : TaskEventRow). e.user_id == user_id && ltb cursor e.id) w.db.events))
      w.db.tasks

opened_stream :
    (user_id cursor : ℕ) (early late : List EngineEvent) (w : World)
    → w.db.faults ≡ []
    → length (missed_events user_id cursor w) ≤ 500
    → open_stream user_id cursor early late w
      ≡ (ok (stream early (map to_engine_event (missed_events user_id cursor w)) late), w)
unfolding open_stream events_since Reads.events_since query guarded statement missed_events
opened_stream user_id cursor early late w calm h =
    ap (λ fs. open_stream user_id cursor early late (record w { db = record w.db { faults = fs } }))
      calm
    ∙ ap
        (λ es. (
          ok (stream early (map to_engine_event es) late),
          record w { db = record w.db { faults = [] } },
        ))
        (take-all 500 _ h)
    ∙ ap
        (λ fs. (
          ok (stream early (map to_engine_event (missed_events user_id cursor w)) late),
          record w { db = record w.db { faults = fs } },
        ))
        (sym calm)

-- Without faults, and while there are at most 500 events of the user after the cursor, a stream that is
-- opened at the cursor changes nothing and sends every one of them whose task stands in the table.
pub open_stream-sent :
    (user_id cursor : ℕ) (early late : List EngineEvent) (w : World) (e : TaskEventRow)
    (t : TaskRow)
    → w.db.faults ≡ []
    → length (missed_events user_id cursor w) ≤ 500
    → At e w.db.events
    → e.user_id ≡ user_id
    → cursor < e.id
    → At t w.db.tasks
    → t.id ≡ e.task_id
    → (c : Connection) × (open_stream user_id cursor early late w ≡ (ok c, w))
      × (f : Frame) × At f c.sent
      × (f.id ≡ e.id)
unfolding missed_events to_frame to_engine_event
open_stream-sent user_id cursor early late w e t calm h i u l j k =
    let row : TaskEventWithTask = record { event = e; lane = t.lane; handle_num = t.handle_num } in
    let found =
      At-join_tasks e _ t w.db.tasks
        (At-sort_by event_le _ (
          At-filter (λ (e : TaskEventRow). e.user_id == user_id && ltb cursor e.id) (ground arith)
            i))
        j k in
    (
      stream early (map to_engine_event (missed_events user_id cursor w)) late,
      opened_stream user_id cursor early late w calm h,
      to_frame (to_engine_event row),
      rw (stream-sent early (map to_engine_event (missed_events user_id cursor w)) late)
          (At-append_left _ (At-append_left _ (At-map to_frame (At-map to_engine_event found)))),
      refl,
    )
