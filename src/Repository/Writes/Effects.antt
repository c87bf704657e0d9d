-- ===== src/Repository/Writes/Effects.antt =====
-- What the statements did, when they returned.
use background_job_runner.Prelude.{
  ℕ, suc, ◌≡◌, refl, Bool, true, List, [], ◌∷◌, ◌++◌, ==_iff, map, Option, none, some, arith,
  filter, head?, Bool-cases, some_injective, inl, inr, subst, At, at_head, at_tail, ap, sym,
}
use background_job_runner.Types.{TaskRow, TaskPatch, TaskGuard}
use background_job_runner.Types.Events.{TaskEventRow}
use background_job_runner.Errors.{Thrown, ok}
use background_job_runner.Repository.Sql.{Db, ◌>>=◌, statement}
use background_job_runner.Repository.Sql.Rules.{
  err-ne-ok, ok-injective, statement-ok, guarded-ok, bind-ok,
}
use background_job_runner.Repository.Schema.{keys_ok}
use background_job_runner.Repository.Writes.{
  is_some_eq, change, update_where, selects, apply_patch, update_task, first_row, append_event,
  NewEvent, event_row, insert_event,
}

-- What the test of a nullable column says.
pub is_some_eq_lem : (o : Option ℕ) (n : ℕ) → is_some_eq o n ≡ true → o ≡ some n
is_some_eq_lem none n h = absurd (ground arith)
is_some_eq_lem (some m) n h = ap some ((==_iff m n).0 h)

-- The effect of one update on the tables.
pub record Updated (p : TaskRow → Bool) (f : TaskRow → TaskRow) (db : Db) (rs : List TaskRow)
    (db' : Db) : Type 0 where
  pub rows : rs ≡ map f (filter p db.tasks)
  pub tasks : db'.tasks ≡ map (change p f) db.tasks
  pub keys : keys_ok (map (change p f) db.tasks) ≡ true
  pub events : db'.events ≡ db.events
  pub sequence : db'.next_event_id ≡ db.next_event_id
  pub clock : db'.now ≡ db.now

pub update_where-ok :
    (p : TaskRow → Bool) (f : TaskRow → TaskRow) (db : Db) {rs : List TaskRow} {db' : Db}
    → update_where p f db ≡ (ok rs, db')
    → Updated p f db rs db'
unfolding update_where
update_where-ok p f db {rs} {db'} h = elim (Bool-cases (keys_ok (map (change p f) db.tasks))) [
  | inl k ↦
      let (same, moved) =
        ok-injective {a = map f (filter p db.tasks)} {b = rs}
          {db = record db { tasks = map (change p f) db.tasks }} {db' = db'} (rw k at h) in
      subst (λ (d : Db). Updated p f db rs d) moved
        (record {
          rows = sym same;
          tasks = refl;
          keys = k;
          events = refl;
          sequence = refl;
          clock = refl;
        })
  | inr k ↦ absurd (err-ne-ok (rw k at h))
]

-- The row that `update_task` returned is the first that it changed.
pub update_task-ok :
    (id : ℕ) (patch : TaskPatch) (g : TaskGuard) (at : ℕ) (db : Db) {o : Option TaskRow} {db' : Db}
    → update_task id patch g at db ≡ (ok o, db')
    → (rs : List TaskRow) × (o ≡ head? rs) × Updated (selects id g) (apply_patch patch at) db rs db'
unfolding update_task
update_task-ok id patch g at db {o} {db'} h =
    let run = statement (update_where (selects id g) (apply_patch patch at)) in
    let (rs, mid, ran, rest) = bind-ok run first_row db (guarded-ok (run >>= first_row) db h) in
    let (fs, wrote) = statement-ok (update_where (selects id g) (apply_patch patch at)) db ran in
    let (same, moved) = ok-injective {a = head? rs} {b = o} {db = mid} {db' = db'} rest in
    (
      rs,
      sym same,
      subst (λ (d : Db). Updated (selects id g) (apply_patch patch at) db rs d) moved
          (relabel (update_where-ok (selects id g) (apply_patch patch at) _ wrote)),
    )
  where
    relabel :
        {fs : List (Option Thrown)} {rs : List TaskRow} {d : Db}
        → Updated (selects id g) (apply_patch patch at) (record db { faults = fs }) rs d
        → Updated (selects id g) (apply_patch patch at) db rs d
    relabel u = record {
      rows = u.rows;
      tasks = u.tasks;
      keys = u.keys;
      events = u.events;
      sequence = u.sequence;
      clock = u.clock;
    }

-- The effect of one inserted event.
pub record Logged (e : NewEvent) (db : Db) (row : TaskEventRow) (db' : Db) : Type 0 where
  pub row_is : row ≡ event_row e db
  pub tasks : db'.tasks ≡ db.tasks
  pub events : db'.events ≡ db.events ++ row ∷ []
  pub sequence : db'.next_event_id ≡ suc db.next_event_id

pub insert_event-ok :
    (e : NewEvent) (db : Db) {row : TaskEventRow} {db' : Db}
    → insert_event e db ≡ (ok row, db')
    → Logged e db row db'
unfolding insert_event append_event
insert_event-ok e db {row} {db'} h =
    let (fs, wrote) =
      statement-ok (append_event e) db (guarded-ok (statement (append_event e)) db h) in
    let (same, moved) =
      ok-injective {a = event_row e db} {b = row}
        {db = record db {
          events = db.events ++ event_row e db ∷ [];
          next_event_id = suc db.next_event_id;
          faults = fs;
        }}
        {db' = db'} wrote in
    subst (λ (d : Db). Logged e db row d) moved
      (subst
        (λ (r : TaskEventRow). Logged e db r (record db {
          events = db.events ++ event_row e db ∷ [];
          next_event_id = suc db.next_event_id;
          faults = fs;
        }))
        same (record { row_is = refl; tasks = refl; events = refl; sequence = refl }))

module _ (p : TaskRow → Bool) (f : TaskRow → TaskRow) where
  -- The first changed row was a row that the WHERE clause selects.
  pub head-map-filter :
      (ts : List TaskRow) {u : TaskRow}
      → some u ≡ head? (map f (filter p ts))
      → (t : TaskRow) × At t ts × (p t ≡ true) × (u ≡ f t)
  head-map-filter [] e = absurd (ground arith)
  head-map-filter (t ∷ ts) {u} e = elim (Bool-cases (p t)) [
    | inl h ↦ (t, at_head, h, some_injective (rw h at e))
    | inr h ↦ let (s, i, q, r) = head-map-filter ts (rw h at e) in (s, at_tail i, q, r)
  ]

  pub filter-nil : (ts : List TaskRow) → none ≡ head? (map f (filter p ts)) → filter p ts ≡ []
  filter-nil [] e = refl
  filter-nil (t ∷ ts) e = elim (Bool-cases (p t)) [
    | inl h ↦ absurd (ground arith)
    | inr h ↦ rw h (filter-nil ts (rw h at e))
  ]

  -- An update that selects no row changes none.
  pub change-nil : (ts : List TaskRow) → filter p ts ≡ [] → map (change p f) ts ≡ ts
  change-nil [] e = refl
  change-nil (t ∷ ts) e = elim (Bool-cases (p t)) [
    | inl h ↦ absurd (ground arith)
    | inr h ↦ rw h (ap (◌∷◌ t) (change-nil ts (rw h at e)))
  ]
