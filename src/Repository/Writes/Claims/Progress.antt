-- ===== src/Repository/Writes/Claims/Progress.antt =====
-- No runnable task waits for ever: claims in a row, of backend/src/engine/repository.ts.
use background_job_runner.Prelude.{
  ℕ, ◌≤◌, ◌<◌, ◌≡◌, refl, sym, ap, ◌∙◌, Bool, true, false, ◌&&◌, not, List, [], ◌∷◌, map, arith,
  inl, inr, ◌⊎◌, ◌==◌, ==_iff, Bool-cases, filter, length, At, at_head, at_tail, At-filter, At-map,
  All-at, subst, any, if_elim,
}
use background_job_runner.Types.{TaskRow, TaskStatus, status_eq}
use background_job_runner.Errors.{ok}
use background_job_runner.Repository.Sql.{Db, statement}
use background_job_runner.Repository.Sql.Rules.{guarded-ok, statement-ok}
use background_job_runner.Repository.Schema.{keys_ok}
use background_job_runner.Repository.Writes.{
  is_runnable, id_in, created_le, claimed_by, claim_rows, claim, change,
}
use background_job_runner.Repository.Writes.Effects.{Updated, update_where-ok}
use background_job_runner.Repository.Writes.Claims.{
  claim-IsClaim, claimable, ids, taken_of, id_in-picked, picked-claimable, stamp,
}

-- A queued row that is as old as this one, and another.
abbrev pub is_ahead : TaskRow → TaskRow → Bool
is_ahead t s = status_eq s.status TaskStatus.queued && created_le s t && not (s.id == t.id)

abbrev pub ahead : TaskRow → List TaskRow → ℕ
ahead t ts = length (filter (is_ahead t) ts)

module _ (q : TaskRow → Bool) (g : TaskRow → TaskRow)
    (back : (v : TaskRow) → q (g v) ≡ true → q v ≡ true) where
  count-map-le : (ts : List TaskRow) → length (filter q (map g ts)) ≤ length (filter q ts)
  count-map-le [] = omega arith
  count-map-le (t ∷ ts) = ground (arith, back t, count-map-le ts)

  count-map-lt :
      {s : TaskRow} (ts : List TaskRow)
      → At s ts
      → q s ≡ true
      → q (g s) ≡ false
      → length (filter q (map g ts)) < length (filter q ts)
  count-map-lt [] i h n = elim i [ ]
  count-map-lt (t ∷ ts) at_head h n = ground (arith, count-map-le ts)
  count-map-lt (t ∷ ts) (at_tail i) h n = ground (arith, back t, count-map-lt ts i h n)

module _ (runner_id lease_ms limit : ℕ) (db : Db) where
  claim-Updated :
      (rows : List TaskRow) (db' : Db)
      → claim runner_id lease_ms limit [] db ≡ (ok rows, db')
      → Updated
          (id_in (ids [] limit db.now db.tasks))
          (claimed_by runner_id lease_ms db.now)
          db
          rows
          db'
  unfolding claim claim_rows ids
  claim-Updated rows db' h =
      let (fs, ran) =
        statement-ok (claim_rows runner_id lease_ms limit []) db
          (guarded-ok (statement (claim_rows runner_id lease_ms limit [])) db h) in
      let u =
        update_where-ok (id_in (ids [] limit db.now db.tasks))
          (claimed_by runner_id lease_ms db.now) (record db { faults = fs }) ran in
      record {
        rows = u.rows;
        tasks = u.tasks;
        keys = u.keys;
        events = u.events;
        sequence = u.sequence;
        clock = u.clock;
      }

  -- Of a row that a claim leaves: fewer rows are ahead of it.
  record IsNearer (t : TaskRow) (db' : Db) : Type 0 where
    stays : At t db'.tasks
    nearer : ahead t db'.tasks < ahead t db.tasks

  taken : TaskRow → Bool
  taken t = id_in (ids [] limit db.now db.tasks) t

  changed : TaskRow → TaskRow
  unfolding taken
  changed t = change taken (claimed_by runner_id lease_ms db.now) t

  is_ahead-changed : (t v : TaskRow) → is_ahead t (changed v) ≡ true → is_ahead t v ≡ true
  unfolding changed
  is_ahead-changed t v h =
      if_elim (λ (w : TaskRow). is_ahead t w ≡ true → is_ahead t v ≡ true) (taken v) _ _
        (λ _ e. absurd (ground arith)) (λ _ e. e) h

  taken-ne : (s t : TaskRow) → taken s ≡ true → taken t ≡ false → (s.id == t.id) ≡ false
  unfolding taken
  taken-ne s t h n = elim (Bool-cases (s.id == t.id)) [
    | inl e ↦
        let same =
          ap (λ (k : ℕ). any (λ (i : ℕ). i == k) (ids [] limit db.now db.tasks))
            ((==_iff s.id t.id).0 e) in
        absurd (ground arith)
    | inr e ↦ e
  ]

  -- A picked row that is as old as `t` is no longer ahead of it.
  picked-nearer :
      (t s : TaskRow)
      → claimable [] db.now s ≡ true
      → taken s ≡ true
      → created_le s t ≡ true
      → (s.id == t.id) ≡ false
      → (is_ahead t s ≡ true) × (is_ahead t (changed s) ≡ false)
  unfolding changed
  picked-nearer t s r h c n = (ground arith, rw h refl)

  changed-other : (t : TaskRow) → taken t ≡ false → changed t ≡ t
  unfolding changed
  changed-other t n = rw n refl

  some_at : (rows : List TaskRow) → 1 ≤ length rows → (v : TaskRow) × At v rows
  some_at [] h = absurd (omega arith)
  some_at (v ∷ rows) h = (v, at_head)

  claim-IsNearer :
      (t : TaskRow) (rows : List TaskRow) (db' : Db)
      → 1 ≤ limit
      → keys_ok db.tasks ≡ true
      → At t db.tasks
      → is_runnable db.now t ≡ true
      → claim runner_id lease_ms limit [] db ≡ (ok rows, db')
      → At (claimed_by runner_id lease_ms db.now t) rows ⊎ IsNearer t db'
  unfolding taken changed stamp
  claim-IsNearer t rows db' l k i r h =
      let u = claim-Updated rows db' h in
      let claimed = claim-IsClaim runner_id lease_ms limit [] db rows db' k h in
      elim (Bool-cases (taken t)) [
        | inl e ↦ inl (
            subst (At (claimed_by runner_id lease_ms db.now t)) (sym u.rows)
              (At-map (claimed_by runner_id lease_ms db.now) (At-filter taken e i)))
        | inr n ↦ elim (claimed.oldest t i (ground arith)) [
          | inl j ↦ inl j
          | inr (full, older) ↦
              let (v, j) = some_at rows (omega arith) in
              let (s, m, same) =
                taken_of runner_id lease_ms limit [] db v k (subst (At v) u.rows j) in
              let (stood, runs) = All-at _ (picked-claimable [] limit db.now db.tasks) m in
              let took = id_in-picked [] limit db.now db.tasks s m in
              let old : created_le s t ≡ true =
                subst (λ (w : TaskRow). created_le w t ≡ true) same (All-at _ older j) in
              let (was, is) = picked-nearer t s runs took old (taken-ne s t took n) in
              inr (record {
                stays = subst (At t) (sym u.tasks) (
                    subst (λ (w : TaskRow). At w (map changed db.tasks)) (changed-other t n)
                      (At-map changed i));
                nearer =
                    subst (λ (ts : List TaskRow). ahead t ts < ahead t db.tasks) (sym u.tasks)
                      (count-map-lt (is_ahead t) changed (is_ahead-changed t) db.tasks stood was
                        is);
              })
        ]
      ]

-- Claims in a row, of one row at least each, with the rows that they took. Between two of them time passes, and
-- nothing else writes the tasks.
pub data Claims : List (List TaskRow) → Db → Type 0 where
  no_more : {db : Db} → Claims [] db
  then_claim :
      {db mid next : Db} {rows : List TaskRow} {later : List (List TaskRow)}
      (runner_id lease_ms limit : ℕ)
      → 1 ≤ limit
      → claim runner_id lease_ms limit [] db ≡ (ok rows, mid)
      → next.tasks ≡ mid.tasks
      → mid.now ≤ next.now
      → Claims later next
      → Claims (rows ∷ later) db

still_runnable :
    (now later : ℕ) (t : TaskRow)
    → now ≤ later
    → is_runnable now t ≡ true
    → is_runnable later t ≡ true
still_runnable now later t h r = ground arith

-- One of the claims took the task.
abbrev pub Takes : TaskRow → List (List TaskRow) → Type 0
Takes t claims =
    (rows : List TaskRow) × At rows claims
    × (u : TaskRow) × At u rows
    × (u.id ≡ t.id)
    × (u.status ≡ TaskStatus.running)

-- From a table with valid keys, a runnable task is taken by one of the claims, if they are more than the
-- queued tasks besides it that are as old as it.
pub Claims-Takes :
    (t : TaskRow) (claims : List (List TaskRow)) (db : Db)
    → keys_ok db.tasks ≡ true
    → At t db.tasks
    → is_runnable db.now t ≡ true
    → Claims claims db
    → ahead t db.tasks < length claims
    → Takes t claims
Claims-Takes t [] db k i r cs h = absurd (omega arith)
Claims-Takes t (rows ∷ claims) db k i r
      (then_claim {mid = mid} {next = next} runner_id lease_ms limit l ran same passed cs) h =
    let u = claim-Updated runner_id lease_ms limit db rows mid ran in
    let keys = subst (λ (ts : List TaskRow). keys_ok ts ≡ true) (sym (same ∙ u.tasks)) u.keys in
    elim (claim-IsNearer runner_id lease_ms limit db t rows mid l k i r ran) [
      | inl j ↦ (rows, at_head, claimed_by runner_id lease_ms db.now t, j, refl, refl)
      | inr near ↦
          let stood = subst (At t) (sym same) near.stays in
          let runs = still_runnable db.now next.now t (omega (arith, u.clock, passed)) r in
          let fewer : ahead t next.tasks < length claims =
            omega (arith, near.nearer, ap (ahead t) same) in
          let (rs, m, v, j, e, runs') = Claims-Takes t claims next keys stood runs cs fewer in
          (rs, at_tail m, v, j, e, runs')
    ]
