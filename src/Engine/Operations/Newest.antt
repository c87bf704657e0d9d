-- ===== src/Engine/Operations/Newest.antt =====
-- Whom a handle names: `find` of backend/src/engine/orchestration-engine.ts takes the newest of the user's tasks
-- that have it.
use background_job_runner.Prelude.{
  ◌≤◌, ◌≡◌, ◌≢◌, refl, ap, ◌∙◌, true, false, List, [], ◌∷◌, some, arith, filter, head?, At, at_head,
  at_tail, At-filter, At-filter_inv, All, ltb, All-at, All-of_at, ==_refl, text_eq_refl,
}
use background_job_runner.Prelude.Sort.{
  sort_by, At-sort_by, All-sort_by, IsOrdered, IsOrdered-sort_by,
}
use background_job_runner.Types.{TaskRow}
use background_job_runner.Errors.{ok}
use background_job_runner.Repository.Schema.{has_handle}
use background_job_runner.Repository.Reads.{created_ge}
use background_job_runner.Repository.Operations.{handle_of}
use background_job_runner.Engine.Numbers.{Numbers, ReadsDecimals}
use background_job_runner.Engine.World.{World}
use background_job_runner.Engine.Operations.{find, or_not_found}
use background_job_runner.Engine.Operations.Guarded.{rows, found, find-found}
use background_job_runner.Engine.Operations.Names.{parse_handle-handle_of}

-- No other task of the user with the handle of `t` was created at its time or later.
unfoldable pub IsNewest : List TaskRow → TaskRow → Type 0
IsNewest ts t =
    (s : TaskRow)
    → At s ts
    → has_handle t.user_id t.lane t.handle_num s ≡ true
    → t.created_at ≤ s.created_at
    → s ≡ t

abbrev Yields : TaskRow → TaskRow → Type 0
Yields t s = t.created_at ≤ s.created_at → s ≡ t

head-newest :
    (t : TaskRow) (us : List TaskRow)
    → IsOrdered created_ge us
    → At t us
    → ((s : TaskRow) → At s us → Yields t s)
    → head? us ≡ some t
head-newest t [] o i newest = elim i [ ]
head-newest t (_ ∷ us) o at_head newest = refl
head-newest t (u ∷ us) o (at_tail i) newest =
    let after : created_ge u t ≡ true = All-at (λ s. created_ge u s ≡ true) o.0 i in
    ap some (newest u at_head (ground (arith, after)))

has_handle_self : (t : TaskRow) → has_handle t.user_id t.lane t.handle_num t ≡ true
has_handle_self t = ground (arith, ==_refl t.user_id, text_eq_refl t.lane, ==_refl t.handle_num)

created_ge_total : (t u : TaskRow) → created_ge t u ≡ false → created_ge u t ≡ true
created_ge_total t u h = ground arith

created_ge_trans :
    (t u v : TaskRow) → created_ge t u ≡ true → created_ge u v ≡ true → created_ge t v ≡ true
created_ge_trans t u v h k = ground arith

-- The newest task with a handle is the one that the handle finds.
pub find-IsNewest :
    (num : Numbers) (w : World) (t : TaskRow)
    → ReadsDecimals num
    → t.lane ≢ []
    → 1 ≤ t.handle_num
    → t.handle_num ≤ 2147483647
    → w.db.faults ≡ []
    → At t w.db.tasks
    → IsNewest w.db.tasks t
    → find num t.user_id (handle_of t.lane t.handle_num) w ≡ (ok t, w)
unfolding found rows IsNewest
find-IsNewest num w t reads named positive safe calm i newest =
    let handle = handle_of t.lane t.handle_num in
    let mine = has_handle t.user_id t.lane t.handle_num in
    let here = filter mine w.db.tasks in
    let read =
      parse_handle-handle_of num t.lane t.handle_num reads named positive (omega (arith, safe)) in
    let older : All (Yields t) here =
      All-of_at here
        (λ s j. let (stands, same) = At-filter_inv mine s w.db.tasks j in newest s stands same) in
    let small : ltb 2147483647 t.handle_num ≡ false = ground (arith, safe) in
    let first : head? (sort_by created_ge here) ≡ some t =
      head-newest t (sort_by created_ge here)
        (IsOrdered-sort_by created_ge created_ge_total created_ge_trans here)
        (At-sort_by created_ge here (At-filter mine (has_handle_self t) i))
        (λ s j. All-at (Yields t) (All-sort_by created_ge (Yields t) here older) j) in
    find-found num t.user_id handle w calm
    ∙ ap (λ r. found num t.user_id handle r w) read
    ∙ rw small (ap (λ r. or_not_found r w) first)
