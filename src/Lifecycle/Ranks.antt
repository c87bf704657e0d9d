-- ===== src/Lifecycle/Ranks.antt =====
-- The tasks that have had one handle, one after the other. A table holds the row that was inserted last first.
use background_job_runner.Prelude.{
  ◌<◌, ◌≤◌, ◌≡◌, refl, sym, ◌∙◌, Bool, true, false, not, List, [], ◌∷◌, map, arith, any, All,
  All-at, All-of_at, At, at_head, at_tail, any-false-at, and-true_left, not-true-false, text_eq_iff,
}
use background_job_runner.Types.{TaskRow}
use background_job_runner.Repository.Schema.{active, has_handle, clashes, keys_ok}
use background_job_runner.Repository.Writes.{change}
use background_job_runner.Lifecycle.{Edge, Lives, IsNew}
use background_job_runner.Lifecycle.Rows.{Lives-SameTask, Lives-retired}
use background_job_runner.Lifecycle.Tables.{Lives-change}

-- Whether `u` has the handle of `t`.
abbrev pub shares : TaskRow → TaskRow → Bool
shares t u = has_handle t.user_id t.lane t.handle_num u

-- A row that has the handle of a later one is retired.
abbrev pub Supersedes : TaskRow → TaskRow → Type 0
Supersedes t u = shares t u ≡ true → active u ≡ false

unfoldable pub IsRanked : List TaskRow → Type 0
IsRanked [] = Unit
IsRanked (t ∷ ts) = All (Supersedes t) ts × IsRanked ts

shares_lem :
    (t u : TaskRow)
    → shares t u ≡ true
    → (u.user_id ≡ t.user_id) × (u.lane ≡ t.lane) × (u.handle_num ≡ t.handle_num)
shares_lem t u h = (ground arith, (text_eq_iff u.lane t.lane).0 (ground arith), ground arith)

shares_of :
    (t u : TaskRow)
    → u.user_id ≡ t.user_id
    → u.lane ≡ t.lane
    → u.handle_num ≡ t.handle_num
    → shares t u ≡ true
shares_of t u p q r = ground (arith, (text_eq_iff u.lane t.lane).1 q)

Supersedes-Lives : {t v u x : TaskRow} → Lives t v → Lives u x → Supersedes t u → Supersedes v x
Supersedes-Lives {t} {v} {u} {x} l m s h =
    let a = Lives-SameTask l in
    let b = Lives-SameTask m in
    let (p, q, r) = shares_lem v x h in
    let gone : active u ≡ false = s (
      shares_of t u (sym b.user_id ∙ p ∙ a.user_id) (sym b.lane ∙ q ∙ a.lane)
        (sym b.handle_num ∙ r ∙ a.handle_num)) in
    let same : x ≡ u = Lives-retired m gone in rw same gone

All-Supersedes :
    (p : TaskRow → Bool) (f : TaskRow → TaskRow) {t v : TaskRow} (us : List TaskRow)
    → Lives t v
    → ((u : TaskRow) → At u us → p u ≡ true → Edge u (f u))
    → All (Supersedes t) us
    → All (Supersedes v) (map (change p f) us)
All-Supersedes p f [] l edge h = tt
All-Supersedes p f (u ∷ us) l edge h = (
  Supersedes-Lives l (Lives-change p f u (edge u at_head)) h.0,
  All-Supersedes p f us l (λ x i. edge x (at_tail i)) h.1,
)

pub IsRanked-change :
    (p : TaskRow → Bool) (f : TaskRow → TaskRow) (ts : List TaskRow)
    → ((t : TaskRow) → At t ts → p t ≡ true → Edge t (f t))
    → IsRanked ts
    → IsRanked (map (change p f) ts)
unfolding IsRanked
IsRanked-change p f [] edge h = tt
IsRanked-change p f (t ∷ ts) edge h = (
  All-Supersedes p f ts (Lives-change p f t (edge t at_head)) (λ u i. edge u (at_tail i)) h.0,
  IsRanked-change p f ts (λ u i. edge u (at_tail i)) h.1,
)

free_of : (t u : TaskRow) → IsNew t → clashes t u ≡ false → Supersedes t u
free_of t u n c h = ground (arith, n.queued)

-- The unique index on the handles of active tasks sees to it when a row is inserted.
pub IsRanked-insert :
    (t : TaskRow) (ts : List TaskRow)
    → IsNew t
    → keys_ok (t ∷ ts) ≡ true
    → IsRanked ts
    → IsRanked (t ∷ ts)
unfolding IsRanked keys_ok
IsRanked-insert t ts n k h =
    let apart = not-true-false (and-true_left (not (any (clashes t) ts)) (keys_ok ts) k) in
    (All-of_at ts (λ u i. free_of t u n (any-false-at (clashes t) apart i)), h)

-- The rows that have had one handle were created in the order in which they were inserted.
unfoldable pub IsChronological : List TaskRow → Type 0
IsChronological [] = Unit
IsChronological (t ∷ ts) =
    All (λ u. shares t u ≡ true → u.created_at < t.created_at) ts × IsChronological ts

-- The active task with a handle is then the newest with it.
pub active-IsNewest :
    (ts : List TaskRow) (t s : TaskRow)
    → IsRanked ts
    → IsChronological ts
    → At t ts
    → active t ≡ true
    → At s ts
    → shares t s ≡ true
    → t.created_at ≤ s.created_at
    → s ≡ t
unfolding IsRanked IsChronological
active-IsNewest [] t s r c i a j h l = elim i [ ]
active-IsNewest (_ ∷ ts) t s r c at_head a at_head h l = refl
active-IsNewest (x ∷ ts) t s r c at_head a (at_tail j) h l =
    absurd (omega (arith, All-at (λ u. shares x u ≡ true → u.created_at < x.created_at) c.0 j h))
active-IsNewest (x ∷ ts) t s r c (at_tail i) a at_head h l =
    let (p, q, n) = shares_lem t x h in
    let gone : active t ≡ false =
      All-at (Supersedes x) r.0 i (shares_of x t (sym p) (sym q) (sym n)) in
    cc
active-IsNewest (x ∷ ts) t s r c (at_tail i) a (at_tail j) h l =
    active-IsNewest ts t s r.1 c.1 i a j h l
