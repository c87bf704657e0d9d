-- ===== src/Lifecycle/Tables.antt =====
-- Tables over time: composition, and what a whole table keeps.
use background_job_runner.Prelude.{
  ◌≡◌, Bool, true, List, [], ◌∷◌, map, All, At, at_head, at_tail, if_elim,
}
use background_job_runner.Types.{TaskRow}
use background_job_runner.Repository.Writes.{change}
use background_job_runner.Lifecycle.{Edge, Lives, still, next, Evolves, empty, live, add}
use background_job_runner.Lifecycle.Rows.{
  IsSound, IsNew-IsSound, Lives-IsSound, Lives-trans, Lives-retired, IsRetired,
}

pub Evolves-refl : (ts : List TaskRow) → Evolves ts ts
Evolves-refl [] = empty
Evolves-refl (t ∷ ts) = live still (Evolves-refl ts)

pub Evolves-trans : {ts us vs : List TaskRow} → Evolves ts us → Evolves us vs → Evolves ts vs
Evolves-trans a empty = a
Evolves-trans a (add n l b) = add n l (Evolves-trans a b)
Evolves-trans (live l a) (live m b) = live (Lives-trans l m) (Evolves-trans a b)
Evolves-trans (add n l a) (live m b) = add n (Lives-trans l m) (Evolves-trans a b)

-- An update along edges.
pub Lives-change :
    (p : TaskRow → Bool) (f : TaskRow → TaskRow) (t : TaskRow)
    → (p t ≡ true → Edge t (f t))
    → Lives t (change p f t)
Lives-change p f t edge = if_elim (Lives t) (p t) (f t) t (λ h. next still (edge h)) (λ _. still)

pub Evolves-change :
    (p : TaskRow → Bool) (f : TaskRow → TaskRow) (ts : List TaskRow)
    → ((t : TaskRow) → At t ts → p t ≡ true → Edge t (f t))
    → Evolves ts (map (change p f) ts)
Evolves-change p f [] edge = empty
Evolves-change p f (t ∷ ts) edge =
    live (Lives-change p f t (edge t at_head)) (Evolves-change p f ts (λ u i. edge u (at_tail i)))

pub Evolves-IsSound : {ts us : List TaskRow} → Evolves ts us → All IsSound ts → All IsSound us
Evolves-IsSound empty h = tt
Evolves-IsSound (live l e) h = (Lives-IsSound l h.0, Evolves-IsSound e h.1)
Evolves-IsSound (add n l e) h = (Lives-IsSound l (IsNew-IsSound n), Evolves-IsSound e h)

-- Every row is still there, as the same task.
pub Evolves-at :
    {ts us : List TaskRow} {t : TaskRow}
    → Evolves ts us
    → At t ts
    → (u : TaskRow) × At u us × Lives t u
Evolves-at empty i = elim i [ ]
Evolves-at (live {u = u} l e) at_head = (u, at_head, l)
Evolves-at (live l e) (at_tail i) = let (v, j, m) = Evolves-at e i in (v, at_tail j, m)
Evolves-at (add n l e) i = let (v, j, m) = Evolves-at e i in (v, at_tail j, m)

-- A retired row stays as it is.
pub Evolves-retired :
    {ts us : List TaskRow} (t : TaskRow) → Evolves ts us → At t ts → IsRetired t → At t us
Evolves-retired t e i r =
    let (u, j, l) = Evolves-at e i in let q : u ≡ t = Lives-retired l r in rw (← q) j
