-- ===== src/Engine/Runner/Executions.antt =====
-- The keys of `inFlight` of `TaskRunner` in backend/src/engine/runner.ts, against the executions that go on.
use background_job_runner.Prelude.{
  ℕ, sym, ◌∙◌, ◌++◌, map, any, ◌==◌, if◌then◌else◌, Bool, append_assoc, append-nil, ==_iff, ◌≤◌,
  ◌≡◌, refl, subst, false, List, [], ◌∷◌, arith, length, if_elim, Bool-cases, inl, inr, ap,
}
use background_job_runner.Types.{TaskRow}
use background_job_runner.Engine.World.{
  World, InFlight, in_flight_set, in_flight_delete, in_flight_abort, is_entry, aborting,
}
use background_job_runner.Engine.Runner.{spawn_all, schedule_tick}
use background_job_runner.Engine.Jobs.{released}

abbrev pub keys_of : List InFlight → List ℕ
keys_of es = map (λ e. e.task_id) es

abbrev pub ids_of : List TaskRow → List ℕ
ids_of ts = map (λ t. t.id) ts

abbrev pub has_id : ℕ → List ℕ → Bool
has_id id ks = any (λ k. k == id) ks

-- No id twice.
abbrev pub Distinct : List ℕ → Type 0
Distinct [] = Unit
Distinct (k ∷ ks) = (has_id k ks ≡ false) × Distinct ks

-- One execution of the task is over.
abbrev pub without : ℕ → List ℕ → List ℕ
without id [] = []
without id (k ∷ ks) = let rest = k ∷ without id ks in if k == id then ks else rest

keys_of-set :
    (id : ℕ) (es : List InFlight)
    → has_id id (keys_of es) ≡ false
    → keys_of (in_flight_set id es) ≡ keys_of es ++ id ∷ []
unfolding in_flight_set
keys_of-set id [] h = refl
keys_of-set id (e ∷ es) h =
    if_elim (λ (r : List InFlight). keys_of r ≡ e.task_id ∷ (keys_of es ++ id ∷ [])) (is_entry id e)
      _ _ (λ q. absurd (ground arith)) (λ _. ap (◌∷◌ e.task_id) (keys_of-set id es (ground arith)))

apart_of : (k id : ℕ) (ks is : List ℕ) → has_id k (ks ++ id ∷ is) ≡ false → (k == id) ≡ false
apart_of k id [] is h = ground arith
apart_of k id (j ∷ ks) is h = apart_of k id ks is (ground arith)

fresh_of : (ks is : List ℕ) (id : ℕ) → Distinct (ks ++ id ∷ is) → has_id id ks ≡ false
fresh_of [] is id h = refl
fresh_of (k ∷ ks) is id h = ground (arith, apart_of k id ks is h.0, fresh_of ks is id h.1)

pub keys_of-spawn_all :
    (ts : List TaskRow) (w : World)
    → Distinct (keys_of w.in_flight ++ ids_of ts)
    → keys_of (spawn_all ts w).in_flight ≡ keys_of w.in_flight ++ ids_of ts
unfolding spawn_all
keys_of-spawn_all [] w h = sym (append-nil (keys_of w.in_flight))
keys_of-spawn_all (t ∷ ts) w h =
    let ks = keys_of w.in_flight in
    let same : keys_of (in_flight_set t.id w.in_flight) ++ ids_of ts ≡ ks ++ t.id ∷ ids_of ts =
      ap (λ (js : List ℕ). js ++ ids_of ts)
        (keys_of-set t.id w.in_flight (fresh_of ks (ids_of ts) t.id h))
      ∙ append_assoc ks (t.id ∷ []) (ids_of ts) in
    keys_of-spawn_all ts (record w { in_flight = in_flight_set t.id w.in_flight })
      (subst Distinct (sym same) h)
    ∙ same

pub keys_of-abort : (id : ℕ) (es : List InFlight) → keys_of (in_flight_abort id es) ≡ keys_of es
unfolding in_flight_abort
keys_of-abort id [] = refl
keys_of-abort id (e ∷ es) =
    let rest : e.task_id ∷ keys_of (in_flight_abort id es) ≡ e.task_id ∷ keys_of es =
      ap (◌∷◌ e.task_id) (keys_of-abort id es) in
    if_elim (λ (x : InFlight). x.task_id ∷ keys_of (in_flight_abort id es) ≡ e.task_id ∷ keys_of es)
      (is_entry id e) (aborting e) e (λ _. rest) (λ _. rest)

keys_of-absent :
    (id : ℕ) (es : List InFlight)
    → has_id id (keys_of es) ≡ false
    → keys_of (in_flight_delete id es) ≡ keys_of es
unfolding in_flight_delete
keys_of-absent id [] h = refl
keys_of-absent id (e ∷ es) h =
    let other : (e.task_id == id) ≡ false = ground arith in
    rw other (ap (◌∷◌ e.task_id) (keys_of-absent id es (ground arith)))

-- `inFlight.delete` takes away the one entry of the task.
keys_of-delete :
    (id : ℕ) (es : List InFlight)
    → Distinct (keys_of es)
    → keys_of (in_flight_delete id es) ≡ without id (keys_of es)
unfolding in_flight_delete
keys_of-delete id [] h = refl
keys_of-delete id (e ∷ es) h = elim (Bool-cases (e.task_id == id)) [
  | inl q ↦
      let same : e.task_id ≡ id = (==_iff e.task_id id).0 q in
      rw q (keys_of-absent id es (rw same at h.0))
  | inr q ↦ rw q (ap (◌∷◌ e.task_id) (keys_of-delete id es h.1))
]

pub keys_of-released :
    (id : ℕ) (w : World)
    → Distinct (keys_of w.in_flight)
    → keys_of (released id w).in_flight ≡ without id (keys_of w.in_flight)
unfolding released schedule_tick
keys_of-released id w h =
    if_elim (λ (v : World). keys_of v.in_flight ≡ without id (keys_of w.in_flight)) w.stopped _ _
      (λ _. keys_of-delete id w.in_flight h) (λ _. keys_of-delete id w.in_flight h)

has-without : (id k : ℕ) (ks : List ℕ) → has_id k ks ≡ false → has_id k (without id ks) ≡ false
has-without id k [] h = refl
has-without id k (j ∷ ks) h =
    if_elim (λ r. has_id k r ≡ false) (j == id) ks (j ∷ without id ks) (λ _. ground arith)
      (λ _. ground (arith, has-without id k ks (ground arith)))

pub Distinct-without : (id : ℕ) (ks : List ℕ) → Distinct ks → Distinct (without id ks)
Distinct-without id [] h = tt
Distinct-without id (k ∷ ks) h =
    if_elim Distinct (k == id) ks (k ∷ without id ks) (λ _. h.1)
      (λ _. (has-without id k ks h.0, Distinct-without id ks h.1))

pub length-without : (id : ℕ) (ks : List ℕ) → length (without id ks) ≤ length ks
length-without id [] = omega arith
length-without id (k ∷ ks) = ground (arith, length-without id ks)
