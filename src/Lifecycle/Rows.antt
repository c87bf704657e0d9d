-- ===== src/Lifecycle/Rows.antt =====
-- What every edge of a row's life keeps.
use background_job_runner.Prelude.{◌≤◌, ◌≡◌, refl, ◌∙◌, ◌≢◌, ◌⊎◌, true, false, none, arith}
use background_job_runner.Types.{TaskStatus, TaskRow}
use background_job_runner.Repository.Schema.{active}
use background_job_runner.Lifecycle.{
  Edge, claimed, renewed, requeued, rescheduled, failed, finished, collected, cancelled, retried,
  IsNew, Lives, still, next,
}

-- A running row has an owner and a lease, and no other row has either; only a ready row is
-- collected, and has the time of it; a row that has been run counts an attempt.
pub record IsSound (t : TaskRow) : Type 0 where
  pub owned : t.status ≡ TaskStatus.running → (t.runner_id ≢ none) × (t.lease_until ≢ none)
  pub free : t.status ≢ TaskStatus.running → (t.runner_id ≡ none) × (t.lease_until ≡ none)
  pub delivered : t.collected ≡ true → (t.status ≡ TaskStatus.ready) × (t.collected_at ≢ none)
  pub undelivered : t.collected ≡ false → t.collected_at ≡ none
  pub tried :
      (t.status ≡ TaskStatus.running)
        ⊎ (t.status ≡ TaskStatus.ready)
        ⊎ (t.status ≡ TaskStatus.failed)
      → 1 ≤ t.attempts
  pub numbered : 1 ≤ t.handle_num

pub Edge-IsSound : {t u : TaskRow} → Edge t u → IsSound t → IsSound u
Edge-IsSound (claimed r l a h e) s = ground arith
Edge-IsSound (renewed l a h e) s = ground arith
Edge-IsSound (requeued a h e) s = ground arith
Edge-IsSound (rescheduled x l a h e) s = ground arith
Edge-IsSound (failed x a h e) s = ground arith
Edge-IsSound (finished x a h e) s = ground arith
Edge-IsSound (collected a h c e) s = ground arith
Edge-IsSound (cancelled a h e) s = ground arith
Edge-IsSound (retried b a h e) s = ground arith

pub IsNew-IsSound : {t : TaskRow} → IsNew t → IsSound t
IsNew-IsSound n = ground arith

-- Collected or cancelled: the row has given up its handle.
abbrev pub IsRetired : TaskRow → Type 0
IsRetired t = active t ≡ false

pub Edge-active : {t u : TaskRow} → Edge t u → active t ≡ true
Edge-active (claimed r l a h e) = rw h
Edge-active (renewed l a h e) = rw h
Edge-active (requeued a h e) = rw h
Edge-active (rescheduled x l a h e) = rw h
Edge-active (failed x a h e) = rw h
Edge-active (finished x a h e) = rw h
Edge-active (collected a h c e) = rw (h, c)
Edge-active (cancelled a h e) = ground arith
Edge-active (retried b a h e) = rw h

-- What identifies a row never changes, and attempts are never taken back.
pub record SameTask (t u : TaskRow) : Type 0 where
  pub id : u.id ≡ t.id
  pub user_id : u.user_id ≡ t.user_id
  pub lane : u.lane ≡ t.lane
  pub handle_num : u.handle_num ≡ t.handle_num
  pub params : u.params ≡ t.params
  pub created_at : u.created_at ≡ t.created_at
  pub is_seed : u.is_seed ≡ t.is_seed
  pub attempts : t.attempts ≤ u.attempts

pub Edge-SameTask : {t u : TaskRow} → Edge t u → SameTask t u
Edge-SameTask (claimed r l a h e) = ground arith
Edge-SameTask (renewed l a h e) = ground arith
Edge-SameTask (requeued a h e) = ground arith
Edge-SameTask (rescheduled x l a h e) = ground arith
Edge-SameTask (failed x a h e) = ground arith
Edge-SameTask (finished x a h e) = ground arith
Edge-SameTask (collected a h c e) = ground arith
Edge-SameTask (cancelled a h e) = ground arith
Edge-SameTask (retried b a h e) = ground arith

pub Lives-IsSound : {t u : TaskRow} → Lives t u → IsSound t → IsSound u
Lives-IsSound still s = s
Lives-IsSound (next l e) s = Edge-IsSound e (Lives-IsSound l s)

SameTask-trans : (t u v : TaskRow) → SameTask t u → SameTask u v → SameTask t v
SameTask-trans t u v a b = record {
  id = b.id ∙ a.id;
  user_id = b.user_id ∙ a.user_id;
  lane = b.lane ∙ a.lane;
  handle_num = b.handle_num ∙ a.handle_num;
  params = b.params ∙ a.params;
  created_at = b.created_at ∙ a.created_at;
  is_seed = b.is_seed ∙ a.is_seed;
  attempts = omega (arith, a.attempts, b.attempts);
}

pub Lives-SameTask : {t u : TaskRow} → Lives t u → SameTask t u
Lives-SameTask still = record {
  id = refl;
  user_id = refl;
  lane = refl;
  handle_num = refl;
  params = refl;
  created_at = refl;
  is_seed = refl;
  attempts = omega arith;
}
Lives-SameTask {t} (next {u = u} {v = v} l e) =
    SameTask-trans t u v (Lives-SameTask l) (Edge-SameTask e)

pub Lives-trans : {t u v : TaskRow} → Lives t u → Lives u v → Lives t v
Lives-trans l still = l
Lives-trans l (next m e) = next (Lives-trans l m) e

-- A retired row never changes again.
pub Lives-retired : {t u : TaskRow} → Lives t u → IsRetired t → u ≡ t
Lives-retired still r = refl
Lives-retired {t} (next {u = u} l e) r = absurd (clash (Lives-retired l r))
  where
    clash : u ≡ t → ⊥
    clash q = let a : active u ≡ true = Edge-active e in let b : active u ≡ false = rw q r in cc
