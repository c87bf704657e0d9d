-- ===== src/Repository/Writes/Claims.antt =====
-- What `claim` of backend/src/engine/repository.ts takes.
pub mod Progress
use background_job_runner.Prelude.{
  ℕ, zero, suc, ◌+◌, ◌≤◌, ◌≡◌, refl, sym, ap, ◌∙◌, Bool, true, false, ◌&&◌, ◌||◌, not, List, [],
  ◌∷◌, map, arith, inl, inr, ◌==◌, ==_iff, Bool-cases, and-true_left, and-true_right, any, any-map,
  any-witness, any-at, any-false-at, filter, length, length-take, take, drop, take-append-drop, At,
  at_head, at_tail, At-filter, At-filter_inv, At-append_cases, At-map, ◌⊎◌, All, All-at, All-of_at,
  All-take, not-true-false, subst, length-map,
}
use background_job_runner.Prelude.Sort.{
  sort_by, At-sort_by, All-sort_by, IsOrdered-sort_by, take-le_drop,
}
use background_job_runner.Types.{TaskRow}
use background_job_runner.Errors.{ok}
use background_job_runner.Repository.Sql.{Db, statement}
use background_job_runner.Repository.Sql.Rules.{guarded-ok, statement-ok}
use background_job_runner.Repository.Schema.{keys_ok, clashes}
use background_job_runner.Repository.Schema.Keys.{keys_ok-unique_id}
use background_job_runner.Repository.Writes.{
  is_runnable, id_in, picked, created_le, claimed_by, claim_rows, claim,
}
use background_job_runner.Repository.Writes.Counting.{
  length-filter-id_in, Once, Once-keys_ok, Once-filter, Once-sort_by, Once-take, chosen-le,
}
use background_job_runner.Repository.Writes.Effects.{update_where-ok}

-- The rows that a claim may take: runnable, and not locked by others.
abbrev pub claimable : List ℕ → ℕ → TaskRow → Bool
claimable locked now t = is_runnable now t && not (id_in locked t)

At-map_inv :
    (f : TaskRow → TaskRow) (ts : List TaskRow) (u : TaskRow)
    → At u (map f ts)
    → (t : TaskRow) × At t ts × (u ≡ f t)
At-map_inv f [] u i = elim i [ ]
At-map_inv f (t ∷ ts) u at_head = (t, at_head, refl)
At-map_inv f (t ∷ ts) u (at_tail i) = let (v, j, e) = At-map_inv f ts u i in (v, at_tail j, e)

length-take_full :
    (n : ℕ) (xs : List TaskRow) {s : TaskRow} → At s (drop n xs) → length (take n xs) ≡ n
length-take_full zero xs i = refl
length-take_full (suc n) [] i = elim i [ ]
length-take_full (suc n) (x ∷ xs) i = omega (arith, length-take_full n xs i)

created_le_total : (t u : TaskRow) → created_le t u ≡ false → created_le u t ≡ true
created_le_total t u h = ground arith

created_le_trans :
    (t u v : TaskRow) → created_le t u ≡ true → created_le u v ≡ true → created_le t v ≡ true
created_le_trans t u v h k = ground arith

-- Of a claim that returned `rows`, leaving `db'`.
pub record IsClaim (runner_id lease_ms limit : ℕ) (locked : List ℕ) (db : Db) (rows : List TaskRow)
    (db' : Db) : Type 0 where
  -- at most `limit` rows,
  pub bounded : length rows ≤ limit
  -- each of them was claimable, and is stamped as this runner's,
  pub taken :
      (u : TaskRow)
      → At u rows
      → (t : TaskRow) × At t db.tasks
        × (claimable locked db.now t ≡ true)
        × (u ≡ claimed_by runner_id lease_ms db.now t)
  -- and a claimable row that is not among them is no older than any of them, which are then as many as allowed.
  pub oldest :
      (s : TaskRow)
      → At s db.tasks
      → claimable locked db.now s ≡ true
      → At (claimed_by runner_id lease_ms db.now s) rows
        ⊎ ((length rows ≡ limit) × All (λ u. created_le u s ≡ true) rows)
  pub events : db'.events ≡ db.events

module _ (locked : List ℕ) (limit now : ℕ) (ts : List TaskRow) where
  candidates : List TaskRow
  candidates = sort_by created_le (filter (claimable locked now) ts)

  ids : List ℕ
  ids = map (λ t. t.id) (picked locked limit now ts)

  picked-claimable :
      All (λ t. At t ts × (claimable locked now t ≡ true)) (picked locked limit now ts)
  unfolding picked
  picked-claimable =
      All-take _ limit _ (
        All-sort_by created_le _ _ (All-of_at _ λ t i. At-filter_inv (claimable locked now) t ts i))

  -- A row with the id of a picked one is that one.
  At-picked :
      (t : TaskRow)
      → keys_ok ts ≡ true
      → At t ts
      → id_in ids t ≡ true
      → At t (picked locked limit now ts)
  unfolding ids
  At-picked t k i h =
      let chosen = picked locked limit now ts in
      let (u, j, e) =
        any-witness (λ v. v.id == t.id) chosen
          (sym (any-map (λ n. n == t.id) (λ v. v.id) chosen) ∙ h) in
      let (stood, runs) = All-at _ picked-claimable j in
      subst (λ v. At v chosen) (keys_ok-unique_id ts u t k stood i ((==_iff u.id t.id).0 e)) j

  id_in-picked : (t : TaskRow) → At t (picked locked limit now ts) → id_in ids t ≡ true
  unfolding ids
  id_in-picked t i =
      any-map (λ n. n == t.id) (λ v. v.id) (picked locked limit now ts)
      ∙ any-at (λ v. v.id == t.id) ((==_iff t.id t.id).1 refl) i

  length-ids : length ids ≤ limit
  unfolding ids picked
  length-ids = omega (
    arith,
    length-map (λ t. t.id) (picked locked limit now ts),
    length-take limit (sort_by created_le (filter (claimable locked now) ts)),
  )

  Once-picked : keys_ok ts ≡ true → Once (picked locked limit now ts)
  unfolding picked candidates
  Once-picked k = Once-take limit candidates (
      Once-sort_by created_le (filter (claimable locked now) ts)
        (Once-filter (claimable locked now) ts (Once-keys_ok ts k)))

  -- If a candidate is left, as many are picked as allowed.
  filled :
      {s : TaskRow} → At s (drop limit candidates) → length (picked locked limit now ts) ≡ limit
  unfolding picked candidates
  filled i = length-take_full limit candidates i

  -- The table has a row for each picked one.
  picked-le :
      keys_ok ts ≡ true → length (picked locked limit now ts) ≤ length (filter (id_in ids) ts)
  unfolding ids
  picked-le k =
      chosen-le (picked locked limit now ts) ts (Once-picked k)
        (All-of_at (picked locked limit now ts) (λ t i. (All-at _ picked-claimable i).0))

  older :
      (s t : TaskRow)
      → At s (drop limit candidates)
      → At t (picked locked limit now ts)
      → created_le t s ≡ true
  unfolding candidates picked
  older s t j i =
      take-le_drop created_le limit candidates
        (IsOrdered-sort_by created_le created_le_total created_le_trans
          (filter (claimable locked now) ts))
        i j

  split :
      (s : TaskRow)
      → At s ts
      → claimable locked now s ≡ true
      → At s (picked locked limit now ts) ⊎ At s (drop limit candidates)
  unfolding candidates picked
  split s i h = At-append_cases (take limit candidates) (drop limit candidates) (
      rw (take-append-drop limit candidates) (
        At-sort_by created_le (filter (claimable locked now) ts)
          (At-filter (claimable locked now) h i)))

module _ (runner_id lease_ms limit : ℕ) (locked : List ℕ) (db : Db) where
  stamp : TaskRow → TaskRow
  stamp = claimed_by runner_id lease_ms db.now

  taken_of :
      (u : TaskRow)
      → keys_ok db.tasks ≡ true
      → At u (map stamp (filter (id_in (ids locked limit db.now db.tasks)) db.tasks))
      → (t : TaskRow) × At t (picked locked limit db.now db.tasks) × (u ≡ stamp t)
  taken_of u k i =
      let (t, j, e) = At-map_inv stamp _ u i in
      let (stood, h) = At-filter_inv (id_in (ids locked limit db.now db.tasks)) t db.tasks j in
      (t, At-picked locked limit db.now db.tasks t k stood h, e)

  pub claim-IsClaim :
      (rows : List TaskRow) (db' : Db)
      → keys_ok db.tasks ≡ true
      → claim runner_id lease_ms limit locked db ≡ (ok rows, db')
      → IsClaim runner_id lease_ms limit locked db rows db'
  unfolding claim claim_rows stamp ids
  claim-IsClaim rows db' k h =
      let (fs, ran) =
        statement-ok (claim_rows runner_id lease_ms limit locked) db
          (guarded-ok (statement (claim_rows runner_id lease_ms limit locked)) db h) in
      let u =
        update_where-ok (id_in (ids locked limit db.now db.tasks)) stamp (record db { faults = fs })
          ran in
      let held = filter (id_in (ids locked limit db.now db.tasks)) db.tasks in
      let size : length rows ≡ length held = ap length u.rows ∙ length-map stamp held in
      let bounded : length rows ≤ limit = omega (
        arith,
        size,
        length-filter-id_in (ids locked limit db.now db.tasks) db.tasks k,
        length-ids locked limit db.now db.tasks,
      ) in
      record {
        bounded = bounded;
        taken = λ v i.
            let (t, j, e) = taken_of v k (subst (At v) u.rows i) in
            let (stood, runs) = All-at _ (picked-claimable locked limit db.now db.tasks) j in
            (t, stood, runs, e);
        oldest = λ s i runs. elim (split locked limit db.now db.tasks s i runs) [
          | inl j ↦ inl (
              subst (At (stamp s)) (sym u.rows) (
                At-map stamp (
                  At-filter (id_in (ids locked limit db.now db.tasks))
                    (id_in-picked locked limit db.now db.tasks s j) i)))
          | inr j ↦ inr (
            omega (
              arith,
              size,
              bounded,
              filled locked limit db.now db.tasks j,
              picked-le locked limit db.now db.tasks k,
            ),
            All-of_at rows λ v l.
                let (t, m, e) = taken_of v k (subst (At v) u.rows l) in
                subst (λ (r : TaskRow). created_le r s ≡ true) (sym e)
                  (older locked limit db.now db.tasks s t j m),
          )
        ];
        events = u.events;
      }
