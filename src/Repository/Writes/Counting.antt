-- ===== src/Repository/Writes/Counting.antt =====
-- Counting the rows of the task table by their ids: backend/src/engine/repository.ts.
use background_job_runner.Prelude.{
  ℕ, suc, zero, ◌+◌, ◌≤◌, ◌≡◌, refl, sym, ◌∙◌, Bool, true, false, ◌||◌, not, List, [], ◌∷◌, map,
  arith, inl, inr, ◌==◌, ==_iff, Bool-cases, and-true_left, and-true_right, any, any-map,
  any-witness, any-false-at, filter, length, take, At, at_head, at_tail, All, not-true-false,
}
use background_job_runner.Prelude.Sort.{sort_by, insert_by}
use background_job_runner.Types.{TaskRow}
use background_job_runner.Repository.Schema.{keys_ok, clashes}
use background_job_runner.Repository.Writes.{id_in}

length-filter-or :
    (p q : TaskRow → Bool) (ts : List TaskRow)
    → length (filter (λ t. p t || q t) ts) ≤ length (filter p ts) + length (filter q ts)
length-filter-or p q [] = omega arith
length-filter-or p q (t ∷ ts) = ground (arith, length-filter-or p q ts)

filter-id_none :
    (i : ℕ) (ts : List TaskRow)
    → ((t : TaskRow) → At t ts → (i == t.id) ≡ false)
    → length (filter (λ t. i == t.id) ts) ≡ 0
filter-id_none i [] h = refl
filter-id_none i (t ∷ ts) h =
    ground (arith, h t at_head, filter-id_none i ts (λ u j. h u (at_tail j)))

filter-id_once :
    (i : ℕ) (ts : List TaskRow) → keys_ok ts ≡ true → length (filter (λ t. i == t.id) ts) ≤ 1
unfolding keys_ok
filter-id_once i [] k = omega arith
filter-id_once i (t ∷ ts) k =
    let rest = filter-id_once i ts (and-true_right (not (any (clashes t) ts)) (keys_ok ts) k) in
    let apart = not-true-false (and-true_left (not (any (clashes t) ts)) (keys_ok ts) k) in
    elim (Bool-cases (i == t.id)) [
      | inl e ↦
          let none_left =
            filter-id_none i ts λ u j.
              let c : clashes t u ≡ false = any-false-at (clashes t) apart j in ground arith in
          ground (arith, none_left)
      | inr e ↦ ground (arith, rest)
    ]

-- A table has no more rows with one of the ids than there are ids.
pub length-filter-id_in :
    (ids : List ℕ) (ts : List TaskRow)
    → keys_ok ts ≡ true
    → length (filter (id_in ids) ts) ≤ length ids
unfolding keys_ok
length-filter-id_in [] [] k = omega arith
length-filter-id_in [] (t ∷ ts) k =
    length-filter-id_in [] ts (and-true_right (not (any (clashes t) ts)) (keys_ok ts) k)
length-filter-id_in (i ∷ ids) ts k = omega (
  arith,
  length-filter-or (λ t. i == t.id) (id_in ids) ts,
  filter-id_once i ts k,
  length-filter-id_in ids ts k,
)

-- No id stands twice.
abbrev pub Once : List TaskRow → Type 0
Once ts = (i : ℕ) → length (filter (λ t. i == t.id) ts) ≤ 1

pub Once-keys_ok : (ts : List TaskRow) → keys_ok ts ≡ true → Once ts
Once-keys_ok ts k i = filter-id_once i ts k

count-filter :
    (p q : TaskRow → Bool) (ts : List TaskRow)
    → length (filter p (filter q ts)) ≤ length (filter p ts)
count-filter p q [] = omega arith
count-filter p q (t ∷ ts) = ground (arith, count-filter p q ts)

count-take :
    (p : TaskRow → Bool) (n : ℕ) (ts : List TaskRow)
    → length (filter p (take n ts)) ≤ length (filter p ts)
count-take p zero ts = omega arith
count-take p (suc n) [] = omega arith
count-take p (suc n) (t ∷ ts) = ground (arith, count-take p n ts)

module _ (le : TaskRow → TaskRow → Bool) (p : TaskRow → Bool) where
  count-insert_by :
      (t : TaskRow) (ts : List TaskRow)
      → length (filter p (insert_by le t ts)) ≡ length (filter p (t ∷ ts))
  unfolding insert_by
  count-insert_by t [] = refl
  count-insert_by t (u ∷ ts) = ground (arith, count-insert_by t ts)

  count-sort_by : (ts : List TaskRow) → length (filter p (sort_by le ts)) ≡ length (filter p ts)
  unfolding sort_by
  count-sort_by [] = refl
  count-sort_by (t ∷ ts) = count-insert_by t (sort_by le ts) ∙ ground (arith, count-sort_by ts)

pub Once-filter : (q : TaskRow → Bool) (ts : List TaskRow) → Once ts → Once (filter q ts)
Once-filter q ts h i = omega (arith, count-filter (λ t. i == t.id) q ts, h i)

pub Once-take : (n : ℕ) (ts : List TaskRow) → Once ts → Once (take n ts)
Once-take n ts h i = omega (arith, count-take (λ t. i == t.id) n ts, h i)

pub Once-sort_by :
    (le : TaskRow → TaskRow → Bool) (ts : List TaskRow) → Once ts → Once (sort_by le ts)
Once-sort_by le ts h i = omega (arith, count-sort_by le (λ t. i == t.id) ts, h i)

length-filter-or_apart :
    (p q : TaskRow → Bool) (ts : List TaskRow)
    → ((t : TaskRow) → p t ≡ true → q t ≡ false)
    → length (filter (λ t. p t || q t) ts) ≡ length (filter p ts) + length (filter q ts)
length-filter-or_apart p q [] h = omega arith
length-filter-or_apart p q (t ∷ ts) h = ground (arith, h t, length-filter-or_apart p q ts h)

count-at :
    (p : TaskRow → Bool) {t : TaskRow} (ts : List TaskRow)
    → At t ts
    → p t ≡ true
    → 1 ≤ length (filter p ts)
count-at p [] i h = elim i [ ]
count-at p (t ∷ ts) at_head h = ground arith
count-at p (u ∷ ts) (at_tail i) h = ground (arith, count-at p ts i h)

Once-later :
    (c : TaskRow) (cs : List TaskRow) {u : TaskRow}
    → Once (c ∷ cs)
    → At u cs
    → (c.id == u.id) ≡ false
Once-later c cs {u} h i = elim (Bool-cases (c.id == u.id)) [
  | inl e ↦ absurd (ground (arith, h c.id, count-at (λ t. c.id == t.id) cs i e))
  | inr e ↦ e
]

Once-tail : (c : TaskRow) (cs : List TaskRow) → Once (c ∷ cs) → Once cs
Once-tail c cs h i = ground (arith, h i)

ids_apart :
    (c : TaskRow) (cs : List TaskRow)
    → Once (c ∷ cs)
    → (t : TaskRow) → (c.id == t.id) ≡ true
    → id_in (map (λ u. u.id) cs) t ≡ false
ids_apart c cs h t e = elim (Bool-cases (id_in (map (λ u. u.id) cs) t)) [
  | inl m ↦
      let (u, i, same) =
        any-witness (λ v. v.id == t.id) cs (sym (any-map (λ n. n == t.id) (λ v. v.id) cs) ∙ m) in
      absurd (ground (arith, Once-later c cs h i))
  | inr m ↦ m
]

-- Rows of a table, none of them twice, are at most as many as the table's rows with their ids.
pub chosen-le :
    (cs ts : List TaskRow)
    → Once cs
    → All (λ (c : TaskRow). At c ts) cs
    → length cs ≤ length (filter (id_in (map (λ c. c.id) cs)) ts)
chosen-le [] ts h a = omega arith
chosen-le (c ∷ cs) ts h a = omega (
  arith,
  length-filter-or_apart (λ t. c.id == t.id) (id_in (map (λ u. u.id) cs)) ts (ids_apart c cs h),
  count-at (λ t. c.id == t.id) ts a.0 ((==_iff c.id c.id).1 refl),
  chosen-le cs ts (Once-tail c cs h) a.1,
)
