-- ===== src/Repository/Slot/Lowest.antt =====
-- What the gap query of backend/src/engine/repository.ts picks.
use background_job_runner.Prelude.{
  ℕ, zero, suc, ◌+◌, ◌≤◌, ◌<◌, ◌≡◌, true, false, List, [], ◌∷◌, none, some, arith, ◌==◌, any,
  filter, inl, inr, Bool-cases, At, at_head, at_tail, At-filter, All, All-at, All-filter_self, leb,
  All-filter, not-true-false, Option-cases,
}
use background_job_runner.Repository.Slot.{max_of, series, min_of, is_free, slot}

pub record IsLowestFree (ns : List ℕ) (n : ℕ) : Type 0 where
  pub positive : 1 ≤ n
  pub free : any (λ m. m == n) ns ≡ false
  pub lowest : (m : ℕ) → 1 ≤ m → m < n → any (λ k. k == m) ns ≡ true

le-max_of : {n : ℕ} (ns : List ℕ) → At n ns → n ≤ max_of ns
unfolding max_of
le-max_of [] i = elim i [ ]
le-max_of (n ∷ ns) at_head = omega arith
le-max_of (m ∷ ns) (at_tail i) = omega (arith, le-max_of ns i)

At-of_any : (n : ℕ) (ns : List ℕ) → any (λ m. m == n) ns ≡ true → At n ns
At-of_any n [] h = absurd (ground arith)
At-of_any n (m ∷ ns) h = elim (Bool-cases (m == n)) [
  | inl e ↦ let p : m ≡ n = ground arith in rw p at_head
  | inr e ↦ at_tail (At-of_any n ns (ground arith))
]

above-max_of_free : (ns : List ℕ) → any (λ m. m == max_of ns + 1) ns ≡ false
above-max_of_free ns = elim (Bool-cases (any (λ m. m == max_of ns + 1) ns)) [
  | inl e ↦ absurd (omega (arith, le-max_of ns (At-of_any (max_of ns + 1) ns e)))
  | inr e ↦ e
]

At-series : (first count n : ℕ) → first ≤ n → n < first + count → At n (series first count)
unfolding series
At-series first zero n h k = absurd (omega arith)
At-series first (suc count) n h k = elim (Bool-cases (first == n)) [
  | inl e ↦ let p : first ≡ n = ground arith in rw p at_head
  | inr e ↦ at_tail (At-series (suc first) count n (ground arith) (omega arith))
]

series-ge : (first count lo : ℕ) → lo ≤ first → All (λ n. lo ≤ n) (series first count)
unfolding series
series-ge first zero lo h = tt
series-ge first (suc count) lo h = (h, series-ge (suc first) count lo (omega arith))

min_of-none : {n : ℕ} (ns : List ℕ) → min_of ns ≡ none → At n ns → ⊥
unfolding min_of
min_of-none [] e i = elim i [ ]
min_of-none (m ∷ ns) e i = ground arith

min_of-le : {n : ℕ} (ns : List ℕ) (m : ℕ) → min_of ns ≡ some m → At n ns → m ≤ n
unfolding min_of
min_of-le [] m e i = elim i [ ]
min_of-le (k ∷ ns) m e at_head = ground arith
min_of-le {n} (k ∷ ns) m e (at_tail i) = elim (Option-cases (min_of ns)) [
  | inl q ↦ absurd (min_of-none ns q i)
  | inr (l, q) ↦ ground (arith, min_of-le ns l q i)
]

At-min_of : (ns : List ℕ) (m : ℕ) → min_of ns ≡ some m → At m ns
unfolding min_of
At-min_of [] m e = absurd (ground arith)
At-min_of (k ∷ ns) m e = elim (Option-cases (min_of ns)) [
  | inl q ↦ let p : k ≡ m = ground arith in rw p at_head
  | inr (l, q) ↦ elim (Bool-cases (leb k l)) [
    | inl h ↦ let p : k ≡ m = ground arith in rw p at_head
    | inr h ↦ let p : l ≡ m = ground arith in at_tail (rw p at (At-min_of ns l q))
  ]
]

module _ (ns : List ℕ) where
  free_slots : List ℕ
  free_slots = filter (is_free ns) (series 1 (max_of ns + 1))

  lowest_of : (m : ℕ) → min_of free_slots ≡ some m → IsLowestFree ns m
  unfolding free_slots
  lowest_of m e = record {
    positive =
        All-at (λ n. 1 ≤ n)
          (All-filter (λ n. 1 ≤ n) (is_free ns) _ (series-ge 1 (max_of ns + 1) 1 (omega arith)))
          (At-min_of free_slots m e);
    free = not-true-false (
        All-at (λ n. is_free ns n ≡ true) (All-filter_self (is_free ns) (series 1 (max_of ns + 1)))
          (At-min_of free_slots m e));
    lowest = λ k pos below. elim (Bool-cases (any (λ j. j == k) ns)) [
      | inl used ↦ used
      | inr free ↦ absurd (
          omega (
            arith,
            min_of-le free_slots m e (
                At-filter (is_free ns) (rw free)
                  (At-series 1 (max_of ns + 1) k pos (omega (arith, le_end)))),
          ))
    ];
  }
    where
      le_end : m ≤ max_of ns + 1
      le_end = min_of-le free_slots m e (
          At-filter (is_free ns) (rw (above-max_of_free ns))
            (At-series 1 (max_of ns + 1) (max_of ns + 1) (omega arith) (omega arith)))

-- The number that the gap query picks is at least 1, is not used, and every lower number is used.
pub slot-IsLowestFree : (ns : List ℕ) → IsLowestFree ns (slot ns)
unfolding slot free_slots
slot-IsLowestFree ns = elim (Option-cases (min_of (free_slots ns))) [
  | inl e ↦ absurd (
      min_of-none (free_slots ns) e (
        At-filter (is_free ns) (rw (above-max_of_free ns))
          (At-series 1 (max_of ns + 1) (max_of ns + 1) (omega arith) (omega arith))))
  | inr (m, e) ↦ rw e (lowest_of ns m e)
]
