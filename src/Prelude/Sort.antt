-- ===== src/Prelude/Sort.antt =====
-- `ORDER BY`: a stable insertion sort by a Boolean order, with what it keeps and what it achieves.
use Prim.Native.Nat.{ℕ, zero, suc}
use mathlib.Core.Path.{◌≡◌, refl}
use mathlib.Core.Bool.{Bool, true, false}
use mathlib.Core.List.{List, [], ◌∷◌}
use native.Mathlib.Omega.{arith}
use background_job_runner.Prelude.Tests.{if◌then◌else◌, if_elim}
use background_job_runner.Prelude.Lists.{All, At, at_head, at_tail, length, take, drop, All-at}

module _ {ℓ} {A : Type ℓ} (le : A → A → Bool) where
  unfoldable pub insert_by : A → List A → List A
  insert_by x [] = x ∷ []
  insert_by x (y ∷ ys) = let later = y ∷ insert_by x ys in if le x y then x ∷ y ∷ ys else later

  unfoldable pub sort_by : List A → List A
  unfolding insert_by
  sort_by [] = []
  sort_by (x ∷ xs) = insert_by x (sort_by xs)

  pub All-insert_by {κ} :
      (P : A → Type κ) (x : A) (ys : List A) → P x → All P ys → All P (insert_by x ys)
  unfolding insert_by
  All-insert_by P x [] h hs = (h, tt)
  All-insert_by P x (y ∷ ys) h hs =
      if_elim (All P) (le x y) _ _ (λ _. (h, hs)) (λ _. (hs.0, All-insert_by P x ys h hs.1))

  pub All-sort_by {κ} : (P : A → Type κ) (xs : List A) → All P xs → All P (sort_by xs)
  unfolding sort_by
  All-sort_by P [] h = tt
  All-sort_by P (x ∷ xs) h = All-insert_by P x (sort_by xs) h.0 (All-sort_by P xs h.1)

  pub length-insert_by : (x : A) (ys : List A) → length (insert_by x ys) ≡ suc (length ys)
  unfolding insert_by
  length-insert_by x [] = refl
  length-insert_by x (y ∷ ys) = ground (arith, length-insert_by x ys)

  pub length-sort_by : (xs : List A) → length (sort_by xs) ≡ length xs
  unfolding sort_by
  length-sort_by [] = refl
  length-sort_by (x ∷ xs) = ground (arith, length-insert_by x (sort_by xs), length-sort_by xs)

  At-insert_by_self : (x : A) (ys : List A) → At x (insert_by x ys)
  unfolding insert_by
  At-insert_by_self x [] = at_head
  At-insert_by_self x (y ∷ ys) =
      if_elim (At x) (le x y) _ _ (λ _. at_head) (λ _. at_tail (At-insert_by_self x ys))

  At-insert_by : {a : A} (x : A) (ys : List A) → At a ys → At a (insert_by x ys)
  unfolding insert_by
  At-insert_by x [] i = elim i [ ]
  At-insert_by {a = a} x (y ∷ ys) at_head =
      if_elim (At a) (le x y) _ _ (λ _. at_tail at_head) (λ _. at_head)
  At-insert_by {a = a} x (y ∷ ys) (at_tail i) =
      if_elim (At a) (le x y) _ _ (λ _. at_tail (at_tail i)) (λ _. at_tail (At-insert_by x ys i))

  pub At-sort_by : {a : A} (xs : List A) → At a xs → At a (sort_by xs)
  unfolding sort_by
  At-sort_by [] i = elim i [ ]
  At-sort_by (x ∷ xs) at_head = At-insert_by_self x (sort_by xs)
  At-sort_by (x ∷ xs) (at_tail i) = At-insert_by x (sort_by xs) (At-sort_by xs i)

  -- Each element is `le` every later one.
  abbrev pub IsOrdered : List A → Type ℓ
  IsOrdered [] = Unit
  IsOrdered (x ∷ xs) = All (λ y. le x y ≡ true) xs × IsOrdered xs

  module _ (total : (a b : A) → le a b ≡ false → le b a ≡ true)
      (trans : (a b c : A) → le a b ≡ true → le b c ≡ true → le a c ≡ true) where
    All-le_trans :
        (x y : A) (ys : List A)
        → le x y ≡ true
        → All (λ z. le y z ≡ true) ys
        → All (λ z. le x z ≡ true) ys
    All-le_trans x y [] h hs = tt
    All-le_trans x y (z ∷ zs) h hs = (trans x y z h hs.0, All-le_trans x y zs h hs.1)

    IsOrdered-insert_by : (x : A) (ys : List A) → IsOrdered ys → IsOrdered (insert_by x ys)
    unfolding insert_by
    IsOrdered-insert_by x [] h = (tt, tt)
    IsOrdered-insert_by x (y ∷ ys) h =
        if_elim IsOrdered (le x y) _ _ (λ e. ((e, All-le_trans x y ys e h.0), h))
          λ e. (
            All-insert_by (λ z. le y z ≡ true) x ys (total x y e) h.0,
            IsOrdered-insert_by x ys h.1,
          )

    pub IsOrdered-sort_by : (xs : List A) → IsOrdered (sort_by xs)
    unfolding sort_by
    IsOrdered-sort_by [] = tt
    IsOrdered-sort_by (x ∷ xs) = IsOrdered-insert_by x (sort_by xs) (IsOrdered-sort_by xs)

  -- What a prefix of an ordered list takes is `le` what it leaves.
  pub take-le_drop :
      (n : ℕ) (xs : List A) {a b : A}
      → IsOrdered xs
      → At a (take n xs)
      → At b (drop n xs)
      → le a b ≡ true
  take-le_drop zero xs h i j = elim i [ ]
  take-le_drop (suc n) [] h i j = elim i [ ]
  take-le_drop (suc n) (x ∷ xs) {b = b} h at_head j =
      All-at (λ y. le x y ≡ true) h.0 (At-drop n xs j)
    where
      At-drop : (k : ℕ) (ys : List A) → At b (drop k ys) → At b ys
      At-drop zero ys p = p
      At-drop (suc k) [] p = p
      At-drop (suc k) (y ∷ ys) p = at_tail (At-drop k ys p)
  take-le_drop (suc n) (x ∷ xs) h (at_tail i) j = take-le_drop n xs h.1 i j
