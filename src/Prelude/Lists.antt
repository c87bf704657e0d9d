-- ===== src/Prelude/Lists.antt =====
-- Lists measured by native numbers and searched by Boolean tests.
use Prim.Native.Nat.{ℕ, zero, suc, ◌+◌, ◌≤◌, min}
use mathlib.Core.Path.{◌≡◌, refl, ap}
use mathlib.Core.Logic.{◌⊎◌, inl, inr}
use mathlib.Core.List.{List, [], ◌∷◌, ◌++◌, map}
use mathlib.Core.Bool.{Bool, true, false, ◌&&◌, ◌||◌}
use mathlib.Core.Option.{Option, none, some}
use native.Mathlib.Omega.{arith}
use background_job_runner.Prelude.Tests.{
  if◌then◌else◌, if_elim, Bool-cases, and-true_left, and-true_right,
}

module _ {ℓ} {A : Type ℓ} where
  abbrev pub length : List A → ℕ
  length [] = 0
  length (_ ∷ xs) = suc (length xs)

  abbrev pub take : ℕ → List A → List A
  take zero xs = []
  take (suc n) [] = []
  take (suc n) (x ∷ xs) = x ∷ take n xs

  abbrev pub drop : ℕ → List A → List A
  drop zero xs = xs
  drop (suc n) [] = []
  drop (suc n) (x ∷ xs) = drop n xs

  abbrev pub head? : List A → Option A
  head? [] = none
  head? (x ∷ xs) = some x

  -- `xs.filter(p)`; the library's `filter` takes a decision procedure.
  abbrev pub filter : (A → Bool) → List A → List A
  filter p [] = []
  filter p (x ∷ xs) = let rest = filter p xs in if p x then x ∷ rest else rest

  abbrev pub any : (A → Bool) → List A → Bool
  any p [] = false
  any p (x ∷ xs) = p x || any p xs

  abbrev pub all : (A → Bool) → List A → Bool
  all p [] = true
  all p (x ∷ xs) = p x && all p xs

  -- A predicate that holds of every element, by recursion, so that tactics read it.
  abbrev pub All {κ} : (A → Type κ) → List A → Type κ
  All P [] = Unit
  All P (x ∷ xs) = P x × All P xs

  -- Where an element stands in a list.
  pub data At (a : A) : List A → Type ℓ where
    at_head : {xs : List A} → At a (a ∷ xs)
    at_tail : {x : A} {xs : List A} → At a xs → At a (x ∷ xs)

  pub length-append : (xs ys : List A) → length (xs ++ ys) ≡ length xs + length ys
  length-append [] ys = omega arith
  length-append (x ∷ xs) ys = omega (arith, length-append xs ys)

  pub length-take : (n : ℕ) (xs : List A) → length (take n xs) ≡ min n (length xs)
  length-take zero xs = omega arith
  length-take (suc n) [] = omega arith
  length-take (suc n) (x ∷ xs) = omega (arith, length-take n xs)

  pub length-filter-le : (p : A → Bool) (xs : List A) → length (filter p xs) ≤ length xs
  length-filter-le p [] = omega arith
  length-filter-le p (x ∷ xs) = ground (arith, length-filter-le p xs)

  pub filter-append :
      (p : A → Bool) (xs ys : List A) → filter p (xs ++ ys) ≡ filter p xs ++ filter p ys
  filter-append p [] ys = refl
  filter-append p (x ∷ xs) ys = ground (arith, filter-append p xs ys)

  pub any-append : (p : A → Bool) (xs ys : List A) → any p (xs ++ ys) ≡ (any p xs || any p ys)
  any-append p [] ys = refl
  any-append p (x ∷ xs) ys = ground (arith, any-append p xs ys)

  pub take-append-drop : (n : ℕ) (xs : List A) → take n xs ++ drop n xs ≡ xs
  take-append-drop zero xs = refl
  take-append-drop (suc n) [] = refl
  take-append-drop (suc n) (x ∷ xs) = ap (◌∷◌ x) (take-append-drop n xs)

  pub At-append_left : {a : A} {xs : List A} (ys : List A) → At a xs → At a (xs ++ ys)
  At-append_left ys at_head = at_head
  At-append_left ys (at_tail i) = at_tail (At-append_left ys i)

  pub At-append_right : {a : A} (xs : List A) {ys : List A} → At a ys → At a (xs ++ ys)
  At-append_right [] i = i
  At-append_right (x ∷ xs) i = at_tail (At-append_right xs i)

  pub At-append_cases : {a : A} (xs ys : List A) → At a (xs ++ ys) → At a xs ⊎ At a ys
  At-append_cases [] ys i = inr i
  At-append_cases (x ∷ xs) ys at_head = inl at_head
  At-append_cases (x ∷ xs) ys (at_tail i) = elim (At-append_cases xs ys i) [
    | inl j ↦ inl (at_tail j)
    | inr j ↦ inr j
  ]

  pub At-filter : (p : A → Bool) {a : A} {xs : List A} → p a ≡ true → At a xs → At a (filter p xs)
  At-filter p {a} h (at_head {xs = xs}) = at_cons (filter p xs) (p a) h
    where
      at_cons : (r : List A) (b : Bool) → b ≡ true → At a (if b then a ∷ r else r)
      at_cons r true e = at_head
      at_cons r false e = absurd (ground arith)
  At-filter p {a} h (at_tail {x = x} {xs = xs} i) = skip (filter p xs) (p x) (At-filter p h i)
    where
      skip : (r : List A) (b : Bool) → At a r → At a (if b then x ∷ r else r)
      skip r true j = at_tail j
      skip r false j = j

  At-filter_head :
      (p : A → Bool) {a x : A} (xs r : List A)
      → (At a r → At a xs × (p a ≡ true))
      → p x ≡ true
      → At a (x ∷ r)
      → At a (x ∷ xs) × (p a ≡ true)
  At-filter_head p xs r rest h at_head = (at_head, h)
  At-filter_head p xs r rest h (at_tail i) = let (j, q) = rest i in (at_tail j, q)

  pub At-filter_inv :
      (p : A → Bool) (a : A) (xs : List A) → At a (filter p xs) → At a xs × (p a ≡ true)
  At-filter_inv p a [] i = elim i [ ]
  At-filter_inv p a (x ∷ xs) k =
      if_elim (λ r. At a r → At a (x ∷ xs) × (p a ≡ true)) (p x) _ _
        (At-filter_head p xs (filter p xs) (At-filter_inv p a xs))
        (λ _ i. let (j, q) = At-filter_inv p a xs i in (at_tail j, q)) k

  pub All-at {κ} : (P : A → Type κ) {a : A} {xs : List A} → All P xs → At a xs → P a
  All-at P h at_head = h.0
  All-at P h (at_tail i) = All-at P h.1 i

  pub All-of_at {κ} : {P : A → Type κ} (xs : List A) → ((a : A) → At a xs → P a) → All P xs
  All-of_at [] f = tt
  All-of_at (x ∷ xs) f = (f x at_head, All-of_at xs (λ a i. f a (at_tail i)))

  pub All-append {κ} : (P : A → Type κ) (xs ys : List A) → All P xs → All P ys → All P (xs ++ ys)
  All-append P [] ys hx hy = hy
  All-append P (x ∷ xs) ys hx hy = (hx.0, All-append P xs ys hx.1 hy)

  pub All-mono {κ μ} :
      {P : A → Type κ} {Q : A → Type μ} (xs : List A) → ((a : A) → P a → Q a) → All P xs → All Q xs
  All-mono [] f h = tt
  All-mono (x ∷ xs) f h = (f x h.0, All-mono xs f h.1)

  pub All-filter {κ} :
      (P : A → Type κ) (p : A → Bool) (xs : List A) → All P xs → All P (filter p xs)
  All-filter P p [] h = tt
  All-filter P p (x ∷ xs) h = elim (Bool-cases (p x)) [
    | inl e ↦ simp e (h.0, All-filter P p xs h.1)
    | inr e ↦ simp e (All-filter P p xs h.1)
  ]

  pub All-filter_self : (p : A → Bool) (xs : List A) → All (λ x. p x ≡ true) (filter p xs)
  All-filter_self p [] = tt
  All-filter_self p (x ∷ xs) = elim (Bool-cases (p x)) [
    | inl e ↦ simp e (refl, All-filter_self p xs)
    | inr e ↦ simp e (All-filter_self p xs)
  ]

  pub All-take {κ} : (P : A → Type κ) (n : ℕ) (xs : List A) → All P xs → All P (take n xs)
  All-take P zero xs h = tt
  All-take P (suc n) [] h = tt
  All-take P (suc n) (x ∷ xs) h = (h.0, All-take P n xs h.1)

  pub All-drop {κ} : (P : A → Type κ) (n : ℕ) (xs : List A) → All P xs → All P (drop n xs)
  All-drop P zero xs h = h
  All-drop P (suc n) [] h = tt
  All-drop P (suc n) (x ∷ xs) h = All-drop P n xs h.1

  pub all-All : (p : A → Bool) (xs : List A) → all p xs ≡ true → All (λ x. p x ≡ true) xs
  all-All p [] h = tt
  all-All p (x ∷ xs) h =
      (and-true_left (p x) (all p xs) h, all-All p xs (and-true_right (p x) (all p xs) h))

  pub any-false-at : (p : A → Bool) {a : A} {xs : List A} → any p xs ≡ false → At a xs → p a ≡ false
  any-false-at p h at_head = ground arith
  any-false-at p h (at_tail i) = any-false-at p (ground arith) i

  pub any-at : (p : A → Bool) {a : A} {xs : List A} → p a ≡ true → At a xs → any p xs ≡ true
  any-at p h at_head = ground arith
  any-at p h (at_tail i) = ground (arith, any-at p h i)

  pub any-witness :
      (p : A → Bool) (xs : List A) → any p xs ≡ true → (a : A) × At a xs × (p a ≡ true)
  any-witness p [] h = absurd (ground arith)
  any-witness p (x ∷ xs) h = elim (Bool-cases (p x)) [
    | inl e ↦ (x, at_head, e)
    | inr e ↦ let (a, i, q) = any-witness p xs (ground arith) in (a, at_tail i, q)
  ]

  pub any_mono :
      (p q : A → Bool) (xs : List A)
      → ((x : A) → p x ≡ true → q x ≡ true)
      → any p xs ≡ true
      → any q xs ≡ true
  any_mono p q [] f h = h
  any_mono p q (x ∷ xs) f h = elim (Bool-cases (p x)) [
    | inl e ↦ ground (arith, f x e)
    | inr e ↦ ground (arith, any_mono p q xs f (ground arith))
  ]

module _ {ℓ κ} {A : Type ℓ} {B : Type κ} where
  pub length-map : (f : A → B) (xs : List A) → length (map f xs) ≡ length xs
  length-map f [] = refl
  length-map f (x ∷ xs) = ap suc (length-map f xs)

  pub At-map : (f : A → B) {a : A} {xs : List A} → At a xs → At (f a) (map f xs)
  At-map f at_head = at_head
  At-map f (at_tail i) = at_tail (At-map f i)

  pub any-map : (p : B → Bool) (f : A → B) (xs : List A) → any p (map f xs) ≡ any (λ x. p (f x)) xs
  any-map p f [] = refl
  any-map p f (x ∷ xs) = ap (◌||◌ (p (f x))) (any-map p f xs)

  pub All-map {μ} :
      (P : B → Type μ) (f : A → B) (xs : List A) → All (λ x. P (f x)) xs → All P (map f xs)
  All-map P f [] h = tt
  All-map P f (x ∷ xs) h = (h.0, All-map P f xs h.1)
