-- ===== src/Repository/Schema/Keys.antt =====
-- The keys of the tasks table under updates of its rows.
use background_job_runner.Prelude.{
  ◌≡◌, refl, true, false, not, List, [], ◌∷◌, map, arith, any, ==_refl, text_eq_refl, sym, or_mono,
  false_of_imp, not-true, and-true, and-true_left, and-true_right, not-true-false, At, at_head,
  at_tail, any-false-at,
}
use background_job_runner.Types.{TaskRow}
use background_job_runner.Repository.Schema.{active, holds, clashes, keys_ok}

pub record KeepsKeys (g : TaskRow → TaskRow) : Type 0 where
  pub id : (t : TaskRow) → (g t).id ≡ t.id
  pub user_id : (t : TaskRow) → (g t).user_id ≡ t.user_id
  pub lane : (t : TaskRow) → (g t).lane ≡ t.lane
  pub handle_num : (t : TaskRow) → (g t).handle_num ≡ t.handle_num
  pub active : (t : TaskRow) → active (g t) ≡ true → active t ≡ true

module _ {g : TaskRow → TaskRow} (k : KeepsKeys g) where
  clashes-of_kept : (t u : TaskRow) → clashes (g t) (g u) ≡ true → clashes t u ≡ true
  clashes-of_kept t u h = ground (
    arith,
    k.id t,
    k.id u,
    k.user_id t,
    k.user_id u,
    k.lane t,
    k.lane u,
    k.handle_num t,
    k.handle_num u,
    k.active t,
    k.active u,
  )

  any-clashes-of_kept :
      (t : TaskRow) (us : List TaskRow)
      → any (clashes (g t)) (map g us) ≡ true
      → any (clashes t) us ≡ true
  any-clashes-of_kept t [] h = h
  any-clashes-of_kept t (u ∷ us) h =
      or_mono (clashes (g t) (g u)) (any (clashes (g t)) (map g us)) (clashes-of_kept t u)
        (any-clashes-of_kept t us) h

  pub keys_ok-map : (ts : List TaskRow) → keys_ok ts ≡ true → keys_ok (map g ts) ≡ true
  unfolding keys_ok
  keys_ok-map [] h = refl
  keys_ok-map (t ∷ ts) h =
      let apart = not-true-false (and-true_left (not (any (clashes t) ts)) (keys_ok ts) h) in
      and-true
        (not-true (false_of_imp (any (clashes (g t)) (map g ts)) (any-clashes-of_kept t ts) apart))
        (keys_ok-map ts (and-true_right (not (any (clashes t) ts)) (keys_ok ts) h))

separate :
    (r u : TaskRow) (ts : List TaskRow) → keys_ok (r ∷ ts) ≡ true → At u ts → clashes r u ≡ true → ⊥
unfolding keys_ok
separate r u ts h j c =
    let apart = not-true-false (and-true_left (not (any (clashes r) ts)) (keys_ok ts) h) in
    let free : clashes r u ≡ false = any-false-at (clashes r) apart j in cc

clashes-of_same : (t u : TaskRow) → t.id ≡ u.id → clashes t u ≡ true
clashes-of_same t u e = rw e (ground (arith, ==_refl u.id))

-- Two rows with one id are one row.
pub keys_ok-unique_id :
    (ts : List TaskRow) (t u : TaskRow)
    → keys_ok ts ≡ true
    → At t ts
    → At u ts
    → t.id ≡ u.id
    → t ≡ u
unfolding keys_ok
keys_ok-unique_id [] t u h i j e = elim i [ ]
keys_ok-unique_id (r ∷ ts) t u h at_head at_head e = refl
keys_ok-unique_id (r ∷ ts) t u h at_head (at_tail j) e =
    absurd (separate r u ts h j (clashes-of_same r u e))
keys_ok-unique_id (r ∷ ts) t u h (at_tail i) at_head e =
    absurd (separate r t ts h i (clashes-of_same r t (sym e)))
keys_ok-unique_id (r ∷ ts) t u h (at_tail i) (at_tail j) e =
    keys_ok-unique_id ts t u (and-true_right (not (any (clashes r) ts)) (keys_ok ts) h) i j e

clashes-of_holder :
    (t u : TaskRow)
    → active t ≡ true
    → holds t.user_id t.lane t.handle_num u ≡ true
    → clashes t u ≡ true
clashes-of_holder t u a h = ground arith

holds_of :
    (t u : TaskRow)
    → active u ≡ true
    → t.user_id ≡ u.user_id
    → t.lane ≡ u.lane
    → t.handle_num ≡ u.handle_num
    → holds t.user_id t.lane t.handle_num u ≡ true
holds_of t u b p q r = rw (p, q, r) (ground (arith, ==_refl u.user_id, text_eq_refl u.lane))

-- At most one active row holds a handle of one user and lane.
pub keys_ok-unique_holder :
    (ts : List TaskRow) (t u : TaskRow)
    → keys_ok ts ≡ true
    → At t ts
    → At u ts
    → active t ≡ true
    → active u ≡ true
    → t.user_id ≡ u.user_id
    → t.lane ≡ u.lane
    → t.handle_num ≡ u.handle_num
    → t ≡ u
unfolding keys_ok
keys_ok-unique_holder [] t u h i j a b p q r = elim i [ ]
keys_ok-unique_holder (x ∷ ts) t u h at_head at_head a b p q r = refl
keys_ok-unique_holder (x ∷ ts) t u h at_head (at_tail j) a b p q r =
    absurd (separate x u ts h j (clashes-of_holder x u a (holds_of x u b p q r)))
keys_ok-unique_holder (x ∷ ts) t u h (at_tail i) at_head a b p q r =
    absurd (separate x t ts h i (clashes-of_holder x t b (holds_of x t a (sym p) (sym q) (sym r))))
keys_ok-unique_holder (x ∷ ts) t u h (at_tail i) (at_tail j) a b p q r =
    keys_ok-unique_holder ts t u (and-true_right (not (any (clashes x) ts)) (keys_ok ts) h) i j a b
      p q r
