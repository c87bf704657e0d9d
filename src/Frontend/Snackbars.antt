-- ===== src/Frontend/Snackbars.antt =====
-- The queue of snackbars: frontend/src/components/GlobalSnackbar/store.ts.
-- A message is its text; the action that it may render is left out.
use background_job_runner.Prelude.{
  ℕ, suc, ◌+◌, ◌≤◌, Bool, not, List, [], ◌∷◌, ◌++◌, Option, none, some, arith, leb, filter, length,
  length-append, length-filter-le, drop, if◌then◌else◌, if_elim, Text, text_eq,
}

pub data Variant : Type 0 where
  default success error warning info : Variant

pub record SnackbarOptions : Type 0 where
  pub key : Option Text
  pub variant : Option Variant
  pub persist : Option Bool
  pub auto_hide_duration : Option ℕ

pub record Snackbar : Type 0 where
  pub key : Text
  pub message : Text
  pub options : SnackbarOptions

pub record SnackbarStore : Type 0 where
  pub snackbars : List Snackbar
  pub max_snack : ℕ

abbrev pub initial_store : SnackbarStore
initial_store = record { snackbars = []; max_snack = 3 }

abbrev pub key_or : Option Text → Text → Text
key_or none drawn = drawn
key_or (some key) drawn = key

unfoldable pub set_max_snack : ℕ → SnackbarStore → SnackbarStore
set_max_snack n s = record s { max_snack = n }

-- `drawn` is the key that is made of the time and a random number.
unfoldable pub enqueue_snackbar : Text → Text → SnackbarOptions → SnackbarStore → SnackbarStore
enqueue_snackbar drawn message options s =
    let kept = if leb s.max_snack (length s.snackbars) then drop 1 s.snackbars else s.snackbars in
    record s {
      snackbars =
          kept
          ++ record { key = key_or options.key drawn; message = message; options = options } ∷ [];
    }

unfoldable pub close_snackbar : Text → SnackbarStore → SnackbarStore
close_snackbar key s = record s {
  snackbars = filter (λ (snack : Snackbar). not (text_eq snack.key key)) s.snackbars;
}

pub data SnackbarCall : Type 0 where
  enqueue : Text → Text → SnackbarOptions → SnackbarCall
  close : Text → SnackbarCall

unfoldable pub after_calls : List SnackbarCall → SnackbarStore → SnackbarStore
after_calls [] s = s
after_calls (enqueue drawn message options ∷ cs) s =
    after_calls cs (enqueue_snackbar drawn message options s)
after_calls (close key ∷ cs) s = after_calls cs (close_snackbar key s)

-- At most as many as the limit, which is at least one.
pub record IsWithin (s : SnackbarStore) : Type 0 where
  pub limit : 1 ≤ s.max_snack
  pub bound : length s.snackbars ≤ s.max_snack

length-drop_one : (xs : List Snackbar) → length (drop 1 xs) + 1 ≤ suc (length xs)
length-drop_one [] = omega arith
length-drop_one (x ∷ xs) = omega arith

shifted :
    (n : ℕ) (xs : List Snackbar) (x : Snackbar)
    → 1 ≤ n
    → length xs ≤ n
    → length (drop 1 xs ++ x ∷ []) ≤ n
shifted n [] x h b = omega (arith, h)
shifted n (y ∷ xs) x h b = omega (arith, length-append xs (x ∷ []), b)

IsWithin-enqueue :
    (drawn message : Text) (options : SnackbarOptions) (s : SnackbarStore)
    → IsWithin s
    → IsWithin (enqueue_snackbar drawn message options s)
unfolding enqueue_snackbar
IsWithin-enqueue drawn message options s w =
    let x : Snackbar = record {
      key = key_or options.key drawn;
      message = message;
      options = options;
    } in
    record {
      limit = w.limit;
      bound =
          if_elim (λ (kept : List Snackbar). length (kept ++ x ∷ []) ≤ s.max_snack)
            (leb s.max_snack (length s.snackbars)) _ _
            (λ _. shifted s.max_snack s.snackbars x w.limit w.bound)
            (λ e. ground (arith, length-append s.snackbars (x ∷ [])));
    }

IsWithin-close : (key : Text) (s : SnackbarStore) → IsWithin s → IsWithin (close_snackbar key s)
unfolding close_snackbar
IsWithin-close key s w = record {
  limit = w.limit;
  bound = omega (
    arith,
    length-filter-le (λ (snack : Snackbar). not (text_eq snack.key key)) s.snackbars,
    w.bound,
  );
}

calls-IsWithin :
    (cs : List SnackbarCall) (s : SnackbarStore) → IsWithin s → IsWithin (after_calls cs s)
unfolding after_calls
calls-IsWithin [] s w = w
calls-IsWithin (enqueue drawn message options ∷ cs) s w =
    calls-IsWithin cs _ (IsWithin-enqueue drawn message options s w)
calls-IsWithin (close key ∷ cs) s w = calls-IsWithin cs _ (IsWithin-close key s w)

-- However snackbars are queued and closed, from the initial store on, at most three are shown at a time.
pub after_calls-bound :
    (cs : List SnackbarCall)
    → length (after_calls cs initial_store).snackbars ≤ (after_calls cs initial_store).max_snack
after_calls-bound cs =
    IsWithin.bound
      (calls-IsWithin cs initial_store (record { limit = omega arith; bound = omega arith }))
