-- ===== src/Frontend/SubmitForm/Rounds.antt =====
-- The rounds of validateParams over what the form holds: frontend/src/components/dashboard/SubmitTaskDialog.tsx
-- against backend/src/engine/workers/registry.ts.
use background_job_runner.Prelude.{
  ◌≡◌, refl, Bool, true, false, List, [], ◌∷◌, Option, none, some, All, Text, arith, if_elim,
  if◌then◌else◌, ℕ,
}
use background_job_runner.Types.{Value, Params}
use background_job_runner.Errors.{Result, ok, err}
use background_job_runner.Engine.Numbers.{Numbers}
use background_job_runner.Engine.Registry.{
  ParamType, number, boolean, string, ParamDescriptor, get_param, apply_missing, coerce_boolean,
  coerce_number, coerce_as, coerce, store_result, normalise, normalise_all, and_then, below, above,
}
use background_job_runner.Frontend.SubmitForm.{
  FieldValue, unsupplied, switched, typed, is_empty, sent_value, FieldError, too_small, too_big,
  number_error, typed_error, field_error,
}

abbrev pub is_ok {ℓ} : {A : Type ℓ} → Result A → Bool
is_ok (ok a) = true
is_ok (err e) = false

-- A switch belongs to a boolean parameter, a text field to the others.
abbrev pub fits : ParamType → FieldValue → Bool
fits boolean (typed s) = false
fits number (switched b) = false
fits string (switched b) = false
fits _ _ = true

module _ (num : Numbers) where
  not_below :
      (min : Option ℕ) (n : ℕ) (next : Option FieldError)
      → too_small num min n next ≡ none
      → (below num min n ≡ false) × (next ≡ none)
  not_below none n next h = (refl, h)
  not_below (some m) n next h = ground arith

  not_above : (max : Option ℕ) (n : ℕ) → too_big num max n ≡ none → above num max n ≡ false
  not_above none n h = refl
  not_above (some m) n h = ground arith

  number-accepted :
      (p : ParamDescriptor) (n : ℕ)
      → number_error num p n ≡ none
      → is_ok (coerce_number num (Value.num n) p) ≡ true
  unfolding number_error coerce_number
  number-accepted p n h = ground (arith, not_below p.min n (too_big num p.max n), not_above p.max n)

  typed-accepted :
      (t : ParamType) (p : ParamDescriptor) (v : FieldValue)
      → fits t v ≡ true
      → is_empty v ≡ false
      → typed_error num t p v ≡ none
      → is_ok (coerce_as num t (sent_value num t v) p) ≡ true
  unfolding coerce_boolean
  typed-accepted number p (typed s) f e h = number-accepted p _ h
  typed-accepted boolean p (switched b) f e h = refl
  typed-accepted string p (typed s) f e h = refl
  typed-accepted boolean p unsupplied f e h = ground arith
  typed-accepted number p unsupplied f e h = ground arith
  typed-accepted string p unsupplied f e h = ground arith
  typed-accepted number p (switched b) f e h = ground arith
  typed-accepted string p (switched b) f e h = ground arith
  typed-accepted boolean p (typed s) f e h = ground arith

  optional-accepted :
      (p : ParamDescriptor) (target : Params)
      → p.required ≡ false
      → is_ok (apply_missing target p) ≡ true
  unfolding apply_missing
  optional-accepted p target h = ground arith

  stored-accepted :
      (name : Text) (target : Params) (r : Result Value)
      → is_ok r ≡ true
      → is_ok (store_result num name target r) ≡ true
  stored-accepted name target (ok v) h = refl
  stored-accepted name target (err e) h = h

  sent-accepted :
      (t : ParamType) (p : ParamDescriptor) (v : FieldValue) (target : Params)
      → is_empty v ≡ false
      → is_ok (coerce num (sent_value num t v) p) ≡ true
      → is_ok (normalise num (sent_value num t v) p target) ≡ true
  sent-accepted number p v target e h = stored-accepted p.name target _ h
  sent-accepted boolean p (switched b) target e h = stored-accepted p.name target _ h
  sent-accepted boolean p (typed s) target e h = stored-accepted p.name target _ h
  sent-accepted string p (switched b) target e h = stored-accepted p.name target _ h
  sent-accepted string p (typed s) target e h = stored-accepted p.name target _ h
  sent-accepted boolean p unsupplied target e h = ground arith
  sent-accepted string p unsupplied target e h = ground arith

  fine-optional :
      (p : ParamDescriptor) (v : FieldValue)
      → is_empty v ≡ true
      → field_error num p v ≡ none
      → p.required ≡ false
  unfolding field_error
  fine-optional p v e h = ground arith

  fine-typed :
      (p : ParamDescriptor) (v : FieldValue)
      → is_empty v ≡ false
      → field_error num p v ≡ none
      → typed_error num p.type p v ≡ none
  unfolding field_error
  fine-typed p v e h = ground arith

  fine-coerced :
      (p : ParamDescriptor) (v : FieldValue)
      → fits p.type v ≡ true
      → is_empty v ≡ false
      → field_error num p v ≡ none
      → is_ok (coerce num (sent_value num p.type v) p) ≡ true
  unfolding coerce
  fine-coerced p v f e h = typed-accepted p.type p v f e (fine-typed p v e h)

  -- A value without an error passes its round, sent or left out.
  pub fine-accepted :
      (p : ParamDescriptor) (v : FieldValue) (target : Params)
      → fits p.type v ≡ true
      → field_error num p v ≡ none
      → is_ok
          (normalise num (if is_empty v then Value.undefined else sent_value num p.type v) p target)
        ≡ true
  fine-accepted p v target f h =
      if_elim (λ (sent : Value). is_ok (normalise num sent p target) ≡ true) (is_empty v) _ _
        (λ e. optional-accepted p target (fine-optional p v e h))
        (λ e. sent-accepted p.type p v target e (fine-coerced p v f e h))

  and_then-ok :
      (r : Result Params) (f : Params → Result Params)
      → is_ok r ≡ true
      → ((t : Params) → is_ok (f t) ≡ true)
      → is_ok (and_then num r f) ≡ true
  and_then-ok (ok t) f h g = g t
  and_then-ok (err e) f h g = h

  pub rounds-accepted :
      (params : Params) (ps : List ParamDescriptor) (target : Params)
      → All
          (λ (p : ParamDescriptor).
            (t : Params) → is_ok (normalise num (get_param p.name params) p t) ≡ true)
          ps
      → is_ok (normalise_all num params ps target) ≡ true
  unfolding normalise_all
  rounds-accepted params [] target a = refl
  rounds-accepted params (p ∷ ps) target a =
      and_then-ok (normalise num (get_param p.name params) p target) (normalise_all num params ps)
        (a.0 target) (λ t. rounds-accepted params ps t a.1)
