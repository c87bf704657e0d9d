-- ===== src/Frontend/SubmitForm/Filled.antt =====
-- What the loop of `handleSubmit` leaves in the payload: frontend/src/components/dashboard/SubmitTaskDialog.tsx.
use background_job_runner.Prelude.{
  ◌≡◌, refl, ◌∙◌, Bool, true, false, List, [], ◌∷◌, All, Text, text_eq, text_eq_iff, arith, if_elim,
  if◌then◌else◌,
}
use background_job_runner.Types.{Value, Params}
use background_job_runner.Engine.Numbers.{Numbers}
use background_job_runner.Engine.Registry.{ParamDescriptor, get_param, set_param}
use background_job_runner.Engine.Registry.Entries.{
  is_named, Distinct, get_param-set, get_param-set_other,
}
use background_job_runner.Frontend.SubmitForm.{is_empty, Overrides, current_value, sent_value, fill}

get_param-set_unless :
    (empty : Bool) (name : Text) (v : Value) (t : Params)
    → get_param name t ≡ Value.undefined
    → get_param name (if empty then t else set_param name v t)
      ≡ (if empty then Value.undefined else v)
get_param-set_unless true name v t h = h
get_param-set_unless false name v t h = get_param-set name v t

module _ (num : Numbers) (text_of : Value → Text) (os : Overrides) where
  -- What the submission says of a parameter: nothing, if its field is empty.
  abbrev pub said : ParamDescriptor → Value
  said p =
      let value = current_value text_of os p in
      if is_empty value then Value.undefined else sent_value num p.type value

  -- One round of the loop.
  abbrev put : ParamDescriptor → Params → Params
  put p payload =
      let value = current_value text_of os p in
      if is_empty value then payload else set_param p.name (sent_value num p.type value) payload

  get_param-put :
      (p : ParamDescriptor) (t : Params)
      → get_param p.name t ≡ Value.undefined
      → get_param p.name (put p t) ≡ said p
  get_param-put p t h =
      get_param-set_unless (is_empty (current_value text_of os p)) p.name
        (sent_value num p.type (current_value text_of os p)) t h

  get_param-put_other :
      (p : ParamDescriptor) (name : Text) (t : Params)
      → text_eq p.name name ≡ false
      → get_param name (put p t) ≡ get_param name t
  get_param-put_other p name t h =
      if_elim (λ (payload : Params). get_param name payload ≡ get_param name t)
        (is_empty (current_value text_of os p)) _ _ (λ _. refl)
        (λ _. get_param-set_other name p.name _ t h)

  get_param-fill :
      (name : Text) (ps : List ParamDescriptor) (t : Params)
      → is_named name ps ≡ false
      → get_param name (fill num text_of os ps t) ≡ get_param name t
  unfolding fill
  get_param-fill name [] t h = refl
  get_param-fill name (p ∷ ps) t h =
      get_param-fill name ps (put p t) (ground arith) ∙ get_param-put_other p name t (ground arith)

  other_name :
      (p : ParamDescriptor) (qs : List ParamDescriptor) (t : Params)
      → is_named p.name qs ≡ false
      → All (λ (q : ParamDescriptor). get_param q.name t ≡ Value.undefined) qs
      → All (λ (q : ParamDescriptor). get_param q.name (put p t) ≡ Value.undefined) qs
  other_name p [] t h a = tt
  other_name p (q ∷ qs) t h a = (
    get_param-put_other p q.name t
          (ground (arith, text_eq_iff p.name q.name, text_eq_iff q.name p.name))
        ∙ a.0,
    other_name p qs t (ground arith) a.1,
  )

  -- The payload says of each parameter what its field says.
  pub fill-said :
      (ps : List ParamDescriptor) (t : Params)
      → Distinct ps
      → All (λ (q : ParamDescriptor). get_param q.name t ≡ Value.undefined) ps
      → All (λ (q : ParamDescriptor). get_param q.name (fill num text_of os ps t) ≡ said q) ps
  unfolding fill
  fill-said [] t d a = tt
  fill-said (p ∷ ps) t d a = (
    get_param-fill p.name ps (put p t) d.0 ∙ get_param-put p t a.0,
    fill-said ps (put p t) d.1 (other_name p ps t d.0 a.1),
  )

  nothing_said :
      (ps : List ParamDescriptor)
      → All (λ (q : ParamDescriptor). get_param q.name [] ≡ Value.undefined) ps
  unfolding get_param
  nothing_said [] = tt
  nothing_said (p ∷ ps) = (refl, nothing_said ps)

  pub payload-said :
      (ps : List ParamDescriptor)
      → Distinct ps
      → All (λ (q : ParamDescriptor). get_param q.name (fill num text_of os ps []) ≡ said q) ps
  payload-said ps d = fill-said ps [] d (nothing_said ps)
