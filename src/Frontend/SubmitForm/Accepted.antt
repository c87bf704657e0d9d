-- ===== src/Frontend/SubmitForm/Accepted.antt =====
-- What the form sends is accepted: frontend/src/components/dashboard/SubmitTaskDialog.tsx against
-- validateParams of backend/src/engine/workers/registry.ts.
use background_job_runner.Prelude.{
  ◌≡◌, refl, sym, subst, ap, some_injective, ◌∙◌, Bool, true, false, ◌||◌, List, [], ◌∷◌, Option,
  none, some, any, All, Text, text_eq, arith, if_elim, if◌then◌else◌,
}
use background_job_runner.Types.{Value, Params}
use background_job_runner.Errors.{Result, ok}
use background_job_runner.Engine.Numbers.{Numbers}
use background_job_runner.Engine.Registry.{
  ParamType, number, boolean, string, ParamDescriptor, WorkerDescriptor, get_param, normalise,
  normalise_all, validate_params, validate_with, find_lane, get,
}
use background_job_runner.Http.TaskRoutes.{params_or_empty}
use background_job_runner.Frontend.SubmitForm.{
  FieldValue, unsupplied, switched, typed, Overrides, overridden, descriptor_value, current_value,
  fill, map_values, every_fine, FieldError, is_fine, default_value, supplied_or, field_error,
  errors, valid, Dialog, CreateTask, params_of, submit_to, first_named, chosen_lane, handle_submit,
}
use background_job_runner.Engine.Registry
use background_job_runner.Engine.Registry.Listed.{IsFound, list-IsFound}
use background_job_runner.Engine.Registry.Entries.{is_named, Distinct}
use background_job_runner.Frontend.SubmitForm.Filled.{said, payload-said}
use background_job_runner.Frontend.SubmitForm.Rounds.{is_ok, fits, fine-accepted, rounds-accepted}

module _ (num : Numbers) (text_of : Value → Text) (os : Overrides) where
  -- Every field of the form holds what its widget sets.
  abbrev pub Fitting : List ParamDescriptor → Type 0
  Fitting ps =
      All (λ (p : ParamDescriptor). fits p.type (overridden p.name unsupplied os) ≡ true) ps

  abbrev Fine : List ParamDescriptor → Type 0
  Fine ps = All (λ (p : ParamDescriptor). field_error num p (current_value text_of os p) ≡ none) ps

  any-errors :
      (name : Text) (ps : List ParamDescriptor)
      → any (λ (e : Text × Option FieldError). text_eq e.0 name) (errors num text_of os ps)
        ≡ is_named name ps
  unfolding errors
  any-errors name [] = refl
  any-errors name (p ∷ ps) = ap (λ (b : Bool). text_eq p.name name || b) (any-errors name ps)

  none_of_fine : (e : Option FieldError) → is_fine e ≡ true → e ≡ none
  none_of_fine none h = refl
  none_of_fine (some e) h = ground arith

  all_fine :
      (b : Bool) (e : Option FieldError) (rest : List (Option FieldError))
      → b ≡ false
      → every_fine (if b then rest else e ∷ rest) ≡ true
      → (is_fine e ≡ true) × (every_fine rest ≡ true)
  unfolding every_fine
  all_fine true e rest b h = ground arith
  all_fine false e rest b h = (ground arith, ground arith)

  valid-Fine : (ps : List ParamDescriptor) → Distinct ps → valid num text_of os ps ≡ true → Fine ps
  unfolding valid map_values errors
  valid-Fine [] d h = tt
  valid-Fine (p ∷ ps) d h =
      let fine =
        all_fine _ _ (map_values (errors num text_of os ps)) (any-errors p.name ps ∙ d.0) h in
      (none_of_fine _ fine.0, valid-Fine ps d.1 fine.1)

  default-fits : (t : ParamType) (v : Value) → fits t (default_value text_of t v) ≡ true
  default-fits number Value.undefined = refl
  default-fits number Value.null = refl
  default-fits number (Value.bool b) = refl
  default-fits number (Value.num n) = refl
  default-fits number (Value.str s) = refl
  default-fits number (Value.structured n) = refl
  default-fits boolean Value.undefined = refl
  default-fits boolean Value.null = refl
  default-fits boolean (Value.bool b) = refl
  default-fits boolean (Value.num n) = refl
  default-fits boolean (Value.str s) = refl
  default-fits boolean (Value.structured n) = refl
  default-fits string Value.undefined = refl
  default-fits string Value.null = refl
  default-fits string (Value.bool b) = refl
  default-fits string (Value.num n) = refl
  default-fits string (Value.str s) = refl
  default-fits string (Value.structured n) = refl

  supplied-fits :
      (t : ParamType) (initial v : FieldValue)
      → fits t initial ≡ true
      → fits t (supplied_or unsupplied v) ≡ true
      → fits t (supplied_or initial v) ≡ true
  supplied-fits t initial unsupplied i h = i
  supplied-fits t initial (switched b) i h = h
  supplied-fits t initial (typed s) i h = h

  overridden-fits :
      (t : ParamType) (name : Text) (initial : FieldValue) (os : Overrides)
      → fits t initial ≡ true
      → fits t (overridden name unsupplied os) ≡ true
      → fits t (overridden name initial os) ≡ true
  unfolding overridden
  overridden-fits t name initial [] i h = i
  overridden-fits t name initial ((k, v) ∷ os) i h =
      ground (arith, supplied-fits t initial v, overridden-fits t name initial os)

  current-fits :
      (p : ParamDescriptor)
      → fits p.type (overridden p.name unsupplied os) ≡ true
      → fits p.type (current_value text_of os p) ≡ true
  unfolding current_value descriptor_value
  current-fits p h =
      overridden-fits p.type p.name (default_value text_of p.type p.default) os
        (default-fits p.type p.default) h

  submitted-accepted :
      (ps : List ParamDescriptor)
      → Fitting ps
      → Fine ps
      → (params : Params)
      → All (λ (q : ParamDescriptor). get_param q.name params ≡ said num text_of os q) ps
      → All
          (λ (p : ParamDescriptor).
            (t : Params) → is_ok (normalise num (get_param p.name params) p t) ≡ true)
          ps
  submitted-accepted [] w f params a = tt
  submitted-accepted (p ∷ ps) w f params a = (
    λ t.
        ap (λ (sent : Value). is_ok (normalise num sent p t)) a.0
        ∙ fine-accepted num p (current_value text_of os p) t (current-fits p w.0) f.0,
    submitted-accepted ps w.1 f.1 params a.1,
  )

  payload-accepted :
      (ps : List ParamDescriptor)
      → Distinct ps
      → Fitting ps
      → valid num text_of os ps ≡ true
      → is_ok (normalise_all num (fill num text_of os ps []) ps (fill num text_of os ps [])) ≡ true
  payload-accepted ps d w h =
      let params = fill num text_of os ps [] in
      rounds-accepted num params ps params
        (submitted-accepted ps w (valid-Fine ps d h) params (payload-said num text_of os ps d))

  filled : (t : Params) → params_or_empty (params_of t) ≡ t
  filled [] = refl
  filled (p ∷ t) = refl

  get-found :
      (lanes : List WorkerDescriptor) (lane : Text) (l : WorkerDescriptor)
      → find_lane lane lanes ≡ some l
      → get lanes lane ≡ ok l
  unfolding get
  get-found lanes lane l h = ground arith

  lane-accepted :
      (lanes : List WorkerDescriptor) (l : WorkerDescriptor)
      → find_lane l.lane lanes ≡ some l
      → Distinct l.params
      → Fitting l.params
      → valid num text_of os l.params ≡ true
      → is_ok (
          validate_params num lanes l.lane
            (params_or_empty (params_of (fill num text_of os l.params []))))
        ≡ true
  unfolding validate_params
  lane-accepted lanes l found d w h =
      let params = fill num text_of os l.params [] in
      ap (λ (t : Params). is_ok (validate_with num t (get lanes l.lane))) (filled params)
      ∙ ap (λ (r : Result WorkerDescriptor). is_ok (validate_with num params r))
          (get-found lanes l.lane l found)
      ∙ payload-accepted l.params d w h

  lane_submitted :
      (lanes : List WorkerDescriptor) (l : WorkerDescriptor) (request : CreateTask)
      → find_lane l.lane lanes ≡ some l
      → Distinct l.params
      → Fitting l.params
      → submit_to num text_of os (some l) ≡ some request
      → is_ok (validate_params num lanes request.lane (params_or_empty request.params)) ≡ true
  lane_submitted lanes l request found d w =
      if_elim
        (λ (o : Option CreateTask).
          o ≡ some request
          → is_ok (validate_params num lanes request.lane (params_or_empty request.params)) ≡ true)
        (valid num text_of os l.params) _ _
        (λ v h.
          ap
            (λ (r : CreateTask).
              is_ok (validate_params num lanes r.lane (params_or_empty r.params)))
            (sym (some_injective h))
          ∙ lane-accepted lanes l found d w v)
        (λ _ h. ground arith)

first_named-All :
    (P : WorkerDescriptor → Type 0) (name : Text) (first : WorkerDescriptor)
    (ls : List WorkerDescriptor)
    → P first
    → All P ls
    → P (first_named name first ls)
unfolding first_named
first_named-All P name first [] p a = p
first_named-All P name first (l ∷ ls) p a =
    if_elim P (text_eq l.lane name) _ _ (λ _. a.0) (λ _. first_named-All P name first ls p a.1)

chosen_lane-All :
    (P : WorkerDescriptor → Type 0) (name : Text) (ls : List WorkerDescriptor)
    (l : WorkerDescriptor)
    → All P ls
    → chosen_lane name ls ≡ some l
    → P l
unfolding chosen_lane
chosen_lane-All P name [] l a h = absurd (ground arith)
chosen_lane-All P name (k ∷ ls) l a h =
    subst P (some_injective h) (first_named-All P name k (k ∷ ls) a.0 a)

-- The form is given the lanes that the registry lists. Where the parameters of the chosen lane have distinct names
-- and every field holds what its widget sets, a request that the form sends passes the registry's
-- `validateParams`.
pub submitted-IsAccepted :
    (num : Numbers) (text_of : Value → Text) (workers : List WorkerDescriptor) (dialog : Dialog)
    (l : WorkerDescriptor) (request : CreateTask)
    → chosen_lane dialog.lane_name (Registry.list workers) ≡ some l
    → Distinct l.params
    → Fitting num text_of dialog.overrides l.params
    → handle_submit num text_of (Registry.list workers) dialog ≡ some request
    → is_ok (validate_params num workers request.lane (params_or_empty request.params)) ≡ true
unfolding handle_submit
submitted-IsAccepted num text_of workers dialog l request chosen d w h =
    lane_submitted num text_of dialog.overrides workers l request
      (chosen_lane-All (IsFound workers) dialog.lane_name (Registry.list workers) l
        (list-IsFound workers) chosen)
      d w (ap (submit_to num text_of dialog.overrides) (sym chosen) ∙ h)
