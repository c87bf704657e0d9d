-- ===== src/Engine/Registry/Validated.antt =====
-- What validateParams of backend/src/engine/workers/registry.ts guarantees of the parameters that it returns.
use background_job_runner.Prelude.{
  ◌≡◌, refl, sym, subst, ap, ◌⊎◌, inl, inr, ◌∙◌, false, List, [], ◌∷◌, some, All, Text, arith,
}
use background_job_runner.Types.{Value, Params}
use background_job_runner.Errors.{ok, ok_injective}
use background_job_runner.Engine.Numbers.{Numbers}
use background_job_runner.Engine.Registry.{
  ParamDescriptor, WorkerDescriptor, get_param, normalise, normalise_all, validate_params,
  find_lane, get, coerce, number, boolean, string, ParamType, coerce_as, store_result,
  coerce_number, coerce_boolean, apply_missing,
}
use background_job_runner.Engine.Registry.Entries.{
  is_named, Distinct, has_key, set_param-get, delete_param-missing, get_param-missing,
}
use background_job_runner.Engine.Registry.Typed.{
  Keeps, Keeps-trans, HasType, Settled, given, defaulted, left_out, Settled-keep, round_lem,
  and_then-eq-ok, is_missing,
}

module _ (num : Numbers) where
  -- The rounds of all the parameters: each is settled, and what no parameter names is kept.
  record Rounds (params : Params) (specs : List ParamDescriptor) (t t' : Params) : Type 0 where
    settled :
        All (λ (spec : ParamDescriptor). Settled num spec (get_param spec.name params) t') specs
    kept : (name : Text) → is_named name specs ≡ false → Keeps name t t'

  rounds_lem :
      (params : Params) (specs : List ParamDescriptor) (t t' : Params)
      → Distinct specs
      → normalise_all num params specs t ≡ ok t'
      → Rounds params specs t t'
  unfolding normalise_all
  rounds_lem params [] t t' d h = record {
    settled = tt;
    kept =
        λ name _. subst (Keeps name t) (ok_injective h) (record { same = refl; absent = λ a. a });
  }
  rounds_lem params (spec ∷ specs) t t' d h =
      let (u, first, later) =
        and_then-eq-ok num (normalise num (get_param spec.name params) spec t)
          (normalise_all num params specs) t' h in
      let r = round_lem num (get_param spec.name params) spec t u first in
      let rs = rounds_lem params specs u t' d.1 later in
      record {
        settled = (Settled-keep num (rs.kept spec.name d.0) r.settled, rs.settled);
        kept = λ name h. Keeps-trans (r.kept name (ground arith)) (rs.kept name (ground arith));
      }

  validate_params-lane :
      (ds : List WorkerDescriptor) (lane : Text) (params : Params) (d : WorkerDescriptor)
      → find_lane lane ds ≡ some d
      → validate_params num ds lane params ≡ normalise_all num params d.params params
  unfolding validate_params get
  validate_params-lane ds lane params d found = ground arith

  -- Where a lane is found and its parameters have distinct names, what `validateParams` returns has, under every
  -- declared name, a value of the declared type and range, or the default where nothing was sent, or
  -- nothing where there is no default and nothing is required; every other name keeps what was sent.
  pub validate_params-IsTyped :
      (ds : List WorkerDescriptor) (lane : Text) (params result : Params) (d : WorkerDescriptor)
      → find_lane lane ds ≡ some d
      → Distinct d.params
      → validate_params num ds lane params ≡ ok result
      → All
          (λ (spec : ParamDescriptor). Settled num spec (get_param spec.name params) result)
          d.params
        × ((name : Text)
            → is_named name d.params ≡ false
            → get_param name result ≡ get_param name params)
  validate_params-IsTyped ds lane params result d found distinct h =
      let r =
        rounds_lem params d.params params result distinct
          (sym (validate_params-lane ds lane params d found) ∙ h) in
      (r.settled, λ name fresh. (r.kept name fresh).same)

  coerce_as-typed :
      (type : ParamType) (spec : ParamDescriptor) (v : Value)
      → HasType num type spec v
      → (coerce_as num type v spec ≡ ok v) × (is_missing v ≡ false)
  unfolding coerce_number coerce_boolean
  coerce_as-typed number spec (Value.num n) h = (ground arith, refl)
  coerce_as-typed boolean spec (Value.bool b) h = (refl, refl)
  coerce_as-typed string spec (Value.str s) h = (refl, refl)
  coerce_as-typed number spec _ h = absurd h
  coerce_as-typed boolean spec _ h = absurd h
  coerce_as-typed string spec _ h = absurd h

  normalise-same :
      (v : Value) (spec : ParamDescriptor) (t : Params)
      → coerce num v spec ≡ ok v
      → is_missing v ≡ false
      → get_param spec.name t ≡ v
      → normalise num v spec t ≡ ok t
  normalise-same Value.undefined spec t c m g = absurd (ground arith)
  normalise-same Value.null spec t c m g = absurd (ground arith)
  normalise-same v spec t c m g =
      ap (store_result num spec.name t) c ∙ ap ok (set_param-get spec.name v t g (λ e. cc e))

  -- Every default is of the declared type.
  abbrev pub HasDefault : ParamDescriptor → Type 0
  HasDefault spec = (spec.default ≡ Value.undefined) ⊎ HasType num spec.type spec spec.default

  normalise-typed :
      (spec : ParamDescriptor) (v : Value) (t : Params)
      → HasType num spec.type spec v
      → get_param spec.name t ≡ v
      → normalise num (get_param spec.name t) spec t ≡ ok t
  unfolding coerce
  normalise-typed spec v t h g =
      let (same, there) = coerce_as-typed spec.type spec v h in
      rw g (normalise-same v spec t same there g)

  normalise-left_out :
      (spec : ParamDescriptor) (t : Params)
      → spec.default ≡ Value.undefined
      → spec.required ≡ false
      → has_key spec.name t ≡ false
      → normalise num (get_param spec.name t) spec t ≡ ok t
  unfolding apply_missing
  normalise-left_out spec t d r k =
      rw (get_param-missing spec.name t k) (ground (arith, delete_param-missing spec.name t))

  normalise-again :
      (spec : ParamDescriptor) (sent : Value) (t : Params)
      → HasDefault spec
      → Settled num spec sent t
      → normalise num (get_param spec.name t) spec t ≡ ok t
  normalise-again spec sent t w (given {v = v} m g h) = normalise-typed spec v t h g
  normalise-again spec sent t (inl e) (defaulted m d g) = absurd (d e)
  normalise-again spec sent t (inr h) (defaulted m d g) = normalise-typed spec spec.default t h g
  normalise-again spec sent t w (left_out m d r k) = normalise-left_out spec t d r k

  normalise_all-again :
      (params : Params) (specs : List ParamDescriptor) (t : Params)
      → All HasDefault specs
      → All (λ (spec : ParamDescriptor). Settled num spec (get_param spec.name params) t) specs
      → normalise_all num t specs t ≡ ok t
  unfolding normalise_all
  normalise_all-again params [] t w s = refl
  normalise_all-again params (spec ∷ specs) t w s =
      rw (normalise-again spec (get_param spec.name params) t w.0 s.0)
        (normalise_all-again params specs t w.1 s.1)

  -- Where moreover every default is of its declared type, what `validateParams` returns is returned
  -- unchanged when it is validated again.
  pub validate_params_idem :
      (ds : List WorkerDescriptor) (lane : Text) (params result : Params) (d : WorkerDescriptor)
      → find_lane lane ds ≡ some d
      → Distinct d.params
      → All HasDefault d.params
      → validate_params num ds lane params ≡ ok result
      → validate_params num ds lane result ≡ ok result
  validate_params_idem ds lane params result d found distinct w h =
      validate_params-lane ds lane result d found
      ∙ normalise_all-again params d.params result w
          (validate_params-IsTyped ds lane params result d found distinct h).0
