-- ===== src/Engine/Registry/Typed.antt =====
-- What validateParams of backend/src/engine/workers/registry.ts leaves in the parameters.
use background_job_runner.Prelude.{
  ◌≡◌, ◌≢◌, refl, sym, subst, ◌⊎◌, inl, inr, ◌∙◌, Bool, true, false, Text, text_eq, arith,
}
use background_job_runner.Types.{Value, Params}
use background_job_runner.Errors.{Result, ok, err, ok_injective}
use background_job_runner.Engine.Numbers.{Numbers}
use background_job_runner.Engine.Registry.{
  ParamType, number, boolean, string, ParamDescriptor, get_param, set_param, delete_param,
  apply_missing, coerce_boolean, coerce_number, coerce_as, coerce_string, coerce, store_result,
  normalise, and_then, below, above,
}
use background_job_runner.Engine.Registry.Entries.{
  get_param-set, get_param-set_other, get_param-delete_other, has_key, has_key-delete,
  has_key-delete_other, has_key-set_other,
}

abbrev pub is_missing : Value → Bool
is_missing Value.undefined = true
is_missing Value.null = true
is_missing _ = false

-- What becomes of the other parameters in a round.
pub record Keeps (name : Text) (t t' : Params) : Type 0 where
  pub same : get_param name t' ≡ get_param name t
  pub absent : has_key name t ≡ false → has_key name t' ≡ false

pub Keeps-trans : {name : Text} {t u v : Params} → Keeps name t u → Keeps name u v → Keeps name t v
Keeps-trans a b = record { same = b.same ∙ a.same; absent = λ h. b.absent (a.absent h) }

Keeps-set :
    (name other : Text) (v : Value) (t : Params)
    → text_eq other name ≡ false
    → Keeps name t (set_param other v t)
Keeps-set name other v t h = record {
  same = get_param-set_other name other v t h;
  absent = has_key-set_other name other v t h;
}

Keeps-delete :
    (name other : Text) (t : Params)
    → text_eq other name ≡ false
    → Keeps name t (delete_param other t)
Keeps-delete name other t h = record {
  same = get_param-delete_other name other t h;
  absent = has_key-delete_other name other t;
}

module _ (num : Numbers) where
  -- A finite number in the declared range, a boolean, a text.
  abbrev pub HasType : ParamType → ParamDescriptor → Value → Type 0
  HasType number spec (Value.num n) =
      (num.is_finite n ≡ true) × (below num spec.min n ≡ false) × (above num spec.max n ≡ false)
  HasType boolean spec (Value.bool b) = Unit
  HasType string spec (Value.str s) = Unit
  HasType _ spec _ = ⊥

  -- What stands under a declared name, by what was sent: a value of the declared type, the default where
  -- nothing was sent, or nothing where there is no default and the parameter is not required.
  pub data Settled (spec : ParamDescriptor) (sent : Value) (t : Params) : Type 0 where
    given :
        {v : Value}
        → is_missing sent ≡ false
        → get_param spec.name t ≡ v
        → HasType spec.type spec v
        → Settled spec sent t
    defaulted :
        is_missing sent ≡ true
        → spec.default ≢ Value.undefined
        → get_param spec.name t ≡ spec.default
        → Settled spec sent t
    left_out :
        is_missing sent ≡ true
        → spec.default ≡ Value.undefined
        → spec.required ≡ false
        → has_key spec.name t ≡ false
        → Settled spec sent t

  pub Settled-keep :
      {spec : ParamDescriptor} {sent : Value} {t t' : Params}
      → Keeps spec.name t t'
      → Settled spec sent t
      → Settled spec sent t'
  Settled-keep k (given m g h) = given m (k.same ∙ g) h
  Settled-keep k (defaulted m d g) = defaulted m d (k.same ∙ g)
  Settled-keep k (left_out m d r g) = left_out m d r (k.absent g)

  -- A round settles its parameter and keeps the others.
  pub record Round (spec : ParamDescriptor) (sent : Value) (t t' : Params) : Type 0 where
    pub settled : Settled spec sent t'
    pub kept : (name : Text) → text_eq spec.name name ≡ false → Keeps name t t'

  no_default :
      (spec : ParamDescriptor) (t t' : Params)
      → spec.default ≡ Value.undefined
      → apply_missing t spec ≡ ok t'
      → (spec.required ≡ false) × (delete_param spec.name t ≡ t')
  unfolding apply_missing
  no_default spec t t' e h = ground arith

  some_default :
      (spec : ParamDescriptor) (t : Params) (d : Value)
      → spec.default ≡ d
      → d ≢ Value.undefined
      → apply_missing t spec ≡ ok (set_param spec.name spec.default t)
  unfolding apply_missing
  some_default spec t Value.undefined e n = absurd (n refl)
  some_default spec t Value.null e n = ground arith
  some_default spec t (Value.bool b) e n = ground arith
  some_default spec t (Value.num k) e n = ground arith
  some_default spec t (Value.str s) e n = ground arith
  some_default spec t (Value.structured k) e n = ground arith

  Round-set :
      (spec : ParamDescriptor) (sent v : Value) (t : Params)
      → Settled spec sent (set_param spec.name v t)
      → Round spec sent t (set_param spec.name v t)
  Round-set spec sent v t s = record {
    settled = s;
    kept = λ name h. Keeps-set name spec.name v t h;
  }

  Round-delete :
      (spec : ParamDescriptor) (sent : Value) (t : Params)
      → is_missing sent ≡ true
      → spec.default ≡ Value.undefined
      → spec.required ≡ false
      → Round spec sent t (delete_param spec.name t)
  Round-delete spec sent t m d r = record {
    settled = left_out m d r (has_key-delete spec.name t);
    kept = λ name h. Keeps-delete name spec.name t h;
  }

  is_undefined_or : (d : Value) → (d ≡ Value.undefined) ⊎ (d ≢ Value.undefined)
  is_undefined_or Value.undefined = inl refl
  is_undefined_or Value.null = inr (λ e. cc e)
  is_undefined_or (Value.bool b) = inr (λ e. cc e)
  is_undefined_or (Value.num n) = inr (λ e. cc e)
  is_undefined_or (Value.str s) = inr (λ e. cc e)
  is_undefined_or (Value.structured n) = inr (λ e. cc e)

  missing-Round :
      (spec : ParamDescriptor) (sent : Value) (t t' : Params)
      → is_missing sent ≡ true
      → apply_missing t spec ≡ ok t'
      → Round spec sent t t'
  missing-Round spec sent t t' m h = elim (is_undefined_or spec.default) [
    | inl d ↦
        let (optional, gone) = no_default spec t t' d h in
        subst (Round spec sent t) gone (Round-delete spec sent t m d optional)
    | inr d ↦
        subst (Round spec sent t) (ok_injective (sym (some_default spec t spec.default refl d) ∙ h))
          (Round-set spec sent spec.default t
            (defaulted m d (get_param-set spec.name spec.default t)))
  ]

  number-HasType :
      (spec : ParamDescriptor) (sent v : Value)
      → coerce_number num sent spec ≡ ok v
      → HasType number spec v
  unfolding coerce_number
  number-HasType spec sent (Value.num n) h = ground arith
  number-HasType spec sent _ h = ground arith

  boolean-HasType :
      (spec : ParamDescriptor) (sent v : Value)
      → coerce_boolean sent ≡ ok v
      → HasType boolean spec v
  unfolding coerce_boolean
  boolean-HasType spec sent (Value.bool b) h = tt
  boolean-HasType spec sent _ h = ground arith

  string-HasType :
      (spec : ParamDescriptor) (sent v : Value) → coerce_string sent ≡ ok v → HasType string spec v
  string-HasType spec sent (Value.str s) h = tt
  string-HasType spec sent _ h = ground arith

  coerce-HasType :
      (type : ParamType) (spec : ParamDescriptor) (sent v : Value)
      → coerce_as num type sent spec ≡ ok v
      → HasType type spec v
  coerce-HasType number spec sent v h = number-HasType spec sent v h
  coerce-HasType boolean spec sent v h = boolean-HasType spec sent v h
  coerce-HasType string spec sent v h = string-HasType spec sent v h

  stored-Round :
      (spec : ParamDescriptor) (sent : Value) (t t' : Params)
      → is_missing sent ≡ false
      → (r : Result Value) → coerce_as num spec.type sent spec ≡ r
      → store_result num spec.name t r ≡ ok t'
      → Round spec sent t t'
  stored-Round spec sent t t' m (ok v) e h = subst (Round spec sent t) (ok_injective h) (
      Round-set spec sent v t
        (given m (get_param-set spec.name v t) (coerce-HasType spec.type spec sent v e)))
  stored-Round spec sent t t' m (err x) e h = absurd (ground arith)

  pub round_lem :
      (sent : Value) (spec : ParamDescriptor) (t t' : Params)
      → normalise num sent spec t ≡ ok t'
      → Round spec sent t t'
  unfolding coerce
  round_lem Value.undefined spec t t' h = missing-Round spec Value.undefined t t' refl h
  round_lem Value.null spec t t' h = missing-Round spec Value.null t t' refl h
  round_lem (Value.bool b) spec t t' h = stored-Round spec (Value.bool b) t t' refl _ refl h
  round_lem (Value.num n) spec t t' h = stored-Round spec (Value.num n) t t' refl _ refl h
  round_lem (Value.str s) spec t t' h = stored-Round spec (Value.str s) t t' refl _ refl h
  round_lem (Value.structured n) spec t t' h =
      stored-Round spec (Value.structured n) t t' refl _ refl h

  pub and_then-eq-ok :
      (r : Result Params) (f : Params → Result Params) (u : Params)
      → and_then num r f ≡ ok u
      → (t : Params) × (r ≡ ok t) × (f t ≡ ok u)
  and_then-eq-ok (ok t) f u h = (t, refl, h)
  and_then-eq-ok (err e) f u h = absurd (ground arith)
