-- ===== src/Engine/Registry/Entries.antt =====
-- Reading and writing the parameters of a submission, which backend/src/engine/workers/registry.ts keeps in one
-- object.
use background_job_runner.Prelude.{
  ◌≡◌, ◌≢◌, refl, sym, Bool, false, List, [], ◌∷◌, any, Text, text_eq, text_eq_iff, text_eq_refl,
  arith,
}
use background_job_runner.Types.{Value, Params}
use background_job_runner.Engine.Registry.{ParamDescriptor, get_param, set_param, delete_param}

abbrev pub is_named : Text → List ParamDescriptor → Bool
is_named name ps = any (λ (q : ParamDescriptor). text_eq q.name name) ps

-- No two parameters of one name.
abbrev pub Distinct : List ParamDescriptor → Type 0
Distinct [] = Unit
Distinct (p ∷ ps) = (is_named p.name ps ≡ false) × Distinct ps

pub get_param-set : (name : Text) (v : Value) (t : Params) → get_param name (set_param name v t) ≡ v
unfolding get_param set_param
get_param-set name v [] = ground (arith, text_eq_refl name)
get_param-set name v ((k, w) ∷ t) = ground (arith, text_eq_refl name, get_param-set name v t)

pub get_param-set_other :
    (name other : Text) (v : Value) (t : Params)
    → text_eq other name ≡ false
    → get_param name (set_param other v t) ≡ get_param name t
unfolding get_param set_param
get_param-set_other name other v [] h = ground arith
get_param-set_other name other v ((k, w) ∷ t) h = ground (
  arith,
  text_eq_iff k other,
  text_eq_iff k name,
  text_eq_iff other name,
  get_param-set_other name other v t h,
)

pub get_param-delete :
    (name : Text) (t : Params) → get_param name (delete_param name t) ≡ Value.undefined
unfolding get_param delete_param
get_param-delete name [] = refl
get_param-delete name ((k, w) ∷ t) = ground (arith, get_param-delete name t)

pub get_param-delete_other :
    (name other : Text) (t : Params)
    → text_eq other name ≡ false
    → get_param name (delete_param other t) ≡ get_param name t
unfolding get_param delete_param
get_param-delete_other name other [] h = refl
get_param-delete_other name other ((k, w) ∷ t) h = ground (
  arith,
  text_eq_iff k other,
  text_eq_iff k name,
  text_eq_iff other name,
  get_param-delete_other name other t h,
)

-- Writing what is there already.
pub set_param-get :
    (name : Text) (v : Value) (t : Params)
    → get_param name t ≡ v
    → v ≢ Value.undefined
    → set_param name v t ≡ t
unfolding get_param set_param
set_param-get name v [] h n = absurd (n (sym h))
set_param-get name v ((k, w) ∷ t) h n = ground (arith, text_eq_iff k name, set_param-get name v t)

abbrev pub has_key : Text → Params → Bool
has_key name t = any (λ (e : Text × Value). text_eq e.0 name) t

pub has_key-delete : (name : Text) (t : Params) → has_key name (delete_param name t) ≡ false
unfolding delete_param
has_key-delete name [] = refl
has_key-delete name ((k, w) ∷ t) = ground (arith, has_key-delete name t)

pub has_key-delete_other :
    (name other : Text) (t : Params)
    → has_key name t ≡ false
    → has_key name (delete_param other t) ≡ false
unfolding delete_param
has_key-delete_other name other [] h = refl
has_key-delete_other name other ((k, w) ∷ t) h = ground (arith, has_key-delete_other name other t)

pub has_key-set_other :
    (name other : Text) (v : Value) (t : Params)
    → text_eq other name ≡ false
    → has_key name t ≡ false
    → has_key name (set_param other v t) ≡ false
unfolding set_param
has_key-set_other name other v [] h k = ground arith
has_key-set_other name other v ((k, w) ∷ t) h e = ground (arith, has_key-set_other name other v t)

pub delete_param-missing :
    (name : Text) (t : Params) → has_key name t ≡ false → delete_param name t ≡ t
unfolding delete_param
delete_param-missing name [] h = refl
delete_param-missing name ((k, w) ∷ t) h = ground (arith, delete_param-missing name t)

pub get_param-missing :
    (name : Text) (t : Params) → has_key name t ≡ false → get_param name t ≡ Value.undefined
unfolding get_param
get_param-missing name [] h = refl
get_param-missing name ((k, w) ∷ t) h = ground (arith, get_param-missing name t)
