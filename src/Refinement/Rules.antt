-- ===== src/Refinement/Rules.antt =====
-- Actions on the store that let tables evolve and keep the keys, one rule for each way to build one.
use background_job_runner.Prelude.{◌≡◌, ap, sym, Bool, true, List, map, subst, if_elim, At}
use background_job_runner.Types.{TaskRow}
use background_job_runner.Errors.{Result, ok, err}
use background_job_runner.Repository.Sql.{
  Db, Sql, pure, continue, ◌>>=◌, statement, guarded, with_transaction,
}
use background_job_runner.Repository.Sql.Rules.{statement_rule, with_transaction_rule}
use background_job_runner.Repository.Schema.{keys_ok}
use background_job_runner.Repository.Writes.{change, update_where}
use background_job_runner.Lifecycle.{Edge, Evolves}
use background_job_runner.Lifecycle.Ranks.{IsRanked, IsRanked-change}
use background_job_runner.Lifecycle.Tables.{Evolves-refl, Evolves-trans, Evolves-change}

-- Tables with valid keys became tables with valid keys, each row living on, and a row that has the handle of
-- a later one stays retired.
pub record Advances (ts us : List TaskRow) : Type 0 where
  pub evolves : Evolves ts us
  pub keys : keys_ok us ≡ true
  pub ranks : IsRanked ts → IsRanked us

pub Advances-refl : (ts : List TaskRow) → keys_ok ts ≡ true → Advances ts ts
Advances-refl ts k = record { evolves = Evolves-refl ts; keys = k; ranks = λ h. h }

pub Advances-trans : (ts us vs : List TaskRow) → Advances ts us → Advances us vs → Advances ts vs
Advances-trans ts us vs a b = record {
  evolves = Evolves-trans a.evolves b.evolves;
  keys = b.keys;
  ranks = λ h. b.ranks (a.ranks h);
}

pub record Grows {ℓ} {A : Type ℓ} (m : Sql A) : Type ℓ where
  pub at : (db : Db) → keys_ok db.tasks ≡ true → Advances db.tasks (m db).1.tasks

module _ {ℓ} {A : Type ℓ} where
  pub Grows-pure : (a : A) → Grows (pure a)
  Grows-pure a = record { at = λ db k. Advances-refl db.tasks k }

  pub Grows-statement : (m : Sql A) → Grows m → Grows (statement m)
  Grows-statement m g = record {
    at = λ db k.
        statement_rule (λ r. Advances db.tasks r.1.tasks) m db (λ e fs. Advances-refl db.tasks k)
          (λ fs. g.at (record db { faults = fs }) k);
  }

  pub Grows-guarded : (m : Sql A) → Grows m → Grows (guarded m)
  unfolding guarded
  Grows-guarded m g = record { at = λ db k. g.at db k }

  pub Grows-with_transaction : (m : Sql A) → Grows m → Grows (with_transaction m)
  Grows-with_transaction m g = record {
    at = λ db k.
        with_transaction_rule (λ r. Advances db.tasks r.1.tasks) m db
          (λ e db' same. subst (Advances db.tasks) (sym same.tasks) (Advances-refl db.tasks k))
          (λ fs gs a db' ran.
            subst (Advances db.tasks) (ap (λ (r : Result A × Db). r.1.tasks) ran)
              (g.at (record db { faults = fs }) k));
  }

module _ {ℓ κ} {A : Type ℓ} {B : Type κ} where
  Advances-continue :
      (ts : List TaskRow) (r : Result A × Db) (f : A → Sql B)
      → Advances ts r.1.tasks
      → ((a : A) → Grows (f a))
      → Advances ts (continue r.0 f r.1).1.tasks
  Advances-continue ts (ok a, d) f h g =
      Advances-trans ts d.tasks (f a d).1.tasks h ((g a).at d h.keys)
  Advances-continue ts (err e, d) f h g = h

  pub Grows-bind : (m : Sql A) (f : A → Sql B) → Grows m → ((a : A) → Grows (f a)) → Grows (m >>= f)
  Grows-bind m f gm gf = record { at = λ db k. Advances-continue db.tasks (m db) f (gm.at db k) gf }

  -- What was computed from the result of a statement changes no table.
  pub Grows-result :
      (m : Sql A) (f : Result A → Result B) → Grows m → Grows (λ db. (f (m db).0, (m db).1))
  Grows-result m f g = record { at = λ db k. g.at db k }

-- An update whose rows all take an edge; the database checks the keys.
pub Advances-update_where :
    (p : TaskRow → Bool) (f : TaskRow → TaskRow) (db : Db)
    → keys_ok db.tasks ≡ true
    → ((t : TaskRow) → At t db.tasks → p t ≡ true → Edge t (f t))
    → Advances db.tasks (update_where p f db).1.tasks
unfolding update_where
Advances-update_where p f db k edge =
    if_elim (λ (r : Result (List TaskRow) × Db). Advances db.tasks r.1.tasks)
      (keys_ok (map (change p f) db.tasks)) _ _
      (λ h. record {
        evolves = Evolves-change p f db.tasks edge;
        keys = h;
        ranks = IsRanked-change p f db.tasks edge;
      })
      (λ _. Advances-refl db.tasks k)

pub ruleset grow_rules =
    (Grows-pure, Grows-statement, Grows-guarded, Grows-with_transaction, Grows-bind)
