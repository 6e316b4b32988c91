-- ===== src/Ride/Store/Atomic.antt =====
-- Commands of the lifecycle store as all or nothing.
pub mod Journal
pub mod Commands
use driving_app.Prelude.{ℕ, ◌+◌, Bool, true, false, ◌≡◌, refl, Option, none, some, List, [], ◌∷◌}
use driving_app.Prelude.Text.{Text}
use driving_app.Prelude.Int.{ℤ}
use driving_app.Prelude.Float.{Floats}
use driving_app.Prelude.Result.{Result, ok, err}
use driving_app.Prelude.Exec.{Exec, pure, lift, continue, ◌>>=◌, ◌>>◌}
use driving_app.Ride.Errors.{RideError, external}
use driving_app.Ride.Model.{Ride}
use driving_app.Ride.Store.Statements.{RideRepository, Moment, Statement, DbError}
use driving_app.Ride.Store.Transaction.{
  Connection, Tx, closed, caught, kept, begin, deferring_rollback, or_rollback, commit, querying,
  new_audit_request_id, validate_native_read_repository, initialized_or_error, project,
  read_ride_projection,
}
use driving_app.Ride.Store.Commands.{write_or, request_id_or_rollback, project_and_commit}

module _ {D : Type 0} (floats : Floats) (repository : RideRepository D floats.Float)
    (moment : Moment) where
  open floats use {Float}

  -- The database after some statements, all of which succeeded; the latest stands first.
  pub data Writes (c : D) : List Statement → D → Type 0 where
    nothing : Writes c [] c
    then :
        {ws : List Statement} {d d' : D} (s : Statement)
        → Writes c ws d
        → repository.exec s d ≡ (ok tt, d')
        → Writes c (s ∷ ws) d'

  -- A command that failed has left the database as it was. One that succeeded has committed
  -- statements as in `Allowed` and nothing else, and returns the ride that is read behind them.
  -- No transaction is open either way.
  pub data Outcome (c : D) (Allowed : List Statement → ℤ → Type 0)
      : Result RideError (Ride Float) × Connection D → Type 0 where
    failed :
        {e : RideError} {w : Connection D}
        → w.committed ≡ c
        → w.transaction ≡ none
        → Outcome c Allowed (err e, w)
    done :
        {r : Ride Float} {w : Connection D} (ws : List Statement) (ride_id : ℤ)
        → Allowed ws ride_id
        → Writes c ws w.committed
        → w.transaction ≡ none
        → project floats repository moment ride_id w.committed ≡ ok r
        → Outcome c Allowed (ok r, w)

  module _ (c : D) (Allowed : List Statement → ℤ → Type 0) where
    -- What the rest of a command does after the statements `ws` of its transaction.
    pub record After (ws : List Statement) (m : Tx D (Ride Float)) : Type 0 where
      pub at :
          (d : D)
          → Writes c ws d
          → Outcome c Allowed (m (record { committed = c; transaction = some d }))

    pub After-write :
        (ws : List Statement) (mapped : DbError → RideError) (s : Statement) (m : Tx D (Ride Float))
        → After (s ∷ ws) m
        → After ws (write_or floats repository moment mapped s >> m)
    unfolding write_or ◌>>◌
    After-write ws mapped s m h = record { at = λ d made. go d made (repository.exec s d) refl }
      where
        go :
            (d : D)
            → Writes c ws d
            → (out : Result DbError (Unit {0}) × D) → repository.exec s d ≡ out
            → Outcome c Allowed (
                continue
                  (caught (kept (record { committed = c; transaction = some d }) mapped out))
                  λ _. m)
        go d made (ok u, d') e = h.at d' (then s made e)
        go d made (err x, d') e = failed refl refl

    pub After-request_id :
        (ws : List Statement) (f : Text → Tx D (Ride Float))
        → ((request_id : Text)
            → new_audit_request_id moment ≡ ok request_id
            → After ws (f request_id))
        → After ws (request_id_or_rollback floats repository moment >>= f)
    unfolding request_id_or_rollback ◌>>=◌
    After-request_id ws f h = record { at = λ d made. go d made (new_audit_request_id moment) refl }
      where
        go :
            (d : D)
            → Writes c ws d
            → (r : Result RideError Text) → new_audit_request_id moment ≡ r
            → Outcome c Allowed
                (continue (caught (r, record { committed = c; transaction = some d })) f)
        go d made (ok request_id) e = (h request_id e).at d made
        go d made (err x) e = failed refl refl

    pub After-project_and_commit :
        (ws : List Statement) (ride_id : ℤ)
        → Allowed ws ride_id
        → After ws (project_and_commit floats repository moment ride_id)
    unfolding project_and_commit or_rollback read_ride_projection commit ◌>>◌
    After-project_and_commit ws ride_id allowed = record {
      at = λ d made. go d made (project floats repository moment ride_id d) refl;
    }
      where
        finish :
            (d : D) (ride : Ride Float)
            → Writes c ws d
            → project floats repository moment ride_id d ≡ ok ride
            → (failure : Option ℕ)
            → Outcome c Allowed (
                continue {A = Unit {0}}
                  (caught (elim failure [
                    | none ↦ (ok tt, record { committed = d; transaction = none })
                    | some n ↦
                        (err (external (6 + n)), record { committed = c; transaction = none })
                  ]))
                  λ _ w'. (ok ride, w'))
        finish d ride made e none = done ws ride_id allowed made refl e
        finish d ride made e (some n) = failed refl refl

        go :
            (d : D)
            → Writes c ws d
            → (r : Result RideError (Ride Float)) → project floats repository moment ride_id d ≡ r
            → Outcome c Allowed (
                continue
                  (caught (r, record { committed = c; transaction = some d }))
                  λ ride. or_rollback (commit moment) >> pure ride)
        go d made (ok ride) e = finish d ride made e moment.commit_failure
        go d made (err x) e = failed refl refl

    -- A command on a connection without a transaction, over the database `c`.
    pub record Fresh (m : Tx D (Ride Float)) : Type 0 where
      pub at : Outcome c Allowed (m (record { committed = c; transaction = none }))

    pub Fresh-validate :
        (m : Tx D (Ride Float))
        → Fresh m
        → Fresh (validate_native_read_repository floats repository moment >> m)
    unfolding validate_native_read_repository initialized_or_error ◌>>◌
    Fresh-validate m h = record { at = go repository.initialized }
      where
        go :
            (b : Bool)
            → Outcome c Allowed
                ((initialized_or_error b >> m) (record { committed = c; transaction = none }))
        go true = h.at
        go false = failed refl refl

    pub Fresh-lift :
        {A : Type 0} (r : Result RideError A) (f : A → Tx D (Ride Float))
        → ((a : A) → r ≡ ok a → Fresh (f a))
        → Fresh (lift r >>= f)
    unfolding ◌>>=◌
    Fresh-lift (ok a) f h = (h a refl)
    Fresh-lift (err e) f h = record { at = failed refl refl }

    closed-Outcome :
        {out : Result RideError (Ride Float) × Connection D}
        → Outcome c Allowed out
        → Outcome c Allowed (closed out)
    closed-Outcome (failed p q) = failed p refl
    closed-Outcome (done ws ride_id allowed made q r) = done ws ride_id allowed made refl r

    pub Fresh-begin :
        (m : Tx D (Ride Float)) → After [] m → Fresh (begin moment >> deferring_rollback m)
    unfolding begin ◌>>◌
    Fresh-begin m h = record { at = go moment.begin_failure }
      where
        go :
            (failure : Option ℕ)
            → Outcome c Allowed (
                continue {A = Unit {0}}
                  (elim failure [
                    | none ↦ (ok tt, record { committed = c; transaction = some c })
                    | some n ↦
                        (err (external (6 + n)), record { committed = c; transaction = none })
                  ])
                  λ _. deferring_rollback m)
        go none = closed-Outcome (h.at c nothing)
        go (some n) = failed refl refl
