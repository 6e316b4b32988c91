-- ===== src/Ride/Store/Transaction.antt =====
-- Transactions, audit requests and their ends, as ride_lifecycle_store.go uses them.
use driving_app.Prelude.{
  ℕ, ◌+◌, ◌/◌, ◌%◌, Bool, true, false, Option, none, some, List, [], ◌∷◌, ltb, if◌then◌else◌,
}
use driving_app.Prelude.Text.{Text}
use driving_app.Prelude.Int.{ℤ}
use driving_app.Prelude.Float.{Floats}
use driving_app.Prelude.Result.{Result, ok, err}
use driving_app.Prelude.Exec.{Exec, pure, raise}
use driving_app.Ride.Errors.{RideError, external}
use driving_app.Ride.Model.{Ride}
use driving_app.Ride.Store.Statements.{
  RideRepository, Moment, GetRideByIdRow, DbError, db_error, transaction_closed, not_initialized,
}
use driving_app.Ride.Store.Projection.{from_postgres_ride_row}

-- The committed database, and what the open transaction has made of it.
pub record Connection (D : Type 0) : Type 0 where
  pub committed : D
  pub transaction : Option D

abbrev hex_digit : ℕ → ℕ
hex_digit n = if ltb n 10 then 48 + n else 87 + n

-- hex.EncodeToString
abbrev pub hex : List ℕ → Text
hex [] = []
hex (b ∷ bs) = hex_digit (b / 16) ∷ hex_digit (b % 16) ∷ hex bs

unfoldable pub new_audit_request_id : Moment → Result RideError Text
new_audit_request_id moment = elim moment.random [
  | ok bytes ↦ ok (hex bytes)
  | err n ↦ err (external (6 + n))
]

abbrev pub Tx : Type 0 → Type 0 → Type 0
Tx D A = Exec RideError (Connection D) A

module _ {D : Type 0} where
  unfoldable pub begin : Moment → Tx D (Unit {0})
  begin moment w = elim moment.begin_failure [
    | none ↦ (ok tt, record w { transaction = some w.committed })
    | some n ↦ (err (external (6 + n)), w)
  ]

  -- A transaction that cannot be rolled back is dropped with its connection, so that nothing of it
  -- is kept either way; the error to roll back, which is joined to the cause, is left out.
  unfoldable pub rollback_ride_status_transaction : {A : Type 0} → RideError → Tx D A
  rollback_ride_status_transaction cause w = (err cause, record w { transaction = none })

  -- The deferred platformdatabase.Rollback: it does nothing to a closed transaction.
  abbrev pub closed :
      {A : Type 0} → Result RideError A × Connection D → Result RideError A × Connection D
  closed (r, w) = (r, record w { transaction = none })

  abbrev pub deferring_rollback : {A : Type 0} → Tx D A → Tx D A
  deferring_rollback m w = closed (m w)

  abbrev pub caught :
      {A : Type 0} → Result RideError A × Connection D → Result RideError A × Connection D
  caught (ok a, w) = (ok a, w)
  caught (err e, w) = rollback_ride_status_transaction e w

  -- `if err != nil { return ..., rollbackRideStatusTransaction(...) }`
  unfoldable pub or_rollback : {A : Type 0} → Tx D A → Tx D A
  unfolding rollback_ride_status_transaction
  or_rollback m w = caught (m w)

  -- A failing commit rolls the transaction back.
  unfoldable pub commit : Moment → Tx D (Unit {0})
  commit moment w = elim w.transaction [
    | none ↦ (err transaction_closed, w)
    | some d ↦ elim moment.commit_failure [
      | none ↦ (ok tt, record { committed = d; transaction = none })
      | some n ↦ (err (external (6 + n)), record w { transaction = none })
    ]
  ]

  abbrev pub kept :
      {A : Type 0}
      → Connection D
      → (DbError → RideError)
      → Result DbError A × D
      → Result RideError A × Connection D
  kept w mapped (ok a, d) = (ok a, record w { transaction = some d })
  kept w mapped (err e, d) = (err (mapped e), record w { transaction = some d })

  -- A query in the transaction, and what its errors are returned as.
  unfoldable pub querying :
      {A : Type 0} → (DbError → RideError) → (D → Result DbError A × D) → Tx D A
  querying mapped query w = elim w.transaction [
    | none ↦ (err transaction_closed, w)
    | some d ↦ kept w mapped (query d)
  ]

  unfoldable pub initialized_or_error : Bool → Tx D (Unit {0})
  initialized_or_error true = pure tt
  initialized_or_error false = raise not_initialized

module _ {D : Type 0} (floats : Floats) (repository : RideRepository D floats.Float)
    (moment : Moment) where
  open floats use {Float}

  unfoldable pub validate_native_read_repository : Tx D (Unit {0})
  validate_native_read_repository = initialized_or_error repository.initialized

  abbrev row_ride : Result DbError (GetRideByIdRow Float) → Result RideError (Ride Float)
  row_ride (ok row) = from_postgres_ride_row floats moment.format_time row
  row_ride (err e) = err (db_error e)

  -- The ride of a row that was read.
  unfoldable pub project : ℤ → D → Result RideError (Ride Float)
  project ride_id d = row_ride (repository.get_ride_by_id ride_id d)

  unfoldable pub read_ride_projection : ℤ → Tx D (Ride Float)
  read_ride_projection ride_id w = elim w.transaction [
    | none ↦ (err transaction_closed, w)
    | some d ↦ (project ride_id d, w)
  ]
