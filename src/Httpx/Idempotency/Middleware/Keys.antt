-- ===== src/Httpx/Idempotency/Middleware/Keys.antt =====
-- The keys under which the middleware of idempotency.go stores results and locks.
use driving_app.Prelude.{ℕ, ◌≡◌, ◌≢◌, refl, ap, Option, [], ◌∷◌, ◌++◌, Bool-cases, inl, inr, arith}
use driving_app.Prelude.Split.{cancel_right}
use driving_app.Prelude.Text.{Text, runes, text_eq, text_eq_iff, text_eq_refl}
use driving_app.Httpx.Idempotency.Memory.{MemoryIdempotencyEntry}
use driving_app.Httpx.Idempotency.Memory.Expiring.{Spec, written}
use driving_app.Httpx.Idempotency.Middleware.Phases.{Exchange, result_key, lock_key}

final : Text → ℕ
final [] = 0
final (c ∷ []) = c
final (c ∷ d ∷ s) = final (d ∷ s)

final-append : (s : Text) (c : ℕ) (t : Text) → final (s ++ (c ∷ t)) ≡ final (c ∷ t)
unfolding final
final-append [] c t = refl
final-append (d ∷ []) c t = refl
final-append (d ∷ e ∷ s) c t = final-append (e ∷ s) c t

final-result_key : (a : Exchange) → final (result_key a) ≡ 116
unfolding final
final-result_key a = final-append a.base_key 58 (runes "result")

final-lock_key : (a : Exchange) → final (lock_key a) ≡ 107
unfolding final
final-lock_key a = final-append a.base_key 58 (runes "lock")

-- No lock is stored under the key of a result.
pub result_key-not-lock_key : (a b : Exchange) → result_key a ≢ lock_key b
result_key-not-lock_key a b h = omega (arith, final-result_key a, final-lock_key b, ap final h)

pub same_lock : (a b : Exchange) → lock_key a ≡ lock_key b → a.base_key ≡ b.base_key
same_lock a b h = cancel_right a.base_key b.base_key (runes ":lock") h

pub same_result : (a b : Exchange) → result_key a ≡ result_key b → a.base_key ≡ b.base_key
same_result a b h = cancel_right a.base_key b.base_key (runes ":result") h

pub written_there :
    (key : Text) (entry : Option MemoryIdempotencyEntry) (spec : Spec)
    → written key entry spec key ≡ entry
written_there key entry spec = rw (text_eq_refl key) refl

pub written_elsewhere :
    (key other : Text) (entry : Option MemoryIdempotencyEntry) (spec : Spec)
    → key ≢ other
    → written key entry spec other ≡ spec other
written_elsewhere key other entry spec h = elim (Bool-cases (text_eq key other)) [
  | inl b ↦ absurd (h ((text_eq_iff key other).0 b))
  | inr b ↦ rw b refl
]
