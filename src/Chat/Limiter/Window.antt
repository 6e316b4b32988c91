-- ===== src/Chat/Limiter/Window.antt =====
-- How many messages get through in a window of time.
use driving_app.Prelude.{
  ℕ, ◌+◌, ◌*◌, ◌≤◌, ◌<◌, ◌≡◌, refl, ap, ◌∙◌, Bool, true, false, ◌&&◌, some, List, [], ◌∷◌, leb,
  if◌then◌else◌, arith,
}
use native.Mathlib.Decide.{dec_le}
use native.Mathlib.Nat.{lt_of_not-le}
use driving_app.Prelude.Text.{Text, text_eq, text_eq_iff}
use driving_app.Prelude.{Bool-cases, inl, inr}
use driving_app.Chat.Limiter.{
  ChatBudget, new_budget, Limits, new_chat_limiter, charge_message, charge_typing, key_of, Call,
  message, typing, answers,
}
use driving_app.Chat.Limiter.Unlimited.{
  Kept, time_of, kept_call, kept_answers, Ordered, Short, answers-kept_answers,
}

abbrev pub is_message_of : Text → Call → Bool
is_message_of key (message now room_id principal) = text_eq (key_of room_id principal) key
is_message_of key (typing now room_id principal is_typing) = false

abbrev pub one_if : Bool → ℕ
one_if b = if b then 1 else 0

-- The messages of `key` between `lo` and `hi` that were answered by yes.
abbrev pub passed : Text → ℕ → ℕ → List Call → List Bool → ℕ
passed key lo hi [] given = 0
passed key lo hi (c ∷ cs) [] = 0
passed key lo hi (c ∷ cs) (a ∷ given) =
    one_if (is_message_of key c && leb lo (time_of c) && leb (time_of c) hi && a)
    + passed key lo hi cs given

module _ (limits : Limits) (key : Text) where
  -- What a call makes of the two message fields of the budget of `key`, and of its answer.
  data Moves (kept : Kept) (c : Call) : Type 0 where
    own :
        is_message_of key c ≡ true
        → (kept_call limits kept c).0 key ≡ (charge_message limits (kept key) (time_of c)).0
        → (kept_call limits kept c).1 ≡ (charge_message limits (kept key) (time_of c)).1
        → Moves kept c
    other :
        is_message_of key c ≡ false
        → ((kept_call limits kept c).0 key).message_reset ≡ (kept key).message_reset
        → ((kept_call limits kept c).0 key).message_count ≡ (kept key).message_count
        → Moves kept c

  typing_keeps_messages :
      (b : ChatBudget) (now : ℕ) (is_typing : Bool)
      → ((charge_typing limits b now is_typing).0.message_reset ≡ b.message_reset)
        × ((charge_typing limits b now is_typing).0.message_count ≡ b.message_count)
  unfolding charge_typing
  typing_keeps_messages b now is_typing = ground arith

  Moves-call : (kept : Kept) (c : Call) → Moves kept c
  Moves-call kept (message now room_id principal) =
      elim (Bool-cases (text_eq (key_of room_id principal) key)) [
        | inl same ↦
            let e = (text_eq_iff (key_of room_id principal) key).0 same in
            own same (rw same (ap (λ k. (charge_message limits (kept k) now).0) e))
              (ap (λ k. (charge_message limits (kept k) now).1) e)
        | inr differs ↦ other differs (rw differs refl) (rw differs refl)
      ]
  Moves-call kept (typing now room_id principal is_typing) =
      elim (Bool-cases (text_eq (key_of room_id principal) key)) [
        | inl same ↦
            let e = (text_eq_iff (key_of room_id principal) key).0 same in
            let (p, q) = typing_keeps_messages (kept (key_of room_id principal)) now is_typing in
            other refl (rw same (p ∙ ap (λ k. (kept k).message_reset) e))
              (rw same (q ∙ ap (λ k. (kept k).message_count) e))
        | inr differs ↦ other refl (rw differs refl) (rw differs refl)
      ]

  -- A message on a budget, in numbers: `r`, `n` before it, `r'`, `n'` behind it.
  record Charged (now r n r' n' : ℕ) (a : Bool) : Type 0 where
    within : now ≤ r → (r' ≡ r) × (n' ≡ n + one_if a)
    beyond : r < now → (r' ≡ now + limits.message_window) × (n' ≡ one_if a)
    limited : n ≤ limits.message_limit → n' ≤ limits.message_limit

  Charged-charge_message :
      (b : ChatBudget) (now : ℕ)
      → Charged now b.message_reset b.message_count
          (charge_message limits b now).0.message_reset
          (charge_message limits b now).0.message_count
          (charge_message limits b now).1
  unfolding charge_message
  Charged-charge_message b now = record {
    within = λ h. ground arith;
    beyond = λ h. ground arith;
    limited = λ h. ground arith;
  }

  module _ (lo : ℕ) where
    hi : ℕ
    hi = lo + limits.message_window

    count : Kept → List Call → ℕ
    count kept cs = passed key lo hi cs (kept_answers limits kept cs)

    counted : Kept → Call → ℕ
    counted kept c = one_if (
        is_message_of key c
        && leb lo (time_of c)
        && leb (time_of c) hi
        && (kept_call limits kept c).1)

    count-nil : (kept : Kept) → count kept [] ≡ 0
    unfolding count
    count-nil kept = refl

    count-cons :
        (kept : Kept) (c : Call) (cs : List Call)
        → count kept (c ∷ cs) ≡ counted kept c + count (kept_call limits kept c).0 cs
    unfolding count counted kept_answers
    count-cons kept c cs = refl

    -- One call in numbers: what it makes of the budget's reset and count, and whether it counts.
    data Turn (t r n r' n' k : ℕ) : Type 0 where
      idle : r' ≡ r → n' ≡ n → k ≡ 0 → Turn t r n r' n' k
      charges :
          (a : Bool)
          → Charged t r n r' n' a
          → k ≤ one_if a
          → (t < lo → k ≡ 0)
          → (hi < t → k ≡ 0)
          → Turn t r n r' n' k

    Turn-call :
        (kept : Kept) (c : Call)
        → Turn
            (time_of c)
            (kept key).message_reset
            (kept key).message_count
            ((kept_call limits kept c).0 key).message_reset
            ((kept_call limits kept c).0 key).message_count
            (counted kept c)
    unfolding counted
    Turn-call kept c = elim (Moves-call kept c) [
      | own mine b a ↦
          charges (kept_call limits kept c).1
            (rw (b, a) (Charged-charge_message (kept key) (time_of c))) (ground arith)
            (λ h. ground arith) (λ h. ground arith)
      | other differs r n ↦ idle r n (rw differs refl)
    ]

    count-late :
        (now : ℕ) (kept : Kept) (cs : List Call) → hi < now → Ordered now cs → count kept cs ≡ 0
    count-late now kept [] h o = count-nil kept
    count-late now kept (c ∷ cs) h o =
        let rest = count-late (time_of c) (kept_call limits kept c).0 cs (omega (arith, o.0)) o.1 in
        elim (Turn-call kept c) [
          | idle r n k ↦ omega (arith, count-cons kept c cs, rest, k)
          | charges a moved le before after ↦
              omega (arith, count-cons kept c cs, rest, after (omega (arith, o.0)))
        ]

    -- No reset is left in the window.
    count-covered :
        (now : ℕ) (kept : Kept) (cs : List Call)
        → Ordered now cs
        → hi ≤ (kept key).message_reset
        → (kept key).message_count ≤ limits.message_limit
        → count kept cs + (kept key).message_count ≤ limits.message_limit
    count-covered now kept [] o h le = omega (arith, count-nil kept)
    count-covered now kept (c ∷ cs) o h le =
        let step = count-cons kept c cs in
        let rest = count-covered (time_of c) (kept_call limits kept c).0 cs o.1 in
        elim (Turn-call kept c) [
          | idle r n k ↦
              let more = rest (omega (arith, r)) (omega (arith, n)) in
              omega (arith, step, n, k, more)
          | charges a moved small before after ↦
              elim (dec_le (time_of c) (kept key).message_reset) [
                | yes early ↦
                    let (r, n) = moved.within early in
                    let more = rest (omega (arith, r)) (moved.limited le) in
                    omega (arith, step, n, small, more)
                | no late ↦
                    let passes : hi < time_of c = omega (arith, h, lt_of_not-le late) in
                    let gone = count-late (time_of c) (kept_call limits kept c).0 cs passes o.1 in
                    omega (arith, step, after passes, gone)
              ]
        ]

    hi-le :
        (kept : Kept) (c : Call) {now : ℕ}
        → now ≤ time_of c
        → lo ≤ now
        → (kept key).message_reset ≡ time_of c + limits.message_window
        → hi ≤ (kept key).message_reset
    unfolding hi
    hi-le kept c t b r = omega (arith, r)

    -- The window has begun.
    count-begun :
        (now : ℕ) (kept : Kept) (cs : List Call)
        → lo ≤ now
        → Ordered now cs
        → (kept key).message_count ≤ limits.message_limit
        → count kept cs + (kept key).message_count ≤ 2 * limits.message_limit
    count-begun now kept [] b o le = omega (arith, count-nil kept)
    count-begun now kept (c ∷ cs) b o le =
        let step = count-cons kept c cs in
        let kept' = (kept_call limits kept c).0 in
        let rest = count-begun (time_of c) kept' cs (omega (arith, o.0)) o.1 in
        elim (Turn-call kept c) [
          | idle r n k ↦ let more = rest (omega (arith, n)) in omega (arith, step, n, k, more)
          | charges a moved small before after ↦
              elim (dec_le (time_of c) (kept key).message_reset) [
                | yes early ↦
                    let (r, n) = moved.within early in
                    let more = rest (moved.limited le) in omega (arith, step, n, small, more)
                | no late ↦
                    let (r, n) = moved.beyond (lt_of_not-le late) in
                    let more =
                      count-covered (time_of c) kept' cs o.1 (hi-le kept' c o.0 b r)
                        (moved.limited le) in
                    omega (arith, step, n, small, more)
              ]
        ]

    count-bound :
        (now : ℕ) (kept : Kept) (cs : List Call)
        → Ordered now cs
        → (kept key).message_count ≤ limits.message_limit
        → count kept cs ≤ 2 * limits.message_limit
    count-bound now kept [] o le = omega (arith, count-nil kept)
    count-bound now kept (c ∷ cs) o le =
        let step = count-cons kept c cs in
        let rest = count-bound (time_of c) (kept_call limits kept c).0 cs o.1 in
        elim (dec_le lo (time_of c)) [
          | yes begun ↦
              let all = count-begun (time_of c) kept (c ∷ cs) begun (omega arith, o.1) le in
              omega (arith, all)
          | no early ↦ elim (Turn-call kept c) [
            | idle r n k ↦ let more = rest (omega (arith, n)) in omega (arith, step, k, more)
            | charges a moved small before after ↦
                let more = rest (moved.limited le) in
                omega (arith, step, before (lt_of_not-le early), more)
          ]
        ]

-- With a clock that does not go back, and however the calls for other rooms, other principals and
-- typing lie between them: of the messages of one principal in one room that arrive within any
-- stretch of time as long as the message window, at most twice the limit get through.
pub passed-le-twice_limit :
    (limits : Limits) (cs : List Call) (room_id principal : Text) (lo : ℕ)
    → Short limits
    → Ordered 1 cs
    → passed
        (key_of room_id principal)
        lo
        (lo + limits.message_window)
        cs
        (answers (some (record new_chat_limiter { limits = limits })) cs)
      ≤ 2 * limits.message_limit
unfolding count hi
passed-le-twice_limit limits cs room_id principal lo short o =
    rw (answers-kept_answers limits cs short o)
      (count-bound limits (key_of room_id principal) lo 1 (λ key. new_budget) cs o (omega arith))
