-- ===== src/Chat/Limiter/Unlimited.antt =====
-- The limiter against one that keeps every budget for ever: that idle budgets are dropped makes no
-- difference to any answer.
use driving_app.Prelude.{
  ℕ, ◌+◌, ◌%◌, ◌^◌, ◌≤◌, ◌<◌, ◌≡◌, refl, ap, ◌∙◌, Bool, ◌&&◌, Option, none, some, List, [], ◌∷◌,
  ltb, ◌==◌, if◌then◌else◌, arith, Bool-cases, inl, inr,
}
use driving_app.Prelude.Text.{Text, text_eq}
use driving_app.Chat.Limiter.{
  ChatBudget, new_budget, new_chat_limiter, Limits, ChatLimiter, idle_time, unless_idle, tick,
  or_new, charge_message, same_state, charge_typing, key_of, charge, allow_message, allow_typing,
  Call, message, typing, call, answers,
}

-- What the budgets are when none is ever dropped.
abbrev pub Kept : Type 0
Kept = Text → ChatBudget

abbrev pub keep : Kept → Text → ChatBudget → Kept
keep kept key b other = if text_eq key other then b else kept other

abbrev pub time_of : Call → ℕ
time_of (message now room_id principal) = now
time_of (typing now room_id principal is_typing) = now

abbrev call_key : Call → Text
call_key (message now room_id principal) = key_of room_id principal
call_key (typing now room_id principal is_typing) = key_of room_id principal

-- What a call does to its budget.
abbrev pub charged : Limits → Call → ChatBudget → ChatBudget × Bool
charged limits (message now room_id principal) b = charge_message limits b now
charged limits (typing now room_id principal is_typing) b = charge_typing limits b now is_typing

-- One call on them.
abbrev pub kept_call : Limits → Kept → Call → Kept × Bool
kept_call limits kept c =
    let (b, allowed) = charged limits c (kept (call_key c)) in (keep kept (call_key c) b, allowed)

unfoldable pub kept_answers : Limits → Kept → List Call → List Bool
kept_answers limits kept [] = []
kept_answers limits kept (c ∷ cs) =
    let (kept', allowed) = kept_call limits kept c in allowed ∷ kept_answers limits kept' cs

-- The clock does not go back.
abbrev pub Ordered : ℕ → List Call → Type 0
Ordered now [] = Unit
Ordered now (c ∷ cs) = (now ≤ time_of c) × Ordered (time_of c) cs

-- No window and no cooldown outlasts the time after which a budget is dropped.
pub record Short (limits : Limits) : Type 0 where
  pub message : limits.message_window ≤ idle_time
  pub typing : limits.typing_window ≤ idle_time
  pub cooldown : limits.typing_cooldown ≤ idle_time

-- A window that is over, whatever it counted.
abbrev window : ℕ → ℕ → ℕ → Option (ℕ × ℕ)
window now reset count = if ltb reset now then none else some (reset, count)

-- A typing state that is still cooling down.
abbrev cooling : ℕ → ℕ → Option Bool → ℕ → Option (Bool × ℕ)
cooling now cooldown none time = none
cooling now cooldown (some state) time =
    if ltb now (time + cooldown) then some (state, time) else none

module _ (limits : Limits) where
  -- Two budgets that no call can tell apart from `now` on.
  record Alike (now : ℕ) (b c : ChatBudget) : Type 0 where
    messages :
        window now b.message_reset b.message_count ≡ window now c.message_reset c.message_count
    typings : window now b.typing_reset b.typing_count ≡ window now c.typing_reset c.typing_count
    states :
        cooling now limits.typing_cooldown b.last_typing_state b.last_typing_time
        ≡ cooling now limits.typing_cooldown c.last_typing_state c.last_typing_time

  -- What a budget holds is no younger than its last activity.
  record Recent (now : ℕ) (b : ChatBudget) : Type 0 where
    active : b.last_activity ≤ now
    message : b.message_reset ≤ b.last_activity + limits.message_window
    typing : b.typing_reset ≤ b.last_activity + limits.typing_window
    state : b.last_typing_time ≤ b.last_activity

  Alike-later : {now later : ℕ} {b c : ChatBudget} → now ≤ later → Alike now b c → Alike later b c
  Alike-later {now} {later} {b} {c} h a = record {
    messages = later_window now later _ _ _ _ h a.messages;
    typings = later_window now later _ _ _ _ h a.typings;
    states = later_cooling now later _ b.last_typing_state _ c.last_typing_state _ h a.states;
  }
    where
      later_window :
          (now later r n r' n' : ℕ)
          → now ≤ later
          → window now r n ≡ window now r' n'
          → window later r n ≡ window later r' n'
      later_window now later r n r' n' h e = ground arith

      later_cooling :
          (now later d : ℕ) (s : Option Bool) (t : ℕ) (s' : Option Bool) (t' : ℕ)
          → now ≤ later
          → cooling now d s t ≡ cooling now d s' t'
          → cooling later d s t ≡ cooling later d s' t'
      later_cooling now later d none t none t' h e = refl
      later_cooling now later d none t (some s') t' h e = ground arith
      later_cooling now later d (some s) t none t' h e = ground arith
      later_cooling now later d (some s) t (some s') t' h e = ground arith

  message_keeps_state :
      (now : ℕ) (b : ChatBudget)
      → ((charge_message limits b now).0.last_typing_state ≡ b.last_typing_state)
        × ((charge_message limits b now).0.last_typing_time ≡ b.last_typing_time)
  unfolding charge_message
  message_keeps_state now b = ground arith

  message_states :
      (now : ℕ) (b c : ChatBudget)
      → Alike now b c
      → cooling now limits.typing_cooldown
          (charge_message limits b now).0.last_typing_state
          (charge_message limits b now).0.last_typing_time
        ≡ cooling now limits.typing_cooldown
            (charge_message limits c now).0.last_typing_state
            (charge_message limits c now).0.last_typing_time
  message_states now b c a =
      let (p, q) = message_keeps_state now b in
      let (p', q') = message_keeps_state now c in rw (p, q, p', q') a.states

  charge_message-Alike :
      (now : ℕ) (b c : ChatBudget)
      → Alike now b c
      → Alike now (charge_message limits b now).0 (charge_message limits c now).0
        × ((charge_message limits b now).1 ≡ (charge_message limits c now).1)
  unfolding charge_message
  charge_message-Alike now b c a =
      let e = a.messages in
      (
        record {
          messages = ground arith;
          typings = ground (arith, a.typings);
          states = message_states now b c a;
        },
        ground arith,
      )

  -- Whether a typing event is refused at once.
  repeats : ℕ → Option Bool → ℕ → Bool → Bool
  repeats now state time is_typing =
      same_state state is_typing && ltb now (time + limits.typing_cooldown)

  repeats-cooling :
      (now : ℕ) (s : Option Bool) (t : ℕ) (s' : Option Bool) (t' : ℕ) (is_typing : Bool)
      → cooling now limits.typing_cooldown s t ≡ cooling now limits.typing_cooldown s' t'
      → repeats now s t is_typing ≡ repeats now s' t' is_typing
  unfolding repeats
  repeats-cooling now none t none t' is_typing h = refl
  repeats-cooling now none t (some s') t' is_typing h = ground arith
  repeats-cooling now (some s) t none t' is_typing h = ground arith
  repeats-cooling now (some s) t (some s') t' is_typing h = ground arith

  charge_typing-Alike :
      (now : ℕ) (is_typing : Bool) (b c : ChatBudget)
      → Alike now b c
      → Alike now (charge_typing limits b now is_typing).0 (charge_typing limits c now is_typing).0
        × ((charge_typing limits b now is_typing).1 ≡ (charge_typing limits c now is_typing).1)
  unfolding charge_typing repeats
  charge_typing-Alike now is_typing b c a =
      let e = a.typings in
      let same =
        repeats-cooling now b.last_typing_state b.last_typing_time c.last_typing_state
          c.last_typing_time is_typing a.states in
      (
        record {
          messages = ground (arith, a.messages);
          typings = ground arith;
          states = ground (arith, a.states);
        },
        ground arith,
      )

  charge_message-Recent :
      (now : ℕ) (b : ChatBudget) → Recent now b → Recent now (charge_message limits b now).0
  unfolding charge_message
  charge_message-Recent now b v = ground arith

  charge_typing-Recent :
      (now : ℕ) (is_typing : Bool) (b : ChatBudget)
      → Recent now b
      → Recent now (charge_typing limits b now is_typing).0
  unfolding charge_typing
  charge_typing-Recent now is_typing b v = ground arith

  -- A budget, or its absence, against the one that was kept.
  record Stands (now : ℕ) (o : Option ChatBudget) (c : ChatBudget) : Type 0 where
    alike : Alike now (or_new o) c
    recent : Recent now (or_new o)

  Stands-later :
      {now later : ℕ} {o : Option ChatBudget} {c : ChatBudget}
      → now ≤ later
      → Stands now o c
      → Stands later o c
  Stands-later {o} h v = record {
    alike = Alike-later {b = or_new o} h v.alike;
    recent = let r = v.recent in ground arith;
  }

  dropped_states :
      (now d : ℕ) (s : Option Bool) (t : ℕ) (s' : Option Bool) (t' : ℕ)
      → t + d ≤ now
      → cooling now d s t ≡ cooling now d s' t'
      → none ≡ cooling now d s' t'
  dropped_states now d none t s' t' h e = e
  dropped_states now d (some s) t s' t' h e = ground arith

  -- A budget that is dropped has nothing left to refuse by.
  Stands-unless_idle :
      (now : ℕ) (o : Option ChatBudget) (c : ChatBudget)
      → Short limits
      → 0 < now
      → Stands now o c
      → Stands now (unless_idle now o) c
  Stands-unless_idle now none c short h v = v
  Stands-unless_idle now (some b) c short h v =
      let a = v.alike in
      let r = v.recent in
      elim (Bool-cases (ltb (b.last_activity + idle_time) now)) [
        | inr lives ↦ rw lives v
        | inl idle ↦ rw idle (record {
          alike = record {
            messages = ground (arith, short.message, r.message, a.messages);
            typings = ground (arith, short.typing, r.typing, a.typings);
            states =
                dropped_states now _ b.last_typing_state b.last_typing_time c.last_typing_state
                  c.last_typing_time (ground (arith, short.cooldown, r.state)) a.states;
          };
          recent = omega arith;
        })
      ]

  Rel : ℕ → ChatLimiter → Kept → Type 0
  Rel now limiter kept = (key : Text) → Stands now (limiter.budgets key) (kept key)

  Rel-later :
      {now later : ℕ} (limiter : ChatLimiter) (kept : Kept)
      → now ≤ later
      → Rel now limiter kept
      → Rel later limiter kept
  unfolding Rel
  Rel-later limiter kept h v key = Stands-later {o = limiter.budgets key} h (v key)

  Rel-new : Rel 1 (record new_chat_limiter { limits = limits }) (λ key. new_budget)
  unfolding Rel
  Rel-new key = record {
    alike = record { messages = refl; typings = refl; states = refl };
    recent = omega arith;
  }

  Rel-tick :
      (now : ℕ) (limiter : ChatLimiter) (kept : Kept)
      → Short limits
      → 0 < now
      → Rel now limiter kept
      → Rel now (tick now limiter) kept
  unfolding Rel tick
  Rel-tick now limiter kept short h v key =
      elim (Bool-cases ((limiter.operations + 1) % 2 ^ 64 % 128 == 0)) [
        | inl cleans ↦
            rw cleans (Stands-unless_idle now (limiter.budgets key) (kept key) short h (v key))
        | inr skips ↦ rw skips (v key)
      ]

  charged-Alike :
      (c : Call) (b b' : ChatBudget)
      → Alike (time_of c) b b'
      → Alike (time_of c) (charged limits c b).0 (charged limits c b').0
        × ((charged limits c b).1 ≡ (charged limits c b').1)
  charged-Alike (message now room_id principal) b b' a = charge_message-Alike now b b' a
  charged-Alike (typing now room_id principal is_typing) b b' a =
      charge_typing-Alike now is_typing b b' a

  charged-Recent :
      (c : Call) (b : ChatBudget) → Recent (time_of c) b → Recent (time_of c) (charged limits c b).0
  charged-Recent (message now room_id principal) b v = charge_message-Recent now b v
  charged-Recent (typing now room_id principal is_typing) b v =
      charge_typing-Recent now is_typing b v

  Rel-charge :
      (c : Call) (limiter : ChatLimiter) (kept : Kept)
      → Rel (time_of c) limiter kept
      → Rel
          (time_of c)
          (charge (call_key c) (charged limits c) limiter).0
          (kept_call limits kept c).0
        × ((charge (call_key c) (charged limits c) limiter).1 ≡ (kept_call limits kept c).1)
  unfolding Rel charge
  Rel-charge c limiter kept v =
      let mine = v (call_key c) in
      let (alike, same) = charged-Alike c _ _ mine.alike in
      (
        λ key. elim (Bool-cases (text_eq (call_key c) key)) [
          | inl here ↦ rw here (record { alike = alike; recent = charged-Recent c _ mine.recent })
          | inr other ↦ rw other (v key)
        ],
        same,
      )

call_lem :
    (limits : Limits) (limiter : ChatLimiter) (c : Call)
    → limiter.limits ≡ limits
    → call (some limiter) c ≡ (
      some (charge (call_key c) (charged limits c) (tick (time_of c) limiter)).0,
      (charge (call_key c) (charged limits c) (tick (time_of c) limiter)).1,
    )
unfolding call allow_message allow_typing
call_lem limits limiter (message now room_id principal) e = rw⁻¹ e refl
call_lem limits limiter (typing now room_id principal is_typing) e = rw⁻¹ e refl

charge-limits :
    (key : Text) (f : ChatBudget → ChatBudget × Bool) (now : ℕ) (limiter : ChatLimiter)
    → (charge key f (tick now limiter)).0.limits ≡ limiter.limits
unfolding charge tick
charge-limits key f now limiter = ground arith

answers-kept :
    (limits : Limits) (now : ℕ) (limiter : ChatLimiter) (kept : Kept) (cs : List Call)
    → Short limits
    → limiter.limits ≡ limits
    → 0 < now
    → Ordered now cs
    → Rel limits now limiter kept
    → answers (some limiter) cs ≡ kept_answers limits kept cs
unfolding answers kept_answers
answers-kept limits now limiter kept [] short e h o v = refl
answers-kept limits now limiter kept (c ∷ cs) short e h o v =
    let earlier = Rel-later limits limiter kept o.0 v in
    let ticked = Rel-tick limits (time_of c) limiter kept short (omega (arith, o.0)) earlier in
    let (v', same) = Rel-charge limits c (tick (time_of c) limiter) kept ticked in
    let rest =
      answers-kept limits (time_of c) _ _ cs short
        (charge-limits (call_key c) (charged limits c) (time_of c) limiter ∙ e) (omega (arith, o.0))
        o.1 v' in
    rw (call_lem limits limiter c e, same) (ap (◌∷◌ (kept_call limits kept c).1) rest)

-- Whatever the limits, as long as no window and no cooldown is longer than the five minutes after
-- which an idle budget is dropped: in any order of calls over any rooms and principals, with a clock
-- that does not go back, the limiter answers as one that keeps for ever a budget for each key, which
-- is the room id, a colon and the principal.
pub answers-kept_answers :
    (limits : Limits) (cs : List Call)
    → Short limits
    → Ordered 1 cs
    → answers (some (record new_chat_limiter { limits = limits })) cs
      ≡ kept_answers limits (λ key. new_budget) cs
answers-kept_answers limits cs short o =
    answers-kept limits 1 _ _ cs short refl (omega arith) o (Rel-new limits)
