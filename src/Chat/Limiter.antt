-- ===== src/Chat/Limiter.antt =====
-- server/internal/modules/chat/transport/ws/chat_limiter.go: the budget of chat messages and typing
-- events of each principal in each room. A time is a number of nanoseconds since Go's zero time, and
-- the map of the budgets a function.
pub mod Separate
pub mod Unlimited
pub mod Window
use driving_app.Prelude.{
  ℕ, ◌+◌, ◌*◌, ◌%◌, ◌^◌, Bool, true, false, not, ◌&&◌, Option, none, some, ◌++◌, List, [], ◌∷◌, ltb,
  leb, ◌==◌, if◌then◌else◌,
}
use driving_app.Prelude.Text.{Text, text_eq, runes}

pub record ChatBudget : Type 0 where
  pub message_count : ℕ
  pub message_reset : ℕ
  pub last_typing_state : Option Bool
  pub last_typing_time : ℕ
  pub typing_count : ℕ
  pub typing_reset : ℕ
  pub last_activity : ℕ

-- `&chatBudget{}`
abbrev pub new_budget : ChatBudget
new_budget = record {
  message_count = 0;
  message_reset = 0;
  last_typing_state = none;
  last_typing_time = 0;
  typing_count = 0;
  typing_reset = 0;
  last_activity = 0;
}

-- The limits, which no method changes.
pub record Limits : Type 0 where
  pub message_limit : ℕ
  pub message_window : ℕ
  pub typing_limit : ℕ
  pub typing_window : ℕ
  pub typing_cooldown : ℕ

pub record ChatLimiter : Type 0 where
  pub limits : Limits
  pub budgets : Text → Option ChatBudget
  pub operations : ℕ

abbrev pub second : ℕ
second = 1_000_000_000

abbrev pub default_limits : Limits
default_limits = record {
  message_limit = 10;
  message_window = 5 * second;
  typing_limit = 10;
  typing_window = 5 * second;
  typing_cooldown = 2 * second;
}

abbrev pub new_chat_limiter : ChatLimiter
new_chat_limiter = record { limits = default_limits; budgets = λ key. none; operations = 0 }

-- How long a budget may be idle before it is dropped.
abbrev pub idle_time : ℕ
idle_time = 5 * 60 * second

abbrev pub unless_idle : ℕ → Option ChatBudget → Option ChatBudget
unless_idle now none = none
unless_idle now (some b) = if ltb (b.last_activity + idle_time) now then none else some b

unfoldable pub cleanup : ℕ → ChatLimiter → ChatLimiter
cleanup now limiter = record limiter { budgets = λ key. unless_idle now (limiter.budgets key) }

-- What both methods do first: count the operation, which is a uint64, and clean up each 128th time.
unfoldable pub tick : ℕ → ChatLimiter → ChatLimiter
unfolding cleanup
tick now limiter =
    let operations = (limiter.operations + 1) % 2 ^ 64 in
    let counted = record limiter { operations = operations } in
    if operations % 128 == 0 then cleanup now counted else counted

abbrev pub or_new : Option ChatBudget → ChatBudget
or_new none = new_budget
or_new (some b) = b

-- A message on one budget.
unfoldable pub charge_message : Limits → ChatBudget → ℕ → ChatBudget × Bool
charge_message limits budget now =
    let active = record budget { last_activity = now } in
    let b =
      if ltb active.message_reset now
      then record active { message_reset = now + limits.message_window; message_count = 0 }
      else active in
    if leb limits.message_limit b.message_count
    then (b, false)
    else (record b { message_count = b.message_count + 1 }, true)

abbrev pub same_state : Option Bool → Bool → Bool
same_state none is_typing = false
same_state (some true) is_typing = is_typing
same_state (some false) is_typing = not is_typing

-- A typing event on one budget.
unfoldable pub charge_typing : Limits → ChatBudget → ℕ → Bool → ChatBudget × Bool
charge_typing limits budget now is_typing =
    let active = record budget { last_activity = now } in
    if same_state active.last_typing_state is_typing
      && ltb now (active.last_typing_time + limits.typing_cooldown)
    then (active, false)
    else let b =
        if ltb active.typing_reset now
        then record active { typing_reset = now + limits.typing_window; typing_count = 0 }
        else active in
      if leb limits.typing_limit b.typing_count then (b, false) else (
        record b {
          typing_count = b.typing_count + 1;
          last_typing_state = some is_typing;
          last_typing_time = now;
        },
        true,
      )

abbrev pub key_of : Text → Text → Text
key_of room_id principal = room_id ++ runes ":" ++ principal

abbrev pub update : (Text → Option ChatBudget) → Text → ChatBudget → Text → Option ChatBudget
update budgets key b other = if text_eq key other then some b else budgets other

-- The rest of a method, once its key and what it does to the budget are known.
unfoldable pub charge : Text → (ChatBudget → ChatBudget × Bool) → ChatLimiter → ChatLimiter × Bool
charge key charged limiter =
    let (b, allowed) = charged (or_new (limiter.budgets key)) in
    (record limiter { budgets = update limiter.budgets key b }, allowed)

-- `none` is a nil limiter.
unfoldable pub allow_message : Option ChatLimiter → ℕ → Text → Text → Option ChatLimiter × Bool
unfolding tick charge charge_message
allow_message none now room_id principal = (none, true)
allow_message (some limiter) now room_id principal =
    let (limiter', allowed) =
      charge (key_of room_id principal) (λ b. charge_message limiter.limits b now)
        (tick now limiter) in
    (some limiter', allowed)

unfoldable pub allow_typing :
    Option ChatLimiter → ℕ → Text → Text → Bool → Option ChatLimiter × Bool
unfolding tick charge charge_typing
allow_typing none now room_id principal is_typing = (none, true)
allow_typing (some limiter) now room_id principal is_typing =
    let (limiter', allowed) =
      charge (key_of room_id principal) (λ b. charge_typing limiter.limits b now is_typing)
        (tick now limiter) in
    (some limiter', allowed)

-- A call of a method at some time.
pub data Call : Type 0 where
  message : ℕ → Text → Text → Call
  typing : ℕ → Text → Text → Bool → Call

unfoldable pub call : Option ChatLimiter → Call → Option ChatLimiter × Bool
call limiter (message now room_id principal) = allow_message limiter now room_id principal
call limiter (typing now room_id principal is_typing) =
    allow_typing limiter now room_id principal is_typing

-- The answers to some calls, one after another under the mutex.
unfoldable pub answers : Option ChatLimiter → List Call → List Bool
answers limiter [] = []
answers limiter (c ∷ cs) = let (limiter', allowed) = call limiter c in allowed ∷ answers limiter' cs
