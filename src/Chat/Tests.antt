-- ===== src/Chat/Tests.antt =====
-- The limits of chat_limiter.go on concrete calls.
use driving_app.Prelude.{◌+◌, ◌*◌, ◌≤◌, ◌≡◌, refl, true, false, some, List, [], ◌∷◌, arith}
use driving_app.Prelude.Text.{runes, text_eq}
use driving_app.Chat.Limiter.{
  Limits, default_limits, new_budget, new_chat_limiter, Call, message, typing, answers, key_of,
  call, allow_message, allow_typing, tick, charge, charge_message, charge_typing,
}
use driving_app.Chat.Limiter.Separate.{separate_answers, answers-separate_answers}
use driving_app.Chat.Limiter.Window.{passed, passed-le-twice_limit}

-- One message in each window.
abbrev strict : Limits
strict = record default_limits { message_limit = 1 }

abbrev dialogue : List Call
dialogue =
    message 10 (runes "1") (runes "driver:2")
    ∷ message 20 (runes "1") (runes "driver:2")
    ∷ message 30 (runes "1") (runes "passenger:3")
    ∷ typing 40 (runes "1") (runes "driver:2") true
    ∷ []

dialogue_run :
    answers (some (record new_chat_limiter { limits = strict })) dialogue
    ≡ true ∷ false ∷ true ∷ true ∷ []
unfolding answers call allow_message allow_typing tick charge charge_message charge_typing text_eq
dialogue_run = refl

answers-separate_answers_example :
    answers (some (record new_chat_limiter { limits = strict })) dialogue
    ≡ separate_answers strict (λ room_id principal. new_budget) dialogue
answers-separate_answers_example =
    answers-separate_answers strict dialogue (omega arith) (omega arith)
      (refl, (refl, (refl, (refl, tt))))

-- A room id with a colon shares its budget with another room.
shared_run :
    answers
      (some (record new_chat_limiter { limits = strict }))
      (message 10 (runes "1:2") (runes "3") ∷ message 20 (runes "1") (runes "2:3") ∷ [])
    ≡ true ∷ false ∷ []
unfolding answers call allow_message allow_typing tick charge charge_message charge_typing text_eq
shared_run = refl

passed-le-twice_limit_example :
    passed
      (key_of (runes "1") (runes "driver:2"))
      5
      (5 + strict.message_window)
      dialogue
      (answers (some (record new_chat_limiter { limits = strict })) dialogue)
    ≤ 2 * strict.message_limit
passed-le-twice_limit_example =
    passed-le-twice_limit strict dialogue (runes "1") (runes "driver:2") 5 (omega arith)
      (omega arith)
