-- ===== src/Chat/Limiter/Separate.antt =====
-- The limiter of chat_limiter.go against one that keeps a budget of its own for each principal in each
-- room, where no room id has a colon.
use mathlib.Core.List.{append_assoc}
use driving_app.Prelude.{
  ◌≡◌, refl, ap, sym, ◌∙◌, Bool, true, some, ◌&&◌, List, [], ◌∷◌, ◌++◌, if◌then◌else◌,
}
use driving_app.Prelude.Text.{Text, runes, text_eq}
use driving_app.Prelude.Split.{lacks, split_first, text_eq-joined}
use driving_app.Chat.Limiter.{
  ChatBudget, new_budget, new_chat_limiter, Limits, key_of, Call, message, typing, answers,
}
use driving_app.Chat.Limiter.Unlimited.{
  Kept, kept_call, kept_answers, charged, Ordered, Short, answers-kept_answers,
}

-- The budget of each principal in each room.
abbrev pub Budgets : Type 0
Budgets = (room_id principal : Text) → ChatBudget

abbrev pub room_of : Call → Text
room_of (message now room_id principal) = room_id
room_of (typing now room_id principal is_typing) = room_id

abbrev pub principal_of : Call → Text
principal_of (message now room_id principal) = principal
principal_of (typing now room_id principal is_typing) = principal

abbrev pub with_budget : Budgets → (room_id principal : Text) → ChatBudget → Budgets
with_budget budgets room_id principal b room_id' principal' =
    if text_eq room_id room_id' && text_eq principal principal'
    then b
    else budgets room_id' principal'

unfoldable pub separate_answers : Limits → Budgets → List Call → List Bool
separate_answers limits budgets [] = []
separate_answers limits budgets (c ∷ cs) =
    let (b, allowed) = charged limits c (budgets (room_of c) (principal_of c)) in
    allowed ∷ separate_answers limits (with_budget budgets (room_of c) (principal_of c) b) cs

-- No room id has a colon.
abbrev pub PlainRooms : List Call → Type 0
PlainRooms [] = Unit
PlainRooms (c ∷ cs) = (lacks 58 (room_of c) ≡ true) × PlainRooms cs

key_of_lem : (room_id principal : Text) → key_of room_id principal ≡ room_id ++ (58 ∷ principal)
key_of_lem room_id principal = append_assoc room_id (runes ":") principal

text_eq-key_of :
    (room_id room_id' principal principal' : Text)
    → lacks 58 room_id ≡ true
    → lacks 58 room_id' ≡ true
    → text_eq (key_of room_id principal) (key_of room_id' principal')
      ≡ (text_eq room_id room_id' && text_eq principal principal')
text_eq-key_of room_id room_id' principal principal' h k =
    text_eq-joined key_of room_id room_id' principal principal' (λ e.
      split_first 58 room_id room_id' principal principal' h k
        (sym (key_of_lem room_id principal) ∙ e ∙ key_of_lem room_id' principal'))

-- The budgets under the keys of the limiter are those of the rooms and principals.
Same : Kept → Budgets → Type 0
Same kept budgets =
    (room_id principal : Text)
    → lacks 58 room_id ≡ true
    → kept (key_of room_id principal) ≡ budgets room_id principal

module _ (limits : Limits) where
  call-Same :
      (c : Call) (kept : Kept) (budgets : Budgets)
      → lacks 58 (room_of c) ≡ true
      → Same kept budgets
      → let (b, allowed) = charged limits c (budgets (room_of c) (principal_of c)) in
        Same (kept_call limits kept c).0 (with_budget budgets (room_of c) (principal_of c) b)
        × ((kept_call limits kept c).1 ≡ allowed)
  unfolding Same
  call-Same (message now room_id principal) kept budgets plain same = (
    λ room_id' principal' plain'.
        rw
          (
            text_eq-key_of room_id room_id' principal principal' plain plain',
            same room_id principal plain,
            same room_id' principal' plain',
          )
          refl,
    rw (same room_id principal plain) refl,
  )
  call-Same (typing now room_id principal is_typing) kept budgets plain same = (
    λ room_id' principal' plain'.
        rw
          (
            text_eq-key_of room_id room_id' principal principal' plain plain',
            same room_id principal plain,
            same room_id' principal' plain',
          )
          refl,
    rw (same room_id principal plain) refl,
  )

  kept_answers-separate_answers :
      (cs : List Call) (kept : Kept) (budgets : Budgets)
      → PlainRooms cs
      → Same kept budgets
      → kept_answers limits kept cs ≡ separate_answers limits budgets cs
  unfolding kept_answers separate_answers
  kept_answers-separate_answers [] kept budgets plain same = refl
  kept_answers-separate_answers (c ∷ cs) kept budgets plain same =
      let allowed = (charged limits c (budgets (room_of c) (principal_of c))).1 in
      let (same', answered) = call-Same c kept budgets plain.0 same in
      let rest = kept_answers-separate_answers cs _ _ plain.1 same' in
      ap (λ a. a ∷ kept_answers limits (kept_call limits kept c).0 cs) answered
      ∙ ap (λ l. allowed ∷ l) rest

Same-new : Same (λ key. new_budget) (λ room_id principal. new_budget)
unfolding Same
Same-new room_id principal plain = refl

-- Where no room id has a colon, and no window and no cooldown is longer than the five minutes after
-- which an idle budget is dropped: in any order of calls over any such rooms and any principals,
-- with a clock that does not go back, the limiter answers as one that keeps a budget of its own for
-- each principal in each room for ever. So no one is charged for another room or another principal,
-- and dropping idle budgets never lets through or refuses anything more.
pub answers-separate_answers :
    (limits : Limits) (cs : List Call)
    → Short limits
    → Ordered 1 cs
    → PlainRooms cs
    → answers (some (record new_chat_limiter { limits = limits })) cs
      ≡ separate_answers limits (λ room_id principal. new_budget) cs
answers-separate_answers limits cs short ordered plain =
    answers-kept_answers limits cs short ordered
    ∙ kept_answers-separate_answers limits cs _ _ plain Same-new
