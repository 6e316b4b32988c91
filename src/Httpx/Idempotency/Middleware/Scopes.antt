-- ===== src/Httpx/Idempotency/Middleware/Scopes.antt =====
-- Which requests of idempotency.go have the same base key.
use driving_app.Prelude.{
  ℕ, ◌^◌, ◌<◌, ◌≡◌, ◌↔◌, refl, ap, sym, ◌∙◌, true, Option, none, some, ◌++◌, arith, Bool-cases, inl,
  inr,
}
use driving_app.Prelude.Text.{Text, runes, text_eq, text_eq_iff, trim_space}
use driving_app.Prelude.Assoc.{length}
use driving_app.Prelude.Int.{pos}
use driving_app.Prelude.Decimal.{decimal, decimal_injective, lacks-decimal}
use driving_app.Prelude.Split.{lacks, split_heads, split_first, split_last}
use driving_app.Httpx.Idempotency.Middleware.{
  Externals, Request, is_state_changing_method, principal_from_request, scope_text, base_key_of,
  request_target_scope, authorization_scope,
}

-- The text that stands for whoever sends a request.
abbrev pub owner_text : Request → Text
owner_text request = scope_text (principal_from_request request.principal) request.authorization

abbrev pub target_text : Request → Text
target_text request = request.method ++ (runes "\n" ++ request.request_uri)

-- Two requests come from the same sender: the same role and id, or the same Authorization header
-- where neither has a principal. The text of a principal is its role, a colon and its id.
abbrev pub SameOwner : (p q : Option (Text × ℕ)) → (s t : Text) → Type 0
SameOwner none none s t = trim_space s ≡ trim_space t
SameOwner (some (role, id)) (some (role', id')) s t = (role ≡ role') × (id ≡ id')
SameOwner (some (role, id)) none s t = role ++ (runes ":" ++ decimal (pos id)) ≡ trim_space t
SameOwner none (some (role, id)) s t = trim_space s ≡ role ++ (runes ":" ++ decimal (pos id))

abbrev pub IdFits : Option (Text × ℕ) → Type 0
IdFits none = Unit
IdFits (some (role, id)) = id < 2 ^ 63

scope_text-SameOwner :
    (p q : Option (Text × ℕ)) (s t : Text)
    → IdFits p
    → IdFits q
    → (scope_text p s ≡ scope_text q t) ↔ SameOwner p q s t
scope_text-SameOwner none none s t h k = (λ e. e, λ e. e)
scope_text-SameOwner none (some (role, id)) s t h k = (λ e. e, λ e. e)
scope_text-SameOwner (some (role, id)) none s t h k = (λ e. e, λ e. e)
scope_text-SameOwner (some (role, id)) (some (role', id')) s t h k = (
  λ e.
      let (roles, ids) =
        split_last 58 role role' (decimal (pos id)) (decimal (pos id')) (lacks-decimal id)
          (lacks-decimal id') e in
      (roles, decimal_injective id id' h k ids),
  λ (roles, ids). rw (roles, ids) refl,
)

lacks-method : (method : Text) → is_state_changing_method method ≡ true → lacks 10 method ≡ true
lacks-method method h = elim (Bool-cases (text_eq method (runes "POST"))) [
  | inl b ↦ rw ((text_eq_iff method (runes "POST")).0 b) refl
  | inr n ↦ elim (Bool-cases (text_eq method (runes "PUT"))) [
    | inl b ↦ rw ((text_eq_iff method (runes "PUT")).0 b) refl
    | inr n' ↦ elim (Bool-cases (text_eq method (runes "PATCH"))) [
      | inl b ↦ rw ((text_eq_iff method (runes "PATCH")).0 b) refl
      | inr n'' ↦ rw ((text_eq_iff method (runes "DELETE")).0 (ground arith)) refl
    ]
  ]
]

-- The digest tells two texts apart.
abbrev pub Distinguishes : Externals → (s t : Text) → Type 0
Distinguishes ext s t = ext.digest s ≡ ext.digest t → s ≡ t

base_key_of-parts :
    (ext : Externals) (a b : Request) (key key' : Text)
    → ((s t : Text) → length (ext.digest s) ≡ length (ext.digest t))
    → base_key_of ext a key ≡ base_key_of ext b key'
    → (ext.digest (target_text a) ≡ ext.digest (target_text b))
      × (ext.digest (owner_text a) ≡ ext.digest (owner_text b))
      × (key ≡ key')
unfolding base_key_of request_target_scope authorization_scope
base_key_of-parts ext a b key key' long h =
    let (_, targets) = split_heads (runes "idempotency:") (runes "idempotency:") _ _ refl h in
    let (target, rest) = split_heads _ _ _ _ (long _ _) targets in
    let (_, scopes) = split_heads (runes ":") (runes ":") _ _ refl rest in
    let (scope, rest') = split_heads _ _ _ _ (long _ _) scopes in
    let (_, keys) = split_heads (runes ":") (runes ":") _ _ refl rest' in (target, scope, keys)

built : Externals → (target owner key : Text) → Text
built ext target owner key =
    runes "idempotency:"
    ++ (ext.digest target ++ (runes ":" ++ (ext.digest owner ++ (runes ":" ++ key))))

base_key_of-built :
    (ext : Externals) (a : Request) (key : Text)
    → base_key_of ext a key ≡ built ext (target_text a) (owner_text a) key
unfolding base_key_of request_target_scope authorization_scope built
base_key_of-built ext a key = refl

base_key_of-ap :
    (ext : Externals) (a b : Request) (key key' : Text)
    → target_text a ≡ target_text b
    → owner_text a ≡ owner_text b
    → key ≡ key'
    → base_key_of ext a key ≡ base_key_of ext b key'
base_key_of-ap ext a b key key' targets owners keys =
    base_key_of-built ext a key
    ∙ ap (λ t. built ext t (owner_text a) key) targets
    ∙ ap (λ o. built ext (target_text b) o key) owners
    ∙ ap (built ext (target_text b) (owner_text b)) keys
    ∙ sym (base_key_of-built ext b key')

-- Two requests with a state-changing method have the same base key exactly when their methods,
-- their request URIs, their senders and their idempotency keys are the same; two requests with
-- principals have the same sender exactly if role and id are the same, two without if their trimmed
-- Authorization headers are, and one with and one without if that header is the role, a colon and
-- the id. It is assumed that all digests are equally long, that the digest tells apart the targets
-- and the senders of these two requests, and that the ids are int64.
pub base_key_of_injective :
    (ext : Externals) (a b : Request) (key key' : Text)
    → ((s t : Text) → length (ext.digest s) ≡ length (ext.digest t))
    → Distinguishes ext (target_text a) (target_text b)
    → Distinguishes ext (owner_text a) (owner_text b)
    → is_state_changing_method a.method ≡ true
    → is_state_changing_method b.method ≡ true
    → IdFits (principal_from_request a.principal)
    → IdFits (principal_from_request b.principal)
    → (base_key_of ext a key ≡ base_key_of ext b key') ↔ (
        (a.method ≡ b.method)
        × (a.request_uri ≡ b.request_uri)
        × SameOwner
            (principal_from_request a.principal)
            (principal_from_request b.principal)
            a.authorization
            b.authorization
        × (key ≡ key'))
base_key_of_injective ext a b key key' long targets owners changing changing' fits fits' =
    let owner =
      scope_text-SameOwner (principal_from_request a.principal) (principal_from_request b.principal)
        a.authorization b.authorization fits fits' in
    (
      λ h.
          let (target, scope, keys) = base_key_of-parts ext a b key key' long h in
          let (methods, uris) =
            split_first 10 a.method b.method a.request_uri b.request_uri
              (lacks-method a.method changing) (lacks-method b.method changing') (targets target) in
          (methods, uris, owner.0 (owners scope), keys),
      λ (methods, uris, senders, keys).
          base_key_of-ap ext a b key key' (rw (methods, uris) refl) (owner.1 senders) keys,
    )
