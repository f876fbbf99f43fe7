-- ===== src/Auth/Checks/Tokens.antt =====
-- What the scope of a credential says of the header.
use oncall_agent.Prelude.{
  Bool, true, not, Option, none, some, List, [], ◌∷◌, Text, codes, ◌==◌, text_eq, text_beq_iff, ◌≡◌,
  refl, arith, fields, map, lower_ascii,
}
use oncall_agent.Auth.State.{Auth, Net, Scope, nobody, console_scope, webhook_scope}
use oncall_agent.Auth.Checks.{bearer, scope_of, bearer_token, is_bearer_word}

-- The header is the word "Bearer", in any case, and a token with the digest that is configured.
pub record HasToken (net : Net) (h : Text) (configured : Bool) (digest : Text) : Type 0 where
  pub scheme : Text
  pub token : Text
  pub header : fields h ≡ scheme ∷ token ∷ []
  pub bearer_word : map lower_ascii scheme ≡ codes "bearer"
  pub enabled : configured ≡ true
  pub matches : net.sha256 token ≡ digest

-- The digest that a scope stands for, and whether it is configured.
abbrev pub Holds : Net → Auth → Text → Scope → Type 0
Holds net a h nobody = Unit
Holds net a h console_scope = HasToken net h a.has_console a.console
Holds net a h webhook_scope = HasToken net h a.has_webhook a.webhook

bearer_token-header :
    (fs : List Text) (token : Text)
    → bearer_token fs ≡ some token
    → (scheme : Text) × (fs ≡ scheme ∷ token ∷ []) × (map lower_ascii scheme ≡ codes "bearer")
unfolding bearer_token is_bearer_word
bearer_token-header [] token h = cc
bearer_token-header (s ∷ []) token h = cc
bearer_token-header (s ∷ t ∷ []) token h =
    (s, ground arith, ground (arith, text_beq_iff (map lower_ascii s) (codes "bearer")))
bearer_token-header (s ∷ t ∷ u ∷ rest) token h = cc

scope_of-Holds :
    (net : Net) (a : Auth) (h : Text) (o : Option Text)
    → bearer_token (fields h) ≡ o
    → Holds net a h (scope_of net a o)
unfolding scope_of
scope_of-Holds net a h none e = tt
scope_of-Holds net a h (some t) e =
    let (s, header, word) = bearer_token-header (fields h) t e in
    ground (
      arith,
      header,
      word,
      text_beq_iff (net.sha256 t) a.console,
      text_beq_iff (net.sha256 t) a.webhook,
    )

pub bearer-Holds : (net : Net) (a : Auth) (h : Text) → Holds net a h (bearer net a h).0
unfolding bearer
bearer-Holds net a h = ground (arith, scope_of-Holds net a h (bearer_token (fields h)) refl)

-- Without a header there is no credential, and with one there is.
pub bearer-present : (net : Net) (a : Auth) (h : Text) → (bearer net a h).1 ≡ not (h == [])
unfolding bearer
bearer-present net a h = ground arith
