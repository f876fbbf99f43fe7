-- ===== src/Auth/Gate/Keeps.antt =====
-- What the middleware does to the state is done by `getSession` and `allow`.
use oncall_agent.Prelude.{ℕ, Bool, true, false, not, Option, Text, codes, ◌++◌, if_elim, text_eq}
use oncall_agent.Auth.State.{Auth, Net, Request}
use oncall_agent.Auth.Limits.{allow}
use oncall_agent.Auth.Sessions.{get_session}
use oncall_agent.Auth.Checks.{bearer}
use oncall_agent.Auth.Gate.{
  Verdict, deny, grant, is_read, is_run_post, authenticate, charge, rate_if, middleware,
}

module _ {ℓ} (P : Auth → Type ℓ) (net : Net) (now : ℕ)
    (found : (a : Auth) (c : Option Text) → P a → P (get_session now a c).0)
    (counted : (a : Auth) (key : Text) (max : ℕ) → P a → P (allow now a key max).0) where
  rate_if-keeps : (b : Bool) (a : Auth) (key : Text) (max : ℕ) → P a → P (rate_if b now a key max).0
  unfolding rate_if
  rate_if-keeps false a key max h = h
  rate_if-keeps true a key max h = counted a key max h

  authenticate-keeps : (a : Auth) (r : Request) → P a → P (authenticate net now a r).0
  unfolding authenticate
  authenticate-keeps a r h =
      let keeps = if_elim (λ (z : Auth × Verdict). P z.0) in
      keeps (bearer net a r.authorization).1 _ _ h
        (keeps (not a.has_console) _ _ h (found a r.cookie h))

  charge-keeps : (a : Auth) (r : Request) (v : Verdict) → P a → P (charge now a r v).0
  unfolding charge
  charge-keeps a r (deny status code) h = h
  charge-keeps a r (grant scope id) h =
      let keeps = if_elim (λ (z : Auth × Verdict). P z.0) in
      let (a1, reads) = rate_if (is_read r) now a (codes "read:" ++ id) 120 in
      let h1 = rate_if-keeps (is_read r) a (codes "read:" ++ id) 120 h in
      let h2 = rate_if-keeps (is_run_post r) a1 (codes "runs:" ++ id) 10 h1 in
      keeps (not reads) _ _ h1 (keeps _ _ _ h2 h2)

  pub middleware-keeps : (a : Auth) (r : Request) → P a → P (middleware net now a r).0
  unfolding middleware
  middleware-keeps a r h =
      let (a', v) = authenticate net now a r in charge-keeps a' r v (authenticate-keeps a r h)
