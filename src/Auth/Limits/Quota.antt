-- ===== src/Auth/Limits/Quota.antt =====
-- The quota of one window: how many requests of one key pass within a minute.
use oncall_agent.Prelude.{
  ℕ, suc, ◌+◌, ◌-◌, ◌≤◌, ◌<◌, Bool, true, ◌&&◌, Option, none, some, List, [], ◌∷◌, Text, ◌≡◌, refl,
  arith, if◌then◌else◌, ◌==◌, text_eq, text_beq_iff, keep, lookup, Option-cases, Bool-cases, inl,
  inr, All, lookup-insert, lookup-keep, lookup-keep-none,
}
use oncall_agent.Auth.State.{Auth, Window, IsValid, minute}
use oncall_agent.Auth.Limits.{allow, allow-IsValid, live, bump, window_or_zero}

-- One call of `allow`: the clock's reading, the key and the maximum.
pub record Call : Type 0 where
  pub now : ℕ
  pub key : Text
  pub max : ℕ

-- How many of the calls with the key are let pass.
pub granted : Text → Auth → List Call → ℕ
granted k a [] = 0
granted k a (c ∷ cs) =
    let (a', passed) = allow c.now a c.key c.max in
    let rest = granted k a' cs in if c.key == k && passed then suc rest else rest

abbrev pub used : Text → Auth → ℕ
used k a = (window_or_zero (lookup k a.limits)).count

-- The key has no window, or one that was opened at `t` or later.
abbrev pub OpensAfter : ℕ → Option Window → Type 0
OpensAfter t none = Unit
OpensAfter t (some v) = t ≤ v.start

module _ (t : ℕ) (k : Text) (a : Auth) (now : ℕ) (key : Text) (max : ℕ) where
  abbrev after : Auth
  after = (allow now a key max).0

  abbrev passed : Bool
  passed = (allow now a key max).1

  record Accounts : Type 0 where
    opens : OpensAfter t (lookup k after.limits)
    spends : (key == k && passed) ≡ true → used k a + 1 ≤ used k after
    keeps : used k a ≤ used k after
    capped : (key == k && passed) ≡ true → used k after ≤ max

  -- Within the minute the purge leaves the key's window alone.
  lookup-live :
      IsValid a
      → now < t + minute
      → OpensAfter t (lookup k a.limits)
      → lookup k (keep (live now) a.limits) ≡ lookup k a.limits
  unfolding live
  lookup-live h late o = elim (Option-cases (lookup k a.limits)) [
    | inl e ↦ rw (e, lookup-keep-none (live now) k a.limits e) refl
    | inr (w, e) ↦
        let o' : t ≤ w.start = rw e at o in
        rw (e, lookup-keep (live now) k a.limits h.limit_keys w e) (ground arith)
  ]

  allow_accounts :
      IsValid a → 0 < t → t ≤ now → now < t + minute → OpensAfter t (lookup k a.limits) → Accounts
  unfolding allow bump
  allow_accounts h pos early late o =
      let limits = keep (live now) a.limits in
      let v = bump now (window_or_zero (lookup key limits)) in
      ground (arith, lookup-live h late o, lookup-insert key k v limits, text_beq_iff key k)

-- A call within the minute that starts at `t`, which asks for `limit` if it is the key's.
pub record Within (t : ℕ) (k : Text) (limit : ℕ) (c : Call) : Type 0 where
  pub positive : 0 < t
  pub early : t ≤ c.now
  pub late : c.now < t + minute
  pub asks : (c.key == k) ≡ true → c.max ≡ limit

granted-le-left :
    (t : ℕ) (k : Text) (limit : ℕ) (a : Auth) (cs : List Call)
    → IsValid a
    → OpensAfter t (lookup k a.limits)
    → All (Within t k limit) cs
    → granted k a cs ≤ limit - used k a
unfolding granted
granted-le-left t k limit a [] h o w = omega arith
granted-le-left t k limit a (c ∷ cs) h o w =
    let s = allow_accounts t k a c.now c.key c.max h w.0.positive w.0.early w.0.late o in
    let a' = (allow c.now a c.key c.max).0 in
    let ih = granted-le-left t k limit a' cs (allow-IsValid c.now a c.key c.max h) s.opens w.1 in
    elim (Bool-cases (c.key == k)) [
      | inl same ↦ ground (arith, s.spends, s.keeps, s.capped, ih, w.0.asks same)
      | inr other ↦ rw other (omega (arith, s.keeps, ih))
    ]

-- From well formed tables in which the key has no window, at most `limit` of its requests pass in
-- the minute from a time that is not the zero time, if they all ask for `limit`, whatever other keys
-- ask in between and whichever windows expire or are refused.
pub granted-le-limit :
    (t : ℕ) (k : Text) (limit : ℕ) (a : Auth) (cs : List Call)
    → IsValid a
    → lookup k a.limits ≡ none
    → All (Within t k limit) cs
    → granted k a cs ≤ limit
granted-le-limit t k limit a cs h e w =
    let left = granted-le-left t k limit a cs h (rw e tt) w in omega arith
