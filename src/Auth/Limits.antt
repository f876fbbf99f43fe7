-- ===== src/Auth/Limits.antt =====
-- `allow` and `rate`: fixed windows of a minute, at most 10,000 of them.
pub mod Quota
use oncall_agent.Prelude.{
  ℕ, suc, ◌+◌, ◌-◌, ◌≤◌, ◌<◌, Bool, true, false, not, ◌&&◌, Option, none, some, List, [], ◌∷◌, Text,
  ◌≡◌, refl, arith, leb, ltb, nat_beq, if◌then◌else◌, ◌==◌, text_eq, text_beq_iff, length, keys,
  keep, lookup, insert, Distinct, Option-cases, Bool-cases, inl, inr, insert-Distinct,
  keep-Distinct, length-keep-le, length-insert_new, length-insert_old, lookup-insert, lookup-keep,
  lookup-keep-none,
}
use oncall_agent.Auth.State.{Auth, Window, IsValid, minute}

-- The windows that the purge leaves. `-` stops at 0 where the clock stands before the start, and
-- then, as in the source, the window stays.
pub live : ℕ → Text × Window → Bool
live now e = not (leb minute (now - e.1.start))

abbrev zero_window : Window
zero_window = record { start = 0; count = 0 }

abbrev window_or_zero : Option Window → Window
window_or_zero none = zero_window
window_or_zero (some v) = v

-- `v.start` becomes `now` where it is the zero time, and the count grows.
bump : ℕ → Window → Window
bump now v = record { start = if nat_beq v.start 0 then now else v.start; count = suc v.count }

abbrev is_none {ℓ} : {A : Type ℓ} → Option A → Bool
is_none none = true
is_none (some a) = false

unfoldable pub allow : ℕ → Auth → Text → ℕ → Auth × Bool
unfolding live bump
allow now a key max =
    let limits = keep (live now) a.limits in
    if leb 10000 (length limits) && is_none (lookup key limits)
    then (record a { limits = limits }, false)
    else let v = bump now (window_or_zero (lookup key limits)) in
      (record a { limits = insert key v limits }, leb v.count max)

-- Whether a table that is full would have to take a new key.
abbrev is_full : Text → List (Text × Window) → Bool
is_full key limits = leb 10000 (length limits) && is_none (lookup key limits)

insert_bounded :
    (key : Text) (v : Window) (limits : List (Text × Window))
    → length limits ≤ 10000
    → is_full key limits ≡ false
    → length (insert key v limits) ≤ 10000
insert_bounded key v limits h room = elim (Option-cases (lookup key limits)) [
  | inl new ↦
      let room' : (leb 10000 (length limits) && true) ≡ false = rw new at room in
      ground (arith, length-insert_new key v limits new)
  | inr (w, old) ↦ omega (arith, length-insert_old key v w limits old)
]

module _ (now : ℕ) (a : Auth) (key : Text) (max : ℕ) where
  -- Every call keeps the tables well formed, the refused calls too.
  pub allow-IsValid : IsValid a → IsValid (allow now a key max).0
  unfolding allow
  allow-IsValid h =
      let limits = keep (live now) a.limits in
      let v = bump now (window_or_zero (lookup key limits)) in
      let kept = keep-Distinct (live now) a.limits h.limit_keys in
      let small = length-keep-le (live now) a.limits in
      elim (Bool-cases (is_full key limits)) [
        | inl full ↦ rw full (ground (arith, kept, small))
        | inr room ↦ rw room (
            ground (
              arith,
              insert-Distinct key v limits kept,
              insert_bounded key v limits (omega arith) room,
            ))
      ]

-- Only the table of windows changes.
pub allow-fields :
    (now : ℕ) (a : Auth) (key : Text) (max : ℕ)
    → ((allow now a key max).0.sessions ≡ a.sessions)
      × ((allow now a key max).0.console ≡ a.console)
      × ((allow now a key max).0.has_console ≡ a.has_console)
      × ((allow now a key max).0.ttl ≡ a.ttl)
unfolding allow
allow-fields now a key max = ground arith
