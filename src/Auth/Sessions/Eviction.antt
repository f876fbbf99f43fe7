-- ===== src/Auth/Sessions/Eviction.antt =====
-- What the session table holds after a login.
use oncall_agent.Prelude.{
  ℕ, ◌≤◌, true, false, ◌||◌, none, some, List, [], ◌∷◌, Text, leb, ltb, ◌==◌, text_eq, text_beq_iff,
  length, keep, keys, lookup, insert, delete, ◌≡◌, refl, arith, Distinct, All, Bool-cases, inl, inr,
  length-keep-le, length-insert-le, length-delete_old, keep-Distinct, delete-Distinct,
  insert-Distinct, lookup-insert, lookup-delete, lookup-keep, All-keep_of, ◌⊎◌, beq_refl,
  lookup-eq-none_iff, All-lookup, text_beq, subst, sym,
}
use oncall_agent.Auth.State.{Auth, Session, IsValid}
use oncall_agent.Auth.Sessions.{unexpired, older, oldest_from, make_room, store_session}

-- No session has the empty id.
abbrev pub AreNamed : List (Text × Session) → Type 0
AreNamed = All (λ e. (e.0 == []) ≡ false)

-- From a first candidate, the loop ends at an entry that is no younger than any other.
record IsOldest (best : Text × ℕ) (m : List (Text × Session)) (r : Text × ℕ) : Type 0 where
  le_best : r.1 ≤ best.1
  le_all : All (λ e. r.1 ≤ e.1.created) m
  named : (r.0 == []) ≡ false

oldest_from-IsOldest :
    (best : Text × ℕ) (m : List (Text × Session))
    → (best.0 == []) ≡ false
    → AreNamed m
    → IsOldest best m (oldest_from best m)
unfolding oldest_from older
oldest_from-IsOldest best [] h k = record { le_best = omega arith; le_all = tt; named = h }
oldest_from-IsOldest best ((i, s) ∷ m) h k =
    let ih = oldest_from-IsOldest (older best (i, s)) m (ground (arith, h, k.0)) k.1 in
    record {
      le_best = ground (arith, ih.le_best);
      le_all = (ground (arith, ih.le_best), ih.le_all);
      named = ih.named;
    }

-- The entry that the loop ends at is the candidate or one of the table.
oldest_from-lookup :
    (best : Text × ℕ) (m : List (Text × Session))
    → Distinct (keys m)
    → (oldest_from best m ≡ best)
      ⊎ ((s : Session) × (lookup (oldest_from best m).0 m ≡ some s)
          × (s.created ≡ (oldest_from best m).1))
unfolding oldest_from older
oldest_from-lookup best [] d = inl refl
oldest_from-lookup best ((i, s) ∷ m) d =
    let next = older best (i, s) in
    elim (oldest_from-lookup next m d.1) [
      | inl e ↦ elim (Bool-cases (best.0 == [] || ltb s.created best.1)) [
        | inl better ↦ rw (e, better) (inr (s, rw (beq_refl i) refl, refl))
        | inr worse ↦ rw (e, worse) (inl refl)
      ]
      | inr (w, e, c) ↦ inr (
        w,
        ground (arith, e, text_beq_iff i (oldest_from next m).0, lookup-eq-none_iff i m, d.0),
        c,
      )
    ]

record IsVictim (m : List (Text × Session)) (r : Text × ℕ) : Type 0 where
  chosen : Session
  found : lookup r.0 m ≡ some chosen
  oldest : All (λ e. chosen.created ≤ e.1.created) m

-- In a table that is not empty the loop finds one of the oldest sessions.
oldest_from-IsVictim :
    (m : List (Text × Session))
    → Distinct (keys m)
    → AreNamed m
    → 1 ≤ length m
    → IsVictim m (oldest_from ([], 0) m)
unfolding oldest_from older text_beq
oldest_from-IsVictim [] d n h = absurd (omega arith)
oldest_from-IsVictim ((i, s) ∷ m) d n h =
    let r = oldest_from (i, s.created) m in
    let least = oldest_from-IsOldest (i, s.created) m n.0 n.1 in
    elim (oldest_from-lookup (i, s.created) m d.1) [
      | inl e ↦
          let all : All (λ x. s.created ≤ x.1.created) m =
            subst (λ (z : Text × ℕ). All (λ (x : Text × Session). z.1 ≤ x.1.created) m) e
              least.le_all in
          record { chosen = s; found = rw e (rw (beq_refl i) refl); oldest = (omega arith, all) }
      | inr (w, e, c) ↦
          let all : All (λ x. w.created ≤ x.1.created) m =
            subst (λ (z : ℕ). All (λ (x : Text × Session). z ≤ x.1.created) m) (sym c)
              least.le_all in
          record {
            chosen = w;
            found = ground (arith, e, text_beq_iff i r.0, lookup-eq-none_iff i m, d.0);
            oldest = (omega (arith, least.le_best), all);
          }
    ]

module _ (now : ℕ) (id : Text) (s : Session) (a : Auth) where
  abbrev kept : List (Text × Session)
  kept = keep (unexpired now) a.sessions

  -- A login keeps the tables well formed: no more sessions than the maximum.
  pub store_session-IsValid : IsValid a → AreNamed a.sessions → IsValid (store_session now id s a)
  unfolding store_session make_room
  store_session-IsValid h n =
      let d = keep-Distinct (unexpired now) a.sessions h.session_keys in
      let small = length-keep-le (unexpired now) a.sessions in
      elim (Bool-cases (leb a.max_sessions (length kept))) [
        | inl full ↦
            let v =
              oldest_from-IsVictim kept d (All-keep_of _ (unexpired now) a.sessions n)
                (ground (arith, h.session_room)) in
            let old = (oldest_from ([], 0) kept).0 in
            rw full (record {
              session_keys = insert-Distinct id s _ (delete-Distinct old kept d);
              limit_keys = h.limit_keys;
              session_room = h.session_room;
              sessions_bounded = omega (
                arith,
                h.sessions_bounded,
                length-insert-le id s (delete old kept),
                length-delete_old old v.chosen kept v.found,
              );
              limits_bounded = h.limits_bounded;
            })
        | inr room ↦ rw room (record {
          session_keys = insert-Distinct id s kept d;
          limit_keys = h.limit_keys;
          session_room = h.session_room;
          sessions_bounded = ground (arith, length-insert-le id s kept);
          limits_bounded = h.limits_bounded;
        })
      ]

  -- In well formed tables without an empty session id, a session that is live and that a login drops
  -- is no younger than any other that it leaves.
  pub store_session_drops_oldest :
      (j i : Text) (sj si : Session)
      → IsValid a
      → AreNamed a.sessions
      → lookup j a.sessions ≡ some sj
      → unexpired now (j, sj) ≡ true
      → lookup j (store_session now id s a).sessions ≡ none
      → lookup i (store_session now id s a).sessions ≡ some si
      → (id == i) ≡ false
      → sj.created ≤ si.created
  unfolding store_session make_room
  store_session_drops_oldest j i sj si h n e live gone stays new =
      let d = keep-Distinct (unexpired now) a.sessions h.session_keys in
      let was : lookup j kept ≡ some sj =
        ground (arith, lookup-keep (unexpired now) j a.sessions h.session_keys sj e) in
      elim (Bool-cases (leb a.max_sessions (length kept))) [
        | inl full ↦
            let v =
              oldest_from-IsVictim kept d (All-keep_of _ (unexpired now) a.sessions n)
                (ground (arith, h.session_room)) in
            let old = (oldest_from ([], 0) kept).0 in
            let gone' : lookup j (insert id s (delete old kept)) ≡ none = rw full at gone in
            let stays' : lookup i (insert id s (delete old kept)) ≡ some si = rw full at stays in
            let same : sj ≡ v.chosen = ground (
              arith,
              lookup-insert id j s (delete old kept),
              lookup-delete old j kept,
              text_beq_iff old j,
              v.found,
            ) in
            let found_i : lookup i kept ≡ some si =
              ground (arith, lookup-insert id i s (delete old kept), lookup-delete old i kept) in
            rw same (All-lookup (λ x. v.chosen.created ≤ x.1.created) i si kept found_i v.oldest)
        | inr room ↦
            let gone' : lookup j (insert id s kept) ≡ none = rw room at gone in
            ground (arith, lookup-insert id j s kept)
      ]
