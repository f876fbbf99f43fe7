-- ===== src/Agent/Conversations/Bounded.antt =====
-- The size of the table of conversations, and what it has of a conversation just stored.
use oncall_agent.Prelude.{
  take, take-append-drop, snoc-Distinct, ℕ, suc, ◌-◌, ◌≤◌, true, false, not, ◌&&◌, ◌||◌, some, List,
  [], ◌∷◌, ◌++◌, Text, codes, ltb, ◌==◌, text_eq, text_beq_iff, length, lookup, insert, delete,
  trim_space, ◌≡◌, refl, arith, All, has, Distinct, length-Distinct-le, keys, has-append,
  has-keys-insert, insert-Distinct, delete-Distinct, length-drop, Bool-cases, Option-cases, inl,
  inr, All-insert, lookup-insert, lookup-delete, if_elim,
}
use Prim.Native.Nat.{min}
use oncall_agent.Agent.Conversations.{
  Msg, Table, remove_first, evict, touch_session, message, begin, last_messages, store,
  clear_sessions,
}

-- The order has no id twice and no more than 256 ids, the table's keys are distinct and stand in
-- the order, and no history is longer than 20 messages.
pub record IsBounded (t : Table) : Type 0 where
  pub apart : Distinct t.order
  pub small : length t.order ≤ 256
  pub keyed : Distinct (keys t.sessions)
  pub ordered : (j : Text) → has j (keys t.sessions) ≡ true → has j t.order ≡ true
  pub short : All (λ e. length e.1 ≤ 20) t.sessions

has-remove_first :
    (j id : Text) (xs : List Text)
    → Distinct xs
    → has j (remove_first id xs) ≡ (has j xs && not (id == j))
unfolding remove_first
has-remove_first j id [] d = refl
has-remove_first j id (x ∷ xs) d = ground (
  arith,
  has-remove_first j id xs d.1,
  text_beq_iff x id,
  text_beq_iff x j,
  text_beq_iff id j,
  d.0,
)

remove_first-Distinct : (id : Text) (xs : List Text) → Distinct xs → Distinct (remove_first id xs)
unfolding remove_first
remove_first-Distinct id [] d = d
remove_first-Distinct id (x ∷ xs) d =
    ground (arith, remove_first-Distinct id xs d.1, has-remove_first x id xs d.1, d.0)

length-remove_first : (id : Text) (xs : List Text) → length (remove_first id xs) ≤ length xs
unfolding remove_first
length-remove_first id [] = omega arith
length-remove_first id (x ∷ xs) = ground (arith, length-remove_first id xs)

All-delete :
    (k : Text) (m : List (Text × List Msg))
    → All (λ e. length e.1 ≤ 20) m
    → All (λ e. length e.1 ≤ 20) (delete k m)
All-delete k [] h = tt
All-delete k ((j, w) ∷ m) h = ground (arith, All-delete k m h.1)

has-keys-delete_and :
    (j k : Text) (m : List (Text × List Msg))
    → has j (keys (delete k m)) ≡ (has j (keys m) && not (k == j))
has-keys-delete_and j k [] = refl
has-keys-delete_and j k ((i, w) ∷ m) =
    ground (arith, has-keys-delete_and j k m, text_beq_iff i k, text_beq_iff i j, text_beq_iff k j)

-- What an eviction starts from: `IsBounded` without the bound on the order.
record IsListed (order : List Text) (sessions : List (Text × List Msg)) : Type 0 where
  apart : Distinct order
  keyed : Distinct (keys sessions)
  ordered : (j : Text) → has j (keys sessions) ≡ true → has j order ≡ true
  short : All (λ e. length e.1 ≤ 20) sessions

evict-IsBounded :
    (order : List Text) (sessions : List (Text × List Msg))
    → IsListed order sessions
    → IsBounded (evict order sessions)
unfolding evict
evict-IsBounded [] sessions h = record {
  apart = tt;
  small = omega arith;
  keyed = h.keyed;
  ordered = h.ordered;
  short = h.short;
}
evict-IsBounded (old ∷ order) sessions h = elim (Bool-cases (ltb 256 (suc (length order)))) [
  | inl over ↦ rw over (
      evict-IsBounded order (delete old sessions) (record {
        apart = h.apart.1;
        keyed = delete-Distinct old sessions h.keyed;
        ordered = λ j k.
            ground (arith, k, has-keys-delete_and j old sessions, h.ordered j, text_beq_iff old j);
        short = All-delete old sessions h.short;
      }))
  | inr fits ↦ rw fits (record {
    apart = h.apart;
    small = ground arith;
    keyed = h.keyed;
    ordered = h.ordered;
    short = h.short;
  })
]

-- Used as the most recent.
touch_session-IsBounded :
    (id : Text) (t : Table)
    → Distinct t.order
    → Distinct (keys t.sessions)
    → ((j : Text) → has j (keys t.sessions) ≡ true → (has j t.order || id == j) ≡ true)
    → All (λ e. length e.1 ≤ 20) t.sessions
    → IsBounded (touch_session id t)
unfolding touch_session
touch_session-IsBounded id t d k o s =
    let order = remove_first id t.order in
    evict-IsBounded (order ++ id ∷ []) t.sessions (record {
      apart =
          snoc-Distinct id order (remove_first-Distinct id t.order d)
            (ground (arith, has-remove_first id id t.order d, text_beq_iff id id));
      keyed = k;
      ordered = λ j m.
          ground (arith, m, o j, has-append j order (id ∷ []), has-remove_first j id t.order d);
      short = s;
    })

length-last_messages : (ms : List Msg) → length (last_messages ms) ≤ 20
unfolding last_messages
length-last_messages ms = ground (arith, length-drop (length ms - 20) ms)

store-IsBounded :
    (id : Text) (hist : List Msg) (final : Text) (t : Table)
    → IsBounded t
    → IsBounded (store id hist final t)
unfolding store
store-IsBounded id hist final t h =
    let ms = last_messages (hist ++ message (codes "assistant") final ∷ []) in
    touch_session-IsBounded id (record t { sessions = insert id ms t.sessions }) h.apart
      (insert-Distinct id ms t.sessions h.keyed)
      (λ j k. ground (arith, k, h.ordered j, has-keys-insert j id ms t.sessions))
      (All-insert (λ (e : Text × List Msg). length e.1 ≤ 20) id ms t.sessions
        (length-last_messages (hist ++ message (codes "assistant") final ∷ [])) h.short)

clear_sessions-IsBounded : (id : Text) (t : Table) → IsBounded t → IsBounded (clear_sessions id t).0
unfolding clear_sessions
clear_sessions-IsBounded id t h =
    if_elim (λ (z : Table × ℕ). IsBounded z.0) (trim_space id == []) _ _
      (record {
        apart = tt;
        small = omega arith;
        keyed = tt;
        ordered = λ j k. absurd (ground arith);
        short = tt;
      })
      (elim (Option-cases (lookup id t.sessions)) [
        | inl e ↦ rw e h
        | inr (ms, e) ↦ rw e (record {
          apart = remove_first-Distinct id t.order h.apart;
          small = omega (arith, length-remove_first id t.order, h.small);
          keyed = delete-Distinct id t.sessions h.keyed;
          ordered = λ j k. ground (
            arith,
            k,
            has-keys-delete_and j id t.sessions,
            h.ordered j,
            has-remove_first j id t.order h.apart,
          );
          short = All-delete id t.sessions h.short;
        })
      ])

-- One locked section of a request: of `Run` before and after the loop, or of `ClearSessions`.
pub data Use : Type 0 where
  asks : Text → Text → Use
  stores : Text → List Msg → Text → Use
  clears : Text → Use

pub apply : Table → Use → Table
apply t (asks id msg) = (begin id msg t).0
apply t (stores id hist final) = store id hist final t
apply t (clears id) = (clear_sessions id t).0

pub apply_all : Table → List Use → Table
unfolding apply
apply_all t [] = t
apply_all t (u ∷ us) = apply_all (apply t u) us

apply_all-IsBounded : (t : Table) (us : List Use) → IsBounded t → IsBounded (apply_all t us)
unfolding apply_all apply begin
apply_all-IsBounded t [] h = h
apply_all-IsBounded t (asks id msg ∷ us) h =
    apply_all-IsBounded (touch_session id t) us
      (touch_session-IsBounded id t h.apart h.keyed (λ j k. ground (arith, h.ordered j k)) h.short)
apply_all-IsBounded t (stores id hist final ∷ us) h =
    apply_all-IsBounded (store id hist final t) us (store-IsBounded id hist final t h)
apply_all-IsBounded t (clears id ∷ us) h =
    apply_all-IsBounded (clear_sessions id t).0 us (clear_sessions-IsBounded id t h)

length-keys : (m : List (Text × List Msg)) → length (keys m) ≡ length m
length-keys [] = refl
length-keys ((k, w) ∷ m) = omega (arith, length-keys m)

abbrev pub no_conversations : Table
no_conversations = record { sessions = []; order = [] }

-- However requests ask, store and clear, in any order, from an empty table there are at most 256
-- conversations, of at most 20 messages each, and each of them stands in the order of their use.
pub apply_all-IsSmall :
    (us : List Use)
    → (length (apply_all no_conversations us).sessions ≤ 256)
      × IsBounded (apply_all no_conversations us)
apply_all-IsSmall us =
    let h = apply_all-IsBounded no_conversations us (record {
      apart = tt;
      small = omega arith;
      keyed = tt;
      ordered = λ j k. absurd (ground arith);
      short = tt;
    }) in
    let t = apply_all no_conversations us in
    (
      omega (
        arith,
        length-keys t.sessions,
        length-Distinct-le (keys t.sessions) t.order h.keyed h.ordered,
        h.small,
      ),
      h,
    )

-- The eviction spares the last id.
evict-lookup :
    (id : Text) (xs : List Text) (sessions : List (Text × List Msg))
    → has id xs ≡ false
    → lookup id (evict (xs ++ id ∷ []) sessions).sessions ≡ lookup id sessions
unfolding evict
evict-lookup id [] sessions h = refl
evict-lookup id (x ∷ xs) sessions h =
    ground (
      arith,
      evict-lookup id xs (delete x sessions),
      lookup-delete x id sessions,
      text_beq_iff x id,
    )

-- The messages end with `kept`: 20 of them, or all where they are fewer.
pub record IsEnd (kept all : List Msg) : Type 0 where
  pub earlier : List Msg
  pub whole : earlier ++ kept ≡ all
  pub size : length kept ≡ min 20 (length all)

last_messages-IsEnd : (ms : List Msg) → IsEnd (last_messages ms) ms
unfolding last_messages
last_messages-IsEnd ms = elim (Bool-cases (ltb 20 (length ms))) [
  | inl e ↦ rw e (record {
    earlier = take (length ms - 20) ms;
    whole = take-append-drop (length ms - 20) ms;
    size = ground (arith, e, length-drop (length ms - 20) ms);
  })
  | inr e ↦ rw e (record { earlier = []; whole = refl; size = ground (arith, e) })
]

-- After an answer is stored in a bounded table, the next question of that conversation is put with the
-- end of the conversation: the last 20 messages, or all of them, of which the stored answer is the
-- last; and the question stands after them.
pub store-begin :
    (id : Text) (hist : List Msg) (final msg : Text) (t : Table)
    → IsBounded t
    → (kept : List Msg) × IsEnd kept (hist ++ message (codes "assistant") final ∷ [])
      × ((begin id msg (store id hist final t)).1 ≡ kept ++ message (codes "user") msg ∷ [])
unfolding begin store touch_session
store-begin id hist final msg t h =
    let ms = last_messages (hist ++ message (codes "assistant") final ∷ []) in
    let gone : has id (remove_first id t.order) ≡ false =
      ground (arith, has-remove_first id id t.order h.apart, text_beq_iff id id) in
    let kept : lookup id
          (evict (remove_first id t.order ++ id ∷ []) (insert id ms t.sessions)).sessions
        ≡ some ms =
      ground (
        arith,
        evict-lookup id (remove_first id t.order) (insert id ms t.sessions) gone,
        lookup-insert id id ms t.sessions,
        text_beq_iff id id,
      ) in
    (ms, last_messages-IsEnd (hist ++ message (codes "assistant") final ∷ []), rw kept refl)
