-- ===== src/Agent/Loop/Cited.antt =====
-- What the replies cite.
use oncall_agent.Prelude.{
  some, In, snoc-Distinct, List-cases, ℕ, zero, suc, true, false, not, ◌&&◌, ◌||◌, List, [], ◌∷◌,
  ◌++◌, Text, ◌==◌, text_eq, has, has-append, keep, map, trim_space, ◌≡◌, refl, arith, All,
  All-append, Distinct, Bool-cases, Option-cases, inl, inr, if_elim, subst,
}
use oncall_agent.Agent.Evidence.{Hit, Citation, citation_from_hit, evidence_report, qualified_query}
use oncall_agent.Agent.Conversations.{Call, Msg, Table}
use oncall_agent.Agent.Loop.{
  World, Cites, hit_key, cite_hits, End, answered, tool_failed, interrupted, model_failed, Calls,
  go_on, stop, exec, lacks_source, run_calls, next_round, rounds, loop, Reply, reply, no_reply,
  report_hits, fallback, conclude, run,
}

-- An allowed tool, called at some time, returned the hit.
pub record IsReturned (w : World) (hit : Hit) : Type 0 where
  pub msgs : List Msg
  pub call : Call
  pub out : Text
  pub hits : List Hit
  pub called : exec w msgs call ≡ some (out, hits)
  pub given : In hit hits

-- A citation that a hit, which a tool returned and which is qualified for the user's own question, was
-- made into.
pub record IsQualified (w : World) (query : Text) (c : Citation) : Type 0 where
  pub hit : Hit
  pub returned : IsReturned w hit
  pub cited : c ≡ citation_from_hit hit
  pub qualified : qualified_query w.unicode w.env query hit ≡ true

abbrev pub citation_key : Citation → Text
citation_key c = c.doc_id ++ 0 ∷ (c.version_id ++ 0 ∷ c.chunk_id)

abbrev pub citation_keys : List Citation → List Text
citation_keys [] = []
citation_keys (c ∷ cs) = citation_key c ∷ citation_keys cs

-- The citations are of qualified hits, and no chunk of a version is cited twice.
pub record AreCited (w : World) (query : Text) (cites : List Citation) : Type 0 where
  pub qualified : All (IsQualified w query) cites
  pub distinct : Distinct (citation_keys cites)

record Holds (w : World) (query : Text) (st : Cites) : Type 0 where
  cited : AreCited w query st.cites
  seen : (k : Text) → has k (citation_keys st.cites) ≡ has k st.seen

citation_keys-append :
    (xs ys : List Citation) → citation_keys (xs ++ ys) ≡ citation_keys xs ++ citation_keys ys
citation_keys-append [] ys = refl
citation_keys-append (x ∷ xs) ys = rw (citation_keys-append xs ys) refl

module _ (w : World) (query : Text) where
  cite_hits-Holds :
      (hs : List Hit) (st : Cites)
      → ((x : Hit) → In x hs → IsReturned w x)
      → Holds w query st
      → Holds w query (cite_hits w query hs st)
  unfolding cite_hits citation_from_hit
  cite_hits-Holds [] st g h = h
  cite_hits-Holds (x ∷ hs) st g h =
      elim (Bool-cases (qualified_query w.unicode w.env query x && not (has (hit_key x) st.seen))) [
        | inr skip ↦ rw skip (cite_hits-Holds hs st (λ y i. g y (inr i)) h)
        | inl new ↦
            let c = citation_from_hit x in
            let unseen : has (hit_key x) (citation_keys st.cites) ≡ false =
              ground (arith, h.seen (hit_key x)) in
            rw new (
              cite_hits-Holds hs (record { cites = st.cites ++ c ∷ []; seen = hit_key x ∷ st.seen })
                (λ y i. g y (inr i))
                (record {
                  cited = record {
                    qualified =
                        All-append (IsQualified w query) st.cites (c ∷ []) h.cited.qualified (
                          record {
                            hit = x;
                            returned = g x (inl refl);
                            cited = refl;
                            qualified = ground arith;
                          },
                          tt,
                        );
                    distinct = rw (citation_keys-append st.cites (c ∷ [])) (
                        snoc-Distinct (hit_key x) (citation_keys st.cites) h.cited.distinct unseen);
                  };
                  seen = λ k. rw (citation_keys-append st.cites (c ∷ [])) (
                      ground
                        (arith, has-append k (citation_keys st.cites) (hit_key x ∷ []), h.seen k));
                }))
      ]

  -- An end without citations, or with good ones.
  abbrev Ends : End → Type 0
  Ends (answered cites) = AreCited w query cites
  Ends tool_failed = Unit
  Ends interrupted = Unit
  Ends (model_failed msgs) = Unit

  abbrev Continues : Calls → Type 0
  Continues (go_on msgs st) = Holds w query st
  Continues (stop e) = Ends e

  run_calls-Continues :
      (cs : List Call) (msgs : List Msg) (st : Cites)
      → Holds w query st
      → Continues (run_calls w query msgs st cs)
  unfolding run_calls
  run_calls-Continues [] msgs st h = h
  run_calls-Continues (c ∷ cs) msgs st h = if_elim Continues (w.cancelled msgs) _ _ tt (
      if_elim Continues (lacks_source w c) _ _ tt (elim (Option-cases (exec w msgs c)) [
        | inl e ↦ rw e tt
        | inr ((out, hits), e) ↦ rw e (
            run_calls-Continues cs _ _ (
              cite_hits-Holds hits st
                (λ x i. record {
                  msgs = msgs;
                  call = c;
                  out = out;
                  hits = hits;
                  called = e;
                  given = i;
                })
                h))
      ]))

  next_round-Ends :
      (rest : List Msg → Cites → End) (c : Calls)
      → ((msgs : List Msg) (st : Cites) → Holds w query st → Ends (rest msgs st))
      → Continues c
      → Ends (next_round rest c)
  unfolding next_round
  next_round-Ends rest (go_on msgs st) f h = f msgs st h
  next_round-Ends rest (stop e) f h = h

  rounds-Ends :
      (n : ℕ) (msgs : List Msg) (st : Cites) → Holds w query st → Ends (rounds w query n msgs st)
  unfolding rounds
  rounds-Ends zero msgs st h = elim (Option-cases (w.chat_final msgs)) [
    | inl e ↦ rw (e, rounds) tt
    | inr (text, e) ↦ rw (e, rounds) h.cited
  ]
  rounds-Ends (suc n) msgs st h = elim (Option-cases (w.chat msgs)) [
    | inl e ↦ rw (e, rounds) tt
    | inr (a, e) ↦ elim (List-cases a.tool_calls) [
      | inl none_asked ↦ rw (e, none_asked, rounds) h.cited
      | inr (c, cs, some_asked) ↦
          rw (e, some_asked, rounds)
            (next_round-Ends (rounds w query n) _ (rounds-Ends n)
              (run_calls-Continues (c ∷ cs) _ st h))
    ]
  ]

  loop-Ends : (hist : List Msg) → Ends (loop w hist query)
  unfolding loop
  loop-Ends hist =
      rounds-Ends 3 _ (record { cites = []; seen = [] })
        (record { cited = record { qualified = tt; distinct = tt }; seen = λ k. refl })

  -- However the model and the tools behave, the citations of an answer of the loop are of hits that
  -- an allowed tool returned and that qualify for the user's own question, and no chunk is cited twice.
  pub loop-AreCited :
      (hist : List Msg) (cites : List Citation)
      → loop w hist query ≡ answered cites
      → AreCited w query cites
  loop-AreCited hist cites e = subst Ends e (loop-Ends hist)

  keep-IsQualified :
      (hs : List Hit)
      → ((x : Hit) → In x hs → IsReturned w x)
      → All
          (IsQualified w query)
          (map citation_from_hit (keep (qualified_query w.unicode w.env query) hs))
  keep-IsQualified [] g = tt
  keep-IsQualified (x ∷ hs) g = elim (Bool-cases (qualified_query w.unicode w.env query x)) [
    | inr e ↦ rw e (keep-IsQualified hs (λ y i. g y (inr i)))
    | inl e ↦ simp e (
      record { hit = x; returned = g x (inl refl); cited = refl; qualified = e },
      keep-IsQualified hs (λ y i. g y (inr i)),
    )
  ]

  -- A reply is the report of its citations, and these are of qualified hits.
  abbrev pub IsReport : Reply → Type 0
  IsReport (reply text cites) = (text ≡ evidence_report cites) × All (IsQualified w query) cites
  IsReport no_reply = Unit

  report_hits-IsReport :
      (hs : List Hit)
      → All (IsQualified w query) (map citation_from_hit hs)
      → IsReport (report_hits hs)
  unfolding report_hits evidence_report
  report_hits-IsReport [] h = (refl, tt)
  report_hits-IsReport (x ∷ hs) h = (refl, h)

  fallback-IsReport : IsReport (fallback w query)
  unfolding fallback
  fallback-IsReport =
      if_elim IsReport (not w.has_tools || not w.has_knowledge) _ _ tt
        (elim (Option-cases (exec w [] (w.search_call query))) [
          | inl e ↦ rw e tt
          | inr ((out, hits), e) ↦ rw e (
              report_hits-IsReport _ (
                keep-IsQualified hits (λ x i. record {
                  msgs = [];
                  call = w.search_call query;
                  out = out;
                  hits = hits;
                  called = e;
                  given = i;
                })))
        ])

  conclude-IsReport :
      (id : Text) (hist : List Msg) (t : Table) (e : End)
      → Ends e
      → IsReport (conclude w id hist query t e).1
  unfolding conclude
  conclude-IsReport id hist t (answered cites) h = (refl, h.qualified)
  conclude-IsReport id hist t tool_failed h = tt
  conclude-IsReport id hist t interrupted h = tt
  conclude-IsReport id hist t (model_failed msgs) h =
      if_elim (λ (z : Table × Reply). IsReport z.1) (w.cancelled msgs) _ _ tt fallback-IsReport

-- However the model and the tools behave, and whether the loop answers or the fallback does, the
-- text of a reply is the report that is made of its citations alone, and each citation was made of
-- a hit that an allowed tool returned and that qualifies for the user's own question.
pub run-IsReport :
    (w : World) (id msg : Text) (t : Table) → IsReport w (trim_space msg) (run w id msg t).1
unfolding run
run-IsReport w id msg t =
    let query = trim_space msg in
    if_elim (λ (z : Table × Reply). IsReport w query z.1) (query == []) _ _ tt
      (conclude-IsReport w query _ _ _ (loop w _ query) (loop-Ends w query _))
