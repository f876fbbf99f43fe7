-- ===== src/Agent/Evidence.antt =====
-- internal/agent/evidence.go: which hits are qualified, and the report that is made of citations.
use oncall_agent.Prelude.{
  ℕ, suc, Bool, false, not, ◌&&◌, ◌||◌, List, [], ◌∷◌, ◌++◌, Text, codes, if◌then◌else◌, leb, ◌==◌,
  text_eq, length, take, keep, trim_space, decimal,
}
use oncall_agent.Retrieval.Anchor.{Unicode, lexical_anchor}

-- The fields of rag.Result that the agent reads.
pub record Hit : Type 0 where
  pub doc : Text
  pub snippet : Text
  pub doc_id : Text
  pub version_id : Text
  pub chunk_id : Text
  pub source : Text
  pub environment : Text

pub record Citation : Type 0 where
  pub doc : Text
  pub snippet : Text
  pub doc_id : Text
  pub version_id : Text
  pub chunk_id : Text
  pub source : Text

unfoldable pub qualified_hit : Hit → Bool
unfolding trim_space
qualified_hit h =
    not (trim_space h.doc_id == [])
    && not (trim_space h.version_id == [])
    && not (trim_space h.chunk_id == [])
    && not (trim_space h.snippet == [])
    && (h.source == codes "upload" || h.source == codes "demo")

unfoldable pub citation_from_hit : Hit → Citation
citation_from_hit h = record {
  doc = h.doc;
  snippet = h.snippet;
  doc_id = h.doc_id;
  version_id = h.version_id;
  chunk_id = h.chunk_id;
  source = h.source;
}

unfoldable pub safe_report : Text
safe_report = codes "当前未找到可用于处置的合格知识，请人工研判。"

-- react.go's `trunc`.
unfoldable pub trunc : Text → ℕ → Text
trunc s n = if leb (length s) n then s else take n s

-- The hit that a citation is tested as.
unfoldable pub hit_of : Citation → Hit
hit_of c = record {
  doc = [];
  snippet = c.snippet;
  doc_id = c.doc_id;
  version_id = c.version_id;
  chunk_id = c.chunk_id;
  source = c.source;
  environment = [];
}

unfoldable pub excerpts : ℕ → List Citation → Text
unfolding trunc
excerpts i [] = []
excerpts i (c ∷ cs) =
    codes "\n"
    ++ decimal i
    ++ codes ". 【"
    ++ c.doc
    ++ codes "】\n"
    ++ trunc c.snippet 500
    ++ codes "\n"
    ++ excerpts (suc i) cs

report_of : List Citation → Text
unfolding safe_report excerpts
report_of [] = safe_report
report_of (c ∷ cs) = codes "根据知识库匹配到以下内容（本轮原文摘录，适用性与根因尚未核验，请人工研判）：\n" ++ excerpts 1 (c ∷ cs)

unfoldable pub evidence_report : List Citation → Text
unfolding report_of qualified_hit hit_of
evidence_report cites = report_of (keep (λ c. qualified_hit (hit_of c)) cites)

-- `env` is the environment of the request.
unfoldable pub qualified_query : Unicode → Text → Text → Hit → Bool
unfolding qualified_hit lexical_anchor
qualified_query u env query h =
    if not (qualified_hit h) || not (lexical_anchor u query (h.doc ++ codes "\n" ++ h.snippet))
    then false
    else h.environment == []
      || h.environment == codes "unknown"
      || h.environment == codes "all"
      || h.environment == env
