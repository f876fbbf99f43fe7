-- ===== src/Retrieval/Index/Mirror.antt =====
-- The index compared with its documents: the frequencies and the total.
use oncall_agent.Prelude.{
  ℕ, suc, ◌+◌, ◌-◌, Bool, false, ◌&&◌, none, some, List, [], ◌∷◌, ◌++◌, Text, codes, if◌then◌else◌,
  leb, ◌==◌, text_eq, text_beq_iff, has, lookup, insert, delete, keys, ◌≡◌, refl, arith, All,
  Distinct, any, insert-Distinct, delete-Distinct, lookup-insert, lookup-delete, lookup-eq-none_iff,
  Option-cases, Bool-cases, inl, inr, All-insert, All-lookup, sym, ◌∙◌, if_elim,
}
use oncall_agent.Retrieval.Anchor.{Unicode}
use oncall_agent.Retrieval.Index.{
  Doc, Index, count_of, increment, term_counts, take_back, add_terms, retract, new_doc, put_doc,
  upsert, remove, remove_all, delete_doc, delete_source, tokenize,
}

pub one : Bool → ℕ
one b = if b then 1 else 0

-- The sum of a number over the documents.
pub total : (Doc → ℕ) → List (Text × Doc) → ℕ
total f [] = 0
total f ((id, d) ∷ m) = f d + total f m

pub has_term : Text → Doc → ℕ
unfolding one
has_term t d = one (has t (keys d.tf))

-- A term's frequency is the number of the documents that have it, and no term is kept that none has;
-- the total length is the sum of the documents' lengths.
pub record IsMirror (b : Index) : Type 0 where
  pub keyed : Distinct (keys b.docs)
  pub terms : All (λ e. Distinct (keys e.1.tf)) b.docs
  pub df : (t : Text) → count_of (lookup t b.df) ≡ total (has_term t) b.docs
  pub positive : (t : Text) → lookup t b.df ≡ some 0 → ⊥
  pub tot_len : b.tot_len ≡ total (λ d. d.length) b.docs

total-insert_new :
    (f : Doc → ℕ) (id : Text) (d : Doc) (m : List (Text × Doc))
    → lookup id m ≡ none
    → total f (insert id d m) ≡ total f m + f d
unfolding total
total-insert_new f id d [] h = omega arith
total-insert_new f id d ((j, w) ∷ m) h = ground (arith, total-insert_new f id d m)

total-insert_old :
    (f : Doc → ℕ) (id : Text) (d old : Doc) (m : List (Text × Doc))
    → lookup id m ≡ some old
    → total f (insert id d m) + f old ≡ total f m + f d
unfolding total
total-insert_old f id d old [] h = cc
total-insert_old f id d old ((j, w) ∷ m) h = ground (arith, total-insert_old f id d old m)

total-delete_none :
    (f : Doc → ℕ) (id : Text) (m : List (Text × Doc))
    → has id (keys m) ≡ false
    → total f (delete id m) ≡ total f m
unfolding total
total-delete_none f id [] h = refl
total-delete_none f id ((j, w) ∷ m) h = ground (arith, total-delete_none f id m)

total-delete_old :
    (f : Doc → ℕ) (id : Text) (old : Doc) (m : List (Text × Doc))
    → Distinct (keys m)
    → lookup id m ≡ some old
    → total f (delete id m) + f old ≡ total f m
unfolding total
total-delete_old f id old [] k h = cc
total-delete_old f id old ((j, w) ∷ m) k h =
    ground (arith, total-delete_old f id old m k.1, total-delete_none f j m k.0, text_beq_iff j id)

take_back-count :
    (ts : List Text) (df : List (Text × ℕ)) (t : Text)
    → Distinct ts
    → count_of (lookup t (take_back ts df)) ≡ count_of (lookup t df) - one (has t ts)
unfolding take_back one
take_back-count [] df t d = omega arith
take_back-count (x ∷ ts) df t d =
    let n = count_of (lookup x df) in
    ground (
      arith,
      take_back-count ts (delete x df) t d.1,
      take_back-count ts (insert x (n - 1) df) t d.1,
      lookup-delete x t df,
      lookup-insert x t (n - 1) df,
      text_beq_iff x t,
      d.0,
    )

add_terms-count :
    (ts : List Text) (df : List (Text × ℕ)) (t : Text)
    → Distinct ts
    → count_of (lookup t (add_terms ts df)) ≡ count_of (lookup t df) + one (has t ts)
unfolding add_terms one
add_terms-count [] df t d = omega arith
add_terms-count (x ∷ ts) df t d =
    let n = suc (count_of (lookup x df)) in
    ground (
      arith,
      add_terms-count ts (insert x n df) t d.1,
      lookup-insert x t n df,
      text_beq_iff x t,
      d.0,
    )

abbrev ArePositive : List (Text × ℕ) → Type 0
ArePositive df = (t : Text) → lookup t df ≡ some 0 → ⊥

take_back-ArePositive :
    (ts : List Text) (df : List (Text × ℕ)) → ArePositive df → ArePositive (take_back ts df)
unfolding take_back
take_back-ArePositive [] df h = h
take_back-ArePositive (x ∷ ts) df h =
    let n = count_of (lookup x df) in
    elim (Bool-cases (leb n 1)) [
      | inl last ↦ rw last (
          take_back-ArePositive ts (delete x df)
            (λ t e. h t (ground (arith, e, lookup-delete x t df))))
      | inr more ↦ rw more (
          take_back-ArePositive ts (insert x (n - 1) df)
            (λ t e. ground (arith, e, h t, lookup-insert x t (n - 1) df)))
    ]

add_terms-ArePositive :
    (ts : List Text) (df : List (Text × ℕ)) → ArePositive df → ArePositive (add_terms ts df)
unfolding add_terms
add_terms-ArePositive [] df h = h
add_terms-ArePositive (x ∷ ts) df h =
    let n = suc (count_of (lookup x df)) in
    add_terms-ArePositive ts (insert x n df) (λ t e. ground (arith, e, h t, lookup-insert x t n df))

term_counts-Distinct :
    (ts : List Text) (tf : List (Text × ℕ))
    → Distinct (keys tf)
    → Distinct (keys (term_counts ts tf))
unfolding term_counts
term_counts-Distinct [] tf d = d
term_counts-Distinct (t ∷ ts) tf d =
    term_counts-Distinct ts (increment t tf) (insert-Distinct t _ tf d)

All-delete :
    (id : Text) (m : List (Text × Doc))
    → All (λ e. Distinct (keys e.1.tf)) m
    → All (λ e. Distinct (keys e.1.tf)) (delete id m)
All-delete id [] h = tt
All-delete id ((j, w) ∷ m) h = ground (arith, All-delete id m h.1)

put_doc-IsMirror :
    (id : Text) (d : Doc) (b : Index)
    → Distinct (keys d.tf)
    → IsMirror b
    → IsMirror (put_doc id d b)
unfolding put_doc retract has_term
put_doc-IsMirror id d b k h = elim (Option-cases (lookup id b.docs)) [
  | inl e ↦ rw e (record {
    keyed = insert-Distinct id d b.docs h.keyed;
    terms = All-insert (λ (e : Text × Doc). Distinct (keys e.1.tf)) id d b.docs k h.terms;
    df = λ t. omega (
      arith,
      add_terms-count (keys d.tf) b.df t k,
      h.df t,
      total-insert_new (has_term t) id d b.docs e,
    );
    positive = add_terms-ArePositive (keys d.tf) b.df h.positive;
    tot_len = omega (arith, h.tot_len, total-insert_new (λ d. d.length) id d b.docs e);
  })
  | inr (old, e) ↦
      let ko : Distinct (keys old.tf) =
        All-lookup (λ (x : Text × Doc). Distinct (keys x.1.tf)) id old b.docs e h.terms in
      let df = take_back (keys old.tf) b.df in
      rw e (record {
        keyed = insert-Distinct id d b.docs h.keyed;
        terms = All-insert (λ (e : Text × Doc). Distinct (keys e.1.tf)) id d b.docs k h.terms;
        df = λ t. omega (
          arith,
          add_terms-count (keys d.tf) df t k,
          take_back-count (keys old.tf) b.df t ko,
          h.df t,
          total-insert_old (has_term t) id d old b.docs e,
          total-delete_old (has_term t) id old b.docs h.keyed e,
        );
        positive =
            add_terms-ArePositive (keys d.tf) df
              (take_back-ArePositive (keys old.tf) b.df h.positive);
        tot_len = omega (
          arith,
          h.tot_len,
          total-insert_old (λ d. d.length) id d old b.docs e,
          total-delete_old (λ d. d.length) id old b.docs h.keyed e,
        );
      })
]

remove-IsMirror : (id : Text) (b : Index) → IsMirror b → IsMirror (remove id b)
unfolding remove retract has_term
remove-IsMirror id b h = elim (Option-cases (lookup id b.docs)) [
  | inl e ↦
      let gone : has id (keys b.docs) ≡ false = (lookup-eq-none_iff id b.docs).0 e in
      rw e (record {
        keyed = delete-Distinct id b.docs h.keyed;
        terms = All-delete id b.docs h.terms;
        df = λ t. h.df t ∙ sym (total-delete_none (has_term t) id b.docs gone);
        positive = h.positive;
        tot_len = h.tot_len ∙ sym (total-delete_none (λ d. d.length) id b.docs gone);
      })
  | inr (old, e) ↦
      let ko : Distinct (keys old.tf) =
        All-lookup (λ (x : Text × Doc). Distinct (keys x.1.tf)) id old b.docs e h.terms in
      rw e (record {
        keyed = delete-Distinct id b.docs h.keyed;
        terms = All-delete id b.docs h.terms;
        df = λ t. omega (
          arith,
          take_back-count (keys old.tf) b.df t ko,
          h.df t,
          total-delete_old (has_term t) id old b.docs h.keyed e,
        );
        positive = take_back-ArePositive (keys old.tf) b.df h.positive;
        tot_len =
            omega (arith, h.tot_len, total-delete_old (λ d. d.length) id old b.docs h.keyed e);
      })
]

remove_all-IsMirror :
    (p : Doc → Bool) (ds : List (Text × Doc)) (b : Index)
    → IsMirror b
    → IsMirror (remove_all p ds b)
unfolding remove_all
remove_all-IsMirror p [] b h = h
remove_all-IsMirror p ((id, d) ∷ ds) b h =
    remove_all-IsMirror p ds (if p d then remove id b else b)
      (if_elim IsMirror (p d) _ _ (remove-IsMirror id b h) h)

-- One operation on the index; an upsert has the id, the document's name, the title, the snippet and
-- the source.
pub data Edit : Type 0 where
  puts : Text → Text → Text → Text → Text → Edit
  drops_doc : Text → Edit
  drops_source : Text → Edit

unfoldable pub edit : Unicode → Index → List Edit → Index
edit u b [] = b
edit u b (puts id doc title snippet source ∷ es) =
    edit u (upsert u id doc title snippet source b) es
edit u b (drops_doc doc ∷ es) = edit u (delete_doc doc b) es
edit u b (drops_source source ∷ es) = edit u (delete_source source b) es

edit-keeps : (u : Unicode) (b : Index) (es : List Edit) → IsMirror b → IsMirror (edit u b es)
unfolding edit upsert new_doc delete_doc delete_source
edit-keeps u b [] h = h
edit-keeps u b (puts id doc title snippet source ∷ es) h =
    edit-keeps u (upsert u id doc title snippet source b) es (
      put_doc-IsMirror id (new_doc u doc title snippet source) b
        (term_counts-Distinct (tokenize u (title ++ codes "\n" ++ snippet)) [] tt) h)
edit-keeps u b (drops_doc doc ∷ es) h =
    edit-keeps u (delete_doc doc b) es (remove_all-IsMirror (λ d. d.doc == doc) b.docs b h)
edit-keeps u b (drops_source source ∷ es) h =
    edit-keeps u (delete_source source b) es
      (remove_all-IsMirror (λ d. d.source == source) b.docs b h)

abbrev pub no_docs : Index
no_docs = record { docs = []; df = []; tot_len = 0 }

-- After any sequence of upserts and deletions from the empty index, the frequency of every term is the
-- number of the documents that have it, no term stays that none has, and the total length is the sum
-- of the documents' lengths.
pub edit-IsMirror : (u : Unicode) (es : List Edit) → IsMirror (edit u no_docs es)
unfolding total
edit-IsMirror u es = edit-keeps u no_docs es (record {
  keyed = tt;
  terms = tt;
  df = λ t. refl;
  positive = λ t e. absurd (ground arith);
  tot_len = refl;
})

remove-docs : (id : Text) (b : Index) → (remove id b).docs ≡ delete id b.docs
unfolding remove retract
remove-docs id b = ground arith

-- Whether the list has an entry with the id that is to go.
abbrev goes : (Doc → Bool) → Text → List (Text × Doc) → Bool
goes p id = any (λ e. e.0 == id && p e.1)

remove_all-lookup :
    (p : Doc → Bool) (ds : List (Text × Doc)) (b : Index) (id : Text)
    → lookup id (remove_all p ds b).docs ≡ (if goes p id ds then none else lookup id b.docs)
unfolding remove_all
remove_all-lookup p [] b id = refl
remove_all-lookup p ((j, d) ∷ ds) b id = ground (
  arith,
  remove_all-lookup p ds b id,
  remove_all-lookup p ds (remove j b) id,
  remove-docs j b,
  lookup-delete j id b.docs,
  text_beq_iff j id,
)

goes-lookup_none :
    (p : Doc → Bool) (id : Text) (m : List (Text × Doc))
    → has id (keys m) ≡ false
    → goes p id m ≡ false
goes-lookup_none p id [] h = refl
goes-lookup_none p id ((j, w) ∷ m) h = ground (arith, goes-lookup_none p id m)

goes-lookup :
    (p : Doc → Bool) (id : Text) (d : Doc) (m : List (Text × Doc))
    → Distinct (keys m)
    → lookup id m ≡ some d
    → goes p id m ≡ p d
goes-lookup p id d [] k h = cc
goes-lookup p id d ((j, w) ∷ m) k h =
    ground (arith, goes-lookup p id d m k.1, goes-lookup_none p id m, text_beq_iff j id, k.0)

-- A deletion of a document's name removes exactly the entries of that name, and a deletion of a source
-- exactly those of that source: an entry of a mirror is found afterwards if it is another's, and it is
-- unchanged.
pub delete-lookup :
    (b : Index) (id name : Text) (d : Doc)
    → IsMirror b
    → lookup id b.docs ≡ some d
    → (lookup id (delete_doc name b).docs ≡ (if d.doc == name then none else some d))
      × (lookup id (delete_source name b).docs ≡ (if d.source == name then none else some d))
unfolding delete_doc delete_source
delete-lookup b id name d h e = (
  ground (
    arith,
    e,
    remove_all-lookup (λ d. d.doc == name) b.docs b id,
    goes-lookup (λ d. d.doc == name) id d b.docs h.keyed e,
  ),
  ground (
    arith,
    e,
    remove_all-lookup (λ d. d.source == name) b.docs b id,
    goes-lookup (λ d. d.source == name) id d b.docs h.keyed e,
  ),
)
