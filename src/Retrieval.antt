-- ===== src/Retrieval.antt =====
-- app/retrieval: the ranking of the chunks that the vector index has found, the domains of the
-- documents, and the tool that searches (app/tools/knowledge_base/tools.py). The numbers of the scores
-- are given, with their comparison, the boost of 0.1 and their place in a payload; so is what the index
-- finds, nearest first.
pub mod Ranking
use ai_customer_support_plat.Prelude.{
  Bool, List, Option, String, [], false, if◌then◌else◌, none, nonempty, occurs_in, one_of, some,
  true, ℕ, ◌&&◌, ◌*◌, ◌==◌, ◌||◌, ◌∷◌,
}
use ai_customer_support_plat.Value.{Value, Items, nil, cons, obj, field, str, end, arr}
use ai_customer_support_plat.Tools.Rows.{take}

pub record RetrievedChunk (Score : Type 0) : Type 0 where
  pub content : String
  pub source_path : String
  pub domain : String
  pub score : Score

-- domain and chunk.domain == domain
abbrev pub in_domain : Option String → String → Bool
in_domain none d = false
in_domain (some domain) d = nonempty domain && d == domain

module _ {Score : Type 0} (at_most : Score → Score → Bool) (boosted : Score → Score) where
  -- the key of the sorting
  unfoldable pub ranked_score : Option String → RetrievedChunk Score → Score
  ranked_score domain chunk =
      if in_domain domain chunk.domain then boosted chunk.score else chunk.score

  -- a chunk that comes before others with the same score
  unfoldable pub insert_chunk :
      Option String
      → RetrievedChunk Score
      → List (RetrievedChunk Score)
      → List (RetrievedChunk Score)
  insert_chunk domain c [] = c ∷ []
  insert_chunk domain c (d ∷ ds) =
      let rest = insert_chunk domain c ds in
      if at_most (ranked_score domain d) (ranked_score domain c) then c ∷ d ∷ ds else d ∷ rest

  -- sorted(chunks, key=score, reverse=True), which keeps the order of equal scores
  unfoldable pub sorted_chunks :
      Option String → List (RetrievedChunk Score) → List (RetrievedChunk Score)
  unfolding insert_chunk
  sorted_chunks domain [] = []
  sorted_chunks domain (c ∷ cs) = insert_chunk domain c (sorted_chunks domain cs)

  -- `rerank_chunks`
  unfoldable pub rerank_chunks :
      Option String → ℕ → List (RetrievedChunk Score) → List (RetrievedChunk Score)
  unfolding sorted_chunks
  rerank_chunks domain top_k chunks = take top_k (sorted_chunks domain chunks)

  module _ (nearest : String → Option String → ℕ → List (RetrievedChunk Score)) where
    -- `KnowledgeRetriever.search`
    unfoldable pub search : String → Option String → ℕ → List (RetrievedChunk Score)
    unfolding rerank_chunks
    search query domain top_k = rerank_chunks domain top_k (nearest query domain (top_k * 2))

    abbrev chunk_items : (Score → Value) → List (RetrievedChunk Score) → Items
    chunk_items number [] = nil
    chunk_items number (c ∷ cs) =
        cons
          (obj (
            field "content" (str c.content) (
              field "source_path" (str c.source_path)
                (field "domain" (str c.domain) (field "score" (number c.score) end)))))
          (chunk_items number cs)

    -- `search_knowledge_base`, with a retriever in the context or without one
    unfoldable pub search_knowledge_base : (Score → Value) → Bool → String → String → Value
    unfolding search
    search_knowledge_base number false query domain =
        arr (cons (obj (field "error" (str "Knowledge base context not configured") end)) nil)
    search_knowledge_base number true query domain =
        arr (chunk_items number (search query (some domain) 3))

-- `infer_domain`, of the path in small letters
unfoldable pub infer_domain : String → String
infer_domain posix =
    if occurs_in "/policies/refund" posix
      || occurs_in "/policies/payment" posix
      || occurs_in "/faq/payments" posix
    then "billing"
    else if occurs_in "/policies/warranty" posix
    then "billing"
    else if occurs_in "/policies/shipping" posix
        || occurs_in "/policies/return" posix
        || occurs_in "/faq/shipping" posix
        || occurs_in "/faq/returns" posix
    then "logistics"
    else if occurs_in "/policies/account" posix || occurs_in "/procedures/identity" posix
    then "account"
    else if occurs_in "/procedures/refund" posix
    then "billing"
    else "general"

-- `should_ingest`, of the parts of the path
unfoldable pub should_ingest : List String → Bool → Bool
should_ingest parts include_injection =
    if one_of "_eval_injection" parts then include_injection else true
