-- ===== src/Examples/Searches.antt =====
-- A run of the ranking, with numbers for scores.
use ai_customer_support_plat.Prelude.{
  List, String, [], arith, false, leb, refl, some, true, ℕ, ◌+◌, ◌∷◌, ◌≡◌,
}
use ai_customer_support_plat.Retrieval.{
  RetrievedChunk, insert_chunk, ranked_score, rerank_chunks, sorted_chunks,
}
use ai_customer_support_plat.Retrieval.Ranking.{Best, rerank_chunks-Best}

abbrev chunk : String → ℕ → RetrievedChunk ℕ
chunk domain score = record { content = ""; source_path = ""; domain = domain; score = score }

abbrev chunks : List (RetrievedChunk ℕ)
chunks = chunk "billing" 80 ∷ chunk "general" 85 ∷ chunk "billing" 30 ∷ []

leb-total : (a b : ℕ) → leb a b ≡ false → leb b a ≡ true
leb-total a b h = ground arith

leb-transitive : (a b c : ℕ) → leb a b ≡ true → leb b c ≡ true → leb a c ≡ true
leb-transitive a b c h k = ground arith

-- the chunk of the domain comes first, as of its boost
boosted_first : rerank_chunks leb (λ n. n + 10) (some "billing") 1 chunks ≡ chunk "billing" 80 ∷ []
unfolding rerank_chunks sorted_chunks insert_chunk ranked_score
boosted_first = refl

rerank_chunks-Best_example :
    (left_out : List (RetrievedChunk ℕ)) × Best leb
      (λ n. n + 10)
      (some "billing")
      leb-total
      leb-transitive
      2
      chunks
      (rerank_chunks leb (λ n. n + 10) (some "billing") 2 chunks)
      left_out
rerank_chunks-Best_example =
    rerank_chunks-Best leb (λ n. n + 10) (some "billing") leb-total leb-transitive 2 chunks
