-- ===== src/Retrieval/Ranking.antt =====
-- What the ranking keeps and drops.
use mathlib.Core.Option.{some-injective}
use ai_customer_support_plat.Prelude.{
  Bool, Bool-cases, List, Option, String, [], ap, arith, eq_iff, false, if◌then◌else◌, inl, inr,
  length, none, nonempty, refl, some, suc, sym, true, true_not_false, zero, ℕ, ◌&&◌, ◌+◌, ◌==◌, ◌∙◌,
  ◌∷◌, ◌≡◌, ◌≢◌, ◌≤◌,
}
use ai_customer_support_plat.Tools.Rows.{
  AllPass, AllPass-drop, AllPass-take, AllPass-weaken, count, drop, length-take, take,
}
use ai_customer_support_plat.Retrieval.{
  RetrievedChunk, in_domain, insert_chunk, ranked_score, rerank_chunks, sorted_chunks,
}

-- The score by which a chunk is ranked: with the boost, if its domain is the one that is asked for.
pub data IsRank {Score : Type 0} (boosted : Score → Score) (domain : Option String)
    (c : RetrievedChunk Score) : Score → Type 0 where
  in_asked :
      (d : String)
      → domain ≡ some d
      → d ≢ ""
      → c.domain ≡ d
      → IsRank boosted domain c (boosted c.score)
  elsewhere :
      ((d : String) → domain ≡ some d → d ≢ "" → c.domain ≢ d) → IsRank boosted domain c c.score

module _ {Score : Type 0} (at_most : Score → Score → Bool) (boosted : Score → Score)
    (domain : Option String) (total : (a b : Score) → at_most a b ≡ false → at_most b a ≡ true)
    (transitive : (a b c : Score)
      → at_most a b ≡ true
      → at_most b c ≡ true
      → at_most a c ≡ true) where
  abbrev Chunks : Type 0
  Chunks = List (RetrievedChunk Score)

  ranked_score-IsRank :
      (c : RetrievedChunk Score) → IsRank boosted domain c (ranked_score at_most boosted domain c)
  unfolding ranked_score
  ranked_score-IsRank c = go domain refl
    where
      by_domain :
          (d : String)
          → domain ≡ some d
          → IsRank boosted domain c
              (if nonempty d && c.domain == d then boosted c.score else c.score)
      by_domain String.[] e = elsewhere (λ f h n k. n (some-injective f String.[] (sym h ∙ e)))
      by_domain (String.◌∷◌ a s) e = elim (Bool-cases (c.domain == String.◌∷◌ a s)) [
        | inl h ↦
            rw h (in_asked (String.◌∷◌ a s) e (λ k. cc) ((eq_iff c.domain (String.◌∷◌ a s)).0 h))
        | inr h ↦ rw h (
            elsewhere (λ f g n k.
              true_not_false
                ((eq_iff c.domain (String.◌∷◌ a s)).1
                  (k ∙ some-injective f (String.◌∷◌ a s) (sym g ∙ e)))
                h))
      ]

      go :
          (o : Option String)
          → domain ≡ o
          → IsRank boosted domain c (if in_domain o c.domain then boosted c.score else c.score)
      go none e = elsewhere (λ f h. cc)
      go (some d) e = by_domain d e

  -- a chunk that is ranked no higher than another
  abbrev pub Below : RetrievedChunk Score → RetrievedChunk Score → Type 0
  Below low high =
      at_most (ranked_score at_most boosted domain low) (ranked_score at_most boosted domain high)
      ≡ true

  -- Each chunk is ranked no lower than all that follow.
  abbrev pub IsDescending : List (RetrievedChunk Score) → Type 0
  IsDescending [] = Unit
  IsDescending (c ∷ cs) = AllPass (λ d. Below d c) cs × IsDescending cs

  insert_chunk-AllPass :
      (P : RetrievedChunk Score → Type 0) (c : RetrievedChunk Score) (cs : Chunks)
      → P c
      → AllPass P cs
      → AllPass P (insert_chunk at_most boosted domain c cs)
  unfolding insert_chunk
  insert_chunk-AllPass P c [] p h = (p, tt)
  insert_chunk-AllPass P c (d ∷ ds) p h =
      elim (Bool-cases
        (at_most (ranked_score at_most boosted domain d) (ranked_score at_most boosted domain c))) [
          | inl e ↦ rw e (p, h)
          | inr e ↦ rw e (h.0, insert_chunk-AllPass P c ds p h.1)
        ]

  insert_chunk-IsDescending :
      (c : RetrievedChunk Score) (cs : Chunks)
      → IsDescending cs
      → IsDescending (insert_chunk at_most boosted domain c cs)
  unfolding insert_chunk
  insert_chunk-IsDescending c [] h = (tt, tt)
  insert_chunk-IsDescending c (d ∷ ds) h =
      elim (Bool-cases
        (at_most (ranked_score at_most boosted domain d) (ranked_score at_most boosted domain c))) [
          | inl e ↦ rw e (
            (
              e,
              AllPass-weaken (λ x. Below x d) (λ x. Below x c) ds (λ x k. transitive _ _ _ k e) h.0,
            ),
            h,
          )
          | inr e ↦ rw e (
            insert_chunk-AllPass (λ x. Below x d) c ds (total _ _ e) h.0,
            insert_chunk-IsDescending c ds h.1,
          )
        ]

  sorted_chunks-IsDescending :
      (cs : Chunks) → IsDescending (sorted_chunks at_most boosted domain cs)
  unfolding sorted_chunks
  sorted_chunks-IsDescending [] = tt
  sorted_chunks-IsDescending (c ∷ cs) =
      insert_chunk-IsDescending c (sorted_chunks at_most boosted domain cs)
        (sorted_chunks-IsDescending cs)

  insert_chunk-count :
      (test : RetrievedChunk Score → Bool) (c : RetrievedChunk Score) (cs : Chunks)
      → count test (insert_chunk at_most boosted domain c cs) ≡ count test (c ∷ cs)
  unfolding insert_chunk
  insert_chunk-count test c [] = refl
  insert_chunk-count test c (d ∷ ds) =
      elim (Bool-cases
        (at_most (ranked_score at_most boosted domain d) (ranked_score at_most boosted domain c))) [
          | inl e ↦ rw e refl
          | inr e ↦ rw e (ground (arith, insert_chunk-count test c ds))
        ]

  sorted_chunks-count :
      (test : RetrievedChunk Score → Bool) (cs : Chunks)
      → count test (sorted_chunks at_most boosted domain cs) ≡ count test cs
  unfolding sorted_chunks
  sorted_chunks-count test [] = refl
  sorted_chunks-count test (c ∷ cs) =
      insert_chunk-count test c (sorted_chunks at_most boosted domain cs)
      ∙ ground (arith, sorted_chunks-count test cs)

  IsDescending-take : (n : ℕ) (cs : Chunks) → IsDescending cs → IsDescending (take n cs)
  IsDescending-take n [] h = tt
  IsDescending-take zero (c ∷ cs) h = tt
  IsDescending-take (suc n) (c ∷ cs) h =
      (AllPass-take (λ d. Below d c) n cs h.0, IsDescending-take n cs h.1)

  AllPass-any : (cs : Chunks) → AllPass (λ d. Unit {0}) cs
  AllPass-any [] = tt
  AllPass-any (c ∷ cs) = (tt, AllPass-any cs)

  both :
      (P Q : RetrievedChunk Score → Type 0) (cs : Chunks)
      → AllPass P cs
      → AllPass Q cs
      → AllPass (λ d. P d × Q d) cs
  both P Q [] p q = tt
  both P Q (c ∷ cs) p q = ((p.0, q.0), both P Q cs p.1 q.1)

  dropped-Below :
      (n : ℕ) (cs : Chunks)
      → IsDescending cs
      → AllPass (λ d. AllPass (λ c. Below d c) (take n cs)) (drop n cs)
  dropped-Below n [] h = tt
  dropped-Below zero (c ∷ cs) h = AllPass-any (c ∷ cs)
  dropped-Below (suc n) (c ∷ cs) h =
      both (λ d. Below d c) (λ d. AllPass (λ e. Below d e) (take n cs)) (drop n cs)
        (AllPass-drop (λ d. Below d c) n cs h.0) (dropped-Below n cs h.1)

  take-drop-count :
      (test : RetrievedChunk Score → Bool) (n : ℕ) (cs : Chunks)
      → count test (take n cs) + count test (drop n cs) ≡ count test cs
  take-drop-count test n [] = refl
  take-drop-count test zero (c ∷ cs) = omega arith
  take-drop-count test (suc n) (c ∷ cs) = ground (arith, take-drop-count test n cs)

  full_take : (n : ℕ) (cs : Chunks) → drop n cs ≢ [] → length (take n cs) ≡ n
  full_take n [] h = absurd (h refl)
  full_take zero (c ∷ cs) h = refl
  full_take (suc n) (c ∷ cs) h = ap suc (full_take n cs h)

  -- A result of the ranking, and what it leaves out.
  pub record Best (top_k : ℕ) (chunks out left_out : List (RetrievedChunk Score)) : Type 0 where
    pub rank :
        (c : RetrievedChunk Score) → IsRank boosted domain c (ranked_score at_most boosted domain c)
    pub same :
        (test : RetrievedChunk Score → Bool)
        → count test out + count test left_out ≡ count test chunks
    pub few : length out ≤ top_k
    pub full : left_out ≢ [] → length out ≡ top_k
    pub descending : IsDescending out
    pub best : AllPass (λ d. AllPass (λ c. Below d c) out) left_out

  -- Given that scores are compared by a total order: the ranking splits the chunks into its result and
  -- those that it leaves out, so that each chunk is in one of them as often as it was found; a chunk
  -- is ranked by its score, and by its boosted score if a domain is asked for and is the chunk's; the
  -- result is in descending order of these ranks, and none that is left out is ranked higher than one
  -- of the result; the result has at most `top_k` chunks, and as many if any is left
  -- out.
  pub rerank_chunks-Best :
      (top_k : ℕ) (chunks : List (RetrievedChunk Score))
      → (left_out : List (RetrievedChunk Score)) × Best top_k chunks
          (rerank_chunks at_most boosted domain top_k chunks)
          left_out
  unfolding rerank_chunks
  rerank_chunks-Best top_k chunks =
      let found = sorted_chunks at_most boosted domain chunks in
      (
        drop top_k found,
        record {
          rank = ranked_score-IsRank;
          same = λ test. take-drop-count test top_k found ∙ sorted_chunks-count test chunks;
          few = length-take top_k found;
          full = full_take top_k found;
          descending = IsDescending-take top_k found (sorted_chunks-IsDescending chunks);
          best = dropped-Below top_k found (sorted_chunks-IsDescending chunks);
        },
      )
