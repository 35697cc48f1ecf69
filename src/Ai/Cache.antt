-- ===== src/Ai/Cache.antt =====
-- apps/ai-orchestrator/src/tier1-qa: semantic-cache/redis-semantic-cache.service.ts and qa.service.ts.
use oneandro_clone.Prelude.{
  ℕ, ◌-◌, ◌*◌, String, Bool, true, false, not, Option, none, some, List, [], ◌∷◌, ◌++◌, ltb, any,
  filter, map, take, ◌==◌, if◌then◌else◌,
}
use oneandro_clone.Ai.Underwriting.{SimilarityResult}
use oneandro_clone.Ai.Cosine.{Floats, cosine_similarity}

-- The arithmetic of the language, and what the services call: the embeddings, the vector store and the
-- chat model.
pub record Models : Type 1 where
  pub floats : Floats
  pub embed_query : String → Option (List floats.Float)
  pub similarity_search : List floats.Float → ℕ → String → Option (List SimilarityResult)
  pub answer : String → List SimilarityResult → Option String

module _ (V : Models) where
  pub record CacheEntry : Type 0 where
    pub query : String
    pub answer : String
    pub embedding : List V.floats.Float
    pub cached_at : ℕ

  pub record SemanticCacheHit : Type 0 where
    pub answer : String
    pub score : V.floats.Float
    pub cached_at : ℕ

  -- The keys of one namespace: the ids of the index with their scores, the newest first, and the
  -- entries that have not expired.
  pub record Cache : Type 0 where
    pub index : List (ℕ × String)
    pub entries : String → Option CacheEntry

  pub record CacheConfig : Type 0 where
    pub ttl_seconds : ℕ
    pub similarity_threshold : V.floats.Float
    pub max_candidates : ℕ

  abbrev pub Best : Type 0
  Best = Option (CacheEntry × V.floats.Float)

  -- `!best || score > best.score`
  abbrev pub better : Best → CacheEntry → V.floats.Float → Best
  better none entry score = some (entry, score)
  better (some best) entry score =
      if V.floats.below best.1 score then some (entry, score) else some best

  -- The loop over the candidates, with the ids whose entries are gone.
  unfoldable pub scan :
      List V.floats.Float
      → (String → Option CacheEntry)
      → List (ℕ × String)
      → Best
      → List String
      → Best × List String
  scan q entries [] best stale = (best, stale)
  scan q entries (c ∷ cs) best stale = elim (entries c.1) [
    | none ↦ scan q entries cs best (stale ++ c.1 ∷ [])
    | some entry ↦
        scan q entries cs (better best entry (cosine_similarity V.floats q entry.embedding)) stale
  ]

  -- ZREMRANGEBYSCORE -inf (now - ttl)
  unfoldable pub prune : CacheConfig → ℕ → List (ℕ × String) → List (ℕ × String)
  prune cfg now index = filter (λ c. ltb (now - cfg.ttl_seconds * 1000) c.0) index

  unfoldable pub hit_of : CacheConfig → Best → Option SemanticCacheHit
  hit_of cfg none = none
  hit_of cfg (some best) =
      if V.floats.below best.1 cfg.similarity_threshold
      then none
      else some (record { answer = best.0.answer; score = best.1; cached_at = best.0.cached_at })

  -- `lookup` at the instant `now`; ZREM takes the ids that are gone off the index.
  unfoldable pub lookup :
      CacheConfig → ℕ → List V.floats.Float → Cache → Option SemanticCacheHit × Cache
  lookup cfg now q s =
      let index = prune cfg now s.index in
      let (best, stale) = scan q s.entries (take cfg.max_candidates index) none [] in
      (hit_of cfg best, record s { index = filter (λ c. not (any (λ id. id == c.1) stale)) index })

  -- `store`: SET and ZADD in one transaction, under a new id, at an instant that does not go back.
  unfoldable pub store : String → ℕ → String → String → List V.floats.Float → Cache → Cache
  store id now query answer embedding s = record {
    index = (now, id) ∷ s.index;
    entries = λ k.
        if id == k
        then some
            (record { query = query; answer = answer; embedding = embedding; cached_at = now })
        else s.entries k;
  }

  pub record QaAnswer : Type 0 where
    pub answer : String
    pub cache_hit : Bool
    pub sources : List String

  unfoldable pub ask_model :
      String → String → ℕ → List V.floats.Float → Cache → Option QaAnswer × Cache
  ask_model question id now q s = elim (V.similarity_search q 4 "policy:") [
    | none ↦ (none, s)
    | some chunks ↦ (elim (V.answer question chunks) [
      | none ↦ (none, s)
      | some text ↦ (
        some (record {
          answer = text;
          cache_hit = false;
          sources = map (λ (c : SimilarityResult). c.source) chunks;
        }),
        store id now question text q s,
      )
    ])
  ]

  abbrev pub answered :
      String
      → String
      → ℕ
      → List V.floats.Float
      → Option SemanticCacheHit × Cache
      → Option QaAnswer × Cache
  answered question id now q (some hit, s) =
      (some (record { answer = hit.answer; cache_hit = true; sources = [] }), s)
  answered question id now q (none, s) = ask_model question id now q s

  -- QaService.ask; a call of a model that throws is `none`.
  unfoldable pub ask : CacheConfig → String → String → ℕ → Cache → Option QaAnswer × Cache
  ask cfg question id now s = elim (V.embed_query question) [
    | none ↦ (none, s)
    | some q ↦ answered question id now q (lookup cfg now q s)
  ]
