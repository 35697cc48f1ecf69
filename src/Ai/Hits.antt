-- ===== src/Ai/Hits.antt =====
-- What the semantic cache answers.
use oneandro_clone.Prelude.{
  ℕ, String, ◌≡◌, refl, inl, inr, false, Option, none, some, List, [], ◌∷◌, ◌++◌, arith, take,
  Bool-cases, Option-cases,
}
use oneandro_clone.Ai.Cosine.{cosine_similarity}
use oneandro_clone.Ai.Cache.{
  Models, CacheEntry, SemanticCacheHit, Cache, CacheConfig, Best, better, scan, prune, hit_of,
  lookup,
}

module _ (V : Models) (q : List V.floats.Float) (entries : String → Option (CacheEntry V)) where
  -- An entry of the cache with its similarity to the question.
  abbrev pub IsFrom : CacheEntry V × V.floats.Float → Type 0
  IsFrom b =
      (id : String) × (entries id ≡ some b.0) × (b.1 ≡ cosine_similarity V.floats q b.0.embedding)

  abbrev pub BestIsFrom : Best V → Type 0
  BestIsFrom none = Unit {0}
  BestIsFrom (some b) = IsFrom b

  better-BestIsFrom :
      (best : Best V) (id : String) (entry : CacheEntry V)
      → entries id ≡ some entry
      → BestIsFrom best
      → BestIsFrom (better V best entry (cosine_similarity V.floats q entry.embedding))
  better-BestIsFrom none id entry stored v = (id, stored, refl)
  better-BestIsFrom (some b) id entry stored v =
      elim (Bool-cases (V.floats.below b.1 (cosine_similarity V.floats q entry.embedding))) [
        | inl more ↦ rw more (id, stored, refl)
        | inr less ↦ rw less v
      ]

  scan-BestIsFrom :
      (cs : List (ℕ × String)) (best : Best V) (stale : List String)
      → BestIsFrom best
      → BestIsFrom (scan V q entries cs best stale).0
  unfolding scan
  scan-BestIsFrom [] best stale v = v
  scan-BestIsFrom (c ∷ cs) best stale v = elim (Option-cases (entries c.1)) [
    | inl gone ↦ rw (gone, scan) (scan-BestIsFrom cs best (stale ++ c.1 ∷ []) v)
    | inr (entry, stored) ↦
        rw (stored, scan)
          (scan-BestIsFrom cs (better V best entry (cosine_similarity V.floats q entry.embedding))
            stale (better-BestIsFrom best c.1 entry stored v))
  ]

  hit_of-stored :
      (cfg : CacheConfig V) (best : Best V) (hit : SemanticCacheHit V)
      → BestIsFrom best
      → hit_of V cfg best ≡ some hit
      → (id : String) × (entry : CacheEntry V) × (entries id ≡ some entry)
        × (hit.answer ≡ entry.answer)
        × (hit.score ≡ cosine_similarity V.floats q entry.embedding)
        × (V.floats.below hit.score cfg.similarity_threshold ≡ false)
  unfolding hit_of
  hit_of-stored cfg none hit v h = cc
  hit_of-stored cfg (some b) hit (id, stored, scored) h =
      (id, b.0, stored, ground arith, ground arith, ground arith)

module _ (V : Models) where
  -- An answer of the cache is that of an entry which the cache holds, and the score of the hit is the
  -- similarity of that entry to the question, which is not below the threshold.
  pub lookup-stored :
      (cfg : CacheConfig V) (now : ℕ) (q : List V.floats.Float) (s : Cache V)
      (hit : SemanticCacheHit V)
      → (lookup V cfg now q s).0 ≡ some hit
      → (id : String) × (entry : CacheEntry V) × (s.entries id ≡ some entry)
        × (hit.answer ≡ entry.answer)
        × (hit.score ≡ cosine_similarity V.floats q entry.embedding)
        × (V.floats.below hit.score cfg.similarity_threshold ≡ false)
  unfolding lookup
  lookup-stored cfg now q s hit h =
      hit_of-stored V q s.entries cfg
        (scan V q s.entries (take cfg.max_candidates (prune V cfg now s.index)) none []).0 hit
        (scan-BestIsFrom V q s.entries (take cfg.max_candidates (prune V cfg now s.index)) none []
          tt)
        h
