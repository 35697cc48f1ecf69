-- ===== src/Ai/Best.antt =====
-- The winner of a lookup in the semantic cache, and answers that were stored.
use oneandro_clone.Prelude.{
  ℕ, zero, suc, ◌-◌, ◌*◌, ◌<◌, String, ◌≡◌, refl, sym, ◌∙◌, inl, inr, true, false, Option, none,
  some, List, [], ◌∷◌, ◌++◌, ◌==◌, ◌⊎◌, ap, arith, take, filter, ltb, All, eq_refl, Bool-cases,
  Option-cases,
}
use oneandro_clone.Ai.Cosine.{cosine_similarity}
use oneandro_clone.Ai.Cache.{
  Models, CacheEntry, SemanticCacheHit, Cache, CacheConfig, Best, better, scan, prune, hit_of,
  lookup, store,
}

module _ (V : Models) where
  -- The score of the best entry so far is not below this one.
  abbrev pub AtLeast : V.floats.Float → Best V → Type 0
  AtLeast x none = ⊥
  AtLeast x (some b) = V.floats.below b.1 x ≡ false

  not_below_later :
      (a b x : V.floats.Float)
      → V.floats.below a b ≡ true
      → V.floats.below a x ≡ false
      → V.floats.below b x ≡ false
  not_below_later a b x more less = elim (Bool-cases (V.floats.below b x)) [
    | inr good ↦ good
    | inl bad ↦ cc (sym less ∙ V.floats.below-trans a b x more bad)
  ]

  better-keeps :
      (best : Best V) (entry : CacheEntry V) (score x : V.floats.Float)
      → AtLeast x best
      → AtLeast x (better V best entry score)
  better-keeps none entry score x h = elim h [ ]
  better-keeps (some b) entry score x h = elim (Bool-cases (V.floats.below b.1 score)) [
    | inl more ↦ rw more (not_below_later b.1 score x more h)
    | inr less ↦ rw less h
  ]

  better-new :
      (best : Best V) (entry : CacheEntry V) (score : V.floats.Float)
      → AtLeast score (better V best entry score)
  better-new none entry score = V.floats.below-irrefl score
  better-new (some b) entry score = elim (Bool-cases (V.floats.below b.1 score)) [
    | inl more ↦ rw more (V.floats.below-irrefl score)
    | inr less ↦ rw less less
  ]

  module _ (q : List V.floats.Float) (entries : String → Option (CacheEntry V)) where
    scan-keeps :
        (cs : List (ℕ × String)) (best : Best V) (stale : List String) (x : V.floats.Float)
        → AtLeast x best
        → AtLeast x (scan V q entries cs best stale).0
    unfolding scan
    scan-keeps [] best stale x h = h
    scan-keeps (c ∷ cs) best stale x h = elim (Option-cases (entries c.1)) [
      | inl gone ↦ rw (gone, scan) (scan-keeps cs best (stale ++ c.1 ∷ []) x h)
      | inr (entry, stored) ↦
          rw (stored, scan)
            (scan-keeps cs (better V best entry (cosine_similarity V.floats q entry.embedding))
              stale x (better-keeps best entry (cosine_similarity V.floats q entry.embedding) x h))
    ]

    -- The entry of this id, if it has not expired, is no better than this.
    abbrev pub IsBeaten : Best V → Option (CacheEntry V) → Type 0
    IsBeaten best none = Unit {0}
    IsBeaten best (some entry) = AtLeast (cosine_similarity V.floats q entry.embedding) best

    scan-beats :
        (cs : List (ℕ × String)) (best out : Best V) (stale : List String)
        → (scan V q entries cs best stale).0 ≡ out
        → All (λ c. IsBeaten out (entries c.1)) cs
    unfolding scan
    scan-beats [] best out stale e = tt
    scan-beats (c ∷ cs) best out stale e = elim (Option-cases (entries c.1)) [
      | inl gone ↦ (rw gone tt, scan-beats cs best out (stale ++ c.1 ∷ []) (rw (gone, scan) at e))
      | inr (entry, stored) ↦
          let score = cosine_similarity V.floats q entry.embedding in
          let rest : (scan V q entries cs (better V best entry score) stale).0 ≡ out =
            rw (stored, scan) at e in
          (
            rw (stored, ← rest)
                (scan-keeps cs (better V best entry score) stale score
                  (better-new best entry score)),
            scan-beats cs (better V best entry score) out stale rest,
          )
    ]

  better-from :
      (best : Best V) (entry : CacheEntry V) (score : V.floats.Float)
      (b : CacheEntry V × V.floats.Float)
      → better V best entry score ≡ some b
      → (best ≡ some b) ⊎ ((entry.answer ≡ b.0.answer) × (score ≡ b.1))
  better-from none entry score b h =
      let same : (entry, score) ≡ b = cc in inr (ap (λ x. x.0.answer) same, ap (λ x. x.1) same)
  better-from (some old) entry score b h = elim (Bool-cases (V.floats.below old.1 score)) [
    | inr less ↦ inl (rw less at h)
    | inl more ↦
        let same : (entry, score) ≡ b = cc (rw more at h) in
        inr (ap (λ x. x.0.answer) same, ap (λ x. x.1) same)
  ]

  -- This answer is that of an entry, and this score the similarity of its question.
  abbrev pub IsOf : List V.floats.Float → String → V.floats.Float → Option (CacheEntry V) → Type 0
  IsOf q answer score none = ⊥
  IsOf q answer score (some entry) =
      (entry.answer ≡ answer) × (cosine_similarity V.floats q entry.embedding ≡ score)

  -- They are those of one of the ids of a list.
  abbrev pub IsOfOne :
      List V.floats.Float
      → (String → Option (CacheEntry V))
      → String
      → V.floats.Float
      → List (ℕ × String)
      → Type 0
  IsOfOne q entries answer score [] = ⊥
  IsOfOne q entries answer score (c ∷ cs) =
      IsOf q answer score (entries c.1) ⊎ IsOfOne q entries answer score cs

  scan-from :
      (q : List V.floats.Float) (entries : String → Option (CacheEntry V)) (cs : List (ℕ × String))
      (best : Best V) (stale : List String) (b : CacheEntry V × V.floats.Float)
      → (scan V q entries cs best stale).0 ≡ some b
      → (best ≡ some b) ⊎ IsOfOne q entries b.0.answer b.1 cs
  unfolding scan
  scan-from q entries [] best stale b e = inl e
  scan-from q entries (c ∷ cs) best stale b e = elim (Option-cases (entries c.1)) [
    | inl gone ↦ elim (scan-from q entries cs best (stale ++ c.1 ∷ []) b (rw (gone, scan) at e)) [
      | inl first ↦ inl first
      | inr more ↦ inr (inr more)
    ]
    | inr (entry, stored) ↦
        let score = cosine_similarity V.floats q entry.embedding in
        elim (scan-from q entries cs (better V best entry score) stale b (rw (stored, scan) at e)) [
          | inr more ↦ inr (inr more)
          | inl won ↦ elim (better-from best entry score b won) [
            | inl first ↦ inl first
            | inr this ↦ inr (inl (rw stored this))
          ]
        ]
  ]

  hit-best :
      (cfg : CacheConfig V) (best : Best V) (hit : SemanticCacheHit V)
      → hit_of V cfg best ≡ some hit
      → (b : CacheEntry V × V.floats.Float) × (best ≡ some b)
        × (b.1 ≡ hit.score)
        × (b.0.answer ≡ hit.answer)
  unfolding hit_of
  hit-best cfg none hit h = cc
  hit-best cfg (some b) hit h = (b, refl, ground arith, ground arith)

  -- What the hit is compared with: the candidate of this id, if its entry has not expired, is not more
  -- similar to the question.
  abbrev pub IsNoBetter : List V.floats.Float → V.floats.Float → Option (CacheEntry V) → Type 0
  IsNoBetter q score none = Unit {0}
  IsNoBetter q score (some entry) =
      V.floats.below score (cosine_similarity V.floats q entry.embedding) ≡ false

  beaten-IsNoBetter :
      (q : List V.floats.Float) (entries : String → Option (CacheEntry V))
      (b : CacheEntry V × V.floats.Float) (score : V.floats.Float) (cs : List (ℕ × String))
      → b.1 ≡ score
      → All (λ c. IsBeaten q entries (some b) (entries c.1)) cs
      → All (λ c. IsNoBetter q score (entries c.1)) cs
  beaten-IsNoBetter q entries b score [] e h = tt
  beaten-IsNoBetter q entries b score (c ∷ cs) e h =
      (one (entries c.1) h.0, beaten-IsNoBetter q entries b score cs e h.1)
    where
      one : (o : Option (CacheEntry V)) → IsBeaten q entries (some b) o → IsNoBetter q score o
      one none k = tt
      one (some entry) k = rw (← e) k

  -- A lookup that gives a hit answers from the most similar candidate: its answer and its score are
  -- those of one of the newest `max_candidates` ids that are not too old, and the entry of no other of
  -- these is more similar to the question.
  pub lookup-IsNoBetter :
      (cfg : CacheConfig V) (now : ℕ) (q : List V.floats.Float) (s : Cache V)
      (hit : SemanticCacheHit V)
      → (lookup V cfg now q s).0 ≡ some hit
      → IsOfOne q s.entries hit.answer hit.score (take cfg.max_candidates (prune V cfg now s.index))
        × All
            (λ c. IsNoBetter q hit.score (s.entries c.1))
            (take cfg.max_candidates (prune V cfg now s.index))
  unfolding lookup
  lookup-IsNoBetter cfg now q s hit h =
      let cs = take cfg.max_candidates (prune V cfg now s.index) in
      let (b, won, scored, answered) = hit-best cfg (scan V q s.entries cs none []).0 hit h in
      (
        elim (scan-from q s.entries cs none [] b won) [
          | inl first ↦ cc
          | inr one ↦ rw (← scored, ← answered) one
        ],
        beaten-IsNoBetter q s.entries b hit.score cs scored
            (scan-beats q s.entries cs none (some b) [] won),
      )

  -- An entry that none of the rest is more similar than stays the winner.
  scan-stays :
      (q : List V.floats.Float) (entries : String → Option (CacheEntry V)) (cs : List (ℕ × String))
      (entry : CacheEntry V) (x : V.floats.Float) (stale : List String)
      → All (λ c. IsNoBetter q x (entries c.1)) cs
      → (scan V q entries cs (some (entry, x)) stale).0 ≡ some (entry, x)
  unfolding scan
  scan-stays q entries [] entry x stale h = refl
  scan-stays q entries (c ∷ cs) entry x stale h = elim (Option-cases (entries c.1)) [
    | inl gone ↦ rw (gone, scan) (scan-stays q entries cs entry x (stale ++ c.1 ∷ []) h.1)
    | inr (other, stored) ↦
        let less : V.floats.below x (cosine_similarity V.floats q other.embedding) ≡ false =
          rw stored at h.0 in
        rw (stored, scan, less) (scan-stays q entries cs entry x stale h.1)
  ]

  take-cons :
      (n : ℕ) (c : ℕ × String) (cs : List (ℕ × String))
      → 0 < n
      → take n (c ∷ cs) ≡ c ∷ take (n - 1) cs
  take-cons zero c cs h = absurd (omega arith)
  take-cons (suc n) c cs h = ground arith

  -- After a store, the entries of other ids are no better than before.
  stored-IsNoBetter :
      (now : ℕ) (id question answer : String) (q : List V.floats.Float) (s : Cache V)
      (cs : List (ℕ × String))
      → All (λ c. IsNoBetter q (cosine_similarity V.floats q q) (s.entries c.1)) cs
      → All
          (λ c.
            IsNoBetter q
              (cosine_similarity V.floats q q)
              ((store V id now question answer q s).entries c.1))
          cs
  unfolding store
  stored-IsNoBetter now id question answer q s [] h = tt
  stored-IsNoBetter now id question answer q s (c ∷ cs) h = (
    elim (Bool-cases (id == c.1)) [
      | inl this ↦ rw this (V.floats.below-irrefl (cosine_similarity V.floats q q))
      | inr other ↦ rw other h.0
    ],
    stored-IsNoBetter now id question answer q s cs h.1,
  )

  above-threshold : (a x : V.floats.Float) → V.floats.below a x ≡ true → V.floats.below x a ≡ false
  above-threshold a x h = elim (Bool-cases (V.floats.below x a)) [
    | inr good ↦ good
    | inl bad ↦ cc (sym (V.floats.below-irrefl a) ∙ V.floats.below-trans a x a h bad)
  ]

  stored_at :
      (now : ℕ) (id question answer : String) (q : List V.floats.Float) (s : Cache V)
      → (store V id now question answer q s).entries id
        ≡ some (record { query = question; answer = answer; embedding = q; cached_at = now })
  unfolding store
  stored_at now id question answer q s = rw (eq_refl id) refl

  stored_index :
      (now : ℕ) (id question answer : String) (q : List V.floats.Float) (s : Cache V)
      → (store V id now question answer q s).index ≡ (now, id) ∷ s.index
  unfolding store
  stored_index now id question answer q s = refl

  scan-first :
      (q : List V.floats.Float) (entries : String → Option (CacheEntry V)) (c : ℕ × String)
      (cs : List (ℕ × String)) (entry : CacheEntry V)
      → entries c.1 ≡ some entry
      → All (λ c. IsNoBetter q (cosine_similarity V.floats q entry.embedding) (entries c.1)) cs
      → (scan V q entries (c ∷ cs) none []).0
        ≡ some (entry, cosine_similarity V.floats q entry.embedding)
  unfolding scan
  scan-first q entries c cs entry stored less =
      rw (stored, scan)
        (scan-stays q entries cs entry (cosine_similarity V.floats q entry.embedding) [] less)

  -- An answer that was stored is found again: a lookup with the same question, while the answer is not too
  -- old, gives this answer, if none of the older candidates is more similar to the question than the
  -- question itself is, if that similarity is above the threshold, and if there may be a candidate at
  -- all.
  pub lookup-store :
      (cfg : CacheConfig V) (now later : ℕ) (id question answer : String) (q : List V.floats.Float)
      (s : Cache V)
      → later - cfg.ttl_seconds * 1000 < now
      → 0 < cfg.max_candidates
      → V.floats.below cfg.similarity_threshold (cosine_similarity V.floats q q) ≡ true
      → All
          (λ c. IsNoBetter q (cosine_similarity V.floats q q) (s.entries c.1))
          (take (cfg.max_candidates - 1) (prune V cfg later s.index))
      → (lookup V cfg later q (store V id now question answer q s)).0
        ≡ some (record { answer = answer; score = cosine_similarity V.floats q q; cached_at = now })
  unfolding lookup prune hit_of
  lookup-store cfg now later id question answer q s young some_room above older =
      let kept : ltb (later - cfg.ttl_seconds * 1000) now ≡ true = ground arith in
      let x = cosine_similarity V.floats q q in
      let entry : CacheEntry V = record {
        query = question;
        answer = answer;
        embedding = q;
        cached_at = now;
      } in
      let rest = filter (λ c. ltb (later - cfg.ttl_seconds * 1000) c.0) s.index in
      let fresh : (store V id now question answer q s).entries id ≡ some entry =
        stored_at now id question answer q s in
      rw
        (
          stored_index now id question answer q s,
          kept,
          take-cons cfg.max_candidates (now, id) rest some_room,
          scan-first q (store V id now question answer q s).entries (now, id)
              (take (cfg.max_candidates - 1) rest) entry fresh
              (stored-IsNoBetter now id question answer q s (take (cfg.max_candidates - 1) rest)
                older),
          hit_of,
          above-threshold cfg.similarity_threshold x above,
        )
        refl
