-- ===== src/Ai/Cosine.antt =====
-- cosineSimilarity of apps/ai-orchestrator/src/tier1-qa/semantic-cache/redis-semantic-cache.service.ts.
use oneandro_clone.Prelude.{
  ◌≡◌, Bool, true, false, not, ◌||◌, List, [], ◌∷◌, eqb, length, if◌then◌else◌,
}

-- The numbers of the language: double-precision arithmetic, of which only the order has laws here. A
-- comparison with NaN is false, so that `below` is no total order.
pub record Floats : Type 1 where
  pub Float : Type 0
  pub zero : Float
  pub add : Float → Float → Float
  pub mul : Float → Float → Float
  pub div : Float → Float → Float
  pub sqrt : Float → Float
  -- a === b
  pub same : Float → Float → Bool
  -- a < b
  pub below : Float → Float → Bool
  pub below-irrefl : (a : Float) → below a a ≡ false
  pub below-trans : (a b c : Float) → below a b ≡ true → below b c ≡ true → below a c ≡ true

-- dot, normA and normB
pub record Sums (F : Floats) : Type 0 where
  pub dot : F.Float
  pub norm_a : F.Float
  pub norm_b : F.Float

module _ (F : Floats) where
  -- The loop, over two arrays of one length.
  unfoldable pub sums : List F.Float → List F.Float → Sums F → Sums F
  sums [] bs acc = acc
  sums (a ∷ as_) [] acc = acc
  sums (a ∷ as_) (b ∷ bs) acc = sums as_ bs (record {
    dot = F.add acc.dot (F.mul a b);
    norm_a = F.add acc.norm_a (F.mul a a);
    norm_b = F.add acc.norm_b (F.mul b b);
  })

  unfoldable pub quotient : Sums F → F.Float
  quotient s =
      if F.same s.norm_a F.zero || F.same s.norm_b F.zero
      then F.zero
      else F.div s.dot (F.mul (F.sqrt s.norm_a) (F.sqrt s.norm_b))

  unfoldable pub cosine_similarity : List F.Float → List F.Float → F.Float
  cosine_similarity a b =
      if not (eqb (length a) (length b)) || eqb (length a) 0
      then F.zero
      else quotient (sums a b (record { dot = F.zero; norm_a = F.zero; norm_b = F.zero }))
