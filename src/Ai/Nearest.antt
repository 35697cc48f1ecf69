-- ===== src/Ai/Nearest.antt =====
-- What a similarity search finds.
use mathlib.Core.List.{Perm}
use oneandro_clone.Prelude.{
  ℕ, zero, suc, ◌≡◌, ◌≤◌, refl, Bool, true, false, some, List, [], ◌∷◌, ◌++◌, map, length, take,
  drop, any, filter, All,
}
use oneandro_clone.Users.Email.{Text}
use oneandro_clone.Gateway.Routes.{starts_with}
use oneandro_clone.Ai.Vectors.{
  IsOrdered, is_wildcard, Database, DocumentChunk, DocumentChunkRow, vector_of, where_source,
  search_row, similarity_search,
}

module _ {A : Type 0} where
  All-drop : (Q : A → Type 0) (n : ℕ) (xs : List A) → All Q xs → All Q (drop n xs)
  All-drop Q zero xs h = h
  All-drop Q (suc n) [] h = h
  All-drop Q (suc n) (x ∷ xs) h = All-drop Q n xs h.1

  -- In an ordered list what is taken comes before what is left.
  pub take-before-drop :
      (before : A → A → Bool) (n : ℕ) (xs : List A)
      → IsOrdered before xs
      → All (λ x. All (λ y. before x y ≡ true) (drop n xs)) (take n xs)
  take-before-drop before zero xs h = tt
  take-before-drop before (suc n) [] h = tt
  take-before-drop before (suc n) (x ∷ xs) h =
      (All-drop (λ y. before x y ≡ true) n xs h.0, take-before-drop before n xs h.1)

  All-take : (Q : A → Type 0) (n : ℕ) (xs : List A) → All Q xs → All Q (take n xs)
  All-take Q zero xs h = tt
  All-take Q (suc n) [] h = tt
  All-take Q (suc n) (x ∷ xs) h = (h.0, All-take Q n xs h.1)

  pub take-IsOrdered :
      (before : A → A → Bool) (n : ℕ) (xs : List A)
      → IsOrdered before xs
      → IsOrdered before (take n xs)
  take-IsOrdered before zero xs h = tt
  take-IsOrdered before (suc n) [] h = tt
  take-IsOrdered before (suc n) (x ∷ xs) h =
      (All-take (λ y. before x y ≡ true) n xs h.0, take-IsOrdered before n xs h.1)

  pub take-append-drop : (n : ℕ) (xs : List A) → take n xs ++ drop n xs ≡ xs
  take-append-drop zero xs = refl
  take-append-drop (suc n) [] = refl
  take-append-drop (suc n) (x ∷ xs) = cc (take-append-drop n xs)

module _ (P : Database) where
  -- The rows of the chunks whose source starts with this, with their distances from the question.
  abbrev pub candidates : P.Vector → Text → List (DocumentChunk P) → List (DocumentChunkRow P)
  candidates query prefix s =
      map (search_row P query) (filter (λ (r : DocumentChunk P). starts_with r.source prefix) s)

  where_source-starts_with :
      (prefix : Text) (s : List (DocumentChunk P))
      → any is_wildcard prefix ≡ false
      → filter (where_source P (some prefix)) s
        ≡ filter (λ (r : DocumentChunk P). starts_with r.source prefix) s
  unfolding where_source starts_with
  where_source-starts_with prefix [] h = refl
  where_source-starts_with [] (r ∷ s) h = cc (where_source-starts_with [] s h)
  where_source-starts_with (c ∷ cs) (r ∷ s) h =
      rw (P.like-starts_with r.source (c ∷ cs) h, where_source-starts_with (c ∷ cs) s h) refl

  -- A search under a prefix without wildcards, by an embedding that the database reads, returns at most as
  -- many rows as were asked for, all of them chunks whose source starts with it, in the order of their
  -- distance. (The index of the table is approximate: that no other chunk is nearer is not said.)
  pub similarity_search-candidates :
      (embedding : List P.Float) (query : P.Vector) (top_k : ℕ) (prefix : Text)
      (s : List (DocumentChunk P))
      → vector_of P embedding ≡ some query
      → any is_wildcard prefix ≡ false
      → (found left : List (DocumentChunkRow P)) × (similarity_search P embedding top_k
            (some prefix)
            s
          ≡ some found)
        × Perm (found ++ left) (candidates query prefix s)
        × IsOrdered (λ (x y : DocumentChunkRow P). P.not_after x.distance y.distance) found
        × (length found ≤ top_k)
  unfolding similarity_search
  similarity_search-candidates embedding query top_k prefix s read plain =
      let key = λ (r : DocumentChunkRow P). r.distance in
      let rows = candidates query prefix s in
      let (left, perm) = P.nearest-Perm key top_k rows in
      (
        P.nearest key top_k rows,
        left,
        rw (similarity_search, read, where_source-starts_with prefix s plain) refl,
        perm,
        P.nearest-IsOrdered key top_k rows,
        P.length-nearest key top_k rows,
      )
