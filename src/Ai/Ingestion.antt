-- ===== src/Ai/Ingestion.antt =====
-- What the ingestion of a document does to the table of chunks.
use oneandro_clone.Prelude.{
  ℕ, ◌+◌, String, ◌≡◌, refl, sym, ap, ◌∙◌, true, false, not, Option, none, some, List, [], ◌∷◌,
  ◌++◌, map, length, filter, any, All, ◌==◌, eq_refl, arith, Option-cases, inl, inr, ◌⊎◌,
  length-append, append-nil, append_assoc,
}
use oneandro_clone.Users.Email.{Text}
use oneandro_clone.Ai.Vectors.{
  Database, DocumentChunkInput, DocumentChunk, vector_of, insert_chunk, push_id, insert_chunks,
  delete_by_document_id, IngestDocumentInput, TextModels, inputs_of, IngestResult, ingested, ingest,
}

module _ (P : Database) where
  push_id-rows :
      (id : String) (out : Option (List String) × List (DocumentChunk P))
      → (push_id P id out).1 ≡ out.1
  push_id-rows id (none, s) = refl
  push_id-rows id (some ids, s) = refl

  push_id-some :
      (id : String) (out : Option (List String) × List (DocumentChunk P)) (ids : List String)
      → (push_id P id out).0 ≡ some ids
      → (rest : List String) × (out.0 ≡ some rest) × (ids ≡ id ∷ rest)
  push_id-some id (none, s) ids h = cc
  push_id-some id (some rest, s) ids h = (rest, refl, ground arith)

  -- The rows that an insertion adds: all of this document, and if nothing failed, one for each input.
  pub record Added (id : String) (inputs : List (DocumentChunkInput P)) (s : List (DocumentChunk P))
      (out : Option (List String) × List (DocumentChunk P)) : Type 0 where
    pub rows : List (DocumentChunk P)
    pub at_end : out.1 ≡ s ++ rows
    pub of_document : All (λ (r : DocumentChunk P). r.document_id ≡ id) rows
    pub complete :
        (ids : List String)
        → out.0 ≡ some ids
        → (map (λ (r : DocumentChunk P). r.id) rows ≡ ids)
          × (map (λ (r : DocumentChunk P). r.content) rows
              ≡ map (λ (i : DocumentChunkInput P). i.content) inputs)

  abbrev row_for : ℕ → DocumentChunkInput P → P.Vector → DocumentChunk P
  row_for seed input vector = record {
    id = P.gen_random_uuid seed;
    document_id = input.document_id;
    source = input.source;
    content = input.content;
    embedding = vector;
    metadata = input.metadata;
  }

  insert_chunk-refused :
      (seed : ℕ) (i : DocumentChunkInput P) (s : List (DocumentChunk P))
      → vector_of P i.embedding ≡ none
      → insert_chunk P seed i s ≡ (none, s)
  unfolding insert_chunk
  insert_chunk-refused seed i s refused = rw (insert_chunk, refused) refl

  insert_chunk-stored :
      (seed : ℕ) (i : DocumentChunkInput P) (s : List (DocumentChunk P)) (vector : P.Vector)
      → vector_of P i.embedding ≡ some vector
      → insert_chunk P seed i s ≡ (some (P.gen_random_uuid seed), s ++ row_for seed i vector ∷ [])
  unfolding insert_chunk
  insert_chunk-stored seed i s vector read = rw (insert_chunk, read) refl

  insert_chunks-stop :
      (seed : ℕ) (i : DocumentChunkInput P) (inputs : List (DocumentChunkInput P))
      (s : List (DocumentChunk P))
      → vector_of P i.embedding ≡ none
      → insert_chunks P seed (i ∷ inputs) s ≡ (none, s)
  unfolding insert_chunks
  insert_chunks-stop seed i inputs s refused =
      rw (insert_chunks, insert_chunk-refused seed i s refused) refl

  insert_chunks-go :
      (seed : ℕ) (i : DocumentChunkInput P) (inputs : List (DocumentChunkInput P))
      (s : List (DocumentChunk P)) (vector : P.Vector)
      → vector_of P i.embedding ≡ some vector
      → insert_chunks P seed (i ∷ inputs) s
        ≡ push_id P
            (P.gen_random_uuid seed)
            (insert_chunks P (seed + 1) inputs (s ++ row_for seed i vector ∷ []))
  unfolding insert_chunks
  insert_chunks-go seed i inputs s vector read =
      rw (insert_chunks, insert_chunk-stored seed i s vector read) refl

  insert_chunks-Added :
      (id : String) (seed : ℕ) (inputs : List (DocumentChunkInput P)) (s : List (DocumentChunk P))
      → All (λ (i : DocumentChunkInput P). i.document_id ≡ id) inputs
      → Added id inputs s (insert_chunks P seed inputs s)
  unfolding insert_chunks
  insert_chunks-Added id seed [] s h = record {
    rows = [];
    at_end = sym (append-nil s);
    of_document = tt;
    complete = λ ids e. (ground arith, refl);
  }
  insert_chunks-Added id seed (i ∷ inputs) s h = elim (Option-cases (vector_of P i.embedding)) [
    | inl refused ↦ rw (insert_chunks-stop seed i inputs s refused) (record {
      rows = [];
      at_end = sym (append-nil s);
      of_document = tt;
      complete = λ ids e. cc;
    })
    | inr (vector, read) ↦
        let row = row_for seed i vector in
        let out = insert_chunks P (seed + 1) inputs (s ++ row ∷ []) in
        let rest = insert_chunks-Added id (seed + 1) inputs (s ++ row ∷ []) h.1 in
        rw (insert_chunks-go seed i inputs s vector read) (record {
          rows = row ∷ rest.rows;
          at_end = push_id-rows row.id out ∙ rest.at_end ∙ append_assoc s (row ∷ []) rest.rows;
          of_document = (h.0, rest.of_document);
          complete = λ ids e.
              let (ids', e', split) = push_id-some row.id out ids e in
              let (same_ids, same) = rest.complete ids' e' in
              (ap (λ t. row.id ∷ t) same_ids ∙ sym split, ap (λ t. i.content ∷ t) same);
        })
  ]

  module _ (id : String) (input : IngestDocumentInput P) where
    inputs_of-document :
        (chunks : List Text) (embeddings : List (List P.Float))
        → All
            (λ (i : DocumentChunkInput P). i.document_id ≡ id)
            (inputs_of P id input chunks embeddings)
    unfolding inputs_of
    inputs_of-document [] embeddings = tt
    inputs_of-document (c ∷ chunks) embeddings = (refl, inputs_of-document chunks _)

    inputs_of-content :
        (chunks : List Text) (embeddings : List (List P.Float))
        → map (λ (i : DocumentChunkInput P). i.content) (inputs_of P id input chunks embeddings)
          ≡ chunks
    unfolding inputs_of
    inputs_of-content [] embeddings = refl
    inputs_of-content (c ∷ chunks) embeddings = ap (λ t. c ∷ t) (inputs_of-content chunks _)

    ingested-some :
        (out : Option (List String) × List (DocumentChunk P)) (r : IngestResult P)
        → (ingested P id out).0 ≡ some r
        → (r.document_id ≡ id) × (out.0 ≡ some r.chunk_ids)
    ingested-some (none, s) r h = cc
    ingested-some (some ids, s) r h = (ground arith, ground arith)

    ingested-rows :
        (out : Option (List String) × List (DocumentChunk P)) → (ingested P id out).1 ≡ out.1
    ingested-rows (none, s) = refl
    ingested-rows (some ids, s) = refl

    -- What an ingestion does, whether it returns or throws.
    pub record Ingested (M : TextModels P) (s : List (DocumentChunk P))
        (out : Option (IngestResult P) × List (DocumentChunk P)) : Type 0 where
      pub rows : List (DocumentChunk P)
      pub at_end : out.1 ≡ s ++ rows
      pub of_document : All (λ (r : DocumentChunk P). r.document_id ≡ id) rows
      pub complete :
          (r : IngestResult P)
          → out.0 ≡ some r
          → (r.document_id ≡ id)
            × (map (λ (c : DocumentChunk P). c.id) rows ≡ r.chunk_ids)
            × (map (λ (c : DocumentChunk P). c.content) rows ≡ M.split_text input.text)

    untouched : (M : TextModels P) (s : List (DocumentChunk P)) → Ingested M s (none, s)
    untouched M s = record {
      rows = [];
      at_end = sym (append-nil s);
      of_document = tt;
      complete = λ r e. cc;
    }

    -- The rows that an ingestion adds stand behind the others and are all of its document; and if it
    -- returns, they are one for each piece of the text, in order, under the ids that it returns.
    pub ingest-Ingested :
        (M : TextModels P) (seed : ℕ) (s : List (DocumentChunk P))
        → Ingested M s (ingest P M id seed input s)
    unfolding ingest
    ingest-Ingested M seed s = elim (split-cases (M.split_text input.text)) [
      | inl empty ↦ rw (ingest, empty) (untouched M s)
      | inr (c, cs, split) ↦ (elim (Option-cases (M.embed_documents (c ∷ cs))) [
        | inl failed ↦ rw (ingest, split, failed) (untouched M s)
        | inr (embeddings, embedded) ↦
            let inputs = inputs_of P id input (c ∷ cs) embeddings in
            let out = insert_chunks P seed inputs s in
            let added =
              insert_chunks-Added id seed inputs s (inputs_of-document (c ∷ cs) embeddings) in
            rw (ingest, split, embedded)
              (record {
                rows = added.rows;
                at_end = ingested-rows out ∙ added.at_end;
                of_document = added.of_document;
                complete = λ r e.
                    let (same_id, ids) = ingested-some out r e in
                    let (stored, contents) = added.complete r.chunk_ids ids in
                    (same_id, stored, contents ∙ inputs_of-content (c ∷ cs) embeddings ∙ sym split);
              })
      ])
    ]
      where
        split-cases :
            (chunks : List Text)
            → (chunks ≡ []) ⊎ ((c : Text) × (cs : List Text) × (chunks ≡ c ∷ cs))
        split-cases [] = inl refl
        split-cases (c ∷ cs) = inr (c, cs, refl)

  filter-others :
      (id : String) (s rows : List (DocumentChunk P))
      → any (λ (r : DocumentChunk P). r.document_id == id) s ≡ false
      → All (λ (r : DocumentChunk P). r.document_id ≡ id) rows
      → (filter (λ (r : DocumentChunk P). not (r.document_id == id)) (s ++ rows) ≡ s)
        × (filter (λ (r : DocumentChunk P). r.document_id == id) (s ++ rows) ≡ rows)
  filter-others id [] [] h k = (refl, refl)
  filter-others id [] (r ∷ rows) h k =
      let (none_left, all_found) = filter-others id [] rows h k.1 in
      let same : (r.document_id == id) ≡ true = rw k.0 (eq_refl id) in
      rw same (none_left, ap (λ t. r ∷ t) all_found)
  filter-others id (r ∷ s) rows h k =
      let other : (r.document_id == id) ≡ false = ground arith in
      let (kept, found) = filter-others id s rows (ground arith) k in
      rw other (ap (λ t. r ∷ t) kept, found)

  -- Deleting a document after its ingestion, whether that returned or threw half-way, leaves the table
  -- as it was, if no chunk was of this document before; and it counts the rows that the ingestion added.
  pub delete_by_document_id-ingest :
      (M : TextModels P) (id : String) (seed : ℕ) (input : IngestDocumentInput P)
      (s : List (DocumentChunk P))
      → any (λ (r : DocumentChunk P). r.document_id == id) s ≡ false
      → let stored = (ingest P M id seed input s).1 in
        ((delete_by_document_id P id stored).1 ≡ s)
        × (length stored ≡ length s + (delete_by_document_id P id stored).0)
  unfolding delete_by_document_id
  delete_by_document_id-ingest M id seed input s fresh =
      let done = ingest-Ingested id input M seed s in
      let (kept, found) = filter-others id s done.rows fresh done.of_document in
      rw (done.at_end, kept, found) (refl, length-append s done.rows)
