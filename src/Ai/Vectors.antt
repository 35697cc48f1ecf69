-- ===== src/Ai/Vectors.antt =====
-- apps/ai-orchestrator/src/rag/pgvector-store.service.ts and ingestion.service.ts: the document chunks
-- with their embeddings. PostgreSQL with pgvector is behind an interface, as are the text splitter and
-- the embeddings.
use mathlib.Core.List.{Perm}
use oneandro_clone.Prelude.{
  ℕ, ◌+◌, String, ◌≡◌, ◌≤◌, Bool, true, false, ◌||◌, not, Option, none, some, List, [], ◌∷◌, ◌++◌,
  map, eqb, length, any, filter, All, ◌==◌, if◌then◌else◌,
}
use oneandro_clone.Users.Email.{Text}
use oneandro_clone.Gateway.Routes.{starts_with}

-- Each of them comes before those after it.
abbrev pub IsOrdered : {A : Type 0} → (A → A → Bool) → List A → Type 0
IsOrdered before [] = Unit
IsOrdered before (x ∷ xs) = All (λ y. before x y ≡ true) xs × IsOrdered before xs

-- The characters that are not themselves in a LIKE pattern.
abbrev pub is_wildcard : ℕ → Bool
is_wildcard c = eqb c b'%' || eqb c b'_' || eqb c b'\\'

-- What the database does: `::vector`, `<=>`, LIKE, the ids that it makes, and ORDER BY a distance with a
-- LIMIT, which goes through an HNSW index: the rows are in order, but may miss some that are nearer, and be
-- fewer than could be found. And of the language, `Number.isFinite` and the text of a number.
pub record Database : Type 1 where
  pub Float : Type 0
  pub is_finite : Float → Bool
  pub number_text : Float → Text
  pub Vector : Type 0
  pub to_vector : Text → Option Vector
  pub Distance : Type 0
  pub cosine_distance : Vector → Vector → Distance
  pub not_after : Distance → Distance → Bool
  pub nearest : {A : Type 0} → (A → Distance) → ℕ → List A → List A
  pub nearest-Perm :
      {A : Type 0} (key : A → Distance) (k : ℕ) (xs : List A)
      → (left : List A) × Perm (nearest key k xs ++ left) xs
  pub nearest-IsOrdered :
      {A : Type 0} (key : A → Distance) (k : ℕ) (xs : List A)
      → IsOrdered (λ x y. not_after (key x) (key y)) (nearest key k xs)
  pub length-nearest :
      {A : Type 0} (key : A → Distance) (k : ℕ) (xs : List A) → length (nearest key k xs) ≤ k
  pub like : Text → Text → Bool
  pub like-starts_with :
      (text prefix : Text)
      → any is_wildcard prefix ≡ false
      → like text (prefix ++ b'%' ∷ []) ≡ starts_with text prefix
  pub gen_random_uuid : ℕ → String

module _ (P : Database) where
  -- Metadata are their JSON text.
  pub record DocumentChunkInput : Type 0 where
    pub document_id : String
    pub source : Text
    pub content : Text
    pub embedding : List P.Float
    pub metadata : Option Text

  -- A row of `document_chunks`.
  pub record DocumentChunk : Type 0 where
    pub id : String
    pub document_id : String
    pub source : Text
    pub content : Text
    pub embedding : P.Vector
    pub metadata : Option Text

  pub record DocumentChunkRow : Type 0 where
    pub id : String
    pub document_id : String
    pub source : Text
    pub content : Text
    pub metadata : Option Text
    pub distance : P.Distance

  -- `embedding.join(',')`
  abbrev pub join_numbers : List P.Float → Text
  join_numbers [] = []
  join_numbers (n ∷ []) = P.number_text n
  join_numbers (n ∷ m ∷ rest) = P.number_text n ++ b',' ∷ join_numbers (m ∷ rest)

  -- toVectorLiteral; `none` where it throws.
  unfoldable pub to_vector_literal : List P.Float → Option Text
  to_vector_literal embedding =
      if eqb (length embedding) 0 || any (λ n. not (P.is_finite n)) embedding
      then none
      else some (b'[' ∷ join_numbers embedding ++ b']' ∷ [])

  -- The literal, as the database reads it: `none` where the one throws or the other refuses it.
  unfoldable pub vector_of : List P.Float → Option P.Vector
  vector_of embedding = elim (to_vector_literal embedding) [
    | none ↦ none
    | some literal ↦ P.to_vector literal
  ]

  -- insertChunk, which inserts under the next id that the database makes.
  unfoldable pub insert_chunk :
      ℕ → DocumentChunkInput → List DocumentChunk → Option String × List DocumentChunk
  insert_chunk seed input s = elim (vector_of input.embedding) [
    | none ↦ (none, s)
    | some vector ↦ (
      some (P.gen_random_uuid seed),
      s
          ++ record {
            id = P.gen_random_uuid seed;
            document_id = input.document_id;
            source = input.source;
            content = input.content;
            embedding = vector;
            metadata = input.metadata;
          }
            ∷ [],
    )
  ]

  -- The ids of the chunks after this one behind its own.
  abbrev pub push_id :
      String → Option (List String) × List DocumentChunk → Option (List String) × List DocumentChunk
  push_id id (none, s) = (none, s)
  push_id id (some ids, s) = (some (id ∷ ids), s)

  -- An insertion that throws ends the loop.
  abbrev pub and_then :
      Option String × List DocumentChunk
      → (List DocumentChunk → Option (List String) × List DocumentChunk)
      → Option (List String) × List DocumentChunk
  and_then (none, s) rest = (none, s)
  and_then (some id, s) rest = push_id id (rest s)

  -- insertChunks: one INSERT after the other; the rows before one that fails stay.
  unfoldable pub insert_chunks :
      ℕ → List DocumentChunkInput → List DocumentChunk → Option (List String) × List DocumentChunk
  insert_chunks seed [] s = (some [], s)
  insert_chunks seed (input ∷ inputs) s =
      and_then (insert_chunk seed input s) (λ s'. insert_chunks (seed + 1) inputs s')

  -- `sourcePrefix ? WHERE source LIKE `${sourcePrefix}%` : no condition`
  unfoldable pub where_source : Option Text → DocumentChunk → Bool
  where_source none row = true
  where_source (some []) row = true
  where_source (some (c ∷ cs)) row = P.like row.source (c ∷ cs ++ b'%' ∷ [])

  unfoldable pub search_row : P.Vector → DocumentChunk → DocumentChunkRow
  search_row query row = record {
    id = row.id;
    document_id = row.document_id;
    source = row.source;
    content = row.content;
    metadata = row.metadata;
    distance = P.cosine_distance row.embedding query;
  }

  unfoldable pub similarity_search :
      List P.Float → ℕ → Option Text → List DocumentChunk → Option (List DocumentChunkRow)
  similarity_search query_embedding top_k source_prefix s = elim (vector_of query_embedding) [
    | none ↦ none
    | some query ↦ some (
        P.nearest (λ r. r.distance) top_k
          (map (search_row query) (filter (where_source source_prefix) s)))
  ]

  -- deleteByDocumentId: how many rows it deleted.
  unfoldable pub delete_by_document_id : String → List DocumentChunk → ℕ × List DocumentChunk
  delete_by_document_id id s = (
    length (filter (λ (r : DocumentChunk). r.document_id == id) s),
    filter (λ (r : DocumentChunk). not (r.document_id == id)) s,
  )

  pub record IngestDocumentInput : Type 0 where
    pub source : Text
    pub text : Text
    pub metadata : Option Text

  -- RecursiveCharacterTextSplitter and EmbeddingsService, which may throw.
  pub record TextModels : Type 0 where
    pub split_text : Text → List Text
    pub embed_documents : List Text → Option (List (List P.Float))

  -- `embeddings[i]`, and no embedding where there are fewer of them than chunks.
  unfoldable pub inputs_of :
      String → IngestDocumentInput → List Text → List (List P.Float) → List DocumentChunkInput
  inputs_of id input [] embeddings = []
  inputs_of id input (chunk ∷ chunks) embeddings =
      record {
        document_id = id;
        source = input.source;
        content = chunk;
        embedding = elim embeddings [ [] ↦ [] | e ∷ rest ↦ e ];
        metadata = input.metadata;
      }
      ∷ inputs_of id input chunks (elim embeddings [ [] ↦ [] | e ∷ rest ↦ rest ])

  pub record IngestResult : Type 0 where
    pub document_id : String
    pub chunk_ids : List String

  abbrev pub ingested :
      String → Option (List String) × List DocumentChunk → Option IngestResult × List DocumentChunk
  ingested id (none, s) = (none, s)
  ingested id (some ids, s) = (some (record { document_id = id; chunk_ids = ids }), s)

  -- IngestionService.ingest, with the id from `randomUUID`; `none` where it throws.
  unfoldable pub ingest :
      TextModels
      → String
      → ℕ
      → IngestDocumentInput
      → List DocumentChunk
      → Option IngestResult × List DocumentChunk
  ingest M id seed input s = elim (M.split_text input.text) [
    | [] ↦ (none, s)
    | chunk ∷ chunks ↦ (elim (M.embed_documents (chunk ∷ chunks)) [
      | none ↦ (none, s)
      | some embeddings ↦
          ingested id (insert_chunks seed (inputs_of id input (chunk ∷ chunks) embeddings) s)
    ])
  ]
