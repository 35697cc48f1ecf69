-- ===== src/Ai/ChunkExamples.antt =====
-- A small table of document chunks, and the theorems at it.
use oneandro_clone.Prelude.{
  take, drop, arith, length-take, ℕ, ◌+◌, ◌-◌, String, ◌≡◌, refl, true, none, some, List, [], ◌∷◌,
  ◌++◌, leb, length,
}
use oneandro_clone.Users.Email.{Text}
use oneandro_clone.Gateway.Routes.{codes, starts_with}
use oneandro_clone.Config.Numbers.{to_decimal}
use oneandro_clone.Ai.Vectors.{
  Database, DocumentChunk, IngestDocumentInput, TextModels, ingest, delete_by_document_id,
}
use oneandro_clone.Ai.Sorting.{sort_by, sort_by-Perm, sort_by-IsOrdered}
use oneandro_clone.Ai.Nearest.{take-append-drop, take-IsOrdered}
use oneandro_clone.Ai.Ingestion.{delete_by_document_id-ingest}

abbrev pub but_last : Text → Text
but_last [] = []
but_last (c ∷ []) = []
but_last (c ∷ d ∷ cs) = c ∷ but_last (d ∷ cs)

pub but_last-append : (text : Text) (c : ℕ) → but_last (text ++ c ∷ []) ≡ text
but_last-append [] c = refl
but_last-append (a ∷ []) c = refl
but_last-append (a ∷ b ∷ text) c = cc (but_last-append (b ∷ text) c)

-- A vector is the length of its literal.
abbrev pub database : Database
database = record {
  Float = ℕ;
  is_finite = λ n. true;
  number_text = to_decimal;
  Vector = ℕ;
  to_vector = λ literal. some (length literal);
  Distance = ℕ;
  cosine_distance = λ a b. (a - b) + (b - a);
  not_after = leb;
  nearest = λ key k xs. take k (sort_by key xs);
  nearest-Perm = λ key k xs.
      (drop k (sort_by key xs), rw (take-append-drop k (sort_by key xs)) (sort_by-Perm key xs));
  nearest-IsOrdered = λ key k xs.
      take-IsOrdered (λ x y. leb (key x) (key y)) k (sort_by key xs) (sort_by-IsOrdered key xs);
  length-nearest = λ key k xs. omega (arith, length-take k (sort_by key xs));
  like = λ text pattern. starts_with text (but_last pattern);
  like-starts_with = λ text prefix plain. rw (but_last-append prefix b'%') refl;
  gen_random_uuid = λ seed. "c";
}

abbrev chunk : String → ℕ → DocumentChunk database
chunk id at = record {
  id = id;
  document_id = "d1";
  source = codes "policy:kyc";
  content = codes "Scores from 680 pass.";
  embedding = at;
  metadata = none;
}

abbrev pub chunks : List (DocumentChunk database)
chunks = chunk "c1" 9 ∷ chunk "c2" 4 ∷ []

-- The second piece has no embedding, so that the ingestion fails after its first row.
abbrev pub texts : TextModels database
texts = record {
  split_text = λ text. text ∷ text ∷ [];
  embed_documents = λ pieces. some ((1 ∷ []) ∷ []);
}

abbrev pub document : IngestDocumentInput database
document = record {
  source = codes "policy:aml";
  text = codes "Ask for a passport.";
  metadata = none;
}

delete_by_document_id-ingest_example :
    ((delete_by_document_id database "d2" (ingest database texts "d2" 7 document chunks).1).1
      ≡ chunks)
    × (length (ingest database texts "d2" 7 document chunks).1
        ≡ length chunks
          + (delete_by_document_id database "d2"
              (ingest database texts "d2" 7 document chunks).1).0)
delete_by_document_id-ingest_example =
    delete_by_document_id-ingest database texts "d2" 7 document chunks refl
