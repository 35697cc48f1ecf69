-- ===== src/Config/Lists.antt =====
-- `text.split(',')`, as the configuration.ts files of the services use it.
use oneandro_clone.Prelude.{
  ℕ, ◌≡◌, refl, false, List, [], ◌∷◌, ◌++◌, arith, eqb, All, any, if◌then◌else◌,
}
use oneandro_clone.Users.Email.{Text}

-- A character before the first piece.
abbrev pub to_first : ℕ → List Text → List Text
to_first c [] = (c ∷ []) ∷ []
to_first c (piece ∷ pieces) = (c ∷ piece) ∷ pieces

unfoldable pub split : ℕ → Text → List Text
split sep [] = [] ∷ []
split sep (c ∷ cs) = if eqb c sep then [] ∷ split sep cs else to_first c (split sep cs)

-- The texts with the separator between them.
abbrev pub join : ℕ → Text → List Text → Text
join sep piece [] = piece
join sep piece (next ∷ pieces) = piece ++ sep ∷ join sep next pieces

abbrev pub IsWhole : ℕ → Text → Type 0
IsWhole sep piece = any (λ c. eqb c sep) piece ≡ false

split-whole : (sep : ℕ) (piece : Text) → IsWhole sep piece → split sep piece ≡ piece ∷ []
unfolding split
split-whole sep [] h = refl
split-whole sep (c ∷ cs) h = ground (arith, split-whole sep cs)

split-piece :
    (sep : ℕ) (piece rest : Text)
    → IsWhole sep piece
    → split sep (piece ++ sep ∷ rest) ≡ piece ∷ split sep rest
unfolding split
split-piece sep [] rest h = ground arith
split-piece sep (c ∷ cs) rest h = ground (arith, split-piece sep cs rest)

-- Texts without a comma, written one after the other with commas between, are read as they are.
pub split-join :
    (sep : ℕ) (piece : Text) (pieces : List Text)
    → IsWhole sep piece
    → All (IsWhole sep) pieces
    → split sep (join sep piece pieces) ≡ piece ∷ pieces
split-join sep piece [] h k = split-whole sep piece h
split-join sep piece (next ∷ pieces) h k =
    rw (split-piece sep piece (join sep next pieces) h, split-join sep next pieces k.0 k.1) refl
