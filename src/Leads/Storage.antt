-- ===== src/Leads/Storage.antt =====
-- apps/lead-service/src/kyc/storage/document-storage.service.ts: the name under which an uploaded
-- file is stored. Texts are lists of code units.
use oneandro_clone.Prelude.{
  ℕ, ◌+◌, ◌≤◌, String, ◌≡◌, refl, inl, inr, ◌⊎◌, Bool, true, ◌&&◌, ◌||◌, List, [], ◌∷◌, ◌++◌, map,
  all, All, arith, leb, eqb, length, if◌then◌else◌, Bool-cases,
}
use oneandro_clone.Leads.{StoragePath}

-- [a-zA-Z0-9]
abbrev pub is_alnum : ℕ → Bool
is_alnum c = (leb 48 c && leb c 57) || (leb 65 c && leb c 90) || (leb 97 c && leb c 122)

unfoldable pub to_lower : ℕ → ℕ
to_lower c = if leb 65 c && leb c 90 then c + 32 else c

-- `[a-zA-Z0-9]{1,10}$` at the start of the text.
unfoldable pub is_extension : List ℕ → Bool
is_extension cs = leb 1 (length cs) && leb (length cs) 10 && all is_alnum cs

-- extractSafeExtension: the leftmost match of the expression, in lower case; 46 is the dot.
unfoldable pub extract_safe_extension : List ℕ → List ℕ
extract_safe_extension [] = []
extract_safe_extension (c ∷ cs) =
    if eqb c 46 && is_extension cs then map to_lower (c ∷ cs) else extract_safe_extension cs

-- The relative path of `save`.
unfoldable pub storage_path : String → List ℕ → List ℕ → StoragePath
storage_path lead_id uuid original_filename = record {
  folder = lead_id;
  file_name = uuid ++ extract_safe_extension original_filename;
}

-- A digit or a lower-case letter.
abbrev pub IsPlain : ℕ → Type 0
IsPlain c = ((48 ≤ c) × (c ≤ 57)) ⊎ ((97 ≤ c) × (c ≤ 122))

-- Either nothing, or a dot with one to ten digits and lower-case letters.
abbrev pub IsSafeExtension : List ℕ → Type 0
IsSafeExtension [] = Unit
IsSafeExtension (c ∷ cs) = (c ≡ 46) × (1 ≤ length cs) × (length cs ≤ 10) × All IsPlain cs

IsPlain-to_lower : (c : ℕ) → is_alnum c ≡ true → IsPlain (to_lower c)
unfolding to_lower
IsPlain-to_lower c h = ground arith

All-IsPlain : (cs : List ℕ) → all is_alnum cs ≡ true → All IsPlain (map to_lower cs)
All-IsPlain [] h = tt
All-IsPlain (c ∷ cs) h = (IsPlain-to_lower c (ground arith), All-IsPlain cs (ground arith))

length-map-to_lower : (cs : List ℕ) → length (map to_lower cs) ≡ length cs
length-map-to_lower [] = refl
length-map-to_lower (c ∷ cs) = omega (arith, length-map-to_lower cs)

-- Whatever name the client sends, the extension kept of it is empty, or a dot and one to ten digits
-- and lower-case letters: it holds no slash and no second dot.
pub extract_safe_extension-IsSafeExtension :
    (name : List ℕ) → IsSafeExtension (extract_safe_extension name)
unfolding extract_safe_extension
extract_safe_extension-IsSafeExtension [] = tt
extract_safe_extension-IsSafeExtension (c ∷ cs) = elim (Bool-cases (eqb c 46 && is_extension cs)) [
  | inl found ↦ rw found (
      unfold is_extension to_lower in
      (
        ground arith,
        ground (arith, length-map-to_lower cs),
        ground (arith, length-map-to_lower cs),
        All-IsPlain cs (ground arith),
      ))
  | inr missed ↦ rw missed (extract_safe_extension-IsSafeExtension cs)
]
