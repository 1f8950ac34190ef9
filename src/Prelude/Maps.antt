-- ===== src/Prelude/Maps.antt =====
-- A JavaScript `Map` keyed by identifiers, as the list of its entries in insertion order.
use aytrackerv.Prelude.{
  ℕ, ◌≡◌, refl, Option, none, some, List, [], ◌∷◌, arith, ◌==◌, if◌then◌else◌, All,
}

abbrev pub IdMap {ℓ} : Type ℓ → Type ℓ
IdMap Value = List (ℕ × Value)

module _ {ℓ} {Value : Type ℓ} where
  -- `map.get(id)`
  abbrev pub get : ℕ → IdMap Value → Option Value
  get id [] = none
  get id (entry ∷ rest) = if id == entry.0 then some entry.1 else get id rest

  -- `map.set(id, value)`: a known key keeps its place.
  abbrev pub set : ℕ → Value → IdMap Value → IdMap Value
  set id value [] = (id, value) ∷ []
  set id value (entry ∷ rest) =
      let kept = set id value rest in if id == entry.0 then (id, value) ∷ rest else entry ∷ kept

  -- No key stands twice.
  abbrev pub IsIdMap : IdMap Value → Type ℓ
  IsIdMap [] = Unit
  IsIdMap (entry ∷ rest) = (get entry.0 rest ≡ none) × IsIdMap rest

  pub get-set :
      (key id : ℕ) (value : Value) (m : IdMap Value)
      → get key (set id value m) ≡ (if key == id then some value else get key m)
  get-set key id value [] = refl
  get-set key id value (entry ∷ rest) = ground (arith, get-set key id value rest)

  pub set-IsIdMap :
      (id : ℕ) (value : Value) (m : IdMap Value) → IsIdMap m → IsIdMap (set id value m)
  set-IsIdMap id value [] h = (refl, tt)
  set-IsIdMap id value (entry ∷ rest) h =
      ground (arith, set-IsIdMap id value rest h.1, get-set entry.0 id value rest)

  -- A property that every found value has, with its key, holds of every entry.
  pub entries-All {κ} :
      (P : ℕ → Value → Type κ) (m : IdMap Value)
      → IsIdMap m
      → ((id : ℕ) (value : Value) → get id m ≡ some value → P id value)
      → All (λ entry. P entry.0 entry.1) m
  entries-All P [] h f = tt
  entries-All P (entry ∷ rest) h f = (
    f entry.0 entry.1 (ground arith),
    entries-All P rest h.1 (λ id value found. f id value (ground arith)),
  )
