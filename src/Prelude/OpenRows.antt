-- ===== src/Prelude/OpenRows.antt =====
-- Tables whose rows are open or not, where the database keeps identifiers unique and at most one
-- row of each key open (a partial unique index).
use aytrackerv.Prelude.{
  ℕ, ◌≡◌, ◌⊎◌, inl, inr, refl, Bool, true, false, not, ◌&&◌, none, some, List, [], ◌∷◌, map, arith,
  ◌==◌, if◌then◌else◌, any, find?, is_some, Bool-cases,
}

module _ {ℓ} {A : Type ℓ} (id key : A → ℕ) (is_open : A → Bool) where
  -- The row is open and has the key.
  abbrev pub is_open_for : ℕ → A → Bool
  is_open_for k r = (key r == k) && is_open r

  -- Identifiers are unique, and of each key at most one row is open.
  abbrev pub IsTable : List A → Type 0
  IsTable [] = Unit
  IsTable (r ∷ rows) =
      (any (λ q. id q == id r) rows ≡ false)
      × ((is_open r ≡ false) ⊎ (any (is_open_for (key r)) rows ≡ false))
      × IsTable rows

  pub find?-id :
      (k i : ℕ) (r : A) (rows : List A)
      → find? (is_open_for k) rows ≡ some r
      → any (λ q. id q == i) rows ≡ false
      → (id r == i) ≡ false
  find?-id k i r [] f h = cc
  find?-id k i r (q ∷ rows) f h = ground (arith, find?-id k i r rows)

  pub any-find? :
      (k : ℕ) (rows : List A) → any (is_open_for k) rows ≡ is_some (find? (is_open_for k) rows)
  any-find? k [] = refl
  any-find? k (q ∷ rows) = ground (arith, any-find? k rows)

  -- A row that was found is open and has the key.
  pub find?-sound :
      (k : ℕ) (r : A) (rows : List A)
      → find? (is_open_for k) rows ≡ some r
      → (key r ≡ k) × (is_open r ≡ true)
  find?-sound k r [] f = cc
  find?-sound k r (q ∷ rows) f = ground (arith, find?-sound k r rows)

  -- The rows that two keys find have different identifiers.
  pub find?-distinct :
      (j k : ℕ) (q r : A) (rows : List A)
      → IsTable rows
      → (j == k) ≡ false
      → find? (is_open_for j) rows ≡ some q
      → find? (is_open_for k) rows ≡ some r
      → (id q == id r) ≡ false
  find?-distinct j k q r [] t d f h = cc
  find?-distinct j k q r (p ∷ rows) t d f h =
      ground (
        arith,
        find?-id j (id p) q rows,
        find?-id k (id p) r rows,
        find?-distinct j k q r rows t.2 d,
      )

  -- A change of the rows with one identifier, which closes them.
  module _ (i : ℕ) (g : A → A) (same_id : (r : A) → id (g r) ≡ id r)
      (same_key : (r : A) → key (g r) ≡ key r)
      (closes : (r : A) → is_open (g r) ≡ (is_open r && not (id r == i)))
      (others : (r : A) → (id r == i) ≡ false → g r ≡ r) where
    any-id-map :
        (j : ℕ) (rows : List A) → any (λ q. id q == j) (map g rows) ≡ any (λ q. id q == j) rows
    any-id-map j [] = refl
    any-id-map j (r ∷ rows) = ground (arith, same_id r, any-id-map j rows)

    map-absent : (rows : List A) → any (λ q. id q == i) rows ≡ false → map g rows ≡ rows
    map-absent [] h = refl
    map-absent (r ∷ rows) h = ground (arith, others r, map-absent rows)

    none_opened :
        (k : ℕ) (rows : List A)
        → any (is_open_for k) rows ≡ false
        → any (is_open_for k) (map g rows) ≡ false
    none_opened k [] h = refl
    none_opened k (r ∷ rows) h = ground (arith, same_key r, closes r, none_opened k rows)

    pub map-IsTable : (rows : List A) → IsTable rows → IsTable (map g rows)
    map-IsTable [] t = tt
    map-IsTable (r ∷ rows) t = ground (
      arith,
      same_id r,
      same_key r,
      closes r,
      any-id-map (id r) rows,
      none_opened (key r) rows,
      map-IsTable rows t.2,
    )

    -- Once the open row of a key has been closed, that key has none, and the others theirs.
    pub find?-map :
        (k j : ℕ) (row : A) (rows : List A)
        → IsTable rows
        → find? (is_open_for k) rows ≡ some row
        → id row ≡ i
        → find? (is_open_for j) (map g rows) ≡ (if j == k then none else find? (is_open_for j) rows)
    find?-map k j row [] t f e = cc
    find?-map k j row (r ∷ rows) t f e = elim (Bool-cases (id r == i)) [
      | inl own ↦ ground (
        arith,
        closes r,
        same_key r,
        map-absent rows,
        find?-id k (id r) row rows,
        any-find? (key r) rows,
      )
      | inr other ↦ rw (others r other) (ground (arith, find?-map k j row rows t.2))
    ]

  -- A change of the rows with one identifier, of which the open row stays open.
  module _ (i : ℕ) (g : A → A) (same_id : (r : A) → id (g r) ≡ id r)
      (same_key : (r : A) → key (g r) ≡ key r)
      (others : (r : A) → (id r == i) ≡ false → g r ≡ r) where
    ids_kept :
        (j : ℕ) (rows : List A) → any (λ q. id q == j) (map g rows) ≡ any (λ q. id q == j) rows
    ids_kept j [] = refl
    ids_kept j (r ∷ rows) = ground (arith, same_id r, ids_kept j rows)

    rest_kept : (rows : List A) → any (λ q. id q == i) rows ≡ false → map g rows ≡ rows
    rest_kept [] h = refl
    rest_kept (r ∷ rows) h = ground (arith, others r, rest_kept rows)

    -- The key finds the changed row, and each other key what it found.
    pub find?-change :
        (k j : ℕ) (row : A) (rows : List A)
        → IsTable rows
        → find? (is_open_for k) rows ≡ some row
        → id row ≡ i
        → is_open (g row) ≡ true
        → find? (is_open_for j) (map g rows)
          ≡ (if j == k then some (g row) else find? (is_open_for j) rows)
    find?-change k j row [] t f e o = cc
    find?-change k j row (r ∷ rows) t f e o = elim (Bool-cases (id r == i)) [
      | inl own ↦ ground (arith, same_key r, rest_kept rows, find?-id k (id r) row rows)
      | inr other ↦ rw (others r other) (ground (arith, find?-change k j row rows t.2))
    ]

    pub change-IsTable :
        (k : ℕ) (row : A) (rows : List A)
        → IsTable rows
        → find? (is_open_for k) rows ≡ some row
        → id row ≡ i
        → is_open (g row) ≡ true
        → IsTable (map g rows)
    change-IsTable k row [] t f e o = tt
    change-IsTable k row (r ∷ rows) t f e o = elim (Bool-cases (id r == i)) [
      | inl own ↦ ground (arith, same_id r, same_key r, rest_kept rows, find?-id k (id r) row rows)
      | inr other ↦ rw (others r other) (
          ground (
            arith,
            ids_kept (id r) rows,
            change-IsTable k row rows t.2,
            find?-change k (key r) row rows t.2,
            any-find? (key r) rows,
            any-find? (key r) (map g rows),
          ))
    ]
