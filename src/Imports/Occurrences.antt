-- ===== src/Imports/Occurrences.antt =====
-- Which rows of a sheet are new, by how often their keys occur in the sheet and among the stored events.
use portfolio_dashboard.Prelude.{
  ℕ, suc, ◌+◌, ◌-◌, ◌≡◌, refl, ap, ◌∙◌, List, [], ◌∷◌, ◌++◌, map, Eq, ◌==◌, ==_iff, ==_refl,
  if◌then◌else◌, arith, false, true, ltb, leb, Bool-cases, inl, inr, length, keep, length-append,
  keep-append,
}
use portfolio_dashboard.Prelude.Assoc.{Assoc, lookup, insert, lookup-insert}
use portfolio_dashboard.Imports.{count_of, tally, absorb, partition_by_key}

-- The number of elements with a key.
abbrev pub occurrences {ℓ κ} : {A : Type ℓ} {K : Type κ} ⦃e : Eq K⦄ → (A → K) → K → List A → ℕ
occurrences key k xs = length (keep (λ x. key x == k) xs)

module _ {ℓ κ} {Row Stored : Type ℓ} {K : Type κ} ⦃e : Eq K⦄ (row_key : Row → K)
    (stored_key : Stored → K) where
  count_of-insert :
      (k j : K) (n : ℕ) (m : Assoc K ℕ)
      → count_of j (insert k n m) ≡ (if k == j then n else count_of j m)
  count_of-insert k j n m = ground (arith, lookup-insert k j n m)

  count_of-tally :
      (k : K) (ss : List Stored) (m : Assoc K ℕ)
      → count_of k (tally row_key stored_key ss m) ≡ count_of k m + occurrences stored_key k ss
  unfolding tally
  count_of-tally k [] m = omega arith
  count_of-tally k (s ∷ ss) m = ground (
    arith,
    count_of-tally k ss (insert (stored_key s) (suc (count_of (stored_key s) m)) m),
    count_of-insert (stored_key s) k (suc (count_of (stored_key s) m)) m,
    ==_iff (stored_key s) k,
  )

  occurrences-absorb :
      (k : K) (rows : List Row) (m : Assoc K ℕ)
      → occurrences row_key k (absorb row_key stored_key rows m).0
        ≡ occurrences row_key k rows - count_of k m
  unfolding absorb
  occurrences-absorb k [] m = omega arith
  occurrences-absorb k (row ∷ rows) m = ground (
    arith,
    occurrences-absorb k rows m,
    occurrences-absorb k rows (insert (row_key row) (count_of (row_key row) m - 1) m),
    count_of-insert (row_key row) k (count_of (row_key row) m - 1) m,
    ==_iff (row_key row) k,
  )

  -- As many rows of the sheet with a key are new as it has beyond those that are stored with that key.
  occurrences-partition_by_key :
      (k : K) (rows : List Row) (existing : List Stored)
      → occurrences row_key k (partition_by_key row_key stored_key rows existing).0
        ≡ occurrences row_key k rows - occurrences stored_key k existing
  unfolding partition_by_key lookup
  occurrences-partition_by_key k rows existing = omega (
    arith,
    occurrences-absorb k rows (tally row_key stored_key existing []),
    count_of-tally k existing [],
  )

  -- The new rows and the duplicates by counting alone: a row is new if at least as many of the rows before it
  -- have its key as are stored with that key.
  unfoldable pub by_count : List Row → List Row → List Stored → List Row × List Row
  by_count before [] existing = ([], [])
  by_count before (row ∷ rows) existing =
      let k = row_key row in
      let (fresh, duplicates) = by_count (row ∷ before) rows existing in
      if leb (occurrences stored_key k existing) (occurrences row_key k before)
      then (row ∷ fresh, duplicates)
      else (fresh, row ∷ duplicates)

  -- What is left of the tally after the rows before.
  abbrev Remaining : List Row → List Stored → Assoc K ℕ → Type κ
  Remaining before existing m =
      (k : K) → count_of k m ≡ occurrences stored_key k existing - occurrences row_key k before

  Remaining-absorbed :
      (before : List Row) (row : Row) (existing : List Stored) (m : Assoc K ℕ)
      → Remaining before existing m
      → Remaining (row ∷ before) existing (insert (row_key row) (count_of (row_key row) m - 1) m)
  Remaining-absorbed before row existing m h k = ground (
    arith,
    count_of-insert (row_key row) k (count_of (row_key row) m - 1) m,
    ==_iff (row_key row) k,
    h k,
  )

  Remaining-new :
      (before : List Row) (row : Row) (existing : List Stored) (m : Assoc K ℕ)
      → ltb 0 (count_of (row_key row) m) ≡ false
      → Remaining before existing m
      → Remaining (row ∷ before) existing m
  Remaining-new before row existing m none_left h k = ground (arith, ==_iff (row_key row) k, h k)

  absorb-by_count :
      (before rows : List Row) (existing : List Stored) (m : Assoc K ℕ)
      → Remaining before existing m
      → absorb row_key stored_key rows m ≡ by_count before rows existing
  unfolding absorb by_count
  absorb-by_count before [] existing m h = refl
  absorb-by_count before (row ∷ rows) existing m h =
      elim (Bool-cases (ltb 0 (count_of (row_key row) m))) [
        | inl stored ↦
            let late : leb (occurrences stored_key (row_key row) existing)
                  (occurrences row_key (row_key row) before)
                ≡ false =
              ground (arith, h (row_key row)) in
            rw (absorb, stored, by_count, late)
              (ap (λ r. (r.0, row ∷ r.1))
                (absorb-by_count (row ∷ before) rows existing _
                  (Remaining-absorbed before row existing m h)))
        | inr none_left ↦
            let beyond : leb (occurrences stored_key (row_key row) existing)
                  (occurrences row_key (row_key row) before)
                ≡ true =
              ground (arith, h (row_key row)) in
            rw (absorb, none_left, by_count, beyond)
              (ap (λ r. (row ∷ r.0, r.1))
                (absorb-by_count (row ∷ before) rows existing m
                  (Remaining-new before row existing m none_left h)))
      ]

  -- A row of the sheet is new exactly if at least as many rows before it have its key as are stored with that
  -- key, and is a duplicate otherwise; both lists are in the order of the sheet.
  pub partition_by_key-by_count :
      (rows : List Row) (existing : List Stored)
      → partition_by_key row_key stored_key rows existing ≡ by_count [] rows existing
  unfolding partition_by_key lookup
  partition_by_key-by_count rows existing =
      absorb-by_count [] rows existing (tally row_key stored_key existing [])
        (λ k. omega (arith, count_of-tally k existing []))

  occurrences-append :
      (k : K) (xs ys : List Stored)
      → occurrences stored_key k (xs ++ ys)
        ≡ occurrences stored_key k xs + occurrences stored_key k ys
  occurrences-append k xs ys =
      ap length (keep-append (λ x. stored_key x == k) xs ys)
      ∙ length-append (keep (λ x. stored_key x == k) xs) (keep (λ x. stored_key x == k) ys)

  none-occurs : (rows : List Row) → ((k : K) → occurrences row_key k rows ≡ 0) → rows ≡ []
  none-occurs [] h = refl
  none-occurs (row ∷ rows) h = absurd (ground (arith, h (row_key row), ==_refl (row_key row)))

  occurrences-map :
      (store : Row → Stored) (k : K) (rows : List Row)
      → ((row : Row) → stored_key (store row) ≡ row_key row)
      → occurrences stored_key k (map store rows) ≡ occurrences row_key k rows
  occurrences-map store k [] h = refl
  occurrences-map store k (row ∷ rows) h = ground (arith, occurrences-map store k rows h, h row)

  -- Importing a sheet again adds nothing: once its new rows are stored, under the keys that they had, none of
  -- its rows is new.
  pub partition_by_key_again :
      (store : Row → Stored) (rows : List Row) (existing : List Stored)
      → ((row : Row) → stored_key (store row) ≡ row_key row)
      → (partition_by_key row_key stored_key rows
          (existing ++ map store (partition_by_key row_key stored_key rows existing).0)).0
        ≡ []
  partition_by_key_again store rows existing h =
      let fresh = (partition_by_key row_key stored_key rows existing).0 in
      none-occurs (partition_by_key row_key stored_key rows (existing ++ map store fresh)).0 (λ k.
        omega (
          arith,
          occurrences-partition_by_key k rows (existing ++ map store fresh),
          occurrences-append k existing (map store fresh),
          occurrences-map store k fresh h,
          occurrences-partition_by_key k rows existing,
        ))
