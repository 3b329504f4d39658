-- ===== src/Imports/Window.antt =====
-- The lookup of stored dividends covers every row of the sheet.
use portfolio_dashboard.Prelude.{
  ◌≡◌, ◌≤◌, ◌+◌, ◌-◌, true, List, [], ◌∷◌, arith, exists, exists-append, nat_beq, All,
}
use portfolio_dashboard.Clock.{day_length}
use portfolio_dashboard.Imports.{ImportRow, LookupWindow, widen, window}

module _ {F : Type 0} where
  -- The row's whole day lies in the window, and its holding is listed.
  abbrev pub IsCovered : LookupWindow → ImportRow F → Type 0
  IsCovered w row =
      (w.from ≤ row.day)
      × (row.day ≤ w.to)
      × (exists (λ id. nat_beq id row.holding.id) w.holding_ids ≡ true)

  abbrev pub IsLookedUp : LookupWindow → ImportRow F → Type 0
  IsLookedUp w row =
      (w.from ≤ row.day)
      × (row.day + day_length ≤ w.to + 1)
      × (exists (λ id. nat_beq id row.holding.id) w.holding_ids ≡ true)

  -- What a window covers, a widened one does.
  widen-IsCovered :
      (row : ImportRow F) (rows : List (ImportRow F)) (w : LookupWindow)
      → IsCovered w row
      → IsCovered (widen rows w) row
  unfolding widen
  widen-IsCovered row [] w h = h
  widen-IsCovered row (r ∷ rows) w h = widen-IsCovered row rows _ (
    ground arith,
    ground arith,
    ground
        (arith, exists-append (λ id. nat_beq id row.holding.id) w.holding_ids (r.holding.id ∷ [])),
  )

  widen-All : (rows : List (ImportRow F)) (w : LookupWindow) → All (IsCovered (widen rows w)) rows
  unfolding widen
  widen-All [] w = tt
  widen-All (r ∷ rows) w = (
    widen-IsCovered r rows _ (
      ground arith,
      ground arith,
      ground
          (arith, exists-append (λ id. nat_beq id r.holding.id) w.holding_ids (r.holding.id ∷ [])),
    ),
    widen-All rows _,
  )

  All-close :
      (rows : List (ImportRow F)) (w : LookupWindow)
      → All (IsCovered w) rows
      → All (IsLookedUp (record w { to = w.to + day_length - 1 })) rows
  All-close [] w h = tt
  All-close (r ∷ rows) w (h, hs) = ((h.0, omega (arith, h.1), h.2), All-close rows w hs)

  -- The window of a sheet covers each of its rows: the row's whole day lies between the bounds, and its
  -- holding is listed.
  pub window-All :
      (row : ImportRow F) (rows : List (ImportRow F))
      → All (IsLookedUp (window row rows)) (row ∷ rows)
  unfolding window
  window-All row rows =
      All-close (row ∷ rows) _
        (widen-All (row ∷ rows) (record { from = row.day; to = row.day; holding_ids = [] }))
