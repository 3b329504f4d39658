-- ===== src/Snapshot/Buckets.antt =====
-- What the buckets of a line-backed snapshot hold.
use portfolio_dashboard.Prelude.{
  ◌≡◌, true, some, List, [], ◌∷◌, String, if◌then◌else◌, ◌==◌, ==_iff, arith, refl, string_eq, ap,
  ◌∙◌, exists, Bool-cases, inl, inr,
}
use portfolio_dashboard.Prelude.Assoc.{Assoc, lookup, insert, lookup-insert}
use portfolio_dashboard.Double.{Double, nought}
use portfolio_dashboard.Snapshot.{
  SnapshotSource, RegionSnapshot, HoldingSnapshot, all_currencies, get_or, zero_region, zero_cron,
  zero_buckets, add_to_region, add_lines, round_region, round_buckets, round2, buckets_from_lines,
}

module _ {F : Type 0} ⦃d : Double F⦄ where
  open d use {add}

  -- The sum of the amounts that a currency's lines carry, in their order, from a start.
  abbrev pub sum_of : (HoldingSnapshot F → F) → String → List (HoldingSnapshot F) → F → F
  sum_of amount c [] total = total
  sum_of amount c (ln ∷ lns) total =
      sum_of amount c lns (if ln.currency == c then add total (amount ln) else total)

  -- A bucket that the code makes of a currency's lines.
  abbrev pub bucket_of : String → List (HoldingSnapshot F) → RegionSnapshot F
  bucket_of c lns = record zero_cron {
    invested = round2 (sum_of (λ ln. ln.invested) c lns nought);
    current = round2 (sum_of (λ ln. ln.current) c lns nought);
  }

  abbrev after_lines : String → List (HoldingSnapshot F) → RegionSnapshot F → RegionSnapshot F
  after_lines c [] rs = rs
  after_lines c (ln ∷ lns) rs =
      after_lines c lns (if ln.currency == c then add_to_region ln rs else rs)

  lookup-zero_buckets :
      (c : String) (cs : List String)
      → exists (λ k. k == c) cs ≡ true
      → lookup c (zero_buckets {F = F} cs) ≡ some zero_cron
  unfolding zero_buckets
  lookup-zero_buckets c [] h = ground arith
  lookup-zero_buckets c (k ∷ cs) h =
      ground
        (arith, lookup-insert k c (zero_cron {F = F}) (zero_buckets cs), lookup-zero_buckets c cs)

  lookup-add_line :
      (c : String) (ln : HoldingSnapshot F) (m : Assoc String (RegionSnapshot F))
      (rs : RegionSnapshot F)
      → lookup c m ≡ some rs
      → let v = add_to_region ln (get_or (lookup ln.currency m) zero_region) in
        lookup c (insert ln.currency v m)
        ≡ some (if ln.currency == c then add_to_region ln rs else rs)
  lookup-add_line c ln m rs h =
      let v = add_to_region ln (get_or (lookup ln.currency m) zero_region) in
      elim (Bool-cases (ln.currency == c)) [
        | inl e ↦
            let same : ln.currency ≡ c = (==_iff ln.currency c).0 e in
            rw (lookup-insert ln.currency c v m, e)
              (ap (λ o. some (add_to_region ln (get_or o zero_region)))
                (ap (λ k. lookup k m) same ∙ h))
        | inr e ↦ rw (lookup-insert ln.currency c v m, e) h
      ]

  lookup-add_lines :
      (c : String) (lns : List (HoldingSnapshot F)) (m : Assoc String (RegionSnapshot F))
      (rs : RegionSnapshot F)
      → lookup c m ≡ some rs
      → lookup c (add_lines lns m) ≡ some (after_lines c lns rs)
  unfolding add_lines
  lookup-add_lines c [] m rs h = h
  lookup-add_lines c (ln ∷ lns) m rs h =
      lookup-add_lines c lns _ (if ln.currency == c then add_to_region ln rs else rs)
        (lookup-add_line c ln m rs h)

  after_lines-eq :
      (c : String) (lns : List (HoldingSnapshot F)) (rs : RegionSnapshot F)
      → rs.source ≡ SnapshotSource.cron
      → after_lines c lns rs ≡ record rs {
        source = SnapshotSource.cron;
        invested = sum_of (λ ln. ln.invested) c lns rs.invested;
        current = sum_of (λ ln. ln.current) c lns rs.current;
      }
  unfolding add_to_region
  after_lines-eq c [] rs h = ground arith
  after_lines-eq c (ln ∷ lns) rs h =
      ground (arith, after_lines-eq c lns rs h, after_lines-eq c lns (add_to_region ln rs) refl)

  lookup-round_buckets :
      (c : String) (m : Assoc String (RegionSnapshot F)) (rs : RegionSnapshot F)
      → lookup c m ≡ some rs
      → lookup c (round_buckets m) ≡ some (round_region rs)
  unfolding round_buckets lookup
  lookup-round_buckets c [] rs h = ground arith
  lookup-round_buckets c ((k, r) ∷ m) rs h = ground (arith, lookup-round_buckets c m rs)

  round_region-after_lines :
      (c : String) (lns : List (HoldingSnapshot F))
      → round_region (after_lines c lns zero_cron) ≡ bucket_of c lns
  unfolding round_region
  round_region-after_lines c lns = ground (arith, after_lines-eq c lns zero_cron refl)

  -- Every tracked currency has a bucket, marked as cron's, with each amount the rounded sum of that
  -- currency's lines in their order; with no such line it is the rounded zero.
  pub lookup-buckets_from_lines :
      (c : String) (lns : List (HoldingSnapshot F))
      → exists (λ k. k == c) all_currencies ≡ true
      → lookup c (buckets_from_lines lns) ≡ some (bucket_of c lns)
  unfolding buckets_from_lines
  lookup-buckets_from_lines c lns h =
      lookup-round_buckets c (add_lines lns (zero_buckets all_currencies))
        (after_lines c lns zero_cron)
        (lookup-add_lines c lns (zero_buckets all_currencies) zero_cron
          (lookup-zero_buckets c all_currencies h))
      ∙ ap some (round_region-after_lines c lns)
