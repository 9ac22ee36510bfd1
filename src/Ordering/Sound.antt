-- ===== src/Ordering/Sound.antt =====
-- src/ordering.rs: `find_block_records` neither panics nor runs forever, and what it returns.
use hyperliquid_market_bench.Prelude.{
  ℕ, zero, suc, ◌+◌, ◌-◌, ◌*◌, ◌≤◌, ◌<◌, ◌≡◌, List, [], ◌∷◌, Option, none, some, length, All, leb,
  ◌==◌, Option-cases, inl, inr, ◌⊎◌, Ensures, Ensures->>=, Yields, Yields->>=, Yields-if,
  Yields-any, Ensures-if, get_elem?, ◌>>=◌, subst, arith, ◌&&◌, ◌||◌,
}
use hyperliquid_market_bench.Bytes.{slice, le_at}
use hyperliquid_market_bench.Bytes.Laws.{slice-length, index-Ensures, le_at-Ensures}
use hyperliquid_market_bench.Ordering.{BlockHeader, copy_hashes, read_varint, wrapping_succ}
use hyperliquid_market_bench.Ordering.Hashes.{HasHashes, IsHeader, copy_hashes-HasHashes}
use hyperliquid_market_bench.Ordering.Records.{
  in_window, marked_record, scan_at, scan_from, scan_block_records,
}

-- The round is in the window, or follows a round that is.
abbrev pub InReach : ℕ → ℕ → ℕ → Type 0
InReach lo hi round =
    ((lo ≤ round) × (round ≤ hi))
    ⊎ ((parent : ℕ) × (lo ≤ parent) × (parent ≤ hi) × (round ≡ wrapping_succ parent))

-- A proposer of 20 bytes, 1 to 1024 hashes of 32 bytes, and a round in reach of the window.
abbrev pub IsBlock : ℕ → ℕ → BlockHeader → Type 0
IsBlock lo hi h = IsHeader h × (1 ≤ length h.tx_hashes) × InReach lo hi h.round

-- A varint takes a byte at least.
pub read_varint-Yields : (d : List ℕ) (i : ℕ) → Yields (λ v. i < v.1) (read_varint d i)
unfolding read_varint
read_varint-Yields d i = elim (Option-cases (get_elem? d i)) [
  | inl e ↦ rw e tt
  | inr (m, e) ↦ rw e (
      let Q = λ (v : ℕ × ℕ). i < v.1 in
      let value = λ (w n : ℕ) (h : i < i + n).
        Yields->>= (λ x. Unit {0}) Q (le_at w d (i + 1)) (λ v. some (v, i + n)) (Yields-any _)
          (λ v t. h) in
      Yields-if Q (m == 0xfb) _ _ (λ x. value 2 3 (omega arith))
        λ x.
          Yields-if Q (m == 0xfc) _ _ (λ x. value 4 5 (omega arith))
            λ x.
              Yields-if Q (m == 0xfd) _ _ (λ x. value 8 9 (omega arith))
                λ x.
                  Yields-if Q (m == 0xfe || m == 0xff) none (some (m, i + 1)) (λ x. tt)
                    (λ x. omega arith))
]

module _ (payload : List ℕ) (lo hi : ℕ) where
  abbrev Scanned : ℕ → Option (BlockHeader × ℕ) → Type 0
  Scanned p none = Unit {0}
  Scanned p (some (h, next)) = IsBlock lo hi h × (p < next)

  marked_record-Ensures :
      (p : ℕ)
      → 20 ≤ p
      → p + 5 ≤ length payload
      → Ensures (Scanned p) (marked_record payload lo hi p)
  unfolding marked_record
  marked_record-Ensures p h k =
      Ensures->>= (λ x. Unit {0}) (Scanned p) (le_at 4 payload (p + 1)) _
        (le_at-Ensures 4 payload (p + 1) (omega arith))
        λ round t.
          Ensures-if (Scanned p) (in_window lo hi round) _ (some none)
            (λ win. elim (Option-cases (read_varint payload (p + 5))) [
              | inl e ↦ rw e tt
              | inr (v, e) ↦ rw e (
                  Ensures-if (Scanned p)
                    (leb 1 v.0 && leb v.0 64 && leb (v.1 + v.0 * 32) (length payload)) _ (some none)
                    (λ fits.
                      Ensures->>= (λ s. length s ≡ p - (p - 20)) (Scanned p)
                        (slice payload (p - 20) p) _
                        (slice-length payload (p - 20) p (omega arith) (omega arith))
                        λ proposer n.
                          Ensures->>= (HasHashes v.0) (Scanned p) (copy_hashes v.0 payload v.1) _
                            (copy_hashes-HasHashes v.0 payload v.1 (ground arith))
                            λ hashes c.
                              let few : (1 ≤ v.0) × (v.0 ≤ 64) = ground arith in
                              let next : p + 5 < v.1 =
                                subst (Yields (λ (v : ℕ × ℕ). p + 5 < v.1)) e
                                  (read_varint-Yields payload (p + 5)) in
                              (
                                (
                                  (omega (arith, n), omega (arith, c.0, few), c.1),
                                  omega (arith, c.0, few),
                                  inl (ground arith, ground arith),
                                ),
                                omega (arith, next),
                              ))
                    (λ x. tt))
            ])
            (λ x. tt)

  scan_at-Ensures :
      (p : ℕ) → 20 ≤ p → p + 5 ≤ length payload → Ensures (Scanned p) (scan_at payload lo hi p)
  unfolding scan_at
  scan_at-Ensures p h k =
      Ensures->>= (λ x. Unit {0}) (Scanned p) (get_elem? payload p) _
        (index-Ensures payload p (omega arith))
        λ marker t.
          Ensures-if (Scanned p) (marker == 0xfc) _ (some none) (λ x. marked_record-Ensures p h k)
            (λ x. tt)

  abbrev pub Blocks : List BlockHeader → Type 0
  Blocks = All (IsBlock lo hi)

  -- Each round moves on by a byte at least, so that the payload's length is enough fuel.
  scan_from-Ensures :
      (fuel p : ℕ)
      → 20 ≤ p
      → length payload < p + fuel + 5
      → Ensures Blocks (scan_from fuel payload lo hi p)
  unfolding scan_from
  scan_from-Ensures zero p h k = ground arith
  scan_from-Ensures (suc fuel) p h k =
      Ensures-if Blocks (leb (p + 5) (length payload)) _ (some [])
        (λ more.
          Ensures->>= (Scanned p) Blocks (scan_at payload lo hi p) _
            (scan_at-Ensures p h (ground arith)) (scanned fuel p h k (scan_from-Ensures fuel)))
        (λ x. tt)
    where
      scanned :
          (fuel p : ℕ)
          → 20 ≤ p
          → length payload < p + suc fuel + 5
          → ((q : ℕ)
              → 20 ≤ q
              → length payload < q + fuel + 5
              → Ensures Blocks (scan_from fuel payload lo hi q))
          → (found : Option (BlockHeader × ℕ)) → Scanned p found
          → Ensures Blocks (elim found [
            | none ↦ scan_from fuel payload lo hi (p + 1)
            | some (header, next) ↦
                scan_from fuel payload lo hi next >>= λ rest. some (header ∷ rest)
          ])
      scanned fuel p h k again none s = again (p + 1) (omega arith) (omega arith)
      scanned fuel p h k again (some (header, next)) s =
          Ensures->>= Blocks Blocks (scan_from fuel payload lo hi next) _
            (again next (omega (arith, s.1)) (omega (arith, s.1))) (λ rest r. (s.0, r))

  pub scan_block_records-Ensures : Ensures Blocks (scan_block_records payload lo hi)
  unfolding scan_block_records
  scan_block_records-Ensures = scan_from-Ensures (length payload) 20 (omega arith) (omega arith)
