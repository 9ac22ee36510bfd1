-- ===== src/Peering/Stream.antt =====
-- src/peering.rs: `consume_frames` does not panic, ends, and does not depend on the cuts of the
-- stream.
use hyperliquid_market_bench.Prelude.{
  ℕ, zero, suc, ◌-◌, ◌≤◌, ◌<◌, ◌≡◌, List, [], ◌++◌, Option, some, ◌&&◌, length, length-append,
  for_each-Ensures, Option-cases, inl, inr, arith, Ensures, Ensures->>=, Ensures-if, subst, ◌==◌,
  get_elem?, All,
}
use hyperliquid_market_bench.Bytes.{slice, drop, is_byte}
use hyperliquid_market_bench.Bytes.Laws.{slice-length, index-Ensures}
use hyperliquid_market_bench.Ordering.Records.{ordering_rounds, find_block_records}
use hyperliquid_market_bench.Ordering.Sound.{IsBlock}
use hyperliquid_market_bench.Ordering.Own.{find_block_records-IsBlock}
use hyperliquid_market_bench.Peering.{Assembly, round_window}
use hyperliquid_market_bench.Peering.Frames.{
  Consumed, consumed, desync, partial, oversize, whole, frame_head, consume_head, consume_frame,
  consume_from, consume, consume_frames, track_frame, track_payload, decompress_data_frame,
}
use hyperliquid_market_bench.Peering.Cuts.{
  IsHead, frame_head-IsHead, frame_head-append, consume_frame-append, consume_from-append,
  length-drop, drop-append,
}

module _ {ℓ} {S : Type ℓ} (handle : ℕ → List ℕ → S → Option S) where
  consume_from-desync :
      (f g : ℕ) (a b : List ℕ) (s t : S)
      → length a < f
      → length (a ++ b) < g
      → consume_from handle f a s ≡ some (desync t)
      → consume_from handle g (a ++ b) s ≡ some (desync t)
  unfolding consume_from consume_head
  consume_from-desync zero g a b s t hf hg h = absurd (omega arith)
  consume_from-desync (suc f) zero a b s t hf hg h = absurd (omega arith)
  consume_from-desync (suc f) (suc g) a b s t hf hg h = elim (Option-cases (frame_head a)) [
    | inl e ↦ absurd (ground arith)
    | inr (partial, e) ↦ absurd (ground arith)
    | inr (oversize, e) ↦ rw (frame_head-append a b oversize e (λ p. cc)) (ground arith)
    | inr (whole total, e) ↦
        let i = subst (Ensures (IsHead a)) e (frame_head-IsHead a) in
        elim (Option-cases (consume_frame handle a total s)) [
          | inl q ↦ absurd (ground arith)
          | inr (u, q) ↦
              let h' : consume_from handle f (drop total a) u ≡ some (desync t) = ground arith in
              rw
                (
                  frame_head-append a b (whole total) e (λ p. cc),
                  consume_frame-append handle a b total s i.0 i.1,
                  q,
                  drop-append total a b i.1,
                )
                (consume_from-desync f g (drop total a) b u t
                  (omega (arith, i, length-drop total a))
                  (omega (
                    arith,
                    i,
                    length-drop total a,
                    length-append {0} a b,
                    length-append {0} (drop total a) b,
                  ))
                  h')
        ]
  ]

  module _
      (total_handle : (kind : ℕ) (body : List ℕ) (s : S)
        → Ensures (λ t. Unit {0}) (handle kind body s)) where
    consume_frame-Ensures :
        (buf : List ℕ) (total : ℕ) (s : S)
        → 5 ≤ total
        → total ≤ length buf
        → Ensures (λ t. Unit {0}) (consume_frame handle buf total s)
    unfolding consume_frame
    consume_frame-Ensures buf total s h k =
        Ensures->>= (λ x. Unit {0}) (λ t. Unit {0}) (get_elem? buf 4) _
          (index-Ensures buf 4 (omega arith))
          λ kind t.
            Ensures->>= (λ b. length b ≡ total - 5) (λ t. Unit {0}) (slice buf 5 total) _
              (slice-length buf 5 total h k) (λ body e. total_handle kind body s)

    consume_from-Ensures :
        (fuel : ℕ) (buf : List ℕ) (s : S)
        → length buf < fuel
        → Ensures (λ t. Unit {0}) (consume_from handle fuel buf s)
    unfolding consume_from consume_head
    consume_from-Ensures zero buf s h = absurd (omega arith)
    consume_from-Ensures (suc fuel) buf s h = elim (Option-cases (frame_head buf)) [
      | inl e ↦ absurd (subst (Ensures (IsHead buf)) e (frame_head-IsHead buf))
      | inr (partial, e) ↦ rw e tt
      | inr (oversize, e) ↦ rw e tt
      | inr (whole total, e) ↦
          let i = subst (Ensures (IsHead buf)) e (frame_head-IsHead buf) in
          rw e (
            Ensures->>= (λ t. Unit {0}) (λ t. Unit {0}) (consume_frame handle buf total s) _
              (consume_frame-Ensures buf total s i.0 i.1)
              (λ t u.
                consume_from-Ensures fuel (drop total buf) t
                  (omega (arith, i, length-drop total buf))))
    ]

-- The rest of a stream goes on from what its first part left.
abbrev pub Continues :
    (ℕ → List ℕ → Assembly → Option Assembly)
    → List ℕ
    → List ℕ
    → Assembly
    → Consumed Assembly
    → Type 0
Continues handle a b s (consumed t rest) = consume handle (a ++ b) s ≡ consume handle (rest ++ b) t
Continues handle a b s (desync t) = consume handle (a ++ b) s ≡ some (desync t)

module _ (decompress : List ℕ → ℕ → Option (List ℕ)) (arrival wall_ms now : ℕ) where
  track_payload-Ensures :
      (payload : List ℕ) (a : Assembly)
      → Ensures (λ t. Unit {0}) (track_payload decompress arrival wall_ms now payload a)
  unfolding track_payload ordering_rounds
  track_payload-Ensures payload a =
      let any = λ (t : Assembly). Unit {0} in
      Ensures-if any (is_byte payload 0 0x00) _ _
        (λ x.
          Ensures->>= (λ r. Unit {0}) any (ordering_rounds payload a.max_ref_round round_window) _
            rounds_found λ rounds t. for_each-Ensures any _ (λ r s u. tt) rounds a tt)
        (λ x. Ensures-if any (is_byte payload 0 0x01) (some _) (some a) (λ x. tt) (λ x. tt))
    where
      rounds_found : Ensures (λ r. Unit {0}) (ordering_rounds payload a.max_ref_round round_window)
      rounds_found =
          Ensures-if (λ r. Unit {0}) (a.max_ref_round == 0) (some []) _ (λ x. tt)
            λ x.
              Ensures->>= (All (IsBlock _ _)) (λ r. Unit {0}) (find_block_records payload _ _) _
                (find_block_records-IsBlock payload _ _) (λ records t. tt)

  track_frame-Ensures :
      (kind : ℕ) (body : List ℕ) (a : Assembly)
      → Ensures (λ t. Unit {0}) (track_frame decompress arrival wall_ms now kind body a)
  unfolding track_frame
  track_frame-Ensures kind body a =
      let any = λ (t : Assembly). Unit {0} in
      Ensures-if any (kind == 0x01) _ _
        (λ x. elim (Option-cases (decompress_data_frame decompress body)) [
          | inl e ↦ rw e tt
          | inr (payload, e) ↦ rw e (track_payload-Ensures payload a)
        ])
        (λ x.
          Ensures-if any (kind == 0x00 && is_byte body 0 0x01) _ (some a)
            (λ x. track_payload-Ensures body a) (λ x. tt))

  -- On every buffer the frames are consumed without a panic, whatever the decompression answers,
  -- and the answer does not depend on where the stream is cut: what the first part leaves, followed
  -- by the second part, comes to the same as both parts in one buffer, the instants of arrival
  -- being equal. After an oversize frame nothing more is read.
  pub consume_frames-Continues :
      (a b : List ℕ) (s : Assembly)
      → Ensures
          (Continues (track_frame decompress arrival wall_ms now) a b s)
          (consume_frames decompress arrival wall_ms now a s)
  unfolding consume_frames
  consume_frames-Continues a b s =
      let handle = track_frame decompress arrival wall_ms now in
      elim (Option-cases (consume handle a s)) [
        | inl e ↦
            let r =
              consume_from-Ensures handle track_frame-Ensures (suc (length a)) a s (omega arith) in
            absurd (subst (Ensures (λ t. Unit {0})) e r)
        | inr (consumed t rest, e) ↦ rw e (
            consume_from-append handle (suc (length a)) (suc (length (a ++ b)))
              (suc (length (rest ++ b))) a b rest s t (omega arith) (omega arith) (omega arith) e)
        | inr (desync t, e) ↦ rw e (
            consume_from-desync handle (suc (length a)) (suc (length (a ++ b))) a b s t
              (omega arith) (omega arith) e)
      ]
