-- ===== src/Peering/Resync.antt =====
-- src/peering.rs: the search for a frame boundary after joining mid-stream. None is an index out of
-- range.
use hyperliquid_market_bench.Prelude.{
  ℕ, zero, suc, ◌+◌, ◌-◌, List, Option, none, some, Bool, true, false, ◌||◌, not, is_some,
  if◌then◌else◌, ltb, ◌==◌, length, get_elem?, ◌>>=◌,
}
use hyperliquid_market_bench.Bytes.{slice, be_at}
use hyperliquid_market_bench.Peering.Frames.{max_frame_body, decompress_data_frame}

abbrev pub resync_frames : ℕ
resync_frames = 4

module _ (decompress : List ℕ → ℕ → Option (List ℕ)) (buf : List ℕ) where
  -- A frame of a kind and a body, and the frames behind it.
  unfoldable pub well_formed : ℕ → ℕ → ℕ → Bool → (ℕ → Bool → Option Bool) → Option Bool
  well_formed body_len kind offset decoded rest =
      let total = 5 + body_len in
      if body_len == 0 || ltb max_frame_body body_len || ltb 1 kind
      then some false
      else if ltb (length buf - offset) total
      then some false
      else if kind == 1
      then (slice buf (offset + 5) (offset + total) >>= λ body.
          if not (is_some (decompress_data_frame decompress body))
          then some false
          else rest (offset + total) true)
      else rest (offset + total) decoded

  unfoldable pub frames_from : ℕ → ℕ → Bool → Option Bool
  frames_from zero offset decoded = some decoded
  frames_from (suc left) offset decoded = if ltb (length buf - offset) 5 then some false else (do
    body_len ← be_at 4 buf offset
    kind ← get_elem? buf (offset + 4)
    well_formed body_len kind offset decoded (frames_from left))

  unfoldable pub boundary_from : ℕ → ℕ → Option (Option ℕ)
  boundary_from zero start = some none
  boundary_from (suc left) start =
      let later = boundary_from left (suc start) in
      frames_from resync_frames start false >>= λ found. if found then some (some start) else later

  unfoldable pub find_frame_boundary : Option (Option ℕ)
  find_frame_boundary = boundary_from (length buf - 5) 0
