-- ===== src/Peering/Frames.antt =====
-- src/peering.rs: the frames of the gossip stream. The decompression of LZ4 blocks is a library's.
use hyperliquid_market_bench.Prelude.{
  ℕ, zero, suc, ◌+◌, ◌*◌, List, Option, none, some, ◌&&◌, ◌||◌, if◌then◌else◌, ltb, ◌==◌, length,
  get_elem?, ◌>>=◌, for_each,
}
use hyperliquid_market_bench.Bytes.{slice, drop, le_at, be_at, is_byte}
use hyperliquid_market_bench.Ordering.Records.{ordering_rounds}
use hyperliquid_market_bench.Peering.{Assembly, track_ordering, track_bundle, round_window}
use hyperliquid_market_bench.Peering.Payload.{bundle_first_sig}

abbrev pub max_frame_body : ℕ
max_frame_body = 8 * 1024 * 1024

abbrev pub max_payload : ℕ
max_payload = 16 * 1024 * 1024

-- A frame is taken apart; none is an index out of range. `desync` is the error of an oversize one.
pub data Consumed {ℓ} (S : Type ℓ) : Type ℓ where
  consumed : S → List ℕ → Consumed S
  desync : S → Consumed S

-- The buffer's head: less than a frame, an oversize frame, or a frame of a length.
pub data Head : Type 0 where
  partial : Head
  oversize : Head
  whole : ℕ → Head

unfoldable pub frame_head : List ℕ → Option Head
frame_head buf =
    if ltb (length buf) 5
    then some partial
    else (be_at 4 buf 0 >>= λ body_len.
        if ltb max_frame_body body_len
        then some oversize
        else if ltb (length buf) (5 + body_len)
        then some partial
        else some (whole (5 + body_len)))

-- The loop over the buffer from its offset on, with fuel; none is a panic or the end of the fuel.
-- A frame goes to the handler with its kind and its body.
module _ {ℓ} {S : Type ℓ} (handle : ℕ → List ℕ → S → Option S) where
  unfoldable pub consume_frame : List ℕ → ℕ → S → Option S
  consume_frame buf total s = do
    kind ← get_elem? buf 4
    body ← slice buf 5 total
    handle kind body s

  -- What the head of the buffer asks for, with the rest of the loop.
  unfoldable pub consume_head :
      List ℕ → S → (List ℕ → S → Option (Consumed S)) → Head → Option (Consumed S)
  consume_head buf s rest partial = some (consumed s buf)
  consume_head buf s rest oversize = some (desync s)
  consume_head buf s rest (whole total) = consume_frame buf total s >>= rest (drop total buf)

  unfoldable pub consume_from : ℕ → List ℕ → S → Option (Consumed S)
  consume_from zero buf s = none
  consume_from (suc fuel) buf s = frame_head buf >>= consume_head buf s (consume_from fuel)

  abbrev pub consume : List ℕ → S → Option (Consumed S)
  consume buf s = consume_from (suc (length buf)) buf s

unfoldable pub decompress_data_frame : (List ℕ → ℕ → Option (List ℕ)) → List ℕ → Option (List ℕ)
decompress_data_frame decompress body =
    if ltb (length body) 5
    then none
    else (le_at 4 body 0 >>= λ size.
        if size == 0 || ltb max_payload size then none else decompress (drop 4 body) size)

module _ (decompress : List ℕ → ℕ → Option (List ℕ)) (arrival wall_ms now : ℕ) where
  unfoldable pub track_sig : Option (List ℕ) → Assembly → Assembly
  track_sig none a = a
  track_sig (some sig) a = track_bundle sig arrival wall_ms now a

  -- One payload: an ordering record set or a bundle.
  unfoldable pub track_payload : List ℕ → Assembly → Option Assembly
  track_payload payload a =
      if is_byte payload 0 0x00
      then (ordering_rounds payload a.max_ref_round round_window >>= λ rounds.
          for_each (λ r b. some (track_ordering r.0 arrival wall_ms b)) rounds a)
      else if is_byte payload 0 0x01
      then some (track_sig (bundle_first_sig payload) a)
      else some a

  abbrev pub track_decoded : Option (List ℕ) → Assembly → Option Assembly
  track_decoded none a = some a
  track_decoded (some payload) a = track_payload payload a

  -- A kind-1 frame is compressed; a kind-0 frame is a bundle where its body starts with one.
  unfoldable pub track_frame : ℕ → List ℕ → Assembly → Option Assembly
  track_frame kind body a =
      if kind == 0x01
      then track_decoded (decompress_data_frame decompress body) a
      else if kind == 0x00 && is_byte body 0 0x01
      then track_payload body a
      else some a

  unfoldable pub consume_frames : List ℕ → Assembly → Option (Consumed Assembly)
  consume_frames buf a = consume track_frame buf a
