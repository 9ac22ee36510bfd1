-- ===== src/Tests/Rounds.antt =====
-- Runs of the peering assembly at concrete rounds and bytes.
use hyperliquid_market_bench.Prelude.{
  ◌++◌, ℕ, refl, ◌≡◌, List, [], ◌∷◌, Option, none, some, false, Ensures,
}
use hyperliquid_market_bench.Model.Provider.{quick_node_grpc}
use hyperliquid_market_bench.Peering.{Assembly, TrackedRound}
use hyperliquid_market_bench.Peering.Drain.{drain_ready}
use hyperliquid_market_bench.Peering.Closes.{Closes}
use hyperliquid_market_bench.Peering.Drained.{drain_ready-once}
use hyperliquid_market_bench.Peering.Frames.{decompress_data_frame, track_frame, consume_frames}
use hyperliquid_market_bench.Bytes.{slice, le_at, be_from}
use hyperliquid_market_bench.Peering.Resync.{
  well_formed, frames_from, boundary_from, find_frame_boundary,
}
use hyperliquid_market_bench.Peering.Boundary.{IsFirst, find_frame_boundary-IsFirst}
use hyperliquid_market_bench.Peering.Stream.{Continues, consume_frames-Continues}

abbrev seven : TrackedRound
seven = record {
  ordering = some (40, 1040);
  reference = some (record { time_ms = 1000; bundle_sigs = (1 ∷ []) ∷ (2 ∷ []) ∷ [] });
  first_seen = some 40;
  reported_gap = false;
}

-- The second bundle of round 7 is the last to arrive.
abbrev assembly : Assembly
assembly = record {
  provider = quick_node_grpc;
  coin = "BTC";
  rounds = (7, seven) ∷ [];
  bundles =
      (1 ∷ [], record { arrived = 30; wall_ms = 1030; seen = 30 })
      ∷ (2 ∷ [], record { arrived = 50; wall_ms = 1050; seen = 50 })
      ∷ [];
  max_ref_round = 7;
  emitted_high_water = 0;
  gaps_no_ordering = 0;
  gaps_missing_bundle = 0;
  completed = 0;
  score_from_ms = 0;
}

drain_ready-once_example : (drain_ready 60 (drain_ready 60 assembly).1).0 ≡ ([], 0)
drain_ready-once_example = drain_ready-once 60 assembly

abbrev no_blocks : List ℕ → ℕ → Option (List ℕ)
no_blocks block size = none

-- A frame of one byte, and the head of another.
abbrev cut_stream : List ℕ
cut_stream = 0 ∷ 0 ∷ 0 ∷ 1 ∷ 0 ∷ 1 ∷ 0 ∷ 0 ∷ []

consume_frames-Continues_example :
    Ensures
      (Continues (track_frame no_blocks 50 1050 50) cut_stream (0 ∷ 2 ∷ []) assembly)
      (consume_frames no_blocks 50 1050 50 cut_stream assembly)
consume_frames-Continues_example =
    consume_frames-Continues no_blocks 50 1050 50 cut_stream (0 ∷ 2 ∷ []) assembly

abbrev small_frame : List ℕ
small_frame = 0 ∷ 0 ∷ 0 ∷ 1 ∷ 0 ∷ 7 ∷ []

-- The end of a frame, three frames of kind 0 and one of kind 1.
abbrev joined_stream : List ℕ
joined_stream =
    0xab
    ∷ 0xcd
    ∷ (small_frame
        ++ (small_frame ++ (small_frame ++ (0 ∷ 0 ∷ 0 ∷ 5 ∷ 1 ∷ 1 ∷ 0 ∷ 0 ∷ 0 ∷ 9 ∷ []))))

abbrev same_bytes : List ℕ → ℕ → Option (List ℕ)
same_bytes body size = some body

found_boundary : find_frame_boundary same_bytes joined_stream ≡ some (some 2)
unfolding find_frame_boundary boundary_from frames_from well_formed decompress_data_frame slice
    le_at be_from
found_boundary = refl

find_frame_boundary-IsFirst_example :
    Ensures (IsFirst same_bytes joined_stream) (find_frame_boundary same_bytes joined_stream)
find_frame_boundary-IsFirst_example = find_frame_boundary-IsFirst same_bytes joined_stream
