-- ===== src/Peering/Blocks.antt =====
-- src/peering.rs: what the decoded assembly makes of a round's block.
use mathlib.Core.List.{Permᴰ}
use hyperliquid_market_bench.Prelude.{
  ℕ, ◌<◌, ◌≡◌, refl, ap, ◌∙◌, List, Option, none, some, true, false, String, ltb, if_elim, arith,
  inl, inr, ℕ_discrete, ◌||◌, ◌==◌, max, ◌≤◌, ◌⊎◌,
}
use hyperliquid_market_bench.Dict.{Map, get, insert}
use hyperliquid_market_bench.Dict.Laws.{get-insert}
use hyperliquid_market_bench.Peering.{Sig, ReferenceLine, abs_diff, round_window}
use hyperliquid_market_bench.Peering.Decoded.{
  DecodedLine, DecodedRound, DecodedAssembly, is_block, hashes, hash_texts, track_line,
  track_decoded_reference, line_entry, Outcome, sample, gap, decoded_event, unreported_outcome,
  sort_hashes, Hashes_discrete, or_undecoded, with_line,
}
use hyperliquid_market_bench.Peering.Hashes.{sort_hashes-same}

-- A round of which both the block and the reference are known: a sample where the block's bundles
-- are the reference's in some order, and a gap where they are not.
abbrev pub Compares : String → ℕ → ℕ → ℕ → ℕ → List Sig → List Sig → Outcome → Type 0
Compares coin round arrival wall_ms time_ms hs ks outcome =
    ((outcome ≡ sample (decoded_event coin round arrival wall_ms time_ms)) × Permᴰ hs ks)
    ⊎ ((outcome ≡ gap) × ¬ Permᴰ hs ks)

pub unreported_outcome-Compares :
    (coin : String) (now round arrival wall_ms time_ms : ℕ) (hs ks : List Sig) (seen : Option ℕ)
    → Compares coin round arrival wall_ms time_ms hs ks (
        unreported_outcome coin now round
          (some (arrival, wall_ms, sort_hashes hs))
          (some (time_ms, sort_hashes ks))
          seen)
unfolding unreported_outcome
unreported_outcome-Compares coin now round arrival wall_ms time_ms hs ks seen =
    elim (Hashes_discrete (sort_hashes hs) (sort_hashes ks))
      as (λ d. Compares coin round arrival wall_ms time_ms hs ks (elim d as (λ x. Outcome) [
        | yes same ↦ sample (decoded_event coin round arrival wall_ms time_ms)
        | no differ ↦ gap
      ])) [
        | yes same ↦ inl (refl, (sort_hashes-same hs ks).0 same)
        | no differ ↦ inr (refl, λ p. differ ((sort_hashes-same hs ks).1 p))
      ]

-- The entry of a round, as its reference and its block leave it.
abbrev pub joined_entry : ℕ → ℕ → ℕ → ℕ → List Sig → List Sig → DecodedRound
joined_entry now arrival wall_ms time_ms hs ks = record {
  line = some (arrival, wall_ms, sort_hashes hs);
  reference = some (time_ms, sort_hashes ks);
  first_seen = some now;
  reported = false;
}

abbrev pub joined_reference : ℕ → ℕ → List Sig → DecodedRound
joined_reference now time_ms ks = record {
  line = none;
  reference = some (time_ms, sort_hashes ks);
  first_seen = some now;
  reported = false;
}

pub get_inserted :
    {V : Type 0} (k : ℕ) (v : V) (m : Map ℕ V) → get ℕ_discrete k (insert ℕ_discrete k v m) ≡ some v
get_inserted k v m = rw (get-insert ℕ_discrete k k v m) (ground arith)

abbrev pub reference_of : ℕ → String → List (List ℕ × Option (List ℕ) × ℕ) → ReferenceLine
reference_of round t b = record { r = round; t = t; b = b }

abbrev pub block_of : String → ℕ → List (List ℕ) → DecodedLine
block_of kind round texts = record {
  kind = kind;
  round = round;
  complete = true;
  signed_action_bundles = texts;
}

pub track_line-joined :
    (parse_time : String → Option ℕ) (t : String) (b : List (List ℕ × Option (List ℕ) × ℕ))
    (kind : String) (texts : List (List ℕ)) (round now arrival wall_ms time_ms : ℕ)
    (hs ks : List Sig) (a : DecodedAssembly)
    → get ℕ_discrete round a.rounds ≡ none
    → parse_time t ≡ some time_ms
    → hashes (hash_texts b) ≡ some ks
    → is_block kind ≡ true
    → hashes texts ≡ some hs
    → 0 < max a.max_ref_round round
    → abs_diff round (max a.max_ref_round round) ≤ round_window
    → get ℕ_discrete round
        (track_line
          (block_of kind round texts)
          arrival
          wall_ms
          (track_decoded_reference parse_time (reference_of round t b) now a)).rounds
      ≡ some (joined_entry now arrival wall_ms time_ms hs ks)
unfolding track_line track_decoded_reference line_entry
track_line-joined parse_time t b kind texts round now arrival wall_ms time_ms hs ks a unseen at_time
      of_reference kinded of_block anchored near =
    let closed : ((max a.max_ref_round round == 0)
          || ltb round_window (abs_diff round (max a.max_ref_round round)))
        ≡ false =
      ground arith in
    let first = joined_reference now time_ms ks in
    rw (at_time, of_reference, unseen, kinded)
      (if_elim
        (λ (q : DecodedAssembly).
          get ℕ_discrete round q.rounds ≡ some (joined_entry now arrival wall_ms time_ms hs ks))
        ((max a.max_ref_round round == 0)
          || ltb round_window (abs_diff round (max a.max_ref_round round)))
        _ _ (λ u. absurd (ground arith))
        (λ u.
          get_inserted round _ (insert ℕ_discrete round first a.rounds)
          ∙ ap (λ e. some (line_entry (block_of kind round texts) arrival wall_ms (or_undecoded e)))
              (get_inserted round first a.rounds)
          ∙ ap (λ found. some (with_line found arrival wall_ms first)) of_block))
