-- ===== src/Outbox/Sound.antt =====
-- src/axiom.rs: the caps, the order and the gauges of the outbox are kept by every submission.
use hyperliquid_market_bench.Prelude.{
  ℕ, ◌+◌, ◌^◌, ◌≤◌, ◌<◌, ◌≡◌, ◌∙◌, List, [], ◌∷◌, ◌++◌, some, false, length, length-append, All,
  All-append, add_u64, arith,
}
use hyperliquid_market_bench.Outbox.{
  IngestHealth, OutboxFile, PersistentOutbox, with_health, last, next_order, over_cap, pushed,
  max_events_per_batch, max_batch_bytes,
}

unfoldable pub total : List OutboxFile → ℕ
total [] = 0
total (f ∷ files) = f.bytes + total files

-- Ordering keys that do not fall from front to back.
abbrev pub IsOrdered : List OutboxFile → Type 0
IsOrdered [] = Unit {0}
IsOrdered (f ∷ []) = Unit {0}
IsOrdered (f ∷ g ∷ files) = (f.order ≤ g.order) × IsOrdered (g ∷ files)

abbrev pub IsBatch : OutboxFile → Type 0
IsBatch f = (f.bytes ≤ max_batch_bytes) × (1 ≤ f.events) × (f.events ≤ max_events_per_batch)

-- The caps are machine words; the files and their bytes are within them, ordered, and counted by
-- the gauges.
pub record IsSound (o : PersistentOutbox) : Type 0 where
  pub words : (o.config.max_files < 2 ^ 64) × (o.config.max_bytes < 2 ^ 64)
  pub files_cap : length o.files ≤ o.config.max_files
  pub bytes_sum : o.bytes ≡ total o.files
  pub bytes_cap : o.bytes ≤ o.config.max_bytes
  pub ordered : IsOrdered o.files
  pub batches : All IsBatch o.files
  pub batches_gauge : o.health.pending_batches ≡ length o.files
  pub bytes_gauge : o.health.pending_bytes ≡ o.bytes

pub total-append : (xs ys : List OutboxFile) → total (xs ++ ys) ≡ total xs + total ys
unfolding total
total-append [] ys = omega arith
total-append (x ∷ xs) ys = omega (arith, total-append xs ys)

pub IsOrdered-append :
    (now order : ℕ) (file : OutboxFile) (files : List OutboxFile)
    → IsOrdered files
    → next_order now (last files) ≡ some order
    → file.order ≡ order
    → IsOrdered (files ++ (file ∷ []))
unfolding next_order
IsOrdered-append now order file [] h n e = tt
IsOrdered-append now order file (f ∷ []) h n e = (ground arith, tt)
IsOrdered-append now order file (f ∷ g ∷ files) h n e =
    (h.0, IsOrdered-append now order file (g ∷ files) h.1 n e)

module _ (o : PersistentOutbox) (sound : IsSound o) where
  pub pushed-IsSound :
      (file : OutboxFile)
      → IsBatch file
      → IsOrdered (o.files ++ (file ∷ []))
      → over_cap file.bytes o ≡ false
      → IsSound (pushed file o)
  unfolding add_u64 total
  pushed-IsSound file b i c = record {
    words = sound.words;
    files_cap = ground (arith, sound.files_cap, length-append {0} o.files (file ∷ []));
    bytes_sum = ground (arith, sound.bytes_sum, total-append o.files (file ∷ []));
    bytes_cap = ground arith;
    ordered = i;
    batches = All-append IsBatch o.files (file ∷ []) sound.batches (b, tt);
    batches_gauge = ground (
      arith,
      sound.words,
      sound.files_cap,
      sound.batches_gauge,
      length-append {0} o.files (file ∷ []),
    );
    bytes_gauge = ground (arith, sound.bytes_gauge);
  }

  -- Other counters than the gauges do not matter.
  pub with_health-IsSound :
      (f : IngestHealth → IngestHealth)
      → (f o.health).pending_batches ≡ o.health.pending_batches
      → (f o.health).pending_bytes ≡ o.health.pending_bytes
      → IsSound (with_health f o)
  with_health-IsSound f p q = record {
    words = sound.words;
    files_cap = sound.files_cap;
    bytes_sum = sound.bytes_sum;
    bytes_cap = sound.bytes_cap;
    ordered = sound.ordered;
    batches = sound.batches;
    batches_gauge = p ∙ sound.batches_gauge;
    bytes_gauge = q ∙ sound.bytes_gauge;
  }
