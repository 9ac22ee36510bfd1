-- ===== src/Outbox/Recovery.antt =====
-- src/axiom.rs: `PersistentOutbox::open`, which takes up the files that an earlier run left.
use hyperliquid_market_bench.Prelude.{
  ℕ, ◌+◌, ◌^◌, List, [], ◌∷◌, Option, none, some, Bool, true, false, ◌&&◌, ◌||◌, not, if◌then◌else◌,
  ltb, ◌==◌, length, ◌>>=◌,
}
use hyperliquid_market_bench.Outbox.{
  OutboxConfig, IngestHealth, OutboxFile, PersistentOutbox, max_batch_bytes,
}
use hyperliquid_market_bench.Outbox.Names.{
  suffix, ends_with, event_count_from_name, order_from_name,
}

-- An entry of the directory.
pub record Entry : Type 0 where
  pub name : List ℕ
  pub is_file : Bool
  pub bytes : ℕ

abbrev pub temporary : List ℕ
temporary = b'.' ∷ b't' ∷ b'm' ∷ b'p' ∷ []

-- A file of the outbox, or an entry that is passed over; none where opening fails.
unfoldable pub recover_file : Entry → Option (Option OutboxFile)
recover_file entry = do
  events ← event_count_from_name entry.name
  order ← order_from_name entry.name
  if ltb max_batch_bytes entry.bytes
      then none
      else some
          (some (record { name = entry.name; order = order; bytes = entry.bytes; events = events }))

unfoldable pub recover_entry : Entry → Option (Option OutboxFile)
recover_entry entry =
    if not entry.is_file || ends_with temporary entry.name || not (ends_with suffix entry.name)
    then some none
    else recover_file entry

abbrev pub cons_some : Option OutboxFile → List OutboxFile → List OutboxFile
cons_some none files = files
cons_some (some file) files = file ∷ files

unfoldable pub recover : List Entry → Option (List OutboxFile)
recover [] = some []
recover (entry ∷ entries) = do
  file ← recover_entry entry
  files ← recover entries
  some (cons_some file files)

unfoldable pub name_le : List ℕ → List ℕ → Bool
name_le [] name = true
name_le (a ∷ x) [] = false
name_le (a ∷ x) (b ∷ y) = ltb a b || (a == b && name_le x y)

abbrev pub comes_before : OutboxFile → OutboxFile → Bool
comes_before f g = ltb f.order g.order || (f.order == g.order && name_le f.name g.name)

-- `sort_by`, stable.
unfoldable pub insert_file : OutboxFile → List OutboxFile → List OutboxFile
insert_file f [] = f ∷ []
insert_file f (g ∷ files) = if comes_before f g then f ∷ g ∷ files else g ∷ insert_file f files

unfoldable pub sort_files : List OutboxFile → List OutboxFile
sort_files [] = []
sort_files (f ∷ files) = insert_file f (sort_files files)

-- The bytes in all; none where the sum overflows.
unfoldable pub checked_total : ℕ → List OutboxFile → Option ℕ
checked_total bytes [] = some bytes
checked_total bytes (f ∷ files) =
    let rest = checked_total (bytes + f.bytes) files in
    if ltb (bytes + f.bytes) (2 ^ 64) then rest else none

abbrev pub opened_health : ℕ → ℕ → IngestHealth
opened_health files bytes = record {
  pending_batches = files;
  pending_bytes = bytes;
  attempts = 0;
  batches_succeeded = 0;
  batches_failed = 0;
  batches_dropped = 0;
  events_succeeded = 0;
  events_dropped = 0;
  outbox_write_failures = 0;
  outbox_delete_failures = 0;
  outbox_cap_rejections = 0;
  last_success_wall_ms = 0;
}

unfoldable pub take_up : OutboxConfig → List OutboxFile → Option PersistentOutbox
take_up config files = do
  bytes ← checked_total 0 files
  if ltb config.max_files (length files) || ltb config.max_bytes bytes
      then none
      else some (record {
        config = config;
        files = files;
        bytes = bytes;
        health = opened_health (length files) bytes;
        stopping = false;
        poisoned = false;
      })

-- The directory can be made, locked, read and synced, or opening fails.
unfoldable pub open_outbox : OutboxConfig → Bool → List Entry → Option PersistentOutbox
open_outbox config usable entries =
    if config.max_files == 0 || config.max_bytes == 0 || not usable
    then none
    else (recover entries >>= λ files. take_up config (sort_files files))
