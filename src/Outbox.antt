-- ===== src/Outbox.antt =====
-- src/axiom.rs: the outbox, which holds the batches on disk until the server has taken them. The
-- file system's and the clock's answers are arguments; a lock is held over a whole call, and an
-- acknowledgement is written as one call.
pub mod Worker
pub mod Sound
pub mod Submit
pub mod Fifo
pub mod Delivery
pub mod Taken
pub mod Runs
pub mod Names
pub mod Reread
pub mod Recovery
pub mod Directory
pub mod Restored
pub mod Reopened
use hyperliquid_market_bench.Prelude.{
  ℕ, zero, suc, ◌+◌, ◌-◌, ◌*◌, ◌%◌, ◌^◌, ◌≤◌, ◌<◌, max, List, [], ◌∷◌, ◌++◌, Option, none, some,
  Bool, true, false, ◌&&◌, ◌||◌, if◌then◌else◌, ltb, leb, ◌==◌, length, add_u64,
}

abbrev pub max_events_per_batch : ℕ
max_events_per_batch = 10000

abbrev pub max_batch_bytes : ℕ
max_batch_bytes = 4 * 1024 * 1024

pub record OutboxConfig : Type 0 where
  pub max_files : ℕ
  pub max_bytes : ℕ

pub record IngestHealth : Type 0 where
  pub pending_batches : ℕ
  pub pending_bytes : ℕ
  pub attempts : ℕ
  pub batches_succeeded : ℕ
  pub batches_failed : ℕ
  pub batches_dropped : ℕ
  pub events_succeeded : ℕ
  pub events_dropped : ℕ
  pub outbox_write_failures : ℕ
  pub outbox_delete_failures : ℕ
  pub outbox_cap_rejections : ℕ
  pub last_success_wall_ms : ℕ

-- A file's name is the list of its bytes; its path is the directory's with the name.
pub record OutboxFile : Type 0 where
  pub name : List ℕ
  pub order : ℕ
  pub bytes : ℕ
  pub events : ℕ

pub record PersistentOutbox : Type 0 where
  pub config : OutboxConfig
  pub files : List OutboxFile
  pub bytes : ℕ
  pub health : IngestHealth
  pub stopping : Bool
  pub poisoned : Bool

-- `Ok(true)`, `Ok(false)` and `Err(..)`.
pub data Submitted : Type 0 where
  accepted : Submitted
  dropped : Submitted
  failed : Submitted

-- What the clock, the file system and the generator of identifiers answer.
pub record WriteAnswers : Type 0 where
  pub now_ms : ℕ
  pub name : ℕ → List ℕ
  pub written : Bool
  pub renamed : Bool
  pub synced : Bool

unfoldable pub record_drop : ℕ → Bool → IngestHealth → IngestHealth
record_drop events cap_rejection h = record h {
  batches_dropped = add_u64 h.batches_dropped 1;
  events_dropped = add_u64 h.events_dropped events;
  outbox_cap_rejections =
      if cap_rejection then add_u64 h.outbox_cap_rejections 1 else h.outbox_cap_rejections;
}

abbrev pub with_health : (IngestHealth → IngestHealth) → PersistentOutbox → PersistentOutbox
with_health f o = record o { health = f o.health }

abbrev pub write_failure : ℕ → IngestHealth → IngestHealth
write_failure events h =
    record_drop events false
      (record h { outbox_write_failures = add_u64 h.outbox_write_failures 1 })

-- `state.files.back()`.
abbrev pub last : List OutboxFile → Option OutboxFile
last [] = none
last (f ∷ []) = some f
last (f ∷ g ∷ files) = last (g ∷ files)

-- The ordering key of the next file; none where the keys are exhausted.
unfoldable pub next_order : ℕ → Option OutboxFile → Option ℕ
next_order now none = some now
next_order now (some file) =
    if ltb (file.order + 1) (2 ^ 64) then some (max now (file.order + 1)) else none

abbrev pub over_cap : ℕ → PersistentOutbox → Bool
over_cap bytes o =
    leb o.config.max_files (length o.files)
    || leb (2 ^ 64) (o.bytes + bytes)
    || ltb o.config.max_bytes (o.bytes + bytes)

abbrev pub pushed : OutboxFile → PersistentOutbox → PersistentOutbox
pushed file o = record o {
  files = o.files ++ (file ∷ []);
  bytes = o.bytes + file.bytes;
  health = record o.health {
    pending_batches = add_u64 o.health.pending_batches 1;
    pending_bytes = add_u64 o.health.pending_bytes file.bytes;
  };
}

abbrev pub poison : PersistentOutbox → PersistentOutbox
poison o = record o {
  poisoned = true;
  health = record o.health { outbox_write_failures = add_u64 o.health.outbox_write_failures 1 };
}

-- The steps on the disk: the temporary file, the rename, and the directory's fsync.
unfoldable pub write_file :
    WriteAnswers → OutboxFile → PersistentOutbox → Submitted × PersistentOutbox
write_file io file o =
    if io.written && io.renamed
    then if io.synced then (accepted, pushed file o) else (failed, poison o)
    else (dropped, with_health (write_failure file.events) o)

unfoldable pub persist_at :
    WriteAnswers → ℕ → ℕ → Option ℕ → PersistentOutbox → Submitted × PersistentOutbox
persist_at io bytes events none o = (failed, o)
persist_at io bytes events (some order) o =
    write_file io (record { name = io.name order; order = order; bytes = bytes; events = events }) o

unfoldable pub persist_body : WriteAnswers → ℕ → ℕ → PersistentOutbox → Submitted × PersistentOutbox
persist_body io bytes events o =
    if o.poisoned
    then (failed, o)
    else if over_cap bytes o
    then (dropped, with_health (record_drop events true) o)
    else persist_at io bytes events (next_order io.now_ms (last o.files)) o

-- The body's bytes, from the lengths of the encoded events; an event that cannot be encoded is
-- none. The answer is the length, or whether a cap stopped it.
pub data Body : Type 0 where
  encoded : ℕ → Body
  refused : Bool → Body

unfoldable pub encode_body : ℕ → List (Option ℕ) → Body
encode_body size [] = encoded size
encode_body size (none ∷ events) = refused false
encode_body size (some n ∷ events) =
    let rest = encode_body (size + n + 1) events in
    if ltb max_batch_bytes (size + n + 1) then refused true else rest

unfoldable pub persist_encoded :
    WriteAnswers → ℕ → Body → PersistentOutbox → Submitted × PersistentOutbox
persist_encoded io events (refused cap) o = (dropped, with_health (record_drop events cap) o)
persist_encoded io events (encoded size) o = persist_body io size events o

unfoldable pub persist_events :
    WriteAnswers → List (Option ℕ) → PersistentOutbox → Submitted × PersistentOutbox
persist_events io events o =
    if o.poisoned
    then (failed, o)
    else if length events == 0
    then (accepted, o)
    else if ltb max_events_per_batch (length events)
    then (dropped, with_health (record_drop (length events) true) o)
    else persist_encoded io (length events) (encode_body 0 events) o

-- `remove_file`: it is done, there was no such file, or it failed.
pub data Removal : Type 0 where
  removed missing refused : Removal

unfoldable pub same_name : List ℕ → List ℕ → Bool
same_name [] [] = true
same_name (a ∷ x) (b ∷ y) = a == b && same_name x y
same_name x y = false

-- `position` and `remove`: the first file of that name, and the others.
unfoldable pub remove_named : List ℕ → List OutboxFile → Option (OutboxFile × List OutboxFile)
remove_named name [] = none
remove_named name (f ∷ files) =
    let rest = remove_named name files in
    if same_name f.name name
    then some (f, files)
    else elim rest [ none ↦ none | some (g, others) ↦ some (g, f ∷ others) ]

abbrev pub sub_u64 : ℕ → ℕ → ℕ
sub_u64 a b = (a + 2 ^ 64 - b) % 2 ^ 64

unfoldable pub forget :
    Option (OutboxFile × List OutboxFile) → PersistentOutbox → Bool × PersistentOutbox
forget none o = (false, o)
forget (some (gone, others)) o = (
  true,
  record o {
    files = others;
    bytes = o.bytes - gone.bytes;
    health = record o.health {
      pending_batches = sub_u64 o.health.pending_batches 1;
      pending_bytes = sub_u64 o.health.pending_bytes gone.bytes;
    };
  },
)

-- Whether the acknowledgement is committed, and the outbox after it.
unfoldable pub acknowledge :
    Removal → Bool → OutboxFile → PersistentOutbox → Bool × PersistentOutbox
acknowledge Removal.refused synced file o = (false, o)
acknowledge answer synced file o =
    if synced then forget (remove_named file.name o.files) o else (false, o)
