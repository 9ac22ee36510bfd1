-- ===== src/Outbox/Restored.antt =====
-- src/axiom.rs: the files that `PersistentOutbox::open` reads, sorted and summed.
use hyperliquid_market_bench.Prelude.{
  Bool-cases, false, ℕ, ◌+◌, ◌^◌, ◌≤◌, ◌<◌, ◌≡◌, refl, List, [], ◌∷◌, Option, none, some, ◌&&◌,
  ◌||◌, not, ltb, leb, length, All, inl, inr, arith, Yields, Yields->>=, Yields-if, Yields-any,
  Yields-mono, if_elim,
}
use hyperliquid_market_bench.Outbox.{
  OutboxConfig, OutboxFile, PersistentOutbox, max_events_per_batch, max_batch_bytes,
}
use hyperliquid_market_bench.Outbox.Sound.{IsBatch, IsOrdered, total}
use hyperliquid_market_bench.Outbox.Names.{
  suffix, ends_with, event_count_from_name, order_from_name, strip_suffix, rsplit_once, parse_u64,
}
use hyperliquid_market_bench.Outbox.Worker.{choosing}
use hyperliquid_market_bench.Outbox.Recovery.{
  Entry, recover_file, recover_entry, recover, cons_some, comes_before, insert_file, sort_files,
  checked_total, take_up, temporary,
}
use mathlib.Core.List.{Perm}
use mathlib.Core.List.Perm
use hyperliquid_market_bench.Outbox.Fifo.{IsWorld}

event_count-Yields :
    (name : List ℕ)
    → Yields (λ n. (1 ≤ n) × (n ≤ max_events_per_batch)) (event_count_from_name name)
unfolding event_count_from_name
event_count-Yields name =
    let Q = λ (n : ℕ). (1 ≤ n) × (n ≤ max_events_per_batch) in
    Yields->>= (λ x. Unit {0}) Q (strip_suffix suffix name) _ (Yields-any _)
      λ stem t.
        Yields->>= (λ x. Unit {0}) Q (rsplit_once stem) _ (Yields-any _)
          λ parts t.
            Yields->>= (λ x. Unit {0}) Q (parse_u64 parts.1) _ (Yields-any _)
              λ count t.
                Yields-if Q (ltb 0 count && leb count max_events_per_batch) (some count) none
                  (λ e. ground arith) (λ e. tt)

abbrev Recovered : Option OutboxFile → Type 0
Recovered file = All IsBatch (cons_some file [])

recover_file-IsBatch : (entry : Entry) → Yields Recovered (recover_file entry)
unfolding recover_file
recover_file-IsBatch entry =
    Yields->>= (λ n. (1 ≤ n) × (n ≤ max_events_per_batch)) Recovered
      (event_count_from_name entry.name) _ (event_count-Yields entry.name)
      λ events e.
        Yields->>= (λ x. Unit {0}) Recovered (order_from_name entry.name) _ (Yields-any _)
          λ order t.
            Yields-if Recovered (ltb max_batch_bytes entry.bytes) none _ (λ x. tt)
              (λ x. ((ground arith, e.0, e.1), tt))

recover_entry-IsBatch : (entry : Entry) → Yields Recovered (recover_entry entry)
unfolding recover_entry
recover_entry-IsBatch entry =
    Yields-if Recovered
      (not entry.is_file || ends_with temporary entry.name || not (ends_with suffix entry.name))
      (some none) _ (λ e. tt) (λ e. recover_file-IsBatch entry)

cons_some-IsBatch :
    (file : Option OutboxFile) (files : List OutboxFile)
    → Recovered file
    → All IsBatch files
    → All IsBatch (cons_some file files)
cons_some-IsBatch none files h k = k
cons_some-IsBatch (some file) files h k = (h.0, k)

pub recover-IsBatch : (entries : List Entry) → Yields (All IsBatch) (recover entries)
unfolding recover
recover-IsBatch [] = tt
recover-IsBatch (entry ∷ entries) =
    Yields->>= Recovered (All IsBatch) (recover_entry entry) _ (recover_entry-IsBatch entry)
      λ file h.
        Yields->>= (All IsBatch) (All IsBatch) (recover entries) _ (recover-IsBatch entries)
          λ files k. cons_some-IsBatch file files h k

insert_file-perm :
    (f : OutboxFile) (files : List OutboxFile) → Perm (insert_file f files) (f ∷ files)
unfolding insert_file
insert_file-perm f [] = Perm.refl (f ∷ [])
insert_file-perm f (g ∷ files) =
    if_elim (λ (l : List OutboxFile). Perm l (f ∷ g ∷ files)) (comes_before f g) _ _
      (λ e. Perm.refl (f ∷ g ∷ files))
      (λ e. Perm.trans (Perm.cons g (insert_file-perm f files)) (Perm.swap f g files))

pub sort_files-perm : (files : List OutboxFile) → Perm (sort_files files) files
unfolding sort_files
sort_files-perm [] = Perm.refl []
sort_files-perm (f ∷ files) =
    Perm.trans (insert_file-perm f (sort_files files)) (Perm.cons f (sort_files-perm files))

-- A file that is not before the first of ordered files is ordered behind it.
insert_file-IsOrdered_behind :
    (b f : OutboxFile) (files : List OutboxFile)
    → b.order ≤ f.order
    → IsOrdered (b ∷ files)
    → IsOrdered (b ∷ insert_file f files)
unfolding insert_file
insert_file-IsOrdered_behind b f [] h k = (h, tt)
insert_file-IsOrdered_behind b f (g ∷ files) h k =
    if_elim (λ (l : List OutboxFile). IsOrdered (b ∷ l)) (comes_before f g) _ _
      (λ e. (h, (ground arith, k.1)))
      (λ e. (k.0, insert_file-IsOrdered_behind g f files (ground arith) k.1))

insert_file-IsOrdered :
    (f : OutboxFile) (files : List OutboxFile) → IsOrdered files → IsOrdered (insert_file f files)
unfolding insert_file
insert_file-IsOrdered f [] h = tt
insert_file-IsOrdered f (g ∷ files) h =
    if_elim IsOrdered (comes_before f g) _ _ (λ e. (ground arith, h))
      (λ e. insert_file-IsOrdered_behind g f files (ground arith) h)

pub sort_files-IsOrdered : (files : List OutboxFile) → IsOrdered (sort_files files)
unfolding sort_files
sort_files-IsOrdered [] = tt
sort_files-IsOrdered (f ∷ files) =
    insert_file-IsOrdered f (sort_files files) (sort_files-IsOrdered files)

insert_file-IsBatch :
    (f : OutboxFile) (files : List OutboxFile)
    → IsBatch f
    → All IsBatch files
    → All IsBatch (insert_file f files)
unfolding insert_file
insert_file-IsBatch f [] h k = (h, tt)
insert_file-IsBatch f (g ∷ files) h k =
    if_elim (All IsBatch) (comes_before f g) _ _ (λ e. (h, k))
      (λ e. (k.0, insert_file-IsBatch f files h k.1))

pub sort_files-IsBatch :
    (files : List OutboxFile) → All IsBatch files → All IsBatch (sort_files files)
unfolding sort_files
sort_files-IsBatch [] h = tt
sort_files-IsBatch (f ∷ files) h =
    insert_file-IsBatch f (sort_files files) h.0 (sort_files-IsBatch files h.1)

pub checked_total-total :
    (files : List OutboxFile) (bytes : ℕ)
    → Yields (λ n. n ≡ bytes + total files) (checked_total bytes files)
unfolding checked_total total
checked_total-total [] bytes = omega arith
checked_total-total (f ∷ files) bytes =
    Yields-if (λ n. n ≡ bytes + (f.bytes + total files)) (ltb (bytes + f.bytes) (2 ^ 64)) _ none
      (λ e.
        Yields-mono (λ n. n ≡ bytes + f.bytes + total files) _ _
          (checked_total-total files (bytes + f.bytes)) (λ n h. omega (arith, h)))
      (λ e. tt)

-- The outbox has the given caps, is neither stopping nor poisoned, and has counted nothing yet but
-- its files and their bytes.
abbrev pub IsNew : OutboxConfig → PersistentOutbox → Type 0
IsNew config o = o ≡ record {
  config = config;
  files = o.files;
  bytes = o.bytes;
  health = record {
    pending_batches = length o.files;
    pending_bytes = o.bytes;
    attempts = 0;
    batches_succeeded = 0;
    batches_failed = 0;
    batches_dropped = 0;
    events_succeeded = 0;
    events_dropped = 0;
    outbox_write_failures = 0;
    outbox_delete_failures = 0;
    outbox_cap_rejections = 0;
    last_success_wall_ms = 0;
  };
  stopping = false;
  poisoned = false;
}

abbrev pub IsTakenUp : OutboxConfig → List OutboxFile → PersistentOutbox → Type 0
IsTakenUp config files o =
    IsWorld (record { outbox = o; phase = choosing }) × (o.files ≡ files) × IsNew config o

pub take_up-IsTakenUp :
    (config : OutboxConfig) (files : List OutboxFile)
    → (config.max_files < 2 ^ 64) × (config.max_bytes < 2 ^ 64)
    → All IsBatch files
    → IsOrdered files
    → Yields (IsTakenUp config files) (take_up config files)
unfolding take_up
take_up-IsTakenUp config files w b i =
    Yields->>= (λ n. n ≡ 0 + total files) (IsTakenUp config files) (checked_total 0 files) _
      (checked_total-total files 0)
      λ bytes e.
        Yields-if (IsTakenUp config files)
          (ltb config.max_files (length files) || ltb config.max_bytes bytes) none _ (λ x. tt)
          λ fits. (
            record {
              sound = record {
                words = w;
                files_cap = ground arith;
                bytes_sum = omega (arith, e);
                bytes_cap = ground arith;
                ordered = i;
                batches = b;
                batches_gauge = refl;
                bytes_gauge = refl;
              };
              head = tt;
              sends = (omega arith, omega arith);
            },
            refl,
            refl,
          )

total-insert_file :
    (f : OutboxFile) (files : List OutboxFile)
    → (total (insert_file f files) ≡ f.bytes + total files)
      × (length (insert_file f files) ≡ length files + 1)
unfolding insert_file total
total-insert_file f [] = (refl, omega arith)
total-insert_file f (g ∷ files) =
    let ih = total-insert_file f files in
    if_elim
      (λ (l : List OutboxFile).
        (total l ≡ f.bytes + (g.bytes + total files)) × (length l ≡ length (g ∷ files) + 1))
      (comes_before f g) _ _ (λ e. (refl, omega arith)) (λ e. (omega arith, omega arith))

pub total-sort_files :
    (files : List OutboxFile)
    → (total (sort_files files) ≡ total files) × (length (sort_files files) ≡ length files)
unfolding sort_files total
total-sort_files [] = (refl, refl)
total-sort_files (f ∷ files) =
    let ih = total-sort_files files in
    let first = total-insert_file f (sort_files files) in (omega arith, omega arith)

pub checked_total-none :
    (files : List OutboxFile) (bytes : ℕ)
    → checked_total bytes files ≡ none
    → 2 ^ 64 ≤ bytes + total files
unfolding checked_total total
checked_total-none [] bytes e = absurd (ground arith)
checked_total-none (f ∷ files) bytes e = elim (Bool-cases (ltb (bytes + f.bytes) (2 ^ 64))) [
  | inl t ↦ (let h = checked_total-none files (bytes + f.bytes) (ground arith) in omega arith)
  | inr t ↦ ground arith
]
