-- ===== src/Tests/Batches.antt =====
-- Runs of the outbox and its worker at concrete batches.
use hyperliquid_market_bench.Prelude.{ℕ, ◌≡◌, refl, List, [], ◌∷◌, some, true, false, arith}
use hyperliquid_market_bench.Outbox.{
  PersistentOutbox, OutboxConfig, WriteAnswers, removed, persist_events,
}
use hyperliquid_market_bench.Outbox.Sound.{IsSound, total}
use hyperliquid_market_bench.Outbox.Submit.{Submits, persist_events-Submits}
use hyperliquid_market_bench.Outbox.Worker.{Step, submit, work, World, WorkerAnswers, choosing, run}
use hyperliquid_market_bench.Outbox.Fifo.{IsWorld, Advances}
use hyperliquid_market_bench.Outbox.Taken.{taken_in}
use hyperliquid_market_bench.Outbox.Runs.{run-Advances}
use hyperliquid_market_bench.Outbox.Names.{file_name, order_from_name, event_count_from_name}
use hyperliquid_market_bench.Outbox.Reread.{names-file_name}
use hyperliquid_market_bench.Outbox.Recovery.{Entry, opened_health, open_outbox}
use hyperliquid_market_bench.Outbox.Reopened.{Opens, open_outbox-Opens}

abbrev small_config : OutboxConfig
small_config = record { max_files = 3; max_bytes = 1000 }

abbrev empty_outbox : PersistentOutbox
empty_outbox = record {
  config = small_config;
  files = [];
  bytes = 0;
  health = opened_health 0 0;
  stopping = false;
  poisoned = false;
}

abbrev writes : ℕ → WriteAnswers
writes now = record {
  now_ms = now;
  name = λ order. file_name order (b'a' ∷ []) 2;
  written = true;
  renamed = true;
  synced = true;
}

abbrev works : WorkerAnswers
works = record { read = true; posted = true; removal = removed; synced = true; now_ms = 9 }

abbrev two_batches : List Step
two_batches =
    submit (writes 5) (some 10 ∷ some 20 ∷ [])
    ∷ work works
    ∷ submit (writes 5) (some 30 ∷ some 40 ∷ [])
    ∷ work works
    ∷ work works
    ∷ []

abbrev start : World
start = record { outbox = empty_outbox; phase = choosing }

empty_outbox-IsSound : IsSound empty_outbox
unfolding total
empty_outbox-IsSound = record {
  words = (omega arith, omega arith);
  files_cap = omega arith;
  bytes_sum = refl;
  bytes_cap = omega arith;
  ordered = tt;
  batches = tt;
  batches_gauge = refl;
  bytes_gauge = refl;
}

start-IsWorld : IsWorld start
start-IsWorld = record {
  sound = empty_outbox-IsSound;
  head = tt;
  sends = (omega arith, omega arith);
}

run-Advances_example :
    IsWorld (run two_batches start)
    × Advances start (taken_in two_batches start) (run two_batches start)
run-Advances_example = run-Advances two_batches start start-IsWorld

persist_events-Submits_example :
    IsSound (persist_events (writes 5) (some 10 ∷ []) empty_outbox).1
    × Submits 5 1 empty_outbox (persist_events (writes 5) (some 10 ∷ []) empty_outbox)
persist_events-Submits_example =
    persist_events-Submits (writes 5) (some 10 ∷ []) empty_outbox empty_outbox-IsSound

names-file_name_example :
    (order_from_name (file_name 1700000000000 (b'a' ∷ b'-' ∷ []) 12) ≡ some 1700000000000)
    × (event_count_from_name (file_name 1700000000000 (b'a' ∷ b'-' ∷ []) 12) ≡ some 12)
names-file_name_example =
    names-file_name 1700000000000 (b'a' ∷ b'-' ∷ []) 12 (omega arith) (omega arith) (omega arith)

-- A directory with a lock, and two batches out of order.
abbrev directory : List Entry
directory =
    record { name = b'l' ∷ []; is_file = true; bytes = 0 }
    ∷ record { name = file_name 8 [] 2; is_file = true; bytes = 70 }
    ∷ record { name = file_name 7 [] 1; is_file = true; bytes = 30 }
    ∷ []

open_outbox-Opens_example :
    Opens small_config true directory (open_outbox small_config true directory)
open_outbox-Opens_example = open_outbox-Opens small_config true directory (omega arith, omega arith)
