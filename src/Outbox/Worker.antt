-- ===== src/Outbox/Worker.antt =====
-- src/axiom.rs: the worker that sends the outbox's head and acknowledges it, beside the calls that
-- submit batches.
use hyperliquid_market_bench.Prelude.{
  ℕ, ◌+◌, List, [], ◌∷◌, Option, Bool, true, false, ◌&&◌, ◌||◌, if◌then◌else◌, ltb, leb, add_u64,
}
use hyperliquid_market_bench.Outbox.{
  OutboxFile, PersistentOutbox, IngestHealth, WriteAnswers, Removal, with_health, persist_events,
  acknowledge, max_batch_bytes,
}

-- Where the worker is: before the head, before an attempt to send it, or before its removal.
pub data Phase : Type 0 where
  choosing : Phase
  posting : OutboxFile → ℕ → Phase
  acknowledging : OutboxFile → Phase
  stopped : Phase

abbrev pub retry_attempts : ℕ
retry_attempts = 5

-- What the worker's next step meets: whether the file is read, whether the server takes it, what
-- the removal answers, and the clock.
pub record WorkerAnswers : Type 0 where
  pub read : Bool
  pub posted : Bool
  pub removal : Removal
  pub synced : Bool
  pub now_ms : ℕ

abbrev pub failed_batch : IngestHealth → IngestHealth
failed_batch h = record h { batches_failed = add_u64 h.batches_failed 1 }

abbrev pub attempted : IngestHealth → IngestHealth
attempted h = record h { attempts = add_u64 h.attempts 1 }

abbrev pub delete_failed : IngestHealth → IngestHealth
delete_failed h = record h { outbox_delete_failures = add_u64 h.outbox_delete_failures 1 }

abbrev pub succeeded : OutboxFile → ℕ → IngestHealth → IngestHealth
succeeded file now h = record h {
  batches_succeeded = add_u64 h.batches_succeeded 1;
  events_succeeded = add_u64 h.events_succeeded file.events;
  last_success_wall_ms = now;
}

abbrev pub unless_stopping : PersistentOutbox → Phase → Phase
unless_stopping o phase = if o.stopping then stopped else phase

unfoldable pub choose :
    WorkerAnswers → List OutboxFile → PersistentOutbox → Phase × PersistentOutbox
choose io [] o = (unless_stopping o choosing, o)
choose io (file ∷ files) o =
    if leb file.bytes max_batch_bytes && io.read
    then (posting file 0, o)
    else (unless_stopping o choosing, with_health failed_batch o)

unfoldable pub post : WorkerAnswers → OutboxFile → ℕ → PersistentOutbox → Phase × PersistentOutbox
post io file attempt o =
    if leb retry_attempts attempt || (o.stopping && ltb 0 attempt)
    then (unless_stopping o choosing, with_health failed_batch o)
    else (
      if io.posted then acknowledging file else posting file (attempt + 1),
      with_health attempted o,
    )

unfoldable pub commit :
    WorkerAnswers → OutboxFile → Bool × PersistentOutbox → Phase × PersistentOutbox
commit io file (true, o) = (choosing, with_health (succeeded file io.now_ms) o)
commit io file (false, o) = (unless_stopping o (acknowledging file), with_health delete_failed o)

unfoldable pub worker_step : WorkerAnswers → Phase → PersistentOutbox → Phase × PersistentOutbox
worker_step io choosing o = choose io o.files o
worker_step io (posting file attempt) o = post io file attempt o
worker_step io (acknowledging file) o = commit io file (acknowledge io.removal io.synced file o)
worker_step io stopped o = (stopped, o)

-- The calls of the collector and the steps of the worker, in any order.
pub data Step : Type 0 where
  submit : WriteAnswers → List (Option ℕ) → Step
  work : WorkerAnswers → Step
  close : Step

pub record World : Type 0 where
  pub outbox : PersistentOutbox
  pub phase : Phase

unfoldable pub step : Step → World → World
step (submit io events) w = record w { outbox = (persist_events io events w.outbox).1 }
step (work io) w =
    let next = worker_step io w.phase w.outbox in record { outbox = next.1; phase = next.0 }
step close w = record w { outbox = record w.outbox { stopping = true } }

unfoldable pub run : List Step → World → World
run [] w = w
run (s ∷ steps) w = run steps (step s w)
