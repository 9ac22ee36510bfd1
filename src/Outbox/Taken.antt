-- ===== src/Outbox/Taken.antt =====
-- src/axiom.rs: what the server takes of a worker, and the steps of a run that send nothing.
use hyperliquid_market_bench.Prelude.{
  ℕ, ◌≡◌, ◌∙◌, refl, ap, sym, List, [], ◌∷◌, ◌++◌, Option, Bool, ◌&&◌, ◌||◌, if◌then◌else◌, if_elim,
  ◌==◌, not, ltb, length, inl, inr, subst, arith,
}
use mathlib.Core.List.{append-nil}
use hyperliquid_market_bench.Outbox.{
  OutboxFile, PersistentOutbox, IngestHealth, Submitted, accepted, dropped, failed, WriteAnswers,
  with_health, persist_events,
}
use hyperliquid_market_bench.Outbox.Sound.{IsSound, with_health-IsSound}
use hyperliquid_market_bench.Outbox.Submit.{Submits, persist_events-Submits}
use hyperliquid_market_bench.Outbox.Worker.{
  Phase, choosing, posting, acknowledging, stopped, WorkerAnswers, Step, submit, work, close, World,
  step, unless_stopping,
}
use hyperliquid_market_bench.Outbox.Fifo.{
  SameSends, persist_events-SameSends, OfHead, OfHead-append, IsWorld, Advances, Advances-added,
  Owes, Settles,
}

-- Whether a worker that may be stopping still sends a batch, after some attempts.
abbrev pub sends_again : ℕ → Bool → Bool
sends_again attempt stopping = ltb attempt 5 && (attempt == 0 || not stopping)

-- The file that the server takes in a worker's step: the one that is sent, where it answers so.
abbrev pub taken_by : WorkerAnswers → Phase → Bool → List OutboxFile
taken_by io (posting file attempt) stopping =
    if sends_again attempt stopping then (if io.posted then file ∷ [] else []) else []
taken_by io choosing stopping = []
taken_by io (acknowledging file) stopping = []
taken_by io stopped stopping = []

abbrev pub taken_in_step : Step → World → List OutboxFile
taken_in_step (submit io events) w = []
taken_in_step (work io) w = taken_by io w.phase w.outbox.stopping
taken_in_step close w = []

-- The files that the server takes in a run, in order.
unfoldable pub taken_in : List Step → World → List OutboxFile
taken_in [] w = []
taken_in (s ∷ steps) w = taken_in_step s w ++ taken_in steps (step s w)

-- A step leads to a world in which the invariant holds, by an advance.
abbrev pub Steps : World → List OutboxFile → World → Type 0
Steps w taken w' = IsWorld w' × Advances w taken w'

-- A step that keeps the files and counts nothing as sent.
pub Steps-still :
    (w w' : World) (taken : List OutboxFile)
    → IsWorld w
    → IsSound w'.outbox
    → w'.outbox.files ≡ w.outbox.files
    → SameSends w.outbox.health w'.outbox.health
    → OfHead w'.phase w.outbox.files
    → Settles w.phase taken [] w'.phase
    → Steps w taken w'
Steps-still w w' taken v s e c h p = (
  record {
    sound = s;
    head = subst (OfHead w'.phase) (sym e) h;
    sends = (omega (arith, c.0, v.sends), omega (arith, c.1, v.sends));
  },
  Advances-added w w' [] taken v (e ∙ sym (append-nil w.outbox.files)) c p,
)

-- Nothing is taken, and what is owed stays so.
pub Settles-same : (phase : Phase) → Settles phase [] [] phase
Settles-same phase owed o = (owed, o, append-nil owed)

pub unless_stopping-Owes :
    (o : PersistentOutbox) (phase : Phase) (files : List OutboxFile)
    → Owes phase files
    → Owes (unless_stopping o phase) files
unless_stopping-Owes o phase files h =
    if_elim (λ p. Owes p files) o.stopping stopped phase (λ x. tt) (λ x. h)

-- A phase that owes nothing is left for one that owes what was taken.
pub Settles-none :
    (phase next : Phase) (taken : List OutboxFile)
    → ((owed : List OutboxFile) → Owes phase owed → owed ≡ [])
    → Owes next taken
    → Settles phase taken [] next
Settles-none phase next taken n h owed o = (taken, h, ap (λ l. l ++ taken) (n owed o))

added_by :
    (now events : ℕ) (o : PersistentOutbox) (r : Submitted × PersistentOutbox)
    → Submits now events o r
    → (added : List OutboxFile) × (r.1.files ≡ o.files ++ added)
added_by now events o (accepted, o') (d, p, inl (z, same)) =
    ([], ap (λ x. x.files) same ∙ sym (append-nil o.files))
added_by now events o (accepted, o') (d, p, inr (file, e, n, t)) = (file ∷ [], e)
added_by now events o (dropped, o') s = ([], s.0.0 ∙ sym (append-nil o.files))
added_by now events o (failed, o') s = ([], s.0.0 ∙ sym (append-nil o.files))

pub submit-Steps :
    (io : WriteAnswers) (events : List (Option ℕ)) (w : World)
    → IsWorld w
    → Steps w [] (step (submit io events) w)
unfolding step
submit-Steps io events w v =
    let o' = (persist_events io events w.outbox).1 in
    let s = persist_events-Submits io events w.outbox v.sound in
    let a = added_by io.now_ms (length events) w.outbox (persist_events io events w.outbox) s.1 in
    let c = persist_events-SameSends io events w.outbox in
    (
      record {
        sound = s.0;
        head = subst (OfHead w.phase) (sym a.1) (OfHead-append w.phase w.outbox.files a.0 v.head);
        sends = (omega (arith, c.0, v.sends), omega (arith, c.1, v.sends));
      },
      Advances-added w (record w { outbox = o' }) a.0 [] v a.1 c (Settles-same w.phase),
    )

pub unless_stopping-OfHead :
    (o : PersistentOutbox) (phase : Phase) (files : List OutboxFile)
    → OfHead phase files
    → OfHead (unless_stopping o phase) files
unless_stopping-OfHead o phase files h =
    if_elim (λ p. OfHead p files) o.stopping stopped phase (λ x. tt) (λ x. h)

-- A counter other than the gauges and the sent ones, and a phase.
pub counted :
    (f : IngestHealth → IngestHealth) (phase : Phase) (w : World) (taken : List OutboxFile)
    → IsWorld w
    → (f w.outbox.health).pending_batches ≡ w.outbox.health.pending_batches
    → (f w.outbox.health).pending_bytes ≡ w.outbox.health.pending_bytes
    → SameSends w.outbox.health (f w.outbox.health)
    → OfHead phase w.outbox.files
    → Settles w.phase taken [] phase
    → Steps w taken (record { outbox = with_health f w.outbox; phase = phase })
counted f phase w taken v p q s h t =
    Steps-still w (record { outbox = with_health f w.outbox; phase = phase }) taken v
      (with_health-IsSound w.outbox v.sound f p q) refl s h t

-- The worker's next phase, with the state.
abbrev pub world_of : Phase × PersistentOutbox → World
world_of next = record { outbox = next.1; phase = next.0 }

-- The head is committed as delivered.
