-- ===== src/Outbox/Runs.antt =====
-- src/axiom.rs: runs of the worker beside submissions.
use hyperliquid_market_bench.Prelude.{
  ℕ, ◌+◌, ◌≡◌, ◌∙◌, refl, ap, sym, List, [], ◌∷◌, Bool, true, false, ◌&&◌, ◌||◌, if◌then◌else◌,
  if_elim, not, ltb, leb, add_u64, subst, arith,
}
use mathlib.Core.List.{append-nil}
use hyperliquid_market_bench.Outbox.{
  OutboxFile, PersistentOutbox, with_health, acknowledge, max_batch_bytes,
}
use hyperliquid_market_bench.Outbox.Sound.{IsSound, with_health-IsSound}
use hyperliquid_market_bench.Outbox.Worker.{
  Phase, choosing, posting, acknowledging, stopped, WorkerAnswers, choose, post, commit,
  worker_step, Step, submit, work, close, World, step, run, failed_batch, attempted, delete_failed,
  succeeded, unless_stopping, retry_attempts,
}
use hyperliquid_market_bench.Outbox.Fifo.{
  OfHead, IsWorld, Advances, Advances-trans, events_of, Owes,
}
use hyperliquid_market_bench.Outbox.Delivery.{Acknowledged, acknowledge-Acknowledged}
use hyperliquid_market_bench.Outbox.Taken.{
  sends_again, taken_by, taken_in_step, taken_in, Steps, Steps-still, Settles-same,
  unless_stopping-Owes, Settles-none, submit-Steps, unless_stopping-OfHead, counted, world_of,
}

commit-Steps :
    (io : WorkerAnswers) (w : World) (file : OutboxFile) (rest : List OutboxFile)
    (r : Bool × PersistentOutbox)
    → IsWorld w
    → w.phase ≡ acknowledging file
    → w.outbox.files ≡ file ∷ rest
    → Acknowledged file rest w.outbox r
    → Steps w [] (world_of (commit io file r))
unfolding commit add_u64 events_of
commit-Steps io w file rest (true, o') v at e a = (
  record {
    sound = with_health-IsSound o' a.2 (succeeded file io.now_ms) refl refl;
    head = tt;
    sends = (omega arith, omega arith);
  },
  (
    [],
    file ∷ [],
    append-nil w.outbox.files ∙ e ∙ ap (λ l. file ∷ l) (sym a.0),
    omega (arith, a.1.0),
    omega (arith, a.1.1),
    λ owed o. ([], refl, append-nil owed ∙ subst (λ p. Owes p owed) at o),
  ),
)
commit-Steps io w file rest (false, o') v at e a =
    subst
      (λ (x : PersistentOutbox). Steps w [] (record {
        outbox = with_health delete_failed x;
        phase = unless_stopping x (acknowledging file);
      }))
      (sym a)
      (counted delete_failed (unless_stopping w.outbox (acknowledging file)) w [] v refl refl
        (refl, refl) (unless_stopping-OfHead w.outbox (acknowledging file) w.outbox.files (rest, e))
        (λ owed o. (
          owed,
          unless_stopping-Owes w.outbox (acknowledging file) owed (subst (λ p. Owes p owed) at o),
          append-nil owed,
        )))

choose-Steps :
    (io : WorkerAnswers) (w : World) (files : List OutboxFile)
    → IsWorld w
    → w.phase ≡ choosing
    → w.outbox.files ≡ files
    → Steps w [] (world_of (choose io files w.outbox))
unfolding choose
choose-Steps io w [] v at e =
    counted (λ h. h) (unless_stopping w.outbox choosing) w [] v refl refl (refl, refl)
      (unless_stopping-OfHead w.outbox choosing w.outbox.files tt)
      (Settles-none w.phase _ [] (λ owed o. subst (λ p. Owes p owed) at o)
        (unless_stopping-Owes w.outbox choosing [] refl))
choose-Steps io w (file ∷ files) v at e =
    let none_owed : (owed : List OutboxFile) → Owes w.phase owed → owed ≡ [] =
      λ owed o. subst (λ p. Owes p owed) at o in
    if_elim (λ (next : Phase × PersistentOutbox). Steps w [] (world_of next))
      (leb file.bytes max_batch_bytes && io.read) _ _
      (λ x.
        counted (λ h. h) (posting file 0) w [] v refl refl (refl, refl) (files, e)
          (Settles-none w.phase (posting file 0) [] none_owed refl))
      (λ x.
        counted failed_batch (unless_stopping w.outbox choosing) w [] v refl refl (refl, refl)
          (unless_stopping-OfHead w.outbox choosing w.outbox.files tt)
          (Settles-none w.phase _ [] none_owed (unless_stopping-Owes w.outbox choosing [] refl)))

-- The worker gives up just where it does not send again.
gives_up :
    (attempt : ℕ) (stopping : Bool)
    → (leb retry_attempts attempt || (stopping && ltb 0 attempt))
      ≡ not (sends_again attempt stopping)
gives_up attempt stopping = ground arith

post-Steps :
    (io : WorkerAnswers) (w : World) (file : OutboxFile) (attempt : ℕ)
    → IsWorld w
    → w.phase ≡ posting file attempt
    → (rest : List OutboxFile) × (w.outbox.files ≡ file ∷ rest)
    → Steps w
        (taken_by io (posting file attempt) w.outbox.stopping)
        (world_of (post io file attempt w.outbox))
unfolding post
post-Steps io w file attempt v at h =
    let none_owed : (owed : List OutboxFile) → Owes w.phase owed → owed ≡ [] =
      λ owed o. subst (λ p. Owes p owed) at o in
    let taken = taken_by io (posting file attempt) w.outbox.stopping in
    if_elim (λ (next : Phase × PersistentOutbox). Steps w taken (world_of next))
      (leb retry_attempts attempt || (w.outbox.stopping && ltb 0 attempt)) _ _
      (λ x.
        let off : sends_again attempt w.outbox.stopping ≡ false =
          (let y = gives_up attempt w.outbox.stopping in ground arith) in
        counted failed_batch (unless_stopping w.outbox choosing) w taken v refl refl (refl, refl)
          (unless_stopping-OfHead w.outbox choosing w.outbox.files tt)
          (Settles-none w.phase _ taken none_owed (
            unless_stopping-Owes w.outbox choosing taken (
              subst (λ (b : Bool). (if b then (if io.posted then file ∷ [] else []) else []) ≡ [])
                (sym off) refl))))
      (λ x.
        let on : sends_again attempt w.outbox.stopping ≡ true =
          (let y = gives_up attempt w.outbox.stopping in ground arith) in
        let next = if io.posted then acknowledging file else posting file (attempt + 1) in
        counted attempted next w taken v refl refl (refl, refl)
          (if_elim (λ (p : Phase). OfHead p w.outbox.files) io.posted (acknowledging file)
            (posting file (attempt + 1)) (λ x. h) (λ x. h))
          (Settles-none w.phase next taken none_owed (
            subst
              (λ (b : Bool). Owes next (if b then (if io.posted then file ∷ [] else []) else []))
              (sym on) (taken_owed io.posted))))
  where
    taken_owed :
        (posted : Bool)
        → Owes
            (if posted then acknowledging file else posting file (attempt + 1))
            (if posted then file ∷ [] else [])
    taken_owed true = refl
    taken_owed false = refl

phase-Steps :
    (io : WorkerAnswers) (w : World) (phase : Phase)
    → IsWorld w
    → w.phase ≡ phase
    → OfHead phase w.outbox.files
    → Steps w (taken_by io phase w.outbox.stopping) (world_of (worker_step io phase w.outbox))
unfolding worker_step
phase-Steps io w choosing v at h = choose-Steps io w w.outbox.files v at refl
phase-Steps io w (posting file attempt) v at h = post-Steps io w file attempt v at h
phase-Steps io w (acknowledging file) v at h =
    commit-Steps io w file h.0 (acknowledge io.removal io.synced file w.outbox) v at h.1
      (acknowledge-Acknowledged io.removal io.synced w.outbox file h.0 v.sound h.1)
phase-Steps io w stopped v at h =
    counted (λ h. h) stopped w [] v refl refl (refl, refl) tt
      (λ owed o. (owed, tt, append-nil owed))

step-Steps : (s : Step) (w : World) → IsWorld w → Steps w (taken_in_step s w) (step s w)
unfolding step
step-Steps (submit io events) w v = submit-Steps io events w v
step-Steps (work io) w v = phase-Steps io w w.phase v refl v.head
step-Steps close w v =
    Steps-still w (step close w) [] v closing refl (refl, refl) v.head (Settles-same w.phase)
  where
    closing : IsSound (record w.outbox { stopping = true })
    closing = record {
      words = v.sound.words;
      files_cap = v.sound.files_cap;
      bytes_sum = v.sound.bytes_sum;
      bytes_cap = v.sound.bytes_cap;
      ordered = v.sound.ordered;
      batches = v.sound.batches;
      batches_gauge = v.sound.batches_gauge;
      bytes_gauge = v.sound.bytes_gauge;
    }

-- From an outbox that is within its caps, with its files in the order of their keys and counted by
-- its gauges, and a worker that sends and acknowledges its head: whatever is submitted and however
-- the worker's steps, the server and the file system answer in between, they stay so. Of the files
-- that were there and those that were added behind them, in this order, the ones in front are
-- delivered and the rest is pending; the delivered ones and their events are counted as succeeded,
-- modulo 2 ^ 64. The delivered files are, in order, those that the server took, from the one on
-- that the worker had still to acknowledge at the start: a file that the server did not take in an
-- attempt to send it is not removed, and one that it took is removed before another is sent, unless
-- the worker stops.
pub run-Advances :
    (steps : List Step) (w : World)
    → IsWorld w
    → IsWorld (run steps w) × Advances w (taken_in steps w) (run steps w)
unfolding run events_of taken_in
run-Advances [] w v = (
  v,
  (
    [],
    [],
    append-nil w.outbox.files,
    omega (arith, v.sends),
    omega (arith, v.sends),
    Settles-same w.phase,
  ),
)
run-Advances (s ∷ steps) w v =
    let first = step-Steps s w v in
    let rest = run-Advances steps (step s w) first.0 in
    (
      rest.0,
      Advances-trans w (step s w) (run steps (step s w)) (taken_in_step s w)
          (taken_in steps (step s w)) first.1 rest.1,
    )
