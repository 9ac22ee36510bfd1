-- ===== src/Outbox/Submit.antt =====
-- src/axiom.rs: `persist_events` on every branch.
use hyperliquid_market_bench.Prelude.{
  ℕ, ◌+◌, ◌≤◌, ◌≡◌, refl, List, [], ◌∷◌, ◌++◌, Option, none, some, Bool, true, false, ◌&&◌, if_elim,
  ltb, ◌==◌, length, add_u64, Bool-cases, Option-cases, inl, inr, ◌⊎◌, arith,
}
use hyperliquid_market_bench.Outbox.{
  IngestHealth, OutboxFile, PersistentOutbox, Submitted, accepted, dropped, failed, WriteAnswers,
  record_drop, with_health, write_failure, last, next_order, over_cap, poison, write_file,
  persist_at, persist_body, Body, encoded, refused, encode_body, persist_encoded, persist_events,
  max_events_per_batch, max_batch_bytes,
}
use hyperliquid_market_bench.Outbox.Sound.{
  IsSound, IsBatch, IsOrdered, IsOrdered-append, pushed-IsSound, with_health-IsSound,
}

-- The files that are pending, their bytes and the caps are the same.
abbrev pub SameFiles : PersistentOutbox → PersistentOutbox → Type 0
SameFiles o o' = (o'.files ≡ o.files) × (o'.bytes ≡ o.bytes)

abbrev pub SameDrops : IngestHealth → IngestHealth → Type 0
SameDrops h h' = (h'.batches_dropped ≡ h.batches_dropped) × (h'.events_dropped ≡ h.events_dropped)

-- Accepted: nothing where there are no events, else one file more, behind all others and not
-- dated before now. Dropped: the drop is counted, and nothing else changes. Failed: nothing
-- changes but that the outbox may be poisoned now.
abbrev pub Submits : ℕ → ℕ → PersistentOutbox → Submitted × PersistentOutbox → Type 0
Submits now events o (accepted, o') =
    SameDrops o.health o'.health
    × (o'.poisoned ≡ o.poisoned)
    × (((events ≡ 0) × (o' ≡ o))
        ⊎ ((file : OutboxFile) × (o'.files ≡ o.files ++ (file ∷ []))
            × (file.events ≡ events)
            × (now ≤ file.order)))
Submits now events o (dropped, o') =
    SameFiles o o'
    × (o'.poisoned ≡ o.poisoned)
    × (o'.health.batches_dropped ≡ add_u64 o.health.batches_dropped 1)
    × (o'.health.events_dropped ≡ add_u64 o.health.events_dropped events)
Submits now events o (failed, o') =
    SameFiles o o'
    × SameDrops o.health o'.health
    × ((o' ≡ o) ⊎ ((o.poisoned ≡ false) × (o'.poisoned ≡ true)))

next_order-ge :
    (now : ℕ) (back : Option OutboxFile) (order : ℕ)
    → next_order now back ≡ some order
    → now ≤ order
unfolding next_order
next_order-ge now none order e = ground arith
next_order-ge now (some file) order e = ground arith

-- A body that is encoded is within the limit.
encode_body-le :
    (events : List (Option ℕ)) (size n : ℕ)
    → size ≤ max_batch_bytes
    → encode_body size events ≡ encoded n
    → n ≤ max_batch_bytes
unfolding encode_body
encode_body-le [] size n h e = ground arith
encode_body-le (none ∷ events) size n h e = absurd (ground arith)
encode_body-le (some k ∷ events) size n h e =
    elim (Bool-cases (ltb max_batch_bytes (size + k + 1))) [
      | inl over ↦ absurd (ground arith)
      | inr fits ↦ encode_body-le events (size + k + 1) n (ground arith) (ground arith)
    ]

abbrev SubmitsSound : ℕ → ℕ → PersistentOutbox → Submitted × PersistentOutbox → Type 0
SubmitsSound now events o r = IsSound r.1 × Submits now events o r

module _ (io : WriteAnswers) (o : PersistentOutbox) (sound : IsSound o) where
  dropped-Submits :
      (events : ℕ) (cap : Bool)
      → SubmitsSound io.now_ms events o (dropped, with_health (record_drop events cap) o)
  unfolding record_drop
  dropped-Submits events cap = (
    with_health-IsSound o sound (record_drop events cap) refl refl,
    ((refl, refl), refl, refl, refl),
  )

  write_file-Submits :
      (file : OutboxFile)
      → o.poisoned ≡ false
      → IsBatch file
      → io.now_ms ≤ file.order
      → IsOrdered (o.files ++ (file ∷ []))
      → over_cap file.bytes o ≡ false
      → SubmitsSound io.now_ms file.events o (write_file io file o)
  unfolding write_file record_drop
  write_file-Submits file clean b n i c =
      let Q = SubmitsSound io.now_ms file.events o in
      if_elim Q (io.written && io.renamed) _ _
        (λ w.
          if_elim Q io.synced _ _
            (λ s.
              (pushed-IsSound o sound file b i c, ((refl, refl), refl, inr (file, refl, refl, n))))
            (λ s. (poisoned_sound, ((refl, refl), (refl, refl), inr (clean, refl)))))
        (λ w. (
          with_health-IsSound o sound (write_failure file.events) refl refl,
          ((refl, refl), refl, refl, refl),
        ))
    where
      poisoned_sound : IsSound (poison o)
      poisoned_sound = record {
        words = sound.words;
        files_cap = sound.files_cap;
        bytes_sum = sound.bytes_sum;
        bytes_cap = sound.bytes_cap;
        ordered = sound.ordered;
        batches = sound.batches;
        batches_gauge = sound.batches_gauge;
        bytes_gauge = sound.bytes_gauge;
      }

  persist_body-Submits :
      (bytes events : ℕ)
      → bytes ≤ max_batch_bytes
      → 1 ≤ events
      → events ≤ max_events_per_batch
      → SubmitsSound io.now_ms events o (persist_body io bytes events o)
  unfolding persist_body persist_at
  persist_body-Submits bytes events b e1 e2 =
      let Q = SubmitsSound io.now_ms events o in
      if_elim Q o.poisoned _ _ (λ p. (sound, ((refl, refl), (refl, refl), inl refl)))
        λ clean.
          if_elim Q (over_cap bytes o) _ _ (λ c. dropped-Submits events true)
            λ fits. elim (Option-cases (next_order io.now_ms (last o.files))) [
              | inl e ↦ rw (e, persist_at) (sound, ((refl, refl), (refl, refl), inl refl))
              | inr (order, e) ↦
                  rw (e, persist_at)
                    (let file : OutboxFile = record {
                      name = io.name order;
                      order = order;
                      bytes = bytes;
                      events = events;
                    } in
                      write_file-Submits file clean (b, e1, e2)
                        (next_order-ge io.now_ms (last o.files) order e)
                        (IsOrdered-append io.now_ms order file o.files sound.ordered e refl) fits)
            ]

  persist_encoded-Submits :
      (events : List (Option ℕ)) (body : Body)
      → encode_body 0 events ≡ body
      → 1 ≤ length events
      → length events ≤ max_events_per_batch
      → SubmitsSound io.now_ms (length events) o (persist_encoded io (length events) body o)
  unfolding persist_encoded
  persist_encoded-Submits events (refused cap) e h k = dropped-Submits (length events) cap
  persist_encoded-Submits events (encoded size) e h k =
      persist_body-Submits size (length events) (encode_body-le events 0 size (omega arith) e) h k

-- From an outbox within its caps, ordered and counted by its gauges, a submission leaves one, and
-- answers on every branch as follows. Accepted: no drop is counted, and there were no events and
-- nothing changed, or one file with that many events stands behind all others, not dated before
-- now. Dropped: the batch and its events are counted as dropped, and the files, their bytes and
-- the poisoning are the same. Failed: the files and the drops are the same, and the outbox either
-- did not change at all or has become poisoned.
pub persist_events-Submits :
    (io : WriteAnswers) (events : List (Option ℕ)) (o : PersistentOutbox)
    → IsSound o
    → IsSound (persist_events io events o).1
      × Submits io.now_ms (length events) o (persist_events io events o)
unfolding persist_events
persist_events-Submits io events o sound =
    let Q = SubmitsSound io.now_ms (length events) o in
    if_elim Q o.poisoned _ _ (λ p. (sound, ((refl, refl), (refl, refl), inl refl)))
      λ clean.
        if_elim Q (length events == 0) _ _
          (λ e. (sound, ((refl, refl), refl, inl (ground arith, refl))))
          λ e.
            if_elim Q (ltb max_events_per_batch (length events)) _ _
              (λ x. dropped-Submits io o sound (length events) true)
              λ x.
                persist_encoded-Submits io o sound events (encode_body 0 events) refl (ground arith)
                  (ground arith)
