-- ===== src/Outbox/Fifo.antt =====
-- src/axiom.rs: the worker sends the batches in the order in which they were accepted, each until
-- it is acknowledged.
use hyperliquid_market_bench.Prelude.{
  ℕ, ◌+◌, ◌%◌, ◌^◌, ◌<◌, ◌≡◌, ◌∙◌, refl, ap, sym, List, [], ◌∷◌, ◌++◌, Option, none, some, length,
  length-append, arith,
}
use mathlib.Core.List.{append_assoc}
use hyperliquid_market_bench.Outbox.{
  IngestHealth, OutboxFile, PersistentOutbox, WriteAnswers, record_drop, write_file, persist_at,
  persist_body, Body, encoded, refused, encode_body, persist_encoded, persist_events, next_order,
  last,
}
use hyperliquid_market_bench.Outbox.Sound.{IsSound}
use hyperliquid_market_bench.Outbox.Worker.{Phase, choosing, posting, acknowledging, stopped, World}

abbrev pub SameSends : IngestHealth → IngestHealth → Type 0
SameSends h h' =
    (h'.batches_succeeded ≡ h.batches_succeeded) × (h'.events_succeeded ≡ h.events_succeeded)

persist_at-SameSends :
    (io : WriteAnswers) (bytes events : ℕ) (order : Option ℕ) (o : PersistentOutbox)
    → SameSends o.health (persist_at io bytes events order o).1.health
unfolding persist_at write_file record_drop
persist_at-SameSends io bytes events none o = (refl, refl)
persist_at-SameSends io bytes events (some order) o = ground arith

persist_encoded-SameSends :
    (io : WriteAnswers) (events : ℕ) (body : Body) (o : PersistentOutbox)
    → SameSends o.health (persist_encoded io events body o).1.health
unfolding persist_encoded persist_body record_drop
persist_encoded-SameSends io events (refused cap) o = (refl, refl)
persist_encoded-SameSends io events (encoded size) o =
    ground (arith, persist_at-SameSends io size events (next_order io.now_ms (last o.files)) o)

pub persist_events-SameSends :
    (io : WriteAnswers) (events : List (Option ℕ)) (o : PersistentOutbox)
    → SameSends o.health (persist_events io events o).1.health
unfolding persist_events record_drop
persist_events-SameSends io events o =
    ground (arith, persist_encoded-SameSends io (length events) (encode_body 0 events) o)

-- The worker's file is the outbox's head.
abbrev pub OfHead : Phase → List OutboxFile → Type 0
OfHead choosing files = Unit {0}
OfHead (posting file attempt) files = (rest : List OutboxFile) × (files ≡ file ∷ rest)
OfHead (acknowledging file) files = (rest : List OutboxFile) × (files ≡ file ∷ rest)
OfHead stopped files = Unit {0}

pub record IsWorld (w : World) : Type 0 where
  pub sound : IsSound w.outbox
  pub head : OfHead w.phase w.outbox.files
  pub sends :
      (w.outbox.health.batches_succeeded < 2 ^ 64) × (w.outbox.health.events_succeeded < 2 ^ 64)

unfoldable pub events_of : List OutboxFile → ℕ
events_of [] = 0
events_of (f ∷ files) = f.events + events_of files

events_of-append : (xs ys : List OutboxFile) → events_of (xs ++ ys) ≡ events_of xs + events_of ys
unfolding events_of
events_of-append [] ys = omega arith
events_of-append (x ∷ xs) ys = omega (arith, events_of-append xs ys)

-- The file that a phase has still to acknowledge after the server took it. A worker that stops may
-- leave one.
abbrev pub Owes : Phase → List OutboxFile → Type 0
Owes choosing files = files ≡ []
Owes (posting file attempt) files = files ≡ []
Owes (acknowledging file) files = files ≡ file ∷ []
Owes stopped files = Unit {0}

-- Of the files that one world owes and those that the server takes until another, in this order, the
-- first ones are delivered and the others are owed.
abbrev pub Settles : Phase → List OutboxFile → List OutboxFile → Phase → Type 0
Settles phase taken delivered phase' =
    (owed : List OutboxFile)
    → Owes phase owed
    → (left : List OutboxFile) × Owes phase' left × (owed ++ taken ≡ delivered ++ left)

-- Batches that were accepted stand behind the old ones; those that were delivered are taken from
-- the front, counted with their events, and were taken by the server.
abbrev pub Advances : World → List OutboxFile → World → Type 0
Advances w taken w' =
    (added : List OutboxFile) × (delivered : List OutboxFile) × (w.outbox.files ++ added
      ≡ delivered ++ w'.outbox.files)
    × (w'.outbox.health.batches_succeeded
        ≡ (w.outbox.health.batches_succeeded + length delivered) % 2 ^ 64)
    × (w'.outbox.health.events_succeeded
        ≡ (w.outbox.health.events_succeeded + events_of delivered) % 2 ^ 64)
    × Settles w.phase taken delivered w'.phase

Settles-trans :
    (p q r : Phase) (t1 t2 d1 d2 : List OutboxFile)
    → Settles p t1 d1 q
    → Settles q t2 d2 r
    → Settles p (t1 ++ t2) (d1 ++ d2) r
Settles-trans p q r t1 t2 d1 d2 s1 s2 owed o =
    let (left, o1, e1) = s1 owed o in
    let (rest, o2, e2) = s2 left o1 in
    (
      rest,
      o2,
      sym (append_assoc owed t1 t2)
          ∙ ap (λ l. l ++ t2) e1
          ∙ append_assoc d1 left t2
          ∙ ap (λ l. d1 ++ l) e2
          ∙ sym (append_assoc d1 d2 rest),
    )

pub Advances-trans :
    (u v w : World) (t1 t2 : List OutboxFile)
    → Advances u t1 v
    → Advances v t2 w
    → Advances u (t1 ++ t2) w
Advances-trans u v w t1 t2 (a1, d1, e1, b1, s1, p1) (a2, d2, e2, b2, s2, p2) = (
  a1 ++ a2,
  d1 ++ d2,
  sym (append_assoc u.outbox.files a1 a2)
      ∙ ap (λ l. l ++ a2) e1
      ∙ append_assoc d1 v.outbox.files a2
      ∙ ap (λ l. d1 ++ l) e2
      ∙ sym (append_assoc d1 d2 w.outbox.files),
  omega (arith, b1, b2, length-append {0} d1 d2),
  omega (arith, s1, s2, events_of-append d1 d2),
  Settles-trans u.phase v.phase w.phase t1 t2 d1 d2 p1 p2,
)

-- A step that only adds files.
pub Advances-added :
    (w w' : World) (added taken : List OutboxFile)
    → IsWorld w
    → w'.outbox.files ≡ w.outbox.files ++ added
    → SameSends w.outbox.health w'.outbox.health
    → Settles w.phase taken [] w'.phase
    → Advances w taken w'
unfolding events_of
Advances-added w w' added taken v e s p =
    (added, [], sym e, omega (arith, s.0, v.sends), omega (arith, s.1, v.sends), p)

pub OfHead-append :
    (phase : Phase) (files added : List OutboxFile)
    → OfHead phase files
    → OfHead phase (files ++ added)
OfHead-append choosing files added h = tt
OfHead-append (posting file attempt) files added (rest, e) = (rest ++ added, ap (λ l. l ++ added) e)
OfHead-append (acknowledging file) files added (rest, e) = (rest ++ added, ap (λ l. l ++ added) e)
OfHead-append stopped files added h = tt
