-- ===== src/Outbox/Delivery.antt =====
-- src/axiom.rs: what the worker does to the outbox, and runs of it beside submissions.
use hyperliquid_market_bench.Prelude.{
  ℕ, suc, ◌+◌, ◌≡◌, ◌∙◌, refl, ap, List, [], ◌∷◌, some, Bool, true, false, if◌then◌else◌, length,
  All, subst, arith,
}
use hyperliquid_market_bench.Outbox.{
  OutboxFile, PersistentOutbox, Removal, removed, missing, same_name, remove_named, forget,
  acknowledge,
}
use hyperliquid_market_bench.Outbox.Sound.{IsSound, IsBatch, IsOrdered, total}
use hyperliquid_market_bench.Outbox.Fifo.{SameSends}

pub same_name_self : (name : List ℕ) → same_name name name ≡ true
unfolding same_name
same_name_self [] = refl
same_name_self (c ∷ name) = ground (arith, same_name_self name)

IsOrdered-tail :
    (file : OutboxFile) (files : List OutboxFile) → IsOrdered (file ∷ files) → IsOrdered files
IsOrdered-tail file [] h = tt
IsOrdered-tail file (g ∷ files) h = h.1

forget_head-IsSound :
    (o : PersistentOutbox) (file : OutboxFile) (rest : List OutboxFile)
    → IsSound o
    → o.files ≡ file ∷ rest
    → IsSound (forget (some (file, rest)) o).1
unfolding forget total
forget_head-IsSound o file rest sound e =
    let n : length o.files ≡ suc (length rest) = ap length e in
    let t : total o.files ≡ file.bytes + total rest = ap total e in
    let all = subst (All IsBatch) e sound.batches in
    record {
      words = sound.words;
      files_cap = omega (arith, n, sound.files_cap);
      bytes_sum = omega (arith, t, sound.bytes_sum);
      bytes_cap = omega (arith, sound.bytes_cap);
      ordered = IsOrdered-tail file rest (subst IsOrdered e sound.ordered);
      batches = all.1;
      batches_gauge = omega (arith, n, sound.batches_gauge, sound.files_cap, sound.words);
      bytes_gauge =
          omega (arith, t, sound.bytes_gauge, sound.bytes_sum, sound.bytes_cap, sound.words);
    }

remove_named-head :
    (file : OutboxFile) (rest : List OutboxFile)
    → remove_named file.name (file ∷ rest) ≡ some (file, rest)
unfolding remove_named
remove_named-head file rest = rw (same_name_self file.name) refl

-- Either the head is gone and the acknowledgement is committed, or nothing has changed.
abbrev pub Acknowledged :
    OutboxFile → List OutboxFile → PersistentOutbox → Bool × PersistentOutbox → Type 0
Acknowledged file rest o (true, o') = (o'.files ≡ rest) × SameSends o.health o'.health × IsSound o'
Acknowledged file rest o (false, o') = o' ≡ o

committed :
    (synced : Bool) (o : PersistentOutbox) (file : OutboxFile) (rest : List OutboxFile)
    → IsSound o
    → o.files ≡ file ∷ rest
    → Acknowledged file rest o
        (if synced then forget (remove_named file.name o.files) o else (false, o))
unfolding forget
committed false o file rest s e = refl
committed true o file rest s e =
    let found : remove_named file.name o.files ≡ some (file, rest) =
      ap (remove_named file.name) e ∙ remove_named-head file rest in
    rw found (refl, (refl, refl), forget_head-IsSound o file rest s e)

pub acknowledge-Acknowledged :
    (answer : Removal) (synced : Bool) (o : PersistentOutbox) (file : OutboxFile)
    (rest : List OutboxFile)
    → IsSound o
    → o.files ≡ file ∷ rest
    → Acknowledged file rest o (acknowledge answer synced file o)
unfolding acknowledge
acknowledge-Acknowledged Removal.refused synced o file rest s e = refl
acknowledge-Acknowledged removed synced o file rest s e = committed synced o file rest s e
acknowledge-Acknowledged missing synced o file rest s e = committed synced o file rest s e
