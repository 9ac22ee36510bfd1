-- ===== src/Outbox/Reopened.antt =====
-- src/axiom.rs: `PersistentOutbox::open` as a whole.
use hyperliquid_market_bench.Prelude.{
  Bool-cases, false, ◌⊎◌, ◌+◌, ◌^◌, ◌<◌, ◌≡◌, refl, sym, List, Option, none, some, Bool, ◌||◌, not,
  ltb, ◌==◌, length, All, Option-cases, inl, inr, subst, arith, Yields, ◌>>=◌, if_elim,
}
use hyperliquid_market_bench.Outbox.{OutboxConfig, OutboxFile, PersistentOutbox}
use hyperliquid_market_bench.Outbox.Sound.{IsBatch, total}
use hyperliquid_market_bench.Outbox.Worker.{choosing}
use hyperliquid_market_bench.Outbox.Recovery.{
  Entry, recover, sort_files, checked_total, take_up, open_outbox,
}
use hyperliquid_market_bench.Outbox.Directory.{Recovers, DirectoryIs, recover-DirectoryIs}
use mathlib.Core.List.{Perm}
use hyperliquid_market_bench.Outbox.Fifo.{IsWorld}
use hyperliquid_market_bench.Outbox.Restored.{
  recover-IsBatch, sort_files-perm, sort_files-IsOrdered, sort_files-IsBatch, checked_total-total,
  IsNew, IsTakenUp, take_up-IsTakenUp, total-sort_files, checked_total-none,
}

-- The files do not fit the caps.
abbrev pub TooMuch : OutboxConfig → List OutboxFile → Type 0
TooMuch config files = (config.max_files < length files) ⊎ (config.max_bytes < total files)

-- Why an outbox does not open, or what it is where it opens.
abbrev pub Opens : OutboxConfig → Bool → List Entry → Option PersistentOutbox → Type 0
Opens config usable entries none =
    ((config.max_files ≡ 0) ⊎ (config.max_bytes ≡ 0))
    ⊎ ((usable ≡ false)
        ⊎ (((files : List OutboxFile) → ¬ Recovers entries files)
            ⊎ ((files : List OutboxFile) × Recovers entries files × TooMuch config files)))
Opens config usable entries (some o) =
    IsWorld (record { outbox = o; phase = choosing })
    × IsNew config o
    × ((files : List OutboxFile) × Recovers entries files × Perm o.files files)

too_much :
    (config : OutboxConfig) (files : List OutboxFile)
    → config.max_bytes < 2 ^ 64
    → take_up config (sort_files files) ≡ none
    → TooMuch config files
unfolding take_up
too_much config files w e = elim (Option-cases (checked_total 0 (sort_files files))) [
  | inl n ↦
      (let h = checked_total-none (sort_files files) 0 n in
        let t = total-sort_files files in inr (omega arith))
  | inr (bytes, n) ↦
      let same =
        subst (Yields (λ m. m ≡ 0 + total (sort_files files))) n
          (checked_total-total (sort_files files) 0) in
      let t = total-sort_files files in
      elim (Bool-cases (ltb config.max_files (length (sort_files files)))) [
        | inl u ↦ inl (ground arith)
        | inr u ↦ elim (Bool-cases (ltb config.max_bytes bytes)) [
          | inl v ↦ inr (ground arith)
          | inr v ↦ absurd (ground arith)
        ]
      ]
]

-- Opening.
take_up-Opens :
    (config : OutboxConfig) (usable : Bool) (entries : List Entry) (files : List OutboxFile)
    → (config.max_files < 2 ^ 64) × (config.max_bytes < 2 ^ 64)
    → recover entries ≡ some files
    → (r : Option PersistentOutbox) → take_up config (sort_files files) ≡ r
    → Opens config usable entries r
take_up-Opens config usable entries files w e none t = inr (
    inr (
      inr (
        files,
        subst (DirectoryIs entries) e (recover-DirectoryIs entries),
        too_much config files w.1 t,
      )))
take_up-Opens config usable entries files w e (some o) t =
    let batches = subst (Yields (All IsBatch)) e (recover-IsBatch entries) in
    let taken = subst (Yields (IsTakenUp config (sort_files files))) t (
      take_up-IsTakenUp config (sort_files files) w (sort_files-IsBatch files batches)
        (sort_files-IsOrdered files)) in
    (
      taken.0,
      taken.2,
      (
        files,
        subst (DirectoryIs entries) e (recover-DirectoryIs entries),
        subst (λ l. Perm l files) (sym taken.1) (sort_files-perm files),
      ),
    )

-- With caps that are machine words: an outbox that opens is within its caps, ordered and counted by
-- its gauges, with the worker before its head, has the given caps, is neither stopping nor
-- poisoned, and has counted nothing else yet; and its files are those of the directory, each as
-- often as there and none lost: every entry is taken up with its name, its size and the order and
-- count that its name gives, unless it is a directory, a temporary file or a file of another kind.
-- It fails to open only where a cap is 0, where the directory is not usable, where a file of the
-- outbox's kind has a bad name or is too large, or where the files are over the caps.
pub open_outbox-Opens :
    (config : OutboxConfig) (usable : Bool) (entries : List Entry)
    → (config.max_files < 2 ^ 64) × (config.max_bytes < 2 ^ 64)
    → Opens config usable entries (open_outbox config usable entries)
unfolding open_outbox
open_outbox-Opens config usable entries w =
    let Q = Opens config usable entries in
    if_elim Q (config.max_files == 0 || config.max_bytes == 0 || not usable) none _
      (λ x. elim (Bool-cases (config.max_files == 0)) [
        | inl f ↦ inl (inl (ground arith))
        | inr f ↦ elim (Bool-cases (config.max_bytes == 0)) [
          | inl g ↦ inl (inr (ground arith))
          | inr g ↦ inr (inl (ground arith))
        ]
      ])
      λ x. elim (Option-cases (recover entries)) [
        | inl e ↦
            subst
              (λ (r : Option (List OutboxFile)).
                Q (r >>= λ files. take_up config (sort_files files)))
              (sym e)
              (inr (inr (inl (subst (DirectoryIs entries) e (recover-DirectoryIs entries)))))
        | inr (files, e) ↦
            subst
              (λ (r : Option (List OutboxFile)).
                Q (r >>= λ files. take_up config (sort_files files)))
              (sym e)
              (take_up-Opens config usable entries files w e (take_up config (sort_files files))
                refl)
      ]
