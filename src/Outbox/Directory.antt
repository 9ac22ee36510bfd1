-- ===== src/Outbox/Directory.antt =====
-- src/axiom.rs: the files that `PersistentOutbox::open` takes up, entry by entry of the directory.
use hyperliquid_market_bench.Prelude.{
  ℕ, zero, suc, ◌+◌, ◌-◌, ◌≤◌, ◌≡◌, ◌∙◌, refl, ap, sym, subst, List, [], ◌∷◌, ◌++◌, Option, none,
  some, true, false, ◌⊎◌, inl, inr, ◌||◌, not, ltb, length, length-append, if_elim, Bool-cases,
  Option-cases, arith, ◌>>=◌, if◌then◌else◌,
}
use hyperliquid_market_bench.Bytes.{take, drop}
use hyperliquid_market_bench.Outbox.{OutboxFile, max_batch_bytes, same_name}
use hyperliquid_market_bench.Outbox.Delivery.{same_name_self}
use hyperliquid_market_bench.Outbox.Reread.{drop-append}
use hyperliquid_market_bench.Outbox.Names.{
  suffix, ends_with, event_count_from_name, order_from_name,
}
use hyperliquid_market_bench.Outbox.Recovery.{
  Entry, temporary, recover_file, recover_entry, recover, cons_some,
}

-- A name ends in a text.
abbrev pub EndsIn : List ℕ → List ℕ → Type 0
EndsIn end name = (stem : List ℕ) × (name ≡ stem ++ end)

-- A directory, a temporary file or a file of another kind.
abbrev pub IsPassed : Entry → Type 0
IsPassed e = (e.is_file ≡ false) ⊎ (EndsIn temporary e.name ⊎ ¬ EndsIn suffix e.name)

-- A file of the outbox, with its name and size, and the order and the count that its name gives.
pub record IsTaken (e : Entry) (file : OutboxFile) : Type 0 where
  pub is_file : e.is_file ≡ true
  pub not_temporary : ¬ EndsIn temporary e.name
  pub of_outbox : EndsIn suffix e.name
  pub name : file.name ≡ e.name
  pub bytes : file.bytes ≡ e.bytes
  pub fits : e.bytes ≤ max_batch_bytes
  pub order : order_from_name e.name ≡ some file.order
  pub events : event_count_from_name e.name ≡ some file.events

-- Each entry is passed over or taken up, in the directory's order.
abbrev pub Recovers : List Entry → List OutboxFile → Type 0
Recovers [] files = files ≡ []
Recovers (e ∷ es) files =
    (IsPassed e × Recovers es files)
    ⊎ ((file : OutboxFile) × (rest : List OutboxFile) × (files ≡ file ∷ rest)
        × IsTaken e file
        × Recovers es rest)

same_name→eq : (x y : List ℕ) → same_name x y ≡ true → x ≡ y
unfolding same_name
same_name→eq [] [] h = refl
same_name→eq [] (b ∷ y) h = absurd (ground arith)
same_name→eq (a ∷ x) [] h = absurd (ground arith)
same_name→eq (a ∷ x) (b ∷ y) h =
    let same : a ≡ b = ground arith in let rest = same_name→eq x y (ground arith) in cc

take-drop : (n : ℕ) (xs : List ℕ) → xs ≡ take n xs ++ drop n xs
take-drop zero xs = refl
take-drop (suc n) [] = refl
take-drop (suc n) (x ∷ xs) = ap (λ l. x ∷ l) (take-drop n xs)

ends_with-EndsIn : (end name : List ℕ) → ends_with end name ≡ true → EndsIn end name
unfolding ends_with
ends_with-EndsIn end name h = (
  take (length name - length end) name,
  take-drop (length name - length end) name
      ∙ ap (λ l. take (length name - length end) name ++ l)
          (same_name→eq (drop (length name - length end) name) end (ground arith)),
)

EndsIn-ends_with : (end name : List ℕ) → EndsIn end name → ends_with end name ≡ true
unfolding ends_with
EndsIn-ends_with end name (stem, e) =
    let size : length name ≡ length stem + length end = ap length e ∙ length-append stem end in
    let at : length name - length end ≡ length stem = omega arith in
    let behind : drop (length name - length end) name ≡ end =
      ap (λ n. drop n name) at ∙ ap (drop (length stem)) e ∙ drop-append stem end in
    let same : same_name (drop (length name - length end) name) end ≡ true =
      ap (λ l. same_name l end) behind ∙ same_name_self end in
    ground arith

-- What an entry comes to: it is passed over, taken up, or no file of an outbox at all.
abbrev pub EntryIs : Entry → Option (Option OutboxFile) → Type 0
EntryIs e none = (¬ IsPassed e) × ((file : OutboxFile) → ¬ IsTaken e file)
EntryIs e (some none) = IsPassed e
EntryIs e (some (some file)) = IsTaken e file

not-IsPassed :
    (e : Entry)
    → e.is_file ≡ true
    → ends_with temporary e.name ≡ false
    → ends_with suffix e.name ≡ true
    → ¬ IsPassed e
not-IsPassed e f t s (inl g) = absurd (ground arith)
not-IsPassed e f t s (inr (inl g)) =
    (let h = EndsIn-ends_with temporary e.name g in absurd (ground arith))
not-IsPassed e f t s (inr (inr g)) = g (ends_with-EndsIn suffix e.name s)

recover_file-EntryIs :
    (e : Entry)
    → e.is_file ≡ true
    → ends_with temporary e.name ≡ false
    → ends_with suffix e.name ≡ true
    → EntryIs e (recover_file e)
unfolding recover_file
recover_file-EntryIs e f t s =
    let passed = not-IsPassed e f t s in
    elim (Option-cases (event_count_from_name e.name)) [
      | inl n ↦
          subst
            (λ o. EntryIs e (o >>= λ events. order_from_name e.name >>= λ order. rest events order))
            (sym n) (passed, λ file k. (let x = k.events in absurd (cc)))
      | inr (events, n) ↦
          subst
            (λ o. EntryIs e (o >>= λ events. order_from_name e.name >>= λ order. rest events order))
            (sym n)
            (elim (Option-cases (order_from_name e.name)) [
              | inl m ↦
                  subst (λ o. EntryIs e (o >>= λ order. rest events order)) (sym m)
                    (passed, λ file k. (let x = k.order in absurd (cc)))
              | inr (order, m) ↦
                  subst (λ o. EntryIs e (o >>= λ order. rest events order)) (sym m)
                    (if_elim (EntryIs e) (ltb max_batch_bytes e.bytes) _ _
                      (λ u. (passed, λ file k. (let x = k.fits in absurd (ground arith))))
                      (λ u. record {
                        is_file = f;
                        not_temporary = λ g.
                            (let h = EndsIn-ends_with temporary e.name g in absurd (ground arith));
                        of_outbox = ends_with-EndsIn suffix e.name s;
                        name = refl;
                        bytes = refl;
                        fits = ground arith;
                        order = m;
                        events = n;
                      }))
            ])
    ]
  where
    rest : ℕ → ℕ → Option (Option OutboxFile)
    rest events order =
        if ltb max_batch_bytes e.bytes
        then none
        else some (some (record { name = e.name; order = order; bytes = e.bytes; events = events }))

recover_entry-EntryIs : (e : Entry) → EntryIs e (recover_entry e)
unfolding recover_entry
recover_entry-EntryIs e =
    if_elim (EntryIs e)
      (not e.is_file || ends_with temporary e.name || not (ends_with suffix e.name)) _ _
      (λ t. elim (Bool-cases e.is_file) [
        | inr f ↦ inl f
        | inl f ↦ elim (Bool-cases (ends_with temporary e.name)) [
          | inl g ↦ inr (inl (ends_with-EndsIn temporary e.name g))
          | inr g ↦
              inr (inr (λ h. (let k = EndsIn-ends_with suffix e.name h in absurd (ground arith))))
        ]
      ])
      (λ t. recover_file-EntryIs e (ground arith) (ground arith) (ground arith))

-- The files of a directory, or none where there are no such files.
abbrev pub DirectoryIs : List Entry → Option (List OutboxFile) → Type 0
DirectoryIs es none = (files : List OutboxFile) → ¬ Recovers es files
DirectoryIs es (some files) = Recovers es files

EntryIs-cons :
    (e : Entry) (es : List Entry) (file : Option (Option OutboxFile))
    (files : Option (List OutboxFile))
    → EntryIs e file
    → DirectoryIs es files
    → DirectoryIs (e ∷ es) (file >>= λ f. files >>= λ l. some (cons_some f l))
EntryIs-cons e es none files h k =
    λ l r. elim r [ inl (p, q) ↦ h.0 p | inr (file, rest, eq, t, q) ↦ h.1 file t ]
EntryIs-cons e es (some file) none h k =
    λ l r. elim r [ inl (p, q) ↦ k l q | inr (found, rest, eq, t, q) ↦ k rest q ]
EntryIs-cons e es (some none) (some files) h k = inl (h, k)
EntryIs-cons e es (some (some file)) (some files) h k = inr (file, files, refl, h, k)

pub recover-DirectoryIs : (es : List Entry) → DirectoryIs es (recover es)
unfolding recover
recover-DirectoryIs [] = refl
recover-DirectoryIs (e ∷ es) =
    EntryIs-cons e es (recover_entry e) (recover es) (recover_entry-EntryIs e)
      (recover-DirectoryIs es)
