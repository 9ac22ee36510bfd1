-- ===== src/Tap/Pulls.antt =====
-- src/tap.rs: the loop of `take` that pulls what the new bytes made contiguous.
use hyperliquid_market_bench.Prelude.{
  ℕ, zero, suc, ◌+◌, ◌-◌, ◌^◌, ◌≤◌, ◌<◌, ◌≡◌, refl, sym, ap, subst, List, [], ◌∷◌, ◌++◌, Option,
  none, some, length, All, leb, ◌==◌, ◌||◌, Bool-cases, inl, inr, ◌⊎◌, arith, length-append,
  if_elim, ◌>>=◌,
}
use hyperliquid_market_bench.Bytes.{At, drop}
use hyperliquid_market_bench.Tap.{
  Held, seq_diff, is_negative, as_usize, pull_due, Pulled, pull_held, pull_found, pull_loop,
}
use hyperliquid_market_bench.Tap.Follows.{
  word, Place, IsKept, is_due_lem, At-join, At-drop, length-drop, seq_diff-ahead,
}

module _ (stream : List ℕ) (first : ℕ) where
  -- What is found stands at or before the next byte, and with nothing found all is behind it.
  abbrev pub Due : ℕ → ℕ → List (ℕ × Held) → Option ((ℕ × Held) × List (ℕ × Held)) → Type 0
  Due n c pending none = All (IsKept stream first c) pending
  Due n c pending (some (e, others)) =
      (o : ℕ) × (n ≤ o)
      × (o ≤ c)
      × Place stream first n o e.0 e.1.payload
      × All (IsKept stream first n) others
      × (suc (length others) ≡ length pending)

  pub Due-later :
      (n c : ℕ) (e : ℕ × Held) (pending : List (ℕ × Held))
      (found : Option ((ℕ × Held) × List (ℕ × Held)))
      → IsKept stream first n e
      → IsKept stream first c e
      → Due n c pending found
      → Due n c (e ∷ pending) (found >>= λ f. some (f.0, e ∷ f.1))
  Due-later n c e pending none k l d = (l, d)
  Due-later n c e pending (some (f, others)) k l d = (d.0, d.1, d.2, d.3, (k, d.4), ap suc d.5)

  pub pull_due-Due :
      (n c : ℕ) (pending : List (ℕ × Held))
      → n ≤ c
      → c ≤ n + 2 ^ 31
      → All (IsKept stream first n) pending
      → Due n c pending (pull_due (word stream first c) pending)
  unfolding pull_due
  pull_due-Due n c [] h k a = tt
  pull_due-Due n c (e ∷ pending) h k a =
      let o = a.0.0 in
      let p = a.0.2 in
      let near : o < n + 2 ^ 31 = (let i = p.1 in let j = p.2 in omega arith) in
      let due : (seq_diff e.0 (word stream first c) == 0
            || is_negative (seq_diff e.0 (word stream first c)))
          ≡ leb o c =
        subst
          (λ s.
            (seq_diff s (word stream first c) == 0
              || is_negative (seq_diff s (word stream first c)))
            ≡ leb o c)
          (sym p.0) (is_due_lem stream first n c o h k a.0.1 near) in
      let ih = pull_due-Due n c pending h k a.1 in
      if_elim (Due n c (e ∷ pending))
        (seq_diff e.0 (word stream first c) == 0
          || is_negative (seq_diff e.0 (word stream first c)))
        _ _ (λ t. (o, a.0.1, ground arith, p, a.1, refl))
        (λ t.
          Due-later n c e pending (pull_due (word stream first c) pending) a.0
            (o, ground arith, (p.0, p.1, (let i = p.2 in omega arith), p.3)) ih)

  -- `seq_diff(next, s) as usize`, exact unless it is 2 GiB.
  abbrev pub IsOverlap : ℕ → ℕ → ℕ → Type 0
  IsOverlap c o overlap = (overlap ≡ c - o) ⊎ ((c ≡ o + 2 ^ 31) × (2 ^ 31 ≤ overlap))

  pub overlap_lem :
      (c o : ℕ)
      → o ≤ c
      → c ≤ o + 2 ^ 31
      → IsOverlap c o (as_usize (seq_diff (word stream first c) (word stream first o)))
  overlap_lem c o h k = elim (Bool-cases (c == o + 2 ^ 31)) [
    | inl f ↦ inr (
      ground arith,
      ground (arith, seq_diff-ahead (first + c) (first + o) (ground arith) (ground arith)),
    )
    | inr f ↦
        inl (ground (arith, seq_diff-ahead (first + c) (first + o) (ground arith) (ground arith)))
  ]

  -- The bytes pulled since an offset, and what is still pending behind it.
  abbrev pub Reaches : ℕ → Pulled → Type 0
  Reaches n p =
      (p.next ≡ word stream first (n + length p.content))
      × (length p.content ≤ 2 ^ 31)
      × At stream n p.content
      × All (IsKept stream first n) p.pending

  pub pull_held-Reaches :
      (n o : ℕ) (held : Held) (p : Pulled)
      → Reaches n p
      → n ≤ o
      → o ≤ n + length p.content
      → o + length held.payload ≤ n + 2 ^ 31
      → At stream o held.payload
      → (overlap : ℕ) → IsOverlap (n + length p.content) o overlap
      → Reaches n (pull_held held overlap p)
  unfolding pull_held
  pull_held-Reaches n o held p r h k l a overlap e =
      if_elim (Reaches n) (leb (length held.payload) overlap) p _ (λ t. r)
        λ t. elim e [
          | inr f ↦ absurd (ground arith)
          | inl f ↦
              let fresh = drop overlap held.payload in
              let size = length-drop overlap held.payload in
              let all : length (p.content ++ fresh) ≡ length p.content + length fresh =
                length-append p.content fresh in
              let here : o + overlap ≡ n + length p.content = omega arith in
              let sum : first + (n + length p.content) + length fresh
                  ≡ first + (n + length (p.content ++ fresh)) =
                omega arith in
              (
                (let i = r.0 in omega arith),
                ground arith,
                At-join stream n p.content fresh r.2
                    (subst (λ i. At stream i fresh) here (At-drop stream o overlap held.payload a)),
                r.3,
              )
        ]

  pub pull_held-pending :
      (held : Held) (overlap : ℕ) (p : Pulled) → (pull_held held overlap p).pending ≡ p.pending
  unfolding pull_held
  pull_held-pending held overlap p =
      if_elim (λ q. q.pending ≡ p.pending) (leb (length held.payload) overlap) p _ (λ t. refl)
        (λ t. refl)

  pub All-nil {κ} : (P : ℕ × Held → Type κ) (xs : List (ℕ × Held)) → length xs ≤ 0 → All P xs
  All-nil P [] h = tt
  All-nil P (x ∷ xs) h = absurd (omega arith)

  abbrev pub IsPulled : ℕ → Pulled → Type 0
  IsPulled n p = Reaches n p × All (IsKept stream first (n + length p.content)) p.pending

  pub pull_found-IsPulled :
      (n fuel : ℕ) (rest : Pulled → Pulled) (p : Pulled)
      (found : Option ((ℕ × Held) × List (ℕ × Held)))
      → ((q : Pulled) → Reaches n q → length q.pending ≤ fuel → IsPulled n (rest q))
      → Reaches n p
      → length p.pending ≤ suc fuel
      → Due n (n + length p.content) p.pending found
      → IsPulled n (pull_found rest p found)
  unfolding pull_found
  pull_found-IsPulled n fuel rest p none ih r b d = (r, d)
  pull_found-IsPulled n fuel rest p (some (e, others)) ih r b d =
      let c = n + length p.content in
      let o = d.0 in
      let near : c ≤ o + 2 ^ 31 = (let i = r.1 in let j = d.1 in omega arith) in
      let exact =
        subst (λ s. IsOverlap c o (as_usize (seq_diff s e.0))) (sym r.0)
          (subst (λ s. IsOverlap c o (as_usize (seq_diff (word stream first c) s))) (sym d.3.0)
            (overlap_lem c o d.2 near)) in
      let q : Pulled = record p {
        pending = others;
        pending_bytes = p.pending_bytes - length e.1.payload;
      } in
      let overlap = as_usize (seq_diff p.next e.0) in
      let fewer : length (pull_held e.1 overlap q).pending ≤ fuel =
        subst (λ xs. length xs ≤ fuel) (sym (pull_held-pending e.1 overlap q))
          (let i = d.5 in omega arith) in
      ih (pull_held e.1 overlap q)
        (pull_held-Reaches n o e.1 q (r.0, r.1, r.2, d.4) d.1 d.2 d.3.2 d.3.3 overlap exact) fewer

  pub pull_loop-IsPulled :
      (fuel n : ℕ) (p : Pulled)
      → Reaches n p
      → length p.pending ≤ fuel
      → IsPulled n (pull_loop fuel p)
  unfolding pull_loop
  pull_loop-IsPulled zero n p r b = (r, All-nil _ p.pending b)
  pull_loop-IsPulled (suc fuel) n p r b =
      let d =
        pull_due-Due n (n + length p.content) p.pending (omega arith) (let i = r.1 in omega arith)
          r.3 in
      pull_found-IsPulled n fuel (pull_loop fuel) p (pull_due p.next p.pending)
        (pull_loop-IsPulled fuel n) r b
        (subst (λ s. Due n (n + length p.content) p.pending (pull_due s p.pending)) (sym r.0) d)
