-- ===== src/Tap/Waits.antt =====
-- src/tap.rs: `expire`.
use hyperliquid_market_bench.Prelude.{
  ℕ, ◌+◌, ◌-◌, ◌^◌, ◌≤◌, ◌<◌, ◌≡◌, refl, sym, ap, subst, List, [], ◌∷◌, some, All, All-mono, leb,
  arith, if_elim,
}
use hyperliquid_market_bench.Tap.{Held, Delivery, Reassembler, seq_diff, by_order}
use hyperliquid_market_bench.Tap.Push.{
  earliest, jump, or_own, expire_pending, expire, is_waiting, oldest,
}
use hyperliquid_market_bench.Tap.Follows.{
  word, Place, IsKept, Delivers, Delivers-append, seq_diff-ahead, At-bound_inside,
}
use hyperliquid_market_bench.Tap.Takes.{Taken, take_segment-Taken}

module _ (stream : List ℕ) (first : ℕ) where
  abbrev pub IsPast : ℕ → ℕ → (ℕ × Held) → Type 0
  IsPast n o e = (i : ℕ) × (o ≤ i) × Place stream first n i e.0 e.1.payload

  pub IsPast-mono :
      (n o i : ℕ) (xs : List (ℕ × Held)) → o ≤ i → All (IsPast n i) xs → All (IsPast n o) xs
  IsPast-mono n o i xs h =
      All-mono (IsPast n i) (IsPast n o) (λ e p. (p.0, (let j = p.1 in omega arith), p.2)) xs

  pub IsPast-IsKept :
      (n o : ℕ) (xs : List (ℕ × Held))
      → n ≤ o
      → All (IsPast n o) xs
      → All (IsKept stream first o) xs
  IsPast-IsKept n o xs h =
      All-mono (IsPast n o) (IsKept stream first o)
        (λ e p. (p.0, p.1, (p.2.0, p.2.1, (let j = p.2.2 in omega arith), p.2.3))) xs

  -- The first of some segments, none of which stands before it.
  abbrev pub IsEarliest : ℕ → List (ℕ × Held) → (ℕ × Held) × List (ℕ × Held) → Type 0
  IsEarliest n all (e, others) =
      (o : ℕ) × (n ≤ o)
      × Place stream first n o e.0 e.1.payload
      × All (IsPast n o) all
      × All (IsPast n o) others

  pub by_order_lem :
      (n o : ℕ)
      → n ≤ o
      → o < n + 2 ^ 31
      → by_order (seq_diff (word stream first o) (word stream first n)) ≡ o - n + 2 ^ 31
  by_order_lem n o h k =
      let e = seq_diff-ahead (first + o) (first + n) (omega arith) (omega arith) in ground arith

  pub earliest-IsEarliest :
      (n : ℕ) (e : ℕ × Held) (pending : List (ℕ × Held))
      → IsKept stream first n e
      → All (IsKept stream first n) pending
      → IsEarliest n (e ∷ pending) (earliest (word stream first n) e pending)
  unfolding earliest
  earliest-IsEarliest n e [] k a = let o = k.0 in (k.0, k.1, k.2, ((k.0, omega arith, k.2), tt), tt)
  earliest-IsEarliest n e (f ∷ pending) k a =
      let next = word stream first n in
      let found = earliest next f pending in
      let ih = earliest-IsEarliest n f pending a.0 a.1 in
      let o = k.0 in
      let i = ih.0 in
      let own : by_order (seq_diff e.0 next) ≡ o - n + 2 ^ 31 =
        subst (λ s. by_order (seq_diff s next) ≡ o - n + 2 ^ 31) (sym k.2.0)
          (by_order_lem n o k.1 (let x = k.2.1 in let y = k.2.2 in omega arith)) in
      let other : by_order (seq_diff found.0.0 next) ≡ i - n + 2 ^ 31 =
        subst (λ s. by_order (seq_diff s next) ≡ i - n + 2 ^ 31) (sym ih.2.0)
          (by_order_lem n i ih.1 (let x = ih.2.1 in let y = ih.2.2 in omega arith)) in
      let x = k.1 in
      let y = ih.1 in
      if_elim (IsEarliest n (e ∷ f ∷ pending))
        (leb (by_order (seq_diff e.0 next)) (by_order (seq_diff found.0.0 next))) _ _
        (λ t.
          let l : o ≤ i = ground arith in
          let past = IsPast-mono n o i (f ∷ pending) l ih.3 in
          (o, k.1, k.2, ((o, omega arith, k.2), past), past))
        (λ t.
          let l : i ≤ o = ground arith in (i, ih.1, ih.2, ((o, l, k.2), ih.3), ((o, l, k.2), ih.4)))

  pub jump-Taken :
      (m n clock : ℕ) (r : Reassembler) (out : List Delivery) (all : List (ℕ × Held))
      (found : (ℕ × Held) × List (ℕ × Held))
      → Delivers stream first m out n
      → IsEarliest n all found
      → Taken stream first m (jump clock r out found)
  unfolding jump
  jump-Taken m n clock r out all (e, others) d i =
      let o = i.0 in
      let p = i.2 in
      let x = i.1 in
      let y = p.2 in
      take_segment-Taken stream first m o o e.0 e.1.payload e.1.wall_ns clock _ _
        (ap some p.0, IsPast-IsKept n o others i.1 i.4)
        (Delivers-append stream first m n o out _ d
          (o, i.1, (let j = At-bound_inside stream o e.1.payload p.1 p.3 in omega arith), refl))
        p.0 (omega arith, p.1, omega arith, p.3)

  pub expire_pending-Taken :
      (m n clock : ℕ) (r : Reassembler) (pending : List (ℕ × Held)) (out : List Delivery)
      → r.next ≡ some (word stream first n)
      → All (IsKept stream first n) pending
      → Delivers stream first m out n
      → Taken stream first m (out, r)
      → Taken stream first m (expire_pending clock r pending out)
  unfolding expire_pending
  expire_pending-Taken m n clock r [] out f a d t = t
  expire_pending-Taken m n clock r (e ∷ pending) out f a d t =
      subst (λ s. Taken stream first m (jump clock r out (earliest (or_own s e.0) e pending)))
        (sym f)
        (jump-Taken m n clock r out (e ∷ pending) _ d (earliest-IsEarliest n e pending a.0 a.1))

  pub expire-Taken :
      (m now clock : ℕ) (at : List Delivery × Reassembler)
      → Taken stream first m at
      → Taken stream first m (expire now clock at)
  unfolding expire
  expire-Taken m now clock (out, r) t =
      if_elim (Taken stream first m) (is_waiting now (oldest r.pending)) _ _ (λ u. t)
        (λ u. expire_pending-Taken m t.0 clock r r.pending out t.1.0 t.1.1 t.2 t)
