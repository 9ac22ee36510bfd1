-- ===== src/Tap/Takes.antt =====
-- src/tap.rs: `take`.
use hyperliquid_market_bench.Prelude.{
  ℕ, ◌+◌, ◌-◌, ◌^◌, ◌≤◌, ◌<◌, ◌≡◌, refl, sym, ap, subst, List, [], ◌∷◌, some, true, false, length,
  All, leb, ltb, ◌==◌, Bool-cases, inl, inr, arith, if_elim,
}
use hyperliquid_market_bench.Bytes.{At, drop}
use hyperliquid_market_bench.Tap.{
  Held, Delivery, Reassembler, wrapping_add, seq_diff, is_negative, unsigned_abs, Pulled, pull_loop,
  take_ready, handed_on, hold, take_at, or_insert, max_pending_bytes, take_segment,
}
use hyperliquid_market_bench.Tap.Follows.{
  word, Place, IsKept, Follows, Delivers, Delivers-append, At-bound_inside, At-drop, length-drop,
  seq_diff-ahead, seq_diff-behind,
}
use hyperliquid_market_bench.Tap.Pulls.{pull_loop-IsPulled, IsPulled}

module _ (stream : List ℕ) (first : ℕ) where
  -- What is handed on leads from an offset to the one that the state follows.
  abbrev pub Taken : ℕ → List Delivery × Reassembler → Type 0
  Taken m (out, r) = (n : ℕ) × Follows stream first n r × Delivers stream first m out n

  pub handed_on-Taken :
      (m n : ℕ) (out : List Delivery) (p : Pulled)
      → Delivers stream first m out n
      → IsPulled stream first n p
      → Taken m (handed_on out p)
  handed_on-Taken m n out p d i = (
    n + length p.content,
    (ap some i.0.0, i.1),
    Delivers-append stream first m n (n + length p.content) out _ d (i.0.2, refl),
  )

  pub take_ready-Taken :
      (m n : ℕ) (payload : List ℕ) (wall_ns : ℕ) (pending : List (ℕ × Held)) (pending_bytes : ℕ)
      (out : List Delivery)
      → Delivers stream first m out n
      → length payload ≤ 2 ^ 31
      → At stream n payload
      → All (IsKept stream first n) pending
      → Taken m (take_ready (word stream first n) payload wall_ns pending pending_bytes out)
  unfolding take_ready
  take_ready-Taken m n payload wall_ns pending pending_bytes out d l a k =
      let start : Pulled = record {
        next = wrapping_add (word stream first n) (length payload);
        content = payload;
        last_wall = wall_ns;
        pending = pending;
        pending_bytes = pending_bytes;
      } in
      handed_on-Taken m n out (pull_loop (length pending) start) d (
        pull_loop-IsPulled stream first (length pending) n start (omega arith, l, a, k)
          (omega arith))

  pub or_insert-IsKept :
      (n seq : ℕ) (held : Held) (pending : List (ℕ × Held))
      → IsKept stream first n (seq, held)
      → All (IsKept stream first n) pending
      → All (IsKept stream first n) (or_insert seq held pending)
  unfolding or_insert
  or_insert-IsKept n seq held [] k a = (k, tt)
  or_insert-IsKept n seq held (e ∷ pending) k a =
      if_elim (All (IsKept stream first n)) (e.0 == seq) _ _ (λ t. a)
        (λ t.
          if_elim (All (IsKept stream first n)) (ltb seq e.0) _ _ (λ u. (k, a))
            (λ u. (a.0, or_insert-IsKept n seq held pending k a.1)))

  pub hold-Taken :
      (m n o : ℕ) (payload : List ℕ) (wall_ns clock : ℕ) (r : Reassembler) (out : List Delivery)
      → Follows stream first n r
      → Delivers stream first m out n
      → n ≤ o
      → Place stream first n o (word stream first o) payload
      → Taken m (hold (word stream first o) payload wall_ns clock r out)
  unfolding hold
  hold-Taken m n o payload wall_ns clock r out f d h p =
      if_elim (Taken m) (ltb max_pending_bytes (r.pending_bytes + length payload)) _ _
        (λ t.
          take_ready-Taken m o payload wall_ns [] 0 _
            (Delivers-append stream first m n o out _ d
              (o, h, (let i = At-bound_inside stream o payload p.1 p.3 in omega arith), refl))
            (let i = p.2 in omega arith) p.3 tt)
        (λ t. (n, (f.0, or_insert-IsKept n _ _ r.pending (o, h, p) f.1), d))

  -- The segment's bytes stand at an offset less than 2 GiB from the next one.
  abbrev pub IsNear : ℕ → ℕ → List ℕ → Type 0
  IsNear n o payload =
      (n ≤ o + 2 ^ 31)
      × (1 ≤ length payload)
      × (o + length payload ≤ n + 2 ^ 31)
      × At stream o payload

  pub behind_lem :
      (n o : ℕ)
      → o < n
      → n ≤ o + 2 ^ 31
      → (is_negative (seq_diff (word stream first o) (word stream first n)) ≡ true)
        × (unsigned_abs (seq_diff (word stream first o) (word stream first n)) ≡ n - o)
  behind_lem n o h k =
      let e = seq_diff-behind (first + o) (first + n) (omega arith) (omega arith) in
      (ground arith, ground arith)

  pub ahead_lem :
      (n o : ℕ)
      → n ≤ o
      → o < n + 2 ^ 31
      → (is_negative (seq_diff (word stream first o) (word stream first n)) ≡ false)
        × (seq_diff (word stream first o) (word stream first n) ≡ o - n)
  ahead_lem n o h k =
      let e = seq_diff-ahead (first + o) (first + n) (omega arith) (omega arith) in
      (ground arith, ground arith)

  pub take_at-Taken :
      (m n o : ℕ) (payload : List ℕ) (wall_ns clock : ℕ) (r : Reassembler) (out : List Delivery)
      → Follows stream first n r
      → Delivers stream first m out n
      → IsNear n o payload
      → Taken m
          (take_at (word stream first o) payload wall_ns clock (some (word stream first n)) r out)
  unfolding take_at
  take_at-Taken m n o payload wall_ns clock r out f d p =
      let near = p.0 in
      let size = p.1 in
      let end = p.2 in
      elim (Bool-cases (ltb o n)) [
        | inl t ↦
            let e = behind_lem n o (ground arith) near in
            let skip = unsigned_abs (seq_diff (word stream first o) (word stream first n)) in
            let here : o + skip ≡ n = (let i = e.1 in ground arith) in
            if_elim (Taken m) (is_negative (seq_diff (word stream first o) (word stream first n))) _
              _
              (λ u.
                if_elim (Taken m) (leb (length payload) skip) _ _ (λ v. (n, f, d))
                  (λ v.
                    take_ready-Taken m n (drop skip payload) wall_ns r.pending r.pending_bytes out d
                      (let i = length-drop skip payload in omega arith)
                      (subst (λ i. At stream i (drop skip payload)) here
                        (At-drop stream o skip payload p.3))
                      f.1))
              (λ u. absurd (let i = e.0 in cc))
        | inr t ↦
            let e = ahead_lem n o (ground arith) (omega arith) in
            if_elim (Taken m) (is_negative (seq_diff (word stream first o) (word stream first n))) _
              _ (λ u. absurd (let i = e.0 in cc))
              (λ u.
                if_elim (Taken m) (ltb 0 (seq_diff (word stream first o) (word stream first n))) _ _
                  (λ v.
                    hold-Taken m n o payload wall_ns clock r out f d (ground arith)
                      (refl, size, end, p.3))
                  (λ v.
                    let here : o ≡ n = (let i = e.1 in ground arith) in
                    take_ready-Taken m n payload wall_ns r.pending r.pending_bytes out d
                      (omega arith) (subst (λ i. At stream i payload) here p.3) f.1))
      ]

  -- The same of a segment and a state that are given by their sequence numbers.
  pub take_segment-Taken :
      (m n o seq : ℕ) (payload : List ℕ) (wall_ns clock : ℕ) (r : Reassembler) (out : List Delivery)
      → Follows stream first n r
      → Delivers stream first m out n
      → seq ≡ word stream first o
      → IsNear n o payload
      → Taken m (take_segment seq payload wall_ns clock r out)
  take_segment-Taken m n o seq payload wall_ns clock r out f d e p =
      subst (λ s. Taken m (take_at s payload wall_ns clock r.next r out)) (sym e)
        (subst (λ s. Taken m (take_at (word stream first o) payload wall_ns clock s r out))
          (sym f.0) (take_at-Taken m n o payload wall_ns clock r out f d p))
