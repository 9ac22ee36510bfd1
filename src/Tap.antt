-- ===== src/Tap.antt =====
-- src/tap.rs: the segments of a tapped connection, and `Reassembler`, which puts their bytes in
-- order. Sequence numbers are 32-bit words; `now` is the caller's reading
-- of the clock, `clock` the one that `take` makes.
pub mod Push
pub mod Packet
pub mod Follows
pub mod Pulls
pub mod Takes
pub mod Waits
pub mod Pushes
pub mod Orderly
pub mod Parses
pub mod Exact
use hyperliquid_market_bench.Prelude.{
  ℕ, zero, suc, ◌+◌, ◌-◌, ◌*◌, ◌/◌, ◌%◌, ◌^◌, ◌≤◌, ◌<◌, min, max, List, [], ◌∷◌, ◌++◌, Option, none,
  some, Bool, true, false, String, ◌&&◌, ◌||◌, not, if◌then◌else◌, ltb, leb, ◌==◌, length, is_some,
  ◌>>=◌,
}
use hyperliquid_market_bench.Bytes.{drop}

-- 250 ms, in nanoseconds.
abbrev pub reorder_wait : ℕ
reorder_wait = 250 * 1000000

abbrev pub max_pending_bytes : ℕ
max_pending_bytes = 16 * 1024 * 1024

pub record Segment : Type 0 where
  pub dst_port : ℕ
  pub seq : ℕ
  pub flags : ℕ
  pub payload : List ℕ
  pub wall_ns : ℕ

-- `flags & TCP_FIN != 0` and its kin.
abbrev pub has_fin : ℕ → Bool
has_fin flags = flags % 2 == 1

abbrev pub has_syn : ℕ → Bool
has_syn flags = flags / 2 % 2 == 1

abbrev pub has_rst : ℕ → Bool
has_rst flags = flags / 4 % 2 == 1

pub data Delivery : Type 0 where
  bytes : List ℕ → ℕ → Delivery
  reset : String → Delivery

pub record Held : Type 0 where
  pub payload : List ℕ
  pub wall_ns : ℕ
  pub seen : ℕ

-- The pending segments by their sequence numbers, in rising order.
pub record Reassembler : Type 0 where
  pub next : Option ℕ
  pub pending : List (ℕ × Held)
  pub pending_bytes : ℕ

abbrev pub wrapping_add : ℕ → ℕ → ℕ
wrapping_add a b = (a + b) % 2 ^ 32

abbrev pub wrapping_sub : ℕ → ℕ → ℕ
wrapping_sub a b = (a + 2 ^ 32 - b) % 2 ^ 32

-- `seq_diff(a, b)` is this word read as an i32, which is negative from 2 ^ 31 on.
abbrev pub seq_diff : ℕ → ℕ → ℕ
seq_diff a b = wrapping_sub a b

abbrev pub is_negative : ℕ → Bool
is_negative d = leb (2 ^ 31) d

-- `d as usize`, which extends the sign.
abbrev pub as_usize : ℕ → ℕ
as_usize d = if is_negative d then d + (2 ^ 64 - 2 ^ 32) else d

abbrev pub unsigned_abs : ℕ → ℕ
unsigned_abs d = if is_negative d then 2 ^ 32 - d else d

-- An i32 by a number of the same order.
abbrev pub by_order : ℕ → ℕ
by_order d = if is_negative d then d - 2 ^ 31 else d + 2 ^ 31

abbrev pub cleared : Reassembler
cleared = record { next = none; pending = []; pending_bytes = 0 }

-- `entry(seq).or_insert(..)`.
unfoldable pub or_insert : ℕ → Held → List (ℕ × Held) → List (ℕ × Held)
or_insert seq held [] = (seq, held) ∷ []
or_insert seq held (e ∷ pending) =
    let rest = e ∷ or_insert seq held pending in
    if e.0 == seq then e ∷ pending else if ltb seq e.0 then (seq, held) ∷ e ∷ pending else rest

-- The first pending segment that starts at or before `next`, and the others.
unfoldable pub pull_due : ℕ → List (ℕ × Held) → Option ((ℕ × Held) × List (ℕ × Held))
pull_due next [] = none
pull_due next (e ∷ pending) =
    let rest = pull_due next pending in
    if seq_diff e.0 next == 0 || is_negative (seq_diff e.0 next)
    then some (e, pending)
    else (rest >>= λ found. some (found.0, e ∷ found.1))

-- The bytes in order so far, with what is still pending.
pub record Pulled : Type 0 where
  pub next : ℕ
  pub content : List ℕ
  pub last_wall : ℕ
  pub pending : List (ℕ × Held)
  pub pending_bytes : ℕ

unfoldable pub pull_held : Held → ℕ → Pulled → Pulled
pull_held held overlap p =
    if leb (length held.payload) overlap
    then p
    else (let fresh = drop overlap held.payload in
        record p {
          next = wrapping_add p.next (length fresh);
          content = p.content ++ fresh;
          last_wall = max p.last_wall held.wall_ns;
        })

unfoldable pub pull_found :
    (Pulled → Pulled) → Pulled → Option ((ℕ × Held) × List (ℕ × Held)) → Pulled
pull_found rest p none = p
pull_found rest p (some (e, others)) = rest (
    pull_held e.1 (as_usize (seq_diff p.next e.0))
      (record p { pending = others; pending_bytes = p.pending_bytes - length e.1.payload }))

-- Each round takes a pending segment, so that their number is enough fuel.
unfoldable pub pull_loop : ℕ → Pulled → Pulled
pull_loop zero p = p
pull_loop (suc fuel) p = pull_found (pull_loop fuel) p (pull_due p.next p.pending)

abbrev pub handed_on : List Delivery → Pulled → List Delivery × Reassembler
handed_on out p = (
  out ++ (bytes p.content p.last_wall ∷ []),
  record { next = some p.next; pending = p.pending; pending_bytes = p.pending_bytes },
)

-- The payload stands at `next`, and what it makes contiguous is pulled.
unfoldable pub take_ready :
    ℕ → List ℕ → ℕ → List (ℕ × Held) → ℕ → List Delivery → List Delivery × Reassembler
take_ready next payload wall_ns pending pending_bytes out = handed_on out (
    pull_loop (length pending) (record {
      next = wrapping_add next (length payload);
      content = payload;
      last_wall = wall_ns;
      pending = pending;
      pending_bytes = pending_bytes;
    }))

unfoldable pub hold : ℕ → List ℕ → ℕ → ℕ → Reassembler → List Delivery → List Delivery × Reassembler
hold seq payload wall_ns clock r out =
    if ltb max_pending_bytes (r.pending_bytes + length payload)
    then take_ready seq payload wall_ns [] 0 (out ++ (reset "reorder buffer full" ∷ []))
    else (
      out,
      record r {
        pending_bytes = r.pending_bytes + length payload;
        pending =
            or_insert seq (record { payload = payload; wall_ns = wall_ns; seen = clock }) r.pending;
      },
    )

unfoldable pub take_at :
    ℕ → List ℕ → ℕ → ℕ → Option ℕ → Reassembler → List Delivery → List Delivery × Reassembler
take_at seq payload wall_ns clock none r out = (out, r)
take_at seq payload wall_ns clock (some next) r out =
    let d = seq_diff seq next in
    if is_negative d
    then if leb (length payload) (unsigned_abs d)
      then (out, r)
      else take_ready next (drop (unsigned_abs d) payload) wall_ns r.pending r.pending_bytes out
    else if ltb 0 d
    then hold seq payload wall_ns clock r out
    else take_ready next payload wall_ns r.pending r.pending_bytes out

abbrev pub take_segment :
    ℕ → List ℕ → ℕ → ℕ → Reassembler → List Delivery → List Delivery × Reassembler
take_segment seq payload wall_ns clock r out = take_at seq payload wall_ns clock r.next r out
