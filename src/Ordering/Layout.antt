-- ===== src/Ordering/Layout.antt =====
-- src/ordering.rs: `parse_tail` reads back the certificate tail that the module's comment lays out.
use hyperliquid_market_bench.Prelude.{
  ℕ, zero, suc, ◌+◌, ◌*◌, ◌^◌, ◌≤◌, ◌<◌, ◌≡◌, refl, ap, List, [], ◌∷◌, ◌++◌, some, length,
  length-append, All, get_elem?, subst, ◌==◌, le→leb, arith, true, false,
}
use hyperliquid_market_bench.Bytes.{le_at, le_bytes, At, is_byte}
use hyperliquid_market_bench.Bytes.Words.{is_byte_at, le_at-behind, length-le_bytes, At-append}
use hyperliquid_market_bench.Ordering.{
  read_varint, parse_tail, certificates, timeout_rounds, skip_smalls, max_or, wrapping_succ,
  tail_tc_max,
}
use hyperliquid_market_bench.Ordering.Varint.{Width, varint, Fits, read_varint-varint}

abbrev pub IsU32 : ℕ → Type 0
IsU32 v = v < 256 ^ 4

-- A round behind the marker of a word of four bytes.
abbrev pub marked : ℕ → List ℕ
marked round = 0xfc ∷ le_bytes 4 round

unfoldable pub marked_all : List ℕ → List ℕ
marked_all [] = []
marked_all (r ∷ rs) = marked r ++ marked_all rs

length-marked_all : (rs : List ℕ) → length (marked_all rs) ≡ 5 * length rs
unfolding marked_all
length-marked_all [] = refl
length-marked_all (r ∷ rs) =
    omega (
      arith,
      length-append (le_bytes 4 r) (marked_all rs),
      length-le_bytes 4 r,
      length-marked_all rs,
    )

timeout_rounds-marked_all :
    (rs d : List ℕ) (k : ℕ)
    → All IsU32 rs
    → At d k (marked_all rs)
    → timeout_rounds (length rs) d k ≡ some (rs, k + 5 * length rs)
unfolding timeout_rounds marked_all
timeout_rounds-marked_all [] d k h a = ap (λ n. some ([], n)) (omega arith)
timeout_rounds-marked_all (r ∷ rs) d k h a =
    let parts = At-append d k (marked r) (marked_all rs) a in
    let five : k + length (marked r) ≡ k + 5 = omega (arith, length-le_bytes 4 r) in
    let next = subst (λ n. At d n (marked_all rs)) five parts.1 in
    rw
      (
        parts.0.0,
        le_at-behind 4 r d k h.0 parts.0.1,
        timeout_rounds-marked_all rs d (k + 5) h.1 next,
      )
      (ap (λ n. some (r ∷ rs, n)) (omega arith))

-- Small bytes, as many as may be skipped, before a byte that is none.
skip_smalls-smalls :
    (left : ℕ) (smalls d rest : List ℕ) (j b : ℕ)
    → length smalls ≤ left
    → All (λ s. s < 0xfb) smalls
    → 0xfb ≤ b
    → At d j (smalls ++ (b ∷ rest))
    → skip_smalls left d j ≡ some (j + length smalls)
unfolding skip_smalls
skip_smalls-smalls zero [] d rest j b n h k a = rw a.0 (ap some (omega arith))
skip_smalls-smalls zero (s ∷ smalls) d rest j b n h k a = absurd (omega arith)
skip_smalls-smalls (suc left) [] d rest j b n h k a = rw a.0 (ground arith)
skip_smalls-smalls (suc left) (s ∷ smalls) d rest j b n h k a =
    let more = skip_smalls-smalls left smalls d rest (suc j) b (omega arith) h.1 k a.1 in
    let behind : suc j ≡ j + 1 = omega arith in
    let more' = subst (λ i. skip_smalls left d i ≡ some (suc j + length smalls)) behind more in
    rw a.0 (ground (arith, more'))

-- The small bytes after the count and its certificates; a count of zero is one of them.
abbrev pub Smalls : List ℕ → List ℕ → Type 0
Smalls [] smalls = length smalls ≤ 3
Smalls (r ∷ rs) smalls = (1 ≤ length smalls) × (length smalls ≤ 4)

abbrev Certified : List ℕ → ℕ → ℕ → List ℕ → Type 0
Certified d j k rs =
    (i : ℕ) × (certificates d j (read_varint d j) ≡ some (rs, i))
    × (skip_smalls 4 d i ≡ some k)
    × (i < k)

count_byte :
    (n : ℕ) (d : List ℕ) (j : ℕ)
    → n < 0xfb
    → get_elem? d j ≡ some n
    → read_varint d j ≡ some (n, j + 1)
unfolding read_varint
count_byte n d j h e = rw e (ground arith)

certified :
    (rs smalls d rest : List ℕ) (j b : ℕ)
    → All IsU32 rs
    → length rs ≤ tail_tc_max
    → All (λ s. s < 0xfb) smalls
    → Smalls rs smalls
    → 0xfb ≤ b
    → At d j ((length rs ∷ marked_all rs) ++ (smalls ++ (b ∷ rest)))
    → Certified d j (j + 1 + 5 * length rs + length smalls) rs
unfolding certificates marked_all
certified [] smalls d rest j b u n s few big a =
    let skipped : skip_smalls 4 d j ≡ some (j + length (0 ∷ smalls)) =
      skip_smalls-smalls 4 (0 ∷ smalls) d rest j b (omega arith) (omega arith, s) big a in
    (
      j,
      rw (count_byte 0 d j (omega arith) a.0) refl,
      rw skipped (ap some (omega arith)),
      omega arith,
    )
certified (r ∷ rs) smalls d rest j b u n s few big a =
    let next : suc j ≡ j + 1 = omega arith in
    let parts = At-append d (suc j) (marked_all (r ∷ rs)) (smalls ++ (b ∷ rest)) a.1 in
    let rounds = subst (λ i. At d i (marked_all (r ∷ rs))) next parts.0 in
    let small_at : suc j + length (marked_all (r ∷ rs)) ≡ j + 1 + 5 * length (r ∷ rs) =
      omega (arith, length-marked_all (r ∷ rs)) in
    let after : ℕ = j + 1 + 5 * length (r ∷ rs) in
    (
      after,
      rw
          (
            count_byte (length (r ∷ rs)) d j (omega arith) a.0,
            le→leb 1 (length (r ∷ rs)) (omega arith),
            le→leb (length (r ∷ rs)) 8 n,
            is_byte_at d (j + 1) 0xfc rounds.0,
          )
          (timeout_rounds-marked_all (r ∷ rs) d (j + 1) u rounds),
      skip_smalls-smalls 4 smalls d rest after b few.1 s big
          (subst (λ i. At d i (smalls ++ (b ∷ rest))) small_at parts.1),
      omega (arith, few.0),
    )

-- The tail of a record: a word, a varint, the count of timeout certificates and their rounds, the
-- small bytes, and the activation and parent rounds.
abbrev pub tail_bytes : ℕ → Width → ℕ → List ℕ → List ℕ → ℕ → ℕ → List ℕ
tail_bytes first w second rounds smalls activation parent =
    marked first
    ++ (varint w second
        ++ ((length rounds ∷ marked_all rounds)
            ++ (smalls ++ (marked activation ++ marked parent))))

final_rounds :
    (d : List ℕ) (k activation parent : ℕ)
    → IsU32 activation
    → IsU32 parent
    → At d k (marked activation ++ marked parent)
    → (is_byte d k 0xfc ≡ true)
      × (is_byte d (k + 5) 0xfc ≡ true)
      × (le_at 4 d (k + 1) ≡ some activation)
      × (le_at 4 d (k + 6) ≡ some parent)
final_rounds d k activation parent u v a =
    let parts = At-append d k (marked activation) (marked parent) a in
    let five : k + length (marked activation) ≡ k + 5 =
      omega (arith, length-le_bytes 4 activation) in
    let second = subst (λ i. At d i (marked parent)) five parts.1 in
    let six : k + 5 + 1 ≡ k + 6 = omega arith in
    (
      is_byte_at d k 0xfc parts.0.0,
      is_byte_at d (k + 5) 0xfc second.0,
      le_at-behind 4 activation d k u parts.0.1,
      subst (λ i. le_at 4 d i ≡ some parent) six (le_at-behind 4 parent d (k + 5) v second.1),
    )

length-tail_bytes :
    (first : ℕ) (w : Width) (second : ℕ) (rounds smalls : List ℕ) (activation parent : ℕ)
    → length (tail_bytes first w second rounds smalls activation parent)
      ≡ 5 + length (varint w second) + (1 + 5 * length rounds) + length smalls + 10
length-tail_bytes first w second rounds smalls activation parent =
    let final = marked activation ++ marked parent in
    let certs = length rounds ∷ marked_all rounds in
    omega (
      arith,
      length-append (marked first) (varint w second ++ (certs ++ (smalls ++ final))),
      length-append (varint w second) (certs ++ (smalls ++ final)),
      length-append certs (smalls ++ final),
      length-append smalls final,
      length-append (marked activation) (marked parent),
      length-le_bytes 4 first,
      length-le_bytes 4 activation,
      length-le_bytes 4 parent,
      length-marked_all rounds,
    )

-- A tail that is laid out as the format says is read back: its activation round, and as its own
-- round the successor of the highest timed-out round, or of the parent where none timed out. There
-- are at most 8 certificates; without any, the count's zero byte is followed by at most 3 small
-- bytes, else the certificates are followed by 1 to 4. The words fit 32 bits.
pub parse_tail-tail_bytes :
    (d : List ℕ) (i first : ℕ) (w : Width) (second : ℕ) (rounds smalls : List ℕ)
    (activation parent : ℕ)
    → IsU32 first
    → Fits w second
    → All IsU32 rounds
    → length rounds ≤ tail_tc_max
    → All (λ s. s < 0xfb) smalls
    → Smalls rounds smalls
    → IsU32 activation
    → IsU32 parent
    → At d i (tail_bytes first w second rounds smalls activation parent)
    → parse_tail d i
      ≡ some (record {
        activation = activation;
        round = wrapping_succ (max_or parent rounds);
        end = i + length (tail_bytes first w second rounds smalls activation parent);
      })
unfolding parse_tail
parse_tail-tail_bytes d i first w second rounds smalls activation parent uf fw ur n us few ua up a =
    let head = marked first in
    let var = varint w second in
    let certs = length rounds ∷ marked_all rounds in
    let final = marked activation ++ marked parent in
    let p1 = At-append d i head (var ++ (certs ++ (smalls ++ final))) a in
    let e1 : i + length head ≡ i + 5 = omega (arith, length-le_bytes 4 first) in
    let a1 = subst (λ k. At d k (var ++ (certs ++ (smalls ++ final)))) e1 p1.1 in
    let p2 = At-append d (i + 5) var (certs ++ (smalls ++ final)) a1 in
    let j : ℕ = i + 5 + length var in
    let k : ℕ = j + 1 + 5 * length rounds + length smalls in
    let p3 = At-append d j certs (smalls ++ final) p2.1 in
    let p4 = At-append d (j + length certs) smalls final p3.1 in
    let lengths : j + length certs + length smalls ≡ k = omega (arith, length-marked_all rounds) in
    let f = final_rounds d k activation parent ua up (subst (λ x. At d x final) lengths p4.1) in
    let c =
      certified rounds smalls d (le_bytes 4 activation ++ marked parent) j 0xfc ur n us few
        (omega arith) p2.1 in
    let moved : (k == c.0) ≡ false = ground (arith, c.3) in
    rw (p1.0.0, read_varint-varint w second d (i + 5) fw p2.0, c.1, c.2, moved, f.0, f.1, f.2, f.3)
      (ap
        (λ end. some (record {
          activation = activation;
          round = wrapping_succ (max_or parent rounds);
          end = end;
        }))
        (omega (arith, length-tail_bytes first w second rounds smalls activation parent)))
