-- ===== src/Join/Expiry.antt =====
-- src/vpc_mempool.rs: `expire` leaves no entry past its deadline, and forgets old hashes.
use hyperliquid_market_bench.Prelude.{
  ℕ, ◌-◌, ◌<◌, ◌≡◌, List, [], ◌∷◌, false, String, String_discrete, All,
}
use hyperliquid_market_bench.Dict.{Map}
use hyperliquid_market_bench.Dict.Sweep
use hyperliquid_market_bench.Join.{
  JoinInput, Entry, MempoolJoin, is_overdue, expire, done_retain, offer,
}
use hyperliquid_market_bench.Join.Once.{JoinInv}

module _ (now : ℕ) where
  abbrev Waits : Map String Entry → String × Entry → Type 0
  Waits = Sweep.Waits String_discrete (is_overdue now)

  record Round (rest : Map String Entry) (j : MempoolJoin) : Type 0 where
    inv : JoinInv j
    waits : All (Waits rest) j.opened

  -- The state is kept, no entry is overdue, and every hash that is remembered is recent.
  pub record Expires (j : MempoolJoin) : Type 0 where
    pub inv : JoinInv j
    pub in_time : All (λ e. is_overdue now e ≡ false) j.opened
    pub recent : All (λ e. now - e.1 < done_retain) j.done

-- The task's two calls.
pub data JoinStep : Type 0 where
  offer_step : JoinInput → ℕ → JoinStep
  expire_step : ℕ → JoinStep

unfoldable pub join_step : JoinStep → MempoolJoin → MempoolJoin
join_step (offer_step input now) j = (offer input now j).1
join_step (expire_step now) j = (expire now j).2

unfoldable pub join_run : List JoinStep → MempoolJoin → MempoolJoin
unfolding join_step
join_run [] j = j
join_run (s ∷ ss) j = join_run ss (join_step s j)
