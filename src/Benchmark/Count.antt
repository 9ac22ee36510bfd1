-- ===== src/Benchmark/Count.antt =====
-- src/benchmark.rs: the counter updates that the handlers of `Benchmark` make.
use hyperliquid_market_bench.Prelude.{ℕ, Bool, if◌then◌else◌, add_u64}
use hyperliquid_market_bench.Benchmark.{ProviderCounters}

abbrev pub observed : ProviderCounters → ProviderCounters
observed c = record c { observed = add_u64 c.observed 1 }

abbrev pub matched : ProviderCounters → ProviderCounters
matched c = record c { matched = add_u64 c.matched 1 }

abbrev pub missing : ProviderCounters → ProviderCounters
missing c = record c { missing = add_u64 c.missing 1 }

abbrev pub mismatch : ProviderCounters → ProviderCounters
mismatch c = record c { missing = add_u64 c.missing 1; mismatch = add_u64 c.mismatch 1 }

abbrev pub duplicate : ProviderCounters → ProviderCounters
duplicate c = record c { duplicate = add_u64 c.duplicate 1 }

abbrev pub late : ProviderCounters → ProviderCounters
late c = record c { late = add_u64 c.late 1 }

abbrev pub orphaned : ProviderCounters → ProviderCounters
orphaned c = record c { orphaned = add_u64 c.orphaned 1 }

abbrev pub negative_latency : ProviderCounters → ProviderCounters
negative_latency c = record c { negative_latency = add_u64 c.negative_latency 1 }

abbrev pub future_timestamp : ProviderCounters → ProviderCounters
future_timestamp c = record c { future_timestamp = add_u64 c.future_timestamp 1 }

abbrev pub signature_overflow : ProviderCounters → ProviderCounters
signature_overflow c = record c { signature_overflow = add_u64 c.signature_overflow 1 }

abbrev pub reconnects : ProviderCounters → ProviderCounters
reconnects c = record c { reconnects = add_u64 c.reconnects 1 }

abbrev pub sequence_gaps : ℕ → ProviderCounters → ProviderCounters
sequence_gaps n c = record c { sequence_gaps = add_u64 c.sequence_gaps n }

abbrev pub replay : ℕ → Bool → ProviderCounters → ProviderCounters
replay messages has_gap c = record c {
  replay_count = add_u64 c.replay_count messages;
  replay_gaps = add_u64 c.replay_gaps (if has_gap then 1 else 0);
}
