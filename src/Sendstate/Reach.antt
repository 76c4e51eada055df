-- ===== src/Sendstate/Reach.antt =====
-- Every history of a send state, whatever the allocations that fail on the way.
use quicly.Common.{ℕ, ◌≤◌, uint64_max}
use quicly.Ranges.{Allocator}
use quicly.Sendstate.{Sendstate, Sent, Allocators, init, activate, shutdown, reset, acked, lost}
use quicly.Sendstate.Invariant.{reset_size}

-- The calls, with what their callers assert.
pub data Step : Sendstate → Sendstate → Type 0 where
  activates :
      (mem : Allocator) (s : Sendstate) → s.size_inflight ≤ s.final_size → Step s (activate mem s).0
  shuts :
      (mem : Allocators) (s : Sendstate) (final_size : ℕ)
      → s.size_inflight ≤ final_size
      → final_size ≤ uint64_max
      → Step s (shutdown mem s final_size).0
  resets :
      (mem : Allocators) (s : Sendstate) (code reliable : ℕ)
      → reliable ≤ reset_size s reliable
      → reset_size s reliable ≤ uint64_max
      → Step s (reset mem s code reliable).0
  acks :
      (mem : Allocators) (s : Sendstate) (args : Sent)
      → args.start ≤ args.end
      → Step s (acked mem s args).0
  loses : (mem : Allocators) (s : Sendstate) (args : Sent) → Step s (lost mem s args).0

pub data Reaches (mem : Allocator) : Sendstate → Type 0 where
  start : Reaches mem (init mem)
  next : {s t : Sendstate} → Reaches mem s → Step s t → Reaches mem t
