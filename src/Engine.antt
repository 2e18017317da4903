-- ===== src/Engine.antt =====
-- src/engine_dpdk.c: the parts of the engine that loop, that is reading a hardware timestamp, sleeping
-- and handing a packet to the NIC. What the NIC and the cycle counter give is a function of the number
-- of the call.
pub mod Timestamp
pub mod Sleep
pub mod Calls
pub mod Outcome
use rtgen_dpdk_next.Base.{
  ℕ, zero, suc, ◌+◌, ◌-◌, ◌*◌, ◌/◌, Bool, true, false, Option, none, some, ltb, leb, ◌==◌,
  if◌then◌else◌, add64, sub64, mul64, ◌&&◌, not,
}
use rtgen_dpdk_next.Base.Int.{ℤ, pos, negsuc}
use rtgen_dpdk_next.Flow.{one_second_in_ns, fudge_factor}

-- The fields of a `struct timespec`, as 64-bit patterns.
pub record HwTimespec : Type 0 where
  pub tv_sec : ℕ
  pub tv_nsec : ℕ

abbrev pub hw_timestamp_try_times : ℕ
hw_timestamp_try_times = 10000

-- What the reads of the NIC's timestamp give: `none` is a nonzero return value.
abbrev pub Reads : Type 0
Reads = ℕ → Option HwTimespec

-- The loop that reads until a read succeeds or `count` has reached the limit, which is `tries` away:
-- the last `count` and the last read.
unfoldable pub read_until : Reads → (tries count : ℕ) → ℕ × Option HwTimespec
read_until reads zero count = (count, reads count)
read_until reads (suc n) count = elim (reads count) [
  | none ↦ read_until reads n (count + 1)
  | some ts ↦ (count, some ts)
]

abbrev pub ns_of : HwTimespec → ℕ
ns_of ts = add64 (mul64 ts.tv_sec one_second_in_ns) ts.tv_nsec

-- The value returned and the time stored; a fault if an unread `ts` were used.
abbrev pub timestamp_of : ℕ × Option HwTimespec → Option (ℤ × ℕ)
timestamp_of (count, r) =
    if count == hw_timestamp_try_times
    then some (negsuc 0, 0)
    else elim r [ none ↦ none | some ts ↦ some (pos 0, ns_of ts) ]

unfoldable pub get_tx_hardware_timestamp : Reads → Option (ℤ × ℕ)
unfolding read_until
get_tx_hardware_timestamp reads = timestamp_of (read_until reads hw_timestamp_try_times 0)

-- `reads` is what the reads for the given flags give.
unfoldable pub get_rx_hardware_timestamp : (flags : ℕ) → (ℕ → Reads) → Option (ℤ × ℕ)
unfolding read_until
get_rx_hardware_timestamp flags reads =
    timestamp_of (read_until (reads flags) hw_timestamp_try_times 0)

-- The loop of `sleep` over the whole seconds; at most `fuel` rounds.
unfoldable pub sleep_seconds : (hz fuel cycles ns : ℕ) → ℕ × ℕ
sleep_seconds hz zero cycles ns = (cycles, ns)
sleep_seconds hz (suc n) cycles ns = elim (leb one_second_in_ns ns) [
  | false ↦ (cycles, ns)
  | true ↦ sleep_seconds hz n (add64 cycles hz) (ns - one_second_in_ns)
]

-- The cycles for which `sleep` waits. A round takes a second off `ns`, so that `ns` rounds are enough.
unfoldable pub sleep_cycles : (hz ns : ℕ) → ℕ
unfolding sleep_seconds
sleep_cycles hz ns =
    let (cycles, rest) = sleep_seconds hz ns 0 ns in add64 cycles (mul64 rest hz / one_second_in_ns)

-- The loop that waits: the number of the reading of the counter that ends it, among the first `fuel`.
unfoldable pub wait_until : (clock : ℕ → ℕ) → (start cycles fuel i : ℕ) → Option ℕ
wait_until clock start cycles zero i = none
wait_until clock start cycles (suc n) i = elim (ltb (sub64 (clock i) start) cycles) [
  | false ↦ some i
  | true ↦ wait_until clock start cycles n (i + 1)
]

-- `clock 0` is the reading at the start.
unfoldable pub sleep : (hz : ℕ) (clock : ℕ → ℕ) (fuel ns : ℕ) → Option ℕ
unfolding wait_until sleep_cycles
sleep hz clock fuel ns = wait_until clock (clock 0) (sleep_cycles hz ns) fuel 1
