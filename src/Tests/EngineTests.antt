-- ===== src/Tests/EngineTests.antt =====
-- src/engine_dpdk.c.
use rtgen_dpdk_next.Base.{
  ℕ, ◌+◌, ◌*◌, ◌/◌, ◌<◌, ◌≤◌, ◌≡◌, refl, List, [], ◌∷◌, true, false, ◌⊎◌, none, some, arith, ◌==◌,
  if◌then◌else◌, sub64,
}
use rtgen_dpdk_next.Base.Int.{pos, negsuc}
use rtgen_dpdk_next.Flow.{one_second_in_ns}
use rtgen_dpdk_next.Engine.{
  HwTimespec, Reads, hw_timestamp_try_times, ns_of, get_tx_hardware_timestamp, sleep,
}
use rtgen_dpdk_next.Ports.{SetupCall, configure_port, configure_rx_queue, start_port}
use rtgen_dpdk_next.Engine.Calls.{
  Dpdk, exited, returned, perform_all, perform, configure, setup_rx_queue, cannot_setup_rx,
  dev_configure, adjust_nb_desc, rx_queue_setup, dev_stop, mempool_free, eal_cleanup,
  eth_read_clock, cleanup_dpdk, read_clock,
}
use rtgen_dpdk_next.Engine.Outcome.{IsMet, Stops, all_demands, calls_of, perform_all-outcome}
use rtgen_dpdk_next.Engine.Timestamp.{IsFirst, get_tx_hardware_timestamp-cases}
use rtgen_dpdk_next.Engine.Sleep.{sleep-waits}

-- The third read succeeds.
abbrev reads : Reads
reads i = if i == 2 then some (record { tv_sec = 5; tv_nsec = 7 }) else none

get_tx_hardware_timestamp-cases_example :
    ((i : ℕ) × (ts : HwTimespec) × (i < hw_timestamp_try_times)
      × IsFirst reads i ts
      × (get_tx_hardware_timestamp reads ≡ some (pos 0, ns_of ts)))
    ⊎ (((j : ℕ) → j < hw_timestamp_try_times → reads j ≡ none)
        × (get_tx_hardware_timestamp reads ≡ some (negsuc 0, 0)))
get_tx_hardware_timestamp-cases_example = get_tx_hardware_timestamp-cases reads

abbrev clock : ℕ → ℕ
clock i = 1000 + i * 100

sleep-waits_example :
    (i : ℕ) × (sleep 2000000000 clock 50 200 ≡ some i)
    × (i ≤ 1 + 3)
    × (200 * 2000000000 / one_second_in_ns ≤ sub64 (clock i) (clock 0))
    × ((j : ℕ) → 1 ≤ j → j < i → sub64 (clock j) (clock 0) < 200 * 2000000000 / one_second_in_ns)
sleep-waits_example =
    sleep-waits 2000000000 200 3 50 clock (omega arith) (omega arith) (omega arith) (omega arith)

-- DPDK refuses its third call with -22.
abbrev refusing : Dpdk
refusing = record {
  returns = λ n c. if n == 2 then negsuc 21 else pos 0;
  capabilities =
      λ p. record { tx_send_on_timestamp = true; tx_multi_segs = true; rx_timestamp = false };
}

abbrev wanted : List SetupCall
wanted = configure_port 0 ∷ configure_rx_queue 0 0 256 ∷ start_port 0 ∷ []

refused_run :
    perform_all refusing wanted []
    ≡ exited (cannot_setup_rx 0 0 (negsuc 21)) (
        dev_configure 0 1 2 true true false
        ∷ adjust_nb_desc 0 256 256
        ∷ rx_queue_setup 0 0 256
        ∷ [])
unfolding perform_all perform configure setup_rx_queue
refused_run = refl

perform_all-outcome_example :
    (IsMet refusing [] (all_demands refusing wanted)
      × (perform_all refusing wanted [] ≡ returned (calls_of (all_demands refusing wanted))))
    ⊎ Stops refusing [] (all_demands refusing wanted) (perform_all refusing wanted [])
perform_all-outcome_example = perform_all-outcome refusing wanted

cleaned_run : cleanup_dpdk refusing 0 [] ≡ returned (dev_stop 0 ∷ mempool_free ∷ eal_cleanup ∷ [])
unfolding cleanup_dpdk
cleaned_run = refl

clock_run : read_clock refusing 0 [] ≡ returned (eth_read_clock 0 ∷ [])
unfolding read_clock
clock_run = refl
