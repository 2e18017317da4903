-- ===== src/Lib.antt =====
-- rtgen-dpdk sends flows of packets, each at its launch time, from the queues of a network card that
-- supports launch times, and keeps the card's clock in step with a master's over PTP. The talker reads
-- the flows into a table, computes a cyclic schedule for each transmit queue and starts one core for
-- each queue; a core's loop goes through its schedule, advances the timer of each frame's flow, sleeps
-- until shortly before the launch time, hands the packet to the card and records statistics.
--
-- The files, and the code that they model (paths from the repository's root):
--   Flow: src/flow.h and src/flow.c, the table of flows (`flow_state`, `add_flow`) and the timers
--     (`init_flow_timer`, `inc_flow_timer`). Flow/Table and Flow/Timer prove the table against the
--     list of flows that it stands for.
--   Sche: src/sche.h and src/sche.c, the cycle (`calculate_cycle`), the count of frames and the arrays
--     of a schedule (`init_schedule_state_per_queue`, `sort`, `create_schedule_state`). Sche/Frames
--     defines the frames of a queue independently; Sche/Build compares the two.
--   Statistic: src/statistic.h and src/statistic.c, the counters, delays and jitters.
--   TxLoop: `tx_loop` of src/talker.c, on the three above. TxLoop/Total and TxLoop/Due follow one round, TxLoop/Cycle
--     a whole cycle, TxLoop/Launches the launch times in it, and TxLoop/Ends a run of several cycles.
--   Cores: the loops of several cores on one table of flows, as `main` of src/talker.c starts them.
--     Cores/Launches has the launch times whatever the order of the steps, and compares a core among
--     others with the same core alone.
--   Packet: src/header_dpdk.c, the functions of src/engine_dpdk.c that write a packet, and
--     `ip_addr_from_string` of src/utility.c. Packet/Layout has the law of the packet buffer, and
--     Packet/Reader a receiver's reading of the bytes.
--   Sending: `prepare_pkts` of src/talker.c, with the packets of a whole table of flows in
--     Sending/Table, and `sche_single` of src/engine_dpdk.c.
--   Options and Config: `parser`, `parse_command_arguments` and `parse_config_file` of src/talker.c, and
--     the globals of src/flow.c.
--   Listener: src/listener.c and `recv_single` of src/engine_dpdk.c.
--   Ptp: src/ptpclient_dpdk.h and src/ptpclient_dpdk.c, the PTP client.
--   Engine: the loops of src/engine_dpdk.c that read hardware timestamps and sleep. Engine/Calls has the
--     functions around single calls of DPDK, with `rte_exit` as an outcome.
--   Ports: the table of ports and queues of src/engine_dpdk.h, which `setup_EAL` of src/engine_dpdk.c
--     marks, and the loops of `main` of src/talker.c that configure and start them. Ports/SetUp is
--     the whole set-up, and Ports/Order the states of a port that its calls need, apart from its queues.
--   Launch: the base time that `main` of src/talker.c computes, and the cores that it starts.
--   Talker: `main` of src/talker.c from the filled table to the started cores, on Sche, Sending and
--     Launch.
--   Experiments: .legacy/dac_exp_multicore.c and .legacy/dac_exp_singlecore.c.
--   Base: the shared notation and lemmas. Tests: runs and examples.
--
-- Numbers are native; uint64_t wraps at 2 ^ 64, and conversions to int cut to 32 bits. A function that
-- may access an array out of range, follow NULL or divide by zero returns an Option, with `none` for
-- that fault. A loop is a recursion on the number of rounds left or, for `gcd`, on the accessibility
-- of its argument. These loops have fuel: `sleep_seconds`, where `ns` rounds are enough since each
-- takes a second off `ns`; `wait_until` and `tx_retry`, where the number of readings of the counter
-- until it shows the time is enough; the tries to send and the reads of the experiments, where
-- the number of the one that ends them is enough; and `tx_loop`, where one more than the number of cycles is
-- enough until the clock that it reads has passed the end. `rx_loop` never ends: its model runs any
-- number of rounds. What DPDK, malloc, getopt_long, sscanf and the clocks give is an argument of the
-- functions, as a function of the number of the call where it is called often.
--
-- Cores run in steps, one of a core at a time, in any order: a round of a loop is one step, as it
-- writes only timers that no other core reads.
--
-- Not modelled: output; the pool of packets, `allocate_packet`, `free_packet` and `get_mac_addr`, which
-- are single calls of DPDK; the strings of MAC addresses (src/utility.c), which only call snprintf and
-- sscanf; calculate_jitter and the throughput of the experiments, a sum of longs and a float; the NULL
-- of `rte_pktmbuf_alloc` in the PTP client; an error of `read_clock`, which ends the program by
-- `rte_exit`; and the freeing of memory.
pub mod Base
pub mod Experiments
pub mod Flow
pub mod Sche
pub mod Ptp
pub mod Engine
pub mod Ports
pub mod Config
pub mod Cores
pub mod Options
pub mod Packet
pub mod Sending
pub mod Listener
pub mod Launch
pub mod Talker
pub mod Statistic
pub mod TxLoop
pub mod Tests
