-- ===== src/Experiments/Singlecore.antt =====
-- .legacy/dac_exp_singlecore.c: the port, and the loop, which reads the hardware timestamp of each frame.
use Prim.Native.Nat.{bit_or}
use Prim.Native.String.{String}
use rtgen_dpdk_next.Base.{
  ℕ, zero, suc, ◌+◌, ◌%◌, Bool, true, false, Option, none, some, List, [], ◌∷◌, ltb, ◌==◌, store,
  if◌then◌else◌, ◌>>=◌, add64,
}
use rtgen_dpdk_next.Experiments.{
  Round, Outcome, missed, failed, sent, send_until, interval_of, misses, sleep_time,
}

abbrev pub cycle : ℕ
cycle = 1000000

abbrev pub num_packets : ℕ
num_packets = 1000000000

-- The calls of `configure_port`, with the bit patterns of what they give.
pub data PortCall : Type 0 where
  dev_configure : (nb_rx nb_tx : ℕ) → PortCall
  rx_queue_setup : (queue num_desc : ℕ) → PortCall
  tx_queue_setup : (queue num_desc : ℕ) → PortCall
  dev_start : PortCall

unfoldable pub configure_port : (PortCall → ℕ) → ℕ
configure_port returns =
    let ret = bit_or (returns (dev_configure 1 4)) (returns (rx_queue_setup 0 32)) in
    let ret1 = bit_or ret (returns (tx_queue_setup 0 32)) in
    let ret2 = bit_or ret1 (returns (tx_queue_setup 1 32)) in
    let ret3 = bit_or ret2 (returns (tx_queue_setup 2 32)) in
    let ret4 = bit_or ret3 (returns (tx_queue_setup 3 32)) in bit_or ret4 (returns dev_start)

-- A round, with what the reads of the hardware timestamp give: `none` is a nonzero return value, and
-- otherwise the nanoseconds.
pub record TimedRound : Type 0 where
  pub round : Round
  pub read_tx_timestamp : ℕ → Option ℕ

-- `while (rte_eth_timesync_read_tx_timestamp(...) != 0) {}`, for at most `fuel` reads.
unfoldable pub read_until : (ℕ → Option ℕ) → (fuel i : ℕ) → Option ℕ
read_until reads zero i = none
read_until reads (suc n) i = elim (reads i) [
  | some ns ↦ some ns
  | none ↦ read_until reads n (i + 1)
]

-- The variables of `tx_loop`, and the counters and the array that it writes to.
pub record Progress : Type 0 where
  pub count : ℕ
  pub next_cycle : ℕ
  pub num_missed_deadlines : ℕ
  pub num_failed : ℕ
  pub hw_timestamps : List ℕ

unfoldable pub tx_round : (interval fuel : ℕ) → TimedRound → Progress → Option (Outcome × Progress)
tx_round interval fuel t s = do
  let r = t.round
  let next = add64 s.next_cycle cycle
  elim (misses next r.ts) [
    | true ↦ some (
      missed,
      record s {
        next_cycle = next;
        num_missed_deadlines = s.num_missed_deadlines + 1;
        count = s.count + 1;
      },
    )
    | false ↦ do
      taken ← send_until r interval fuel 0
      elim taken [
        | false ↦ some (
          failed (sleep_time next r.ts) next,
          record s { next_cycle = next; num_failed = s.num_failed + 1; count = s.count + 1 },
        )
        | true ↦ do
          ns ← read_until t.read_tx_timestamp fuel 0
          stamps ← store s.hw_timestamps s.count (ns % cycle)
          some (
            sent (sleep_time next r.ts) next,
            record s { next_cycle = next; hw_timestamps = stamps; count = s.count + 1 },
          )
      ]
  ]

unfoldable pub tx_rounds :
    (interval fuel num rounds_left : ℕ)
    → (ℕ → TimedRound)
    → Progress
    → Option (List Outcome × Progress)
tx_rounds interval fuel num zero rounds s = if ltb s.count num then none else some ([], s)
tx_rounds interval fuel num (suc n) rounds s = elim (ltb s.count num) [
  | false ↦ some ([], s)
  | true ↦ do
    (o, s1) ← tx_round interval fuel (rounds s.count) s
    (os, s2) ← tx_rounds interval fuel num n rounds s1
    some (o ∷ os, s2)
]

-- `ts` is the first reading of the clock, and `hw_timestamps` what malloc gives.
unfoldable pub tx_loop :
    (timer_hz fuel num ts : ℕ) (hw_timestamps : List ℕ)
    → (ℕ → TimedRound)
    → Option (List Outcome × Progress)
unfolding tx_rounds
tx_loop hz fuel num ts stamps rounds =
    tx_rounds (interval_of cycle hz) fuel num num rounds (record {
      count = 0;
      next_cycle = add64 ts 1900000000;
      num_missed_deadlines = 0;
      num_failed = 0;
      hw_timestamps = stamps;
    })

-- What the calls of `main` give: `eal_init` may not be negative, the others must be 0, and the pool must
-- not be NULL.
pub record Answers : Type 0 where
  pub eal_init_negative : Bool
  pub has_mbuf_pool : Bool
  pub port_call : PortCall → ℕ
  pub dev_info_get : ℕ
  pub timesync_enable : ℕ

pub data Ending : Type 0 where
  exited : String → Ending
  looping : Ending

-- `ret` is tested twice after `rte_eth_dev_info_get`, as the registration is commented out.
unfoldable pub main : Answers → Ending
main a = elim a.eal_init_negative [
  | true ↦ exited "Error with EAL initialization\n"
  | false ↦ elim a.has_mbuf_pool [
    | false ↦ exited "Cannot create mbuf pool\n"
    | true ↦ elim (configure_port a.port_call == 0) [
      | false ↦ exited "Port configuration failed\n"
      | true ↦ elim (a.dev_info_get == 0) [
        | false ↦ exited "Cannot get device info\n"
        | true ↦ elim (a.dev_info_get == 0) [
          | false ↦ exited "Timestamping registration failed\n"
          | true ↦ elim (a.timesync_enable == 0) [
            | false ↦ exited "Hardware timesync enable failed\n"
            | true ↦ looping
          ]
        ]
      ]
    ]
  ]
]
