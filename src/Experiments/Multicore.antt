-- ===== src/Experiments/Multicore.antt =====
-- .legacy/dac_exp_multicore.c: the port, the loop of a core, and `main`.
use Prim.Native.Nat.{bit_or}
use Prim.Native.String.{String}
use rtgen_dpdk_next.Base.{
  ℕ, zero, suc, ◌+◌, Bool, true, false, Option, none, some, List, [], ◌∷◌, ltb, ◌==◌, if◌then◌else◌,
  ◌>>=◌, add64,
}
use rtgen_dpdk_next.Experiments.{
  Round, Outcome, missed, failed, sent, send_until, interval_of, misses, sleep_time,
}

abbrev pub cycle : ℕ
cycle = 30000

abbrev pub num_packets : ℕ
num_packets = 1000000

abbrev pub num_thread : ℕ
num_thread = 2

-- The calls of `configure_port`, each of which gives an int, as its bit pattern.
pub data PortCall : Type 0 where
  dev_configure : (nb_rx nb_tx : ℕ) → PortCall
  rx_queue_setup : (queue num_desc : ℕ) → PortCall
  tx_queue_setup : (queue num_desc : ℕ) → PortCall
  dev_start : PortCall

-- `ret |= ...` for each transmit queue, from queue `i` on.
unfoldable pub setup_queues : (PortCall → ℕ) → (rounds i ret : ℕ) → ℕ
setup_queues returns zero i ret = ret
setup_queues returns (suc n) i ret =
    setup_queues returns n (i + 1) (bit_or ret (returns (tx_queue_setup i 8)))

-- A call is made whatever the calls before it gave.
unfoldable pub configure_port : (PortCall → ℕ) → (num_queues : ℕ) → ℕ
configure_port returns n =
    let ret = bit_or (returns (dev_configure 1 n)) (returns (rx_queue_setup 0 8)) in
    bit_or (setup_queues returns n 0 ret) (returns dev_start)

-- The variables of `tx_loop` and the counters in its arguments.
pub record Progress : Type 0 where
  pub count : ℕ
  pub next_cycle : ℕ
  pub num_missed_deadlines : ℕ
  pub num_failed : ℕ

-- A round of the loop; the try to send gives up after the interval.
unfoldable pub tx_round : (interval fuel : ℕ) → Round → Progress → Option (Outcome × Progress)
tx_round interval fuel r s = do
  let next = add64 s.next_cycle cycle
  elim (misses next r.ts) [
    | true ↦ some (
      missed,
      record s {
        next_cycle = next;
        num_missed_deadlines = s.num_missed_deadlines + 1;
        count = s.count + 1;
      },
    )
    | false ↦ do
      taken ← send_until r interval fuel 0
      let nfailed = if taken then s.num_failed else s.num_failed + 1
      some (
        if taken then sent (sleep_time next r.ts) next else failed (sleep_time next r.ts) next,
        record s { next_cycle = next; num_failed = nfailed; count = s.count + 1 },
      )
  ]

-- `while (count < num_packets)`, for at most `rounds_left` rounds; `none` also if they are not enough.
unfoldable pub tx_rounds :
    (interval fuel num rounds_left : ℕ) → (ℕ → Round) → Progress → Option (List Outcome × Progress)
tx_rounds interval fuel num zero rounds s = if ltb s.count num then none else some ([], s)
tx_rounds interval fuel num (suc n) rounds s = elim (ltb s.count num) [
  | false ↦ some ([], s)
  | true ↦ do
    (o, s1) ← tx_round interval fuel (rounds s.count) s
    (os, s2) ← tx_rounds interval fuel num n rounds s1
    some (o ∷ os, s2)
]

-- The loop of a core whose packet is there.
unfoldable pub tx_loop :
    (timer_hz fuel num offset : ℕ) → (ℕ → Round) → Option (List Outcome × Progress)
unfolding tx_rounds
tx_loop hz fuel num offset rounds =
    tx_rounds (interval_of cycle hz) fuel num num rounds
      (record { count = 0; next_cycle = offset; num_missed_deadlines = 0; num_failed = 0 })

-- What the calls of `main` give: `eal_init` may not be negative, the others must be 0, and the pool must
-- not be NULL.
pub record Answers : Type 0 where
  pub eal_init_negative : Bool
  pub has_mbuf_pool : Bool
  pub port_call : PortCall → ℕ
  pub can_send_on_timestamp : Bool
  pub dev_info_get : ℕ
  pub timestamp_register : ℕ
  pub timesync_enable : ℕ
  pub clock : ℕ
  pub remote_launch : ℕ

-- How `main` ends: by `rte_exit`, or with the loop launched for a queue, with an offset, on a core.
pub data Ending : Type 0 where
  exited : String → Ending
  launched : (queue offset lcore : ℕ) → Ending

abbrev pub check_offload_capabilities : Answers → Bool
check_offload_capabilities a = a.can_send_on_timestamp

unfoldable pub main : Answers → Ending
main a = elim a.eal_init_negative [
  | true ↦ exited "Error with EAL initialization\n"
  | false ↦ elim a.has_mbuf_pool [
    | false ↦ exited "Cannot create mbuf pool\n"
    | true ↦ elim (configure_port a.port_call num_thread == 0) [
      | false ↦ exited "Port configuration failed\n"
      | true ↦ elim (check_offload_capabilities a) [
        | false ↦ exited "Offload capabilities check failed\n"
        | true ↦ elim (a.dev_info_get == 0) [
          | false ↦ exited "Cannot get device info\n"
          | true ↦ elim (a.timestamp_register == 0) [
            | false ↦ exited "Timestamping registration failed\n"
            | true ↦ elim (a.timesync_enable == 0) [
              | false ↦ exited "Hardware timesync enable failed\n"
              | true ↦ elim (a.remote_launch == 0) [
                | false ↦ exited "Cannot launch tx_loop on lcore 0\n"
                | true ↦ launched 0 (add64 a.clock 2000000000) 9
              ]
            ]
          ]
        ]
      ]
    ]
  ]
]
