-- ===== src/Tests/ExperimentsTests.antt =====
-- The experiments of .legacy.
use rtgen_dpdk_next.Base.{
  ℕ, ◌+◌, ◌≡◌, ◌↔◌, refl, inl, inr, Bool-cases, true, false, none, some, List, [], ◌∷◌, arith,
  length, All, ◌==◌, if◌then◌else◌,
}
use rtgen_dpdk_next.Packet.{Piece, Mbuf}
use rtgen_dpdk_next.Packet.Layout.{fresh-Holds}
use rtgen_dpdk_next.Packet.Reader.{read_frame, piece_at}
use rtgen_dpdk_next.Experiments.{
  Round, Outcome, Endpoints, interval_of, prepare_packet, rte_sleep_cycles,
}
use rtgen_dpdk_next.Experiments.Multicore as Multicore
use rtgen_dpdk_next.Experiments.Singlecore as Singlecore
use rtgen_dpdk_next.Experiments.Counts.{num_missed, num_failed, num_sent, GivesUp}
use rtgen_dpdk_next.Experiments.Rounds.{AreOutcomes, tx_loop-AreOutcomes}
use rtgen_dpdk_next.Experiments.Frame.{announced, prepare_packet-read_frame}
use rtgen_dpdk_next.Experiments.Checks.{port_calls, configure_port-zero}
use rtgen_dpdk_next.Tests.PacketTests.{room, dpdk, dpdk-AppendLaws}

-- Round 0 is on time and its second try is taken; round 1 is late; round 2 gives up after its first try.
abbrev rounds : ℕ → Round
rounds k = record {
  ts = if k == 1 then 9000000 else 4000000;
  start_send = 10;
  accepted = λ n. if k == 2 then false else n == 1;
  timer = λ n. if k == 2 then 100000 else 20;
}

-- With a counter of 1 GHz, two tries are enough.
rounds-GivesUp : (k : ℕ) → GivesUp (interval_of 30000 1000000000) 2 (rounds k)
rounds-GivesUp k = record {
  tries = 1;
  enough = omega arith;
  over = elim (Bool-cases (k == 2)) [ inl e ↦ inr (rw e (omega arith)) | inr e ↦ inl (rw e) ];
}

tx_loop-AreOutcomes_example :
    (os : List Outcome) × (s : Multicore.Progress) × (Multicore.tx_loop 1000000000 2 3 5000000
        rounds
      ≡ some (os, s))
    × (length os ≡ 3)
    × AreOutcomes (interval_of 30000 1000000000) 5000000 0 rounds os
    × (s.num_missed_deadlines ≡ num_missed os)
    × (s.num_failed ≡ num_failed os)
    × (s.num_missed_deadlines + s.num_failed + num_sent os ≡ 3)
tx_loop-AreOutcomes_example =
    tx_loop-AreOutcomes 1000000000 2 3 5000000 rounds (omega arith) (omega arith)
      (λ k. rounds-GivesUp k)

abbrev first_round : Singlecore.TimedRound
first_round = record {
  round = record { ts = 0; start_send = 0; accepted = λ n. true; timer = λ n. 0 };
  read_tx_timestamp = λ n. if n == 1 then some 1000007 else none;
}

-- A sleep of 7 s with a counter of 3 GHz lasts less than one second.
overflow_run : rte_sleep_cycles 3000000000 7000000000 ≡ 2553255926
unfolding rte_sleep_cycles
overflow_run = refl

abbrev endpoints : Endpoints
endpoints = record {
  src_eth = 0x00 ∷ 0x11 ∷ 0x22 ∷ 0x33 ∷ 0x44 ∷ 0x55 ∷ [];
  dst_eth = 0x6c ∷ 0xb3 ∷ 0x11 ∷ 0x52 ∷ 0xa2 ∷ 0xf1 ∷ [];
  src_ip = 3232235616;
  dst_ip = 3232235556;
  src_port = 1234;
  dst_port = 1234;
}

abbrev empty : Mbuf
empty = record { data_len = 0; pkt_len = 0; ol_flags = 0; txtime = 0; pieces = [] }

prepare_packet-read_frame_example :
    (m' : Mbuf) × (prepare_packet dpdk endpoints true empty (57 ∷ 32 ∷ []) 2 ≡ some m')
    × (read_frame dpdk m'.pieces ≡ some (announced endpoints 2))
    × (piece_at 42 m'.pieces ≡ some (Piece.payload (57 ∷ 32 ∷ [])))
    × (m'.data_len ≡ 42 + 2)
    × (m'.pkt_len ≡ 42 + 2)
prepare_packet-read_frame_example =
    prepare_packet-read_frame dpdk room dpdk-AppendLaws endpoints true empty (57 ∷ 32 ∷ [])
      (record {
        from_ip = omega arith;
        to_ip = omega arith;
        from_port = omega arith;
        to_port = omega arith;
      })
      (fresh-Holds empty refl refl) (omega arith) (omega arith)

configure_port-zero_example :
    (Multicore.configure_port (λ c. 0) 2 ≡ 0) ↔ All (λ c. ◌≡◌ {A = ℕ} 0 0) (port_calls 2)
configure_port-zero_example = configure_port-zero (λ c. 0) 2
