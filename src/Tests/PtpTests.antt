-- ===== src/Tests/PtpTests.antt =====
-- src/ptpclient_dpdk.c.
use rtgen_dpdk_next.Base.{ℕ, ◌≡◌, refl, true, some, inl, [], ◌∷◌, arith, ◌==◌, if◌then◌else◌}
use rtgen_dpdk_next.Base.Int.{negsuc, sub_ℕ, ◌-ℤ◌}
use rtgen_dpdk_next.Ptp.{
  PtpData, PtpFrame, Nic, MacAddr, Timespec64, ClockId, tx_burst, adjust_time, client_id, sync_loop,
  start_ptp_data, delta_eval, ptp_protocol, timespec64_to_ns, wait_tx_timestamp,
}
use rtgen_dpdk_next.Ptp.Exchange.{sync_loop-exchange, exchange}

abbrev ns : ℕ → Timespec64
ns n = record { tv_sec = 0; tv_nsec = n }

-- The client is 30 ns ahead; the delay is 7 ns.
abbrev measured : PtpData
measured = record start_ptp_data {
  tstamp1 = ns 100;
  tstamp2 = ns 137;
  tstamp3 = ns 230;
  tstamp4 = ns 207;
}

delta_runs : delta_eval measured ≡ negsuc 29
unfolding delta_eval timespec64_to_ns ◌-ℤ◌
delta_runs = refl

abbrev mac : MacAddr
mac = record { b0 = 2; b1 = 4; b2 = 6; b3 = 8; b4 = 10; b5 = 12 }

-- The second read of the transmit timestamp succeeds.
abbrev nic : Nic
nic = record {
  read_rx_timestamp = λ i ts. ns 137;
  read_tx_timestamp = λ i ts. (i == 1, if i == 1 then ts else ns 230);
  macaddr = some mac;
  has_room = true;
}

tx_time : timespec64_to_ns (wait_tx_timestamp nic 1000 1 (ns 0)) ≡ 230
unfolding wait_tx_timestamp timespec64_to_ns
tx_time = refl

abbrev clock : ClockId
clock = 9 ∷ 9 ∷ 9 ∷ 0xFF ∷ 0xFE ∷ 1 ∷ 2 ∷ 3 ∷ []

abbrev frame_of : (msg_type seq time : ℕ) → PtpFrame
frame_of t s n = record {
  ether_type = ptp_protocol;
  msg_type = t;
  domain_number = 0;
  source_clock_id = clock;
  seq_id = s;
  tstamp = record { sec_msb = 0; sec_lsb = 0; ns = n };
  req_clock_id = client_id mac;
  timesync = 0;
}

sync_loop-exchange_example :
    (p' : PtpData) × (sync_loop 1 2
        (exchange nic (frame_of 0 5 0) nic (frame_of 8 5 100) nic (frame_of 9 5 207))
        start_ptp_data
      ≡ (
        p',
        tx_burst 1 2
              (record { src_addr = mac; seq_id = 5; domain_number = 0; clock_id = client_id mac })
            ∷ adjust_time 1 (sub_ℕ 0 30)
            ∷ [],
      ))
    × (p'.delta ≡ sub_ℕ 0 30)
unfolding timespec64_to_ns
sync_loop-exchange_example =
    sync_loop-exchange start_ptp_data 1 2 5 nic nic nic (frame_of 0 5 0) (frame_of 8 5 100)
      (frame_of 9 5 207) mac 0 30 7 100 200
      (record { ether_type = refl; msg_type = refl; seq_id = refl })
      (record { ether_type = refl; msg_type = refl; seq_id = refl })
      (record { ether_type = refl; msg_type = refl; seq_id = refl }) (inl refl) refl refl refl refl
      refl refl tx_time refl (omega arith) (omega arith) (omega arith) (omega arith) (omega arith)
