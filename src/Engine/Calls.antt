-- ===== src/Engine/Calls.antt =====
-- The single calls into DPDK of src/engine_dpdk.c. What DPDK returns is a function of the number of the call and of
-- the call; `rte_exit` ends the program, which is an outcome of its own. The flags of an offload word
-- are Booleans, one for each flag that the code names.
use rtgen_dpdk_next.Base.{ℕ, Bool, true, List, [], ◌∷◌, ◌++◌, length, if◌then◌else◌}
use rtgen_dpdk_next.Base.Int.{ℤ, pos, ◌==ℤ◌}
use rtgen_dpdk_next.Ports.{
  SetupCall, num_tx_queue, num_rx_queue, configure_port, configure_rx_queue, configure_tx_queue,
  start_port, check_offload_capabilities, enable_synchronization,
}

-- What `rte_eth_dev_info_get` says of a port's offloads.
pub record Capabilities : Type 0 where
  pub tx_send_on_timestamp : Bool
  pub tx_multi_segs : Bool
  pub rx_timestamp : Bool

-- The calls that can fail, and those that clean up.
pub data DpdkCall : Type 0 where
  dev_configure :
      (port nb_rx nb_tx : ℕ) (send_on_timestamp multi_segs rx_timestamp : Bool) → DpdkCall
  adjust_nb_desc : (port nb_rx_desc nb_tx_desc : ℕ) → DpdkCall
  tx_queue_setup : (port queue num_desc : ℕ) → DpdkCall
  rx_queue_setup : (port queue num_desc : ℕ) → DpdkCall
  dev_start : (port : ℕ) → DpdkCall
  timesync_enable : (port : ℕ) → DpdkCall
  promiscuous_enable : (port : ℕ) → DpdkCall
  eth_read_clock : (port : ℕ) → DpdkCall
  dev_stop : (port : ℕ) → DpdkCall
  mempool_free : DpdkCall
  eal_cleanup : DpdkCall

-- The messages of `rte_exit`, with the numbers that they print.
pub data Exit : Type 0 where
  cannot_configure : (err : ℤ) (port : ℕ) → Exit
  invalid_descriptors : Exit
  cannot_setup_tx : (queue port : ℕ) (err : ℤ) → Exit
  cannot_setup_rx : (queue port : ℕ) (err : ℤ) → Exit
  cannot_start : (port : ℕ) (err : ℤ) → Exit
  no_timestamping : (port : ℕ) → Exit
  cannot_timesync : (port : ℕ) (err : ℤ) → Exit
  cannot_promiscuous : (port : ℕ) (err : ℤ) → Exit
  cannot_read_clock : (port : ℕ) (err : ℤ) → Exit
  cannot_stop : (port : ℕ) → Exit

pub record Dpdk : Type 0 where
  pub returns : ℕ → DpdkCall → ℤ
  pub capabilities : (port : ℕ) → Capabilities

-- What a function leaves: the calls so far, and the message if it has ended the program.
pub data Result : Type 0 where
  exited : Exit → List DpdkCall → Result
  returned : List DpdkCall → Result

infixl 5 ◌>>=◌
abbrev pub ◌>>=◌ : Result → (List DpdkCall → Result) → Result
exited e calls >>= f = exited e calls
returned calls >>= f = f calls

-- `ret = call; if (ret != 0) rte_exit(...)`.
abbrev pub must : Dpdk → DpdkCall → (ℤ → Exit) → List DpdkCall → Result
must d c message calls =
    if d.returns (length calls) c ==ℤ pos 0
    then returned (calls ++ (c ∷ []))
    else exited (message (d.returns (length calls) c)) (calls ++ (c ∷ []))

abbrev pub num_tx_desc : ℕ
num_tx_desc = 32

abbrev pub num_sync_desc : ℕ
num_sync_desc = 256

unfoldable pub configure : Dpdk → (port_id : ℕ) → List DpdkCall → Result
configure d p calls = do
  let capa = d.capabilities p
  let c = dev_configure p num_rx_queue num_tx_queue true capa.tx_multi_segs capa.rx_timestamp
  calls1 ← must d c (λ ret. cannot_configure ret p) calls
  must d (adjust_nb_desc p num_sync_desc num_sync_desc) (λ ret. invalid_descriptors) calls1

unfoldable pub setup_tx_queue : Dpdk → (port_id queue_id num_tx_desc : ℕ) → List DpdkCall → Result
setup_tx_queue d p q n calls = must d (tx_queue_setup p q n) (λ ret. cannot_setup_tx q p ret) calls

unfoldable pub setup_rx_queue : Dpdk → (port_id queue_id num_rx_desc : ℕ) → List DpdkCall → Result
setup_rx_queue d p q n calls = must d (rx_queue_setup p q n) (λ ret. cannot_setup_rx q p ret) calls

unfoldable pub start : Dpdk → (port_id : ℕ) → List DpdkCall → Result
start d p calls = must d (dev_start p) (λ ret. cannot_start p ret) calls

unfoldable pub check_offloads : Dpdk → (port_id : ℕ) → List DpdkCall → Result
check_offloads d p calls =
    if (d.capabilities p).tx_send_on_timestamp
    then returned calls
    else exited (no_timestamping p) calls

-- Both messages print port 0, whatever the port.
unfoldable pub enable_sync : Dpdk → (port_id : ℕ) → List DpdkCall → Result
enable_sync d p calls = do
  calls1 ← must d (timesync_enable p) (λ ret. cannot_timesync 0 ret) calls
  must d (promiscuous_enable p) (λ ret. cannot_promiscuous 0 ret) calls1

unfoldable pub read_clock : Dpdk → (port : ℕ) → List DpdkCall → Result
read_clock d p calls = must d (eth_read_clock p) (λ ret. cannot_read_clock p ret) calls

-- Only the first of the three calls is checked.
unfoldable pub cleanup_dpdk : Dpdk → (port_id : ℕ) → List DpdkCall → Result
cleanup_dpdk d p calls = do
  calls1 ← must d (dev_stop p) (λ ret. cannot_stop p) calls
  returned (calls1 ++ (mempool_free ∷ eal_cleanup ∷ []))

-- What `main` calls of the engine, in terms of DPDK.
unfoldable pub perform : Dpdk → SetupCall → List DpdkCall → Result
perform d (configure_port p) calls = configure d p calls
perform d (configure_rx_queue p q n) calls = setup_rx_queue d p q n calls
perform d (configure_tx_queue p q n) calls = setup_tx_queue d p q n calls
perform d (start_port p) calls = start d p calls
perform d (check_offload_capabilities p) calls = check_offloads d p calls
perform d (enable_synchronization p) calls = enable_sync d p calls

unfoldable pub perform_all : Dpdk → List SetupCall → List DpdkCall → Result
perform_all d [] calls = returned calls
perform_all d (c ∷ cs) calls = do calls1 ← perform d c calls; perform_all d cs calls1
