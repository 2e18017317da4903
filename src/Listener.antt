-- ===== src/Listener.antt =====
-- src/listener.c, with `recv_single` of src/engine_dpdk.c: the options of the listener, its loop, and how
-- its `main` sets up the port. What DPDK gives in a round of the loop is an argument; what it prints is a
-- list. A NULL pointer that is read through is a fault, `none`.
pub mod Options
pub mod Rounds
use Prim.Native.String.{String}
use rtgen_dpdk_next.Base.{
  ◌>>=◌, ℕ, zero, suc, ◌+◌, ◌/◌, ◌%◌, Bool, true, false, Option, none, some, List, [], ◌∷◌, ◌++◌,
  ◌==◌, if◌then◌else◌, get_elem?, set,
}
use rtgen_dpdk_next.Base.Int.{ℤ, pos, negsuc, ◌==ℤ◌}
use rtgen_dpdk_next.Flow.{one_second_in_ns}
use rtgen_dpdk_next.Engine.{Reads, get_rx_hardware_timestamp}
use rtgen_dpdk_next.Options.{CLib, Globals, Step, after_step}
use rtgen_dpdk_next.Ports.{Setup, SetupCall, todo_port, todo_queue, num_tx_queue}

-- The cases of the listener's switch: 'i', 'w', 'h' and '?'; other results of getopt_long have none.
unfoldable pub option_step : CLib → (c : ℕ) (optarg : Option String) → Globals → Option Step
option_step l c v g =
    if c == 105
    then elim v [
      | none ↦ none
      | some text ↦ some (Step.go_on (record g { pit_port = l.atoi text }))
    ]
    else if c == 119
    then some (Step.go_on (record g { pit_hw = pos 0 }))
    else if c == 104
    then some (Step.stop g)
    else if c == 63
    then some (Step.stop g)
    else some (Step.go_on g)

-- The loop, for the results of getopt_long before its -1.
unfoldable pub parser_loop :
    CLib → (calls : List (ℕ × Option String)) → Globals → Option (ℤ × Globals)
parser_loop l [] g = some (pos 0, g)
parser_loop l ((c, v) ∷ calls) g = after_step (option_step l c v g) (λ g'. parser_loop l calls g')

-- `c` is what the variable of that name holds before it is set: the test at the loop's start reads it.
unfoldable pub parser :
    CLib → (c : ℤ) → (calls : List (ℕ × Option String)) → Globals → Option (ℤ × Globals)
parser l c calls g = if c ==ℤ negsuc 0 then some (pos 0, g) else parser_loop l calls g

-- What a round receives: the result of rte_eth_rx_burst, `timesync` of the packet, the clock after it, and
-- the reads of the NIC's timestamp for given flags.
pub record RxRound : Type 0 where
  pub num_recv : ℕ
  pub timesync : ℕ
  pub clock : ℕ
  pub reads : ℕ → Reads

-- The result, and the flag.
unfoldable pub recv_single : RxRound → ℕ × ℤ
recv_single r = (r.num_recv, if r.num_recv == 0 then negsuc 0 else pos r.timesync)

-- A line that is printed: seconds and nanoseconds.
pub data Line : Type 0 where
  sw : (sec nsec : ℕ) → Line
  hw : (sec nsec : ℕ) → Line

abbrev pub sw_line : ℕ → Line
sw_line t = Line.sw (t / one_second_in_ns) (t % one_second_in_ns)

abbrev pub hw_line : ℕ → Line
hw_line t = Line.hw (t / one_second_in_ns) (t % one_second_in_ns)

-- The line for a hardware timestamp that was read, with 0 as the result.
abbrev pub hw_lines : ℤ × ℕ → List Line
hw_lines (ret, t) = if ret ==ℤ pos 0 then hw_line t ∷ [] else []

-- The second test of a round: `flag` is not negative where a packet was received.
unfoldable pub rx_timestamp : (pit_hw : Bool) (flag : ℤ) → (ℕ → Reads) → Option (List Line)
rx_timestamp false flag reads = some []
rx_timestamp true (negsuc n) reads = some []
rx_timestamp true (pos n) reads = do r ← get_rx_hardware_timestamp n reads; some (hw_lines r)

-- One round of the loop of `rx_loop`, and some rounds.
unfoldable pub rx_round : (pit_hw : Bool) → RxRound → Option (List Line)
unfolding recv_single
rx_round pit_hw r = elim ((recv_single r).0 == 1) [
  | false ↦ some []
  | true ↦ do ls ← rx_timestamp pit_hw (recv_single r).1 r.reads; some (sw_line r.clock ∷ ls)
]

unfoldable pub rx_loop : (pit_hw : Bool) → List RxRound → Option (List Line)
rx_loop pit_hw [] = some []
rx_loop pit_hw (r ∷ rs) = do ls ← rx_round pit_hw r; rest ← rx_loop pit_hw rs; some (ls ++ rest)

-- The port and its receive queue, if they exist and are not configured.
unfoldable pub ensure_rx_port : (port_id : ℕ) → Setup → Option Setup
ensure_rx_port p s = do
  dev ← get_elem? s.devs p
  some (
      if todo_port dev
      then record s {
        devs = set s.devs p (record dev { is_configured = true });
        calls = s.calls ++ (SetupCall.configure_port p ∷ []);
      }
      else s)

unfoldable pub ensure_rx_queue : (port_id queue_id : ℕ) → Setup → Option Setup
ensure_rx_queue p q s = do
  dev ← get_elem? s.devs p
  queue ← get_elem? dev.rxq_state q
  some (
      if todo_queue queue
      then record s {
        devs = set s.devs p (record dev {
          rxq_state = set dev.rxq_state q (record queue { is_configured = true });
        });
        calls = s.calls ++ (SetupCall.configure_rx_queue p q 32 ∷ []);
        rx_queue_nums = s.rx_queue_nums + 1;
      }
      else s)

-- The rounds left of the loop that configures the transmit queues, from queue `i` on.
abbrev pub tx_queue_calls : (port_id rounds i : ℕ) → List SetupCall
tx_queue_calls p zero i = []
tx_queue_calls p (suc n) i = SetupCall.configure_tx_queue p i 32 ∷ tx_queue_calls p n (i + 1)

-- What `main` does before its loop.
unfoldable pub set_up : (port_id : ℕ) → Setup → Option Setup
unfolding ensure_rx_port ensure_rx_queue
set_up p s = do
  s1 ← ensure_rx_port p s
  s2 ← ensure_rx_queue p 0 s1
  some (record s2 {
    calls =
        s2.calls
        ++ tx_queue_calls p num_tx_queue 0
        ++ (SetupCall.start_port p ∷ SetupCall.enable_synchronization p ∷ []);
  })
