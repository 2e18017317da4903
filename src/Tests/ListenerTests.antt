-- ===== src/Tests/ListenerTests.antt =====
-- The listener, with its port 0 and a packet in the second of three rounds.
use Prim.Native.String.{String}
use rtgen_dpdk_next.Base.{
  ℕ, ◌≡◌, refl, true, arith, Option, none, some, List, [], ◌∷◌, if◌then◌else◌, set,
}
use rtgen_dpdk_next.Base.Int.{pos, negsuc}
use rtgen_dpdk_next.Options.{Globals, initial_globals}
use rtgen_dpdk_next.Ports.{Setup, SetupCall, QueueState, dev_state_list, fresh_dev, fresh_queue}
use rtgen_dpdk_next.Listener.{RxRound, parser, set_up}
use rtgen_dpdk_next.Listener.Options.{any_refused, parser-depends}
use rtgen_dpdk_next.Options.{CLib}

abbrev lib : CLib
lib = record { atoi = λ s. pos 7; strtok = λ s. (none, none); strlen = λ s. 1 }

abbrev calls : List (ℕ × Option String)
calls = (105, some "7") ∷ (119, none) ∷ (104, none) ∷ []

parser-depends_example :
    (parser lib (negsuc 0) calls initial_globals ≡ some (pos 0, initial_globals))
    × ((g' : Globals) × (parser lib (pos 0) calls initial_globals
          ≡ some (if any_refused calls then negsuc 0 else pos 0, g')))
parser-depends_example =
    parser-depends lib (pos 0) calls initial_globals refl
      (λ h e. absurd (cc), (λ h. absurd (omega (arith, h)), (λ h. absurd (omega (arith, h)), tt)))

abbrev no_packet : RxRound
no_packet = record { num_recv = 0; timesync = 0; clock = 5; reads = λ flag i. none }

abbrev packet : RxRound
packet = record {
  num_recv = 1;
  timesync = 2;
  clock = 3000000004;
  reads = λ flag i. some (record { tv_sec = 3; tv_nsec = 1 });
}

abbrev found_queue : QueueState
found_queue = record fresh_queue { is_existed = true }

abbrev found : Setup
found = record {
  devs =
      set dev_state_list 0 (record fresh_dev { is_existed = true; rxq_state = found_queue ∷ [] });
  calls = [];
  tx_queue_nums = 0;
  rx_queue_nums = 0;
}

abbrev calls_of : Option Setup → List SetupCall
calls_of none = []
calls_of (some s) = s.calls

-- The listener's calls for a port that exists.
set_up_calls :
    calls_of (set_up 0 found)
    ≡ SetupCall.configure_port 0
      ∷ SetupCall.configure_rx_queue 0 0 32
      ∷ SetupCall.configure_tx_queue 0 0 32
      ∷ SetupCall.configure_tx_queue 0 1 32
      ∷ SetupCall.start_port 0
      ∷ SetupCall.enable_synchronization 0
      ∷ []
unfolding set_up
set_up_calls = refl
