-- ===== src/TxLoop/Ends.antt =====
-- A whole run, from the timers and the statistics that `main` sets up to the end of `tx_loop`.
use mathlib.Core.List.{Perm}
use rtgen_dpdk_next.Base.{
  ℕ, zero, suc, ◌+◌, ◌*◌, ◌/◌, ◌<◌, ◌≡◌, ◌∣◌, refl, ap, sym, subst, ◌∙◌, Bool, some, List, [], ◌∷◌,
  ◌++◌, map, arith, All, length, if◌then◌else◌, u64_mod, ◌^◌,
}
use rtgen_dpdk_next.Flow.{Flow, FlowState, init_flow_timer, init_flowset_timer}
use rtgen_dpdk_next.Flow.Table.{Represents}
use rtgen_dpdk_next.Flow.Timer.{init_flowset_timer-Represents, sche_time_lem}
use rtgen_dpdk_next.Launch.{enough, core_statistics}
use rtgen_dpdk_next.Launch.Queues.{HasNet}
use rtgen_dpdk_next.Sche.{ScheduleState}
use rtgen_dpdk_next.Sche.Frames.{frame_time, in_queue, frames_from, queue_frames}
use rtgen_dpdk_next.Sche.Build.{IsSchedule}
use rtgen_dpdk_next.Statistic.{StatisticCore}
use rtgen_dpdk_next.TxLoop.{Round, start}
use rtgen_dpdk_next.TxLoop.Cycle.{needed}
use rtgen_dpdk_next.TxLoop.Launches.{InPhase}
use rtgen_dpdk_next.TxLoop.Start.{start-IsValid}
use rtgen_dpdk_next.TxLoop.Runs.{IsOver, Ended, tx_loop-Ended, rooms}

frames_from-init_flow_timer :
    (base n j i : ℕ) (f : Flow) → frames_from n j i (init_flow_timer base f) ≡ frames_from n j i f
unfolding init_flow_timer
frames_from-init_flow_timer base zero j i f = refl
frames_from-init_flow_timer base (suc n) j i f =
    ap (λ l. (frame_time f j, i) ∷ l) (frames_from-init_flow_timer base n (j + 1) i f)

queue_frames-init_flow_timer :
    (base q cycle i : ℕ) (fs : List Flow)
    → queue_frames q cycle i (map (init_flow_timer base) fs) ≡ queue_frames q cycle i fs
unfolding init_flow_timer
queue_frames-init_flow_timer base q cycle i [] = refl
queue_frames-init_flow_timer base q cycle i (f ∷ fs) =
    ap
      (λ l.
        (if in_queue q f then l else [])
        ++ queue_frames q cycle (i + 1) (map (init_flow_timer base) fs))
      (frames_from-init_flow_timer base (cycle / f.period) 0 i f)
    ∙ ap (λ l. (if in_queue q f then frames_from (cycle / f.period) 0 i f else []) ++ l)
        (queue_frames-init_flow_timer base q cycle (i + 1) fs)

started-IsSchedule :
    (schedule : ScheduleState) (base q cycle : ℕ) (fs : List Flow)
    → IsSchedule schedule q cycle fs
    → IsSchedule schedule q cycle (map (init_flow_timer base) fs)
started-IsSchedule schedule base q cycle fs h =
    let e = queue_frames-init_flow_timer base q cycle 0 fs in
    record {
      frames = h.frames;
      sending_time = h.sending_time;
      order = h.order;
      ascending = h.ascending;
      complete = subst (Perm h.frames) (sym e) h.complete;
      count = h.count ∙ ap length (sym e);
      cycle_period = h.cycle_period;
    }

started-InPhase :
    (base q : ℕ) (fs : List Flow) → All (InPhase q base) (map (init_flow_timer base) fs)
unfolding init_flow_timer
started-InPhase base q [] = tt
started-InPhase base q (f ∷ fs) =
    (λ h. omega (arith, sche_time_lem base 0 f), started-InPhase base q fs)

started-HasNet :
    (base : ℕ) (fs : List Flow) → All HasNet fs → All HasNet (map (init_flow_timer base) fs)
unfolding init_flow_timer
started-HasNet base [] h = tt
started-HasNet base (f ∷ fs) h = (h.0, started-HasNet base fs h.1)

started-divides :
    (base cycle : ℕ) (fs : List Flow)
    → All (λ f. f.period ∣ cycle) fs
    → All (λ f. f.period ∣ cycle) (map (init_flow_timer base) fs)
unfolding init_flow_timer
started-divides base cycle [] h = tt
started-divides base cycle (f ∷ fs) h = (h.0, started-divides base cycle fs h.1)

needed-eq : (n k : ℕ) → needed n k ≡ 2 * n + k
needed-eq zero k = omega arith
needed-eq (suc n) k = omega (arith, needed-eq n k)

rooms-eq : (c len k : ℕ) → rooms c len k ≡ c * (2 * len) + k
rooms-eq zero len k = omega arith
rooms-eq (suc c) len k =
    needed-eq len (rooms c len k) ∙ ap (λ r. 2 * len + r) (rooms-eq c len k) ∙ grind arith

-- Let a table of flows have timers that start at `base`, let the schedule be that of queue `q`, of at
-- least one frame, in a cycle that all periods divide, fewer than 2 ^ 31, let the flows have their
-- interfaces, and let the statistics be those that `main` makes for the core, malloc giving memory. If all clock
-- readings of the m-th cycle, counted from 0, are past the runtime, and the counters have room for the
-- frames of `m + 1` cycles, then `tx_loop` never faults and ends by its test after at most `m + 1`
-- cycles; the timers of the queue's flows then stand exactly as many cycles on.
pub tx_loop-ends :
    (pit_hw : Bool) (schedule : ScheduleState) (base runtime : ℕ) (rounds : ℕ → ℕ → Round)
    (q cycle m fuel clock : ℕ) (table : FlowState) (fs : List Flow)
    → Represents table fs
    → All HasNet fs
    → IsSchedule schedule q cycle fs
    → All (λ f. f.period ∣ cycle) fs
    → 0 < length schedule.order
    → length schedule.order < 2 ^ 31
    → suc m * (2 * length schedule.order) + 1 < u64_mod
    → m + 1 < fuel
    → ((it : ℕ)
        → IsOver base runtime (rounds m it).clock
          × IsOver base runtime (rounds m it).clock_before_tx)
    → (table' : FlowState) × (stats : StatisticCore) × (init_flowset_timer table base ≡ some table')
      × (core_statistics enough table' q ≡ some stats)
      × Ended pit_hw schedule base runtime rounds q cycle base fuel 0
          (m + 1)
          (start table' stats clock)
tx_loop-ends pit_hw schedule base runtime rounds q cycle m fuel clock table fs r nets sched div pos
      short room enough over =
    let fs' : List Flow = map (init_flow_timer base) fs in
    let (table', e, r') = init_flowset_timer-Represents table fs base r in
    let k : ℕ = rooms (suc m) (length schedule.order) 0 in
    let small : k + 1 < u64_mod = omega (arith, rooms-eq (suc m) (length schedule.order) 0) in
    let (stats, i, v, ptr) =
      start-IsValid table' fs' q clock k r' (started-HasNet base fs nets) small in
    let z : 0 + m ≡ m = omega arith in
    (
      table',
      stats,
      e,
      i,
      tx_loop-Ended pit_hw schedule base runtime rounds q cycle 0 short pos m fuel 0 base
          (start table' stats clock) fs' (started-IsSchedule schedule base q cycle fs sched)
          (started-divides base cycle fs div) (started-InPhase base q fs) v ptr enough
          (subst
            (λ n.
              (it : ℕ)
              → IsOver base runtime (rounds n it).clock
                × IsOver base runtime (rounds n it).clock_before_tx)
            (sym z) over),
    )
