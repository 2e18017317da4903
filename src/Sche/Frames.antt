-- ===== src/Sche/Frames.antt =====
-- The frames that a queue sends in a cycle, as the flows define them, and the cycle and the counts
-- that the code computes.
use rtgen_dpdk_next.Base.{
  ℕ, zero, suc, ◌+◌, ◌*◌, ◌/◌, ◌%◌, ◌<◌, ◌∣◌, ◌≡◌, true, refl, ap, sym, ◌∙◌, Option, none, some,
  Bool, false, List, [], ◌∷◌, ◌++◌, map, arith, All, All-map, length, length-append, u32_mod,
  u64_mod, ne→==-false, ◌>>=◌, if◌then◌else◌, Bool-cases, inl, inr, append_assoc, append-nil,
}
use rtgen_dpdk_next.Base.Int.{pos, ◌==ℤ◌}
use rtgen_dpdk_next.Flow.{Flow, FlowState, InterfaceConfig, one_second_in_ns}
use rtgen_dpdk_next.Flow.Table.{Represents, fold_flows, for_flows-fold_flows}
use rtgen_dpdk_next.Sche.{
  lcm_of_array, calculate_cycle, calculate_num_frames_per_queue, count_frames, is_in_queue, div?,
}
use rtgen_dpdk_next.Sche.Lcm.{IsLcm, lcm_of_array-IsLcm}

-- A frame: its time in the cycle and the index of its flow.
abbrev pub Frame : Type 0
Frame = ℕ × ℕ

abbrev pub in_queue : ℕ → Flow → Bool
in_queue q f = elim f.net [ none ↦ false | some net ↦ net.queue ==ℤ pos q ]

-- The time of a flow's j-th frame, with wide numbers.
abbrev pub frame_time : Flow → ℕ → ℕ
frame_time f j = f.offset_sec * one_second_in_ns + f.offset_nsec + j * f.period

abbrev pub frames_from : (rounds j i : ℕ) → Flow → List Frame
frames_from zero j i f = []
frames_from (suc n) j i f = (frame_time f j, i) ∷ frames_from n (j + 1) i f

-- A queue's frames flow by flow; `i` is the index of the first flow.
abbrev pub queue_frames : (q cycle i : ℕ) → List Flow → List Frame
queue_frames q cycle i [] = []
queue_frames q cycle i (f ∷ fs) =
    (if in_queue q f then frames_from (cycle / f.period) 0 i f else [])
    ++ queue_frames q cycle (i + 1) fs

-- What the schedule needs of a flow: its interface is there, its period is positive, and its offset
-- leaves room for a cycle in 64 bits.
pub record IsReady (cycle : ℕ) (f : Flow) : Type 0 where
  pub net : InterfaceConfig
  pub has_net : f.net ≡ some net
  pub period_pos : 0 < f.period
  pub fits : f.offset_sec * one_second_in_ns + f.offset_nsec + cycle < u64_mod

pub is_in_queue-in_queue :
    (q cycle : ℕ) (f : Flow) → IsReady cycle f → is_in_queue q f ≡ some (in_queue q f)
is_in_queue-in_queue q cycle f r = rw r.has_net

pub div?-eq : (a b : ℕ) → 0 < b → div? a b ≡ some (a / b)
div?-eq a b h = rw (ne→==-false b 0 (omega arith))

pub length-frames_from : (n j i : ℕ) (f : Flow) → length (frames_from n j i f) ≡ n
length-frames_from zero j i f = refl
length-frames_from (suc n) j i f = ap suc (length-frames_from n (j + 1) i f)

abbrev count_body : (cycle q : ℕ) → ℕ → Flow → ℕ → Option ℕ
count_body cycle q i f num_frames = do
  here ← is_in_queue q f
  if here then count_frames cycle f num_frames else some num_frames

count_body-eq :
    (cycle q i : ℕ) (f : Flow) (n m : ℕ)
    → IsReady cycle f
    → n ≡ m % u32_mod
    → count_body cycle q i f n
      ≡ some (
          (m + length (if in_queue q f then frames_from (cycle / f.period) 0 i f else []))
          % u32_mod)
count_body-eq cycle q i f n m r e =
    rw (is_in_queue-in_queue q cycle f r) (elim (Bool-cases (in_queue q f)) [
      | inl yes' ↦
          rw (yes', div?-eq cycle f.period r.period_pos)
            (ap some (omega (arith, length-frames_from (cycle / f.period) 0 i f)))
      | inr no' ↦ rw no' (ap some (omega arith))
    ])

fold-count :
    (cycle q i : ℕ) (fs : List Flow) (n m : ℕ)
    → All (IsReady cycle) fs
    → n ≡ m % u32_mod
    → fold_flows (count_body cycle q) i fs n
      ≡ some ((m + length (queue_frames q cycle i fs)) % u32_mod)
unfolding fold_flows
fold-count cycle q i [] n m r e = ap some (omega arith)
fold-count cycle q i (f ∷ fs) n m r e =
    ap (λ k. k >>= λ acc. fold_flows (count_body cycle q) (i + 1) fs acc)
      (count_body-eq cycle q i f n m r.0 e)
    ∙ fold-count cycle q (i + 1) fs _ (m + length own) r.1 refl
    ∙ ap some (omega (arith, length-append own (queue_frames q cycle (i + 1) fs)))
  where
    own : List Frame
    own = if in_queue q f then frames_from (cycle / f.period) 0 i f else []

-- The periods in the order of the table.
fold-periods :
    (i : ℕ) (fs : List Flow) (acc : List ℕ)
    → fold_flows (λ i f periods. some (periods ++ (f.period ∷ []))) i fs acc
      ≡ some (acc ++ map (λ f. f.period) fs)
unfolding fold_flows
fold-periods i [] acc = ap some (sym (append-nil acc))
fold-periods i (f ∷ fs) acc =
    fold-periods (i + 1) fs (acc ++ (f.period ∷ [])) ∙ ap some (append_assoc acc _ _)

-- On a table of flows that have their interface, a positive period and an offset that fits a cycle
-- in 64 bits, `calculate_num_frames_per_queue` counts the frames that the queue sends in a cycle, in
-- 32-bit arithmetic.
pub calculate_num_frames_per_queue-length :
    (s : FlowState) (fs : List Flow) (cycle q : ℕ)
    → Represents s fs
    → All (IsReady cycle) fs
    → calculate_num_frames_per_queue s cycle q ≡ some (length (queue_frames q cycle 0 fs) % u32_mod)
unfolding calculate_num_frames_per_queue
calculate_num_frames_per_queue-length s fs cycle q r ready =
    for_flows-fold_flows s (count_body cycle q) fs 0 r
    ∙ fold-count cycle q 0 fs 0 0 ready (omega arith)
    ∙ ap some (omega arith)

-- On a table of at least one flow whose periods have a positive common multiple below 2 ^ 64,
-- and with memory for the array of periods, `calculate_cycle` returns the least common multiple of the periods.
pub calculate_cycle-IsLcm :
    (s : FlowState) (f : Flow) (fs : List Flow) (k : ℕ)
    → Represents s (f ∷ fs)
    → 0 < k
    → k < u64_mod
    → All (λ g. g.period ∣ k) (f ∷ fs)
    → (m : ℕ) × (calculate_cycle true s ≡ some m) × IsLcm m (map (λ g. g.period) (f ∷ fs))
unfolding calculate_cycle
calculate_cycle-IsLcm s f fs k r pk bound h =
    let (m, e, l) =
      lcm_of_array-IsLcm f.period (map (λ g. g.period) fs) k pk bound
        (All-map (λ p. p ∣ k) (λ (g : Flow). g.period) (f ∷ fs) h) in
    (
      m,
      ap (λ o. o >>= lcm_of_array)
            (for_flows-fold_flows s (λ i g periods. some (periods ++ (g.period ∷ []))) (f ∷ fs) [] r
              ∙ fold-periods 0 (f ∷ fs) [])
          ∙ e,
      l,
    )
