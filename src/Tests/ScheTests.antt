-- ===== src/Tests/ScheTests.antt =====
-- src/sche.c.
use Prim.Native.Nat.{◌^◌}
use native.Mathlib.Nat.{dvd-mul_right}
use mathlib.Core.List.{Perm}
use rtgen_dpdk_next.Base.{
  ℕ, ◌<◌, ◌%◌, ◌≡◌, ◌⊎◌, refl, some, none, true, List, [], ◌∷◌, map, arith, IsAscending, length,
  length-replicate, replicate, u32_mod, subst,
}
use rtgen_dpdk_next.Sche.{
  ScheduleState, gcd, lcm, sort, sort_from, bubble, calculate_cycle, calculate_num_frames_per_queue,
  create_schedule_state,
}
use rtgen_dpdk_next.Base.Int.{pos, negsuc}
use rtgen_dpdk_next.Sche.{Timespec}
use rtgen_dpdk_next.Sche.Lcm.{IsLcm}
use rtgen_dpdk_next.Sche.Frames.{
  Frame, queue_frames, calculate_cycle-IsLcm, calculate_num_frames_per_queue-length,
}
use rtgen_dpdk_next.Sche.Fill.{times_of, ids_of}
use rtgen_dpdk_next.Sche.Sorting.{sort-InOrder}
use rtgen_dpdk_next.Sche.Build.{
  IsMalloc, Exhausted, AreSchedules, create_schedule_state-AreSchedules,
}
use rtgen_dpdk_next.Tests.Data.{
  first, second, third, flows, table, table-Represents, flows-IsLcm, flows-IsReady, zeros,
}

gcd_runs : gcd 1000000000 35000000 ≡ 5000000
unfolding gcd
gcd_runs = refl

lcm_runs : lcm 6 4 ≡ some 12
unfolding lcm gcd
lcm_runs = refl

sort_runs :
    sort (5 ∷ 3 ∷ 9 ∷ 3 ∷ []) (0 ∷ 1 ∷ 2 ∷ 3 ∷ []) 4 ≡ some (3 ∷ 3 ∷ 5 ∷ 9 ∷ [], 1 ∷ 3 ∷ 0 ∷ 2 ∷ [])
unfolding sort sort_from bubble
sort_runs = refl

calculate_cycle-IsLcm_example :
    (m : ℕ) × (calculate_cycle true table ≡ some m) × IsLcm m (map (λ g. g.period) flows)
calculate_cycle-IsLcm_example =
    calculate_cycle-IsLcm table first (second ∷ third ∷ []) 8 table-Represents (omega arith)
      (omega arith) (dvd-mul_right 2 4, (dvd-mul_right 4 2, (dvd-mul_right 4 2, tt)))

calculate_num_frames_per_queue-length_example :
    calculate_num_frames_per_queue table 4 0 ≡ some (length (queue_frames 0 4 0 flows) % u32_mod)
calculate_num_frames_per_queue-length_example =
    calculate_num_frames_per_queue-length table flows 4 0 table-Represents flows-IsReady

abbrev unsorted : List Frame
unsorted = (5, 0) ∷ (3, 1) ∷ (9, 2) ∷ []

sort-InOrder_example :
    (l : List Frame) × (sort (times_of unsorted) (ids_of unsorted) 3 ≡ some (times_of l, ids_of l))
    × IsAscending (times_of l)
    × Perm l unsorted
sort-InOrder_example = sort-InOrder unsorted 3 refl

pub zeros-IsMalloc : IsMalloc zeros
zeros-IsMalloc call n a e =
    let q : replicate n 0 ≡ a = cc in subst (λ b. length b ≡ n) q (length-replicate n 0)

pub few_frames : (q : ℕ) → length (queue_frames q 4 0 flows) < 2 ^ 31
few_frames q = ground arith

create_schedule_state-AreSchedules_example :
    ((create_schedule_state zeros true true table 2 ≡ some none) × Exhausted zeros)
    ⊎ ((xs : List ScheduleState) × (create_schedule_state zeros true true table 2 ≡ some (some xs))
        × (length xs ≡ 2)
        × AreSchedules 0 4 flows xs)
create_schedule_state-AreSchedules_example =
    create_schedule_state-AreSchedules zeros table first (second ∷ third ∷ []) 4 2 zeros-IsMalloc
      table-Represents flows-IsLcm flows-IsReady few_frames

-- 1.5 s before the start and 0.25 s after it.
abbrev before : Timespec
before = record { tv_sec = negsuc 1; tv_nsec = pos 500000000 }

abbrev after : Timespec
after = record { tv_sec = pos 0; tv_nsec = pos 250000000 }
