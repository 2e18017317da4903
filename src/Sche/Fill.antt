-- ===== src/Sche/Fill.antt =====
-- The loops of `init_schedule_state_per_queue` fill the two arrays with the frames of the queue.
use native.Mathlib.Nat.{mul-div-le}
use rtgen_dpdk_next.Base.{
  ℕ, zero, suc, ◌+◌, ◌*◌, ◌/◌, ◌≤◌, ◌≡◌, refl, ap, sym, subst, ◌∙◌, Option, some, List, [], ◌∷◌,
  ◌++◌, map, arith, All, length, length-append, length-map, ◌>>=◌, if◌then◌else◌, Bool-cases, inl,
  inr, append_assoc, append-nil, add64, mul64, store-append,
}
use rtgen_dpdk_next.Flow.{Flow, FlowState, for_flows}
use rtgen_dpdk_next.Flow.Table.{Represents, fold_flows, for_flows-fold_flows}
use rtgen_dpdk_next.Sche.{
  Filling, push_frame, push_frames, push_flow, is_in_queue, offset_of, start_filling, ScheduleState,
}
use rtgen_dpdk_next.Sche.Frames.{
  Frame, IsReady, frame_time, frames_from, queue_frames, in_queue, is_in_queue-in_queue, div?-eq,
  length-frames_from,
}

abbrev pub times_of : List Frame → List ℕ
times_of l = map (λ f. f.0) l

abbrev pub ids_of : List Frame → List ℕ
ids_of l = map (λ f. f.1) l

-- The arrays hold the frames `l`, with room for `room` more.
pub record Filled (st : Filling) (l : List Frame) (room : ℕ) : Type 0 where
  pub times_rest : List ℕ
  pub ids_rest : List ℕ
  pub times : st.times ≡ times_of l ++ times_rest
  pub ids : st.ids ≡ ids_of l ++ ids_rest
  pub index : st.index ≡ length l
  pub times_room : length times_rest ≡ room
  pub ids_room : length ids_rest ≡ room

map-snoc {ℓ κ} :
    {A : Type ℓ} {B : Type κ} (f : A → B) (xs : List A) (x : A) (ys : List B)
    → map f xs ++ (f x ∷ ys) ≡ map f (xs ++ (x ∷ [])) ++ ys
map-snoc f [] x ys = refl
map-snoc f (y ∷ xs) x ys = ap (◌∷◌ (f y)) (map-snoc f xs x ys)

push_frame_at :
    (l : List Frame) (t i n : ℕ) (xs ys : List ℕ) (room : ℕ)
    → n ≡ length l
    → length xs ≡ suc room
    → length ys ≡ suc room
    → (st : Filling) × (push_frame t i
          (record { times = times_of l ++ xs; ids = ids_of l ++ ys; index = n })
        ≡ some st)
      × Filled st (l ++ ((t, i) ∷ [])) room
unfolding push_frame
push_frame_at l t i n [] ys room e hx hy = absurd (omega arith)
push_frame_at l t i n (x ∷ xs) [] room e hx hy = absurd (omega arith)
push_frame_at l t i n (x ∷ xs) (y ∷ ys) room e hx hy = (
  record { times = times_of l ++ (t ∷ xs); ids = ids_of l ++ (i ∷ ys); index = n + 1 },
  rw (
    store-append (times_of l) x xs n t (e ∙ sym (length-map l (λ f. f.0))),
    store-append (ids_of l) y ys n i (e ∙ sym (length-map l (λ f. f.1))),
  ),
  record {
    times_rest = xs;
    ids_rest = ys;
    times = map-snoc (λ f. f.0) l (t, i) xs;
    ids = map-snoc (λ f. f.1) l (t, i) ys;
    index = omega (arith, length-append {0} l ((t, i) ∷ []));
    times_room = omega arith;
    ids_room = omega arith;
  },
)

push_frame-Filled :
    (st : Filling) (l : List Frame) (t i room : ℕ)
    → Filled st l (suc room)
    → (st' : Filling) × (push_frame t i st ≡ some st') × Filled st' (l ++ ((t, i) ∷ [])) room
push_frame-Filled st l t i room h =
    let (st', e, f) =
      push_frame_at l t i st.index h.times_rest h.ids_rest room h.index h.times_room h.ids_room in
    (
      st',
      ap (push_frame t i) (λ k. record { times = h.times k; ids = h.ids k; index = st.index }) ∙ e,
      f,
    )

-- No frame of a ready flow wraps.
frame_time-eq :
    (cycle j n : ℕ) (f : Flow)
    → IsReady cycle f
    → (j + suc n) * f.period ≤ cycle
    → add64 (offset_of f) (mul64 j f.period) ≡ frame_time f j
frame_time-eq cycle j n f r h = omega (arith, r.fits)

push_frames-Filled :
    (cycle n j i : ℕ) (f : Flow) (st : Filling) (l : List Frame) (total room : ℕ)
    → IsReady cycle f
    → (j + n) * f.period ≤ cycle
    → total ≡ n + room
    → Filled st l total
    → (st' : Filling) × (push_frames n j (offset_of f) f.period i st ≡ some st')
      × Filled st' (l ++ frames_from n j i f) room
unfolding push_frames
push_frames-Filled cycle zero j i f st l total room r h e fl = (
  st,
  refl,
  subst (λ k. Filled st k room) (sym (append-nil l))
      (subst (Filled st l) (let e' : total ≡ room = omega arith in e') fl),
)
push_frames-Filled cycle (suc n) j i f st l total room r h e fl =
    let (st1, e1, f1) =
      push_frame-Filled st l (frame_time f j) i (n + room)
        (subst (Filled st l) (let e' : total ≡ suc (n + room) = omega arith in e') fl) in
    let (st2, e2, f2) =
      push_frames-Filled cycle n (j + 1) i f st1 (l ++ ((frame_time f j, i) ∷ [])) (n + room) room r
        (omega arith) refl f1 in
    (
      st2,
      rw (frame_time-eq cycle j n f r h, e1) e2,
      subst (λ k. Filled st2 k room) (append_assoc l _ _) f2,
    )

abbrev fill_body : (cycle q : ℕ) → ℕ → Flow → Filling → Option Filling
fill_body cycle q i f st = do
  here ← is_in_queue q f
  if here then push_flow cycle i f st else some st

-- One round of the loop over the flows.
fill_body-Filled :
    (cycle q i : ℕ) (f : Flow) (st : Filling) (l : List Frame) (total room : ℕ)
    → IsReady cycle f
    → total ≡ length (if in_queue q f then frames_from (cycle / f.period) 0 i f else []) + room
    → Filled st l total
    → (st' : Filling) × (fill_body cycle q i f st ≡ some st')
      × Filled st' (l ++ (if in_queue q f then frames_from (cycle / f.period) 0 i f else [])) room
fill_body-Filled cycle q i f st l total room r e fl =
    rw (is_in_queue-in_queue q cycle f r) (elim (Bool-cases (in_queue q f)) [
      | inl here ↦
          rw (here, div?-eq cycle f.period r.period_pos)
            (push_frames-Filled cycle (cycle / f.period) 0 i f st l total room r
              (omega (arith, mul-div-le cycle f.period))
              (rw here at e ∙ ap (λ k. k + room) (length-frames_from (cycle / f.period) 0 i f)) fl)
      | inr there ↦ rw there (
        st,
        refl,
        subst (λ k. Filled st k room) (sym (append-nil l))
            (subst (Filled st l) (rw there at e ∙ omega arith) fl),
      )
    ])

fold-fill :
    (cycle q i : ℕ) (fs : List Flow) (st : Filling) (l : List Frame) (total room : ℕ)
    → All (IsReady cycle) fs
    → total ≡ length (queue_frames q cycle i fs) + room
    → Filled st l total
    → (st' : Filling) × (fold_flows (fill_body cycle q) i fs st ≡ some st')
      × Filled st' (l ++ queue_frames q cycle i fs) room
unfolding fold_flows
fold-fill cycle q i [] st l total room r e fl = (
  st,
  refl,
  subst (λ k. Filled st k room) (sym (append-nil l))
      (subst (Filled st l) (let e' : total ≡ room = omega arith in e') fl),
)
fold-fill cycle q i (f ∷ fs) st l total room r e fl =
    let (st1, e1, f1) =
      fill_body-Filled cycle q i f st l total (length later + room) r.0
        (omega (arith, length-append {0} own later)) fl in
    let (st2, e2, f2) =
      fold-fill cycle q (i + 1) fs st1 (l ++ own) (length later + room) room r.1 refl f1 in
    (st2, rw e1 e2, subst (λ k. Filled st2 k room) (append_assoc l own later) f2)
  where
    own : List Frame
    own = if in_queue q f then frames_from (cycle / f.period) 0 i f else []

    later : List Frame
    later = queue_frames q cycle (i + 1) fs

nil_of_length {ℓ} : {A : Type ℓ} (xs ys : List A) → length ys ≡ 0 → xs ++ ys ≡ xs
nil_of_length xs [] h = append-nil xs
nil_of_length xs (y ∷ ys) h = absurd (omega arith)

-- Arrays of exactly the size of the frames end up full of them, in the order of the flows, and no
-- write is out of range.
pub fill_lem :
    (s : FlowState) (fs : List Flow) (schedule : ScheduleState) (q : ℕ)
    → Represents s fs
    → All (IsReady schedule.cycle_period) fs
    → length schedule.sending_time ≡ length (queue_frames q schedule.cycle_period 0 fs)
    → length schedule.order ≡ length (queue_frames q schedule.cycle_period 0 fs)
    → (st : Filling) × (for_flows s (fill_body schedule.cycle_period q) (start_filling schedule)
        ≡ some st)
      × (st.times ≡ times_of (queue_frames q schedule.cycle_period 0 fs))
      × (st.ids ≡ ids_of (queue_frames q schedule.cycle_period 0 fs))
fill_lem s fs schedule q r ready lt li =
    let (st, e, f) =
      fold-fill cycle q 0 fs (start_filling schedule) [] (length schedule.sending_time) 0 ready
        (omega arith)
        (record {
          times_rest = schedule.sending_time;
          ids_rest = schedule.order;
          times = refl;
          ids = refl;
          index = refl;
          times_room = refl;
          ids_room = omega arith;
        }) in
    (
      st,
      for_flows-fold_flows s (fill_body cycle q) fs (start_filling schedule) r ∙ e,
      f.times ∙ nil_of_length _ f.times_rest f.times_room,
      f.ids ∙ nil_of_length _ f.ids_rest f.ids_room,
    )
  where
    cycle : ℕ
    cycle = schedule.cycle_period
