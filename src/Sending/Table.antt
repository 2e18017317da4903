-- ===== src/Sending/Table.antt =====
-- `prepare_pkts` of src/talker.c: one packet for each flow of the table.
use rtgen_dpdk_next.Base.{
  ℕ, suc, ◌+◌, ◌<◌, ◌≡◌, refl, ap, sym, subst, ◌∙◌, Bool, true, some, none, List, [], ◌∷◌, ◌++◌,
  append_assoc, arith, length, length-append, get_elem?-append, set-append, set, ◌>>=◌,
}
use rtgen_dpdk_next.Base.Int.{pos}
use rtgen_dpdk_next.Flow.{Flow, FlowState, InterfaceConfig, load_flow}
use rtgen_dpdk_next.Flow.Table.{Represents, load_flow-Represents, set-Represents}
use rtgen_dpdk_next.Packet.{
  Mbuf, Dpdk, assign_mac_src, prepare_packet_header, prepare_packet_payload, prepare_packet_offload,
  to_size,
}
use rtgen_dpdk_next.Sending.{Supply, prepare_pkts_from, prepare_pkts}
use rtgen_dpdk_next.Packet.Layout.{AppendLaws, Holds}
use rtgen_dpdk_next.Packet.Message.{IsSendable, Prepared, steps-Prepared}

-- A flow with an interface and a size for which the code makes a packet.
pub record CanPrepare (room : ℕ) (sup : Supply) (i : ℕ) (f : Flow) : Type 0 where
  pub net : InterfaceConfig
  pub id : ℕ
  pub prio : ℕ
  pub bytes : ℕ
  pub has_net : f.net ≡ some net
  pub has_size : f.size ≡ pos bytes
  pub sendable : IsSendable room net id prio bytes
  pub empty_buffer : Holds (sup.mbuf i) []
  pub has_array : sup.pkts ≡ true
  pub has_buffer : sup.has_mbuf i ≡ true
  pub has_memory : sup.has_msg i ≡ true

abbrev pub AllCanPrepare : ℕ → Supply → ℕ → List Flow → Type 0
AllCanPrepare room sup i [] = Unit
AllCanPrepare room sup i (f ∷ fs) = CanPrepare room sup i f × AllCanPrepare room sup (i + 1) fs

-- The flow, with the source address that the code gave its interface.
abbrev pub addressed : Supply → ℕ → Flow → Flow
addressed sup i f = elim f.net [
  | none ↦ f
  | some net ↦ record f { net = some (assign_mac_src (sup.is_default i) (sup.dev_mac i) net) }
]

abbrev pub addressed_from : Supply → ℕ → List Flow → List Flow
addressed_from sup i [] = []
addressed_from sup i (f ∷ fs) = addressed sup i f ∷ addressed_from sup (i + 1) fs

-- One packet for each flow, in order: the headers of its interface, and its number as the message.
abbrev pub Packets :
    Dpdk
    → (room : ℕ) (sup : Supply) (pit_hw pit_etf : Bool) (i : ℕ) (fs : List Flow)
    → AllCanPrepare room sup i fs
    → List Mbuf
    → Type 0
Packets l room sup hw etf i [] ok [] = Unit
Packets l room sup hw etf i (f ∷ fs) ok (m ∷ ms) =
    let c = ok.0 in
    Prepared l (assign_mac_src (sup.is_default i) (sup.dev_mac i) c.net) c.id c.prio c.bytes
      (sup.text i c.bytes) hw etf m
    × Packets l room sup hw etf (i + 1) fs ok.1 ms
Packets l room sup hw etf i _ ok _ = ⊥

prepare_pkts_from-step :
    (l : Dpdk) (sup : Supply) (hw etf : Bool) (state : FlowState) (f : Flow)
    (net net' : InterfaceConfig) (n i bytes : ℕ) (m : Mbuf) (ms : List Mbuf) (state' : FlowState)
    → load_flow state i ≡ some f
    → f.net ≡ some net
    → f.size ≡ pos bytes
    → sup.pkts ≡ true
    → sup.has_mbuf i ≡ true
    → sup.has_msg i ≡ true
    → prepare_packet_header l (sup.is_default i) (sup.dev_mac i) (sup.mbuf i) (pos bytes) net
      ≡ some (m, net')
    → prepare_pkts_from l sup hw etf
        (record state { flows = set state.flows i (some (record f { net = some net' })) })
        n
        (i + 1)
      ≡ some (ms, state')
    → prepare_pkts_from l sup hw etf state (suc n) i
      ≡ some (
        prepare_packet_offload l (prepare_packet_payload l m (sup.text i bytes) bytes) hw etf ∷ ms,
        state',
      )
unfolding prepare_pkts_from
prepare_pkts_from-step l sup hw etf state f net net' n i bytes m ms state' here has_net has_size
      has_array has_buffer has_msg e later =
    let e' : prepare_packet_header l (sup.is_default i) (sup.dev_mac i) (sup.mbuf i) f.size net
        ≡ some (m, net') =
      ap (λ z. prepare_packet_header l (sup.is_default i) (sup.dev_mac i) (sup.mbuf i) z net)
        has_size
      ∙ e in
    rw (here, ◌>>=◌, has_net, ◌>>=◌, has_array, has_buffer, has_msg, e', ◌>>=◌, later, ◌>>=◌)
      (ap
        (λ z. some (
          prepare_packet_offload l (prepare_packet_payload l m (sup.text i (to_size z)) (to_size z))
                hw etf
              ∷ ms,
          state',
        ))
        has_size)

module _ (l : Dpdk) (room : ℕ) (laws : AppendLaws l room) (sup : Supply) (hw etf : Bool) where
  prepare_pkts_from-Packets :
      (state : FlowState) (i : ℕ) (done rest : List Flow)
      → i ≡ length done
      → Represents state (done ++ rest)
      → (ok : AllCanPrepare room sup i rest)
      → (ms : List Mbuf) × (state' : FlowState) × (prepare_pkts_from l sup hw etf state
            (length rest)
            i
          ≡ some (ms, state'))
        × Represents state' (done ++ addressed_from sup i rest)
        × Packets l room sup hw etf i rest ok ms
  unfolding prepare_pkts_from
  prepare_pkts_from-Packets state i done [] at r ok = ([], state, refl, r, tt)
  prepare_pkts_from-Packets state i done (f ∷ rest) at r ok =
      let c = ok.0 in
      let f' : Flow = record f {
        net = some (assign_mac_src (sup.is_default i) (sup.dev_mac i) c.net);
      } in
      let same : addressed sup i f ≡ f' = rw (c.has_net) refl in
      let (m1, e, p) =
        steps-Prepared l room laws (sup.is_default i) (sup.dev_mac i) (sup.mbuf i) c.net c.id c.prio
          c.bytes (sup.text i c.bytes) hw etf c.empty_buffer c.sendable in
      let state1 : FlowState = record state { flows = set state.flows i (some f') } in
      let inside : i < length (done ++ (f ∷ rest)) = omega (arith, length-append done (f ∷ rest)) in
      let here : load_flow state i ≡ some f =
        load_flow-Represents state _ i r inside ∙ get_elem?-append done f rest i at in
      let r1 : Represents state1 ((done ++ (f' ∷ [])) ++ rest) =
        subst (Represents state1) (set-append done f rest i f' at)
          (set-Represents state _ i f' r inside) in
      let (ms, state2, e2, r2, ps) =
        prepare_pkts_from-Packets state1 (i + 1) (done ++ (f' ∷ [])) rest
          (omega (arith, length-append done (f' ∷ []))) r1 ok.1 in
      (
        prepare_packet_offload l (prepare_packet_payload l m1 (sup.text i c.bytes) c.bytes) hw etf
            ∷ ms,
        state2,
        prepare_pkts_from-step l sup hw etf state f c.net _ (length rest) i c.bytes m1 ms state2
            here c.has_net c.has_size c.has_array c.has_buffer c.has_memory e e2,
        subst (Represents state2)
            (append_assoc done (f' ∷ []) _
              ∙ ap (λ g. done ++ (g ∷ addressed_from sup (i + 1) rest)) (sym same))
            r2,
        (p, ps),
      )

  pub prepare_pkts-Packets :
      (state : FlowState) (fs : List Flow)
      → Represents state fs
      → (ok : AllCanPrepare room sup 0 fs)
      → (ms : List Mbuf) × (state' : FlowState) × (prepare_pkts l sup hw etf state
          ≡ some (ms, state'))
        × Represents state' (addressed_from sup 0 fs)
        × Packets l room sup hw etf 0 fs ok ms
  unfolding prepare_pkts
  prepare_pkts-Packets state fs r ok =
      let (ms, state', e, r', ps) = prepare_pkts_from-Packets state 0 [] fs refl r ok in
      (ms, state', ap (λ n. prepare_pkts_from l sup hw etf state n 0) r.count ∙ e, r', ps)
