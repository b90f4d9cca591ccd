-- ===== src/Dispatch/Frames.antt =====
-- guru-device.c: the frames that the packets of a transfer turn into.
use can_guru.Base.{
  [], ℕ, ◌≡◌, ◌⊎◌, refl, subst, inl, inr, ==_iff, Bool, Bool-cases, true, false, ◌||◌, ◌==◌, Option,
  none, some, List, ◌∷◌, byte_at, All, arith,
}
use can_guru.Kernel.{Kernel, IsKernel, Returns}
use can_guru.Kernel.Types.{Event, Skb}
use can_guru.State.{
  Device, GuruMsg, Callback, msg_std_fw_version, can_status, can_send, can_recv, lin_status,
  lin_send, lin_recv, lin_volt,
}
use can_guru.Messages.Handlers.{
  Keeps, IsSilent, Delivers, FrameFor, status_callback-IsSilent, std_fw_version-IsSilent,
}
use can_guru.CanReceive.Soundness.{IsCanFrameOf}
use can_guru.LinTransfer.Soundness.{IsLinFrameOf}
use can_guru.CanMessages.Handlers.{can_send_callback-IsSilent, canguru_recv_callback-Delivers}
use can_guru.LinMessages.Handlers.{
  lin_send_callback-IsSilent, linguru_recv_callback-Delivers, linguru_volt_callback-IsSilent,
  linguru_status_callback-IsSilent,
}
use can_guru.Dispatch.{invoke, run_callback, is_variable, deliver, packet_id, packet_data_count}
use can_guru.Dispatch.Routing.{registered, deliver_to}
use can_guru.Dispatch.Soundness.{
  IsProper, IsProperCallback, IsBounded, IsServed, message_data, run_callback-Keeps,
}
use can_guru.Kernel.Safe.{Safe, Safe-map, Safe-both, Safe-Returns}

-- The frames, newest first, that a callback makes of a message, where the buses count that many
-- channels.
abbrev pub CallbackFrames : Kernel → ℕ → ℕ → Option Callback → List ℕ → List (Skb × ℕ) → Type 0
CallbackFrames k cans lins (some can_recv) bytes fs =
    FrameFor (IsCanFrameOf k bytes) cans (byte_at bytes 0) fs
CallbackFrames k cans lins (some lin_recv) bytes fs =
    FrameFor (IsLinFrameOf bytes) lins (byte_at bytes 0) fs
CallbackFrames k cans lins callback bytes fs = fs ≡ []

-- A length that a registration takes.
abbrev pub takes_size : GuruMsg → ℕ → Bool
takes_size m data_count = m.data_count == data_count || is_variable m.size_restriction

-- The same of a packet: what the message that is registered for its identifier makes of its data.
abbrev pub MessageFrames : Kernel → ℕ → ℕ → Option GuruMsg → List ℕ → List (Skb × ℕ) → Type 0
MessageFrames k cans lins none msg fs = fs ≡ []
MessageFrames k cans lins (some m) msg fs =
    ((takes_size m (packet_data_count msg) ≡ true)
      × CallbackFrames k cans lins m.callback (message_data msg) fs)
    ⊎ ((takes_size m (packet_data_count msg) ≡ false) × (fs ≡ []))

-- The registration that is found is proper, and for the identifier.
abbrev pub IsFound : Option GuruMsg → ℕ → Type 0
IsFound none id = Unit {0}
IsFound (some m) id = IsProper m × (m.msg_id ≡ id)

pub registered-IsFound :
    (id : ℕ) (ms : List GuruMsg) → All IsProper ms → IsFound (registered id ms) id
registered-IsFound id [] p = tt
registered-IsFound id (m ∷ ms) p = elim (Bool-cases (m.msg_id == id)) [
  | inl mine ↦ rw mine (p.0, (==_iff m.msg_id id).0 mine)
  | inr other ↦ rw other (registered-IsFound id ms p.1)
]

abbrev pub KeepsAndDelivers :
    (List (Skb × ℕ) → Type 0) → Device → List Event → Unit {0} → Device → List Event → Type 0
KeepsAndDelivers expected d t u d' t' = Keeps d d' × Delivers expected d t u d' t'

module _ (k : Kernel) (kernel : IsKernel k) (msg : List ℕ) (bounded : IsBounded msg) where
  -- A callback that delivers nothing.
  silent :
      (d : Device) (t : List Event) (callback : Option Callback)
      → IsServed k kernel msg bounded d
      → IsProperCallback callback (packet_id msg)
      → Returns (IsSilent d t) (run_callback callback k d t)
      → Safe k (KeepsAndDelivers (λ fs. fs ≡ []) d t) (run_callback callback k d t)
  silent d t callback s p quiet =
      Safe-Returns k (λ _ d' _. Keeps d d') (IsSilent d t) (KeepsAndDelivers (λ fs. fs ≡ []) d t)
        (run_callback callback k d t)
        (λ _ d' t' kept (cans, lins, same). (kept, (cans, lins, ([], refl, same))))
        (run_callback-Keeps k kernel msg bounded d t callback s p) quiet

  run_callback-Delivers :
      (d : Device) (t : List Event) (callback : Option Callback)
      → IsServed k kernel msg bounded d
      → IsProperCallback callback (packet_id msg)
      → Safe k
          (KeepsAndDelivers
            (CallbackFrames k d.can_bus.iface_count d.lin_bus.iface_count callback
              (message_data msg))
            d
            t)
          (run_callback callback k d t)
  unfolding invoke
  run_callback-Delivers d t none s p = silent d t none s p (refl, refl, refl)
  run_callback-Delivers d t (some msg_std_fw_version) s p =
      silent d t (some msg_std_fw_version) s p (std_fw_version-IsSilent k d t)
  run_callback-Delivers d t (some can_status) s p =
      silent d t (some can_status) s p (status_callback-IsSilent k d t)
  run_callback-Delivers d t (some can_send) s p =
      silent d t (some can_send) s p (can_send_callback-IsSilent k d t)
  run_callback-Delivers d t (some lin_status) s p =
      silent d t (some lin_status) s p (linguru_status_callback-IsSilent k d t)
  run_callback-Delivers d t (some lin_send) s p =
      silent d t (some lin_send) s p (lin_send_callback-IsSilent k d t)
  run_callback-Delivers d t (some lin_volt) s p =
      silent d t (some lin_volt) s p (linguru_volt_callback-IsSilent k d t)
  run_callback-Delivers d t (some can_recv) s p =
      Safe-both k _ _ _ (run_callback (some can_recv) k d t) (λ _ _ _ kept more. (kept, more))
        (run_callback-Keeps k kernel msg bounded d t (some can_recv) s p)
        (canguru_recv_callback-Delivers k d t (message_data msg) kernel s.can s.message)
  run_callback-Delivers d t (some lin_recv) s p =
      Safe-both k _ _ _ (run_callback (some lin_recv) k d t) (λ _ _ _ kept more. (kept, more))
        (run_callback-Keeps k kernel msg bounded d t (some lin_recv) s p)
        (linguru_recv_callback-Delivers k d t (message_data msg) kernel s.lin s.message
          (ground (arith, bounded.lin_fits)))

  -- The registered message of the packet.
  deliver-Delivers :
      (d : Device) (t : List Event) (m : GuruMsg)
      → IsServed k kernel msg bounded d
      → IsProper m
      → m.msg_id ≡ packet_id msg
      → Safe k
          (KeepsAndDelivers
            (MessageFrames k d.can_bus.iface_count d.lin_bus.iface_count (some m) msg)
            d
            t)
          (deliver (packet_id msg) (packet_data_count msg) m k d t)
  unfolding deliver
  deliver-Delivers d t m s p own =
      let mine : (m.msg_id == packet_id msg) ≡ true = (==_iff m.msg_id (packet_id msg)).1 own in
      elim (Bool-cases (takes_size m (packet_data_count msg))) [
        | inr wrong ↦
            rw (mine, wrong)
              (
                record { same_guru = refl; can_lem = s.can; lin_lem = s.lin },
                (refl, refl, ([], inr (wrong, refl), refl)),
              )
        | inl fits ↦
            rw (mine, fits)
              (Safe-map k _ _ (run_callback m.callback k d t)
                (λ _ d' t' (kept, (cans, lins, (fs, made, more))).
                  (kept, (cans, lins, (fs, inl (fits, made), more))))
                (run_callback-Delivers d t m.callback s
                  (subst (IsProperCallback m.callback) own p)))
      ]

  pub deliver_to-Delivers :
      (d : Device) (t : List Event) (found : Option GuruMsg)
      → IsServed k kernel msg bounded d
      → IsFound found (packet_id msg)
      → Safe k
          (KeepsAndDelivers
            (MessageFrames k d.can_bus.iface_count d.lin_bus.iface_count found msg)
            d
            t)
          (deliver_to found (packet_id msg) (packet_data_count msg) k d t)
  deliver_to-Delivers d t none s p = (
    record { same_guru = refl; can_lem = s.can; lin_lem = s.lin },
    (refl, refl, ([], refl, refl)),
  )
  deliver_to-Delivers d t (some m) s p = deliver-Delivers d t m s p.0 p.1
