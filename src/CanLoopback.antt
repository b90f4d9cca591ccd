-- ===== src/CanLoopback.antt =====
-- Transmission and reception together: a frame that a channel sends, reported back by the device
-- as received, and what reaches the stack. The device is not part of the repository; its report
-- is the received message of canguru-net.c around the header and the data of the sent one.
pub mod Fd
use can_guru.Base.{
  ap, ◌∙◌, ℕ, ◌*◌, ◌≤◌, ◌<◌, ◌^◌, ◌≡◌, ◌≢◌, some, List, ◌∷◌, ◌++◌, take, length, length-append,
  length-take, take_front, get_elem?, arith,
}
use can_guru.Kernel.Types.{Event, Skb, CanFrame, classic, alloc_can_skb}
use can_guru.Kernel.{Kernel, IsKernel, Ends, Res, ok, fault, pointer}
use can_guru.Kernel.Ledger.{delivered}
use can_guru.CanId.{CanId, IsCanId, word}
use can_guru.State.{NetDev, Bus}
use can_guru.Bus.{store_netdev}
use can_guru.CanWire.{CanMsgHeader, CanRecvMsg, can_header_bytes, can_recv_msg_of}
use can_guru.CanWire.Layout.{report, length-can_header_bytes, can_recv_msg_of-report}
use can_guru.CanNet.{classic_header, empty_header}
use can_guru.CanNet.Frames.{classic_header-fields}
use can_guru.Bus.Counting.{received_stats}
use can_guru.CanReceive.{count_rx, canguru_net_recv, hw_time}
use can_guru.CanReceive.Delivery.{
  IsClassicOf, canguru_net_recv-classic, flag_can_id-word, hw_time-exact,
}

-- What the device reports of a frame with that header and data, to the driver's buffer of 123
-- bytes.
abbrev pub echo : ℕ → ℕ → CanMsgHeader → List ℕ → List ℕ → List ℕ
echo iface time_stamp h payload pad =
    report iface time_stamp (can_header_bytes h ++ (payload ++ pad))

-- The read message of an echo determines the frame that is delivered.
same_frame :
    (k : Kernel) (f g : CanFrame) (c : CanId) (mode time_stamp i : ℕ) (pad : List ℕ)
    (hdr : CanMsgHeader) (msg : CanRecvMsg)
    → IsKernel k
    → IsCanId c
    → f.can_id ≡ word c
    → f.len ≤ 8
    → length f.body ≡ 8
    → hdr ≡ record empty_header {
      can_id = c.base;
      can_dlc = k.can.can_get_cc_dlc f mode;
      extended_id = c.extended;
      remote_frame = c.remote;
    }
    → msg ≡ record {
      iface = i;
      time_stamp = time_stamp;
      can_header = hdr;
      body = take 64 (take f.len f.body ++ pad);
    }
    → IsClassicOf msg g
    → (g.can_id ≡ f.can_id) × (g.len ≡ f.len) × (take g.len g.body ≡ take f.len f.body)
same_frame k f g c mode time_stamp i pad hdr msg kernel v e hl hb fields parsed (id, len, body) =
    ground (
      arith,
      flag_can_id-word c hdr v (ground (arith, fields)) (ground (arith, fields)),
      kernel.lib_lem.cc_dlc2len_min (k.can.can_get_cc_dlc f mode),
      kernel.lib_lem.cc_dlc_len f mode hl,
      take_front f.len 64 (take f.len f.body) pad (omega (arith, length-take f.len f.body))
          (omega arith),
    )

at_time :
    {A : Type 0} {time time' : ℕ} (b : Bus) (t : List Event) (frame : Skb)
    → time ≡ time'
    → (r : Res Bus A)
    → Ends (λ _ bus' t'. (delivered t' ≡ (frame, time) ∷ delivered t) × (bus' ≡ b)) r
    → Ends (λ _ _ t'. delivered t' ≡ (frame, time') ∷ delivered t) r
at_time b t frame same (ok a s t') h = h.0 ∙ ap (λ (x : ℕ). (frame, x) ∷ delivered t) same
at_time b t frame same (fault e) h = h

module _ (k : Kernel) (bus : Bus) (t : List Event) (i : ℕ) (netdev : NetDev) (kernel : IsKernel k)
    (found : get_elem? bus.netdevs i ≡ some (some netdev)) where
  -- A classic frame with a well-formed identifier comes back with the same identifier word, the
  -- same length and the same data bytes, and the device's time in nanoseconds.
  pub classic_loopback :
      (f : CanFrame) (c : CanId) (time_stamp : ℕ) (pad : List ℕ)
      → IsCanId c
      → f.can_id ≡ word c
      → f.len ≤ 8
      → length f.body ≡ 8
      → 64 ≤ length pad
      → time_stamp < 2 ^ 32
      → pointer (k.reply t (alloc_can_skb netdev.handle)) ≢ 0
      → (g : CanFrame) × (g.can_id ≡ f.can_id)
        × (g.len ≡ f.len)
        × (take g.len g.body ≡ take f.len f.body)
        × Ends
            (λ _ _ t'. delivered t' ≡ (classic g, time_stamp * 100000) ∷ delivered t)
            (canguru_net_recv i
              (echo i time_stamp
                (classic_header (k.can.can_get_cc_dlc f netdev.can.ctrlmode) f)
                (take f.len f.body)
                pad)
              k
              bus
              t)
  classic_loopback f c time_stamp pad v e hl hb hp ht skb =
      let dlc = k.can.can_get_cc_dlc f netdev.can.ctrlmode in
      let hdr = classic_header dlc f in
      let payload = take f.len f.body in
      let low = kernel.lib_lem.cc_dlc_max f netdev.can.ctrlmode hl in
      let fields = classic_header-fields c dlc f v e low in
      let parsed =
        can_recv_msg_of-report hdr i time_stamp (payload ++ pad) (ground (arith, fields, v)) ht in
      let (g, is_of, ends) =
        canguru_net_recv-classic k bus t i (echo i time_stamp hdr payload pad) netdev kernel found
          (ground (
            arith,
            length-can_header_bytes hdr,
            length-append (can_header_bytes hdr) (payload ++ pad),
            length-append payload pad,
          ))
          (ground (arith, parsed, fields)) skb in
      let (same_id, same_len, same_body) =
        same_frame k f g c netdev.can.ctrlmode time_stamp i pad hdr
          (can_recv_msg_of (echo i time_stamp hdr payload pad)) kernel v e hl hb fields parsed
          is_of in
      let exact =
        ap (λ (m : CanRecvMsg). hw_time m.time_stamp) parsed ∙ hw_time-exact time_stamp ht in
      (
        g,
        same_id,
        same_len,
        same_body,
        at_time (store_netdev i (record netdev { stats = received_stats g.len netdev.stats }) bus) t
            (classic g) exact (canguru_net_recv i (echo i time_stamp hdr payload pad) k bus t) ends,
      )
