-- ===== src/LinTransfer/Overflow.antt =====
-- linguru-net.c, linguru_net_recv: the length that the device reports.
use can_guru.Base.{
  ℕ, take_copied, ◌⊎◌, inl, inr, ◌*◌, ◌≤◌, ◌<◌, ◌≡◌, ◌≢◌, some, List, ◌∷◌, ◌++◌, take, drop, length,
  ap, get_elem?, byte_at, u64, arith,
}
use can_guru.Kernel.Types.{Event, CanFrame, classic, alloc_can_skb}
use can_guru.Kernel.{Kernel, IsKernel, Ends, pointer, fault, out_of_bounds}
use can_guru.Kernel.Ledger.{delivered}
use can_guru.State.{NetDev, Bus}
use can_guru.LinWire.{LinMsgHeader, LinMsgRecv, lin_msg_recv_of}
use can_guru.LinWire.Layout.{length-lin_response, lin_data_len}
use can_guru.Bus.{store_netdev}
use can_guru.Bus.Counting.{received_stats}
use can_guru.LinTransfer.{lin_can_id, empty_lin, linguru_net_recv}

short_or_long : (n : ℕ) → (n ≤ 8) ⊎ (8 < n)
short_or_long n = omega arith

-- Of a whole message for a channel that exists, where there is a socket buffer: a LIN frame of up
-- to 8 bytes reaches the stack with its identifier word, length and data, and is counted. For every
-- larger length byte the copy goes past the end of the frame's data.
pub linguru_net_recv-length :
    (k : Kernel) (bus : Bus) (t : List Event) (i : ℕ) (bytes : List ℕ) (netdev : NetDev)
    → IsKernel k
    → get_elem? bus.netdevs i ≡ some (some netdev)
    → 15 ≤ length bytes
    → pointer (k.reply t (alloc_can_skb netdev.handle)) ≢ 0
    → ((byte_at bytes 6 ≤ 8)
        × (f : CanFrame) × (f.can_id
            ≡ lin_can_id
                (LinMsgRecv.header (lin_msg_recv_of bytes))
                (LinMsgHeader.id (LinMsgRecv.header (lin_msg_recv_of bytes))))
        × (f.len ≡ byte_at bytes 6)
        × (take f.len f.body ≡ take f.len (LinMsgRecv.response (lin_msg_recv_of bytes)))
        × Ends
            (λ _ bus' t'.
              (delivered t'
                ≡ (classic f, u64 (LinMsgRecv.timestamp (lin_msg_recv_of bytes) * 100000))
                  ∷ delivered t)
              × (bus'
                  ≡ store_netdev i
                      (record netdev { stats = received_stats f.len netdev.stats })
                      bus))
            (linguru_net_recv i bytes k bus t))
      ⊎ ((8 < byte_at bytes 6) × (linguru_net_recv i bytes k bus t ≡ fault out_of_bounds))
unfolding linguru_net_recv
linguru_net_recv-length k bus t i bytes netdev kernel found whole skb =
    elim (short_or_long (byte_at bytes 6)) [
      | inl h ↦ let (f, id, len, body, ends) = fits h in inl (h, f, id, len, body, ends)
      | inr h ↦ inr (h, too_long h)
    ]
  where
    msg : LinMsgRecv
    msg = lin_msg_recv_of bytes

    sized : CanFrame
    sized =
        k.can.can_frame_set_cc_len (empty_lin msg.header.id) msg.header.data_len netdev.can.ctrlmode

    frame : CanFrame
    frame = record sized {
      can_id = lin_can_id msg.header sized.can_id;
      body = take msg.header.data_len msg.response ++ drop msg.header.data_len sized.body;
    }

    fits :
        byte_at bytes 6 ≤ 8
        → (f : CanFrame) × (f.can_id ≡ lin_can_id msg.header msg.header.id)
          × (f.len ≡ byte_at bytes 6)
          × (take f.len f.body ≡ take f.len msg.response)
          × Ends
              (λ _ bus' t'.
                (delivered t' ≡ (classic f, u64 (msg.timestamp * 100000)) ∷ delivered t)
                × (bus'
                    ≡ store_netdev i
                        (record netdev { stats = received_stats f.len netdev.stats })
                        bus))
              (linguru_net_recv i bytes k bus t)
    fits h =
        let same_id =
          kernel.lib_lem.set_cc_len_id (empty_lin msg.header.id) msg.header.data_len
            netdev.can.ctrlmode in
        let same_len =
          kernel.lib_lem.set_cc_len_len (empty_lin msg.header.id) msg.header.data_len
            netdev.can.ctrlmode in
        let same_body =
          kernel.lib_lem.set_cc_len_data (empty_lin msg.header.id) msg.header.data_len
            netdev.can.ctrlmode in
        let dlc = kernel.lib_lem.cc_dlc2len_min msg.header.data_len in
        let reported = lin_data_len bytes in
        let held = length-lin_response bytes whole in
        let copied =
          take_copied msg.header.data_len msg.response (drop msg.header.data_len sized.body)
            (omega (arith, reported, held)) in
        let len : sized.len ≡ msg.header.data_len = ground (arith, same_len, dlc, reported) in
        (
          frame,
          ap (lin_can_id msg.header) same_id,
          ground (arith, len, reported),
          rw len copied,
          ground (arith, found, skb, same_body, reported, held, len),
        )

    too_long : 8 < byte_at bytes 6 → linguru_net_recv i bytes k bus t ≡ fault out_of_bounds
    too_long h = ground (
      arith,
      found,
      skb,
      lin_data_len bytes,
      kernel.lib_lem.set_cc_len_data (empty_lin msg.header.id) msg.header.data_len
          netdev.can.ctrlmode,
    )
