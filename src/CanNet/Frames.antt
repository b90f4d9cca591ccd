-- ===== src/CanNet/Frames.antt =====
-- What canguru_can_classic_send and canguru_can_fd_send put on the wire.
use can_guru.Base.{
  ℕ, ◌+◌, ◌*◌, ◌%◌, ◌≤◌, ◌≡◌, refl, Bool, true, false, some, List, ◌∷◌, ◌++◌, take, drop, length,
  replicate, length-take, sym, u8, bit, bit_and-bit, bit_and-mask, arith,
}
use can_guru.Kernel.Types.{Event, CanFrame, CanfdFrame, canfd_esi, canfd_brs}
use can_guru.Kernel.{Kernel, IsKernel, Ends, memcpy, memcpy-ok, ◌>>=◌}
use can_guru.CanId.{CanId, IsCanId, word}
use can_guru.State.{NetDev}
use can_guru.MsgIds.{can_msg_send}
use can_guru.Send.{guru_send_data}
use can_guru.Send.Outcome.{Outcome, packet, guru_send_data-Outcome}
use can_guru.CanWire.{CanMsgHeader, CanSendMsg, can_header_bytes, can_send_msg_bytes}
use can_guru.CanWire.Layout.{can_send_msg_prefix}
use can_guru.CanNet.{
  set_can_id, classic_header, fd_header, empty_header, has_flag, canguru_can_classic_send,
  canguru_can_fd_send,
}

-- The identifier word is split without loss.
set_can_id-word :
    (c : CanId) (h : CanMsgHeader)
    → IsCanId c
    → h.extended_id ≡ false
    → set_can_id (word c) h
      ≡ record h { extended_id = c.extended; remote_frame = c.remote; can_id = c.base }
unfolding set_can_id
set_can_id-word c h v e = ground (
  arith,
  bit_and-bit 30 (word c),
  bit_and-bit 31 (word c),
  bit_and-mask 11 (word c),
  bit_and-mask 29 (word c),
)

-- The bytes of a frame that a command carries behind its interface number.
abbrev pub frame_bytes : ℕ → CanMsgHeader → List ℕ → List ℕ
frame_bytes channel h data_bytes = u8 channel ∷ (can_header_bytes h ++ data_bytes)

send_frame-Outcome :
    {S : Type 0} (k : Kernel) (s : S) (t : List Event) (m : CanSendMsg) (payload pad : List ℕ)
    (n : ℕ)
    → IsKernel k
    → m.body ≡ payload ++ pad
    → length payload ≡ n
    → n ≤ 64
    → Ends
        (λ err s' t'.
          (s' ≡ s)
          × Outcome (packet can_msg_send (frame_bytes m.iface m.can_header payload)) t err t')
        (guru_send_data can_msg_send (some (can_send_msg_bytes m)) (6 + n) k s t)
send_frame-Outcome k s t m payload pad n kernel e h le =
    let (fits, cut) = can_send_msg_prefix m payload pad n e h in
    guru_send_data-Outcome k s t can_msg_send (some (can_send_msg_bytes m)) (6 + n)
      (frame_bytes m.iface m.can_header payload) kernel (omega arith) (omega arith) (fits, sym cut)

-- Copying the data into the zeroed message and sending what counts.
copy_and_send-Outcome :
    {S : Type 0} (k : Kernel) (s : S) (t : List Event) (iface : ℕ) (h : CanMsgHeader) (src : List ℕ)
    (n : ℕ)
    → IsKernel k
    → n ≤ 64
    → n ≤ length src
    → Ends
        (λ err s' t'.
          (s' ≡ s) × Outcome (packet can_msg_send (frame_bytes iface h (take n src))) t err t')
        ((memcpy (replicate 64 0) src n >>= λ body.
            guru_send_data can_msg_send
              (some (can_send_msg_bytes (record { iface = iface; can_header = h; body = body })))
              (6 + n))
          k s t)
copy_and_send-Outcome k s t iface h src n kernel le fits =
    rw (memcpy-ok k s t (replicate 64 0) src n (omega arith) fits, ◌>>=◌)
      (send_frame-Outcome k s t
        (record { iface = iface; can_header = h; body = take n src ++ drop n (replicate 64 0) })
        (take n src) (drop n (replicate 64 0)) n kernel refl (omega (arith, length-take n src)) le)

-- A classic frame of up to 8 bytes is one CAN_MSG_SEND command, which goes out whole, with the
-- result 0, or not at all, with an error: the channel, the header for its identifier and the length
-- code, and the data bytes that its length counts.
pub canguru_can_classic_send-Outcome :
    {S : Type 0} (k : Kernel) (s : S) (t : List Event) (priv : NetDev) (frame : CanFrame)
    → IsKernel k
    → frame.len ≤ 8
    → length frame.body ≡ 8
    → Ends
        (λ err s' t'.
          (s' ≡ s)
          × Outcome
              (packet can_msg_send (
                frame_bytes priv.channel_idx
                  (classic_header (k.can.can_get_cc_dlc frame priv.can.ctrlmode) frame)
                  (take frame.len frame.body)))
              t
              err
              t')
        (canguru_can_classic_send priv frame k s t)
unfolding canguru_can_classic_send
canguru_can_classic_send-Outcome k s t priv frame kernel hl hb =
    copy_and_send-Outcome k s t priv.channel_idx
      (classic_header (k.can.can_get_cc_dlc frame priv.can.ctrlmode) frame) frame.body frame.len
      kernel (omega arith) (omega arith)

-- A CAN FD frame of up to 64 bytes is one CAN_MSG_SEND command, which goes out whole, with the
-- result 0, or not at all, with an error: the channel, the header for its identifier, flags and
-- length, and the data bytes that its length counts.
pub canguru_can_fd_send-Outcome :
    {S : Type 0} (k : Kernel) (s : S) (t : List Event) (priv : NetDev) (frame : CanfdFrame)
    → IsKernel k
    → frame.len ≤ 64
    → length frame.body ≡ 64
    → Ends
        (λ err s' t'.
          (s' ≡ s)
          × Outcome
              (packet can_msg_send (
                frame_bytes priv.channel_idx
                  (fd_header (k.can.can_fd_len2dlc frame.len) frame)
                  (take frame.len frame.body)))
              t
              err
              t')
        (canguru_can_fd_send priv frame k s t)
unfolding canguru_can_fd_send
canguru_can_fd_send-Outcome k s t priv frame kernel hl hb =
    copy_and_send-Outcome k s t priv.channel_idx (fd_header (k.can.can_fd_len2dlc frame.len) frame)
      frame.body frame.len kernel hl (omega arith)

-- The header of a frame whose identifier word is well formed.
pub classic_header-fields :
    (c : CanId) (dlc : ℕ) (f : CanFrame)
    → IsCanId c
    → f.can_id ≡ word c
    → dlc ≤ 15
    → classic_header dlc f ≡ record empty_header {
      can_id = c.base;
      can_dlc = dlc;
      extended_id = c.extended;
      remote_frame = c.remote;
    }
unfolding classic_header
classic_header-fields c dlc f v e h =
    ground (arith, set_can_id-word c (record empty_header { can_dlc = dlc % 16 }) v refl)

pub fd_header-fields :
    (c : CanId) (dlc : ℕ) (esi brs : Bool) (f : CanfdFrame)
    → IsCanId c
    → f.can_id ≡ word c
    → f.flags % 4 ≡ bit brs + bit esi * 2
    → dlc ≤ 15
    → fd_header dlc f ≡ record empty_header {
      can_id = c.base;
      can_dlc = dlc;
      extended_id = c.extended;
      remote_frame = c.remote;
      esi = esi;
      canfd = true;
      bitrate_switch = brs;
    }
unfolding fd_header
fd_header-fields c dlc esi brs f v e fl h = ground (
  arith,
  set_can_id-word c
      (record empty_header {
        canfd = true;
        esi = has_flag f.flags canfd_esi;
        bitrate_switch = has_flag f.flags canfd_brs;
        can_dlc = dlc % 16;
      })
      v refl,
  bit_and-bit 1 f.flags,
  bit_and-bit 0 f.flags,
)
