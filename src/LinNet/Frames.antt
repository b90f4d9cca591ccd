-- ===== src/LinNet/Frames.antt =====
-- linguru-net.c, linguru_lin_send: the bytes of the command.
use can_guru.Base.{
  [], ℕ, ◌+◌, ◌*◌, ◌/◌, ◌%◌, ◌^◌, ap, ◌∙◌, bit_and-bit, bit_and-mask, ◌≤◌, ◌≡◌, some, List, ◌∷◌,
  ◌++◌, take, drop, length, replicate, length-take, length-append, take-append, subst, sym, u8,
  le32, arith,
}
use can_guru.Kernel.Types.{Event, CanFrame}
use can_guru.Kernel.{Kernel, IsKernel, Ends, memcpy-ok, ◌>>=◌}
use can_guru.State.{NetDev}
use can_guru.MsgIds.{lin_msg_send}
use can_guru.Send.Outcome.{Outcome, packet, guru_send_data-Outcome}
use can_guru.LinWire.{LinMsgHeader, lin_header_bytes, lin_msg_master_bytes}
use can_guru.LinNet.{lin_header, linguru_lin_send}

-- The bytes that the command carries: the channel, no delay, the header and the data.
abbrev lin_command_bytes : ℕ → LinMsgHeader → List ℕ → List ℕ
lin_command_bytes channel h data_bytes = u8 channel ∷ (le32 0 ++ (lin_header_bytes h ++ data_bytes))

-- The same by the identifier word and the length code: the header is one byte of the 6 identifier
-- bits, the remote flag (bit 30 of the word) and the flag of the enhanced checksum (bit 6), and one
-- byte of the length code.
abbrev pub lin_frame_bytes : ℕ → ℕ → ℕ → List ℕ → List ℕ
lin_frame_bytes channel can_id dlc data_bytes =
    u8 channel
    ∷ (le32 0
        ++ ((can_id % 64 + can_id / 2 ^ 30 % 2 * 64 + can_id / 64 % 2 * 128)
            ∷ dlc % 256
            ∷ data_bytes))

lin_frame_bytes_lem :
    (channel dlc : ℕ) (frame : CanFrame) (data_bytes : List ℕ)
    → lin_command_bytes channel (lin_header dlc frame) data_bytes
      ≡ lin_frame_bytes channel frame.can_id dlc data_bytes
unfolding lin_header_bytes lin_header
lin_frame_bytes_lem channel dlc frame data_bytes =
    let low : lin_header_bytes (lin_header dlc frame)
        ≡ (frame.can_id % 64 + frame.can_id / 2 ^ 30 % 2 * 64 + frame.can_id / 64 % 2 * 128)
          ∷ dlc % 256
          ∷ [] =
      ground (
        arith,
        bit_and-mask 6 frame.can_id,
        bit_and-bit 30 frame.can_id,
        bit_and-bit 6 frame.can_id,
      ) in
    ap (λ (l : List ℕ). u8 channel ∷ (le32 0 ++ (l ++ data_bytes))) low

lin_msg_master_prefix :
    (iface : ℕ) (h : LinMsgHeader) (payload pad : List ℕ) (n : ℕ)
    → length payload ≡ n
    → (7 + n
        ≤ length (
            lin_msg_master_bytes
              (record { iface = iface; delay = 0; header = h; response = payload ++ pad })))
      × (take (7 + n) (
            lin_msg_master_bytes
              (record { iface = iface; delay = 0; header = h; response = payload ++ pad }))
          ≡ lin_command_bytes iface h payload)
unfolding lin_msg_master_bytes lin_header_bytes
lin_msg_master_prefix iface h payload pad n e = (
  omega (arith, length-append payload pad),
  subst (λ (i : ℕ). take i (cut ++ pad) ≡ cut) {x = length cut} (omega arith) (take-append cut pad),
)
  where
    cut : List ℕ
    cut = lin_command_bytes iface h payload

-- A LIN frame of up to 8 bytes is one LIN_MSG_SEND command, which goes out whole, with the result
-- 0, or not at all, with an error: the channel, no delay, the low 6 bits of the identifier with the
-- remote flag and the checksum flag above them, the length code, and the data bytes that its length
-- counts.
pub linguru_lin_send-Outcome :
    {S : Type 0} (k : Kernel) (s : S) (t : List Event) (priv : NetDev) (frame : CanFrame)
    → IsKernel k
    → frame.len ≤ 8
    → length frame.body ≡ 8
    → Ends
        (λ err s' t'.
          (s' ≡ s)
          × Outcome
              (packet lin_msg_send (
                lin_frame_bytes priv.channel_idx frame.can_id
                  (k.can.can_get_cc_dlc frame priv.can.ctrlmode)
                  (take frame.len frame.body)))
              t
              err
              t')
        (linguru_lin_send priv frame k s t)
unfolding linguru_lin_send
linguru_lin_send-Outcome k s t priv frame kernel hl hb =
    let h = lin_header (k.can.can_get_cc_dlc frame priv.can.ctrlmode) frame in
    let payload = take frame.len frame.body in
    let pad : List ℕ = drop frame.len (replicate 8 0) in
    let (fits, cut) =
      lin_msg_master_prefix priv.channel_idx h payload (drop frame.len (replicate 8 0)) frame.len
        (omega (arith, length-take frame.len frame.body)) in
    rw (memcpy-ok k s t (replicate 8 0) frame.body frame.len (omega arith) (omega arith), ◌>>=◌)
      (guru_send_data-Outcome k s t lin_msg_send
        (some (
          lin_msg_master_bytes (record {
            iface = priv.channel_idx;
            delay = 0;
            header = h;
            response = payload ++ pad;
          })))
        (7 + frame.len)
        (lin_frame_bytes priv.channel_idx frame.can_id
          (k.can.can_get_cc_dlc frame priv.can.ctrlmode) payload)
        kernel (omega arith) (omega arith)
        (
          fits,
          sym (
              cut
              ∙ lin_frame_bytes_lem priv.channel_idx (k.can.can_get_cc_dlc frame priv.can.ctrlmode)
                  frame payload),
        ))
