-- ===== src/LinWire/Layout.antt =====
-- linguru-net.c: the packed structures written and read back, and their sizes.
use can_guru.Base.{
  ℕ, refl, List, length, drop, length-take, length-drop, ◌≤◌, ◌<◌, ◌≡◌, byte_at, arith,
}
use can_guru.LinWire.{LinMsgHeader, LinMsgRecv, lin_msg_recv_of, lin_header_bytes, lin_header_of}

pub lin_header_of_lem :
    (h : LinMsgHeader)
    → h.id < 64
    → h.data_len < 256
    → lin_header_of (byte_at (lin_header_bytes h) 0) (byte_at (lin_header_bytes h) 1) ≡ h
unfolding lin_header_bytes lin_header_of
lin_header_of_lem h i l = ground arith

pub length-lin_response :
    (bytes : List ℕ) → 15 ≤ length bytes → length (LinMsgRecv.response (lin_msg_recv_of bytes)) ≡ 8
unfolding lin_msg_recv_of
length-lin_response bytes h = omega (arith, length-take 8 (drop 7 bytes), length-drop 7 bytes)

pub lin_data_len :
    (bytes : List ℕ)
    → LinMsgHeader.data_len (LinMsgRecv.header (lin_msg_recv_of bytes)) ≡ byte_at bytes 6
unfolding lin_msg_recv_of lin_header_of
lin_data_len bytes = refl
