-- ===== src/CanWire/Layout.antt =====
-- canguru-net.c: the packed structures written and read back, and their sizes.
use can_guru.Base.{
  ℕ, ◌+◌, ◌^◌, ◌<◌, ◌≡◌, refl, Bool, true, false, List, ◌∷◌, ◌++◌, bit, is_set, length,
  length-append, length-take, length-drop, take, drop, refl, take-append, subst, ◌≤◌, u8, le32,
  arith,
}
use can_guru.CanWire.{
  CanMsgHeader, can_header_value, can_header_bytes, can_header_of_value, can_header_at, CanConfMsg,
  can_conf_msg_bytes, CanTimingMsg, can_timing_bytes, can_timing_msg_bytes, CanEnableMsg,
  can_enable_msg_bytes, CanGlobalFilterMsg, can_global_filter_msg_bytes, CanSendMsg,
  can_send_msg_bytes, CanRecvMsg, can_recv_msg_of,
}

pub record FitsHeader (h : CanMsgHeader) : Type 0 where
  pub id_fits : h.can_id < 2 ^ 29
  pub dlc_fits : h.can_dlc < 16
  pub reserved_fits : h.reserved < 4

flag_of_bit : (b : Bool) (n : ℕ) → n ≡ bit b → is_set n ≡ b
flag_of_bit true n h = ground arith
flag_of_bit false n h = ground arith

can_header_value-lt : (h : CanMsgHeader) → can_header_value h < 2 ^ 40
unfolding can_header_value
can_header_value-lt h = ground arith

pub can_header_of_value_lem :
    (h : CanMsgHeader) → FitsHeader h → can_header_of_value (can_header_value h) ≡ h
unfolding can_header_of_value can_header_value
can_header_of_value_lem h v = ground arith

-- The sizes of the structures, as `sizeof` gives them.
pub length-can_header_bytes : (h : CanMsgHeader) → length (can_header_bytes h) ≡ 5
unfolding can_header_bytes
length-can_header_bytes h = refl

pub length-can_conf_msg_bytes : (m : CanConfMsg) → length (can_conf_msg_bytes m) ≡ 11
unfolding can_conf_msg_bytes
length-can_conf_msg_bytes m = refl

pub length-can_timing_msg_bytes : (m : CanTimingMsg) → length (can_timing_msg_bytes m) ≡ 25
unfolding can_timing_msg_bytes can_timing_bytes
length-can_timing_msg_bytes m = refl

pub length-can_enable_msg_bytes : (m : CanEnableMsg) → length (can_enable_msg_bytes m) ≡ 2
unfolding can_enable_msg_bytes
length-can_enable_msg_bytes m = refl

pub length-can_global_filter_msg_bytes :
    (m : CanGlobalFilterMsg) → length (can_global_filter_msg_bytes m) ≡ 5
unfolding can_global_filter_msg_bytes
length-can_global_filter_msg_bytes m = refl

-- A send message is cut behind the data that count.
pub can_send_msg_prefix :
    (m : CanSendMsg) (payload pad : List ℕ) (n : ℕ)
    → m.body ≡ payload ++ pad
    → length payload ≡ n
    → (6 + n ≤ length (can_send_msg_bytes m))
      × (take (6 + n) (can_send_msg_bytes m)
          ≡ u8 m.iface ∷ (can_header_bytes m.can_header ++ payload))
unfolding can_send_msg_bytes can_header_bytes
can_send_msg_prefix m payload pad n e h = rw e (
  omega (arith, length-append payload pad),
  subst (λ (i : ℕ). take i (cut ++ pad) ≡ cut) {x = length cut} (omega arith) (take-append cut pad),
)
  where
    cut : List ℕ
    cut = u8 m.iface ∷ (can_header_bytes m.can_header ++ payload)

-- A received frame as the device lays it out.
abbrev pub report : ℕ → ℕ → List ℕ → List ℕ
report iface time_stamp rest = iface ∷ (le32 time_stamp ++ rest)

can_header_at_lem :
    (h : CanMsgHeader) (iface time_stamp : ℕ) (payload : List ℕ)
    → FitsHeader h
    → can_header_at (report iface time_stamp (can_header_bytes h ++ payload)) 5 ≡ h
unfolding can_header_at can_header_bytes
can_header_at_lem h iface time_stamp payload v =
    subst (λ (x : ℕ). can_header_of_value x ≡ h) (omega (arith, can_header_value-lt h))
      (can_header_of_value_lem h v)

-- What the device lays out is what the driver reads.
pub can_recv_msg_of-report :
    (h : CanMsgHeader) (iface time_stamp : ℕ) (payload : List ℕ)
    → FitsHeader h
    → time_stamp < 2 ^ 32
    → can_recv_msg_of (report iface time_stamp (can_header_bytes h ++ payload))
      ≡ record { iface = iface; time_stamp = time_stamp; can_header = h; body = take 64 payload }
unfolding can_recv_msg_of can_header_bytes
can_recv_msg_of-report h iface time_stamp payload v ht =
    ground (arith, can_header_at_lem h iface time_stamp payload v, header_gone)
  where
    header_gone :
        take 64 (drop 10 (report iface time_stamp (can_header_bytes h ++ payload)))
        ≡ take 64 payload
    header_gone = refl

pub length-recv_body :
    (bytes : List ℕ) → 74 ≤ length bytes → length (CanRecvMsg.body (can_recv_msg_of bytes)) ≡ 64
unfolding can_recv_msg_of
length-recv_body bytes h = omega (arith, length-take 64 (drop 10 bytes), length-drop 10 bytes)
