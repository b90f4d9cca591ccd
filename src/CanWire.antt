-- ===== src/CanWire.antt =====
-- canguru-net.c, the packed structures of the CAN messages, as the bytes that an x86 build with GCC
-- lays out: little endian, and bit-fields filled from the lowest bit with no gap.
pub mod Layout
use can_guru.Base.{
  [], false, true, ℕ, ◌+◌, ◌*◌, ◌/◌, ◌%◌, ◌^◌, Bool, List, ◌∷◌, ◌++◌, bit, is_set, byte_at, u8,
  le32, from_le32, take, drop,
}

-- 40 bits. Assigning to a bit-field keeps its low bits.
pub record CanMsgHeader : Type 0 where
  pub can_id : ℕ
  pub can_dlc : ℕ
  pub extended_id : Bool
  pub remote_frame : Bool
  pub esi : Bool
  pub canfd : Bool
  pub bitrate_switch : Bool
  pub reserved : ℕ

pub can_header_value : CanMsgHeader → ℕ
can_header_value h =
    h.can_id % 2 ^ 29
    + h.can_dlc % 16 * 2 ^ 29
    + bit h.extended_id * 2 ^ 33
    + bit h.remote_frame * 2 ^ 34
    + bit h.esi * 2 ^ 35
    + bit h.canfd * 2 ^ 36
    + bit h.bitrate_switch * 2 ^ 37
    + h.reserved % 4 * 2 ^ 38

unfoldable pub can_header_bytes : CanMsgHeader → List ℕ
can_header_bytes h = let v = can_header_value h in le32 v ++ (v / 2 ^ 32 % 256 ∷ [])

unfoldable pub can_header_of_value : ℕ → CanMsgHeader
can_header_of_value v = record {
  can_id = v % 2 ^ 29;
  can_dlc = v / 2 ^ 29 % 16;
  extended_id = is_set (v / 2 ^ 33 % 2);
  remote_frame = is_set (v / 2 ^ 34 % 2);
  esi = is_set (v / 2 ^ 35 % 2);
  canfd = is_set (v / 2 ^ 36 % 2);
  bitrate_switch = is_set (v / 2 ^ 37 % 2);
  reserved = v / 2 ^ 38 % 4;
}

-- The header that stands at offset `i`.
unfoldable pub can_header_at : List ℕ → ℕ → CanMsgHeader
can_header_at bytes i = can_header_of_value (
    from_le32 (byte_at bytes i) (byte_at bytes (i + 1)) (byte_at bytes (i + 2))
      (byte_at bytes (i + 3))
    + byte_at bytes (i + 4) * 2 ^ 32)

pub record CanRecvMsg : Type 0 where
  pub iface : ℕ
  pub time_stamp : ℕ
  pub can_header : CanMsgHeader
  pub body : List ℕ

abbrev pub can_recv_header_size : ℕ
can_recv_header_size = 10

unfoldable pub can_recv_msg_of : List ℕ → CanRecvMsg
can_recv_msg_of bytes = record {
  iface = byte_at bytes 0;
  time_stamp = from_le32 (byte_at bytes 1) (byte_at bytes 2) (byte_at bytes 3) (byte_at bytes 4);
  can_header = can_header_at bytes 5;
  body = take 64 (drop can_recv_header_size bytes);
}

pub record CanSendMsg : Type 0 where
  pub iface : ℕ
  pub can_header : CanMsgHeader
  pub body : List ℕ

abbrev pub can_send_header_size : ℕ
can_send_header_size = 6

unfoldable pub can_send_msg_bytes : CanSendMsg → List ℕ
can_send_msg_bytes m = u8 m.iface ∷ (can_header_bytes m.can_header ++ m.body)

pub record CanEnableMsg : Type 0 where
  pub iface : ℕ
  pub enable : Bool

unfoldable pub can_enable_msg_bytes : CanEnableMsg → List ℕ
can_enable_msg_bytes m = u8 m.iface ∷ bit m.enable ∷ []

-- enum can_conf_mode
abbrev pub can_normal : ℕ
can_normal = 0

abbrev pub can_bus_monitoring : ℕ
can_bus_monitoring = 1

pub record CanConfMsg : Type 0 where
  pub iface : ℕ
  pub baud_rate_a : ℕ
  pub baud_rate_d : ℕ
  pub can_fd_enable : Bool
  pub can_mode : ℕ

unfoldable pub can_conf_msg_bytes : CanConfMsg → List ℕ
can_conf_msg_bytes m =
    u8 m.iface
    ∷ (le32 m.baud_rate_a ++ (le32 m.baud_rate_d ++ (bit m.can_fd_enable ∷ u8 m.can_mode ∷ [])))

pub record CanTiming : Type 0 where
  pub sample_point : ℕ
  pub ideal_tq_num : ℕ
  pub sync_jump_width : ℕ

unfoldable pub can_timing_bytes : CanTiming → List ℕ
can_timing_bytes m = le32 m.sample_point ++ (le32 m.ideal_tq_num ++ le32 m.sync_jump_width)

pub record CanTimingMsg : Type 0 where
  pub iface : ℕ
  pub timing_nominal : CanTiming
  pub timing_data : CanTiming

unfoldable pub can_timing_msg_bytes : CanTimingMsg → List ℕ
can_timing_msg_bytes m =
    u8 m.iface ∷ (can_timing_bytes m.timing_nominal ++ can_timing_bytes m.timing_data)

pub record CanGlobalFilterMsg : Type 0 where
  pub iface : ℕ
  pub std_default_allow : Bool
  pub ext_default_allow : Bool
  pub std_remote_reject : Bool
  pub ext_remote_reject : Bool

pub can_global_filter_msg_bytes : CanGlobalFilterMsg → List ℕ
can_global_filter_msg_bytes m =
    u8 m.iface
    ∷ bit m.std_default_allow
    ∷ bit m.ext_default_allow
    ∷ bit m.std_remote_reject
    ∷ bit m.ext_remote_reject
    ∷ []
