-- ===== src/LinWire.antt =====
-- linguru-net.c, the packed structures of the LIN messages as bytes (see CanWire).
pub mod Layout
use can_guru.Base.{
  ℕ, ◌+◌, ◌*◌, ◌/◌, ◌%◌, ◌^◌, Bool, List, [], ◌∷◌, ◌++◌, bit, is_set, byte_at, u8, le32, from_le32,
  take, drop,
}

abbrev pub lin_max_dlen : ℕ
lin_max_dlen = 8

-- Two bytes: the identifier with two flags, and the length.
pub record LinMsgHeader : Type 0 where
  pub id : ℕ
  pub remote_data : Bool
  pub enhanced_sum : Bool
  pub data_len : ℕ

unfoldable pub lin_header_bytes : LinMsgHeader → List ℕ
lin_header_bytes h =
    (h.id % 64 + bit h.remote_data * 64 + bit h.enhanced_sum * 128) ∷ u8 h.data_len ∷ []

pub lin_header_of : ℕ → ℕ → LinMsgHeader
lin_header_of a b = record {
  id = a % 64;
  remote_data = is_set (a / 64 % 2);
  enhanced_sum = is_set (a / 128 % 2);
  data_len = b;
}

pub record LinMsgRecv : Type 0 where
  pub iface : ℕ
  pub timestamp : ℕ
  pub header : LinMsgHeader
  pub response : List ℕ

-- sizeof(struct lin_recv_header) is 5, and the response stands behind the header.
pub lin_msg_recv_of : List ℕ → LinMsgRecv
lin_msg_recv_of bytes = record {
  iface = byte_at bytes 0;
  timestamp = from_le32 (byte_at bytes 1) (byte_at bytes 2) (byte_at bytes 3) (byte_at bytes 4);
  header = lin_header_of (byte_at bytes 5) (byte_at bytes 6);
  response = take lin_max_dlen (drop 7 bytes);
}

-- `send_header` is the master's: the interface and a delay.
pub record LinMsgMaster : Type 0 where
  pub iface : ℕ
  pub delay : ℕ
  pub header : LinMsgHeader
  pub response : List ℕ

abbrev pub lin_master_header_size : ℕ
lin_master_header_size = 5

abbrev pub lin_msg_header_size : ℕ
lin_msg_header_size = 2

unfoldable pub lin_msg_master_bytes : LinMsgMaster → List ℕ
lin_msg_master_bytes m = u8 m.iface ∷ (le32 m.delay ++ (lin_header_bytes m.header ++ m.response))

pub record LinEnableMsg : Type 0 where
  pub iface : ℕ
  pub enable : Bool

unfoldable pub lin_enable_msg_bytes : LinEnableMsg → List ℕ
lin_enable_msg_bytes m = u8 m.iface ∷ bit m.enable ∷ []

-- enum lin_mode: the values that the driver sets.
abbrev pub lin_mode_monitoring : ℕ
lin_mode_monitoring = 0

abbrev pub lin_mode_master_user : ℕ
lin_mode_master_user = 2

pub record LinConfMsg : Type 0 where
  pub iface : ℕ
  pub baudrate : ℕ
  pub mode : ℕ

unfoldable pub lin_conf_msg_bytes : LinConfMsg → List ℕ
lin_conf_msg_bytes m = u8 m.iface ∷ (le32 m.baudrate ++ (u8 m.mode ∷ []))
