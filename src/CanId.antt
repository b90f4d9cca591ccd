-- ===== src/CanId.antt =====
-- The identifier word of a SocketCAN frame (linux/can.h) taken apart: the specification that the
-- transmit and the receive path share.
use can_guru.Base.{ℕ, ◌+◌, ◌*◌, ◌^◌, ◌<◌, Bool, if◌then◌else◌, bit}

-- An extended frame has 29 bits of identifier, a standard one 11; the two flags are on top.
pub record CanId : Type 0 where
  pub extended : Bool
  pub remote : Bool
  pub base : ℕ

abbrev pub IsCanId : CanId → Type 0
IsCanId c = c.base < (if c.extended then 2 ^ 29 else 2 ^ 11)

abbrev pub word : CanId → ℕ
word c = c.base + bit c.remote * 2 ^ 30 + bit c.extended * 2 ^ 31
