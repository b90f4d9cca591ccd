-- ===== src/Bus/Counting.antt =====
-- What the counters of a net device must say after a received frame and after an answer. They are
-- unsigned longs of 64 bits, which wrap.
use can_guru.Base.{ℕ, ◌+◌, ◌%◌, ◌^◌, ◌≡◌, ◌≢◌, ◌⊎◌}
use can_guru.State.{Stats}

-- One frame of `len` bytes more was received.
abbrev pub received_stats : ℕ → Stats → Stats
received_stats len st = record {
  rx_packets = (st.rx_packets + 1) % 2 ^ 64;
  rx_bytes = (st.rx_bytes + len) % 2 ^ 64;
  tx_packets = st.tx_packets;
  tx_bytes = st.tx_bytes;
  tx_errors = st.tx_errors;
  tx_dropped = st.tx_dropped;
}

abbrev SameReceived : Stats → Stats → Type 0
SameReceived st st' = (st'.rx_packets ≡ st.rx_packets) × (st'.rx_bytes ≡ st.rx_bytes)

abbrev SameSent : Stats → Stats → Type 0
SameSent st st' = (st'.tx_packets ≡ st.tx_packets) × (st'.tx_bytes ≡ st.tx_bytes)

-- An answer counts a sent frame of `len` bytes for status 0, which is DONE, an error for status 2,
-- which is ERROR, and a dropped frame for every other status, and nothing else.
abbrev pub AnswerCounts : ℕ → ℕ → Stats → Stats → Type 0
AnswerCounts status len st st' =
    SameReceived st st'
    × (((status ≡ 0)
          × (st'.tx_packets ≡ (st.tx_packets + 1) % 2 ^ 64)
          × (st'.tx_bytes ≡ (st.tx_bytes + len) % 2 ^ 64)
          × (st'.tx_errors ≡ st.tx_errors)
          × (st'.tx_dropped ≡ st.tx_dropped))
        ⊎ (((status ≡ 2)
              × (st'.tx_errors ≡ (st.tx_errors + 1) % 2 ^ 64)
              × SameSent st st'
              × (st'.tx_dropped ≡ st.tx_dropped))
            ⊎ ((status ≢ 0)
                × (status ≢ 2)
                × (st'.tx_dropped ≡ (st.tx_dropped + 1) % 2 ^ 64)
                × SameSent st st'
                × (st'.tx_errors ≡ st.tx_errors))))
