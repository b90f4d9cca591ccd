-- ===== src/Dispatch/Blocks.antt =====
-- The receive loop of canguru_read_bulk_callback against a plain recursion over the blocks of the
-- transfer buffer.
use can_guru.Base.{
  ℕ, zero, suc, ◌+◌, ◌*◌, ◌-◌, ◌/◌, ◌%◌, ◌^◌, ◌≤◌, ◌<◌, ◌≡◌, List, length, take, drop, leb, true,
  false, arith,
}
use can_guru.Kernel.{M, ◌>>◌, pure}
use can_guru.State.{Device}
use can_guru.Dispatch.{canguru_process_msg_list, rx_loop}

-- The blocks of 128 bytes from an offset on, each processed once, in order.
unfoldable pub blocks : ℕ → List ℕ → ℕ → M Device (Unit {0})
blocks zero buffer at = pure tt
blocks (suc n) buffer at = do
  canguru_process_msg_list (take 128 (drop at buffer))
  blocks n buffer (at + 128)

rx_loop-blocks :
    (fuel n at : ℕ) (buffer : List ℕ)
    → n < fuel
    → length buffer < 2 ^ 32
    → at + n * 128 ≤ length buffer
    → length buffer < at + (n + 1) * 128
    → rx_loop fuel buffer at ≡ blocks n buffer at
unfolding rx_loop blocks
rx_loop-blocks zero n at buffer hf h32 lo hi = absurd (omega arith)
rx_loop-blocks (suc fuel) zero at buffer hf h32 lo hi =
    let full : leb 128 ((length buffer + 2 ^ 32 - at) % 2 ^ 32) ≡ false = ground arith in rw full
rx_loop-blocks (suc fuel) (suc n) at buffer hf h32 lo hi =
    let full : leb 128 ((length buffer + 2 ^ 32 - at) % 2 ^ 32) ≡ true = ground arith in
    let next : (at + 128) % 2 ^ 32 ≡ at + 128 = omega arith in
    let rest =
      rx_loop-blocks fuel n (at + 128) buffer (omega arith) h32 (omega arith) (omega arith) in
    rw (full, next, rest)

-- A transfer buffer of any length below 2 ^ 32 is processed in whole blocks from its start, each
-- exactly once and in order, and the loop ends; a rest of less than a block is left.
pub rx_loop-all_blocks :
    (buffer : List ℕ)
    → length buffer < 2 ^ 32
    → rx_loop (suc (length buffer)) buffer 0 ≡ blocks (length buffer / 128) buffer 0
rx_loop-all_blocks buffer h =
    rx_loop-blocks (suc (length buffer)) (length buffer / 128) 0 buffer (omega arith) h
      (omega arith) (omega arith)
