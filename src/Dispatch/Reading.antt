-- ===== src/Dispatch/Reading.antt =====
-- guru-device.c, canguru_read_bulk_callback: any transfer buffer.
use can_guru.Base.{
  [], ℕ, zero, suc, ◌+◌, ◌*◌, ◌/◌, ◌^◌, ◌<◌, ◌≤◌, ℤ, is_zero, inl, inr, Bool-cases, List, ◌∷◌, take,
  drop, length, length-take, length-drop, arith,
}
use can_guru.Kernel.{Kernel, IsKernel}
use can_guru.Kernel.Types.{Event, done, usb_fill_bulk_urb, usb_submit_urb, rcvbulk}
use can_guru.Send.{guru_data_size}
use can_guru.State.{Device}
use can_guru.Dispatch.{
  canguru_process_msg_list, resubmit, ends_reception, canguru_read_bulk_callback,
}
use can_guru.Dispatch.Blocks.{blocks, rx_loop-all_blocks}
use can_guru.Dispatch.Soundness.{IsBounded, IsDevice, canguru_process_msg_list-IsDevice}
use can_guru.Kernel.Safe.{Safe, Safe-bind}

-- So are the first `n` blocks from an offset on.
abbrev pub AreBounded : ℕ → List ℕ → ℕ → Type 0
AreBounded zero buffer at = Unit {0}
AreBounded (suc n) buffer at =
    IsBounded (take 128 (drop at buffer)) × AreBounded n buffer (at + 128)

blocks-IsDevice :
    (k : Kernel) (n at : ℕ) (buffer : List ℕ) (d : Device) (t : List Event)
    → IsKernel k
    → at + n * 128 ≤ length buffer
    → AreBounded n buffer at
    → IsDevice d
    → Safe k (λ _ d' _. IsDevice d') (blocks n buffer at k d t)
unfolding blocks
blocks-IsDevice k zero at buffer d t kernel room bounded sound = sound
blocks-IsDevice k (suc n) at buffer d t kernel room bounded sound =
    Safe-bind (λ _ d' _. IsDevice d') (λ _ d' _. IsDevice d')
      (canguru_process_msg_list (take 128 (drop at buffer))) (λ _. blocks n buffer (at + 128)) k d t
      (canguru_process_msg_list-IsDevice k d t (take 128 (drop at buffer)) kernel
        (omega (arith, length-take 128 (drop at buffer), length-drop at buffer)) bounded.0 sound)
      (λ _ d' t' sound'.
        blocks-IsDevice k n (at + 128) buffer d' t' kernel (omega arith) bounded.1 sound')

resubmit-IsDevice :
    (k : Kernel) (urb buf : ℕ) (d : Device) (t : List Event)
    → IsDevice d
    → Safe k (λ _ d' _. IsDevice d') (resubmit urb buf k d t)
unfolding resubmit
resubmit-IsDevice k urb buf d t sound =
    elim (Bool-cases (is_zero (k.reply filled (usb_submit_urb rcvbulk urb [])))) [
      | inl accepted ↦ rw accepted sound
      | inr refused ↦ rw refused sound
    ]
  where
    filled : List Event
    filled = done (usb_fill_bulk_urb rcvbulk urb buf guru_data_size) ∷ t

-- The completion of a receive transfer on a sound device returns and leaves a sound device, for
-- every status and every buffer below 2 ^ 32 bytes, if in each of its packets a version text has at
-- most 32 bytes and a LIN message says at most 8 bytes. The one other end is that NULL is
-- dereferenced, and only on a kernel that at some time refuses a socket buffer; no other fault can
-- happen.
pub canguru_read_bulk_callback-IsDevice :
    (k : Kernel) (urb buf : ℕ) (status : ℤ) (buffer : List ℕ) (d : Device) (t : List Event)
    → IsKernel k
    → length buffer < 2 ^ 32
    → AreBounded (length buffer / 128) buffer 0
    → IsDevice d
    → Safe k (λ _ d' _. IsDevice d') (canguru_read_bulk_callback urb buf status buffer k d t)
unfolding canguru_read_bulk_callback
canguru_read_bulk_callback-IsDevice k urb buf status buffer d t kernel small bounded sound =
    elim (Bool-cases (is_zero status)) [
      | inl good ↦
          rw (good, rx_loop-all_blocks buffer small)
            (Safe-bind (λ _ d' _. IsDevice d') (λ _ d' _. IsDevice d')
              (blocks (length buffer / 128) buffer 0) (λ _. resubmit urb buf) k d t
              (blocks-IsDevice k (length buffer / 128) 0 buffer d t kernel (omega arith) bounded
                sound)
              (λ _ d' t' sound'. resubmit-IsDevice k urb buf d' t' sound'))
      | inr bad ↦ elim (Bool-cases (ends_reception status)) [
        | inl gone ↦ rw (bad, gone) sound
        | inr aborted ↦ rw (bad, aborted) (resubmit-IsDevice k urb buf d _ sound)
      ]
    ]
