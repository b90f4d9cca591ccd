-- ===== src/Dispatch/Transfer.antt =====
-- guru-device.c: what the network stack gets of a whole receive transfer, packet by packet.
use can_guru.Base.{
  [], ℕ, zero, suc, ◌+◌, ◌*◌, ◌/◌, ◌^◌, ◌<◌, ◌≡◌, ◌≤◌, refl, sym, ap, ◌∙◌, subst, inl, inr,
  Bool-cases, ℤ, is_zero, true, false, ◌⊎◌, List, ◌∷◌, ◌++◌, length, take, drop, length-take,
  length-drop, arith,
}
use mathlib.Core.List.{append_assoc}
use can_guru.Kernel.{Kernel, IsKernel}
use can_guru.Kernel.Types.{Event, Skb, done, log, dev_info}
use can_guru.Kernel.Ledger.{delivered}
use can_guru.State.{Device, GuruMsg}
use can_guru.Dispatch.{
  canguru_process_msg_list, resubmit, ends_reception, canguru_read_bulk_callback,
}
use can_guru.Dispatch.Blocks.{blocks, rx_loop-all_blocks}
use can_guru.Dispatch.Reading.{AreBounded}
use can_guru.Dispatch.Soundness.{IsReceiving}
use can_guru.Dispatch.Delivery.{Receives, PacketFrames, canguru_process_msg_list-Receives}
use can_guru.Kernel.Safe.{Safe, Safe-bind, Safe-map}

-- What the first `n` packets from an offset on turn into, newest first.
abbrev pub TransferFrames : Kernel → ℕ → List ℕ → ℕ → ℕ → ℕ → List GuruMsg → List (Skb × ℕ) → Type 0
TransferFrames k zero buffer at cans lins ms fs = fs ≡ []
TransferFrames k (suc n) buffer at cans lins ms fs =
    (new : List (Skb × ℕ)) × (later : List (Skb × ℕ)) × (fs ≡ later ++ new)
    × PacketFrames k (take 128 (drop at buffer)) cans lins ms new
    × TransferFrames k n buffer (at + 128) cans lins ms later

-- A transfer that was not successful delivers nothing.
abbrev pub StatusFrames : Kernel → ℤ → List ℕ → ℕ → ℕ → List GuruMsg → List (Skb × ℕ) → Type 0
StatusFrames k status buffer cans lins ms fs =
    ((is_zero status ≡ true) × TransferFrames k (length buffer / 128) buffer 0 cans lins ms fs)
    ⊎ ((is_zero status ≡ false) × (fs ≡ []))

module _ (k : Kernel) (kernel : IsKernel k) where
  -- The expectation may be stated for the counts and the messages before or after.
  same_frames :
      (n : ℕ) (buffer : List ℕ) (at c c' l l' : ℕ) (ms ms' : List GuruMsg) (fs : List (Skb × ℕ))
      → c' ≡ c
      → l' ≡ l
      → ms' ≡ ms
      → TransferFrames k n buffer at c' l' ms' fs
      → TransferFrames k n buffer at c l ms fs
  same_frames n buffer at c c' l l' ms ms' fs cans lins list h =
      subst (λ x. TransferFrames k n buffer at x l ms fs) cans
        (subst (λ x. TransferFrames k n buffer at c' x ms fs) lins
          (subst (λ x. TransferFrames k n buffer at c' l' x fs) list h))

  -- The first packet, and then the later ones.
  then_later :
      (n at : ℕ) (buffer : List ℕ) (d d1 : Device) (t t1 : List Event) (u : Unit {0})
      → Receives (PacketFrames k (take 128 (drop at buffer))) d t u d1 t1
      → Safe k
          (Receives (TransferFrames k n buffer (at + 128)) d1 t1)
          (blocks n buffer (at + 128) k d1 t1)
      → Safe k
          (Receives (TransferFrames k (suc n) buffer at) d t)
          (blocks n buffer (at + 128) k d1 t1)
  then_later n at buffer d d1 t t1 u (_, cans, lins, list, (new, made, more)) rest =
      Safe-map k (Receives (TransferFrames k n buffer (at + 128)) d1 t1)
        (Receives (TransferFrames k (suc n) buffer at) d t) (blocks n buffer (at + 128) k d1 t1)
        (λ _ d2 t2 (receiving2, cans2, lins2, list2, (later, made2, more2)). (
          receiving2,
          cans2 ∙ cans,
          lins2 ∙ lins,
          list2 ∙ list,
          (
            later ++ new,
            (
              new,
              later,
              refl,
              made,
              same_frames n buffer (at + 128) _ _ _ _ _ _ later cans lins list made2,
            ),
            more2 ∙ (ap (λ l. later ++ l) more ∙ sym (append_assoc later new (delivered t))),
          ),
        ))
        rest

  blocks-Receives :
      (n at : ℕ) (buffer : List ℕ) (d : Device) (t : List Event)
      → at + n * 128 ≤ length buffer
      → AreBounded n buffer at
      → IsReceiving d
      → Safe k (Receives (TransferFrames k n buffer at) d t) (blocks n buffer at k d t)
  unfolding blocks
  blocks-Receives zero at buffer d t room bounded receiving =
      (receiving, refl, refl, refl, ([], refl, refl))
  blocks-Receives (suc n) at buffer d t room bounded receiving =
      let first : List ℕ = take 128 (drop at buffer) in
      Safe-bind (Receives (PacketFrames k first) d t)
        (Receives (TransferFrames k (suc n) buffer at) d t) (canguru_process_msg_list first)
        (λ _. blocks n buffer (at + 128)) k d t
        (canguru_process_msg_list-Receives k kernel d t first
          (omega (arith, length-take 128 (drop at buffer), length-drop at buffer)) bounded.0
          receiving)
        (λ u d1 t1 received.
          then_later n at buffer d d1 t t1 u received
            (blocks-Receives n (at + 128) buffer d1 t1 (omega (arith, room)) bounded.1 received.0))

  resubmit-keeps :
      (urb buf : ℕ) (d : Device) (t : List Event)
      → Safe k (λ _ d' t'. (d' ≡ d) × (delivered t' ≡ delivered t)) (resubmit urb buf k d t)
  unfolding resubmit
  resubmit-keeps urb buf d t = ground arith

  resubmit-Receives :
      (expected : ℕ → ℕ → List GuruMsg → List (Skb × ℕ) → Type 0) (urb buf : ℕ) (d d1 : Device)
      (t t1 : List Event) (u : Unit {0})
      → Receives expected d t u d1 t1
      → Safe k (Receives expected d t) (resubmit urb buf k d1 t1)
  resubmit-Receives expected urb buf d d1 t t1 u (receiving, cans, lins, list, (fs, made, more)) =
      Safe-map k (λ _ d2 t2. (d2 ≡ d1) × (delivered t2 ≡ delivered t1)) (Receives expected d t)
        (resubmit urb buf k d1 t1)
        (λ v d2 t2 (same, logged).
          subst (λ x. Receives expected d t v x t2) (sym same)
            (receiving, cans, lins, list, (fs, made, logged ∙ more)))
        (resubmit-keeps urb buf d1 t1)

  -- The completion of a receive transfer delivers, for every whole packet of the buffer and in the
  -- order of the packets, what the message that is registered for the packet's identifier makes of
  -- its data: one frame with the identifier, the flags, the length, the data and the time of a
  -- received CAN or LIN message for a channel that its bus counts, and nothing of any other packet.
  -- A transfer that was not successful delivers nothing. The device stays sound, with the same
  -- messages and channels. The conditions are a device that is sound and on which no identifier is
  -- registered twice, a buffer below 2 ^ 32 bytes, and that in each of its packets a version text has
  -- at most 32 bytes and a LIN message says at most 8 bytes. The one other end is that NULL is
  -- dereferenced, and only on a kernel that at some time refuses a socket buffer.
  pub canguru_read_bulk_callback-Receives :
      (urb buf : ℕ) (status : ℤ) (buffer : List ℕ) (d : Device) (t : List Event)
      → length buffer < 2 ^ 32
      → AreBounded (length buffer / 128) buffer 0
      → IsReceiving d
      → Safe k
          (Receives (StatusFrames k status buffer) d t)
          (canguru_read_bulk_callback urb buf status buffer k d t)
  unfolding canguru_read_bulk_callback
  canguru_read_bulk_callback-Receives urb buf status buffer d t small bounded receiving =
      elim (Bool-cases (is_zero status)) [
        | inr bad ↦ elim (Bool-cases (ends_reception status)) [
          | inl gone ↦ rw (bad, gone) (receiving, refl, refl, refl, ([], inr (bad, refl), refl))
          | inr aborted ↦
              rw (bad, aborted)
                (resubmit-Receives (StatusFrames k status buffer) urb buf d d t
                  (done (log dev_info) ∷ t) tt
                  (receiving, refl, refl, refl, ([], inr (bad, refl), refl)))
        ]
        | inl good ↦
            rw (good, rx_loop-all_blocks buffer small)
              (Safe-bind (Receives (TransferFrames k (length buffer / 128) buffer 0) d t)
                (Receives (StatusFrames k status buffer) d t)
                (blocks (length buffer / 128) buffer 0) (λ _. resubmit urb buf) k d t
                (blocks-Receives (length buffer / 128) 0 buffer d t (omega arith) bounded receiving)
                (λ u d1 t1 (receiving1, cans, lins, list, (fs, made, more)).
                  resubmit-Receives (StatusFrames k status buffer) urb buf d d1 t t1 u
                    (receiving1, cans, lins, list, (fs, inl (good, made), more))))
      ]
