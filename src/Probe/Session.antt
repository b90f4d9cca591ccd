-- ===== src/Probe/Session.antt =====
-- From guru_usb_probe to the frames of the network stack: a device that is plugged in, and the
-- receive transfers that complete after that.
use can_guru.Base.{
  [], ℕ, ◌/◌, ◌^◌, ◌<◌, ◌≡◌, ◌≢◌, ◌⊎◌, refl, sym, ap, ◌∙◌, subst, inl, inr, ℤ, pos, some, Option,
  List, ◌∷◌, ◌++◌, length, All,
}
use mathlib.Core.List.{append_assoc}
use can_guru.Kernel.{Kernel, IsKernel, M, Ends, Ends-map, pure, ◌>>◌}
use can_guru.Kernel.Types.{Event, Skb}
use can_guru.Kernel.Ledger.{delivered}
use can_guru.State.{Device, GuruMsg, Kind}
use can_guru.Dispatch.{canguru_read_bulk_callback}
use can_guru.Dispatch.Reading.{AreBounded}
use can_guru.Dispatch.Soundness.{IsReceiving}
use can_guru.Dispatch.Delivery.{Receives}
use can_guru.Dispatch.Transfer.{StatusFrames, canguru_read_bulk_callback-Receives}
use can_guru.Devices.Kinds.{can_count, lin_count, kind_messages, IsZeroed, IsInitialised}
use can_guru.Devices.Soundness.{IsMissing, IsUsable, IsInitialised-IsUsable}
use can_guru.Probe.{product_kind, guru_usb_probe}
use can_guru.Probe.Products.{name_of, product_kind_iff}
use can_guru.Probe.Serial.{Probed, guru_usb_probe-Probed}
use can_guru.Probe.Soundness.{ProbeEnd, guru_usb_probe-ProbeEnd}
use can_guru.Kernel.Safe.{Safe, Safe-bind, Safe-map}

-- A receive transfer that completed, as the USB core hands it to the callback.
pub record Completion : Type 0 where
  pub urb : ℕ
  pub buf : ℕ
  pub status : ℤ
  pub buffer : List ℕ

-- The completions in the order in which the USB core reports them.
pub receive_all : List Completion → M Device (Unit {0})
receive_all [] = pure tt
receive_all (c ∷ cs) = do canguru_read_bulk_callback c.urb c.buf c.status c.buffer; receive_all cs

abbrev pub IsBoundedCompletion : Completion → Type 0
IsBoundedCompletion c = (length c.buffer < 2 ^ 32) × AreBounded (length c.buffer / 128) c.buffer 0

-- What they turn into, newest first.
abbrev pub SessionFrames : Kernel → List Completion → ℕ → ℕ → List GuruMsg → List (Skb × ℕ) → Type 0
SessionFrames k [] cans lins ms fs = fs ≡ []
SessionFrames k (c ∷ cs) cans lins ms fs =
    (new : List (Skb × ℕ)) × (later : List (Skb × ℕ)) × (fs ≡ later ++ new)
    × StatusFrames k c.status c.buffer cans lins ms new
    × SessionFrames k cs cans lins ms later

-- The frames are those of a device of the type.
abbrev pub KindReceives :
    Kernel → Kind → List Completion → List Event → Unit {0} → Device → List Event → Type 0
KindReceives k kind cs t _ d' t' =
    IsReceiving d'
    × ((fs : List (Skb × ℕ)) × SessionFrames k cs (can_count kind) (lin_count kind)
          (kind_messages kind) fs
        × (delivered t' ≡ fs ++ delivered t))

-- An error, a device that lacks a channel, or a device that receives.
abbrev pub SessionEnd : Kernel → List ℕ → List Completion → ℤ → Device → List Event → Type 0
SessionEnd k product cs err d' t' =
    (err ≢ pos 0)
    ⊎ ((err ≡ pos 0)
        × ((kind : Kind) × (product ≡ name_of kind)
            × (((i : ℕ) × IsMissing d'.can_bus.netdevs i)
                ⊎ (((i : ℕ) × IsMissing d'.lin_bus.netdevs i)
                    ⊎ Safe k (KindReceives k kind cs t') (receive_all cs k d' t')))))

same_frames :
    (k : Kernel) (cs : List Completion) (c c' l l' : ℕ) (ms ms' : List GuruMsg)
    (fs : List (Skb × ℕ))
    → c' ≡ c
    → l' ≡ l
    → ms' ≡ ms
    → SessionFrames k cs c' l' ms' fs
    → SessionFrames k cs c l ms fs
same_frames k cs c c' l l' ms ms' fs cans lins list h =
    subst (λ x. SessionFrames k cs x l ms fs) cans
      (subst (λ x. SessionFrames k cs c' x ms fs) lins
        (subst (λ x. SessionFrames k cs c' l' x fs) list h))

module _ (k : Kernel) (kernel : IsKernel k) where
  -- The first completion, and then the others.
  then_later :
      (c : Completion) (cs : List Completion) (d d1 : Device) (t t1 : List Event) (u : Unit {0})
      → Receives (StatusFrames k c.status c.buffer) d t u d1 t1
      → Safe k (Receives (SessionFrames k cs) d1 t1) (receive_all cs k d1 t1)
      → Safe k (Receives (SessionFrames k (c ∷ cs)) d t) (receive_all cs k d1 t1)
  then_later c cs d d1 t t1 u (_, cans, lins, list, (new, made, more)) rest =
      Safe-map k (Receives (SessionFrames k cs) d1 t1) (Receives (SessionFrames k (c ∷ cs)) d t)
        (receive_all cs k d1 t1)
        (λ _ d2 t2 (receiving2, cans2, lins2, list2, (later, made2, more2)). (
          receiving2,
          cans2 ∙ cans,
          lins2 ∙ lins,
          list2 ∙ list,
          (
            later ++ new,
            (new, later, refl, made, same_frames k cs _ _ _ _ _ _ later cans lins list made2),
            more2 ∙ (ap (λ l. later ++ l) more ∙ sym (append_assoc later new (delivered t))),
          ),
        ))
        rest

  receive_all-Receives :
      (cs : List Completion) (d : Device) (t : List Event)
      → All IsBoundedCompletion cs
      → IsReceiving d
      → Safe k (Receives (SessionFrames k cs) d t) (receive_all cs k d t)
  unfolding receive_all
  receive_all-Receives [] d t bounded receiving = (receiving, refl, refl, refl, ([], refl, refl))
  receive_all-Receives (c ∷ cs) d t ((small, bounded), rest) receiving =
      Safe-bind (Receives (StatusFrames k c.status c.buffer) d t)
        (Receives (SessionFrames k (c ∷ cs)) d t)
        (canguru_read_bulk_callback c.urb c.buf c.status c.buffer) (λ _. receive_all cs) k d t
        (canguru_read_bulk_callback-Receives k kernel c.urb c.buf c.status c.buffer d t small
          bounded receiving)
        (λ u d1 t1 received.
          then_later c cs d d1 t t1 u received (receive_all-Receives cs d1 t1 rest received.0))

  initialised-KindReceives :
      (kind : Kind) (cs : List Completion) (start d : Device) (t : List Event)
      → All IsBoundedCompletion cs
      → IsInitialised kind start d
      → IsReceiving d
      → Safe k (KindReceives k kind cs t) (receive_all cs k d t)
  initialised-KindReceives kind cs start d t bounded made receiving =
      Safe-map k (Receives (SessionFrames k cs) d t) (KindReceives k kind cs t)
        (receive_all cs k d t)
        (λ _ d' t' (receiving', _, _, _, (fs, frames, more)). (
          receiving',
          (
            fs,
            same_frames k cs _ _ _ _ _ _ fs made.can_ready.count made.lin_ready.count
                made.registered frames,
            more,
          ),
        ))
        (receive_all-Receives cs d t bounded receiving)

  probe-SessionEnd :
      (product serial : List ℕ) (cs : List Completion) (d : Device) (t : List Event)
      → IsZeroed d
      → All IsBoundedCompletion cs
      → Ends (SessionEnd k product cs) (guru_usb_probe product (some serial) k d t)
  probe-SessionEnd product serial cs d t zeroed bounded =
      Ends-map (ProbeEnd (product_kind product) d t) (SessionEnd k product cs)
        (guru_usb_probe product (some serial) k d t) runs
        (guru_usb_probe-ProbeEnd k product serial d t kernel zeroed)
    where
      receives :
          (kind : Kind) (d' : Device) (t' : List Event)
          → IsInitialised kind d d'
          → IsUsable d'
          → ((i : ℕ) × IsMissing d'.can_bus.netdevs i)
            ⊎ (((i : ℕ) × IsMissing d'.lin_bus.netdevs i)
                ⊎ Safe k (KindReceives k kind cs t') (receive_all cs k d' t'))
      receives kind d' t' made (inl missing) = inl missing
      receives kind d' t' made (inr (inl missing)) = inr (inl missing)
      receives kind d' t' made (inr (inr receiving)) =
          inr (inr (initialised-KindReceives kind cs d d' t' bounded made receiving))

      runs :
          (err : ℤ) (d' : Device) (t' : List Event)
          → ProbeEnd (product_kind product) d t err d' t'
          → SessionEnd k product cs err d' t'
      runs err d' t' (_, inl bad) = inl bad
      runs err d' t' (_, inr (good, (kind, found, deinit, made))) = inr (
        good,
        (
          kind,
          (product_kind_iff product kind).0 found,
          receives kind d' t' made (IsInitialised-IsUsable kind d d' made),
        ),
      )

  -- From plugging in to the network stack, if the structure that the kernel allocates is zeroed:
  -- probing returns, unless the device is a CAN Guru that reports no serial number, on which NULL may
  -- be dereferenced; and where it returns 0, the
  -- product's name is that of a device type, and then a channel could not be created, or the device
  -- processes a sequence of receive transfers, successful or not, each below 2 ^ 32 bytes and with
  -- packets in which a version text has at most 32 bytes and a LIN message says at most 8 bytes.
  -- Processing them returns, or NULL is dereferenced, and that only on a kernel that at some time
  -- refuses a socket buffer. Where it returns, the frames that are delivered, in the order of the
  -- transfers and of the packets in each, are exactly those of the received CAN and LIN messages for
  -- the channels of this type, by the messages that this type registers, and the device stays sound.
  pub guru_usb_probe-SessionEnd :
      (product : List ℕ) (serial : Option (List ℕ)) (cs : List Completion) (d : Device)
      (t : List Event)
      → IsZeroed d
      → All IsBoundedCompletion cs
      → Probed product serial (SessionEnd k product cs) (guru_usb_probe product serial k d t)
  guru_usb_probe-SessionEnd product serial cs d t zeroed bounded =
      guru_usb_probe-Probed k product serial d t (SessionEnd k product cs)
        (λ number. probe-SessionEnd product number cs d t zeroed bounded)
