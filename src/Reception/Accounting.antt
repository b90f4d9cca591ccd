-- ===== src/Reception/Accounting.antt =====
-- The URBs and the buffers of canguru_usb_rx_init.
use can_guru.Base.{
  ℕ, zero, suc, ◌+◌, ◌<◌, ◌≡◌, ◌≢◌, ◌⊎◌, inl, inr, refl, ℤ, pos, is_zero, false, if◌then◌else◌,
  List, [], ◌∷◌, length, length-append, arith,
}
use can_guru.Kernel.{Kernel, pointer, Ends, Ends-bind, Ends-map, pure}
use can_guru.Kernel.Types.{Event, answered, usb_alloc_urb, usb_alloc_coherent}
use can_guru.Kernel.Ledger.{urbs_taken, urbs_freed, buffers_taken, buffers_freed}
use can_guru.State.{Device}
use can_guru.Reception.{rx_turn, rx_turns, report_turns, canguru_usb_rx_init}

-- `n` more receive buffers: each is in the table and held; every URB reference is given back.
abbrev pub IsHeld : ℕ → Device → List Event → Device → List Event → Type 0
IsHeld n d t d' t' =
    (length d'.guru.rxbuf ≡ length d.guru.rxbuf + n)
    × (buffers_taken t' + buffers_freed t ≡ buffers_taken t + buffers_freed t' + n)
    × (urbs_taken t' + urbs_freed t ≡ urbs_taken t + urbs_freed t')

rx_turn-IsHeld :
    (k : Kernel) (d : Device) (t : List Event)
    → Ends
        (λ err d' t'.
          ((err ≡ pos 0) × IsHeld 1 d t d' t') ⊎ ((is_zero err ≡ false) × IsHeld 0 d t d' t'))
        (rx_turn k d t)
unfolding rx_turn
rx_turn-IsHeld k d t =
    let with_urb = answered usb_alloc_urb (k.reply t usb_alloc_urb) ∷ t in
    let buf = pointer (k.reply with_urb (usb_alloc_coherent 128)) in
    ground (arith, length-append d.guru.rxbuf (buf ∷ []))

-- How the loop ends: the turns that were made of those that were left.
abbrev RxEnd : ℕ → ℕ → Device → List Event → ℕ × ℤ → Device → List Event → Type 0
RxEnd left idx d t (i, err) d' t' =
    (n : ℕ) × (i ≡ idx + n)
    × IsHeld n d t d' t'
    × (((err ≡ pos 0) × (n ≡ left)) ⊎ ((is_zero err ≡ false) × (n < left)))

rx_turns-RxEnd :
    (k : Kernel) (left idx : ℕ) (d : Device) (t : List Event)
    → Ends (RxEnd left idx d t) (rx_turns left idx k d t)
unfolding rx_turns
rx_turns-RxEnd k zero idx d t = (0, omega arith, (omega arith, omega arith, refl), inl (refl, refl))
rx_turns-RxEnd k (suc left) idx d t =
    Ends-bind
      (λ err d' t'.
        ((err ≡ pos 0) × IsHeld 1 d t d' t') ⊎ ((is_zero err ≡ false) × IsHeld 0 d t d' t'))
      (RxEnd (suc left) idx d t) rx_turn
      (λ err. if is_zero err then rx_turns left (suc idx) else pure (idx, err)) k d t
      (rx_turn-IsHeld k d t) (after_turn (λ d' t'. rx_turns-RxEnd k left (suc idx) d' t'))
  where
    after_turn :
        ((d' : Device) (t' : List Event)
          → Ends (RxEnd left (suc idx) d' t') (rx_turns left (suc idx) k d' t'))
        → (err : ℤ) (d' : Device) (t' : List Event)
        → ((err ≡ pos 0) × IsHeld 1 d t d' t') ⊎ ((is_zero err ≡ false) × IsHeld 0 d t d' t')
        → Ends
            (RxEnd (suc left) idx d t)
            ((if is_zero err then rx_turns left (suc idx) else pure (idx, err)) k d' t')
    after_turn rest err d' t' (inl (e, held)) = rw e (
        Ends-map (RxEnd left (suc idx) d' t') (RxEnd (suc left) idx d t)
          (rx_turns left (suc idx) k d' t') one_more (rest d' t'))
      where
        one_more :
            (r : ℕ × ℤ) (d'' : Device) (t'' : List Event)
            → RxEnd left (suc idx) d' t' r d'' t''
            → RxEnd (suc left) idx d t r d'' t''
        one_more (i, err') d'' t'' (n, e', held', verdict) =
            (suc n, omega arith, ground (arith, held, held'), ground (arith, verdict))
    after_turn rest err d' t' (inr (e, held)) = rw e (0, omega arith, held, inr (e, omega arith))

-- Nothing but a line of the log.
abbrev Logged : ℤ → Device → List Event → ℤ → Device → List Event → Type 0
Logged err d t err' d' t' =
    (err' ≡ err)
    × (d' ≡ d)
    × (buffers_taken t' ≡ buffers_taken t)
    × (buffers_freed t' ≡ buffers_freed t)
    × (urbs_taken t' ≡ urbs_taken t)
    × (urbs_freed t' ≡ urbs_freed t)

report_turns-Logged :
    (k : Kernel) (i : ℕ) (err : ℤ) (d : Device) (t : List Event)
    → Ends (Logged err d t) (report_turns (i, err) k d t)
unfolding report_turns
report_turns-Logged k i err d t = ground arith

abbrev pub RxInitEnd : Device → List Event → ℤ → Device → List Event → Type 0
RxInitEnd d t err d' t' =
    (n : ℕ) × IsHeld n d t d' t' × (((err ≡ pos 0) × (n ≡ 32)) ⊎ ((err ≢ pos 0) × (n < 32)))

-- Whatever the kernel answers, setting up the reception ends with as many more buffers held as are
-- in the table, at most 32, and with no URB reference kept. The result is 0 exactly if there are
-- 32.
pub canguru_usb_rx_init-IsHeld :
    (k : Kernel) (d : Device) (t : List Event) → Ends (RxInitEnd d t) (canguru_usb_rx_init k d t)
unfolding canguru_usb_rx_init
canguru_usb_rx_init-IsHeld k d t =
    Ends-bind (RxEnd 32 0 d t) (RxInitEnd d t) (rx_turns 32 0) report_turns k d t
      (rx_turns-RxEnd k 32 0 d t) reported
  where
    reported :
        (r : ℕ × ℤ) (d' : Device) (t' : List Event)
        → RxEnd 32 0 d t r d' t'
        → Ends (RxInitEnd d t) (report_turns r k d' t')
    reported (i, err) d' t' (n, e, held, verdict) =
        Ends-map (Logged err d' t') (RxInitEnd d t) (report_turns (i, err) k d' t')
          (λ err' d'' t'' (same, same_dev, taken, freed, urbs, urbs'). (
            n,
            ground (arith, held, same_dev, taken, freed, urbs, urbs'),
            ground (arith, verdict, same),
          ))
          (report_turns-Logged k i err d' t')
