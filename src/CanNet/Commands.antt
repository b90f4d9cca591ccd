-- ===== src/CanNet/Commands.antt =====
-- What a CAN channel's configuration sends.
use can_guru.Base.{
  [], ℕ, suc, ◌+◌, ◌*◌, ◌/◌, ◌%◌, ◌≤◌, ◌<◌, ◌^◌, ◌≡◌, ◌≢◌, ◌⊎◌, inl, inr, ℤ, pos, List, ◌∷◌, ◌++◌,
  refl, u8, le32, bit_and-bit, arith, ap, Bool-cases, ◌==◌,
}
use native.Mathlib.Nat.{div-div-eq-div-mul, mul-div-le, lt-div-mul-add}
use can_guru.Kernel.Types.{Event}
use can_guru.Kernel.{Kernel, IsKernel, Ends, ok}
use can_guru.Kernel.Ledger.{sent, refusals}
use can_guru.State.{NetDev, Bittiming}
use can_guru.MsgIds.{can_msg_config_set, can_msg_timing_set}
use can_guru.Send.Outcome.{packet, send_struct-runs}
use can_guru.CanWire.{can_conf_msg_bytes, can_timing_bytes, can_timing_msg_bytes}
use can_guru.CanWire.Layout.{length-can_conf_msg_bytes, length-can_timing_msg_bytes}
use can_guru.CanNet.{
  canguru_can_clk, ideal_tq_num, can_conf_of, can_timing_msg_of, canguru_set_can_conf,
  canguru_set_can_timing, canguru_set_bittiming,
}

-- The number of time quanta in a bit: the largest that the clock, divided by the prescaler, has.
abbrev pub IsTqNum : Bittiming → ℕ → Type 0
IsTqNum timing tq =
    ((timing.bitrate ≡ 0) × (tq ≡ 0))
    ⊎ ((0 < timing.bitrate)
        × (tq * (timing.brp + 1) * timing.bitrate ≤ canguru_can_clk)
        × (canguru_can_clk < (tq + 1) * (timing.brp + 1) * timing.bitrate))

tq_bounds :
    (clk p b : ℕ) → 0 < p → 0 < b → (clk / p / b * p * b ≤ clk) × (clk < (clk / p / b + 1) * p * b)
tq_bounds clk p b hp hb = omega (
  arith,
  ap (λ (q : ℕ). q * p * b) (div-div-eq-div-mul clk p b),
  mul-div-le clk (p * b),
  lt-div-mul-add {a = clk} (area hp hb),
)
  where
    area : 0 < p → 0 < b → 0 < p * b
    area x y = grind arith

ideal_tq_num-IsTqNum :
    {S : Type 0} (k : Kernel) (s : S) (t : List Event) (timing : Bittiming)
    → timing.brp + 1 < 2 ^ 32
    → (tq : ℕ) × (ideal_tq_num timing k s t ≡ ok tq s t) × IsTqNum timing tq
unfolding ideal_tq_num
ideal_tq_num-IsTqNum k s t timing h = elim (Bool-cases (timing.bitrate == 0)) [
  | inl off ↦ (0, rw off, ground arith)
  | inr on ↦ (
    canguru_can_clk / ((timing.brp + 1) % 2 ^ 32) / timing.bitrate,
    ground arith,
    ground (arith, tq_bounds canguru_can_clk (timing.brp + 1) timing.bitrate),
  )
]

-- The bytes of the configuration: the channel, the bit rate of the arbitration and of the data, and
-- whether CAN FD (bit 5 of the mode) and listening only (bit 1) are on.
abbrev pub conf_bytes : NetDev → List ℕ
conf_bytes priv =
    u8 priv.channel_idx
    ∷ (le32 priv.can.bittiming.bitrate
        ++ (le32 priv.can.data_bittiming.bitrate
            ++ (priv.can.ctrlmode / 32 % 2 ∷ priv.can.ctrlmode / 2 % 2 ∷ [])))

-- The bytes of the timing: the channel, and for the arbitration and then for the data the sample
-- point, the quanta and the jump width.
abbrev pub timing_bytes : NetDev → ℕ → ℕ → List ℕ
timing_bytes priv tq tq_data =
    u8 priv.channel_idx
    ∷ ((le32 priv.can.bittiming.sample_point ++ (le32 tq ++ le32 priv.can.bittiming.sjw))
        ++ (le32 priv.can.data_bittiming.sample_point
            ++ (le32 tq_data ++ le32 priv.can.data_bittiming.sjw)))

conf_bytes_lem : (priv : NetDev) → can_conf_msg_bytes (can_conf_of priv) ≡ conf_bytes priv
unfolding can_conf_msg_bytes can_conf_of
conf_bytes_lem priv =
    ground (arith, bit_and-bit 5 priv.can.ctrlmode, bit_and-bit 1 priv.can.ctrlmode)

timing_bytes_lem :
    (priv : NetDev) (tq tq_data : ℕ)
    → can_timing_msg_bytes (can_timing_msg_of priv tq tq_data) ≡ timing_bytes priv tq tq_data
unfolding can_timing_msg_bytes can_timing_msg_of can_timing_bytes
timing_bytes_lem priv tq tq_data = refl

-- The configuration goes out before the timing, and a refusal of the first ends the operation.
abbrev pub Configured : List ℕ → List ℕ → List Event → ℤ → List Event → Type 0
Configured conf timing t err t' =
    let first = packet can_msg_config_set conf in
    ((err ≡ pos 0)
      × (sent t' ≡ packet can_msg_timing_set timing ∷ first ∷ sent t)
      × (refusals t' ≡ refusals t))
    ⊎ ((err ≢ pos 0)
        × (refusals t' ≡ suc (refusals t))
        × ((sent t' ≡ sent t) ⊎ (sent t' ≡ first ∷ sent t)))

-- Where neither prescaler wraps to 0, canguru_set_bittiming ends, leaves the channel's state alone,
-- and sends the channel's two bit rates and modes first, and second the sample point, the quanta and
-- the jump width of the arbitration and of the data. It returns 0 if both went out, and an error if
-- the USB core refused a call. The quanta in the timing are the largest numbers that the clock has
-- in a bit.
pub canguru_set_bittiming-Configured :
    {S : Type 0} (k : Kernel) (s : S) (t : List Event) (priv : NetDev)
    → IsKernel k
    → priv.can.bittiming.brp + 1 < 2 ^ 32
    → priv.can.data_bittiming.brp + 1 < 2 ^ 32
    → (tq : ℕ) × (tq_data : ℕ) × IsTqNum priv.can.bittiming tq
      × IsTqNum priv.can.data_bittiming tq_data
      × Ends
          (λ err s' t'.
            (s' ≡ s) × Configured (conf_bytes priv) (timing_bytes priv tq tq_data) t err t')
          (canguru_set_bittiming priv k s t)
unfolding canguru_set_bittiming canguru_set_can_conf canguru_set_can_timing
canguru_set_bittiming-Configured k s t priv kernel ha hd =
    let (tq, a, p) = ideal_tq_num-IsTqNum k s t priv.can.bittiming ha in
    let (tq_data, b, q) = ideal_tq_num-IsTqNum k s t priv.can.data_bittiming hd in
    let conf = can_conf_of priv in
    let timing = can_timing_msg_of priv tq tq_data in
    let (err, t1, e, o) =
      send_struct-runs k s t can_msg_config_set (can_conf_msg_bytes conf) 11 kernel (omega arith)
        (omega arith) (length-can_conf_msg_bytes conf) in
    let (err', t2, e', o') =
      send_struct-runs k s t1 can_msg_timing_set (can_timing_msg_bytes timing) 25 kernel
        (omega arith) (omega arith) (length-can_timing_msg_bytes timing) in
    let conf_is = conf_bytes_lem priv in
    let timing_is = timing_bytes_lem priv tq tq_data in
    (tq, tq_data, p, q, ground (arith, a, b, e, o, e', o', conf_is, timing_is))
