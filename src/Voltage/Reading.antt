-- ===== src/Voltage/Reading.antt =====
-- A reading of the LIN bus voltage, on every path.
use can_guru.Base.{
  if◌then◌else◌, is_zero, ℕ, suc, ◌+◌, ◌≡◌, ◌≢◌, ◌⊎◌, refl, ℤ, pos, Option, none, some, List, [],
  ◌∷◌, arith,
}
use can_guru.Kernel.Types.{
  answered, wait_for_completion_timeout, Event, done, einval, etimedout, mutex_lock, mutex_unlock,
  reinit_completion, complete,
}
use can_guru.Kernel.{Kernel, IsKernel, Ends, ok}
use can_guru.Kernel.Ledger.{refusals, aside, sent}
use can_guru.State.{VoltagePriv}
use can_guru.MsgIds.{lin_msg_volt_get}
use can_guru.Send.Outcome.{packet, guru_send_data-runs}
use can_guru.Voltage.{volt_replies, linguru_volt_read_raw, iio_val_int}

-- How often the lock was taken and given back.
abbrev pub locks : List Event → ℕ
locks [] = 0
locks (done mutex_lock ∷ t) = suc (locks t)
locks (e ∷ t) = locks t

abbrev pub unlocks : List Event → ℕ
unlocks [] = 0
unlocks (done mutex_unlock ∷ t) = suc (unlocks t)
unlocks (e ∷ t) = unlocks t

-- The waits that ended by the time limit.
abbrev pub timeouts : List Event → ℕ
timeouts [] = 0
timeouts (answered wait_for_completion_timeout r ∷ t) =
    if is_zero r then suc (timeouts t) else timeouts t
timeouts (e ∷ t) = timeouts t

-- The last of the values that arrive, and the stored one where none does.
abbrev pub last_or : ℕ → List ℕ → ℕ
last_or v [] = v
last_or v (x ∷ xs) = last_or x xs

abbrev completed : List ℕ → List Event → List Event
completed [] t = t
completed (x ∷ xs) t = completed xs (done complete ∷ t)

volt_replies-runs :
    (k : Kernel) (v : ℕ) (t : List Event) (arrivals : List ℕ)
    → volt_replies arrivals k (record { voltage = v }) t
      ≡ ok tt (record { voltage = last_or v arrivals }) (completed arrivals t)
unfolding volt_replies
volt_replies-runs k v t [] = refl
volt_replies-runs k v t (x ∷ xs) = volt_replies-runs k x (done complete ∷ t) xs

completed-quiet :
    (arrivals : List ℕ) (t : List Event)
    → (locks (aside (completed arrivals t)) ≡ locks (aside t))
      × (unlocks (aside (completed arrivals t)) ≡ unlocks (aside t))
      × (timeouts (aside (completed arrivals t)) ≡ timeouts (aside t))
      × (sent (completed arrivals t) ≡ sent t)
      × (refusals (completed arrivals t) ≡ refusals t)
completed-quiet [] t = (refl, refl, refl, refl, refl)
completed-quiet (x ∷ xs) t = completed-quiet xs (done complete ∷ t)

-- The result of a reading: not that of a voltage, the command failed, nothing came in time, or the
-- last value that arrived.
abbrev pub ReadEnd : ℕ → List ℕ → ℕ → List Event → ℤ × Option (ℕ × ℕ) → ℕ → List Event → Type 0
ReadEnd mask arrivals v t (code, value) v' t' =
    ((mask ≢ 0) × (code ≡ einval) × (value ≡ none) × (v' ≡ v) × (t' ≡ t))
    ⊎ (((mask ≡ 0)
          × (code ≢ pos 0)
          × (refusals t' ≡ suc (refusals t))
          × (value ≡ none)
          × (v' ≡ v)
          × (sent t' ≡ sent t))
        ⊎ ((mask ≡ 0)
            × (v' ≡ last_or v arrivals)
            × (sent t' ≡ packet lin_msg_volt_get [] ∷ sent t)
            × (((code ≡ etimedout)
                  × (value ≡ none)
                  × (timeouts (aside t') ≡ suc (timeouts (aside t))))
                ⊎ ((code ≡ iio_val_int)
                    × (value ≡ some (v', 0))
                    × (timeouts (aside t') ≡ timeouts (aside t))))))

-- A reading asks the device once and returns the last voltage that arrived, or -ETIMEDOUT where the
-- wait ran out. Where the USB core refuses a call, it ends with an error and no command is out; for
-- another kind of value it does nothing and returns -EINVAL. The lock is given back as often as it
-- is taken.
pub linguru_volt_read_raw-ReadEnd :
    (k : Kernel) (v : ℕ) (t : List Event) (mask : ℕ) (arrivals : List ℕ)
    → IsKernel k
    → Ends
        (λ r s' t'.
          ReadEnd mask arrivals v t r s'.voltage t'
          × (locks (aside t') + unlocks (aside t) ≡ locks (aside t) + unlocks (aside t')))
        (linguru_volt_read_raw mask arrivals k (record { voltage = v }) t)
unfolding linguru_volt_read_raw
linguru_volt_read_raw-ReadEnd k v t mask arrivals kernel =
    let priv : VoltagePriv = record { voltage = v } in
    let locked = done reinit_completion ∷ done mutex_lock ∷ t in
    let (err, t', runs, o) =
      guru_send_data-runs k priv locked lin_msg_volt_get none 0 [] kernel (omega arith)
        (omega arith) (refl, refl) in
    let (l, u, w, s, r) = completed-quiet arrivals t' in
    ground (arith, runs, o.verdict, o.others, volt_replies-runs k v t' arrivals, l, u, w, s, r)
