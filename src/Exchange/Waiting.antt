-- ===== src/Exchange/Waiting.antt =====
-- The channels that wait for an answer, as indices into the array of net devices.
use can_guru.Base.{
  ℕ, zero, suc, ◌≡◌, ◌≢◌, ◌==◌, refl, sym, ap, ◌∙◌, inl, inr, ==_iff, Bool, Bool-cases, true, false,
  Option, none, some, List, [], ◌∷◌, ◌++◌, get_elem?, All, arith,
}
use can_guru.Kernel.Types.{Event}
use can_guru.Kernel.Ledger.{queue_runs}
use can_guru.State.{NetDev}
use can_guru.Bus.{contains}
use can_guru.Bus.Channels.{keys}

-- No index occurs twice.
abbrev pub IsOnce : List ℕ → Type 0
IsOnce [] = Unit {0}
IsOnce (x ∷ xs) = (contains x xs ≡ false) × IsOnce xs

-- Net devices at different places have different pointers.
pub record IsPort (chans : List (Option (ℕ × Bool))) : Type 0 where
  pub handles :
      (i j h : ℕ) (b c : Bool)
      → get_elem? chans i ≡ some (some (h, b))
      → get_elem? chans j ≡ some (some (h, c))
      → i ≡ j

-- The channel takes answers, and its queue is stopped.
abbrev pub IsStopped : List (Option (ℕ × Bool)) → Bool → List Event → ℕ → Type 0
IsStopped chans running t i =
    (h : ℕ) × (get_elem? chans i ≡ some (some (h, true))) × (queue_runs running h t ≡ false)

contains-append :
    (x i : ℕ) (xs : List ℕ) → contains x xs ≡ false → x ≢ i → contains x (xs ++ (i ∷ [])) ≡ false
contains-append x i [] h differ = ground arith
contains-append x i (y ∷ ys) h differ = elim (Bool-cases (x == y)) [
  | inl same ↦ ground (arith, h, same)
  | inr other ↦
      let rest = contains-append x i ys (ground (arith, h, other)) differ in
      ground (arith, other, rest)
]

pub append-IsOnce :
    (i : ℕ) (xs : List ℕ) → contains i xs ≡ false → IsOnce xs → IsOnce (xs ++ (i ∷ []))
append-IsOnce i [] h once = (refl, tt)
append-IsOnce i (x ∷ xs) h once = elim (Bool-cases (i == x)) [
  | inl same ↦ absurd (ground (arith, h, same))
  | inr other ↦ (
    contains-append x i xs once.0 (λ e. ground (arith, other, e)),
    append-IsOnce i xs (ground (arith, h, other)) once.1,
  )
]

-- A net device is at the place that its key is at.
pub keys-get_elem? :
    (devs : List (Option NetDev)) (i h : ℕ) (b : Bool)
    → get_elem? (keys devs) i ≡ some (some (h, b))
    → (dev : NetDev) × (get_elem? devs i ≡ some (some dev))
      × (dev.handle ≡ h)
      × (dev.has_reply_callback ≡ b)
keys-get_elem? [] i h b e = ground arith
keys-get_elem? (none ∷ xs) zero h b e = ground (arith, e)
keys-get_elem? (some dev ∷ xs) zero h b e = (dev, refl, ground (arith, e), ground (arith, e))
keys-get_elem? (x ∷ xs) (suc i) h b e = keys-get_elem? xs i h b e

module _ (chans : List (Option (ℕ × Bool))) (port : IsPort chans) (running : Bool) where
  -- A channel whose queue runs does not wait.
  pub running-not_waiting :
      (t : List Event) (i h : ℕ) (b : Bool) (waits : List ℕ)
      → get_elem? chans i ≡ some (some (h, b))
      → queue_runs running h t ≡ true
      → All (IsStopped chans running t) waits
      → contains i waits ≡ false
  running-not_waiting t i h b [] found runs all = refl
  running-not_waiting t i h b (x ∷ xs) found runs ((g, there, stopped), all) =
      let rest = running-not_waiting t i h b xs found runs all in
      elim (Bool-cases (i == x)) [
        | inl same ↦
            let there' : get_elem? chans i ≡ some (some (g, true)) =
              ap (get_elem? chans) ((==_iff i x).0 same) ∙ there in
            ground (arith, found, there', runs, stopped)
        | inr other ↦ ground (arith, other, rest)
      ]

  -- What does not touch the queues of other net devices keeps the channels stopped that are
  -- elsewhere.
  pub other_queues-IsStopped :
      (t t' : List Event) (i h : ℕ) (b : Bool) (waits : List ℕ)
      → get_elem? chans i ≡ some (some (h, b))
      → contains i waits ≡ false
      → ((other : ℕ) → h ≢ other → queue_runs running other t' ≡ queue_runs running other t)
      → All (IsStopped chans running t) waits
      → All (IsStopped chans running t') waits
  other_queues-IsStopped t t' i h b [] found away same all = tt
  other_queues-IsStopped t t' i h b (x ∷ xs) found away same ((g, there, stopped), all) =
      elim (Bool-cases (i == x)) [
        | inl eq ↦ absurd (ground (arith, away, eq))
        | inr other ↦
            let rest : contains i xs ≡ false = ground (arith, away, other) in
            let differ : h ≢ g = λ e. ground (
              arith,
              other,
              port.handles i x h b true found
                  (there ∙ ap (λ (n : ℕ). some (some (n, true))) (sym e)),
            ) in
            (
              (g, there, same g differ ∙ stopped),
              other_queues-IsStopped t t' i h b xs found rest same all,
            )
      ]
