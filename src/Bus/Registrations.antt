-- ===== src/Bus/Registrations.antt =====
-- What a record of calls says of the net devices that the network stack knows.
use can_guru.Base.{
  [], Bool, false, ◌==◌, ℕ, zero, suc, refl, replicate, ◌+◌, ◌≡◌, if◌then◌else◌, is_zero, Option,
  none, some, List, ◌∷◌,
}
use can_guru.Base.{Bool, false, ◌==◌, arith, ◌⊎◌}
use can_guru.Kernel.Types.{Event, answered, done, register_candev, unregister_candev}
use can_guru.Kernel.Ledger.{aside}
use can_guru.State.{NetDev, Bus}
use can_guru.Bus.{store_netdev}

-- Net devices that were registered, and those that were unregistered.
abbrev pub netdevs_registered : List Event → ℕ
netdevs_registered [] = 0
netdevs_registered (answered (register_candev dev) r ∷ t) =
    if is_zero r then suc (netdevs_registered t) else netdevs_registered t
netdevs_registered (e ∷ t) = netdevs_registered t

abbrev pub netdevs_unregistered : List Event → ℕ
netdevs_unregistered [] = 0
netdevs_unregistered (done (unregister_candev dev) ∷ t) = suc (netdevs_unregistered t)
netdevs_unregistered (e ∷ t) = netdevs_unregistered t

-- The last call is a successful registration of the net device.
abbrev pub registered_last : ℕ → List Event → Bool
registered_last handle [] = false
registered_last handle (answered (register_candev dev) r ∷ t) =
    if dev == handle then is_zero r else false
registered_last handle (e ∷ t) = false

-- `n` registrations and `m` removals lie between the two records.
abbrev pub IsCounted : ℕ → ℕ → List Event → List Event → Type 0
IsCounted n m t t' =
    (netdevs_registered (aside t') ≡ n + netdevs_registered (aside t))
    × (netdevs_unregistered (aside t') ≡ m + netdevs_unregistered (aside t))

-- The entries of an array of net devices that are not NULL.
abbrev pub channels_there : List (Option NetDev) → ℕ
channels_there [] = 0
channels_there (none ∷ devs) = channels_there devs
channels_there (some dev ∷ devs) = suc (channels_there devs)

-- Calls that are not about net devices.
pub aside-IsCounted : (t t' : List Event) → aside t' ≡ aside t → IsCounted 0 0 t t'
aside-IsCounted t t' same = ground (arith, same)

pub IsCounted-trans :
    (n n' m m' : ℕ) (t t' t'' : List Event)
    → IsCounted n m t t'
    → IsCounted n' m' t' t''
    → IsCounted (n + n') (m + m') t t''
IsCounted-trans n n' m m' t t' t'' first second = ground (arith, first, second)

-- The net device is registered and stored, or neither.
abbrev pub StoreEnd : NetDev → ℕ → Bus → List Event → Bus → List Event → Type 0
StoreEnd dev idx bus t bus' t' =
    ((bus' ≡ bus) × IsCounted 0 0 t t') ⊎ ((bus' ≡ store_netdev idx dev bus) × IsCounted 1 0 t t')

pub channels_there-empty : (n : ℕ) → channels_there (replicate n none) ≡ 0
channels_there-empty zero = refl
channels_there-empty (suc n) = channels_there-empty n
