-- ===== src/Devices/Registered.antt =====
-- Every net device that stands in an array was registered: the loops of the *_dev_init functions.
use can_guru.Base.{
  ℕ, zero, suc, ◌+◌, ◌<◌, ◌≤◌, ◌≡◌, ◌∙◌, refl, ap, inl, inr, Option, none, some, List, [], ◌∷◌,
  get_elem?, set, get_elem?-set_ne, replicate, ℤ, arith,
}
use can_guru.Kernel.{Kernel, IsKernel, M, Ends, Ends-bind}
use can_guru.Kernel.Types.{Event}
use can_guru.State.{NetDev, Bus}
use can_guru.CanChannel.{canguru_net_create}
use can_guru.CanChannel.Creation.{canguru_net_create-StoreEnd}
use can_guru.LinNet.{linguru_net_create}
use can_guru.LinNet.Lifecycle.{linguru_net_create-StoreEnd}
use can_guru.Bus.Registrations.{StoreEnd, channels_there, channels_there-empty, IsCounted}
use can_guru.Devices.{each_channel}

channels_there-set :
    (devs : List (Option NetDev)) (i : ℕ) (dev : NetDev)
    → get_elem? devs i ≡ some none
    → channels_there (set devs i (some dev)) ≡ suc (channels_there devs)
channels_there-set [] i dev e = ground (arith, e)
channels_there-set (x ∷ devs) zero dev e = ground (arith, e)
channels_there-set (none ∷ devs) (suc i) dev e = channels_there-set devs i dev e
channels_there-set (some other ∷ devs) (suc i) dev e = ap suc (channels_there-set devs i dev e)

abbrev empty_place : Option NetDev
empty_place = none

get_elem?-empty : (n i : ℕ) → i < n → get_elem? (replicate n (empty_place)) i ≡ some none
get_elem?-empty zero i h = absurd (omega (arith, h))
get_elem?-empty (suc n) zero h = refl
get_elem?-empty (suc n) (suc i) h = get_elem?-empty n i (omega (arith, h))

-- As many were registered as stand in the array, and the entries from `idx` on are NULL.
record IsPartial (n idx : ℕ) (t : List Event) (bus : Bus) (t' : List Event) : Type 0 where
  counted : IsCounted (channels_there bus.netdevs) 0 t t'
  empty : (i : ℕ) → idx ≤ i → i < n → get_elem? bus.netdevs i ≡ some none

module _ (k : Kernel) (n : ℕ) (t : List Event) (f : ℕ → M Bus ℤ)
    (stores : (idx : ℕ) (bus : Bus) (u : List Event)
      → (dev : NetDev) × Ends (λ _ bus' u'. StoreEnd dev idx bus u bus' u') (f idx k bus u)) where
  turn-IsPartial :
      (dev : NetDev) (idx : ℕ) (bus bus' : Bus) (u u' : List Event)
      → idx < n
      → IsPartial n idx t bus u
      → StoreEnd dev idx bus u bus' u'
      → IsPartial n (suc idx) t bus' u'
  turn-IsPartial dev idx bus bus' u u' room h (inl (same, none_more)) = record {
    counted = ground (arith, same, none_more, h.counted);
    empty = λ i above below.
        ap (λ (b : Bus). get_elem? b.netdevs i) same ∙ h.empty i (omega (arith, above)) below;
  }
  turn-IsPartial dev idx bus bus' u u' room h (inr (stored, one_more)) = record {
    counted = ground (
      arith,
      stored,
      one_more,
      h.counted,
      channels_there-set bus.netdevs idx dev (h.empty idx (omega arith) room),
    );
    empty = λ i above below.
        ap (λ (b : Bus). get_elem? b.netdevs i) stored
        ∙ (get_elem?-set_ne bus.netdevs idx i (some dev) (λ e. omega (arith, e, above))
            ∙ h.empty i (omega (arith, above)) below);
  }

  loop-IsPartial :
      (left idx : ℕ) (bus : Bus) (u : List Event)
      → idx + left ≤ n
      → IsPartial n idx t bus u
      → Ends
          (λ _ bus' u'. IsCounted (channels_there bus'.netdevs) 0 t u')
          (each_channel left idx f k bus u)
  unfolding each_channel
  loop-IsPartial zero idx bus u room h = h.counted
  loop-IsPartial (suc left) idx bus u room h =
      let (dev, stored) = stores idx bus u in
      Ends-bind (λ _ bus' u'. StoreEnd dev idx bus u bus' u')
        (λ _ bus' u'. IsCounted (channels_there bus'.netdevs) 0 t u') (f idx)
        (λ _. each_channel left (suc idx) f) k bus u stored
        (λ _ bus' u' ends.
          loop-IsPartial left (suc idx) bus' u' (omega (arith, room))
            (turn-IsPartial dev idx bus bus' u u' (omega (arith, room)) h ends))

-- The loops on an array without channels.
module _ (k : Kernel) (kernel : IsKernel k) (n : ℕ) (bus : Bus) (t : List Event)
    (empty : bus.netdevs ≡ replicate n none) where
  start : IsPartial n 0 t bus t
  start = record {
    counted = ground (arith, empty, channels_there-empty n);
    empty = λ i above below.
        ap (λ (l : List (Option NetDev)). get_elem? l i) empty ∙ get_elem?-empty n i below;
  }

  pub canguru_net_creates-IsCounted :
      Ends
        (λ _ bus' t'. IsCounted (channels_there bus'.netdevs) 0 t t')
        (each_channel n 0 canguru_net_create k bus t)
  canguru_net_creates-IsCounted =
      loop-IsPartial k n t canguru_net_create
        (λ idx b u. (_, canguru_net_create-StoreEnd k idx b u kernel)) n 0 bus t (omega arith) start

  pub linguru_net_creates-IsCounted :
      Ends
        (λ _ bus' t'. IsCounted (channels_there bus'.netdevs) 0 t t')
        (each_channel n 0 linguru_net_create k bus t)
  linguru_net_creates-IsCounted =
      loop-IsPartial k n t linguru_net_create
        (λ idx b u. (_, linguru_net_create-StoreEnd k idx b u kernel)) n 0 bus t (omega arith) start
