-- ===== src/Devices/Creation.antt =====
-- Creating the channels of a device: canguru_net_create and linguru_net_create for every index.
use can_guru.Base.{
  ℕ, zero, suc, ◌+◌, ◌<◌, ◌≤◌, ◌≡◌, ◌==◌, ==_iff, refl, sym, ap, ◌∙◌, subst, inl, inr, Bool-cases,
  true, Option, none, some, List, length, length-set, replicate, length-replicate, get_elem?, set,
  get_elem?-set_self, get_elem?-set_ne, ℤ, arith,
}
use can_guru.Kernel.{Kernel, IsKernel, M, Ends, Ends-map, Ends-bind, pointer}
use can_guru.Kernel.Types.{Event, alloc_candev}
use can_guru.State.{NetDev, Bus}
use can_guru.Bus.{store_netdev}
use can_guru.CanChannel.{new_channel, canguru_net_create}
use can_guru.CanChannel.Creation.{CreateEnd, canguru_net_create-CreateEnd}
use can_guru.LinNet.{linguru_net_create}
use can_guru.LinNet.Lifecycle.{named_lin_channel, LinCreateEnd, linguru_net_create-LinCreateEnd}
use can_guru.Devices.{each_channel}

-- Every net device that is there has the number of its place, and takes answers.
pub record IsPlaced (devs : List (Option NetDev)) : Type 0 where
  pub placed :
      (i : ℕ) (dev : NetDev)
      → get_elem? devs i ≡ some (some dev)
      → (dev.channel_idx ≡ i) × (dev.has_reply_callback ≡ true)

get_elem?-replicate-none :
    (n i : ℕ) (dev : NetDev) → get_elem? (replicate n none) i ≡ some (some dev) → ⊥
get_elem?-replicate-none zero i dev e = ground (arith, e)
get_elem?-replicate-none (suc n) zero dev e = ground (arith, e)
get_elem?-replicate-none (suc n) (suc i) dev e = get_elem?-replicate-none n i dev e

pub replicate-IsPlaced : (n : ℕ) → IsPlaced (replicate n none)
replicate-IsPlaced n = record { placed = λ i dev e. absurd (get_elem?-replicate-none n i dev e) }

set-IsPlaced :
    (devs : List (Option NetDev)) (idx : ℕ) (dev : NetDev)
    → idx < length devs
    → dev.channel_idx ≡ idx
    → dev.has_reply_callback ≡ true
    → IsPlaced devs
    → IsPlaced (set devs idx (some dev))
set-IsPlaced devs idx dev room own takes h = record {
  placed = λ i other e. elim (Bool-cases (idx == i)) [
    | inl same ↦
        (let here : get_elem? (set devs idx (some dev)) i ≡ some (some dev) =
            ap (get_elem? (set devs idx (some dev))) (sym ((==_iff idx i).0 same))
            ∙ get_elem?-set_self devs idx (some dev) room in
          let eq = (==_iff idx i).0 same in ground (arith, here, e, own, takes, eq))
    | inr differ ↦
        h.placed i other
          (sym (get_elem?-set_ne devs idx i (some dev) (λ x. ground (arith, differ, x))) ∙ e)
  ];
}

-- The array keeps its length and its places; the rest of the bus stays.
pub record IsFilled (n : ℕ) (start bus : Bus) : Type 0 where
  pub size : length bus.netdevs ≡ n
  pub places : IsPlaced bus.netdevs
  pub same_count : bus.iface_count ≡ start.iface_count
  pub same_list : bus.send_reply_list ≡ start.send_reply_list
  pub same_volt : bus.meas_volt_dev ≡ start.meas_volt_dev

store-IsFilled :
    (n idx : ℕ) (start bus : Bus) (dev : NetDev)
    → idx < n
    → dev.channel_idx ≡ idx
    → dev.has_reply_callback ≡ true
    → IsFilled n start bus
    → IsFilled n start (store_netdev idx dev bus)
store-IsFilled n idx start bus dev room own takes h = record {
  size = length-set bus.netdevs idx (some dev) ∙ h.size;
  places = set-IsPlaced bus.netdevs idx dev (omega (arith, room, h.size)) own takes h.places;
  same_count = h.same_count;
  same_list = h.same_list;
  same_volt = h.same_volt;
}

empty-IsFilled : (n : ℕ) (bus : Bus) → bus.netdevs ≡ replicate n none → IsFilled n bus bus
empty-IsFilled n bus empty = record {
  size = ap length empty ∙ length-replicate n none;
  places = subst IsPlaced (sym empty) (replicate-IsPlaced n);
  same_count = refl;
  same_list = refl;
  same_volt = refl;
}

module _ (k : Kernel) (kernel : IsKernel k) (n : ℕ) (start : Bus) where
  canguru_net_create-IsFilled :
      (idx : ℕ) (bus : Bus) (t : List Event)
      → idx < n
      → IsFilled n start bus
      → Ends (λ _ bus' _. IsFilled n start bus') (canguru_net_create idx k bus t)
  canguru_net_create-IsFilled idx bus t room h =
      Ends-map (CreateEnd handle idx bus t) (λ _ bus' _. IsFilled n start bus')
        (canguru_net_create idx k bus t)
        (λ err bus' t' ends. elim ends [
          | inl (_, _, same, _, _, _) ↦ subst (IsFilled n start) (sym same) h
          | inr (inl (_, _, stored, _, _, _, _)) ↦ subst (IsFilled n start) (sym stored) (
              store-IsFilled n idx start bus (record (new_channel handle idx) { iff_echo = true })
                room refl refl h)
          | inr (inr (_, _, same, _, _, _, _)) ↦ subst (IsFilled n start) (sym same) h
        ])
        (canguru_net_create-CreateEnd k bus t idx kernel)
    where
      handle : ℕ
      handle = pointer (k.reply t alloc_candev)

  linguru_net_create-IsFilled :
      (idx : ℕ) (bus : Bus) (t : List Event)
      → idx < n
      → IsFilled n start bus
      → Ends (λ _ bus' _. IsFilled n start bus') (linguru_net_create idx k bus t)
  linguru_net_create-IsFilled idx bus t room h =
      Ends-map (LinCreateEnd handle idx bus t) (λ _ bus' _. IsFilled n start bus')
        (linguru_net_create idx k bus t)
        (λ err bus' t' ends. elim ends [
          | inl (_, _, same, _, _, _) ↦ subst (IsFilled n start) (sym same) h
          | inr (inl (_, _, stored, _, _, _, _)) ↦
              subst (IsFilled n start) (sym stored)
                (store-IsFilled n idx start bus (named_lin_channel handle idx) room refl refl h)
          | inr (inr (_, _, same, _, _, _, _)) ↦ subst (IsFilled n start) (sym same) h
        ])
        (linguru_net_create-LinCreateEnd k bus t idx kernel)
    where
      handle : ℕ
      handle = pointer (k.reply t alloc_candev)

  -- The loop, for a function that keeps the array at every index.
  loop-IsFilled :
      (f : ℕ → M Bus ℤ) (left idx : ℕ) (bus : Bus) (t : List Event)
      → ((i : ℕ) (b : Bus) (u : List Event)
          → i < n
          → IsFilled n start b
          → Ends (λ _ b' _. IsFilled n start b') (f i k b u))
      → idx + left ≤ n
      → IsFilled n start bus
      → Ends (λ _ bus' _. IsFilled n start bus') (each_channel left idx f k bus t)
  unfolding each_channel
  loop-IsFilled f zero idx bus t keeps room h = h
  loop-IsFilled f (suc left) idx bus t keeps room h =
      Ends-bind (λ _ bus' _. IsFilled n start bus') (λ _ bus' _. IsFilled n start bus') (f idx)
        (λ _. each_channel left (suc idx) f) k bus t (keeps idx bus t (omega (arith, room)) h)
        (λ _ bus' t' h'. loop-IsFilled f left (suc idx) bus' t' keeps (omega (arith, room)) h')

  pub canguru_net_creates-IsFilled :
      (t : List Event)
      → start.netdevs ≡ replicate n none
      → Ends (λ _ bus' _. IsFilled n start bus') (each_channel n 0 canguru_net_create k start t)
  canguru_net_creates-IsFilled t empty =
      loop-IsFilled canguru_net_create n 0 start t canguru_net_create-IsFilled (omega arith)
        (empty-IsFilled n start empty)

  pub linguru_net_creates-IsFilled :
      (t : List Event)
      → start.netdevs ≡ replicate n none
      → Ends (λ _ bus' _. IsFilled n start bus') (each_channel n 0 linguru_net_create k start t)
  linguru_net_creates-IsFilled t empty =
      loop-IsFilled linguru_net_create n 0 start t linguru_net_create-IsFilled (omega arith)
        (empty-IsFilled n start empty)
