-- ===== src/Devices/Removal.antt =====
-- Removing the channels of a device: canguru_dev_deinit, linguru_dev_deinit and mbus_dev_deinit
-- call canguru_net_destroy and linguru_net_destroy for every index.
use can_guru.Base.{
  ℕ, zero, suc, ◌+◌, ◌<◌, ◌≡◌, refl, sym, ap, ◌∙◌, Option, none, some, List, [], ◌∷◌, ◌++◌, length,
  replicate, get_elem?, set, arith,
}
use mathlib.Core.List.{append-nil}
use can_guru.Kernel.{Kernel, M, Fault, Res, ok, fault, null_deref}
use can_guru.Kernel.Types.{Event, done, unregister_candev, free_candev}
use can_guru.State.{NetDev, Bus}
use can_guru.CanChannel.{canguru_net_destroy}
use can_guru.Devices.{each_channel}

-- Channels that all exist.
abbrev pub present : List NetDev → List (Option NetDev)
present [] = []
present (dev ∷ devs) = some dev ∷ present devs

-- Each net device is unregistered and then freed, in the order of the array.
abbrev pub destroy_events : List NetDev → List Event → List Event
destroy_events [] t = t
destroy_events (dev ∷ devs) t =
    destroy_events devs (done (free_candev dev.handle) ∷ done (unregister_candev dev.handle) ∷ t)

abbrev pub with_netdevs : Bus → List (Option NetDev) → Bus
with_netdevs bus devs = record bus { netdevs = devs }

get_elem?-here :
    (n : ℕ) (dev : Option NetDev) (rest : List (Option NetDev))
    → get_elem? (replicate n none ++ (dev ∷ rest)) n ≡ some dev
get_elem?-here zero dev rest = refl
get_elem?-here (suc n) dev rest = get_elem?-here n dev rest

set-here :
    (n : ℕ) (dev : Option NetDev) (rest : List (Option NetDev))
    → set (replicate n none ++ (dev ∷ rest)) n none ≡ replicate (suc n) none ++ rest
set-here zero dev rest = refl
set-here (suc n) dev rest = ap (λ (l : List (Option NetDev)). none ∷ l) (set-here n dev rest)

-- One channel at its turn.
destroy_one :
    (k : Kernel) (bus : Bus) (t : List Event) (idx : ℕ) (dev : NetDev) (rest : List (Option NetDev))
    → canguru_net_destroy idx k (with_netdevs bus (replicate idx none ++ (some dev ∷ rest))) t
      ≡ ok tt
          (with_netdevs bus (replicate (suc idx) none ++ rest))
          (done (free_candev dev.handle) ∷ done (unregister_candev dev.handle) ∷ t)
unfolding canguru_net_destroy
destroy_one k bus t idx dev rest =
    ground (arith, get_elem?-here idx (some dev) rest, set-here idx (some dev) rest)

destroy_none :
    (k : Kernel) (bus : Bus) (t : List Event) (idx : ℕ) (rest : List (Option NetDev))
    → canguru_net_destroy idx k (with_netdevs bus (replicate idx none ++ (none ∷ rest))) t
      ≡ fault null_deref
unfolding canguru_net_destroy
destroy_none k bus t idx rest = ground (arith, get_elem?-here idx none rest)

-- One turn of the loop that ends, and one that faults.
turn_ok :
    (f : ℕ → M Bus (Unit {0})) (k : Kernel) (bus bus' : Bus) (t t' : List Event) (left idx : ℕ)
    → f idx k bus t ≡ ok tt bus' t'
    → each_channel (suc left) idx f k bus t ≡ each_channel left (suc idx) f k bus' t'
unfolding each_channel
turn_ok f k bus bus' t t' left idx e =
    ap
      (λ (r : Res Bus (Unit {0})). elim r [
        | ok _ b u ↦ each_channel left (suc idx) f k b u
        | fault x ↦ fault x
      ])
      e

turn_fault :
    (f : ℕ → M Bus (Unit {0})) (k : Kernel) (bus : Bus) (t : List Event) (left idx : ℕ) (x : Fault)
    → f idx k bus t ≡ fault x
    → each_channel (suc left) idx f k bus t ≡ fault x
unfolding each_channel
turn_fault f k bus t left idx x e =
    ap
      (λ (r : Res Bus (Unit {0})). elim r [
        | ok _ b u ↦ each_channel left (suc idx) f k b u
        | fault y ↦ fault y
      ])
      e

-- From index `idx` on; the entries before it are NULL already.
destroy_from :
    (k : Kernel) (bus : Bus) (t : List Event) (idx n : ℕ) (devs : List NetDev)
    (rest : List (Option NetDev))
    → n ≡ idx + length devs
    → each_channel
        (length devs)
        idx
        canguru_net_destroy
        k
        (with_netdevs bus (replicate idx none ++ (present devs ++ rest)))
        t
      ≡ ok tt (with_netdevs bus (replicate n none ++ rest)) (destroy_events devs t)
unfolding each_channel
destroy_from k bus t idx n [] rest e =
    ap (λ (m : ℕ). ok tt (with_netdevs bus (replicate m none ++ rest)) t) (omega (arith, e))
destroy_from k bus t idx n (dev ∷ devs) rest e =
    turn_ok canguru_net_destroy k _ _ t _ (length devs) idx
      (destroy_one k bus t idx dev (present devs ++ rest))
    ∙ destroy_from k bus (done (free_candev dev.handle) ∷ done (unregister_candev dev.handle) ∷ t)
        (suc idx) n devs rest (omega (arith, e))

-- The removal of a bus on which the channel behind `devs` was never created.
pub destroy_missing :
    (k : Kernel) (bus : Bus) (t : List Event) (idx n : ℕ) (devs : List NetDev)
    (rest : List (Option NetDev))
    → length devs < n
    → each_channel n idx canguru_net_destroy k
        (with_netdevs bus (replicate idx none ++ (present devs ++ (none ∷ rest))))
        t
      ≡ fault null_deref
destroy_missing k bus t idx zero devs rest h = absurd (omega (arith, h))
destroy_missing k bus t idx (suc n) [] rest h =
    turn_fault canguru_net_destroy k _ t n idx null_deref (destroy_none k bus t idx rest)
destroy_missing k bus t idx (suc n) (dev ∷ devs) rest h =
    turn_ok canguru_net_destroy k _ _ t _ n idx
      (destroy_one k bus t idx dev (present devs ++ (none ∷ rest)))
    ∙ destroy_missing k bus
        (done (free_candev dev.handle) ∷ done (unregister_candev dev.handle) ∷ t) (suc idx) n devs
        rest (omega (arith, h))

present-all : (devs : List NetDev) → present devs ++ [] ≡ present devs
present-all [] = refl
present-all (dev ∷ devs) = ap (λ (l : List (Option NetDev)). some dev ∷ l) (present-all devs)

pub destroy_all :
    (k : Kernel) (bus : Bus) (t : List Event) (n : ℕ) (devs : List NetDev)
    → length devs ≡ n
    → bus.netdevs ≡ present devs
    → each_channel n 0 canguru_net_destroy k bus t
      ≡ ok tt (with_netdevs bus (replicate n none)) (destroy_events devs t)
destroy_all k bus t n devs len there =
    rw (sym len, whole)
      (destroy_from k bus t 0 (length devs) devs [] (omega arith)
        ∙ ap (λ (l : List (Option NetDev)). ok tt (with_netdevs bus l) (destroy_events devs t))
            (append-nil (replicate (length devs) none)))
  where
    whole : bus ≡ with_netdevs bus (present devs ++ [])
    whole = ap (with_netdevs bus) (there ∙ sym (present-all devs))
