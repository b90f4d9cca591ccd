-- ===== src/Bus/Channels.antt =====
-- The array of net devices and the reply list of canguru-msg-net.c and linguru-msg-net.c: what the
-- handlers of received messages rely on.
use can_guru.Base.{
  zero, suc, Bool, ℕ, ◌<◌, ◌≡◌, refl, subst, sym, ap, ◌∙◌, inl, inr, ==_iff, ◌==◌, Bool-cases,
  Option, none, some, List, [], ◌∷◌, get_elem?, set, get_elem?-set_self, get_elem?-set_ne,
  get_elem?-lt, All, All-map, arith,
}
use can_guru.State.{NetDev, Bus, Stats}
use can_guru.Bus.{store_netdev}

-- A net device stands at the index.
abbrev pub IsChannel : List (Option NetDev) → ℕ → Type 0
IsChannel devs i = (dev : NetDev) × (get_elem? devs i ≡ some (some dev))

-- Every channel that the bus counts is there, and so is every channel that waits for an answer.
pub record IsBus (b : Bus) : Type 0 where
  pub channels : (i : ℕ) → i < b.iface_count → IsChannel b.netdevs i
  pub waiting : All (IsChannel b.netdevs) b.send_reply_list

IsChannel-set :
    (devs : List (Option NetDev)) (i j : ℕ) (dev : NetDev)
    → IsChannel devs i
    → IsChannel devs j
    → IsChannel (set devs i (some dev)) j
IsChannel-set devs i j dev (old, here) (other, there) = elim (Bool-cases (i == j)) [
  | inl same ↦ (
    dev,
    ap (get_elem? (set devs i (some dev))) (sym ((==_iff i j).0 same))
        ∙ get_elem?-set_self devs i (some dev) (get_elem?-lt devs i (some old) here),
  )
  | inr differ ↦
      (other, get_elem?-set_ne devs i j (some dev) (λ e. ground (arith, differ, e)) ∙ there)
]

-- A net device that is written back stays a channel, and so do the others.
pub store_netdev-IsBus :
    (b : Bus) (i : ℕ) (dev : NetDev)
    → IsChannel b.netdevs i
    → IsBus b
    → IsBus (store_netdev i dev b)
store_netdev-IsBus b i dev here h = record {
  channels = λ j lt. IsChannel-set b.netdevs i j dev here (h.channels j lt);
  waiting =
      All-map (IsChannel b.netdevs) (IsChannel (set b.netdevs i (some dev)))
        (λ j there. IsChannel-set b.netdevs i j dev here there) b.send_reply_list h.waiting;
}

-- The list may lose an entry.
pub IsBus-tail :
    (b : Bus) (reply : ℕ) (rest : List ℕ)
    → b.send_reply_list ≡ reply ∷ rest
    → IsBus b
    → IsChannel b.netdevs reply × IsBus (record b { send_reply_list = rest })
IsBus-tail b reply rest e h =
    let all : All (IsChannel b.netdevs) (reply ∷ rest) =
      subst (λ (l : List ℕ). All (IsChannel b.netdevs) l) e h.waiting in
    (all.0, record { channels = h.channels; waiting = all.1 })

-- Channel `reply` has new counters and no longer waits.
abbrev pub answered_bus : ℕ → List ℕ → NetDev → Stats → Bus → Bus
answered_bus reply rest priv stats bus =
    record (store_netdev reply (record priv { stats = stats }) bus) { send_reply_list = rest }

pub answered_bus-IsBus :
    (b : Bus) (reply : ℕ) (rest : List ℕ) (priv : NetDev) (stats : Stats)
    → get_elem? b.netdevs reply ≡ some (some priv)
    → IsBus (record b { send_reply_list = rest })
    → IsBus (answered_bus reply rest priv stats b)
answered_bus-IsBus b reply rest priv stats found left =
    store_netdev-IsBus (record b { send_reply_list = rest }) reply (record priv { stats = stats })
      (priv, found) left

-- What stays of a net device: its pointer, and whether it takes answers.
abbrev pub key : Option NetDev → Option (ℕ × Bool)
key none = none
key (some dev) = some (dev.handle, dev.has_reply_callback)

abbrev pub keys : List (Option NetDev) → List (Option (ℕ × Bool))
keys [] = []
keys (dev ∷ devs) = key dev ∷ keys devs

pub get_elem?-keys :
    (devs : List (Option NetDev)) (i : ℕ) (dev : NetDev)
    → get_elem? devs i ≡ some (some dev)
    → get_elem? (keys devs) i ≡ some (some (dev.handle, dev.has_reply_callback))
get_elem?-keys [] i dev h = ground arith
get_elem?-keys (x ∷ xs) zero dev h = ground (arith, h)
get_elem?-keys (x ∷ xs) (suc i) dev h = get_elem?-keys xs i dev h

pub keys-store :
    (devs : List (Option NetDev)) (i : ℕ) (dev : NetDev) (stats : Stats)
    → get_elem? devs i ≡ some (some dev)
    → keys (set devs i (some (record dev { stats = stats }))) ≡ keys devs
keys-store [] i dev stats h = refl
keys-store (x ∷ xs) zero dev stats h = ground (arith, h)
keys-store (x ∷ xs) (suc i) dev stats h =
    ap (λ (l : List (Option (ℕ × Bool))). key x ∷ l) (keys-store xs i dev stats h)
