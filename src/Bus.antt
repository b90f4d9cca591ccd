-- ===== src/Bus.antt =====
-- What the CAN and the LIN side share: the array of net devices behind pointers, and the list of
-- replies that wait for the device's answer.
pub mod Channels
pub mod Counting
pub mod Registrations
pub mod Transmission
use can_guru.Base.{
  [], ℕ, ◌==◌, if◌then◌else◌, Bool, true, false, Option, none, some, List, ◌∷◌, ◌++◌, get_elem?,
  set,
}
use can_guru.Kernel.{M, ◌>>=◌, pure, raise, get, modify, zoom}
use can_guru.Kernel.{null_deref, out_of_bounds, list_corrupt}
use can_guru.State.{Bus, NetDev}

-- Reading through `netdev[i]`.
abbrev pub deref : Option (Option NetDev) → M Bus NetDev
deref none = raise out_of_bounds
deref (some none) = raise null_deref
deref (some (some dev)) = pure dev

abbrev pub netdev_at : ℕ → M Bus NetDev
netdev_at i = do bus ← get; deref (get_elem? bus.netdevs i)

abbrev pub store_netdev : ℕ → NetDev → Bus → Bus
store_netdev i dev bus = record bus { netdevs = set bus.netdevs i (some dev) }

-- A function on net device `i`, in place.
abbrev pub at_netdev : {A : Type 0} → ℕ → M NetDev A → M Bus A
at_netdev i m = do dev ← netdev_at i; zoom (λ _. dev) (store_netdev i) m

abbrev pub contains : ℕ → List ℕ → Bool
contains x [] = false
contains x (y ∷ ys) = if x == y then true else contains x ys

-- canguru_wait_send_reply and linguru_wait_send_reply: list_add_tail. A node that is linked already
-- must not be added again.
abbrev pub wait_send_reply : ℕ → M Bus (Unit {0})
wait_send_reply reply = do
  bus ← get
  if contains reply bus.send_reply_list
      then raise list_corrupt
      else modify (λ b. record b { send_reply_list = b.send_reply_list ++ (reply ∷ []) })
