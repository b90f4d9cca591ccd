-- ===== src/Registry.antt =====
-- The registrations of a device taken together: guru-msg-std.c, canguru-msg-net.c and
-- linguru-msg-net.c.
use can_guru.Base.{refl, ℕ, ◌≡◌, subst, sym, Option, List, [], ◌∷◌, ◌++◌, arith}
use can_guru.Kernel.{Kernel, Ends, ◌>>=◌}
use can_guru.Kernel.Types.{Event}
use can_guru.State.{Device, GuruMsg}
use can_guru.Messages.{guru_msg_std_init}
use can_guru.Messages.Std.{std_message, guru_msg_std_init-registers}
use can_guru.CanMessages.{canguru_msg_net_init}
use can_guru.CanMessages.Registration.{can_messages, canguru_msg_net_init-registers}
use can_guru.LinMessages.{linguru_msg_net_init}
use can_guru.LinMessages.Registration.{lin_messages, linguru_msg_net_init-registers}
use can_guru.Dispatch.Routing.{Distinct}

pub all-Distinct : Distinct (std_message ∷ (can_messages ++ lin_messages))
all-Distinct = omega arith

-- These messages, in this order, and no identifier twice.
abbrev pub IsRegistry : List GuruMsg → Type 0
IsRegistry ms = (ms ≡ std_message ∷ (can_messages ++ lin_messages)) × Distinct ms

-- The three registrations of a BusKit, one after the other, list the standard, the CAN and the LIN
-- messages, in this order and each
-- identifier once, whatever the number of channels.
pub mbus-IsRegistry :
    (k : Kernel) (d : Device) (t : List Event) (cans lins : ℕ) (volt : Option ℕ)
    → d.guru.msg_list ≡ []
    → Ends
        (λ _ d' _. IsRegistry d'.guru.msg_list)
        ((guru_msg_std_init >>= λ _.
            canguru_msg_net_init cans >>= λ _. linguru_msg_net_init lins volt)
          k d t)
mbus-IsRegistry k d t cans lins volt e =
    rw (guru_msg_std_init-registers k d t, ◌>>=◌)
      (rw (canguru_msg_net_init-registers, ◌>>=◌)
        (rw linguru_msg_net_init-registers (
          subst
            (λ (ms : List GuruMsg).
              IsRegistry (((ms ++ (std_message ∷ [])) ++ can_messages) ++ lin_messages))
            (sym e) (refl, all-Distinct))))
