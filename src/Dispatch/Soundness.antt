-- ===== src/Dispatch/Soundness.antt =====
-- guru-device.c: any packet of the device, and the state that the handlers leave.
use can_guru.Base.{
  [], ℕ, ◌≡◌, ◌≢◌, ◌≤◌, ◌⊎◌, refl, ap, sym, subst, ◌∙◌, inl, inr, ==_iff, Bool-cases, ◌||◌, ◌==◌,
  Option, none, some, List, ◌∷◌, length, take, drop, length-take, length-drop, byte_at, All, arith,
}
use can_guru.Kernel.{Kernel, IsKernel, Ends, modify}
use can_guru.Kernel.Types.{Event}
use can_guru.MsgIds.{guru_msg_get_version, lin_msg_recv}
use can_guru.State.{
  Device, GuruDevice, GuruMsg, Callback, msg_std_fw_version, can_status, can_send, can_recv,
  lin_status, lin_send, lin_recv, lin_volt,
}
use can_guru.Bus.Channels.{IsBus}
use can_guru.Messages.Handlers.{IsMessage, Keeps, status_callback-Keeps, std_fw_version-Keeps}
use can_guru.CanMessages.Handlers.{can_send_callback-Keeps, canguru_recv_callback-Keeps}
use can_guru.LinMessages.Handlers.{
  linguru_status_callback-Keeps, lin_send_callback-Keeps, linguru_recv_callback-Keeps,
  linguru_volt_callback-Keeps,
}
use can_guru.Dispatch.Routing.{Distinct}
use can_guru.Dispatch.{
  invoke, run_callback, is_variable, deliver, deliver_all, set_curr_msg, packet_id,
  packet_data_count, canguru_process_msg_list,
}
use can_guru.Kernel.Safe.{Safe, Safe-bind, Safe-map, Ends-Safe}

-- A callback that trusts a length is registered for one identifier only.
abbrev pub IsProperCallback : Option Callback → ℕ → Type 0
IsProperCallback (some msg_std_fw_version) id = id ≡ guru_msg_get_version
IsProperCallback (some lin_recv) id = id ≡ lin_msg_recv
IsProperCallback callback id = Unit {0}

abbrev pub IsProper : GuruMsg → Type 0
IsProper m = IsProperCallback m.callback m.msg_id

-- The bytes behind a packet's header.
abbrev pub message_data : List ℕ → List ℕ
message_data msg = take 123 (drop 5 msg)

-- A packet whose version text and whose LIN length the driver can hold.
pub record IsBounded (msg : List ℕ) : Type 0 where
  pub version_fits : (packet_id msg ≢ guru_msg_get_version) ⊎ (packet_data_count msg ≤ 32)
  pub lin_fits : (packet_id msg ≢ lin_msg_recv) ⊎ (byte_at (message_data msg) 6 ≤ 8)

pub record IsDevice (d : Device) : Type 0 where
  pub can_lem : IsBus d.can_bus
  pub lin_lem : IsBus d.lin_bus
  pub proper : All IsProper d.guru.msg_list

-- A sound device on which no identifier is registered twice.
abbrev pub IsReceiving : Device → Type 0
IsReceiving d = IsDevice d × Distinct d.guru.msg_list

Keeps-trans : (a b c : Device) → Keeps a b → Keeps b c → Keeps a c
Keeps-trans a b c p q = record {
  same_guru = q.same_guru ∙ p.same_guru;
  can_lem = q.can_lem;
  lin_lem = q.lin_lem;
}

IsMessage-Keeps :
    (d d' : Device) (bytes : List ℕ) → Keeps d d' → IsMessage d bytes → IsMessage d' bytes
IsMessage-Keeps d d' bytes kept msg = record {
  current = ap (λ (g : GuruDevice). g.curr_msg_data) kept.same_guru ∙ msg.current;
  whole = msg.whole;
}

module _ (k : Kernel) (kernel : IsKernel k) (msg : List ℕ) (bounded : IsBounded msg) where
  -- What the handlers find while the packet is processed.
  pub record IsServed (d : Device) : Type 0 where
    pub can : IsBus d.can_bus
    pub lin : IsBus d.lin_bus
    pub message : IsMessage d (message_data msg)
    pub size : d.guru.curr_msg_data_size ≡ packet_data_count msg

  IsServed-Keeps : (d d' : Device) → Keeps d d' → IsServed d → IsServed d'
  IsServed-Keeps d d' kept s = record {
    can = kept.can_lem;
    lin = kept.lin_lem;
    message = IsMessage-Keeps d d' (message_data msg) kept s.message;
    size = ap (λ (g : GuruDevice). g.curr_msg_data_size) kept.same_guru ∙ s.size;
  }

  IsServed-refl : (d : Device) → IsServed d → Keeps d d
  IsServed-refl d s = record { same_guru = refl; can_lem = s.can; lin_lem = s.lin }

  kept :
      (d : Device) (t : List Event) (callback : Option Callback)
      → Ends (λ _ d' _. Keeps d d') (run_callback callback k d t)
      → Safe k (λ _ d' _. Keeps d d') (run_callback callback k d t)
  kept d t callback = Ends-Safe k (λ _ d' _. Keeps d d') (run_callback callback k d t)

  pub run_callback-Keeps :
      (d : Device) (t : List Event) (callback : Option Callback)
      → IsServed d
      → IsProperCallback callback (packet_id msg)
      → Safe k (λ _ d' _. Keeps d d') (run_callback callback k d t)
  unfolding invoke
  run_callback-Keeps d t none s p = IsServed-refl d s
  run_callback-Keeps d t (some msg_std_fw_version) s p = kept d t (some msg_std_fw_version) (
      std_fw_version-Keeps k d t (message_data msg) s.can s.lin s.message
        (ground (arith, bounded.version_fits, s.size)))
  run_callback-Keeps d t (some can_status) s p =
      kept d t (some can_status)
        (status_callback-Keeps k d t (message_data msg) s.can s.lin s.message)
  run_callback-Keeps d t (some can_send) s p =
      kept d t (some can_send)
        (can_send_callback-Keeps k d t (message_data msg) s.can s.lin s.message)
  run_callback-Keeps d t (some can_recv) s p =
      canguru_recv_callback-Keeps k d t (message_data msg) kernel s.can s.lin s.message
  run_callback-Keeps d t (some lin_status) s p =
      kept d t (some lin_status)
        (linguru_status_callback-Keeps k d t (message_data msg) s.can s.lin s.message)
  run_callback-Keeps d t (some lin_send) s p =
      kept d t (some lin_send)
        (lin_send_callback-Keeps k d t (message_data msg) s.lin s.can s.message)
  run_callback-Keeps d t (some lin_recv) s p =
      linguru_recv_callback-Keeps k d t (message_data msg) kernel s.lin s.can s.message
        (ground (arith, bounded.lin_fits))
  run_callback-Keeps d t (some lin_volt) s p =
      kept d t (some lin_volt)
        (linguru_volt_callback-Keeps k d t (message_data msg) s.can s.lin s.message)

  deliver-Keeps :
      (d : Device) (t : List Event) (item : GuruMsg)
      → IsServed d
      → IsProper item
      → Safe k (λ _ d' _. Keeps d d') (deliver (packet_id msg) (packet_data_count msg) item k d t)
  unfolding deliver
  deliver-Keeps d t item s p = elim (Bool-cases (item.msg_id == packet_id msg)) [
    | inr other ↦ rw other (IsServed-refl d s)
    | inl mine ↦
        elim (Bool-cases
          (item.data_count == packet_data_count msg || is_variable item.size_restriction)) [
            | inl fits ↦
                rw (mine, fits)
                  (run_callback-Keeps d t item.callback s (
                    subst (IsProperCallback item.callback)
                      ((==_iff item.msg_id (packet_id msg)).0 mine) p))
            | inr wrong ↦ rw (mine, wrong) (IsServed-refl d s)
          ]
  ]

  deliver_all-Keeps :
      (d : Device) (t : List Event) (items : List GuruMsg)
      → IsServed d
      → All IsProper items
      → Safe k
          (λ _ d' _. Keeps d d')
          (deliver_all (packet_id msg) (packet_data_count msg) items k d t)
  unfolding deliver_all
  deliver_all-Keeps d t [] s p = IsServed-refl d s
  deliver_all-Keeps d t (item ∷ items) s p =
      Safe-bind (λ _ d' _. Keeps d d') (λ _ d' _. Keeps d d')
        (deliver (packet_id msg) (packet_data_count msg) item)
        (λ _. deliver_all (packet_id msg) (packet_data_count msg) items) k d t
        (deliver-Keeps d t item s p.0)
        (λ _ d' t' kept.
          Safe-map k (λ _ d'' _. Keeps d' d'') (λ _ d'' _. Keeps d d'')
            (deliver_all (packet_id msg) (packet_data_count msg) items k d' t')
            (λ _ d'' _ kept'. Keeps-trans d d' d'' kept kept')
            (deliver_all-Keeps d' t' items (IsServed-Keeps d d' kept s) p.1))

-- The device while the packet is processed.
abbrev pub during : List ℕ → Device → Device
during msg d = set_curr_msg (some (message_data msg)) (packet_data_count msg) (packet_id msg) d

pub during-IsServed :
    (k : Kernel) (kernel : IsKernel k) (msg : List ℕ) (bounded : IsBounded msg) (d : Device)
    → length msg ≡ 128
    → IsDevice d
    → IsServed k kernel msg bounded (during msg d)
during-IsServed k kernel msg bounded d whole sound = record {
  can = sound.can_lem;
  lin = sound.lin_lem;
  message = record {
    current = refl;
    whole = omega (arith, length-take 123 (drop 5 msg), length-drop 5 msg);
  };
  size = refl;
}

-- Processing a packet of a sound device returns and leaves a sound device, whatever the packet
-- holds, if a version text in it has at most 32 bytes and a LIN message in it says at most 8 bytes.
-- The one other end is that NULL is dereferenced, and only on a kernel that at some time refuses a
-- socket buffer, which the driver does not check; no other fault can happen.
pub canguru_process_msg_list-IsDevice :
    (k : Kernel) (d : Device) (t : List Event) (msg : List ℕ)
    → IsKernel k
    → length msg ≡ 128
    → IsBounded msg
    → IsDevice d
    → Safe k (λ _ d' _. IsDevice d') (canguru_process_msg_list msg k d t)
unfolding canguru_process_msg_list
canguru_process_msg_list-IsDevice k d t msg kernel whole bounded sound =
    Safe-bind (λ _ d' _. Keeps (during msg d) d') (λ _ d' _. IsDevice d')
      (deliver_all (packet_id msg) (packet_data_count msg) d.guru.msg_list)
      (λ _. modify (set_curr_msg none 0 0)) k (during msg d) t
      (deliver_all-Keeps k kernel msg bounded (during msg d) t d.guru.msg_list
        (during-IsServed k kernel msg bounded d whole sound) sound.proper)
      (λ _ d' _ kept. record {
        can_lem = kept.can_lem;
        lin_lem = kept.lin_lem;
        proper =
            subst (λ (g : GuruDevice). All IsProper g.msg_list) (sym kept.same_guru) sound.proper;
      })
