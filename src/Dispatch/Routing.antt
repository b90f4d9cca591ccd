-- ===== src/Dispatch/Routing.antt =====
-- Which callbacks a received message reaches.
use can_guru.Base.{
  ℕ, ◌≡◌, ◌≢◌, refl, true, false, ◌==◌, Option, none, some, List, [], ◌∷◌, if◌then◌else◌, ap, subst,
  ==_iff, take, drop, Bool-cases, inl, inr, arith,
}
use can_guru.Kernel.{M, Kernel, Res, ok, fault, ◌>>=◌, ◌>>◌, pure, modify}
use can_guru.Kernel.Types.{Event}
use can_guru.State.{Device, GuruMsg}
use can_guru.Dispatch.{
  deliver, deliver_all, set_curr_msg, packet_id, packet_data_count, canguru_process_msg_list,
}

abbrev pub Absent : ℕ → List GuruMsg → Type 0
Absent id [] = Unit {0}
Absent id (m ∷ ms) = (m.msg_id ≢ id) × Absent id ms

-- No identifier is registered twice.
abbrev pub Distinct : List GuruMsg → Type 0
Distinct [] = Unit {0}
Distinct (m ∷ ms) = Absent m.msg_id ms × Distinct ms

-- The message that is registered for an identifier.
abbrev pub registered : ℕ → List GuruMsg → Option GuruMsg
registered id [] = none
registered id (m ∷ ms) = if m.msg_id == id then some m else registered id ms

abbrev pub deliver_to : Option GuruMsg → ℕ → ℕ → M Device (Unit {0})
deliver_to none id data_count = pure tt
deliver_to (some m) id data_count = deliver id data_count m

deliver-other :
    (k : Kernel) (d : Device) (t : List Event) (id data_count : ℕ) (m : GuruMsg)
    → (m.msg_id == id) ≡ false
    → deliver id data_count m k d t ≡ ok tt d t
unfolding deliver
deliver-other k d t id data_count m h = rw h

deliver_all-Absent :
    (k : Kernel) (d : Device) (t : List Event) (id data_count : ℕ) (ms : List GuruMsg)
    → Absent id ms
    → deliver_all id data_count ms k d t ≡ ok tt d t
unfolding deliver_all
deliver_all-Absent k d t id data_count [] a = refl
deliver_all-Absent k d t id data_count (m ∷ ms) a =
    rw (deliver-other k d t id data_count m (ground arith), deliver_all, ◌>>=◌)
      (deliver_all-Absent k d t id data_count ms a.1)

after_deliver :
    (k : Kernel) (r : Res Device (Unit {0})) (id data_count : ℕ) (ms : List GuruMsg)
    → Absent id ms
    → elim r [ ok a d' t' ↦ deliver_all id data_count ms k d' t' | fault e ↦ fault e ] ≡ r
after_deliver k (ok _ d t) id data_count ms a = deliver_all-Absent k d t id data_count ms a
after_deliver k (fault e) id data_count ms a = refl

Absent-eq : (a b : ℕ) (ms : List GuruMsg) → (a == b) ≡ true → Absent a ms → Absent b ms
Absent-eq a b ms h x = subst (λ (i : ℕ). Absent i ms) ((==_iff a b).0 h) x

pub deliver_all-registered :
    (k : Kernel) (d : Device) (t : List Event) (id data_count : ℕ) (ms : List GuruMsg)
    → Distinct ms
    → deliver_all id data_count ms k d t ≡ deliver_to (registered id ms) id data_count k d t
unfolding deliver_all
deliver_all-registered k d t id data_count [] h = refl
deliver_all-registered k d t id data_count (m ∷ ms) h = elim (Bool-cases (m.msg_id == id)) [
  | inl hit ↦ rw hit (
      after_deliver k (deliver id data_count m k d t) id data_count ms
        (Absent-eq m.msg_id id ms hit h.0))
  | inr miss ↦
      rw (miss, deliver-other k d t id data_count m miss, deliver_all, ◌>>=◌)
        (deliver_all-registered k d t id data_count ms h.1)
]

-- Where no identifier is registered twice, a received packet reaches the one message that is
-- registered for its identifier, with the packet's data as the current message, and none if there
-- is no such message; afterwards there is no current message.
pub canguru_process_msg_list-routes :
    (k : Kernel) (d : Device) (t : List Event) (msg : List ℕ)
    → Distinct d.guru.msg_list
    → canguru_process_msg_list msg k d t
      ≡ (deliver_to
              (registered (packet_id msg) d.guru.msg_list)
              (packet_id msg)
              (packet_data_count msg)
            >> modify (set_curr_msg none 0 0))
          k
          (set_curr_msg (some (take 123 (drop 5 msg))) (packet_data_count msg) (packet_id msg) d)
          t
unfolding canguru_process_msg_list
canguru_process_msg_list-routes k d t msg h =
    ap
      (λ (r : Res Device (Unit {0})). elim r [
        | ok _ d' t' ↦ ok tt (set_curr_msg none 0 0 d') t'
        | fault e ↦ fault e
      ])
      (deliver_all-registered k
        (set_curr_msg (some (take 123 (drop 5 msg))) (packet_data_count msg) (packet_id msg) d) t
        (packet_id msg) (packet_data_count msg) d.guru.msg_list h)
