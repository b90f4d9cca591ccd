-- ===== src/LinMessages/Answers.antt =====
-- The answer of the device to a frame that was sent.
use can_guru.Base.{
  [], ℕ, ◌≡◌, ◌⊎◌, refl, inl, inr, Bool, Bool-cases, true, false, some, List, ◌∷◌, get_elem?, arith,
}
use can_guru.Kernel.{Kernel, Ends, pointer}
use can_guru.Kernel.Types.{Event, can_get_echo_skb}
use can_guru.Kernel.Ledger.{queue_runs}
use can_guru.State.{Device, NetDev, Stats}
use can_guru.Bus.Counting.{AnswerCounts}
use can_guru.Bus.Channels.{answered_bus, IsBus, IsBus-tail}
use can_guru.LinTransfer.{count_lin_reply, linguru_send_callback}
use can_guru.LinMessages.{lin_send_callback}

-- An answer for a channel that waits.
pub lin_send_callback-runs :
    (k : Kernel) (d : Device) (t : List Event) (reply status : ℕ) (rest bytes : List ℕ)
    (priv : NetDev) (running : Bool)
    → d.lin_bus.send_reply_list ≡ reply ∷ rest
    → get_elem? d.lin_bus.netdevs reply ≡ some (some priv)
    → priv.has_reply_callback ≡ true
    → d.guru.curr_msg_data ≡ some (status ∷ bytes)
    → Ends
        (λ _ d' t'.
          (d' ≡ record d {
            lin_bus =
                answered_bus reply rest priv
                  (count_lin_reply status
                    (pointer (k.reply t (can_get_echo_skb priv.handle)))
                    priv.stats)
                  d.lin_bus;
          })
          × (queue_runs running priv.handle t' ≡ true))
        (lin_send_callback k d t)
unfolding lin_send_callback linguru_send_callback
lin_send_callback-runs k d t reply status rest bytes priv running waits found has msg =
    ground (arith, waits, found, has, msg)

count_lin_reply-AnswerCounts :
    (status len : ℕ) (st : Stats) → AnswerCounts status len st (count_lin_reply status len st)
unfolding count_lin_reply
count_lin_reply-AnswerCounts status len st = ground arith

-- The head of the list is unlinked, and its channel, if it takes answers, is told of the status.
abbrev pub HeadAnswered : Kernel → Bool → ℕ → Device → List Event → Type 0
HeadAnswered k running status d t =
    (reply : ℕ) × (rest : List ℕ) × (priv : NetDev) × (d.lin_bus.send_reply_list ≡ reply ∷ rest)
    × (get_elem? d.lin_bus.netdevs reply ≡ some (some priv))
    × (((priv.has_reply_callback ≡ true)
          × ((stats : Stats) × AnswerCounts status
                (pointer (k.reply t (can_get_echo_skb priv.handle))) priv.stats stats
              × Ends
                  (λ _ d' t'.
                    (d' ≡ record d { lin_bus = answered_bus reply rest priv stats d.lin_bus })
                    × (queue_runs running priv.handle t' ≡ true))
                  (lin_send_callback k d t)))
        ⊎ ((priv.has_reply_callback ≡ false)
            × Ends
                (λ _ d' t'.
                  (d' ≡ record d { lin_bus = record d.lin_bus { send_reply_list = rest } })
                  × (t' ≡ t))
                (lin_send_callback k d t)))

-- An answer with a status byte, on a bus whose channels are there. If no channel waits, nothing
-- changes. Else the channel that has waited longest leaves the list, and if it takes answers, it
-- counts a sent frame with the bytes of its echo for the status DONE, an error for ERROR and a
-- dropped frame for any other status, and its queue runs; nothing else changes.
pub lin_send_callback-answers :
    (k : Kernel) (d : Device) (t : List Event) (status : ℕ) (bytes : List ℕ) (running : Bool)
    → IsBus d.lin_bus
    → d.guru.curr_msg_data ≡ some (status ∷ bytes)
    → ((d.lin_bus.send_reply_list ≡ [])
        × Ends (λ _ d' t'. (d' ≡ d) × (t' ≡ t)) (lin_send_callback k d t))
      ⊎ HeadAnswered k running status d t
unfolding lin_send_callback
lin_send_callback-answers k d t status bytes running sound msg =
    by_list d.lin_bus.send_reply_list refl
  where
    by_list :
        (l : List ℕ)
        → d.lin_bus.send_reply_list ≡ l
        → ((d.lin_bus.send_reply_list ≡ [])
            × Ends (λ _ d' t'. (d' ≡ d) × (t' ≡ t)) (lin_send_callback k d t))
          ⊎ HeadAnswered k running status d t
    by_list [] e = inl (e, ground (arith, e))
    by_list (reply ∷ rest) e =
        let ((priv, found), _) = IsBus-tail d.lin_bus reply rest e sound in
        let len = pointer (k.reply t (can_get_echo_skb priv.handle)) in
        elim (Bool-cases priv.has_reply_callback) [
          | inl takes ↦ inr (
            reply,
            rest,
            priv,
            e,
            found,
            inl (
              takes,
              (
                count_lin_reply status len priv.stats,
                count_lin_reply-AnswerCounts status len priv.stats,
                lin_send_callback-runs k d t reply status rest bytes priv running e found takes msg,
              ),
            ),
          )
          | inr none_taken ↦
              inr (
                reply,
                rest,
                priv,
                e,
                found,
                inr (none_taken, ground (arith, e, found, none_taken)),
              )
        ]
