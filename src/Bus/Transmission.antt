-- ===== src/Bus/Transmission.antt =====
-- canguru_start_xmit and linguru_start_xmit: what both leave of the queue and of the reply list.
use can_guru.Base.{
  ℕ, suc, ◌≡◌, ◌⊎◌, ℤ, pos, is_zero, if◌then◌else◌, Bool, true, false, List, [], ◌∷◌, ◌++◌,
}
use can_guru.Kernel.Types.{Event, Skb, answered, can_dropped_invalid_skb, can_put_echo_skb}
use can_guru.Kernel.{Kernel}
use can_guru.Kernel.Ledger.{refusals, aside, sent, queue_runs}
use can_guru.State.{Bus}

-- The echo buffers that were accepted.
abbrev pub echoes_put : List Event → ℕ
echoes_put [] = 0
echoes_put (answered (can_put_echo_skb dev skb len) r ∷ t) =
    if is_zero r then suc (echoes_put t) else echoes_put t
echoes_put (e ∷ t) = echoes_put t

-- What a transmit function leaves for net device `dev`, channel `i` and the frame's command: the
-- skb was dropped and nothing done, or a refused command and a queue that runs again, or a command
-- that is out and a stopped queue, with the reply registered unless the echo was refused.
abbrev pub XmitEnd :
    Kernel → ℕ → List ℕ → ℕ → Bool → Skb → Bus → List Event → ℤ → Bus → List Event → Type 0
XmitEnd k dev command i running skb bus t err bus' t' =
    let dropped = k.reply t (can_dropped_invalid_skb skb) in
    (err ≡ pos 0)
    × (((is_zero dropped ≡ false)
          × (bus' ≡ bus)
          × (sent t' ≡ sent t)
          × (queue_runs running dev t' ≡ queue_runs running dev t))
        ⊎ (((is_zero dropped ≡ true)
              × (refusals t' ≡ suc (refusals t))
              × (bus' ≡ bus)
              × (sent t' ≡ sent t)
              × (queue_runs running dev t' ≡ true))
            ⊎ ((is_zero dropped ≡ true)
                × (refusals t' ≡ refusals t)
                × (sent t' ≡ command ∷ sent t)
                × (queue_runs running dev t' ≡ false)
                × (((bus' ≡ record bus { send_reply_list = bus.send_reply_list ++ (i ∷ []) })
                      × (echoes_put (aside t') ≡ suc (echoes_put (aside t))))
                    ⊎ ((bus' ≡ bus) × (echoes_put (aside t') ≡ echoes_put (aside t)))))))
