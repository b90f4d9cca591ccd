-- ===== src/Exchange/Drain.antt =====
-- When the device answers, every channel that waits transmits again.
use can_guru.Base.{
  [], ℕ, ◌≡◌, ◌≢◌, ◌==◌, ==_iff, refl, sym, ap, ◌∙◌, subst, Bool, Bool-cases, true, Option, some,
  List, ◌∷◌, length, drop, get_elem?, All, All-map, inl, inr, arith,
}
use can_guru.Kernel.{
  Kernel, IsKernel, M, Ends, Ends-at, Ends-bind, Ends-map, Ends-runs, ◌>>◌, pure, modify,
}
use can_guru.Kernel.Types.{Event}
use can_guru.Kernel.Ledger.{queue_runs}
use can_guru.State.{Device}
use can_guru.Bus.Channels.{keys}
use can_guru.CanMessages.{can_send_callback}
use can_guru.CanMessages.Answers.{can_send_callback-runs, can_send_callback-other_queues}
use can_guru.Exchange.{System, waits, with_message, Reach}
use can_guru.Exchange.Waiting.{IsPort, IsStopped, keys-get_elem?}
use can_guru.Exchange.Invariant.{IsExchange}
use can_guru.Exchange.Steps.{answer-IsExchange}
use can_guru.Exchange.Safety.{reachable-IsExchange}

-- Answers one after the other, each with its status byte and what follows it.
pub answer_all : List (ℕ × List ℕ) → M Device (Unit {0})
answer_all [] = pure tt
answer_all ((status, bytes) ∷ answers) = do
  modify (with_message (status ∷ bytes))
  can_send_callback
  answer_all answers

-- The channel's queue runs.
abbrev pub IsRunning : List (Option (ℕ × Bool)) → Bool → List Event → ℕ → Type 0
IsRunning chans running t i =
    (h : ℕ) × (get_elem? chans i ≡ some (some (h, true))) × (queue_runs running h t ≡ true)

module _ (k : Kernel) (kernel : IsKernel k) (running : Bool) (chans : List (Option (ℕ × Bool)))
    (port : IsPort chans) where
  -- What one answer to the channels `reply ∷ rest` does to the queues.
  abbrev Wakes : System → ℕ → List ℕ → Unit {0} → Device → List Event → Type 0
  Wakes s reply rest _ d' t' =
      IsExchange chans running (record { device = d'; trace = t' })
      × (d'.can_bus.send_reply_list ≡ rest)
      × IsRunning chans running t' reply
      × ((i : ℕ) → IsRunning chans running s.trace i → IsRunning chans running t' i)

  answer-Wakes :
      (s : System) (status reply : ℕ) (bytes rest : List ℕ)
      → IsExchange chans running s
      → waits s ≡ reply ∷ rest
      → Ends
          (Wakes s reply rest)
          (can_send_callback k (with_message (status ∷ bytes) s.device) s.trace)
  answer-Wakes s status reply bytes rest inv list =
      let (h, there, _) = (subst (All (IsStopped chans running s.trace)) list inv.stopped).0 in
      let (priv, found, handle, has) =
        keys-get_elem? s.device.can_bus.netdevs reply h true
          (subst (λ c. get_elem? c reply ≡ some (some (h, true))) (sym inv.same) there) in
      let (_, d', t', e, (_, own)) = Ends-runs _ (can_send_callback k d s.trace) (
        can_send_callback-runs k d s.trace reply status rest bytes priv running list found has
          refl) in
      let (inv', taken) =
        answer-IsExchange k kernel running chans port s (record { device = d'; trace = t' }) status
          bytes inv e in
      let others = λ (other : ℕ) (differ : priv.handle ≢ other).
        Ends-at (λ _ _ t'. queue_runs running other t' ≡ queue_runs running other s.trace)
          (can_send_callback k d s.trace) tt d' t' e
          (can_send_callback-other_queues k d s.trace reply status other rest bytes priv running
            list found has refl differ) in
      subst (Ends (Wakes s reply rest)) (sym e) (
        inv',
        taken ∙ ap (drop 1) list,
        (h, there, subst (λ n. queue_runs running n t' ≡ true) handle own),
        λ i (g, at, runs). (
          g,
          at,
          elim (Bool-cases (priv.handle == g)) [
            | inl same ↦
                subst (λ n. queue_runs running n t' ≡ true) ((==_iff priv.handle g).0 same) own
            | inr differ ↦ others g (λ x. ground (arith, differ, x)) ∙ runs
          ],
        ),
      )
    where
      d : Device
      d = with_message (status ∷ bytes) s.device

  -- Every channel of `woken` runs already.
  drain :
      (s : System) (answers : List (ℕ × List ℕ)) (ws woken : List ℕ)
      → IsExchange chans running s
      → waits s ≡ ws
      → length answers ≡ length ws
      → All (IsRunning chans running s.trace) woken
      → Ends
          (λ _ d' t'.
            (d'.can_bus.send_reply_list ≡ [])
            × All (IsRunning chans running t') woken
            × All (IsRunning chans running t') ws)
          (answer_all answers k s.device s.trace)
  unfolding answer_all
  drain s [] [] woken inv list same awake = (list, awake, tt)
  drain s [] (reply ∷ rest) woken inv list same awake = absurd (omega (arith, same))
  drain s (a ∷ answers) [] woken inv list same awake = absurd (omega (arith, same))
  drain s ((status, bytes) ∷ answers) (reply ∷ rest) woken inv list same awake =
      Ends-bind (Wakes s reply rest)
        (λ _ d' t'.
          (d'.can_bus.send_reply_list ≡ [])
          × All (IsRunning chans running t') woken
          × All (IsRunning chans running t') (reply ∷ rest))
        can_send_callback (λ _. answer_all answers) k (with_message (status ∷ bytes) s.device)
        s.trace (answer-Wakes s status reply bytes rest inv list)
        (λ _ d' t' (inv', taken, own, still).
          Ends-map _ _ (answer_all answers k d' t')
            (λ _ d'' t'' (empty, (first, others), after). (empty, others, (first, after)))
            (drain (record { device = d'; trace = t' }) answers rest (reply ∷ woken) inv' taken
              (omega (arith, same))
              (
                own,
                All-map (IsRunning chans running s.trace) (IsRunning chans running t') still woken
                    awake,
              )))

-- Take a kernel whose calls behave as documented, net devices with different pointers, and a start
-- in which no channel waits. From every state that the exchange reaches, as many answers as
-- channels wait leave no channel waiting, and the queue of each of them runs.
pub answer_all-drains :
    (k : Kernel) (running : Bool) (start s : System) (answers : List (ℕ × List ℕ))
    → IsKernel k
    → IsPort (keys start.device.can_bus.netdevs)
    → waits start ≡ []
    → Reach k running start s
    → length answers ≡ length (waits s)
    → Ends
        (λ _ d' t'.
          (d'.can_bus.send_reply_list ≡ [])
          × All (IsRunning (keys start.device.can_bus.netdevs) running t') (waits s))
        (answer_all answers k s.device s.trace)
answer_all-drains k running start s answers kernel port nobody path same =
    Ends-map _ _ (answer_all answers k s.device s.trace) (λ _ d' t' (empty, _, all). (empty, all))
      (drain k kernel running (keys start.device.can_bus.netdevs) port s answers (waits s) []
        (reachable-IsExchange k running start kernel port nobody s path) refl same tt)
