-- ===== src/Send/Outcome.antt =====
-- What guru_send_data does to the kernel's objects, on every path.
use can_guru.Base.{
  ℕ, suc, ◌+◌, ◌≤◌, ◌<◌, ◌^◌, ◌%◌, ◌≡◌, ◌≢◌, ◌⊎◌, ℤ, pos, Option, none, some, List, [], ◌∷◌, ◌++◌,
  take, length, length-take, drop_all, take_all, sym, ap, ◌∙◌, arith,
}
use can_guru.Kernel.Types.{Event, answered, usb_alloc_urb, usb_alloc_coherent}
use can_guru.Kernel.{Kernel, IsKernel, Ends, Ends-runs, ok}
use can_guru.Kernel.Ledger.{
  refusals, aside, sent, urbs_taken, urbs_freed, buffers_taken, buffers_freed,
}
use can_guru.Send.{guru_send_data, guru_cmd_preamble, header_bytes}

-- The bytes that a call asks to send behind the header.
abbrev pub IsPayload : Option (List ℕ) → ℕ → List ℕ → Type 0
IsPayload none len rest = (len ≡ 0) × (rest ≡ [])
IsPayload (some bytes) len rest = (len ≤ length bytes) × (rest ≡ take len bytes)

-- A structure that is sent whole.
whole-IsPayload : (bytes : List ℕ) (n : ℕ) → length bytes ≡ n → IsPayload (some bytes) n bytes
whole-IsPayload bytes n h = (omega arith, sym (take_all n bytes h))

-- The packet that carries command `id`.
abbrev pub packet : ℕ → List ℕ → List ℕ
packet id rest =
    header_bytes
      (record { preamble = guru_cmd_preamble; ctrl = 0; id = id; data_count = length rest })
    ++ rest

-- Accepted: nothing was refused, one packet more, and one buffer is out with its transfer. Refused,
-- once: nothing is kept. The URB reference is given back either way, and no other call than to the
-- USB core and the log is made.
pub record Outcome (p : List ℕ) (t : List Event) (err : ℤ) (t' : List Event) : Type 0 where
  pub verdict :
      ((err ≡ pos 0)
        × (sent t' ≡ p ∷ sent t)
        × (buffers_taken t' + buffers_freed t ≡ suc (buffers_taken t + buffers_freed t'))
        × (refusals t' ≡ refusals t))
      ⊎ ((err ≢ pos 0)
          × (sent t' ≡ sent t)
          × (buffers_taken t' + buffers_freed t ≡ buffers_taken t + buffers_freed t')
          × (refusals t' ≡ suc (refusals t)))
  pub urbs : urbs_taken t' + urbs_freed t ≡ urbs_taken t + urbs_freed t'
  pub others : aside t' ≡ aside t

-- Whatever the kernel answers, a command either goes out whole, with its header in front, and the
-- result is 0, or the USB core refused a call and it fails with an error and leaves no buffer
-- behind; no path keeps the URB.
pub guru_send_data-Outcome :
    {S : Type 0} (k : Kernel) (s : S) (t : List Event) (id : ℕ) (bytes : Option (List ℕ)) (len : ℕ)
    (rest : List ℕ)
    → IsKernel k
    → id < 2 ^ 16
    → len < 256
    → IsPayload bytes len rest
    → Ends
        (λ err s' t'. (s' ≡ s) × Outcome (packet id rest) t err t')
        (guru_send_data id bytes len k s t)
unfolding guru_send_data
guru_send_data-Outcome k s t id none len rest kernel hi hl h =
    ground (arith, drop_all 5 (k.fresh allocated (5 + len % 256)), kernel.length-fresh allocated 5)
  where
    allocated : List Event
    allocated =
        let t' = answered usb_alloc_urb (k.reply t usb_alloc_urb) ∷ t in
        let c = usb_alloc_coherent (5 + len % 256) in answered c (k.reply t' c) ∷ t'
guru_send_data-Outcome k s t id (some bytes) len rest kernel hi hl h =
    ground (arith, length-take len bytes)

-- The same as a run, for the proofs of the callers.
pub guru_send_data-runs :
    {S : Type 0} (k : Kernel) (s : S) (t : List Event) (id : ℕ) (bytes : Option (List ℕ)) (len : ℕ)
    (rest : List ℕ)
    → IsKernel k
    → id < 2 ^ 16
    → len < 256
    → IsPayload bytes len rest
    → (err : ℤ) × (t' : List Event) × (guru_send_data id bytes len k s t ≡ ok err s t')
      × Outcome (packet id rest) t err t'
guru_send_data-runs {S} k s t id bytes len rest kernel hi hl h = finish (
    Ends-runs (λ err s' t'. (s' ≡ s) × Outcome (packet id rest) t err t')
      (guru_send_data id bytes len k s t)
      (guru_send_data-Outcome k s t id bytes len rest kernel hi hl h))
  where
    finish :
        ((err : ℤ) × (s' : S) × (t' : List Event) × (guru_send_data id bytes len k s t
            ≡ ok err s' t')
          × ((s' ≡ s) × Outcome (packet id rest) t err t'))
        → (err : ℤ) × (t' : List Event) × (guru_send_data id bytes len k s t ≡ ok err s t')
          × Outcome (packet id rest) t err t'
    finish (err, s', t', e, (same, o)) = (err, t', e ∙ ap (λ (x : S). ok err x t') same, o)

-- A structure of `n` bytes, sent whole.
pub send_struct-runs :
    {S : Type 0} (k : Kernel) (s : S) (t : List Event) (id : ℕ) (bytes : List ℕ) (n : ℕ)
    → IsKernel k
    → id < 2 ^ 16
    → n < 256
    → length bytes ≡ n
    → (err : ℤ) × (t' : List Event) × (guru_send_data id (some bytes) n k s t ≡ ok err s t')
      × Outcome (packet id bytes) t err t'
send_struct-runs k s t id bytes n kernel hi hn h =
    guru_send_data-runs k s t id (some bytes) n bytes kernel hi hn (whole-IsPayload bytes n h)
