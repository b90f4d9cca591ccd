-- ===== src/Kernel/Safe.antt =====
-- Runs on a kernel that may be out of socket buffers, which the driver does not check.
use can_guru.Base.{ℕ, ◌≡◌, ◌≢◌, ◌⊎◌, ◌==◌, ==_iff, inl, inr, Bool-cases, List, arith}
use can_guru.Kernel.{
  Kernel, M, Res, ok, fault, Ends, Returns, ◌>>=◌, pointer, zoom, null_deref, out_of_bounds,
  div_by_zero, list_corrupt, no_fuel,
}
use can_guru.Kernel.Types.{Event, alloc_can_skb, alloc_canfd_skb}

-- The kernel refuses a socket buffer for some net device after some calls.
abbrev pub RefusesSkb : Kernel → Type 0
RefusesSkb k =
    (t : List Event) × (dev : ℕ) × ((pointer (k.reply t (alloc_can_skb dev)) ≡ 0)
      ⊎ (pointer (k.reply t (alloc_canfd_skb dev)) ≡ 0))

-- The function returns, and its result, the state and the record meet `P`; or it dereferences NULL,
-- and then the kernel is one that refuses a socket buffer.
abbrev pub Safe : {S A : Type 0} → Kernel → (A → S → List Event → Type 0) → Res S A → Type 0
Safe k P (ok a s t) = P a s t
Safe k P (fault null_deref) = RefusesSkb k
Safe k P (fault out_of_bounds) = ⊥
Safe k P (fault div_by_zero) = ⊥
Safe k P (fault list_corrupt) = ⊥
Safe k P (fault no_fuel) = ⊥

pub Ends-Safe :
    {S A : Type 0} (k : Kernel) (P : A → S → List Event → Type 0) (r : Res S A)
    → Ends P r
    → Safe k P r
Ends-Safe k P (ok a s t) h = h
Ends-Safe k P (fault e) h = absurd h

pub Safe-map :
    {S A : Type 0} (k : Kernel) (P Q : A → S → List Event → Type 0) (r : Res S A)
    → ((a : A) (s : S) (t : List Event) → P a s t → Q a s t)
    → Safe k P r
    → Safe k Q r
Safe-map k P Q (ok a s t) weaken h = weaken a s t h
Safe-map k P Q (fault null_deref) weaken h = h
Safe-map k P Q (fault out_of_bounds) weaken h = h
Safe-map k P Q (fault div_by_zero) weaken h = h
Safe-map k P Q (fault list_corrupt) weaken h = h
Safe-map k P Q (fault no_fuel) weaken h = h

pub Safe-bind :
    {S A B : Type 0} (P : A → S → List Event → Type 0) (Q : B → S → List Event → Type 0) (m : M S A)
    (f : A → M S B) (k : Kernel) (s : S) (t : List Event)
    → Safe k P (m k s t)
    → ((a : A) (s' : S) (t' : List Event) → P a s' t' → Safe k Q (f a k s' t'))
    → Safe k Q ((m >>= f) k s t)
Safe-bind {S} {A} {B} P Q m f k s t = split (m k s t)
  where
    split :
        (r : Res S A)
        → Safe k P r
        → ((a : A) (s' : S) (t' : List Event) → P a s' t' → Safe k Q (f a k s' t'))
        → Safe k Q (elim r [ ok a s' t' ↦ f a k s' t' | fault e ↦ fault e ])
    split (ok a s' t') h next = next a s' t' h
    split (fault null_deref) h next = h
    split (fault out_of_bounds) h next = h
    split (fault div_by_zero) h next = h
    split (fault list_corrupt) h next = h
    split (fault no_fuel) h next = h

-- Two facts about one run, of which the second need not know that it returns.
pub Safe-Returns :
    {S A : Type 0} (k : Kernel) (P Q R : A → S → List Event → Type 0) (r : Res S A)
    → ((a : A) (s : S) (t : List Event) → P a s t → Q a s t → R a s t)
    → Safe k P r
    → Returns Q r
    → Safe k R r
Safe-Returns k P Q R (ok a s t) both p q = both a s t p q
Safe-Returns k P Q R (fault null_deref) both p q = p
Safe-Returns k P Q R (fault out_of_bounds) both p q = p
Safe-Returns k P Q R (fault div_by_zero) both p q = p
Safe-Returns k P Q R (fault list_corrupt) both p q = p
Safe-Returns k P Q R (fault no_fuel) both p q = p

met_at_end :
    {S A : Type 0} (k : Kernel) (P : A → S → List Event → Type 0) (r : Res S A)
    → Safe k P r
    → Returns P r
met_at_end k P (ok a s t) h = h
met_at_end k P (fault e) h = tt

pub Safe-both :
    {S A : Type 0} (k : Kernel) (P Q R : A → S → List Event → Type 0) (r : Res S A)
    → ((a : A) (s : S) (t : List Event) → P a s t → Q a s t → R a s t)
    → Safe k P r
    → Safe k Q r
    → Safe k R r
Safe-both k P Q R r both p q = Safe-Returns k P Q R r both p (met_at_end k Q r q)

-- What the function does to a part of the state, it does to the whole.
pub Safe-zoom :
    {S T A : Type 0} (P : A → T → List Event → Type 0) (Q : A → S → List Event → Type 0)
    (part : S → T) (put_back : T → S → S) (m : M T A) (k : Kernel) (s : S) (t : List Event)
    → ((a : A) (p : T) (t' : List Event) → P a p t' → Q a (put_back p s) t')
    → Safe k P (m k (part s) t)
    → Safe k Q (zoom part put_back m k s t)
Safe-zoom {S} {T} {A} P Q part put_back m k s t weaken = split (m k (part s) t)
  where
    split :
        (r : Res T A)
        → Safe k P r
        → Safe k Q (elim r [ ok a p t' ↦ ok a (put_back p s) t' | fault e ↦ fault e ])
    split (ok a p t') h = weaken a p t' h
    split (fault null_deref) h = h
    split (fault out_of_bounds) h = h
    split (fault div_by_zero) h = h
    split (fault list_corrupt) h = h
    split (fault no_fuel) h = h

-- A pointer is NULL or not.
pub null_or_not : (p : ℕ) → (p ≡ 0) ⊎ (p ≢ 0)
null_or_not p = elim (Bool-cases (p == 0)) [
  | inl null ↦ inl ((==_iff p 0).0 null)
  | inr valid ↦ inr (λ e. ground (arith, valid, e))
]
