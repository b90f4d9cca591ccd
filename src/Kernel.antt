-- ===== src/Kernel.antt =====
-- What the driver is built on: the Linux calls that it makes, the kernel that answers them, and the
-- monad in which its functions are written.
--
-- The kernel is a parameter. It answers a call by a value that may depend on every call made so
-- far, so a statement about all kernels covers every failure and every order of failures. The
-- driver's own state is the other parameter of the monad. A call is recorded, newest first, and
-- what the driver did to the kernel's objects is read off that record.
pub mod Types
pub mod Ledger
pub mod OrNull
pub mod Safe
use can_guru.Base.{
  some, none, Option, [], is_zero, arith, ℕ, ◌<◌, ◌≤◌, ◌≡◌, refl, ℤ, pos, negsuc, Bool, List, ◌∷◌,
}
use can_guru.Base.{if◌then◌else◌, min, leb, length, take, drop, ◌&&◌, ◌++◌, subst}
use Types.{CanFrame, Call, Event, answered, done}

-- The functions of the kernel's CAN library that compute on frames and lengths.
pub record CanLib : Type 0 where
  pub can_fd_dlc2len : ℕ → ℕ
  pub can_fd_len2dlc : ℕ → ℕ
  pub can_cc_dlc2len : ℕ → ℕ
  pub can_get_cc_dlc : CanFrame → ℕ → ℕ
  pub can_frame_set_cc_len : CanFrame → ℕ → ℕ → CanFrame

-- What the documentation of linux/can/length.h and skb.h says of them.
pub record IsCanLib (lib : CanLib) : Type 0 where
  pub fd_dlc2len_max : (dlc : ℕ) → lib.can_fd_dlc2len dlc ≤ 64
  pub fd_len2dlc_max : (len : ℕ) → lib.can_fd_len2dlc len ≤ 15
  pub fd_len2dlc_covers : (len : ℕ) → len ≤ 64 → len ≤ lib.can_fd_dlc2len (lib.can_fd_len2dlc len)
  pub cc_dlc2len_min : (dlc : ℕ) → lib.can_cc_dlc2len dlc ≡ min dlc 8
  pub cc_dlc_max : (f : CanFrame) (mode : ℕ) → f.len ≤ 8 → lib.can_get_cc_dlc f mode ≤ 15
  pub cc_dlc_len :
      (f : CanFrame) (mode : ℕ) → f.len ≤ 8 → lib.can_cc_dlc2len (lib.can_get_cc_dlc f mode) ≡ f.len
  pub set_cc_len_len :
      (f : CanFrame) (dlc mode : ℕ)
      → CanFrame.len (lib.can_frame_set_cc_len f dlc mode) ≡ lib.can_cc_dlc2len dlc
  pub set_cc_len_id :
      (f : CanFrame) (dlc mode : ℕ)
      → CanFrame.can_id (lib.can_frame_set_cc_len f dlc mode) ≡ f.can_id
  pub set_cc_len_data :
      (f : CanFrame) (dlc mode : ℕ) → CanFrame.body (lib.can_frame_set_cc_len f dlc mode) ≡ f.body

-- `reply` is a call's result (a pointer is 0 for NULL), `out` is what it stores through a pointer
-- argument, and `fresh` is what a new buffer of that many bytes holds.
pub record Kernel : Type 0 where
  pub reply : List Event → Call → ℤ
  pub out : List Event → Call → ℕ
  pub fresh : List Event → ℕ → List ℕ
  pub can : CanLib

-- A kernel whose CAN library is as documented and whose buffers have the size asked for.
pub record IsKernel (k : Kernel) : Type 0 where
  pub lib_lem : IsCanLib k.can
  pub length-fresh : (t : List Event) (n : ℕ) → length (k.fresh t n) ≡ n

-- What C leaves undefined and the kernel turns into a crash or a corrupted object.
pub data Fault : Type 0 where
  null_deref out_of_bounds div_by_zero list_corrupt : Fault
  -- No fault of the program: a loop of the model ran out of its bound.
  no_fuel : Fault

pub data Res (S A : Type 0) : Type 0 where
  ok : A → S → List Event → Res S A
  fault : Fault → Res S A

-- A function of the driver over state `S`.
abbrev pub M : Type 0 → Type 0 → Type 0
M S A = Kernel → S → List Event → Res S A

infixl 5 ◌>>=◌ ◌>>◌
abbrev pub ◌>>=◌ : {S A B : Type 0} → M S A → (A → M S B) → M S B
◌>>=◌ m f k s t = elim (m k s t) [ ok a s' t' ↦ f a k s' t' | fault e ↦ fault e ]

abbrev pub ◌>>◌ : {S B : Type 0} → M S (Unit {0}) → M S B → M S B
m >> n = m >>= λ _. n

abbrev pub pure : {S A : Type 0} → A → M S A
pure a k s t = ok a s t

abbrev pub raise : {S A : Type 0} → Fault → M S A
raise e k s t = fault e

-- A call whose result is used, and one whose result is void or ignored.
abbrev pub call : {S : Type 0} → Call → M S ℤ
call c k s t = ok (k.reply t c) s (answered c (k.reply t c) ∷ t)

abbrev pub run : {S : Type 0} → Call → M S (Unit {0})
run c k s t = ok tt s (done c ∷ t)

-- A call that stores a number through a pointer besides.
abbrev pub call_out : {S : Type 0} → Call → M S (ℤ × ℕ)
call_out c k s t = ok (k.reply t c, k.out t c) s (answered c (k.reply t c) ∷ t)

-- A pointer that a call returns, 0 for NULL; a negative value is no pointer.
abbrev pub pointer : ℤ → ℕ
pointer (pos p) = p
pointer (negsuc _) = 0

abbrev pub call_ptr : {S : Type 0} → Call → M S ℕ
call_ptr c k s t = ok (pointer (k.reply t c)) s (answered c (k.reply t c) ∷ t)

abbrev pub lib : {S : Type 0} → M S CanLib
lib k s t = ok k.can s t

abbrev pub fresh_bytes : {S : Type 0} → ℕ → M S (List ℕ)
fresh_bytes n k s t = ok (k.fresh t n) s t

abbrev pub get : {S : Type 0} → M S S
get k s t = ok s s t

abbrev pub put : {S : Type 0} → S → M S (Unit {0})
put s' k s t = ok tt s' t

abbrev pub modify : {S : Type 0} → (S → S) → M S (Unit {0})
modify f k s t = ok tt (f s) t

-- `if (test) f();`
abbrev pub when : {S : Type 0} → Bool → M S (Unit {0}) → M S (Unit {0})
when b m = if b then m else pure tt

-- The copy of `n` bytes out of an array; reading past its end is undefined.
abbrev pub read_bytes : {S : Type 0} → List ℕ → ℕ → M S (List ℕ)
read_bytes src n = if leb n (length src) then pure (take n src) else raise out_of_bounds

-- memcpy(dest, src, n): writing past the end of `dest` is undefined too.
abbrev pub memcpy : {S : Type 0} → List ℕ → List ℕ → ℕ → M S (List ℕ)
memcpy dest src n =
    if leb n (length dest) && leb n (length src)
    then pure (take n src ++ drop n dest)
    else raise out_of_bounds

-- A copy within both arrays.
pub memcpy-ok :
    {S : Type 0} (k : Kernel) (s : S) (t : List Event) (dest src : List ℕ) (n : ℕ)
    → n ≤ length dest
    → n ≤ length src
    → memcpy dest src n k s t ≡ ok (take n src ++ drop n dest) s t
memcpy-ok k s t dest src n h g = ground arith

-- The function returns, and its result, the state and the record meet `P`.
abbrev pub Ends : {S A : Type 0} → (A → S → List Event → Type 0) → Res S A → Type 0
Ends P (ok a s t) = P a s t
Ends P (fault e) = ⊥

-- A chain of steps: what the first ensures is what the rest may assume.
pub Ends-bind :
    {S A B : Type 0} (P : A → S → List Event → Type 0) (Q : B → S → List Event → Type 0) (m : M S A)
    (f : A → M S B) (k : Kernel) (s : S) (t : List Event)
    → Ends P (m k s t)
    → ((a : A) (s' : S) (t' : List Event) → P a s' t' → Ends Q (f a k s' t'))
    → Ends Q ((m >>= f) k s t)
Ends-bind {S} {A} {B} P Q m f k s t = split (m k s t)
  where
    split :
        (r : Res S A)
        → Ends P r
        → ((a : A) (s' : S) (t' : List Event) → P a s' t' → Ends Q (f a k s' t'))
        → Ends Q (elim r [ ok a s' t' ↦ f a k s' t' | fault e ↦ fault e ])
    split (ok a s' t') h next = next a s' t' h
    split (fault e) h next = absurd h

pub Ends-map :
    {S A : Type 0} (P Q : A → S → List Event → Type 0) (r : Res S A)
    → ((a : A) (s : S) (t : List Event) → P a s t → Q a s t)
    → Ends P r
    → Ends Q r
Ends-map P Q (ok a s t) weaken h = weaken a s t h
Ends-map P Q (fault e) weaken h = absurd h

-- Two facts about one run.
pub Ends-both :
    {S A : Type 0} (P Q R : A → S → List Event → Type 0) (r : Res S A)
    → ((a : A) (s : S) (t : List Event) → P a s t → Q a s t → R a s t)
    → Ends P r
    → Ends Q r
    → Ends R r
Ends-both P Q R (ok a s t) both p q = both a s t p q
Ends-both P Q R (fault e) both p q = absurd p

-- The run that `Ends` speaks of.
pub Ends-runs :
    {S A : Type 0} (P : A → S → List Event → Type 0) (r : Res S A)
    → Ends P r
    → (a : A) × (s : S) × (t : List Event) × (r ≡ ok a s t) × P a s t
Ends-runs P (ok a s t) h = (a, s, t, refl, h)
Ends-runs P (fault e) h = absurd h

-- A function on a part of the state.
abbrev pub zoom : {S T A : Type 0} → (S → T) → (T → S → S) → M T A → M S A
zoom part put_back m k s t = elim (m k (part s) t) [
  | ok a p t' ↦ ok a (put_back p s) t'
  | fault e ↦ fault e
]

-- What the function ensures of the part holds of the whole.
pub Ends-zoom :
    {S T A : Type 0} (P : A → T → List Event → Type 0) (Q : A → S → List Event → Type 0)
    (part : S → T) (put_back : T → S → S) (m : M T A) (k : Kernel) (s : S) (t : List Event)
    → ((a : A) (p : T) (t' : List Event) → P a p t' → Q a (put_back p s) t')
    → Ends P (m k (part s) t)
    → Ends Q (zoom part put_back m k s t)
Ends-zoom {S} {T} {A} P Q part put_back m k s t weaken = split (m k (part s) t)
  where
    split :
        (r : Res T A)
        → Ends P r
        → Ends Q (elim r [ ok a p t' ↦ ok a (put_back p s) t' | fault e ↦ fault e ])
    split (ok a p t') h = weaken a p t' h
    split (fault e) h = absurd h

-- If the function returns, its result, the state and the record meet `P`; for the proofs about a
-- run that is known to return.
abbrev pub Returns : {S A : Type 0} → (A → S → List Event → Type 0) → Res S A → Type 0
Returns P (ok a s t) = P a s t
Returns P (fault e) = Unit {0}

-- A function that returns, and what holds of it if it does.
pub Ends-Returns :
    {S A : Type 0} (P Q R : A → S → List Event → Type 0) (r : Res S A)
    → ((a : A) (s : S) (t : List Event) → P a s t → Q a s t → R a s t)
    → Ends P r
    → Returns Q r
    → Ends R r
Ends-Returns P Q R (ok a s t) both p q = both a s t p q
Ends-Returns P Q R (fault e) both p q = absurd p

pub Returns-bind :
    {S A B : Type 0} (P : A → S → List Event → Type 0) (Q : B → S → List Event → Type 0) (m : M S A)
    (f : A → M S B) (k : Kernel) (s : S) (t : List Event)
    → Returns P (m k s t)
    → ((a : A) (s' : S) (t' : List Event) → P a s' t' → Returns Q (f a k s' t'))
    → Returns Q ((m >>= f) k s t)
Returns-bind {S} {A} {B} P Q m f k s t = split (m k s t)
  where
    split :
        (r : Res S A)
        → Returns P r
        → ((a : A) (s' : S) (t' : List Event) → P a s' t' → Returns Q (f a k s' t'))
        → Returns Q (elim r [ ok a s' t' ↦ f a k s' t' | fault e ↦ fault e ])
    split (ok a s' t') h next = next a s' t' h
    split (fault e) h next = tt

-- What is ensured of a run holds of the run that happened.
pub Ends-at :
    {S A : Type 0} (P : A → S → List Event → Type 0) (r : Res S A) (a : A) (s : S) (t : List Event)
    → r ≡ ok a s t
    → Ends P r
    → P a s t
Ends-at P r a s t e h = subst (Ends P) e h

pub Returns-at :
    {S A : Type 0} (P : A → S → List Event → Type 0) (r : Res S A) (a : A) (s : S) (t : List Event)
    → r ≡ ok a s t
    → Returns P r
    → P a s t
Returns-at P r a s t e h = subst (Returns P) e h

pub Returns-zoom :
    {S T A : Type 0} (P : A → T → List Event → Type 0) (Q : A → S → List Event → Type 0)
    (part : S → T) (put_back : T → S → S) (m : M T A) (k : Kernel) (s : S) (t : List Event)
    → ((a : A) (p : T) (t' : List Event) → P a p t' → Q a (put_back p s) t')
    → Returns P (m k (part s) t)
    → Returns Q (zoom part put_back m k s t)
Returns-zoom {S} {T} {A} P Q part put_back m k s t weaken = split (m k (part s) t)
  where
    split :
        (r : Res T A)
        → Returns P r
        → Returns Q (elim r [ ok a p t' ↦ ok a (put_back p s) t' | fault e ↦ fault e ])
    split (ok a p t') h = weaken a p t' h
    split (fault e) h = tt
