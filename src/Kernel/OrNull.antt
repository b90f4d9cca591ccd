-- ===== src/Kernel/OrNull.antt =====
-- Two runs that differ only where the second dereferences NULL.
use can_guru.Base.{◌≡◌, ◌⊎◌, inl, inr, refl, ap, List}
use can_guru.Kernel.{Kernel, M, Res, ok, fault, ◌>>=◌, zoom, null_deref}
use can_guru.Kernel.Types.{Event}

-- The second run is the first, or it dereferences NULL.
abbrev pub OrNull : {S A : Type 0} → Res S A → Res S A → Type 0
OrNull r r' = (r' ≡ r) ⊎ (r' ≡ fault null_deref)

pub bind-OrNull :
    {S A B : Type 0} (m : M S A) (f g : A → M S B) (k : Kernel) (s : S) (t : List Event)
    → ((a : A) (s' : S) (t' : List Event) → OrNull (f a k s' t') (g a k s' t'))
    → OrNull ((m >>= f) k s t) ((m >>= g) k s t)
bind-OrNull {S} {A} {B} m f g k s t next = split (m k s t)
  where
    split :
        (r : Res S A)
        → OrNull
            (elim r [ ok a s' t' ↦ f a k s' t' | fault e ↦ fault e ])
            (elim r [ ok a s' t' ↦ g a k s' t' | fault e ↦ fault e ])
    split (ok a s' t') = next a s' t'
    split (fault e) = inl refl

pub zoom-OrNull :
    {S T A : Type 0} (part : S → T) (put_back : T → S → S) (m m' : M T A) (k : Kernel) (s : S)
    (t : List Event)
    → OrNull (m k (part s) t) (m' k (part s) t)
    → OrNull (zoom part put_back m k s t) (zoom part put_back m' k s t)
zoom-OrNull {S} {T} {A} part put_back m m' k s t (inl same) = inl (ap split same)
  where
    split : Res T A → Res S A
    split r = elim r [ ok a p t' ↦ ok a (put_back p s) t' | fault e ↦ fault e ]
zoom-OrNull {S} {T} {A} part put_back m m' k s t (inr null) = inr (ap split null)
  where
    split : Res T A → Res S A
    split r = elim r [ ok a p t' ↦ ok a (put_back p s) t' | fault e ↦ fault e ]
