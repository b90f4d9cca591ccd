-- ===== src/Probe/Products.antt =====
-- guru-drv.c: the product names, and what probing a device leads to.
use can_guru.Base.{
  ℕ, ◌≡◌, ◌⊎◌, ◌↔◌, ◌==◌, ==_iff, refl, sym, subst, inl, inr, Bool-cases, true, false, some, List,
  [], ◌∷◌, arith,
}
use can_guru.State.{Kind, canguru, linguru, mbus}
use can_guru.Probe.{
  canguru_product_name, linguru_product_name, buskit_multibus_product_name, same_text, product_kind,
}

same_text_refl : (a : List ℕ) → same_text a a ≡ true
unfolding same_text
same_text_refl [] = refl
same_text_refl (x ∷ xs) = ground (arith, same_text_refl xs)

same_text-eq : (a b : List ℕ) → same_text a b ≡ true → a ≡ b
unfolding same_text
same_text-eq [] [] h = refl
same_text-eq [] (y ∷ ys) h = ground (arith, h)
same_text-eq (x ∷ xs) [] h = ground (arith, h)
same_text-eq (x ∷ xs) (y ∷ ys) h = elim (Bool-cases (x == y)) [
  | inl same ↦
      let rest = same_text-eq xs ys (ground (arith, h, same)) in
      let first = (==_iff x y).0 same in ground (arith, first, rest)
  | inr differ ↦ ground (arith, h, differ)
]

-- The names of the products.
abbrev pub name_of : Kind → List ℕ
name_of canguru = canguru_product_name
name_of linguru = linguru_product_name
name_of mbus = buskit_multibus_product_name

same_text-cases : (a b : List ℕ) → ((same_text a b ≡ true) × (a ≡ b)) ⊎ (same_text a b ≡ false)
same_text-cases a b = elim (Bool-cases (same_text a b)) [
  | inl same ↦ inl (same, same_text-eq a b same)
  | inr differ ↦ inr differ
]

named : (kind : Kind) → product_kind (name_of kind) ≡ some kind
unfolding product_kind same_text
named canguru = refl
named linguru = refl
named mbus = refl

found : (product : List ℕ) (kind : Kind) → product_kind product ≡ some kind → product ≡ name_of kind
unfolding product_kind
found product kind e =
    let first = same_text-cases product canguru_product_name in
    let second = same_text-cases product linguru_product_name in
    let third = same_text-cases product buskit_multibus_product_name in
    by_kind kind e first second third
  where
    by_kind :
        (kind : Kind)
        → product_kind product ≡ some kind
        → ((same_text product canguru_product_name ≡ true) × (product ≡ canguru_product_name))
          ⊎ (same_text product canguru_product_name ≡ false)
        → ((same_text product linguru_product_name ≡ true) × (product ≡ linguru_product_name))
          ⊎ (same_text product linguru_product_name ≡ false)
        → ((same_text product buskit_multibus_product_name ≡ true)
            × (product ≡ buskit_multibus_product_name))
          ⊎ (same_text product buskit_multibus_product_name ≡ false)
        → product ≡ name_of kind
    by_kind canguru e first second third = ground (arith, e, first, second, third)
    by_kind linguru e first second third = ground (arith, e, first, second, third)
    by_kind mbus e first second third = ground (arith, e, first, second, third)

-- The product lookup finds a device type exactly if the text that the device reports is that type's
-- product name.
pub product_kind_iff :
    (product : List ℕ) (kind : Kind) → (product_kind product ≡ some kind) ↔ (product ≡ name_of kind)
product_kind_iff product kind =
    (found product kind, λ e. subst (λ p. product_kind p ≡ some kind) (sym e) (named kind))
