-- ===== src/Boot/Minors.antt =====
-- What guru_boot_create does to the table of minor numbers and to the kernel's devices.
use can_guru.Base.{
  [], ℕ, zero, suc, ◌+◌, ◌≡◌, ◌≢◌, ◌⊎◌, inl, inr, refl, ap, sym, subst, ℤ, pos, is_zero, Option,
  none, some, List, ◌∷◌, ◌++◌, map, length, get_elem?, set, ==_iff, Bool-cases, true, ◌==◌, arith,
}
use can_guru.Kernel.Types.{Event, answered, done, enomem, cdev_add, device_create, cdev_init}
use can_guru.Kernel.{Kernel, Ends, Ends-map}
use can_guru.State.{BootState}
use can_guru.Boot.Ledger.{cdevs_added, cdevs_deleted, boot_refusals, nodes_created, nodes_destroyed}
use can_guru.Boot.{find_minor, boot_with_minor, publish_boot, guru_boot_create, is_err}

-- No entry is NULL; and the first entry that is, behind those that are not.
abbrev pub IsFull : List (Option ℕ) → Type 0
IsFull table = (owners : List ℕ) × (table ≡ map some owners)

abbrev pub IsFirstFree : List (Option ℕ) → ℕ → Type 0
IsFirstFree table i =
    (owners : List ℕ) × (rest : List (Option ℕ)) × (table ≡ map some owners ++ (none ∷ rest))
    × (i ≡ length owners)

abbrev FoundFrom : ℕ → List (Option ℕ) → Option ℕ → Type 0
FoundFrom start table none = IsFull table
FoundFrom start table (some found) = (i : ℕ) × (found ≡ start + i) × IsFirstFree table i

shift :
    (start owner : ℕ) (table : List (Option ℕ)) (r : Option ℕ)
    → FoundFrom (suc start) table r
    → FoundFrom start (some owner ∷ table) r
shift start owner table none (owners, e) =
    (owner ∷ owners, ap (λ (l : List (Option ℕ)). some owner ∷ l) e)
shift start owner table (some found) (i, e, (owners, rest, split, place)) = (
  suc i,
  omega arith,
  (owner ∷ owners, rest, ap (λ (l : List (Option ℕ)). some owner ∷ l) split, omega arith),
)

find_minor-FoundFrom :
    (start : ℕ) (table : List (Option ℕ)) → FoundFrom start table (find_minor start table)
unfolding find_minor
find_minor-FoundFrom start [] = ([], refl)
find_minor-FoundFrom start (none ∷ rest) = (0, omega arith, ([], rest, refl, refl))
find_minor-FoundFrom start (some owner ∷ rest) =
    shift start owner rest (find_minor (suc start) rest) (find_minor-FoundFrom (suc start) rest)

-- Every entry is taken, or the search finds the first that is free.
pub find_minor-first :
    (table : List (Option ℕ))
    → ((find_minor 0 table ≡ none) × IsFull table)
      ⊎ ((m : ℕ) × (find_minor 0 table ≡ some m) × IsFirstFree table m)
find_minor-first table = by_search (find_minor 0 table) refl (find_minor-FoundFrom 0 table)
  where
    by_search :
        (r : Option ℕ)
        → find_minor 0 table ≡ r
        → FoundFrom 0 table r
        → ((find_minor 0 table ≡ none) × IsFull table)
          ⊎ ((m : ℕ) × (find_minor 0 table ≡ some m) × IsFirstFree table m)
    by_search none e full = inl (e, full)
    by_search (some m) e (i, same, first) =
        inr (m, e, subst (λ (x : ℕ). IsFirstFree table x) {y = m} (omega arith) first)

behind_owners :
    (owners : List ℕ) (rest : List (Option ℕ))
    → get_elem? (map some owners ++ (none ∷ rest)) (length owners) ≡ some none
behind_owners [] rest = refl
behind_owners (x ∷ xs) rest = behind_owners xs rest

pub free_entry :
    (table : List (Option ℕ)) (i : ℕ) → IsFirstFree table i → get_elem? table i ≡ some none
free_entry table i (owners, rest, split, place) = rw (split, place) (behind_owners owners rest)

-- Taking a free entry and giving it back leaves the table as it was.
pub set-restore :
    (table : List (Option ℕ)) (i : ℕ) (v : Option ℕ)
    → get_elem? table i ≡ some none
    → set (set table i v) i none ≡ table
set-restore [] i v h = refl
set-restore (x ∷ xs) zero v h = ground arith
set-restore (x ∷ xs) (suc i) v h = ap (λ (l : List (Option ℕ)). x ∷ l) (set-restore xs i v h)

-- The boot device stands in the first free entry, with the serial number and a line feed.
abbrev pub IsStored : List ℕ → BootState → List Event → BootState → List Event → Type 0
IsStored serial st t st' t' =
    (st'.guru_boot_table ≡ set st.guru_boot_table st'.boot.minor_num (some st.boot.pointer))
    × (length serial ≡ 16)
    × (st'.boot.serial_number ≡ serial ++ (10 ∷ []))
    × (cdevs_added t' + cdevs_deleted t ≡ suc (cdevs_added t + cdevs_deleted t'))
    × (nodes_created t' + nodes_destroyed t ≡ suc (nodes_created t + nodes_destroyed t'))

-- Nothing is kept, since the serial number has not 16 characters or the kernel refused a device.
abbrev pub IsUndone : List ℕ → BootState → List Event → BootState → List Event → Type 0
IsUndone serial st t st' t' =
    (st'.guru_boot_table ≡ st.guru_boot_table)
    × ((length serial ≢ 16) ⊎ (boot_refusals t' ≡ suc (boot_refusals t)))
    × (cdevs_added t' + cdevs_deleted t ≡ cdevs_added t + cdevs_deleted t')
    × (nodes_created t' + nodes_destroyed t ≡ nodes_created t + nodes_destroyed t')

-- Success with entry `m`, or failure; and the same with the first free entry.
abbrev BootEndAt : ℕ → List ℕ → BootState → List Event → ℤ → BootState → List Event → Type 0
BootEndAt m serial st t err st' t' =
    ((err ≡ pos 0) × (st'.boot.minor_num ≡ m) × IsStored serial st t st' t')
    ⊎ ((err ≢ pos 0) × IsUndone serial st t st' t')

abbrev pub BootEnd : List ℕ → BootState → List Event → ℤ → BootState → List Event → Type 0
BootEnd serial st t err st' t' =
    ((err ≡ pos 0)
      × IsFirstFree st.guru_boot_table st'.boot.minor_num
      × IsStored serial st t st' t')
    ⊎ (((err ≢ pos 0) × IsUndone serial st t st' t')
        ⊎ ((err ≡ enomem) × IsFull st.guru_boot_table × (st' ≡ st) × (t' ≡ t)))

first_free :
    (serial : List ℕ) (st : BootState) (t : List Event) (m : ℕ)
    → IsFirstFree st.guru_boot_table m
    → (err : ℤ) (st' : BootState) (t' : List Event) → BootEndAt m serial st t err st' t'
    → BootEnd serial st t err st' t'
first_free serial st t m first err st' t' (inl (e, same, stored)) =
    inl (e, subst (λ (x : ℕ). IsFirstFree st.guru_boot_table x) (sym same) first, stored)
first_free serial st t m first err st' t' (inr h) = inr (inl h)

abbrev PublishEnd : List ℕ → BootState → List Event → ℤ → BootState → List Event → Type 0
PublishEnd serial st t err st' t' =
    ((err ≡ pos 0)
      × (st'.boot.minor_num ≡ st.boot.minor_num)
      × (st'.guru_boot_table ≡ set st.guru_boot_table st'.boot.minor_num (some st.boot.pointer))
      × (length serial ≡ 16)
      × (st'.boot.serial_number ≡ serial ++ (10 ∷ []))
      × (cdevs_added t' + cdevs_deleted t ≡ cdevs_added t + cdevs_deleted t')
      × (nodes_created t' + nodes_destroyed t ≡ suc (nodes_created t + nodes_destroyed t')))
    ⊎ ((err ≢ pos 0)
        × (st'.guru_boot_table ≡ st.guru_boot_table)
        × ((length serial ≢ 16) ⊎ (boot_refusals t' ≡ suc (boot_refusals t)))
        × (cdevs_added t' + suc (cdevs_deleted t) ≡ cdevs_added t + cdevs_deleted t')
        × (nodes_created t' + nodes_destroyed t ≡ nodes_created t + nodes_destroyed t'))

-- From the device node on.
publish_boot-PublishEnd :
    (k : Kernel) (st : BootState) (t : List Event) (serial : List ℕ)
    → get_elem? st.guru_boot_table st.boot.minor_num ≡ some none
    → Ends (PublishEnd serial st t) (publish_boot (some serial) st.boot.minor_num k st t)
unfolding publish_boot
publish_boot-PublishEnd k st t serial free =
    elim (Bool-cases (is_err (k.reply t (device_create st.boot.minor_num)))) [
      | inl refused ↦
          rw refused
            (inr (ground (arith, refused), refl, inr (rw refused refl), refl, rw refused refl))
      | inr node ↦ elim (Bool-cases (length serial == 16)) [
        | inl right ↦
            rw (node, right)
              (inl (
                refl,
                refl,
                refl,
                (==_iff (length serial) 16).0 right,
                refl,
                refl,
                rw node (omega arith),
              ))
        | inr wrong ↦
            rw (node, wrong)
              (inr (
                ground arith,
                set-restore st.guru_boot_table st.boot.minor_num (some st.boot.pointer) free,
                inl (λ e. ground (arith, wrong, e)),
                refl,
                rw node (omega arith),
              ))
      ]
    ]

boot_with_minor-branches :
    (k : Kernel) (st : BootState) (t : List Event) (serial : List ℕ) (m : ℕ)
    → get_elem? st.guru_boot_table m ≡ some none
    → Ends (BootEndAt m serial st t) (boot_with_minor (some serial) (some m) k st t)
unfolding boot_with_minor
boot_with_minor-branches k st t serial m free =
    elim (Bool-cases (is_zero (k.reply (done cdev_init ∷ t) (cdev_add 0)))) [
      | inl added ↦ rw added (
          Ends-map (PublishEnd serial numbered with_cdev) (BootEndAt m serial st t)
            (publish_boot (some serial) m k numbered with_cdev) (from_cdev added)
            (publish_boot-PublishEnd k numbered with_cdev serial free))
      | inr refused ↦
          rw refused
            (inr (ground (arith, refused), (refl, inr (rw refused refl), rw refused refl, refl)))
    ]
  where
    numbered : BootState
    numbered = record st { boot = record (st.boot) { minor_num = m } }

    with_cdev : List Event
    with_cdev =
        answered (cdev_add 0) (k.reply (done cdev_init ∷ t) (cdev_add 0)) ∷ done cdev_init ∷ t

    from_cdev :
        is_zero (k.reply (done cdev_init ∷ t) (cdev_add 0)) ≡ true
        → (err : ℤ) (st' : BootState) (t' : List Event)
        → PublishEnd serial numbered with_cdev err st' t'
        → BootEndAt m serial st t err st' t'
    from_cdev added err st' t' (inl (e, same, table, size, sn, cdevs, nodes)) =
        inl (e, same, (table, size, sn, ground (arith, added, cdevs), ground (arith, nodes)))
    from_cdev added err st' t' (inr (e, table, why, cdevs, nodes)) = inr (
      e,
      (table, ground (arith, added, why), ground (arith, added, cdevs), ground (arith, nodes)),
    )

-- A device that reports a serial number.
pub guru_boot_create-BootEnd :
    (k : Kernel) (st : BootState) (t : List Event) (serial : List ℕ)
    → Ends (BootEnd serial st t) (guru_boot_create (some serial) k st t)
unfolding boot_with_minor guru_boot_create
guru_boot_create-BootEnd k st t serial =
    by_search (find_minor 0 st.guru_boot_table) (find_minor-FoundFrom 0 st.guru_boot_table)
  where
    by_search :
        (r : Option ℕ)
        → FoundFrom 0 st.guru_boot_table r
        → Ends (BootEnd serial st t) (boot_with_minor (some serial) r k st t)
    by_search none full = inr (inr (refl, full, refl, refl))
    by_search (some m) (i, e, first) =
        let is_first =
          subst (λ (x : ℕ). IsFirstFree st.guru_boot_table x) {y = m} (omega arith) first in
        Ends-map (BootEndAt m serial st t) (BootEnd serial st t)
          (boot_with_minor (some serial) (some m) k st t) (first_free serial st t m is_first)
          (boot_with_minor-branches k st t serial m (free_entry st.guru_boot_table m is_first))
