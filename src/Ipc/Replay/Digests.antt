-- ===== src/Ipc/Replay/Digests.antt =====
-- The deque of digests: its elements are distinct, and which of them an eviction keeps.
use agent_program.Prelude.{
  ℕ, ◌+◌, ◌≤◌, ◌≡◌, ◌⊎◌, refl, sym, Bool, true, false, ◌&&◌, ◌||◌, not, List, [], ◌∷◌, ◌++◌, ◌==◌,
  ltb, length, length-append, mem, arith, Bool-cases, inl, inr, ==_iff, ==_refl,
}
use agent_program.Errors.{ok}
use agent_program.Ipc.Replay.{add, forget_oldest, evict}

abbrev pub IsDistinct : List ℕ → Type 0
IsDistinct [] = Unit {0}
IsDistinct (d ∷ ds) = (mem d ds ≡ false) × IsDistinct ds

-- The set has exactly the elements of the deque.
abbrev pub IsSetOf : (ℕ → Bool) → List ℕ → Type 0
IsSetOf set ds = (x : ℕ) → set x ≡ mem x ds

pub mem-append : (x d : ℕ) (ds : List ℕ) → mem x (ds ++ d ∷ []) ≡ (x == d || mem x ds)
mem-append x d [] = refl
mem-append x d (y ∷ ys) = rw (mem-append x d ys) (swap (x == y) (x == d) (mem x ys))
  where
    swap : (a b c : Bool) → (a || (b || c)) ≡ (b || (a || c))
    swap true true c = refl
    swap true false c = refl
    swap false true c = refl
    swap false false c = refl

append-IsDistinct :
    (d : ℕ) (ds : List ℕ) → IsDistinct ds → mem d ds ≡ false → IsDistinct (ds ++ d ∷ [])
append-IsDistinct d [] i new = (refl, tt)
append-IsDistinct d (x ∷ xs) i new = elim (Bool-cases (d == x)) [
  | inl same ↦ cc (rw same at new)
  | inr other ↦
      (rw (mem-append x d xs, differs other) i.0, append-IsDistinct d xs i.1 (rw other at new))
]
  where
    differs : (d == x) ≡ false → (x == d) ≡ false
    differs h = ground (arith, h)

add-IsSetOf :
    (d : ℕ) (ds : List ℕ) (set : ℕ → Bool) → IsSetOf set ds → IsSetOf (add d set) (ds ++ d ∷ [])
add-IsSetOf d ds set i x = rw (mem-append x d ds, i x)

-- What an eviction keeps of a deque with at least one element: all, or all but the oldest.
pub record Kept (capacity : ℕ) (ds ds' : List ℕ) : Type 0 where
  pub bounded : length ds' ≤ capacity
  pub part : (ds' ≡ ds) ⊎ ((d : ℕ) × (ds ≡ d ∷ ds') × (length ds' ≡ capacity))

pub forget_oldest_lem :
    (d : ℕ) (ds : List ℕ) (set : ℕ → Bool)
    → IsDistinct (d ∷ ds)
    → IsSetOf set (d ∷ ds)
    → (set' : ℕ → Bool) × (forget_oldest (d ∷ ds) set ≡ ok (ds, set')) × IsSetOf set' ds
forget_oldest_lem d ds set i j = (
  λ x. not (x == d) && set x,
  rw (j d, ==_refl d),
  λ x. elim (Bool-cases (x == d)) [
    | inl same ↦ rw same (gone x same)
    | inr other ↦ rw (j x, other)
  ],
)
  where
    gone : (x : ℕ) → (x == d) ≡ true → false ≡ mem x ds
    gone x same = let at_d : d ≡ x = sym ((==_iff x d).0 same) in rw (← at_d) (sym i.0)

-- On a deque and a set that agree, an acceptance adds a digest that is new, and no KeyError comes up.
pub evict_lem :
    (capacity d : ℕ) (ds : List ℕ) (set : ℕ → Bool)
    → length ds ≤ capacity
    → IsDistinct ds
    → IsSetOf set ds
    → mem d ds ≡ false
    → (ds' : List ℕ) × (set' : ℕ → Bool) × (evict capacity (ds ++ d ∷ []) (add d set)
        ≡ ok (ds', set'))
      × Kept capacity (ds ++ d ∷ []) ds'
      × IsDistinct ds'
      × IsSetOf set' ds'
evict_lem capacity d ds set short i j new =
    elim (Bool-cases (ltb capacity (length (ds ++ d ∷ [])))) [
      | inl full ↦ rw full (
          oldest (ds ++ d ∷ []) (length-append ds (d ∷ [])) (append-IsDistinct d ds i new)
            (add-IsSetOf d ds set j) full)
      | inr fits ↦ rw fits (
        ds ++ d ∷ [],
        add d set,
        refl,
        record { bounded = ground (arith, fits); part = inl refl },
        append-IsDistinct d ds i new,
        add-IsSetOf d ds set j,
      )
    ]
  where
    oldest :
        (all : List ℕ)
        → length all ≡ length ds + 1
        → IsDistinct all
        → IsSetOf (add d set) all
        → ltb capacity (length all) ≡ true
        → (ds' : List ℕ) × (set' : ℕ → Bool) × (forget_oldest all (add d set) ≡ ok (ds', set'))
          × Kept capacity all ds'
          × IsDistinct ds'
          × IsSetOf set' ds'
    oldest [] long i' j' full = let bad : ⊥ = omega (arith, long) in absurd bad
    oldest (x ∷ xs) long i' j' full =
        let (set', forgot, agrees) = forget_oldest_lem x xs (add d set) i' j' in
        let full_now : length xs ≡ capacity = ground (arith, short, long, full) in
        (
          xs,
          set',
          forgot,
          record { bounded = omega (arith, full_now); part = inr (x, refl, full_now) },
          i'.1,
          agrees,
        )
