-- ===== src/Consistent/Circle.antt =====
-- The circle: a map whose keys are numbers.
use goext.Prelude.{
  ℕ, List, [], ◌∷◌, ◌≡◌, refl, ◌∙◌, arith, true, false, ◌==◌, ◌||◌, ◌&&◌, not, if◌then◌else◌, some,
  Bool-cases, inl, inr,
}
pub use goext.Prelude.Lists.{mem, IsUnique}
use goext.Consistent.{lookup, assign, delete, keys}

module _ {V : Type 0} where
  pub lookup-assign :
      (m : List (ℕ × V)) (k j : ℕ) (v : V)
      → lookup (◌==◌) (assign (◌==◌) m k v) j ≡ (if k == j then some v else lookup (◌==◌) m j)
  lookup-assign [] k j v = refl
  lookup-assign ((k', v') ∷ m) k j v = elim (Bool-cases (k' == k)) [
    | inl e ↦ rw e (ground arith)
    | inr e ↦ rw (e, lookup-assign m k j v) (ground arith)
  ]

  pub mem-assign :
      (m : List (ℕ × V)) (k j : ℕ) (v : V)
      → mem j (keys (assign (◌==◌) m k v)) ≡ ((k == j) || mem j (keys m))
  mem-assign [] k j v = refl
  mem-assign ((k', v') ∷ m) k j v = elim (Bool-cases (k' == k)) [
    | inl e ↦ rw e (ground arith)
    | inr e ↦ rw (e, mem-assign m k j v) (ground arith)
  ]

  pub assign-IsUnique :
      (m : List (ℕ × V)) (k : ℕ) (v : V) → IsUnique (keys m) → IsUnique (keys (assign (◌==◌) m k v))
  assign-IsUnique [] k v u = (refl, tt)
  assign-IsUnique ((k', v') ∷ m) k v u = elim (Bool-cases (k' == k)) [
    | inl e ↦ rw e u
    | inr e ↦ rw e (mem-assign m k k' v ∙ ground arith, assign-IsUnique m k v u.1)
  ]

  pub mem-delete :
      (m : List (ℕ × V)) (k j : ℕ)
      → IsUnique (keys m)
      → mem j (keys (delete (◌==◌) m k)) ≡ (not (k == j) && mem j (keys m))
  mem-delete [] k j u = ground arith
  mem-delete ((k', v') ∷ m) k j u = elim (Bool-cases (k' == k)) [
    | inl e ↦ rw e (ground arith)
    | inr e ↦ rw (e, mem-delete m k j u.1) (ground arith)
  ]

  pub lookup-delete :
      (m : List (ℕ × V)) (k j : ℕ)
      → (k == j) ≡ false
      → lookup (◌==◌) (delete (◌==◌) m k) j ≡ lookup (◌==◌) m j
  lookup-delete [] k j h = refl
  lookup-delete ((k', v') ∷ m) k j h = elim (Bool-cases (k' == k)) [
    | inl e ↦ rw e (ground arith)
    | inr e ↦ rw (e, lookup-delete m k j h) refl
  ]

  pub delete-IsUnique :
      (m : List (ℕ × V)) (k : ℕ) → IsUnique (keys m) → IsUnique (keys (delete (◌==◌) m k))
  delete-IsUnique [] k u = tt
  delete-IsUnique ((k', v') ∷ m) k u = elim (Bool-cases (k' == k)) [
    | inl e ↦ rw e u.1
    | inr e ↦ rw e (mem-delete m k k' u.1 ∙ ground arith, delete-IsUnique m k u.1)
  ]

  -- A key is found.
  pub lookup-mem :
      (m : List (ℕ × V)) (j : ℕ) → mem j (keys m) ≡ true → (v : V) × (lookup (◌==◌) m j ≡ some v)
  lookup-mem [] j h = absurd (ground arith)
  lookup-mem ((k', v') ∷ m) j h = elim (Bool-cases (k' == j)) [
    | inl e ↦ (v', rw e refl)
    | inr e ↦ let (v, q) = lookup-mem m j (ground arith) in (v, rw e q)
  ]

  pub mem-lookup :
      (m : List (ℕ × V)) (j : ℕ) (v : V) → lookup (◌==◌) m j ≡ some v → mem j (keys m) ≡ true
  mem-lookup [] j v h = absurd (ground arith)
  mem-lookup ((k', v') ∷ m) j v h = elim (Bool-cases (k' == j)) [
    | inl e ↦ rw e refl
    | inr e ↦ rw e (mem-lookup m j v (ground arith))
  ]
