-- ===== src/Proxy/Threads/Count.antt =====
-- Sums over the threads, and numbers of requests of a kind.
use cs537_operating_system_u.Base.{
  ℕ, zero, suc, ◌+◌, ◌≤◌, ◌<◌, ◌≡◌, refl, ap, List, [], ◌∷◌, ◌++◌, some, arith, if◌then◌else◌,
  replicate, get_elem?, set, Bool, Bool-cases, inl, inr, ltb,
}
use cs537_operating_system_u.Base.Int.{ltb_ℤ}
use cs537_operating_system_u.Proxy.Queue.{ClientRequest}
use cs537_operating_system_u.Proxy.Queue.Spec.{insert}

module _ {ℓ} {A : Type ℓ} (w : A → ℕ) where
  abbrev pub total : List A → ℕ
  total [] = 0
  total (x ∷ xs) = w x + total xs

  pub total-set :
      (xs : List A) (i : ℕ) {x : A} (y : A)
      → get_elem? xs i ≡ some x
      → total (set xs i y) + w x ≡ total xs + w y
  total-set [] i y e = absurd (cc)
  total-set (x' ∷ xs) zero {x} y e = let same : x' ≡ x = cc in omega (arith, ap w same)
  total-set (x' ∷ xs) (suc i) y e = omega (arith, total-set xs i y e)

  pub total-append : (xs ys : List A) → total (xs ++ ys) ≡ total xs + total ys
  total-append [] ys = omega arith
  total-append (x ∷ xs) ys = omega (arith, total-append xs ys)

  pub total-replicate_zero : (n : ℕ) (x : A) → w x ≡ 0 → total (replicate n x) ≡ 0
  total-replicate_zero zero x e = refl
  total-replicate_zero (suc n) x e = omega (arith, e, total-replicate_zero n x e)

  pub total_pos :
      (xs : List A) → 0 < total xs → (i : ℕ) × (x : A) × (get_elem? xs i ≡ some x) × (0 < w x)
  total_pos [] h = absurd (omega arith)
  total_pos (x ∷ xs) h = elim (Bool-cases (ltb 0 (w x))) [
    | inl here ↦ (0, x, refl, ground arith)
    | inr not_here ↦ let (i, y, e, more) = total_pos xs (ground (arith, h)) in (suc i, y, e, more)
  ]

  pub le-total : (xs : List A) (i : ℕ) {x : A} → get_elem? xs i ≡ some x → w x ≤ total xs
  le-total [] i e = absurd (cc)
  le-total (y ∷ ys) zero {x} e = let same : y ≡ x = cc in omega (arith, ap w same)
  le-total (y ∷ ys) (suc i) e = omega (arith, le-total ys i e)

-- The requests that pass a test.
abbrev pub weight : (ClientRequest → Bool) → ClientRequest → ℕ
weight p r = if p r then 1 else 0

abbrev pub count : (ClientRequest → Bool) → List ClientRequest → ℕ
count p rs = total (weight p) rs

pub count-insert :
    (p : ClientRequest → Bool) (r : ClientRequest) (xs : List ClientRequest)
    → count p (insert r xs) ≡ weight p r + count p xs
unfolding insert
count-insert p r [] = refl
count-insert p r (x ∷ xs) = elim (Bool-cases (ltb_ℤ x.priority r.priority)) [
  | inl less ↦ rw (less) refl
  | inr enough ↦ rw (enough) (omega (arith, count-insert p r xs))
]
