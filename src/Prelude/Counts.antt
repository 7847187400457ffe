-- ===== src/Prelude/Counts.antt =====
-- How often an item is in a list, which a permutation does not change.
use Prim.Native.Nat.{ℕ, ◌+◌}
use mathlib.Core.Path.{◌≡◌, refl, ◌∙◌}
use mathlib.Core.List.{List, [], ◌∷◌, ◌++◌, Perm}
use mathlib.Core.List.{Permᴰ}
use mathlib.Core.Logic.{∥∥₁_elim}
use native.Mathlib.Omega.{arith}
use native.Mathlib.Nat.{ℕ_set}
use serverbox.Prelude.Tests.{if◌then◌else◌, ◌==◌}

abbrev pub count : ℕ → List ℕ → ℕ
count t [] = 0
count t (x ∷ xs) = (if x == t then 1 else 0) + count t xs

pub count-append : (t : ℕ) (xs ys : List ℕ) → count t (xs ++ ys) ≡ count t xs + count t ys
count-append t [] ys = omega arith
count-append t (x ∷ xs) ys = omega (arith, count-append t xs ys)

count-Permᴰ : (t : ℕ) (xs ys : List ℕ) → Permᴰ xs ys → count t xs ≡ count t ys
count-Permᴰ t _ _ Permᴰ.nil = refl
count-Permᴰ t _ _ (Permᴰ.cons {a = a} {b = b} {l₁ = xs} {l₂ = ys} e p) =
    ground (arith, e, count-Permᴰ t xs ys p)
count-Permᴰ t _ _ (Permᴰ.swap {a = a} {b = b} {a' = c} {b' = d} {l = xs} e f) = ground (arith, e, f)
count-Permᴰ t _ _ (Permᴰ.trans {l₁ = xs} {l₂ = ys} {l₃ = zs} p q) =
    count-Permᴰ t xs ys p ∙ count-Permᴰ t ys zs q

pub count-Perm : (t : ℕ) (xs ys : List ℕ) → Perm xs ys → count t xs ≡ count t ys
count-Perm t xs ys p = ∥∥₁_elim p (ℕ_set (count t xs) (count t ys)) (count-Permᴰ t xs ys)
