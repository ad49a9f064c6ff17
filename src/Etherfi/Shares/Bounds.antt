-- ===== src/Etherfi/Shares/Bounds.antt =====
-- What the liquidity providers are given, against what the pool holds.
use native.Mathlib.Nat.{mul-le-mul_right, le_of_mul-le-mul_right}
use d8x_etherfi.Base.{
  ℕ, suc, zero, ◌+◌, ◌*◌, ◌/◌, ◌≤◌, ◌<◌, ◌≡◌, refl, ap, sym, List, [], ◌∷◌, map, arith, length,
}
use d8x_etherfi.Base.Int.{ℤ, pos, ◌+ℤ◌, ◌*ℤ◌, ◌≤ℤ◌, div, int_laws}
use d8x_etherfi.Etherfi.Shares.{share, shares}

abbrev pub sum : List ℕ → ℕ
sum [] = 0
sum (x ∷ xs) = x + sum xs

abbrev pub sum_ℤ : List ℤ → ℤ
sum_ℤ [] = pos 0
sum_ℤ (x ∷ xs) = x +ℤ sum_ℤ xs

-- The attribution on amounts that are not negative.
share_ℕ : ℕ → ℕ → ℕ → ℕ
share_ℕ pool supply bal = bal * pool / supply

share-pos :
    (pool supply bal : ℕ) → share (pos pool) (pos supply) (pos bal) ≡ pos (share_ℕ pool supply bal)
unfolding share share_ℕ div ◌*ℤ◌
share-pos pool supply zero = ground arith
share-pos pool supply (suc b) = ground arith

sum_ℕ : ℕ → ℕ → List ℕ → ℕ
sum_ℕ pool supply [] = 0
sum_ℕ pool supply (b ∷ bs) = share_ℕ pool supply b + sum_ℕ pool supply bs

shares-pos :
    (pool supply : ℕ) (bals : List ℕ)
    → sum_ℤ (shares (pos pool) (pos supply) (map pos bals)) ≡ pos (sum_ℕ pool supply bals)
unfolding shares sum_ℕ
shares-pos pool supply [] = refl
shares-pos pool supply (b ∷ bs) =
    rw (share-pos pool supply b, shares-pos pool supply bs) (omega int_laws)

-- Multiplied by the supply, the sum of the rounded shares is below the exact product by at
-- most one unit for each provider.
sum_ℕ-bounds :
    (pool supply : ℕ) (bals : List ℕ)
    → 0 < supply
    → (sum_ℕ pool supply bals * supply ≤ sum bals * pool)
      × (sum bals * pool ≤ sum_ℕ pool supply bals * supply + length bals * supply)
unfolding sum_ℕ share_ℕ
sum_ℕ-bounds pool supply [] h = (omega arith, omega arith)
sum_ℕ-bounds pool supply (b ∷ bs) h =
    let (low, high) = sum_ℕ-bounds pool supply bs h in (grind arith, grind arith)

-- The providers' part: with shares that are not negative and add up to at most the supply, the sum of
-- what is attributed is at most what is left in the pool; and if they add up to the supply, it falls
-- short by at most one unit for each provider.
pub shares_bounds :
    (pool supply : ℕ) (bals : List ℕ)
    → 0 < supply
    → sum bals ≤ supply
    → (sum_ℤ (shares (pos pool) (pos supply) (map pos bals)) ≤ℤ pos pool)
      × (sum bals ≡ supply
          → pos pool ≤ℤ sum_ℤ (shares (pos pool) (pos supply) (map pos bals)) +ℤ pos (length bals))
shares_bounds pool supply bals h le =
    let (low, high) = sum_ℕ-bounds pool supply bals h in
    rw (shares-pos pool supply bals) (
      let held : sum_ℕ pool supply bals ≤ pool =
            le_of_mul-le-mul_right {k = supply} (omega (arith, mul-le-mul_right pool le)) h in
          omega arith,
      λ all.
          let exact : supply * pool ≡ sum bals * pool = ap (λ s. s * pool) (sym all) in
          let whole : pool ≤ sum_ℕ pool supply bals + length bals =
            le_of_mul-le-mul_right {k = supply} (omega arith) h in
          omega int_laws,
    )

pub length-shares :
    (pool supply : ℤ) (bals : List ℤ) → length (shares pool supply bals) ≡ length bals
unfolding shares
length-shares pool supply [] = refl
length-shares pool supply (b ∷ bs) = ap suc (length-shares pool supply bs)
