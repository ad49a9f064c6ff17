-- ===== src/Etherfi/NewApp/Pool.antt =====
-- What `NewApp` takes of the SDK's lists for the configured pool.
use d8x_etherfi.Base.{ℕ, ◌≡◌, ◌↔◌, refl, ap, sym, ◌∙◌, ◌⊎◌, inl, inr, List, [], ◌∷◌, Bool-cases}
use mathlib.Core.Bool.{false≢true}
use mathlib.Core.List.{Memᴰ}
use mathlib.Core.List.Memᴰ.{head, tail}
use d8x_etherfi.Base.Int.{ℤ, eqb_ℤ, eqb_ℤ_iff}
use d8x_etherfi.Etherfi.NewApp.{Perpetual, PoolInfo, perp_ids_of, tokens_of}

-- A perpetual of the list belongs to the pool and has the id.
abbrev pub IsPerp : ℤ → List Perpetual → ℤ → Type 0
IsPerp pool_id perps id = (p : Perpetual) × Memᴰ p perps × (p.pool_id ≡ pool_id) × (p.id ≡ id)

at_tail :
    {pool_id : ℤ} {perp : Perpetual} {perps : List Perpetual} {id : ℤ}
    → IsPerp pool_id perps id
    → IsPerp pool_id (perp ∷ perps) id
at_tail (p, m, is, named) = (p, tail m, is, named)

pub perp_ids_of-IsPerp :
    (pool_id : ℤ) (perps : List Perpetual) (id : ℤ)
    → Memᴰ id (perp_ids_of pool_id perps) ↔ IsPerp pool_id perps id
unfolding perp_ids_of
perp_ids_of-IsPerp pool_id [] id = (λ m. elim m [ ], λ (p, m, _, _). elim m [ ])
perp_ids_of-IsPerp pool_id (perp ∷ perps) id =
    let (to, from) = perp_ids_of-IsPerp pool_id perps id in
    elim (Bool-cases (eqb_ℤ perp.pool_id pool_id)) [
      | inl q ↦
          let same = (eqb_ℤ_iff perp.pool_id pool_id).0 q in
          rw (perp_ids_of, q)
            (
              λ m. elim m [ head e ↦ (perp, head refl, same, sym e) | tail m ↦ at_tail (to m) ],
              λ (p, m, is, named). elim m [
                | head e ↦ head (sym named ∙ ap (λ r. r.id) e)
                | tail m ↦ tail (from (p, m, is, named))
              ],
            )
      | inr q ↦
          rw (perp_ids_of, q)
            (
              λ m. at_tail (to m),
              λ (p, m, is, named). elim m [
                | head e ↦ absurd (
                    false≢true (
                      sym q
                      ∙ (eqb_ℤ_iff perp.pool_id pool_id).1 (sym (ap (λ r. r.pool_id) e) ∙ is)))
                | tail m ↦ from (p, m, is, named)
              ],
            )
    ]

-- A pool of the list has the id and the two tokens.
abbrev pub IsPool : ℤ → List PoolInfo → ℕ × ℕ → Type 0
IsPool pool_id pools (margin, share) =
    (p : PoolInfo) × Memᴰ p pools
    × (p.pool_id ≡ pool_id)
    × (p.pool_margin_token_addr ≡ margin)
    × (p.share_token_addr ≡ share)

pub tokens_of-IsPool :
    (pool_id : ℤ) (pools : List PoolInfo)
    → (tokens_of pool_id pools ≡ (0, 0)) ⊎ IsPool pool_id pools (tokens_of pool_id pools)
unfolding tokens_of
tokens_of-IsPool pool_id [] = inl refl
tokens_of-IsPool pool_id (pool ∷ pools) = elim (Bool-cases (eqb_ℤ pool.pool_id pool_id)) [
  | inl q ↦
      rw (tokens_of, q) (inr (pool, head refl, (eqb_ℤ_iff pool.pool_id pool_id).0 q, refl, refl))
  | inr q ↦
      rw (tokens_of, q)
        (elim (tokens_of-IsPool pool_id pools) [
          | inl none_there ↦ inl none_there
          | inr (p, m, is, margin, share) ↦ inr (p, tail m, is, margin, share)
        ])
]
