-- ===== src/Uploader/Pool/Workers.antt =====
-- Sums and predicates over the workers under a write to one of them.
use cloudreve_desktop.Prelude.{
  get_elem?, set, All, ℕ, zero, suc, ◌+◌, ◌≡◌, ap, subst, some, List, [], ◌∷◌, ◌++◌, arith, ◌≤◌,
}
use cloudreve_desktop.Uploader.Pool.{Worker, total}

pub total-set :
    (f : Worker → ℕ) (ws : List Worker) (i : ℕ) (w v : Worker)
    → get_elem? ws i ≡ some w
    → total f (set ws i v) + f w ≡ total f ws + f v
total-set f [] i w v h = cc
total-set f (u ∷ ws) zero w v h = let e : u ≡ w = cc in omega (arith, ap f e)
total-set f (u ∷ ws) (suc i) w v h = omega (arith, total-set f ws i w v h)

-- A worker counts towards the sum.
pub le-total :
    (f : Worker → ℕ) (ws : List Worker) (i : ℕ) (w : Worker)
    → get_elem? ws i ≡ some w
    → f w ≤ total f ws
le-total f [] i w h = cc
le-total f (u ∷ ws) zero w h = let e : u ≡ w = cc in omega (arith, ap f e)
le-total f (u ∷ ws) (suc i) w h = omega (arith, le-total f ws i w h)

pub total-append :
    (f : Worker → ℕ) (ws us : List Worker) → total f (ws ++ us) ≡ total f ws + total f us
total-append f [] us = omega arith
total-append f (w ∷ ws) us = omega (arith, total-append f ws us)

module _ {ℓ} (P : Worker → Type ℓ) where
  pub All-set : (ws : List Worker) (i : ℕ) (v : Worker) → P v → All P ws → All P (set ws i v)
  All-set [] i v p h = tt
  All-set (w ∷ ws) zero v p h = (p, h.1)
  All-set (w ∷ ws) (suc i) v p h = (h.0, All-set ws i v p h.1)

  pub All-get : (ws : List Worker) (i : ℕ) (w : Worker) → get_elem? ws i ≡ some w → All P ws → P w
  All-get [] i w e h = cc
  All-get (u ∷ ws) zero w e h = let same : u ≡ w = cc in subst P same h.0
  All-get (u ∷ ws) (suc i) w e h = All-get ws i w e h.1

  pub All-snoc : (ws : List Worker) (v : Worker) → P v → All P ws → All P (ws ++ v ∷ [])
  All-snoc [] v p h = (p, tt)
  All-snoc (w ∷ ws) v p h = (h.0, All-snoc ws v p h.1)
