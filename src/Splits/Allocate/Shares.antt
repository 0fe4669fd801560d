-- ===== src/Splits/Allocate/Shares.antt =====
-- What the parts that `allocate` makes come to, and where the odd cents go.
use meow_ny.Common.{
  ℕ, suc, zero, [], ◌∷◌, ◌∙◌, ◌+◌, ◌-◌, ◌*◌, ◌≤◌, ◌<◌, ◌≡◌, refl, ap, ◌≢◌, subst, ◌⊎◌, true, List,
  map, arith, sum, take, drop, length, get_or, All, All-map, length-map,
}
use meow_ny.Common.Int.{pos}
use meow_ny.Common.Error.{ok}
use meow_ny.Common.Sort.{sort, IsSorted, sort-All, sum-sort, sort-IsSorted}
use meow_ny.Splits.Allocate.{share, remainder, remainders, not_after, shares, allocate}
use meow_ny.Splits.Allocate.Bumps.{
  hit, hits, hits-take, Within, All-take, hits-All, length-bump_all, sum-bump_all, get_or-bump_all,
  not_after_total, not_after-ne, not_after_trans,
}
use meow_ny.Splits.Allocate.Order.{
  first, remainders-sum, remainders-lt, Belongs, remainders-Belongs, hits-remainders, take_positive,
  take-before-drop,
}

quotient_le : (a p t r : ℕ) → 0 < a → r + a * p ≡ t * a → p ≤ t
quotient_le a p t r h e = grind arith

quotient_rest_add : (a p d r : ℕ) → r + a * p ≡ (p + d) * a → r ≡ a * d
quotient_rest_add a p d r e = omega arith

quotient_rest : (a p t r : ℕ) → p ≤ t → r + a * p ≡ t * a → r ≡ a * (t - p)
quotient_rest a p t r h e =
    let whole : t ≡ p + (t - p) = omega arith in
    quotient_rest_add a p (t - p) r (subst (λ (x : ℕ). r + a * p ≡ x * a) whole e)

-- The facts that the theorems below share, for a total and weights that are not all 0.
module _ (total : ℕ) (ws : List ℕ) (some_weight : 0 < sum ws) where
  abbrev parts : List ℕ
  parts = map (share total (sum ws)) ws

  abbrev left : ℕ
  left = total - sum parts

  abbrev queue : List (ℕ × ℕ)
  queue = sort not_after (remainders total (sum ws) 0 ws)

  queue-IsSorted : IsSorted not_after queue
  queue-IsSorted = sort-IsSorted not_after not_after_total not_after_trans _

  queue-Belongs : All (Belongs total (sum ws) 0 ws) queue
  queue-Belongs = sort-All not_after _ _ (remainders-Belongs total (sum ws) 0 ws)

  pub parts-le : sum parts ≤ total
  parts-le =
      quotient_le (sum ws) (sum parts) total _ some_weight (remainders-sum total (sum ws) 0 ws)

  sum-queue : sum (map first queue) ≡ sum ws * left
  sum-queue =
      rw (sum-sort not_after first (remainders total (sum ws) 0 ws))
        (quotient_rest (sum ws) (sum parts) total _ parts-le (remainders-sum total (sum ws) 0 ws))

  top : All (λ e. 0 < e.0) (take left queue) × (length (take left queue) ≡ left)
  top =
      take_positive (sum ws) left queue some_weight queue-IsSorted
        (sort-All not_after _ _ (remainders-lt total (sum ws) some_weight 0 ws))
        (omega (arith, sum-queue))

  queue-Within : Within (length parts) queue
  queue-Within = rw (length-map ws (share total (sum ws))) (
      All-map (Belongs total (sum ws) 0 ws) (λ e. e.1 < length ws) (λ e b. omega (arith, b.1)) queue
        queue-Belongs)

  top-Within : Within (length parts) (take left queue)
  top-Within = All-take _ left queue queue-Within

  get_or-shares :
      (i : ℕ) → get_or (shares total (sum ws) ws) i 0 ≡ get_or parts i 0 + hits i (take left queue)
  unfolding shares
  get_or-shares i = get_or-bump_all i (take left queue) parts top-Within

  pub hits-queue : (i : ℕ) → i < length ws → hits i queue ≡ 1
  hits-queue i h =
      rw (sum-sort not_after (hit i) (remainders total (sum ws) 0 ws))
        (hits-remainders total (sum ws) i 0 ws (omega arith) (omega arith))

  pub top-length : length (take left queue) ≡ left
  top-length = top.1

  abbrev rest_at : ℕ → ℕ
  rest_at i = remainder total (sum ws) (get_or ws i 0)

  own_entry : (e : ℕ × ℕ) → Belongs total (sum ws) 0 ws e → e.0 ≡ rest_at e.1
  own_entry (r, q) b =
      let same : q - 0 ≡ q = omega arith in
      subst (λ x. r ≡ remainder total (sum ws) (get_or ws x 0)) same b.2

  queue-own : All (λ e. e.0 ≡ rest_at e.1) queue
  queue-own = All-map _ _ own_entry queue queue-Belongs

  pub top_rest : (i : ℕ) → 0 < hits i (take left queue) → 0 < rest_at i
  top_rest i = hits-All (λ q. 0 < rest_at q) i (take left queue) (positive_own _ top.0 own)
    where
      own : All (λ e. e.0 ≡ rest_at e.1) (take left queue)
      own = All-take _ left queue queue-own

      positive_own :
          (l : List (ℕ × ℕ))
          → All (λ e. 0 < e.0) l
          → All (λ e. e.0 ≡ rest_at e.1) l
          → All (λ e. 0 < rest_at e.1) l
      positive_own [] f g = tt
      positive_own (e ∷ l) f g = (omega arith, positive_own l f.1 g.1)

  pub top_first :
      (i j : ℕ)
      → 0 < hits i (take left queue)
      → 0 < hits j (drop left queue)
      → not_after (rest_at i, i) (rest_at j, j) ≡ true
  top_first i j = take-before-drop rest_at i j left queue queue-IsSorted queue-own

-- Weights that are not all 0 are always served: there is a part for each weight, and the parts add
-- up to the total to the cent.
pub allocate-sum :
    (total : ℕ) (ws : List ℕ)
    → 0 < sum ws
    → (ps : List ℕ) × (allocate (pos total) ws ≡ ok ps) × (length ps ≡ length ws) × (sum ps ≡ total)
unfolding allocate shares
allocate-sum total ws h = (
  shares total (sum ws) ws,
  ground arith,
  length-bump_all (take (left total ws h) (queue total ws h)) (parts total ws h)
      ∙ length-map ws (share total (sum ws)),
  omega (
    arith,
    sum-bump_all (take (left total ws h) (queue total ws h)) (parts total ws h)
        (top-Within total ws h),
    top-length total ws h,
    parts-le total ws h,
  ),
)

allocate-eq-shares :
    (total : ℕ) (ws ps : List ℕ)
    → allocate (pos total) ws ≡ ok ps
    → (0 < sum ws) × (ps ≡ shares total (sum ws) ws)
unfolding allocate
allocate-eq-shares total ws ps e = ground arith

get_or-map :
    (f : ℕ → ℕ) (i : ℕ) (xs : List ℕ) → i < length xs → get_or (map f xs) i 0 ≡ f (get_or xs i 0)
get_or-map f i [] h = absurd (omega arith)
get_or-map f zero (x ∷ xs) h = refl
get_or-map f (suc i) (x ∷ xs) h = get_or-map f i xs (omega arith)

-- A part is the rounded share and the cents that its position was awarded.
part_at :
    (total : ℕ) (ws ps : List ℕ) (i : ℕ) (h : 0 < sum ws)
    → ps ≡ shares total (sum ws) ws
    → i < length ws
    → (get_or ps i 0
        ≡ share total (sum ws) (get_or ws i 0) + hits i (take (left total ws h) (queue total ws h)))
      × (hits i (take (left total ws h) (queue total ws h))
            + hits i (drop (left total ws h) (queue total ws h))
          ≡ 1)
part_at total ws ps i h same lt = (
  rw same (rw (get_or-shares total ws h i) (rw (get_or-map (share total (sum ws)) i ws lt))),
  hits-take i (left total ws h) (queue total ws h) ∙ hits-queue total ws h i lt,
)

-- Every part is the exact share of its weight rounded down, or one cent more, and one cent more only
-- where the exact share is no whole number of cents. (So a weight of 0 gets 0.)
pub allocate-near :
    (total : ℕ) (ws ps : List ℕ) (i : ℕ)
    → allocate (pos total) ws ≡ ok ps
    → i < length ws
    → (get_or ps i 0 ≡ share total (sum ws) (get_or ws i 0))
      ⊎ ((get_or ps i 0 ≡ share total (sum ws) (get_or ws i 0) + 1)
          × (0 < remainder total (sum ws) (get_or ws i 0)))
allocate-near total ws ps i e lt =
    let (h, same) = allocate-eq-shares total ws ps e in
    ground (arith, part_at total ws ps i h same lt, top_rest total ws h i)

-- Of two people with an odd part of a cent, the one who gets the cent more has the larger part, or
-- the same and the lower position.
pub allocate_odd_cents :
    (total : ℕ) (ws ps : List ℕ) (i j : ℕ)
    → allocate (pos total) ws ≡ ok ps
    → i < length ws
    → j < length ws
    → get_or ps i 0 ≡ share total (sum ws) (get_or ws i 0) + 1
    → get_or ps j 0 ≡ share total (sum ws) (get_or ws j 0)
    → (remainder total (sum ws) (get_or ws j 0) < remainder total (sum ws) (get_or ws i 0))
      ⊎ ((remainder total (sum ws) (get_or ws i 0) ≡ remainder total (sum ws) (get_or ws j 0))
          × (i < j))
allocate_odd_cents total ws ps i j e li lj more less =
    let (h, same) = allocate-eq-shares total ws ps e in
    let at_i = part_at total ws ps i h same li in
    let at_j = part_at total ws ps j h same lj in
    let first : not_after (rest_at total ws h i, i) (rest_at total ws h j, j) ≡ true =
      top_first total ws h i j (omega arith) (omega arith) in
    let apart : i ≢ j = λ eq.
      omega
        (arith, ap (λ k. get_or ps k 0) eq, ap (λ k. share total (sum ws) (get_or ws k 0)) eq) in
    not_after-ne _ i _ j first apart

pub allocate_total :
    (total : ℕ) (ws ps : List ℕ)
    → allocate (pos total) ws ≡ ok ps
    → (length ps ≡ length ws) × (sum ps ≡ total)
allocate_total total ws ps e =
    let (h, same) = allocate-eq-shares total ws ps e in
    let (qs, made, count, whole) = allocate-sum total ws h in
    let agree : qs ≡ ps = cc in (rw (← agree) count, rw (← agree) whole)
