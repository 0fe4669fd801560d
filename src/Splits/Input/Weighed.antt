-- ===== src/Splits/Input/Weighed.antt =====
-- What an accepted split holds: different people, weights that are not all 0, and what is left.
use meow_ny.Common.{
  ℕ, suc, ◌+◌, ◌≤◌, ◌<◌, ◌≡◌, refl, subst, false, ◌&&◌, Option, List, [], ◌∷◌, arith, ◌==◌, all,
  length, length-map, map, sum, inl, inr, Bool-cases, Option-cases,
}
use meow_ny.Common.Int.{pos}
use meow_ny.Common.Text.{Text}
use meow_ny.Common.Error.{Result-cases, ok}
use meow_ny.Store.{Who, Db}
use meow_ny.Splits.Lines.Counting.{Alone, DistinctWho}
use meow_ny.Splits.Input.{
  Mode, equal, percent, shares, exact, Part, SplitInput, Weights, parse_weight, who_of,
  typed_weights, whole_of, my_weight, left_of, weight_of, weighed, even, weights, all_weights,
}
use meow_ny.Splits.Input.Named.{who_of-Distinct, AloneName, DistinctNames, FoldsAscii}

-- The weights that are typed belong to the names, in their order.
typed_weights-Distinct :
    (mode : Mode) (ws : List Who) (ps : List Part) (os : List (Who × ℕ))
    → typed_weights mode ws ps ≡ ok os
    → DistinctNames ws
    → DistinctWho os × (length os ≤ length ws) × ((w : Who) → AloneName w ws → Alone w os)
unfolding typed_weights
typed_weights-Distinct mode [] ps os e d =
    let same : [] ≡ os = cc in
    subst (λ v. DistinctWho v × (length v ≤ 0) × ((w : Who) → Unit {0} → Alone w v)) same
      (tt, omega arith, λ w h. tt)
typed_weights-Distinct mode (w ∷ ws) [] os e d =
    let same : [] ≡ os = cc in
    subst
      (λ v.
        DistinctWho v
        × (length v ≤ suc (length ws))
        × ((u : Who) → AloneName u (w ∷ ws) → Alone u v))
      same (tt, omega arith, λ w h. tt)
typed_weights-Distinct mode (w ∷ ws) (p ∷ ps) os e (d, ds) = elim (Option-cases p.value) [
  | inl nothing ↦ absurd (ground arith)
  | inr (text, typed) ↦ elim (Result-cases (parse_weight mode text)) [
    | inr (_, bad) ↦ absurd (ground arith)
    | inl (weight, read) ↦ elim (Result-cases (typed_weights mode ws ps)) [
      | inr (_, stopped) ↦ absurd (ground arith)
      | inl (rest, went) ↦
          let (apart, few, alone) = typed_weights-Distinct mode ws ps rest went ds in
          let same : ((w, weight) ∷ rest) ≡ os = ground arith in
          subst
            (λ v.
              DistinctWho v
              × (length v ≤ suc (length ws))
              × ((u : Who) → AloneName u (w ∷ ws) → Alone u v))
            same ((alone w d, apart), omega (arith, few), λ u h. (h.0, alone u h.1))
    ]
  ]
]

even-Distinct :
    (ws : List Who)
    → DistinctNames ws
    → DistinctWho (map (λ w. (w, 1)) ws)
      × ((w : Who) → AloneName w ws → Alone w (map (λ w. (w, 1)) ws))
even-Distinct [] d = (tt, λ w h. tt)
even-Distinct (w ∷ ws) (d, ds) =
    let (apart, alone) = even-Distinct ws ds in ((alone w d, apart), λ u h. (h.0, alone u h.1))

-- What an accepted split holds.
pub record Sound (w : Weights) : Type 0 where
  pub distinct : DistinctWho w.others
  pub count : length w.others ≤ 30
  pub some_weight : 0 < sum (all_weights w)

positive_of :
    (mine : ℕ) (os : List (Who × ℕ))
    → ((mine == 0) && all (λ (o : Who × ℕ). o.1 == 0) os) ≡ false
    → 0 < mine + sum (map (λ (o : Who × ℕ). o.1) os)
positive_of mine [] h = ground arith
positive_of mine ((w, a) ∷ os) h = ground (arith, positive_of mine os)

weighed-Sound :
    (mode : Mode) (input : SplitInput) (whole : Option ℕ) (ws : List Who) (w : Weights)
    → weighed mode input whole ws ≡ ok w
    → DistinctNames ws
    → length ws ≤ 30
    → Sound w
unfolding weighed
weighed-Sound mode input whole ws w e d n =
    elim (Result-cases (typed_weights mode ws input.parts)) [
      | inr (_, bad) ↦ absurd (ground arith)
      | inl (os, typed) ↦ elim (Result-cases (whole_of mode whole)) [
        | inr (_, bad) ↦ absurd (ground arith)
        | inl (total, known) ↦
            elim (Result-cases (my_weight mode input.mine total (sum (map weight_of os)))) [
              | inr (_, bad) ↦ absurd (ground arith)
              | inl (mine, read) ↦
                  elim (Bool-cases ((mine == 0) && all (λ (o : Who × ℕ). o.1 == 0) os)) [
                    | inl nothing ↦ absurd (ground arith)
                    | inr weight ↦
                        let (apart, few, _) =
                          typed_weights-Distinct mode ws input.parts os typed d in
                        let made : Weights = record {
                          mine = mine;
                          others = os;
                          left = left_of total (sum (map weight_of os)) mine;
                        } in
                        let same : made ≡ w = ground arith in
                        subst Sound same (record {
                          distinct = apart;
                          count = omega (arith, few, n);
                          some_weight = positive_of mine os weight;
                        })
                  ]
            ]
      ]
    ]

even-Sound :
    (input : SplitInput) (ws : List Who) (w : Weights)
    → even input ws ≡ ok w
    → DistinctNames ws
    → length ws ≤ 30
    → Sound w
unfolding even
even-Sound input ws w e d n =
    let made : Weights = record { mine = 1; others = map (λ w. (w, 1)) ws; left = pos 0 } in
    let same : made ≡ w = ground arith in
    subst Sound same (record {
      distinct = (even-Distinct ws d).0;
      count = omega (arith, length-map {B = Who × ℕ} ws (λ w. (w, 1)), n);
      some_weight = omega arith;
    })

module _ (lower : Text → Text) (folds : FoldsAscii lower) where
  -- A split that is accepted has weights for different people, at most 30 besides yours, and they are
  -- not all 0, if `to_lowercase` folds the letters that the index on guests folds.
  pub weights-Sound :
      (db : Db) (input : SplitInput) (whole : Option ℕ) (keep : List ℕ) (w : Weights)
      → weights lower db input whole keep ≡ ok w
      → Sound w
  unfolding weights
  weights-Sound db input whole keep w e = elim (Result-cases (who_of lower db keep input.parts)) [
    | inr (_, bad) ↦ absurd (ground arith)
    | inl (ws, named) ↦
        let (d, _, _, n) = who_of-Distinct lower folds db keep input.parts ws named in
        go input.mode refl ws named d n
  ]
    where
      go :
          (mode : Mode)
          → input.mode ≡ mode
          → (ws : List Who) → who_of lower db keep input.parts ≡ ok ws
          → DistinctNames ws
          → length ws ≤ 30
          → Sound w
      go equal m ws named d n = even-Sound input ws w (ground arith) d n
      go percent m ws named d n = weighed-Sound percent input whole ws w (ground arith) d n
      go shares m ws named d n = weighed-Sound shares input whole ws w (ground arith) d n
      go exact m ws named d n = weighed-Sound exact input whole ws w (ground arith) d n
