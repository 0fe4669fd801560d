-- ===== src/Recurring/First.antt =====
-- The searches of `first_on_or_after` and `next_after`: what they find is the first occurrence that
-- fits.
use meow_ny.Common.{
  ℕ, zero, suc, ◌≤◌, ◌<◌, ◌≡◌, subst, Bool, true, false, some, arith, ltb, ◌==◌, inl, inr,
  Bool-cases, Option-cases,
}
use meow_ny.Fields.{Calendar}
use meow_ny.Store.{IntervalUnit}
use meow_ny.Recurring.{u32_size, due_date, search, next_after}

module _ (c : Calendar) where
  -- The occurrence of number `k` is the first one that fits.
  pub record IsFirst (fits : c.Day → Bool) (start : c.Day) (unit : IntervalUnit) (count from : ℕ)
      (due : c.Day) : Type 0 where
    pub k : ℕ
    pub after_from : from ≤ k
    pub is_due : due_date c start unit count k ≡ some due
    pub does_fit : fits due ≡ true
    pub before :
        (j : ℕ)
        → from ≤ j
        → j < k
        → (e : c.Day) × (due_date c start unit count j ≡ some e) × (fits e ≡ false)

  pub search-IsFirst :
      (fits : c.Day → Bool) (start : c.Day) (unit : IntervalUnit) (count fuel from : ℕ)
      (due : c.Day)
      → search c fits start unit count fuel from ≡ some due
      → IsFirst fits start unit count from due
  unfolding search
  search-IsFirst fits start unit count zero from due e = absurd (cc)
  search-IsFirst fits start unit count (suc fuel) from due e =
      elim (Option-cases (due_date c start unit count from)) [
        | inl off ↦ absurd (ground arith)
        | inr (d, here) ↦ elim (Bool-cases (fits d)) [
          | inl found ↦
              let same : d ≡ due = ground arith in
              record {
                k = from;
                after_from = omega arith;
                is_due = rw (← same) here;
                does_fit = rw (← same) found;
                before = λ j lo hi. absurd (omega arith);
              }
          | inr passed ↦
              let rest = search-IsFirst fits start unit count fuel (suc from) due (ground arith) in
              let later = rest.after_from in
              record {
                k = rest.k;
                after_from = omega arith;
                is_due = rest.is_due;
                does_fit = rest.does_fit;
                before = λ j lo hi. elim (Bool-cases (j == from)) [
                  | inl first ↦
                      let same : from ≡ j = ground arith in
                      subst
                        (λ i.
                          (x : c.Day) × (due_date c start unit count i ≡ some x) × (fits x ≡ false))
                        same (d, here, passed)
                  | inr other ↦ rest.before j (ground arith) hi
                ];
              }
        ]
      ]

  -- The next due date is the first occurrence after the date: no occurrence with a lower number is
  -- after it.
  pub next_after-first :
      (start : c.Day) (unit : IntervalUnit) (count : ℕ) (date due : c.Day)
      → next_after c start unit count date ≡ some due
      → (k : ℕ) × (due_date c start unit count k ≡ some due)
        × (c.number date < c.number due)
        × ((j : ℕ)
            → j < k
            → (e : c.Day) × (due_date c start unit count j ≡ some e) × (c.number e ≤ c.number date))
  unfolding next_after
  next_after-first start unit count date due e =
      let r =
        search-IsFirst (λ d. ltb (c.number date) (c.number d)) start unit count u32_size 0 due e in
      let does = r.does_fit in
      (
        r.k,
        r.is_due,
        ground arith,
        λ j lt.
            let (x, is_due, not_after) = r.before j (omega arith) lt in (x, is_due, ground arith),
      )
