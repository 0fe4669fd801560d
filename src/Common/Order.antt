-- ===== src/Common/Order.antt =====
-- The order of texts is a total order, and its strict form.
use meow_ny.Common.{◌≡◌, refl, arith, Bool, true, false, not, [], ◌∷◌, Bool-cases, inl, inr}
use meow_ny.Common.Text.{Text, text_leb, text_eq, text_eq_iff}

-- `str::cmp` is `Less`.
abbrev pub text_ltb : Text → Text → Bool
text_ltb s t = not (text_leb t s)

pub text_leb_refl : (s : Text) → text_leb s s ≡ true
text_leb_refl [] = refl
text_leb_refl (c ∷ s) = ground (arith, text_leb_refl s)

pub text_leb_total : (s t : Text) → text_leb s t ≡ false → text_leb t s ≡ true
text_leb_total [] t h = absurd (cc)
text_leb_total (c ∷ s) [] h = refl
text_leb_total (c ∷ s) (d ∷ t) h = ground (arith, text_leb_total s t)

pub text_leb_antisym : (s t : Text) → text_leb s t ≡ true → text_leb t s ≡ true → s ≡ t
text_leb_antisym [] [] h k = refl
text_leb_antisym [] (d ∷ t) h k = absurd (cc)
text_leb_antisym (c ∷ s) [] h k = absurd (cc)
text_leb_antisym (c ∷ s) (d ∷ t) h k = ground (arith, text_leb_antisym s t)

pub text_leb_trans :
    (s t u : Text) → text_leb s t ≡ true → text_leb t u ≡ true → text_leb s u ≡ true
text_leb_trans [] t u h k = refl
text_leb_trans (c ∷ s) [] u h k = absurd (cc)
text_leb_trans (c ∷ s) (d ∷ t) [] h k = absurd (cc)
text_leb_trans (c ∷ s) (d ∷ t) (e ∷ u) h k = ground (arith, text_leb_trans s t u)

pub text_ltb_trans :
    (s t u : Text) → text_ltb s t ≡ true → text_ltb t u ≡ true → text_ltb s u ≡ true
text_ltb_trans s t u h k = elim (Bool-cases (text_leb u s)) [
  | inl e ↦ ground (arith, text_leb_trans t u s (text_leb_total u t (ground arith)) e)
  | inr e ↦ ground arith
]

pub text_ltb-ne : (s t : Text) → text_ltb s t ≡ true → text_eq s t ≡ false
text_ltb-ne s t h = ground (arith, (text_eq_iff s t).0, text_leb_refl s)
