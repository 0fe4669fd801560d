-- ===== src/Documents/Kinds/Reads.antt =====
-- Reads of bytes that end with a value, inside the file.
use meow_ny.Common.{
  ℕ, zero, suc, ◌+◌, ◌-◌, ◌*◌, ◌^◌, ◌≤◌, ◌<◌, ◌≡◌, refl, Bool, true, false, Option, none, some, [],
  ◌∷◌, arith, length, take, drop, if◌then◌else◌, All,
}
use meow_ny.Documents.Kinds.{
  Run, returns, ◌>>=◌, Bytes, Size, index, slice, nonzero, be16, le16, le24, be32, le32,
}

-- The run does not panic, and what it returns is as said.
pub data Ends {A : Type 0} (P : A → Type 0) : Run A → Type 0 where
  returned : (a : A) → P a → Ends P (returns a)

pub Ends-inv :
    {A : Type 0} {P : A → Type 0} {r : Run A} → Ends P r → (a : A) × (r ≡ returns a) × P a
Ends-inv (returned a p) = (a, refl, p)

pub bind-Ends :
    {A B : Type 0} {P : A → Type 0} {Q : B → Type 0} {r : Run A} {f : A → Run B}
    → Ends P r
    → ((a : A) → P a → Ends Q (f a))
    → Ends Q (r >>= f)
bind-Ends (returned a p) h = h a p

pub if-Ends :
    {A : Type 0} {P : A → Type 0} {r q : Run A} (b : Bool)
    → (b ≡ true → Ends P r)
    → (b ≡ false → Ends P q)
    → Ends P (if b then r else q)
if-Ends true h k = h refl
if-Ends false h k = k refl

abbrev pub AreBytes : Bytes → Type 0
AreBytes = All (λ x. x < 256)

abbrev pub Below : ℕ → ℕ → Type 0
Below n x = x < n

abbrev pub Whatever : {A : Type 0} → A → Type 0
Whatever a = Unit

pub index-Ends : (b : Bytes) (i : ℕ) → AreBytes b → i < length b → Ends (Below 256) (index b i)
unfolding index
index-Ends [] i h within = absurd (omega (arith, within))
index-Ends (x ∷ b) zero h within = returned x h.0
index-Ends (x ∷ b) (suc i) h within = index-Ends b i h.1 (omega (arith, within))

pub within :
    (b : Bytes) (from to : ℕ)
    → from ≤ to
    → to ≤ length b
    → slice b from to ≡ returns (take (to - from) (drop from b))
unfolding slice
within b from to h k = ground arith

pub slice-Ends :
    (b : Bytes) (from to : ℕ) → from ≤ to → to ≤ length b → Ends Whatever (slice b from to)
slice-Ends b from to h k = rw (within b from to h k) (returned (take (to - from) (drop from b)) tt)

-- A size that is found is above nothing and below 2 ^ 32 on each side.
abbrev pub Fits : Option Size → Type 0
Fits none = Unit
Fits (some (w, h)) = (0 < w) × (0 < h) × (w < 2 ^ 32) × (h < 2 ^ 32)

pub nonzero-Fits : (w h : ℕ) → w < 2 ^ 32 → h < 2 ^ 32 → Ends Fits (returns (nonzero w h))
nonzero-Fits w h small small' = returned (nonzero w h) (ground arith)

module _ (b : Bytes) (bytes : AreBytes b) where
  pub be16-Ends : (i : ℕ) → i + 2 ≤ length b → Ends (Below 65536) (be16 b i)
  unfolding be16
  be16-Ends i h = bind-Ends (index-Ends b i bytes (omega arith)) λ x small.
      bind-Ends (index-Ends b (i + 1) bytes (omega arith))
        λ y small'. returned (x * 256 + y) (omega arith)

  pub le16-Ends : (i : ℕ) → i + 2 ≤ length b → Ends (Below 65536) (le16 b i)
  unfolding le16
  le16-Ends i h = bind-Ends (index-Ends b i bytes (omega arith)) λ x small.
      bind-Ends (index-Ends b (i + 1) bytes (omega arith))
        λ y small'. returned (x + y * 256) (omega arith)

  pub le24-Ends : (i : ℕ) → i + 3 ≤ length b → Ends (Below 16777216) (le24 b i)
  unfolding le24
  le24-Ends i h = bind-Ends (index-Ends b i bytes (omega arith)) λ x small.
      bind-Ends (index-Ends b (i + 1) bytes (omega arith)) λ y small'.
        bind-Ends (index-Ends b (i + 2) bytes (omega arith))
          λ z small''. returned (x + y * 256 + z * 65536) (omega arith)

  pub be32-Ends : (i : ℕ) → i + 4 ≤ length b → Ends (Below 4294967296) (be32 b i)
  unfolding be32
  be32-Ends i h = bind-Ends (be16-Ends i (omega arith)) λ x small.
      bind-Ends (be16-Ends (i + 2) (omega arith)) λ y small'. returned (x * 65536 + y) (omega arith)

  pub le32-Ends : (i : ℕ) → i + 4 ≤ length b → Ends (Below 4294967296) (le32 b i)
  unfolding le32
  le32-Ends i h = bind-Ends (le16-Ends i (omega arith)) λ x small.
      bind-Ends (le16-Ends (i + 2) (omega arith)) λ y small'. returned (x + y * 65536) (omega arith)
