-- ===== src/Sync/Digest/Entries.antt =====
-- The ordered list of entries does what a BTreeMap does.
use meow_ny.Common.{
  ◌≡◌, refl, true, false, none, some, [], ◌∷◌, ◌++◌, arith, All, All-map, ap, ◌∙◌, if◌then◌else◌,
  Bool-cases, inl, inr,
}
use meow_ny.Common.Text.{Text, text_eq, text_eq_iff, text_eq_comm, text_leb}
use meow_ny.Common.Order.{text_ltb, text_leb_antisym, text_ltb_trans, text_ltb-ne}
use meow_ny.Sync.Digest.{Entry, Entries, get, insert, IsOrdered}

pub get-insert :
    (e : Entry) (id : Text) (es : Entries)
    → get id (insert e es) ≡ (if text_eq e.sync_id id then some e else get id es)
unfolding get insert
get-insert e id [] = refl
get-insert e id (x ∷ xs) = ground (
  arith,
  get-insert e id xs,
  text_eq_iff e.sync_id x.sync_id,
  text_eq_iff x.sync_id id,
  text_eq_iff e.sync_id id,
)

abbrev pub Above : Text → Entries → Type 0
Above id = All (λ f. text_ltb id f.sync_id ≡ true)

Above-insert :
    (id : Text) (e : Entry) (es : Entries)
    → text_ltb id e.sync_id ≡ true
    → Above id es
    → Above id (insert e es)
unfolding insert
Above-insert id e [] h k = (h, tt)
Above-insert id e (x ∷ xs) h k = elim (Bool-cases (text_eq e.sync_id x.sync_id)) [
  | inl same ↦ rw same (h, k.1)
  | inr other ↦ rw other (elim (Bool-cases (text_leb e.sync_id x.sync_id)) [
    | inl before ↦ rw before (h, k)
    | inr after ↦ rw after (k.0, Above-insert id e xs h k.1)
  ])
]

lower_bound : (e x : Text) (xs : Entries) → text_ltb e x ≡ true → Above x xs → Above e xs
lower_bound e x xs h = All-map _ _ (λ f. text_ltb_trans e x f.sync_id h) xs

pub insert-IsOrdered : (e : Entry) (es : Entries) → IsOrdered es → IsOrdered (insert e es)
unfolding insert
insert-IsOrdered e [] h = (tt, tt)
insert-IsOrdered e (x ∷ xs) h = elim (Bool-cases (text_eq e.sync_id x.sync_id)) [
  | inl same ↦ let eq : e.sync_id ≡ x.sync_id = (text_eq_iff _ _).0 same in rw same (rw eq h.0, h.1)
  | inr other ↦ rw other (elim (Bool-cases (text_leb e.sync_id x.sync_id)) [
    | inl before ↦
        let less : text_ltb e.sync_id x.sync_id ≡ true =
          ground (arith, text_leb_antisym e.sync_id x.sync_id, text_eq_iff e.sync_id x.sync_id) in
        rw before ((less, lower_bound e.sync_id x.sync_id xs less h.0), h)
    | inr after ↦
        let less : text_ltb x.sync_id e.sync_id ≡ true = ground arith in
        rw after (Above-insert x.sync_id e xs less h.0, insert-IsOrdered e xs h.1)
  ])
]

-- An entry after all others is put at the end.
pub insert_last :
    (e : Entry) (es : Entries)
    → All (λ f. text_ltb f.sync_id e.sync_id ≡ true) es
    → insert e es ≡ es ++ e ∷ []
unfolding insert
insert_last e [] h = refl
insert_last e (x ∷ xs) h =
    let differ : text_eq e.sync_id x.sync_id ≡ false =
      text_eq_comm e.sync_id x.sync_id ∙ text_ltb-ne x.sync_id e.sync_id h.0 in
    let after : text_leb e.sync_id x.sync_id ≡ false = ground arith in
    rw (differ, after) (ap (◌∷◌ x) (insert_last e xs h.1))

-- No entry is above itself.
pub get-Above : (id : Text) (es : Entries) → Above id es → get id es ≡ none
unfolding get
get-Above id [] h = refl
get-Above id (x ∷ xs) h =
    ground (arith, text_eq_comm id x.sync_id, text_ltb-ne id x.sync_id h.0, get-Above id xs h.1)

pub get_before :
    (id : Text) (es : Entries) → All (λ f. text_ltb f.sync_id id ≡ true) es → get id es ≡ none
unfolding get
get_before id [] h = refl
get_before id (x ∷ xs) h = ground (arith, text_ltb-ne x.sync_id id h.0, get_before id xs h.1)

pub get-id : (id : Text) (es : Entries) {e : Entry} → get id es ≡ some e → e.sync_id ≡ id
unfolding get
get-id id [] h = absurd (cc)
get-id id (x ∷ xs) {e} h = ground (arith, text_eq_iff x.sync_id id, get-id id xs {e = e})
