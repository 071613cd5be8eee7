-- ===== src/Canon/Sorted.antt =====
-- internal/canon/canon.go: the fields of an object in the order in which `emit` writes them.
use opgate.Base.{◌∷◌, ◌≡◌, ◌≢◌, refl, sym, ap, ◌∙◌, Bool-cases, inl, inr, if◌then◌else◌, if_case}
use opgate.Base.Bytes.{leb_bytes}
use opgate.Canon.Text.{Runes, utf8_text}
use opgate.Canon.{Value, Fields, end, field, insert_member, sort_members, emit, emit_fields}
use opgate.Canon.Order.{Permuted, done, skip, swap, trans, SameFields, fields}

-- What holds of every field.
abbrev pub AllFields : (Runes → Value → Type 0) → Fields → Type 0
AllFields P end = Unit
AllFields P (field k v fs) = P k v × AllFields P fs

-- A key that no field has.
abbrev pub Apart : Runes → Fields → Type 0
Apart k = AllFields (λ j _. utf8_text k ≢ utf8_text j)

-- `insert_member` and `sort_members` on fields.
unfoldable pub insert_field : Runes → Value → Fields → Fields
insert_field k v end = field k v end
insert_field k v (field j w fs) =
    let behind = insert_field k v fs in
    if leb_bytes (utf8_text k) (utf8_text j) then field k v (field j w fs) else field j w behind

unfoldable pub sort_fields : Fields → Fields
unfolding insert_field
sort_fields end = end
sort_fields (field k v fs) = insert_field k v (sort_fields fs)

emit_fields-insert :
    (k : Runes) (v : Value) (fs : Fields)
    → emit_fields (insert_field k v fs)
      ≡ insert_member (record { key = k; written = emit v }) (emit_fields fs)
unfolding emit insert_field insert_member
emit_fields-insert k v end = refl
emit_fields-insert k v (field j w fs) = elim (Bool-cases (leb_bytes (utf8_text k) (utf8_text j))) [
  | inl e ↦ rw e refl
  | inr e ↦ rw e (ap (◌∷◌ (record { key = j; written = emit w })) (emit_fields-insert k v fs))
]

-- `emit` writes the fields in sorted order.
pub emit_fields-sort : (fs : Fields) → emit_fields (sort_fields fs) ≡ sort_members (emit_fields fs)
unfolding emit sort_fields sort_members
emit_fields-sort end = refl
emit_fields-sort (field k v fs) =
    emit_fields-insert k v (sort_fields fs) ∙ ap (insert_member _) (emit_fields-sort fs)

insert_field-AllFields :
    (P : Runes → Value → Type 0) (k : Runes) (v : Value) (fs : Fields)
    → P k v
    → AllFields P fs
    → AllFields P (insert_field k v fs)
unfolding insert_field
insert_field-AllFields P k v end h hs = (h, tt)
insert_field-AllFields P k v (field j w fs) h (g, gs) =
    if_case (AllFields P) (leb_bytes (utf8_text k) (utf8_text j)) _ _ (λ _. (h, (g, gs)))
      (λ _. (g, insert_field-AllFields P k v fs h gs))

pub sort_fields-AllFields :
    (P : Runes → Value → Type 0) (fs : Fields) → AllFields P fs → AllFields P (sort_fields fs)
unfolding sort_fields
sort_fields-AllFields P end h = tt
sort_fields-AllFields P (field k v fs) (h, hs) =
    insert_field-AllFields P k v (sort_fields fs) h (sort_fields-AllFields P fs hs)

insert_field-Permuted :
    (k : Runes) (v : Value) (fs : Fields)
    → Apart k fs
    → Permuted (field k v fs) (insert_field k v fs)
unfolding insert_field
insert_field-Permuted k v end h = done (field k v end)
insert_field-Permuted k v (field j w fs) (h, hs) =
    if_case (Permuted (field k v (field j w fs))) (leb_bytes (utf8_text k) (utf8_text j)) _ _
      (λ _. done (field k v (field j w fs)))
      (λ _. trans (swap k j v w fs h) (skip j w (insert_field-Permuted k v fs hs)))

-- No two fields have one key.
abbrev pub Distinct : Fields → Type 0
Distinct end = Unit
Distinct (field k v fs) = Apart k fs × Distinct fs

pub sort_fields-Permuted : (fs : Fields) → Distinct fs → Permuted fs (sort_fields fs)
unfolding sort_fields
sort_fields-Permuted end h = done end
sort_fields-Permuted (field k v fs) (h, hs) =
    trans (skip k v (sort_fields-Permuted fs hs))
      (insert_field-Permuted k v (sort_fields fs) (sort_fields-AllFields _ fs h))

pub Permuted-sym : {fs gs : Fields} → Permuted fs gs → Permuted gs fs
Permuted-sym (done fs) = done fs
Permuted-sym (skip k v p) = skip k v (Permuted-sym p)
Permuted-sym (swap j k v w fs h) = swap k j w v fs (λ e. h (sym e))
Permuted-sym (trans p q) = trans (Permuted-sym q) (Permuted-sym p)

-- Another order and other values of the same fields can be taken the other way round.
pub Permuted-SameFields :
    {fs gs hs : Fields}
    → Permuted fs gs
    → SameFields gs hs
    → (is : Fields) × SameFields fs is × Permuted is hs
Permuted-SameFields (done fs) s = (_, s, done _)
Permuted-SameFields (skip k v p) (fields _ h s) =
    let (is, t, q) = Permuted-SameFields p s in (_, fields k h t, skip k _ q)
Permuted-SameFields (swap j k v w fs n) (fields _ h (fields _ g s)) =
    (_, fields j g (fields k h s), swap j k _ _ _ n)
Permuted-SameFields (trans p q) s =
    let (is, t, r) = Permuted-SameFields q s in
    let (js, u, o) = Permuted-SameFields p t in (js, u, trans o r)
