-- ===== src/Canon/Order.antt =====
-- internal/canon/canon.go: `emit` on values whose fields stand in different orders.
use opgate.Base.{Bool, List, [], ◌∷◌, ◌≡◌, ◌≢◌, refl, ap, ◌∙◌, arith}
use opgate.Base.Bytes.{leb_bytes, leb_bytes_antisym, leb_bytes_total, leb_bytes_trans}
use opgate.Canon.Text.{Runes, utf8_text}
use opgate.Canon.{
  Value, array, object, Items, nil, cons, Fields, end, field, Member, insert_member, sort_members,
  emit_object, emit, emit_items, emit_fields,
}

-- The fields in another order. Fields that change places have different keys.
pub data Permuted : Fields → Fields → Type 0 where
  done : (fs : Fields) → Permuted fs fs
  skip :
      {fs gs : Fields} (k : Runes) (v : Value)
      → Permuted fs gs
      → Permuted (field k v fs) (field k v gs)
  swap :
      (j k : Runes) (v w : Value) (fs : Fields)
      → utf8_text j ≢ utf8_text k
      → Permuted (field j v (field k w fs)) (field k w (field j v fs))
  trans : {fs gs hs : Fields} → Permuted fs gs → Permuted gs hs → Permuted fs hs

-- The same value but for the order of fields, at any depth.
mutual
  pub data Same : Value → Value → Type 0 where
    same : (v : Value) → Same v v
    arrays : {xs ys : Items} → SameItems xs ys → Same (array xs) (array ys)
    objects : {fs gs hs : Fields} → SameFields fs gs → Permuted gs hs → Same (object fs) (object hs)

  pub data SameItems : Items → Items → Type 0 where
    nils : SameItems nil nil
    conses :
        {v w : Value} {xs ys : Items}
        → Same v w
        → SameItems xs ys
        → SameItems (cons v xs) (cons w ys)

  pub data SameFields : Fields → Fields → Type 0 where
    ends : SameFields end end
    fields :
        {v w : Value} {fs gs : Fields} (k : Runes)
        → Same v w
        → SameFields fs gs
        → SameFields (field k v fs) (field k w gs)

abbrev before : Member → Member → Bool
before m n = leb_bytes (utf8_text m.key) (utf8_text n.key)

insert_member_comm :
    (m n : Member) (l : List Member)
    → utf8_text m.key ≢ utf8_text n.key
    → insert_member m (insert_member n l) ≡ insert_member n (insert_member m l)
unfolding insert_member
insert_member_comm m n [] h = ground (
  arith,
  leb_bytes_total (utf8_text m.key) (utf8_text n.key),
  leb_bytes_antisym (utf8_text m.key) (utf8_text n.key),
)
insert_member_comm m n (o ∷ l) h = ground (
  arith,
  insert_member_comm m n l h,
  leb_bytes_total (utf8_text m.key) (utf8_text n.key),
  leb_bytes_total (utf8_text m.key) (utf8_text o.key),
  leb_bytes_total (utf8_text n.key) (utf8_text o.key),
  leb_bytes_antisym (utf8_text m.key) (utf8_text n.key),
  leb_bytes_trans (utf8_text m.key) (utf8_text n.key) (utf8_text o.key),
  leb_bytes_trans (utf8_text n.key) (utf8_text m.key) (utf8_text o.key),
  leb_bytes_trans (utf8_text m.key) (utf8_text o.key) (utf8_text n.key),
  leb_bytes_trans (utf8_text n.key) (utf8_text o.key) (utf8_text m.key),
)

sort_members-Permuted :
    {fs gs : Fields}
    → Permuted fs gs
    → sort_members (emit_fields fs) ≡ sort_members (emit_fields gs)
unfolding sort_members emit
sort_members-Permuted (done fs) = refl
sort_members-Permuted (skip k v p) = ap (insert_member _) (sort_members-Permuted p)
sort_members-Permuted (swap j k v w fs h) = insert_member_comm _ _ _ h
sort_members-Permuted (trans p q) = sort_members-Permuted p ∙ sort_members-Permuted q

emit_object-ext :
    (ms ns : List Member) → sort_members ms ≡ sort_members ns → emit_object ms ≡ emit_object ns
unfolding emit_object
emit_object-ext ms ns h = rw h

mutual
  unfolding emit

  emit-eq : {v w : Value} → Same v w → emit v ≡ emit w
  emit-eq (same v) = refl
  emit-eq (arrays p) = rw (emit_items-eq p)
  emit-eq (objects p q) = rw (emit_fields-eq p) (emit_object-ext _ _ (sort_members-Permuted q))

  emit_items-eq : {xs ys : Items} → SameItems xs ys → emit_items xs ≡ emit_items ys
  emit_items-eq nils = refl
  emit_items-eq (conses h t) = rw (emit-eq h, emit_items-eq t)

  emit_fields-eq : {fs gs : Fields} → SameFields fs gs → emit_fields fs ≡ emit_fields gs
  emit_fields-eq ends = refl
  emit_fields-eq (fields k h t) = rw (emit-eq h, emit_fields-eq t)

-- Values that differ only in the order of fields, at any depth, have one canonical form.
pub emit-Same : {v w : Value} → Same v w → emit v ≡ emit w
emit-Same h = emit-eq h
