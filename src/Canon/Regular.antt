-- ===== src/Canon/Regular.antt =====
-- internal/canon/canon.go: what `emit` writes for a value, through the reader.
use opgate.Base.{ℕ, suc, true, false, List, [], ◌∷◌, map, ◌≢◌, refl, All, if_case, inl, inr}
use opgate.Base.Bytes.{leb_bytes}
use opgate.Canon.Text.{utf8_text, write_string}
use opgate.Canon.{
  Value, null, boolean, number, text, array, object, Items, nil, cons, Fields, end, field, Member,
  join_commas, write_member, insert_member, sort_members, emit_object, emit, emit_items,
  emit_fields,
}
use opgate.Canon.Reader.{
  Whole, Whole-append, write_string-Whole, IsLexeme, lexeme-Whole, null-Whole, boolean-Whole,
  colon-Whole, join_commas-Whole, enclosed-Whole,
}

abbrev pub WholeMember : ℕ → Member → Type 0
WholeMember d m = Whole d m.written

insert_member-All :
    (P : Member → Type 0) (m : Member) (ms : List Member)
    → P m
    → All P ms
    → All P (insert_member m ms)
unfolding insert_member
insert_member-All P m [] h hs = (h, tt)
insert_member-All P m (n ∷ ns) h (k, ks) =
    if_case (All P) (leb_bytes (utf8_text m.key) (utf8_text n.key)) _ _ (λ _. (h, (k, ks)))
      (λ _. (k, insert_member-All P m ns h ks))

pub sort_members-All : (P : Member → Type 0) (ms : List Member) → All P ms → All P (sort_members ms)
unfolding sort_members
sort_members-All P [] h = tt
sort_members-All P (m ∷ ms) (h, hs) =
    insert_member-All P m (sort_members ms) h (sort_members-All P ms hs)

write_member-Whole : (d : ℕ) (m : Member) → WholeMember d m → Whole d (write_member m)
unfolding write_member
write_member-Whole d m h =
    Whole-append d (write_string m.key) (b':' ∷ m.written) (write_string-Whole d m.key)
      (Whole-append d (b':' ∷ []) m.written (colon-Whole d) h)

pub map-write_member-Whole :
    (d : ℕ) (ms : List Member) → All (WholeMember d) ms → All (Whole d) (map write_member ms)
map-write_member-Whole d [] h = tt
map-write_member-Whole d (m ∷ ms) (h, hs) =
    (write_member-Whole d m h, map-write_member-Whole d ms hs)

emit_object-Whole :
    (d : ℕ) (ms : List Member) → All (WholeMember (suc d)) ms → Whole d (emit_object ms)
unfolding emit_object
emit_object-Whole d ms h =
    enclosed-Whole d b'{' b'}' (join_commas (map write_member (sort_members ms))) (inr refl)
      (inr refl)
      (join_commas-Whole d (map write_member (sort_members ms)) (
        map-write_member-Whole (suc d) (sort_members ms)
          (sort_members-All (WholeMember (suc d)) ms h)))

-- The numbers of a value are written as JSON writes them, as the decoder's are.
unfoldable mutual
  pub IsRegular : Value → Type 0
  IsRegular null = Unit
  IsRegular (boolean b) = Unit
  IsRegular (number x) = IsLexeme x
  IsRegular (text s) = Unit
  IsRegular (array xs) = AreRegular xs
  IsRegular (object fs) = HaveRegular fs

  pub AreRegular : Items → Type 0
  AreRegular nil = Unit
  AreRegular (cons v vs) = IsRegular v × AreRegular vs

  pub HaveRegular : Fields → Type 0
  HaveRegular end = Unit
  HaveRegular (field k v fs) = IsRegular v × HaveRegular fs

mutual
  unfolding emit IsRegular

  pub emit-Whole : (d : ℕ) (v : Value) → IsRegular v → Whole d (emit v)
  emit-Whole d null h = null-Whole d
  emit-Whole d (boolean b) h = boolean-Whole d b
  emit-Whole d (number x) h = lexeme-Whole d x h.1
  emit-Whole d (text s) h = write_string-Whole d s
  emit-Whole d (array xs) h =
      enclosed-Whole d b'[' b']' (join_commas (emit_items xs)) (inl refl) (inl refl)
        (join_commas-Whole d (emit_items xs) (emit_items-Whole (suc d) xs h))
  emit-Whole d (object fs) h = emit_object-Whole d (emit_fields fs) (emit_fields-Whole (suc d) fs h)

  pub emit_items-Whole : (d : ℕ) (xs : Items) → AreRegular xs → All (Whole d) (emit_items xs)
  emit_items-Whole d nil h = tt
  emit_items-Whole d (cons v vs) (h, hs) = (emit-Whole d v h, emit_items-Whole d vs hs)

  pub emit_fields-Whole :
      (d : ℕ) (fs : Fields) → HaveRegular fs → All (WholeMember d) (emit_fields fs)
  emit_fields-Whole d end h = tt
  emit_fields-Whole d (field k v fs) (h, hs) = (emit-Whole d v h, emit_fields-Whole d fs hs)

pub emit-nonempty : (v : Value) → IsRegular v → emit v ≢ []
unfolding emit IsRegular emit_object write_string
emit-nonempty null h e = cc
emit-nonempty (boolean true) h e = cc
emit-nonempty (boolean false) h e = cc
emit-nonempty (number x) h e = h.0 e
emit-nonempty (text s) h e = cc
emit-nonempty (array xs) h e = cc
emit-nonempty (object fs) h e = cc
