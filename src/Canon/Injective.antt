-- ===== src/Canon/Injective.antt =====
-- internal/canon/canon.go: what the canonical form says of a value.
use opgate.Base.{
  zero, true, false, List, [], ◌∷◌, ◌++◌, map, ◌≡◌, ◌≢◌, ◌↔◌, refl, sym, ap, subst, ◌∙◌, All, drop,
  head, inl, inr,
}
use opgate.Canon.Text.{Runes, write_string}
use opgate.Canon.{
  Value, null, boolean, number, text, array, object, Items, nil, cons, Fields, end, field, Member,
  write_member, sort_members, emit_object, emit, emit_items, emit_fields,
}
use opgate.Canon.Order.{
  trans, Same, SameItems, SameFields, same, arrays, objects, nils, conses, ends, fields, emit-Same,
}
use opgate.Canon.Reader.{Whole}
use opgate.Canon.Joined.{IsPart, join_commas-injective}
use opgate.Canon.Regular.{
  WholeMember, emit-Whole, emit-nonempty, emit_fields-Whole, sort_members-All,
  map-write_member-Whole,
}
use opgate.Canon.Unescape.{IsScalar, write_string-injective}
use opgate.Canon.Sorted.{
  AllFields, Distinct, sort_fields, emit_fields-sort, sort_fields-AllFields, sort_fields-Permuted,
  Permuted-sym, Permuted-SameFields,
}
use opgate.Canon.Sound.{
  IsSound, AreSound, HaveSound, sound-IsRegular, sound-HaveRegular, kind, tag, tag-emit, runes_of,
  items_of, fields_of, forms,
}

-- A value whose canonical form only values have that differ in the order of fields.
Determined : Value → Type 0
Determined v = (w : Value) → IsSound w → emit v ≡ emit w → Same v w

same_kind : (v w : Value) → IsSound v → IsSound w → emit v ≡ emit w → kind w ≡ kind v
same_kind v w h k e = sym (tag-emit w k) ∙ sym (ap tag e) ∙ tag-emit v h

from_eq : (v w : Value) → v ≡ w → Same v w
from_eq v w e = subst (Same v) e (same v)

text-Determined : (s : Runes) → All IsScalar s → Determined (text s)
unfolding Determined kind emit IsSound
text-Determined s h w k e =
    let form = (forms w).3 (same_kind (text s) w h k e) in
    from_eq (text s) w (
      ap text
        (write_string-injective s (runes_of w) [] [] h (subst IsSound form k)
          (ap (λ x. x ++ []) (e ∙ ap emit form))).0
      ∙ sym form)

AllItems : (Value → Type 0) → Items → Type 0
AllItems P nil = Unit
AllItems P (cons v vs) = P v × AllItems P vs

items-Same :
    (xs ys : Items)
    → AllItems Determined xs
    → AreSound ys
    → emit_items xs ≡ emit_items ys
    → SameItems xs ys
unfolding AllItems Determined emit IsSound
items-Same nil nil h k e = nils
items-Same nil (cons w ws) h k e = cc
items-Same (cons v vs) nil h k e = cc
items-Same (cons v vs) (cons w ws) (h, hs) (k, ks) e =
    conses (h w k (ap (head []) e)) (items-Same vs ws hs ks (ap (drop 1) e))

items-All : (xs : Items) → AreSound xs → All IsPart (emit_items xs)
unfolding emit IsSound
items-All nil h = tt
items-All (cons v vs) (h, hs) = (
  (emit-Whole zero v (sound-IsRegular v h), emit-nonempty v (sound-IsRegular v h)),
  items-All vs hs,
)

array-Determined : (xs : Items) → AreSound xs → AllItems Determined xs → Determined (array xs)
unfolding Determined kind emit IsSound
array-Determined xs h ds w k e =
    let form = (forms w).4 (same_kind (array xs) w h k e) in
    let sound : AreSound (items_of w) = subst IsSound form k in
    subst (Same (array xs)) (sym form) (
      arrays (
        items-Same xs (items_of w) ds sound (
          join_commas-injective b']' (inl refl) (emit_items xs) (emit_items (items_of w))
            (items-All xs h) (items-All (items_of w) sound) (ap (drop 1) (e ∙ ap emit form)))))

-- The key of a field is of scalar values, and its value is sound, or determined.
SoundField : Runes → Value → Type 0
SoundField k v = All IsScalar k × IsSound v

DeterminedField : Runes → Value → Type 0
DeterminedField k v = All IsScalar k × Determined v

sound-AllFields : (fs : Fields) → HaveSound fs → AllFields SoundField fs
unfolding IsSound SoundField
sound-AllFields end h = tt
sound-AllFields (field k v fs) (s, h, _, hs) = ((s, h), sound-AllFields fs hs)

sound-Distinct : (fs : Fields) → HaveSound fs → Distinct fs
unfolding IsSound
sound-Distinct end h = tt
sound-Distinct (field k v fs) (_, _, apart, hs) = (apart, sound-Distinct fs hs)

fields-Same :
    (fs gs : Fields)
    → AllFields DeterminedField fs
    → AllFields SoundField gs
    → map write_member (emit_fields fs) ≡ map write_member (emit_fields gs)
    → SameFields fs gs
unfolding DeterminedField SoundField Determined emit write_member
fields-Same end end h k e = ends
fields-Same end (field j w gs) h k e = cc
fields-Same (field i v fs) end h k e = cc
fields-Same (field i v fs) (field j w gs) ((s, h), hs) ((t, k), ks) e =
    let (keys, values) =
      write_string-injective i j (b':' ∷ emit v) (b':' ∷ emit w) s t (ap (head []) e) in
    subst (λ l. SameFields (field i v fs) (field l w gs)) keys
      (fields i (h w k (ap (drop 1) values)) (fields-Same fs gs hs ks (ap (drop 1) e)))

write_member-nonempty : (m : Member) → write_member m ≢ []
unfolding write_member write_string
write_member-nonempty m e = cc

members-All :
    (ms : List Member) → All (Whole zero) (map write_member ms) → All IsPart (map write_member ms)
members-All [] h = tt
members-All (m ∷ ms) (h, hs) = ((h, write_member-nonempty m), members-All ms hs)

sorted-All :
    (fs : Fields) → HaveSound fs → All IsPart (map write_member (sort_members (emit_fields fs)))
sorted-All fs h = members-All (sort_members (emit_fields fs)) (
    map-write_member-Whole zero (sort_members (emit_fields fs)) (
      sort_members-All (WholeMember zero) (emit_fields fs)
        (emit_fields-Whole zero fs (sound-HaveRegular fs h))))

object-Determined :
    (fs : Fields) → HaveSound fs → AllFields DeterminedField fs → Determined (object fs)
unfolding Determined kind emit emit_object IsSound
object-Determined fs h ds w k e =
    let form = (forms w).5 (same_kind (object fs) w h k e) in
    let gs = fields_of w in
    let sound : HaveSound gs = subst IsSound form k in
    let written : map write_member (emit_fields (sort_fields fs))
        ≡ map write_member (emit_fields (sort_fields gs)) =
      ap (map write_member) (emit_fields-sort fs)
      ∙ join_commas-injective b'}' (inr refl) _ _ (sorted-All fs h) (sorted-All gs sound)
          (ap (drop 1) (e ∙ ap emit form))
      ∙ sym (ap (map write_member) (emit_fields-sort gs)) in
    let (hs, pointwise, order) =
      Permuted-SameFields (sort_fields-Permuted fs (sound-Distinct fs h)) (
        fields-Same (sort_fields fs) (sort_fields gs) (sort_fields-AllFields DeterminedField fs ds)
          (sort_fields-AllFields SoundField gs (sound-AllFields gs sound)) written) in
    subst (Same (object fs)) (sym form) (
      objects pointwise
        (trans order (Permuted-sym (sort_fields-Permuted gs (sound-Distinct gs sound)))))

mutual
  unfolding Determined DeterminedField emit IsSound kind AllItems

  determined : (v : Value) → IsSound v → Determined v
  determined null h = λ w k e. from_eq null w (sym ((forms w).0 (same_kind null w h k e)))
  determined (boolean true) h =
      λ w k e. from_eq (boolean true) w (sym ((forms w).1 (same_kind (boolean true) w h k e)))
  determined (boolean false) h =
      λ w k e. from_eq (boolean false) w (sym ((forms w).2 (same_kind (boolean false) w h k e)))
  determined (number x) h = λ w k e.
      let form = (forms w).6 (same_kind (number x) w h k e) in
      from_eq (number x) w (ap number (e ∙ ap emit form) ∙ sym form)
  determined (text s) h = text-Determined s h
  determined (array xs) h = array-Determined xs h (all_items xs h)
  determined (object fs) h = object-Determined fs h (all_fields fs h)

  all_items : (xs : Items) → AreSound xs → AllItems Determined xs
  all_items nil h = tt
  all_items (cons v vs) (h, hs) = (determined v h, all_items vs hs)

  all_fields : (fs : Fields) → HaveSound fs → AllFields DeterminedField fs
  all_fields end h = tt
  all_fields (field k v fs) (s, h, _, hs) = ((s, determined v h), all_fields fs hs)

-- Two values, as the decoder gives them, have one canonical form exactly if they differ only in the
-- order of fields, at any depth.
pub emit-Same_iff : (v w : Value) → IsSound v → IsSound w → (emit v ≡ emit w) ↔ Same v w
unfolding Determined
emit-Same_iff v w h k = (λ e. determined v h w k e, λ s. emit-Same s)
