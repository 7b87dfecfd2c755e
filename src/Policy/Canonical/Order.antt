-- ===== src/Policy/Canonical/Order.antt =====
-- The order of the properties of an object does not matter to its canonical text.
use you_tube_gradian_devin.Common.{Text, true, false, List, [], ◌∷◌, ◌≡◌, ◌≢◌, refl, ◌∙◌, arith}
use you_tube_gradian_devin.Policy.Canonical.Values.{
  Value, Items, Fields, Same, SameItems, SameFields, same_value, same_array, same_object, same_nil,
  same_cons, same_end, same_field, swapped, same_trans,
}
use you_tube_gradian_devin.Policy.Canonical.{
  text_lt, Property, insert, canonicalize, canonicalize_items, sorted_properties,
}

text_lt_asymm : (a b : Text) → text_lt a b ≡ true → text_lt b a ≡ false
unfolding text_lt
text_lt_asymm [] [] h = refl
text_lt_asymm [] (d ∷ b) h = refl
text_lt_asymm (c ∷ a) [] h = cc
text_lt_asymm (c ∷ a) (d ∷ b) h = ground (arith, text_lt_asymm a b)

text_lt_total : (a b : Text) → a ≢ b → text_lt a b ≡ false → text_lt b a ≡ true
unfolding text_lt
text_lt_total [] [] ne h = elim (ne refl) [ ]
text_lt_total [] (d ∷ b) ne h = cc
text_lt_total (c ∷ a) [] ne h = refl
text_lt_total (c ∷ a) (d ∷ b) ne h = ground (arith, text_lt_total a b)

text_lt_mixed : (a b c : Text) → text_lt a b ≡ false → text_lt a c ≡ true → text_lt b c ≡ true
unfolding text_lt
text_lt_mixed [] [] c h k = k
text_lt_mixed [] (y ∷ b) c h k = cc
text_lt_mixed (x ∷ a) b [] h k = cc
text_lt_mixed (x ∷ a) [] (z ∷ c) h k = refl
text_lt_mixed (x ∷ a) (y ∷ b) (z ∷ c) h k = ground (arith, text_lt_mixed a b c)

-- Two properties with different keys may be inserted in either order.
insert_comm :
    (p q : Property) (l : List Property) → p.0 ≢ q.0 → insert p (insert q l) ≡ insert q (insert p l)
unfolding insert
insert_comm p q [] ne = ground (arith, text_lt_asymm (p.0) (q.0), text_lt_total (p.0) (q.0))
insert_comm p q (r ∷ l) ne = ground (
  arith,
  insert_comm p q l ne,
  text_lt_asymm (p.0) (q.0),
  text_lt_total (p.0) (q.0),
  text_lt_mixed (r.0) (p.0) (q.0),
  text_lt_mixed (r.0) (q.0) (p.0),
)

mutual
  unfolding canonicalize

  pub Same-canonicalize : {v w : Value} → Same v w → canonicalize v ≡ canonicalize w
  Same-canonicalize same_value = refl
  Same-canonicalize (same_array h) = rw (SameItems-canonicalize_items h) refl
  Same-canonicalize (same_object h) = rw (SameFields-sorted_properties h) refl

  SameItems-canonicalize_items :
      {xs ys : Items} → SameItems xs ys → canonicalize_items xs ≡ canonicalize_items ys
  SameItems-canonicalize_items same_nil = refl
  SameItems-canonicalize_items (same_cons h k) =
      rw (Same-canonicalize h, SameItems-canonicalize_items k) refl

  SameFields-sorted_properties :
      {fs gs : Fields} → SameFields fs gs → sorted_properties fs ≡ sorted_properties gs
  SameFields-sorted_properties same_end = refl
  SameFields-sorted_properties (same_field h k) =
      rw (Same-canonicalize h, SameFields-sorted_properties k) refl
  SameFields-sorted_properties (swapped {j} {k} {v} {w} {fs} ne) =
      insert_comm (j, canonicalize v) (k, canonicalize w) (sorted_properties fs) ne
  SameFields-sorted_properties (same_trans h k) =
      SameFields-sorted_properties h ∙ SameFields-sorted_properties k

-- The canonical text of a value, or the error that it gives, does not depend on the order in which
-- the properties of its objects stand, at any depth.
pub canonicalize-Same : (v w : Value) → Same v w → canonicalize v ≡ canonicalize w
canonicalize-Same v w h = Same-canonicalize h
