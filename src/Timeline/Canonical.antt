-- ===== src/Timeline/Canonical.antt =====
-- What `canonicalise` forgets: the order of the members of every object, and nothing else.
use opa_security_awareness_a.Common.{◌≡◌, ◌≢◌, refl, ap, ◌∙◌, ◌⊎◌, inl, inr, true, [], ◌∷◌, arith}
use opa_security_awareness_a.Common.Text.{Text}
use opa_security_awareness_a.Timeline.Json.{
  Json, array, object, Items, nil, item, Members, end, member, text_leb, insert, canonicalise,
  canonicalise_items, canonicalise_members,
}

text_leb-total : (a b : Text) → (text_leb a b ≡ true) ⊎ (text_leb b a ≡ true)
unfolding text_leb
text_leb-total [] b = inl refl
text_leb-total (x ∷ a) [] = inr refl
text_leb-total (x ∷ a) (y ∷ b) = ground (arith, text_leb-total a b)

text_leb-antisym : (a b : Text) → text_leb a b ≡ true → text_leb b a ≡ true → a ≡ b
unfolding text_leb
text_leb-antisym [] [] h k = refl
text_leb-antisym [] (y ∷ b) h k = cc
text_leb-antisym (x ∷ a) [] h k = cc
text_leb-antisym (x ∷ a) (y ∷ b) h k = ground (arith, text_leb-antisym a b)

text_leb_trans : (a b c : Text) → text_leb a b ≡ true → text_leb b c ≡ true → text_leb a c ≡ true
unfolding text_leb
text_leb_trans [] b c h k = refl
text_leb_trans (x ∷ a) [] c h k = cc
text_leb_trans (x ∷ a) (y ∷ b) [] h k = cc
text_leb_trans (x ∷ a) (y ∷ b) (z ∷ c) h k = ground (arith, text_leb_trans a b c)

insert_comm :
    (k l : Text) (v w : Json) (ms : Members)
    → k ≢ l
    → insert k v (insert l w ms) ≡ insert l w (insert k v ms)
unfolding insert
insert_comm k l v w end h = ground (arith, text_leb-total k l, text_leb-antisym k l)
insert_comm k l v w (member m x ms) h = ground (
  arith,
  text_leb-total k l,
  text_leb-antisym k l,
  text_leb-total k m,
  text_leb-total l m,
  text_leb_trans k l m,
  text_leb_trans l k m,
  text_leb_trans k m l,
  text_leb_trans l m k,
  insert_comm k l v w ms h,
)

-- One value is the other with the members of its objects in another order, at any depth.
mutual
  pub data Reordered : Json → Json → Type 0 where
    same : (j : Json) → Reordered j j
    in_array : {xs ys : Items} → ReorderedItems xs ys → Reordered (array xs) (array ys)
    in_object : {ms ns : Members} → Shuffled ms ns → Reordered (object ms) (object ns)

  pub data ReorderedItems : Items → Items → Type 0 where
    no_item : ReorderedItems nil nil
    each :
        {x y : Json} {xs ys : Items}
        → Reordered x y
        → ReorderedItems xs ys
        → ReorderedItems (item x xs) (item y ys)

  pub data Shuffled : Members → Members → Type 0 where
    no_member : Shuffled end end
    under :
        (k : Text) {v w : Json} {ms ns : Members}
        → Reordered v w
        → Shuffled ms ns
        → Shuffled (member k v ms) (member k w ns)
    swap :
        {k l : Text} (v w : Json) (ms : Members)
        → k ≢ l
        → Shuffled (member k v (member l w ms)) (member l w (member k v ms))
    followed_by : {ms ns os : Members} → Shuffled ms ns → Shuffled ns os → Shuffled ms os

mutual
  unfolding canonicalise canonicalise_items canonicalise_members

  reordered : {j k : Json} → Reordered j k → canonicalise j ≡ canonicalise k
  reordered (same j) = refl
  reordered (in_array r) = ap array (reordered_items r)
  reordered (in_object r) = ap object (shuffled r)

  reordered_items :
      {xs ys : Items} → ReorderedItems xs ys → canonicalise_items xs ≡ canonicalise_items ys
  reordered_items no_item = refl
  reordered_items (each r rs) = cc (reordered r, reordered_items rs)

  shuffled : {ms ns : Members} → Shuffled ms ns → canonicalise_members ms ≡ canonicalise_members ns
  shuffled no_member = refl
  shuffled (under k r rs) = cc (reordered r, shuffled rs)
  shuffled (swap {k} {l} v w ms h) =
      insert_comm k l (canonicalise v) (canonicalise w) (canonicalise_members ms) h
  shuffled (followed_by r s) = shuffled r ∙ shuffled s

-- Two values that differ in the order of the members of their objects only, at any depth, have the
-- same canonical form.
pub canonicalise-Reordered : (j k : Json) → Reordered j k → canonicalise j ≡ canonicalise k
canonicalise-Reordered j k r = reordered r
