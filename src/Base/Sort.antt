-- ===== src/Base/Sort.antt =====
-- std::sort by an order in which two elements that do not differ are equal: the result is then the
-- one sorted list of the elements, which the insertion sort computes.
use mathlib.Core.Path.{◌≡◌, refl}
use mathlib.Core.Bool.{Bool, true, false}
use mathlib.Core.List.{List, [], ◌∷◌, foldr, Perm}
use mathlib.Core.List.Perm
use native.Mathlib.Omega.{arith}
use blocxxi.Base.Tests.{if◌then◌else◌}
use blocxxi.Base.Text.{Bytes, bytes_lt}

-- A strict total order.
pub record IsOrder {ℓ} {A : Type ℓ} (less : A → A → Bool) : Type ℓ where
  pub asym : (x y : A) → less x y ≡ true → less y x ≡ false
  pub total : (x y : A) → less x y ≡ false → less y x ≡ false → x ≡ y
  pub trans : (x y z : A) → less x y ≡ true → less y z ≡ true → less x z ≡ true

module _ {ℓ} {A : Type ℓ} (less : A → A → Bool) where
  unfoldable pub insert : A → List A → List A
  insert x [] = x ∷ []
  insert x (y ∷ ys) = let after = insert x ys in if less y x then y ∷ after else x ∷ y ∷ ys

  unfoldable pub sort : List A → List A
  unfolding insert
  sort xs = foldr insert [] xs

  module _ (o : IsOrder less) where
    insert_comm : (x y : A) (l : List A) → insert x (insert y l) ≡ insert y (insert x l)
    unfolding insert
    insert_comm x y [] = ground (arith, o.asym x y, o.asym y x, o.total x y)
    insert_comm x y (z ∷ l) = ground (
      arith,
      insert_comm x y l,
      o.asym x y,
      o.asym y x,
      o.total x y,
      o.trans z y x,
      o.trans z x y,
    )

    list_set : IsSet A → IsSet (List A)
    list_set s = hlevel

    -- Lists of the same elements are sorted to the same list.
    pub sort-Perm : IsSet A → {xs ys : List A} → Perm xs ys → sort xs ≡ sort ys
    unfolding sort
    sort-Perm s p = Perm.foldr-eq (list_set s) insert insert_comm p []

bytes_lt_asym : (x y : Bytes) → bytes_lt x y ≡ true → bytes_lt y x ≡ false
unfolding bytes_lt
bytes_lt_asym [] [] h = refl
bytes_lt_asym [] (b ∷ y) h = refl
bytes_lt_asym (a ∷ x) [] h = cc
bytes_lt_asym (a ∷ x) (b ∷ y) h = ground (arith, bytes_lt_asym x y)

bytes_lt_total : (x y : Bytes) → bytes_lt x y ≡ false → bytes_lt y x ≡ false → x ≡ y
unfolding bytes_lt
bytes_lt_total [] [] h k = refl
bytes_lt_total [] (b ∷ y) h k = cc
bytes_lt_total (a ∷ x) [] h k = cc
bytes_lt_total (a ∷ x) (b ∷ y) h k = ground (arith, bytes_lt_total x y)

bytes_lt_trans : (x y z : Bytes) → bytes_lt x y ≡ true → bytes_lt y z ≡ true → bytes_lt x z ≡ true
unfolding bytes_lt
bytes_lt_trans [] [] z h k = cc
bytes_lt_trans (a ∷ x) [] z h k = cc
bytes_lt_trans [] (b ∷ y) [] h k = cc
bytes_lt_trans [] (b ∷ y) (c ∷ z) h k = refl
bytes_lt_trans (a ∷ x) (b ∷ y) [] h k = cc
bytes_lt_trans (a ∷ x) (b ∷ y) (c ∷ z) h k = ground (arith, bytes_lt_trans x y z)

pub bytes_lt-IsOrder : IsOrder bytes_lt
bytes_lt-IsOrder = record { asym = bytes_lt_asym; total = bytes_lt_total; trans = bytes_lt_trans }
