-- ===== src/Go/Sort/Least.antt =====
-- The first string that `sort.Strings` leaves.
use agidb_on_chain.Base.{
  ◌+◌, length, ◌≡◌, ◌≢◌, refl, sym, ◌∙◌, ap, true, false, List, [], ◌∷◌, Bytes, beq, beq_iff,
  beq_refl, bytes_ltb, bytes_ltb_irrefl, bytes_ltb_trans, bytes_ltb_total, All, Bool-cases, inl,
  inr, if◌then◌else◌, arith,
}
use agidb_on_chain.Go.Maps.{contains}
use agidb_on_chain.Go.Sort.{insert, sort_strings}

-- `ks[0]`
abbrev pub first_of : List Bytes → Bytes
first_of [] = []
first_of (k ∷ ks) = k

-- `k` is in the list, and nothing in the list is below it
pub record IsLeast (k : Bytes) (ks : List Bytes) : Type 0 where
  pub listed : contains ks k ≡ true
  pub least : All (λ j. bytes_ltb j k ≡ false) ks

not_below_trans :
    (i j k : Bytes) → bytes_ltb i j ≡ false → bytes_ltb j k ≡ false → bytes_ltb i k ≡ false
not_below_trans i j k h g =
    ground (
      arith,
      bytes_ltb_trans i k j,
      bytes_ltb_total j k,
      bytes_ltb_trans j i k,
      bytes_ltb_total i j,
    )

All-not_below :
    (ks : List Bytes) (j k : Bytes)
    → bytes_ltb j k ≡ false
    → All (λ i. bytes_ltb i j ≡ false) ks
    → All (λ i. bytes_ltb i k ≡ false) ks
All-not_below [] j k h a = tt
All-not_below (i ∷ ks) j k h a = (not_below_trans i j k a.0 h, All-not_below ks j k h a.1)

insert-nonempty : (k : Bytes) (s : List Bytes) → insert k s ≢ []
unfolding insert
insert-nonempty k [] h = cc
insert-nonempty k (j ∷ s) h = elim (Bool-cases (bytes_ltb j k)) [
  | inl below ↦ cc (rw below at h)
  | inr above ↦ cc (rw above at h)
]

first_of-insert :
    (k : Bytes) (s : List Bytes)
    → s ≢ []
    → first_of (insert k s) ≡ (if bytes_ltb (first_of s) k then first_of s else k)
unfolding insert
first_of-insert k [] filled = absurd (filled refl)
first_of-insert k (j ∷ s) filled = ground arith

insert-IsLeast :
    (k m : Bytes) (ks : List Bytes)
    → IsLeast m ks
    → IsLeast (if bytes_ltb m k then m else k) (k ∷ ks)
unfolding contains
insert-IsLeast k m ks i = elim (Bool-cases (bytes_ltb m k)) [
  | inl below ↦
      let over : bytes_ltb k m ≡ false =
        ground (arith, bytes_ltb_trans m k m, bytes_ltb_irrefl m) in
      rw below record { listed = ground (arith, i.listed); least = (over, i.least) }
  | inr above ↦ rw above record {
    listed = ground (arith, beq_refl k);
    least = (bytes_ltb_irrefl k, All-not_below ks m k above i.least);
  }
]

-- The first of the sorted strings is the least of them.
pub sort_strings-IsLeast :
    (k : Bytes) (ks : List Bytes) → IsLeast (first_of (sort_strings (k ∷ ks))) (k ∷ ks)
unfolding sort_strings insert contains
sort_strings-IsLeast k [] = record {
  listed = ground (arith, beq_refl k);
  least = (bytes_ltb_irrefl k, tt);
}
sort_strings-IsLeast k (j ∷ ks) =
    let m = first_of (sort_strings (j ∷ ks)) in
    rw (first_of-insert k (sort_strings (j ∷ ks)) (insert-nonempty j (sort_strings ks)))
      (insert-IsLeast k m (j ∷ ks) (sort_strings-IsLeast j ks))

All-contains :
    (ks : List Bytes) (j k : Bytes)
    → All (λ i. bytes_ltb i k ≡ false) ks
    → contains ks j ≡ true
    → bytes_ltb j k ≡ false
unfolding contains
All-contains [] j k a h = cc
All-contains (i ∷ ks) j k a h = elim (Bool-cases (beq i j)) [
  | inl same ↦ ap (λ x. bytes_ltb x k) (sym ((beq_iff i j).0 same)) ∙ a.0
  | inr other ↦ All-contains ks j k a.1 (rw other at h)
]

-- Lists with the same elements have the same least one.
pub IsLeast-unique :
    (j k : Bytes) (js ks : List Bytes)
    → ((i : Bytes) → contains js i ≡ contains ks i)
    → IsLeast j js
    → IsLeast k ks
    → j ≡ k
IsLeast-unique j k js ks same a b =
    bytes_ltb_total j k (All-contains ks j k b.least (sym (same j) ∙ a.listed))
      (All-contains js k j a.least (same k ∙ b.listed))

length-insert : (k : Bytes) (ks : List Bytes) → length (insert k ks) ≡ length ks + 1
unfolding insert
length-insert k [] = refl
length-insert k (j ∷ ks) = ground (arith, length-insert k ks)

pub length-sort_strings : (ks : List Bytes) → length (sort_strings ks) ≡ length ks
unfolding sort_strings
length-sort_strings [] = refl
length-sort_strings (k ∷ ks) =
    omega (arith, length-insert k (sort_strings ks), length-sort_strings ks)
