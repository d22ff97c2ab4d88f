-- ===== src/Go/Sort.antt =====
-- `sort.Strings` and `sort.SearchStrings`. Sorting is by insertion: the order of strings is total,
-- so any sorting gives the same list. The search gives the least index whose string is not below
-- the key, which is what the binary search of the package gives on a sorted list.
pub mod Least
use agidb_on_chain.Base.{
  ℕ, zero, suc, ◌<◌, ◌≡◌, refl, sym, ◌∙◌, ap, ap₂, true, false, List, [], ◌∷◌, arith, Bytes, beq,
  beq_iff, bytes_ltb, bytes_ltb_irrefl, bytes_ltb_trans, bytes_ltb_total, length, get_or,
  if◌then◌else◌,
}
use agidb_on_chain.Go.Maps.{contains, Distinct}

insert : Bytes → List Bytes → List Bytes
insert k [] = k ∷ []
insert k (j ∷ ks) = let rest = insert k ks in if bytes_ltb j k then j ∷ rest else k ∷ j ∷ ks

-- `sort.Strings(ks)`
unfoldable pub sort_strings : List Bytes → List Bytes
unfolding insert
sort_strings [] = []
sort_strings (k ∷ ks) = insert k (sort_strings ks)

-- `sort.SearchStrings(ks, key)`
unfoldable pub search_strings : List Bytes → Bytes → ℕ
search_strings [] key = 0
search_strings (k ∷ ks) key =
    let rest = search_strings ks key in if bytes_ltb k key then suc rest else 0

-- every string of `ks` is above `k`
abbrev pub Above : Bytes → List Bytes → Type 0
Above k [] = Unit
Above k (j ∷ ks) = (bytes_ltb k j ≡ true) × Above k ks

-- strictly ascending
abbrev pub IsAscending : List Bytes → Type 0
IsAscending [] = Unit
IsAscending (k ∷ ks) = Above k ks × IsAscending ks

contains-insert :
    (k : Bytes) (ks : List Bytes) (j : Bytes)
    → contains (insert k ks) j ≡ (if beq k j then true else contains ks j)
unfolding insert contains
contains-insert k [] j = refl
contains-insert k (i ∷ ks) j = ground (arith, contains-insert k ks j)

pub contains-sort_strings :
    (ks : List Bytes) (j : Bytes) → contains (sort_strings ks) j ≡ contains ks j
unfolding sort_strings contains
contains-sort_strings [] j = refl
contains-sort_strings (k ∷ ks) j = rw contains-insert (rw (contains-sort_strings ks j))

Above-trans : (j k : Bytes) (ks : List Bytes) → bytes_ltb j k ≡ true → Above k ks → Above j ks
Above-trans j k [] h a = tt
Above-trans j k (i ∷ ks) h a = (bytes_ltb_trans j k i h a.0, Above-trans j k ks h a.1)

Above-insert :
    (j k : Bytes) (ks : List Bytes) → bytes_ltb j k ≡ true → Above j ks → Above j (insert k ks)
unfolding insert
Above-insert j k [] h a = (h, tt)
Above-insert j k (i ∷ ks) h a = ground (arith, Above-insert j k ks h a.1)

-- an element that is not below `k`, nor equal to it, is above it
above_of_not_below : (j k : Bytes) → bytes_ltb j k ≡ false → beq j k ≡ false → bytes_ltb k j ≡ true
above_of_not_below j k h n = ground (arith, bytes_ltb_total j k, beq_iff j k)

insert-IsAscending :
    (k : Bytes) (ks : List Bytes)
    → contains ks k ≡ false
    → IsAscending ks
    → IsAscending (insert k ks)
unfolding insert contains
insert-IsAscending k [] n a = (tt, tt)
insert-IsAscending k (j ∷ ks) n a = ground (
  arith,
  Above-insert j k ks,
  above_of_not_below j k,
  Above-trans k j ks,
  insert-IsAscending k ks,
)

-- Distinct keys come out strictly ascending.
pub sort_strings-IsAscending : (ks : List Bytes) → Distinct ks → IsAscending (sort_strings ks)
unfolding sort_strings
sort_strings-IsAscending [] d = tt
sort_strings-IsAscending (k ∷ ks) d =
    insert-IsAscending k (sort_strings ks) (rw contains-sort_strings d.0)
      (sort_strings-IsAscending ks d.1)

not-contains_of_Above : (k : Bytes) (ks : List Bytes) → Above k ks → contains ks k ≡ false
unfolding contains
not-contains_of_Above k [] a = refl
not-contains_of_Above k (j ∷ ks) a =
    ground (arith, beq_iff j k, bytes_ltb_irrefl k, not-contains_of_Above k ks)

-- Everything in a list above `k` is above `k`.
Above-contains :
    (k : Bytes) (ks : List Bytes) (j : Bytes)
    → Above k ks
    → contains ks j ≡ true
    → bytes_ltb k j ≡ true
unfolding contains
Above-contains k [] j a h = cc
Above-contains k (i ∷ ks) j a h = ground (arith, beq_iff i j, Above-contains k ks j)

contains_self : (k : Bytes) (ks : List Bytes) → contains (k ∷ ks) k ≡ true
unfolding contains
contains_self k ks = ground (arith, beq_iff k k)

-- A string below the head of an ascending list is not in the list.
not-contains_below :
    (k j : Bytes) (ks : List Bytes)
    → bytes_ltb k j ≡ true
    → Above j ks
    → contains (j ∷ ks) k ≡ false
not-contains_below k j ks h a = not-contains_of_Above k (j ∷ ks) (h, Above-trans k j ks h a)

heads_equal :
    (k j : Bytes) (ks js : List Bytes)
    → IsAscending (k ∷ ks)
    → IsAscending (j ∷ js)
    → ((i : Bytes) → contains (k ∷ ks) i ≡ contains (j ∷ js) i)
    → k ≡ j
heads_equal k j ks js a b same = ground (
  arith,
  bytes_ltb_total k j,
  not-contains_below k j js,
  not-contains_below j k ks,
  contains_self k ks,
  contains_self j js,
  same k,
  same j,
)

tails_agree :
    (k : Bytes) (ks js : List Bytes) (i : Bytes)
    → Above k ks
    → Above k js
    → contains (k ∷ ks) i ≡ contains (k ∷ js) i
    → contains ks i ≡ contains js i
unfolding contains
tails_agree k ks js i a b same =
    ground (arith, beq_iff k i, not-contains_of_Above i ks, not-contains_of_Above i js)

-- Strictly ascending lists with the same elements are equal.
pub IsAscending-unique :
    (ks js : List Bytes)
    → IsAscending ks
    → IsAscending js
    → ((i : Bytes) → contains ks i ≡ contains js i)
    → ks ≡ js
IsAscending-unique [] [] a b same = refl
IsAscending-unique [] (j ∷ js) a b same = unfold contains in cc (same j, contains_self j js)
IsAscending-unique (k ∷ ks) [] a b same = unfold contains in cc (same k, contains_self k ks)
IsAscending-unique (k ∷ ks) (j ∷ js) a b same =
    let e : k ≡ j = heads_equal k j ks js a b same in
    let above : Above k js = rw e b.0 in
    let tails : ks ≡ js =
      IsAscending-unique ks js a.1 b.1
        (λ i. tails_agree k ks js i a.0 above (same i ∙ ap (λ h. contains (h ∷ js) i) (sym e))) in
    ap₂ (λ x xs. x ∷ xs) e tails

-- The search finds a string that is there.
pub search_strings-contains :
    (ks : List Bytes) (key : Bytes)
    → IsAscending ks
    → contains ks key ≡ true
    → (search_strings ks key < length ks) × (get_or ks (search_strings ks key) [] ≡ key)
unfolding search_strings contains
search_strings-contains [] key a h = cc
search_strings-contains (k ∷ ks) key a h = ground (
  arith,
  beq_iff k key,
  bytes_ltb_irrefl key,
  Above-contains k ks key,
  search_strings-contains ks key,
)

-- What the search finds in range is in the list.
pub contains-get_or :
    (ks : List Bytes) (i : ℕ) → i < length ks → contains ks (get_or ks i []) ≡ true
unfolding contains
contains-get_or [] i h = absurd (omega arith)
contains-get_or (k ∷ ks) zero h = ground (arith, beq_iff k k)
contains-get_or (k ∷ ks) (suc i) h = ground (arith, contains-get_or ks i)
