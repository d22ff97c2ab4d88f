-- ===== src/Enterprise/Pruning.antt =====
-- What `PruneFiles` of enterprise.go keeps and removes.
use agidb_on_chain.Base.{
  ℕ, zero, suc, ◌+◌, ◌≤◌, ◌≡◌, refl, sym, ◌∙◌, ap, subst, true, false, Option, none, some, List, [],
  ◌∷◌, ◌++◌, Bytes, codes, All, length, take, ltb, leb, Bool-cases, ◌⊎◌, inl, inr, arith,
}
use mathlib.Core.List.{Permᴰ, append-nil}
use mathlib.Core.List.Permᴰ
use agidb_on_chain.Enterprise.Cluster.{pos}
use agidb_on_chain.Enterprise.Retention.{
  Item, insert_item, newest_first, Pruned, prune_items, prune_dir, Kept, prune_snapshots,
  prune_backups, then_prune, prune_files,
}

-- `items[n:]`
abbrev beyond : ℕ → List Item → List Item
beyond zero items = items
beyond (suc n) [] = []
beyond (suc n) (i ∷ items) = beyond n items

-- no item of the list is newer than `i`
abbrev pub NoneNewer : Item → List Item → Type 0
NoneNewer i items = All (λ j. Item.mod_time j ≤ i.mod_time) items

-- no item of `gone` is newer than one of `left`
abbrev pub AreOlder : List Item → List Item → Type 0
AreOlder gone left = All (λ i. NoneNewer i gone) left

abbrev IsFalling : List Item → Type 0
IsFalling [] = Unit
IsFalling (i ∷ items) = NoneNewer i items × IsFalling items

insert_item-NoneNewer :
    (i j : Item) (items : List Item)
    → j.mod_time ≤ i.mod_time
    → NoneNewer i items
    → NoneNewer i (insert_item j items)
unfolding insert_item
insert_item-NoneNewer i j [] h a = (h, tt)
insert_item-NoneNewer i j (k ∷ items) h a = elim (Bool-cases (ltb j.mod_time k.mod_time)) [
  | inl later ↦ rw later (a.0, insert_item-NoneNewer i j items h a.1)
  | inr here ↦ rw here (h, a)
]

NoneNewer-trans :
    (i j : Item) (items : List Item)
    → j.mod_time ≤ i.mod_time
    → NoneNewer j items
    → NoneNewer i items
NoneNewer-trans i j [] h a = tt
NoneNewer-trans i j (k ∷ items) h a = (omega (arith, h, a.0), NoneNewer-trans i j items h a.1)

insert_item-IsFalling :
    (i : Item) (items : List Item) → IsFalling items → IsFalling (insert_item i items)
unfolding insert_item
insert_item-IsFalling i [] f = (tt, tt)
insert_item-IsFalling i (j ∷ items) f = elim (Bool-cases (ltb i.mod_time j.mod_time)) [
  | inl later ↦ rw later (
    insert_item-NoneNewer j i items (ground (arith, later)) f.0,
    insert_item-IsFalling i items f.1,
  )
  | inr here ↦
      let above : j.mod_time ≤ i.mod_time = ground (arith, here) in
      rw here ((above, NoneNewer-trans i j items above f.0), f)
]

newest_first-IsFalling : (items : List Item) → IsFalling (newest_first items)
unfolding newest_first
newest_first-IsFalling [] = tt
newest_first-IsFalling (i ∷ items) =
    insert_item-IsFalling i (newest_first items) (newest_first-IsFalling items)

insert_item-Permᴰ : (i : Item) (items : List Item) → Permᴰ (i ∷ items) (insert_item i items)
unfolding insert_item
insert_item-Permᴰ i [] = Permᴰ.refl (i ∷ [])
insert_item-Permᴰ i (j ∷ items) = elim (Bool-cases (ltb i.mod_time j.mod_time)) [
  | inl later ↦
      rw later (Permᴰ.trans (Permᴰ.swap refl refl) (Permᴰ.cons refl (insert_item-Permᴰ i items)))
  | inr here ↦ rw here (Permᴰ.refl (i ∷ j ∷ items))
]

newest_first-Permᴰ : (items : List Item) → Permᴰ items (newest_first items)
unfolding newest_first
newest_first-Permᴰ [] = Permᴰ.nil
newest_first-Permᴰ (i ∷ items) =
    Permᴰ.trans (Permᴰ.cons refl (newest_first-Permᴰ items))
      (insert_item-Permᴰ i (newest_first items))

take-beyond : (n : ℕ) (items : List Item) → items ≡ take n items ++ beyond n items
take-beyond zero items = refl
take-beyond (suc n) [] = refl
take-beyond (suc n) (i ∷ items) = ap (λ l. i ∷ l) (take-beyond n items)

beyond-NoneNewer :
    (i : Item) (n : ℕ) (items : List Item) → NoneNewer i items → NoneNewer i (beyond n items)
beyond-NoneNewer i zero items a = a
beyond-NoneNewer i (suc n) [] a = tt
beyond-NoneNewer i (suc n) (j ∷ items) a = beyond-NoneNewer i n items a.1

beyond-AreOlder :
    (n : ℕ) (items : List Item) → IsFalling items → AreOlder (beyond n items) (take n items)
beyond-AreOlder zero items f = tt
beyond-AreOlder (suc n) [] f = tt
beyond-AreOlder (suc n) (i ∷ items) f =
    (beyond-NoneNewer i n items f.0, beyond-AreOlder n items f.1)

length-take-beyond :
    (n : ℕ) (items : List Item)
    → n ≤ length items
    → (length (take n items) ≡ n) × (length (beyond n items) + n ≡ length items)
length-take-beyond zero items h = (refl, omega arith)
length-take-beyond (suc n) [] h = absurd (omega (arith, h))
length-take-beyond (suc n) (i ∷ items) h =
    let (kept, gone) = length-take-beyond n items (omega (arith, h)) in
    (omega (arith, kept), omega (arith, gone))

length-Permᴰ : {xs ys : List Item} → Permᴰ xs ys → length xs ≡ length ys
length-Permᴰ Permᴰ.nil = refl
length-Permᴰ (Permᴰ.cons same p) = ap suc (length-Permᴰ p)
length-Permᴰ (Permᴰ.swap ab ba) = refl
length-Permᴰ (Permᴰ.trans p q) = length-Permᴰ p ∙ length-Permᴰ q

-- a directory of which the newest files are kept
pub record IsPruned (keep : ℕ) (items : List Item) (p : Pruned) : Type 0 where
  pub gone : List Item
  pub parted : Permᴰ items (p.left ++ gone)
  pub older : AreOlder gone p.left
  pub counted : p.removed ≡ length gone
  pub limit : length p.left ≤ keep
  pub full : (gone ≡ []) ⊎ (length p.left ≡ keep)
  pub succeeded : p.failure ≡ none

none_older : (items : List Item) → AreOlder [] items
none_older [] = tt
none_older (i ∷ items) = (tt, none_older items)

whole-IsPruned :
    (keep : ℕ) (items : List Item)
    → length items ≤ keep
    → IsPruned keep items (record { left = items; removed = 0; failure = none })
whole-IsPruned keep items small = record {
  gone = [];
  parted = subst (Permᴰ items) (sym (append-nil items)) (Permᴰ.refl items);
  older = none_older items;
  counted = refl;
  limit = small;
  full = inl refl;
  succeeded = refl;
}

-- With a count of files to keep that is not negative, a directory is parted into the files that are
-- left, at most as many as the count, and those that are removed, whose number is returned: none of
-- those is newer than one that is left, and none is removed unless as many as the count are left.
pub prune_items-IsPruned :
    (sub : Bytes) (keep : ℕ) (items : List Item)
    → IsPruned keep items (prune_items sub (pos keep) items)
unfolding prune_items
prune_items-IsPruned sub keep items = elim (Bool-cases (leb (length items) keep)) [
  | inl small ↦ rw small (whole-IsPruned keep items (ground (arith, small)))
  | inr large ↦
      let sorted = newest_first items in
      let p = newest_first-Permᴰ items in
      let size : length items ≡ length sorted = length-Permᴰ p in
      let (kept, gone) = length-take-beyond keep sorted (ground (arith, large, size)) in
      rw large record {
        gone = beyond keep sorted;
        parted = subst (Permᴰ items) (take-beyond keep sorted) p;
        older = beyond-AreOlder keep sorted (newest_first-IsFalling items);
        counted = omega (arith, gone, size);
        limit = omega (arith, kept);
        full = inr kept;
        succeeded = refl;
      }
]

succeeds :
    (sub : Bytes) (keep : ℕ) (items : Option (List Item))
    → (prune_dir sub (pos keep) items).failure ≡ none
unfolding prune_dir
succeeds sub keep none = refl
succeeds sub keep (some items) = (prune_items-IsPruned sub keep items).succeeded

-- With counts that are not negative, it makes no difference which of the two directories is pruned
-- first, and there is no error.
pub prune_files_order :
    (kept : Kept) (n m : ℕ)
    → (prune_files true kept (pos n) (pos m) ≡ prune_files false kept (pos n) (pos m))
      × ((prune_files true kept (pos n) (pos m)).failure ≡ none)
unfolding prune_files prune_snapshots prune_backups then_prune
prune_files_order kept n m =
    let snapshots = succeeds (codes "snapshots") n kept.snapshots in
    let backups = succeeds (codes "backups") m kept.backups in
    simp (snapshots, backups) (refl, refl)
