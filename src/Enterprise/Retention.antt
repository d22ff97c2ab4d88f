-- ===== src/Enterprise/Retention.antt =====
-- `PruneFiles` of enterprise.go, where every file can be read and removed. Go goes through the two
-- directories in an order that it leaves open: `snapshots_first` is the one that it takes.
use agidb_on_chain.Base.{
  ℕ, ◌-◌, Bool, Option, none, some, List, [], ◌∷◌, Bytes, codes, length, take, ltb, leb,
  if◌then◌else◌,
}
use agidb_on_chain.Result.{Error, negative_retention}
use agidb_on_chain.Enterprise.Cluster.{ℤ, pos, negsuc}

-- a file with the time of its last change
pub record Item : Type 0 where
  pub name : Bytes
  pub mod_time : ℕ

unfoldable pub insert_item : Item → List Item → List Item
insert_item i [] = i ∷ []
insert_item i (j ∷ items) =
    let rest = insert_item i items in if ltb i.mod_time j.mod_time then j ∷ rest else i ∷ j ∷ items

-- `sort.Slice(items, …)`, the newest first; items of one time keep their order, which Go leaves open
unfoldable pub newest_first : List Item → List Item
unfolding insert_item
newest_first [] = []
newest_first (i ∷ items) = insert_item i (newest_first items)

-- one directory after the loop: the files that are left, the number of the removed ones, an error
pub record Pruned : Type 0 where
  pub left : List Item
  pub removed : ℕ
  pub failure : Option Error

-- the body of the loop, for a directory that is there
unfoldable pub prune_items : Bytes → ℤ → List Item → Pruned
unfolding newest_first
prune_items sub (negsuc n) items = record {
  left = items;
  removed = 0;
  failure = some (negative_retention sub);
}
prune_items sub (pos keep) items =
    if leb (length items) keep
    then record { left = items; removed = 0; failure = none }
    else record {
      left = take keep (newest_first items);
      removed = length items - keep;
      failure = none;
    }

-- a directory that is not there is passed over
unfoldable pub prune_dir : Bytes → ℤ → Option (List Item) → Pruned
unfolding prune_items
prune_dir sub keep none = record { left = []; removed = 0; failure = none }
prune_dir sub keep (some items) = prune_items sub keep items

-- the two directories
pub record Kept : Type 0 where
  pub snapshots : Option (List Item)
  pub backups : Option (List Item)

pub record PruneResult : Type 0 where
  pub kept : Kept
  pub snapshots_removed : ℕ
  pub backups_removed : ℕ
  pub failure : Option Error

abbrev pub left_in : Option (List Item) → List Item → Option (List Item)
left_in none items = none
left_in (some old) items = some items

unfoldable pub prune_snapshots : ℤ → PruneResult → PruneResult
unfolding prune_dir
prune_snapshots keep r =
    let p = prune_dir (codes "snapshots") keep r.kept.snapshots in
    record {
      kept = record r.kept { snapshots = left_in r.kept.snapshots p.left };
      snapshots_removed = p.removed;
      backups_removed = r.backups_removed;
      failure = p.failure;
    }

unfoldable pub prune_backups : ℤ → PruneResult → PruneResult
unfolding prune_dir
prune_backups keep r =
    let p = prune_dir (codes "backups") keep r.kept.backups in
    record {
      kept = record r.kept { backups = left_in r.kept.backups p.left };
      snapshots_removed = r.snapshots_removed;
      backups_removed = p.removed;
      failure = p.failure;
    }

-- the second directory, unless the first one failed
unfoldable pub then_prune : (PruneResult → PruneResult) → PruneResult → PruneResult
then_prune next r = elim r.failure [ none ↦ next r | some x ↦ r ]

unfoldable pub prune_files : Bool → Kept → ℤ → ℤ → PruneResult
unfolding prune_snapshots prune_backups then_prune
prune_files snapshots_first kept snapshot_keep backup_keep =
    let start : PruneResult = record {
      kept = kept;
      snapshots_removed = 0;
      backups_removed = 0;
      failure = none;
    } in
    if snapshots_first
    then then_prune (prune_backups backup_keep) (prune_snapshots snapshot_keep start)
    else then_prune (prune_snapshots snapshot_keep) (prune_backups backup_keep start)
