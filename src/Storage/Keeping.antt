-- ===== src/Storage/Keeping.antt =====
-- `Snapshot` of engine.go over the files of files.go, and the snapshots that are read back.
use agidb_on_chain.Base.{
  ℕ, zero, suc, ◌+◌, ◌/◌, ◌%◌, ◌≤◌, ◌≡◌, ◌≢◌, refl, sym, subst, ◌∙◌, ap, false, none, some, inl,
  inr, [], ◌∷◌, ◌++◌, Bytes, codes, beq, beq_refl, beq_of_ne, length, length-append, if◌then◌else◌,
  Option-cases, arith,
}
use mathlib.Core.List.{append-nil}
use agidb_on_chain.Go.Maps.{GoMap, lookup, keys, Distinct}
use agidb_on_chain.Go.Directory.{run, run_all, temporary, lookup-moved}
use agidb_on_chain.Go.Decimals.{has_prefix-prefix, trim_prefix-prefix}
use agidb_on_chain.Go.Json.{JsonText}
use agidb_on_chain.Go.Sha256.{Sha256}
use agidb_on_chain.Go.Strings.{padded}
use agidb_on_chain.Model.{Snapshot}
use agidb_on_chain.Merkle.Order.{SameMap}
use agidb_on_chain.Result.{ok, err, not_exist}
use agidb_on_chain.Engine.{Engine}
use agidb_on_chain.Engine.Roots.{clone_state-SameMap}
use agidb_on_chain.Engine.Snapshots.{
  summarise, new_snapshot, new_snapshot-IsGenuine, take_snapshot, verify_snapshot,
  verify_snapshot_iff,
}
use agidb_on_chain.Storage.Codec.{Codec}
use agidb_on_chain.Storage.Framing.{payload, max_record_size, frame, read_frame}
use agidb_on_chain.Storage.RoundTrip.{read_frame-frame}
use agidb_on_chain.Storage.Segments.{Files}
use agidb_on_chain.Storage.Snapshots.{
  SnapshotGob, Place, base, snapshot_name, snapshot_calls, snapshot_path, file_at, write_snapshot,
  decode_snapshot, read_snapshot, files_snapshots,
}

length-padded : (k n : ℕ) → length (padded k n) ≡ k
unfolding padded
length-padded zero n = refl
length-padded (suc k) n =
    omega (arith, length-append (padded k (n / 10)) ((48 + n % 10) ∷ []), length-padded k (n / 10))

-- the names are of one length, and no temporary name is one of them
length-snapshot_name : (h : ℕ) → length (snapshot_name h) ≡ 36
unfolding snapshot_name
length-snapshot_name h = omega (
  arith,
  length-append (codes "snapshot-") (padded 20 h ++ codes ".agsnap"),
  length-append (padded 20 h) (codes ".agsnap"),
  length-padded 20 h,
)

temporary-snapshot_name : (h k : ℕ) → temporary (snapshot_name h) ≢ snapshot_name k
temporary-snapshot_name h k e = omega (
  arith,
  ap length e,
  length-append (snapshot_name h) (codes ".tmp"),
  length-snapshot_name h,
  length-snapshot_name k,
)

lookup-snapshot_calls :
    (m : GoMap Bytes) (name fr k : Bytes)
    → lookup (run_all (snapshot_calls name fr) m) k
      ≡ (if beq name k then some fr else if beq (temporary name) k then none else lookup m k)
unfolding run_all snapshot_calls run
lookup-snapshot_calls m name fr k = lookup-moved m (temporary name) name fr k

module _ ⦃C : Codec⦄ ⦃G : SnapshotGob⦄ ⦃P : Place⦄ where
  read_snapshot_at :
      (f : Files) (h : ℕ)
      → read_snapshot f (snapshot_path h) ≡ elim (lookup f.disk.snapshots (snapshot_name h)) [
        | none ↦ err not_exist
        | some s ↦ decode_snapshot (read_frame s)
      ]
  unfolding read_snapshot snapshot_path file_at
  read_snapshot_at f h =
      let filled : beq (snapshot_path h) [] ≡ false = beq_of_ne (snapshot_path h) [] (λ e.
        omega (arith, ap length e, length-append base (snapshot_name h), length-snapshot_name h)) in
      rw (read_snapshot, filled)
        (rw (file_at, has_prefix-prefix base (snapshot_name h))
          (rw (trim_prefix-prefix base (snapshot_name h)) refl))

  abbrev with_snapshot : Files → ℕ → Bytes → Files
  with_snapshot f h fr = record f {
    disk = record f.disk {
      snapshots = run_all (snapshot_calls (snapshot_name h) fr) f.disk.snapshots;
    };
  }

  read_written :
      (f : Files) (s : Snapshot) (p : Bytes)
      → G.encode s ≡ some p
      → length (frame p) ≤ 16 + max_record_size
      → read_snapshot (with_snapshot f s.height (frame p)) (snapshot_path s.height) ≡ ok s
  unfolding decode_snapshot
  read_written f s p e fits =
      let name = snapshot_name s.height in
      let here : lookup (run_all (snapshot_calls name (frame p)) f.disk.snapshots) name
          ≡ some (frame p) =
        lookup-snapshot_calls f.disk.snapshots name (frame p) name
        ∙ ground (arith, beq_refl name) in
      let whole : read_frame (frame p) ≡ payload p (length (frame p)) =
        ap read_frame (sym (append-nil (frame p)))
        ∙ read_frame-frame p [] (G.encode_nonempty s p e) fits in
      read_snapshot_at (with_snapshot f s.height (frame p)) s.height
      ∙ rw here (rw whole (rw (decode_snapshot, G.decode-encode s p e) refl))

  read_other :
      (f : Files) (h : ℕ) (fr : Bytes) (k : ℕ)
      → snapshot_name h ≢ snapshot_name k
      → read_snapshot (with_snapshot f h fr) (snapshot_path k) ≡ read_snapshot f (snapshot_path k)
  read_other f h fr k other =
      let same : lookup (run_all (snapshot_calls (snapshot_name h) fr) f.disk.snapshots)
            (snapshot_name k)
          ≡ lookup f.disk.snapshots (snapshot_name k) =
        lookup-snapshot_calls f.disk.snapshots (snapshot_name h) fr (snapshot_name k)
        ∙ rw (beq_of_ne _ _ other, beq_of_ne _ _ (temporary-snapshot_name h k)) refl in
      read_snapshot_at (with_snapshot f h fr) k ∙ rw same (sym (read_snapshot_at f k))

  -- what the files promise after a snapshot was written: it is read back, and those at the paths of
  -- other heights are as they were
  pub record HasWritten (f : Files) (s : Snapshot) (f' : Files) (path : Bytes) : Type 0 where
    pub place : path ≡ snapshot_path s.height
    pub own : read_snapshot f' path ≡ ok s
    pub others :
        (k : ℕ)
        → snapshot_name s.height ≢ snapshot_name k
        → read_snapshot f' (snapshot_path k) ≡ read_snapshot f (snapshot_path k)

  pub write_snapshot-HasWritten :
      (f f' : Files) (s : Snapshot) (path : Bytes)
      → ((p : Bytes) → G.encode s ≡ some p → length (frame p) ≤ 16 + max_record_size)
      → write_snapshot f s ≡ (f', ok path)
      → HasWritten f s f' path
  unfolding write_snapshot
  write_snapshot-HasWritten f f' s path fits h = elim (Option-cases (G.encode s)) [
    | inl bad ↦ absurd (ground arith)
    | inr (p, good) ↦
        let files : with_snapshot f s.height (frame p) ≡ f' = ground arith in
        let where_to : snapshot_path s.height ≡ path = ground arith in
        let both : HasWritten f s (with_snapshot f s.height (frame p)) (snapshot_path s.height) =
          record {
            place = refl;
            own = read_written f s p good (fits p good);
            others = read_other f s.height (frame p);
          } in
        subst (HasWritten f s f') where_to
          (subst (λ g. HasWritten f s g (snapshot_path s.height)) files both)
  ]

  module _ ⦃H : Sha256⦄ ⦃J : JsonText⦄ where
    -- a snapshot of an engine that was written to `f'`, as any engine over these files verifies it
    pub record IsTaken (e : Engine Files) (f' : Files) (path : Bytes) (s : Snapshot) : Type 0 where
      pub verified : (later : Engine Files) → later.store ≡ f' → verify_snapshot later path ≡ ok s
      pub state : SameMap s.state e.state
      pub others :
          (k : ℕ)
          → snapshot_name s.height ≢ snapshot_name k
          → read_snapshot f' (snapshot_path k) ≡ read_snapshot e.store (snapshot_path k)

    -- Where `Snapshot` reports a path, `VerifySnapshot` accepts that path in every engine over the files,
    -- and returns the snapshot, which holds what the state of the engine held; the snapshots at the
    -- paths of other heights are read as before. The state has distinct keys, and the frame of the
    -- snapshot holds no more than the largest record.
    pub take_snapshot-IsTaken :
        (now : ℕ) (e : Engine Files) (path : Bytes)
        → Distinct (keys e.state)
        → ((p : Bytes)
            → G.encode (new_snapshot now e) ≡ some p
            → length (frame p) ≤ 16 + max_record_size)
        → (take_snapshot now e).1.0 ≡ ok path
        → IsTaken e (take_snapshot now e).0 path (take_snapshot now e).1.1
    unfolding take_snapshot new_snapshot summarise
    take_snapshot-IsTaken now e path d fits reported =
        let s = new_snapshot now e in
        let f' = (write_snapshot e.store s).0 in
        let done : write_snapshot e.store s ≡ (f', ok path) = ap (λ r. (f', r)) reported in
        let w = write_snapshot-HasWritten e.store f' s path fits done in
        record {
          verified = λ later same.
              (verify_snapshot_iff later path s).1
                (ap (λ g. read_snapshot g path) same ∙ w.own, new_snapshot-IsGenuine now e);
          state = clone_state-SameMap e.state d;
          others = w.others;
        }
