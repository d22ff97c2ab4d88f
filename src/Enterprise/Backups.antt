-- ===== src/Enterprise/Backups.antt =====
-- The backups of enterprise.go, where no system call fails: `derive`, `encrypt`, `decrypt`,
-- `decodeBackup`, `Backup`, `VerifyBackup`, `RestoreBackup`. The system calls that fail are those that
-- the files in the way make fail. A directory is a list of files in the order
-- in which `filepath.Walk` comes to them; what is written to the path of a backup is its payload.
use agidb_on_chain.Base.{
  ◌≡◌, ℕ, zero, suc, Bool, true, false, not, ◌||◌, Option, none, some, List, [], ◌∷◌, ◌++◌, Bytes,
  codes, beq, has_prefix, length, take, ltb, if◌then◌else◌,
}
use mathlib.Core.List.{reverse}
use agidb_on_chain.Go.Hex.{encode_to_string}
use agidb_on_chain.Go.Maps.{keys}
use agidb_on_chain.Go.Sha256.{Sha256}
use agidb_on_chain.Go.Sort.{sort_strings}
use agidb_on_chain.Go.Strings.{split}
use agidb_on_chain.Result.{
  Result, ok, err, ◌>>=◌, passphrase_required, unsupported_backup, truncated_backup,
  wrong_passphrase, bad_archive, unsafe_path, blocked_path, target_exists, target_required,
  target_not_empty,
}
use agidb_on_chain.Storage.Framing.{drop}
use agidb_on_chain.Enterprise.Files.{Tree, temporary, atomic_write}

-- AES-GCM: what is sealed is opened again with the same key and nonce
pub record Gcm : Type 0 where
  pub seal : Bytes → Bytes → Bytes → Bytes
  pub open_sealed : Bytes → Bytes → Bytes → Option Bytes
  pub open-seal : (key nonce p : Bytes) → open_sealed key nonce (seal key nonce p) ≡ some p

-- archive/zip: the names and contents of the files, which are read back as they were written
pub record Zip : Type 0 where
  pub pack : Tree → Bytes
  pub unpack : Bytes → Option Tree
  pub unpack-pack : (t : Tree) → unpack (pack t) ≡ some t

-- the first bytes of a payload
abbrev pub plain_mark : Bytes
plain_mark = codes "AGIBAK1" ++ (10 ∷ [])

abbrev pub secret_mark : Bytes
secret_mark = codes "AGIENC1" ++ (10 ∷ [])

module _ ⦃H : Sha256⦄ where
  -- the loop of `derive`
  unfoldable pub rehash : ℕ → Bytes → Bytes
  rehash zero key = key
  rehash (suc n) key = rehash n (H.sum256 key)

  unfoldable pub derive : Bytes → Bytes → Bytes
  derive pass salt = rehash 200000 (H.sum256 (pass ++ salt))

module _ ⦃H : Sha256⦄ ⦃G : Gcm⦄ where
  -- `salt` and `nonce` are the random bytes
  unfoldable pub encrypt : Bytes → Bytes → Bytes → Bytes → Bytes
  encrypt salt nonce p pass = (salt ++ nonce) ++ G.seal (derive pass salt) nonce p

  unfoldable pub opened_or : Option Bytes → Result Bytes
  opened_or none = err wrong_passphrase
  opened_or (some p) = ok p

  -- `p[:16]`, `p[16:28]`, `p[28:]`
  unfoldable pub decrypt : Bytes → Bytes → Result Bytes
  unfolding opened_or
  decrypt p pass =
      if ltb (length p) 28
      then err truncated_backup
      else opened_or (G.open_sealed (derive pass (take 16 p)) (take 12 (drop 16 p)) (drop 28 p))

  unfoldable pub decode_backup : Bytes → Bytes → Result Bytes
  unfolding decrypt
  decode_backup payload pass =
      if has_prefix payload plain_mark
      then ok (drop 8 payload)
      else if has_prefix payload secret_mark
      then (if beq pass [] then err passphrase_required else decrypt (drop 8 payload) pass)
      else err unsupported_backup

  -- the payload that `Backup` writes for the bytes of an archive
  unfoldable pub encode_backup : Bytes → Bytes → Bytes → Bytes → Bytes
  unfolding encrypt
  encode_backup salt nonce raw pass =
      if not (beq pass []) then secret_mark ++ encrypt salt nonce raw pass else plain_mark ++ raw

-- what `Backup` leaves out
unfoldable pub is_left_out : Bytes → Bool
is_left_out name = beq name (codes "meta/LOCK") || has_prefix name (codes "backups/")

unfoldable pub walked : Tree → Tree
unfolding is_left_out
walked [] = []
walked ((name, b) ∷ t) = let rest = walked t in if is_left_out name then rest else (name, b) ∷ rest

-- the names that `path.Clean` has so far, the last one first, behind a number of `..`
pub record Cleaned : Type 0 where
  pub ups : ℕ
  pub names : List Bytes

abbrev pub go_up : Bool → ℕ → List Bytes → Cleaned
go_up true ups [] = record { ups = ups; names = [] }
go_up false ups [] = record { ups = suc ups; names = [] }
go_up rooted ups (n ∷ ns) = record { ups = ups; names = ns }

-- the loop of `path.Clean` over the parts between the slashes
unfoldable pub clean_loop : Bool → ℕ → List Bytes → List Bytes → Cleaned
clean_loop rooted ups names [] = record { ups = ups; names = names }
clean_loop rooted ups names (p ∷ ps) =
    let up = go_up rooted ups names in
    let above = clean_loop rooted up.ups up.names ps in
    let same = clean_loop rooted ups names ps in
    let below = clean_loop rooted ups (p ∷ names) ps in
    if beq p [] || beq p (codes ".") then same else if beq p (codes "..") then above else below

abbrev pub dot_dots : ℕ → List Bytes
dot_dots zero = []
dot_dots (suc n) = codes ".." ∷ dot_dots n

-- the parts with a slash between each two
unfoldable pub slashed : List Bytes → Bytes
slashed [] = []
slashed (p ∷ []) = p
slashed (p ∷ q ∷ ps) = p ++ (47 ∷ slashed (q ∷ ps))

-- `.` for no part
abbrev pub or_dot : Bytes → Bytes
or_dot [] = codes "."
or_dot (c ∷ s) = c ∷ s

-- `filepath.Clean` on Unix
unfoldable pub clean : Bytes → Bytes
unfolding clean_loop slashed
clean path =
    let rooted = has_prefix path (codes "/") in
    let c = clean_loop rooted 0 [] (split 47 path) in
    let body = slashed (dot_dots c.ups ++ reverse c.names) in
    if rooted then 47 ∷ body else or_dot body

-- the guard of `RestoreBackup` on a cleaned name
unfoldable pub is_unsafe : Bytes → Bool
is_unsafe name = has_prefix name (codes "..") || has_prefix name (codes "/")

abbrev pub slash : Bytes
slash = 47 ∷ []

-- can no file be written at `path` because of the file `other`? It lies below `path`, or below the
-- temporary file, which are directories then, or it stands in the place of a directory of `path`
unfoldable pub bars : Bytes → Bytes → Bool
bars path other =
    has_prefix other (path ++ slash)
    || has_prefix other (temporary path ++ slash)
    || has_prefix path (other ++ slash)

-- does a file that is there bar the path?
unfoldable pub is_barred : Tree → Bytes → Bool
unfolding bars
is_barred [] path = false
is_barred ((other, b) ∷ t) path = bars path other || is_barred t path

-- `atomicWrite` on a path below the new directory, which is `.` itself
unfoldable pub is_blocked : Tree → Bytes → Bool
unfolding is_barred
is_blocked t path = beq path (codes ".") || is_barred t path

-- the loop of `RestoreBackup` over the entries of the archive
unfoldable pub restore_entries : Tree → Tree → Result Tree
unfolding is_unsafe is_blocked
restore_entries restored [] = ok restored
restore_entries restored ((name, b) ∷ entries) =
    let rest = restore_entries (atomic_write restored (clean name) b) entries in
    if is_unsafe (clean name)
    then err unsafe_path
    else if is_blocked restored (clean name)
    then err blocked_path
    else rest

pub record BackupReport : Type 0 where
  pub sha256 : Bytes
  pub files : ℕ
  pub entries : List Bytes
  pub encrypted : Bool

-- does the target hold a file?
abbrev pub is_held : Option Tree → Bool
is_held none = false
is_held (some t) = ltb 0 (length t)

-- is the last part of a path no name? Then the directory `target + ".restore.tmp"` lies in the target
unfoldable pub ends_open : List Bytes → Bool
ends_open [] = true
ends_open (p ∷ []) = beq p [] || beq p (codes ".") || beq p (codes "..")
ends_open (p ∷ q ∷ ps) = ends_open (q ∷ ps)

-- `os.Rename(tmp, target)`, which refuses a target that is there, be it empty; it is where the
-- temporary directory lies in it
unfoldable pub moved_onto : Bytes → Option Tree → Tree → Result Tree
unfolding ends_open
moved_onto target (some t) restored = err target_exists
moved_onto target none restored =
    if ends_open (split 47 target) then err target_exists else ok restored

module _ ⦃H : Sha256⦄ ⦃G : Gcm⦄ ⦃Z : Zip⦄ where
  -- `Backup`: the payload and its digest
  unfoldable pub backup : Bytes → Bytes → Tree → Bytes → Bytes × Bytes
  unfolding walked encode_backup
  backup salt nonce t pass =
      let payload = encode_backup salt nonce (Z.pack (walked t)) pass in
      (payload, encode_to_string (H.sum256 payload))

  unfoldable pub unpacked : Option Tree → Result Tree
  unpacked none = err bad_archive
  unpacked (some t) = ok t

  -- `VerifyBackup` on the bytes of the file
  unfoldable pub verify_backup : Bytes → Bytes → Result BackupReport
  unfolding decode_backup unpacked
  verify_backup payload pass = do
    raw ← decode_backup payload pass
    t ← unpacked (Z.unpack raw)
    ok record {
      sha256 = encode_to_string (H.sum256 payload);
      files = length t;
      entries = sort_strings (keys t);
      encrypted = has_prefix payload secret_mark;
    }

  -- `RestoreBackup` on the bytes of the file and the target: its path, and the files in it if it is
  -- there; the new directory in its place, or an error
  unfoldable pub restore_backup : Bytes → Option Tree → Bytes → Bytes → Result Tree
  unfolding decode_backup unpacked restore_entries moved_onto
  restore_backup target held payload pass =
      if beq target []
      then err target_required
      else if is_held held
      then err target_not_empty
      else (decode_backup payload pass >>= λ raw.
          unpacked (Z.unpack raw) >>= λ t. restore_entries [] t >>= λ t'. moved_onto target held t')
