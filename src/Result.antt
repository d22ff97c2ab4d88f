-- ===== src/Result.antt =====
-- Go's `(value, error)` results, for the calls whose value is used only if there is no error.
use agidb_on_chain.Base.{ℕ, ◌≡◌, refl, Bool, true, false, Bytes}

-- The errors of the engine and of the storage, one for each `errors.New`, `fmt.Errorf` and
-- standard-library error that the code can return, with the values that the message shows.
pub data Error : Type 0 where
  -- engine.go
  empty_block transaction_id_required empty_key no_state_change : Error
  height_discontinuity : ℕ → ℕ → Error
  prev_hash_mismatch record_hash_mismatch state_root_mismatch contract_root_mismatch : ℕ → Error
  account_root_mismatch contract_code_root_mismatch contract_storage_root_mismatch : ℕ → Error
  log_root_mismatch zk_root_mismatch receipt_root_mismatch : ℕ → Error
  receipt_not_json account_not_json log_not_json : Error
  invalid_account invalid_receipt invalid_log : Bytes → Error
  unsupported_field outside_modulus : Bytes → Error
  invalid_field_element : Error
  unsupported_snapshot_format : Bytes → Error
  snapshot_root_mismatch snapshot_checksum_mismatch : Error
  -- files.go
  eof unexpected_eof invalid_magic crc_mismatch bad_zlib bad_gob : Error
  invalid_record_size : ℕ → Error
  record_exceeds_segment not_exist snapshot_path_required lock_unavailable : Error
  -- enterprise.go
  bad_json node_id_required passphrase_required unsupported_backup truncated_backup : Error
  wrong_passphrase bad_archive unsafe_path blocked_path target_exists target_required
        target_not_empty :
      Error
  negative_retention : Bytes → Error
  -- cli.go
  usage unknown_command key_not_found : Bytes → Error
  airgap_refused file_required out_required proof_failed : Error
  -- a system call that fails
  io_failure : Error

-- A pair `(value, err)`: with `err != nil` the callers never look at the value.
pub data Result {ℓ} (A : Type ℓ) : Type ℓ where
  err : (reason : Error) → Result A
  ok : (value : A) → Result A

module _ {ℓ κ} {A : Type ℓ} {B : Type κ} where
  infixl 5 ◌>>=◌
  -- `x, err := r; if err != nil { return err }; rest(x)`
  abbrev pub ◌>>=◌ : Result A → (A → Result B) → Result B
  err reason >>= rest = err reason
  ok x >>= rest = rest x

  -- A chain that succeeds succeeds at every link.
  pub links_of_ok :
      (r : Result A) (rest : A → Result B) {y : B}
      → (r >>= rest) ≡ ok y
      → (x : A) × (r ≡ ok x) × (rest x ≡ ok y)
  links_of_ok (err reason) rest h = cc
  links_of_ok (ok x) rest h = (x, refl, h)

infixl 5 ◌>>◌
abbrev pub ◌>>◌ {ℓ} : {B : Type ℓ} → Result (Unit {0}) → Result B → Result B
r >> rest = r >>= λ done. rest

-- `if !test { return err }`
abbrev pub require : Bool → Error → Result (Unit {0})
require false reason = err reason
require true _ = ok tt

pub ok_injective {ℓ} : {A : Type ℓ} (a b : A) → ok a ≡ ok b → a ≡ b
ok_injective a b h = cc

pub require_ok : (b : Bool) (e : Error) (u : Unit {0}) → require b e ≡ ok u → b ≡ true
require_ok true e u h = refl
require_ok false e u h = cc
