-- ===== src/Enterprise/Policies.antt =====
-- `Policy`, `DefaultPolicy`, `WritePolicy` and `ReadPolicy` of enterprise.go, where no system call fails.
use agidb_on_chain.Base.{
  ℕ, ◌*◌, ◌^◌, ◌≡◌, refl, ◌∙◌, ap, Bool, false, Option, none, some, List, [], ◌∷◌, Bytes, codes,
  beq_refl, arith,
}
use agidb_on_chain.Go.Maps.{lookup}
use agidb_on_chain.Result.{Result, ok, err, bad_json}
use agidb_on_chain.Enterprise.Files.{Tree, atomic_write, lookup-atomic_write}

pub record Policy : Type 0 where
  pub version : ℕ
  pub mode : Bytes
  pub max_value_bytes : ℕ
  pub max_batch_operations : ℕ
  pub max_log_results : ℕ
  pub snapshot_retention : ℕ
  pub backup_retention : ℕ
  pub require_encryption : Bool
  pub allowed_roles : List Bytes
  pub updated_at : ℕ

-- `json.MarshalIndent` and `json.Unmarshal` on a struct: what is printed is read back, where its strings
-- are text (`IsText`)
pub record JsonOf (A : Type 0) : Type 1 where
  pub print : A → Bytes
  pub parse : Bytes → Option A
  pub IsText : A → Type 0
  pub parse-print : (a : A) → IsText a → parse (print a) ≡ some a

-- the file of a struct, if there is one
unfoldable pub read_json : {A : Type 0} → JsonOf A → Option Bytes → A → Result A
read_json J none fallback = ok fallback
read_json J (some b) fallback = elim (J.parse b) [ none ↦ err bad_json | some a ↦ ok a ]

abbrev pub policy_path : Bytes
policy_path = codes "meta/policy.json"

unfoldable pub default_policy : ℕ → Policy
default_policy now = record {
  version = 1;
  mode = codes "archive";
  max_value_bytes = 16 * 2 ^ 20;
  max_batch_operations = 50000;
  max_log_results = 10000;
  snapshot_retention = 8;
  backup_retention = 8;
  require_encryption = false;
  allowed_roles =
      codes "reader"
      ∷ codes "writer"
      ∷ codes "executor"
      ∷ codes "auditor"
      ∷ codes "snapshot-manager"
      ∷ codes "administrator"
      ∷ [];
  updated_at = now;
}

module _ ⦃J : JsonOf Policy⦄ where
  unfoldable pub write_policy : ℕ → Tree → Policy → Tree
  write_policy now t p = atomic_write t policy_path (J.print (record p { updated_at = now }))

  unfoldable pub read_policy : ℕ → Tree → Result Policy
  unfolding read_json
  read_policy now t = read_json J (lookup t policy_path) (default_policy now)

  -- A policy that was written is read back, with the time of the writing.
  pub read_policy-write_policy :
      (now later : ℕ) (t : Tree) (p : Policy)
      → J.IsText (record p { updated_at = now })
      → read_policy later (write_policy now t p) ≡ ok (record p { updated_at = now })
  unfolding read_policy write_policy read_json
  read_policy-write_policy now later t p text =
      let written : lookup (write_policy now t p) policy_path
          ≡ some (J.print (record p { updated_at = now })) =
        lookup-atomic_write t policy_path (J.print (record p { updated_at = now })) policy_path
        ∙ ground (arith, beq_refl policy_path) in
      ap (λ o. read_json J o (default_policy later)) written
      ∙ rw (read_json, J.parse-print (record p { updated_at = now }) text) refl
