-- ===== src/Go/Json.antt =====
-- The values that `encoding/json` writes. What becomes of a Go struct (its keys, `omitempty`, nil
-- slices) is translated from the source by the functions that build such a tree; the text that the
-- package prints for a tree (escapes, base64, RFC 3339) is the parameter `JsonText`.
use agidb_on_chain.Base.{ℕ, Bool, true, false, List, [], ◌∷◌, Bytes}
use agidb_on_chain.Go.Slices.{Slice, nil_slice, slice}

mutual
  pub data Json : Type 0 where
    null : Json
    -- a JSON string that holds a Go string, a byte slice in base64, a time
    text base64 : Bytes → Json
    time : ℕ → Json
    number : ℕ → Json
    boolean : Bool → Json
    array : Items → Json
    object : Fields → Json

  pub data Items : Type 0 where
    end : Items
    item : Json → Items → Items

  pub data Fields : Type 0 where
    close : Fields
    field : Bytes → Json → Fields → Fields

-- `json.Marshal` on the value that a tree stands for
pub record JsonText : Type 0 where
  pub print : Json → Bytes

abbrev pub from_slice : Slice → Json
from_slice nil_slice = null
from_slice (slice bs) = base64 bs

-- a field with the option `omitempty`, left out of the object where it is empty
abbrev pub field_if : Bool → Bytes → Json → Fields → Fields
field_if true name value rest = field name value rest
field_if false name value rest = rest

abbrev pub from_list {ℓ} : {A : Type ℓ} → (A → Json) → List A → Items
from_list f [] = end
from_list f (x ∷ xs) = item (f x) (from_list f xs)
