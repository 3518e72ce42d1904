-- ===== src/Util/Varchar.antt =====
-- TruncateVarchar of backend-shared/db/db_field_constants.go. A maximum below zero and a string
-- that is not UTF-8 do not occur: a text is a list of characters here, and the maximum is a
-- number.
pub mod Bounds
use Prim.Native.String.{◌++◌ as concat, count}
use managed_gitops.Base.{ℕ, zero, suc, ◌-◌, String, leb, ltb, if◌then◌else◌}

-- `strings.Join(wb[:n], "")`
unfoldable pub take_chars : ℕ → String → String
take_chars zero s = ""
take_chars (suc n) String.[] = ""
take_chars (suc n) (String.◌∷◌ c s) = String.◌∷◌ c (take_chars n s)

-- `strings.Repeat(".", n)`
unfoldable pub dots : ℕ → String
dots zero = ""
dots (suc n) = concat "." (dots n)

-- The number of characters is `len(strings.Split(s, ""))`.
unfoldable pub truncate_varchar : String → ℕ → String
unfolding take_chars dots
truncate_varchar s max_length =
    if leb max_length 3
    then dots max_length
    else if ltb max_length (count s)
    then concat (take_chars (max_length - 3) s) "..."
    else s
