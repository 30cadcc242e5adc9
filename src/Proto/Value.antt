-- ===== src/Proto/Value.antt =====
-- `Value` of pkg/proto/resp.go: one constructor for each combination of `Type` and `IsNil` that
-- the code builds, with the fields that the combination uses; the other fields are zero.
use pluster.Prelude.{ℕ, suc, Bool, true, false, ◌&&◌, [], ◌∷◌, ◌==◌, Bytes, codes}

mutual
  pub data Value : Type 0 where
    simple_string : Bytes → Value
    error : Bytes → Value
    integer : ℕ → Value
    bulk_string : Bytes → Value
    nil_bulk_string : Value
    array : Values → Value
    nil_array : Value
    -- A nil `*Value`.
    nil_pointer : Value

  -- `[]*Value`.
  pub data Values : Type 0 where
    nil : Values
    cons : Value → Values → Values

-- `len` of `[]*Value`.
abbrev pub count_values : Values → ℕ
count_values nil = 0
count_values (cons v vs) = suc (count_values vs)

-- `bytes.HasPrefix(b, prefix)`.
unfoldable pub has_prefix : Bytes → Bytes → Bool
has_prefix b [] = true
has_prefix [] (p ∷ ps) = false
has_prefix (x ∷ b) (p ∷ ps) = x == p && has_prefix b ps

-- `IsMovedError`.
unfoldable pub is_moved_error : Value → Bool
is_moved_error (error str) = has_prefix str (codes "MOVED ")
is_moved_error _ = false

-- `IsAskError`.
unfoldable pub is_ask_error : Value → Bool
is_ask_error (error str) = has_prefix str (codes "ASK ")
is_ask_error _ = false

-- `IsError`.
unfoldable pub is_error : Value → Bool
is_error (error str) = true
is_error _ = false
