-- ===== src/Proto/Command/Info.antt =====
-- `CmdInfo` and its flags, of pkg/proto/command.go.
use Prim.Native.Nat.{bit_and}
use Prim.Native.String.{String}
use pluster.Prelude.{ℕ, Bool, not, ◌==◌, Bytes, codes}

-- `KeySpec`; the positions are ints, as patterns of 64 bits.
pub record KeySpec : Type 0 where
  pub first_key : ℕ
  pub last_key : ℕ
  pub step : ℕ

pub record CmdInfo : Type 0 where
  pub name : Bytes
  pub arity : ℕ
  pub flags : ℕ
  pub key_spec : KeySpec

abbrev pub keys : ℕ → ℕ → ℕ → KeySpec
keys first last step = record { first_key = first; last_key = last; step = step }

abbrev pub command : String → ℕ → ℕ → KeySpec → CmdInfo
command name arity flags spec = record {
  name = codes name;
  arity = arity;
  flags = flags;
  key_spec = spec;
}

-- `CmdFlag`.
abbrev pub flag_write : ℕ
flag_write = 1

abbrev pub flag_read : ℕ
flag_read = 2

abbrev pub flag_admin : ℕ
flag_admin = 4

abbrev pub flag_pub_sub : ℕ
flag_pub_sub = 8

abbrev pub flag_no_key : ℕ
flag_no_key = 16

abbrev pub flag_multi_key : ℕ
flag_multi_key = 32

abbrev pub flag_blocking : ℕ
flag_blocking = 64

abbrev pub flag_transaction : ℕ
flag_transaction = 128

abbrev pub flag_script : ℕ
flag_script = 256

abbrev pub flag_all_nodes : ℕ
flag_all_nodes = 512

abbrev pub flag_not_allowed : ℕ
flag_not_allowed = 1024

-- `HasFlag`, on an entry that is there.
unfoldable pub has_flag : CmdInfo → ℕ → Bool
has_flag c f = not (bit_and c.flags f == 0)
