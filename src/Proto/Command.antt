-- ===== src/Proto/Command.antt =====
-- The command table of pkg/proto/command.go, and the keys of a request.
pub mod Info
pub mod Data
pub mod Other
pub mod Keys
use pluster.Prelude.{
  ℕ, zero, suc, ◌+◌, Bool, true, false, ◌&&◌, ◌||◌, not, Option, none, some, List, [], ◌∷◌, ◌++◌,
  leb, ltb, ◌==◌, if◌then◌else◌, Bytes, bytes_eq, codes, length, get_elem?,
}
use pluster.Proto.Outcome.{Outcome, ok, panicked, stuck, ◌>>=◌}
use pluster.Proto.Int64.{is_negative, add64, lt64}
use pluster.Proto.Request.{Request, upper}
use pluster.Proto.Command.Info.{CmdInfo, KeySpec}
use pluster.Proto.Command.Data.{data_commands}
use pluster.Proto.Command.Other.{other_commands}

abbrev pub cmd_table : List CmdInfo
cmd_table = data_commands ++ other_commands

unfoldable pub find_command : Bytes → List CmdInfo → Option CmdInfo
find_command name [] = none
find_command name (c ∷ cs) = if bytes_eq c.name name then some c else find_command name cs

-- `GetCmdInfo`.
unfoldable pub get_cmd_info : Bytes → Option CmdInfo
unfolding find_command
get_cmd_info name = find_command name cmd_table

-- `argv[i]` for an `i` that may be out of range.
abbrev pub arg_at : List Bytes → ℕ → Outcome Bytes
arg_at args i = elim (get_elem? args i) [ none ↦ panicked | some a ↦ ok a ]

abbrev pub first_key_of : CmdInfo → List Bytes → Option Bytes
first_key_of info args =
    if not (lt64 0 info.key_spec.first_key) || not (lt64 info.key_spec.first_key (length args))
    then none
    else get_elem? args info.key_spec.first_key

-- `GetFirstKeyFromRequest`; nil is `none`.
abbrev pub first_key_in : Option CmdInfo → List Bytes → Option Bytes
first_key_in none args = none
first_key_in (some info) args = first_key_of info args

unfoldable pub get_first_key_from_request : Request → Option Bytes
get_first_key_from_request req =
    if length req.args == 0 then none else first_key_in (get_cmd_info req.cmd) req.args

-- `for i := first; i <= last; i += step`, with fuel.
unfoldable pub keys_from : ℕ → ℕ → ℕ → ℕ → List Bytes → Outcome (List Bytes)
keys_from zero i last step args = if lt64 last i then ok [] else stuck
keys_from (suc f) i last step args =
    if lt64 last i
    then ok []
    else (do a ← arg_at args i; rest ← keys_from f (add64 i step) last step args; ok (a ∷ rest))

abbrev pub last_position : ℕ → ℕ → ℕ
last_position last argc = if is_negative last then add64 argc last else last

abbrev pub step_or_one : ℕ → ℕ
step_or_one step = if lt64 0 step then step else 1

-- `GetKeys` from the entry of the command on; the fuel is the number of arguments.
abbrev pub keys_between : ℕ → ℕ → ℕ → List Bytes → Outcome (List Bytes)
keys_between first last step args =
    if not (lt64 first (length args)) || not (lt64 last (length args)) || lt64 last first
    then ok []
    else keys_from (length args) first last step args

abbrev pub keys_of : Option CmdInfo → List Bytes → Outcome (List Bytes)
keys_of none args = ok []
keys_of (some info) args =
    if info.key_spec.first_key == 0
    then ok []
    else keys_between info.key_spec.first_key (last_position info.key_spec.last_key (length args))
        (step_or_one info.key_spec.step) args

-- `GetKeys`; nil is the empty list.
unfoldable pub get_keys : Request → Outcome (List Bytes)
unfolding keys_from
get_keys req = if length req.args == 0 then ok [] else keys_of (get_cmd_info req.cmd) req.args

-- `IsBlockingXREAD`.
abbrev pub has_block : List Bytes → Bool
has_block [] = false
has_block (a ∷ []) = false
has_block (a ∷ b ∷ args) = bytes_eq (upper a) (codes "BLOCK") || has_block (b ∷ args)

abbrev pub after_name : List Bytes → List Bytes
after_name [] = []
after_name (a ∷ args) = args

unfoldable pub is_blocking_xread : Request → Bool
unfolding upper bytes_eq
is_blocking_xread req =
    (bytes_eq req.cmd (codes "XREAD") || bytes_eq req.cmd (codes "XREADGROUP"))
    && has_block (after_name req.args)
