-- ===== src/Tests/Command.antt =====
-- The command table of pkg/proto/command.go.
use pluster.Prelude.{◌≡◌, refl, true, some, [], ◌∷◌, bytes_eq, codes}
use pluster.Proto.Outcome.{ok}
use pluster.Proto.Request.{Request}
use pluster.Proto.Command.Info.{command, keys, has_flag, flag_read}
use pluster.Proto.Command.{get_cmd_info, get_keys}

abbrev mset : Request
mset = record {
  args = codes "MSET" ∷ codes "a" ∷ codes "1" ∷ codes "b" ∷ codes "2" ∷ [];
  raw = [];
  cmd = codes "MSET";
}

mset_keys : get_keys mset ≡ ok (codes "a" ∷ codes "b" ∷ [])
unfolding get_keys get_cmd_info bytes_eq
mset_keys = refl

get_info : get_cmd_info (codes "GET") ≡ some (command "GET" 2 flag_read (keys 1 1 1))
unfolding get_cmd_info bytes_eq
get_info = refl

is_a_read : has_flag (command "GET" 2 flag_read (keys 1 1 1)) flag_read ≡ true
unfolding has_flag
is_a_read = refl
