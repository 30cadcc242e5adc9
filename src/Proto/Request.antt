-- ===== src/Proto/Request.antt =====
-- `ParseRequest` of pkg/proto/resp.go: a command from a client, as an array of bulk strings or as
-- an inline line. `Raw` and the name of the command are what goes on to the backends.
pub mod RoundTrip
pub mod Overflow
pub mod Total
use pluster.Prelude.{
  ℕ, zero, suc, ◌+◌, ◌||◌, List, [], ◌∷◌, map, Option, none, some, ◌&&◌, ◌-◌, leb, length, take,
  ◌==◌, if◌then◌else◌, Bytes,
}
use pluster.Proto.Outcome.{Outcome, ok, incomplete, invalid, ◌>>=◌}
use pluster.Proto.Int64.{is_negative, parse_int_bytes}
use pluster.Proto.Line.{read_line, read_body}
use pluster.Proto.Parse.{fields, trim_space, is_nil, or_invalid}

pub record Request : Type 0 where
  pub args : List Bytes
  pub raw : Bytes
  pub cmd : Bytes

-- `upperASCIIInPlace`.
unfoldable pub upper : Bytes → Bytes
upper = map (λ c. if leb b'a' c && leb c b'z' then c - 32 else c)

-- `upperASCIIInPlace(raw[start : start+len])`, as it changes `raw`.
unfoldable pub upper_at : ℕ → ℕ → Bytes → Bytes
unfolding upper
upper_at start zero raw = raw
upper_at start (suc len) [] = []
upper_at zero (suc len) (c ∷ cs) =
    (if leb b'a' c && leb c b'z' then c - 32 else c) ∷ upper_at zero len cs
upper_at (suc start) (suc len) (c ∷ cs) = c ∷ upper_at start (suc len) cs

-- An argument and its place in the buffer, which is its place in `raw` too.
pub record Arg : Type 0 where
  pub start : ℕ
  pub bytes : Bytes

-- The loop of `parseRequestDirect` over the arguments.
unfoldable pub parse_args : ℕ → ℕ → Bytes → Outcome (List Arg × ℕ)
parse_args zero cur rest = ok ([], cur)
parse_args (suc n) cur [] = incomplete
parse_args (suc n) cur (c ∷ rest) =
    if c == b'$'
    then (do
      (bline, bend, after) ← read_line (cur + 1) rest
      blen ← or_invalid (parse_int_bytes bline)
      if is_negative blen then invalid else (do
        (arg, need, after') ← read_body bend after blen
        (more, e) ← parse_args n need after'
        ok (record { start = bend; bytes = arg } ∷ more, e)))
    else incomplete

-- What `parseRequestDirect` returns: the arguments, the bytes taken, and where the first argument
-- lies in `raw`; the arguments of an inline command are copies.
pub record Direct : Type 0 where
  pub args : List Bytes
  pub taken : ℕ
  pub name_at : Option ℕ

abbrev first_start : List Arg → Option ℕ
first_start [] = none
first_start (a ∷ others) = some a.start

abbrev bytes_of : List Arg → List Bytes
bytes_of = map (λ a. a.bytes)

-- `parseInlineRequest`.
unfoldable pub parse_inline_request : Bytes → Outcome Direct
unfolding fields trim_space
parse_inline_request buf = do
  (line, e, after) ← read_line 0 buf
  let trimmed = trim_space line
  if is_nil trimmed
      then invalid
      else ok (record { args = fields trimmed; taken = e; name_at = none })

-- `parseRequestDirect`.
unfoldable pub parse_request_direct : Bytes → Outcome Direct
unfolding parse_args parse_inline_request
parse_request_direct [] = incomplete
parse_request_direct (c ∷ rest) =
    if c == b'*'
    then (do
      (line, pos, after) ← read_line 1 rest
      n ← or_invalid (parse_int_bytes line)
      if is_negative n || n == 0 then invalid else (do
        (args, cur) ← parse_args n pos after
        ok (record { args = bytes_of args; taken = cur; name_at = first_start args })))
    else parse_inline_request (c ∷ rest)

-- `upperASCIIInPlace(val[0])`, on the arguments and, where they share memory, on `raw`.
abbrev upper_first : List Bytes → List Bytes
upper_first [] = []
upper_first (a ∷ others) = upper a ∷ others

abbrev upper_raw : Option ℕ → List Bytes → Bytes → Bytes
upper_raw (some start) (a ∷ others) raw = upper_at start (length a) raw
upper_raw _ _ raw = raw

abbrev command_name : List Bytes → Bytes
command_name [] = []
command_name (a ∷ others) = upper a

-- `ParseRequest`: the request and how many bytes it takes; `incomplete` is the answer `nil, 0, nil`.
unfoldable pub parse_request : Bytes → Outcome (Request × ℕ)
unfolding parse_request_direct upper upper_at
parse_request buf = do
  d ← parse_request_direct buf
  let raw = take d.taken buf
  ok (
    record {
      args = upper_first d.args;
      raw = upper_raw d.name_at d.args raw;
      cmd = command_name d.args;
    },
    d.taken,
  )
