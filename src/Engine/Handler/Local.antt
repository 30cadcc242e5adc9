-- ===== src/Engine/Handler/Local.antt =====
-- The commands that the proxy answers itself in pkg/engine/handler_routing.go: `handleHELLO`,
-- `handleAUTH`, `handleCLUSTER`, `handleClientCmd`, and PING, ECHO and their kin of `handleNormal`.
pub mod Hello
use pluster.Prelude.{
  ℕ, ◌||◌, not, ◌&&◌, Bool, true, false, Option, none, some, List, [], ◌∷◌, ◌++◌, ltb,
  if◌then◌else◌, Bytes, bytes_eq, codes, length,
}
use pluster.Proto.Int64.{format_int}
use pluster.Proto.Value.{Value, bulk_string, integer, array, nil, cons}
use pluster.Proto.Encode.{encode_value}
use pluster.Proto.Request.{Request, upper}
use pluster.Cluster.{Node, find_node, replicas_of, all_masters}
use pluster.Router.Scan.{format_uint}
use pluster.Engine.Split.Route.{lower, args_behind}
use pluster.Engine.Handler.{
  Server, Ctx, reply, reply_error, reply_simple, reply_bulk, submit, call_execute,
}

abbrev pub wrong_arguments : Bytes → Bytes
wrong_arguments name = (codes "ERR wrong number of arguments for '" ++ name) ++ codes "' command"

-- PING, ECHO, SELECT, READONLY and READWRITE.
unfoldable pub handle_ping : List Bytes → Ctx → Ctx
handle_ping [] c = reply_simple (codes "PONG") c
handle_ping (msg ∷ more) c = reply_bulk msg c

unfoldable pub handle_echo : List Bytes → Ctx → Ctx
handle_echo (msg ∷ []) c = reply_bulk msg c
handle_echo _ c = reply_error (wrong_arguments (codes "echo")) c

unfoldable pub handle_select : List Bytes → Ctx → Ctx
unfolding bytes_eq
handle_select (db ∷ []) c =
    if bytes_eq db (codes "0")
    then reply_simple (codes "OK") c
    else reply_error (codes "ERR SELECT is not allowed in cluster mode") c
handle_select _ c = reply_error (wrong_arguments (codes "select")) c

unfoldable pub handle_no_args : Bytes → List Bytes → Ctx → Ctx
handle_no_args name [] c = reply_simple (codes "OK") c
handle_no_args name _ c = reply_error (wrong_arguments name) c

abbrev pub with_authenticated : Bool → Ctx → Ctx
with_authenticated b c = record c { session = record c.session { authenticated = b } }

-- `handleAUTH`, at the password that is provided.
abbrev pub check_password : Server → Bytes → Ctx → Ctx
check_password srv provided c =
    if bytes_eq provided srv.client_password
    then reply_simple (codes "OK") (with_authenticated true c)
    else reply_error (codes "WRONGPASS invalid username-password pair or user is disabled.")
        (with_authenticated false c)

abbrev pub auth_with : Server → List Bytes → Ctx → Ctx
auth_with srv (password ∷ []) c = check_password srv password c
auth_with srv (user ∷ password ∷ []) c = check_password srv password c
auth_with srv _ c = reply_error (wrong_arguments (codes "auth")) c

abbrev pub no_password : Bytes
no_password =
    codes "ERR Client sent AUTH, but no password is set. Did you mean ACL SETUSER with >password?"

unfoldable pub handle_auth : Server → List Bytes → Ctx → Ctx
unfolding bytes_eq
handle_auth srv args c =
    if bytes_eq srv.client_password [] then reply_error no_password c else auth_with srv args c

-- Where the loop of `handleHELLO` over the options ends: it has returned, or runs to its end.
pub data Options : Type 0 where
  returned finished : Ctx → Options

abbrev pub is_option : Bytes → Bytes → Bool
is_option name arg = bytes_eq (upper arg) name

abbrev pub authenticated_or_returned : Ctx → Options → Options
authenticated_or_returned c rest = if c.session.authenticated then rest else returned c

abbrev pub syntax_error_auth : Bytes
syntax_error_auth = codes "ERR Syntax error in HELLO option 'auth'"

abbrev pub syntax_error_setname : Bytes
syntax_error_setname = codes "ERR Syntax error in HELLO option 'setname'"

unfoldable pub hello_options : Server → List Bytes → Ctx → Options
unfolding upper bytes_eq handle_auth
hello_options srv [] c = finished c
hello_options srv (arg ∷ []) c =
    if is_option (codes "AUTH") arg
    then returned (reply_error syntax_error_auth c)
    else if is_option (codes "SETNAME") arg
    then returned (reply_error syntax_error_setname c)
    else finished c
hello_options srv (arg ∷ a ∷ []) c =
    let rest = hello_options srv (a ∷ []) c in
    if is_option (codes "AUTH") arg
    then returned (reply_error syntax_error_auth c)
    else if is_option (codes "SETNAME") arg
    then finished (record c { client_name = a })
    else rest
hello_options srv (arg ∷ a ∷ b ∷ args) c =
    let c' = handle_auth srv (a ∷ b ∷ []) c in
    let behind_auth = hello_options srv args c' in
    let behind_name = hello_options srv (b ∷ args) (record c { client_name = a }) in
    let rest = hello_options srv (a ∷ b ∷ args) c in
    if is_option (codes "AUTH") arg
    then authenticated_or_returned c' behind_auth
    else if is_option (codes "SETNAME") arg
    then behind_name
    else rest

abbrev pub or_default_addr : Bytes → Bytes
or_default_addr [] = codes "127.0.0.1:7777"
or_default_addr (b ∷ bs) = b ∷ bs

-- The array that HELLO is answered with.
abbrev pub hello_reply : Server → Value
hello_reply srv = array (
    cons (bulk_string (codes "server")) (
      cons (bulk_string (codes "pluster")) (
        cons (bulk_string (codes "version")) (
          cons (bulk_string (codes "1.0.0")) (
            cons (bulk_string (codes "proto")) (
              cons (integer 2) (
                cons (bulk_string (codes "id")) (
                  cons (integer srv.client_id) (
                    cons (bulk_string (codes "mode")) (
                      cons (bulk_string (codes "cluster")) (
                        cons (bulk_string (codes "role")) (
                          cons (bulk_string (codes "master")) (
                            cons (bulk_string (codes "modules")) (cons (array nil) nil))))))))))))))

unfoldable pub finish_hello : Server → Options → Ctx
unfolding encode_value
finish_hello srv (returned c) = c
finish_hello srv (finished c) =
    if c.session.authenticated
    then reply (encode_value (hello_reply srv)) c
    else reply_error (codes "NOAUTH Authentication required.") c

unfoldable pub handle_hello : Server → List Bytes → Ctx → Ctx
unfolding hello_options finish_hello bytes_eq
handle_hello srv [] c = finish_hello srv (finished c)
handle_hello srv (proto ∷ args) c =
    if bytes_eq proto (codes "3")
    then reply_error (codes "NOPROTO unsupported protocol version") c
    else if not (bytes_eq proto (codes "2")) && not (bytes_eq proto [])
    then reply_error (codes "ERR Protocol version must be 2 or 3") c
    else finish_hello srv (hello_options srv args c)

-- `handleClusterNodes`.
unfoldable pub handle_cluster_nodes : Server → Ctx → Ctx
handle_cluster_nodes srv c =
    reply_bulk
      ((codes "0000000000000000000000000000000000000000 " ++ or_default_addr srv.listen_addr)
        ++ codes "@0 myself,master - 0 0 1 connected 0-16383\n")
      c

-- `handleClusterConnection`.
abbrev pub count_line : Server → Bytes → Bytes → Bytes
count_line srv label addr =
    (((label ++ addr) ++ codes " connection: ") ++ format_int (srv.total_conn_by_addr addr))
    ++ codes "\n"

abbrev pub replica_lines : Server → List Bytes → Bytes
replica_lines srv [] = []
replica_lines srv (r ∷ rs) = count_line srv (codes " slave_node_") r ++ replica_lines srv rs

abbrev pub master_lines : Server → List Bytes → Bytes
master_lines srv [] = []
master_lines srv (m ∷ ms) =
    (count_line srv (codes "master_") m
      ++ replica_lines srv (replicas_of (find_node m srv.topo.snap.nodes)))
    ++ master_lines srv ms

unfoldable pub handle_cluster_connection : Server → Ctx → Ctx
unfolding find_node all_masters format_int
handle_cluster_connection srv c = reply_bulk (master_lines srv (all_masters srv.topo)) c

-- Whether a name is one of a list.
abbrev pub is_any : List Bytes → Bytes → Bool
is_any [] b = false
is_any (n ∷ ns) b = bytes_eq b n || is_any ns b

abbrev pub cluster_via_router : List Bytes
cluster_via_router =
    codes "SLOTS"
    ∷ codes "INFO"
    ∷ codes "MYID"
    ∷ codes "SHARDS"
    ∷ codes "KEYSLOT"
    ∷ codes "COUNTKEYSINSLOT"
    ∷ codes "GETKEYSINSLOT"
    ∷ codes "RESET"
    ∷ []

unfoldable pub handle_cluster : Server → Request → List Bytes → Ctx → Ctx
unfolding upper lower bytes_eq submit handle_cluster_nodes handle_cluster_connection
handle_cluster srv req [] c = reply_error (wrong_arguments (codes "cluster")) c
handle_cluster srv req (s ∷ args) c =
    let sub = upper s in
    if bytes_eq sub (codes "NODES")
    then handle_cluster_nodes srv c
    else if is_any cluster_via_router sub
    then submit call_execute req c
    else if bytes_eq sub (codes "CONNECTION")
    then handle_cluster_connection srv c
    else reply_error
        ((codes "ERR unknown subcommand '" ++ lower sub) ++ codes "'. Try CLUSTER HELP.") c

-- `handleClientCmd`.
abbrev pub max_client_name_len : ℕ
max_client_name_len = 100

abbrev pub name_or_default : Server → Bytes → Bytes
name_or_default srv [] = codes "pluster-client-" ++ format_uint srv.client_id
name_or_default srv (b ∷ bs) = b ∷ bs

abbrev pub client_line : Server → Bytes
client_line srv =
    (((codes "id=" ++ format_uint srv.client_id) ++ codes " addr=") ++ srv.remote_addr)
    ++ codes "\n"

abbrev pub set_name : List Bytes → Ctx → Ctx
set_name [] c = reply_error (wrong_arguments (codes "client|setname")) c
set_name (name ∷ args) c =
    if ltb max_client_name_len (length name)
    then reply_error (codes "ERR Client setname command name too long, maximum is 100") c
    else reply_simple (codes "OK") (record c { client_name = name })

abbrev pub client_ignored : List Bytes
client_ignored =
    codes "NO-EVICT" ∷ codes "NO-TOUCH" ∷ codes "CACHING" ∷ codes "UNPAUSE" ∷ codes "PAUSE" ∷ []

unfoldable pub handle_client_cmd : Server → List Bytes → Ctx → Ctx
unfolding upper bytes_eq format_uint encode_value
handle_client_cmd srv [] c = reply_error (wrong_arguments (codes "client")) c
handle_client_cmd srv (s ∷ args) c =
    let sub = upper s in
    if bytes_eq sub (codes "SETNAME")
    then set_name args c
    else if bytes_eq sub (codes "GETNAME")
    then reply_bulk (name_or_default srv c.client_name) c
    else if bytes_eq sub (codes "ID")
    then reply (encode_value (integer srv.client_id)) c
    else if bytes_eq sub (codes "INFO") || bytes_eq sub (codes "LIST")
    then reply_bulk (client_line srv) c
    else if is_any client_ignored sub
    then reply_simple (codes "OK") c
    else reply_error ((codes "ERR unknown subcommand '" ++ sub) ++ codes "' for 'client' command") c
