-- ===== src/Engine/Handler/Proxy.antt =====
-- `handleProxyCmd` of pkg/engine/handler_routing.go: PROXY CONFIG, INFO, STATS, NODES, MULTIPLEXING.
use pluster.Prelude.{none, some, List, [], ◌∷◌, ◌++◌, if◌then◌else◌, Bytes, bytes_eq, codes}
use pluster.Proto.Int64.{format_int, is_negative}
use pluster.Proto.Value.{bulk_string, array, nil, cons}
use pluster.Proto.Encode.{encode_value}
use pluster.Proto.Request.{upper}
use pluster.Engine.Split.Route.{lower}
use pluster.Router.Redirect.{atoi}
use pluster.Engine.Handler.{Server, Ctx, reply, reply_error, reply_simple, reply_bulk}
use pluster.Engine.Handler.Local.{wrong_arguments, handle_cluster_nodes}

abbrev pub wrong_number_proxy : Bytes
wrong_number_proxy = codes "ERR wrong number of arguments"

abbrev pub unknown_option : Bytes → Bytes
unknown_option opt = (codes "ERR unknown option '" ++ opt) ++ codes "'"

unfoldable pub config_get : List Bytes → Ctx → Ctx
unfolding lower bytes_eq format_int encode_value
config_get [] c = reply_error wrong_number_proxy c
config_get (o ∷ args) c =
    let opt = lower o in
    if bytes_eq opt (codes "max-clients")
    then reply
        (encode_value
          (array (cons (bulk_string opt) (cons (bulk_string (format_int c.max_clients)) nil))))
        c
    else reply_error (unknown_option opt) c

unfoldable pub config_set : List Bytes → Ctx → Ctx
unfolding lower bytes_eq atoi
config_set [] c = reply_error wrong_number_proxy c
config_set (o ∷ []) c = reply_error wrong_number_proxy c
config_set (o ∷ val ∷ args) c =
    let opt = lower o in
    if bytes_eq opt (codes "max-clients")
    then elim (atoi val) [
      | none ↦ reply_error (codes "ERR invalid value for max-clients") c
      | some n ↦
          if is_negative n
          then reply_error (codes "ERR invalid value for max-clients") c
          else reply_simple (codes "OK") (record c { max_clients = n })
    ]
    else reply_error (unknown_option opt) c

unfoldable pub handle_config : List Bytes → Ctx → Ctx
unfolding upper bytes_eq config_get config_set
handle_config [] c = reply_error (wrong_arguments (codes "proxy config")) c
handle_config (a ∷ args) c =
    let action = upper a in
    if bytes_eq action (codes "GET")
    then config_get args c
    else if bytes_eq action (codes "SET")
    then config_set args c
    else reply_error ((codes "ERR unknown action '" ++ action) ++ codes "'") c

unfoldable pub handle_multiplexing : List Bytes → Ctx → Ctx
unfolding upper lower bytes_eq
handle_multiplexing [] c = reply_error (wrong_arguments (codes "proxy multiplexing")) c
handle_multiplexing (a ∷ args) c =
    let action = upper a in
    if bytes_eq action (codes "STATUS")
    then reply_bulk (codes "off") c
    else if bytes_eq action (codes "OFF")
    then reply_simple (codes "OK") c
    else reply_error
        ((codes "ERR unknown subcommand '" ++ lower action)
          ++ codes "'. Try PROXY MULTIPLEXING STATUS|OFF.")
        c

unfoldable pub handle_proxy_cmd : Server → List Bytes → Ctx → Ctx
unfolding upper bytes_eq handle_config handle_multiplexing handle_cluster_nodes
handle_proxy_cmd srv [] c = reply_error (wrong_arguments (codes "proxy")) c
handle_proxy_cmd srv (s ∷ args) c =
    let sub = upper s in
    if bytes_eq sub (codes "CONFIG")
    then handle_config args c
    else if bytes_eq sub (codes "INFO")
    then reply_bulk (codes "proxy_version:1.0.0\r\ncross_slot:true\r\nmultiplexing_api:off\r\n") c
    else if bytes_eq sub (codes "STATS")
    then reply_bulk srv.stats c
    else if bytes_eq sub (codes "NODES")
    then handle_cluster_nodes srv c
    else if bytes_eq sub (codes "MULTIPLEXING")
    then handle_multiplexing args c
    else reply_error ((codes "ERR unknown subcommand '" ++ sub) ++ codes "' for 'proxy' command") c
