-- ===== src/Proto/Command/Other.antt =====
-- `cmdTable` of pkg/proto/command.go: the other commands.
use pluster.Prelude.{List, [], ◌∷◌, bit_or}
use pluster.Proto.Int64.{neg64}
use pluster.Proto.Command.Info.{
  CmdInfo, command, keys, flag_admin, flag_all_nodes, flag_multi_key, flag_no_key, flag_not_allowed,
  flag_pub_sub, flag_read, flag_script, flag_transaction, flag_write,
}

abbrev pub other_commands : List CmdInfo
other_commands =
    command "EXPIRE" (neg64 3) flag_write (keys 1 1 1)
    ∷ command "EXPIREAT" 3 flag_write (keys 1 1 1)
    ∷ command "PEXPIRE" 3 flag_write (keys 1 1 1)
    ∷ command "PEXPIREAT" 3 flag_write (keys 1 1 1)
    ∷ command "EXPIRETIME" 2 flag_read (keys 1 1 1)
    ∷ command "PEXPIRETIME" 2 flag_read (keys 1 1 1)
    ∷ command "TTL" 2 flag_read (keys 1 1 1)
    ∷ command "PTTL" 2 flag_read (keys 1 1 1)
    ∷ command "PERSIST" 2 flag_write (keys 1 1 1)
    ∷ command "TYPE" 2 flag_read (keys 1 1 1)
    ∷ command "RENAME" 3 (bit_or flag_write flag_not_allowed) (keys 1 2 1)
    ∷ command "RENAMENX" 3 (bit_or flag_write flag_not_allowed) (keys 1 2 1)
    ∷ command "COPY" (neg64 3) flag_write (keys 1 2 1)
    ∷ command "MOVE" 3 (bit_or flag_write flag_not_allowed) (keys 1 1 1)
    ∷ command "DUMP" 2 (bit_or flag_read flag_not_allowed) (keys 1 1 1)
    ∷ command "RESTORE" (neg64 4) (bit_or flag_write flag_not_allowed) (keys 1 1 1)
    ∷ command "OBJECT" (neg64 2) flag_read (keys 2 2 1)
    ∷ command "SORT" (neg64 2) flag_write (keys 1 1 1)
    ∷ command "SCAN" (neg64 2) (bit_or flag_read flag_all_nodes) (keys 0 0 0)
    ∷ command "PFADD" (neg64 2) flag_write (keys 1 1 1)
    ∷ command "PFCOUNT" (neg64 2) (bit_or flag_read flag_multi_key) (keys 1 (neg64 1) 1)
    ∷ command "PFMERGE" (neg64 2) (bit_or flag_write (bit_or flag_multi_key flag_not_allowed))
        (keys 1 (neg64 1) 1)
    ∷ command "GEOADD" (neg64 5) flag_write (keys 1 1 1)
    ∷ command "GEODIST" (neg64 4) flag_read (keys 1 1 1)
    ∷ command "GEOHASH" (neg64 3) flag_read (keys 1 1 1)
    ∷ command "GEOPOS" (neg64 2) flag_read (keys 1 1 1)
    ∷ command "GEORADIUS" (neg64 6) flag_write (keys 1 1 1)
    ∷ command "GEORADIUSBYMEMBER" (neg64 5) flag_write (keys 1 1 1)
    ∷ command "GEOSEARCH" (neg64 7) flag_read (keys 1 1 1)
    ∷ command "GEOSEARCHSTORE" (neg64 8) flag_write (keys 1 2 1)
    ∷ command "BITCOUNT" (neg64 2) flag_read (keys 1 1 1)
    ∷ command "BITPOS" (neg64 3) flag_read (keys 1 1 1)
    ∷ command "BITOP" (neg64 4) (bit_or flag_write flag_multi_key) (keys 2 (neg64 1) 1)
    ∷ command "BITFIELD" (neg64 2) flag_write (keys 1 1 1)
    ∷ command "SETBIT" 4 flag_write (keys 1 1 1)
    ∷ command "GETBIT" 3 flag_read (keys 1 1 1)
    ∷ command "XADD" (neg64 5) flag_write (keys 1 1 1)
    ∷ command "XREAD" (neg64 4) (bit_or flag_read flag_multi_key) (keys 0 0 0)
    ∷ command "XREADGROUP" (neg64 7) (bit_or flag_write flag_multi_key) (keys 0 0 0)
    ∷ command "XRANGE" (neg64 4) flag_read (keys 1 1 1)
    ∷ command "XREVRANGE" (neg64 4) flag_read (keys 1 1 1)
    ∷ command "XLEN" 2 flag_read (keys 1 1 1)
    ∷ command "XACK" (neg64 4) flag_write (keys 1 1 1)
    ∷ command "XDEL" (neg64 3) flag_write (keys 1 1 1)
    ∷ command "XTRIM" (neg64 4) flag_write (keys 1 1 1)
    ∷ command "XINFO" (neg64 2) flag_read (keys 2 2 1)
    ∷ command "XGROUP" (neg64 2) flag_write (keys 2 2 1)
    ∷ command "XCLAIM" (neg64 6) flag_write (keys 1 1 1)
    ∷ command "XAUTOCLAIM" (neg64 7) flag_write (keys 1 1 1)
    ∷ command "XPENDING" (neg64 3) flag_read (keys 1 1 1)
    ∷ command "EVAL" (neg64 3) flag_script (keys 3 0 1)
    ∷ command "EVALSHA" (neg64 3) flag_script (keys 3 0 1)
    ∷ command "EVAL_RO" (neg64 3) (bit_or flag_script flag_read) (keys 3 0 1)
    ∷ command "EVALSHA_RO" (neg64 3) (bit_or flag_script flag_read) (keys 3 0 1)
    ∷ command "SCRIPT" (neg64 2) (bit_or flag_script flag_admin) (keys 0 0 0)
    ∷ command "PUBLISH" 3 flag_pub_sub (keys 0 0 0)
    ∷ command "SUBSCRIBE" (neg64 2) flag_pub_sub (keys 0 0 0)
    ∷ command "UNSUBSCRIBE" (neg64 1) flag_pub_sub (keys 0 0 0)
    ∷ command "PSUBSCRIBE" (neg64 2) flag_pub_sub (keys 0 0 0)
    ∷ command "PUNSUBSCRIBE" (neg64 1) flag_pub_sub (keys 0 0 0)
    ∷ command "PUBSUB" (neg64 2) (bit_or flag_pub_sub flag_read) (keys 0 0 0)
    ∷ command "MULTI" 1 flag_transaction (keys 0 0 0)
    ∷ command "EXEC" 1 flag_transaction (keys 0 0 0)
    ∷ command "DISCARD" 1 flag_transaction (keys 0 0 0)
    ∷ command "WATCH" (neg64 2) flag_transaction (keys 1 (neg64 1) 1)
    ∷ command "UNWATCH" 1 flag_transaction (keys 0 0 0)
    ∷ command "PING" (neg64 1) flag_no_key (keys 0 0 0)
    ∷ command "ECHO" 2 flag_no_key (keys 0 0 0)
    ∷ command "SELECT" 2 flag_no_key (keys 0 0 0)
    ∷ command "AUTH" (neg64 2) flag_no_key (keys 0 0 0)
    ∷ command "QUIT" 1 flag_no_key (keys 0 0 0)
    ∷ command "RESET" 1 flag_no_key (keys 0 0 0)
    ∷ command "CLIENT" (neg64 2) flag_no_key (keys 0 0 0)
    ∷ command "DBSIZE" 1 (bit_or flag_read flag_all_nodes) (keys 0 0 0)
    ∷ command "KEYS" 2 (bit_or flag_read flag_all_nodes) (keys 0 0 0)
    ∷ command "RANDOMKEY" 1 (bit_or flag_read (bit_or flag_all_nodes flag_not_allowed)) (keys 0 0 0)
    ∷ command "FLUSHDB" (neg64 1) (bit_or flag_write (bit_or flag_admin flag_all_nodes))
        (keys 0 0 0)
    ∷ command "FLUSHALL" (neg64 1) (bit_or flag_write (bit_or flag_admin flag_all_nodes))
        (keys 0 0 0)
    ∷ command "INFO" (neg64 1) (bit_or flag_read flag_admin) (keys 0 0 0)
    ∷ command "CONFIG" (neg64 2) flag_admin (keys 0 0 0)
    ∷ command "DEBUG" (neg64 2) flag_admin (keys 0 0 0)
    ∷ command "CLUSTER" (neg64 2) flag_admin (keys 0 0 0)
    ∷ command "COMMAND" (neg64 1) flag_no_key (keys 0 0 0)
    ∷ command "LATENCY" (neg64 2) flag_admin (keys 0 0 0)
    ∷ command "SLOWLOG" (neg64 2) flag_admin (keys 0 0 0)
    ∷ command "TIME" 1 (bit_or flag_read flag_no_key) (keys 0 0 0)
    ∷ command "WAIT" 3 flag_no_key (keys 0 0 0)
    ∷ command "HELLO" (neg64 1) flag_no_key (keys 0 0 0)
    ∷ command "READONLY" 1 flag_no_key (keys 0 0 0)
    ∷ command "READWRITE" 1 flag_no_key (keys 0 0 0)
    ∷ command "BROADCAST" (neg64 2) (bit_or flag_admin flag_all_nodes) (keys 0 0 0)
    ∷ []
