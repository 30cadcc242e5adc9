-- ===== src/Proto/Command/Data.antt =====
-- `cmdTable` of pkg/proto/command.go: the commands on strings, hashes, lists and sets.
use pluster.Prelude.{List, [], ◌∷◌, bit_or}
use pluster.Proto.Int64.{neg64}
use pluster.Proto.Command.Info.{
  CmdInfo, command, keys, flag_blocking, flag_multi_key, flag_not_allowed, flag_read, flag_write,
}

abbrev pub data_commands : List CmdInfo
data_commands =
    command "GET" 2 flag_read (keys 1 1 1)
    ∷ command "SET" (neg64 3) flag_write (keys 1 1 1)
    ∷ command "DEL" (neg64 2) (bit_or flag_write flag_multi_key) (keys 1 (neg64 1) 1)
    ∷ command "UNLINK" (neg64 2) (bit_or flag_write flag_multi_key) (keys 1 (neg64 1) 1)
    ∷ command "MGET" (neg64 2) (bit_or flag_read flag_multi_key) (keys 1 (neg64 1) 1)
    ∷ command "MSET" (neg64 3) (bit_or flag_write flag_multi_key) (keys 1 (neg64 1) 2)
    ∷ command "MSETNX" (neg64 3) (bit_or flag_write flag_multi_key) (keys 1 (neg64 1) 2)
    ∷ command "EXISTS" (neg64 2) (bit_or flag_read flag_multi_key) (keys 1 (neg64 1) 1)
    ∷ command "TOUCH" (neg64 2) (bit_or flag_read flag_multi_key) (keys 1 (neg64 1) 1)
    ∷ command "APPEND" 3 flag_write (keys 1 1 1)
    ∷ command "GETSET" 3 flag_write (keys 1 1 1)
    ∷ command "GETDEL" 2 flag_write (keys 1 1 1)
    ∷ command "GETEX" (neg64 2) flag_write (keys 1 1 1)
    ∷ command "SETNX" 3 flag_write (keys 1 1 1)
    ∷ command "SETEX" 4 flag_write (keys 1 1 1)
    ∷ command "PSETEX" 4 flag_write (keys 1 1 1)
    ∷ command "GETRANGE" 4 flag_read (keys 1 1 1)
    ∷ command "SETRANGE" 4 flag_write (keys 1 1 1)
    ∷ command "STRLEN" 2 flag_read (keys 1 1 1)
    ∷ command "INCR" 2 flag_write (keys 1 1 1)
    ∷ command "INCRBY" 3 flag_write (keys 1 1 1)
    ∷ command "INCRBYFLOAT" 3 flag_write (keys 1 1 1)
    ∷ command "DECR" 2 flag_write (keys 1 1 1)
    ∷ command "DECRBY" 3 flag_write (keys 1 1 1)
    ∷ command "HGET" 3 flag_read (keys 1 1 1)
    ∷ command "HSET" (neg64 4) flag_write (keys 1 1 1)
    ∷ command "HSETNX" 4 flag_write (keys 1 1 1)
    ∷ command "HMGET" (neg64 3) flag_read (keys 1 1 1)
    ∷ command "HMSET" (neg64 4) flag_write (keys 1 1 1)
    ∷ command "HDEL" (neg64 3) flag_write (keys 1 1 1)
    ∷ command "HEXISTS" 3 flag_read (keys 1 1 1)
    ∷ command "HGETALL" 2 flag_read (keys 1 1 1)
    ∷ command "HKEYS" 2 flag_read (keys 1 1 1)
    ∷ command "HVALS" 2 flag_read (keys 1 1 1)
    ∷ command "HLEN" 2 flag_read (keys 1 1 1)
    ∷ command "HSTRLEN" 3 flag_read (keys 1 1 1)
    ∷ command "HRANDFIELD" (neg64 2) flag_read (keys 1 1 1)
    ∷ command "HINCRBY" 4 flag_write (keys 1 1 1)
    ∷ command "HINCRBYFLOAT" 4 flag_write (keys 1 1 1)
    ∷ command "HSCAN" (neg64 3) flag_read (keys 1 1 1)
    ∷ command "LPUSH" (neg64 3) flag_write (keys 1 1 1)
    ∷ command "LPUSHX" (neg64 3) flag_write (keys 1 1 1)
    ∷ command "RPUSH" (neg64 3) flag_write (keys 1 1 1)
    ∷ command "RPUSHX" (neg64 3) flag_write (keys 1 1 1)
    ∷ command "LPOP" (neg64 2) flag_write (keys 1 1 1)
    ∷ command "RPOP" (neg64 2) flag_write (keys 1 1 1)
    ∷ command "LLEN" 2 flag_read (keys 1 1 1)
    ∷ command "LRANGE" 4 flag_read (keys 1 1 1)
    ∷ command "LINDEX" 3 flag_read (keys 1 1 1)
    ∷ command "LSET" 4 flag_write (keys 1 1 1)
    ∷ command "LINSERT" 5 flag_write (keys 1 1 1)
    ∷ command "LREM" 4 flag_write (keys 1 1 1)
    ∷ command "LTRIM" 4 flag_write (keys 1 1 1)
    ∷ command "LPOS" (neg64 3) flag_read (keys 1 1 1)
    ∷ command "LMOVE" 5 flag_write (keys 1 2 1)
    ∷ command "RPOPLPUSH" 3 (bit_or flag_write flag_not_allowed) (keys 1 2 1)
    ∷ command "LMPOP" (neg64 4) flag_write (keys 2 (neg64 1) 1)
    ∷ command "BLPOP" (neg64 3) (bit_or flag_write flag_blocking) (keys 1 (neg64 2) 1)
    ∷ command "BRPOP" (neg64 3) (bit_or flag_write flag_blocking) (keys 1 (neg64 2) 1)
    ∷ command "SADD" (neg64 3) flag_write (keys 1 1 1)
    ∷ command "SREM" (neg64 3) flag_write (keys 1 1 1)
    ∷ command "SMEMBERS" 2 flag_read (keys 1 1 1)
    ∷ command "SISMEMBER" 3 flag_read (keys 1 1 1)
    ∷ command "SMISMEMBER" (neg64 3) flag_read (keys 1 1 1)
    ∷ command "SCARD" 2 flag_read (keys 1 1 1)
    ∷ command "SPOP" (neg64 2) flag_write (keys 1 1 1)
    ∷ command "SRANDMEMBER" (neg64 2) flag_read (keys 1 1 1)
    ∷ command "SMOVE" 4 (bit_or flag_write flag_not_allowed) (keys 1 2 1)
    ∷ command "SUNION" (neg64 2) (bit_or flag_read (bit_or flag_multi_key flag_not_allowed))
        (keys 1 (neg64 1) 1)
    ∷ command "SINTER" (neg64 2) (bit_or flag_read (bit_or flag_multi_key flag_not_allowed))
        (keys 1 (neg64 1) 1)
    ∷ command "SDIFF" (neg64 2) (bit_or flag_read (bit_or flag_multi_key flag_not_allowed))
        (keys 1 (neg64 1) 1)
    ∷ command "SUNIONSTORE" (neg64 3) (bit_or flag_write (bit_or flag_multi_key flag_not_allowed))
        (keys 1 (neg64 1) 1)
    ∷ command "SINTERSTORE" (neg64 3) (bit_or flag_write (bit_or flag_multi_key flag_not_allowed))
        (keys 1 (neg64 1) 1)
    ∷ command "SDIFFSTORE" (neg64 3) (bit_or flag_write (bit_or flag_multi_key flag_not_allowed))
        (keys 1 (neg64 1) 1)
    ∷ command "SSCAN" (neg64 3) flag_read (keys 1 1 1)
    ∷ command "SINTERCARD" (neg64 3) (bit_or flag_read (bit_or flag_multi_key flag_not_allowed))
        (keys 2 (neg64 1) 1)
    ∷ command "ZADD" (neg64 4) flag_write (keys 1 1 1)
    ∷ command "ZREM" (neg64 3) flag_write (keys 1 1 1)
    ∷ command "ZINCRBY" 4 flag_write (keys 1 1 1)
    ∷ command "ZRANK" (neg64 3) flag_read (keys 1 1 1)
    ∷ command "ZREVRANK" (neg64 3) flag_read (keys 1 1 1)
    ∷ command "ZSCORE" 3 flag_read (keys 1 1 1)
    ∷ command "ZMSCORE" (neg64 3) flag_read (keys 1 1 1)
    ∷ command "ZCARD" 2 flag_read (keys 1 1 1)
    ∷ command "ZCOUNT" 4 flag_read (keys 1 1 1)
    ∷ command "ZLEXCOUNT" 4 flag_read (keys 1 1 1)
    ∷ command "ZRANGE" (neg64 4) flag_read (keys 1 1 1)
    ∷ command "ZREVRANGE" (neg64 4) flag_read (keys 1 1 1)
    ∷ command "ZRANGEBYSCORE" (neg64 4) flag_read (keys 1 1 1)
    ∷ command "ZREVRANGEBYSCORE" (neg64 4) flag_read (keys 1 1 1)
    ∷ command "ZRANGEBYLEX" (neg64 4) flag_read (keys 1 1 1)
    ∷ command "ZREVRANGEBYLEX" (neg64 4) flag_read (keys 1 1 1)
    ∷ command "ZRANGESTORE" (neg64 5) flag_write (keys 1 2 1)
    ∷ command "ZREMRANGEBYSCORE" 4 flag_write (keys 1 1 1)
    ∷ command "ZREMRANGEBYRANK" 4 flag_write (keys 1 1 1)
    ∷ command "ZREMRANGEBYLEX" 4 flag_write (keys 1 1 1)
    ∷ command "ZPOPMIN" (neg64 2) flag_write (keys 1 1 1)
    ∷ command "ZPOPMAX" (neg64 2) flag_write (keys 1 1 1)
    ∷ command "ZRANDMEMBER" (neg64 2) flag_read (keys 1 1 1)
    ∷ command "ZSCAN" (neg64 3) flag_read (keys 1 1 1)
    ∷ command "ZUNIONSTORE" (neg64 4) (bit_or flag_write (bit_or flag_multi_key flag_not_allowed))
        (keys 1 1 1)
    ∷ command "ZINTERSTORE" (neg64 4) (bit_or flag_write (bit_or flag_multi_key flag_not_allowed))
        (keys 1 1 1)
    ∷ command "ZDIFFSTORE" (neg64 4) (bit_or flag_write (bit_or flag_multi_key flag_not_allowed))
        (keys 1 1 1)
    ∷ command "ZUNION" (neg64 3) (bit_or flag_read (bit_or flag_multi_key flag_not_allowed))
        (keys 2 (neg64 1) 1)
    ∷ command "ZINTER" (neg64 3) (bit_or flag_read (bit_or flag_multi_key flag_not_allowed))
        (keys 2 (neg64 1) 1)
    ∷ command "ZDIFF" (neg64 3) (bit_or flag_read (bit_or flag_multi_key flag_not_allowed))
        (keys 2 (neg64 1) 1)
    ∷ command "BZPOPMIN" (neg64 3) (bit_or flag_write flag_blocking) (keys 1 (neg64 2) 1)
    ∷ command "BZPOPMAX" (neg64 3) (bit_or flag_write flag_blocking) (keys 1 (neg64 2) 1)
    ∷ command "BLMOVE" 6 (bit_or flag_write flag_blocking) (keys 1 2 1)
    ∷ command "BLMPOP" (neg64 5) (bit_or flag_write flag_blocking) (keys 0 0 0)
    ∷ command "BZMPOP" (neg64 5) (bit_or flag_write flag_blocking) (keys 0 0 0)
    ∷ []
