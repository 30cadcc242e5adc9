-- ===== src/Engine/Handler/Replies/Waiting.antt =====
-- What happens to a client while a blocking command waits.
use pluster.Prelude.{
  ℕ, ◌+◌, ◌≡◌, refl, sym, ◌∙◌, ap, false, none, some, List, [], ◌∷◌, ◌++◌, append-nil, append_assoc,
  All, arith, length, Bytes, bytes_eq, codes, if◌then◌else◌,
}
use pluster.Proto.Outcome.{Outcome, ok, ◌>>=◌}
use pluster.Proto.Value.{Value}
use pluster.Proto.Encode.{encode_value}
use pluster.Proto.Request.{Request}
use pluster.Engine.Responses.{alloc_response_slot, fill_response_slot_in_loop}
use pluster.Engine.Blocking.{put_idle, with_idle}
use pluster.Engine.Multi.{state_normal, state_blocking}
use pluster.Engine.Handler.{Server, Ctx, go_on, dialling, BlockingConn}
use pluster.Engine.Handler.Blocking.{
  end_blocking, send_on, dial_blocking_from, dial_blocking_backend, start_blocking,
}
use pluster.Engine.Handler.Dispatch.{dispatch_in, dispatch_client_request}
use pluster.Engine.Handler.Traffic.{flush}
use pluster.Engine.Handler.Replies.{
  drain_each, drain_from, drain_pending_cmds, on_blocking_open, handle_blocking_response,
  on_blocking_reply, moved_addr, put_back,
}

-- A request that is buffered: it has a name, and this is neither QUIT nor RESET.
abbrev pub IsBuffered : Request → Type 0
IsBuffered req =
    (a : Bytes) × (args : List Bytes) × (req.args ≡ a ∷ args)
    × (bytes_eq req.cmd (codes "QUIT") ≡ false)
    × (bytes_eq req.cmd (codes "RESET") ≡ false)

abbrev pub buffered : List Request → Ctx → Ctx
buffered reqs c = record c {
  session = record c.session { pending_cmds = c.session.pending_cmds ++ reqs };
  local_cmd_count = c.local_cmd_count + length reqs;
}

dispatch-buffered :
    (srv : Server) (req : Request) (c : Ctx)
    → c.session.state ≡ state_blocking
    → IsBuffered req
    → dispatch_client_request srv req c ≡ ok (go_on (buffered (req ∷ []) c))
unfolding dispatch_client_request dispatch_in
dispatch-buffered srv req c s (a, args, e, q, r) = rw (dispatch_client_request, e, s, q, r) refl

abbrev waiting_with : Ctx → List Request → ℕ → Ctx
waiting_with c p n = record c {
  session = record c.session { pending_cmds = p };
  local_cmd_count = n;
}

same_waiting :
    (c : Ctx) (p p' : List Request) (n n' : ℕ)
    → p ≡ p'
    → n ≡ n'
    → ok (waiting_with c p n) ≡ ok (waiting_with c p' n')
same_waiting c p p' n n' e f =
    ap (λ x. ok (waiting_with c x n)) e ∙ ap (λ x. ok (waiting_with c p' x)) f

-- While a blocking command waits, requests are buffered in the order in which they come.
drain_each-buffered :
    (srv : Server) (reqs : List Request) (c : Ctx)
    → c.session.state ≡ state_blocking
    → All IsBuffered reqs
    → drain_each srv reqs c ≡ ok (buffered reqs c)
unfolding drain_each
drain_each-buffered srv [] c s b =
    same_waiting c c.session.pending_cmds (c.session.pending_cmds ++ []) c.local_cmd_count
      (c.local_cmd_count + length {A = Request} []) (sym (append-nil c.session.pending_cmds))
      (omega arith)
drain_each-buffered srv (req ∷ reqs) c s b =
    ap
      (λ o.
        o >>= (λ a. let rest = drain_each srv reqs a.ctx in if a.closes then ok a.ctx else rest))
      (dispatch-buffered srv req c s b.0)
    ∙ drain_each-buffered srv reqs (buffered (req ∷ []) c) s b.1
    ∙ same_waiting c ((c.session.pending_cmds ++ req ∷ []) ++ reqs)
        (c.session.pending_cmds ++ req ∷ reqs)
        ((c.local_cmd_count + length (req ∷ [])) + length reqs)
        (c.local_cmd_count + length (req ∷ reqs))
        (append_assoc c.session.pending_cmds (req ∷ []) reqs) (omega arith)

-- The state where a blocking command has been answered: its slot is filled, its connection is idle,
-- and the commands that have waited have left the buffer.
abbrev pub answered : Bytes → Request → ℕ → ℕ → Value → Ctx → Ctx
answered addr req number count v c =
    let (client, i) = alloc_response_slot c.session.client in
    record c {
      session = record c.session {
        client = fill_response_slot_in_loop client i (encode_value v);
        state = state_normal;
        pending_cmds = [];
      };
      blocking_slot_idx = i;
      blocking_backend = none;
      pool = with_idle c.pool addr (number ∷ []);
      local_cmd_count = c.local_cmd_count + count;
      dials = c.dials ++ (addr, req) ∷ [];
    }

-- A command that starts to block, with a dial, and requests that come while it waits.
abbrev pub while_blocking : Server → Bytes → Request → List Request → Ctx → Outcome Ctx
while_blocking srv addr req reqs c = drain_each srv reqs (start_blocking srv req addr c)

-- The connection opens, and a reply comes.
abbrev pub opened_and_answered : Server → Bytes → Request → ℕ → Value → Ctx → Outcome Ctx
opened_and_answered srv addr req number v c =
    let c' = on_blocking_open srv number addr req c in
    elim c'.blocking_backend [ none ↦ ok c' | some d ↦ on_blocking_reply srv d v c' ]

-- The requests that have waited, and the flush behind them.
abbrev pub then_drained : Server → List Request → Ctx → Outcome Ctx
then_drained srv [] c = ok c
then_drained srv (req ∷ reqs) c = do c' ← drain_each srv (req ∷ reqs) c; ok (flush c')

drain_from-then :
    (srv : Server) (reqs : List Request) (c : Ctx)
    → c.session.pending_cmds ≡ reqs
    → drain_from srv reqs c
      ≡ then_drained srv reqs (record c { session = record c.session { pending_cmds = [] } })
drain_from-then srv [] c e =
    ap (λ x. ok (record c { session = record c.session { pending_cmds = x } })) e
drain_from-then srv (req ∷ reqs) c e = refl

put_back-idle :
    (d : BlockingConn) (c : Ctx)
    → c.pool.idle d.addr ≡ []
    → put_back d c ≡ record c { pool = with_idle c.pool d.addr (d.number ∷ []) }
unfolding put_idle
put_back-idle d c e = rw (put_idle, e) refl

answers_round :
    (srv : Server) (addr : Bytes) (req : Request) (reqs : List Request) (number : ℕ) (v : Value)
    (c : Ctx)
    → c.pool.idle addr ≡ []
    → srv.password ≡ []
    → moved_addr v ≡ none
    → opened_and_answered srv addr req number v c
      ≡ then_drained srv c.session.pending_cmds (record c {
        session = record c.session {
          client = fill_response_slot_in_loop c.session.client c.blocking_slot_idx (encode_value v);
          state = state_normal;
          pending_cmds = [];
        };
        blocking_backend = none;
        pool = with_idle c.pool addr (number ∷ []);
      })
unfolding on_blocking_open on_blocking_reply handle_blocking_response drain_pending_cmds
    end_blocking put_idle
answers_round srv addr req reqs number v c idle pw m =
    let opens : on_blocking_open srv number addr req c
        ≡ record c { blocking_backend = some (send_on number addr req) } =
      rw (on_blocking_open, pw) refl in
    let filled = record (end_blocking (encode_value v) c) { blocking_backend = none } in
    ap (λ (x : Ctx). elim x.blocking_backend [ none ↦ ok x | some d ↦ on_blocking_reply srv d v x ])
      opens
    ∙ rw (on_blocking_reply, handle_blocking_response, m)
        (ap (drain_pending_cmds srv) (put_back-idle (send_on number addr req) filled idle)
          ∙ drain_from-then srv c.session.pending_cmds
              (record filled { pool = with_idle c.pool addr (number ∷ []) }) refl)

-- Of a client that has sent nothing that waits, with no idle connection to the address and no
-- password to the nodes: it starts to block, its requests are buffered, its connection opens and
-- the reply comes, which is no redirection. Then its slot holds the reply, it is in the normal
-- state, the connection is idle, and the requests are dispatched, in the order in which they came.
pub blocking_round :
    (srv : Server) (addr : Bytes) (req : Request) (reqs : List Request) (number : ℕ) (v : Value)
    (c : Ctx)
    → c.pool.idle addr ≡ []
    → srv.dial addr ≡ dialling
    → srv.password ≡ []
    → c.session.pending_cmds ≡ []
    → All IsBuffered reqs
    → moved_addr v ≡ none
    → (while_blocking srv addr req reqs c >>= (λ w. opened_and_answered srv addr req number v w))
      ≡ then_drained srv reqs (answered addr req number (length reqs) v c)
unfolding dial_blocking_backend dial_blocking_from on_blocking_open on_blocking_reply
    handle_blocking_response drain_pending_cmds end_blocking put_idle
blocking_round srv addr req reqs number v c idle dial pw none_waits b m =
    let (client, i) = alloc_response_slot c.session.client in
    let blocked = record c {
      session = record c.session { client = client; state = state_blocking };
      blocking_slot_idx = i;
      dials = c.dials ++ (addr, req) ∷ [];
    } in
    let starts : start_blocking srv req addr c ≡ blocked = rw (idle, dial) refl in
    ap (λ x. drain_each srv reqs x >>= (λ w. opened_and_answered srv addr req number v w)) starts
    ∙ ap (λ o. o >>= (λ w. opened_and_answered srv addr req number v w))
        (drain_each-buffered srv reqs blocked refl b)
    ∙ answers_round srv addr req reqs number v (buffered reqs blocked) idle pw m
    ∙ ap (λ (w : List Request). then_drained srv w (answered addr req number (length reqs) v c))
        (ap (λ w. w ++ reqs) none_waits)
