-- ===== src/Router/Redirect/Bound.antt =====
-- How often `executeRedirect` of pkg/router/router.go contacts nodes.
use pluster.Prelude.{
  ℕ, zero, suc, ◌+◌, ◌-◌, ◌*◌, ◌≤◌, inl, inr, Bool, true, false, ◌||◌, Option, none, some, List, [],
  arith, Bytes, length, ◌==◌, Bool-cases, if◌then◌else◌, ltb,
}
use pluster.Proto.Value.{Value, is_error}
use pluster.Proto.Encode.{write_command_bytes}
use pluster.Cluster.{Topology}
use pluster.Router.{Result, done, failed, State, Action, ◌>>=◌, after, Backend}
use pluster.Router.Node.{
  on_conn, write_asked, read_asked, closing, no_conn, exec_asking, exec_on_node_once, wait_then,
  after_attempt, exec_attempts, exec_on_node, asking_cmd_bytes, is_cluster_down_error,
  is_loading_error, cluster_down_max_retry, pipe_retry_max,
}
use pluster.Router.Redirect.{
  Target, Next, moved, asked, answered, next_of, slot_addr, find_addr, follow, redirect_from,
  execute_redirect, max_redirects,
}

-- A count of contacts: `Do` and `Get` are one contact each at most, and the rest is none.
pub record IsCount {W : Type 0} (b : Backend W) (contacts : W → ℕ) : Type 0 where
  pub pipe_do :
      (ro : Bool) (addr bytes : Bytes) (s : State W)
      → contacts (b.pipe_do ro addr bytes s).0.world ≤ suc (contacts s.world)
  pub get_conn :
      (ro : Bool) (addr : Bytes) (s : State W)
      → contacts (b.get_conn ro addr s).0.world ≤ suc (contacts s.world)
  pub write_conn :
      (conn : ℕ) (bytes : Bytes) (s : State W)
      → contacts (b.write_conn conn bytes s).0.world ≤ contacts s.world
  pub read_conn :
      (conn : ℕ) (s : State W) → contacts (b.read_conn conn s).0.world ≤ contacts s.world
  pub close_conn :
      (conn : ℕ) (broken : Bool) (s : State W)
      → contacts (b.close_conn conn broken s).world ≤ contacts s.world
  pub wait : (s : State W) → contacts (b.wait s).0.world ≤ contacts s.world

module _ {W : Type 0} (b : Backend W) (contacts : W → ℕ) (k : IsCount b contacts) where
  -- At most `n` contacts, from any state on.
  abbrev Within : {A : Type 0} → ℕ → Action W A → Type 0
  Within n m = (s : State W) → contacts (m s).0.world ≤ contacts s.world + n

  after-le :
      {A B : Type 0} (n c : ℕ) (r : State W × Result A) (next : A → Action W B)
      → ((a : A) → Within n (next a))
      → contacts r.0.world ≤ c
      → contacts (after r next).0.world ≤ c + n
  after-le n c (s, done a) next h l = omega (arith, l, h a s)
  after-le n c (s, failed e) next h l = omega (arith, l)

  bind-Within :
      {A B : Type 0} (m n : ℕ) (x : Action W A) (next : A → Action W B)
      → Within m x
      → ((a : A) → Within n (next a))
      → Within (m + n) (x >>= next)
  bind-Within m n x next p q s = omega (arith, after-le n (contacts s.world + m) (x s) next q (p s))

  on_conn-le :
      {A : Type 0} (conn c : ℕ) (r : State W × Result A)
      → contacts r.0.world ≤ c
      → contacts (on_conn b conn r).0.world ≤ c
  on_conn-le conn c (s, done a) l = l
  on_conn-le conn c (s, failed e) l = omega (arith, l, k.close_conn conn true s)

  no_conn-le :
      (addr : Bytes) (c : ℕ) (r : State W × Result ℕ)
      → contacts r.0.world ≤ c
      → contacts (no_conn b addr r).0.world ≤ c
  no_conn-le addr c (s, done conn) l = l
  no_conn-le addr c (s, failed e) l = l

  write_asked-Within : (conn : ℕ) (bytes : Bytes) → Within 0 (write_asked b conn bytes)
  write_asked-Within conn bytes s = omega (
    arith,
    on_conn-le conn (contacts s.world) (b.write_conn conn bytes s) (k.write_conn conn bytes s),
  )

  read_asked-Within : (conn : ℕ) → Within 0 (read_asked b conn)
  read_asked-Within conn s =
      omega (arith, on_conn-le conn (contacts s.world) (b.read_conn conn s) (k.read_conn conn s))

  closing-Within : (conn : ℕ) (v : Value) → Within 0 (closing b conn v)
  closing-Within conn v s = omega (arith, k.close_conn conn false s)

  if-Within :
      {A : Type 0} (n : ℕ) (t : Bool) (x y : Action W A)
      → Within n x
      → Within n y
      → Within n (if t then x else y)
  if-Within n true x y p q = p
  if-Within n false x y p q = q

  exec_asking-Within : (addr : Bytes) (args : List Bytes) → Within 1 (exec_asking b addr args)
  unfolding exec_asking
  exec_asking-Within addr args =
      bind-Within 1 0 (λ s. no_conn b addr (b.get_conn false addr s)) _
        (λ s. omega (
          arith,
          no_conn-le addr (suc (contacts s.world)) (b.get_conn false addr s)
              (k.get_conn false addr s),
        ))
        (λ conn.
          bind-Within 0 0 (write_asked b conn asking_cmd_bytes) _
            (write_asked-Within conn asking_cmd_bytes)
            (λ u.
              bind-Within 0 0 (write_asked b conn (write_command_bytes [] args)) _
                (write_asked-Within conn (write_command_bytes [] args))
                (λ u'. bind-Within 0 0 (read_asked b conn) _ (read_asked-Within conn) (λ v.
                  if-Within 0 (is_error v) _ _ (closing-Within conn v) (
                    bind-Within 0 0 (read_asked b conn) _ (read_asked-Within conn)
                      (closing-Within conn))))))

  exec_on_node_once-Within :
      (addr : Bytes) (args : List Bytes) (asking : Bool)
      → Within 1 (exec_on_node_once b addr args asking)
  unfolding exec_on_node_once
  exec_on_node_once-Within addr args true s = exec_asking-Within addr args s
  exec_on_node_once-Within addr args false s = omega (arith, k.pipe_do _ addr _ s)

  wait_then-le :
      (n c : ℕ) (next : State W → State W × Result Value) (r : State W × Result Unit)
      → Within n next
      → contacts r.0.world ≤ c
      → contacts (wait_then b next r).0.world ≤ c + n
  wait_then-le n c next (s, done u) h l = omega (arith, l, h s)
  wait_then-le n c next (s, failed e) h l = omega (arith, l)

  waited-le :
      (n c : ℕ) (next : State W → State W × Result Value) (s : State W)
      → Within n next
      → contacts s.world ≤ c
      → contacts (wait_then b next (b.wait s)).0.world ≤ c + n
  waited-le n c next s h l = wait_then-le n c next (b.wait s) h (omega (arith, l, k.wait s))

  if-le :
      (c : ℕ) (t : Bool) (x y : State W × Result Value)
      → contacts x.0.world ≤ c
      → contacts y.0.world ≤ c
      → contacts (if t then x else y).0.world ≤ c
  if-le c true x y p q = p
  if-le c false x y p q = q

  after_attempt-le :
      (n c left : ℕ) (next : State W → State W × Result Value) (r : State W × Result Value)
      → Within n next
      → contacts r.0.world ≤ c
      → contacts (after_attempt b next left r).0.world ≤ c + n
  after_attempt-le n c left next (s, failed e) h l =
      if-le (c + n) (ltb (cluster_down_max_retry - left) pipe_retry_max) _ _
        (waited-le n c next s h l) (omega (arith, l))
  after_attempt-le n c left next (s, done v) h l =
      if-le (c + n) (is_cluster_down_error v || is_loading_error v) _ _ (waited-le n c next s h l)
        (omega (arith, l))

  exec_attempts-Within :
      (left : ℕ) (addr : Bytes) (args : List Bytes) (asking : Bool)
      → Within (suc left) (exec_attempts b left addr args asking)
  unfolding exec_attempts
  exec_attempts-Within zero addr args asking s = exec_on_node_once-Within addr args asking s
  exec_attempts-Within (suc left) addr args asking s = omega (
    arith,
    after_attempt-le (suc left) (contacts s.world + 1) (suc left)
        (exec_attempts b left addr args asking) (exec_on_node_once b addr args asking s)
        (exec_attempts-Within left addr args asking) (exec_on_node_once-Within addr args asking s),
  )

  slot_addr-Within : (slot : ℕ) (r : Topology × Option Bytes) → Within 0 (slot_addr b slot r)
  slot_addr-Within slot (t, none) s = omega arith
  slot_addr-Within slot (t, some addr) s = omega arith

  find_addr-Within : (cmd : Bytes) (to : Target) → Within 0 (find_addr b cmd to)
  unfolding find_addr
  find_addr-Within cmd to s = elim (Bool-cases (length to.addr == 0)) [
    | inl e ↦ rw e (slot_addr-Within to.slot _ s)
    | inr e ↦ rw e (omega arith)
  ]

  follow-Within :
      (n : ℕ) (again : Target → Action W Value) (v : Value) (how : Next)
      → ((to : Target) → Within n (again to))
      → Within n (follow b again v how)
  follow-Within n again v answered h s = omega arith
  follow-Within n again v (moved to) h s = h to (record s { refreshes = suc s.refreshes })
  follow-Within n again v (asked to) h s = h to s

  redirect_from-Within :
      (left : ℕ) (cmd : Bytes) (args : List Bytes) (to : Target)
      → Within (4 * left) (redirect_from b left cmd args to)
  unfolding redirect_from exec_on_node
  redirect_from-Within zero cmd args to s = omega arith
  redirect_from-Within (suc left) cmd args to s =
      let answer : Value → Action W Value =
        λ v. follow b (redirect_from b left cmd args) v (next_of v) in
      let contact : Bytes → Action W Value =
        λ addr. exec_on_node b addr args to.asking >>= answer in
      let sent : (addr : Bytes) → Within (4 + 4 * left) (contact addr) = λ addr.
        bind-Within 4 (4 * left) (exec_on_node b addr args to.asking) answer
          (exec_attempts-Within 3 addr args to.asking)
          (λ v.
            follow-Within (4 * left) (redirect_from b left cmd args) v (next_of v)
              (redirect_from-Within left cmd args)) in
      omega (
        arith,
        bind-Within 0 (4 + 4 * left) (find_addr b cmd to) contact (find_addr-Within cmd to) sent s,
      )

  -- `executeRedirect` from the first address on contacts nodes at most 68 times: it goes to at most
  -- seventeen addresses, and tries each at most four times. `contacts` is any count of the world that
  -- `Do` and `Get` raise by one at most, and nothing else does.
  pub execute_redirect-contacts :
      (cmd : Bytes) (args : List Bytes) (to : Target) (s : State W)
      → contacts (execute_redirect b cmd args to 0 s).0.world ≤ contacts s.world + 68
  unfolding execute_redirect
  execute_redirect-contacts cmd args to s =
      redirect_from-Within (max_redirects + 1 - 0) cmd args to s
