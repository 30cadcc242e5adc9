-- ===== src/Router.antt =====
-- pkg/router/router.go: a command is sent to the nodes that serve its keys, and redirections are
-- followed. What lies outside, the connections to the nodes and the time, is a `Backend`.
pub mod Node
pub mod Redirect
pub mod Scan
pub mod Merge
pub mod Keys
pub mod Script
pub mod Execute
pub mod Pipeline
use pluster.Prelude.{
  ℕ, zero, suc, Bool, true, false, Option, none, some, List, [], ◌∷◌, ◌++◌, Bytes, codes,
}
use pluster.Proto.Value.{Value, error}
use pluster.Cluster.{Topology, ReadMode}

-- What the functions return: a value, or an error of Go.
pub data Result (A : Type 0) : Type 0 where
  done : A → Result A
  failed : Bytes → Result A

-- What the router keeps: the topology, which the manager may replace at any time, `rrCounter`,
-- `readMode`, and how often it has called `TriggerRefresh`; and the rest of the world.
pub record State (W : Type 0) : Type 0 where
  pub topo : Topology
  pub rr_counter : ℕ
  pub read_mode : ReadMode
  pub refreshes : ℕ
  pub world : W

-- A part of the code that reads and changes the state.
abbrev pub Action : Type 0 → Type 0 → Type 0
Action W A = State W → State W × Result A

module _ {W A B : Type 0} where
  abbrev pub after : State W × Result A → (A → Action W B) → State W × Result B
  after (s, done a) next = next a s
  after (s, failed e) next = (s, failed e)

  infixl 5 ◌>>=◌
  abbrev pub ◌>>=◌ : Action W A → (A → Action W B) → Action W B
  m >>= next = λ s. after (m s) next

-- The connections to the nodes: `Do` of the pipelined pool of an address, of the read-only one where
-- the flag says so; for a connection of the blocking pool `Get`, a write, a read, and `Close`, the
-- flag of which says whether `MarkBroken` has been called; and waiting for a timer, which fails where
-- the context ends first.
pub record Backend (W : Type 0) : Type 0 where
  pub pipe_do : Bool → Bytes → Bytes → Action W Value
  pub get_conn : Bool → Bytes → Action W ℕ
  pub write_conn : ℕ → Bytes → Action W Unit
  pub read_conn : ℕ → Action W Value
  pub close_conn : ℕ → Bool → State W → State W
  pub wait : Action W Unit

abbrev pub return : {W A : Type 0} → A → Action W A
return a = λ s. (s, done a)

abbrev pub fail : {W A : Type 0} → Bytes → Action W A
fail e = λ s. (s, failed e)

-- `ErrValue`.
abbrev pub err_value : Bytes → Value
err_value msg = error msg
