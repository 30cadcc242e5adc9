-- ===== src/Router/Redirect/Final.antt =====
-- The answer of `executeRedirect` of pkg/router/router.go is none of those that it follows.
use pluster.Prelude.{ℕ, zero, suc, ◌+◌, ◌-◌, ◌≡◌, refl, subst, List, Bytes}
use pluster.Proto.Value.{Value}
use pluster.Router.{Result, done, failed, State, Action, after, Backend}
use pluster.Router.Node.{exec_on_node}
use pluster.Router.Redirect.{
  Target, Next, moved, asked, answered, next_of, find_addr, follow, redirect_from, execute_redirect,
  max_redirects,
}

module _ {W : Type 0} (b : Backend W) where
  -- A reply that is not to be followed.
  abbrev Final : Result Value → Type 0
  Final (done v) = next_of v ≡ answered
  Final (failed e) = Unit {0}

  after-Final :
      {A : Type 0} (r : State W × Result A) (next : A → Action W Value)
      → ((a : A) (s : State W) → Final (next a s).1)
      → Final (after r next).1
  after-Final (s, done a) next h = h a s
  after-Final (s, failed e) next h = tt

  follow-Final :
      (again : Target → Action W Value) (v : Value) (how : Next) (s : State W)
      → next_of v ≡ how
      → ((to : Target) (s : State W) → Final (again to s).1)
      → Final (follow b again v how s).1
  follow-Final again v answered s e h = e
  follow-Final again v (moved to) s e h = h to (record s { refreshes = suc s.refreshes })
  follow-Final again v (asked to) s e h = h to s

  redirect_from-Final :
      (left : ℕ) (cmd : Bytes) (args : List Bytes) (to : Target) (s : State W)
      → Final (redirect_from b left cmd args to s).1
  unfolding redirect_from
  redirect_from-Final zero cmd args to s = tt
  redirect_from-Final (suc left) cmd args to s = after-Final (find_addr b cmd to s) _ (λ addr s1.
      after-Final (exec_on_node b addr args to.asking s1) _ (λ v s2.
        follow-Final (redirect_from b left cmd args) v (next_of v) s2 refl
          (redirect_from-Final left cmd args)))

  -- Where `executeRedirect` answers with a value, that value is no redirection: neither MOVED nor
  -- ASK with a slot and an address that can be read.
  pub execute_redirect-final :
      (cmd : Bytes) (args : List Bytes) (to : Target) (depth : ℕ) (s s' : State W) (v : Value)
      → execute_redirect b cmd args to depth s ≡ (s', done v)
      → next_of v ≡ answered
  unfolding execute_redirect
  execute_redirect-final cmd args to depth s s' v h =
      subst (λ r. Final r.1) h (redirect_from-Final (max_redirects + 1 - depth) cmd args to s)
