-- ===== src/Engine/Split/Safe.antt =====
-- What `routeToBackend` adds to the queue of a client, and that it keeps the bound on redirections.
use pluster.Prelude.{
  ℕ, zero, suc, ◌-◌, ◌≡◌, ◌⊎◌, inl, inr, refl, ap, subst, Bool, true, false, not, ◌&&◌, Option,
  none, some, List, [], ◌∷◌, ◌++◌, arith, Bytes, length, length-append, if◌then◌else◌, ◌==◌,
  Bool-cases,
}
use pluster.Proto.Outcome.{Outcome, ok, ◌>>=◌, >>=-eq-ok}
use pluster.Proto.Slot.{hash_slot}
use pluster.Proto.Request.{Request}
use pluster.Proto.Command.Info.{
  CmdInfo, flag_read, flag_write, flag_not_allowed, flag_all_nodes, flag_multi_key,
}
use pluster.Engine.Responses.{Slot, Client, FanIn, empty_slot, alloc_response_slot, update_slot}
use pluster.Engine.Mux.{Mux, Effect, send}
use pluster.Engine.Mux.Traffic.Redirects.{IsBounded, send-IsBounded}
use pluster.Engine.Split.{SlotGroup, Grouped, grouped, no_node, keys_of_command}
use pluster.Engine.Split.Route.{
  Routed, Routing, write_immediate, submit_to_router, pending, send_whole, sub_request, send_parts,
  new_fan_in, alloc_fan_in, send_groups, send_grouped, route_multi_key_to_mux, to_node, info_has,
  split_here, route_keyed, route_from, route_to_backend, get_first_key_and_info, args_behind,
  not_supported,
}

-- One slot more at the end of the queue and nothing written, or, where nobody waits, one answer.
abbrev pub OneAnswer : Client → Client → Type 0
OneAnswer c c' =
    (length c'.queue ≡ suc (length c.queue)) × (c'.base ≡ c.base) × (c'.written ≡ c.written)
    ⊎ (c.queue ≡ []) × (c'.queue ≡ []) × (length c'.written ≡ suc (length c.written))

-- What a request may do.
abbrev pub Answers : Client → Mux → Routed → Type 0
Answers c m r = OneAnswer c r.client × (IsBounded m → IsBounded r.mux)

abbrev pub AnswersIfOk : Client → Mux → Outcome Routed → Type 0
AnswersIfOk c m o = (r : Routed) → o ≡ ok r → Answers c m r

alloc-OneAnswer : (c : Client) → OneAnswer c (alloc_response_slot c).0
unfolding alloc_response_slot
alloc-OneAnswer c = inl (omega (arith, length-append c.queue (empty_slot ∷ [])), refl, refl)

length-zero {ℓ} : {A : Type ℓ} (xs : List A) → (length xs == 0) ≡ true → xs ≡ []
length-zero [] h = refl
length-zero (x ∷ xs) h = ground arith

pub write_immediate-Answers :
    (id : ℕ) (c : Client) (m : Mux) (b : Bytes) → Answers c m (write_immediate id c m b)
unfolding write_immediate
write_immediate-Answers id c m b = elim (Bool-cases (length c.queue == 0)) [
  | inl e ↦
      let none_waits = length-zero c.queue e in
      rw e (inr (none_waits, none_waits, omega (arith, length-append c.written (b ∷ []))), λ k. k)
  | inr e ↦ rw e (alloc-OneAnswer c, λ k. k)
]

submit_to_router-Answers :
    (c : Client) (m : Mux) (req : Request) → Answers c m (submit_to_router c m req)
unfolding submit_to_router
submit_to_router-Answers c m req = (alloc-OneAnswer c, λ k. k)

send_whole-Answers :
    (r : Routing) (c : Client) (m : Mux) (req : Request) (addr : Bytes)
    → Answers c m (send_whole r c m req addr)
unfolding send_whole
send_whole-Answers r c m req addr = (
  alloc-OneAnswer c,
  λ b.
      send-IsBounded r.env m addr (pending r.id (alloc_response_slot c).1 req false 0) (omega arith)
        b,
)

length-update_slot :
    (i : ℕ) (f : Slot → Slot) (slots : List Slot) → length (update_slot i f slots) ≡ length slots
length-update_slot i f [] = refl
length-update_slot zero f (s ∷ slots) = refl
length-update_slot (suc i) f (s ∷ slots) = ap suc (length-update_slot i f slots)

alloc_fan_in-OneAnswer : (c : Client) (fi : FanIn) → OneAnswer c (alloc_fan_in c fi).0
unfolding alloc_fan_in alloc_response_slot
alloc_fan_in-OneAnswer c fi = inl (
  omega (
    arith,
    length-append c.queue (empty_slot ∷ []),
    length-update_slot ((alloc_response_slot c).1 - c.base) (λ s. record s { fan_in = some fi })
        (c.queue ++ empty_slot ∷ []),
  ),
  refl,
  refl,
)

send_parts-IsBounded :
    (r : Routing) (slot_idx : ℕ) (name : Bytes) (req : Request) (gi : ℕ) (gs : List SlotGroup)
    (m : Mux) (out : Mux × List Effect)
    → send_parts r slot_idx name req gi gs m ≡ ok out
    → IsBounded m
    → IsBounded out.0
unfolding send_parts
send_parts-IsBounded r slot_idx name req gi [] m out h b =
    let same : m ≡ out.0 = ground arith in subst IsBounded same b
send_parts-IsBounded r slot_idx name req gi (g ∷ gs) m out h b =
    let (part, p, q) = >>=-eq-ok (sub_request req name g) _ h in
    let sent = send r.env m g.addr (pending r.id slot_idx part true gi) in
    let (out', p', q') = >>=-eq-ok (send_parts r slot_idx name req (suc gi) gs sent.0) _ q in
    let same : out'.0 ≡ out.0 = ground arith in
    subst IsBounded same (
      send_parts-IsBounded r slot_idx name req (suc gi) gs sent.0 out' p'
        (send-IsBounded r.env m g.addr (pending r.id slot_idx part true gi) (omega arith) b))

-- A result that is known to be `ok`.
ok-Answers : (c : Client) (m : Mux) (x : Routed) → Answers c m x → AnswersIfOk c m (ok x)
ok-Answers c m x a r e = let same : x ≡ r = cc in subst (Answers c m) same a

said-Answers :
    (r : Routing) (c : Client) (m : Mux) (b : Bytes)
    → AnswersIfOk c m (ok (write_immediate r.id c m b))
said-Answers r c m b =
    ok-Answers c m (write_immediate r.id c m b) (write_immediate-Answers r.id c m b)

submitted-Answers :
    (c : Client) (m : Mux) (req : Request) → AnswersIfOk c m (ok (submit_to_router c m req))
submitted-Answers c m req =
    ok-Answers c m (submit_to_router c m req) (submit_to_router-Answers c m req)

send_many-Answers :
    (r : Routing) (c : Client) (m : Mux) (req : Request) (name : Bytes) (total : ℕ)
    (gs : List SlotGroup)
    → AnswersIfOk c m (do
      let (c', i) = alloc_fan_in c (new_fan_in name total gs)
      (m', out) ← send_parts r i name req 0 gs m
      ok (record { client = c'; mux = m'; effects = out; submitted = none }))
send_many-Answers r c m req name total gs x h =
    let a = alloc_fan_in c (new_fan_in name total gs) in
    let (out, p, q) = >>=-eq-ok (send_parts r a.1 name req 0 gs m) _ h in
    let same : record { client = a.0; mux = out.0; effects = out.1; submitted = none } ≡ x = cc in
    subst (Answers c m) same (
      alloc_fan_in-OneAnswer c (new_fan_in name total gs),
      λ b. send_parts-IsBounded r a.1 name req 0 gs m out p b,
    )

send_grouped-Answers :
    (r : Routing) (c : Client) (m : Mux) (req : Request) (name : Bytes) (total : ℕ) (g : Grouped)
    → AnswersIfOk c m (send_grouped r c m req name total g)
unfolding send_grouped send_groups
send_grouped-Answers r c m req name total (no_node slot) = said-Answers r c m _
send_grouped-Answers r c m req name total (grouped []) = send_many-Answers r c m req name total []
send_grouped-Answers r c m req name total (grouped (g ∷ [])) =
    ok-Answers c m (send_whole r c m req g.addr) (send_whole-Answers r c m req g.addr)
send_grouped-Answers r c m req name total (grouped (g ∷ h ∷ gs)) =
    send_many-Answers r c m req name total (g ∷ h ∷ gs)

-- A choice between two results.
if-Answers :
    (c : Client) (m : Mux) (b : Bool) (x y : Outcome Routed)
    → AnswersIfOk c m x
    → AnswersIfOk c m y
    → AnswersIfOk c m (if b then x else y)
if-Answers c m true x y p q = p
if-Answers c m false x y p q = q

route_multi_key_to_mux-Answers :
    (r : Routing) (c : Client) (m : Mux) (req : Request) (name : Bytes)
    → AnswersIfOk c m (route_multi_key_to_mux r c m req name)
unfolding route_multi_key_to_mux
route_multi_key_to_mux-Answers r c m req name =
    if-Answers c m _ _ _ (said-Answers r c m _)
      (send_grouped-Answers r c m req name (length (keys_of_command name (args_behind req.args))) _)

to_node-Answers :
    (r : Routing) (c : Client) (m : Mux) (req : Request) (slot : ℕ) (addr : Option Bytes)
    → AnswersIfOk c m (ok (to_node r c m req slot addr))
unfolding to_node
to_node-Answers r c m req slot none = said-Answers r c m _
to_node-Answers r c m req slot (some addr) =
    ok-Answers c m (send_whole r c m req addr) (send_whole-Answers r c m req addr)

route_from-Answers :
    (r : Routing) (c : Client) (m : Mux) (req : Request) (key : Option Bytes × Option CmdInfo)
    → AnswersIfOk c m (route_from r c m req key)
unfolding route_from route_keyed
route_from-Answers r c m req (none, info) =
    if-Answers c m (info_has info flag_not_allowed) _ _ (said-Answers r c m (not_supported req.cmd))
      (submitted-Answers c m req)
route_from-Answers r c m req (some key, info) =
    if-Answers c m (info_has info flag_not_allowed) _ _ (said-Answers r c m (not_supported req.cmd))
      (if-Answers c m (info_has info flag_all_nodes) _ _ (submitted-Answers c m req) (
        if-Answers c m (info_has info flag_multi_key) _ _
          (if-Answers c m (split_here req.cmd) _ _
            (route_multi_key_to_mux-Answers r c m req req.cmd) (submitted-Answers c m req))
          (to_node-Answers r c m req (hash_slot key) (
            r.node_addr_for_slot (hash_slot key)
              (info_has info flag_read && not (info_has info flag_write))))))

-- However `routeToBackend` routes a request, unless it panics, it adds one slot to the queue of the
-- client and writes nothing, or, where no request waits, it writes one answer and leaves the queue
-- empty. A mux in which no request has been redirected too often stays such.
pub route_to_backend-Answers :
    (r : Routing) (c : Client) (m : Mux) (req : Request) (x : Routed)
    → route_to_backend r c m req ≡ ok x
    → OneAnswer c x.client × (IsBounded m → IsBounded x.mux)
unfolding route_to_backend
route_to_backend-Answers r c m req = route_from-Answers r c m req (get_first_key_and_info req)
