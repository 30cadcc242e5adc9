-- ===== src/Engine/Handler/Local/Hello.antt =====
-- HELLO with AUTH.
use pluster.Prelude.{
  ℕ, ◌≡◌, refl, ◌∙◌, ap, true, false, [], ◌∷◌, Bytes, bytes_eq, bytes_eq_iff, codes, arith,
}
use pluster.Proto.Encode.{encode_value, encode_simple_string}
use pluster.Engine.Handler.{Server, Ctx, reply}
use pluster.Engine.Handler.Local.{
  with_authenticated, handle_auth, hello_options, hello_reply, finish_hello, handle_hello,
}
use pluster.Engine.Handler.Once.{total, Adds, reply-Once, reply-after-Once}

-- HELLO 2 AUTH with a user and the password of the proxy is answered twice: with the answer to AUTH,
-- and with that to HELLO behind it.
pub handle_hello-twice :
    (srv : Server) (user : Bytes) (p : ℕ) (ps : Bytes) (c : Ctx)
    → srv.client_password ≡ p ∷ ps
    → (handle_hello srv (codes "2" ∷ codes "AUTH" ∷ user ∷ (p ∷ ps) ∷ []) c
        ≡ reply
            (encode_value (hello_reply srv))
            (reply (encode_simple_string (codes "OK")) (with_authenticated true c)))
      × Adds 2 c.session.client
          (handle_hello srv (codes "2" ∷ codes "AUTH" ∷ user ∷ (p ∷ ps) ∷ []) c).session.client
unfolding handle_hello hello_options handle_auth finish_hello bytes_eq reply
handle_hello-twice srv user p ps c e =
    let right : bytes_eq (p ∷ ps) srv.client_password ≡ true =
      rw e ((bytes_eq_iff (p ∷ ps) (p ∷ ps)).1 refl) in
    let set : bytes_eq srv.client_password [] ≡ false = rw e refl in
    let authed = reply (encode_simple_string (codes "OK")) (with_authenticated true c) in
    let same : handle_hello srv (codes "2" ∷ codes "AUTH" ∷ user ∷ (p ∷ ps) ∷ []) c
        ≡ reply (encode_value (hello_reply srv)) authed =
      rw (handle_hello, hello_options, handle_auth, set, right) refl in
    (
      same,
      ap (λ (x : Ctx). total x.session.client) same
          ∙ omega (
            arith,
            (reply-Once (encode_value (hello_reply srv)) authed).adds,
            (reply-after-Once (encode_simple_string (codes "OK")) c (with_authenticated true c)
                refl).adds,
          ),
    )
