-- ===== src/Proxy/ClientAuth/Laws.antt =====
-- How each operation of Proxy/ClientAuth.antt changes the state of each connection.
use pxgo.Shared.{
  String, ◌≡◌, refl, ap, sym, ◌∙◌, inl, inr, Bool, true, false, Option, none, some, str_eq, eq_iff,
  Bool-cases, if◌then◌else◌,
}
use pxgo.Shared.Dict.{lookup, lookup-insert, lookup-delete}
use pxgo.Proxy.ClientAuth.{
  ClientState, Clients, new_client, state_or_new, client_state_for, put_client, change_client,
  clear_client_state,
}

-- What is stored for one connection when another's is written.
pub client_state_for-put :
    (addr asked : String) (cs : ClientState) (s : Clients)
    → client_state_for asked (put_client addr cs s)
      ≡ (if str_eq asked addr then cs else client_state_for asked s)
unfolding client_state_for
client_state_for-put addr asked cs s =
    rw (lookup-insert s.clients addr asked cs) (by_same (str_eq asked addr))
  where
    by_same :
        (b : Bool)
        → state_or_new (if b then some cs else lookup s.clients asked)
          ≡ (if b then cs else state_or_new (lookup s.clients asked))
    by_same true = refl
    by_same false = refl

client_state_for-same :
    (addr asked : String) (s : Clients)
    → str_eq asked addr ≡ true
    → client_state_for asked s ≡ state_or_new (lookup s.clients addr)
unfolding client_state_for
client_state_for-same addr asked s e =
    ap (λ a. state_or_new (lookup s.clients a)) ((eq_iff asked addr).0 e)

pub client_state_for-change :
    (change : ClientState → ClientState) (addr asked : String) (s : Clients)
    → change new_client ≡ new_client
    → client_state_for asked (change_client change addr (lookup s.clients addr) s)
      ≡ (if str_eq asked addr then change (client_state_for asked s) else client_state_for asked s)
client_state_for-change change addr asked s h = by_found (lookup s.clients addr) refl
  where
    by_found :
        (found : Option ClientState)
        → lookup s.clients addr ≡ found
        → client_state_for asked (change_client change addr found s) ≡ (
            if str_eq asked addr
            then change (client_state_for asked s)
            else client_state_for asked s)
    by_found none e = elim (Bool-cases (str_eq asked addr)) [
      | inl same ↦
          let is_new : client_state_for asked s ≡ new_client =
            client_state_for-same addr asked s same ∙ ap state_or_new e in
          rw same (is_new ∙ sym h ∙ ap change (sym is_new))
      | inr other ↦ rw other refl
    ]
    by_found (some cs) e =
        client_state_for-put addr asked (change cs) s ∙ (elim (Bool-cases (str_eq asked addr)) [
          | inl same ↦
              rw same
                (ap change (sym (client_state_for-same addr asked s same ∙ ap state_or_new e)))
          | inr other ↦ rw other refl
        ])

pub client_state_for-clear :
    (addr asked : String) (s : Clients)
    → client_state_for asked (clear_client_state addr s)
      ≡ (if str_eq asked addr then new_client else client_state_for asked s)
unfolding client_state_for clear_client_state
client_state_for-clear addr asked s =
    rw (lookup-delete s.clients addr asked) (by_same (str_eq asked addr))
  where
    by_same :
        (b : Bool)
        → state_or_new (if b then none else lookup s.clients asked)
          ≡ (if b then new_client else state_or_new (lookup s.clients asked))
    by_same true = refl
    by_same false = refl
