-- ===== src/Proxy/ClientAuth/Effects.antt =====
-- What the checks of Proxy/ClientAuth.antt leave of the state of each connection.
use pxgo.Shared.{
  String, ◌≡◌, refl, ap, sym, ◌∙◌, inl, inr, Bool, true, false, Option, none, some, List, [], ◌∷◌,
  ◌==◌, str_eq, eq_refl, eq_iff, Bool-cases, if_both, length, if◌then◌else◌,
}
use pxgo.Proxy.Der.{Bytes}
use pxgo.Proxy.ClientAuth.{
  ClientState, AuthMethod, basic, digest, ntlm, negotiate, unsupported, Setting, Request, Clients,
  client_state_for, put_client, new_ntlm_challenge, is_client_authed, ntlm_challenge,
  set_ntlm_challenge, clear_ntlm_challenge, ntlm_message, message_kind, on_negotiate,
  on_authenticate, check_ntlm, check_digest_client, check_method, check_methods,
}
use pxgo.Proxy.ClientAuth.Laws.{client_state_for-put, client_state_for-change}

-- Nothing but the challenge of one connection differs.
pub record SameAuth (addr : String) (s t : Clients) : Type 0 where
  pub authed : (asked : String) → is_client_authed asked t ≡ is_client_authed asked s
  pub others :
      (asked : String) → str_eq asked addr ≡ false → ntlm_challenge asked t ≡ ntlm_challenge asked s

pub SameAuth-refl : (addr : String) (s : Clients) → SameAuth addr s s
SameAuth-refl addr s = record { authed = λ asked. refl; others = λ asked _. refl }

SameAuth-trans :
    (addr : String) (s t u : Clients) → SameAuth addr s t → SameAuth addr t u → SameAuth addr s u
SameAuth-trans addr s t u a b = record {
  authed = λ asked. b.authed asked ∙ a.authed asked;
  others = λ asked other. b.others asked other ∙ a.others asked other;
}

-- What follows of the state of a connection that was written.
written-SameAuth :
    (addr : String) (cs : ClientState) (s t : Clients)
    → ((asked : String)
        → client_state_for asked t ≡ (if str_eq asked addr then cs else client_state_for asked s))
    → cs.authed ≡ (client_state_for addr s).authed
    → SameAuth addr s t
unfolding is_client_authed ntlm_challenge
written-SameAuth addr cs s t at h = record {
  authed = λ asked.
      ap (λ (c : ClientState). c.authed) (at asked) ∙ (elim (Bool-cases (str_eq asked addr)) [
        | inl same ↦
            rw same (h ∙ ap (λ a. (client_state_for a s).authed) (sym ((eq_iff asked addr).0 same)))
        | inr other ↦ rw other refl
      ]);
  others = λ asked other. ap (λ (c : ClientState). c.ntlm) (at asked) ∙ rw other refl;
}

set_ntlm_challenge-SameAuth :
    (addr : String) (challenge : Bytes) (uses_spnego : Bool) (s : Clients)
    → SameAuth addr s (set_ntlm_challenge addr challenge uses_spnego s)
unfolding set_ntlm_challenge
set_ntlm_challenge-SameAuth addr challenge uses_spnego s =
    let cs : ClientState = record (client_state_for addr s) {
      ntlm = challenge;
      ntlm_spnego = uses_spnego;
    } in
    written-SameAuth addr cs s (put_client addr cs s)
      (λ asked. client_state_for-put addr asked cs s) refl

-- The state of a connection with no challenge.
abbrev without_challenge : ClientState → ClientState
without_challenge cs = record cs { ntlm = []; ntlm_spnego = false }

clear_ntlm_challenge-state :
    (addr asked : String) (s : Clients)
    → client_state_for asked (clear_ntlm_challenge addr s) ≡ (
        if str_eq asked addr
        then without_challenge (client_state_for addr s)
        else client_state_for asked s)
unfolding clear_ntlm_challenge
clear_ntlm_challenge-state addr asked s =
    client_state_for-change without_challenge addr asked s refl
    ∙ (elim (Bool-cases (str_eq asked addr)) [
      | inl same ↦
          rw same (ap (λ a. without_challenge (client_state_for a s)) ((eq_iff asked addr).0 same))
      | inr other ↦ rw other refl
    ])

clear_ntlm_challenge-SameAuth :
    (addr : String) (s : Clients) → SameAuth addr s (clear_ntlm_challenge addr s)
clear_ntlm_challenge-SameAuth addr s =
    written-SameAuth addr (without_challenge (client_state_for addr s)) s
      (clear_ntlm_challenge addr s) (λ asked. clear_ntlm_challenge-state addr asked s) refl

pub ntlm_challenge-clear :
    (addr : String) (s : Clients) → ntlm_challenge addr (clear_ntlm_challenge addr s) ≡ []
unfolding ntlm_challenge
ntlm_challenge-clear addr s =
    ap (λ (c : ClientState). c.ntlm) (clear_ntlm_challenge-state addr addr s)
    ∙ rw (eq_refl addr) refl

pub ntlm_challenge-clear_other :
    (addr asked : String) (s : Clients)
    → ntlm_challenge asked s ≡ []
    → ntlm_challenge asked (clear_ntlm_challenge addr s) ≡ []
unfolding ntlm_challenge
ntlm_challenge-clear_other addr asked s e =
    ap (λ (c : ClientState). c.ntlm) (clear_ntlm_challenge-state addr asked s)
    ∙ elim (Bool-cases (str_eq asked addr)) [ inl same ↦ rw same refl | inr other ↦ rw other e ]

-- What the check of one method leaves.
check_ntlm-SameAuth :
    (set : Setting) (n : Bool) (r : Request) (s : Clients)
    → SameAuth r.remote_addr s (check_ntlm set n r s).1
unfolding check_ntlm on_negotiate on_authenticate
check_ntlm-SameAuth set n r s = by_message (ntlm_message set n r.authorization)
  where
    Kept : Bool × Clients → Type 0
    Kept x = SameAuth r.remote_addr s x.1

    asked :
        (uses : Bool) (random : Option Bytes)
        → SameAuth r.remote_addr s (elim random [
          | none ↦ s
          | some bytes ↦ set_ntlm_challenge r.remote_addr (new_ntlm_challenge bytes) uses s
        ])
    asked uses none = SameAuth-refl r.remote_addr s
    asked uses (some bytes) =
        set_ntlm_challenge-SameAuth r.remote_addr (new_ntlm_challenge bytes) uses s

    by_message :
        (found : Option (Bytes × Bool))
        → Kept (elim found [
          | none ↦ (false, s)
          | some (message, uses) ↦
              if message_kind message == 1
              then (false, on_negotiate r uses s)
              else if message_kind message == 3
              then on_authenticate set r message s
              else (false, s)
        ])
    by_message none = SameAuth-refl r.remote_addr s
    by_message (some (message, uses)) =
        if_both Kept (message_kind message == 1) _ _ (asked uses r.random) (
          if_both Kept (message_kind message == 3) _ _
            (if_both Kept (length (ntlm_challenge r.remote_addr s) == 0) _ _
              (SameAuth-refl r.remote_addr s) (clear_ntlm_challenge-SameAuth r.remote_addr s))
            (SameAuth-refl r.remote_addr s))

check_method-SameAuth :
    (set : Setting) (m : AuthMethod) (r : Request) (s : Clients)
    → SameAuth r.remote_addr s (check_method set m r s).1
unfolding check_method check_digest_client is_client_authed ntlm_challenge client_state_for
check_method-SameAuth set basic r s = SameAuth-refl r.remote_addr s
check_method-SameAuth set digest r s = record { authed = λ asked. refl; others = λ asked _. refl }
check_method-SameAuth set ntlm r s = check_ntlm-SameAuth set false r s
check_method-SameAuth set negotiate r s = check_ntlm-SameAuth set true r s
check_method-SameAuth set (unsupported _) r s = SameAuth-refl r.remote_addr s

pub check_methods-SameAuth :
    (set : Setting) (ms : List AuthMethod) (r : Request) (s : Clients)
    → SameAuth r.remote_addr s (check_methods set ms r s).1
unfolding check_methods
check_methods-SameAuth set [] r s = SameAuth-refl r.remote_addr s
check_methods-SameAuth set (m ∷ ms) r s =
    let first = check_method-SameAuth set m r s in
    if_both (λ (x : Bool × Clients). SameAuth r.remote_addr s x.1) (check_method set m r s).0 _ _
      first
      (SameAuth-trans r.remote_addr s (check_method set m r s).1
        (check_methods set ms r (check_method set m r s).1).1 first
        (check_methods-SameAuth set ms r (check_method set m r s).1))
