-- ===== src/Proxy/ClientAuth/Challenge.antt =====
-- Proxy/ClientAuth.antt: the challenge of NTLM is for one answer.
use pxgo.Shared.{
  ℕ, String, ◌≡◌, refl, ap, sym, ◌∙◌, inl, inr, Bool, true, false, ◌&&◌, Option, none, some, List,
  [], ◌∷◌, ◌==◌, str_eq, eq_iff, Bool-cases, if_both, length, arith, if◌then◌else◌,
}
use pxgo.Proxy.Der.{Bytes}
use pxgo.Proxy.Ntlm.{verify_authenticate}
use pxgo.Proxy.ClientAuth.{
  ClientState, AuthMethod, basic, digest, ntlm, negotiate, unsupported, Setting, Request, Clients,
  client_state_for, is_empty, is_client_authed, ntlm_challenge, set_client_authed,
  clear_client_authed, clear_client_state, clear_ntlm_challenge, ntlm_message, message_kind,
  on_negotiate, on_authenticate, succeeds, check_ntlm, succeeds, check_digest_client, check_method,
  check_methods, authenticate_client,
}
use pxgo.Proxy.ClientAuth.Laws.{
  client_state_for-put, client_state_for-change, client_state_for-clear,
}
use pxgo.Proxy.ClientAuth.Effects.{check_methods-SameAuth, ntlm_challenge-clear}
use pxgo.Proxy.ClientAuth.Runs.{Step, requests, deauthenticates, disconnects, Run, here, next}

abbrev kind_is : ℕ → Option (Bytes × Bool) → Bool
kind_is kind none = false
kind_is kind (some (message, _)) = message_kind message == kind

-- The request carries an NTLM message of that kind, under NTLM or under Negotiate.
abbrev pub carries : Setting → ℕ → Bool → Request → Bool
carries set kind is_negotiate r = kind_is kind (ntlm_message set is_negotiate r.authorization)

-- The request asks for no challenge.
abbrev pub AsksNone : Setting → Request → Type 0
AsksNone set r = (carries set 1 false r ≡ false) × (carries set 1 true r ≡ false)

abbrev ntlm_result : Setting → Request → Clients → Option (Bytes × Bool) → Bool × Clients
ntlm_result set r s found = elim found [
  | none ↦ (false, s)
  | some (message, uses) ↦
      if message_kind message == 1
      then (false, on_negotiate r uses s)
      else if message_kind message == 3
      then on_authenticate set r message s
      else (false, s)
]

no_bytes : (bytes : Bytes) → (length bytes == 0) ≡ true → bytes ≡ []
no_bytes [] e = refl
no_bytes (b ∷ bytes) e = absurd (ground (arith, e))

on_authenticate-consumes :
    (set : Setting) (r : Request) (message : Bytes) (s : Clients)
    → ntlm_challenge r.remote_addr (on_authenticate set r message s).1 ≡ []
unfolding on_authenticate
on_authenticate-consumes set r message s =
    by_length (length (ntlm_challenge r.remote_addr s) == 0) refl
  where
    answer : Bool
    answer = succeeds (
        verify_authenticate set.hashes message (ntlm_challenge r.remote_addr s)
          set.digest.client_username set.digest.client_password)

    by_length :
        (b : Bool)
        → (length (ntlm_challenge r.remote_addr s) == 0) ≡ b
        → (let x : Bool × Clients =
              if b then (false, s) else (answer, clear_ntlm_challenge r.remote_addr s) in
            ntlm_challenge r.remote_addr x.1 ≡ [])
    by_length true e = no_bytes (ntlm_challenge r.remote_addr s) e
    by_length false e = ntlm_challenge-clear r.remote_addr s

-- An AUTHENTICATE message leaves no challenge.
check_ntlm-consumes :
    (set : Setting) (n : Bool) (r : Request) (s : Clients)
    → carries set 3 n r ≡ true
    → ntlm_challenge r.remote_addr (check_ntlm set n r s).1 ≡ []
unfolding check_ntlm
check_ntlm-consumes set n r s = by_message (ntlm_message set n r.authorization)
  where
    by_message :
        (found : Option (Bytes × Bool))
        → kind_is 3 found ≡ true
        → ntlm_challenge r.remote_addr (ntlm_result set r s found).1 ≡ []
    by_message none h = absurd (ground (arith, h))
    by_message (some (message, uses)) h =
        let is_three : message_kind message ≡ 3 = ground (arith, h) in
        rw is_three (on_authenticate-consumes set r message s)

-- Without a challenge, an AUTHENTICATE message is refused.
check_ntlm-refuses :
    (set : Setting) (n : Bool) (r : Request) (s : Clients)
    → carries set 3 n r ≡ true
    → ntlm_challenge r.remote_addr s ≡ []
    → (check_ntlm set n r s).0 ≡ false
unfolding check_ntlm on_authenticate
check_ntlm-refuses set n r s h e = by_message (ntlm_message set n r.authorization) h
  where
    by_message :
        (found : Option (Bytes × Bool))
        → kind_is 3 found ≡ true
        → (ntlm_result set r s found).0 ≡ false
    by_message none h = absurd (ground (arith, h))
    by_message (some (message, uses)) h =
        let is_three : message_kind message ≡ 3 = ground (arith, h) in rw (is_three, e) refl

-- A request that asks for no challenge gets none.
check_ntlm-stays :
    (set : Setting) (n : Bool) (r : Request) (s : Clients)
    → carries set 1 n r ≡ false
    → ntlm_challenge r.remote_addr s ≡ []
    → ntlm_challenge r.remote_addr (check_ntlm set n r s).1 ≡ []
unfolding check_ntlm
check_ntlm-stays set n r s h e = by_message (ntlm_message set n r.authorization) h
  where
    by_message :
        (found : Option (Bytes × Bool))
        → kind_is 1 found ≡ false
        → ntlm_challenge r.remote_addr (ntlm_result set r s found).1 ≡ []
    by_message none h = e
    by_message (some (message, uses)) h = rw h (
        if_both (λ (x : Bool × Clients). ntlm_challenge r.remote_addr x.1 ≡ [])
          (message_kind message == 3) _ _ (on_authenticate-consumes set r message s) e)

check_method-stays :
    (set : Setting) (m : AuthMethod) (r : Request) (s : Clients)
    → AsksNone set r
    → ntlm_challenge r.remote_addr s ≡ []
    → ntlm_challenge r.remote_addr (check_method set m r s).1 ≡ []
unfolding check_method check_digest_client ntlm_challenge client_state_for
check_method-stays set basic r s h e = e
check_method-stays set digest r s h e = e
check_method-stays set ntlm r s h e = check_ntlm-stays set false r s h.0 e
check_method-stays set negotiate r s h e = check_ntlm-stays set true r s h.1 e
check_method-stays set (unsupported _) r s h e = e

check_methods-stays :
    (set : Setting) (ms : List AuthMethod) (r : Request) (s : Clients)
    → AsksNone set r
    → ntlm_challenge r.remote_addr s ≡ []
    → ntlm_challenge r.remote_addr (check_methods set ms r s).1 ≡ []
unfolding check_methods
check_methods-stays set [] r s h e = e
check_methods-stays set (m ∷ ms) r s h e =
    let first = check_method-stays set m r s h e in
    if_both (λ (x : Bool × Clients). ntlm_challenge r.remote_addr x.1 ≡ [])
      (check_method set m r s).0 _ _ first
      (check_methods-stays set ms r (check_method set m r s).1 h first)

module _ (set : Setting) (addr : String) where
  -- The step is no request for a challenge on that connection.
  abbrev pub Quiet : {s t : Clients} → Step set s t → Type 0
  Quiet (requests r) = r.remote_addr ≡ addr → AsksNone set r
  Quiet (deauthenticates _) = Unit
  Quiet (disconnects _) = Unit

  abbrev pub AllQuiet : {s t : Clients} → Run set s t → Type 0
  AllQuiet here = Unit
  AllQuiet (next run step) = Quiet step × AllQuiet run

  set_client_authed-challenge :
      (other : String) (s : Clients)
      → ntlm_challenge addr (set_client_authed other s) ≡ ntlm_challenge addr s
  unfolding set_client_authed ntlm_challenge
  set_client_authed-challenge other s =
      ap (λ (c : ClientState). c.ntlm)
        (client_state_for-put other addr (record (client_state_for other s) { authed = true }) s)
      ∙ elim (Bool-cases (str_eq addr other)) [
        | inl same ↦
            rw same (ap (λ a. (client_state_for a s).ntlm) (sym ((eq_iff addr other).0 same)))
        | inr apart ↦ rw apart refl
      ]

  request-stays :
      (r : Request) (s : Clients)
      → (r.remote_addr ≡ addr → AsksNone set r)
      → ntlm_challenge addr s ≡ []
      → ntlm_challenge addr (authenticate_client set r s).1 ≡ []
  unfolding authenticate_client
  request-stays r s quiet e =
      if_both NoChallenge (is_empty r.authorization && is_client_authed r.remote_addr s) _ _ e (
        if_both NoChallenge checked.0 _ _
          (set_client_authed-challenge r.remote_addr checked.1 ∙ after) after)
    where
      NoChallenge : Bool × Clients → Type 0
      NoChallenge x = ntlm_challenge addr x.1 ≡ []

      checked : Bool × Clients
      checked = check_methods set set.methods r s

      after : ntlm_challenge addr checked.1 ≡ []
      after = elim (Bool-cases (str_eq addr r.remote_addr)) [
        | inl same ↦
            let at : addr ≡ r.remote_addr = (eq_iff addr r.remote_addr).0 same in
            ap (λ a. ntlm_challenge a checked.1) at
            ∙ check_methods-stays set set.methods r s (quiet (sym at))
                (ap (λ a. ntlm_challenge a s) (sym at) ∙ e)
        | inr apart ↦ (check_methods-SameAuth set set.methods r s).others addr apart ∙ e
      ]

  deauthenticate-stays :
      (other : String) (s : Clients)
      → ntlm_challenge addr s ≡ []
      → ntlm_challenge addr (clear_client_authed other s) ≡ []
  unfolding clear_client_authed ntlm_challenge
  deauthenticate-stays other s e =
      ap (λ (c : ClientState). c.ntlm)
        (client_state_for-change (λ cs. record cs { authed = false }) other addr s refl)
      ∙ elim (Bool-cases (str_eq addr other)) [ inl same ↦ rw same e | inr apart ↦ rw apart e ]

  disconnect-stays :
      (other : String) (s : Clients)
      → ntlm_challenge addr s ≡ []
      → ntlm_challenge addr (clear_client_state other s) ≡ []
  unfolding ntlm_challenge
  disconnect-stays other s e =
      ap (λ (c : ClientState). c.ntlm) (client_state_for-clear other addr s)
      ∙ elim (Bool-cases (str_eq addr other)) [ inl same ↦ rw same refl | inr apart ↦ rw apart e ]

  Run-stays :
      {s t : Clients} (run : Run set s t)
      → AllQuiet run
      → ntlm_challenge addr s ≡ []
      → ntlm_challenge addr t ≡ []
  Run-stays here quiet e = e
  Run-stays (next {t} run (requests r)) quiet e =
      request-stays r t quiet.0 (Run-stays run quiet.1 e)
  Run-stays (next {t} run (deauthenticates other)) quiet e =
      deauthenticate-stays other t (Run-stays run quiet.1 e)
  Run-stays (next {t} run (disconnects other)) quiet e =
      disconnect-stays other t (Run-stays run quiet.1 e)

-- A challenge is for one answer: after an AUTHENTICATE message on a connection, accepted or not,
-- each other on that connection is refused, whatever happens in between, until a request on it asks
-- for a new challenge.
pub challenge_is_for_one_answer :
    (set : Setting) (n m : Bool) (first second : Request) (s t : Clients)
    → carries set 3 n first ≡ true
    → carries set 3 m second ≡ true
    → second.remote_addr ≡ first.remote_addr
    → (run : Run set (check_ntlm set n first s).1 t) → AllQuiet set first.remote_addr run
    → (check_ntlm set m second t).0 ≡ false
challenge_is_for_one_answer set n m first second s t answers again same run quiet =
    check_ntlm-refuses set m second t again (
      ap (λ a. ntlm_challenge a t) same
      ∙ Run-stays set first.remote_addr run quiet (check_ntlm-consumes set n first s answers))
