-- ===== src/Proxy/ClientAuth/Runs.antt =====
-- Proxy/ClientAuth.antt in every order of requests and of connections that end.
use pxgo.Shared.{
  String, ◌≡◌, ◌≢◌, refl, ap, sym, ◌∙◌, ◌⊎◌, inl, inr, Bool, true, false, ◌&&◌, [], ◌∷◌, str_eq,
  eq_iff, Bool-cases, arith, if◌then◌else◌,
}
use pxgo.Shared.Dict.{lookup}
use pxgo.Shared.Text.{Text}
use pxgo.Proxy.ClientAuth.{
  ClientState, Setting, Request, Clients, new_client, state_or_new, client_state_for, put_client,
  is_empty, is_client_authed, set_client_authed, clear_client_authed, clear_client_state,
  check_methods, authenticate_client,
}
use pxgo.Proxy.ClientAuth.Laws.{
  client_state_for-put, client_state_for-change, client_state_for-clear,
}
use pxgo.Proxy.ClientAuth.Effects.{check_methods-SameAuth}

module _ (set : Setting) where
  pub data Step (s : Clients) : Clients → Type 0 where
    requests : (r : Request) → Step s (authenticate_client set r s).1
    deauthenticates : (addr : String) → Step s (clear_client_authed addr s)
    disconnects : (addr : String) → Step s (clear_client_state addr s)

  pub data Run (s : Clients) : Clients → Type 0 where
    here : Run s s
    next : {t u : Clients} → Run s t → Step t u → Run s u

  -- The step is a request of that connection which passes the check of one of the methods.
  abbrev pub PassesCheck : (addr : String) {s t : Clients} → Step s t → Type 0
  PassesCheck addr {s} (requests r) =
      (r.remote_addr ≡ addr) × ((check_methods set set.methods r s).0 ≡ true)
  PassesCheck addr (deauthenticates _) = ⊥
  PassesCheck addr (disconnects _) = ⊥

  -- The step neither ends that connection nor takes its authentication away.
  abbrev pub Keeps : (addr : String) {s t : Clients} → Step s t → Type 0
  Keeps addr (requests _) = Unit
  Keeps addr (deauthenticates other) = other ≢ addr
  Keeps addr (disconnects other) = other ≢ addr

  -- A request passed a check, and since then the connection of that address was kept.
  abbrev pub PassedBefore : (addr : String) {s t : Clients} → Run s t → Type 0
  PassedBefore addr here = ⊥
  PassedBefore addr (next run step) =
      PassesCheck addr step ⊎ (Keeps addr step × PassedBefore addr run)

  set_client_authed-cases :
      (addr asked : String) (s : Clients)
      → is_client_authed asked (set_client_authed addr s) ≡ true
      → (addr ≡ asked) ⊎ (is_client_authed asked s ≡ true)
  unfolding set_client_authed is_client_authed
  set_client_authed-cases addr asked s h = elim (Bool-cases (str_eq asked addr)) [
    | inl same ↦ inl (sym ((eq_iff asked addr).0 same))
    | inr other ↦
        let cs : ClientState = record (client_state_for addr s) { authed = true } in
        let kept : is_client_authed asked (put_client addr cs s) ≡ is_client_authed asked s =
          ap (λ (c : ClientState). c.authed) (client_state_for-put addr asked cs s)
          ∙ rw other refl in
        inr (sym kept ∙ h)
  ]

  request-authed :
      (addr : String) (s : Clients) (r : Request)
      → is_client_authed addr (authenticate_client set r s).1 ≡ true
      → ((r.remote_addr ≡ addr) × ((check_methods set set.methods r s).0 ≡ true))
        ⊎ (is_client_authed addr s ≡ true)
  unfolding authenticate_client
  request-authed addr s r = by_skip (is_empty r.authorization && is_client_authed r.remote_addr s)
    where
      checked : Bool × Clients
      checked = check_methods set set.methods r s

      Result : Type 0
      Result = ((r.remote_addr ≡ addr) × (checked.0 ≡ true)) ⊎ (is_client_authed addr s ≡ true)

      Then : Bool × Clients → Type 0
      Then x = is_client_authed addr x.1 ≡ true → Result

      before : is_client_authed addr checked.1 ≡ true → is_client_authed addr s ≡ true
      before h = sym ((check_methods-SameAuth set set.methods r s).authed addr) ∙ h

      by_ok :
          (ok : Bool)
          → checked.0 ≡ ok
          → Then
              (if ok then (true, set_client_authed r.remote_addr checked.1) else (false, checked.1))
      by_ok true e h = elim (set_client_authed-cases r.remote_addr addr checked.1 h) [
        | inl same ↦ inl (same, e)
        | inr was ↦ inr (before was)
      ]
      by_ok false e h = inr (before h)

      by_skip :
          (skip : Bool)
          → Then (
              if skip
              then (true, s)
              else if checked.0
              then (true, set_client_authed r.remote_addr checked.1)
              else (false, checked.1))
      by_skip true h = inr h
      by_skip false h = by_ok checked.0 refl h

  apart_from : (addr other : String) → str_eq addr other ≡ false → other ≢ addr
  apart_from addr other apart same =
      absurd (ground (arith, apart, (eq_iff addr other).1 (sym same)))

  deauthenticate-authed :
      (addr other : String) (s : Clients)
      → is_client_authed addr (clear_client_authed other s) ≡ true
      → (other ≢ addr) × (is_client_authed addr s ≡ true)
  unfolding clear_client_authed is_client_authed
  deauthenticate-authed addr other s h = elim (Bool-cases (str_eq addr other)) [
    | inl same ↦ absurd (ground (arith, h, rw same at changed))
    | inr apart ↦ (apart_from addr other apart, sym (rw apart at changed) ∙ h)
  ]
    where
      change : ClientState → ClientState
      change cs = record cs { authed = false }

      changed :
          is_client_authed addr (clear_client_authed other s)
          ≡ (if str_eq addr other
              then change (client_state_for addr s)
              else client_state_for addr s).authed
      changed =
          ap (λ (c : ClientState). c.authed) (client_state_for-change change other addr s refl)

  disconnect-authed :
      (addr other : String) (s : Clients)
      → is_client_authed addr (clear_client_state other s) ≡ true
      → (other ≢ addr) × (is_client_authed addr s ≡ true)
  unfolding is_client_authed
  disconnect-authed addr other s h = elim (Bool-cases (str_eq addr other)) [
    | inl same ↦ absurd (ground (arith, h, rw same at changed))
    | inr apart ↦ (apart_from addr other apart, sym (rw apart at changed) ∙ h)
  ]
    where
      changed :
          is_client_authed addr (clear_client_state other s)
          ≡ (if str_eq addr other then new_client else client_state_for addr s).authed
      changed = ap (λ (c : ClientState). c.authed) (client_state_for-clear other addr s)

  -- A connection is authenticated after a step only if it was before and is kept, or passes a check
  -- in it.
  Step-authed :
      (addr : String) {s t : Clients} (step : Step s t)
      → is_client_authed addr t ≡ true
      → PassesCheck addr step ⊎ (Keeps addr step × (is_client_authed addr s ≡ true))
  Step-authed addr {s} (requests r) h = elim (request-authed addr s r h) [
    | inl passed ↦ inl passed
    | inr before ↦ inr (tt, before)
  ]
  Step-authed addr {s} (deauthenticates other) h = inr (deauthenticate-authed addr other s h)
  Step-authed addr {s} (disconnects other) h = inr (disconnect-authed addr other s h)

  Run-authed :
      (addr : String) {s t : Clients} (run : Run s t)
      → is_client_authed addr s ≡ false
      → is_client_authed addr t ≡ true
      → PassedBefore addr run
  Run-authed addr here new h = absurd (ground (arith, new, h))
  Run-authed addr (next run step) new h = elim (Step-authed addr step h) [
    | inl now ↦ inl now
    | inr (kept, before) ↦ inr (kept, Run-authed addr run new before)
  ]

  -- A request that the server lets through passes the check of a method, or carries no credentials
  -- and a request from its address passed such a check before, since when no connection of that
  -- address has ended and its authentication was not taken away.
  pub let_through_after_check :
      (s t : Clients) (run : Run s t) (r : Request)
      → s.clients ≡ []
      → (authenticate_client set r t).0 ≡ true
      → ((check_methods set set.methods r t).0 ≡ true)
        ⊎ ((r.authorization ≡ []) × PassedBefore r.remote_addr run)
  unfolding authenticate_client
  let_through_after_check s t run r new h =
      by_skip (is_empty r.authorization && is_client_authed r.remote_addr t) refl h
    where
      checked : Bool × Clients
      checked = check_methods set set.methods r t

      unknown : is_client_authed r.remote_addr s ≡ false
      unknown = ap (λ d. (state_or_new (lookup d r.remote_addr)).authed) new ∙ unfold lookup in refl

      no_header : (text : Text) → is_empty text ≡ true → text ≡ []
      no_header [] e = refl
      no_header (c ∷ text) e = absurd (ground (arith, e))

      by_skip :
          (skip : Bool)
          → (is_empty r.authorization && is_client_authed r.remote_addr t) ≡ skip
          → (let x : Bool × Clients =
                if skip
                then (true, t)
                else if checked.0
                then (true, set_client_authed r.remote_addr checked.1)
                else (false, checked.1) in
              x.0 ≡ true)
          → (checked.0 ≡ true) ⊎ ((r.authorization ≡ []) × PassedBefore r.remote_addr run)
      by_skip true e h = inr (
        no_header r.authorization (ground (arith, e)),
        Run-authed r.remote_addr run unknown (ground (arith, e)),
      )
      by_skip false e h = inl (ground (arith, h))
