-- ===== src/Proxy/ClientAuth/Offers.antt =====
-- internal/proxy/auth_client.go: the methods that the configuration names, and the challenges that an
-- answer offers to a client. An ASCII text stands for its bytes.
use pxgo.Shared.{
  ℕ, String, Bool, true, false, ◌&&◌, ◌||◌, List, [], ◌∷◌, ◌++◌, ◌==◌, not, ◌/◌, length,
  if◌then◌else◌,
}
use pxgo.Shared.Text.{Text, codes, eq_text, format_uint, trim_space}
use pxgo.Shared.Text.Search.{split_at}
use pxgo.Proxy.Der.{Bytes}
use pxgo.Proxy.Spnego.{neg_token_resp}
use pxgo.Proxy.Digest.{client_host, digest_realm, join_colons, nonce_mac_hex}
use pxgo.Proxy.ClientAuth.{
  AuthMethod, basic, digest, ntlm, negotiate, unsupported, Setting, Clients, client_state_for,
  is_empty, ntlm_challenge,
}

-- The method that a name in upper case stands for.
unfoldable pub method_of : Text → AuthMethod
method_of name =
    if eq_text name (codes "NEGOTIATE")
    then negotiate
    else if eq_text name (codes "NTLM")
    then ntlm
    else if eq_text name (codes "DIGEST")
    then digest
    else if eq_text name (codes "BASIC")
    then basic
    else unsupported name

-- The loop of clientAuthMethods with the methods that it has.
unfoldable pub collect_methods : (Text → Text) → List Text → List AuthMethod → List AuthMethod
unfolding method_of trim_space
collect_methods to_upper [] methods = methods
collect_methods to_upper (raw ∷ items) methods =
    let name = to_upper (trim_space raw) in
    let same = collect_methods to_upper items methods in
    let more = collect_methods to_upper items (methods ++ method_of name ∷ []) in
    if is_empty name
    then same
    else if eq_text name (codes "NONE")
    then []
    else if eq_text name (codes "ANY")
    then negotiate ∷ ntlm ∷ digest ∷ basic ∷ []
    else if eq_text name (codes "ANYSAFE")
    then negotiate ∷ ntlm ∷ digest ∷ []
    else more

-- clientAuthMethods
unfoldable pub client_auth_methods : (Text → Text) → Text → List AuthMethod
unfolding collect_methods split_at trim_space
client_auth_methods to_upper text =
    let trimmed = trim_space text in
    if is_empty trimmed then [] else collect_methods to_upper (split_at b',' trimmed) []

abbrev is_supported : AuthMethod → Bool
is_supported basic = true
is_supported digest = true
is_supported ntlm = true
is_supported negotiate = true
is_supported (unsupported _) = false

unfoldable pub all_supported : List AuthMethod → Bool
all_supported [] = true
all_supported (m ∷ ms) = is_supported m && all_supported ms

-- validateClientAuth
unfoldable pub validate_client_auth : (Text → Text) → Text → Bool
unfolding client_auth_methods all_supported
validate_client_auth to_upper text = all_supported (client_auth_methods to_upper text)

-- clientAuthEnabled
unfoldable pub client_auth_enabled : Setting → Bool
client_auth_enabled set = elim set.methods [ [] ↦ false | _ ∷ _ ↦ true ]

-- ntlmChallengeUsesSPNEGO
unfoldable pub challenge_uses_spnego : String → Clients → Bool
unfolding client_state_for
challenge_uses_spnego addr s = (client_state_for addr s).ntlm_spnego

abbrev with_token : (Bytes → Text) → Text → Bytes → Text
with_token encode_base64 scheme [] = scheme
with_token encode_base64 scheme (b ∷ token) = scheme ++ codes " " ++ encode_base64 (b ∷ token)

module _ (set : Setting) (encode_base64 : Bytes → Text) where
  -- digestNonceAt, with the salt of newCnonce.
  unfoldable pub digest_nonce_at : String → ℕ → Text → Text
  unfolding join_colons nonce_mac_hex client_host
  digest_nonce_at addr now salt =
      let issued = format_uint (now / 1000000000) in
      let mac = nonce_mac_hex set.platform issued salt (client_host set.platform (codes addr)) in
      encode_base64 (join_colons (issued ∷ salt ∷ mac ∷ []))

  -- A challenge that came in SPNEGO goes back in it; none stays none.
  wrapped_challenge : String → Clients → Bytes
  unfolding ntlm_challenge challenge_uses_spnego neg_token_resp
  wrapped_challenge addr s =
      let challenge = ntlm_challenge addr s in
      if (length challenge == 0) || not (challenge_uses_spnego addr s)
      then challenge
      else neg_token_resp challenge

  offer : String → ℕ → Text → Clients → AuthMethod → List Text
  unfolding wrapped_challenge digest_nonce_at ntlm_challenge
  offer addr now salt s negotiate =
      with_token encode_base64 (codes "Negotiate") (wrapped_challenge addr s) ∷ []
  offer addr now salt s ntlm = with_token encode_base64 (codes "NTLM") (ntlm_challenge addr s) ∷ []
  offer addr now salt s digest =
      (codes "Digest realm=\""
        ++ digest_realm
        ++ codes "\", nonce=\""
        ++ digest_nonce_at addr now salt
        ++ codes "\", qop=\"auth\", algorithm=\"MD5\"")
      ∷ []
  offer addr now salt s basic = (codes "Basic realm=\"" ++ digest_realm ++ codes "\"") ∷ []
  offer addr now salt s (unsupported _) = []

  -- clientAuthChallenges at a time, each method with what newCnonce gives where it is asked.
  unfoldable pub client_auth_challenges :
      String → ℕ → Clients → List (AuthMethod × Text) → List Text
  unfolding offer
  client_auth_challenges addr now s [] = []
  client_auth_challenges addr now s ((m, salt) ∷ ms) =
      offer addr now salt s m ++ client_auth_challenges addr now s ms
