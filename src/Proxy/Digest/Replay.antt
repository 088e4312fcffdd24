-- ===== src/Proxy/Digest/Replay.antt =====
-- Proxy/Digest.antt in every order of steps under a clock that does not go back: no answer to a
-- challenge is taken twice.
use pxgo.Shared.{ℕ, ◌+◌, ◌≤◌, ◌≡◌, Bool, true, false, List}
use pxgo.Shared.Text.{Text}
use pxgo.Proxy.Digest.{
  Platform, digest_nonce_lifetime, NonceTables, nonce_seen, mark_if_new, next_digest_nc,
  DigestConfig, DigestRequest, check_digest, passes_checks, key_of,
}
use pxgo.Proxy.Digest.Laws.{IsMarked}

module _ (p : Platform) (cfg : DigestConfig) where
  -- What a thread may do at a time. The two parts of a check are also steps of their own, for
  -- another thread may come between them.
  pub data Step (now : ℕ) (t : NonceTables) : NonceTables → Type 0 where
    checks : (r : DigestRequest) → Step now t (check_digest p cfg now r t).1
    looks_up : (key : Text) → Step now t (nonce_seen now key t).1
    marks : (key : Text) → Step now t (mark_if_new now key t).1
    counts : (nonce : Text) → Step now t (next_digest_nc now nonce t).1

  -- Runs from one time to another.
  pub data Run (start : ℕ) (t : NonceTables) : ℕ → NonceTables → Type 0 where
    here : Run start t start t
    next :
        {then_ now : ℕ} {u v : NonceTables}
        → Run start t then_ u
        → then_ ≤ now
        → Step now u v
        → Run start t now v

  -- What an accepted check of the parameters says of the result.
  abbrev Accepted :
      ℕ → DigestRequest → List (Text × Text) → NonceTables → Bool × NonceTables → Type 0
  Accepted now r ps t x =
      (x.0 ≡ true)
      → (passes_checks p cfg now r ps ≡ true)
        × ((nonce_seen now (key_of ps) t).0 ≡ false)
        × IsMarked (key_of ps) (now + digest_nonce_lifetime) x.1
