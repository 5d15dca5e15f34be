-- ===== src/Auth/Session.antt =====
-- The validations of control-plane/auth/session.go, and `Authenticate` of authentication.go. What the
-- validator of tokens and the resolver of identities answer are arguments.
use astra_sync.Prelude.{
  ℕ, ◌+◌, Text, text_eq, codes, is_blank, not, ◌&&◌, ◌||◌, Option, none, some, length, ltb, leb,
  ◌==◌, if◌then◌else◌, map, Result, ok, err, check, ◌>>◌,
}
use astra_sync.Job.Status.{Time}
use astra_sync.Auth.Error.{
  Error, unauthenticated, tokens_invalid, login_invalid, not_configured, unresolved,
}
use astra_sync.Auth.Principal.{Principal}

pub record ConsoleTokens : Type 0 where
  pub access_token : Text
  pub refresh_token : Text
  pub token_type : Text
  pub token_expires_at : Time

-- `strings.EqualFold` to a text of letters that only their two cases fold to.
abbrev lower : ℕ → ℕ
lower c = if leb 65 c && leb c 90 then c + 32 else c

unfoldable pub validate_tokens : ConsoleTokens → Result Error (Unit {0})
validate_tokens t =
    check
      (is_blank t.access_token
        || (ltb 20480 (length t.access_token)
            || (ltb 20480 (length t.refresh_token)
                || (not (text_eq (map lower t.token_type) (codes "bearer"))
                    || (t.token_expires_at == 0)))))
      tokens_invalid

pub record LoginTransaction : Type 0 where
  pub nonce : Text
  pub code_verifier : Text
  pub return_to : Text

unfoldable pub validate_login : LoginTransaction → Result Error (Unit {0})
validate_login t =
    check
      (ltb (length t.nonce) 32
        || (ltb 256 (length t.nonce)
            || (ltb (length t.code_verifier) 43
                || (ltb 128 (length t.code_verifier)
                    || ((length t.return_to == 0) || ltb 2048 (length t.return_to))))))
      login_invalid

-- `none` is a part that is nil; an identity is whatever the validator returns.
unfoldable pub authenticate {ℓ} :
    {Identity : Type ℓ}
    → Option (Text → Option Identity)
    → Option (Identity → Result Text Principal)
    → Text
    → Result Error Principal
authenticate (some validate) (some resolve) token = elim (validate token) [
  | none ↦ err unauthenticated
  | some identity ↦ elim (resolve identity) [
    | err e ↦ err (unresolved e)
    | ok p ↦ check (not p.principal_active) unauthenticated >> ok p
  ]
]
authenticate _ _ token = err not_configured
