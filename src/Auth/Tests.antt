-- ===== src/Auth/Tests.antt =====
-- The tracker after three failures.
use aimos.Prelude.{
  ℕ, ◌≡◌, refl, String, Bool, true, false, List, [], ◌∷◌, ltb, leb, ◌==◌, ◌+◌, ◌*◌, arith,
  if◌then◌else◌,
}
use aimos.Prelude.Text.{strip, lstrip, is_space}
use aimos.Auth.{FailedLoginTracker, allow, Call, fails, asks, run}
use aimos.Auth.History.{recent_failures, failed_since}
use aimos.Auth.Allowed.{allow_lem}
use aimos.Auth.Token.{
  TokenType, access, refresh_token, Claims, Decoded, expired, valid, invalid, Jwt, IsFaithful, day,
  refused, granted, create_access_token, create_refresh_token, get_current_user,
}
use aimos.Auth.Session.{bearer, tokens_open}

abbrev tracker : FailedLoginTracker
tracker = record { threshold = 2; window = 300; has_alert = true; events = [] }

abbrev calls : List Call
calls =
    fails "admin" 10
    ∷ fails "admin" 20
    ∷ asks "admin" 315
    ∷ fails "root" 316
    ∷ fails "admin" 318
    ∷ []

allow_lem_example :
    (allow "admin" 319 (run calls tracker)).0
    ≡ ltb (recent_failures 300 319 (failed_since "admin" [] calls)) 2
allow_lem_example =
    allow_lem calls tracker "admin" 319 refl
      (omega arith, (omega arith, (omega arith, (omega arith, (omega arith, tt))))) (omega arith)

-- Two failures stand in the window, and then only one.
refused_test : (allow "admin" 319 (run calls tracker)).0 ≡ false
unfolding allow aimos.Prelude.Dict.lookup run aimos.Prelude.Dict.insert
refused_test = refl

allowed_test : (allow "admin" 330 (run calls tracker)).0 ≡ true
unfolding allow aimos.Prelude.Dict.lookup run aimos.Prelude.Dict.insert
allowed_test = refl

-- Tokens without a signature.
abbrev type_place : TokenType → ℕ
type_place access = 1
type_place refresh_token = 2

abbrev plain_encode : String → Claims → List ℕ
plain_encode _ c = 65 ∷ type_place c.type ∷ c.iat ∷ c.exp ∷ 65 ∷ []

abbrev type_at : ℕ → TokenType
type_at n = if n == 1 then access else refresh_token

abbrev plain_decode : String → ℕ → List ℕ → Decoded
plain_decode _ now (a ∷ type ∷ iat ∷ exp ∷ b ∷ []) =
    if leb exp now
    then expired
    else valid (record { sub = "local"; type = type_at type; iat = iat; exp = exp })
plain_decode _ now _ = invalid

abbrev plain : Jwt
plain = record { encode = plain_encode; decode = plain_decode }

type_at_place : (t : TokenType) → type_at (type_place t) ≡ t
type_at_place access = refl
type_at_place refresh_token = refl

plain-IsFaithful : IsFaithful plain
unfolding strip lstrip is_space
plain-IsFaithful = record {
  decodes = λ secret claims now local _. rw (type_at_place claims.type, local) refl;
  is_compact = λ secret claims. refl;
}

tokens_open_example :
    (get_current_user plain "s" (bearer (create_access_token plain "s" "local" 5)) 100
      ≡ (if leb (5 + 7 * day) 100 then refused "token expired" else granted "admin"))
    × (get_current_user plain "s" (bearer (create_refresh_token plain "s" "local" 5)) 100 ≡ (
        if leb (5 + 30 * day) 100
        then refused "token expired"
        else refused "token type mismatch (expected access)"))
tokens_open_example = tokens_open plain "s" plain-IsFaithful 5 100 (omega arith)
