-- ===== src/Auth/Token.antt =====
-- Tokens and the login: aimos/auth/security.py and the endpoints login, refresh and me of
-- aimos/auth/router.py. The library PyJWT is an argument, with what it documents as a hypothesis. The
-- environment's name and password, and the secret, are arguments. Times are whole seconds, as in
-- the tokens; texts are the lists of their characters.
use aimos.Prelude.{
  ℕ, ◌+◌, ◌*◌, ◌≤◌, ◌≡◌, String, Bool, true, false, not, ◌||◌, List, [], ◌∷◌, map, str_eq, leb,
  drop, if◌then◌else◌,
}
use aimos.Prelude.Text.{codes, to_lower, strip}
use aimos.Universe.Filters.{starts_with}

pub data TokenType : Type 0 where
  access refresh_token : TokenType

abbrev pub same_type : TokenType → TokenType → Bool
same_type access access = true
same_type refresh_token refresh_token = true
same_type _ _ = false

pub record Claims : Type 0 where
  pub sub : String
  pub type : TokenType
  pub iat : ℕ
  pub exp : ℕ

-- What `jwt.decode` gives or raises.
pub data Decoded : Type 0 where
  expired invalid : Decoded
  valid : Claims → Decoded

pub record Jwt : Type 0 where
  pub encode : String → Claims → List ℕ
  pub decode : String → ℕ → List ℕ → Decoded

-- A token that was made for the local user with a secret decodes to its claims with that secret until it
-- expires, and is a text without spaces around it.
pub record IsFaithful (jwt : Jwt) : Type 0 where
  pub decodes :
      (secret : String) (claims : Claims) (now : ℕ)
      → claims.sub ≡ "local"
      → claims.iat ≤ now
      → jwt.decode secret now (jwt.encode secret claims)
        ≡ (if leb claims.exp now then expired else valid claims)
  pub is_compact :
      (secret : String) (claims : Claims)
      → strip (jwt.encode secret claims) ≡ jwt.encode secret claims

-- `AuthError`, with its text.
pub data Auth (A : Type 0) : Type 0 where
  refused : String → Auth A
  granted : A → Auth A

abbrev pub day : ℕ
day = 86400

module _ (jwt : Jwt) (secret : String) where
  unfoldable pub create_access_token : String → ℕ → List ℕ
  create_access_token user_id now =
      jwt.encode secret (record { sub = user_id; type = access; iat = now; exp = now + 7 * day })

  unfoldable pub create_refresh_token : String → ℕ → List ℕ
  create_refresh_token user_id now =
      jwt.encode secret
        (record { sub = user_id; type = refresh_token; iat = now; exp = now + 30 * day })

  abbrev mismatch : TokenType → String
  mismatch access = "token type mismatch (expected access)"
  mismatch refresh_token = "token type mismatch (expected refresh)"

  unfoldable pub decode_token : List ℕ → TokenType → ℕ → Auth Claims
  decode_token token expected now = elim (jwt.decode secret now token) [
    | expired ↦ refused "token expired"
    | invalid ↦ refused "invalid token"
    | valid claims ↦
        if same_type claims.type expected then granted claims else refused (mismatch expected)
  ]

  abbrev pub is_bearer : List ℕ → Bool
  is_bearer authorization = starts_with (codes "bearer ") (map to_lower authorization)

  -- `get_current_user`: the user's name.
  unfoldable pub get_current_user : List ℕ → ℕ → Auth String
  unfolding decode_token
  get_current_user [] now = refused "Authorization required"
  get_current_user (c ∷ cs) now =
      if not (is_bearer (c ∷ cs))
      then refused "invalid authorization scheme"
      else elim (decode_token (strip (drop 7 (c ∷ cs))) access now) [
        | refused detail ↦ refused detail
        | granted _ ↦ granted "admin"
      ]

  -- `login`: the access token and the refresh cookie.
  unfoldable pub login : String → String → String → String → ℕ → Auth (List ℕ × List ℕ)
  unfolding create_access_token create_refresh_token
  login admin_username admin_password username password now =
      if str_eq admin_password ""
      then refused "admin password not configured"
      else if not (str_eq username admin_username) || not (str_eq password admin_password)
      then refused "invalid credentials"
      else granted (create_access_token "local" now, create_refresh_token "local" now)

  -- `refresh`, on the token that the request or its cookie carries.
  unfoldable pub refresh : List ℕ → ℕ → Auth (List ℕ × List ℕ)
  unfolding decode_token create_access_token create_refresh_token
  refresh [] now = refused "missing refresh token"
  refresh (c ∷ cs) now = elim (decode_token (c ∷ cs) refresh_token now) [
    | refused detail ↦ refused detail
    | granted claims ↦
        granted (create_access_token claims.sub now, create_refresh_token claims.sub now)
  ]
