-- ===== src/Auth/Session.antt =====
-- What the two tokens of a login open.
use aimos.Prelude.{
  ℕ, ◌+◌, ◌*◌, ◌≤◌, ◌≡◌, refl, String, List, ◌++◌, leb, Bool-cases, inl, inr, if◌then◌else◌,
}
use aimos.Prelude.Text.{codes, to_lower}
use aimos.Universe.Filters.{starts_with}
use aimos.Auth.Token.{
  Jwt, IsFaithful, refused, granted, access, refresh_token, Claims, day, create_access_token,
  create_refresh_token, decode_token, get_current_user,
}

-- The header that a client sends with a token.
abbrev pub bearer : List ℕ → List ℕ
bearer token = codes "Bearer " ++ token

module _ (jwt : Jwt) (secret : String) (faithful : IsFaithful jwt) where
  -- The access token of a login opens the endpoints until seven days are over and is then refused as
  -- expired; its refresh token never opens them, and is refused for its type until it expires too.
  pub tokens_open :
      (t now : ℕ)
      → t ≤ now
      → (get_current_user jwt secret (bearer (create_access_token jwt secret "local" t)) now
          ≡ (if leb (t + 7 * day) now then refused "token expired" else granted "admin"))
        × (get_current_user jwt secret (bearer (create_refresh_token jwt secret "local" t)) now ≡ (
            if leb (t + 30 * day) now
            then refused "token expired"
            else refused "token type mismatch (expected access)"))
  unfolding get_current_user create_access_token create_refresh_token decode_token starts_with
      to_lower
  tokens_open t now h =
      let a : Claims = record { sub = "local"; type = access; iat = t; exp = t + 7 * day } in
      let r : Claims = record {
        sub = "local";
        type = refresh_token;
        iat = t;
        exp = t + 30 * day;
      } in
      (
        elim (Bool-cases (leb (t + 7 * day) now)) [
          | inl e ↦
              rw
                (
                  get_current_user,
                  faithful.is_compact secret a,
                  faithful.decodes secret a now refl h,
                  e,
                )
                refl
          | inr e ↦
              rw
                (
                  get_current_user,
                  faithful.is_compact secret a,
                  faithful.decodes secret a now refl h,
                  e,
                )
                refl
        ],
        elim (Bool-cases (leb (t + 30 * day) now)) [
          | inl e ↦
              rw
                (
                  get_current_user,
                  faithful.is_compact secret r,
                  faithful.decodes secret r now refl h,
                  e,
                )
                refl
          | inr e ↦
              rw
                (
                  get_current_user,
                  faithful.is_compact secret r,
                  faithful.decodes secret r now refl h,
                  e,
                )
                refl
        ],
      )
