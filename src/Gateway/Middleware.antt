-- ===== src/Gateway/Middleware.antt =====
-- internal/gateway/infrastructure/http/jwt_middleware.go
use Prim.Native.Char.{Char, code}
use merch_store.Base.{
  String, Option, none, some, List, [], ◌∷◌, ◌==◌, string_keys, eqb, if◌then◌else◌,
}
use merch_store.Gateway.Domain.{Context, Response}
use merch_store.Gateway.Handlers.{failed, status_unauthorized}

abbrev pub first_char : Char → List String → List String
first_char c [] = String.◌∷◌ c "" ∷ []
first_char c (w ∷ ws) = String.◌∷◌ c w ∷ ws

-- strings.Split(s, " ")
unfoldable pub split_spaces : String → List String
split_spaces String.[] = "" ∷ []
split_spaces (String.◌∷◌ c s) =
    let words = split_spaces s in if eqb (code c) b' ' then "" ∷ words else first_char c words

-- `len(parts) != 2 || parts[0] != "Bearer"` fails, and `parts[1]`.
unfoldable pub bearer_token : List String → Option String
bearer_token (scheme ∷ token ∷ []) = if scheme == "Bearer" then some token else none
bearer_token _ = none

module _ {W : Type 0} where
  pass_token : Option String → (Context → W → Response × W) → Context → W → Response × W
  pass_token none next ctx w = (failed status_unauthorized "invalid auth header", w)
  pass_token (some token) next ctx w = next (record ctx { token = some token }) w

  -- `NewAuthMiddleware`; a missing header reads as "".
  unfoldable pub auth_middleware :
      String → (Context → W → Response × W) → Context → W → Response × W
  unfolding split_spaces bearer_token pass_token
  auth_middleware header next ctx w =
      if header == ""
      then (failed status_unauthorized "missing authorization header", w)
      else pass_token (bearer_token (split_spaces header)) next ctx w
