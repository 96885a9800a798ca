-- ===== src/Gateway/Bearer.antt =====
-- Which headers the middleware of jwt_middleware.go lets through.
use Prim.Native.Char.{Char, code}
use Prim.Native.String.{◌++◌}
use text.Mathlib.TextEquality.{Char-path}
use text.Mathlib.TextLemmas.{nil-append, cons-append, nil≢cons}
use merch_store.Base.{
  true, false, String, none, some, List, [], ◌∷◌, ◌==◌, string_keys, eqb, eqb_iff, eq_iff, ◌≡◌, ◌≢◌,
  refl, ap, sym, ◌∙◌, ◌⊎◌, inl, inr, arith, Bool-cases, Option-cases,
}
use merch_store.Gateway.Domain.{Context, Response}
use merch_store.Gateway.Handlers.{failed, status_unauthorized}
use merch_store.Gateway.Middleware.{first_char, split_spaces, bearer_token, auth_middleware}

abbrev space : Char
space = " "

abbrev pub HasNoSpace : String → Type 0
HasNoSpace String.[] = Unit
HasNoSpace (String.◌∷◌ c s) = (code c ≢ b' ') × HasNoSpace s

-- The words of `split_spaces` have no space, and joined by spaces they are the text.
abbrev HaveNoSpace : List String → Type 0
HaveNoSpace [] = Unit
HaveNoSpace (w ∷ ws) = HasNoSpace w × HaveNoSpace ws

abbrev joined : List String → String
joined [] = ""
joined (w ∷ []) = w
joined (w ∷ v ∷ ws) = w ++ String.◌∷◌ space (joined (v ∷ ws))

first_char-HaveNoSpace :
    (c : Char) (ws : List String) → code c ≢ b' ' → HaveNoSpace ws → HaveNoSpace (first_char c ws)
first_char-HaveNoSpace c [] h v = ((h, tt), tt)
first_char-HaveNoSpace c (w ∷ ws) h v = ((h, v.0), v.1)

split_spaces-HaveNoSpace : (s : String) → HaveNoSpace (split_spaces s)
unfolding split_spaces
split_spaces-HaveNoSpace String.[] = (tt, tt)
split_spaces-HaveNoSpace (String.◌∷◌ c s) = elim (Bool-cases (eqb (code c) b' ')) [
  | inl is ↦ rw is (tt, split_spaces-HaveNoSpace s)
  | inr other ↦ rw other (
      first_char-HaveNoSpace c (split_spaces s) (λ e. ground (arith, eqb_iff (code c) b' '))
        (split_spaces-HaveNoSpace s))
]

joined-first_char :
    (c : Char) (ws : List String) → joined (first_char c ws) ≡ String.◌∷◌ c (joined ws)
joined-first_char c [] = refl
joined-first_char c (w ∷ []) = refl
joined-first_char c (w ∷ v ∷ ws) = cons-append c w _

joined-empty : (ws : List String) → ws ≢ [] → joined ("" ∷ ws) ≡ String.◌∷◌ space (joined ws)
joined-empty [] h = absurd (h refl)
joined-empty (w ∷ ws) h = nil-append _

first_char-ne-nil : (c : Char) (ws : List String) → first_char c ws ≢ []
first_char-ne-nil c [] = λ e. cc
first_char-ne-nil c (w ∷ ws) = λ e. cc

split_spaces-ne-nil : (s : String) → split_spaces s ≢ []
unfolding split_spaces
split_spaces-ne-nil String.[] = λ e. cc
split_spaces-ne-nil (String.◌∷◌ c s) = elim (Bool-cases (eqb (code c) b' ')) [
  | inl is ↦ λ e. ground (arith, e, is)
  | inr other ↦ λ e. first_char-ne-nil c (split_spaces s) (rw other at e)
]

joined-split_spaces : (s : String) → joined (split_spaces s) ≡ s
unfolding split_spaces
joined-split_spaces String.[] = refl
joined-split_spaces (String.◌∷◌ c s) = elim (Bool-cases (eqb (code c) b' ')) [
  | inl is ↦
      rw (is, joined-empty (split_spaces s) (split_spaces-ne-nil s), joined-split_spaces s)
        (ap (λ d. String.◌∷◌ d s) (sym (Char-path c space ((eqb_iff (code c) b' ').0 is))))
  | inr other ↦ rw (other, joined-first_char c (split_spaces s), joined-split_spaces s)
]

no_space : (c : Char) → code c ≢ b' ' → eqb (code c) b' ' ≡ false
no_space c h = ground (arith, eqb_iff (code c) b' ')

split_spaces-word : (w : String) → HasNoSpace w → split_spaces w ≡ w ∷ []
unfolding split_spaces
split_spaces-word String.[] h = refl
split_spaces-word (String.◌∷◌ c w) h = rw (no_space c h.0, split_spaces-word w h.1)

split_spaces-append :
    (w s : String) → HasNoSpace w → split_spaces (w ++ String.◌∷◌ space s) ≡ w ∷ split_spaces s
unfolding split_spaces
split_spaces-append String.[] s h = rw nil-append
split_spaces-append (String.◌∷◌ c w) s h =
    rw (cons-append, no_space c h.0, split_spaces-append w s h.1)

-- The header that the API documents.
abbrev pub bearer_header : String → String
bearer_header token = "Bearer" ++ String.◌∷◌ space token

bearer_token-some :
    (ws : List String) {token : String} → bearer_token ws ≡ some token → ws ≡ "Bearer" ∷ token ∷ []
unfolding bearer_token
bearer_token-some [] h = cc
bearer_token-some (w ∷ []) h = cc
bearer_token-some (w ∷ v ∷ []) h = ground (arith, eq_iff w "Bearer")
bearer_token-some (w ∷ v ∷ x ∷ ws) h = cc

bearer_token_of :
    (header token : String)
    → bearer_token (split_spaces header) ≡ some token
    → (header ≡ bearer_header token) × HasNoSpace token
bearer_token_of header token h =
    let e = bearer_token-some (split_spaces header) h in
    (
      sym (joined-split_spaces header) ∙ ap joined e,
      (rw e at (split_spaces-HaveNoSpace header)).1.0,
    )

bearer_token-bearer_header :
    (token : String)
    → HasNoSpace token
    → bearer_token (split_spaces (bearer_header token)) ≡ some token
unfolding bearer_token
bearer_token-bearer_header token h =
    rw (split_spaces-append "Bearer" token (omega arith), split_spaces-word token h)

not_bearer : (token : String) → "" ≢ bearer_header token
not_bearer token e = nil≢cons (e ∙ cons-append "B" "earer" _)

none-some : {s : String} → none ≡ some s → ⊥
none-some h = cc

module _ {W : Type 0} (next : Context → W → Response × W) (ctx : Context) (w : W) where
  auth_middleware_missing :
      (header : String)
      → (header == "") ≡ true
      → auth_middleware header next ctx w
        ≡ (failed status_unauthorized "missing authorization header", w)
  unfolding auth_middleware
  auth_middleware_missing header e = rw e

  auth_middleware_bad :
      (header : String)
      → (header == "") ≡ false
      → bearer_token (split_spaces header) ≡ none
      → auth_middleware header next ctx w ≡ (failed status_unauthorized "invalid auth header", w)
  unfolding auth_middleware
  auth_middleware_bad header e h = rw (e, h)

  auth_middleware_good :
      (header token : String)
      → (header == "") ≡ false
      → bearer_token (split_spaces header) ≡ some token
      → auth_middleware header next ctx w ≡ next (record ctx { token = some token }) w
  unfolding auth_middleware
  auth_middleware_good header token e h = rw (e, h)

  -- The middleware hands a request on exactly with a header "Bearer", a space and a token that holds
  -- no space, and it hands on that token; any other request it answers with 401, and nothing is
  -- called.
  pub auth_middleware_exact :
      (header : String)
      → ((token : String) × (header ≡ bearer_header token)
          × HasNoSpace token
          × (auth_middleware header next ctx w ≡ next (record ctx { token = some token }) w))
        ⊎ (((token : String) → header ≡ bearer_header token → ¬ HasNoSpace token)
            × ((message : String) × (auth_middleware header next ctx w
                  ≡ (failed status_unauthorized message, w))))
  auth_middleware_exact header = elim (Bool-cases (header == "")) [
    | inl missing ↦ inr (
      (λ token e _. not_bearer token (sym ((eq_iff header "").0 missing) ∙ e)),
      ("missing authorization header", auth_middleware_missing header missing),
    )
    | inr given ↦ elim (Option-cases (bearer_token (split_spaces header))) [
      | inl bad ↦ inr (
        (λ token e h. none-some (
            sym bad
            ∙ ap (λ t. bearer_token (split_spaces t)) e
            ∙ bearer_token-bearer_header token h)),
        ("invalid auth header", auth_middleware_bad header given bad),
      )
      | inr (token, good) ↦
          let (e, h) = bearer_token_of header token good in
          inl (token, e, h, auth_middleware_good header token given good)
    ]
  ]

-- With the header that the API documents.
pub auth_middleware-bearer_header :
    {W : Type 0} (next : Context → W → Response × W) (ctx : Context) (w : W) (token : String)
    → HasNoSpace token
    → auth_middleware (bearer_header token) next ctx w ≡ next (record ctx { token = some token }) w
auth_middleware-bearer_header next ctx w token h = elim (Bool-cases (bearer_header token == "")) [
  | inl missing ↦ absurd (not_bearer token (sym ((eq_iff (bearer_header token) "").0 missing)))
  | inr given ↦
      auth_middleware_good next ctx w (bearer_header token) token given
        (bearer_token-bearer_header token h)
]
