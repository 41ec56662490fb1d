-- ===== src/OpenId.antt =====
-- src/oauth/openidflow.rs: the OpenID Connect flow, from the address that the user opens to the token.
-- The crates openidconnect, url and std::net are parameters, over a state `W` of the world, which
-- holds the network and the random numbers. A call that panics is `none`.
pub mod Listening
use sigstore_rs.Prelude.{
  ℕ, zero, suc, ◌-◌, String, code, Bool, ◌||◌, ◌&&◌, ltb, eqb, not, ◌==◌, Option, none, some, List,
  [], ◌∷◌, ok, err, map_err, ok_or, ◌>>=◌, ◌>>◌, find, concat, if◌then◌else◌,
}
use sigstore_rs.Errors.{
  Outcome, Foreign, url_parse_error, redirect_url_request_line_error, code_pair_error,
  claims_verification_error, claims_access_point_error, no_id_token, io_error,
}
use sigstore_rs.Tuf.{Run, then_run, return}

pub record OpenIdLibs (W : Type 0) : Type 1 where
  -- openidconnect
  pub Issuer : Type 0
  pub issuer_url : String → Foreign Issuer
  pub Metadata : Type 0
  pub discover : Issuer → W → Foreign Metadata × W
  pub discover_async : Issuer → W → Foreign Metadata × W
  pub PkceChallenge : Type 0
  pub PkceVerifier : Type 0
  pub new_random_sha256 : W → (PkceChallenge × PkceVerifier) × W
  pub RedirectUrl : Type 0
  pub redirect_url : String → Foreign RedirectUrl
  pub Client : Type 0
  -- `from_provider_metadata(…)` by the id and the secret, with `set_redirect_uri`
  pub client : Metadata → String → String → RedirectUrl → Client
  pub Nonce : Type 0
  pub Csrf : Type 0
  -- `authorize_url(…)` with the scope and the challenge
  pub authorize_url : Client → String → PkceChallenge → W → (String × Csrf × Nonce) × W
  pub TokenResponse : Type 0
  pub exchange : Client → String → PkceVerifier → W → Foreign TokenResponse × W
  pub exchange_async : Client → String → PkceVerifier → W → Foreign TokenResponse × W
  pub Token : Type 0
  pub Claims : Type 0
  pub id_token : TokenResponse → Option Token
  -- the claims of a token under the verifier of the client and a nonce
  pub claims : Client → Token → Nonce → Foreign Claims
  pub email : Claims → Option String
  pub token_to_string : Token → String
  -- url
  pub Url : Type 0
  pub parse_url : String → Foreign Url
  pub query_pairs : Url → List (String × String)
  -- std::net: the connections that a bound listener accepts, in their order
  pub Connection : Type 0
  pub bind : String → W → Foreign (List (Foreign Connection)) × W
  pub read_line : Connection → Foreign String
  pub write_all : Connection → String → Foreign (Unit {0})
  -- webbrowser
  pub open_browser : String → W → Foreign (Unit {0}) × W

pub record OpenIdAuthorize : Type 0 where
  pub oidc_cliend_id : String
  pub oidc_client_secret : String
  pub oidc_issuer : String
  pub redirect_url : String

-- `char::is_whitespace`
is_whitespace : ℕ → Bool
is_whitespace c =
    (ltb 8 c && ltb c 14)
    || (eqb c 32
        || (eqb c 133
            || (eqb c 160
                || (eqb c 5760
                    || ((ltb 8191 c && ltb c 8203)
                        || (eqb c 8232
                            || (eqb c 8233 || (eqb c 8239 || (eqb c 8287 || eqb c 12288)))))))))

-- a word that ended, and those after it
push_word : String × List String → List String
push_word (word, words) = if word == "" then words else word ∷ words

-- the word that a text starts in, and the words after it
split_words : String → String × List String
unfolding is_whitespace push_word
split_words String.[] = ("", [])
split_words (String.◌∷◌ c s) =
    let rest = split_words s in
    if is_whitespace (code c) then ("", push_word rest) else (String.◌∷◌ c rest.0, rest.1)

-- `str::split_whitespace`
unfoldable pub split_whitespace : String → List String
unfolding push_word split_words
split_whitespace s = push_word (split_words s)

-- `.nth(1)`
unfoldable pub second : List String → Option String
second (first ∷ next ∷ rest) = some next
second _ = none

-- `expect` on a value of another crate
abbrev pub expecting : {W A B : Type 0} → Foreign A → (A → Run W B) → Run W B
expecting (ok a) f s = f a s
expecting (err e) f s = (none, s)

module _ {W : Type 0} (O : OpenIdLibs W) where
  -- what `auth_url` returns
  abbrev pub AuthUrl : Type 0
  AuthUrl = String × O.Client × O.Nonce × O.PkceVerifier

  authorize : O.Client → (O.PkceChallenge × O.PkceVerifier) × W → Option (Outcome AuthUrl) × W
  authorize client ((pkce_challenge, pkce_verifier), w) =
      let ((authorize_url, csrf, nonce), w') = O.authorize_url client "email" pkce_challenge w in
      (some (ok (authorize_url, client, nonce, pkce_verifier)), w')

  unfoldable pub auth_url_internal : OpenIdAuthorize → O.Metadata → Run W AuthUrl
  unfolding authorize
  auth_url_internal self provider_metadata w =
      let (pkce, w') = O.new_random_sha256 w in
      expecting (O.redirect_url self.redirect_url)
        (λ uri s.
          authorize (O.client provider_metadata self.oidc_cliend_id self.oidc_client_secret uri)
            (pkce, s))
        w'

  with_metadata : OpenIdAuthorize → Foreign O.Metadata × W → Option (Outcome AuthUrl) × W
  with_metadata self (ok provider_metadata, w) = auth_url_internal self provider_metadata w
  with_metadata self (err e, w) = (some (err claims_verification_error), w)

  unfoldable pub auth_url : OpenIdAuthorize → Run W AuthUrl
  unfolding with_metadata
  auth_url self =
      expecting (O.issuer_url self.oidc_issuer)
        (λ issuer w. with_metadata self (O.discover issuer w))

  unfoldable pub auth_url_async : OpenIdAuthorize → Run W AuthUrl
  unfolding with_metadata
  auth_url_async self =
      expecting (O.issuer_url self.oidc_issuer)
        (λ issuer w. with_metadata self (O.discover_async issuer w))

  pub record RedirectListener : Type 0 where
    pub client_redirect_host : String
    pub client : O.Client
    pub nonce : O.Nonce
    pub pkce_verifier : O.PkceVerifier

  -- what the loop does with a stream; the response is an argument
  unfoldable pub read_code : String → O.Connection → Outcome String
  read_code response stream = do
    request_line ← map_err io_error (O.read_line stream)
    client_redirect_host ←
        ok_or redirect_url_request_line_error (second (split_whitespace request_line))
    url ←
        map_err url_parse_error
          (O.parse_url (concat ("http://localhost" ∷ client_redirect_host ∷ [])))
    code_pair ← ok_or code_pair_error (find (λ pair. pair.0 == "code") (O.query_pairs url))
    map_err io_error (O.write_all stream response)
    ok code_pair.1

  -- the loop over the incoming streams
  unfoldable pub listen : String → List (Foreign O.Connection) → Outcome String
  listen response [] = err code_pair_error
  listen response (ok stream ∷ streams) = read_code response stream
  listen response (err e ∷ streams) = listen response streams

  listen_bound : String → Foreign (List (Foreign O.Connection)) × W → Option (Outcome String) × W
  listen_bound response (ok streams, w) = (some (listen response streams), w)
  listen_bound response (err e, w) = (some (err (io_error e)), w)

  unfoldable pub redirect_listener_internal : String → RedirectListener → Run W String
  unfolding listen_bound
  redirect_listener_internal response self w =
      listen_bound response (O.bind self.client_redirect_host w)

  verified_claims : O.Token → Foreign O.Claims → Outcome (O.Claims × O.Token)
  verified_claims token (ok claims) = ok (claims, token)
  verified_claims token (err e) = err claims_verification_error

  unfoldable pub extract_token_and_claims :
      O.TokenResponse → O.Client → O.Nonce → Outcome (O.Claims × O.Token)
  unfolding verified_claims
  extract_token_and_claims token_response client nonce = do
    id_token ← ok_or no_id_token (O.id_token token_response)
    verified_claims id_token (O.claims client id_token nonce)

  exchanged :
      RedirectListener → Foreign O.TokenResponse × W → Option (Outcome (O.Claims × O.Token)) × W
  exchanged self (ok token_response, w) =
      (some (extract_token_and_claims token_response self.client self.nonce), w)
  exchanged self (err e, w) = (some (err claims_access_point_error), w)

  unfoldable pub redirect_listener : String → RedirectListener → Run W (O.Claims × O.Token)
  unfolding exchanged
  redirect_listener response self w =
      then_run (redirect_listener_internal response self w)
        (λ code s. exchanged self (O.exchange self.client code self.pkce_verifier s))

  unfoldable pub redirect_listener_async : String → RedirectListener → Run W (O.Claims × O.Token)
  unfolding exchanged
  redirect_listener_async response self w =
      then_run (redirect_listener_internal response self w)
        (λ code s. exchanged self (O.exchange_async self.client code self.pkce_verifier s))
