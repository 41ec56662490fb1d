-- ===== src/Fulcio.antt =====
-- src/fulcio: a certificate for a new key, under an OpenID token. fulcio/mod.rs and fulcio/oauth.rs;
-- reqwest, url and serde_json are parameters.
pub mod Request
use sigstore_rs.Prelude.{
  ℕ, String, Bytes, Option, none, some, List, [], ◌∷◌, ok, err, map_err, ◌>>=◌, concat, decimal,
  as_bytes,
}
use sigstore_rs.Errors.{
  Outcome, Foreign, url_parse_error, serde_json_error, no_id_token, io_error,
  sigstore_fulcio_certificates_not_provided_error,
}
use sigstore_rs.Crypto.Libs.{Libs}
use sigstore_rs.Crypto.Scheme
use sigstore_rs.Crypto.Scheme.{SigningScheme}
use sigstore_rs.Crypto.SigningKey.{Source, SigningLibs}
use sigstore_rs.Crypto.SigningKey.Signer
use sigstore_rs.Crypto.SigningKey.Signer.{SigStoreSigner}
use sigstore_rs.Crypto.SigningKey.KeyPair
use sigstore_rs.Crypto.SigningKey.Creating.{create_signer}
use sigstore_rs.Tuf.{Run, then_run, return}
use sigstore_rs.OpenId.{
  OpenIdLibs, AuthUrl, auth_url_async, RedirectListener, redirect_listener_async,
}

abbrev pub fulcio_root : String
fulcio_root = "https://fulcio.sigstore.dev/"

abbrev pub signing_cert_path : String
signing_cert_path = "api/v1/signingCert"

abbrev pub content_type_header_name : String
content_type_header_name = "content-type"

-- src/fulcio/oauth.rs
abbrev pub default_client_id : String
default_client_id = "sigstore"

abbrev pub default_client_secret : String
default_client_secret = ""

abbrev pub default_issuer : String
default_issuer = "https://oauth2.sigstore.dev/auth"

abbrev pub default_redirect_port : ℕ
default_redirect_port = 8080

pub record OauthTokenProvider : Type 0 where
  pub client_id : Option String
  pub client_secret : Option String
  pub issuer : Option String
  pub redirect_port : Option ℕ

unfoldable pub with_client_id : OauthTokenProvider → String → OauthTokenProvider
with_client_id self client_id = record self { client_id = some client_id }

unfoldable pub with_client_secret : OauthTokenProvider → String → OauthTokenProvider
with_client_secret self client_secret = record self { client_secret = some client_secret }

unfoldable pub with_issuer : OauthTokenProvider → String → OauthTokenProvider
with_issuer self issuer = record self { issuer = some issuer }

unfoldable pub with_redirect_port : OauthTokenProvider → ℕ → OauthTokenProvider
with_redirect_port self port = record self { redirect_port = some port }

abbrev pub unwrap_or : {A : Type 0} → Option A → A → A
unwrap_or none default = default
unwrap_or (some a) default = a

unfoldable pub redirect_url : OauthTokenProvider → String
redirect_url self =
    concat ("http://localhost:" ∷ decimal (unwrap_or self.redirect_port default_redirect_port) ∷ [])

module _ {W : Type 0} (O : OpenIdLibs W) where
  -- `if let Ok((_, id_token)) = result …`: any failure is the same error
  email_of : O.Token → Option String → Outcome (O.Token × String)
  email_of id_token (some email) = ok (id_token, email)
  email_of id_token none = err no_id_token

  claimed : O.Token → Foreign O.Claims → Outcome (O.Token × String)
  unfolding email_of
  claimed id_token (ok claims) = email_of id_token (O.email claims)
  claimed id_token (err e) = err no_id_token

  token_of :
      O.Client
      → O.Nonce
      → Option (Outcome (O.Claims × O.Token)) × W
      → Option (Outcome (O.Token × String)) × W
  unfolding claimed
  token_of client nonce (some (ok (_, id_token)), w) =
      (some (claimed id_token (O.claims client id_token nonce)), w)
  token_of client nonce (some (err e), w) = (some (err no_id_token), w)
  token_of client nonce (none, w) = (none, w)

  -- `webbrowser::open(…)?`, and the listener
  listen_for : String → OauthTokenProvider → AuthUrl O → Run W (O.Token × String)
  unfolding token_of
  listen_for response self (url, client, nonce, pkce_verifier) w =
      let (opened, w') = O.open_browser url w in
      then_run (return (map_err io_error opened) w') (λ u s. token_of client nonce (
        redirect_listener_async O response
          (record {
            client_redirect_host =
                concat (
                  "127.0.0.1:" ∷ decimal (unwrap_or self.redirect_port default_redirect_port) ∷ []);
            client = client;
            nonce = nonce;
            pkce_verifier = pkce_verifier;
          })
          s))

  unfoldable pub oauth_get_token : String → OauthTokenProvider → Run W (O.Token × String)
  unfolding listen_for
  oauth_get_token response self w =
      then_run
        (auth_url_async O
          (record {
            oidc_cliend_id = unwrap_or self.client_id default_client_id;
            oidc_client_secret = unwrap_or self.client_secret default_client_secret;
            oidc_issuer = unwrap_or self.issuer default_issuer;
            redirect_url = redirect_url self;
          })
          w)
        (listen_for response self)

  pub data TokenProvider : Type 0 where
    static : O.Token → String → TokenProvider
    oauth : OauthTokenProvider → TokenProvider

  unfoldable pub get_token : String → TokenProvider → Run W (O.Token × String)
  get_token response (static token challenge) = return (ok (token, challenge))
  get_token response (oauth auth) = oauth_get_token response auth

-- the text of the public key and its scheme
pub record PublicKey : Type 0 where
  pub content : String
  pub scheme : SigningScheme

-- the field "algorithm" that `Serialize for PublicKey` writes
unfoldable pub algorithm : SigningScheme → String
algorithm Scheme.ecdsa_p256_sha256_asn1 = "ecdsa"
algorithm Scheme.ecdsa_p384_sha384_asn1 = "ecdsa"
algorithm Scheme.ed25519 = "ed25519"
algorithm _ = "rsa"

pub record Csr : Type 0 where
  pub public_key : Option PublicKey
  pub signed_email_address : Option String

-- the request to Fulcio
pub record Post : Type 0 where
  pub url : String
  pub content_type : String
  pub bearer : String
  pub body : String

pub record FulcioLibs (W : Type 0) : Type 1 where
  -- `serde_json::to_string` of a request: the content and the algorithm of the key, the signature
  pub csr_to_string : Option (String × String) → Option String → Foreign String
  -- `Url::join`
  pub join : String → String → Foreign String
  -- reqwest
  pub Response : Type 0
  pub send : Post → W → Foreign Response × W
  pub text : Response → W → Foreign String × W

key_fields : Option PublicKey → Option (String × String)
key_fields none = none
key_fields (some key) = some (key.content, algorithm key.scheme)

-- `TryFrom<Csr> for Body`
unfoldable pub csr_body : {W : Type 0} → FulcioLibs W → Csr → Outcome String
unfolding key_fields
csr_body F csr =
    map_err serde_json_error (F.csr_to_string (key_fields csr.public_key) csr.signed_email_address)

module _ {L : Libs} (S : SigningLibs L) where
  -- the signer and the request of `request_cert`, up to its serialisation
  unfoldable pub new_csr :
      Source → Source → SigningScheme → String → Outcome (SigStoreSigner S × Csr)
  new_csr source rng signing_scheme challenge = do
    signer ← create_signer S source signing_scheme
    signature ← Signer.sign signer rng (as_bytes challenge)
    key_pair ← KeyPair.to_sigstore_keypair S signer
    public_key ← KeyPair.public_key_to_der S key_pair
    ok (
      signer,
      record {
        public_key =
            some (record { content = L.base64_encode public_key; scheme = signing_scheme });
        signed_email_address = some (L.base64_encode signature);
      },
    )

  -- the two steps of the network
  read_cert :
      {W : Type 0}
      → FulcioLibs W
      → SigStoreSigner S
      → Foreign String × W
      → Option (Outcome (SigStoreSigner S × String)) × W
  read_cert F signer (ok cert, w) = (some (ok (signer, cert)), w)
  read_cert F signer (err e, w) = (some (err sigstore_fulcio_certificates_not_provided_error), w)

  sent :
      {W : Type 0} (F : FulcioLibs W)
      → SigStoreSigner S
      → Foreign F.Response × W
      → Option (Outcome (SigStoreSigner S × String)) × W
  unfolding read_cert
  sent F signer (ok response, w) = read_cert F signer (F.text response w)
  sent F signer (err e, w) = (some (err sigstore_fulcio_certificates_not_provided_error), w)

  -- the request, made before anything is sent
  new_post :
      {W : Type 0}
      → FulcioLibs W
      → String
      → String
      → SigStoreSigner S × Csr
      → Outcome (SigStoreSigner S × Post)
  new_post F root_url token (signer, csr) = do
    body ← csr_body F csr
    url ← map_err url_parse_error (F.join root_url signing_cert_path)
    ok (
      signer,
      record { url = url; content_type = "application/json"; bearer = token; body = body },
    )

  post_to :
      {W : Type 0} → FulcioLibs W → SigStoreSigner S × Post → Run W (SigStoreSigner S × String)
  unfolding sent
  post_to F (signer, request) w = sent F signer (F.send request w)

  -- `FulcioClient::request_cert`, of a client by its fields
  unfoldable pub request_cert :
      {W : Type 0} (O : OpenIdLibs W)
      → FulcioLibs W
      → String
      → String
      → TokenProvider O
      → Source
      → Source
      → SigningScheme
      → Run W (SigStoreSigner S × String)
  unfolding new_post post_to
  request_cert O F response root_url token_provider source rng signing_scheme w =
      then_run (get_token O response token_provider w) (λ token s.
        then_run
          (return
            (new_csr source rng signing_scheme token.1
              >>= new_post F root_url (O.token_to_string token.0))
            s)
          (post_to F))
