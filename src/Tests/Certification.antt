-- ===== src/Tests/Certification.antt =====
-- Examples: the code that the redirect listener takes, and the request for a certificate.
use sigstore_rs.Prelude.{
  String, ◌≡◌, refl, some, List, [], ◌∷◌, ok, err, ◌==◌, concat, if◌then◌else◌,
}
use sigstore_rs.Errors.{Foreign}
use sigstore_rs.Crypto.Scheme
use sigstore_rs.Crypto.SigningKey.Ed25519
use sigstore_rs.Crypto.SigningKey.Signer
use sigstore_rs.Crypto.SigningKey.KeyPair
use sigstore_rs.OpenId.{OpenIdLibs, listen, read_code, split_whitespace, second}
use sigstore_rs.OpenId.Listening.{IsRedirected, listen-IsRedirected}
use sigstore_rs.Fulcio.{Csr}
use sigstore_rs.Tests.Toy.{encode}
use sigstore_rs.Tests.Signing.{signing}

-- a connection is the line that it sends, and an address is its text
abbrev flow : OpenIdLibs String
flow = record {
  Issuer = String;
  issuer_url = ok;
  Metadata = String;
  discover = λ i w. (ok i, w);
  discover_async = λ i w. (ok i, w);
  PkceChallenge = Unit {0};
  PkceVerifier = Unit {0};
  new_random_sha256 = λ w. ((tt, tt), w);
  RedirectUrl = String;
  redirect_url = ok;
  Client = String;
  client = λ m i s u. i;
  Nonce = Unit {0};
  Csrf = Unit {0};
  authorize_url = λ c s p w. ((c, tt, tt), w);
  TokenResponse = String;
  exchange = λ c code p w. (ok code, w);
  exchange_async = λ c code p w. (ok code, w);
  Token = String;
  Claims = String;
  id_token = some;
  claims = λ c t n. ok t;
  email = some;
  token_to_string = λ t. t;
  Url = String;
  parse_url = ok;
  query_pairs = λ u. if u == "http://localhost/?code=x" then ("code", "x") ∷ [] else [];
  Connection = String;
  bind = λ host w. (ok (ok w ∷ []), w);
  read_line = ok;
  write_all = λ c s. ok tt;
  open_browser = λ u w. (ok tt, w);
}

abbrev streams : List (Foreign String)
streams = err "reset" ∷ ok "GET /?code=x HTTP/1.1" ∷ ok "GET /?code=y HTTP/1.1" ∷ []

listened : listen flow "200 OK" streams ≡ ok "x"
unfolding listen read_code split_whitespace second concat
listened = refl

listen-IsRedirected_example : IsRedirected flow streams "x"
listen-IsRedirected_example = listen-IsRedirected flow "200 OK" streams "x" listened

abbrev signer : Signer.SigStoreSigner signing
signer =
    Signer.ed25519 (record { key_pair = record { signing_key = 0 ∷ []; verifying_key = 0 ∷ [] } })

abbrev csr : Csr
csr = record {
  public_key = some (record { content = encode (6 ∷ 0 ∷ []); scheme = Scheme.ed25519 });
  signed_email_address = some (encode (0 ∷ []));
}
