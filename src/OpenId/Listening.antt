-- ===== src/OpenId/Listening.antt =====
-- src/oauth/openidflow.rs: which code the redirect listener takes.
use sigstore_rs.Prelude.{
  String, ◌==◌, ◌≡◌, refl, ap, ◌∙◌, All, >>-eq-ok, List, [], ◌∷◌, ◌++◌, ok, err, map_err, ok_or,
  some, find, concat, >>=-eq-ok, map_err-eq-ok, ok_or-eq-ok, ok-injective,
}
use sigstore_rs.Errors.{Foreign, io_error}
use sigstore_rs.OpenId.{OpenIdLibs, split_whitespace, second, read_code, listen}

-- no stream before it was accepted, and it asks for an address whose first parameter `code` this is
pub record IsRedirected {W : Type 0} (O : OpenIdLibs W) (streams : List (Foreign O.Connection))
    (code : String) : Type 0 where
  pub before : List (Foreign O.Connection)
  pub stream : O.Connection
  pub after : List (Foreign O.Connection)
  pub order : streams ≡ before ++ ok stream ∷ after
  pub failed : All (λ s. (e : String) × (s ≡ err e)) before
  pub line : String
  pub was_read : O.read_line stream ≡ ok line
  pub host : String
  pub second_word : second (split_whitespace line) ≡ some host
  pub url : O.Url
  pub parsed : O.parse_url (concat ("http://localhost" ∷ host ∷ [])) ≡ ok url
  pub key : String
  pub found : find (λ pair. pair.0 == "code") (O.query_pairs url) ≡ some (key, code)

module _ {W : Type 0} (O : OpenIdLibs W) (response : String) where
  first_stream :
      (stream : O.Connection) (streams : List (Foreign O.Connection)) (code : String)
      → read_code O response stream ≡ ok code
      → IsRedirected O (ok stream ∷ streams) code
  unfolding read_code
  first_stream stream streams code h =
      let (line, a, h₁) = >>=-eq-ok (map_err io_error (O.read_line stream)) _ h in
      let (host, b, h₂) = >>=-eq-ok (ok_or _ (second (split_whitespace line))) _ h₁ in
      let (url, c, h₃) =
        >>=-eq-ok (map_err _ (O.parse_url (concat ("http://localhost" ∷ host ∷ [])))) _ h₂ in
      let (pair, d, h₄) =
        >>=-eq-ok (ok_or _ (find (λ pair. pair.0 == "code") (O.query_pairs url))) _ h₃ in
      let (w, h₅) = >>-eq-ok (map_err io_error (O.write_all stream response)) _ h₄ in
      record {
        before = [];
        stream = stream;
        after = streams;
        order = refl;
        failed = tt;
        line = line;
        was_read = map_err-eq-ok _ _ a;
        host = host;
        second_word = ok_or-eq-ok _ _ b;
        url = url;
        parsed = map_err-eq-ok _ _ c;
        key = pair.0;
        found = ok_or-eq-ok _ _ d ∙ ap (λ v. some (pair.0, v)) (ok-injective h₅);
      }

  later_stream :
      (e : String) (streams : List (Foreign O.Connection)) (code : String)
      → IsRedirected O streams code
      → IsRedirected O (err e ∷ streams) code
  later_stream e streams code r = record {
    before = err e ∷ r.before;
    stream = r.stream;
    after = r.after;
    order = ap (λ s. err e ∷ s) r.order;
    failed = ((e, refl), r.failed);
    line = r.line;
    was_read = r.was_read;
    host = r.host;
    second_word = r.second_word;
    url = r.url;
    parsed = r.parsed;
    key = r.key;
    found = r.found;
  }

  -- The code that the listener takes is the one of the first connection that is accepted: the first
  -- parameter `code` of the address that its first line asks for.
  pub listen-IsRedirected :
      (streams : List (Foreign O.Connection)) (code : String)
      → listen O response streams ≡ ok code
      → IsRedirected O streams code
  unfolding listen
  listen-IsRedirected [] code h = cc
  listen-IsRedirected (ok stream ∷ streams) code h = first_stream stream streams code h
  listen-IsRedirected (err e ∷ streams) code h =
      later_stream e streams code (listen-IsRedirected streams code h)
