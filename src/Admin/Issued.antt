-- ===== src/Admin/Issued.antt =====
-- Keys in the store and the authentication of requests together: an issued key can be used.
use pdag.Common.{
  ℕ, ◌≡◌, ◌≢◌, inl, sym, ap, ◌∙◌, true, false, Text, codes, ◌++◌, ◌==◌, List, [], ◌∷◌, Option, some,
  lookup, length, contains_byte, ==_refl, ||-eq-false,
}
use pdag.Store.{KeyRecord, expires_before}
use pdag.Header.{get}
use pdag.ClientIp.{Net, Request}
use pdag.Authn.{Crypto, Secrets, Found, found, identity, next, cut, serve_http, sha256_size}
use pdag.Authn.Verify.{Verified}
use pdag.Authn.Admission.{serve_http_iff}
use pdag.Admin.Keygen.{Generator, hash}

cut-append :
    (sep : ℕ) (a b : Text) → contains_byte sep a ≡ false → cut sep (a ++ sep ∷ b) ≡ some (a, b)
unfolding cut contains_byte
cut-append sep [] b h = rw (==_refl sep)
cut-append sep (c ∷ a) b h =
    let parts = ||-eq-false (c == sep) (contains_byte sep a) h in
    rw (cut-append sep a b parts.1, parts.0)

-- A text that begins with a byte is not empty.
starts-ne-nil : (s t : Text) (c : ℕ) → s ≡ c ∷ t → s ≢ []
starts-ne-nil s t c e = λ z. cc

module _ (crypto : Crypto) (encode_to_string : Text → Text) (keygen : Generator) where
  -- A record of a new key under its ID, in what GetByID finds.
  pub record Issued (expiry : Option ℕ) (find : Text → Found) (id secret principal : Text)
      (roles : List Text) : Type 0 where
    pub rec : KeyRecord
    pub known : find id ≡ found rec
    pub key_hash : rec.key_hash ≡ hash crypto encode_to_string keygen secret
    pub hmac_key_id : rec.hmac_key_id ≡ keygen.hmac_key_id
    pub who : identity rec ≡ record { principal = principal; key_id = id; roles = roles }
    pub enabled : rec.enabled ≡ true
    pub no_cidrs : rec.allowed_cidrs ≡ []
    pub expires_at : rec.expires_at ≡ expiry
    pub id_digits : Text
    pub id_form : id ≡ codes "k_" ++ encode_to_string id_digits
    pub secret_digits : Text
    pub secret_form : secret ≡ codes "pdg_" ++ encode_to_string secret_digits

  -- What hex and HMAC with SHA-256 promise: digits are read back and are no colons; a digest has 32 bytes.
  pub record Promises : Type 0 where
    pub decode-encode : (x : Text) → crypto.decode_string (encode_to_string x) ≡ some x
    pub no_colon : (x : Text) → contains_byte b':' (encode_to_string x) ≡ false
    pub size : (k m : Text) → length (crypto.hmac k m) ≡ sha256_size

  id-no_colon :
      (p : Promises) (id digits : Text)
      → id ≡ codes "k_" ++ encode_to_string digits
      → contains_byte b':' id ≡ false
  unfolding contains_byte
  id-no_colon p id digits e = rw e (rw (p.no_colon digits))

  Issued-Verified :
      (p : Promises) (secrets : Secrets) (expiry : Option ℕ) (find : Text → Found)
      (id secret principal : Text) (roles : List Text)
      → lookup keygen.hmac_key_id secrets ≡ some keygen.hmac_secret
      → keygen.hmac_secret ≢ []
      → (i : Issued expiry find id secret principal roles) → Verified crypto secrets secret i.rec
  Issued-Verified p secrets expiry find id secret principal roles e ne i = record {
    hmac_secret = keygen.hmac_secret;
    configured = ap (λ k. lookup k secrets) i.hmac_key_id ∙ e;
    not_empty = ne;
    hash =
        ap crypto.decode_string i.key_hash
        ∙ p.decode-encode (crypto.hmac keygen.hmac_secret secret);
    size = p.size keygen.hmac_secret secret;
  }

  -- If the generator's secret is not empty and is the one that the gateway has under the generator's ID, a
  -- request whose X-API-Key is the ID and the secret of an issued key, with a colon between, is passed on.
  pub Issued-serve_http :
      (p : Promises) (secrets : Secrets) (expiry : Option ℕ) (find : Text → Found)
      (id secret principal : Text) (roles : List Text) (net : Net) (trusted : List net.IpNet)
      (r : Request) (later : ℕ)
      → lookup keygen.hmac_key_id secrets ≡ some keygen.hmac_secret
      → keygen.hmac_secret ≢ []
      → Issued expiry find id secret principal roles
      → get r.headers (codes "X-API-Key") ≡ id ++ b':' ∷ secret
      → expires_before later expiry ≡ false
      → (serve_http crypto net secrets find trusted r later).reply
        ≡ next (record { principal = principal; key_id = id; roles = roles })
  Issued-serve_http p secrets expiry find id secret principal roles net trusted r later e ne i
        header fresh =
      (serve_http_iff crypto net trusted r later secrets find _).1 (record {
        key_id = id;
        secret = secret;
        header =
            ap (cut b':') header
            ∙ cut-append b':' id secret (id-no_colon p id i.id_digits i.id_form);
        named = starts-ne-nil id _ _ i.id_form;
        given = starts-ne-nil secret _ _ i.secret_form;
        rec = i.rec;
        known = i.known;
        verified = Issued-Verified p secrets _ _ _ _ _ _ e ne i;
        passes =
            (i.enabled, ap (expires_before later) i.expires_at ∙ fresh, sym i.who, inl i.no_cidrs);
      })
