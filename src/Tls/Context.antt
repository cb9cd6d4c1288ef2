-- ===== src/Tls/Context.antt =====
-- tls_config.cpp: the SSL context of the servers with its key and its certificate, and the callback
-- for passwords. The calls of OpenSSL are the changes of its objects that OpenSSL documents; whether
-- it can give a context, and the key that it generates, are arguments.
use anonym_sharing.Base.{
  ℕ, suc, ◌-◌, ◌*◌, ◌≤◌, min, ◌≡◌, ◌∙◌, refl, arith, String, Bool, true, false, List, [], ◌∷◌, ◌++◌,
  Option, none, some, length, if◌then◌else◌,
}
use anonym_sharing.Std.Order.{Bytes}
use anonym_sharing.Std.CString.{
  strncpy, terminate_at, strlen, has_nul, strlen-terminate_at, length-strncpy, length-terminate_at,
}

-- strncpy(buf, password, size), the terminator, and strlen(buf): the buffer and the result.
unfoldable pub password_cb : Bytes → ℕ → Bytes → Bytes × ℕ
password_cb buf size password =
    let filled = terminate_at (size - 1) (strncpy size password buf) in (filled, strlen filled)

-- X509, with the times in seconds from now.
pub record Certificate (K : Type 0) : Type 0 where
  pub version : ℕ
  pub serial_number : ℕ
  pub not_before : ℕ
  pub not_after : ℕ
  pub pubkey : Option K
  pub subject_name : List (String × String)
  pub issuer_name : List (String × String)
  pub signed_by : Option K

-- SSL_CTX
pub record SslContext (K : Type 0) : Type 0 where
  pub certificate : Option (Certificate K)
  pub private_key : Option K
  pub passwd_cb : Option (Bytes → ℕ → Bytes → Bytes × ℕ)
  pub verify_peer : Bool
  pub ecdh_auto : Bool

-- A certificate that names itself as its issuer, is signed by its own key and is valid for a year.
pub record IsSelfSigned {K : Type 0} (x : Certificate K) (key : K) : Type 0 where
  pub own_key : x.pubkey ≡ some key
  pub own_signature : x.signed_by ≡ some key
  pub own_issuer : x.issuer_name ≡ x.subject_name
  pub a_year : x.not_after - x.not_before ≡ 31536000

module _ {K : Type 0} where
  -- X509_new and SSL_CTX_new
  abbrev pub x509_new : Certificate K
  x509_new = record {
    version = 0;
    serial_number = 0;
    not_before = 0;
    not_after = 0;
    pubkey = none;
    subject_name = [];
    issuer_name = [];
    signed_by = none;
  }

  abbrev pub ssl_ctx_new : SslContext K
  ssl_ctx_new = record {
    certificate = none;
    private_key = none;
    passwd_cb = none;
    verify_peer = false;
    ecdh_auto = false;
  }

  -- `keygen` is EVP_PKEY_keygen for RSA, by the number of bits.
  unfoldable pub generate_private_key : (ℕ → K) → K
  generate_private_key keygen = keygen 2048

  -- X509_NAME_add_entry_by_txt
  abbrev pub add_entry : String → String → Certificate K → Certificate K
  add_entry field text x = record x { subject_name = x.subject_name ++ (field, text) ∷ [] }

  unfoldable pub generate_certificate : K → Certificate K
  generate_certificate pkey =
      let x = record x509_new {
        version = 2;
        serial_number = 0;
        not_before = 0;
        not_after = 60 * 60 * 24 * 365;
        pubkey = some pkey;
      } in
      let named = add_entry "CN" "A-SKY" (add_entry "C" "CH" x) in
      record named { issuer_name = named.subject_name; signed_by = some pkey }

  -- `available` says whether SSL_CTX_new gives a context; else the process exits.
  unfoldable pub create_context : Bool → Option (SslContext K)
  create_context available = if available then some ssl_ctx_new else none

  unfoldable pub configure_context : (ℕ → K) → SslContext K → SslContext K
  unfolding generate_private_key generate_certificate password_cb
  configure_context keygen ctx =
      let pkey = generate_private_key keygen in
      record ctx {
        certificate = some (generate_certificate pkey);
        passwd_cb = some password_cb;
        private_key = some pkey;
        verify_peer = false;
      }

  -- IncomeSSLConnection::init, as far as the context is concerned.
  unfoldable pub init_context : Bool → (ℕ → K) → Option (SslContext K)
  unfolding create_context configure_context
  init_context available keygen = elim (create_context available) [
    | none ↦ none
    | some ctx ↦ some (configure_context keygen (record ctx { ecdh_auto = true }))
  ]

  -- Where OpenSSL gives a context, the server has a self-signed certificate of a year for the very
  -- key that it keeps, of 2048 bits, and asks no client for a certificate.
  pub init_context-IsSelfSigned :
      (keygen : ℕ → K)
      → (c : SslContext K) × (x : Certificate K) × (init_context true keygen ≡ some c)
        × (c.certificate ≡ some x)
        × (c.private_key ≡ some (keygen 2048))
        × IsSelfSigned x (keygen 2048)
        × (c.verify_peer ≡ false)
  unfolding init_context
  init_context-IsSelfSigned keygen = (
    configure_context keygen (record ssl_ctx_new { ecdh_auto = true }),
    generate_certificate (keygen 2048),
    refl,
    refl,
    refl,
    record { own_key = refl; own_signature = refl; own_issuer = refl; a_year = refl },
    refl,
  )

-- The callback leaves a C string in the buffer and returns its length: that of the password, cut to
-- the size less the terminator. The buffer keeps its length.
pub password_cb_bounds :
    (n : ℕ) (buf password : Bytes)
    → suc n ≤ length buf
    → has_nul password ≡ false
    → let r = password_cb buf (suc n) password in
      (r.1 ≡ min (length password) n) × (r.1 ≡ strlen r.0) × (length r.0 ≡ length buf)
unfolding password_cb
password_cb_bounds n buf password h e =
    let p : suc n - 1 ≡ n = omega arith in
    rw p (
      strlen-terminate_at n password buf e,
      refl,
      length-terminate_at n (strncpy (suc n) password buf) (omega (arith, copied)) ∙ copied,
    )
  where
    copied : length (strncpy (suc n) password buf) ≡ length buf
    copied = length-strncpy (suc n) password buf h
