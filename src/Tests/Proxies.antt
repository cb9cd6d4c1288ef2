-- ===== src/Tests/Proxies.antt =====
-- The theorems on the writer proxy: a builder that is a status, a message and a body, an identity
-- server that grants a token, and MinIO that gives credentials for it.
use anonym_sharing.Base.{
  ℕ, zero, suc, ◌≡◌, ◌≢◌, ◌↔◌, refl, arith, String, ◌<>◌, true, false, [], ◌∷◌, ◌++◌, Option, none,
  some, ℤ, pos, negsuc, Result, ok, raise, parse_error, if◌then◌else◌, str_eq, ◌==◌, inl,
}
use anonym_sharing.Std.Order.{Bytes}
use anonym_sharing.Platform.{JsonLib, KvString, Request}
use anonym_sharing.Tls.{initial}
use anonym_sharing.Proxy.{Arguments, WriterProxy, returned, init}
use anonym_sharing.Proxy.Libs.{
  UrlLib, HttpLib, HttpLaws, TextLib, ResponseDecoder, Network, Peer, Minio, Upload, no_such_bucket,
  other_error, foreign,
}
use anonym_sharing.Proxy.Token.{generate_token}
use anonym_sharing.Proxy.Uploads.{Answered}
use anonym_sharing.Proxy.Server.{treat_request}
use anonym_sharing.Proxy.Answers.{treat_request_answers}
use anonym_sharing.Proxy.Exchange.{Delivers}
use anonym_sharing.Proxy.Credentials.{token_unreachable, token_granted}
use anonym_sharing.Proxy.Replies.{Gives}
use anonym_sharing.Proxy.Start.{IsUsable, IsReady, init-IsReady}

abbrev Reply3 : Type 0
Reply3 = ℕ × String × String

abbrev pub toy_http : HttpLib Reply3 Reply3
toy_http = record {
  code = λ n b. (n, b.1, b.2);
  message = λ m b. (b.0, m, b.2);
  protocol = λ p b. b;
  headers = λ h b. b;
  append_body = λ t b. (b.0, b.1, b.2 <> t);
  build = λ b. b;
  of_response = λ r. r;
  is_successful = λ r. r.0 == 200;
  body = λ r. r.2;
  set_header = λ k v h. (k, v) ∷ h;
}

pub toy_laws : HttpLaws Reply3 Reply3 toy_http
toy_laws = record {
  status = λ r. r.0;
  status_of = λ b. b.0;
  body_of = λ b. b.2;
  status-build = λ b. refl;
  body-build = λ b. refl;
  status-code = λ n b. refl;
  status-message = λ m b. refl;
  status-append_body = λ t b. refl;
  status-of_response = λ r. refl;
  body-code = λ n b. refl;
  body-message = λ m b. refl;
  body-append_body = λ t b. refl;
  body-protocol = λ p b. refl;
  body-headers = λ h b. refl;
  body-of_response = λ r. refl;
}

pub new_builder : toy_laws.body_of (0, "", "") ≡ ""
unfolding toy_laws
new_builder = refl

-- A url is its port.
abbrev pub toy_urls : UrlLib ℤ
toy_urls = record {
  no_url = negsuc 0;
  parse_url = λ s. pos 443;
  host = λ u. "host";
  port = λ u. u;
  query = λ u ps. u;
}

abbrev pub toy_texts : TextLib ℤ
toy_texts = record {
  split = λ s sep. s ∷ [];
  base64_encode = λ s. s;
  wire = λ r. if str_eq r.body "" then 2 ∷ [] else 1 ∷ [];
}

-- A response is two bytes: the second one says whether it is a success.
abbrev responses : Bytes → Option Reply3
responses [] = none
responses (a ∷ []) = none
responses (a ∷ b ∷ rest) =
    some (if b == 1 then (200, "OK", "credentials") else (403, "Forbidden", "denied"))

abbrev pub toy_decoder : ResponseDecoder Bytes Reply3
toy_decoder = record { new_decoder = []; add_chunk = λ d c. d ++ c; get_response = responses }

abbrev peer : ℕ → Peer
peer b = record { connects = true; sent = pos 9; receives = some (1 ∷ []) ∷ some (b ∷ []) ∷ [] }

-- Both servers give a success, or a refusal.
abbrev pub granting : Network
granting = record { exchange = λ h p b. peer 1 }

abbrev pub refusing : Network
refusing = record { exchange = λ h p b. peer 0 }

abbrev parse_any : String → Result KvString
parse_any s = if str_eq s "" then raise (parse_error "empty") else ok []

abbrev pub grant_json : JsonLib KvString
grant_json = record {
  parse = parse_any;
  json_str = λ j k. ok "token";
  json_int = λ j k. ok (pos 300);
  dump = λ m. ok "";
}

-- A proxy with an identity server, and one without.
abbrev pub proxy : WriterProxy Reply3 ℤ
proxy = record {
  tuser_ = "user";
  tpass_ = "pass";
  isendpoint_ = pos 443;
  minioendpoint_ = pos 9000;
  amendpoint_ = negsuc 0;
  client = none;
  header_builder = [];
  response_builder = (0, "", "");
  uploads = 0;
  makes = 0;
  log = [];
}

abbrev bare : WriterProxy Reply3 ℤ
bare = record proxy { isendpoint_ = negsuc 0 }

success : Delivers toy_decoder (peer 1) (200, "OK", "credentials")
success = record {
  accepts = refl;
  takes = refl;
  first = (1 ∷ []) ∷ [];
  last = 1 ∷ [];
  later = [];
  arrives = refl;
  pending = (refl, tt);
  complete = refl;
}

pub refusal : Delivers toy_decoder (peer 0) (403, "Forbidden", "denied")
refusal = record {
  accepts = refl;
  takes = refl;
  first = (1 ∷ []) ∷ [];
  last = 0 ∷ [];
  later = [];
  arrives = refl;
  pending = (refl, tt);
  complete = refl;
}

token_granted_example :
    Gives toy_http toy_urls toy_texts toy_decoder granting grant_json toy_laws 200
      ("" <> "credentials")
      (generate_token toy_http toy_urls toy_texts toy_decoder granting grant_json proxy)
unfolding toy_laws
token_granted_example =
    token_granted toy_http toy_urls toy_texts toy_decoder granting grant_json toy_laws
      (200, "OK", "credentials") (200, "OK", "credentials") (pos 300) "token" proxy refl success
      (record { successful = refl; object = []; parses = refl; lasts = refl; has_token = refl })
      refl success

token_unreachable_example :
    Gives toy_http toy_urls toy_texts toy_decoder granting grant_json toy_laws 405
      ("" <> "Error communicating with Identity Server\n")
      (generate_token toy_http toy_urls toy_texts toy_decoder granting grant_json bare)
unfolding toy_laws
token_unreachable_example =
    token_unreachable toy_http toy_urls toy_texts toy_decoder granting grant_json toy_laws 405 bare
      (inl (refl, refl))

-- The bucket is missing at the first attempt, is made, and the second attempt is refused.
abbrev outcomes : ℕ → Upload
outcomes zero = no_such_bucket
outcomes (suc n) = other_error

abbrev pub toy_minio : Minio
toy_minio = record { forward_object = outcomes; makes_bucket = λ n. true }

abbrev put_file : Request
put_file = record { method = "PUT"; path = "bucket"; body = "text" }

never_foreign : (m : ℕ) → outcomes m ≢ foreign
never_foreign zero = λ e. cc
never_foreign (suc m) = λ e. cc

treat_request_answers_example :
    Answered toy_http toy_urls toy_texts toy_minio toy_laws ""
      (λ n. n ≡ 200)
      (treat_request toy_http toy_urls toy_texts toy_decoder refusing grant_json toy_minio 2
        put_file proxy)
unfolding toy_laws
treat_request_answers_example =
    treat_request_answers toy_http toy_laws toy_urls toy_texts toy_decoder refusing grant_json
      toy_minio 1 2 put_file proxy (omega arith) (λ e. cc) never_foreign (λ e. cc)

abbrev usable_arguments : Arguments
usable_arguments = record {
  minioendpoint = "minio:9000";
  miniosecret = "secret";
  minioaccesskey = "key";
  tokenuser = "";
  tokenpass = "";
  tokenendpoint = "";
  amendpoint = "";
}

init-IsReady_example :
    let r = init toy_http toy_urls (λ h p. false) true usable_arguments proxy initial in
    (IsUsable toy_http toy_urls (λ h p. false) true usable_arguments ↔ (r.0 ≡ returned (pos 0)))
    × (IsUsable toy_http toy_urls (λ h p. false) true usable_arguments
        ↔ IsReady toy_http toy_urls (λ h p. false) true usable_arguments r)
init-IsReady_example =
    init-IsReady toy_http toy_urls (λ h p. false) true usable_arguments proxy initial
