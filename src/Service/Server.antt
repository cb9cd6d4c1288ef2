-- ===== src/Service/Server.antt =====
-- The rest of anonymbe_service.hpp: `process_input` with its handlers of exceptions, and the two
-- kinds of response.
use anonym_sharing.Base.{
  ℕ, String, ◌<>◌, true, [], ◌∷◌, none, some, Option, Result, ok, raise, out_of_range, parse_error,
  type_error, invalid_argument, logic_error, unknown, Exec, pure, if◌then◌else◌, str_eq,
}
use anonym_sharing.Std.Order.{string_order}
use anonym_sharing.Std.Map.{find, insert}
use anonym_sharing.Std.Text.{to_string}
use anonym_sharing.Platform.{
  KvString, JsonLib, Crypto, Request, Response, response, Headers, constant, text, http11,
  connection, keepalive, contenttype, default_response,
}
use anonym_sharing.Service.{
  AskyError, no_error, error_service, initialization_fail, already_initialized, bad_request,
  create_existent, non_existent, rollback_attack, wrapup, unknown_error, AnonymBe, Session,
  process_get, process_put, process_post, process_delete,
}

-- The number of the enumerator.
unfoldable pub error_code : AskyError → ℕ
error_code no_error = 0
error_code error_service = 1
error_code initialization_fail = 2
error_code already_initialized = 3
error_code bad_request = 4
error_code create_existent = 5
error_code non_existent = 6
error_code rollback_attack = 7
error_code wrapup = 8
error_code unknown_error = 9

unfoldable pub err_amcs : AskyError → String
unfolding error_code
err_amcs no_error = "No error"
err_amcs initialization_fail = "Fail to initialize AnonymBE"
err_amcs error_service = "Could not access Platform Services"
err_amcs bad_request = "Malformed request. " <> "Please, refer to the documentation."
err_amcs create_existent = "Tried to create an existing user"
err_amcs non_existent = "Tried to get or update a " <> "non-existing counter"
err_amcs wrapup = "Service is being terminated"
err_amcs e = "Unknown error: " <> to_string (error_code e)

-- How a request ended: the variables `error`, `extra` and `response` after the `try`.
pub record Outcome : Type 0 where
  pub error : AskyError
  pub extra : String
  pub reply : KvString

abbrev detail_or : Option String → String → String
detail_or none command = "Unknown command '" <> command <> "'"
detail_or (some detail) command = detail

-- The end of the `try` block and its handlers. An exception leaves `error` at `ASKY_NOERROR`
-- unless a handler sets it.
unfoldable pub conclude : Request → Result AskyError → KvString → Outcome
conclude request (ok bad_request) reply = record {
  error = bad_request;
  extra = detail_or (find "detail" reply) request.path;
  reply = reply;
}
conclude request (ok e) reply = record { error = e; extra = ""; reply = reply }
conclude request (raise (out_of_range w)) reply = record {
  error = bad_request;
  extra = w;
  reply = reply;
}
conclude request (raise (parse_error w)) reply = record {
  error = bad_request;
  extra = w;
  reply = reply;
}
conclude request (raise (invalid_argument w)) reply = record {
  error = bad_request;
  extra = w;
  reply = reply;
}
conclude request (raise (logic_error w)) reply = record {
  error = no_error;
  extra = "";
  reply = insert "info" w reply;
}
conclude request (raise unknown) reply = record { error = unknown_error; extra = ""; reply = reply }
conclude request (raise e) reply = record { error = no_error; extra = ""; reply = reply }

-- The map that `positive_response` dumps: "result" and then every entry of the response.
unfoldable pub positive_object : KvString → KvString → KvString
positive_object object [] = object
positive_object object ((key, value) ∷ reply) = positive_object (insert key value object) reply

abbrev pub json_headers : Headers
json_headers =
    (constant connection, constant keepalive) ∷ (constant contenttype, text "application/json") ∷ []

-- The two prototypes, with a body appended.
abbrev pub posrep : String → Response
posrep body = response http11 200 "OK" json_headers body

abbrev pub negrep : String → Response
negrep body = response http11 400 "Bad Request" json_headers body

module _ {J : Type 0} (json : JsonLib J) (crypto : Crypto) where
  open json use {dump}

  unfoldable pub positive_response : KvString → Result Response
  unfolding positive_object
  positive_response reply = elim (dump (positive_object (insert "result" "ok" []) reply)) [
    | ok body ↦ ok (posrep body)
    | raise e ↦ raise e
  ]

  unfoldable pub negative_response : String → String → Result Response
  negative_response msg extra =
      elim (dump
        (insert "detail" (if str_eq extra "" then msg else extra) (insert "result" "error" []))) [
          | ok body ↦ ok (negrep body)
          | raise e ↦ raise e
        ]

  -- catch (nlohmann::detail::exception &e): a print, and then `return {}`
  unfoldable pub catch_dump : Result Response → Result Response
  catch_dump (raise (out_of_range w)) = ok default_response
  catch_dump (raise (parse_error w)) = ok default_response
  catch_dump (raise (type_error w)) = ok default_response
  catch_dump r = r

  unfoldable pub answer : Outcome → Result Response
  unfolding positive_response negative_response err_amcs catch_dump
  answer o = elim o.error [
    | no_error ↦ catch_dump (positive_response o.reply)
    | e ↦ catch_dump (negative_response (err_amcs e) o.extra)
  ]

  -- The choice by the verb; any other verb does nothing and is no error.
  unfoldable pub dispatch : Request → Exec Session AskyError
  unfolding process_get process_put process_post process_delete
  dispatch request =
      if str_eq request.method "GET"
      then process_get json crypto request
      else if str_eq request.method "PUT"
      then process_put json crypto request
      else if str_eq request.method "POST"
      then process_post json crypto request
      else if str_eq request.method "DELETE"
      then process_delete json crypto request
      else pure no_error

  -- With the in-memory database a first request sets `init_`.
  abbrev pub begin : AnonymBe → ℕ → Session
  begin s draws = record { service = record s { init_ = true }; draws = draws; reply = [] }

  -- The answer, the service after the request, and the count of random draws.
  unfoldable pub process_input : Request → AnonymBe → ℕ → Result Response × AnonymBe × ℕ
  unfolding answer conclude dispatch
  process_input request s draws =
      let (r, t) = dispatch request (begin s draws) in
      (answer (conclude request r t.reply), t.service, t.draws)
