-- ===== src/Tests/Services.antt =====
-- The theorems on the service over the small database.
use anonym_sharing.Base.{◌≡◌, ◌↔◌, refl, true, false, ok, raise, type_error, pos}
use anonym_sharing.Std.Order.{bytes_order}
use anonym_sharing.Std.Map.{find, insert}
use anonym_sharing.Platform.{JsonLib, KvString, Request, http11}
use anonym_sharing.Database.{create_user, key_size}
use anonym_sharing.Database.Calls.{creates_user}
use anonym_sharing.Database.Spec.{view}
use anonym_sharing.Database.Invariant.{IsValid}
use anonym_sharing.Service.{AnonymBe}
use anonym_sharing.Service.Server.{process_input, json_headers, posrep}
use anonym_sharing.Service.Safety.{process_input-IsValid, process_input_refused}
use anonym_sharing.Service.Commands.{command}
use anonym_sharing.Service.Refinement.{
  stepped, code_of, IsAccepted, process_input_refines, process_input_answers,
}
use anonym_sharing.Service.Unreported.{type_error_unreported}
use anonym_sharing.Tests.World.{small, small-IsValid, parse_body, toy_json, toy_crypto}

abbrev server : AnonymBe
server = record { init_ = true; indexed_ = true; die_ = false; database_ = small }

-- ann exists, so her creation is refused.
abbrev create_ann : Request
create_ann = record { method = "POST"; path = "/access/user"; body = "ann" }

process_input-IsValid_example :
    IsValid (process_input toy_json toy_crypto create_ann server 0).1.database_
process_input-IsValid_example =
    process_input-IsValid toy_json toy_crypto create_ann server 0 small-IsValid

process_input_refused_example :
    (process_input toy_json toy_crypto create_ann server 0).1.database_ ≡ small
unfolding process_input toy_json toy_crypto create_user find insert
process_input_refused_example =
    process_input_refused toy_json toy_crypto create_ann server 0 http11 "Bad Request" json_headers
      "detail=attempt to create an existing user: 'ann';result=error;" small-IsValid refl

process_input_refines_example :
    view (process_input toy_json toy_crypto create_ann server 0).1.database_
    ≡ stepped (command toy_json toy_crypto create_ann 0) (view small)
process_input_refines_example = process_input_refines toy_json toy_crypto create_ann server 0

process_input_answers_example :
    let code = code_of (process_input toy_json toy_crypto create_ann server 0).0 in
    ((code ≡ 200) ↔ IsAccepted (creates_user "ann" (toy_crypto.get_rand key_size 0)) (view small))
    × ((code ≡ 400)
        ↔ (¬ IsAccepted (creates_user "ann" (toy_crypto.get_rand key_size 0)) (view small)))
unfolding toy_json toy_crypto find
process_input_answers_example =
    process_input_answers toy_json toy_crypto create_ann
      (creates_user "ann" (toy_crypto.get_rand key_size 0)) server 0 (λ m. refl) small-IsValid refl

-- The group's name is no text.
abbrev typed_json : JsonLib KvString
typed_json = record {
  parse = parse_body;
  json_str = λ j k. raise (type_error "type must be string");
  json_int = λ j k. ok (pos 300);
  dump = λ m. ok "{\"result\":\"ok\"}";
}

abbrev add_ann : Request
add_ann = record { method = "PUT"; path = "/access/usergroup"; body = "ann in team" }

type_error_unreported_example :
    ((process_input typed_json toy_crypto add_ann server 0).0 ≡ ok (posrep "{\"result\":\"ok\"}"))
    × ((process_input typed_json toy_crypto add_ann server 0).1.database_ ≡ small)
unfolding process_input toy_crypto parse_body
type_error_unreported_example =
    type_error_unreported typed_json toy_crypto add_ann server 0 "type must be string"
      "{\"result\":\"ok\"}" small-IsValid refl refl
