-- ===== src/Service/Unreported.antt =====
-- A failure that `process_input` of anonymbe_service.hpp answers as a success.
use anonym_sharing.Base.{◌≡◌, String, ok, raise, type_error, ℕ, arith, []}
use anonym_sharing.Std.Order.{string_order}
use anonym_sharing.Std.Map.{insert}
use anonym_sharing.Database.Invariant.{IsValid}
use anonym_sharing.Platform.{JsonLib, Crypto, Request}
use anonym_sharing.Service.{AnonymBe}
use anonym_sharing.Service.Server.{
  dispatch, begin, process_input, answer, conclude, positive_response, positive_object, catch_dump,
  posrep,
}
use anonym_sharing.Service.Safety.{dispatch-Commits}

module _ {J : Type 0} (json : JsonLib J) (crypto : Crypto) where
  open json use {dump}

  -- Where a request meets a type_error of the JSON library, as for a field that is no text, it is
  -- answered with code 200 and "result": "ok", although the database is as it was. (The database is
  -- valid, and the library prints the answer.)
  pub type_error_unreported :
      (r : Request) (s : AnonymBe) (draws : ℕ) (w body : String)
      → IsValid s.database_
      → (dispatch json crypto r (begin json crypto s draws)).0 ≡ raise (type_error w)
      → dump (
          positive_object
            (insert "result" "ok" [])
            (dispatch json crypto r (begin json crypto s draws)).1.reply)
        ≡ ok body
      → ((process_input json crypto r s draws).0 ≡ ok (posrep body))
        × ((process_input json crypto r s draws).1.database_ ≡ s.database_)
  unfolding process_input answer conclude positive_response catch_dump
  type_error_unreported r s draws w body v e d = (
    rw e (rw (d, answer, positive_response)),
    (dispatch-Commits json crypto r).at (begin json crypto s draws) v (λ n. ground (arith, n, e)),
  )
