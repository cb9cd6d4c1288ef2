-- ===== src/Opening/Envelopes.antt =====
-- The client opens what the access monitor has sealed, with either kind of envelope.
use anonym_sharing.Base.{ℕ, suc, ◌≡◌, ap, ◌∙◌, arith, Bool, true, false, Option, some, length}
use anonym_sharing.Std.Order.{Bytes, string_order}
use anonym_sharing.Platform.{JsonLib, Crypto}
use anonym_sharing.Database.{KeyArray}
use anonym_sharing.Service.{envelope_text}
use anonym_sharing.Service.Envelope.{In}
use anonym_sharing.Opening.{Opened, opened, not_in_envelope, open_envelope, open_indexed}
use anonym_sharing.Opening.Sealing.{SealLaws, Apart}
use anonym_sharing.Opening.Seeking.{open_indexed_lem, table_member, table_foreign}
use anonym_sharing.Opening.Trying.{open_loop_member, open_loop_foreign}

module _ {J : Type 0} (json : JsonLib J) (crypto : Crypto)
    (decrypt : Bytes → Bytes → Option Bytes) where
  -- The client of an indexed envelope, and that of a plain one.
  abbrev pub open_as : Bool → Bytes → Bytes → Option Opened
  open_as true envelope key = open_indexed decrypt crypto.sha224 envelope key
  open_as false envelope key = open_envelope decrypt envelope key

  -- Whoever has a key of the array opens the envelope, of either kind, to the bucket key, and nobody
  -- else opens it.
  pub envelope_opens :
      (laws : SealLaws crypto decrypt) (indexed : Bool) (bucket_key key : Bytes) (ka : KeyArray)
      (d : ℕ) (sized : length bucket_key ≡ 32)
      → length key ≡ 32
      → Apart crypto decrypt bucket_key (crypto.get_rand 12 d) key ka
      → let r = open_as indexed (envelope_text json crypto indexed bucket_key ka d).0 key in
        (In key ka → r ≡ some (opened bucket_key)) × ((¬ In key ka) → r ≡ some not_in_envelope)
  unfolding envelope_text open_envelope
  envelope_opens laws true bucket_key key ka d sized k a =
      let nonce = crypto.get_rand 12 d in
      let found =
        open_indexed_lem crypto decrypt laws bucket_key sized nonce key ka (suc d)
          (laws.length-get_rand 12 d) k in
      (
        λ i.
            found
            ∙ ap some (table_member crypto decrypt laws bucket_key sized nonce key ka (suc d) a i),
        λ i.
            found
            ∙ ap some (table_foreign crypto decrypt laws bucket_key sized nonce key ka (suc d) a i),
      )
  envelope_opens laws false bucket_key key ka d sized k a =
      let nonce = crypto.get_rand 12 d in
      (
        λ i.
            open_loop_member crypto decrypt laws bucket_key sized nonce key ka d
              (suc (length (envelope_text json crypto false bucket_key ka d).0)) a (omega arith) i,
        λ i.
            open_loop_foreign crypto decrypt laws bucket_key sized nonce key ka d
              (suc (length (envelope_text json crypto false bucket_key ka d).0)) a (omega arith) i,
      )
