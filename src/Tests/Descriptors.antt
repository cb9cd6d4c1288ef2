-- ===== src/Tests/Descriptors.antt =====
-- The theorems on the reads of a descriptor and on the callback for passwords.
use anonym_sharing.Base.{◌≡◌, refl, [], ◌∷◌, ◌++◌, true, some}
use anonym_sharing.Std.CString.{strlen, strncpy, terminate_at}
use anonym_sharing.EventLoop.Consume.{
  Consumed, got, failed, econnreset, consume_fd, consume_fd_ends,
}
use anonym_sharing.Tls.Context.{password_cb}

-- Two chunks, then a reset.
consume_fd_ends_example :
    (c : Consumed) × (consume_fd (got 71 (69 ∷ []) ∷ got 84 [] ∷ failed econnreset ∷ []) (1 ∷ [])
      ≡ some c)
    × (c.msg ≡ (1 ∷ []) ++ (71 ∷ 69 ∷ 84 ∷ []))
    × (c.closed ≡ true)
consume_fd_ends_example =
    consume_fd_ends ((71, 69 ∷ []) ∷ (84, []) ∷ []) (some econnreset) [] (1 ∷ [])

-- A password of three bytes in a buffer of three, which keeps two of them.
password_cb-cut : password_cb (9 ∷ 9 ∷ 9 ∷ []) 3 (97 ∷ 98 ∷ 99 ∷ []) ≡ (97 ∷ 98 ∷ 0 ∷ [], 2)
unfolding password_cb terminate_at strlen strncpy
password_cb-cut = refl
