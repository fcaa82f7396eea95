-- ===== src/HeaderParser/Examples.antt =====
-- The theorems on `PushLine`, on lines of a request.
use httpoll.Prelude.{
  ℕ, ◌≤◌, ◌<◌, ◌≡◌, ◌⊎◌, ◌↔◌, refl, Bool, true, false, none, some, [], ◌∷◌, ◌++◌, arith, codes,
  length,
}
use httpoll.Method.{HttpMethod}
use httpoll.Version.{HttpVersion, http_version_to_string}
use httpoll.Str.{to_lower, icase_equal, icase_cmp}
use httpoll.HeaderParser.Types.{headers, done, HttpHeaderParser, initial}
use httpoll.HeaderParser.FirstLine.{post, request_line, IsRequest, push_line-request}
use httpoll.HeaderParser.States.{Moves, push_line-Moves, push_line-blank}
use httpoll.HeaderParser.Connection.{upgrade, close, Item, IsItem, render, set_tokens}
use httpoll.HeaderParser.ConnectionHeader.{push_line-connection, push_line-stuck}
use httpoll.HeaderParser.Upgrade.{WordAt, push_line-upgrade}
use httpoll.HeaderParser.{push_line}

abbrev zeros : ℕ → ℕ
zeros i = 0

abbrev at_headers : HttpHeaderParser
at_headers = record initial { state = headers }

post_line-IsRequest :
    IsRequest zeros post (codes " ") (codes "/a") HttpVersion.http_1_1 (codes "\r\n")
unfolding http_version_to_string
post_line-IsRequest = record {
  past_bytes = λ k. omega arith;
  bytes = omega arith;
  are_blank = ground arith;
  uri_some = λ e. cc;
  uri_whole = ground arith;
  known = λ e. cc;
}

push_line-request_example :
    push_line 5 zeros initial
      (request_line post (codes " ") (codes "/a") HttpVersion.http_1_1 (codes "\r\n"))
    ≡ some (record initial {
      method = HttpMethod.post;
      uri = codes "/a";
      version = HttpVersion.http_1_1;
      state = headers;
    })
push_line-request_example =
    push_line-request zeros post (codes "/a") HttpVersion.http_1_1 (codes "\r\n") (codes " ")
      post_line-IsRequest 5 initial refl

push_line-Moves_example : Moves none headers done
push_line-Moves_example =
    push_line-Moves 5 zeros at_headers (record initial { state = done }) (codes "\r\n")
      (push_line-blank 5 zeros at_headers refl refl)

abbrev first_item : Item
first_item = record { blanks = codes " "; token = upgrade; spelled = codes "Upgrade"; behind = [] }

abbrev second_item : Item
second_item = record {
  blanks = codes " ";
  token = close;
  spelled = codes "close";
  behind = codes "\r\n";
}

first_item-IsItem : IsItem first_item
unfolding icase_equal to_lower
first_item-IsItem = record {
  are_blank = ground arith;
  spells = refl;
  no_nul = ground arith;
  no_comma = ground arith;
}

second_item-IsItem : IsItem second_item
unfolding icase_equal to_lower
second_item-IsItem = record {
  are_blank = ground arith;
  spells = refl;
  no_nul = ground arith;
  no_comma = ground arith;
}

connection_spelled : icase_equal (codes "Connection:") (codes "connection:") ≡ true
unfolding icase_equal to_lower
connection_spelled = refl

push_line-connection_example :
    push_line 5 zeros at_headers
      (codes "Connection:" ++ b' ' ∷ render first_item (second_item ∷ []))
    ≡ some (record at_headers {
      connection_flags = set_tokens first_item (second_item ∷ []) at_headers.connection_flags;
    })
push_line-connection_example =
    push_line-connection 5 zeros at_headers (codes "Connection:") b' ' refl (ground arith)
      connection_spelled first_item (second_item ∷ []) first_item-IsItem (second_item-IsItem, tt)
      (omega arith)

not_upgrade : icase_cmp (codes "te\r\n") (codes "upgrade") ≡ false
unfolding icase_cmp icase_equal to_lower
not_upgrade = refl

not_keep_alive : icase_cmp (codes "te\r\n") (codes "keep-alive") ≡ false
unfolding icase_cmp icase_equal to_lower
not_keep_alive = refl

not_close : icase_cmp (codes "te\r\n") (codes "close") ≡ false
unfolding icase_cmp icase_equal to_lower
not_close = refl

push_line-stuck_example :
    push_line 5 zeros at_headers (codes "Connection:" ++ b' ' ∷ b't' ∷ codes "e\r\n") ≡ none
push_line-stuck_example =
    push_line-stuck 5 zeros at_headers (codes "Connection:") b' ' refl (ground arith)
      connection_spelled b't' (codes "e\r\n") refl not_upgrade not_keep_alive not_close

upgrade_spelled : icase_equal (codes "UPGRADE:") (codes "upgrade:") ≡ true
unfolding icase_equal to_lower
upgrade_spelled = refl

-- Without a blank behind the colon.
push_line-upgrade_example :
    let line = codes "UPGRADE:" ++ codes "websocket\r\n" in
    (flag : Bool) × (push_line 30 zeros at_headers line
      ≡ some (record at_headers { upgrade_websocket = flag }))
    × ((flag ≡ true) ↔ ((false ≡ true) ⊎ ((k : ℕ) × (9 ≤ k) × (k < length line) × WordAt line k)))
push_line-upgrade_example =
    push_line-upgrade 30 zeros at_headers (codes "UPGRADE:") (codes "websocket\r\n") refl
      (ground arith) upgrade_spelled (omega arith)
