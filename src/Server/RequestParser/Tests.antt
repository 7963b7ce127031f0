-- ===== src/Server/RequestParser/Tests.antt =====
-- Runs of `HTTPRequestParser`, and its theorem at one.
use small_server.Prelude.{◌≡◌, refl, false, Option, none, some, ◌++◌, Result, ok, err}
use small_server.Prelude.Text.{Text, codes, lower}
use small_server.Prelude.Dict
use small_server.Http.Headers
use small_server.Http.Request
use small_server.Http.Request.{Request}
use small_server.Server.RequestParser.{
  Parser, ParseError, pipelined, no_host, init, feed, feed_buffer, after_marker, after_head,
  feed_body, find_marker, parse_head, make_request,
}
use small_server.Server.RequestParser.Chunking.{feed-append_parser}

abbrev parser : Parser
parser = init 1000 10 100 100 false

abbrev first_part : Text
first_part = codes "POST /a?b HTTP/1.1\r\nHost: x\r\nContent-Length: 3\r\n\r\nab"

-- The body that a feed completes.
abbrev body_of : Result ParseError (Option Request) → Option Text
body_of (ok (some r)) = some r.body
body_of _ = none

test_whole : body_of (feed parser (first_part ++ codes "c")).0 ≡ some (codes "abc")
unfolding feed feed_buffer after_marker after_head feed_body find_marker parse_head make_request
    lower Headers.headers Headers.get Dict.get Dict.put Request.post_init
test_whole = refl

test_pipelined : (feed parser (first_part ++ codes "cd")).0 ≡ err pipelined
unfolding feed feed_buffer after_marker after_head feed_body find_marker parse_head make_request
    lower Headers.headers Headers.get Dict.get Dict.put Request.post_init
test_pipelined = refl

test_no_host : (feed parser (codes "GET / HTTP/1.1\r\n\r\n")).0 ≡ err no_host
unfolding feed feed_buffer after_marker after_head feed_body find_marker parse_head make_request
    lower Headers.headers Headers.get Dict.get Dict.put Request.post_init
test_no_host = refl

first_incomplete : (feed parser first_part).0 ≡ ok none
unfolding feed feed_buffer after_marker after_head feed_body find_marker parse_head make_request
    lower Headers.headers Headers.get Dict.get Dict.put Request.post_init
first_incomplete = refl

feed-append_parser_example :
    feed (feed parser first_part).1 (codes "c") ≡ feed parser (first_part ++ codes "c")
feed-append_parser_example = feed-append_parser parser first_part (codes "c") first_incomplete
