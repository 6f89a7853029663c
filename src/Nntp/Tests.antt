-- ===== src/Nntp/Tests.antt =====
-- The protocol machine and its line parser at small inputs.
use bergamot.Prelude.{ℕ, ◌≡◌, refl, ◌≢◌, ◌⊎◌, true, false, List, [], ◌∷◌, ◌++◌, none, some, arith}
use bergamot.Text.{Text, codes, byte_len, split_at, parse_uint, trim}
use bergamot.Nntp.Response.{
  NntpResponse, parse_response, ok, panicked, trim_crlf, is_body_terminator,
}
use bergamot.Nntp.Response.Laws.{
  parse_response-digits, parse_response-ne-panicked, parse_response_panics,
}
use bergamot.Nntp.Machine.Defs.{
  event, authenticated, Input, response_line, NntpMachine, idle, await_auth_user, await_auth_pass,
}
use bergamot.Nntp.Machine.{handle_input, new_after_greeting, request_auth, request_group_body}
use bergamot.Nntp.Machine.Session.{asks, auth, Reach, greeted, next, Bookkeeping, Reach-Bookkeeping}
use bergamot.Nntp.Machine.Turns.{reads, wants, handle_input-Turn}
use bergamot.Nntp.Machine.Secrets.{Says, handle_input-login}
use bergamot.Nntp.Machine.Body.{feed, transmitted, after_body, fetched, request_group_body-feed}

abbrev joined_line : Text
joined_line = codes "211 2 1 2 alt.test"

abbrev body_line_response : Text
body_line_response = codes "222 body"

abbrev answer : ℕ → Text → NntpResponse
answer code message = record { code = code; message = message }

-- A line that begins with a dot, and an empty one.
abbrev dotted : List (List ℕ)
dotted = codes ".b" ∷ [] ∷ codes "c" ∷ []

joined_line-code : parse_response joined_line ≡ ok (answer 211 (codes "2 1 2 alt.test"))
unfolding parse_response byte_len split_at parse_uint trim
joined_line-code = refl

body_line_response-code : parse_response body_line_response ≡ ok (answer 222 (codes "body"))
unfolding parse_response byte_len split_at parse_uint trim
body_line_response-code = refl

request_group_body-feed_example :
    feed
      (request_group_body (codes "alt.test") (codes "a@b") new_after_greeting)
      (response_line joined_line ∷ response_line body_line_response ∷ transmitted dotted)
    ≡ some (after_body (fetched new_after_greeting (codes "alt.test") (codes "a@b")) dotted)
unfolding new_after_greeting
request_group_body-feed_example =
    request_group_body-feed new_after_greeting (codes "alt.test") (codes "a@b") joined_line
      body_line_response (answer 211 (codes "2 1 2 alt.test")) (answer 222 (codes "body")) dotted
      refl joined_line-code refl body_line_response-code refl

-- A login on a fresh connection.
abbrev asked : NntpMachine
asked = request_auth (codes "u") (codes "p") new_after_greeting

asked-Reach : Reach asked
unfolding new_after_greeting
asked-Reach = next greeted (asks (auth (codes "u") (codes "p")) refl refl)

Reach-Bookkeeping_example : Bookkeeping asked
Reach-Bookkeeping_example = Reach-Bookkeeping asked-Reach

abbrev accepted : Input
accepted = response_line (codes "281 welcome")

abbrev logged_in : NntpMachine
logged_in = record asked {
  state = idle;
  outputs = asked.outputs ++ event authenticated ∷ [];
  pending_password = none;
  is_authenticated = true;
}

asked-logged_in : handle_input asked accepted ≡ some logged_in
unfolding handle_input request_auth new_after_greeting parse_response byte_len split_at parse_uint
asked-logged_in = refl

handle_input-Turn_example : reads logged_in.outputs ≡ reads asked.outputs ++ wants idle
handle_input-Turn_example = handle_input-Turn asked logged_in accepted asked-logged_in

handle_input-login_example :
    Says 281 accepted × ((asked.state ≡ await_auth_user) ⊎ (asked.state ≡ await_auth_pass))
unfolding request_auth new_after_greeting
handle_input-login_example = handle_input-login asked accepted refl asked-logged_in refl

parse_response-digits_example :
    parse_response (codes "430 no such article")
    ≡ ok (record { code = 430; message = codes "no such article" })
unfolding trim
parse_response-digits_example =
    parse_response-digits 4 3 0 (codes " no such article") (omega arith) (omega arith) (omega arith)

parse_response-ne-panicked_example : parse_response (codes "20") ≢ panicked
parse_response-ne-panicked_example =
    parse_response-ne-panicked (codes "20") (omega arith, (omega arith, tt))

-- The line `20é`.
parse_response_panics_example : parse_response (b'2' ∷ b'0' ∷ 0xe9 ∷ []) ≡ panicked
parse_response_panics_example =
    parse_response_panics b'2' b'0' 0xe9 [] (omega arith) (omega arith) (omega arith)

trims_line_ends : trim_crlf (codes "a\r\n") ≡ codes "a"
unfolding trim_crlf
trims_line_ends = refl

ends_at_a_dot : is_body_terminator (codes "..") ≡ false
unfolding is_body_terminator
ends_at_a_dot = refl
