-- ===== src/Nntp/Machine/Body.antt =====
-- The body of an article, line by line, and a whole pipelined fetch.
use bergamot.Prelude.{
  if◌then◌else◌, ◌∙◌, ℕ, ◌≡◌, refl, false, List, [], ◌∷◌, ◌++◌, Option, none, some, arith, ◌==◌,
  append_assoc,
}
use bergamot.Text.{Text, codes}
use bergamot.Nntp.Response.{NntpResponse, parse_response, ok}
use bergamot.Nntp.Machine.Defs.{
  enter, Input, response_line, body_line, body_end, Output, send_command, need_response_line,
  need_body_line, event, idle, reading_body, await_pipelined_body_response, NntpMachine, push,
  group_joined, body_chunk, event_body_end,
}
use bergamot.Nntp.Machine.{
  handle_input, dispatch, request_group_body, pipelined_group, body_response, is_group, unstuff,
  bracketed,
}

-- RFC 3977 section 3.1.1: the sender of a line that begins with a dot puts one more dot before it.
abbrev pub stuff : List ℕ → List ℕ
stuff [] = []
stuff (c ∷ line) = if c == b'.' then b'.' ∷ c ∷ line else c ∷ line

unstuff-stuff : (line : List ℕ) → unstuff (stuff line) ≡ line
unfolding unstuff
unstuff-stuff [] = refl
unstuff-stuff (a ∷ []) = ground arith
unstuff-stuff (a ∷ b ∷ rest) = ground arith

-- Inputs in a row; a panic ends them.
abbrev pub feed : NntpMachine → List Input → Option NntpMachine
feed m [] = some m
feed m (i ∷ is) = elim (handle_input m i) [ none ↦ none | some m' ↦ feed m' is ]

-- What the server sends for a body of these lines, and what the client is then given.
abbrev pub transmitted : List (List ℕ) → List Input
transmitted [] = body_end ∷ []
transmitted (l ∷ ls) = body_line (stuff l) ∷ transmitted ls

abbrev pub delivered : List (List ℕ) → List Output
delivered [] = event event_body_end ∷ []
delivered (l ∷ ls) = event (body_chunk l) ∷ need_body_line ∷ delivered ls

-- The machine after a body.
abbrev pub after_body : NntpMachine → List (List ℕ) → NntpMachine
after_body m ls = record m {
  state = idle;
  outputs = m.outputs ++ delivered ls;
  pending_message_id = none;
}

feed-line :
    (m : NntpMachine) (line : List ℕ)
    → m.state ≡ reading_body
    → handle_input m (body_line (stuff line))
      ≡ some (record m {
        outputs = (m.outputs ++ event (body_chunk line) ∷ []) ++ need_body_line ∷ [];
      })
unfolding handle_input dispatch push
feed-line m line e = ground (arith, unstuff-stuff line)

feed-body_end :
    (m : NntpMachine) → m.state ≡ reading_body → handle_input m body_end ≡ some (after_body m [])
unfolding handle_input dispatch push enter
feed-body_end m e = ground arith

-- While a body is read, the lines that the sender stuffed come out as they were, one event and one
-- read request for each, and the end of the body leaves the machine idle.
pub feed-transmitted :
    (m : NntpMachine) (ls : List (List ℕ))
    → m.state ≡ reading_body
    → feed m (transmitted ls) ≡ some (after_body m ls)
feed-transmitted m [] e = rw (feed-body_end m e, feed)
feed-transmitted m (l ∷ ls) e =
    rw (feed-line m l e, feed) (feed-transmitted _ ls e ∙ simp append_assoc)

-- The machine when the body of a pipelined fetch can be read.
abbrev pub fetched : NntpMachine → Text → Text → NntpMachine
fetched m g i = record m {
  state = reading_body;
  outputs =
      m.outputs
      ++ send_command (codes "GROUP " ++ g)
        ∷ send_command (codes "BODY " ++ bracketed i)
        ∷ need_response_line
        ∷ event (group_joined g)
        ∷ need_response_line
        ∷ need_body_line
        ∷ [];
  current_group = some g;
  pending_group = none;
  pending_message_id = some i;
}

-- The machine when the group has been joined and the second response is still to come.
abbrev half : NntpMachine → Text → Text → NntpMachine
half m g i = record m {
  state = await_pipelined_body_response;
  outputs =
      ((((m.outputs ++ send_command (codes "GROUP " ++ g) ∷ [])
            ++ send_command (codes "BODY " ++ bracketed i) ∷ [])
          ++ need_response_line ∷ [])
        ++ event (group_joined g) ∷ [])
      ++ need_response_line ∷ [];
  current_group = some g;
  pending_group = none;
  pending_message_id = some i;
}

first_response :
    (m : NntpMachine) (g i l : Text) (r : NntpResponse)
    → is_group m.current_group g ≡ false
    → parse_response l ≡ ok r
    → r.code ≡ 211
    → handle_input (request_group_body g i m) (response_line l) ≡ some (half m g i)
unfolding handle_input dispatch push enter request_group_body pipelined_group
first_response m g i l r other p c = ground arith

second_response :
    (m : NntpMachine) (g i l : Text) (r : NntpResponse)
    → parse_response l ≡ ok r
    → r.code ≡ 222
    → handle_input (half m g i) (response_line l) ≡ some (fetched m g i)
unfolding handle_input dispatch push enter body_response
second_response m g i l r p c =
    let e : (half m g i).outputs ++ need_body_line ∷ [] ≡ (fetched m g i).outputs =
      simp append_assoc in
    ground arith

-- A pipelined fetch by a machine outside the group: answered by 211, 222 and the stuffed lines of a
-- body, it sends both commands before it reads, joins the group, hands every line over as it was
-- before stuffing, ends the body, and leaves the machine idle in the group.
pub request_group_body-feed :
    (m : NntpMachine) (g i l1 l2 : Text) (r1 r2 : NntpResponse) (ls : List (List ℕ))
    → is_group m.current_group g ≡ false
    → parse_response l1 ≡ ok r1
    → r1.code ≡ 211
    → parse_response l2 ≡ ok r2
    → r2.code ≡ 222
    → feed (request_group_body g i m) (response_line l1 ∷ response_line l2 ∷ transmitted ls)
      ≡ some (after_body (fetched m g i) ls)
request_group_body-feed m g i l1 l2 r1 r2 ls other p1 c1 p2 c2 =
    rw (first_response m g i l1 r1 other p1 c1, feed)
      (rw (second_response m g i l2 r2 p2 c2, feed) (feed-transmitted (fetched m g i) ls refl))
