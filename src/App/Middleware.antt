-- ===== src/App/Middleware.antt =====
-- `RequestContextMiddleware` of app/main.py. What the application sends goes through
-- `send_with_headers`, message by message.
use analytics_pipeline.Prelude.{
  ℕ, String, ◌+◌, List, [], ◌∷◌, ◌++◌, Bool, true, false, map, length, number_of, ◌≡◌, refl, ap,
  ◌∙◌, sym, arith, length-append,
}
use mathlib.Core.List.{append-nil, append_assoc}

pub data Message : Type 0 where
  -- the status and the headers
  response_start : ℕ → List (String × String) → Message
  -- the content, and whether more of it follows
  response_body : String → Bool → Message
  other : Message

pub record Exchange : Type 0 where
  pub status_code : ℕ
  pub sent : List Message
  -- the statuses that were logged
  pub logged : List ℕ

-- the message that is passed on
unfoldable pub with_request_id : String → Message → Message
with_request_id request_id (response_start status headers) =
    response_start status (headers ++ ("x-request-id", request_id) ∷ [])
with_request_id request_id (response_body content more) = response_body content more
with_request_id request_id other = other

-- the status and the log
unfoldable pub note : Message → Exchange → Exchange
note (response_start status headers) x = record x { status_code = status }
note (response_body content true) x = x
note (response_body content false) x = record x { logged = x.logged ++ x.status_code ∷ [] }
note other x = x

unfoldable pub send_with_headers : String → Message → Exchange → Exchange
send_with_headers request_id message x =
    let x' = note message x in
    record x' { sent = x'.sent ++ with_request_id request_id message ∷ [] }

unfoldable pub send_all : String → List Message → Exchange → Exchange
send_all request_id [] x = x
send_all request_id (m ∷ ms) x = send_all request_id ms (send_with_headers request_id m x)

-- a scope that is not "http" goes to the application as it is
unfoldable pub respond_through : Bool → String → List Message → Exchange → Exchange
respond_through true request_id ms x = send_all request_id ms x
respond_through false request_id ms x = record x { sent = x.sent ++ ms }

-- the last part of a content
unfoldable pub is_last : Message → Bool
is_last (response_start status headers) = false
is_last (response_body content true) = false
is_last (response_body content false) = true
is_last other = false

note-sent : (m : Message) (x : Exchange) → (note m x).sent ≡ x.sent
unfolding note
note-sent (response_start status headers) x = refl
note-sent (response_body content true) x = refl
note-sent (response_body content false) x = refl
note-sent other x = refl

note-logged :
    (m : Message) (x : Exchange)
    → length (note m x).logged ≡ length x.logged + number_of is_last (m ∷ [])
unfolding note is_last
note-logged (response_start status headers) x = omega arith
note-logged (response_body content true) x = omega arith
note-logged (response_body content false) x =
    omega (arith, length-append x.logged (x.status_code ∷ []))
note-logged other x = omega arith

-- No message is lost, added or moved: the client gets what the application sent, each start of a
-- response with the request's id behind its headers, and one line is logged for each response that
-- ends.
pub send_all_lem :
    (request_id : String) (ms : List Message) (x : Exchange)
    → ((send_all request_id ms x).sent ≡ x.sent ++ map (with_request_id request_id) ms)
      × (length (send_all request_id ms x).logged ≡ length x.logged + number_of is_last ms)
unfolding send_all send_with_headers
send_all_lem request_id [] x = (sym (append-nil x.sent), omega arith)
send_all_lem request_id (m ∷ ms) x =
    let rest = send_all_lem request_id ms (send_with_headers request_id m x) in
    (
      rest.0
          ∙ ap
              (λ sent.
                (sent ++ with_request_id request_id m ∷ []) ++ map (with_request_id request_id) ms)
              (note-sent m x)
          ∙ append_assoc x.sent (with_request_id request_id m ∷ []) _,
      ground (arith, rest.1, note-logged m x),
    )
