-- ===== src/H2/Session/Receive.antt =====
-- The frames that nghttp2 reports to src/h2/session.cpp.
use anyhttp.Prelude.{
  Bool, true, false, Option, none, some, List, [], ◌∷◌, ◌++◌, Bytes, is_empty, ltb, if◌then◌else◌,
  ℤ, pos, negsuc,
}
use anyhttp.Completion.{Reaction}
use anyhttp.H2.State.{
  NgHttp2Stream, Event, submit_rst_stream, stream_closed, internal_error, start_write,
  launch_handler, launch_too_large, launch_not_found, on_alt_svc,
}
use anyhttp.H2.Stream.Reading.{on_eof, at_rest, Pass}
use anyhttp.H2.Stream.Response.{Delivery, on_response}
use anyhttp.H2.Session.Streams.{NgHttp2Session, Outcome, find_stream, after}

-- The category of a HEADERS frame; a response comes with the value of its Alt-Svc field.
pub data Category : Type 0 where
  request trailers : Category
  response : Bytes → Category

-- What is looked at of a frame, with END_STREAM for DATA and HEADERS.
pub data Frame : Type 0 where
  altsvc : Bytes → Frame
  data_frame : Bool → Frame
  headers : Category → Bool → Frame
  other : Frame

-- The request handler runs later; `has_handler` says whether the server has one.
unfoldable pub on_request : Bool → NgHttp2Stream → NgHttp2Stream × List Event
on_request has_handler s = (
  record s { input = record s.input { reader = true }; output = record s.output { writer = true } },
  (if s.answer.header_limit_exceeded
        then launch_too_large
        else if has_handler
        then launch_handler
        else launch_not_found)
      ∷ [],
)

abbrev pub heard : Bytes → List Event
heard value = if is_empty value then [] else on_alt_svc value ∷ []

-- A complete header section.
unfoldable pub on_headers : Bool → NgHttp2Stream → Category → Delivery
unfolding on_request on_response
on_headers has_handler s request =
    let (t, events) = on_request has_handler s in
    record { stream = t; events = events; closes = false }
on_headers has_handler s trailers = record { stream = s; events = []; closes = false }
on_headers has_handler s (response alt_svc) =
    let d = on_response s in record d { events = heard alt_svc ++ d.events }

-- `if (frame->hd.flags & NGHTTP2_FLAG_END_STREAM) stream->on_eof(…)`
unfoldable pub end_if : Bool → List Reaction → NgHttp2Stream → Pass
unfolding on_eof
end_if true xs s = on_eof xs s
end_if false xs s = at_rest s

unfoldable pub frame_for :
    List Reaction → Bool → NgHttp2Session → ℤ → Frame → NgHttp2Stream → Outcome
unfolding end_if on_headers after
frame_for xs has_handler s id (data_frame fin) t =
    let p = end_if fin xs t in after [] s id p.stream p.events p.closes
frame_for xs has_handler s id (headers category fin) t =
    let d = on_headers has_handler t category in
    let (r, events) = after [] s id d.stream d.events d.closes in
    let p = end_if fin xs d.stream in
    let (q, more) = after [] r id p.stream p.events p.closes in
    (q, events ++ more ++ (start_write ∷ []))
frame_for xs has_handler s id _ t = (s, [])

abbrev pub is_positive : ℤ → Bool
is_positive (pos n) = ltb 0 n
is_positive (negsuc n) = false

-- Without a stream, a frame on one is answered with a reset.
unfoldable pub frame_found :
    List Reaction → Bool → NgHttp2Session → ℤ → Frame → Option NgHttp2Stream → Outcome
unfolding frame_for
frame_found xs has_handler s id f none =
    (s, if is_positive id then submit_rst_stream stream_closed ∷ [] else [])
frame_found xs has_handler s id f (some t) = frame_for xs has_handler s id f t

unfoldable pub on_frame_recv : List Reaction → Bool → NgHttp2Session → ℤ → Frame → Outcome
unfolding frame_found find_stream
on_frame_recv xs has_handler s id (altsvc value) = (s, on_alt_svc value ∷ [])
on_frame_recv xs has_handler s id f = frame_found xs has_handler s id f (find_stream id s.streams)

-- A response that could not be sent leaves its stream open, and is reset.
unfoldable pub on_frame_not_send : Frame → List Event
on_frame_not_send (headers request fin) = []
on_frame_not_send (headers _ fin) = submit_rst_stream internal_error ∷ []
on_frame_not_send _ = []
