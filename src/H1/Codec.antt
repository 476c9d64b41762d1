-- ===== src/H1/Codec.antt =====
-- src/h1/codec.rs: `H1Codec`, the state and the receiving half, with `server_parse_failure` of
-- crates/vendor-hyper/src/proto/h1/httpunk.rs. `head_buf` is left out: a reused allocation that
-- every encoded head overwrites.
pub mod Encode
pub mod Caps
pub mod Whole
pub mod Once
use httpunk.Prelude.{
  ℕ, zero, suc, ◌-◌, Bool, true, false, not, ◌&&◌, ◌||◌, Option, none, some, List, [], ◌∷◌, ◌++◌,
  leb, ltb, ◌==◌, if◌then◌else◌, length, take, drop,
}
use httpunk.H1.Hyper.{
  Hyper, h2_preface, Error, value, hyper, Result, ok, err, BodyDecode, nothing, sized, in_chunks,
  close_delimited, BodyKind, empty_kind, length_kind, chunked_kind, close_kind, ParsedRequest,
  ParsedHead, Framing,
}

-- `MINIMUM_MAX_BUFFER_SIZE`.
abbrev pub minimum_max_buffer_size : ℕ
minimum_max_buffer_size = 8192

abbrev pub starts_with : List ℕ → List ℕ → Bool
starts_with [] bytes = true
starts_with (p ∷ ps) [] = false
starts_with (p ∷ ps) (x ∷ xs) = (p == x) && starts_with ps xs

unfoldable pub has_h2_prefix : List ℕ → Bool
has_h2_prefix buf = starts_with h2_preface buf

-- `body_kind`.
unfoldable pub body_kind : BodyDecode → BodyKind × Option ℕ
body_kind nothing = (empty_kind, some 0)
body_kind (sized n) = (length_kind, some n)
body_kind in_chunks = (chunked_kind, none)
body_kind close_delimited = (close_kind, none)

abbrev pub is_close : BodyKind → Bool
is_close empty_kind = false
is_close length_kind = false
is_close chunked_kind = false
is_close close_kind = true

-- The immutable options.
pub record Options (w : Hyper) : Type 0 where
  pub max_headers : Option ℕ
  pub max_header_size : Option ℕ
  pub parser_config : w.ParserConfig
  pub title_case_headers : Bool
  pub date_header : Bool
  pub max_buf_size : ℕ

-- `State`, with the codec's options.
pub record Codec (w : Hyper) : Type 0 where
  pub options : Options w
  pub buf : List ℕ
  pub req_method : Option w.Method
  pub encoder : Option w.Encoder
  pub request_connection_close : Bool
  pub allow_trailer_fields : Bool
  pub parse_error_status : Option ℕ
  pub response_is_last : Bool
  pub response_close_delimited : Bool

-- `H1RequestHead` and `H1ResponseHead`.
pub record RequestHead (w : Hyper) : Type 0 where
  pub is_connect : Bool
  pub method : w.Method
  pub target : w.Target
  pub keep_alive : Bool
  pub headers : w.Headers
  pub kind : BodyKind
  pub content_length : Option ℕ
  pub expect_continue : Bool
  pub is_upgrade : Bool
  pub http10 : Bool
  pub allow_trailers : Bool

pub record ResponseHead (w : Hyper) : Type 0 where
  pub status : ℕ
  pub keep_alive : Bool
  pub headers : w.Headers
  pub kind : BodyKind
  pub content_length : Option ℕ
  pub is_upgrade : Bool
  pub http10 : Bool
  pub wants_keep_alive : Bool

-- A head parse: `Ok(None)`, `Ok(Some(head))`, an error, or a loop that ran out of fuel.
pub data Outcome (E A : Type 0) : Type 0 where
  incomplete : Outcome E A
  complete : A → Outcome E A
  failed : E → Outcome E A
  unfinished : Outcome E A

abbrev pub reaches : Option ℕ → ℕ → Bool
reaches none n = false
reaches (some m) n = leb m n

abbrev pub is_incomplete : {E A : Type 0} → Outcome E A → Bool
is_incomplete incomplete = true
is_incomplete (complete a) = false
is_incomplete (failed e) = false
is_incomplete unfinished = false

module _ (w : Hyper) where
  unfoldable pub new : Options w → Result (Error w.Failure) (Codec w)
  new options =
      if ltb options.max_buf_size minimum_max_buffer_size
      then err value
      else ok (record {
        options = options;
        buf = [];
        req_method = none;
        encoder = none;
        request_connection_close = false;
        allow_trailer_fields = true;
        parse_error_status = none;
        response_is_last = false;
        response_close_delimited = false;
      })

  unfoldable pub reset : Codec w → Codec w
  reset c = record c {
    req_method = none;
    encoder = none;
    request_connection_close = false;
    allow_trailer_fields = true;
    parse_error_status = none;
    response_is_last = false;
    response_close_delimited = false;
  }

  unfoldable pub feed : List ℕ → Codec w → Codec w
  feed bytes c = record c { buf = c.buf ++ bytes }

  unfoldable pub feed_buf : List ℕ → Codec w → Codec w
  feed_buf bytes c = record c { buf = c.buf ++ bytes }

  unfoldable pub take_body_raw : Codec w → Codec w × List ℕ
  take_body_raw c = (record c { buf = [] }, c.buf)

  abbrev pub buffered : Codec w → ℕ
  buffered c = length c.buf

  -- A head that is still incomplete at a limit is too large.
  unfoldable pub checked :
      {A : Type 0} → Options w → List ℕ × Result w.Failure (Option A) → List ℕ × Outcome w.Failure A
  checked o (buf, ok none) =
      if reaches o.max_header_size (length buf) || leb o.max_buf_size (length buf)
      then (buf, failed w.too_large_error)
      else (buf, incomplete)
  checked o (buf, ok (some head)) = (buf, complete head)
  checked o (buf, err e) = (buf, failed e)

  -- The loop, with the parse under its check. Past the cap only the first bytes are parsed.
  unfoldable pub bounded_parse :
      {A : Type 0}
      → ℕ
      → Options w
      → (List ℕ → List ℕ × Result w.Failure (Option A))
      → List ℕ
      → List ℕ × Outcome w.Failure A
  unfolding checked
  bounded_parse zero o parse buf = (buf, unfinished)
  bounded_parse (suc fuel) o parse buf =
      if leb (length buf) o.max_buf_size
      then checked o (parse buf)
      else (let (head, outcome) = checked o (parse (take o.max_buf_size buf)) in
          let whole = head ++ drop o.max_buf_size buf in
          let again = bounded_parse fuel o parse whole in
          if is_incomplete outcome then again else (whole, outcome))

  -- A round on the capped buffer that goes on has taken a byte from it.
  abbrev pub parse_head :
      {A : Type 0}
      → Options w
      → (List ℕ → List ℕ × Result w.Failure (Option A))
      → List ℕ
      → List ℕ × Outcome w.Failure A
  parse_head o parse buf = bounded_parse (suc (length buf)) o parse buf

  -- `server_parse_failure`: the h2 preface gets no automatic response.
  unfoldable pub server_parse_failure : List ℕ → w.Failure → w.Failure × Option ℕ
  unfolding has_h2_prefix
  server_parse_failure buf e =
      if has_h2_prefix buf then (w.version_h2_error, none) else (e, w.on_error e)

  unfoldable pub request_head : ParsedRequest w.Method w.Headers w.Target → RequestHead w
  unfolding body_kind
  request_head p =
      let (kind, content_length) = body_kind p.body in
      record {
        is_connect = w.is_connect p.method;
        method = p.method;
        target = p.target;
        keep_alive = p.keep_alive;
        headers = p.headers;
        kind = kind;
        content_length = content_length;
        expect_continue = p.expect_continue;
        is_upgrade = p.wants_upgrade;
        http10 = p.http10;
        allow_trailers = p.allow_trailers;
      }

  unfoldable pub response_head : Bool → ParsedHead w.Headers → ResponseHead w
  unfolding body_kind
  response_head request_connection_close p =
      let (kind, content_length) = body_kind p.body in
      record {
        status = p.status;
        keep_alive = p.keep_alive;
        headers = p.headers;
        kind = kind;
        content_length = content_length;
        is_upgrade = p.wants_upgrade;
        http10 = p.http10;
        wants_keep_alive = p.keep_alive && not (is_close kind) && not request_connection_close;
      }

  abbrev pub parse_request_with :
      Options w
      → List ℕ
      → List ℕ × Result w.Failure (Option (ParsedRequest w.Method w.Headers w.Target))
  parse_request_with o buf = w.parse_request o.parser_config o.max_headers o.max_header_size buf

  abbrev pub parse_response_with :
      Options w
      → Option w.Method
      → List ℕ
      → List ℕ × Result w.Failure (Option (ParsedHead w.Headers))
  parse_response_with o method buf =
      w.parse_response method o.parser_config o.max_headers o.max_header_size buf

  -- What the outcome of the parse makes of the codec.
  pub finish_request :
      Codec w
      → Outcome w.Failure (ParsedRequest w.Method w.Headers w.Target)
      → Codec w × Outcome w.Failure (RequestHead w)
  finish_request c incomplete = (c, incomplete)
  finish_request c (complete p) = (
    record c { req_method = some p.method; allow_trailer_fields = p.allow_trailers },
    complete (request_head p),
  )
  finish_request c (failed e) =
      let (e', status) = server_parse_failure c.buf e in
      (record c { parse_error_status = status }, failed e')
  finish_request c unfinished = (c, unfinished)

  unfoldable pub receive_request_head :
      List ℕ → Codec w → Codec w × Outcome w.Failure (RequestHead w)
  unfolding finish_request
  receive_request_head bytes c =
      let (buf, outcome) = parse_head c.options (parse_request_with c.options) (c.buf ++ bytes) in
      finish_request (record c { buf = buf }) outcome

  finish_response :
      Codec w
      → Outcome w.Failure (ParsedHead w.Headers)
      → Codec w × Outcome w.Failure (ResponseHead w)
  finish_response c incomplete = (c, incomplete)
  finish_response c (complete p) = (c, complete (response_head c.request_connection_close p))
  finish_response c (failed e) = (c, failed e)
  finish_response c unfinished = (c, unfinished)

  unfoldable pub receive_head : List ℕ → Codec w → Codec w × Outcome w.Failure (ResponseHead w)
  unfolding finish_response
  receive_head bytes c =
      let (buf, outcome) =
        parse_head c.options (parse_response_with c.options c.req_method) (c.buf ++ bytes) in
      finish_response (record c { buf = buf }) outcome
