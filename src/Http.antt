-- ===== src/Http.antt =====
-- commonsrc/src/http_server.cpp. A buffer of muduo is the bytes that can be read from it. muduo's request
-- and context of a connection are parameters, a record of the calls that the server makes. An assertion
-- of muduo that fails ends the program: `none`.
use qclib.Base.{
  ℕ, zero, suc, Bool, true, false, not, ◌&&◌, ◌||◌, List, [], ◌∷◌, ◌++◌, Option, none, some, ◌>>=◌,
  ◌==◌, length, take, drop, if◌then◌else◌,
}
use qclib.Names.{Name, same}
use qclib.DbGateway.{bytes, strstr}
pub mod Server
pub mod Ends
pub mod Twice
mod Tests

pub data Version : Type 0 where
  http10 http11 : Version

pub record HttpLib : Type 1 where
  pub Request : Type 0
  -- `setMethod`, which asserts that no method is set yet
  pub set_method : Request → Name → Option (Bool × Request)
  pub set_path : Request → Name → Request
  pub set_query : Request → Name → Request
  pub set_version : Request → Version → Request
  pub set_receive_time : Request → ℕ → Request
  -- `addHeader` with the text before the colon, and that from the colon on
  pub add_header : Request → Name → Name → Request
  pub set_body : Request → Name → Request
  pub is_post : Request → Bool
  pub is_http10 : Request → Bool
  pub path : Request → Name
  pub get_body : Request → Name
  pub get_header : Request → Name → Name
  -- `HttpContext`
  pub Context : Type 0
  pub new_context : Context
  pub request : Context → Request
  pub set_request : Context → Request → Context
  pub expect_request_line : Context → Bool
  pub expect_headers : Context → Bool
  pub expect_body : Context → Bool
  pub got_all : Context → Bool
  pub receive_request_line : Context → Context
  pub receive_headers : Context → Context
  pub receive_body : Context → Context
  pub reset : Context → Context

abbrev pub crlf : Name
crlf = 13 ∷ 10 ∷ []

-- `std::find`: what stands before the first such byte, and the text from it on.
abbrev pub find_byte : ℕ → Name → Option (Name × Name)
find_byte c text = strstr text (c ∷ [])

-- A loop that has not ended when its fuel is used up, the end of the program, and a result.
pub data Run (A : Type 0) : Type 0 where
  running : Run A
  aborted : Run A
  ended : A → Run A

module _ (L : HttpLib) where
  -- The last part of the request line.
  unfoldable pub read_version : Name → L.Request → Bool × L.Request
  read_version version req =
      if length version == 8 && same (take 7 version) (bytes "HTTP/1.")
      then (if same (drop 7 version) (bytes "1")
          then (true, L.set_version req http11)
          else if same (drop 7 version) (bytes "0")
          then (true, L.set_version req http10)
          else (false, req))
      else (false, req)

  unfoldable pub read_target : Name → L.Request → L.Request
  read_target target req = elim (find_byte 63 target) [
    | some (path, query) ↦ L.set_query (L.set_path req path) query
    | none ↦ L.set_path req target
  ]

  -- What follows the method.
  unfoldable pub read_line : Name → L.Request → Bool × L.Request
  unfolding read_version read_target
  read_line text req = elim (find_byte 32 text) [
    | none ↦ (false, req)
    | some (target, at) ↦ read_version (drop 1 at) (read_target target req)
  ]

  unfoldable pub process_request_line : Name → L.Context → Option (Bool × L.Context)
  unfolding read_line
  process_request_line line context = elim (find_byte 32 line) [
    | none ↦ some (false, context)
    | some (method, at) ↦ L.set_method (L.request context) method >>= λ set.
        let (known, req) = set in
        let (good, req') = read_line (drop 1 at) req in
        some
          (if known then (good, L.set_request context req') else (false, L.set_request context req))
  ]

  -- The variables of `parseRequest`.
  pub record Parse : Type 0 where
    pub ok : Bool
    pub has_more : Bool
    pub context : L.Context
    pub buf : Name

  abbrev pub no_more : Parse → Parse
  no_more p = record p { has_more = false }

  -- A line was taken apart; `at` is where it ends.
  abbrev pub after_line : ℕ → Parse → Name → Bool → L.Context → Parse
  after_line time p at good context' =
      if good
      then record {
        ok = true;
        has_more = p.has_more;
        context =
            L.receive_request_line
              (L.set_request context' (L.set_receive_time (L.request context') time));
        buf = drop 2 at;
      }
      else record { ok = false; has_more = false; context = context'; buf = p.buf }

  -- What is done with the first line of the buffer, if there is a whole one.
  abbrev pub parse_line : ℕ → Parse → Option (Name × Name) → Option Parse
  parse_line time p found = elim found [
    | none ↦ some (no_more p)
    | some (line, at) ↦ process_request_line line p.context >>= λ done.
        let (good, context') = done in some (after_line time p at good context')
  ]

  abbrev pub parse_header : Parse → Option (Name × Name) → Parse
  parse_header p found = elim found [
    | none ↦ no_more p
    | some (line, at) ↦ elim (find_byte 58 line) [
      | some (field, colon) ↦ record p {
        context = L.set_request p.context (L.add_header (L.request p.context) field colon);
        buf = drop 2 at;
      }
      | none ↦
          let context' = L.receive_headers p.context in
          record p { context = context'; buf = drop 2 at; has_more = not (L.got_all context') }
    ]
  ]

  abbrev pub parse_body : Parse → Parse
  parse_body p =
      let req = L.request p.context in
      if L.is_post req
      then record {
        ok = p.ok;
        has_more = false;
        context = L.receive_body (L.set_request p.context (L.set_body req p.buf));
        buf = [];
      }
      else record p { context = L.receive_body p.context; has_more = false }

  -- One round of the loop.
  unfoldable pub parse_round : ℕ → Parse → Option Parse
  unfolding process_request_line
  parse_round time p =
      if L.expect_request_line p.context
      then parse_line time p (strstr p.buf crlf)
      else some (
          if L.expect_headers p.context
          then parse_header p (strstr p.buf crlf)
          else if L.expect_body p.context
          then parse_body p
          else p)

  -- Each round takes one of the fuel.
  unfoldable pub parse_loop : ℕ → ℕ → Parse → Run Parse
  unfolding parse_round
  parse_loop zero time p = running
  parse_loop (suc fuel) time p = elim (parse_round time p) [
    | none ↦ aborted
    | some p' ↦ elim p'.has_more [ true ↦ parse_loop fuel time p' | false ↦ ended p' ]
  ]

  abbrev pub start_parse : L.Context → Name → Parse
  start_parse context buf = record { ok = true; has_more = true; context = context; buf = buf }

  abbrev pub parse_request : ℕ → ℕ → L.Context → Name → Run Parse
  parse_request fuel time context buf = parse_loop fuel time (start_parse context buf)
