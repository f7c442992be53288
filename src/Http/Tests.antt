-- ===== src/Http/Tests.antt =====
-- Runs of the HTTP server over a small request and context, and the theorems at concrete inputs.
use qclib.Base.{ℕ, ◌≡◌, ◌⊎◌, refl, arith, Bool, true, false, ◌||◌, [], ◌++◌, Option, none, some}
use qclib.Names.{Name, same}
use qclib.DbGateway.{bytes, strstr}
use qclib.Http.{
  Version, HttpLib, crlf, aborted, ended, read_target, read_version, read_line, parse_round,
  parse_loop,
}
use qclib.Http.Server.{bad_request, Connection, on_connect, arrives, on_lib_message_callback}
use qclib.Http.Ends.{
  Phase, at_line, at_headers, at_body, at_end, is_line, is_headers, is_body, is_end, IsLawful,
  opened, later, on_lib_message_callback-ends,
}
use qclib.Http.Twice.{KeepsMethod, bad_line-twice}

record SmallRequest : Type 0 where
  has_method : Bool
  posted : Bool
  target : Name

abbrev chosen : Bool → Bool → SmallRequest → SmallRequest → Option (Bool × SmallRequest)
chosen true get s r = none
chosen false true s r = some (true, s)
chosen false false s r = some (false, r)

abbrev set_small_method : SmallRequest → Name → Option (Bool × SmallRequest)
set_small_method r m =
    chosen r.has_method (same m (bytes "GET") || same m (bytes "POST"))
      (record r { has_method = true; posted = same m (bytes "POST") }) r

abbrev small_http : HttpLib
small_http = record {
  Request = SmallRequest;
  set_method = set_small_method;
  set_path = λ (r : SmallRequest) (p : Name). record r { target = p };
  set_query = λ (r : SmallRequest) (q : Name). r;
  set_version = λ (r : SmallRequest) (v : Version). r;
  set_receive_time = λ (r : SmallRequest) (t : ℕ). r;
  add_header = λ (r : SmallRequest) (field value : Name). r;
  set_body = λ (r : SmallRequest) (body : Name). r;
  is_post = λ (r : SmallRequest). r.posted;
  is_http10 = λ (r : SmallRequest). false;
  path = λ (r : SmallRequest). r.target;
  get_body = λ (r : SmallRequest). [];
  get_header = λ (r : SmallRequest) (field : Name). [];
  Context = Phase × SmallRequest;
  new_context = (at_line, record { has_method = false; posted = false; target = [] });
  request = λ (c : Phase × SmallRequest). c.1;
  set_request = λ (c : Phase × SmallRequest) (r : SmallRequest). (c.0, r);
  expect_request_line = λ (c : Phase × SmallRequest). is_line c.0;
  expect_headers = λ (c : Phase × SmallRequest). is_headers c.0;
  expect_body = λ (c : Phase × SmallRequest). is_body c.0;
  got_all = λ (c : Phase × SmallRequest). is_end c.0;
  receive_request_line = λ (c : Phase × SmallRequest). (at_headers, c.1);
  receive_headers = λ (c : Phase × SmallRequest). (at_body, c.1);
  receive_body = λ (c : Phase × SmallRequest). (at_end, c.1);
  reset = λ (c : Phase × SmallRequest).
      (at_line, record { has_method = false; posted = false; target = [] });
}

abbrev small_phase : small_http.Context → Phase
small_phase c = c.0

small_http-IsLawful : IsLawful small_http small_phase
small_http-IsLawful = record {
  line_lem = λ c. refl;
  headers_lem = λ c. refl;
  body_lem = λ c. refl;
  end_lem = λ c. refl;
  new_lem = refl;
  reset_lem = λ c. refl;
  line_received = λ c. refl;
  headers_received = λ c. refl;
  body_received = λ c. refl;
  request_lem = λ c r. refl;
}

-- A request whose line comes in two pieces.
abbrev half_line : Connection small_http
half_line = record { context = small_http.new_context; buf = bytes "GET /he"; actions = [] }

abbrev second_half : Name
second_half = bytes "llo HTTP/1.1" ++ (crlf ++ crlf)

half_line-waits :
    on_lib_message_callback small_http 8 0 [] []
      (arrives small_http (bytes "GET /he") (on_connect small_http))
    ≡ ended half_line
unfolding on_lib_message_callback parse_loop parse_round strstr
half_line-waits = refl

on_lib_message_callback-ends_example :
    (on_lib_message_callback small_http 50 0 [] [] (arrives small_http second_half half_line)
      ≡ aborted)
    ⊎ ((conn' : Connection small_http) × (on_lib_message_callback small_http 50 0 [] []
            (arrives small_http second_half half_line)
          ≡ ended conn'))
on_lib_message_callback-ends_example =
    on_lib_message_callback-ends small_http small_phase small_http-IsLawful 50 0 [] [] second_half
      half_line
      (later 8 0 [] [] (bytes "GET /he") (on_connect small_http) half_line opened half_line-waits)
      (omega arith)

abbrev small_has_method : small_http.Request → Bool
small_has_method r = r.has_method

set_small-known :
    (known : Bool) (get : Bool) (r r' s : SmallRequest)
    → chosen known get s r ≡ some (true, r')
    → s.has_method ≡ true
    → r'.has_method ≡ true
set_small-known true get r r' s h k = cc
set_small-known false true r r' s h k = cc
set_small-known false false r r' s h k = cc

small_http-KeepsMethod : KeepsMethod small_http small_has_method
small_http-KeepsMethod = record {
  set_twice = λ r m h. rw (h, chosen) refl;
  set_known = λ r r' m h. set_small-known r.has_method _ r r' _ h refl;
  path_lem = λ r p. refl;
  query_lem = λ r q. refl;
  version_lem = λ r v. refl;
  kept_request = λ c r. refl;
}

abbrev bad_line : Connection small_http
bad_line = record {
  context = small_http.new_context;
  buf = bytes "GET / FTP" ++ crlf;
  actions = [];
}

bad_line-twice_example :
    (conn' : Connection small_http) × (on_lib_message_callback small_http 1 0 [] [] bad_line
      ≡ ended conn')
    × (conn'.actions ≡ bad_request)
    × (on_lib_message_callback small_http 1 0 [] [] (arrives small_http (bytes "x") conn')
        ≡ aborted)
unfolding strstr read_line read_version read_target same
bad_line-twice_example =
    bad_line-twice small_http small_phase small_http-IsLawful small_has_method
      small_http-KeepsMethod 0 0 0 0 [] [] [] (bytes "x") (bytes "GET / FTP") crlf (bytes "GET")
      (bytes " / FTP") (record { has_method = true; posted = false; target = [] }) bad_line refl
      refl refl refl refl
