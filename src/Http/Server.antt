-- ===== src/Http/Server.antt =====
-- commonsrc/src/http_server.cpp: a connection, from the arrival of data to the answer. A response of muduo
-- is what is set on it.
use qclib.Base.{ℕ, Bool, true, not, ◌&&◌, ◌||◌, List, [], ◌∷◌, ◌++◌, if◌then◌else◌}
use qclib.Names.{Name, same}
use qclib.DbGateway.{bytes}
use qclib.Http.{HttpLib, crlf, Run, running, aborted, ended, Parse, parse_loop, parse_request}

-- `HttpResponse`
pub record HttpResponse : Type 0 where
  pub close_connection : Bool
  pub status_code : ℕ
  pub status_message : Name
  pub content_type : Name
  pub headers : List (Name × Name)
  pub body : Name

abbrev new_response : Bool → HttpResponse
new_response close = record {
  close_connection = close;
  status_code = 0;
  status_message = [];
  content_type = [];
  headers = [];
  body = [];
}

-- What is done to the connection.
pub data Action : Type 0 where
  send : Name → Action
  send_response : HttpResponse → Action
  shutdown : Action

abbrev pub bad_request : List Action
bad_request = send (bytes "HTTP/1.1 400 Bad Request" ++ (crlf ++ crlf)) ∷ shutdown ∷ []

module _ (L : HttpLib) where
  -- The text of the page has the time in it, and the icon is that of http_define.h.
  unfoldable pub on_request : Name → Name → L.Request → HttpResponse → HttpResponse
  on_request now favicon req resp =
      if same (L.path req) (bytes "/")
      then record {
        close_connection = resp.close_connection;
        status_code = 200;
        status_message = bytes "OK";
        content_type = bytes "text/html";
        headers = (bytes "Server", bytes "QCool") ∷ resp.headers;
        body =
            if L.is_post req
            then L.get_body req
            else bytes "<html><head><title>This is title</title></head><body><h1>Hello</h1>Now is "
              ++ (now ++ bytes "</body></html>");
      }
      else if same (L.path req) (bytes "/favicon.ico")
      then record resp {
        status_code = 200;
        status_message = bytes "OK";
        content_type = bytes "image/png";
        body = favicon;
      }
      else if same (L.path req) (bytes "/hello")
      then record {
        close_connection = resp.close_connection;
        status_code = 200;
        status_message = bytes "OK";
        content_type = bytes "text/plain";
        headers = (bytes "Server", bytes "Muduo") ∷ resp.headers;
        body = bytes "hello, world!\n";
      }
      else record resp {
        status_code = 404;
        status_message = bytes "Not Found";
        close_connection = true;
      }

  unfoldable pub on_http_request_inner : Name → Name → L.Request → List Action
  unfolding on_request
  on_http_request_inner now favicon req =
      let connection = L.get_header req (bytes "Connection") in
      let close =
        same connection (bytes "close")
        || (L.is_http10 req && not (same connection (bytes "Keep-Alive"))) in
      let response = on_request now favicon req (new_response close) in
      send_response response ∷ (if response.close_connection then shutdown ∷ [] else [])

  -- A connection: its context, what can be read from its buffer, and what was done to it.
  pub record Connection : Type 0 where
    pub context : L.Context
    pub buf : Name
    pub actions : List Action

  abbrev pub on_connect : Connection
  on_connect = record { context = L.new_context; buf = []; actions = [] }

  -- More data in the buffer.
  abbrev pub arrives : Name → Connection → Connection
  arrives content conn = record conn { buf = conn.buf ++ content }

  abbrev pub answer : Name → Name → List Action → Parse L → Connection
  answer now favicon actions p =
      let refused = if p.ok then actions else actions ++ bad_request in
      if L.got_all p.context
      then record {
        context = L.reset p.context;
        buf = p.buf;
        actions = refused ++ on_http_request_inner now favicon (L.request p.context);
      }
      else record { context = p.context; buf = p.buf; actions = refused }

  unfoldable pub on_lib_message_callback : ℕ → ℕ → Name → Name → Connection → Run Connection
  unfolding parse_loop on_http_request_inner
  on_lib_message_callback fuel time now favicon conn =
      elim (parse_request L fuel time conn.context conn.buf) [
        | running ↦ running
        | aborted ↦ aborted
        | ended p ↦ ended (answer now favicon conn.actions p)
      ]
